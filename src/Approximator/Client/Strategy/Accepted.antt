-- ===== src/Approximator/Client/Strategy/Accepted.antt =====
-- The put of the automatic strategy, as the server reads it.
use computer_networks_course.Prelude.{ℕ, ◌≤◌, ◌≡◌, refl, true, false, ◌||◌, some, arith, ltb_ℤ, pos}
use computer_networks_course.Outcome.{done}
use computer_networks_course.Approximator.Constants.{
  Double, eps, min_put_value, max_put_value, max_k,
}
use computer_networks_course.Approximator.MsgParser.Integer.Laws.{in_int}
use computer_networks_course.Approximator.MsgParser.Message.{
  Message, put, create_message, create_message_with_crlf,
}
use computer_networks_course.Approximator.MsgParser.Printer.{create_put}
use computer_networks_course.Approximator.MsgParser.Printer.Laws.{
  ReadsBack, Printable, create_put-RoundTrip,
}
use computer_networks_course.Approximator.ServerLogic.State.{Server}
use computer_networks_course.Approximator.ServerLogic.Handlers.{out_of_range}
use computer_networks_course.Approximator.Client.State.{Client}
use computer_networks_course.Approximator.Client.Strategy.{get_best_put}
use computer_networks_course.Approximator.Client.Strategy.Maximum.{Order}
use computer_networks_course.Approximator.Client.Strategy.BestPut.{
  Ready, IsBest, last_point, get_best_put-IsBest,
}

-- Rounding is monotone. Adding eps does not take a value below a bound that it is not below, and
-- subtracting it does not take one above; of two values, the larger one does not read back from its
-- print as the smaller one; and the bounds of a put read back as they are.
pub record Monotone {F : Type 0} (d : Double F) : Type 0 where
  pub add_eps : (a b : F) → d.lt a b ≡ false → d.lt (d.add a (eps ⦃d = d⦄)) b ≡ false
  pub sub_eps : (a b : F) → d.lt b a ≡ false → d.lt b (d.sub a (eps ⦃d = d⦄)) ≡ false
  pub printing :
      (a a' b b' : F)
      → ReadsBack ⦃d = d⦄ a a'
      → ReadsBack ⦃d = d⦄ b b'
      → d.lt b a ≡ false
      → d.lt b' a' ≡ false
  pub least : ReadsBack ⦃d = d⦄ (min_put_value ⦃d = d⦄) (min_put_value ⦃d = d⦄)
  pub greatest : ReadsBack ⦃d = d⦄ (max_put_value ⦃d = d⦄) (max_put_value ⦃d = d⦄)

point_in : (i k : ℕ) → i ≤ k → (ltb_ℤ (pos i) (pos 0) || ltb_ℤ (pos k) (pos i)) ≡ false
point_in i k h = ground arith

point_in_int : (i k : ℕ) → i ≤ k → k ≤ max_k → in_int (pos i) ≡ true
point_in_int i k h few = ground arith

module _ {F : Type 0} ⦃d : Double F⦄ where
  read_in_range :
      (monotone : Monotone d) (c c' : Client F) (s : Server F) (i : ℕ) (value value' : F)
      → last_point c ≤ s.k
      → IsBest c i value c'
      → ReadsBack value value'
      → out_of_range s (pos i) value' ≡ false
  unfolding out_of_range
  read_in_range monotone c c' s i value value' h best read =
      let low =
        monotone.printing min_put_value min_put_value value value' monotone.least read
          best.not_low in
      let high =
        monotone.printing value value' max_put_value max_put_value read monotone.greatest
          best.not_high in
      rw
        (
          point_in i s.k (omega (arith, best.in_range)),
          monotone.add_eps value' min_put_value low,
          monotone.sub_eps value' max_put_value high,
        )
        refl

  -- The put that the automatic strategy chooses is printed as a PUT that reads back with the same
  -- point and a value that is not out of range for a server whose K, at most max_k, is at least the
  -- last point that the client knows. The client has a value for each point, `<` is an order on the
  -- values, values print as decimals that read back, in an order that printing and reading keep,
  -- the bounds of a put as themselves, and adding or subtracting eps takes no value past a bound
  -- that it has not passed.
  pub get_best_put-accepted :
      (order : Order d) (printable : Printable d) (monotone : Monotone d) (c : Client F)
      (s : Server F)
      → Ready c
      → last_point c ≤ s.k
      → s.k ≤ max_k
      → (c' : Client F) × (i : ℕ) × (value value' : F) × (msg : Message F) × (get_best_put c
          ≡ done (c', i, value))
        × (create_put (pos i) value ≡ some msg)
        × (create_message msg.raw_message ≡ some msg)
        × (msg.body ≡ put (pos i) value')
        × (out_of_range s (pos i) value' ≡ false)
  get_best_put-accepted order printable monotone c s ready h few =
      let (c', i, value, e, best) = get_best_put-IsBest order c ready in
      let (value', read) = printable value in
      let written =
        (create_put-RoundTrip (pos i) value value'
          (point_in_int i s.k (omega (arith, best.in_range)) few) read).0 in
      (
        c',
        i,
        value,
        value',
        _,
        e,
        written,
        (unfold create_put create_message_with_crlf in written),
        refl,
        read_in_range monotone c c' s i value value' h best read,
      )
