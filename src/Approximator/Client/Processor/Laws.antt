-- ===== src/Approximator/Client/Processor/Laws.antt =====
-- What a message does to the counter of unanswered puts.
use computer_networks_course.Prelude.{
  ℕ, ◌+◌, ◌-◌, ◌≤◌, ◌≡◌, refl, Bool, true, false, ◌&&◌, ◌||◌, not, List, arith, if◌then◌else◌,
  length, Text, ℤ,
}
use computer_networks_course.Outcome.{
  Yields, yields, on_fatal, Yields-bind, Yields-behind, Yields-if,
}
use computer_networks_course.Approximator.Constants.{Double}
use computer_networks_course.Approximator.MsgParser.Message.{
  Message, Body, hello, coeff, put, bad_put, penalty, state, scoring,
}
use computer_networks_course.Approximator.Client.State.{
  Client, log_stdout, log_stderr, decrement_puts_without_answer,
}
use computer_networks_course.Approximator.Client.Strategy.{poly_at}
use computer_networks_course.Approximator.Client.Processor.{
  Progress, process_coeff_message, process_bad_put_message, process_penalty_message,
  process_scoring_message, process_state_message, learn_coeffs, all_real_values, learn_points,
  set_points, process_first, process_later, process_message,
}

-- The counter falls by at most `m`, and the kind of the client is the same.
abbrev pub Falls : {F : Type 0} → ℕ → Client F → Client F → Type 0
Falls m c c' =
    (c'.puts_without_answer ≤ c.puts_without_answer)
    × (c.puts_without_answer ≤ c'.puts_without_answer + m)
    × (c'.is_auto_strategy ≡ c.is_auto_strategy)

Falls-refl : {F : Type 0} (c : Client F) → Falls 0 c c
Falls-refl c = (omega arith, omega arith, refl)

Falls-same : {F : Type 0} (c : Client F) → Falls 1 c c
Falls-same c = (omega arith, omega arith, refl)

-- An answer to a put.
abbrev pub is_answer : {F : Type 0} → Body F → Bool
is_answer (hello i) = false
is_answer (coeff cs) = false
is_answer (put p v) = false
is_answer (bad_put p v) = true
is_answer (penalty p v) = false
is_answer (state vs) = true
is_answer (scoring ids ss) = false

abbrev pub one_if : Bool → ℕ
one_if b = if b then 1 else 0

Falls-decrement : {F : Type 0} (c : Client F) → Falls 1 c (decrement_puts_without_answer c).0
unfolding decrement_puts_without_answer
Falls-decrement c = ground arith

module _ {F : Type 0} ⦃d : Double F⦄ where
  Falls-coeff : (cs : List F) (c : Client F) → Yields (Falls 1 c) (process_coeff_message cs c)
  unfolding process_coeff_message learn_coeffs log_stdout
  Falls-coeff cs c =
      Yields-behind (poly_at (learn_coeffs cs c) 0)
        λ r. Yields-behind (poly_at (learn_coeffs cs c) 1) λ q. yields (Falls-decrement _)

  Falls-bad_put :
      (point : ℤ) (value : F) (c : Client F) → Falls 1 c (process_bad_put_message point value c).0
  unfolding process_bad_put_message log_stdout decrement_puts_without_answer
  Falls-bad_put point value c = ground arith

  Falls-learn : (k : ℕ) (c : Client F) → Yields (Falls 1 c) (learn_points k c)
  unfolding learn_points set_points
  Falls-learn k c =
      Yields-behind (all_real_values (set_points k c) (k + 1) 0) (λ v. yields (Falls-decrement _))

  Falls-state :
      (msg : Message F) (vs : List F) (c : Client F)
      → Yields (λ r. Falls 1 c r.0) (process_state_message msg vs c)
  unfolding process_state_message log_stdout
  Falls-state msg vs c =
      Yields-if (c.is_auto_strategy && not c.k_set)
        (λ l. Yields-bind (Falls 1 c) (Falls-learn (length vs - 1) _) (λ c' f. yields f))
        (λ n.
          Yields-if c.is_auto_strategy (λ a. yields (Falls-decrement _))
            (λ b. yields (Falls-same c)))

  Falls-first : (b : Body F) (c : Client F) → Yields (Falls 1 c) (process_first b c)
  unfolding process_first
  Falls-first (hello i) c = on_fatal
  Falls-first (coeff cs) c = Falls-coeff cs c
  Falls-first (put p v) c = on_fatal
  Falls-first (bad_put p v) c = on_fatal
  Falls-first (penalty p v) c = on_fatal
  Falls-first (state vs) c = on_fatal
  Falls-first (scoring ids ss) c = on_fatal

  Falls-later :
      (msg : Message F) (b : Body F) (c : Client F)
      → Yields (λ r. Falls (one_if (is_answer b)) c r.0) (process_later msg b c)
  unfolding process_later process_penalty_message process_scoring_message log_stdout
  Falls-later msg (hello i) c = yields (Falls-refl c)
  Falls-later msg (coeff cs) c = yields (Falls-refl c)
  Falls-later msg (put p v) c = yields (Falls-refl c)
  Falls-later msg (bad_put p v) c = yields (Falls-bad_put p v c)
  Falls-later msg (penalty p v) c = yields (Falls-refl c)
  Falls-later msg (state vs) c = Falls-state msg vs c
  Falls-later msg (scoring ids ss) c = yields (Falls-refl c)

  -- The first message, and an answer behind it, lower the counter by at most one; no other message
  -- does.
  pub Falls-message :
      (msg : Message F) (p : Progress) (c : Client F)
      → Yields
          (λ r.
            (r.0.is_first_message ≡ false)
            × Falls (one_if (p.is_first_message || is_answer msg.body)) c r.1)
          (process_message msg p c)
  unfolding process_message log_stderr
  Falls-message msg p c =
      Yields-if p.is_first_message
        (λ e. Yields-bind (Falls 1 c) (Falls-first msg.body c) (λ c' f. yields (refl, rw e f)))
        (λ e.
          Yields-bind (λ r. Falls (one_if (is_answer msg.body)) c r.0) (Falls-later msg msg.body c)
            (λ r f. yields (e, rw e (logged _ _ r.0 r.1 f))))
    where
      logged :
          (m : ℕ) (text : Text) (c' : Client F) (correct : Bool)
          → Falls m c c'
          → Falls m c (if correct then c' else log_stderr text c')
      logged m text c' true f = f
      logged m text c' false f = f
