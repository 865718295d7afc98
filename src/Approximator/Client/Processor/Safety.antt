-- ===== src/Approximator/Client/Processor/Safety.antt =====
-- message_processor comes to no fault, and leaves a well-formed client that knows its points.
use native.Mathlib.Nat.{pow-zero, pow-suc}
use native.Mathlib.Numerals.{add-one}
use computer_networks_course.Prelude.{
  ℕ, zero, suc, ◌+◌, ◌-◌, ◌^◌, ◌≤◌, ◌<◌, ◌≡◌, refl, ap, ◌∙◌, Bool, true, false, ◌&&◌, not, List, [],
  ◌∷◌, arith, if◌then◌else◌, if_false, length, take, replicate, length-append, length-replicate,
  Text, ℤ, pos,
}
use computer_networks_course.Outcome.{Ensures, returns, exits, Ensures-bind, unless}
use computer_networks_course.Approximator.Constants.{Double, max_k}
use computer_networks_course.Approximator.MsgParser.Message.{
  Message, Body, hello, coeff, put, bad_put, penalty, state, scoring,
}
use computer_networks_course.Approximator.Client.State.{
  Client, log_stdout, log_stderr, decrement_puts_without_answer,
}
use computer_networks_course.Approximator.Client.Strategy.Poly.{poly_at_total}
use computer_networks_course.Approximator.Client.Processor.{
  Progress, resize, learn_coeffs, process_coeff_message, process_bad_put_message,
  process_penalty_message, process_scoring_message, process_state_message, set_points, learn_points,
  process_first, process_later, process_message,
}
use computer_networks_course.Approximator.Client.Processor.Points.{points_total}
use computer_networks_course.Approximator.Client.Processor.Sound.{
  Sound, Computable, IsClient, Prepared,
}

take_pad {ℓ} : {A : Type ℓ} (n : ℕ) (xs : List A) → length (take n xs) + (n - length xs) ≡ n
take_pad zero xs = omega arith
take_pad (suc n) [] = omega arith
take_pad (suc n) (x ∷ xs) = omega (arith, take_pad n xs)

length-resize {ℓ} : {A : Type ℓ} (n : ℕ) (a : A) (xs : List A) → length (resize n a xs) ≡ n
length-resize n a xs =
    length-append (take n xs) (replicate (n - length xs) a)
    ∙ ap (λ t. length (take n xs) + t) (length-replicate (n - length xs) a)
    ∙ take_pad n xs

one_pow : (n : ℕ) → 1 ^ n ≡ 1
one_pow zero = pow-zero 1
one_pow (suc n) = omega (arith, pow-suc 1 n, one_pow n)

zero_pow : (n : ℕ) → 0 ^ (n + 1) ≡ 0
zero_pow n = rw (add-one n) (pow-suc 0 n ∙ omega arith)

-- The counter aside, a decrement changes nothing.
decrement_lem :
    {F : Type 0} (c : Client F)
    → (decrement_puts_without_answer c).0
      ≡ record c { puts_without_answer = c.puts_without_answer - 1 }
unfolding decrement_puts_without_answer
decrement_lem c = ground arith

module _ {F : Type 0} ⦃d : Double F⦄ where
  -- What processing keeps and sets up.
  abbrev pub Processed : Client F → Type 0
  Processed c = IsClient c × Prepared c

  Processed-decrement : (c : Client F) → Processed c → Processed (decrement_puts_without_answer c).0
  Processed-decrement c h = rw (decrement_lem c) (
    record { named = h.0.named; outgoing = h.0.outgoing; incoming = h.0.incoming; few = h.0.few },
    h.1,
  )

  process_coeff-Processed :
      (cs : List F) (c : Client F)
      → IsClient c
      → c.k_set ≡ false
      → 1 ≤ length cs
      → Ensures Processed (process_coeff_message cs c)
  unfolding process_coeff_message learn_coeffs log_stdout
  process_coeff-Processed cs c v unset some_coeff =
      let c' = learn_coeffs cs c in
      let (r0, e0) = poly_at_total c' 0 (omega arith) (omega (arith, zero_pow (length cs - 1))) in
      let (r1, e1) =
        poly_at_total c' 1 (omega arith) (omega (arith, one_pow (length cs - 1 + 1))) in
      rw (e0, e1)
        (returns (
          Processed-decrement _ (
            record { named = v.named; outgoing = v.outgoing; incoming = v.incoming; few = v.few },
            (
              (omega (arith, if_false {0} c.k 1 unset), omega (arith, if_false {0} c.k 1 unset)),
              omega arith,
            ),
          )))

  Processed-set_points :
      (k : ℕ) (vs : List F) (c : Client F)
      → Processed c
      → k ≤ max_k
      → length vs ≡ k + 1
      → Processed (record (set_points k c) { real_values = vs })
  unfolding set_points
  Processed-set_points k vs c h few l = (
    record { named = h.0.named; outgoing = h.0.outgoing; incoming = h.0.incoming; few = few },
    ((length-resize (k + 1) (d.literal (pos 0) 0) c.current_approximation, l), h.1.1),
  )

  learn_points-Processed :
      (k : ℕ) (c : Client F)
      → Processed c
      → k ≤ max_k
      → k ^ (c.n + 1) < 2 ^ 31
      → Ensures Processed (learn_points k c)
  unfolding learn_points
  learn_points-Processed k c h few small =
      let (vs, e, l) = points_total c k h.1.1 small in
      rw e (returns (Processed-decrement _ (Processed-set_points k vs c h few l)))

  process_state-Processed :
      (msg : Message F) (vs : List F) (c : Client F)
      → Processed c
      → (1 ≤ length vs) × (length vs ≤ max_k + 1)
      → (length vs - 1) ^ (c.n + 1) < 2 ^ 31
      → Ensures (λ r. Processed r.0) (process_state_message msg vs c)
  unfolding process_state_message log_stdout
  process_state-Processed msg vs c h size small =
      unless (c.is_auto_strategy && not c.k_set)
        (λ l.
          Ensures-bind (learn_points-Processed (length vs - 1) _ (kept h) (omega arith) small)
            (λ c' p. returns p))
        (λ l.
          unless c.is_auto_strategy (λ a. returns (Processed-decrement _ (kept h)))
            (λ b. returns (kept h)))
    where
      kept : {l : List (Text × Bool)} → Processed c → Processed (record c { logs = l })
      kept p = (
        record {
          named = p.0.named;
          outgoing = p.0.outgoing;
          incoming = p.0.incoming;
          few = p.0.few;
        },
        p.1,
      )

  process_first-Processed :
      (b : Body F) (c : Client F)
      → IsClient c
      → c.k_set ≡ false
      → Sound b
      → Ensures Processed (process_first b c)
  unfolding process_first
  process_first-Processed (hello i) c v unset s = exits
  process_first-Processed (coeff cs) c v unset s = process_coeff-Processed cs c v unset s
  process_first-Processed (put p x) c v unset s = exits
  process_first-Processed (bad_put p x) c v unset s = exits
  process_first-Processed (penalty p x) c v unset s = exits
  process_first-Processed (state vs) c v unset s = exits
  process_first-Processed (scoring ids ss) c v unset s = exits

  Processed-logs :
      (c : Client F) (over : Bool) (l : List (Text × Bool))
      → Processed c
      → Processed (record c { logs = l; game_over = over })
  Processed-logs c over l p = (
    record { named = p.0.named; outgoing = p.0.outgoing; incoming = p.0.incoming; few = p.0.few },
    p.1,
  )

  process_bad_put-Processed :
      (point : ℤ) (value : F) (c : Client F)
      → Processed c
      → Processed (process_bad_put_message point value c).0
  unfolding process_bad_put_message log_stdout
  process_bad_put-Processed point value c h =
      chosen c.is_auto_strategy _ _ (Processed-decrement _ (Processed-logs c c.game_over _ h))
        (Processed-logs c c.game_over _ h)
    where
      chosen :
          (b : Bool) (x y : Client F × Bool)
          → Processed x.0
          → Processed y.0
          → Processed (if b then x else y).0
      chosen true x y p q = p
      chosen false x y p q = q

  process_later-Processed :
      (msg : Message F) (b : Body F) (c : Client F)
      → Processed c
      → Sound b
      → Computable c b
      → Ensures (λ r. Processed r.0) (process_later msg b c)
  unfolding process_later process_penalty_message process_scoring_message log_stdout
  process_later-Processed msg (hello i) c h s k = returns h
  process_later-Processed msg (coeff cs) c h s k = returns h
  process_later-Processed msg (put p x) c h s k = returns h
  process_later-Processed msg (bad_put p x) c h s k = returns (process_bad_put-Processed p x c h)
  process_later-Processed msg (penalty p x) c h s k = returns (Processed-logs c c.game_over _ h)
  process_later-Processed msg (state vs) c h s k = process_state-Processed msg vs c h s k
  process_later-Processed msg (scoring ids ss) c h s k = returns (Processed-logs c true _ h)

  -- A message of the server comes to no fault; behind it the client knows its points.
  pub process_message-Processed :
      (msg : Message F) (p : Progress) (c : Client F)
      → IsClient c
      → Sound msg.body
      → (p.is_first_message ≡ true → c.k_set ≡ false)
      → (p.is_first_message ≡ false → Prepared c × Computable c msg.body)
      → Ensures (λ r. (r.0.is_first_message ≡ false) × Processed r.1) (process_message msg p c)
  unfolding process_message log_stderr
  process_message-Processed msg p c v s unset ready =
      unless p.is_first_message
        (λ f.
          Ensures-bind (process_first-Processed msg.body c v (unset f) s)
            (λ c' h. returns (refl, h)))
        (λ l.
          Ensures-bind (process_later-Processed msg msg.body c (v, (ready l).0) s (ready l).1)
            (λ r h. returns (l, logged _ r.0 r.1 h)))
    where
      logged :
          (text : Text) (c' : Client F) (correct : Bool)
          → Processed c'
          → Processed (if correct then c' else log_stderr text c')
      logged text c' true h = h
      logged text c' false h = Processed-logs c' c'.game_over _ h
