-- ===== src/Approximator/Client/Network/Framing.antt =====
-- The receiver of the client and how the stream of the server is cut into reads.
use computer_networks_course.Prelude.{
  ℕ, zero, suc, ◌+◌, ◌<◌, ◌≡◌, refl, sym, ◌∙◌, inl, inr, false, ◌&&◌, Option, none, some, [], ◌∷◌,
  ◌++◌, append_assoc, arith, ◌==◌, Bool-cases, Option-cases, length, length-append, Text,
}
use computer_networks_course.Outcome.{Outcome, done, fatal, fault, ◌>>=◌}
use computer_networks_course.Approximator.ApproxServer.Framing.{
  next_line, prepend, length-next_line,
}
use computer_networks_course.Approximator.Constants.{Double}
use computer_networks_course.Approximator.Client.State.{Client}
use computer_networks_course.Approximator.Client.Network.{
  Receiver, receive_line, receive_lines, receive_bytes,
}

-- What is received later does not change the first line.
pub next_line-append :
    (s t line rest : Text)
    → next_line s ≡ some (line, rest)
    → next_line (s ++ t) ≡ some (line, rest ++ t)
unfolding next_line prepend
next_line-append [] t line rest h = cc
next_line-append (c ∷ []) t line rest h = cc
next_line-append (c ∷ e ∷ s) t line rest h = elim (Bool-cases (c == b'\r' && e == b'\n')) [
  | inl here ↦
      let got : some ([], s) ≡ some (line, rest) = rw here at h in
      let el : [] ≡ line = cc got in let er : s ≡ rest = cc got in rw (here, ← el, ← er) refl
  | inr not_here ↦
      let got : prepend c (next_line (e ∷ s)) ≡ some (line, rest) = rw not_here at h in
      rw not_here (later (next_line (e ∷ s)) got (next_line-append (e ∷ s) t))
]
  where
    later :
        (o : Option (Text × Text))
        → prepend c o ≡ some (line, rest)
        → ((l r : Text) → o ≡ some (l, r) → next_line ((e ∷ s) ++ t) ≡ some (l, r ++ t))
        → prepend c (next_line ((e ∷ s) ++ t)) ≡ some (line, rest ++ t)
    later none h k = cc h
    later (some (l, r)) h k =
        let el : c ∷ l ≡ line = cc h in let er : r ≡ rest = cc h in rw (k l r refl, ← el, ← er) refl

>>=_assoc :
    {A B C : Type 0} (m : Outcome A) (f : A → Outcome B) (g : B → Outcome C)
    → ((m >>= f) >>= g) ≡ (m >>= λ a. (f a >>= g))
>>=_assoc (done a) f g = refl
>>=_assoc fatal f g = refl
>>=_assoc fault f g = refl

>>=_congr :
    {A B : Type 0} (m : Outcome A) (f g : A → Outcome B)
    → ((a : A) → f a ≡ g a)
    → (m >>= f) ≡ (m >>= g)
>>=_congr (done a) f g h = h a
>>=_congr fatal f g h = refl
>>=_congr fault f g h = refl

module _ {F : Type 0} ⦃d : Double F⦄ where
  -- The fuel does not matter above the length of the buffer.
  receive_lines-enough :
      (f g : ℕ) (r : Receiver) (c : Client F)
      → length r.recv_buffer < f
      → length r.recv_buffer < g
      → receive_lines f r c ≡ receive_lines g r c
  unfolding receive_lines
  receive_lines-enough zero g r c h k = absurd (omega arith)
  receive_lines-enough (suc f) zero r c h k = absurd (omega arith)
  receive_lines-enough (suc f) (suc g) r c h k = elim (Option-cases (next_line r.recv_buffer)) [
    | inl e ↦ rw (e, receive_lines) refl
    | inr ((line, rest), e) ↦
        rw (e, receive_lines)
          (>>=_congr (receive_line r.is_first_message line c) _ _ λ c'.
            receive_lines-enough f g (record { recv_buffer = rest; is_first_message = false }) c'
              (omega (arith, length-next_line r.recv_buffer line rest e))
              (omega (arith, length-next_line r.recv_buffer line rest e)))
  ]

  -- The rest of a stream behind what was received.
  abbrev continue_with : Text → Receiver × Client F → Outcome (Receiver × Client F)
  continue_with t (r, c) = receive_bytes t r c

  receive_lines-append :
      (f g : ℕ) (t : Text) (r : Receiver) (c : Client F)
      → length r.recv_buffer < f
      → length (r.recv_buffer ++ t) < g
      → receive_lines g (record r { recv_buffer = r.recv_buffer ++ t }) c
        ≡ (receive_lines f r c >>= continue_with t)
  unfolding receive_lines receive_bytes
  receive_lines-append zero g t r c h k = absurd (omega arith)
  receive_lines-append (suc f) zero t r c h k = absurd (omega arith)
  receive_lines-append (suc f) (suc g) t r c h k = elim (Option-cases (next_line r.recv_buffer)) [
    | inl e ↦
        rw (e, receive_lines)
          (receive_lines-enough (suc g) (length (r.recv_buffer ++ t) + 1)
            (record r { recv_buffer = r.recv_buffer ++ t }) c (omega arith) (omega arith))
    | inr ((line, rest), e) ↦
        let e' = next_line-append r.recv_buffer t line rest e in
        let shorter = length-next_line r.recv_buffer line rest e in
        rw (e', e, receive_lines)
          (>>=_congr (receive_line r.is_first_message line c) _ _ (λ c'.
              receive_lines-append f g t (record { recv_buffer = rest; is_first_message = false })
                c' (omega arith)
                (omega (arith, length-append rest t, length-append r.recv_buffer t)))
            ∙ sym (>>=_assoc (receive_line r.is_first_message line c) _ (continue_with t)))
  ]

  -- It does not matter to the receiver how the bytes of the server are cut: two received texts have
  -- the effect of the one text that they make up.
  pub receive_bytes-append :
      (s t : Text) (r : Receiver) (c : Client F)
      → receive_bytes (s ++ t) r c ≡ (receive_bytes s r c >>= λ (r', c'). receive_bytes t r' c')
  unfolding receive_bytes
  receive_bytes-append s t r c =
      let r' = record r { recv_buffer = r.recv_buffer ++ s } in
      rw (← append_assoc r.recv_buffer s t) (
        receive_lines-append (length r'.recv_buffer + 1) (length (r'.recv_buffer ++ t) + 1) t r' c
          (omega arith) (omega arith))
