-- ===== src/Approximator/ServerLogic/HelloInvariant.antt =====
-- handle_hello: its branches, and the invariant.
use mathlib.Core.Path.{subst}
use computer_networks_course.Prelude.{
  ℕ, ◌+◌, ◌≤◌, ◌≡◌, refl, sym, ap, ◌∙◌, inl, inr, Bool, true, false, none, some, List, [], ◌∷◌,
  ◌++◌, arith, ◌==◌, if◌then◌else◌, if_true, if_false, Bool-cases, Option-cases, length, All, Text,
}
use computer_networks_course.Approximator.Constants.{Double}
use computer_networks_course.Approximator.MsgParser.Message.{Message, coeff, create_message}
use computer_networks_course.Approximator.MsgParser.Printer.Scoring.{IsId}
use computer_networks_course.Outcome.{done, fatal, Ensures, returns, exits}
use computer_networks_course.Approximator.ServerLogic.Players.{
  PlayerInfo, lookup, lookup-assign_self, assign-assign,
}
use computer_networks_course.Approximator.ServerLogic.State.{
  Server, with_player, append_message_back,
}
use computer_networks_course.Approximator.ServerLogic.Handlers.{getline, count_lower, handle_hello}
use computer_networks_course.Approximator.ServerLogic.Invariant.{
  IsPlayer, IsValid, with_player-IsValid, lookup-IsPlayer,
}
use computer_networks_course.Approximator.ServerLogic.PutInvariant.{Handled}

-- The lines of the coefficients file.
unfoldable pub push_first : ℕ → List Text → List Text
push_first c [] = (c ∷ []) ∷ []
push_first c (l ∷ ls) = (c ∷ l) ∷ ls

unfoldable pub lines_of : Text → List Text
lines_of [] = []
lines_of (c ∷ s) = let ls = lines_of s in if c == b'\n' then [] ∷ ls else push_first c ls

-- getline takes the first of them.
lines_of-getline :
    (c : ℕ) (s : Text) → lines_of (c ∷ s) ≡ (getline (c ∷ s)).0 ∷ lines_of (getline (c ∷ s)).1
unfolding lines_of getline push_first
lines_of-getline c [] = ground arith
lines_of-getline c (x ∷ s) = elim (Bool-cases (c == b'\n')) [
  | inl e ↦ rw e
  | inr e ↦ rw e (ap (push_first c) (lines_of-getline x s))
]

-- What has to be on a line for a player of polynomials of degree n: if it is a message at all, it
-- is a COEFF with at least n + 1 values.
abbrev pub CoeffLine : {F : Type 0} → Double F → ℕ → Text → Type 0
CoeffLine {F} d n line =
    (m : Message F)
    → create_message ⦃d = d⦄ (line ++ b'\n' ∷ []) ≡ some m
    → (cs : List F) × (m.body ≡ coeff cs) × (n + 1 ≤ length cs)

abbrev pub CoeffFile : {F : Type 0} → Double F → ℕ → Text → Type 0
CoeffFile d n file = All (CoeffLine d n) (lines_of file)

module _ {F : Type 0} ⦃d : Double F⦄ where
  no_line : (n : ℕ) → CoeffLine d n []
  no_line n m h = unfold create_message in cc h

  first_line :
      (n : ℕ) (file : Text)
      → CoeffFile d n file
      → CoeffLine d n (getline file).0 × CoeffFile d n (getline file).1
  first_line n [] h = unfold getline lines_of in (no_line n, h)
  first_line n (c ∷ s) h = subst (All (CoeffLine d n)) (lines_of-getline c s) h

  -- The player after HELLO.
  abbrev pub welcomed : PlayerInfo F → Text → List F → Text → PlayerInfo F
  welcomed p player_id cs answer = record p {
    id = player_id;
    delay = count_lower player_id;
    is_known = true;
    can_put = true;
    coefficients = cs;
    messages = p.messages ++ answer ∷ [];
  }

  hello_answered :
      (s : Server F) (fd : ℕ) (p : PlayerInfo F) (player_id : Text) (m : Message F) (cs : List F)
      → lookup fd s.players ≡ some p
      → p.is_known ≡ false
      → create_message ((getline s.coeff_file).0 ++ b'\n' ∷ []) ≡ some m
      → m.body ≡ coeff cs
      → handle_hello s fd player_id
        ≡ done (
          with_player
              (record s { coeff_file = (getline s.coeff_file).1 })
              fd
              (welcomed p player_id cs m.raw_message),
          true,
        )
  unfolding handle_hello append_message_back
  hello_answered s fd p player_id m cs e un em eb =
      rw e (if_false _ _ un ∙ rw (em, eb, lookup-assign_self fd _ s.players) (rw assign-assign))

  hello_fatal :
      (s : Server F) (fd : ℕ) (p : PlayerInfo F) (player_id : Text)
      → lookup fd s.players ≡ some p
      → p.is_known ≡ false
      → create_message {F = F} ((getline s.coeff_file).0 ++ b'\n' ∷ []) ≡ none
      → handle_hello s fd player_id ≡ fatal
  unfolding handle_hello
  hello_fatal s fd p player_id e un em = rw e (if_false _ _ un ∙ rw em)

  hello_again :
      (s : Server F) (fd : ℕ) (p : PlayerInfo F) (player_id : Text)
      → lookup fd s.players ≡ some p
      → p.is_known ≡ true
      → handle_hello s fd player_id ≡ done (s, false)
  unfolding handle_hello
  hello_again s fd p player_id e kn = rw e (if_true _ _ kn)

  -- With a coefficients file whose lines have enough coefficients, a HELLO of a connected client
  -- with a valid id comes to no fault: the valid server stays valid, the client connected, and what
  -- is left of the file is as good.
  pub handle_hello-IsValid :
      (s : Server F) (fd : ℕ) (p : PlayerInfo F) (player_id : Text)
      → lookup fd s.players ≡ some p
      → IsId player_id
      → CoeffFile d s.n s.coeff_file
      → IsValid s
      → Ensures
          (λ r. Handled s fd r × CoeffFile d r.0.n r.0.coeff_file)
          (handle_hello s fd player_id)
  handle_hello-IsValid s fd p player_id e ok file v = elim (Bool-cases p.is_known) [
    | inl kn ↦
        subst (Ensures Good) (sym (hello_again s fd p player_id e kn))
          (returns ((v, (refl, refl, refl), (p, e)), file))
    | inr un ↦ elim (Option-cases (create_message ((getline s.coeff_file).0 ++ b'\n' ∷ []))) [
      | inl em ↦ subst (Ensures Good) (sym (hello_fatal s fd p player_id e un em)) exits
      | inr (m, em) ↦
          let (good, rest) = first_line s.n s.coeff_file file in
          let (cs, eb, enough) = good m em in
          let valid =
            with_player-IsValid s fd p (welcomed p player_id cs m.raw_message) e
              (known_player cs m.raw_message enough) refl v in
          subst (Ensures Good) (sym (hello_answered s fd p player_id m cs e un em eb)) (
            returns (
              (
                record {
                  ordered = valid.ordered;
                  players_ok = valid.players_ok;
                  counted = valid.counted;
                  timely = valid.timely;
                },
                (refl, refl, refl),
                (_, lookup-assign_self fd _ s.players),
              ),
              rest,
            ))
    ]
  ]
    where
      Good : Server F × Bool → Type 0
      Good r = Handled s fd r × CoeffFile d r.0.n r.0.coeff_file

      known_player :
          (cs : List F) (answer : Text)
          → s.n + 1 ≤ length cs
          → IsPlayer s.n s.k (welcomed p player_id cs answer)
      known_player cs answer enough = record {
        points = (lookup-IsPlayer s fd p e v).points;
        silent = λ h. absurd (cc h);
        valid_id = λ _. ok;
        enough = λ _. enough;
      }
