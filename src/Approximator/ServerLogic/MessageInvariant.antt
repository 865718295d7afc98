-- ===== src/Approximator/ServerLogic/MessageInvariant.antt =====
-- handle_client_message: a message that was read keeps the invariant.
use mathlib.Core.Path.{subst}
use computer_networks_course.Prelude.{
  ℕ, ◌≤◌, ◌≡◌, refl, sym, ◌∙◌, inl, inr, true, false, none, some, List, [], ◌∷◌, if_true, if_false,
  Bool-cases, All, Text, text_eq, ℤ,
}
use computer_networks_course.Prelude.{>>=-eq-some}
use computer_networks_course.Approximator.Constants.{Double, max_k}
use computer_networks_course.Approximator.MsgParser.Chars.{is_alphanumeric}
use computer_networks_course.Approximator.MsgParser.Integer.{parse_integer}
use computer_networks_course.Approximator.MsgParser.Integer.Laws.{in_int, parse_integer_sound}
use computer_networks_course.Approximator.MsgParser.Decimal.{parse_double}
use computer_networks_course.Approximator.MsgParser.Params.Laws.{IsToken}
use computer_networks_course.Approximator.MsgParser.Message.{
  Message, Body, hello, coeff, put, bad_put, state, penalty, scoring, create_message, parse_message,
  parse_hello, parse_pair, validate_int_double_pair,
}
use computer_networks_course.Approximator.MsgParser.Message.Laws.{command_of, create_message_sound}
use computer_networks_course.Approximator.MsgParser.Printer.Scoring.{IsId}
use computer_networks_course.Approximator.MsgParser.Printer.Laws.{Printable}
use computer_networks_course.Outcome.{done, Ensures, returns, Ensures-map}
use computer_networks_course.Approximator.ServerLogic.Players.{PlayerInfo, lookup}
use computer_networks_course.Approximator.ServerLogic.State.{Server}
use computer_networks_course.Approximator.ServerLogic.Handlers.{
  handle_hello, handle_put, handle_client_message,
}
use computer_networks_course.Approximator.ServerLogic.Invariant.{IsValid}
use computer_networks_course.Approximator.ServerLogic.PutInvariant.{Handled, handle_put-IsValid}
use computer_networks_course.Approximator.ServerLogic.HelloInvariant.{
  CoeffFile, handle_hello-IsValid,
}

module _ {F : Type 0} ⦃d : Double F⦄ where
  parse_hello-IsId :
      (params : List Text) (player_id : Text)
      → parse_hello {F = F} params ≡ some (hello player_id)
      → All IsToken params
      → IsId player_id
  unfolding parse_hello
  parse_hello-IsId [] player_id h ts = cc
  parse_hello-IsId (i ∷ []) player_id h ts =
      let hello_body : Body F = hello i in
      elim (Bool-cases (is_alphanumeric i)) [
        | inl ok ↦
            let same : i ≡ player_id = cc (sym (if_true (some hello_body) none ok) ∙ h) in
            subst IsId same (ts.0.0, ok)
        | inr bad ↦ cc (sym (if_false (some hello_body) none bad) ∙ h)
      ]
  parse_hello-IsId (i ∷ j ∷ params) player_id h ts = cc

  pub pair_in_int :
      (params : List Text) (point : ℤ) (value : F)
      → validate_int_double_pair params ≡ some (point, value)
      → in_int point ≡ true
  unfolding validate_int_double_pair
  pair_in_int [] point value h = cc
  pair_in_int (a ∷ []) point value h = cc
  pair_in_int (a ∷ b ∷ []) point value h =
      let (z, ez, h1) = >>=-eq-some (parse_integer a) _ h in
      let (w, ew, h2) = >>=-eq-some (parse_double b) _ h1 in
      let same : z ≡ point = cc h2 in
      let (neg, ds, e, n, digits, ev, fits) = parse_integer_sound a z ez in
      subst (λ x. in_int x ≡ true) same fits
  pair_in_int (a ∷ b ∷ c ∷ params) point value h = cc

  put_in_int :
      (params : List Text) (point : ℤ) (value : F)
      → parse_pair put params ≡ some (put point value)
      → in_int point ≡ true
  unfolding parse_pair
  put_in_int params point value h =
      let ((z, w), e, h1) = >>=-eq-some (validate_int_double_pair params) _ h in
      let same : z ≡ point = cc h1 in subst (λ x. in_int x ≡ true) same (pair_in_int params z w e)

  -- What a message that was read holds.
  abbrev pub Sensible : Body F → Type 0
  Sensible (hello player_id) = IsId player_id
  Sensible (put point value) = in_int point ≡ true
  Sensible b = Unit

  pub read-Sensible :
      (b : Body F) (params : List Text)
      → parse_message (command_of b) params ≡ some b
      → All IsToken params
      → Sensible b
  read-Sensible (hello i) params h ts =
      parse_hello-IsId params i (unfold parse_message text_eq in h) ts
  read-Sensible (put z v) params h ts = put_in_int params z v (unfold parse_message text_eq in h)
  read-Sensible (coeff cs) params h ts = tt
  read-Sensible (bad_put z v) params h ts = tt
  read-Sensible (penalty z v) params h ts = tt
  read-Sensible (state vs) params h ts = tt
  read-Sensible (scoring is vs) params h ts = tt

  -- Any message that createMessage reads, handled for a connected client, comes to no fault (the
  -- program may end by `fatal`) and leaves a valid server of the same game with the client still
  -- connected. The server is valid, the points of the game fit a STATE message, values print as
  -- decimals that read back, and the lines of the coefficients file that are messages are COEFF
  -- with enough coefficients.
  pub handle_client_message-IsValid :
      (printable : Printable d) (now : ℕ) (s : Server F) (fd : ℕ) (p : PlayerInfo F) (line : Text)
      (msg : Message F)
      → s.k ≤ max_k
      → create_message line ≡ some msg
      → lookup fd s.players ≡ some p
      → CoeffFile d s.n s.coeff_file
      → IsValid s
      → Ensures (Handled s fd) (handle_client_message now s fd msg)
  unfolding handle_client_message
  handle_client_message-IsValid printable now s fd p line msg small em e file v =
      let (_, _, ts, pm) = create_message_sound line msg em in
      rw e (by_body msg.body (read-Sensible msg.body msg.params pm ts))
    where
      by_body :
          (b : Body F)
          → Sensible b
          → Ensures (Handled s fd) (elim b [
            | hello player_id ↦ handle_hello s fd player_id
            | put point value ↦ handle_put now s fd point value
            | _ ↦ done (s, false)
          ])
      by_body (hello i) ok = Ensures-map (λ r x. x.0) (handle_hello-IsValid s fd p i e ok file v)
      by_body (put z w) ok = handle_put-IsValid printable now s fd p z w small ok e v
      by_body (coeff cs) ok = returns (v, (refl, refl, refl), (p, e))
      by_body (bad_put z w) ok = returns (v, (refl, refl, refl), (p, e))
      by_body (penalty z w) ok = returns (v, (refl, refl, refl), (p, e))
      by_body (state vs) ok = returns (v, (refl, refl, refl), (p, e))
      by_body (scoring is vs) ok = returns (v, (refl, refl, refl), (p, e))
