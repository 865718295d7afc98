-- ===== src/Approximator/MsgParser/Message/Laws.antt =====
-- What `createMessage` accepts: the exact form of a line, and the command of each subclass.
use computer_networks_course.Prelude.{
  ◌-◌, ◌≡◌, refl, sym, ap, ◌∙◌, ◌≢◌, inl, inr, true, false, ◌||◌, not, Option, some, List, [], ◌∷◌,
  ◌++◌, arith, ltb, if◌then◌else◌, Bool-cases, ◌>>=◌, guard-eq-some, >>=-eq-some, length, take,
  drop, length-append, take-append, drop-append, take-append-drop, All, Text, codes, text_eq,
  text_eq_iff, text_eq_refl, ℤ,
}
use computer_networks_course.Approximator.Constants.{Double, crlf}
use computer_networks_course.Approximator.MsgParser.Params.{
  extract_command_and_params, split_params,
}
use computer_networks_course.Approximator.MsgParser.Params.Laws.{
  IsToken, join, split_params_sound, split_params-join, join-ne-nil,
}
use computer_networks_course.Approximator.MsgParser.Params.Command.{
  Lacks, extract_both, extract_sound,
}
use computer_networks_course.Approximator.MsgParser.Message.{
  Message, Body, hello, coeff, put, bad_put, state, penalty, scoring, validate_int_double_pair,
  parse_hello, parse_coeff, parse_state, parse_scoring, parse_pair, parse_message, create_message,
  create_message_with_crlf,
}

-- The command that a message of each subclass has.
abbrev pub command_of : {F : Type 0} → Body F → Text
command_of (hello i) = codes "HELLO"
command_of (coeff cs) = codes "COEFF"
command_of (put p v) = codes "PUT"
command_of (bad_put p v) = codes "BAD_PUT"
command_of (penalty p v) = codes "PENALTY"
command_of (state vs) = codes "STATE"
command_of (scoring ids ss) = codes "SCORING"

-- The line without CRLF that a command and its parameters make.
abbrev pub line_of : Text → List Text → Text
line_of command [] = command
line_of command (t ∷ ts) = command ++ (b' ' ∷ join (t ∷ ts))

length-crlf : (s : Text) → length (s ++ crlf) - 2 ≡ length s
length-crlf s = omega (arith, length-append s crlf)

crlf-le-length : (s : Text) → ltb (length (s ++ crlf)) 2 ≡ false
crlf-le-length s = ground (arith, length-append s crlf)

ends_with_crlf :
    (line : Text)
    → not (ltb (length line) 2 || not (text_eq (drop (length line - 2) line) crlf)) ≡ true
    → line ≡ take (length line - 2) line ++ crlf
ends_with_crlf line h =
    sym (take-append-drop (length line - 2) line)
    ∙ ap (◌++◌ (take (length line - 2) line))
        ((text_eq_iff (drop (length line - 2) line) crlf).0 (ground arith))

-- How the command and the parameters stand in the line.
line_parts :
    (s command params_str : Text) (params : List Text)
    → extract_command_and_params s ≡ some (command, params_str)
    → split_params params_str ≡ some params
    → (s ≡ line_of command params) × All IsToken params
line_parts s command params_str params e f = elim (extract_sound s command params_str e).2 [
  | inl (es, ep) ↦
      let none_left : [] ≡ params = no_params params (sym (ap split_params ep) ∙ f) in
      rw (← none_left) (es, tt)
  | inr (es, n) ↦
      let (j, ts, m) = split_params_sound params_str params f n in (es ∙ some_params params m j, ts)
]
  where
    no_params : (params : List Text) → split_params [] ≡ some params → [] ≡ params
    no_params params h = unfold split_params in cc h

    some_params :
        (params : List Text)
        → params ≢ []
        → join params ≡ params_str
        → command ++ (b' ' ∷ params_str) ≡ line_of command params
    some_params [] m j = absurd (m refl)
    some_params (t ∷ ts) m j = ap (λ x. command ++ (b' ' ∷ x)) (sym j)

module _ {F : Type 0} ⦃d : Double F⦄ where
  hello_command :
      (ps : List Text) (b : Body F) → parse_hello ps ≡ some b → command_of b ≡ codes "HELLO"
  unfolding parse_hello
  hello_command [] b h = cc
  hello_command (i ∷ []) b h = ground arith
  hello_command (i ∷ j ∷ ps) b h = cc

  coeff_command :
      (ps : List Text) (b : Body F) → parse_coeff ps ≡ some b → command_of b ≡ codes "COEFF"
  unfolding parse_coeff
  coeff_command ps b h = ground arith

  state_command :
      (ps : List Text) (b : Body F) → parse_state ps ≡ some b → command_of b ≡ codes "STATE"
  unfolding parse_state
  state_command ps b h = ground arith

  scoring_command :
      (ps : List Text) (b : Body F) → parse_scoring ps ≡ some b → command_of b ≡ codes "SCORING"
  unfolding parse_scoring
  scoring_command ps b h = ground arith

  pair_command :
      (kind : ℤ → F → Body F) (command : Text)
      → ((p : ℤ) (v : F) → command_of (kind p v) ≡ command)
      → (ps : List Text) (b : Body F) → parse_pair kind ps ≡ some b
      → command_of b ≡ command
  unfolding parse_pair
  pair_command kind command same ps b h =
      let ((p, v), e, eb) = >>=-eq-some (validate_int_double_pair ps) _ h in
      ap command_of (sym (some-eq eb)) ∙ same p v
    where
      some-eq : {x y : Body F} → some x ≡ some y → x ≡ y
      some-eq q = cc

  branch :
      (command name : Text) (chosen rest : Option (Body F)) (b : Body F)
      → (chosen ≡ some b → command_of b ≡ name)
      → (rest ≡ some b → command ≡ command_of b)
      → (if text_eq command name then chosen else rest) ≡ some b
      → command ≡ command_of b
  branch command name chosen rest b f g h = elim (Bool-cases (text_eq command name)) [
    | inl e ↦ (text_eq_iff command name).0 e ∙ sym (f (rw e at h))
    | inr e ↦ g (rw e at h)
  ]

  parse_message_command :
      (command : Text) (params : List Text) (b : Body F)
      → parse_message command params ≡ some b
      → command ≡ command_of b
  unfolding parse_message
  parse_message_command command params b = branch command _ _ _ b (hello_command params b) (
      branch command _ _ _ b (coeff_command params b) (
        branch command _ _ _ b (pair_command put _ (λ _ _. refl) params b) (
          branch command _ _ _ b (pair_command bad_put _ (λ _ _. refl) params b) (
            branch command _ _ _ b (state_command params b) (
              branch command _ _ _ b (pair_command penalty _ (λ _ _. refl) params b)
                (branch command _ _ _ b (scoring_command params b) (λ h. cc)))))))

  create_message_crlf :
      (s : Text)
      → create_message_with_crlf {F = F} s ≡ (
          extract_command_and_params s >>= λ r. split_params r.1 >>= λ params.
          parse_message r.0 params >>= λ body.
          some (record { raw_message = s ++ crlf; params = params; body = body }))
  unfolding create_message_with_crlf create_message
  create_message_crlf s =
      rw
        (length-crlf s, drop-append s crlf, take-append s crlf, text_eq_refl crlf, crlf-le-length s)

  -- A line of a command and tokens is parsed, if the subclass accepts the tokens.
  pub create_message_line :
      (command t : Text) (ts : List Text) (b : Body F)
      → command ≢ []
      → Lacks b' ' command
      → All IsToken (t ∷ ts)
      → parse_message command (t ∷ ts) ≡ some b
      → create_message_with_crlf (line_of command (t ∷ ts))
        ≡ some
            (record { raw_message = line_of command (t ∷ ts) ++ crlf; params = t ∷ ts; body = b })
  create_message_line command t ts b n l h e = rw (
    create_message_crlf (line_of command (t ∷ ts)),
    extract_both command (join (t ∷ ts)) n l (join-ne-nil t ts h.0.0),
    split_params-join (t ∷ ts) (λ e'. cc) h,
    e,
  )

  -- A line that is parsed is exactly the command of its subclass, the parameters behind single
  -- spaces, and CRLF; the message keeps the line, and its parameters are tokens that the subclass
  -- accepts.
  pub create_message_sound :
      (line : Text) (m : Message F)
      → create_message line ≡ some m
      → (m.raw_message ≡ line)
        × (line ≡ line_of (command_of m.body) m.params ++ crlf)
        × All IsToken m.params
        × (parse_message (command_of m.body) m.params ≡ some m.body)
  unfolding create_message
  create_message_sound line m h =
      let (u, g, h1) = >>=-eq-some _ _ (h) in
      let el = ends_with_crlf line (guard-eq-some _ g) in
      let ((command, params_str), e1, h2) = >>=-eq-some _ _ h1 in
      let (params, e2, h3) = >>=-eq-some _ _ h2 in
      let (body, e3, h4) = >>=-eq-some _ _ h3 in
      let em : record { raw_message = line; params = params; body = body } ≡ m = some-eq h4 in
      let (es, ts) = line_parts _ command params_str params e1 e2 in
      let ec = parse_message_command command params body e3 in
      rw (← em)
        (refl, el ∙ ap (λ x. x ++ crlf) (es ∙ ap (λ c. line_of c params) ec), ts, rw (← ec) e3)
    where
      some-eq : {x y : Message F} → some x ≡ some y → x ≡ y
      some-eq q = cc
