-- ===== src/Approximator/Client/Processor/Sound.antt =====
-- What a client may rely on: what the parser says of a message, and a well-formed client.

use computer_networks_course.Prelude.{
  suc, ◌+◌, ◌-◌, ◌^◌, ◌≤◌, ◌<◌, ◌≡◌, refl, ap, ◌||◌, not, Option, some, List, [], ◌∷◌, arith, ltb,
  length, All, Text, text_eq,
}
use computer_networks_course.Prelude.{guard, guard-eq-some, >>=-eq-some}
use computer_networks_course.Approximator.Constants.{Double, max_k}
use computer_networks_course.Approximator.MsgParser.Decimal.{parse_double}
use computer_networks_course.Approximator.MsgParser.Message.{
  Message, Body, hello, coeff, put, bad_put, penalty, state, scoring, parse_message, parse_state,
  parse_values, create_message,
}
use computer_networks_course.Approximator.MsgParser.Message.Laws.{command_of, create_message_sound}
use computer_networks_course.Approximator.MsgParser.Printer.Coeff.{parse_coeff_bounds}
use computer_networks_course.Approximator.MsgParser.Printer.Scoring.{IsId}
use computer_networks_course.Approximator.Client.State.{Client}
use computer_networks_course.Approximator.Client.Strategy.BestPut.{Ready}

-- What the parser says of a message.
abbrev pub Sound : {F : Type 0} → Body F → Type 0
Sound (hello i) = Unit
Sound (coeff cs) = 1 ≤ length cs
Sound (put p v) = Unit
Sound (bad_put p v) = Unit
Sound (penalty p v) = Unit
Sound (state vs) = (1 ≤ length vs) × (length vs ≤ max_k + 1)
Sound (scoring ids ss) = Unit

-- The powers at the points of a STATE message fit an `int`.
abbrev pub Computable : {F : Type 0} → Client F → Body F → Type 0
Computable c (hello i) = Unit
Computable c (coeff cs) = Unit
Computable c (put p v) = Unit
Computable c (bad_put p v) = Unit
Computable c (penalty p v) = Unit
Computable c (state vs) = (length vs - 1) ^ (c.n + 1) < 2 ^ 31
Computable c (scoring ids ss) = Unit

-- A pointer that is not null.
abbrev pub Written : {F : Type 0} → Option (Message F) → Type 0
Written {F} o = (m : Message F) × (o ≡ some m)

pub record IsClient {F : Type 0} (c : Client F) : Type 0 where
  pub named : IsId c.player_id
  pub outgoing : All Written c.outgoing_messages
  pub incoming : All (λ m. Sound m.body) c.incoming_messages
  pub few : c.k ≤ max_k

-- The coefficients are known, and the vectors have a value for each point.
abbrev pub Prepared : {F : Type 0} ⦃d : Double F⦄ → Client F → Type 0
Prepared c = Ready c × (c.n + 1 ≤ length c.coeffs)

module _ {F : Type 0} ⦃d : Double F⦄ where
  parse_values-length :
      (params : List Text) (vs : List F) → parse_values params ≡ some vs → length vs ≡ length params
  unfolding parse_values
  parse_values-length [] vs h = let e : [] ≡ vs = cc h in rw (← e) refl
  parse_values-length (p ∷ ps) vs h =
      let (v, e, h1) = >>=-eq-some (parse_double p) _ h in
      let (ws, f, h2) = >>=-eq-some (parse_values ps) _ h1 in
      let e' : v ∷ ws ≡ vs = cc h2 in rw (← e') (ap suc (parse_values-length ps ws f))

  parse_state_sound :
      (params : List Text) (vs : List F)
      → parse_state params ≡ some (state vs)
      → (1 ≤ length vs) × (length vs ≤ max_k + 1)
  unfolding parse_state
  parse_state_sound params vs h =
      let (u, g, h1) =
        >>=-eq-some (guard (not (ltb (length params) 1 || ltb (max_k + 1) (length params)))) _ h in
      let size = guard-eq-some _ g in
      let (ws, f, h2) = >>=-eq-some (parse_values params) _ h1 in
      let e : ws ≡ vs = cc h2 in let l = parse_values-length params ws f in rw (← e) (ground arith)

  body-Sound :
      (b : Body F) (params : List Text) → parse_message (command_of b) params ≡ some b → Sound b
  unfolding parse_message text_eq
  body-Sound (hello i) params h = tt
  body-Sound (coeff cs) params h =
      let (ds, e, l, pos_len, m, ok) = parse_coeff_bounds params (coeff cs) h in
      let same : cs ≡ ds = cc e in rw same pos_len
  body-Sound (put p v) params h = tt
  body-Sound (bad_put p v) params h = tt
  body-Sound (penalty p v) params h = tt
  body-Sound (state vs) params h = parse_state_sound params vs h
  body-Sound (scoring ids ss) params h = tt

  -- What is read from the server is sound.
  pub create_message-Sound :
      (line : Text) (m : Message F) → create_message line ≡ some m → Sound m.body
  create_message-Sound line m h =
      let (raw, form, tokens, e) = create_message_sound line m h in body-Sound m.body m.params e
