-- ===== src/Approximator/MsgParser/Message.antt =====
-- The class Message of msg_parser.h and its subclasses: `createMessage` and `parseMessage`.
-- A message is its raw text, its parameters, and the fields of its subclass.
pub mod Laws
use computer_networks_course.Prelude.{
  ℕ, zero, suc, ◌+◌, ◌-◌, ◌*◌, ◌/◌, ◌%◌, ◌^◌, ◌≤◌, ◌<◌, ◌≡◌, refl, sym, ap, ◌∙◌, ◌≢◌, ◌↔◌, ◌⊎◌, inl,
  inr, Bool, true, false, ◌&&◌, ◌||◌, not, Option, none, some, List, [], ◌∷◌, ◌++◌, map,
  append_assoc, append-nil, arith, ltb, leb, ◌==◌, if◌then◌else◌, ltb→lt, lt→ltb, leb→le, le→leb,
  ==_iff, ==-refl, Bool-cases, Option-cases, ◌>>=◌, ◌>>◌, guard, guard-eq-some, >>=-eq-some, length,
  get_elem?, set, take, drop, replicate, length-append, length-set, length-replicate, length-take,
  length-drop, take-append, drop-append, take-append-drop, get_elem?-of_lt, List-cases, All,
  All-append, Text, codes, text_eq, text_eq_iff, text_eq_refl, ℤ, pos, negsuc, pos_part, neg_part,
  sub_ℕ, ◌≤ℤ◌, ltb_ℤ,
}
use computer_networks_course.Approximator.Constants.{
  Double, max_k, max_n, crlf, eps, min_coeff, max_coeff,
}
use computer_networks_course.Approximator.MsgParser.Chars.{is_alphanumeric}
use computer_networks_course.Approximator.MsgParser.Integer.{parse_integer}
use computer_networks_course.Approximator.MsgParser.Decimal.{parse_double}
use computer_networks_course.Approximator.MsgParser.Params.{
  extract_command_and_params, split_params,
}

-- The subclasses, with the constructors' names for MessageType.
pub data Body (F : Type 0) : Type 0 where
  hello : Text → Body F
  coeff : List F → Body F
  put bad_put penalty : ℤ → F → Body F
  state : List F → Body F
  scoring : List Text → List F → Body F

pub record Message (F : Type 0) : Type 0 where
  pub raw_message : Text
  pub params : List Text
  pub body : Body F

module _ {F : Type 0} ⦃d : Double F⦄ where
  -- validateIntDoublePair; `none` is `false`.
  unfoldable pub validate_int_double_pair : List Text → Option (ℤ × F)
  validate_int_double_pair [] = none
  validate_int_double_pair (a ∷ []) = none
  validate_int_double_pair (a ∷ b ∷ []) = do
    point ← parse_integer a
    value ← parse_double b
    some (point, value)
  validate_int_double_pair (a ∷ b ∷ c ∷ rest) = none

  -- The loop of CoeffMessage::parseMessage.
  unfoldable pub parse_coeffs : List Text → Option (List F)
  parse_coeffs [] = some []
  parse_coeffs (param ∷ rest) = do
    c ← parse_double param
    guard (not (d.lt (d.add c eps) min_coeff || d.lt max_coeff (d.sub c eps)))
    cs ← parse_coeffs rest
    some (c ∷ cs)

  -- The loop of StateMessage::parseMessage.
  unfoldable pub parse_values : List Text → Option (List F)
  parse_values [] = some []
  parse_values (param ∷ rest) = do v ← parse_double param; vs ← parse_values rest; some (v ∷ vs)

  -- ScoringMessage::parseMessage: pairs of an id and a score; an odd number is refused.
  unfoldable pub parse_scores : List Text → Option (List Text × List F)
  parse_scores [] = some ([], [])
  parse_scores (player_id ∷ []) = none
  parse_scores (player_id ∷ score ∷ rest) = do
    guard (is_alphanumeric player_id)
    s ← parse_double score
    (ids, scores) ← parse_scores rest
    some (player_id ∷ ids, s ∷ scores)

  -- HelloMessage::parseMessage
  unfoldable pub parse_hello : List Text → Option (Body F)
  parse_hello [] = none
  parse_hello (player_id ∷ []) = if is_alphanumeric player_id then some (hello player_id) else none
  parse_hello (a ∷ b ∷ rest) = none

  -- CoeffMessage::parseMessage
  unfoldable pub parse_coeff : List Text → Option (Body F)
  parse_coeff params = do
    guard (not (ltb (length params) 1 || ltb (max_n + 1) (length params)))
    cs ← parse_coeffs params
    some (coeff cs)

  -- StateMessage::parseMessage
  unfoldable pub parse_state : List Text → Option (Body F)
  parse_state params = do
    guard (not (ltb (length params) 1 || ltb (max_k + 1) (length params)))
    vs ← parse_values params
    some (state vs)

  unfoldable pub parse_scoring : List Text → Option (Body F)
  parse_scoring params = do (ids, scores) ← parse_scores params; some (scoring ids scores)

  -- PutMessage, BadPutMessage and PenaltyMessage::parseMessage
  unfoldable pub parse_pair : (ℤ → F → Body F) → List Text → Option (Body F)
  parse_pair kind params = do
    (point, value) ← validate_int_double_pair params
    some (kind point value)

  -- The subclass that the command names, and its `parseMessage`.
  unfoldable pub parse_message : Text → List Text → Option (Body F)
  parse_message command params =
      if text_eq command (codes "HELLO")
      then parse_hello params
      else if text_eq command (codes "COEFF")
      then parse_coeff params
      else if text_eq command (codes "PUT")
      then parse_pair put params
      else if text_eq command (codes "BAD_PUT")
      then parse_pair bad_put params
      else if text_eq command (codes "STATE")
      then parse_state params
      else if text_eq command (codes "PENALTY")
      then parse_pair penalty params
      else if text_eq command (codes "SCORING")
      then parse_scoring params
      else none

  -- Message::createMessage; `none` is `nullptr`.
  unfoldable pub create_message : Text → Option (Message F)
  create_message line = do
    guard (not (ltb (length line) 2 || not (text_eq (drop (length line - 2) line) crlf)))
    (command, params_str) ← extract_command_and_params (take (length line - 2) line)
    params ← split_params params_str
    body ← parse_message command params
    some (record { raw_message = line; params = params; body = body })

  -- Message::createMessageWithCRLF
  unfoldable pub create_message_with_crlf : Text → Option (Message F)
  create_message_with_crlf line = create_message (line ++ crlf)
