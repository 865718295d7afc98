-- ===== src/Approximator/MsgParser/Printer.antt =====
-- The factories of msg_parser.cpp that write a message and parse it: one for each subclass.
pub mod Laws
pub mod Scoring
pub mod Coeff
use computer_networks_course.Prelude.{
  ℕ, zero, suc, ◌+◌, ◌-◌, ◌*◌, ◌/◌, ◌%◌, ◌^◌, ◌≤◌, ◌<◌, ◌≡◌, refl, sym, ap, ◌∙◌, ◌≢◌, ◌↔◌, ◌⊎◌, inl,
  inr, Bool, true, false, ◌&&◌, ◌||◌, not, Option, none, some, List, [], ◌∷◌, ◌++◌, map,
  append_assoc, append-nil, arith, ltb, leb, ◌==◌, if◌then◌else◌, ltb→lt, lt→ltb, leb→le, le→leb,
  ==_iff, ==-refl, Bool-cases, Option-cases, ◌>>=◌, ◌>>◌, guard, guard-eq-some, >>=-eq-some, length,
  get_elem?, set, take, drop, replicate, length-append, length-set, length-replicate, length-take,
  length-drop, take-append, drop-append, take-append-drop, get_elem?-of_lt, List-cases, All,
  All-append, Text, codes, text_eq, text_eq_iff, text_eq_refl, ℤ, pos, negsuc, pos_part, neg_part,
  sub_ℕ, ◌≤ℤ◌, ltb_ℤ,
}
use computer_networks_course.Approximator.Constants.{Double, max_fractional_digits}
use computer_networks_course.Approximator.MsgParser.Integer.{to_string}
use computer_networks_course.Approximator.MsgParser.Message.{Message, create_message_with_crlf}

-- std::string::pop_back
unfoldable pub pop_back : Text → Text
pop_back [] = []
pop_back (c ∷ []) = []
pop_back (c ∷ d ∷ s) = c ∷ pop_back (d ∷ s)

-- `<` of std::string
unfoldable pub text_lt : Text → Text → Bool
text_lt s [] = false
text_lt [] (y ∷ ys) = true
text_lt (x ∷ xs) (y ∷ ys) = ltb x y || x == y && text_lt xs ys

module _ {F : Type 0} ⦃d : Double F⦄ where
  -- Message::doubleToString
  unfoldable pub double_to_string : F → Text
  double_to_string val = d.to_fixed max_fractional_digits val

  -- HelloMessage::createMessage
  unfoldable pub create_hello : Text → Option (Message F)
  create_hello player_id = create_message_with_crlf (codes "HELLO " ++ player_id)

  -- `str += doubleToString(value) + " "` for each value
  unfoldable pub write_values : List F → Text
  write_values [] = []
  write_values (v ∷ vs) = double_to_string v ++ (b' ' ∷ write_values vs)

  -- CoeffMessage::createMessage
  unfoldable pub create_coeff : List F → Option (Message F)
  create_coeff [] = none
  create_coeff (c ∷ cs) =
      create_message_with_crlf (codes "COEFF " ++ pop_back (write_values (c ∷ cs)))

  -- StateMessage::createMessage
  unfoldable pub create_state : List F → Option (Message F)
  create_state [] = none
  create_state (v ∷ vs) =
      create_message_with_crlf (codes "STATE " ++ pop_back (write_values (v ∷ vs)))

  unfoldable pub write_pair : Text → ℤ → F → Text
  write_pair command point value =
      command ++ (b' ' ∷ (to_string point ++ (b' ' ∷ double_to_string value)))

  -- PutMessage, BadPutMessage and PenaltyMessage::createMessage
  unfoldable pub create_put : ℤ → F → Option (Message F)
  create_put point value = create_message_with_crlf (write_pair (codes "PUT") point value)

  unfoldable pub create_bad_put : ℤ → F → Option (Message F)
  create_bad_put point value = create_message_with_crlf (write_pair (codes "BAD_PUT") point value)

  unfoldable pub create_penalty : ℤ → F → Option (Message F)
  create_penalty point value = create_message_with_crlf (write_pair (codes "PENALTY") point value)

  -- `<` of std::pair<std::string, double>
  unfoldable pub score_lt : Text × F → Text × F → Bool
  score_lt (a, x) (b, y) = text_lt a b || not (text_lt b a) && d.lt x y

  -- std::sort, as an insertion sort.
  unfoldable pub insert_score : Text × F → List (Text × F) → List (Text × F)
  insert_score p [] = p ∷ []
  insert_score p (q ∷ qs) = if score_lt q p then q ∷ insert_score p qs else p ∷ q ∷ qs

  unfoldable pub sort_scores : List (Text × F) → List (Text × F)
  sort_scores [] = []
  sort_scores (p ∷ ps) = insert_score p (sort_scores ps)

  -- The vector of pairs; `none` for lists of two lengths.
  unfoldable pub pair_scores : List Text → List F → Option (List (Text × F))
  pair_scores [] [] = some []
  pair_scores (i ∷ ids) [] = none
  pair_scores [] (s ∷ scores) = none
  pair_scores (i ∷ ids) (s ∷ scores) = pair_scores ids scores >>= λ ps. some ((i, s) ∷ ps)

  unfoldable pub write_scores : List (Text × F) → Text
  write_scores [] = []
  write_scores ((i, s) ∷ ps) = i ++ (b' ' ∷ (double_to_string s ++ (b' ' ∷ write_scores ps)))

  -- ScoringMessage::createMessage
  unfoldable pub create_scoring : List Text → List F → Option (Message F)
  create_scoring player_ids scores = do
    player_scores ← pair_scores player_ids scores
    create_message_with_crlf
        (pop_back (codes "SCORING " ++ write_scores (sort_scores player_scores)))
