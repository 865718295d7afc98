-- ===== src/Approximator/MsgParser/Params.antt =====
-- Commands and parameter lists in msg_parser.cpp: `extractCommandAndParams` and `splitParams`.
pub mod Laws
pub mod Command
use computer_networks_course.Prelude.{
  ℕ, zero, suc, ◌+◌, ◌-◌, ◌*◌, ◌/◌, ◌%◌, ◌^◌, ◌≤◌, ◌<◌, ◌≡◌, refl, sym, ap, ◌∙◌, ◌≢◌, ◌↔◌, ◌⊎◌, inl,
  inr, Bool, true, false, ◌&&◌, ◌||◌, not, Option, none, some, List, [], ◌∷◌, ◌++◌, map, arith, ltb,
  leb, ◌==◌, if◌then◌else◌, ltb→lt, lt→ltb, leb→le, le→leb, ==_iff, ==-refl, Bool-cases,
  Option-cases, ◌>>=◌, ◌>>◌, guard, guard-eq-some, >>=-eq-some, length, get_elem?, set, take, drop,
  replicate, length-append, length-set, length-replicate, take-append, drop-append,
  take-append-drop, get_elem?-of_lt, List-cases, All, All-append, Text, codes, text_eq, text_eq_iff,
  text_eq_refl, ℤ, pos, negsuc, pos_part, neg_part, sub_ℕ, ◌≤ℤ◌, ltb_ℤ,
}
use computer_networks_course.Approximator.MsgParser.Chars.{isdigit, islower}
use computer_networks_course.Approximator.MsgParser.Integer.{isspace}

-- std::string::find of one character
unfoldable pub find : ℕ → Text → Option ℕ
find c [] = none
find c (x ∷ s) = if x == c then some 0 else (find c s >>= λ i. some (suc i))

-- extractCommandAndParams; `none` is `false`.
unfoldable pub extract_command_and_params : Text → Option (Text × Text)
extract_command_and_params [] = none
extract_command_and_params (c ∷ s) =
    let line = c ∷ s in
    elim (find b' ' line) [
      | none ↦ some (line, [])
      | some space_pos ↦
          if space_pos == 0
          then none
          else if space_pos + 1 == length line
          then none
          else some (take space_pos line, drop (space_pos + 1) line)
    ]

-- [a-zA-Z0-9\-\.]
unfoldable pub is_param_char : ℕ → Bool
is_param_char c = (islower c || (leb b'A' c && leb c b'Z')) || isdigit c || c == b'-' || c == b'.'

-- std::regex_match with  ([a-zA-Z0-9\-\.]+ )*[a-zA-Z0-9\-\.]+ : the flag says that the current
-- token has a character.
unfoldable pub regex_match : Bool → Text → Bool
regex_match begun [] = begun
regex_match begun (c ∷ s) =
    let in_token = regex_match true s in
    let next_token = regex_match false s in
    if is_param_char c then in_token else if begun && c == b' ' then next_token else false

-- `while (iss >> param) out_vec.push_back(param);` with the current token so far.
unfoldable pub read_tokens : Text → Text → List Text
read_tokens [] [] = []
read_tokens (x ∷ cur) [] = (x ∷ cur) ∷ []
read_tokens [] (c ∷ s) =
    let skip = read_tokens [] s in
    let start = read_tokens (c ∷ []) s in if isspace c then skip else start
read_tokens (x ∷ cur) (c ∷ s) =
    let stop = (x ∷ cur) ∷ read_tokens [] s in
    let more = read_tokens (x ∷ (cur ++ c ∷ [])) s in if isspace c then stop else more

-- splitParams; `none` is `false`.
unfoldable pub split_params : Text → Option (List Text)
split_params [] = some []
split_params (c ∷ s) =
    if not (regex_match false (c ∷ s)) then none else some (read_tokens [] (c ∷ s))

split_params_tests :
    (split_params (codes "1 -2.5 abc") ≡ some (codes "1" ∷ codes "-2.5" ∷ codes "abc" ∷ []))
    × (split_params (codes "1  2") ≡ none)
    × (split_params (codes "1 ") ≡ none)
    × (split_params (codes "a_b") ≡ none)
    × (split_params [] ≡ some [])
unfolding split_params regex_match read_tokens is_param_char isspace isdigit islower
split_params_tests = (refl, refl, refl, refl, refl)

extract_tests :
    (extract_command_and_params (codes "PUT 1 2") ≡ some (codes "PUT", codes "1 2"))
    × (extract_command_and_params (codes "HELLO") ≡ some (codes "HELLO", []))
    × (extract_command_and_params (codes " PUT") ≡ none)
    × (extract_command_and_params (codes "PUT ") ≡ none)
unfolding extract_command_and_params find
extract_tests = (refl, refl, refl, refl)
