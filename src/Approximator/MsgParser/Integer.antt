-- ===== src/Approximator/MsgParser/Integer.antt =====
-- Integers in msg_parser.cpp: the format test, `parseInteger`, `std::stoll` and `std::to_string`.
pub mod Laws
use computer_networks_course.Prelude.{
  ℕ, zero, suc, ◌+◌, ◌-◌, ◌*◌, ◌/◌, ◌%◌, ◌^◌, ◌≤◌, ◌<◌, ◌≡◌, refl, sym, ap, ◌∙◌, ◌≢◌, ◌↔◌, ◌⊎◌, inl,
  inr, Bool, true, false, ◌&&◌, ◌||◌, not, Option, none, some, List, [], ◌∷◌, ◌++◌, map, arith, ltb,
  leb, ◌==◌, if◌then◌else◌, ltb→lt, lt→ltb, leb→le, le→leb, ==_iff, ==-refl, Bool-cases,
  Option-cases, ◌>>=◌, ◌>>◌, guard, >>=-eq-some, length, get_elem?, set, take, drop, replicate,
  length-append, length-set, length-replicate, take-append, drop-append, take-append-drop,
  get_elem?-of_lt, List-cases, All, All-append, Text, codes, text_eq, text_eq_iff, ℤ, pos, negsuc,
  pos_part, neg_part, sub_ℕ, ◌≤ℤ◌, ltb_ℤ,
}
use computer_networks_course.Approximator.MsgParser.Chars.{
  isdigit, all_of, take_digits, drop_digits,
}

-- isValidIntegerStringFormat
unfoldable pub is_valid_integer_format : Text → Bool
is_valid_integer_format [] = false
is_valid_integer_format (c ∷ s) =
    if c == b'-'
    then if length (c ∷ s) == 1 then false else all_of isdigit s
    else all_of isdigit (c ∷ s)

-- The number that decimal digits spell behind `n`.
unfoldable pub digits_value : ℕ → Text → ℕ
digits_value n [] = n
digits_value n (c ∷ s) = digits_value (n * 10 + (c - b'0')) s

-- std::isspace, for the blanks that `std::stoll` skips and that end a token of `>>`.
unfoldable pub isspace : ℕ → Bool
isspace c = c == 32 || leb 9 c && leb c 13

unfoldable pub skip_space : Text → Text
skip_space [] = []
skip_space (c ∷ s) = let rest = skip_space s in if isspace c then rest else c ∷ s

abbrev pub signed : Bool → ℕ → ℤ
signed true n = sub_ℕ 0 n
signed false n = pos n

-- The sign that `std::stoll` accepts, and what follows it.
unfoldable pub read_sign : Text → Bool × Text
read_sign [] = (false, [])
read_sign (c ∷ s) =
    if c == b'-' then (true, s) else if c == b'+' then (false, s) else (false, c ∷ s)

-- `out_of_range` is an exception.
unfoldable pub to_long_long : ℤ → ℕ → Option (ℤ × ℕ)
to_long_long value processed =
    if ltb_ℤ value (negsuc (2 ^ 63 - 1)) || ltb_ℤ (pos (2 ^ 63 - 1)) value
    then none
    else some (value, processed)

-- The digits behind the sign, of a text of `size` characters; with no digit, `invalid_argument`.
unfoldable pub read_long_long : Bool → Text → ℕ → Option (ℤ × ℕ)
read_long_long neg r size =
    let processed = size - length (drop_digits r) in
    elim (take_digits r) [
      | [] ↦ none
      | d ∷ ds ↦ to_long_long (signed neg (digits_value 0 (d ∷ ds))) processed
    ]

-- std::stoll: the value and the number of characters read; `none` is an exception.
unfoldable pub stoll : Text → Option (ℤ × ℕ)
stoll s = let (neg, r) = read_sign (skip_space s) in read_long_long neg r (length s)

-- std::numeric_limits<int>
abbrev pub int_min : ℤ
int_min = negsuc (2 ^ 31 - 1)

abbrev pub int_max : ℤ
int_max = pos (2 ^ 31 - 1)

-- parseInteger; `none` is `false`.
unfoldable pub parse_integer : Text → Option ℤ
parse_integer str = do
  guard (is_valid_integer_format str)
  (temp_val, processed_chars) ← stoll str
  guard (processed_chars == length str)
  guard (not (ltb_ℤ temp_val int_min || ltb_ℤ int_max temp_val))
  some temp_val

-- The digits of n in front of `out`, for more fuel than n; n / 10 < n for n > 0.
unfoldable pub print_digits : ℕ → ℕ → Text → Text
print_digits zero n out = out
print_digits (suc f) n out =
    let out' = (b'0' + n % 10) ∷ out in
    let rest = print_digits f (n / 10) out' in if n / 10 == 0 then out' else rest

-- std::to_string of an `int`.
unfoldable pub to_string : ℤ → Text
to_string (pos n) = print_digits (suc n) n []
to_string (negsuc n) = b'-' ∷ print_digits (suc (suc n)) (suc n) []

parse_integer_tests :
    (parse_integer (codes "-120") ≡ some (negsuc 119))
    × (parse_integer (codes "2147483648") ≡ none)
    × (parse_integer (codes "1x") ≡ none)
    × (parse_integer (codes "-") ≡ none)
    × (parse_integer (codes "99999999999999999999") ≡ none)
unfolding parse_integer is_valid_integer_format stoll skip_space isspace read_sign read_long_long
    to_long_long take_digits drop_digits digits_value all_of isdigit
parse_integer_tests = (refl, refl, refl, refl, refl)

to_string_tests : (to_string (negsuc 119) ≡ codes "-120") × (to_string (pos 0) ≡ codes "0")
unfolding to_string print_digits
to_string_tests = (refl, refl)
