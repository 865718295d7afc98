-- ===== src/Approximator/MsgParser/Decimal.antt =====
-- Decimal numbers in msg_parser.cpp: the format test and `parseDouble`.
pub mod Laws
use computer_networks_course.Prelude.{
  ℕ, zero, suc, ◌+◌, ◌-◌, ◌*◌, ◌/◌, ◌%◌, ◌^◌, ◌≤◌, ◌<◌, ◌≡◌, refl, sym, ap, ◌∙◌, ◌≢◌, ◌↔◌, ◌⊎◌, inl,
  inr, Bool, true, false, ◌&&◌, ◌||◌, not, Option, none, some, List, [], ◌∷◌, ◌++◌, map, arith, ltb,
  leb, ◌==◌, if◌then◌else◌, ltb→lt, lt→ltb, leb→le, le→leb, ==_iff, ==-refl, Bool-cases,
  Option-cases, ◌>>=◌, ◌>>◌, guard, guard-eq-some, >>=-eq-some, length, get_elem?, set, take, drop,
  replicate, length-append, length-set, length-replicate, take-append, drop-append,
  take-append-drop, get_elem?-of_lt, List-cases, All, All-append, Text, codes, text_eq, text_eq_iff,
  text_eq_refl, ℤ, pos, negsuc, pos_part, neg_part, sub_ℕ, ◌≤ℤ◌, ltb_ℤ,
}
use computer_networks_course.Approximator.Constants.{Double, max_fractional_digits}
use computer_networks_course.Approximator.MsgParser.Chars.{isdigit, take_digits, drop_digits}

-- The loop over the fractional digits. It stops at the digit after the seventh (`none`), and
-- otherwise gives the number of digits and what is left.
unfoldable pub scan_fraction : ℕ → Text → Option (ℕ × Text)
scan_fraction count [] = some (count, [])
scan_fraction count (c ∷ s) =
    let rest =
      if ltb max_fractional_digits (count + 1) then none else scan_fraction (count + 1) s in
    if isdigit c then rest else some (count, c ∷ s)

-- `if (i < str.length() && str[i] == '.') i++;`
unfoldable pub skip_dot : Text → Text
skip_dot [] = []
skip_dot (c ∷ s) = if c == b'.' then s else c ∷ s

abbrev pub is_empty : Text → Bool
is_empty [] = true
is_empty (c ∷ s) = false

-- The format test behind the optional minus.
unfoldable pub is_unsigned_format : Text → Bool
is_unsigned_format s =
    let has_leading_digits = not (is_empty (take_digits s)) in
    elim (scan_fraction 0 (skip_dot (drop_digits s))) [
      | none ↦ false
      | some (fractional_digit_count, rest) ↦
          if not has_leading_digits && not (ltb 0 fractional_digit_count)
          then false
          else is_empty rest
    ]

-- isValidDoubleStringFormat
unfoldable pub is_valid_double_format : Text → Bool
is_valid_double_format [] = false
is_valid_double_format (c ∷ s) =
    if c == b'-'
    then if length (c ∷ s) == 1 then false else is_unsigned_format s
    else is_unsigned_format (c ∷ s)

-- parseDouble; `none` is `false`.
unfoldable pub parse_double : {F : Type 0} ⦃d : Double F⦄ → Text → Option F
parse_double ⦃d⦄ str = do
  guard (is_valid_double_format str)
  (out_val, processed_chars) ← d.stod str
  guard (processed_chars == length str)
  some out_val

format_tests :
    (is_valid_double_format (codes "-12.5") ≡ true)
    × (is_valid_double_format (codes ".25") ≡ true)
    × (is_valid_double_format (codes "3.") ≡ true)
    × (is_valid_double_format (codes "1.12345678") ≡ false)
    × (is_valid_double_format (codes ".") ≡ false)
    × (is_valid_double_format (codes "1e5") ≡ false)
unfolding is_valid_double_format is_unsigned_format skip_dot scan_fraction take_digits drop_digits
    isdigit
format_tests = (refl, refl, refl, refl, refl, refl)
