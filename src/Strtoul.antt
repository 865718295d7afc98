-- ===== src/Strtoul.antt =====
-- std::strtoul with base 10, for an `unsigned long` of 64 bits, as both programs read numbers of their
-- command lines.
pub mod Laws
use computer_networks_course.Prelude.{
  ℕ, ◌+◌, ◌-◌, ◌%◌, ◌^◌, Bool, true, false, ◌||◌, not, List, [], ◌∷◌, ltb, if◌then◌else◌, Text,
}
use computer_networks_course.Approximator.MsgParser.Chars.{take_digits, drop_digits}
use computer_networks_course.Approximator.MsgParser.Integer.{digits_value, skip_space, read_sign}

pub record Parsed : Type 0 where
  pub value : ℕ
  pub range_error : Bool
  pub rest : Text

abbrev pub ulong_max : ℕ
ulong_max = 2 ^ 64 - 1

-- The value with its sign; a minus negates it in the type.
unfoldable pub to_ulong : Bool → ℕ → Text → Parsed
to_ulong negative value rest =
    if ltb ulong_max value
    then record { value = ulong_max; range_error = true; rest = rest }
    else if negative
    then record { value = (2 ^ 64 - value) % 2 ^ 64; range_error = false; rest = rest }
    else record { value = value; range_error = false; rest = rest }

-- The digits behind the sign; with none of them nothing is read of the text `str`.
unfoldable pub read_digits : Bool → Text → Text → Text → Parsed
read_digits negative [] rest str = record { value = 0; range_error = false; rest = str }
read_digits negative (c ∷ ds) rest str = to_ulong negative (digits_value 0 (c ∷ ds)) rest

unfoldable pub strtoul : Text → Parsed
strtoul str =
    let (negative, s) = read_sign (skip_space str) in
    read_digits negative (take_digits s) (drop_digits s) str

abbrev pub is_end : Text → Bool
is_end [] = true
is_end (c ∷ s) = false

-- `errno != 0 || *endptr != 0`
unfoldable pub is_bad : Parsed → Bool
is_bad p = p.range_error || not (is_end p.rest)
