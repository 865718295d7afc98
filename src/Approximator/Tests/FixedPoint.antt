-- ===== src/Approximator/Tests/FixedPoint.antt =====
-- A concrete arithmetic for the tests: numbers of eight decimal places, printed with seven.
use computer_networks_course.Prelude.{
  ℕ, zero, suc, ◌+◌, ◌-◌, ◌*◌, ◌/◌, ◌%◌, ◌^◌, ◌≡◌, refl, ◌≢◌, Bool, true, false, not, some, [], ◌∷◌,
  ◌++◌, arith, ◌==◌, if◌then◌else◌, length, length-append, All, All-append, Text, ℤ, pos, negsuc,
  pos_part, neg_part, sub_ℕ, ltb_ℤ,
}
use computer_networks_course.Approximator.Constants.{Double}
use computer_networks_course.Approximator.MsgParser.Chars.{
  IsDigit, IsDigit-lt, take_digits, drop_digits,
}
use computer_networks_course.Approximator.MsgParser.Integer.{print_digits, digits_value, signed}
use computer_networks_course.Approximator.MsgParser.Integer.Laws.{
  print_digits-All, print_digits-ne-nil',
}
use computer_networks_course.Approximator.MsgParser.Decimal.{skip_dot}
use computer_networks_course.Approximator.MsgParser.Decimal.Laws.{spell}
use computer_networks_course.Approximator.MsgParser.Printer.{double_to_string}
use computer_networks_course.Approximator.MsgParser.Printer.Laws.{Printable}

-- The last `w` digits of n.
unfoldable pub fixed_digits : ℕ → ℕ → Text
fixed_digits zero n = []
fixed_digits (suc w) n = fixed_digits w (n / 10) ++ (b'0' + n % 10) ∷ []

pub fixed_digits-All : (w n : ℕ) → All IsDigit (fixed_digits w n)
unfolding fixed_digits
fixed_digits-All zero n = tt
fixed_digits-All (suc w) n =
    All-append _ _ _ (fixed_digits-All w (n / 10)) (IsDigit-lt (n % 10) (omega arith), tt)

length-fixed_digits : (w n : ℕ) → length (fixed_digits w n) ≡ w
unfolding fixed_digits
length-fixed_digits zero n = refl
length-fixed_digits (suc w) n = omega (
  arith,
  length-append (fixed_digits w (n / 10)) ((b'0' + n % 10) ∷ []),
  length-fixed_digits w (n / 10),
)

abbrev pub is_negative : ℤ → Bool
is_negative (pos n) = false
is_negative (negsuc n) = true

abbrev pub magnitude : ℤ → ℕ
magnitude z = pos_part z + neg_part z

unfoldable pub whole_digits : ℤ → Text
whole_digits z = let n = magnitude z / 100000000 in print_digits (suc n) n []

-- Seven places of the eight.
unfoldable pub place_digits : ℤ → Text
place_digits z = fixed_digits 7 (magnitude z / 10)

unfoldable pub fraction_value : ℕ → Text → ℕ
fraction_value unit [] = 0
fraction_value unit (c ∷ s) = (c - b'0') * unit + fraction_value (unit / 10) s

unfoldable pub read_unsigned : Text → ℕ
read_unsigned s =
    digits_value 0 (take_digits s) * 100000000
    + fraction_value 10000000 (take_digits (skip_dot (drop_digits s)))

unfoldable pub read_fixed : Text → ℤ
read_fixed [] = pos 0
read_fixed (c ∷ s) =
    if c == b'-' then signed true (read_unsigned s) else signed false (read_unsigned (c ∷ s))

abbrev pub add_fixed : ℤ → ℤ → ℤ
add_fixed a b = sub_ℕ (pos_part a + pos_part b) (neg_part a + neg_part b)

abbrev pub negate : ℤ → ℤ
negate z = sub_ℕ (neg_part z) (pos_part z)

abbrev pub mul_fixed : ℤ → ℤ → ℤ
mul_fixed a b =
    let n = magnitude a * magnitude b / 100000000 in
    if is_negative a == is_negative b then pos n else sub_ℕ 0 n
  where
    infix 40 ◌==◌
    ◌==◌ : Bool → Bool → Bool
    true == b = b
    false == b = not b

abbrev pub scale : ℤ → ℕ → ℤ
scale z n = sub_ℕ (pos_part z * n) (neg_part z * n)

instance abbrev pub fixed_point : Double ℤ
fixed_point = record {
  literal = λ z e. scale z (10 ^ (8 - e));
  of_int = λ z. scale z 100000000;
  add = add_fixed;
  sub = λ a b. add_fixed a (negate b);
  mul = mul_fixed;
  lt = ltb_ℤ;
  stod = λ s. some (read_fixed s, length s);
  to_fixed = λ n z. spell (is_negative z) (whole_digits z) true (place_digits z);
}

pub fixed_point-Printable : Printable fixed_point
unfolding double_to_string whole_digits place_digits
fixed_point-Printable z = (
  _,
  record {
    neg = is_negative z;
    lead = whole_digits z;
    dot = true;
    frac = place_digits z;
    printed = refl;
    decimal = record {
      lead_digits = print_digits-All _ _ [] tt;
      frac_digits = fixed_digits-All 7 _;
      some_digit = nonempty _ _ (print_digits-ne-nil' _ _);
      few = omega (arith, length-fixed_digits 7 (magnitude z / 10));
      no_dot = λ h. absurd (cc h);
    };
    reads = refl;
  },
)
  where
    nonempty : (s t : Text) → s ≢ [] → s ++ t ≢ []
    nonempty [] t n = absurd (n refl)
    nonempty (c ∷ s) t n = λ e. cc
