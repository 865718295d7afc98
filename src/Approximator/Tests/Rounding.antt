-- ===== src/Approximator/Tests/Rounding.antt =====
-- Reading back what the arithmetic of the tests prints: the value without its last place.
use mathlib.Core.Path.{subst}
use computer_networks_course.Approximator.Client.Strategy.Maximum.{some_inj}
use computer_networks_course.Approximator.Client.Strategy.Accepted.{Monotone}
use computer_networks_course.Prelude.{
  ℕ, suc, ◌+◌, ◌*◌, ◌/◌, ◌%◌, ◌≡◌, refl, sym, ap, ◌∙◌, ◌≢◌, Bool, true, false, [], ◌∷◌, ◌++◌, arith,
  All, Text, ℤ, pos, negsuc, ltb_ℤ,
}
use computer_networks_course.Approximator.MsgParser.Chars.{
  IsDigit, isdigit, take_digits-append, drop_digits-append, take_digits_whole,
}
use computer_networks_course.Approximator.MsgParser.Integer.{digits_value, signed}
use computer_networks_course.Approximator.MsgParser.Integer.Laws.{
  print_digits-All, print_digits-value, print_digits-ne-nil',
}
use computer_networks_course.Approximator.MsgParser.Decimal.{skip_dot}
use computer_networks_course.Approximator.MsgParser.Decimal.Laws.{spell}
use computer_networks_course.Approximator.MsgParser.Printer.{double_to_string}
use computer_networks_course.Approximator.MsgParser.Printer.Laws.{ReadsBack}
use computer_networks_course.Approximator.Tests.FixedPoint.{
  fixed_point, fixed_point-Printable, fixed_digits, fixed_digits-All, is_negative, magnitude,
  whole_digits, place_digits, fraction_value, read_unsigned, read_fixed,
}

places_value : (n : ℕ) → fraction_value 10000000 (fixed_digits 7 n) ≡ n % 10000000 * 10
unfolding fraction_value fixed_digits
places_value n = omega arith

read_unsigned-spell :
    (lead frac : Text)
    → All IsDigit lead
    → All IsDigit frac
    → read_unsigned (lead ++ b'.' ∷ frac)
      ≡ digits_value 0 lead * 100000000 + fraction_value 10000000 frac
unfolding read_unsigned isdigit skip_dot
read_unsigned-spell lead frac h g =
    rw
      (
        take_digits-append lead (b'.' ∷ frac) h refl,
        drop_digits-append lead (b'.' ∷ frac) h refl,
        take_digits_whole frac g,
      )
      refl

read_fixed-spell :
    (neg : Bool) (lead frac : Text)
    → All IsDigit lead
    → lead ≢ []
    → read_fixed (spell neg lead true frac) ≡ signed neg (read_unsigned (lead ++ b'.' ∷ frac))
unfolding read_fixed
read_fixed-spell true lead frac h n = refl
read_fixed-spell false [] frac h n = absurd (n refl)
read_fixed-spell false (c ∷ lead) frac h n = unfold isdigit in ground arith

read_fixed-print :
    (z : ℤ) → read_fixed (double_to_string z) ≡ signed (is_negative z) (magnitude z / 10 * 10)
unfolding double_to_string whole_digits place_digits digits_value
read_fixed-print z =
    let n = magnitude z / 100000000 in
    let lead : All IsDigit (whole_digits z) = print_digits-All (suc n) n [] tt in
    let frac = fixed_digits-All 7 (magnitude z / 10) in
    let whole : digits_value 0 (whole_digits z) ≡ n =
      print_digits-value (suc n) n [] (omega arith) in
    read_fixed-spell (is_negative z) (whole_digits z) (place_digits z) lead
      (print_digits-ne-nil' _ _)
    ∙ ap (signed (is_negative z)) (
        read_unsigned-spell (whole_digits z) (place_digits z) lead frac
        ∙ rw (whole, places_value (magnitude z / 10)) (omega arith))

-- What the value `z` reads back as.
abbrev rounded : ℤ → ℤ
rounded z = signed (is_negative z) (magnitude z / 10 * 10)

rounded_monotone : (a b : ℤ) → ltb_ℤ b a ≡ false → ltb_ℤ (rounded b) (rounded a) ≡ false
rounded_monotone (pos m) (pos n) h = ground arith
rounded_monotone (pos m) (negsuc n) h = ground arith
rounded_monotone (negsuc m) (pos n) h = ground arith
rounded_monotone (negsuc m) (negsuc n) h = ground arith

reads_rounded : (z z' : ℤ) → ReadsBack ⦃d = fixed_point⦄ z z' → z' ≡ rounded z
reads_rounded z z' r = sym (cc (some_inj r.reads)) ∙ read_fixed-print z

printing_monotone :
    (a a' b b' : ℤ)
    → ReadsBack ⦃d = fixed_point⦄ a a'
    → ReadsBack ⦃d = fixed_point⦄ b b'
    → ltb_ℤ b a ≡ false
    → ltb_ℤ b' a' ≡ false
printing_monotone a a' b b' r q h =
    rw (reads_rounded a a' r, reads_rounded b b' q) (rounded_monotone a b h)

as_itself : (z : ℤ) → rounded z ≡ z → ReadsBack ⦃d = fixed_point⦄ z z
as_itself z e =
    subst (ReadsBack ⦃d = fixed_point⦄ z) (reads_rounded z _ (fixed_point-Printable z).1 ∙ e)
      (fixed_point-Printable z).1

pub fixed_point-Monotone : Monotone fixed_point
fixed_point-Monotone = record {
  add_eps = λ a b h. ground arith;
  sub_eps = λ a b h. ground arith;
  printing = printing_monotone;
  least = as_itself _ refl;
  greatest = as_itself _ refl;
}
