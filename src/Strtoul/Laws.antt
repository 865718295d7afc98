-- ===== src/Strtoul/Laws.antt =====
-- What strtoul makes of the decimal numbers.
use computer_networks_course.Prelude.{
  ℕ, suc, ◌-◌, ◌%◌, ◌^◌, ◌<◌, ◌≡◌, refl, ap, ◌∙◌, ◌≢◌, Bool, true, false, [], ◌∷◌, ◌++◌, arith, ltb,
  if◌then◌else◌, All, Text,
}
use computer_networks_course.Approximator.MsgParser.Chars.{
  IsDigit, take_digits_whole, drop_digits_whole,
}
use computer_networks_course.Approximator.MsgParser.Integer.{digits_value, print_digits}
use computer_networks_course.Approximator.MsgParser.Integer.Laws.{
  minus, read_sign_minus, read_sign_digit, print_digits-value, print_digits-All,
  print_digits-ne-nil',
}
use computer_networks_course.Strtoul.{to_ulong, read_digits, strtoul}

read_digits_whole :
    (negative : Bool) (ds rest str : Text)
    → ds ≢ []
    → read_digits negative ds rest str ≡ to_ulong negative (digits_value 0 ds) rest
unfolding read_digits
read_digits_whole negative [] rest str n = absurd (n refl)
read_digits_whole negative (c ∷ ds) rest str n = refl

strtoul_number :
    (negative : Bool) (ds : Text)
    → ds ≢ []
    → All IsDigit ds
    → strtoul (minus negative ++ ds) ≡ to_ulong negative (digits_value 0 ds) []
unfolding strtoul
strtoul_number true ds n h =
    rw (read_sign_minus ds, strtoul)
      (rw (take_digits_whole ds h, drop_digits_whole ds h) (read_digits_whole true ds [] _ n))
strtoul_number false [] n h = absurd (n refl)
strtoul_number false (c ∷ ds) n h =
    rw (read_sign_digit c ds h.0, strtoul)
      (rw (take_digits_whole (c ∷ ds) h, drop_digits_whole (c ∷ ds) h)
        (read_digits_whole false (c ∷ ds) [] _ n))

-- The decimal digits of a number.
abbrev pub decimal : ℕ → Text
decimal n = print_digits (suc n) n []

-- A number that fits is read as it is, and with a minus as its negation in the type.
pub strtoul-decimal :
    (negative : Bool) (n : ℕ)
    → n < 2 ^ 64
    → strtoul (minus negative ++ decimal n) ≡ record {
      value = if negative then (2 ^ 64 - n) % 2 ^ 64 else n;
      range_error = false;
      rest = [];
    }
unfolding to_ulong digits_value
strtoul-decimal negative n h =
    strtoul_number negative (decimal n) (print_digits-ne-nil' n n)
      (print_digits-All (suc n) n [] tt)
    ∙ ap (λ v. to_ulong negative v []) (print_digits-value (suc n) n [] (omega arith))
    ∙ fits negative (ground arith)
  where
    fits :
        (b : Bool)
        → ltb (2 ^ 64 - 1) n ≡ false
        → to_ulong b n [] ≡ record {
          value = if b then (2 ^ 64 - n) % 2 ^ 64 else n;
          range_error = false;
          rest = [];
        }
    fits true small = rw small refl
    fits false small = rw small refl
