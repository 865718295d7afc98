-- ===== src/Approximator/Constants.antt =====
-- constants.h, and the arithmetic of `double` that the program uses.
use computer_networks_course.Prelude.{ℕ, Bool, Option, Text, codes, ℤ, pos, negsuc}

-- What the program uses of `double` and of the library's conversions, for a type `F` of values.
-- `literal m e` is the constant m · 10^(-e); `stod` gives the value and the number of characters
-- read, or fails by an exception; `to_fixed n x` is `std::fixed << std::setprecision(n) << x`.
pub record Double (F : Type 0) : Type 0 where
  pub literal : ℤ → ℕ → F
  pub of_int : ℤ → F
  pub add : F → F → F
  pub sub : F → F → F
  pub mul : F → F → F
  pub lt : F → F → Bool
  pub stod : Text → Option (F × ℕ)
  pub to_fixed : ℕ → F → Text

abbrev pub max_k : ℕ
max_k = 10000

abbrev pub max_n : ℕ
max_n = 8

abbrev pub max_m : ℕ
max_m = 12341234

abbrev pub max_fractional_digits : ℕ
max_fractional_digits = 7

abbrev pub early_put_penalty : ℤ
early_put_penalty = pos 20

abbrev pub bad_put_penalty : ℤ
bad_put_penalty = pos 10

-- seconds
abbrev pub bad_put_delay : ℕ
bad_put_delay = 1

abbrev pub hello_wait_time : ℕ
hello_wait_time = 3

abbrev pub crlf : Text
crlf = codes "\r\n"

module _ {F : Type 0} ⦃d : Double F⦄ where
  abbrev pub min_coeff : F
  min_coeff = d.literal (negsuc 99) 0

  abbrev pub max_coeff : F
  max_coeff = d.literal (pos 100) 0

  -- 3e-8
  abbrev pub eps : F
  eps = d.literal (pos 3) 8

  abbrev pub min_put_value : F
  min_put_value = d.literal (negsuc 4) 0

  abbrev pub max_put_value : F
  max_put_value = d.literal (pos 5) 0
