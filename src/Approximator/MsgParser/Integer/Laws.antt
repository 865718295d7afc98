-- ===== src/Approximator/MsgParser/Integer/Laws.antt =====
-- What `parseInteger` accepts, and that it reads back what `std::to_string` writes.
use computer_networks_course.Prelude.{
  ℕ, zero, suc, ◌+◌, ◌/◌, ◌%◌, ◌<◌, ◌≡◌, refl, sym, ap, ◌∙◌, ◌≢◌, inl, inr, Bool, true, false, ◌||◌,
  not, Option, none, some, [], ◌∷◌, ◌++◌, arith, ◌==◌, if◌then◌else◌, ==_iff, Bool-cases, ◌>>=◌,
  guard, guard-eq-some, >>=-eq-some, length, All, Text, ℤ, pos, negsuc, ltb_ℤ,
}
use computer_networks_course.Approximator.MsgParser.Chars.{
  isdigit, IsDigit, IsDigit-lt, take_digits_whole, drop_digits_whole, all_of-All, All-all_of,
}
use computer_networks_course.Approximator.MsgParser.Integer.{
  is_valid_integer_format, digits_value, isspace, skip_space, signed, read_sign, read_long_long,
  to_long_long, stoll, int_min, int_max, parse_integer, print_digits, to_string,
}

abbrev pub minus : Bool → Text
minus true = b'-' ∷ []
minus false = []

-- The value lies within `int`.
abbrev pub in_int : ℤ → Bool
in_int z = not (ltb_ℤ z int_min || ltb_ℤ int_max z)

abbrev IsNumber : Bool → Text → Type 0
IsNumber neg ds = (ds ≢ []) × All IsDigit ds

read_long_long_digits :
    (neg : Bool) (ds : Text) (size : ℕ)
    → ds ≢ []
    → All IsDigit ds
    → read_long_long neg ds size ≡ to_long_long (signed neg (digits_value 0 ds)) size
unfolding read_long_long
read_long_long_digits neg [] size n h = absurd (n refl)
read_long_long_digits neg (c ∷ ds) size n h =
    rw (take_digits_whole (c ∷ ds) h, drop_digits_whole (c ∷ ds) h, read_long_long)
      (ap (to_long_long (signed neg (digits_value 0 (c ∷ ds)))) (omega arith))

pub read_sign_minus : (s : Text) → read_sign (skip_space (b'-' ∷ s)) ≡ (true, s)
unfolding read_sign skip_space isspace
read_sign_minus s = refl

pub read_sign_digit :
    (c : ℕ) (s : Text) → IsDigit c → read_sign (skip_space (c ∷ s)) ≡ (false, c ∷ s)
unfolding read_sign skip_space isspace isdigit
read_sign_digit c s h = ground arith

stoll_number :
    (neg : Bool) (ds : Text)
    → ds ≢ []
    → All IsDigit ds
    → stoll (minus neg ++ ds)
      ≡ to_long_long (signed neg (digits_value 0 ds)) (length (minus neg ++ ds))
unfolding stoll
stoll_number true ds n h = rw (read_sign_minus ds, stoll) (read_long_long_digits true ds _ n h)
stoll_number false [] n h = absurd (n refl)
stoll_number false (c ∷ ds) n h =
    rw (read_sign_digit c ds h.0, stoll) (read_long_long_digits false (c ∷ ds) _ n h)

format_number :
    (neg : Bool) (ds : Text)
    → ds ≢ []
    → All IsDigit ds
    → is_valid_integer_format (minus neg ++ ds) ≡ true
unfolding is_valid_integer_format isdigit
format_number neg [] n h = absurd (n refl)
format_number true (c ∷ ds) n h = ground (arith, All-all_of isdigit (c ∷ ds) h)
format_number false (c ∷ ds) n h = ground (arith, All-all_of isdigit (c ∷ ds) h)

negative : (n : ℕ) → signed true (suc n) ≡ negsuc n
negative n = ground arith

-- Within `int` the value is within `long long`, and all the text is read.
within :
    (neg : Bool) (n size : ℕ)
    → (to_long_long (signed neg n) size >>= λ r. guard (r.1 == size) >>= λ _.
        guard (not (ltb_ℤ r.0 int_min || ltb_ℤ int_max r.0)) >>= λ _. some r.0)
      ≡ (if in_int (signed neg n) then some (signed neg n) else none)
unfolding to_long_long
within true n size = ground arith
within false n size = ground arith

parse_integer_number :
    (neg : Bool) (ds : Text)
    → ds ≢ []
    → All IsDigit ds
    → parse_integer (minus neg ++ ds)
      ≡ (let value = signed neg (digits_value 0 ds) in if in_int value then some value else none)
unfolding parse_integer
parse_integer_number neg ds n h =
    rw (format_number neg ds n h, stoll_number neg ds n h) (within neg (digits_value 0 ds) _)

-- The texts that pass the format test: an optional minus and at least one digit.
valid_number :
    (s : Text)
    → is_valid_integer_format s ≡ true
    → (neg : Bool) × (ds : Text) × (s ≡ minus neg ++ ds) × (ds ≢ []) × All IsDigit ds
unfolding is_valid_integer_format
valid_number [] h = cc
valid_number (c ∷ s) h = elim (Bool-cases (c == b'-')) [
  | inl e ↦ (
    true,
    s,
    ap (λ x. x ∷ s) ((==_iff c b'-').0 e),
    (λ n. ground arith),
    all_of-All isdigit s (ground arith),
  )
  | inr e ↦ (false, c ∷ s, refl, (λ n. cc), all_of-All isdigit (c ∷ s) (ground arith))
]

if-eq-some :
    (b : Bool) (v z : ℤ)
    → b ≡ in_int v
    → (if b then some v else none) ≡ some z
    → (z ≡ v) × (in_int z ≡ true)
if-eq-some true v z e h = (ground arith, sym (ap (λ x. in_int (unpack x)) h) ∙ sym e)
  where
    unpack : Option ℤ → ℤ
    unpack none = pos 0
    unpack (some x) = x
if-eq-some false v z e h = cc

-- A text that parseInteger accepts is an optional minus and at least one digit; the result is its
-- value, which lies within `int`.
pub parse_integer_sound :
    (s : Text) (z : ℤ)
    → parse_integer s ≡ some z
    → (neg : Bool) × (ds : Text) × (s ≡ minus neg ++ ds)
      × (ds ≢ [])
      × All IsDigit ds
      × (z ≡ signed neg (digits_value 0 ds))
      × (in_int z ≡ true)
unfolding parse_integer
parse_integer_sound s z h =
    let (u, valid, rest) = >>=-eq-some (guard (is_valid_integer_format s)) _ h in
    let (neg, ds, e, n, digits) = valid_number s (guard-eq-some _ valid) in
    let number : (if in_int (signed neg (digits_value 0 ds))
          then some (signed neg (digits_value 0 ds))
          else none)
        ≡ some z =
      sym (parse_integer_number neg ds n digits) ∙ ap parse_integer (sym e) ∙ h in
    let (ez, fits) = if-eq-some _ _ z refl number in (neg, ds, e, n, digits, ez, fits)

pub print_digits-value :
    (f n : ℕ) (out : Text) → n < f → digits_value 0 (print_digits f n out) ≡ digits_value n out
unfolding print_digits digits_value
print_digits-value zero n out h = elim h [ ]
print_digits-value (suc f) n out h = elim (Bool-cases (n / 10 == 0)) [
  | inl done ↦ rw done (ground arith)
  | inr more ↦
      rw more (
        print_digits-value f (n / 10) _ (ground arith) ∙ ap (λ k. digits_value k out) (omega arith))
]

pub print_digits-All : (f n : ℕ) (out : Text) → All IsDigit out → All IsDigit (print_digits f n out)
unfolding print_digits
print_digits-All zero n out h = h
print_digits-All (suc f) n out h =
    let h' : All IsDigit ((b'0' + n % 10) ∷ out) = (IsDigit-lt (n % 10) (omega arith), h) in
    elim (Bool-cases (n / 10 == 0)) [
      | inl done ↦ rw done h'
      | inr more ↦ rw more (print_digits-All f (n / 10) _ h')
    ]

print_digits-ne-nil : (f n : ℕ) (out : Text) → out ≢ [] → print_digits f n out ≢ []
unfolding print_digits
print_digits-ne-nil zero n out h = h
print_digits-ne-nil (suc f) n out h = elim (Bool-cases (n / 10 == 0)) [
  | inl done ↦ rw done (λ e. cc)
  | inr more ↦ rw more (print_digits-ne-nil f (n / 10) _ (λ e. cc))
]

pub print_digits-ne-nil' : (f n : ℕ) → print_digits (suc f) n [] ≢ []
unfolding print_digits
print_digits-ne-nil' f n = elim (Bool-cases (n / 10 == 0)) [
  | inl done ↦ rw done (λ e. cc)
  | inr more ↦ rw more (print_digits-ne-nil f (n / 10) _ (λ e. cc))
]

-- The text that std::to_string prints for an `int` is parsed back to it.
pub parse_integer-to_string : (z : ℤ) → in_int z ≡ true → parse_integer (to_string z) ≡ some z
unfolding to_string digits_value
parse_integer-to_string (pos n) h =
    let ds = print_digits (suc n) n [] in
    let value : digits_value 0 ds ≡ n = print_digits-value (suc n) n [] (omega arith) in
    let number : parse_integer ds
        ≡ (if in_int (pos (digits_value 0 ds)) then some (pos (digits_value 0 ds)) else none) =
      parse_integer_number false ds (print_digits-ne-nil' n n) (print_digits-All (suc n) n [] tt) in
    number ∙ ap (λ v. if in_int (pos v) then some (pos v) else none) value ∙ rw h
parse_integer-to_string (negsuc n) h =
    let ds = print_digits (suc (suc n)) (suc n) [] in
    let value : digits_value 0 ds ≡ suc n =
      print_digits-value (suc (suc n)) (suc n) [] (omega arith) in
    parse_integer_number true ds (print_digits-ne-nil' (suc n) (suc n))
      (print_digits-All (suc (suc n)) (suc n) [] tt)
    ∙ ap (λ v. if in_int (signed true v) then some (signed true v) else none) value
    ∙ rw (negative n) (rw h)
