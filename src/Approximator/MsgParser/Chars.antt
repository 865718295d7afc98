-- ===== src/Approximator/MsgParser/Chars.antt =====
-- The character classes of msg_parser.cpp, and the scans over runs of digits.
use computer_networks_course.Prelude.{
  ℕ, ◌+◌, ◌<◌, ◌≡◌, refl, ap, Bool, true, false, ◌&&◌, ◌||◌, [], ◌∷◌, ◌++◌, Text, arith, leb,
  if◌then◌else◌, All, Bool-cases, inl, inr,
}

-- std::isdigit
unfoldable pub isdigit : ℕ → Bool
isdigit c = leb b'0' c && leb c b'9'

-- std::islower
unfoldable pub islower : ℕ → Bool
islower c = leb b'a' c && leb c b'z'

-- std::isalnum
unfoldable pub isalnum : ℕ → Bool
isalnum c = isdigit c || islower c || leb b'A' c && leb c b'Z'

-- std::all_of
unfoldable pub all_of : (ℕ → Bool) → Text → Bool
all_of p [] = true
all_of p (c ∷ s) = p c && all_of p s

unfoldable pub is_alphanumeric : Text → Bool
unfolding all_of
is_alphanumeric s = all_of isalnum s

pub all_of-All : (p : ℕ → Bool) (s : Text) → all_of p s ≡ true → All (λ c. p c ≡ true) s
unfolding all_of
all_of-All p [] h = tt
all_of-All p (c ∷ s) h = (ground arith, all_of-All p s (ground arith))

pub All-all_of : (p : ℕ → Bool) (s : Text) → All (λ c. p c ≡ true) s → all_of p s ≡ true
unfolding all_of
All-all_of p [] h = refl
All-all_of p (c ∷ s) h = ground (arith, All-all_of p s h.1)

-- `while (i < str.length() && isdigit(str[i])) i++;`: the digits passed, and what is left.
unfoldable pub take_digits : Text → Text
take_digits [] = []
take_digits (c ∷ s) = if isdigit c then c ∷ take_digits s else []

unfoldable pub drop_digits : Text → Text
drop_digits [] = []
drop_digits (c ∷ s) = if isdigit c then drop_digits s else c ∷ s

abbrev pub IsDigit : ℕ → Type 0
IsDigit c = isdigit c ≡ true

pub IsDigit-lt : (n : ℕ) → n < 10 → IsDigit (b'0' + n)
unfolding isdigit
IsDigit-lt n h = ground arith

-- The scans at digits followed by something else.
abbrev pub NoDigitFirst : Text → Type 0
NoDigitFirst [] = Unit
NoDigitFirst (c ∷ s) = isdigit c ≡ false

pub take_digits-append :
    (ds s : Text) → All IsDigit ds → NoDigitFirst s → take_digits (ds ++ s) ≡ ds
unfolding take_digits
take_digits-append [] [] h n = refl
take_digits-append [] (c ∷ s) h n = rw n
take_digits-append (c ∷ ds) s h n = rw h.0 (ap (◌∷◌ c) (take_digits-append ds s h.1 n))

pub drop_digits-append : (ds s : Text) → All IsDigit ds → NoDigitFirst s → drop_digits (ds ++ s) ≡ s
unfolding drop_digits
drop_digits-append [] [] h n = refl
drop_digits-append [] (c ∷ s) h n = rw n
drop_digits-append (c ∷ ds) s h n = rw h.0 (drop_digits-append ds s h.1 n)

pub take-append-drop_digits : (s : Text) → take_digits s ++ drop_digits s ≡ s
unfolding take_digits drop_digits
take-append-drop_digits [] = refl
take-append-drop_digits (c ∷ s) = elim (Bool-cases (isdigit c)) [
  | inl e ↦ rw e (ap (◌∷◌ c) (take-append-drop_digits s))
  | inr e ↦ rw e
]

pub take_digits-All : (s : Text) → All IsDigit (take_digits s)
unfolding take_digits
take_digits-All [] = tt
take_digits-All (c ∷ s) = elim (Bool-cases (isdigit c)) [
  | inl e ↦ rw e (e, take_digits-All s)
  | inr e ↦ rw e tt
]

pub drop_digits-NoDigitFirst : (s : Text) → NoDigitFirst (drop_digits s)
unfolding drop_digits
drop_digits-NoDigitFirst [] = tt
drop_digits-NoDigitFirst (c ∷ s) = elim (Bool-cases (isdigit c)) [
  | inl e ↦ rw e (drop_digits-NoDigitFirst s)
  | inr e ↦ rw e e
]

pub take_digits_whole : (ds : Text) → All IsDigit ds → take_digits ds ≡ ds
unfolding take_digits
take_digits_whole [] h = refl
take_digits_whole (c ∷ ds) h = rw h.0 (ap (◌∷◌ c) (take_digits_whole ds h.1))

pub drop_digits_whole : (ds : Text) → All IsDigit ds → drop_digits ds ≡ []
unfolding drop_digits
drop_digits_whole [] h = refl
drop_digits_whole (c ∷ ds) h = rw h.0 (drop_digits_whole ds h.1)
