-- ===== src/Approximator/MsgParser/Decimal/Laws.antt =====
-- The decimal format test decides the grammar  [-] digits* [.] digits*  with at least one digit
-- and at most seven behind the dot.
use computer_networks_course.Prelude.{
  ℕ, ◌+◌, ◌≤◌, ◌≡◌, refl, sym, ap, ◌∙◌, ◌≢◌, inl, inr, Bool, true, false, ◌&&◌, not, none, some, [],
  ◌∷◌, ◌++◌, arith, ltb, ◌==◌, if◌then◌else◌, ==_iff, Bool-cases, Option-cases, length, All, Text,
}
use computer_networks_course.Approximator.MsgParser.Chars.{
  isdigit, take_digits, drop_digits, IsDigit, NoDigitFirst, take_digits-append, drop_digits-append,
  take-append-drop_digits, take_digits-All, drop_digits-NoDigitFirst,
}
use computer_networks_course.Approximator.MsgParser.Decimal.{
  scan_fraction, skip_dot, is_empty, is_unsigned_format, is_valid_double_format,
}
use computer_networks_course.Approximator.MsgParser.Integer.Laws.{minus}

abbrev pub point : Bool → Text
point true = b'.' ∷ []
point false = []

-- The parts of a decimal number.
pub record IsDecimal (lead : Text) (dot : Bool) (frac : Text) : Type 0 where
  pub lead_digits : All IsDigit lead
  pub frac_digits : All IsDigit frac
  pub some_digit : lead ++ frac ≢ []
  pub few : length frac ≤ 7
  pub no_dot : dot ≡ false → frac ≡ []

abbrev pub spell : Bool → Text → Bool → Text → Text
spell neg lead dot frac = minus neg ++ (lead ++ (point dot ++ frac))

scan_fraction-digits :
    (frac : Text) (count : ℕ)
    → All IsDigit frac
    → count + length frac ≤ 7
    → scan_fraction count frac ≡ some (count + length frac, [])
unfolding scan_fraction
scan_fraction-digits [] count h few = ground arith
scan_fraction-digits (c ∷ s) count h few =
    ground (arith, scan_fraction-digits s (count + 1) h.1 (omega arith))

scan_fraction-inv :
    (s : Text) (count : ℕ) (k : ℕ) (rest : Text)
    → scan_fraction count s ≡ some (k, rest)
    → is_empty rest ≡ true
    → count ≤ 7
    → All IsDigit s × (k ≡ count + length s) × (k ≤ 7)
unfolding scan_fraction
scan_fraction-inv [] count k rest h e few = (tt, ground arith, ground arith)
scan_fraction-inv (c ∷ s) count k rest h e few =
    ground (arith, scan_fraction-inv s (count + 1) k rest)

-- The last test: some digit was seen, and all the text is used.
some_digit_test :
    (lead frac : Text)
    → lead ++ frac ≢ []
    → (not (not (is_empty lead)) && not (ltb 0 (length frac))) ≡ false
some_digit_test [] [] n = absurd (n refl)
some_digit_test [] (c ∷ frac) n = ground arith
some_digit_test (c ∷ lead) frac n = refl

digits_seen :
    (lead frac : Text)
    → (not (not (is_empty lead)) && not (ltb 0 (length frac))) ≡ false
    → lead ++ frac ≢ []
digits_seen [] [] h = absurd (ground arith)
digits_seen [] (c ∷ frac) h = λ e. cc
digits_seen (c ∷ lead) frac h = λ e. cc

unsigned_split :
    (s lead r : Text) (count : ℕ)
    → take_digits s ≡ lead
    → scan_fraction 0 (skip_dot (drop_digits s)) ≡ some (count, r)
    → is_unsigned_format s
      ≡ (if not (not (is_empty lead)) && not (ltb 0 count) then false else is_empty r)
unfolding is_unsigned_format
unsigned_split s lead r count p q = ground arith

skip_dot-point : (frac : Text) → skip_dot (b'.' ∷ frac) ≡ frac
unfolding skip_dot
skip_dot-point frac = refl

point-NoDigitFirst :
    (dot : Bool) (frac : Text) → (dot ≡ false → frac ≡ []) → NoDigitFirst (point dot ++ frac)
unfolding isdigit
point-NoDigitFirst true frac h = refl
point-NoDigitFirst false frac h = rw (h refl) tt

skip_dot-behind :
    (dot : Bool) (frac : Text) → (dot ≡ false → frac ≡ []) → skip_dot (point dot ++ frac) ≡ frac
unfolding skip_dot
skip_dot-behind true frac h = refl
skip_dot-behind false frac h = rw (h refl)

unsigned_complete :
    {dot : Bool} {lead frac : Text}
    → IsDecimal lead dot frac
    → is_unsigned_format (lead ++ (point dot ++ frac)) ≡ true
unsigned_complete {dot = dot} {lead = lead} {frac = frac} v =
    let e : scan_fraction 0 (skip_dot (drop_digits (lead ++ (point dot ++ frac))))
        ≡ some (length frac, []) =
      rw
        (
          drop_digits-append lead (point dot ++ frac) v.lead_digits
              (point-NoDigitFirst dot frac v.no_dot),
          skip_dot-behind dot frac v.no_dot,
        )
        (scan_fraction-digits frac 0 v.frac_digits (omega arith)
          ∙ ap (λ (k : ℕ). some (k, [])) (omega arith)) in
    unsigned_split _ lead [] (length frac)
      (take_digits-append lead _ v.lead_digits (point-NoDigitFirst dot frac v.no_dot)) e
    ∙ rw (some_digit_test lead frac v.some_digit)

-- The two ways into the unsigned test.
valid_minus : (s : Text) → s ≢ [] → is_valid_double_format (b'-' ∷ s) ≡ is_unsigned_format s
unfolding is_valid_double_format
valid_minus [] n = absurd (n refl)
valid_minus (c ∷ s) n = ground arith

valid_plain :
    (c : ℕ) (s : Text) → c ≢ b'-' → is_valid_double_format (c ∷ s) ≡ is_unsigned_format (c ∷ s)
unfolding is_valid_double_format
valid_plain c s n = ground arith

pub body-ne-nil :
    (lead : Text) (dot : Bool) (frac : Text) → lead ++ frac ≢ [] → lead ++ (point dot ++ frac) ≢ []
body-ne-nil [] true frac n = λ e. cc
body-ne-nil [] false frac n = n
body-ne-nil (c ∷ lead) dot frac n = λ e. cc

digit-ne-minus : (c : ℕ) → IsDigit c → c ≢ b'-'
unfolding isdigit
digit-ne-minus c h = ground arith

-- Every decimal number passes the format test.
pub format_complete :
    (neg : Bool) {dot : Bool} {lead frac : Text}
    → IsDecimal lead dot frac
    → is_valid_double_format (spell neg lead dot frac) ≡ true
format_complete true {dot = dot} {lead = lead} {frac = frac} v =
    valid_minus _ (body-ne-nil lead dot frac v.some_digit) ∙ unsigned_complete v
format_complete false {dot = dot} {lead = c ∷ lead} {frac = frac} v =
    valid_plain c _ (digit-ne-minus c v.lead_digits.0) ∙ unsigned_complete v
format_complete false {dot = true} {lead = []} {frac = frac} v =
    valid_plain b'.' _ (omega arith) ∙ unsigned_complete v
format_complete false {dot = false} {lead = []} {frac = c ∷ frac} v =
    valid_plain c _ (digit-ne-minus c v.frac_digits.0) ∙ unsigned_complete v
format_complete false {dot = false} {lead = []} {frac = []} v = absurd (v.some_digit refl)

skip_dot_inv :
    (r : Text)
    → NoDigitFirst r
    → All IsDigit (skip_dot r)
    → (dot : Bool) × (r ≡ point dot ++ skip_dot r) × (dot ≡ false → skip_dot r ≡ [])
unfolding skip_dot
skip_dot_inv [] n h = (false, refl, λ _. refl)
skip_dot_inv (c ∷ r) n h = elim (Bool-cases (c == b'.')) [
  | inl e ↦ (true, rw e (ap (λ x. x ∷ r) ((==_iff c b'.').0 e)), λ e'. cc)
  | inr e ↦ let h' : All IsDigit (c ∷ r) = rw e at h in absurd (cc (sym n ∙ h'.0))
]

unsigned_fails :
    (s : Text) → scan_fraction 0 (skip_dot (drop_digits s)) ≡ none → is_unsigned_format s ≡ false
unfolding is_unsigned_format
unsigned_fails s e = ground arith

passed_tests : (a b : Bool) → (if a then false else b) ≡ true → (a ≡ false) × (b ≡ true)
passed_tests a b h = ground arith

unsigned_sound :
    (s : Text)
    → is_unsigned_format s ≡ true
    → (lead : Text) × (dot : Bool) × (frac : Text) × (s ≡ lead ++ (point dot ++ frac))
      × IsDecimal lead dot frac
unsigned_sound s h = elim (Option-cases (scan_fraction 0 (skip_dot (drop_digits s)))) [
  | inl e ↦ absurd (cc (sym (unsigned_fails s e) ∙ h))
  | inr ((k, rest), e) ↦
      let passed = passed_tests _ _ (sym (unsigned_split s (take_digits s) rest k refl e) ∙ h) in
      let (digits, count, few) =
        scan_fraction-inv (skip_dot (drop_digits s)) 0 k rest e passed.1 (omega arith) in
      let (dot, er, nd) = skip_dot_inv (drop_digits s) (drop_digits-NoDigitFirst s) digits in
      (
        take_digits s,
        dot,
        skip_dot (drop_digits s),
        sym (take-append-drop_digits s) ∙ ap (◌++◌ (take_digits s)) er,
        record {
          lead_digits = take_digits-All s;
          frac_digits = digits;
          some_digit = digits_seen (take_digits s) (skip_dot (drop_digits s)) (
              ap (λ (n : ℕ). not (not (is_empty (take_digits s))) && not (ltb 0 n)) (omega arith)
              ∙ passed.0);
          few = omega arith;
          no_dot = nd;
        },
      )
]

behind_minus :
    (c : ℕ) (s : Text)
    → (c == b'-') ≡ true
    → is_valid_double_format (c ∷ s) ≡ true
    → is_unsigned_format s ≡ true
unfolding is_valid_double_format
behind_minus c s e h = ground arith

no_minus :
    (c : ℕ) (s : Text)
    → (c == b'-') ≡ false
    → is_valid_double_format (c ∷ s) ≡ true
    → is_unsigned_format (c ∷ s) ≡ true
unfolding is_valid_double_format
no_minus c s e h = ground arith

-- A text passes the format test only if it is a decimal number: an optional minus, digits, an
-- optional dot and at most seven digits, with a digit somewhere.
pub format_sound :
    (s : Text)
    → is_valid_double_format s ≡ true
    → (neg : Bool) × (lead : Text) × (dot : Bool) × (frac : Text) × (s ≡ spell neg lead dot frac)
      × IsDecimal lead dot frac
format_sound [] h = absurd (unfold is_valid_double_format in cc h)
format_sound (c ∷ s) h = elim (Bool-cases (c == b'-')) [
  | inl e ↦
      let (lead, dot, frac, es, v) = unsigned_sound s (behind_minus c s e h) in
      (true, lead, dot, frac, ap (λ x. x ∷ s) ((==_iff c b'-').0 e) ∙ ap (◌∷◌ b'-') es, v)
  | inr e ↦
      let (lead, dot, frac, es, v) = unsigned_sound (c ∷ s) (no_minus c s e h) in
      (false, lead, dot, frac, es, v)
]
