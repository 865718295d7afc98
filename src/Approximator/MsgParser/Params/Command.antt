-- ===== src/Approximator/MsgParser/Params/Command.antt =====
-- How `extractCommandAndParams` cuts a line.
use computer_networks_course.Prelude.{
  ℕ, zero, suc, ◌+◌, ◌<◌, ◌≡◌, refl, sym, ap, ◌∙◌, ◌≢◌, ◌⊎◌, inl, inr, Bool, false, Option, none,
  some, [], ◌∷◌, ◌++◌, arith, ◌==◌, if◌then◌else◌, Option-cases, length, take, drop, length-append,
  length-take, length-drop, take-append, All, Text,
}
use computer_networks_course.Approximator.MsgParser.Params.{find, extract_command_and_params}

abbrev pub Lacks : ℕ → Text → Type 0
Lacks c = All (λ x. x ≢ c)

find-Lacks : (c : ℕ) (s : Text) → Lacks c s → find c s ≡ none
unfolding find
find-Lacks c [] h = refl
find-Lacks c (x ∷ s) h = ground (arith, find-Lacks c s h.1)

find_first : (c : ℕ) (s r : Text) → Lacks c s → find c (s ++ (c ∷ r)) ≡ some (length s)
unfolding find
find_first c [] r h = ground arith
find_first c (x ∷ s) r h = ground (arith, find_first c s r h.1)

find_sound :
    (c : ℕ) (s : Text) (i : ℕ)
    → find c s ≡ some i
    → Lacks c (take i s) × (s ≡ take i s ++ (c ∷ drop (suc i) s)) × (i < length s)
find_sound c [] i h = absurd (unfold find in cc h)
find_sound c (x ∷ s) zero h =
    let e : x ≡ c = unfold find in ground arith in (tt, ap (λ y. y ∷ s) e, omega arith)
find_sound c (x ∷ s) (suc i) h =
    let n : x ≢ c = unfold find in ground arith in
    let e : find c s ≡ some i = unfold find in ground arith in
    let (l, es, lt) = find_sound c s i e in ((n, l), ap (◌∷◌ x) es, omega arith)

-- A command of its own, with no parameters.
pub extract_command :
    (cmd : Text) → cmd ≢ [] → Lacks b' ' cmd → extract_command_and_params cmd ≡ some (cmd, [])
unfolding extract_command_and_params
extract_command [] n h = absurd (n refl)
extract_command (c ∷ s) n h = rw (find-Lacks b' ' (c ∷ s) h, extract_command_and_params)

extract_found :
    (c : ℕ) (s : Text) (i : ℕ)
    → find b' ' (c ∷ s) ≡ some i
    → extract_command_and_params (c ∷ s) ≡ (
        if i == 0
        then none
        else if i + 1 == length (c ∷ s)
        then none
        else some (take i (c ∷ s), drop (i + 1) (c ∷ s)))
unfolding extract_command_and_params
extract_found c s i e = rw (e, extract_command_and_params)

drop_behind : (s : Text) (x : ℕ) (r : Text) → drop (length s + 1) (s ++ (x ∷ r)) ≡ r
drop_behind s x r =
    ap (λ (n : ℕ). drop n (s ++ (x ∷ r))) {y = suc (length s)} (omega arith) ∙ behind s
  where
    behind : (s : Text) → drop (suc (length s)) (s ++ (x ∷ r)) ≡ r
    behind [] = refl
    behind (c ∷ s) = behind s

long : (s : Text) → s ≢ [] → 0 < length s
long [] n = absurd (n refl)
long (c ∷ s) n = omega arith

pub extract_both :
    (cmd params : Text)
    → cmd ≢ []
    → Lacks b' ' cmd
    → params ≢ []
    → extract_command_and_params (cmd ++ (b' ' ∷ params)) ≡ some (cmd, params)
extract_both [] params n h np = absurd (n refl)
extract_both (c ∷ s) params n h np =
    extract_found c _ (length (c ∷ s)) (find_first b' ' (c ∷ s) params h)
    ∙ ground (
      arith,
      length-append s (b' ' ∷ params),
      take-append s (b' ' ∷ params),
      drop_behind (c ∷ s) b' ' params,
      long params np,
    )

extract_missing :
    (c : ℕ) (s : Text)
    → find b' ' (c ∷ s) ≡ none
    → extract_command_and_params (c ∷ s) ≡ some (c ∷ s, [])
unfolding extract_command_and_params
extract_missing c s e = rw (e, extract_command_and_params)

find-none : (c : ℕ) (s : Text) → find c s ≡ none → Lacks c s
unfolding find
find-none c [] h = tt
find-none c (x ∷ s) h = let e : find c s ≡ none = ground arith in (ground arith, find-none c s e)

pair-eq :
    (a b c d : Text)
    → ◌≡◌ {A = Option (Text × Text)} (some (a, b)) (some (c, d))
    → (a ≡ c) × (b ≡ d)
pair-eq a b c d h = ground arith

found_tests :
    (p q : Bool) (u v : Text × Text)
    → (if p then none else if q then none else some u) ≡ some v
    → (p ≡ false) × (q ≡ false) × (u.0 ≡ v.0) × (u.1 ≡ v.1)
found_tests p q u v h = ground arith

take_some : (i : ℕ) (s : Text) → 0 < i → i < length s → take i s ≢ []
take_some i s h lt e = omega (arith, length-take i s (omega arith), ap length e)

drop_some : (i : ℕ) (s : Text) → i < length s → drop i s ≢ []
drop_some i s lt e = omega (arith, length-drop i s, ap length e)

-- The command and the parameters of an accepted line: the line has no space and is the command, or
-- it is the command, a space, and the parameters, which are not empty.
pub extract_sound :
    (line cmd params : Text)
    → extract_command_and_params line ≡ some (cmd, params)
    → (cmd ≢ [])
      × Lacks b' ' cmd
      × (((line ≡ cmd) × (params ≡ [])) ⊎ ((line ≡ cmd ++ (b' ' ∷ params)) × (params ≢ [])))
extract_sound [] cmd params h = absurd (unfold extract_command_and_params in cc h)
extract_sound (c ∷ s) cmd params h = elim (Option-cases (find b' ' (c ∷ s))) [
  | inl e ↦
      let both = pair-eq _ _ _ _ (sym (extract_missing c s e) ∙ h) in
      let l = find-none b' ' (c ∷ s) e in rw (← both.0, ← both.1) ((λ e'. cc), l, inl (refl, refl))
  | inr (i, e) ↦
      let (later, more, ec, ep) = found_tests _ _ _ _ (sym (extract_found c s i e) ∙ h) in
      let (l, es, lt) = find_sound b' ' (c ∷ s) i e in
      let drops : drop (i + 1) (c ∷ s) ≡ drop (suc i) (c ∷ s) =
        ap (λ (n : ℕ). drop n (c ∷ s)) {y = suc i} (omega arith) in
      rw (← ec, ← ep)
        (
          (λ n. take_some i (c ∷ s) (ground arith) lt n),
          l,
          inr (
            es ∙ ap (λ r. take i (c ∷ s) ++ (b' ' ∷ r)) (sym drops),
            drop_some (i + 1) (c ∷ s) (ground arith),
          ),
        )
]
