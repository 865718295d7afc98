-- ===== src/Approximator/Client/Strategy/Maximum.antt =====
-- The maximum and the clamp of get_best_put.
use computer_networks_course.Prelude.{
  ℕ, zero, suc, ◌+◌, ◌<◌, ◌≡◌, refl, ap, ◌⊎◌, inl, inr, true, false, some, List, [], ◌∷◌, ◌++◌,
  append_assoc, append-nil, arith, if◌then◌else◌, Bool-cases, length, length-append, get_elem?,
}
use computer_networks_course.Approximator.Constants.{Double, min_put_value, max_put_value}
use computer_networks_course.Approximator.Client.Strategy.{max_loop, max_index, clamp}

pub record Order {F : Type 0} (d : Double F) : Type 0 where
  pub irreflexive : (a : F) → d.lt a a ≡ false
  pub transitive : (a b c : F) → d.lt a b ≡ true → d.lt b c ≡ true → d.lt a c ≡ true
  pub total : (a b c : F) → d.lt a b ≡ false → d.lt a c ≡ true → d.lt b c ≡ true
  pub bounds : d.lt (min_put_value ⦃d = d⦄) (max_put_value ⦃d = d⦄) ≡ true

pub some_inj {ℓ} : {A : Type ℓ} {a b : A} → some a ≡ some b → a ≡ b
some_inj h = cc h

get_elem?-snoc {ℓ} :
    {A : Type ℓ} (xs : List A) (x : A) (j : ℕ) {w : A}
    → get_elem? (xs ++ x ∷ []) j ≡ some w
    → (get_elem? xs j ≡ some w) ⊎ ((j ≡ length xs) × (x ≡ w))
get_elem?-snoc [] x zero h = inr (refl, some_inj h)
get_elem?-snoc [] x (suc j) h = inl h
get_elem?-snoc (y ∷ xs) x zero h = inl h
get_elem?-snoc (y ∷ xs) x (suc j) h = elim (get_elem?-snoc xs x j h) [
  | inl e ↦ inl e
  | inr (e, f) ↦ inr (ap suc e, f)
]

get_elem?-last {ℓ} :
    {A : Type ℓ} (xs : List A) (x : A) → get_elem? (xs ++ x ∷ []) (length xs) ≡ some x
get_elem?-last [] x = refl
get_elem?-last (y ∷ xs) x = get_elem?-last xs x

get_elem?-front {ℓ} :
    {A : Type ℓ} (xs : List A) (x : A) (j : ℕ) {w : A}
    → get_elem? xs j ≡ some w
    → get_elem? (xs ++ x ∷ []) j ≡ some w
get_elem?-front [] x j h = cc h
get_elem?-front (y ∷ xs) x zero h = h
get_elem?-front (y ∷ xs) x (suc j) h = get_elem?-front xs x j h

pub get_elem?-lt {ℓ} :
    {A : Type ℓ} (xs : List A) (j : ℕ) {w : A} → get_elem? xs j ≡ some w → j < length xs
get_elem?-lt [] j h = cc h
get_elem?-lt (y ∷ xs) zero h = omega arith
get_elem?-lt (y ∷ xs) (suc j) h = omega (arith, get_elem?-lt xs j h)

module _ {F : Type 0} ⦃d : Double F⦄ where
  -- The value `v` at the index `i` is the first of the largest.
  pub record IsFirstMax (xs : List F) (i : ℕ) (v : F) : Type 0 where
    pub stands : get_elem? xs i ≡ some v
    pub largest : (j : ℕ) (w : F) → get_elem? xs j ≡ some w → d.lt v w ≡ false
    pub first : (j : ℕ) (w : F) → get_elem? xs j ≡ some w → j < i → d.lt w v ≡ true

module _ {F : Type 0} ⦃d : Double F⦄ (order : Order d) where
  IsFirstMax-snoc :
      (xs : List F) (x : F) (i : ℕ) (v : F)
      → IsFirstMax xs i v
      → IsFirstMax (xs ++ x ∷ []) (if d.lt v x then length xs else i) (if d.lt v x then x else v)
  IsFirstMax-snoc xs x i v m = elim (Bool-cases (d.lt v x)) [
    | inl above ↦ rw above (record {
      stands = get_elem?-last xs x;
      largest = λ j w h. elim (get_elem?-snoc xs x j h) [
        | inl e ↦ not_above w (m.largest j w e) above (Bool-cases (d.lt x w))
        | inr (e, f) ↦ rw (← f) (order.irreflexive x)
      ];
      first = λ j w h lt. elim (get_elem?-snoc xs x j h) [
        | inl e ↦ order.total v w x (m.largest j w e) above
        | inr (e, f) ↦ absurd (omega arith)
      ];
    })
    | inr below ↦ rw below (record {
      stands = get_elem?-front xs x i m.stands;
      largest = λ j w h. elim (get_elem?-snoc xs x j h) [
        | inl e ↦ m.largest j w e
        | inr (e, f) ↦ rw (← f) below
      ];
      first = λ j w h lt. elim (get_elem?-snoc xs x j h) [
        | inl e ↦ m.first j w e lt
        | inr (e, f) ↦ absurd (omega (arith, get_elem?-lt xs i m.stands))
      ];
    })
  ]
    where
      not_above :
          (w : F)
          → d.lt v w ≡ false
          → d.lt v x ≡ true
          → (d.lt x w ≡ true) ⊎ (d.lt x w ≡ false)
          → d.lt x w ≡ false
      not_above w n above (inl up) = cc (order.transitive v x w above up, n)
      not_above w n above (inr down) = down

  max_loop-IsFirstMax :
      (seen xs : List F) (i n : ℕ) (v : F)
      → n ≡ length seen
      → IsFirstMax seen i v
      → (w : F) × IsFirstMax (seen ++ xs) (max_loop i v n xs) w
  unfolding max_loop
  max_loop-IsFirstMax seen [] i n v e m = (v, rw append-nil m)
  max_loop-IsFirstMax seen (x ∷ xs) i n v e m =
      let (w, h) =
        max_loop-IsFirstMax (seen ++ x ∷ []) xs (if d.lt v x then n else i) (n + 1)
          (if d.lt v x then x else v) (omega (arith, length-append seen (x ∷ [])))
          (rw e (IsFirstMax-snoc seen x i v m)) in
      (w, rw append_assoc at h)

  -- The index of std::max_element, for a range that is not empty.
  max_index-IsFirstMax :
      (x : F) (xs : List F) → (w : F) × IsFirstMax (x ∷ xs) (max_index (x ∷ xs)) w
  unfolding max_index
  max_index-IsFirstMax x xs =
      max_loop-IsFirstMax (x ∷ []) xs 0 1 x refl
        (record { stands = refl; largest = λ j w h. only j w h; first = λ j w h lt. elim lt [ ] })
    where
      only : (j : ℕ) (w : F) → get_elem? (x ∷ []) j ≡ some w → d.lt x w ≡ false
      only zero w h = rw (← some_inj h) (order.irreflexive x)
      only (suc j) w h = cc h

  pub max_index_lem : (xs : List F) → 0 < length xs → (w : F) × IsFirstMax xs (max_index xs) w
  max_index_lem [] h = elim h [ ]
  max_index_lem (x ∷ xs) h = max_index-IsFirstMax x xs

  asymmetric : (a b : F) → d.lt a b ≡ true → d.lt b a ≡ false
  asymmetric a b h = elim (Bool-cases (d.lt b a)) [
    | inl back ↦ cc (order.transitive a b a h back, order.irreflexive a)
    | inr apart ↦ apart
  ]

  pub clamp_bounds :
      (v lo hi : F)
      → d.lt lo hi ≡ true
      → (d.lt (clamp v lo hi) lo ≡ false) × (d.lt hi (clamp v lo hi) ≡ false)
  unfolding clamp
  clamp_bounds v lo hi h = elim (Bool-cases (d.lt v lo)) [
    | inl low ↦ rw low (order.irreflexive lo, asymmetric lo hi h)
    | inr above ↦ elim (Bool-cases (d.lt hi v)) [
      | inl high ↦ rw (above, high) (asymmetric lo hi h, order.irreflexive hi)
      | inr below ↦ rw (above, below) (above, below)
    ]
  ]
