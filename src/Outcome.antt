-- ===== src/Outcome.antt =====
-- How a step of a program ends: with a result, by `fatal`, or by a fault (a failed assertion, a
-- null pointer that is followed, an index out of bounds).
use mathlib.Core.Path.{subst}
use computer_networks_course.Prelude.{
  ◌≡◌, refl, Bool, true, false, Option, none, some, if◌then◌else◌,
}

pub data Outcome {ℓ} (A : Type ℓ) : Type ℓ where
  done : A → Outcome A
  fatal : Outcome A
  fault : Outcome A

infixl 5 ◌>>=◌
abbrev pub ◌>>=◌ {ℓ κ} : {A : Type ℓ} {B : Type κ} → Outcome A → (A → Outcome B) → Outcome B
done a >>= f = f a
fatal >>= f = fatal
fault >>= f = fault

-- Following a pointer, or reading an entry that has to be there.
abbrev pub or_fault {ℓ} : {A : Type ℓ} → Option A → Outcome A
or_fault none = fault
or_fault (some a) = done a

abbrev pub or_fatal {ℓ} : {A : Type ℓ} → Option A → Outcome A
or_fatal none = fatal
or_fatal (some a) = done a

pub done_inj {ℓ} : {A : Type ℓ} {a b : A} → done a ≡ done b → a ≡ b
done_inj h = cc h

-- A chain with a result has a result at each step.
pub >>=-eq-done {ℓ κ} :
    {A : Type ℓ} {B : Type κ} (m : Outcome A) (f : A → Outcome B) {b : B}
    → (m >>= f) ≡ done b
    → (a : A) × (m ≡ done a) × (f a ≡ done b)
>>=-eq-done (done a) f h = (a, refl, h)
>>=-eq-done fatal f h = cc
>>=-eq-done fault f h = cc

or_fault-eq-done {ℓ} : {A : Type ℓ} (o : Option A) {a : A} → or_fault o ≡ done a → o ≡ some a
or_fault-eq-done none h = cc
or_fault-eq-done (some b) h = cc

-- There is no fault, and a result has the property.
pub data Ensures {ℓ κ} {A : Type ℓ} (P : A → Type κ) : Outcome A → Type (ℓ ⊔ κ) where
  returns : {a : A} → P a → Ensures P (done a)
  exits : Ensures P fatal

pub Ensures-bind {ℓ κ μ ν} :
    {A : Type ℓ} {B : Type κ} {Q : A → Type μ} {P : B → Type ν} {m : Outcome A} {f : A → Outcome B}
    → Ensures Q m
    → ((a : A) → Q a → Ensures P (f a))
    → Ensures P (m >>= f)
Ensures-bind (returns {a} q) k = k a q
Ensures-bind exits k = exits

pub Ensures-map {ℓ μ ν} :
    {A : Type ℓ} {Q : A → Type μ} {P : A → Type ν} {m : Outcome A}
    → ((a : A) → Q a → P a)
    → Ensures Q m
    → Ensures P m
Ensures-map k (returns {a} q) = returns (k a q)
Ensures-map k exits = exits

-- An entry that is there.
pub Ensures-or_fault {ℓ} :
    {A : Type ℓ} (o : Option A) {a : A}
    → o ≡ some a
    → Ensures (λ b. (b ≡ a) × (o ≡ some b)) (or_fault o)
Ensures-or_fault none h = cc h
Ensures-or_fault (some b) h = returns (cc h, refl)

Ensures-done_inv {ℓ κ} : {A : Type ℓ} {P : A → Type κ} {a : A} → Ensures P (done a) → P a
Ensures-done_inv (returns q) = q

-- What a result of the step has.
Ensures-done {ℓ κ} :
    {A : Type ℓ} {P : A → Type κ} {m : Outcome A} {a : A} → Ensures P m → m ≡ done a → P a
Ensures-done {P = P} e h = Ensures-done_inv (subst (Ensures P) h e)

-- A part without a fault, with the equation that gave its result.
pub Ensures-self {ℓ κ} :
    {A : Type ℓ} {P : A → Type κ} {m : Outcome A}
    → Ensures P m
    → Ensures (λ a. P a × (m ≡ done a)) m
Ensures-self (returns q) = returns (q, refl)
Ensures-self exits = exits

-- A test in front of two parts.
pub unless {ℓ κ} :
    {A : Type ℓ} {P : A → Type κ} (b : Bool) {x y : Outcome A}
    → (b ≡ true → Ensures P x)
    → (b ≡ false → Ensures P y)
    → Ensures P (if b then x else y)
unless true h k = h refl
unless false h k = k refl

-- A result, if there is one, has the property.
pub data Yields {ℓ κ} {A : Type ℓ} (P : A → Type κ) : Outcome A → Type (ℓ ⊔ κ) where
  yields : {a : A} → P a → Yields P (done a)
  on_fatal : Yields P fatal
  on_fault : Yields P fault

pub Yields-bind {ℓ κ μ ν} :
    {A : Type ℓ} {B : Type κ} (Q : A → Type μ) {P : B → Type ν} {m : Outcome A} {f : A → Outcome B}
    → Yields Q m
    → ((a : A) → Q a → Yields P (f a))
    → Yields P (m >>= f)
Yields-bind Q (yields {a} q) k = k a q
Yields-bind Q on_fatal k = on_fatal
Yields-bind Q on_fault k = on_fault

-- Whatever the first part gives.
pub Yields-behind {ℓ κ ν} :
    {A : Type ℓ} {B : Type κ} {P : B → Type ν} (m : Outcome A) {f : A → Outcome B}
    → ((a : A) → Yields P (f a))
    → Yields P (m >>= f)
Yields-behind (done a) k = k a
Yields-behind fatal k = on_fatal
Yields-behind fault k = on_fault

pub Yields-if {ℓ κ} :
    {A : Type ℓ} {P : A → Type κ} (b : Bool) {m n : Outcome A}
    → (b ≡ true → Yields P m)
    → (b ≡ false → Yields P n)
    → Yields P (if b then m else n)
Yields-if true h k = h refl
Yields-if false h k = k refl

Yields-done_inv {ℓ κ} : {A : Type ℓ} {P : A → Type κ} {a : A} → Yields P (done a) → P a
Yields-done_inv (yields q) = q

pub Yields-done {ℓ κ} :
    {A : Type ℓ} {P : A → Type κ} {m : Outcome A} {a : A} → Yields P m → m ≡ done a → P a
Yields-done {P = P} e h = Yields-done_inv (subst (Yields P) h e)

pub Yields-map {ℓ μ ν} :
    {A : Type ℓ} {Q : A → Type μ} {P : A → Type ν} {m : Outcome A}
    → ((a : A) → Q a → P a)
    → Yields Q m
    → Yields P m
Yields-map k (yields {a} q) = yields (k a q)
Yields-map k on_fatal = on_fatal
Yields-map k on_fault = on_fault

-- Without a fault, and with what a result has besides.
pub Ensures-Yields {ℓ κ μ} :
    {A : Type ℓ} {P : A → Type κ} {Q : A → Type μ} {m : Outcome A}
    → Ensures P m
    → Yields Q m
    → Ensures (λ a. P a × Q a) m
Ensures-Yields (returns p) y = returns (p, Yields-done_inv y)
Ensures-Yields exits y = exits
