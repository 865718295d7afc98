-- ===== src/Approximator/ServerLogic/Players.antt =====
-- `std::map<int, PlayerInfo> players`: the players by file descriptor, in order of the descriptors.
use computer_networks_course.Prelude.{
  ℕ, suc, ◌+◌, ◌≤◌, ◌<◌, ◌≡◌, refl, ◌∙◌, inl, inr, Bool, Option, none, some, List, [], ◌∷◌, arith,
  ltb, ◌==◌, if◌then◌else◌, ==-refl, Bool-cases, All, Text,
}
use mathlib.Core.Path.{subst}
use mathlib.Core.Option.{some-injective}

pub record PlayerInfo (F : Type 0) : Type 0 where
  pub id : Text
  pub ip : Text
  pub port : ℕ
  pub messages : List Text
  pub approximations : List F
  pub coefficients : List F
  pub penalty : F
  pub is_known : Bool
  pub correct_puts : ℕ
  pub can_put : Bool
  pub delay : ℕ

abbrev pub Players : Type 0 → Type 0
Players F = List (ℕ × PlayerInfo F)

module _ {F : Type 0} where
  -- std::map::find
  unfoldable pub lookup : ℕ → Players F → Option (PlayerInfo F)
  lookup fd [] = none
  lookup fd ((k, p) ∷ ps) = if k == fd then some p else lookup fd ps

  -- players[fd] = p
  unfoldable pub assign : ℕ → PlayerInfo F → Players F → Players F
  assign fd p [] = (fd, p) ∷ []
  assign fd p ((k, q) ∷ ps) =
      if k == fd
      then (k, p) ∷ ps
      else if ltb fd k
      then (fd, p) ∷ (k, q) ∷ ps
      else (k, q) ∷ assign fd p ps

  -- players.erase(fd)
  unfoldable pub erase : ℕ → Players F → Players F
  erase fd [] = []
  erase fd ((k, p) ∷ ps) = if k == fd then ps else (k, p) ∷ erase fd ps

  -- The descriptors rise, from `lo` on.
  abbrev pub Rising : ℕ → Players F → Type 0
  Rising lo [] = Unit
  Rising lo ((k, p) ∷ ps) = (lo ≤ k) × Rising (suc k) ps

  pub lookup-Rising : (fd lo : ℕ) (ps : Players F) → Rising lo ps → fd < lo → lookup fd ps ≡ none
  unfolding lookup
  lookup-Rising fd lo [] r h = refl
  lookup-Rising fd lo ((k, p) ∷ ps) r h =
      ground (arith, lookup-Rising fd (suc k) ps r.1 (omega arith))

  pub lookup-assign :
      (fd j : ℕ) (p : PlayerInfo F) (ps : Players F)
      → lookup j (assign fd p ps) ≡ (if fd == j then some p else lookup j ps)
  unfolding lookup assign
  lookup-assign fd j p [] = refl
  lookup-assign fd j p ((k, q) ∷ ps) = ground (arith, lookup-assign fd j p ps)

  pub lookup-erase :
      (fd j lo : ℕ) (ps : Players F)
      → Rising lo ps
      → lookup j (erase fd ps) ≡ (if fd == j then none else lookup j ps)
  unfolding lookup erase
  lookup-erase fd j lo [] r = ground arith
  lookup-erase fd j lo ((k, p) ∷ ps) r =
      ground (arith, lookup-erase fd j (suc k) ps r.1, lookup-Rising j (suc k) ps r.1)

  pub assign-Rising :
      (fd lo : ℕ) (p : PlayerInfo F) (ps : Players F)
      → Rising lo ps
      → lo ≤ fd
      → Rising lo (assign fd p ps)
  unfolding assign
  assign-Rising fd lo p [] r h = (h, tt)
  assign-Rising fd lo p ((k, q) ∷ ps) r h = ground (arith, assign-Rising fd (suc k) p ps r.1)

  Rising-mono : (a b : ℕ) (ps : Players F) → a ≤ b → Rising b ps → Rising a ps
  Rising-mono a b [] h r = tt
  Rising-mono a b ((k, p) ∷ ps) h r = (omega arith, r.1)

  pub erase-Rising : (fd lo : ℕ) (ps : Players F) → Rising lo ps → Rising lo (erase fd ps)
  unfolding erase
  erase-Rising fd lo [] r = tt
  erase-Rising fd lo ((k, p) ∷ ps) r =
      ground (arith, erase-Rising fd (suc k) ps r.1, Rising-mono lo (suc k) ps)

  -- The successful puts of all players.
  abbrev pub puts : Players F → ℕ
  puts [] = 0
  puts ((k, p) ∷ ps) = p.correct_puts + puts ps

  pub puts-lookup :
      (fd : ℕ) (ps : Players F) {p : PlayerInfo F}
      → lookup fd ps ≡ some p
      → p.correct_puts ≤ puts ps
  unfolding lookup
  puts-lookup fd [] h = absurd (cc h)
  puts-lookup fd ((k, q) ∷ ps) {p} h = ground (arith, puts-lookup fd ps {p = p})

  pub puts-erase :
      (fd : ℕ) (ps : Players F) {p : PlayerInfo F}
      → lookup fd ps ≡ some p
      → puts (erase fd ps) + p.correct_puts ≡ puts ps
  unfolding lookup erase
  puts-erase fd [] h = absurd (cc h)
  puts-erase fd ((k, q) ∷ ps) {p} h = ground (arith, puts-erase fd ps {p = p})

  pub puts-assign :
      (fd lo : ℕ) (ps : Players F) (p : PlayerInfo F) {q : PlayerInfo F}
      → Rising lo ps
      → lookup fd ps ≡ some q
      → puts (assign fd p ps) + q.correct_puts ≡ puts ps + p.correct_puts
  unfolding lookup assign
  puts-assign fd lo [] p r h = absurd (cc h)
  puts-assign fd lo ((k, x) ∷ ps) p {q} r h =
      ground (arith, puts-assign fd (suc k) ps p {q = q} r.1, lookup-Rising fd (suc k) ps r.1)

  pub puts-assign_new :
      (fd lo : ℕ) (ps : Players F) (p : PlayerInfo F)
      → Rising lo ps
      → lookup fd ps ≡ none
      → puts (assign fd p ps) ≡ puts ps + p.correct_puts
  unfolding lookup assign
  puts-assign_new fd lo [] p r h = omega arith
  puts-assign_new fd lo ((k, x) ∷ ps) p r h = ground (arith, puts-assign_new fd (suc k) ps p r.1)

  -- A property of every player.
  abbrev pub Every {ℓ} : (PlayerInfo F → Type ℓ) → Players F → Type ℓ
  Every P = All (λ x. P x.1)

  pub Every-assign {ℓ} :
      (P : PlayerInfo F → Type ℓ) (fd : ℕ) (p : PlayerInfo F) (ps : Players F)
      → Every P ps
      → P p
      → Every P (assign fd p ps)
  unfolding assign
  Every-assign P fd p [] h hp = (hp, tt)
  Every-assign P fd p ((k, q) ∷ ps) h hp = elim (Bool-cases (k == fd)) [
    | inl e ↦ rw e (hp, h.1)
    | inr e ↦ rw e (elim (Bool-cases (ltb fd k)) [
      | inl l ↦ rw l (hp, h)
      | inr l ↦ rw l (h.0, Every-assign P fd p ps h.1 hp)
    ])
  ]

  pub Every-erase {ℓ} :
      (P : PlayerInfo F → Type ℓ) (fd : ℕ) (ps : Players F) → Every P ps → Every P (erase fd ps)
  unfolding erase
  Every-erase P fd [] h = tt
  Every-erase P fd ((k, q) ∷ ps) h = elim (Bool-cases (k == fd)) [
    | inl e ↦ rw e h.1
    | inr e ↦ rw e (h.0, Every-erase P fd ps h.1)
  ]

  pub Every-lookup {ℓ} :
      (P : PlayerInfo F → Type ℓ) (fd : ℕ) (p : PlayerInfo F) (ps : Players F)
      → Every P ps
      → lookup fd ps ≡ some p
      → P p
  unfolding lookup
  Every-lookup P fd p [] h e = absurd (cc e)
  Every-lookup P fd p ((k, q) ∷ ps) h e = elim (Bool-cases (k == fd)) [
    | inl c ↦ let e' : q ≡ p = some-injective q p (rw c at e) in subst P e' h.0
    | inr c ↦ Every-lookup P fd p ps h.1 (rw c at e)
  ]

module _ {F : Type 0} where
  pub lookup-assign_self :
      (fd : ℕ) (p : PlayerInfo F) (ps : Players F) → lookup fd (assign fd p ps) ≡ some p
  lookup-assign_self fd p ps = lookup-assign fd fd p ps ∙ rw (==-refl fd)

  pub assign-assign :
      (fd : ℕ) (p q : PlayerInfo F) (ps : Players F) → assign fd q (assign fd p ps) ≡ assign fd q ps
  unfolding assign
  assign-assign fd p q [] = ground arith
  assign-assign fd p q ((k, x) ∷ ps) = ground (arith, assign-assign fd p q ps)
