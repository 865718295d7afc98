-- ===== src/Approximator/EventManager/Laws.antt =====
-- The order of the events, and which of them `check_timers` calls.
use computer_networks_course.Prelude.{
  ℕ, ◌≤◌, ◌<◌, ◌≡◌, refl, ap, inl, inr, false, List, [], ◌∷◌, arith, ltb, leb, if◌then◌else◌,
  Bool-cases, All,
}
use computer_networks_course.Outcome.{Outcome, done, fatal, fault, >>=-eq-done}
use computer_networks_course.Outcome
use computer_networks_course.Approximator.EventManager.{add_event, check_timers}

module _ {E : Type 0} where
  -- The deadlines are in order, from `lo` on.
  abbrev pub SortedFrom : ℕ → List (ℕ × E) → Type 0
  SortedFrom lo [] = Unit
  SortedFrom lo ((t, e) ∷ events) = (lo ≤ t) × SortedFrom t events

  -- The events with a deadline up to `now`, and those after it, in the order of the list.
  abbrev pub due : ℕ → List (ℕ × E) → List (ℕ × E)
  due now [] = []
  due now ((t, e) ∷ events) = let rest = due now events in if leb t now then (t, e) ∷ rest else rest

  abbrev pub later : ℕ → List (ℕ × E) → List (ℕ × E)
  later now [] = []
  later now ((t, e) ∷ events) =
      let rest = later now events in if leb t now then rest else (t, e) ∷ rest

  -- A new event keeps the order.
  pub add_event-SortedFrom :
      (e : E) (t lo : ℕ) (events : List (ℕ × E))
      → lo ≤ t
      → SortedFrom lo events
      → SortedFrom lo (add_event e t events)
  unfolding add_event
  add_event-SortedFrom e t lo [] h s = (h, tt)
  add_event-SortedFrom e t lo ((u, f) ∷ events) h (b, s) = elim (Bool-cases (ltb t u)) [
    | inl before ↦ rw before (h, (ground arith, s))
    | inr after ↦ rw after (b, add_event-SortedFrom e t u events (ground arith) s)
  ]

  later_all :
      (now lo : ℕ) (events : List (ℕ × E))
      → now < lo
      → SortedFrom lo events
      → (due now events ≡ []) × (later now events ≡ events)
  later_all now lo [] h s = (refl, refl)
  later_all now lo ((t, e) ∷ events) h (b, s) =
      let (d, l) = later_all now t events (omega arith) s in
      let after : leb t now ≡ false = ground arith in rw after (d, ap (◌∷◌ (t, e)) l)

  -- Calling a list of events in turn.
  abbrev pub call_all {ℓ} : {S : Type ℓ} → (E → S → Outcome S) → List (ℕ × E) → S → Outcome S
  call_all call [] s = done s
  call_all call ((t, e) ∷ events) s = Outcome.◌>>=◌ (call e s) (λ s'. call_all call events s')

  -- With the events in order of their deadlines, check_timers calls exactly those that are due, in
  -- that order, and keeps exactly the others.
  pub check_timers-due {ℓ} :
      {S : Type ℓ} (call : E → S → Outcome S) (now lo : ℕ) (events : List (ℕ × E)) (s : S)
      → SortedFrom lo events
      → check_timers call now events s
        ≡ Outcome.◌>>=◌ (call_all call (due now events) s) (λ s'. done (later now events, s'))
  unfolding check_timers
  check_timers-due {S} call now lo [] s o = refl
  check_timers-due {S} call now lo ((t, e) ∷ events) s (b, o) = elim (Bool-cases (leb t now)) [
    | inl now_due ↦ rw now_due (first (call e s) (λ s'. check_timers-due call now t events s' o))
    | inr after ↦ let (d, l) = later_all now t events (ground arith) o in rw (after, d, l)
  ]
    where
      first :
          (m : Outcome S)
          → ((s' : S)
              → check_timers call now events s'
                ≡ Outcome.◌>>=◌
                    (call_all call (due now events) s')
                    (λ u. done (later now events, u)))
          → Outcome.◌>>=◌ m (λ s'. check_timers call now events s')
            ≡ Outcome.◌>>=◌
                (Outcome.◌>>=◌ m (λ s'. call_all call (due now events) s'))
                (λ u. done (later now events, u))
      first (done s') ih = ih s'
      first fatal ih = refl
      first fault ih = refl

  -- What is left was not due: every deadline lies after `now`.
  pub later-SortedFrom :
      (now lo : ℕ) (events : List (ℕ × E))
      → SortedFrom lo events
      → SortedFrom lo (later now events) × All (λ x. now < x.0) (later now events)
  later-SortedFrom now lo [] s = (tt, tt)
  later-SortedFrom now lo ((t, e) ∷ events) (b, s) =
      let (o, a) = later-SortedFrom now t events s in
      elim (Bool-cases (leb t now)) [
        | inl now_due ↦ rw now_due (weaken (later now events) o, a)
        | inr after ↦ rw after ((b, o), (ground arith, a))
      ]
    where
      weaken : (xs : List (ℕ × E)) → SortedFrom t xs → SortedFrom lo xs
      weaken [] h = tt
      weaken ((u, f) ∷ xs) h = (omega arith, h.1)
