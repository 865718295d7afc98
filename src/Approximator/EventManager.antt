-- ===== src/Approximator/EventManager.antt =====
-- server_events.h and server_events.cpp: the events by deadline. A callback acts on a state beside
-- the events; the callbacks that the program registers add and remove no event.
pub mod Laws
use computer_networks_course.Prelude.{
  ℕ, zero, suc, ◌+◌, ◌-◌, ◌*◌, ◌/◌, ◌%◌, ◌^◌, ◌≤◌, ◌<◌, ◌≡◌, refl, sym, ap, ◌∙◌, ◌≢◌, ◌↔◌, ◌⊎◌, inl,
  inr, Bool, true, false, ◌&&◌, ◌||◌, not, Option, none, some, List, [], ◌∷◌, ◌++◌, map,
  append_assoc, append-nil, arith, ltb, leb, ◌==◌, if◌then◌else◌, ltb→lt, lt→ltb, leb→le, le→leb,
  ==_iff, ==-refl, Bool-cases, Option-cases, ◌>>=◌, ◌>>◌, guard, guard-eq-some, >>=-eq-some, length,
  get_elem?, set, take, drop, replicate, length-append, length-set, length-replicate, length-take,
  length-drop, length-map, take-append, drop-append, take-append-drop, get_elem?-of_lt, List-cases,
  All, All-append, Text, codes, text_eq, text_eq_iff, text_eq_refl, ℤ, pos, negsuc, pos_part,
  neg_part, sub_ℕ, ◌≤ℤ◌, ltb_ℤ,
}
use computer_networks_course.Outcome.{Outcome, done}
use computer_networks_course.Outcome

module _ {E : Type 0} where
  -- EventManager::add_event: a multimap puts an event behind those of the same deadline.
  unfoldable pub add_event : E → ℕ → List (ℕ × E) → List (ℕ × E)
  add_event callback deadline [] = (deadline, callback) ∷ []
  add_event callback deadline ((t, e) ∷ events) =
      if ltb deadline t
      then (deadline, callback) ∷ (t, e) ∷ events
      else (t, e) ∷ add_event callback deadline events

  -- EventManager::check_timers at the time `now`: the events left, and the state.
  unfoldable pub check_timers {ℓ} :
      {S : Type ℓ} → (E → S → Outcome S) → ℕ → List (ℕ × E) → S → Outcome (List (ℕ × E) × S)
  check_timers call now [] s = done ([], s)
  check_timers call now ((t, e) ∷ events) s =
      let fired = Outcome.◌>>=◌ (call e s) (λ s'. check_timers call now events s') in
      if leb t now then fired else done ((t, e) ∷ events, s)
