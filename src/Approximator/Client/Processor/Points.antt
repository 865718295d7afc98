-- ===== src/Approximator/Client/Processor/Points.antt =====
-- What processStateMessage computes when the points of the game become known, and for which games
-- its powers overflow.
use native.Mathlib.Decide.{dec_lt}
use native.Mathlib.Nat.{pow-le-pow_left}
use computer_networks_course.Prelude.{
  ℕ, zero, suc, ◌+◌, ◌^◌, ◌≤◌, ◌<◌, ◌≡◌, refl, ap, ◌↔◌, List, [], ◌∷◌, arith, length,
}
use computer_networks_course.Outcome.{done, fault}
use computer_networks_course.Approximator.Constants.{Double}
use computer_networks_course.Approximator.Client.State.{Client}
use computer_networks_course.Approximator.Client.Strategy.Poly.{poly_at_total, poly_at_overflow}
use computer_networks_course.Approximator.Client.Processor.{
  all_real_values, learn_points, set_points,
}

module _ {F : Type 0} ⦃d : Double F⦄ where
  pub all_real_values_total :
      (c : Client F) (rounds i : ℕ)
      → c.n + 1 ≤ length c.coeffs
      → ((j : ℕ) → j < i + rounds → j ^ (c.n + 1) < 2 ^ 31)
      → (vs : List F) × (all_real_values c rounds i ≡ done vs) × (length vs ≡ rounds)
  unfolding all_real_values
  all_real_values_total c zero i h k = ([], refl, refl)
  all_real_values_total c (suc rounds) i h k =
      let (v, ev) = poly_at_total c i h (k i (omega arith)) in
      let (vs, evs, l) = all_real_values_total c rounds (i + 1) h (λ j lt. k j (omega arith)) in
      (v ∷ vs, rw (ev, evs) refl, ap suc l)

  all_real_values_overflow :
      (c : Client F) (last count i : ℕ)
      → i + count ≡ last + 1
      → i ≤ last
      → c.n + 1 ≤ length c.coeffs
      → 2 ^ 31 ≤ last ^ (c.n + 1)
      → all_real_values c count i ≡ fault
  unfolding all_real_values
  all_real_values_overflow c last zero i e le h k = absurd (omega arith)
  all_real_values_overflow c last (suc zero) i e le h k =
      let e' : last ≡ i = omega arith in
      let large : 2 ^ 31 ≤ i ^ (c.n + 1) = rw e' at k in rw (poly_at_overflow c i h large)
  all_real_values_overflow c last (suc (suc rounds)) i e le h k =
      elim (dec_lt (i ^ (c.n + 1)) (2 ^ 31)) [
        | yes small ↦
            let (v, ev) = poly_at_total c i h small in
            rw (
              ev,
              all_real_values_overflow c last (suc rounds) (i + 1) (omega arith) (omega arith) h k,
            )
        | no large ↦ rw (poly_at_overflow c i h (omega arith))
      ]

  -- The values at the points that become known.
  pub points_total :
      (c : Client F) (k : ℕ)
      → c.n + 1 ≤ length c.coeffs
      → k ^ (c.n + 1) < 2 ^ 31
      → (vs : List F) × (all_real_values (set_points k c) (k + 1) 0 ≡ done vs) × (length vs ≡ k + 1)
  unfolding set_points
  points_total c k h small = all_real_values_total (set_points k c) (k + 1) 0 h λ j lt.
      let le : j ^ (c.n + 1) ≤ k ^ (c.n + 1) = pow-le-pow_left (omega arith) (c.n + 1) in
      omega arith

  points_overflow :
      (c : Client F) (k : ℕ)
      → c.n + 1 ≤ length c.coeffs
      → 2 ^ 31 ≤ k ^ (c.n + 1)
      → all_real_values (set_points k c) (k + 1) 0 ≡ fault
  unfolding set_points
  points_overflow c k h large =
      all_real_values_overflow (set_points k c) k (k + 1) 0 (omega arith) (omega arith) h large

  -- For a client with N + 1 coefficients, the first STATE, of K + 1 values, overflows an `int`
  -- exactly if K^(N+1) is 2^31 or more.
  pub learn_points-fault_iff :
      (c : Client F) (k : ℕ)
      → c.n + 1 ≤ length c.coeffs
      → (learn_points k c ≡ fault) ↔ (2 ^ 31 ≤ k ^ (c.n + 1))
  unfolding learn_points
  learn_points-fault_iff c k h = (
    λ e. elim (dec_lt (k ^ (c.n + 1)) (2 ^ 31)) [
      | yes small ↦ absurd (ended (rw ((points_total c k h small).1) at e))
      | no large ↦ omega arith
    ],
    λ large. rw (points_overflow c k h large),
  )
    where
      ended : {a : Client F} → done a ≡ fault → ⊥
      ended h = cc h
