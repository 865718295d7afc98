-- ===== src/Approximator/Client/Strategy/Poly.antt =====
-- poly_at of the client, whose powers are `int`, against player_poly_at of the server, whose powers
-- are `double`.
use native.Mathlib.Nat.{pow-zero, pow-succ', one-le-pow, mul_assoc}
use computer_networks_course.Prelude.{
  ℕ, zero, suc, ◌+◌, ◌*◌, ◌^◌, ◌≤◌, ◌<◌, ◌≡◌, refl, sym, ap, ◌∙◌, inl, inr, List, arith, ltb,
  ltb→lt, lt→ltb, if◌then◌else◌, if_true, if_false, Bool-cases, length, get_elem?-of_lt, pos,
}
use computer_networks_course.Outcome.{done, fault}
use computer_networks_course.Approximator.Constants.{Double}
use computer_networks_course.Approximator.ServerLogic.Players.{PlayerInfo}
use computer_networks_course.Approximator.ServerLogic.State.{Server}
use computer_networks_course.Approximator.ServerLogic.Score.{poly_loop, player_poly_at}
use computer_networks_course.Approximator.Client.State.{Client}
use computer_networks_course.Approximator.Client.Strategy.{times, poly_at_loop, poly_at}

-- Products of integers below 2^53 are exact in `double`.
pub record Exact {F : Type 0} (d : Double F) : Type 0 where
  pub one : d.literal (pos 1) 0 ≡ d.of_int (pos 1)
  pub product :
      (a b : ℕ)
      → a * b < 2 ^ 53
      → d.mul (d.of_int (pos a)) (d.of_int (pos b)) ≡ d.of_int (pos (a * b))

times_done : (a b : ℕ) → a * b < 2 ^ 31 → times a b ≡ done (a * b)
unfolding times
times_done a b h = rw (lt→ltb (a * b) (2 ^ 31) h)

times_fault : (a b : ℕ) → 2 ^ 31 ≤ a * b → times a b ≡ fault
unfolding times
times_fault a b h = if_false (done (a * b)) fault (ground arith)

le_mul : (q r : ℕ) → 1 ≤ r → q ≤ q * r
le_mul q zero h = elim h [ ]
le_mul q (suc r) h = grind arith

-- The powers on the way to a last one that fits fit too.
power_fits : (p x n : ℕ) → p * x ^ suc n < 2 ^ 31 → p < 2 ^ 31 → p * x < 2 ^ 31
power_fits p zero n h k = grind arith
power_fits p (suc x) n h k =
    let e : p * suc x ^ suc n ≡ (p * suc x) * suc x ^ n =
      ap (◌*◌ p) (pow-succ' (suc x) n) ∙ sym (mul_assoc p (suc x) (suc x ^ n)) in
    let one : 1 ≤ suc x ^ n = one-le-pow n (suc x) (omega arith) in
    omega (arith, e, le_mul (p * suc x) (suc x ^ n) one)

module _ {F : Type 0} ⦃d : Double F⦄ (cs : List F) (x : ℕ) where
  overflow :
      (rounds i : ℕ) (result : F) (p : ℕ)
      → i + rounds ≤ length cs
      → 2 ^ 31 ≤ p * x ^ rounds
      → p < 2 ^ 31
      → poly_at_loop cs x rounds i result p ≡ fault
  unfolding poly_at_loop
  overflow zero i result p h k l = absurd (omega (arith, ap (◌*◌ p) (pow-zero x)))
  overflow (suc rounds) i result p h k l =
      let (c, e) = get_elem?-of_lt cs i (omega arith) in
      elim (Bool-cases (ltb (p * x) (2 ^ 31))) [
        | inl small ↦
            rw (e, times_done p x (ltb→lt _ _ small))
              (overflow rounds (i + 1) _ (p * x) (omega arith)
                (rw (mul_assoc p x (x ^ rounds), ← pow-succ' x rounds) k) (ltb→lt _ _ small))
        | inr large ↦ rw (e, times_fault p x (ground arith))
      ]

  in_range :
      (rounds i : ℕ) (result : F) (p : ℕ)
      → i + rounds ≤ length cs
      → p * x ^ rounds < 2 ^ 31
      → p < 2 ^ 31
      → (r : F) × (poly_at_loop cs x rounds i result p ≡ done r)
  unfolding poly_at_loop
  in_range zero i result p h k l = (result, refl)
  in_range (suc rounds) i result p h k l =
      let (c, e) = get_elem?-of_lt cs i (omega arith) in
      let small = power_fits p x rounds k l in
      let (r, er) =
        in_range rounds (i + 1) (d.add result (d.mul c (d.of_int (pos p)))) (p * x) (omega arith)
          (rw (mul_assoc p x (x ^ rounds), ← pow-succ' x rounds) k) small in
      (r, rw (e, times_done p x small) er)

module _ {F : Type 0} ⦃d : Double F⦄ (exact : Exact d) (cs : List F) (x : ℕ) where
  same_loop :
      (rounds i : ℕ) (result : F) (p : ℕ)
      → i + rounds ≤ length cs
      → p * x ^ rounds < 2 ^ 31
      → p < 2 ^ 31
      → poly_at_loop cs x rounds i result p ≡ poly_loop cs x rounds i result (d.of_int (pos p))
  unfolding poly_at_loop poly_loop
  same_loop zero i result p h k l = refl
  same_loop (suc rounds) i result p h k l =
      let (c, e) = get_elem?-of_lt cs i (omega arith) in
      let small = power_fits p x rounds k l in
      rw (e, times_done p x small, exact.product p x (omega arith))
        (same_loop rounds (i + 1) (d.add result (d.mul c (d.of_int (pos p)))) (p * x) (omega arith)
          (rw (mul_assoc p x (x ^ rounds), ← pow-succ' x rounds) k) small)

module _ {F : Type 0} ⦃d : Double F⦄ where
  -- With enough coefficients, a power that fits gives a value, and one that does not an overflow.
  pub poly_at_total :
      (c : Client F) (x : ℕ)
      → c.n + 1 ≤ length c.coeffs
      → x ^ (c.n + 1) < 2 ^ 31
      → (r : F) × (poly_at c x ≡ done r)
  unfolding poly_at
  poly_at_total c x h k =
      in_range c.coeffs x (c.n + 1) 0 (d.literal (pos 0) 0) 1 (omega arith) (omega (arith, k))
        (omega arith)

  pub poly_at_overflow :
      (c : Client F) (x : ℕ)
      → c.n + 1 ≤ length c.coeffs
      → 2 ^ 31 ≤ x ^ (c.n + 1)
      → poly_at c x ≡ fault
  unfolding poly_at
  poly_at_overflow c x h k =
      overflow c.coeffs x (c.n + 1) 0 (d.literal (pos 0) 0) 1 (omega arith) (omega (arith, k))
        (omega arith)

  -- poly_at of the client gives exactly the value of player_poly_at of the server, which sums the
  -- same terms with powers of type `double`, if x^(N+1) fits an `int`, and overflows if it does
  -- not. There are N + 1 coefficients, and products of integers below 2^53 are exact in `double`.
  pub poly_at-player_poly_at :
      (exact : Exact d) (c : Client F) (s : Server F) (player : PlayerInfo F) (x : ℕ)
      → player.coefficients ≡ c.coeffs
      → s.n ≡ c.n
      → c.n + 1 ≤ length c.coeffs
      → poly_at c x ≡ (if ltb (x ^ (c.n + 1)) (2 ^ 31) then player_poly_at s player x else fault)
  unfolding poly_at player_poly_at
  poly_at-player_poly_at exact c s player x e f h =
      elim (Bool-cases (ltb (x ^ (c.n + 1)) (2 ^ 31))) [
        | inl small ↦
            rw (if_true _ _ small, e, f, exact.one)
              (same_loop exact c.coeffs x (c.n + 1) 0 (d.literal (pos 0) 0) 1 (omega arith)
                (omega (arith, ltb→lt _ _ small)) (omega arith))
        | inr large ↦ rw (if_false _ _ large) (
            overflow c.coeffs x (c.n + 1) 0 (d.literal (pos 0) 0) 1 (omega arith) (ground arith)
              (omega arith))
      ]
