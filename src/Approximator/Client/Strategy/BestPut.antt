-- ===== src/Approximator/Client/Strategy/BestPut.antt =====
-- get_best_put: which point it chooses, and with which value.
use computer_networks_course.Prelude.{
  ℕ, zero, suc, ◌+◌, ◌≤◌, ◌<◌, ◌≡◌, refl, sym, ap, ◌∙◌, true, false, some, List, [], ◌∷◌, arith,
  if◌then◌else◌, length, get_elem?, get_elem?-of_lt, set,
}
use computer_networks_course.Outcome.{done}
use computer_networks_course.Approximator.Constants.{Double, min_put_value, max_put_value}
use computer_networks_course.Approximator.Client.State.{Client}
use computer_networks_course.Approximator.Client.Strategy.{
  squared_differences, max_index, clamp, get_best_put,
}
use computer_networks_course.Approximator.Client.Strategy.Maximum.{
  Order, some_inj, get_elem?-lt, max_index_lem, clamp_bounds,
}

-- `<` on the values of the program, none of which is NaN, and the bounds of a put.

module _ {F : Type 0} ⦃d : Double F⦄ where
  -- The square that the point with these two values has.
  abbrev pub square : F → F → F
  square a r = d.mul (d.sub a r) (d.sub a r)

  squared_differences_total :
      (count : ℕ) (xs ys : List F)
      → length xs ≡ count
      → length ys ≡ count
      → (zs : List F) × (squared_differences count xs ys ≡ done zs)
        × (length zs ≡ count)
        × ((j : ℕ) (a r : F)
            → get_elem? xs j ≡ some a
            → get_elem? ys j ≡ some r
            → get_elem? zs j ≡ some (square a r))
  unfolding squared_differences
  squared_differences_total zero [] ys h k = ([], refl, refl, λ j a r e f. cc e)
  squared_differences_total zero (x ∷ xs) ys h k = absurd (omega arith)
  squared_differences_total (suc count) [] ys h k = absurd (omega arith)
  squared_differences_total (suc count) (x ∷ xs) [] h k = absurd (omega arith)
  squared_differences_total (suc count) (x ∷ xs) (y ∷ ys) h k =
      let (zs, e, l, at) = squared_differences_total count xs ys (omega arith) (omega arith) in
      (square x y ∷ zs, rw e refl, ap suc l, point zs at)
    where
      point :
          (zs : List F)
          → ((j : ℕ) (a r : F)
              → get_elem? xs j ≡ some a
              → get_elem? ys j ≡ some r
              → get_elem? zs j ≡ some (square a r))
          → (j : ℕ) (a r : F) → get_elem? (x ∷ xs) j ≡ some a
          → get_elem? (y ∷ ys) j ≡ some r
          → get_elem? (square x y ∷ zs) j ≡ some (square a r)
      point zs at zero a r e f = rw (some_inj e, some_inj f) refl
      point zs at (suc j) a r e f = at j a r e f

  -- The largest point that the client may use.
  abbrev pub last_point : Client F → ℕ
  last_point c = if c.k_set then c.k else 1

  -- The vectors have a value for each point.
  abbrev pub Ready : Client F → Type 0
  Ready c =
      (length c.current_approximation ≡ last_point c + 1)
      × (length c.real_values ≡ last_point c + 1)

  -- A put at the first of the points that are furthest from their values, by the difference as far
  -- as a put may go; the approximation has it too.
  pub record IsBest (c : Client F) (i : ℕ) (value : F) (c' : Client F) : Type 0 where
    pub approximated : F
    pub wanted : F
    pub has_approximated : get_elem? c.current_approximation i ≡ some approximated
    pub has_wanted : get_elem? c.real_values i ≡ some wanted
    pub in_range : i ≤ last_point c
    pub not_low : d.lt value min_put_value ≡ false
    pub not_high : d.lt max_put_value value ≡ false
    pub clamped : value ≡ clamp (d.sub wanted approximated) min_put_value max_put_value
    pub furthest :
        (j : ℕ) (a r : F)
        → get_elem? c.current_approximation j ≡ some a
        → get_elem? c.real_values j ≡ some r
        → d.lt (square approximated wanted) (square a r) ≡ false
    pub first :
        (j : ℕ) (a r : F)
        → get_elem? c.current_approximation j ≡ some a
        → get_elem? c.real_values j ≡ some r
        → j < i
        → d.lt (square a r) (square approximated wanted) ≡ true
    pub followed : c' ≡ record c {
      current_approximation = set c.current_approximation i (d.add approximated value);
    }

module _ {F : Type 0} ⦃d : Double F⦄ where
  -- get_best_put of a client with a value for each point comes to no fault, and chooses the first
  -- of the points that are furthest from their values, and the difference there, as far as a put
  -- may go, which the approximation then has too. `<` is an order on the values, none of which is
  -- NaN.
  pub get_best_put-IsBest :
      (order : Order d) (c : Client F)
      → Ready c
      → (c' : Client F) × (i : ℕ) × (value : F) × (get_best_put c ≡ done (c', i, value))
        × IsBest c i value c'
  unfolding get_best_put
  get_best_put-IsBest order c ready =
      let (zs, ez, l, at) =
        squared_differences_total (last_point c + 1) c.current_approximation c.real_values ready.0
          ready.1 in
      let (w, m) = max_index_lem order zs (omega arith) in
      let i = max_index zs in
      let lt : i < last_point c + 1 = omega (arith, get_elem?-lt zs i m.stands) in
      let (a, ea) = get_elem?-of_lt c.current_approximation i (omega arith) in
      let (r, er) = get_elem?-of_lt c.real_values i (omega arith) in
      let value = clamp (d.sub r a) min_put_value max_put_value in
      let bounds = clamp_bounds order (d.sub r a) min_put_value max_put_value order.bounds in
      let ew : w ≡ square a r = some_inj (sym m.stands ∙ at i a r ea er) in
      (
        record c { current_approximation = set c.current_approximation i (d.add a value) },
        i,
        value,
        rw (ez, er, ea) refl,
        record {
          approximated = a;
          wanted = r;
          has_approximated = ea;
          has_wanted = er;
          in_range = omega arith;
          not_low = bounds.0;
          not_high = bounds.1;
          clamped = refl;
          furthest = λ j b q eb eq. rw (← ew) (m.largest j (square b q) (at j b q eb eq));
          first = λ j b q eb eq before. rw (← ew) (m.first j (square b q) (at j b q eb eq) before);
          followed = refl;
        },
      )
