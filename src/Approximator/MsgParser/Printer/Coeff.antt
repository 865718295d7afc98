-- ===== src/Approximator/MsgParser/Printer/Coeff.antt =====
-- COEFF messages: what is read lies in range, and what is written is read back.
use computer_networks_course.Prelude.{
  suc, ◌+◌, ◌≤◌, ◌≡◌, refl, sym, ap, ◌∙◌, ◌≢◌, Bool, true, ◌||◌, not, some, List, [], ◌∷◌, ◌++◌,
  map, arith, ltb, length, length-map, All, Text, codes, text_eq,
}
use computer_networks_course.Prelude.{guard, guard-eq-some, >>=-eq-some}
use mathlib.Core.Option.{some-injective}
use computer_networks_course.Approximator.Constants.{Double, crlf, max_n, eps, min_coeff, max_coeff}
use computer_networks_course.Approximator.MsgParser.Decimal.{parse_double}
use computer_networks_course.Approximator.MsgParser.Message.{
  Body, coeff, parse_coeffs, parse_coeff, parse_message, create_message_with_crlf,
}
use computer_networks_course.Approximator.MsgParser.Message.Laws.{line_of, create_message_line}
use computer_networks_course.Approximator.MsgParser.Printer.{
  pop_back, double_to_string, create_coeff,
}
use computer_networks_course.Approximator.MsgParser.Printer.Laws.{
  ReadBack, parse_double-print, write_values-join, pop_back-concat, print-All,
}

module _ {F : Type 0} ⦃d : Double F⦄ where
  -- A coefficient that is within -100..100, up to eps.
  abbrev pub in_coeff_range : F → Bool
  in_coeff_range c = not (d.lt (d.add c eps) min_coeff || d.lt max_coeff (d.sub c eps))

  parse_coeffs_sound :
      (params : List Text) (cs : List F)
      → parse_coeffs params ≡ some cs
      → (length cs ≡ length params) × All (λ c. in_coeff_range c ≡ true) cs
  unfolding parse_coeffs
  parse_coeffs_sound [] cs h = let e : [] ≡ cs = some-injective [] cs h in rw (← e) (refl, tt)
  parse_coeffs_sound (p ∷ params) cs h =
      let (c, e, h1) = >>=-eq-some (parse_double p) _ h in
      let (u, g, h2) = >>=-eq-some (guard (in_coeff_range c)) _ h1 in
      let (rest, er, h3) = >>=-eq-some (parse_coeffs params) _ h2 in
      let ec : c ∷ rest ≡ cs = some-injective (c ∷ rest) cs h3 in
      let (l, ok) = parse_coeffs_sound params rest er in
      rw (← ec) (ap suc l, (guard-eq-some _ g, ok))

  -- A COEFF message that is read has as many coefficients as parameters, one to nine, and each of
  -- them lies within its range.
  pub parse_coeff_bounds :
      (params : List Text) (b : Body F)
      → parse_coeff params ≡ some b
      → (cs : List F) × (b ≡ coeff cs)
        × (length cs ≡ length params)
        × (1 ≤ length cs)
        × (length cs ≤ max_n + 1)
        × All (λ c. in_coeff_range c ≡ true) cs
  unfolding parse_coeff
  parse_coeff_bounds params b h =
      let (u, g, h1) =
        >>=-eq-some (guard (not (ltb (length params) 1 || ltb (max_n + 1) (length params)))) _ h in
      let size = guard-eq-some _ g in
      let (cs, e, h2) = >>=-eq-some (parse_coeffs params) _ h1 in
      let (l, ok) = parse_coeffs_sound params cs e in
      (cs, sym (some-injective _ b h2), l, ground arith, ground arith, ok)

  parse_coeffs-print :
      (vs ws : List F)
      → ReadBack vs ws
      → All (λ c. in_coeff_range c ≡ true) ws
      → parse_coeffs (map double_to_string vs) ≡ some ws
  unfolding parse_coeffs
  parse_coeffs-print [] [] r h = refl
  parse_coeffs-print [] (w ∷ ws) r h = absurd r
  parse_coeffs-print (v ∷ vs) [] r h = absurd r
  parse_coeffs-print (v ∷ vs) (w ∷ ws) r h =
      rw (parse_double-print v w r.0, h.0, parse_coeffs-print vs ws r.1 h.1)

  parse_coeff-print :
      (vs ws : List F)
      → vs ≢ []
      → length vs ≤ max_n + 1
      → ReadBack vs ws
      → All (λ c. in_coeff_range c ≡ true) ws
      → parse_coeff (map double_to_string vs) ≡ some (coeff ws)
  unfolding parse_coeff
  parse_coeff-print [] ws n few r h = absurd (n refl)
  parse_coeff-print (v ∷ vs) ws n few r h =
      rw (parse_coeffs-print (v ∷ vs) ws r h) (ground (arith, length-map double_to_string vs))

  -- A COEFF message with one to nine coefficients, which print as decimals and read back within
  -- their range, is read back with as many coefficients, each the one that reading its print gives.
  pub create_coeff-RoundTrip :
      (vs ws : List F)
      → vs ≢ []
      → length vs ≤ max_n + 1
      → ReadBack vs ws
      → All (λ c. in_coeff_range c ≡ true) ws
      → create_coeff vs
        ≡ some (record {
          raw_message = line_of (codes "COEFF") (map double_to_string vs) ++ crlf;
          params = map double_to_string vs;
          body = coeff ws;
        })
  unfolding create_coeff parse_message text_eq
  create_coeff-RoundTrip [] ws n few r h = absurd (n refl)
  create_coeff-RoundTrip (v ∷ vs) ws n few r h =
      ap (λ s. create_message_with_crlf (codes "COEFF " ++ s))
        (ap pop_back (write_values-join v vs) ∙ pop_back-concat _ b' ')
      ∙ create_message_line (codes "COEFF") (double_to_string v) (map double_to_string vs)
          (coeff ws) (λ e. cc) (omega arith) (print-All (v ∷ vs) ws r)
          (dispatch (map double_to_string (v ∷ vs)) ∙ parse_coeff-print (v ∷ vs) ws n few r h)
    where
      dispatch : (ps : List Text) → parse_message {F = F} (codes "COEFF") ps ≡ parse_coeff ps
      dispatch ps = refl
