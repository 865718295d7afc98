-- ===== src/Approximator/ServerLogic/ScoreLaws.antt =====
-- When the scores of a game can be computed, and who is told of them.
use mathlib.Core.List.{cons-ne-nil}
use native.Mathlib.Decide.{dec_le}
use computer_networks_course.Prelude.{
  ℕ, zero, suc, ◌+◌, ◌≤◌, ◌<◌, ◌≡◌, refl, sym, ap, ◌∙◌, ◌≢◌, ◌↔◌, inl, inr, true, none, some, List,
  [], ◌∷◌, arith, ◌==◌, if◌then◌else◌, if_true, if_false, Bool-cases, length, get_elem?,
  get_elem?-of_lt, All, Text, pos, map,
}
use computer_networks_course.Approximator.Constants.{Double}
use computer_networks_course.Approximator.MsgParser.Message.{Message}
use computer_networks_course.Approximator.MsgParser.Printer.{create_scoring}
use computer_networks_course.Approximator.MsgParser.Printer.Laws.{Printable}
use computer_networks_course.Approximator.MsgParser.Printer.Scoring.{IsId, create_scoring_total}
use computer_networks_course.Outcome.{done, fault}
use computer_networks_course.Approximator.ServerLogic.Players.{PlayerInfo, Players, lookup, Every}
use computer_networks_course.Approximator.ServerLogic.State.{Server}
use computer_networks_course.Approximator.ServerLogic.Announce.{Delivered, announce-Delivered}
use computer_networks_course.Approximator.ServerLogic.Score.{
  poly_loop, player_poly_at, score_loop, calculate_score, collect_scores, announce,
  send_scoring_messages, game_over,
}

get_elem?-none {ℓ} : {A : Type ℓ} (xs : List A) (i : ℕ) → length xs ≤ i → get_elem? xs i ≡ none
get_elem?-none [] i h = refl
get_elem?-none (x ∷ xs) zero h = elim h [ ]
get_elem?-none (x ∷ xs) (suc i) h = get_elem?-none xs i (omega arith)

module _ {F : Type 0} ⦃d : Double F⦄ where
  poly_loop_total :
      (cs : List F) (x rounds i : ℕ) (result x_pow : F)
      → i + rounds ≤ length cs
      → (r : F) × (poly_loop cs x rounds i result x_pow ≡ done r)
  unfolding poly_loop
  poly_loop_total cs x zero i result x_pow h = (result, refl)
  poly_loop_total cs x (suc rounds) i result x_pow h =
      let (c, e) = get_elem?-of_lt cs i (omega arith) in
      let (r, er) =
        poly_loop_total cs x rounds (i + 1) (d.add result (d.mul c x_pow))
          (d.mul x_pow (d.of_int (pos x))) (omega arith) in
      (r, rw e er)

  -- With a coefficient missing the loop reads past the end.
  poly_loop_fault :
      (cs : List F) (x rounds i : ℕ) (result x_pow : F)
      → i ≤ length cs
      → length cs < i + rounds
      → poly_loop cs x rounds i result x_pow ≡ fault
  unfolding poly_loop
  poly_loop_fault cs x zero i result x_pow h short = absurd (omega arith)
  poly_loop_fault cs x (suc rounds) i result x_pow h short = elim (Bool-cases (i == length cs)) [
    | inl e ↦ rw (get_elem?-none cs i (ground arith))
    | inr e ↦
        let (c, ec) = get_elem?-of_lt cs i (ground arith) in
        rw ec (poly_loop_fault cs x rounds (i + 1) _ _ (ground arith) (omega arith))
  ]

  score_loop_total :
      (s : Server F) (p : PlayerInfo F) (rounds x : ℕ) (score : F)
      → x + rounds ≤ length p.approximations
      → s.n + 1 ≤ length p.coefficients
      → (r : F) × (score_loop s p rounds x score ≡ done r)
  unfolding score_loop player_poly_at
  score_loop_total s p zero x score h c = (score, refl)
  score_loop_total s p (suc rounds) x score h c =
      let (v, ev) =
        poly_loop_total p.coefficients x (s.n + 1) 0 (d.literal (pos 0) 0) (d.literal (pos 1) 0)
          (omega arith) in
      let (a, ea) = get_elem?-of_lt p.approximations x (omega arith) in
      let (r, er) =
        score_loop_total s p rounds (x + 1) (d.add score (d.mul (d.sub v a) (d.sub v a)))
          (omega arith) c in
      (r, rw (ev, ea) er)

  -- For a player with a value for each point and at least N + 1 coefficients there is a score.
  pub calculate_score_total :
      (s : Server F) (p : PlayerInfo F)
      → length p.approximations ≡ s.k + 1
      → s.n + 1 ≤ length p.coefficients
      → (r : F) × (calculate_score s p ≡ done r)
  unfolding calculate_score
  calculate_score_total s p h c =
      let (r, e) = score_loop_total s p (s.k + 1) 0 (d.literal (pos 0) 0) (omega arith) c in
      (d.add r p.penalty, rw e)

  calculate_score_fault :
      (s : Server F) (p : PlayerInfo F) → length p.coefficients ≤ s.n → calculate_score s p ≡ fault
  unfolding calculate_score
  calculate_score_fault s p h = rw (first_round (s.k + 1) (omega arith))
    where
      first_round :
          (rounds : ℕ) → 0 < rounds → score_loop s p rounds 0 (d.literal (pos 0) 0) ≡ fault
      first_round zero lt = elim lt [ ]
      first_round (suc rounds) lt =
          unfold score_loop player_poly_at in
          rw (
            poly_loop_fault p.coefficients 0 (s.n + 1) 0 (d.literal (pos 0) 0) (d.literal (pos 1) 0)
              (omega arith) (omega arith))

  -- For a player with a value for each point, the score reads coefficients out of bounds exactly if
  -- the coefficients file gave the player fewer than N + 1 of them.
  pub calculate_score-fault_iff :
      (s : Server F) (p : PlayerInfo F)
      → length p.approximations ≡ s.k + 1
      → (calculate_score s p ≡ fault) ↔ (length p.coefficients ≤ s.n)
  calculate_score-fault_iff s p h =
      (λ e. enough e (dec_le (length p.coefficients) s.n), calculate_score_fault s p)
    where
      enough :
          calculate_score s p ≡ fault
          → Dec (length p.coefficients ≤ s.n)
          → length p.coefficients ≤ s.n
      enough e (yes few) = few
      enough e (no many) =
          let (r, er) = calculate_score_total s p h (omega arith) in absurd (cc (sym e ∙ er))

  -- A known player who can be scored: a valid id, and at least N + 1 coefficients.
  pub record IsScored (n : ℕ) (p : PlayerInfo F) : Type 0 where
    pub valid_id : p.is_known ≡ true → IsId p.id
    pub enough : p.is_known ≡ true → n + 1 ≤ length p.coefficients

  abbrev pub known_ids : Players F → List Text
  known_ids [] = []
  known_ids ((fd, p) ∷ ps) = let rest = known_ids ps in if p.is_known then p.id ∷ rest else rest

  abbrev pub known_players : Players F → List (PlayerInfo F)
  known_players [] = []
  known_players ((fd, p) ∷ ps) =
      let rest = known_players ps in if p.is_known then p ∷ rest else rest

  collect_scores_total :
      (s : Server F) (ps : Players F)
      → Every (λ p. length p.approximations ≡ s.k + 1) ps
      → Every (IsScored s.n) ps
      → (scores : List F) × (collect_scores s ps ≡ done (known_ids ps, scores))
        × (length (known_ids ps) ≡ length scores)
        × (map (calculate_score s) (known_players ps) ≡ map done scores)
  unfolding collect_scores
  collect_scores_total s [] h g = ([], refl, refl, refl)
  collect_scores_total s ((fd, p) ∷ ps) h g =
      let (scores, e, same, each) = collect_scores_total s ps h.1 g.1 in
      elim (Bool-cases p.is_known) [
        | inl kn ↦
            let (r, er) = calculate_score_total s p h.0 (g.0.enough kn) in
            let ids : known_ids ((fd, p) ∷ ps) ≡ p.id ∷ known_ids ps =
              if_true (p.id ∷ known_ids ps) (known_ids ps) kn in
            (
              r ∷ scores,
              if_true _ _ kn ∙ rw (er, e) (ap (λ l. done (l, r ∷ scores)) (sym ids)),
              ap length ids ∙ ap suc same,
              ap (map (calculate_score s)) (if_true (p ∷ known_players ps) (known_players ps) kn)
                  ∙ rw (er, each) refl,
            )
        | inr un ↦
            let ids : known_ids ((fd, p) ∷ ps) ≡ known_ids ps =
              if_false (p.id ∷ known_ids ps) (known_ids ps) un in
            (
              scores,
              if_false _ _ un ∙ e ∙ ap (λ l. done (l, scores)) (sym ids),
              ap length ids ∙ same,
              ap (map (calculate_score s)) (if_false (p ∷ known_players ps) (known_players ps) un)
                  ∙ each,
            )
      ]

  known_ids-All : (n : ℕ) (ps : Players F) → Every (IsScored n) ps → All IsId (known_ids ps)
  known_ids-All n [] g = tt
  known_ids-All n ((fd, p) ∷ ps) g = elim (Bool-cases p.is_known) [
    | inl kn ↦ rw kn (g.0.valid_id kn, known_ids-All n ps g.1)
    | inr un ↦ rw un (known_ids-All n ps g.1)
  ]

  pub lookup-known_ids :
      (fd : ℕ) (p : PlayerInfo F) (ps : Players F)
      → lookup fd ps ≡ some p
      → p.is_known ≡ true
      → known_ids ps ≢ []
  unfolding lookup
  lookup-known_ids fd p [] e kn = cc e
  lookup-known_ids fd p ((k, q) ∷ ps) e kn = elim (Bool-cases q.is_known) [
    | inl b ↦ λ z. cons-ne-nil q.id (known_ids ps) (sym (if_true _ _ b) ∙ z)
    | inr b ↦ λ z.
        lookup-known_ids fd p ps (ground arith) kn
          (sym (if_false (q.id ∷ known_ids ps) (known_ids ps) b) ∙ z)
  ]

  pub game_over-announce :
      (printable : Printable d) (s : Server F)
      → known_ids s.players ≢ []
      → Every (λ p. length p.approximations ≡ s.k + 1) s.players
      → Every (IsScored s.n) s.players
      → (msg : Message F) × (scores : List F) × (map (calculate_score s) (known_players s.players)
          ≡ map done scores)
        × (create_scoring (known_ids s.players) scores ≡ some msg)
        × (game_over s
            ≡ done (record s { players = announce msg.raw_message s.players; stopping = true }))
  unfolding game_over send_scoring_messages
  game_over-announce printable s n h g =
      let (scores, e, same, each) = collect_scores_total s s.players h g in
      let (ps, ei, es, m, em, eb, er, pm, so) =
        create_scoring_total printable (known_ids s.players) scores n same
          (known_ids-All s.n s.players g) in
      (m, scores, each, em, rw (e, em))

  -- At the end of the game there is a SCORING message, if some player is known, every known one has
  -- a valid id and N + 1 coefficients, every player has a value for each point, and values print as
  -- decimals that read back: it is made of the ids of the known players and of the scores that
  -- calculate_score gives them, in their order; every known player gets it behind the other
  -- messages of its queue, and nothing else changes but that the server is stopping.
  pub game_over_total :
      (printable : Printable d) (s : Server F)
      → known_ids s.players ≢ []
      → Every (λ p. length p.approximations ≡ s.k + 1) s.players
      → Every (IsScored s.n) s.players
      → (msg : Message F) × (scores : List F) × (told : Players F) × (map
            (calculate_score s)
            (known_players s.players)
          ≡ map done scores)
        × (create_scoring (known_ids s.players) scores ≡ some msg)
        × (game_over s ≡ done (record s { players = told; stopping = true }))
        × Delivered msg.raw_message s.players told
  game_over_total printable s n h g =
      let (msg, scores, each, em, over) = game_over-announce printable s n h g in
      (
        msg,
        scores,
        announce msg.raw_message s.players,
        each,
        em,
        over,
        announce-Delivered msg.raw_message s.players,
      )
