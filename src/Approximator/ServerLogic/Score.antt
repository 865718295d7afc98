-- ===== src/Approximator/ServerLogic/Score.antt =====
-- calculate_score, player_poly_at and send_scoring_messages.
use computer_networks_course.Prelude.{
  ℕ, zero, suc, ◌+◌, true, List, [], ◌∷◌, ◌++◌, if◌then◌else◌, get_elem?, Text, pos,
}
use computer_networks_course.Approximator.Constants.{Double}
use computer_networks_course.Approximator.MsgParser.Printer.{create_scoring}
use computer_networks_course.Outcome.{Outcome, done, ◌>>=◌, or_fault}
use computer_networks_course.Approximator.ServerLogic.Players.{PlayerInfo, Players}
use computer_networks_course.Approximator.ServerLogic.State.{Server}

module _ {F : Type 0} ⦃d : Double F⦄ where
  -- The loop of player_poly_at with `rounds` rounds left, at the index `i`; reading a coefficient
  -- that is not there is a fault.
  unfoldable pub poly_loop : List F → ℕ → ℕ → ℕ → F → F → Outcome F
  poly_loop coefficients x zero i result x_pow = done result
  poly_loop coefficients x (suc rounds) i result x_pow = do
    c ← or_fault (get_elem? coefficients i)
    poly_loop coefficients x rounds (i + 1) (d.add result (d.mul c x_pow))
        (d.mul x_pow (d.of_int (pos x)))

  unfoldable pub player_poly_at : Server F → PlayerInfo F → ℕ → Outcome F
  player_poly_at s player x =
      poly_loop player.coefficients x (s.n + 1) 0 (d.literal (pos 0) 0) (d.literal (pos 1) 0)

  -- The loop of calculate_score.
  unfoldable pub score_loop : Server F → PlayerInfo F → ℕ → ℕ → F → Outcome F
  score_loop s player zero x score = done score
  score_loop s player (suc rounds) x score = do
    real_value ← player_poly_at s player x
    approx_value ← or_fault (get_elem? player.approximations x)
    score_loop s player rounds (x + 1)
        (d.add score (d.mul (d.sub real_value approx_value) (d.sub real_value approx_value)))

  unfoldable pub calculate_score : Server F → PlayerInfo F → Outcome F
  calculate_score s player = do
    score ← score_loop s player (s.k + 1) 0 (d.literal (pos 0) 0)
    done (d.add score player.penalty)

  -- The ids and scores of the known players.
  unfoldable pub collect_scores : Server F → Players F → Outcome (List Text × List F)
  collect_scores s [] = done ([], [])
  collect_scores s ((fd, player) ∷ ps) =
      let rest = collect_scores s ps in
      let known = (do
        score ← calculate_score s player
        (ids, scores) ← rest
        done (player.id ∷ ids, score ∷ scores)) in
      if player.is_known then known else rest

-- `append_message_back` to each known player.
unfoldable pub announce : {F : Type 0} → Text → Players F → Players F
announce msg [] = []
announce msg ((fd, p) ∷ ps) =
    (fd, (if p.is_known then record p { messages = p.messages ++ msg ∷ [] } else p))
    ∷ announce msg ps

module _ {F : Type 0} ⦃d : Double F⦄ where
  unfoldable pub send_scoring_messages : Server F → Outcome (Server F)
  send_scoring_messages s = do
    (ids, scores) ← collect_scores s s.players
    scoring_msg ← or_fault (create_scoring ids scores)
    done (record s { players = announce scoring_msg.raw_message s.players })

  unfoldable pub game_over : Server F → Outcome (Server F)
  game_over s = do s' ← send_scoring_messages s; done (record s' { stopping = true })
