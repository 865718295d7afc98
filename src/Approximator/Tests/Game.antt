-- ===== src/Approximator/Tests/Game.antt =====
-- The theorems on the game at a concrete game.
use computer_networks_course.Prelude.{
  ℕ, ◌+◌, ◌≤◌, ◌≡◌, refl, ◌↔◌, true, false, some, List, [], ◌∷◌, arith, leb, if◌then◌else◌, length,
  map, codes, ℤ, pos,
}
use computer_networks_course.Outcome
use computer_networks_course.Outcome.{Outcome, done, fault, Ensures}
use computer_networks_course.Approximator.EventManager.{check_timers}
use computer_networks_course.Approximator.EventManager.Laws.{due, later, call_all, check_timers-due}
use computer_networks_course.Approximator.MsgParser.Message.{Message}
use computer_networks_course.Approximator.MsgParser.Printer.{
  create_penalty, create_state, create_scoring,
}
use computer_networks_course.Approximator.MsgParser.Printer.Laws.{
  create_penalty_total, create_state_total,
}
use computer_networks_course.Approximator.ServerLogic.Players.{Players}
use computer_networks_course.Approximator.ServerLogic.State.{with_player}
use computer_networks_course.Approximator.ServerLogic.Score.{calculate_score, game_over}
use computer_networks_course.Approximator.ServerLogic.Handlers.{
  out_of_range, handle_put, handle_client_message,
}
use computer_networks_course.Approximator.ServerLogic.PutBehaviour.{
  refused_player, refused_events, counted_put, handle_put_refused, handle_put_counted,
}
use computer_networks_course.Approximator.ServerLogic.PutInvariant.{Handled}
use computer_networks_course.Approximator.ServerLogic.MessageInvariant.{
  handle_client_message-IsValid,
}
use computer_networks_course.Approximator.ServerLogic.Announce.{Delivered}
use computer_networks_course.Approximator.ServerLogic.ScoreLaws.{
  known_ids, known_players, calculate_score-fault_iff, game_over_total,
}
use computer_networks_course.Approximator.Tests.FixedPoint.{fixed_point, fixed_point-Printable}
use computer_networks_course.Approximator.Tests.Messages.{put_message, put_message_read, ann_valid}
use computer_networks_course.Approximator.Tests.Data.{
  ann, game, ann_connected, game-IsValid, game-CoeffFile,
}

handle_client_message-IsValid_example :
    Ensures (Handled game 4) (handle_client_message 1000 game 4 put_message)
handle_client_message-IsValid_example =
    handle_client_message-IsValid fixed_point-Printable 1000 game 4 ann (codes "PUT 1 1.5\r\n")
      put_message (omega arith) put_message_read ann_connected game-CoeffFile game-IsValid

-- 7 is above the largest value that may be put, 1.5 is not.
seven_out_of_range : out_of_range game (pos 1) (pos 700000000) ≡ true
unfolding out_of_range
seven_out_of_range = refl

in_range : out_of_range game (pos 1) (pos 150000000) ≡ false
unfolding out_of_range
in_range = refl

penalty_message : (m : Message ℤ) × (create_penalty (pos 1) (pos 700000000) ≡ some m)
penalty_message = create_penalty_total fixed_point-Printable (pos 1) (pos 700000000) refl

handle_put_refused_example :
    handle_put 1000 game 4 (pos 1) (pos 700000000)
    ≡ done (
      record (with_player game 4 (refused_player false true ann (penalty_message.0).raw_message)) {
        events = refused_events true 1000 game 4 ann (pos 1) (pos 700000000);
      },
      false,
    )
handle_put_refused_example =
    handle_put_refused 1000 game 4 ann (pos 1) (pos 700000000) penalty_message.0 false true
      ann_connected refl refl seven_out_of_range refl penalty_message.1

new_state : (m : Message ℤ) × (create_state (pos 0 ∷ pos 150000000 ∷ []) ≡ some m)
new_state =
    create_state_total fixed_point-Printable (pos 0 ∷ pos 150000000 ∷ []) (λ e. cc) (omega arith)

handle_put_counted_example : handle_put 1000 game 4 (pos 1) (pos 150000000) ≡ (
    let s2 =
      counted_put 1000 game 4
        (record ann { can_put = false })
        (pos 0 ∷ pos 150000000 ∷ [])
        (new_state.0).raw_message in
    Outcome.◌>>=◌ (if leb 5 2 then game_over s2 else done s2) (λ s3. done (s3, true)))
handle_put_counted_example =
    handle_put_counted 1000 game 4 ann 1 (pos 150000000) (pos 0) new_state.0 ann_connected refl refl
      in_range refl new_state.1

calculate_score-fault_iff_example :
    (calculate_score game ann ≡ fault) ↔ (length ann.coefficients ≤ game.n)
calculate_score-fault_iff_example = calculate_score-fault_iff game ann refl

game_over_total_example :
    (msg : Message ℤ) × (scores : List ℤ) × (told : Players ℤ) × (map
        (calculate_score game)
        (known_players game.players)
      ≡ map done scores)
    × (create_scoring (known_ids game.players) scores ≡ some msg)
    × (game_over game ≡ done (record game { players = told; stopping = true }))
    × Delivered msg.raw_message game.players told
game_over_total_example =
    game_over_total fixed_point-Printable game (λ e. cc) (refl, (refl, tt))
      (
        record { valid_id = λ _. ((λ e. cc), ann_valid); enough = λ _. omega arith },
        (record { valid_id = λ e. absurd (cc e); enough = λ e. absurd (cc e) }, tt),
      )

-- Adding up the numbers that are due.
abbrev add_up : ℕ → ℕ → Outcome ℕ
add_up e s = done (e + s)

check_timers-due_example :
    check_timers add_up 10 ((5, 1) ∷ (10, 2) ∷ (11, 4) ∷ []) 0
    ≡ Outcome.◌>>=◌
        (call_all add_up (due 10 ((5, 1) ∷ (10, 2) ∷ (11, 4) ∷ [])) 0)
        (λ s. done (later 10 ((5, 1) ∷ (10, 2) ∷ (11, 4) ∷ []), s))
check_timers-due_example =
    check_timers-due add_up 10 0 ((5, 1) ∷ (10, 2) ∷ (11, 4) ∷ []) 0
      (omega arith, (omega arith, (omega arith, tt)))
