-- ===== src/Approximator/Client/Processor.antt =====
-- message_processor of client_logic.cpp, and what it does with each message.
pub mod Laws
pub mod Points
pub mod Sound
pub mod Safety
use computer_networks_course.Prelude.{
  ℕ, zero, suc, ◌+◌, ◌-◌, Bool, true, false, ◌&&◌, not, Option, none, some, List, [], ◌∷◌, ◌++◌,
  if◌then◌else◌, length, take, drop, replicate, Text, codes, ℤ, pos,
}
use computer_networks_course.Outcome.{Outcome, done, fatal, ◌>>=◌}
use computer_networks_course.Approximator.Constants.{Double}
use computer_networks_course.Approximator.MsgParser.Integer.{to_string}
use computer_networks_course.Approximator.MsgParser.Message.{
  Message, Body, hello, coeff, put, bad_put, penalty, state, scoring,
}
use computer_networks_course.Approximator.MsgParser.Printer.{
  double_to_string, write_values, pop_back,
}
use computer_networks_course.Approximator.Client.Queue.{try_pop_for}
use computer_networks_course.Approximator.Client.State.{
  Client, log_stdout, log_stderr, to_raw_string, decrement_puts_without_answer,
}
use computer_networks_course.Approximator.Client.Strategy.{poly_at}

-- `resize(count, value)`
abbrev pub resize {ℓ} : {A : Type ℓ} → ℕ → A → List A → List A
resize count value xs = take count xs ++ replicate (count - length xs) value

-- The locals of message_processor that it keeps from one turn to the next.
pub record Progress : Type 0 where
  pub is_first_message : Bool
  pub scoring_received : Bool

module _ {F : Type 0} ⦃d : Double F⦄ where
  -- The coefficients, and the log about them.
  unfoldable pub learn_coeffs : List F → Client F → Client F
  learn_coeffs coeffs c =
      log_stdout (pop_back (codes "Received coefficients: " ++ write_values coeffs))
        (record c { coeffs = coeffs; n = length coeffs - 1 })

  -- processCoeffMessage; the result of the decrement is not used.
  unfoldable pub process_coeff_message : List F → Client F → Outcome (Client F)
  process_coeff_message coeffs c = do
    let c' = learn_coeffs coeffs c
    let zero_value : F = d.literal (pos 0) 0
    real_0 ← poly_at c' 0
    real_1 ← poly_at c' 1
    let c'' = record c' {
      current_approximation = zero_value ∷ zero_value ∷ [];
      real_values = real_0 ∷ real_1 ∷ [];
    }
    done (decrement_puts_without_answer c'').0

  -- "… response (value in point)"
  unfoldable pub response_text : Text → ℤ → F → Text
  response_text intro point value =
      intro ++ (double_to_string value ++ (codes " in " ++ (to_string point ++ codes ")")))

  -- processBadPutMessage; like the other process functions, the client and the result.
  unfoldable pub process_bad_put_message : ℤ → F → Client F → Client F × Bool
  process_bad_put_message point value c =
      let c' = log_stdout (response_text (codes "Received bad put response (") point value) c in
      if c'.is_auto_strategy then ((decrement_puts_without_answer c').0, true) else (c', true)

  -- `real_values[i] = poly_at(i)` for `rounds` rounds, from `i` on.
  unfoldable pub all_real_values : Client F → ℕ → ℕ → Outcome (List F)
  all_real_values c zero i = done []
  all_real_values c (suc rounds) i = do
    v ← poly_at c i
    vs ← all_real_values c rounds (i + 1)
    done (v ∷ vs)

  -- K, and the approximation with a value for each point.
  unfoldable pub set_points : ℕ → Client F → Client F
  set_points k_from_server c = record c {
    k = k_from_server;
    k_set = true;
    current_approximation =
        resize (k_from_server + 1) (d.literal (pos 0) 0) c.current_approximation;
  }

  -- processStateMessage when the points of the game become known.
  unfoldable pub learn_points : ℕ → Client F → Outcome (Client F)
  learn_points k_from_server c = do
    let c' = set_points k_from_server c
    real_values ← all_real_values c' (k_from_server + 1) 0
    done (decrement_puts_without_answer (record c' { real_values = real_values })).0

  -- processStateMessage, for a message of the values `approx_values`.
  unfoldable pub process_state_message : Message F → List F → Client F → Outcome (Client F × Bool)
  process_state_message msg approx_values c =
      let text = codes "Received state: " ++ drop (length (codes "STATE ")) (to_raw_string msg) in
      let c' = log_stdout text c in
      let learning = (do c'' ← learn_points (length approx_values - 1) c'; done (c'', true)) in
      if c'.is_auto_strategy && not c'.k_set
      then learning
      else if c'.is_auto_strategy
      then done (decrement_puts_without_answer c')
      else done (c', true)

  -- processPenaltyMessage
  unfoldable pub process_penalty_message : ℤ → F → Client F → Client F × Bool
  process_penalty_message point value c =
      (log_stdout (response_text (codes "Received penalty response (") point value) c, true)

  -- processScoringMessage
  unfoldable pub process_scoring_message : Message F → Client F → Client F × Bool
  process_scoring_message msg c =
      let text =
        codes "Game end, scoring: " ++ drop (length (codes "SCORING ")) (to_raw_string msg) in
      (record (log_stdout text c) { game_over = true }, true)

  -- The first message; an incorrect one is fatal.
  unfoldable pub process_first : Body F → Client F → Outcome (Client F)
  process_first (hello player_id) c = fatal
  process_first (coeff coeffs) c = process_coeff_message coeffs c
  process_first (put point value) c = fatal
  process_first (bad_put point value) c = fatal
  process_first (penalty point value) c = fatal
  process_first (state values) c = fatal
  process_first (scoring ids scores) c = fatal

  -- A later message: the client and whether the message is correct.
  unfoldable pub process_later : Message F → Body F → Client F → Outcome (Client F × Bool)
  process_later msg (hello player_id) c = done (c, false)
  process_later msg (coeff coeffs) c = done (c, false)
  process_later msg (put point value) c = done (c, false)
  process_later msg (bad_put point value) c = done (process_bad_put_message point value c)
  process_later msg (penalty point value) c = done (process_penalty_message point value c)
  process_later msg (state values) c = process_state_message msg values c
  process_later msg (scoring ids scores) c = done (process_scoring_message msg c)

  abbrev pub is_scoring : Body F → Bool
  is_scoring (scoring ids scores) = true
  is_scoring (hello player_id) = false
  is_scoring (coeff coeffs) = false
  is_scoring (put point value) = false
  is_scoring (bad_put point value) = false
  is_scoring (penalty point value) = false
  is_scoring (state values) = false

  -- A message that message_processor has taken from the queue.
  unfoldable pub process_message : Message F → Progress → Client F → Outcome (Progress × Client F)
  process_message msg p c =
      let first = (do
        c' ← process_first msg.body c
        done (record p { is_first_message = false }, c')) in
      let later = (do
        (c', correct) ← process_later msg msg.body c
        let text = codes "bad message from " ++ (c'.full_info ++ (codes ": " ++ to_raw_string msg))
        let scoring_received = if correct && is_scoring msg.body then true else p.scoring_received
        done (
          record p { scoring_received = scoring_received },
          (if correct then c' else log_stderr text c'),
        )) in
      if p.is_first_message then first else later

  -- A turn of message_processor behind the test of `game_over`: what the queue gives, if anything.
  unfoldable pub process_next :
      Option (Message F × List (Message F)) → Progress → Client F → Outcome (Progress × Client F)
  process_next none p c = done (p, c)
  process_next (some (msg, rest)) p c =
      process_message msg p (record c { incoming_messages = rest })

  unfoldable pub message_processor : Progress → Client F → Outcome (Progress × Client F)
  message_processor p c = process_next (try_pop_for c.incoming_messages) p c

-- The end of message_processor; `fatal` is "unexpected server disconnect".
unfoldable pub processor_end : Progress → Outcome (Unit {0})
processor_end p = if p.scoring_received then done tt else fatal
