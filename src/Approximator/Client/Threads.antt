-- ===== src/Approximator/Client/Threads.antt =====
-- The threads of client_logic.cpp: start_threads_and_send_hello, and any order of their turns. A turn
-- goes from one access to the shared state to the next; the lines of one `recv` or of one `read`, and
-- a message with what it changes, are one turn.
pub mod Balance
pub mod Balancing
pub mod Counting
pub mod Kept
pub mod Valid
pub mod Safety
pub mod Sending
pub mod Liveness
use computer_networks_course.Prelude.{
  ℕ, zero, suc, ◌+◌, Bool, true, false, not, Option, none, some, List, [], ◌∷◌, ◌++◌, if◌then◌else◌,
  take, Text,
}
use computer_networks_course.Outcome.{Outcome, done, fatal, fault, ◌>>=◌}
use computer_networks_course.Approximator.Constants.{Double}
use computer_networks_course.Approximator.Client.Queue.{try_pop, try_pop_for}
use computer_networks_course.Approximator.Client.State.{
  Client, new_client, register_connection, print_log_to_console, send_hello_message,
}
use computer_networks_course.Approximator.Client.Strategy.{
  Phase, waiting, Input, manual_strategy, auto_strategy,
}
use computer_networks_course.Approximator.Client.Network.{
  Receive, Receiver, Write, wrote, write_timeout, write_error, network_receiver, next_outgoing,
  write_some,
}
use computer_networks_course.Approximator.Client.Processor.{Progress, message_processor}

-- The client, the locals of its threads, what it has written to the socket and to the console.
pub record System (F : Type 0) : Type 0 where
  pub client : Client F
  pub greeted : Bool
  pub input_buffer : Text
  pub phase : Phase F
  pub receiver : Receiver
  pub unsent : Text
  pub sent : Text
  pub progress : Progress
  pub console : List (Text × Bool)

-- Which thread runs, and what its system call does.
pub data Turn : Type 0 where
  greeting processing printing : Turn
  choosing_put : Input → Turn
  receiving : Receive → Turn
  writing : Write → Turn

-- The bytes that `write` takes are those at the front.
unfoldable pub written : Write → Text → Text
written (wrote n) left = take n left
written write_timeout left = []
written write_error left = []

module _ {F : Type 0} where
  -- The threads start behind register_connection.
  unfoldable pub start : ℕ → Text → Bool → Text → ℕ → System F
  start n player_id is_auto_strategy server_ip server_port = record {
    client = register_connection server_ip server_port (new_client n player_id is_auto_strategy);
    greeted = false;
    input_buffer = [];
    phase = waiting;
    receiver = record { recv_buffer = []; is_first_message = true };
    unsent = [];
    sent = [];
    progress = record { is_first_message = true; scoring_received = false };
    console = [];
  }

  -- A turn of network_sender: the next message, or the next bytes of the last one.
  unfoldable pub take_outgoing : System F → Outcome (System F)
  take_outgoing s = do
    (text, c) ← next_outgoing s.client
    done (record s { client = c; unsent = elim text [ none ↦ [] | some t ↦ t ] })

  unfoldable pub send_from : Text → Write → System F → Outcome (System F)
  send_from [] w s = let next = take_outgoing s in if s.client.game_over then done s else next
  send_from (x ∷ left) w s = do
    left' ← write_some w s.client (x ∷ left)
    done (record s { unsent = left'; sent = s.sent ++ written w (x ∷ left) })

  unfoldable pub network_sender : Write → System F → Outcome (System F)
  network_sender w s = send_from s.unsent w s

  -- A turn of log_printer: a log, if there is one.
  unfoldable pub log_printer : System F → System F
  log_printer s = elim (try_pop_for s.client.logs) [
    | none ↦ s
    | some (log, rest) ↦ record s {
      client = record s.client { logs = rest };
      console = s.console ++ print_log_to_console log ∷ [];
    }
  ]

module _ {F : Type 0} ⦃d : Double F⦄ where
  -- The strategy thread runs one of the two strategies.
  unfoldable pub strategy_turn : Input → System F → Outcome (System F)
  strategy_turn input s =
      let auto = (do
        (phase, c) ← auto_strategy s.phase s.client
        done (record s { phase = phase; client = c })) in
      let manual = (do
        (buffer, c) ← manual_strategy input s.input_buffer s.client
        done (record s { input_buffer = buffer; client = c })) in
      if s.client.is_auto_strategy then auto else if s.client.game_over then done s else manual

  unfoldable pub receiver_turn : Receive → System F → Outcome (System F)
  receiver_turn result s =
      let next = (do
        (r, c) ← network_receiver result s.receiver s.client
        done (record s { receiver = r; client = c })) in
      if s.client.game_over then done s else next

  unfoldable pub processor_turn : System F → Outcome (System F)
  processor_turn s =
      let next = (do
        (p, c) ← message_processor s.progress s.client
        done (record s { progress = p; client = c })) in
      if s.client.game_over then done s else next

  -- send_hello_message, once.
  unfoldable pub greet : System F → System F
  greet s =
      if s.greeted then s else record s { greeted = true; client = send_hello_message s.client }

  unfoldable pub turn : Turn → System F → Outcome (System F)
  turn greeting s = done (greet s)
  turn processing s = processor_turn s
  turn printing s = done (log_printer s)
  turn (choosing_put input) s = strategy_turn input s
  turn (receiving result) s = receiver_turn result s
  turn (writing w) s = network_sender w s

  -- Any order of turns.
  unfoldable pub run : List Turn → System F → Outcome (System F)
  run [] s = done s
  run (t ∷ ts) s = turn t s >>= run ts
