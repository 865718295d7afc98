-- ===== src/Approximator/ApproxServer/Game.antt =====
-- A game at the server: what the main loop of approx-server.cpp asks of ServerLogic and the
-- EventManager, in any order.
pub mod Events
pub mod Callbacks
pub mod Invariant
use computer_networks_course.Prelude.{ℕ, ◌+◌, ◌*◌, false, List, [], ◌∷◌, Text}
use computer_networks_course.Outcome.{Outcome, done, ◌>>=◌}
use computer_networks_course.Approximator.Constants.{Double, hello_wait_time}
use computer_networks_course.Approximator.EventManager.{add_event}
use computer_networks_course.Approximator.ServerLogic.State.{
  Server, Event, hello_timeout, bad_put_response, state_response, register_new_client,
  handle_client_disconnect, call_bad_put, call_state,
}
use computer_networks_course.Approximator.ApproxServer.Node.{handle_line}

-- ServerLogic::ServerLogic, for the contents of the coefficients file.
abbrev pub new_server : {F : Type 0} → ℕ → ℕ → ℕ → Text → Server F
new_server k n m coeff_file = record {
  k = k;
  n = n;
  m = m;
  total_correct_puts = 0;
  coeff_file = coeff_file;
  players = [];
  events = [];
  stopping = false;
}

-- A line of a client, a new connection, the end of a connection, and the first event.
pub data Operation : Type 0 where
  speaks : ℕ → ℕ → Text → Operation
  joins : ℕ → ℕ → Text → ℕ → Operation
  leaves : ℕ → Operation
  fires : Operation

module _ {F : Type 0} ⦃d : Double F⦄ where
  -- The callback of an event. That of handle_new_connection at most disconnects its client, which is
  -- an operation of its own.
  unfoldable pub fire : Event F → Server F → Outcome (Server F)
  fire (hello_timeout fd ip port) s = done s
  fire (bad_put_response fd point value ip port id) s = call_bad_put s fd point value ip port id
  fire (state_response fd state_msg ip port id) s = call_state s fd state_msg ip port id

  unfoldable pub fire_first : List (ℕ × Event F) → Server F → Outcome (Server F)
  fire_first [] s = done s
  fire_first ((deadline, event) ∷ events) s = fire event (record s { events = events })

  unfoldable pub operate : Operation → Server F → Outcome (Server F)
  operate (speaks now fd line) s = handle_line now s fd line
  operate (joins now fd ip port) s =
      let event = hello_timeout fd ip port in
      done (record (register_new_client s fd ip port) {
        events = add_event event (now + hello_wait_time * 1000) s.events;
      })
  operate (leaves fd) s = handle_client_disconnect s fd
  operate fires s = fire_first s.events s

  unfoldable pub perform : List Operation → Server F → Outcome (Server F)
  perform [] s = done s
  perform (o ∷ os) s = operate o s >>= perform os
