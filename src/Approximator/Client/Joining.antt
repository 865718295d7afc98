-- ===== src/Approximator/Client/Joining.antt =====
-- join_threads of client_logic.cpp: what the threads still do behind the end of the game, and their
-- ends, in any order. The main thread waits for all of them.
pub mod Laws
use computer_networks_course.Prelude.{
  ◌≡◌, Bool, true, false, List, [], ◌∷◌, ◌++◌, if◌then◌else◌, Text,
}
use computer_networks_course.Outcome.{Outcome, done, ◌>>=◌}
use computer_networks_course.Approximator.Constants.{Double}
use computer_networks_course.Approximator.Client.State.{print_log_to_console}
use computer_networks_course.Approximator.Client.Strategy.{
  Phase, waiting, incrementing, choosing, sending, Input,
}
use computer_networks_course.Approximator.Client.Network.{Write, receiver_end}
use computer_networks_course.Approximator.Client.Processor.{processor_end}
use computer_networks_course.Approximator.Client.Threads.{
  System, Turn, greeting, printing, choosing_put, writing, turn,
}

pub data Thread : Type 0 where
  log_thread strategy_thread network_receiver_thread : Thread
  network_sender_thread message_processor_thread : Thread

-- A step behind the end of the game: a turn of a thread, or its end. The loops of network_receiver
-- and message_processor take no more turns.
pub data Closing : Type 0 where
  late_greeting late_printing : Closing
  late_put : Input → Closing
  late_writing : Write → Closing
  ending : Thread → Closing

-- The threads that still run.
pub record Running : Type 0 where
  pub log : Bool
  pub strategy : Bool
  pub network_receiver : Bool
  pub network_sender : Bool
  pub message_processor : Bool

abbrev pub all_running : Running
all_running = record {
  log = true;
  strategy = true;
  network_receiver = true;
  network_sender = true;
  message_processor = true;
}

-- What join_threads waits for.
abbrev pub nobody_runs : Running
nobody_runs = record {
  log = false;
  strategy = false;
  network_receiver = false;
  network_sender = false;
  message_processor = false;
}

-- The loop of try_pop and print_log_to_console.
unfoldable pub print_logs : List (Text × Bool) → List (Text × Bool) → List (Text × Bool)
print_logs [] console = console
print_logs (log ∷ rest) console = print_logs rest (console ++ print_log_to_console log ∷ [])

-- network_sender tests it between two messages only.
unfoldable pub may_end_sender : Text → Bool
may_end_sender [] = true
may_end_sender (x ∷ left) = false

module _ {F : Type 0} where
  -- auto_strategy tests `game_over` between two puts only.
  unfoldable pub may_end_strategy : Phase F → Bool
  may_end_strategy waiting = true
  may_end_strategy incrementing = false
  may_end_strategy choosing = false
  may_end_strategy (sending point value) = false

  -- The end of log_printer: it prints what is left of the logs; a later log is not printed.
  unfoldable pub log_printer_end : System F → System F
  log_printer_end s = record s {
    client = record s.client { logs = [] };
    console = print_logs s.client.logs s.console;
  }

module _ {F : Type 0} ⦃d : Double F⦄ where
  -- The end of a thread that runs.
  unfoldable pub end_thread : Thread → System F × Running → Outcome (System F × Running)
  end_thread log_thread (s, r) = done (log_printer_end s, record r { log = false })
  end_thread strategy_thread (s, r) =
      done (s, (if may_end_strategy s.phase then record r { strategy = false } else r))
  end_thread network_receiver_thread (s, r) = done (
    record s { client = receiver_end s.receiver s.client },
    record r { network_receiver = false },
  )
  end_thread network_sender_thread (s, r) =
      done (s, (if may_end_sender s.unsent then record r { network_sender = false } else r))
  end_thread message_processor_thread (s, r) = do
    ended ← processor_end s.progress
    done (s, record r { message_processor = false })

abbrev pub runs : Thread → Running → Bool
runs log_thread r = r.log
runs strategy_thread r = r.strategy
runs network_receiver_thread r = r.network_receiver
runs network_sender_thread r = r.network_sender
runs message_processor_thread r = r.message_processor

module _ {F : Type 0} ⦃d : Double F⦄ where
  unfoldable pub late_turn : Turn → System F × Running → Outcome (System F × Running)
  late_turn t (s, r) = do s' ← turn t s; done (s', r)

  -- A step; one of a thread that has ended changes nothing.
  unfoldable pub join_step : Closing → System F × Running → Outcome (System F × Running)
  join_step late_greeting x = late_turn greeting x
  join_step late_printing x = let late = late_turn printing x in if x.1.log then late else done x
  join_step (late_put input) x =
      let late = late_turn (choosing_put input) x in if x.1.strategy then late else done x
  join_step (late_writing w) x =
      let late = late_turn (writing w) x in if x.1.network_sender then late else done x
  join_step (ending t) x = let ended = end_thread t x in if runs t x.1 then ended else done x

  -- Any order of the steps.
  unfoldable pub join_threads : List Closing → System F × Running → Outcome (System F × Running)
  join_threads [] x = done x
  join_threads (c ∷ cs) x = join_step c x >>= join_threads cs
