-- ===== src/Approximator/Client/State.antt =====
-- ClientLogic: its fields, the constructor, the log and the counter of unanswered puts.
use computer_networks_course.Prelude.{
  ℕ, ◌+◌, ◌-◌, Bool, true, false, Option, List, [], ◌++◌, ltb, ◌==◌, if◌then◌else◌, length, take,
  Text, codes, pos,
}
use computer_networks_course.Approximator.Constants.{Double}
use computer_networks_course.Approximator.MsgParser.Integer.{to_string}
use computer_networks_course.Approximator.MsgParser.Message.{Message}
use computer_networks_course.Approximator.MsgParser.Printer.{create_hello}
use computer_networks_course.Approximator.Client.Queue.{push}

-- The fields of ClientLogic but the threads and the locks. An entry of `outgoing_messages` is a
-- pointer, and may be null; a log is its text and whether it is an error.
pub record Client (F : Type 0) : Type 0 where
  pub player_id : Text
  pub is_auto_strategy : Bool
  pub server_info : Text
  pub full_info : Text
  pub coeffs : List F
  pub n : ℕ
  pub game_over : Bool
  pub incoming_messages : List (Message F)
  pub outgoing_messages : List (Option (Message F))
  pub logs : List (Text × Bool)
  pub k : ℕ
  pub k_set : Bool
  pub puts_without_answer : ℕ
  pub current_approximation : List F
  pub real_values : List F

module _ {F : Type 0} where
  -- The constructor; `n` is whatever the field N holds before it is set.
  unfoldable pub new_client : ℕ → Text → Bool → Client F
  new_client n player_id is_auto_strategy = record {
    player_id = player_id;
    is_auto_strategy = is_auto_strategy;
    server_info = [];
    full_info = [];
    coeffs = [];
    n = n;
    game_over = false;
    incoming_messages = [];
    outgoing_messages = [];
    logs = [];
    k = 0;
    k_set = false;
    puts_without_answer = 1;
    current_approximation = [];
    real_values = [];
  }

  unfoldable pub log_stdout : Text → Client F → Client F
  log_stdout msg c = record c { logs = push (msg, false) c.logs }

  unfoldable pub log_stderr : Text → Client F → Client F
  log_stderr msg c = record c { logs = push (msg, true) c.logs }

  unfoldable pub register_connection : Text → ℕ → Client F → Client F
  register_connection server_ip server_port c =
      let info = codes "[" ++ (server_ip ++ (codes "]:" ++ to_string (pos server_port))) in
      log_stdout (codes "Connected to " ++ info)
        (record c { server_info = info; full_info = info ++ (codes ", " ++ c.player_id) })

  -- Message::toRawString
  unfoldable pub to_raw_string : Message F → Text
  to_raw_string msg = take (length msg.raw_message - 2) msg.raw_message

  unfoldable pub increment_puts_without_answer : Client F → Client F
  increment_puts_without_answer c = record c { puts_without_answer = c.puts_without_answer + 1 }

  -- The client and the result; the notification is a wake-up of wait_for_puts.
  unfoldable pub decrement_puts_without_answer : Client F → Client F × Bool
  decrement_puts_without_answer c =
      if ltb 0 c.puts_without_answer
      then (record c { puts_without_answer = c.puts_without_answer - 1 }, true)
      else (c, false)

  -- At the end of the wait, by the notification or by the timeout.
  unfoldable pub wait_for_puts : Client F → Bool
  wait_for_puts c = c.puts_without_answer == 0

-- `"ERROR: …"` to stderr, or the text and a dot to stdout, with std::endl.
unfoldable pub print_log_to_console : Text × Bool → Text × Bool
print_log_to_console (msg, true) = (codes "ERROR: " ++ (msg ++ codes "\n"), true)
print_log_to_console (msg, false) = (msg ++ codes ".\n", false)

module _ {F : Type 0} ⦃d : Double F⦄ where
  unfoldable pub send_hello_message : Client F → Client F
  send_hello_message c = record c {
    outgoing_messages = push (create_hello c.player_id) c.outgoing_messages;
  }
