-- ===== src/Approximator/Tests/Play.antt =====
-- The automatic client from its start: it gets the coefficients and a state, and makes two puts.
use computer_networks_course.Prelude.{
  ◌+◌, ◌≤◌, ◌≡◌, refl, true, false, some, List, [], ◌∷◌, ◌++◌, if◌then◌else◌, codes, ℤ, text_eq,
}
use computer_networks_course.Strtoul.{strtoul, read_digits, to_ulong, is_bad}
use computer_networks_course.Approximator.Arguments.{
  to_int, to_uint16, parse_and_validate_int, parse_and_validate_port, ClientOption, u, s, p, a,
  client_option, client_options, parse_client, validate_client_args, client_arg_parser,
}
use computer_networks_course.Approximator.Networking.{
  attempt, try_addresses, connection, connect_to_server, hinted_family,
}
use computer_networks_course.Approximator.ApproxClient.{Resolver, make_connection, connected_client}
use computer_networks_course.Approximator.Client.Joining.{
  Closing, late_put, late_printing, ending, log_thread, strategy_thread, network_receiver_thread,
  network_sender_thread, message_processor_thread, join_threads, join_step, end_thread, late_turn,
  all_running, nobody_runs, log_printer_end, print_logs, may_end_strategy, may_end_sender,
}
use computer_networks_course.Outcome.{Outcome, done, fatal, fault}
use computer_networks_course.Approximator.MsgParser.Chars.{
  is_alphanumeric, all_of, isalnum, isdigit, islower, take_digits, drop_digits,
}
use computer_networks_course.Approximator.MsgParser.Integer.{
  digits_value, isspace, skip_space, read_sign,
}
use computer_networks_course.Approximator.MsgParser.Decimal.{
  scan_fraction, skip_dot, is_unsigned_format, is_valid_double_format, parse_double,
}
use computer_networks_course.Approximator.MsgParser.Params.{
  find, extract_command_and_params, is_param_char, regex_match, read_tokens, split_params,
}
use computer_networks_course.Approximator.MsgParser.Message.{
  parse_message, parse_coeff, parse_coeffs, parse_state, parse_values, parse_scoring, parse_scores,
  create_message,
}
use computer_networks_course.Approximator.ApproxServer.Framing.{next_line}
use computer_networks_course.Approximator.Client.State.{
  log_stderr, new_client, log_stdout, register_connection, increment_puts_without_answer,
  decrement_puts_without_answer, wait_for_puts, send_hello_message,
}
use computer_networks_course.Approximator.Client.Queue.{push, try_pop, try_pop_for}
use computer_networks_course.Approximator.Client.Strategy.{
  poll_timeout, times, poly_at_loop, poly_at, send_put_message, squared_differences, max_loop,
  max_index, clamp, get_best_put, auto_strategy,
}
use computer_networks_course.Approximator.Client.Network.{
  receiver_end, recv_bytes, receive_line, receive_lines, receive_bytes, network_receiver,
}
use computer_networks_course.Approximator.Client.Processor.{
  learn_coeffs, process_coeff_message, all_real_values, set_points, learn_points,
  process_state_message, process_scoring_message, process_first, process_later, process_message,
  process_next, message_processor, processor_end,
}
use computer_networks_course.Approximator.Client.Threads.{
  System, Turn, log_printer, greeting, processing, choosing_put, receiving, start, greet,
  strategy_turn, receiver_turn, processor_turn, turn, run,
}
use computer_networks_course.Approximator.Client.Threads.Balance.{answered, put_made}
use computer_networks_course.Approximator.Client.Threads.Counting.{total, run-puts_bounded}
use computer_networks_course.Approximator.Tests.FixedPoint.{
  fixed_point, fraction_value, read_unsigned, read_fixed,
}

abbrev choose : List Turn
choose =
    choosing_put poll_timeout
    ∷ choosing_put poll_timeout
    ∷ choosing_put poll_timeout
    ∷ choosing_put poll_timeout
    ∷ []

abbrev schedule : List Turn
schedule =
    greeting
    ∷ receiving (recv_bytes (codes "COEFF 1 2\r\n"))
    ∷ processing
    ∷ (choose
        ++ receiving (recv_bytes (codes "STATE 0 0\r\n"))
          ∷ processing
          ∷ (choose ++ receiving (recv_bytes (codes "SCORING ann 1\r\n")) ∷ processing ∷ []))

abbrev at_start : System ℤ
at_start = start 0 (codes "ann") true (codes "::1") 7

unfoldable or_start : Outcome (System ℤ) → System ℤ
or_start (done final_system) = final_system
or_start fatal = at_start
or_start fault = at_start

abbrev final : System ℤ
final = or_start (run schedule at_start)

plays : run schedule at_start ≡ done final
unfolding or_start start new_client register_connection log_stdout run turn greet send_hello_message
    push receiver_turn network_receiver receive_bytes receive_lines next_line receive_line
    create_message extract_command_and_params find split_params regex_match read_tokens
    is_param_char isdigit islower isspace text_eq parse_message parse_coeff parse_coeffs take_digits
    drop_digits digits_value parse_double is_valid_double_format is_unsigned_format skip_dot
    scan_fraction read_fixed read_unsigned fraction_value parse_state parse_values parse_scoring
    parse_scores process_scoring_message is_alphanumeric all_of isalnum processor_turn
    message_processor try_pop_for try_pop process_next process_message process_first process_later
    process_coeff_message learn_coeffs poly_at poly_at_loop times decrement_puts_without_answer
    process_state_message learn_points set_points all_real_values strategy_turn auto_strategy
    wait_for_puts increment_puts_without_answer get_best_put squared_differences max_index max_loop
    clamp send_put_message computer_networks_course.Approximator.ApproxServer.Framing.prepend
plays = refl

-- The game comes to its end, with the second put still to be sent.
ends : final.client.game_over ≡ true
unfolding or_start start new_client register_connection log_stdout run turn greet send_hello_message
    push receiver_turn network_receiver receive_bytes receive_lines next_line receive_line
    create_message extract_command_and_params find split_params regex_match read_tokens
    is_param_char isdigit islower isspace text_eq parse_message parse_coeff parse_coeffs take_digits
    drop_digits digits_value parse_double is_valid_double_format is_unsigned_format skip_dot
    scan_fraction read_fixed read_unsigned fraction_value parse_state parse_values parse_scoring
    parse_scores process_scoring_message is_alphanumeric all_of isalnum processor_turn
    message_processor try_pop_for try_pop process_next process_message process_first process_later
    process_coeff_message learn_coeffs poly_at poly_at_loop times decrement_puts_without_answer
    process_state_message learn_points set_points all_real_values strategy_turn auto_strategy
    wait_for_puts increment_puts_without_answer get_best_put squared_differences max_index max_loop
    clamp send_put_message computer_networks_course.Approximator.ApproxServer.Framing.prepend
ends = refl

run-puts_bounded_example :
    total put_made schedule at_start
    ≤ (if final.progress.is_first_message then 0 else total answered schedule at_start + 1)
run-puts_bounded_example = run-puts_bounded 0 (codes "ann") (codes "::1") 7 schedule plays

abbrev options : List ClientOption
options = u (codes "ann") ∷ s (codes "host") ∷ p (codes "7") ∷ a ∷ []

-- Every host is the local one.
abbrev resolve : Resolver
resolve host port family =
    some (record { socket = some 3; connects = true; name = some (codes "::1") } ∷ [])

connects : connected_client options [] 0 0 resolve [] ≡ done (at_start, 3 ∷ [])
unfolding to_int to_uint16 connected_client client_arg_parser parse_client client_options
    client_option parse_and_validate_port parse_and_validate_int strtoul read_digits to_ulong is_bad
    validate_client_args is_alphanumeric all_of isalnum isdigit islower take_digits drop_digits
    isspace skip_space read_sign digits_value make_connection connect_to_server try_addresses
    attempt connection hinted_family start
connects = refl

-- The printer of the logs ends before the receiver.
abbrev closings : List Closing
closings =
    late_put poll_timeout
    ∷ ending message_processor_thread
    ∷ late_printing
    ∷ ending log_thread
    ∷ ending network_receiver_thread
    ∷ ending strategy_thread
    ∷ ending network_sender_thread
    ∷ []

-- A client with SCORING, and a part of a message left over.
abbrev cut_off : System ℤ
cut_off = record at_start {
  receiver = record { recv_buffer = codes "STA"; is_first_message = false };
  progress = record { is_first_message = false; scoring_received = true };
}

-- All threads end, and join_threads returns; the log of the receiver comes too late to be printed.
log_lost :
    (s' : System ℤ) × (join_threads closings (cut_off, all_running) ≡ done (s', nobody_runs))
    × (s'.client.logs
        ≡ (codes "partial message remaining in buffer at disconnection: STA", true) ∷ [])
unfolding join_threads join_step end_thread late_turn log_printer_end print_logs may_end_strategy
    may_end_sender turn strategy_turn auto_strategy log_printer receiver_end processor_end
    log_stderr start new_client register_connection log_stdout push try_pop_for try_pop
    wait_for_puts
log_lost = (_, refl, refl)
