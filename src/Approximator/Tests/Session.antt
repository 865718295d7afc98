-- ===== src/Approximator/Tests/Session.antt =====
-- A session of one client at the server: it joins, says HELLO, makes a put out of range, and leaves
-- behind the answer.
use computer_networks_course.Prelude.{refl, List, [], ◌∷◌, arith, codes, text_eq, ℤ}
use computer_networks_course.Outcome.{Ensures}
use computer_networks_course.Approximator.EventManager.{add_event}
use computer_networks_course.Approximator.MsgParser.Chars.{
  is_alphanumeric, all_of, isalnum, isdigit, islower, take_digits, drop_digits,
}
use computer_networks_course.Approximator.MsgParser.Integer.{
  digits_value, isspace, parse_integer, is_valid_integer_format, stoll, read_long_long, read_sign,
  skip_space, to_long_long, to_string, print_digits,
}
use computer_networks_course.Approximator.MsgParser.Decimal.{
  scan_fraction, skip_dot, is_unsigned_format, is_valid_double_format, parse_double,
}
use computer_networks_course.Approximator.MsgParser.Params.{
  find, extract_command_and_params, is_param_char, regex_match, read_tokens, split_params,
}
use computer_networks_course.Approximator.MsgParser.Message.{
  parse_message, parse_hello, parse_coeff, parse_coeffs, parse_pair, validate_int_double_pair,
  create_message, create_message_with_crlf,
}
use computer_networks_course.Approximator.MsgParser.Printer.{
  create_bad_put, write_pair, double_to_string,
}
use computer_networks_course.Approximator.ServerLogic.Players.{lookup, assign, erase}
use computer_networks_course.Approximator.ServerLogic.State.{
  register_new_client, append_message_back, same_client, call_bad_put, handle_client_disconnect,
}
use computer_networks_course.Approximator.ServerLogic.Handlers.{
  getline, count_lower, handle_hello, handle_put, put_known, out_of_range, forbid_put,
  respond_with_bad_put, handle_client_message,
}
use computer_networks_course.Approximator.ApproxServer.Node.{handle_line}
use computer_networks_course.Approximator.ApproxServer.Game.{
  new_server, Operation, speaks, joins, leaves, fires, fire, fire_first, operate, perform,
}
use computer_networks_course.Approximator.ApproxServer.Game.Callbacks.{Good}
use computer_networks_course.Approximator.ApproxServer.Game.Invariant.{AllAllowed, perform-Good}
use computer_networks_course.Approximator.Tests.FixedPoint.{
  fixed_point, fixed_point-Printable, fraction_value, read_unsigned, read_fixed, whole_digits,
  place_digits, fixed_digits,
}
use computer_networks_course.Approximator.Tests.Data.{game, game-CoeffFile}

abbrev session : List Operation
session =
    joins 0 4 (codes "::1") 7
    ∷ speaks 10 4 (codes "HELLO ann")
    ∷ speaks 20 4 (codes "PUT 5 1.5")
    ∷ fires
    ∷ leaves 4
    ∷ []

session-AllAllowed : AllAllowed {F = ℤ} session (new_server 1 1 5 game.coeff_file)
unfolding operate lookup register_new_client assign add_event handle_line create_message_with_crlf
    create_message extract_command_and_params find split_params regex_match read_tokens
    is_param_char isdigit islower isspace text_eq parse_message parse_hello parse_pair
    validate_int_double_pair take_digits drop_digits digits_value parse_double
    is_valid_double_format is_unsigned_format skip_dot scan_fraction read_fixed read_unsigned
    fraction_value parse_coeff parse_coeffs handle_client_message handle_hello getline
    append_message_back count_lower handle_put put_known out_of_range forbid_put
    respond_with_bad_put fire_first fire call_bad_put same_client create_bad_put write_pair
    double_to_string handle_client_disconnect erase parse_integer is_valid_integer_format
    is_alphanumeric all_of isalnum stoll read_long_long read_sign skip_space to_long_long to_string
    print_digits whole_digits place_digits fixed_digits
session-AllAllowed = (refl, ((_, refl), ((_, refl), (tt, ((_, refl), tt)))))

perform-Good_example : Ensures (Good {F = ℤ}) (perform session (new_server 1 1 5 game.coeff_file))
perform-Good_example =
    perform-Good fixed_point-Printable 1 1 5 game.coeff_file session (omega arith) game-CoeffFile
      session-AllAllowed
