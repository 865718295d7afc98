-- ===== src/Approximator/Tests/Setup.antt =====
-- The command lines and the sockets of concrete programs, and a queue with concrete calls.
use computer_networks_course.Prelude.{
  pos, ℕ, ◌-◌, ◌^◌, ◌≡◌, ◌≢◌, refl, true, false, some, List, [], ◌∷◌, ◌++◌, arith, codes,
}
use computer_networks_course.Outcome.{done, Ensures}
use computer_networks_course.Strtoul.{strtoul, read_digits, to_ulong, is_bad}
use computer_networks_course.Strtoul.Laws.{decimal}
use computer_networks_course.Approximator.MsgParser.Chars.{
  is_alphanumeric, all_of, isalnum, isdigit, islower, take_digits, drop_digits,
}
use computer_networks_course.Approximator.MsgParser.Integer.{
  isspace, skip_space, read_sign, digits_value,
}
use computer_networks_course.Approximator.Arguments.{
  to_int, to_uint16, parse_and_validate_int, parse_and_validate_port, u, s, p, a, four, six,
  ClientOption, ServerOption, ClientArgs, ServerArgs, client_option, client_options, parse_client,
  validate_client_args, client_arg_parser, default_server_args, server_option, server_options,
  server_arg_parser,
}
use computer_networks_course.Approximator.Arguments.Laws.{
  IsClientArgs, InRange, parse_and_validate_int-decimal, client_arg_parser-IsClientArgs,
  server_arg_parser-InRange,
}
use computer_networks_course.Approximator.Networking.{Address, connect_to_server}
use computer_networks_course.Approximator.Networking.Laws.{
  first_usable, connected, connect_to_server_lem,
}
use computer_networks_course.Approximator.Client.Queue.Laws.{
  pushing, popping, try_popping, try_popping_for, Call, run_calls, pushed, run_calls-fifo,
}

-- 100, and 18446744073709551516 behind a minus.
parse_and_validate_int-decimal_example :
    (parse_and_validate_int (decimal 100) 1 10000 ≡ done (pos 100))
    × (parse_and_validate_int (b'-' ∷ decimal (2 ^ 64 - 100)) 1 10000 ≡ done (pos 100))
parse_and_validate_int-decimal_example =
    parse_and_validate_int-decimal 100 1 10000 (omega arith) (omega arith) (omega arith)
      (omega arith)

-- `-u ann -s host -p 80 -4 -6 -a`: the two families together mean neither.
abbrev read_client : ClientArgs
read_client = record {
  player_id = codes "ann";
  player_id_set = true;
  server_address = codes "host";
  server_address_set = true;
  server_port = 80;
  server_port_set = true;
  force_ipv4 = false;
  force_ipv6 = false;
  auto_strategy = true;
}

abbrev client_line : List ClientOption
client_line = u (codes "ann") ∷ s (codes "host") ∷ p (codes "80") ∷ four ∷ six ∷ a ∷ []

reads_client : client_arg_parser client_line [] 0 ≡ done read_client
unfolding to_int to_uint16 client_arg_parser parse_client client_options client_option
    parse_and_validate_port parse_and_validate_int strtoul read_digits to_ulong is_bad
    validate_client_args is_alphanumeric all_of isalnum isdigit islower take_digits drop_digits
    isspace skip_space read_sign digits_value
reads_client = refl

client_arg_parser-IsClientArgs_example : Ensures IsClientArgs (client_arg_parser client_line [] 0)
client_arg_parser-IsClientArgs_example = client_arg_parser-IsClientArgs client_line [] 0

-- `-k 10 -f file`
abbrev read_server : ServerArgs
read_server = record default_server_args { k = pos 10; file = codes "file"; file_set = true }

abbrev server_line : List ServerOption
server_line = ServerOption.k (codes "10") ∷ ServerOption.f (codes "file") ∷ []

reads_server : server_arg_parser server_line [] ≡ done read_server
unfolding to_int server_arg_parser server_options server_option parse_and_validate_int strtoul
    read_digits to_ulong is_bad isdigit take_digits drop_digits isspace skip_space read_sign
    digits_value
reads_server = refl

server_arg_parser-InRange_example :
    Ensures (λ args. InRange args × (args.file ≢ [])) (server_arg_parser server_line [])
server_arg_parser-InRange_example = server_arg_parser-InRange server_line []

-- The first address gives no connection, the second does.
abbrev addresses : List Address
addresses =
    record { socket = some 3; connects = false; name = some (codes "::1") }
    ∷ record { socket = some 3; connects = true; name = some (codes "127.0.0.1") }
    ∷ []

connect_to_server_lem_example :
    connect_to_server (some addresses) 80 (0 ∷ 1 ∷ 2 ∷ [])
    ≡ connected (first_usable addresses) 80 (0 ∷ 1 ∷ 2 ∷ [])
connect_to_server_lem_example = connect_to_server_lem addresses 80 (0 ∷ 1 ∷ 2 ∷ [])

abbrev calls : List (Call ℕ)
calls = pushing 5 ∷ popping ∷ try_popping ∷ pushing 6 ∷ pushing 7 ∷ try_popping_for ∷ []

run_calls-fifo_example :
    (run_calls calls (4 ∷ [])).0 ++ (run_calls calls (4 ∷ [])).1 ≡ 4 ∷ [] ++ pushed calls
run_calls-fifo_example = run_calls-fifo calls (4 ∷ [])
