-- ===== src/Approximator/Arguments.antt =====
-- arg_parser.cpp: the options of client and server. What getopt returns is the list of the options
-- with their arguments, and the arguments that it leaves are another list.
pub mod Laws
use computer_networks_course.Prelude.{
  ℕ, ◌-◌, ◌%◌, ◌^◌, ℤ, pos, negsuc, sub_ℕ, Bool, true, false, ◌&&◌, ◌||◌, not, List, [], ◌∷◌, ltb,
  if◌then◌else◌, Text,
}
use computer_networks_course.Outcome.{Outcome, done, fatal, ◌>>=◌}
use computer_networks_course.Strtoul.{strtoul, is_end, is_bad}
use computer_networks_course.Approximator.Constants.{max_k, max_n, max_m}
use computer_networks_course.Approximator.MsgParser.Chars.{is_alphanumeric}

-- `(int)value`, which keeps the lower 32 bits.
unfoldable pub to_int : ℕ → ℤ
to_int value =
    if ltb (value % 2 ^ 32) (2 ^ 31) then pos (value % 2 ^ 32) else sub_ℕ (value % 2 ^ 32) (2 ^ 32)

-- The conversion of an `int` to uint16_t, modulo 2^16.
unfoldable pub to_uint16 : ℤ → ℕ
to_uint16 (pos n) = n % 2 ^ 16
to_uint16 (negsuc n) = 2 ^ 16 - 1 - n % 2 ^ 16

unfoldable pub parse_and_validate_int : Text → ℕ → ℕ → Outcome ℤ
parse_and_validate_int str min max =
    let p = strtoul str in
    if is_bad p || (ltb p.value min || ltb max p.value) then fatal else done (to_int p.value)

unfoldable pub parse_and_validate_port : Text → Bool → Outcome ℕ
parse_and_validate_port str allow_zero = do
  value ← parse_and_validate_int str (if allow_zero then 0 else 1) 65535
  done (to_uint16 value)

-- What getopt returns for ":u:s:p:46a"; `wrong` is an unknown option or one without its argument.
pub data ClientOption : Type 0 where
  u s p : Text → ClientOption
  four six a wrong : ClientOption

pub record ClientArgs : Type 0 where
  pub player_id : Text
  pub player_id_set : Bool
  pub server_address : Text
  pub server_address_set : Bool
  pub server_port : ℕ
  pub server_port_set : Bool
  pub force_ipv4 : Bool
  pub force_ipv6 : Bool
  pub auto_strategy : Bool

-- The fields in front of `parse`; `port` is whatever the field server_port holds.
abbrev pub no_client_args : ℕ → ClientArgs
no_client_args port = record {
  player_id = [];
  player_id_set = false;
  server_address = [];
  server_address_set = false;
  server_port = port;
  server_port_set = false;
  force_ipv4 = false;
  force_ipv6 = false;
  auto_strategy = false;
}

-- A turn of the loop of ClientArgParser::parse.
unfoldable pub client_option : ClientOption → ClientArgs → Outcome ClientArgs
client_option (u optarg) args = done (record args { player_id = optarg; player_id_set = true })
client_option (s optarg) args =
    done (record args { server_address = optarg; server_address_set = true })
client_option (p optarg) args = do
  port ← parse_and_validate_port optarg false
  done (record args { server_port = port; server_port_set = true })
client_option four args = done (record args { force_ipv4 = true })
client_option six args = done (record args { force_ipv6 = true })
client_option a args = done (record args { auto_strategy = true })
client_option wrong args = fatal

unfoldable pub client_options : List ClientOption → ClientArgs → Outcome ClientArgs
client_options [] args = done args
client_options (o ∷ os) args = do args' ← client_option o args; client_options os args'

-- ClientArgParser::parse
unfoldable pub parse_client : List ClientOption → ClientArgs → Outcome ClientArgs
parse_client os args = do
  args' ← client_options os args
  done (
      if args'.force_ipv4 && args'.force_ipv6
      then record args' { force_ipv4 = false; force_ipv6 = false }
      else args')

-- ClientArgParser::validate, with the arguments that are left.
unfoldable pub validate_client_args : List Text → ClientArgs → Outcome ClientArgs
validate_client_args (extra ∷ rest) args = fatal
validate_client_args [] args =
    if not args.player_id_set || is_end args.player_id
    then fatal
    else if not args.server_address_set || is_end args.server_address
    then fatal
    else if not args.server_port_set
    then fatal
    else if is_alphanumeric args.player_id
    then done args
    else fatal

-- ClientArgParser::ClientArgParser
unfoldable pub client_arg_parser : List ClientOption → List Text → ℕ → Outcome ClientArgs
client_arg_parser os extra port = do
  args ← parse_client os (no_client_args port)
  validate_client_args extra args

-- What getopt returns for ":p:k:n:m:f:".
pub data ServerOption : Type 0 where
  p k n m f : Text → ServerOption
  wrong : ServerOption

pub record ServerArgs : Type 0 where
  pub port : ℕ
  pub k : ℤ
  pub n : ℤ
  pub m : ℤ
  pub file : Text
  pub file_set : Bool

abbrev pub default_server_args : ServerArgs
default_server_args = record {
  port = 0;
  k = pos 100;
  n = pos 4;
  m = pos 131;
  file = [];
  file_set = false;
}

-- A turn of the loop of ServerArgParser::parseAndValidate.
unfoldable pub server_option : ServerOption → ServerArgs → Outcome ServerArgs
server_option (ServerOption.p optarg) args = do
  port ← parse_and_validate_port optarg true
  done (record args { port = port })
server_option (ServerOption.k optarg) args = do
  value ← parse_and_validate_int optarg 1 max_k
  done (record args { k = value })
server_option (ServerOption.n optarg) args = do
  value ← parse_and_validate_int optarg 1 max_n
  done (record args { n = value })
server_option (ServerOption.m optarg) args = do
  value ← parse_and_validate_int optarg 1 max_m
  done (record args { m = value })
server_option (ServerOption.f optarg) args = done (record args { file = optarg; file_set = true })
server_option ServerOption.wrong args = fatal

unfoldable pub server_options : List ServerOption → ServerArgs → Outcome ServerArgs
server_options [] args = done args
server_options (o ∷ os) args = do args' ← server_option o args; server_options os args'

-- ServerArgParser::parseAndValidate
unfoldable pub server_arg_parser : List ServerOption → List Text → Outcome ServerArgs
server_arg_parser os extra = do
  args ← server_options os default_server_args
  let checked = if not args.file_set || is_end args.file then fatal else done args
  elim extra [ [] ↦ checked | x ∷ rest ↦ fatal ]
