-- ===== src/TimeSync/Arguments.antt =====
-- arg_parser.c, and read_port of networking.c. What getopt returns is a list of options.
pub mod Laws
use computer_networks_course.Prelude.{
  ℕ, Bool, true, false, ◌&&◌, ◌||◌, not, Option, none, some, List, [], ◌∷◌, ltb, ◌==◌,
  if◌then◌else◌, Text,
}
use computer_networks_course.Outcome.{Outcome, done, fatal, ◌>>=◌}
use computer_networks_course.Strtoul.{strtoul, is_bad}

-- read_port
unfoldable pub read_port : Text → Outcome ℕ
read_port string =
    let p = strtoul string in if is_bad p || ltb 65535 p.value then fatal else done p.value

-- Config, and the locals of parse_args. A null pointer is `none`.
pub record Config : Type 0 where
  pub bind_address : Option Text
  pub port : ℕ
  pub peer_address : Option Text
  pub peer_port : ℕ
  pub a_provided : Bool
  pub r_provided : Bool

abbrev pub no_config : Config
no_config = record {
  bind_address = none;
  port = 0;
  peer_address = none;
  peer_port = 0;
  a_provided = false;
  r_provided = false;
}

-- What getopt returns for ":b:p:a:r:"; `wrong` is any of the failures.
pub data Opt : Type 0 where
  b p a r : Text → Opt
  wrong : Opt

-- A turn of the loop of parse_args.
unfoldable pub take_option : Opt → Config → Outcome Config
take_option (b optarg) config = done (record config { bind_address = some optarg })
take_option (p optarg) config = do port ← read_port optarg; done (record config { port = port })
take_option (a optarg) config =
    done (record config { peer_address = some optarg; a_provided = true })
take_option (r optarg) config = do
  peer_port ← read_port optarg
  done (record config { peer_port = peer_port; r_provided = true })
take_option wrong config = fatal

unfoldable pub take_options : List Opt → Config → Outcome Config
take_options [] config = done config
take_options (o ∷ os) config = do config' ← take_option o config; take_options os config'

-- `a == b` of two `bool`s
abbrev pub same : Bool → Bool → Bool
same true y = y
same false y = not y

-- The checks behind the loop, with the arguments that are left.
unfoldable pub check_config : List Text → Config → Outcome Config
check_config extra config =
    if not (same config.a_provided config.r_provided)
    then fatal
    else if config.r_provided && config.peer_port == 0
    then fatal
    else elim extra [ [] ↦ done config | x ∷ rest ↦ fatal ]

-- parse_args
unfoldable pub parse_args : List Opt → List Text → Outcome Config
parse_args os extra = do config ← take_options os no_config; check_config extra config
