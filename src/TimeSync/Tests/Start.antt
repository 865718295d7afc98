-- ===== src/TimeSync/Tests/Start.antt =====
-- A command line of the node, and a loop over one of two lists.
use computer_networks_course.Prelude.{ℕ, ◌≤◌, ◌≡◌, refl, true, none, some, [], ◌∷◌, arith, codes}
use computer_networks_course.Outcome.{done}
use computer_networks_course.Strtoul.{strtoul, read_digits, to_ulong, is_bad}
use computer_networks_course.Approximator.MsgParser.Chars.{isdigit, take_digits, drop_digits}
use computer_networks_course.Approximator.MsgParser.Integer.{
  isspace, skip_space, read_sign, digits_value,
}
use computer_networks_course.TimeSync.Arguments.{
  Config, a, r, read_port, no_config, take_option, take_options, check_config, parse_args,
}
use computer_networks_course.TimeSync.Arguments.Laws.{PeerPort, parse_args_bounds}
use computer_networks_course.TimeSync.Peers.{Addr, addr_less}
use computer_networks_course.TimeSync.Peers.Laws.{Sorted}
use computer_networks_course.TimeSync.Peers.Store.{Store, visit}
use computer_networks_course.TimeSync.Peers.Iteration.{visit_lem}

-- `-a host -r 90`
abbrev read_config : Config
read_config = record no_config {
  peer_address = some (codes "host");
  peer_port = 90;
  a_provided = true;
  r_provided = true;
}

reads_config : parse_args (a (codes "host") ∷ r (codes "90") ∷ []) [] ≡ done read_config
unfolding parse_args take_options take_option check_config read_port strtoul read_digits to_ulong
    is_bad isdigit take_digits drop_digits isspace skip_space read_sign digits_value
reads_config = refl

parse_args_bounds_example :
    (read_config.port ≤ 65535) × PeerPort read_config.peer_address read_config.peer_port
parse_args_bounds_example =
    parse_args_bounds (a (codes "host") ∷ r (codes "90") ∷ []) [] reads_config

abbrev peer : ℕ → Addr
peer n = record { s_addr = n; sin_port = 80 }

-- The second list, whose iterator stands at a peer that is not there any more.
abbrev store : Store
store = record {
  lists = (peer 9 ∷ []) ∷ (peer 1 ∷ peer 2 ∷ peer 5 ∷ []) ∷ [];
  iterators = none ∷ some (peer 3) ∷ [];
}

in_order : Sorted (peer 1 ∷ peer 2 ∷ peer 5 ∷ [])
unfolding addr_less
in_order = ((refl, (refl, tt)), ((refl, tt), (tt, tt)))

visit_lem_example : visit 3 store 1 ≡ done (peer 1 ∷ peer 2 ∷ peer 5 ∷ [])
visit_lem_example =
    visit_lem 3 store 1 (peer 1 ∷ peer 2 ∷ peer 5 ∷ []) refl (omega arith) in_order (omega arith)
