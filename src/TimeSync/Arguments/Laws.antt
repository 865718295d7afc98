-- ===== src/TimeSync/Arguments/Laws.antt =====
-- What an accepted command line of a node promises.
use computer_networks_course.Prelude.{
  ℕ, ◌≤◌, ◌≡◌, refl, Bool, true, false, ◌&&◌, ◌||◌, not, Option, none, some, List, [], ◌∷◌, arith,
  ltb, ◌==◌, Text,
}
use computer_networks_course.Outcome.{
  done, Yields, yields, on_fatal, Yields-bind, Yields-if, Yields-done,
}
use computer_networks_course.Strtoul.{strtoul, is_bad}
use computer_networks_course.TimeSync.Arguments.{
  read_port, Config, no_config, Opt, take_option, take_options, check_config, parse_args, same,
}

read_port_bounds : (s : Text) → Yields (λ v. v ≤ 65535) (read_port s)
unfolding read_port
read_port_bounds s =
    let q = strtoul s in
    Yields-if (is_bad q || ltb 65535 q.value) (λ bad. on_fatal)
      (λ ok. yields {a = q.value} (ground arith))

abbrev is_some : Option Text → Bool
is_some none = false
is_some (some x) = true

-- In front of the checks.
record Scanned (c : Config) : Type 0 where
  port_fits : c.port ≤ 65535
  peer_port_fits : c.peer_port ≤ 65535
  address_known : c.a_provided ≡ is_some c.peer_address
  port_unset : c.r_provided ≡ false → c.peer_port ≡ 0

take_option-Scanned : (o : Opt) (c : Config) → Scanned c → Yields Scanned (take_option o c)
unfolding take_option
take_option-Scanned (Opt.b x) c s = yields (record {
  port_fits = s.port_fits;
  peer_port_fits = s.peer_port_fits;
  address_known = s.address_known;
  port_unset = s.port_unset;
})
take_option-Scanned (Opt.p x) c s = Yields-bind _ (read_port_bounds x) (λ v b. yields (record {
  port_fits = b;
  peer_port_fits = s.peer_port_fits;
  address_known = s.address_known;
  port_unset = s.port_unset;
}))
take_option-Scanned (Opt.a x) c s = yields (record {
  port_fits = s.port_fits;
  peer_port_fits = s.peer_port_fits;
  address_known = refl;
  port_unset = s.port_unset;
})
take_option-Scanned (Opt.r x) c s = Yields-bind _ (read_port_bounds x) (λ v b. yields (record {
  port_fits = s.port_fits;
  peer_port_fits = b;
  address_known = s.address_known;
  port_unset = λ e. cc e;
}))
take_option-Scanned Opt.wrong c s = on_fatal

take_options-Scanned : (os : List Opt) (c : Config) → Scanned c → Yields Scanned (take_options os c)
unfolding take_options
take_options-Scanned [] c s = yields s
take_options-Scanned (o ∷ os) c s =
    Yields-bind Scanned (take_option-Scanned o c s) (λ c' s'. take_options-Scanned os c' s')

-- A peer has a port, and without a peer there is none.
abbrev pub PeerPort : Option Text → ℕ → Type 0
PeerPort none port = port ≡ 0
PeerPort (some peer) port = (1 ≤ port) × (port ≤ 65535)

peer_port_lem :
    (address : Option Text) (a r : Bool) (port : ℕ)
    → port ≤ 65535
    → a ≡ is_some address
    → (r ≡ false → port ≡ 0)
    → not (same a r) ≡ false
    → (r && port == 0) ≡ false
    → PeerPort address port
peer_port_lem none true r port f e u h k = cc e
peer_port_lem none false true port f e u h k = cc h
peer_port_lem none false false port f e u h k = u refl
peer_port_lem (some peer) false r port f e u h k = cc e
peer_port_lem (some peer) true true port f e u h k = (ground arith, f)
peer_port_lem (some peer) true false port f e u h k = cc h

check_config_bounds :
    (extra : List Text) (c : Config)
    → Scanned c
    → Yields (λ d. (d.port ≤ 65535) × PeerPort d.peer_address d.peer_port) (check_config extra c)
unfolding check_config
check_config_bounds [] c s =
    Yields-if (not (same c.a_provided c.r_provided)) (λ e. on_fatal)
      λ together.
        Yields-if (c.r_provided && c.peer_port == 0) (λ e. on_fatal)
          λ set. yields (
            s.port_fits,
            peer_port_lem c.peer_address c.a_provided c.r_provided c.peer_port s.peer_port_fits
                s.address_known s.port_unset together set,
          )
check_config_bounds (x ∷ extra) c s =
    Yields-if (not (same c.a_provided c.r_provided)) (λ e. on_fatal)
      λ together. Yields-if (c.r_provided && c.peer_port == 0) (λ e. on_fatal) λ set. on_fatal

-- A command line that the node takes gives a port up to 65535, and the address of a peer together
-- with a port from 1 to 65535, or neither.
pub parse_args_bounds :
    (os : List Opt) (extra : List Text) {c : Config}
    → parse_args os extra ≡ done c
    → (c.port ≤ 65535) × PeerPort c.peer_address c.peer_port
unfolding parse_args
parse_args_bounds os extra e =
    Yields-done
      (Yields-bind Scanned
        (take_options-Scanned os no_config (record {
          port_fits = omega arith;
          peer_port_fits = omega arith;
          address_known = refl;
          port_unset = λ r. refl;
        }))
        (λ c s. check_config_bounds extra c s))
      e
