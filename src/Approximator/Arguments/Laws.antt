-- ===== src/Approximator/Arguments/Laws.antt =====
-- What the accepted command lines promise to the server and the client.
use computer_networks_course.Prelude.{
  ℕ, ◌-◌, ◌%◌, ◌^◌, ◌≤◌, ◌<◌, ◌≡◌, refl, ◌≢◌, ◌⊎◌, inl, inr, Bool, true, false, ◌&&◌, ◌||◌, not,
  List, [], ◌∷◌, arith, ltb, lt→ltb, ℤ, pos, negsuc, ◌≤ℤ◌, if◌then◌else◌, if_true, if_false,
  Bool-cases, Text,
}
use computer_networks_course.Outcome.{done, fatal, Ensures, returns, exits, Ensures-bind, unless}
use computer_networks_course.Strtoul.{strtoul, is_end, is_bad}
use computer_networks_course.Strtoul.Laws.{decimal, strtoul-decimal}
use computer_networks_course.Approximator.Constants.{max_k, max_n, max_m}
use computer_networks_course.Approximator.MsgParser.Chars.{is_alphanumeric}
use computer_networks_course.Approximator.MsgParser.Printer.Scoring.{IsId}
use computer_networks_course.Approximator.Arguments.{
  to_int, to_uint16, parse_and_validate_int, parse_and_validate_port, ClientOption, ClientArgs,
  no_client_args, client_option, client_options, parse_client, validate_client_args,
  client_arg_parser, ServerOption, ServerArgs, default_server_args, server_option, server_options,
  server_arg_parser,
}

to_int_small : (v : ℕ) → v < 2 ^ 31 → to_int v ≡ pos v
unfolding to_int
to_int_small v h = let e : v % 2 ^ 32 ≡ v = omega arith in rw e (if_true _ _ (lt→ltb v (2 ^ 31) h))

parse_and_validate_int_bounds :
    (str : Text) (min max : ℕ)
    → max < 2 ^ 31
    → Ensures (λ z. (pos min ≤ℤ z) × (z ≤ℤ pos max)) (parse_and_validate_int str min max)
unfolding parse_and_validate_int
parse_and_validate_int_bounds str min max small =
    let q = strtoul str in
    unless (is_bad q || (ltb q.value min || ltb max q.value)) (λ bad. exits)
      λ ok.
        let high : q.value ≤ max = ground arith in
        let low : min ≤ q.value = ground arith in
        returns (rw (to_int_small q.value (omega arith)) (omega arith, omega arith))

port_bounds :
    (str : Text) (allow_zero : Bool)
    → Ensures
        (λ v. ((if allow_zero then 0 else 1) ≤ v) × (v ≤ 65535))
        (parse_and_validate_port str allow_zero)
unfolding parse_and_validate_port to_uint16
port_bounds str allow_zero =
    Ensures-bind
      (parse_and_validate_int_bounds str (if allow_zero then 0 else 1) 65535 (omega arith))
      (λ z b. returns (as_port _ z b))
  where
    as_port :
        (least : ℕ) (z : ℤ)
        → (pos least ≤ℤ z) × (z ≤ℤ pos 65535)
        → (least ≤ to_uint16 z) × (to_uint16 z ≤ 65535)
    as_port least (pos n) b = (omega (arith, b.0, b.1), omega (arith, b.0, b.1))
    as_port least (negsuc n) b = absurd (omega (arith, b.0))

-- A positive number within the range of a parameter, whose largest value fits an `int`, is read
-- from its decimal digits, and also from a minus and the digits of what is left of it to 2^64.
pub parse_and_validate_int-decimal :
    (n min max : ℕ)
    → max < 2 ^ 31
    → 0 < n
    → min ≤ n
    → n ≤ max
    → (parse_and_validate_int (decimal n) min max ≡ done (pos n))
      × (parse_and_validate_int (b'-' ∷ decimal (2 ^ 64 - n)) min max ≡ done (pos n))
unfolding parse_and_validate_int is_bad
parse_and_validate_int-decimal n min max small h low high = (
  rw (strtoul-decimal false n (omega arith), to_int_small n (omega arith)) (ground arith),
  rw (strtoul-decimal true (2 ^ 64 - n) (omega arith))
      (rw (back, to_int_small n (omega arith)) (ground arith)),
)
  where
    back : (2 ^ 64 - (2 ^ 64 - n)) % 2 ^ 64 ≡ n
    back = omega arith

-- What validate promises.
abbrev pub IsClientArgs : ClientArgs → Type 0
IsClientArgs args =
    IsId args.player_id
    × (args.server_address ≢ [])
    × (1 ≤ args.server_port)
    × (args.server_port ≤ 65535)
    × ((args.force_ipv4 && args.force_ipv6) ≡ false)

abbrev PortSet : ClientArgs → Type 0
PortSet args = args.server_port_set ≡ true → (1 ≤ args.server_port) × (args.server_port ≤ 65535)

client_option_port :
    (o : ClientOption) (args : ClientArgs) → PortSet args → Ensures PortSet (client_option o args)
unfolding client_option
client_option_port (ClientOption.u x) args h = returns h
client_option_port (ClientOption.s x) args h = returns h
client_option_port (ClientOption.p x) args h =
    Ensures-bind (port_bounds x false) (λ v b. returns (λ e. b))
client_option_port ClientOption.four args h = returns h
client_option_port ClientOption.six args h = returns h
client_option_port ClientOption.a args h = returns h
client_option_port ClientOption.wrong args h = exits

client_options_port :
    (os : List ClientOption) (args : ClientArgs)
    → PortSet args
    → Ensures PortSet (client_options os args)
unfolding client_options
client_options_port [] args h = returns h
client_options_port (o ∷ os) args h =
    Ensures-bind {Q = PortSet} (client_option_port o args h)
      (λ args' h'. client_options_port os args' h')

abbrev Parsed : ClientArgs → Type 0
Parsed args = PortSet args × ((args.force_ipv4 && args.force_ipv6) ≡ false)

parse_client-Parsed :
    (os : List ClientOption) (port : ℕ) → Ensures Parsed (parse_client os (no_client_args port))
unfolding parse_client
parse_client-Parsed os port =
    Ensures-bind {Q = PortSet} (client_options_port os (no_client_args port) (λ e. cc e))
      (λ args h. returns (not_both args h (Bool-cases (args.force_ipv4 && args.force_ipv6))))
  where
    not_both :
        (args : ClientArgs)
        → PortSet args
        → (((args.force_ipv4 && args.force_ipv6) ≡ true)
            ⊎ ((args.force_ipv4 && args.force_ipv6) ≡ false))
        → Parsed (
            if args.force_ipv4 && args.force_ipv6
            then record args { force_ipv4 = false; force_ipv6 = false }
            else args)
    not_both args h (inl both) = rw (if_true _ _ both) (h, refl)
    not_both args h (inr one) = rw (if_false _ _ one) (h, one)

not_end : (s : Text) → is_end s ≡ false → s ≢ []
not_end [] h = cc h
not_end (c ∷ s) h = λ e. cc

validate-IsClientArgs :
    (extra : List Text) (args : ClientArgs)
    → Parsed args
    → Ensures IsClientArgs (validate_client_args extra args)
unfolding validate_client_args
validate-IsClientArgs (x ∷ extra) args h = exits
validate-IsClientArgs [] args h =
    unless (not args.player_id_set || is_end args.player_id) (λ e. exits)
      λ id.
        unless (not args.server_address_set || is_end args.server_address) (λ e. exits)
          λ address.
            unless (not args.server_port_set) (λ e. exits)
              λ port.
                unless (is_alphanumeric args.player_id)
                  (λ e. returns (
                    (not_end args.player_id (second _ _ id), e),
                    not_end args.server_address (second _ _ address),
                    (h.0 (ground arith)).0,
                    (h.0 (ground arith)).1,
                    h.1,
                  ))
                  (λ e. exits)
  where
    second : (a b : Bool) → (a || b) ≡ false → b ≡ false
    second a b e = ground arith

-- The parser of the client comes to no fault, and a command line that it takes gives a valid id, an
-- address that is not empty, a port from 1 to 65535, and not both of the address families.
pub client_arg_parser-IsClientArgs :
    (os : List ClientOption) (extra : List Text) (port : ℕ)
    → Ensures IsClientArgs (client_arg_parser os extra port)
unfolding client_arg_parser
client_arg_parser-IsClientArgs os extra port =
    Ensures-bind {Q = Parsed} (parse_client-Parsed os port) (validate-IsClientArgs extra)

-- The ranges of the server's parameters.
abbrev pub InRange : ServerArgs → Type 0
InRange args =
    (args.port ≤ 65535)
    × (pos 1 ≤ℤ args.k)
    × (args.k ≤ℤ pos max_k)
    × (pos 1 ≤ℤ args.n)
    × (args.n ≤ℤ pos max_n)
    × (pos 1 ≤ℤ args.m)
    × (args.m ≤ℤ pos max_m)

server_option-InRange :
    (o : ServerOption) (args : ServerArgs) → InRange args → Ensures InRange (server_option o args)
unfolding server_option
server_option-InRange (ServerOption.p x) args h =
    Ensures-bind (port_bounds x true) (λ v b. returns (b.1, h.1, h.2, h.3, h.4, h.5, h.6))
server_option-InRange (ServerOption.k x) args h =
    Ensures-bind (parse_and_validate_int_bounds x 1 max_k (omega arith))
      (λ v b. returns (h.0, b.0, b.1, h.3, h.4, h.5, h.6))
server_option-InRange (ServerOption.n x) args h =
    Ensures-bind (parse_and_validate_int_bounds x 1 max_n (omega arith))
      (λ v b. returns (h.0, h.1, h.2, b.0, b.1, h.5, h.6))
server_option-InRange (ServerOption.m x) args h =
    Ensures-bind (parse_and_validate_int_bounds x 1 max_m (omega arith))
      (λ v b. returns (h.0, h.1, h.2, h.3, h.4, b.0, b.1))
server_option-InRange (ServerOption.f x) args h = returns h
server_option-InRange ServerOption.wrong args h = exits

server_options-InRange :
    (os : List ServerOption) (args : ServerArgs)
    → InRange args
    → Ensures InRange (server_options os args)
unfolding server_options
server_options-InRange [] args h = returns h
server_options-InRange (o ∷ os) args h =
    Ensures-bind {Q = InRange} (server_option-InRange o args h)
      (λ args' h'. server_options-InRange os args' h')

-- The parser of the server comes to no fault, and a command line that it takes gives a port up to
-- 65535, K, N and M from 1 to their largest values, and the name of a file.
pub server_arg_parser-InRange :
    (os : List ServerOption) (extra : List Text)
    → Ensures (λ args. InRange args × (args.file ≢ [])) (server_arg_parser os extra)
unfolding server_arg_parser
server_arg_parser-InRange os extra =
    Ensures-bind {Q = InRange} (server_options-InRange os default_server_args (omega arith))
      (checked extra)
  where
    second : (a b : Bool) → (a || b) ≡ false → b ≡ false
    second a b e = ground arith

    checked :
        (extra : List Text) (args : ServerArgs)
        → InRange args
        → Ensures
            (λ a. InRange a × (a.file ≢ []))
            (let rest = (if not args.file_set || is_end args.file then fatal else done args) in
              elim extra [ [] ↦ rest | x ∷ more ↦ fatal ])
    checked [] args h =
        unless (not args.file_set || is_end args.file) (λ b. exits)
          (λ ok. returns (h, not_end args.file (second _ _ ok)))
    checked (x ∷ extra) args h = exits
