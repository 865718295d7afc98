-- ===== src/TimeSync/Sockets.antt =====
-- networking.c, err.c and the addresses of main.c: what the node does with its socket. The results of
-- the system calls are arguments.
use computer_networks_course.Prelude.{
  ℕ, ◌+◌, ◌-◌, ◌*◌, ◌/◌, ◌%◌, Bool, false, Option, none, some, List, [], ◌∷◌, ◌++◌, arith, ltb,
  ◌==◌, if◌then◌else◌, length, take, Text, codes, ◌&&◌, ◌||◌, ◌≡◌, ◌<◌,
}
use computer_networks_course.Outcome.{Outcome, done, fatal, ◌>>=◌}
use computer_networks_course.TimeSync.Peers.{Addr, equal_addr, address_in_array}

-- htons and ntohs, on a little-endian machine.
unfoldable pub htons : ℕ → ℕ
htons port = port % 256 * 256 + port / 256 % 256

-- get_address; `none` is a failure of getaddrinfo.
unfoldable pub get_address : Option ℕ → ℕ → Outcome Addr
get_address none port = fatal
get_address (some s_addr) port = done (record { s_addr = s_addr; sin_port = htons port })

-- The address to bind to: INADDR_ANY without one in the configuration, and otherwise what inet_pton
-- makes of it.
unfoldable pub listen_addr : Option (Option ℕ) → Outcome ℕ
listen_addr none = done 0
listen_addr (some none) = fatal
listen_addr (some (some s_addr)) = done s_addr

-- bind_socket: the listen address and the port; getsockname gives the stored port.
unfoldable pub bind_socket : Option (Option ℕ) → ℕ → Bool → Option ℕ → Outcome (Addr × ℕ)
bind_socket bind_address port binds socket_name = do
  s_addr ← listen_addr bind_address
  let address : Addr = record { s_addr = s_addr; sin_port = htons port }
  let actual : Outcome (Addr × ℕ) = elim socket_name [
    | none ↦ fatal
    | some sin_port ↦ done (address, htons sin_port)
  ]
  let bound = if port == 0 then actual else done (address, port)
  if binds then bound else fatal

-- The interfaces of getifaddrs: the address of one that has an IPv4 address.
unfoldable pub own_addresses : List (Option ℕ) → ℕ → List Addr
own_addresses [] port = []
own_addresses (none ∷ interfaces) port = own_addresses interfaces port
own_addresses (some s_addr ∷ interfaces) port =
    record { s_addr = s_addr; sin_port = htons port } ∷ own_addresses interfaces port

-- `my_addresses` of initialize_node_data: those of the interfaces, or the address that is bound.
unfoldable pub my_addresses_of : Option (List (Option ℕ)) → Bool → Addr → ℕ → Outcome (List Addr)
my_addresses_of interfaces bound listen_address port =
    let all : Outcome (List Addr) = elim interfaces [
      | none ↦ fatal
      | some is ↦ done (own_addresses is port)
    ] in
    if bound then done (record listen_address { sin_port = htons port } ∷ []) else all

-- `%02x`
unfoldable pub hex_digit : ℕ → ℕ
hex_digit n = if ltb n 10 then b'0' + n else b'a' + (n - 10)

unfoldable pub hex_byte : ℕ → Text
hex_byte n = hex_digit (n / 16) ∷ hex_digit (n % 16) ∷ []

unfoldable pub hex_bytes : List ℕ → Text
hex_bytes [] = []
hex_bytes (b ∷ bs) = hex_byte b ++ hex_bytes bs

-- error_msg_hex; `none` is a null pointer.
unfoldable pub error_msg_hex : Option (List ℕ) → Text
error_msg_hex none = codes "ERROR MSG \n"
error_msg_hex (some msg) =
    let bytes_to_print = if ltb 10 (length msg) then 10 else length msg in
    codes "ERROR MSG " ++ (hex_bytes (take bytes_to_print msg) ++ codes "\n")

htons_twice : (port : ℕ) → port < 65536 → htons (htons port) ≡ port
unfolding htons
htons_twice port h = omega arith

-- Some interface has the address.
abbrev pub has_interface : ℕ → List (Option ℕ) → Bool
has_interface s_addr [] = false
has_interface s_addr (none ∷ is) = has_interface s_addr is
has_interface s_addr (some i ∷ is) = s_addr == i || has_interface s_addr is

-- A sender is one of the own addresses if it has the own port and the address of an interface.
pub own_addresses_lem :
    (interfaces : List (Option ℕ)) (port : ℕ) (sender : Addr)
    → address_in_array sender (own_addresses interfaces port)
      ≡ (sender.sin_port == htons port && has_interface sender.s_addr interfaces)
unfolding own_addresses address_in_array equal_addr
own_addresses_lem [] port sender = ground arith
own_addresses_lem (none ∷ interfaces) port sender = own_addresses_lem interfaces port sender
own_addresses_lem (some s_addr ∷ interfaces) port sender =
    ground (arith, own_addresses_lem interfaces port sender)
