-- ===== src/Approximator/Networking.antt =====
-- networking.cpp: the sockets of server and client. The results of the system calls are arguments;
-- the descriptors that are open are part of the result.
pub mod Laws
use computer_networks_course.Prelude.{
  ℕ, ◌+◌, ◌*◌, ◌/◌, ◌%◌, Bool, true, false, ◌&&◌, not, Option, none, some, List, [], ◌∷◌, ◌==◌,
  if◌then◌else◌, Text, ℤ,
}
use computer_networks_course.Outcome.{Outcome, done, fatal, ◌>>=◌}

-- `close`
unfoldable pub close : ℕ → List ℕ → List ℕ
close fd [] = []
close fd (x ∷ xs) = if x == fd then xs else x ∷ close fd xs

-- The family that the hints of getaddrinfo ask for.
pub data Family : Type 0 where
  inet inet6 unspec : Family

unfoldable pub hinted_family : Bool → Bool → Family
hinted_family force_ipv4 force_ipv6 =
    if force_ipv4 then inet else if force_ipv6 then inet6 else unspec

-- An address of the list of getaddrinfo, and what the calls do with it: the descriptor of `socket`,
-- whether `connect` succeeds, and the text of inet_ntop for the two families that have one.
pub record Address : Type 0 where
  pub socket : Option ℕ
  pub connects : Bool
  pub name : Option Text

-- The text of the server's address, if the connection is usable.
unfoldable pub attempt : Address → Option Text
attempt address = if address.connects then address.name else none

-- The loop of connect_to_server: the descriptor and the address of the server, if there is a
-- connection, and the open descriptors. Unsuccessful, the socket is closed for the next address.
unfoldable pub try_addresses : List Address → List ℕ → Option (ℕ × Text) × List ℕ
try_addresses [] fds = (none, fds)
try_addresses (address ∷ addresses) fds = elim (address.socket) [
  | none ↦ try_addresses addresses fds
  | some fd ↦ elim (attempt address) [
    | none ↦ try_addresses addresses (close fd (fd ∷ fds))
    | some ip ↦ (some (fd, ip), fd ∷ fds)
  ]
]

-- The end of connect_to_server: the descriptor, and the address and port that are stored.
unfoldable pub connection : Option (ℕ × Text) → ℕ → List ℕ → Outcome ((ℕ × Text × ℕ) × List ℕ)
connection none port fds = fatal
connection (some (fd, ip)) port fds = done ((fd, ip, port), fds)

-- connect_to_server; `none` for the addresses is a failure of getaddrinfo.
unfoldable pub connect_to_server :
    Option (List Address) → ℕ → List ℕ → Outcome ((ℕ × Text × ℕ) × List ℕ)
connect_to_server none port fds = fatal
connect_to_server (some addresses) port fds =
    let r = try_addresses addresses fds in connection r.0 port r.1

-- set_receive_timeout: the seconds and microseconds of the timeval.
unfoldable pub receive_timeout : ℕ → ℕ × ℕ
receive_timeout timeout_ms = (timeout_ms / 1000, timeout_ms % 1000 * 1000)

-- set_socket_nonblocking, for the results of the two calls of fcntl.
unfoldable pub set_socket_nonblocking : Bool → Bool → Outcome (Unit {0})
set_socket_nonblocking gets sets = if gets && sets then done tt else fatal

-- The results of the calls that set up a listening socket.
pub record Setup : Type 0 where
  pub socket : Option ℕ
  pub reuses : Bool
  pub dual_stack : Bool
  pub binds : Bool
  pub gets_flags : Bool
  pub sets_flags : Bool
  pub listens : Bool

-- setup_listening_socket_ipv6: the descriptor, `none` for `false`, and the open descriptors.
-- Failures of setsockopt are only printed.
unfoldable pub setup_listening_socket_ipv6 : Setup → List ℕ → Outcome (Option ℕ × List ℕ)
setup_listening_socket_ipv6 calls fds = elim (calls.socket) [
  | none ↦ done (none, fds)
  | some sockfd ↦
      let behind_bind : Outcome (Option ℕ × List ℕ) = (do
        ok ← set_socket_nonblocking calls.gets_flags calls.sets_flags
        done ((if calls.listens then some sockfd else none), sockfd ∷ fds)) in
      if calls.binds then behind_bind else done (none, sockfd ∷ fds)
]

-- setup_listening_socket_ipv4
unfoldable pub setup_listening_socket_ipv4 : Setup → List ℕ → Outcome (ℕ × List ℕ)
setup_listening_socket_ipv4 calls fds = elim (calls.socket) [
  | none ↦ fatal
  | some sockfd ↦
      let behind_bind : Outcome (ℕ × List ℕ) = (do
        ok ← set_socket_nonblocking calls.gets_flags calls.sets_flags
        if calls.listens then done (sockfd, sockfd ∷ fds) else fatal) in
      if calls.binds then behind_bind else fatal
]

-- setup_listening_socket
unfoldable pub setup_listening_socket : Setup → Setup → List ℕ → Outcome (ℕ × List ℕ)
setup_listening_socket ipv6 ipv4 fds = do
  (sockfd, fds') ← setup_listening_socket_ipv6 ipv6 fds
  elim sockfd [ some fd ↦ done (fd, fds') | none ↦ setup_listening_socket_ipv4 ipv4 fds' ]

-- What `accept` does: a descriptor, EAGAIN, or another error.
pub data Accept : Type 0 where
  accepted : ℕ → Accept
  none_pending accept_error : Accept

-- accept_new_connection; `none` is -1.
unfoldable pub accept_new_connection : Accept → Bool → Bool → Outcome (Option ℕ)
accept_new_connection (accepted fd) gets sets = do
  ok ← set_socket_nonblocking gets sets
  done (some fd)
accept_new_connection none_pending gets sets = done none
accept_new_connection accept_error gets sets = fatal
