-- ===== src/Approximator/Networking/Laws.antt =====
-- Which connection the client makes, and which descriptors stay open.
use computer_networks_course.Prelude.{
  ℕ, ◌≡◌, refl, ap, ◌∙◌, true, false, ◌&&◌, Option, none, some, List, [], ◌∷◌, ==-refl,
  if◌then◌else◌, Text, arith,
}
use computer_networks_course.Outcome.{Outcome, done, fatal}
use computer_networks_course.Approximator.Networking.{
  close, Address, attempt, try_addresses, connection, connect_to_server, Setup,
  set_socket_nonblocking, setup_listening_socket_ipv6, setup_listening_socket_ipv4,
  setup_listening_socket,
}

close_first : (fd : ℕ) (fds : List ℕ) → close fd (fd ∷ fds) ≡ fds
unfolding close
close_first fd fds = rw (==-refl fd)

-- The descriptor and the text of an address that gives a usable connection.
abbrev pub usable : Option ℕ → Option Text → Option (ℕ × Text)
usable none ip = none
usable (some fd) none = none
usable (some fd) (some ip) = some (fd, ip)

abbrev pub or_else : Option (ℕ × Text) → Option (ℕ × Text) → Option (ℕ × Text)
or_else none later = later
or_else (some r) later = some r

-- The first of the addresses that gives a usable connection.
abbrev pub first_usable : List Address → Option (ℕ × Text)
first_usable [] = none
first_usable (a ∷ addresses) =
    or_else (usable a.socket (if a.connects then a.name else none)) (first_usable addresses)

abbrev pub opened : Option (ℕ × Text) → List ℕ → List ℕ
opened none fds = fds
opened (some (fd, ip)) fds = fd ∷ fds

-- The loop finds the first usable address, and leaves no other descriptor open.
try_addresses_lem :
    (addresses : List Address) (fds : List ℕ)
    → try_addresses addresses fds ≡ (first_usable addresses, opened (first_usable addresses) fds)
unfolding try_addresses attempt
try_addresses_lem [] fds = refl
try_addresses_lem (a ∷ addresses) fds = step a.socket (attempt a) (try_addresses_lem addresses)
  where
    step :
        (o : Option ℕ) (n : Option Text)
        → ((fds' : List ℕ)
            → try_addresses addresses fds'
              ≡ (first_usable addresses, opened (first_usable addresses) fds'))
        → (elim o [
          | none ↦ try_addresses addresses fds
          | some fd ↦ elim n [
            | none ↦ try_addresses addresses (close fd (fd ∷ fds))
            | some ip ↦ (some (fd, ip), fd ∷ fds)
          ]
        ])
          ≡ (
            or_else (usable o n) (first_usable addresses),
            opened (or_else (usable o n) (first_usable addresses)) fds,
          )
    step none n ih = ih fds
    step (some fd) none ih = rw (close_first fd fds) (ih fds)
    step (some fd) (some ip) ih = refl

-- The connection, which is the only new descriptor; the program ends without one.
abbrev pub connected : Option (ℕ × Text) → ℕ → List ℕ → Outcome ((ℕ × Text × ℕ) × List ℕ)
connected none port fds = fatal
connected (some (fd, ip)) port fds = done ((fd, ip, port), fd ∷ fds)

-- The client connects to the first address of which a socket can be had, that accepts and has a
-- text, whose descriptor is the only one that stays open; without one it ends.
pub connect_to_server_lem :
    (addresses : List Address) (port : ℕ) (fds : List ℕ)
    → connect_to_server (some addresses) port fds ≡ connected (first_usable addresses) port fds
unfolding connect_to_server connection
connect_to_server_lem addresses port fds =
    ap (λ r. connection r.0 port r.1) (try_addresses_lem addresses fds)
    ∙ split (first_usable addresses)
  where
    split : (o : Option (ℕ × Text)) → connection o port (opened o fds) ≡ connected o port fds
    split none = refl
    split (some r) = refl

-- If the IPv6 socket is opened but cannot be bound or listen, and the IPv4 socket can, the server
-- listens on the latter, and the IPv6 socket stays open. Both can be set to non-blocking.
pub setup_listening_socket-leak :
    (ipv6 ipv4 : Setup) (fd6 fd4 : ℕ) (fds : List ℕ)
    → ipv6.socket ≡ some fd6
    → (ipv6.binds && ipv6.listens) ≡ false
    → (ipv6.gets_flags && ipv6.sets_flags) ≡ true
    → ipv4.socket ≡ some fd4
    → (ipv4.binds && ipv4.listens) ≡ true
    → (ipv4.gets_flags && ipv4.sets_flags) ≡ true
    → setup_listening_socket ipv6 ipv4 fds ≡ done (fd4, fd4 ∷ fd6 ∷ fds)
unfolding setup_listening_socket setup_listening_socket_ipv6 setup_listening_socket_ipv4
    set_socket_nonblocking
setup_listening_socket-leak ipv6 ipv4 fd6 fd4 fds s6 bad ok6 s4 good ok4 = ground arith
