-- ===== src/Approximator/ApproxServer/Loop.antt =====
-- The body of the main loop of approx-server.cpp, with reset_server.
use computer_networks_course.Prelude.{
  ℕ, zero, suc, ◌+◌, Bool, true, false, Option, none, some, List, [], ◌∷◌, ◌++◌, ltb, ◌==◌,
  if◌then◌else◌, length, get_elem?, take, drop, Text,
}
use computer_networks_course.Approximator.ApproxServer.Node.{
  PollFd, Node, Received, Sent, sent, send_error, call_hello_timeout, disconnect_client,
  handle_new_connection, handle_read_from_client, handle_write_to_client,
}
use computer_networks_course.Approximator.Constants.{Double}
use computer_networks_course.Approximator.EventManager.{check_timers}
use computer_networks_course.Outcome.{Outcome, done, fatal, ◌>>=◌, or_fault}
use computer_networks_course.Approximator.ServerLogic.State.{
  Server, Event, hello_timeout, bad_put_response, state_response, has_pending_messages,
  take_next_message_str, call_bad_put, call_state, reset,
}

-- What `poll` returns: a negative number, 0, or more.
pub data Ready : Type 0 where
  poll_error : Ready
  poll_timeout : Ready
  poll_ready : Ready

-- What the system calls of one turn of the loop return. `revents` gives POLLHUP, POLLIN | POLLERR
-- and POLLOUT of a socket; `accepted` is the new connection; `send_last` is told the messages left.
pub record Round : Type 0 where
  pub ready : Ready
  pub now : ℕ
  pub revents : ℕ → Bool × Bool × Bool
  pub accepted : Option (ℕ × Text × ℕ)
  pub recv : ℕ → Received
  pub send : ℕ → Sent
  pub send_last : ℕ → Text → ℕ → Sent

unfoldable pub set_revents : (ℕ → Bool × Bool × Bool) → List PollFd → List PollFd
set_revents revents [] = []
set_revents revents (p ∷ ps) =
    let (hup, readable, writable) = revents p.fd in
    record p { hup = hup; readable = readable; writable = writable } ∷ set_revents revents ps

unfoldable pub all_sent : Sent → Text → Bool
all_sent send_error msg = false
all_sent (sent n) msg = n == length msg

module _ {F : Type 0} where
  -- The inner loop of reset_server, for as many turns as there are messages.
  unfoldable pub drain : (Text → ℕ → Sent) → ℕ → Server F → ℕ → Outcome (Server F)
  drain send zero s fd = done s
  drain send (suc turns) s fd = do
    pending ← has_pending_messages s fd
    let sending = do
      (s', msg_str) ← take_next_message_str s fd
      let more = drain send turns s' fd
      if length msg_str == 0
          then done s'
          else if all_sent (send msg_str turns) msg_str
          then more
          else done s'
    if pending then sending else done s

  unfoldable pub drain_all : (ℕ → Text → ℕ → Sent) → ℕ → Server F → List PollFd → Outcome (Server F)
  drain_all send turns s [] = done s
  drain_all send turns s (p ∷ ps) = do
    s' ← drain (send p.fd) turns s p.fd
    drain_all send turns s' ps

  -- reset_server, with `turns` at least the number of messages of any client.
  unfoldable pub reset_server : (ℕ → Text → ℕ → Sent) → ℕ → Node F → Outcome (Node F)
  reset_server send turns node = do
    server ← drain_all send turns node.server (drop 1 node.poll_fds)
    done (record { server = server; poll_fds = take 1 node.poll_fds; client_buffers = [] })

  -- `poll_fds[i].events |= POLLOUT` for the clients with messages.
  unfoldable pub mark_pending : Server F → List PollFd → Outcome (List PollFd)
  mark_pending s [] = done []
  mark_pending s (p ∷ ps) = do
    pending ← has_pending_messages s p.fd
    rest ← mark_pending s ps
    done (if pending then record p { wants_out = true } ∷ rest else p ∷ rest)

  unfoldable pub mark_clients : Node F → Outcome (Node F)
  mark_clients node = do
    clients ← mark_pending node.server (drop 1 node.poll_fds)
    done (record node { poll_fds = take 1 node.poll_fds ++ clients })

module _ {F : Type 0} ⦃d : Double F⦄ where
  -- Calling an event.
  unfoldable pub call : Event F → Node F → Outcome (Node F)
  call (hello_timeout fd ip port) node = call_hello_timeout node fd ip port
  call (bad_put_response fd point value ip port id) node = do
    server ← call_bad_put node.server fd point value ip port id
    done (record node { server = server })
  call (state_response fd state_msg ip port id) node = do
    server ← call_state node.server fd state_msg ip port id
    done (record node { server = server })

  unfoldable pub run_timers : ℕ → Node F → Outcome (Node F)
  run_timers now node = do
    (events, node') ← check_timers call now node.server.events node
    done (record node' { server = record node'.server { events = events } })

  -- One turn of the loop over the client sockets: the node, the index, and whether the loop ends.
  -- `pollfd` is a reference to the entry at the index of the start of the turn.
  unfoldable pub client_socket : Round → Node F → ℕ → Outcome (Node F × ℕ × Bool)
  client_socket round node i = do
    pollfd ← or_fault (get_elem? node.poll_fds i)
    let hung_up : Outcome (Node F × ℕ × Bool) = (do
      (node', i') ← disconnect_client node pollfd.fd i
      done (node', i', false))
    let write : Node F → ℕ → Outcome (Node F × ℕ × Bool) = λ node' i'. (do
      pollfd' ← or_fault (get_elem? node'.poll_fds i)
      let writing : Outcome (Node F × ℕ × Bool) = (do
        client ← or_fault (get_elem? node'.poll_fds i')
        (node'', i'', connected) ← handle_write_to_client (round.send client.fd) node' i'
        done (node'', i'', false))
      if pollfd'.writable then writing else done (node', i', false))
    let after : Node F → ℕ → Outcome (Node F × ℕ × Bool) = λ node' i'.
        (let rest = write node' i' in
          if node'.server.stopping then done (node', i', true) else rest)
    let read : Outcome (Node F × ℕ × Bool) = (do
      (node', i', connected) ← handle_read_from_client round.now (round.recv pollfd.fd) node i
      let rest = after node' i'
      if connected then rest else done (node', i', false))
    let quiet = after node i
    if pollfd.hup then hung_up else if pollfd.readable then read else quiet

  -- The loop over the client sockets, for as many turns as there are sockets.
  unfoldable pub client_sockets : ℕ → Round → Node F → ℕ → Outcome (Node F)
  client_sockets zero round node i = done node
  client_sockets (suc turns) round node i =
      let turn = (do
        (node', i', stop) ← client_socket round node i
        let more = client_sockets turns round node' (i' + 1)
        if stop then done node' else more) in
      if ltb i (length node.poll_fds) then turn else done node

  unfoldable pub accept_connection : Round → Node F → Node F
  accept_connection round node = elim round.accepted [
    | none ↦ node
    | some (fd, ip, port) ↦ handle_new_connection round.now node fd ip port
  ]

  -- One turn of the main loop.
  unfoldable pub server_turn : Round → ℕ → Node F → Outcome (Node F)
  server_turn round turns node = do
    let polled = record node { poll_fds = set_revents round.revents node.poll_fds }
    let restart = (do
      node' ← reset_server round.send_last turns polled
      done (record node' { server = reset node'.server }))
    let serve = (do
      listening ← or_fault (get_elem? node.poll_fds 0)
      let (hup, connecting, writable) = round.revents listening.fd
      node1 ← run_timers round.now polled
      node2 ← mark_clients node1
      let node3 = if connecting then accept_connection round node2 else node2
      let clients = client_sockets (length node3.poll_fds) round node3 1
      elim round.ready [ poll_ready ↦ clients | _ ↦ done node2 ])
    elim round.ready [ poll_error ↦ fatal | _ ↦ if node.server.stopping then restart else serve ]
