-- ===== src/Approximator/ApproxServer/Node.antt =====
-- The file-scope state of approx-server.cpp, and what it does with one client. The socket calls are
-- given by their results.
use computer_networks_course.Prelude.{
  ℕ, zero, suc, ◌+◌, ◌-◌, ◌*◌, Bool, true, false, not, none, some, List, [], ◌∷◌, ◌++◌, ◌==◌,
  if◌then◌else◌, length, get_elem?, set, drop, Text,
}
use computer_networks_course.Approximator.ApproxServer.Framing.{
  next_line, buffer_of, put_buffer, erase_buffer,
}
use computer_networks_course.Approximator.Constants.{Double, hello_wait_time}
use computer_networks_course.Approximator.EventManager.{add_event}
use computer_networks_course.Approximator.MsgParser.Message.{create_message_with_crlf}
use computer_networks_course.Outcome.{Outcome, done, fault, ◌>>=◌, or_fault}
use computer_networks_course.Approximator.ServerLogic.State.{
  Server, hello_timeout, player_of, has_pending_messages, take_next_message_str,
  append_message_front, handle_client_disconnect, register_new_client, validate_client,
}
use computer_networks_course.Approximator.ServerLogic.Handlers.{handle_client_message}

-- struct pollfd. Every socket listens for POLLIN; the fields are POLLOUT of `events`, and POLLHUP,
-- POLLIN | POLLERR and POLLOUT of `revents`.
pub record PollFd : Type 0 where
  pub fd : ℕ
  pub wants_out : Bool
  pub hup : Bool
  pub readable : Bool
  pub writable : Bool

pub record Node (F : Type 0) : Type 0 where
  pub server : Server F
  pub poll_fds : List PollFd
  pub client_buffers : List (ℕ × Text)

-- What `recv` returns: a negative number, 0, or the bytes read.
pub data Received : Type 0 where
  recv_error : Received
  recv_closed : Received
  received : Text → Received

-- What `send` returns: a negative number, or the number of bytes written.
pub data Sent : Type 0 where
  send_error : Sent
  sent : ℕ → Sent

-- `poll_fds.erase(poll_fds.begin() + i)`
unfoldable pub remove_at : List PollFd → ℕ → Outcome (List PollFd)
remove_at [] i = fault
remove_at (p ∷ ps) zero = done ps
remove_at (p ∷ ps) (suc i) = do rest ← remove_at ps i; done (p ∷ rest)

-- The search of the callback of handle_new_connection.
unfoldable pub index_of : ℕ → List PollFd → ℕ
index_of client_fd [] = 0
index_of client_fd (p ∷ ps) =
    let rest = index_of client_fd ps in if p.fd == client_fd then 0 else suc rest

module _ {F : Type 0} where
  -- disconnect_client: the node, and the index that it moves back.
  unfoldable pub disconnect_client : Node F → ℕ → ℕ → Outcome (Node F × ℕ)
  disconnect_client node client_fd i = do
    server ← handle_client_disconnect node.server client_fd
    poll_fds ← remove_at node.poll_fds i
    done (
      record {
        server = server;
        poll_fds = poll_fds;
        client_buffers = erase_buffer client_fd node.client_buffers;
      },
      i - 1,
    )

  -- The callback of handle_new_connection.
  unfoldable pub call_hello_timeout : Node F → ℕ → Text → ℕ → Outcome (Node F)
  call_hello_timeout node client_fd ip port =
      let late = (do
        player ← player_of node.server client_fd
        let i = index_of client_fd node.poll_fds
        let gone = do (node', i') ← disconnect_client node client_fd i; done node'
        if player.is_known then done node else gone) in
      if validate_client node.server client_fd ip port then late else done node

  -- disconnect_client and `return false`.
  abbrev pub report_gone : Node F → ℕ → ℕ → Outcome (Node F × ℕ × Bool)
  report_gone node client_fd i = do
    (node', i') ← disconnect_client node client_fd i
    done (node', i', false)

  -- handle_write_to_client with the result of `send`; `false` for a client that is gone.
  unfoldable pub handle_write_to_client : Sent → Node F → ℕ → Outcome (Node F × ℕ × Bool)
  handle_write_to_client result node i = do
    pollfd ← or_fault (get_elem? node.poll_fds i)
    pending ← has_pending_messages node.server pollfd.fd
    let quiet = record pollfd { wants_out = false }
    let nothing : Outcome (Node F × ℕ × Bool) =
        done (record node { poll_fds = set node.poll_fds i quiet }, i, true)
    let writing = do
      (server, msg_str) ← take_next_message_str node.server pollfd.fd
      let taken = record node { server = server }
      let written : ℕ → Outcome (Node F × ℕ × Bool) = λ n. (do
        server' ← append_message_front server pollfd.fd (drop n msg_str)
        done (record node { server = server' }, i, true))
      let answer : Outcome (Node F × ℕ × Bool) = elim result [
        | send_error ↦ report_gone taken pollfd.fd i
        | sent n ↦
            let part = written n in
            if n == 0
            then report_gone taken pollfd.fd i
            else if length (drop n msg_str) == 0
            then done (taken, i, true)
            else part
      ]
      if length msg_str == 0 then done (taken, i, true) else answer
    if pending then writing else nothing

module _ {F : Type 0} ⦃d : Double F⦄ where
  -- handle_new_connection behind `accept`.
  unfoldable pub handle_new_connection : ℕ → Node F → ℕ → Text → ℕ → Node F
  handle_new_connection now node client_fd ip port =
      let server = register_new_client node.server client_fd ip port in
      let event = hello_timeout client_fd ip port in
      record {
        server = record server {
          events = add_event event (now + hello_wait_time * 1000) server.events;
        };
        poll_fds =
            node.poll_fds
            ++ record {
              fd = client_fd;
              wants_out = false;
              hup = false;
              readable = false;
              writable = false;
            }
              ∷ [];
        client_buffers = put_buffer client_fd [] node.client_buffers;
      }

  -- The parsed message, if there is one, goes to the server.
  unfoldable pub handle_line : ℕ → Server F → ℕ → Text → Outcome (Server F)
  handle_line now server fd msg_str = elim (create_message_with_crlf msg_str) [
    | none ↦ done server
    | some msg ↦ handle_client_message now server fd msg >>= λ r. done r.0
  ]

  -- The loop over the lines of the buffer, for more fuel than the buffer has characters.
  unfoldable pub read_lines : ℕ → ℕ → Node F → ℕ → ℕ → Outcome (Node F × ℕ)
  read_lines zero now node fd i = done (node, i)
  read_lines (suc fuel) now node fd i = elim (next_line (buffer_of fd node.client_buffers)) [
    | none ↦ done (node, i)
    | some (msg_str, rest) ↦ do
      server ← handle_line now node.server fd msg_str
      let node' = record node {
        server = server;
        client_buffers = put_buffer fd rest node.client_buffers;
      }
      player ← player_of server fd
      let gone = disconnect_client node' fd i
      let more = read_lines fuel now node' fd i
      if not player.is_known then gone else if server.stopping then done (node', i) else more
  ]

  -- handle_read_from_client with the result of `recv`; the Boolean is what it returns.
  unfoldable pub handle_read_from_client : ℕ → Received → Node F → ℕ → Outcome (Node F × ℕ × Bool)
  handle_read_from_client now result node i = do
    pollfd ← or_fault (get_elem? node.poll_fds i)
    player ← player_of node.server pollfd.fd
    let gone = report_gone node pollfd.fd i
    let reading : Text → Outcome (Node F × ℕ × Bool) = λ bytes. (do
      let buffer = buffer_of pollfd.fd node.client_buffers ++ bytes
      let node1 = record node { client_buffers = put_buffer pollfd.fd buffer node.client_buffers }
      (node', i') ← read_lines (suc (length buffer)) now node1 pollfd.fd i
      done (node', i', true))
    elim result [ recv_error ↦ gone | recv_closed ↦ gone | received bytes ↦ reading bytes ]
