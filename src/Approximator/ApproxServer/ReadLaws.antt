-- ===== src/Approximator/ApproxServer/ReadLaws.antt =====
-- What handle_read_from_client does: its loop, and a client that speaks before HELLO.
use computer_networks_course.Prelude.{
  ℕ, zero, suc, ◌-◌, ◌<◌, ◌≡◌, refl, ap, ◌∙◌, inl, inr, Bool, true, false, not, Option, none, some,
  List, [], ◌∷◌, ◌++◌, arith, if◌then◌else◌, ==-refl, Option-cases, length, get_elem?, Text,
}
use computer_networks_course.Approximator.ApproxServer.Framing.{
  next_line, buffer_of, put_buffer, erase_buffer, length-next_line,
}
use computer_networks_course.Approximator.ApproxServer.Node.{
  PollFd, Node, received, remove_at, disconnect_client, handle_line, read_lines,
  handle_read_from_client,
}
use computer_networks_course.Approximator.Constants.{Double}
use computer_networks_course.Approximator.MsgParser.Message.{
  Message, Body, hello, put, coeff, bad_put, penalty, state, scoring, create_message_with_crlf,
}
use computer_networks_course.Outcome.{Outcome, done, fatal, fault, ◌>>=◌, or_fault}
use computer_networks_course.Approximator.ServerLogic.Players.{
  PlayerInfo, lookup, erase, lookup-erase,
}
use computer_networks_course.Approximator.ServerLogic.State.{Server, handle_client_disconnect}
use computer_networks_course.Approximator.ServerLogic.Handlers.{
  handle_hello, handle_put, handle_client_message,
}
use computer_networks_course.Approximator.ServerLogic.Invariant.{IsValid}
use computer_networks_course.Approximator.ServerLogic.PutBehaviour.{put_unknown}

buffer_of-put_buffer :
    (fd : ℕ) (b : Text) (bs : List (ℕ × Text)) → buffer_of fd (put_buffer fd b bs) ≡ b
unfolding buffer_of put_buffer
buffer_of-put_buffer fd b [] = ground arith
buffer_of-put_buffer fd b ((k, a) ∷ bs) = ground (arith, buffer_of-put_buffer fd b bs)

-- A message that is not HELLO.
abbrev pub is_hello : {F : Type 0} → Body F → Bool
is_hello (hello player_id) = true
is_hello b = false

abbrev pub no_hello : {F : Type 0} → Option (Message F) → Bool
no_hello none = true
no_hello (some msg) = not (is_hello msg.body)

remove_at-some :
    (ps : List PollFd) (i : ℕ) (p : PollFd)
    → get_elem? ps i ≡ some p
    → (qs : List PollFd) × (remove_at ps i ≡ done qs)
unfolding remove_at
remove_at-some [] i p h = cc
remove_at-some (q ∷ ps) zero p h = (ps, refl)
remove_at-some (q ∷ ps) (suc i) p h = let (qs, e) = remove_at-some ps i p h in (q ∷ qs, rw e)

module _ {F : Type 0} ⦃d : Double F⦄ where
  -- The node after a line, when the server has handled it.
  abbrev with_line : Node F → ℕ → Text → Server F → Node F
  with_line node fd rest server = record node {
    server = server;
    client_buffers = put_buffer fd rest node.client_buffers;
  }

  -- A turn of the loop behind handle_line, with `more` for the other turns.
  abbrev behind_line :
      Node F → ℕ → ℕ → Text → (Server F → Outcome (Node F × ℕ)) → Server F → Outcome (Node F × ℕ)
  behind_line node fd i rest more server = or_fault (lookup fd server.players) >>= λ player.
      if not player.is_known
      then disconnect_client (with_line node fd rest server) fd i
      else if server.stopping
      then done (with_line node fd rest server, i)
      else more server

  same_turn :
      (node : Node F) (fd i : ℕ) (rest : Text) (x y : Server F → Outcome (Node F × ℕ))
      → ((server : Server F) → x server ≡ y server)
      → (m : Outcome (Server F))
      → (m >>= behind_line node fd i rest x) ≡ (m >>= behind_line node fd i rest y)
  same_turn node fd i rest x y h (done server) =
      ap
        (λ z. or_fault (lookup fd server.players) >>= λ player.
          if not player.is_known
          then disconnect_client (with_line node fd rest server) fd i
          else if server.stopping
          then done (with_line node fd rest server, i)
          else z)
        (h server)
  same_turn node fd i rest x y h fatal = refl
  same_turn node fd i rest x y h fault = refl

  -- The loop over the lines of a buffer takes no more turns than the buffer has characters: any two
  -- amounts of fuel above that give the same result.
  pub read_lines-enough :
      (f g now : ℕ) (node : Node F) (fd i : ℕ)
      → length (buffer_of fd node.client_buffers) < f
      → length (buffer_of fd node.client_buffers) < g
      → read_lines f now node fd i ≡ read_lines g now node fd i
  unfolding read_lines
  read_lines-enough zero g now node fd i hf hg = absurd (omega arith)
  read_lines-enough (suc f) zero now node fd i hf hg = absurd (omega arith)
  read_lines-enough (suc f) (suc g) now node fd i hf hg =
      elim (Option-cases (next_line (buffer_of fd node.client_buffers))) [
        | inl e ↦ rw (e, read_lines)
        | inr ((line, rest), e) ↦
            rw (e, read_lines)
              (same_turn node fd i rest _ _
                (λ server.
                  read_lines-enough f g now (with_line node fd rest server) fd i
                    (shorter f line rest hf e) (shorter g line rest hg e))
                (handle_line now node.server fd line))
      ]
    where
      shorter :
          (fuel : ℕ) (line rest : Text)
          → length (buffer_of fd node.client_buffers) < suc fuel
          → next_line (buffer_of fd node.client_buffers) ≡ some (line, rest)
          → length (buffer_of fd (put_buffer fd rest node.client_buffers)) < fuel
      shorter fuel line rest h e =
          let lt = length-next_line (buffer_of fd node.client_buffers) line rest e in
          rw (buffer_of-put_buffer fd rest node.client_buffers) (omega arith)

  -- What an unknown client says before HELLO changes nothing.
  unheard :
      (now : ℕ) (s : Server F) (fd : ℕ) (p : PlayerInfo F) (line : Text)
      → lookup fd s.players ≡ some p
      → p.is_known ≡ false
      → no_hello {F = F} (create_message_with_crlf line) ≡ true
      → handle_line now s fd line ≡ done s
  unfolding handle_line handle_client_message
  unheard now s fd p line e un quiet = elim (Option-cases (create_message_with_crlf {F = F} line)) [
    | inl none_read ↦ rw (handle_line, none_read)
    | inr (msg, read) ↦
        let other : not (is_hello msg.body) ≡ true = rw read at quiet in
        rw (handle_line, read, handle_client_message, e) (by_body msg.body other)
  ]
    where
      by_body :
          (b : Body F)
          → not (is_hello b) ≡ true
          → ((elim b [
            | hello player_id ↦ handle_hello s fd player_id
            | put point value ↦ handle_put now s fd point value
            | _ ↦ done (s, false)
          ])
              >>= λ r. done r.0)
            ≡ done s
      by_body (hello i) h = cc
      by_body (put z w) h = rw (put_unknown now s fd p z w e un)
      by_body (coeff cs) h = refl
      by_body (bad_put z w) h = refl
      by_body (penalty z w) h = refl
      by_body (state vs) h = refl
      by_body (scoring is vs) h = refl

  -- A client of a valid server that is not known yet and whose first line is not a HELLO is
  -- disconnected: its player is gone, the index moves back, and the function nevertheless returns
  -- `true`.
  pub handle_read_from_client-unheard :
      (now : ℕ) (bytes : Text) (node : Node F) (i : ℕ) (pollfd : PollFd) (p : PlayerInfo F)
      (line rest : Text)
      → get_elem? node.poll_fds i ≡ some pollfd
      → lookup pollfd.fd node.server.players ≡ some p
      → p.is_known ≡ false
      → next_line (buffer_of pollfd.fd node.client_buffers ++ bytes) ≡ some (line, rest)
      → no_hello {F = F} (create_message_with_crlf line) ≡ true
      → IsValid node.server
      → (node' : Node F) × (handle_read_from_client now (received bytes) node i
          ≡ done (node', i - 1, true))
        × (lookup pollfd.fd node'.server.players ≡ none)
  unfolding handle_read_from_client read_lines disconnect_client handle_client_disconnect
  handle_read_from_client-unheard now bytes node i pollfd p line rest ei e un el quiet v =
      let (qs, eq) = remove_at-some node.poll_fds i pollfd ei in
      let buffer = buffer_of pollfd.fd node.client_buffers ++ bytes in
      let node' : Node F = record {
        server = record node.server {
          total_correct_puts = node.server.total_correct_puts - p.correct_puts;
          players = erase pollfd.fd node.server.players;
        };
        poll_fds = qs;
        client_buffers =
            erase_buffer pollfd.fd
              (put_buffer pollfd.fd rest (put_buffer pollfd.fd buffer node.client_buffers));
      } in
      (
        node',
        rw (
          ei,
          e,
          read_lines,
          buffer_of-put_buffer pollfd.fd buffer node.client_buffers,
          el,
          unheard now node.server pollfd.fd p line e un quiet,
          e,
          un,
          eq,
        ),
        lookup-erase pollfd.fd pollfd.fd 0 node.server.players v.ordered ∙ rw (==-refl pollfd.fd),
      )
