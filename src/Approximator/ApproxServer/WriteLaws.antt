-- ===== src/Approximator/ApproxServer/WriteLaws.antt =====
-- What handle_write_to_client does with the messages of a client.
use computer_networks_course.Prelude.{
  ℕ, ◌<◌, ◌≡◌, refl, sym, ap, ◌∙◌, ◌≢◌, inl, inr, true, false, some, List, [], ◌∷◌, ◌++◌,
  append_assoc, append-nil, arith, ◌==◌, Bool-cases, length, get_elem?, take, drop,
  take-append-drop, Text,
}
use computer_networks_course.Approximator.ApproxServer.Node.{
  PollFd, Node, sent, handle_write_to_client,
}
use computer_networks_course.Outcome.{Outcome, done, fault}
use computer_networks_course.Approximator.ServerLogic.Players.{
  PlayerInfo, lookup, lookup-assign_self, assign-assign,
}
use computer_networks_course.Approximator.ServerLogic.State.{
  Server, with_player, has_pending_messages, take_next_message_str, append_message_front,
}

-- The bytes of a queue of messages.
abbrev pub concat : List Text → Text
concat [] = []
concat (m ∷ ms) = m ++ concat ms

length-zero : (s : Text) → (length s == 0) ≡ true → s ≡ []
length-zero [] h = refl
length-zero (c ∷ s) h = absurd (ground arith)

length-cons : (s : Text) → s ≢ [] → (length s == 0) ≡ false
length-cons [] n = absurd (n refl)
length-cons (c ∷ s) n = ground arith

module _ {F : Type 0} where
  pending_lem :
      (s : Server F) (fd : ℕ) (p : PlayerInfo F) (m : Text) (ms : List Text)
      → lookup fd s.players ≡ some p
      → p.messages ≡ m ∷ ms
      → has_pending_messages s fd ≡ done true
  unfolding has_pending_messages
  pending_lem s fd p m ms e em = rw e (ap (λ x. done (elim x [ [] ↦ false | m ∷ ms ↦ true ])) em)

  take_next_lem :
      (s : Server F) (fd : ℕ) (p : PlayerInfo F) (m : Text) (ms : List Text)
      → lookup fd s.players ≡ some p
      → p.messages ≡ m ∷ ms
      → take_next_message_str s fd ≡ done (with_player s fd (record p { messages = ms }), m)
  unfolding take_next_message_str
  take_next_lem s fd p m ms e em = rw e (
      ap
        (λ x. elim x as (λ _. Outcome (Server F × Text)) [
          | [] ↦ fault
          | m ∷ ms ↦ done (with_player s fd (record p { messages = ms }), m)
        ])
        em)

  append_front_lem :
      (s : Server F) (fd : ℕ) (p : PlayerInfo F) (msg : Text)
      → append_message_front (with_player s fd p) fd msg
        ≡ done (with_player s fd (record p { messages = msg ∷ p.messages }))
  unfolding append_message_front
  append_front_lem s fd p msg = rw (lookup-assign_self fd p s.players) (rw assign-assign)

  -- When `send` takes the first n > 0 bytes of the first message, which is not empty, the client
  -- stays connected, and the bytes sent and the bytes still queued for the client are together the
  -- bytes queued before, in that order.
  pub handle_write_to_client-conserves :
      (node : Node F) (i n : ℕ) (pollfd : PollFd) (p : PlayerInfo F) (m : Text) (ms : List Text)
      → get_elem? node.poll_fds i ≡ some pollfd
      → lookup pollfd.fd node.server.players ≡ some p
      → p.messages ≡ m ∷ ms
      → m ≢ []
      → 0 < n
      → (node' : Node F) × (q : PlayerInfo F) × (handle_write_to_client (sent n) node i
          ≡ done (node', i, true))
        × (lookup pollfd.fd node'.server.players ≡ some q)
        × (take n m ++ concat q.messages ≡ concat p.messages)
  unfolding handle_write_to_client
  handle_write_to_client-conserves node i n pollfd p m ms ei e em full sending =
      let pending = pending_lem node.server pollfd.fd p m ms e em in
      let taken = take_next_lem node.server pollfd.fd p m ms e em in
      let not_none : (n == 0) ≡ false = ground arith in
      elim (Bool-cases (length (drop n m) == 0)) [
        | inl all ↦ (
          record node { server = with_player node.server pollfd.fd (record p { messages = ms }) },
          record p { messages = ms },
          rw (ei, pending, taken, length-cons m full, not_none, all),
          lookup-assign_self pollfd.fd _ node.server.players,
          ap (λ x. x ++ concat ms) (whole (length-zero (drop n m) all)) ∙ sym (ap concat em),
        )
        | inr part ↦ (
          record node {
            server = with_player node.server pollfd.fd (record p { messages = drop n m ∷ ms });
          },
          record p { messages = drop n m ∷ ms },
          rw (
            ei,
            pending,
            taken,
            length-cons m full,
            not_none,
            part,
            append_front_lem node.server pollfd.fd (record p { messages = ms }) (drop n m),
          ),
          lookup-assign_self pollfd.fd _ node.server.players,
          sym (append_assoc (take n m) (drop n m) (concat ms))
              ∙ ap (λ x. x ++ concat ms) (take-append-drop n m)
              ∙ sym (ap concat em),
        )
      ]
    where
      whole : drop n m ≡ [] → take n m ≡ m
      whole h = sym (append-nil (take n m)) ∙ ap (◌++◌ (take n m)) (sym h) ∙ take-append-drop n m
