-- ===== src/Approximator/Client/Threads/Balance.antt =====
-- The puts and the answers of an automatic client, over any order of the turns of its threads.
use computer_networks_course.Prelude.{
  ℕ, zero, suc, ◌+◌, ◌≤◌, ◌≡◌, refl, ◌∙◌, inl, inr, Bool, true, false, ◌&&◌, not, Option, none,
  some, List, [], ◌∷◌, ◌++◌, arith, if◌then◌else◌, if_true, if_false, Bool-cases, Option-cases,
  Text,
}
use computer_networks_course.Outcome.{
  or_fault, Yields, yields, on_fatal, Yields-bind, Yields-behind, Yields-if, Yields-map,
}
use computer_networks_course.Approximator.ApproxServer.Framing.{next_line}
use computer_networks_course.Approximator.Constants.{Double, crlf}
use computer_networks_course.Approximator.MsgParser.Message.{Message, create_message}
use computer_networks_course.Approximator.Client.Queue.{try_pop_for}
use computer_networks_course.Approximator.Client.State.{Client, log_stderr, send_hello_message}
use computer_networks_course.Approximator.Client.Strategy.{
  Phase, waiting, incrementing, choosing, sending,
}
use computer_networks_course.Approximator.Client.Network.{
  Receive, recv_error, recv_timeout, recv_closed, recv_bytes, Receiver, Write, receive_line,
  receive_lines, receive_bytes, network_receiver, take_entry, next_outgoing, write_some,
}
use computer_networks_course.Approximator.Client.Processor.Laws.{one_if, is_answer}
use computer_networks_course.Approximator.Client.Threads.{
  System, Turn, greeting, processing, printing, choosing_put, receiving, writing, greet,
  log_printer, take_outgoing, send_from, network_sender, receiver_turn,
}

module _ {F : Type 0} where
  -- Whether the message at the front is an answer to a put.
  abbrev pub answers_first : Bool → List (Message F) → ℕ
  answers_first is_first_message [] = 0
  answers_first is_first_message (msg ∷ rest) = one_if (not is_first_message && is_answer msg.body)

  -- Whether a turn of the processor takes an answer to a put.
  unfoldable pub answered : Turn → System F → ℕ
  answered greeting s = 0
  answered processing s =
      if s.client.game_over
      then 0
      else answers_first s.progress.is_first_message s.client.incoming_messages
  answered printing s = 0
  answered (choosing_put input) s = 0
  answered (receiving result) s = 0
  answered (writing w) s = 0

  abbrev pub is_sending : Phase F → ℕ
  is_sending waiting = 0
  is_sending incrementing = 0
  is_sending choosing = 0
  is_sending (sending point value) = 1

  -- Whether a turn of the automatic strategy makes a PUT.
  unfoldable pub put_made : Turn → System F → ℕ
  put_made greeting s = 0
  put_made processing s = 0
  put_made printing s = 0
  put_made (choosing_put input) s = is_sending s.phase
  put_made (receiving result) s = 0
  put_made (writing w) s = 0

  -- Puts that are counted and not made yet.
  abbrev pub busy : Phase F → ℕ
  busy waiting = 0
  busy incrementing = 0
  busy choosing = 1
  busy (sending point value) = 1

  abbrev pub Free : Phase F → ℕ → Type 0
  Free waiting n = Unit
  Free incrementing n = n ≡ 0
  Free choosing n = Unit
  Free (sending point value) n = Unit

  -- What holds of an automatic client behind `a` answers and `p` puts.
  pub record Balanced (a p : ℕ) (s : System F) : Type 0 where
    pub kind : s.client.is_auto_strategy ≡ true
    pub few : s.client.puts_without_answer ≤ 1
    pub free : Free s.phase s.client.puts_without_answer
    pub balance :
        p + busy s.phase + 1
        ≤ s.client.puts_without_answer + a + one_if (not s.progress.is_first_message)
    pub quiet : s.progress.is_first_message ≡ true → a ≡ 0

  pub Free-down : (ph : Phase F) (n m : ℕ) → m ≤ n → Free ph n → Free ph m
  Free-down waiting n m h f = tt
  Free-down incrementing n m h f = omega arith
  Free-down choosing n m h f = tt
  Free-down (sending point value) n m h f = tt

  -- What the other threads leave alone.
  abbrev pub Steady : Client F → Client F → Type 0
  Steady c c' =
      (c'.puts_without_answer ≡ c.puts_without_answer) × (c'.is_auto_strategy ≡ c.is_auto_strategy)

  abbrev pub SteadySystem : System F → System F → Type 0
  SteadySystem s s' = Steady s.client s'.client × (s'.phase ≡ s.phase) × (s'.progress ≡ s.progress)

  pub Balanced-eq : {a b p q : ℕ} {s : System F} → a ≡ b → p ≡ q → Balanced a p s → Balanced b q s
  Balanced-eq e f h = rw (← e, ← f) h

  pub Balanced-steady :
      {a p : ℕ} (s s' : System F) → Balanced a p s → SteadySystem s s' → Balanced a p s'
  Balanced-steady {a} {p} s s' b h = record {
    kind = h.0.1 ∙ b.kind;
    few = rw h.0.0 b.few;
    free = rw (h.0.0, h.1) b.free;
    balance = rw (h.0.0, h.1, h.2) b.balance;
    quiet = rw h.2 b.quiet;
  }

  pub Balanced-greet :
      ⦃d : Double F⦄ {a p : ℕ} (s : System F) → Balanced a p s → Balanced a p (greet s)
  unfolding greet send_hello_message
  Balanced-greet s b = elim (Bool-cases s.greeted) [
    | inl g ↦ rw (if_true _ _ g) b
    | inr g ↦ rw (if_false _ _ g) (Balanced-steady s _ b ((refl, refl), refl, refl))
  ]

  pub Balanced-log_printer :
      {a p : ℕ} (s : System F) → Balanced a p s → Balanced a p (log_printer s)
  unfolding log_printer
  Balanced-log_printer s b = elim (Option-cases (try_pop_for s.client.logs)) [
    | inl e ↦ rw (e, log_printer) b
    | inr (x, e) ↦ rw (e, log_printer) (Balanced-steady s _ b ((refl, refl), refl, refl))
  ]

  Steady-take_entry :
      (o : Option (Option (Message F) × List (Option (Message F)))) (c : Client F)
      → Yields (λ r. Steady c r.1) (take_entry o c)
  unfolding take_entry
  Steady-take_entry none c = yields (refl, refl)
  Steady-take_entry (some (entry, rest)) c =
      Yields-behind (or_fault entry) (λ m. yields (refl, refl))

  Balanced-take_outgoing :
      {a p : ℕ} (s : System F) → Balanced a p s → Yields (Balanced a p) (take_outgoing s)
  unfolding take_outgoing next_outgoing
  Balanced-take_outgoing s b =
      Yields-bind (λ r. Steady s.client r.1)
        (Steady-take_entry (try_pop_for s.client.outgoing_messages) s.client)
        (λ r h. yields (Balanced-steady s _ b (h, refl, refl)))

  Balanced-send_from :
      {a p : ℕ} (unsent : Text) (w : Write) (s : System F)
      → Balanced a p s
      → Yields (Balanced a p) (send_from unsent w s)
  unfolding send_from
  Balanced-send_from [] w s b =
      Yields-if s.client.game_over (λ g. yields b) (λ g. Balanced-take_outgoing s b)
  Balanced-send_from (x ∷ left) w s b =
      Yields-behind (write_some w s.client (x ∷ left))
        (λ l. yields (Balanced-steady s _ b ((refl, refl), refl, refl)))

  pub Balanced-sender :
      {a p : ℕ} (w : Write) (s : System F)
      → Balanced a p s
      → Yields (Balanced a p) (network_sender w s)
  unfolding network_sender
  Balanced-sender w s b = Balanced-send_from s.unsent w s b

module _ {F : Type 0} ⦃d : Double F⦄ where
  Steady-line :
      (first : Bool) (line : Text) (c : Client F) → Yields (Steady c) (receive_line first line c)
  unfolding receive_line log_stderr
  Steady-line first line c = elim (Option-cases (create_message {F = F} (line ++ crlf))) [
    | inl e ↦ rw (e, receive_line) (Yields-if first (λ f. on_fatal) (λ f. yields (refl, refl)))
    | inr (msg, e) ↦ rw (e, receive_line) (yields (refl, refl))
  ]

  Steady-lines :
      (fuel : ℕ) (r : Receiver) (c : Client F) → Yields (λ x. Steady c x.1) (receive_lines fuel r c)
  unfolding receive_lines
  Steady-lines zero r c = yields (refl, refl)
  Steady-lines (suc fuel) r c = elim (Option-cases (next_line r.recv_buffer)) [
    | inl e ↦ rw (e, receive_lines) (yields (refl, refl))
    | inr ((line, rest), e) ↦
        rw (e, receive_lines)
          (Yields-bind (Steady c) (Steady-line r.is_first_message line c) (λ c' h.
            Yields-map (λ x k. (k.0 ∙ h.0, k.1 ∙ h.1))
              (Steady-lines fuel (record { recv_buffer = rest; is_first_message = false }) c')))
  ]

  Steady-receiver :
      (result : Receive) (r : Receiver) (c : Client F)
      → Yields (λ x. Steady c x.1) (network_receiver result r c)
  unfolding network_receiver receive_bytes
  Steady-receiver recv_error r c = on_fatal
  Steady-receiver recv_timeout r c = yields (refl, refl)
  Steady-receiver recv_closed r c = yields (refl, refl)
  Steady-receiver (recv_bytes bytes) r c = Steady-lines _ _ c

  pub Balanced-receiver :
      {a p : ℕ} (result : Receive) (s : System F)
      → Balanced a p s
      → Yields (Balanced a p) (receiver_turn result s)
  unfolding receiver_turn
  Balanced-receiver result s b =
      Yields-if s.client.game_over (λ g. yields b)
        λ g.
          Yields-bind (λ x. Steady s.client x.1) (Steady-receiver result s.receiver s.client)
            λ x h. yields (Balanced-steady s _ b (h, refl, refl))
