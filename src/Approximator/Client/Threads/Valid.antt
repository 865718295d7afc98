-- ===== src/Approximator/Client/Threads/Valid.antt =====
-- A valid state of the client and its threads, and the turns that keep it but that of the strategy.
use computer_networks_course.Prelude.{
  ℕ, ◌≤◌, ◌≡◌, refl, ◌∙◌, inl, inr, Bool, true, false, List, [], ◌∷◌, arith, if_true, if_false,
  Bool-cases, Option-cases, All, Text,
}
use computer_networks_course.Outcome.{
  Outcome, done, fatal, fault, Ensures, returns, exits, Ensures-bind, Ensures-map, unless,
}
use computer_networks_course.Approximator.Constants.{Double, max_k}
use computer_networks_course.Approximator.MsgParser.Message.{Message}
use computer_networks_course.Approximator.MsgParser.Printer.Scoring.{IsId}
use computer_networks_course.Approximator.Client.Queue.{try_pop_for}
use computer_networks_course.Approximator.Client.State.{
  Client, new_client, register_connection, log_stdout,
}
use computer_networks_course.Approximator.Client.Strategy.{
  Phase, waiting, incrementing, choosing, sending,
}
use computer_networks_course.Approximator.Client.Network.{
  Receive, Write, wrote, write_timeout, write_error, write_some,
}
use computer_networks_course.Approximator.Client.Processor.{process_next, message_processor}
use computer_networks_course.Approximator.Client.Processor.Sound.{
  Sound, Computable, IsClient, Prepared,
}
use computer_networks_course.Approximator.Client.Processor.Safety.{process_message-Processed}
use computer_networks_course.Approximator.Client.Threads.{
  System, Turn, greeting, processing, printing, choosing_put, receiving, writing, greet,
  log_printer, take_outgoing, send_from, receiver_turn, processor_turn, turn, start,
}
use computer_networks_course.Approximator.Client.Threads.Kept.{
  Kept, Prepared-same, Kept-logs, next_outgoing-Kept, send_hello-Kept, network_receiver-Kept,
}

module _ {F : Type 0} where
  -- The automatic strategy leaves its wait behind the first message only, and its point is one of
  -- the game.
  abbrev pub InPhase : Phase F → Bool → Type 0
  InPhase waiting is_first_message = Unit
  InPhase incrementing is_first_message = is_first_message ≡ false
  InPhase choosing is_first_message = is_first_message ≡ false
  InPhase (sending point value) is_first_message = (is_first_message ≡ false) × (point ≤ max_k)

  InPhase-later : (ph : Phase F) (b b' : Bool) → b' ≡ false → InPhase ph b → InPhase ph b'
  InPhase-later waiting b b' e p = tt
  InPhase-later incrementing b b' e p = e
  InPhase-later choosing b b' e p = e
  InPhase-later (sending point value) b b' e p = (e, p.1)

  abbrev HeadComputable : Client F → List (Message F) → Type 0
  HeadComputable c [] = Unit
  HeadComputable c (msg ∷ rest) = Computable c msg.body

  -- The powers of the next message fit an `int`, where a turn processes it.
  abbrev pub TurnComputable : Turn → System F → Type 0
  TurnComputable greeting s = Unit
  TurnComputable processing s = HeadComputable s.client s.client.incoming_messages
  TurnComputable printing s = Unit
  TurnComputable (choosing_put input) s = Unit
  TurnComputable (receiving result) s = Unit
  TurnComputable (writing w) s = Unit

pub record IsValid {F : Type 0} ⦃d : Double F⦄ (s : System F) : Type 0 where
  pub client : IsClient s.client
  pub ready : s.progress.is_first_message ≡ false → Prepared s.client
  pub fresh :
      s.progress.is_first_message ≡ true
      → (s.client.k_set ≡ false) × (s.client.puts_without_answer ≡ 1)
  pub phase : InPhase s.phase s.progress.is_first_message

module _ {F : Type 0} ⦃d : Double F⦄ where
  -- A turn that keeps the client, and leaves the processor and the strategy alone.
  pub IsValid-Kept :
      (s s' : System F)
      → IsValid s
      → Kept s.client s'.client
      → s'.progress ≡ s.progress
      → s'.phase ≡ s.phase
      → IsValid s'
  IsValid-Kept s s' v k p e = record {
    client = k.0;
    ready = λ f. Prepared-same s.client s'.client k.1 (v.ready (rw p at f));
    fresh = λ f. let old = v.fresh (rw p at f) in (k.1.1 ∙ old.0, k.1.6 ∙ old.1);
    phase = rw (e, p) v.phase;
  }

  pub greet-IsValid : (s : System F) → IsValid s → IsValid (greet s)
  unfolding greet
  greet-IsValid s v = elim (Bool-cases s.greeted) [
    | inl g ↦ rw (if_true _ _ g) v
    | inr g ↦ rw (if_false _ _ g) (IsValid-Kept s _ v (send_hello-Kept s.client v.client) refl refl)
  ]

  pub log_printer-IsValid : (s : System F) → IsValid s → IsValid (log_printer s)
  unfolding log_printer
  log_printer-IsValid s v = elim (Option-cases (try_pop_for s.client.logs)) [
    | inl e ↦ rw (e, log_printer) v
    | inr (x, e) ↦
        rw (e, log_printer) (IsValid-Kept s _ v (Kept-logs s.client x.1 v.client) refl refl)
  ]

  write_some-returns :
      (w : Write) (c : Client F) (left : Text) → Ensures (λ l. Unit {0}) (write_some w c left)
  unfolding write_some
  write_some-returns (wrote n) c left = returns tt
  write_some-returns write_timeout c left = unless c.game_over (λ g. returns tt) (λ g. exits)
  write_some-returns write_error c left = exits

  take_outgoing-IsValid : (s : System F) → IsValid s → Ensures IsValid (take_outgoing s)
  unfolding take_outgoing
  take_outgoing-IsValid s v =
      Ensures-bind (next_outgoing-Kept s.client v.client)
        (λ r k. returns (IsValid-Kept s _ v k refl refl))

  pub send_from-IsValid :
      (unsent : Text) (w : Write) (s : System F)
      → IsValid s
      → Ensures IsValid (send_from unsent w s)
  unfolding send_from
  send_from-IsValid [] w s v =
      unless s.client.game_over (λ g. returns v) (λ g. take_outgoing-IsValid s v)
  send_from-IsValid (x ∷ left) w s v =
      Ensures-bind (write_some-returns w s.client (x ∷ left))
        (λ l u. returns (IsValid-Kept s _ v (Kept-logs s.client s.client.logs v.client) refl refl))

  pub receiver_turn-IsValid :
      (result : Receive) (s : System F) → IsValid s → Ensures IsValid (receiver_turn result s)
  unfolding receiver_turn
  receiver_turn-IsValid result s v =
      unless s.client.game_over (λ g. returns v)
        λ g.
          Ensures-bind (network_receiver-Kept result s.receiver s.client v.client)
            (λ r k. returns (IsValid-Kept s _ v k refl refl))

  next-IsValid :
      (msgs : List (Message F)) (s : System F)
      → IsValid s
      → All (λ m. Sound m.body) msgs
      → HeadComputable s.client msgs
      → Ensures
          (λ r. IsValid (record s { progress = r.0; client = r.1 }))
          (process_next (try_pop_for msgs) s.progress s.client)
  unfolding process_next try_pop_for
  next-IsValid [] s v a k = returns v
  next-IsValid (msg ∷ rest) s v a k =
      Ensures-map
        (λ r h. record {
          client = h.1.0;
          ready = λ f. h.1.1;
          fresh = λ f. cc (f, h.0);
          phase = InPhase-later s.phase _ _ h.0 v.phase;
        })
        (process_message-Processed msg s.progress (record s.client { incoming_messages = rest })
          (record {
            named = v.client.named;
            outgoing = v.client.outgoing;
            incoming = a.1;
            few = v.client.few;
          })
          a.0 (λ f. (v.fresh f).0) (λ f. (v.ready f, k)))

  pub processor_turn-IsValid :
      (s : System F) → IsValid s → TurnComputable processing s → Ensures IsValid (processor_turn s)
  unfolding processor_turn message_processor
  processor_turn-IsValid s v k =
      unless s.client.game_over (λ g. returns v)
        λ g.
          Ensures-bind (next-IsValid s.client.incoming_messages s v v.client.incoming k)
            (λ r h. returns h)

  -- The powers fit at each turn of a run.
  abbrev pub Behind : Outcome (System F) → (System F → Type 0) → Type 0
  Behind (done s) P = P s
  Behind fatal P = Unit
  Behind fault P = Unit

  abbrev pub RunComputable : List Turn → System F → Type 0
  RunComputable [] s = Unit
  RunComputable (t ∷ ts) s = TurnComputable t s × Behind (turn t s) (RunComputable ts)

  pub start-IsValid :
      (n : ℕ) (player_id : Text) (auto : Bool) (server_ip : Text) (server_port : ℕ)
      → IsId player_id
      → IsValid (start {F = F} n player_id auto server_ip server_port)
  unfolding start new_client register_connection log_stdout
  start-IsValid n player_id auto server_ip server_port named = record {
    client = record { named = named; outgoing = tt; incoming = tt; few = omega arith };
    ready = λ f. cc f;
    fresh = λ f. (refl, refl);
    phase = tt;
  }
