-- ===== src/Approximator/Client/Joining/Laws.antt =====
-- The steps behind the end of the game come to no fault, in any order.
use computer_networks_course.Prelude.{
  ◌≡◌, refl, sym, ap, ◌∙◌, inl, inr, Bool, true, false, List, [], ◌∷◌, if◌then◌else◌, if_true,
  if_false, Bool-cases, Option-cases, Text,
}
use computer_networks_course.Outcome.{
  Ensures, returns, exits, Ensures-bind, Ensures-Yields, unless, Yields, yields, Yields-if,
  Yields-behind,
}
use computer_networks_course.Approximator.Constants.{Double}
use computer_networks_course.Approximator.MsgParser.Printer.Laws.{Printable}
use computer_networks_course.Approximator.Client.Strategy.Maximum.{Order}
use computer_networks_course.Approximator.Client.State.{log_stderr}
use computer_networks_course.Approximator.Client.Network.{
  Receiver, Write, receiver_end, next_outgoing, write_some,
}
use computer_networks_course.Approximator.Client.Queue.{try_pop_for}
use computer_networks_course.Approximator.Client.Strategy.{Input, manual_strategy, auto_strategy}
use computer_networks_course.Approximator.Client.Processor.{Progress, processor_end}
use computer_networks_course.Approximator.Client.Threads.{
  System, Turn, greeting, printing, choosing_put, writing, turn, greet, log_printer, take_outgoing,
  send_from, network_sender, strategy_turn,
}
use computer_networks_course.Approximator.Client.Threads.Kept.{Kept, Kept-logs}
use computer_networks_course.Approximator.Client.Threads.Valid.{
  IsValid, IsValid-Kept, TurnComputable,
}
use computer_networks_course.Approximator.Client.Threads.Safety.{turn-IsValid}
use computer_networks_course.Approximator.Client.Processor.Sound.{IsClient}
use computer_networks_course.Approximator.Client.State.{Client}
use computer_networks_course.Approximator.Client.Joining.{
  Thread, log_thread, strategy_thread, network_receiver_thread, network_sender_thread,
  message_processor_thread, Closing, late_greeting, late_printing, late_put, late_writing, ending,
  Running, log_printer_end, end_thread, runs, late_turn, join_step, join_threads,
}

processor_end-scoring : (p : Progress) → Ensures (λ u. p.scoring_received ≡ true) (processor_end p)
unfolding processor_end
processor_end-scoring p = unless p.scoring_received (λ e. returns e) (λ e. exits)

module _ {F : Type 0} ⦃d : Double F⦄ where
  -- A valid client whose processor has got SCORING if it has ended.
  abbrev pub IsClosing : System F × Running → Type 0
  IsClosing (s, r) = IsValid s × (r.message_processor ≡ false → s.progress.scoring_received ≡ true)

  receiver_end-Kept : (r : Receiver) (c : Client F) → IsClient c → Kept c (receiver_end r c)
  receiver_end-Kept r c v = left_over r.recv_buffer
    where
      left_over : (text : Text) → Kept c (receiver_end (record r { recv_buffer = text }) c)
      left_over [] = unfold receiver_end in Kept-logs c c.logs v
      left_over (x ∷ s) = unfold receiver_end log_stderr in Kept-logs c _ v

  -- Another thread than the processor may end.
  may_end :
      (b : Bool) (s : System F) (r r' : Running)
      → r'.message_processor ≡ r.message_processor
      → IsClosing (s, r)
      → IsClosing (s, (if b then r' else r))
  may_end true s r r' e h = (h.0, λ f. h.1 (sym e ∙ f))
  may_end false s r r' e h = h

  end_thread-IsClosing :
      (t : Thread) (x : System F × Running) → IsClosing x → Ensures IsClosing (end_thread t x)
  unfolding end_thread log_printer_end
  end_thread-IsClosing log_thread (s, r) h =
      returns (IsValid-Kept s _ h.0 (Kept-logs s.client [] h.0.client) refl refl, h.1)
  end_thread-IsClosing strategy_thread (s, r) h = returns (may_end _ s r _ refl h)
  end_thread-IsClosing network_receiver_thread (s, r) h =
      returns
        (IsValid-Kept s _ h.0 (receiver_end-Kept s.receiver s.client h.0.client) refl refl, h.1)
  end_thread-IsClosing network_sender_thread (s, r) h = returns (may_end _ s r _ refl h)
  end_thread-IsClosing message_processor_thread (s, r) h =
      Ensures-bind (processor_end-scoring s.progress) (λ u e. returns (h.0, λ f. e))

  -- The turn leaves the processor alone.
  abbrev Apart : System F → System F → Type 0
  Apart s s' = s'.progress ≡ s.progress

  greet-Apart : (s : System F) → Yields (Apart s) (turn greeting s)
  unfolding turn greet
  greet-Apart s = elim (Bool-cases s.greeted) [
    | inl g ↦ rw (if_true _ _ g) (yields refl)
    | inr g ↦ rw (if_false _ _ g) (yields refl)
  ]

  print-Apart : (s : System F) → Yields (Apart s) (turn printing s)
  unfolding turn log_printer
  print-Apart s = elim (Option-cases (try_pop_for s.client.logs)) [
    | inl e ↦ rw (e, log_printer) (yields refl)
    | inr (x, e) ↦ rw (e, log_printer) (yields refl)
  ]

  put-Apart : (input : Input) (s : System F) → Yields (Apart s) (turn (choosing_put input) s)
  unfolding turn strategy_turn
  put-Apart input s =
      Yields-if s.client.is_auto_strategy
        (λ a. Yields-behind (auto_strategy s.phase s.client) (λ r. yields refl))
        (λ m.
          Yields-if s.client.game_over (λ g. yields refl)
            (λ g. Yields-behind (manual_strategy input s.input_buffer s.client) (λ r. yields refl)))

  send-Apart : (w : Write) (s : System F) → Yields (Apart s) (turn (writing w) s)
  unfolding turn network_sender
  send-Apart w s = sends s.unsent
    where
      sends : (unsent : Text) → Yields (Apart s) (send_from unsent w s)
      sends [] =
          unfold send_from take_outgoing in
          Yields-if s.client.game_over (λ g. yields refl)
            (λ g. Yields-behind (next_outgoing s.client) (λ r. yields refl))
      sends (x ∷ left) =
          unfold send_from in Yields-behind (write_some w s.client (x ∷ left)) (λ r. yields refl)

module _ {F : Type 0} ⦃d : Double F⦄ (order : Order d) (printable : Printable d) where
  late_turn-IsClosing :
      (t : Turn) (x : System F × Running)
      → TurnComputable t x.0
      → Yields (Apart x.0) (turn t x.0)
      → IsClosing x
      → Ensures IsClosing (late_turn t x)
  unfolding late_turn
  late_turn-IsClosing t (s, r) k apart h =
      Ensures-bind (Ensures-Yields (turn-IsValid order printable t s h.0 k) apart)
        (λ s' v. returns (v.0, λ f. ap (λ p. p.scoring_received) v.1 ∙ h.1 f))

  join_step-IsClosing :
      (c : Closing) (x : System F × Running) → IsClosing x → Ensures IsClosing (join_step c x)
  unfolding join_step
  join_step-IsClosing late_greeting x h = late_turn-IsClosing greeting x tt (greet-Apart x.0) h
  join_step-IsClosing late_printing x h =
      unless x.1.log (λ e. late_turn-IsClosing printing x tt (print-Apart x.0) h) (λ e. returns h)
  join_step-IsClosing (late_put input) x h =
      unless x.1.strategy
        (λ e. late_turn-IsClosing (choosing_put input) x tt (put-Apart input x.0) h)
        (λ e. returns h)
  join_step-IsClosing (late_writing w) x h =
      unless x.1.network_sender (λ e. late_turn-IsClosing (writing w) x tt (send-Apart w x.0) h)
        (λ e. returns h)
  join_step-IsClosing (ending t) x h =
      unless (runs t x.1) (λ e. end_thread-IsClosing t x h) (λ e. returns h)

  pub join_threads-IsClosing :
      (cs : List Closing) (x : System F × Running)
      → IsClosing x
      → Ensures IsClosing (join_threads cs x)
  unfolding join_threads
  join_threads-IsClosing [] x h = returns h
  join_threads-IsClosing (c ∷ cs) x h =
      Ensures-bind (join_step-IsClosing c x h) (λ x' h'. join_threads-IsClosing cs x' h')
