-- ===== src/Approximator/Client/Threads/Sending.antt =====
-- network_sender writes the queued messages to the socket, in order.
use computer_networks_course.Prelude.{
  ◌≡◌, refl, sym, ap, ◌∙◌, false, Option, none, some, List, [], ◌∷◌, ◌++◌, append_assoc,
  take-append-drop, Text,
}
use computer_networks_course.Outcome.{
  done, Yields, yields, on_fatal, on_fault, Yields-bind, Yields-if, Yields-done,
}
use computer_networks_course.Approximator.MsgParser.Message.{Message}
use computer_networks_course.Approximator.Client.Queue.{try_pop_for}
use computer_networks_course.Approximator.Client.State.{Client}
use computer_networks_course.Approximator.Client.Network.{
  Write, wrote, write_timeout, write_error, take_entry, next_outgoing, write_some,
}
use computer_networks_course.Approximator.Client.Threads.{
  System, written, take_outgoing, send_from, network_sender,
}

abbrev entry_text : Option Text → Text
entry_text none = []
entry_text (some t) = t

module _ {F : Type 0} where
  -- The texts of the messages of a queue.
  abbrev pub queued : List (Option (Message F)) → Text
  queued [] = []
  queued (none ∷ q) = queued q
  queued (some m ∷ q) = m.raw_message ++ queued q

  -- What is written, and what is still to be written.
  abbrev pub stream : System F → Text
  stream s = s.sent ++ (s.unsent ++ queued s.client.outgoing_messages)

  take_entry_stream :
      (q : List (Option (Message F))) (c : Client F)
      → c.outgoing_messages ≡ q
      → Yields
          (λ r. entry_text r.0 ++ queued r.1.outgoing_messages ≡ queued q)
          (take_entry (try_pop_for q) c)
  unfolding take_entry try_pop_for
  take_entry_stream [] c e = yields (ap queued e)
  take_entry_stream (none ∷ q) c e = on_fault
  take_entry_stream (some m ∷ q) c e = yields refl

  take_outgoing-stream :
      (s : System F)
      → Yields (λ s'. stream s' ≡ s.sent ++ queued s.client.outgoing_messages) (take_outgoing s)
  unfolding take_outgoing next_outgoing
  take_outgoing-stream s =
      Yields-bind
        (λ r. entry_text r.0 ++ queued r.1.outgoing_messages ≡ queued s.client.outgoing_messages)
        (take_entry_stream s.client.outgoing_messages s.client refl)
        (λ r h. yields (ap (λ t. s.sent ++ t) (entry r.0 (queued r.1.outgoing_messages) h)))
    where
      entry :
          (o : Option Text) (t : Text)
          → entry_text o ++ t ≡ queued s.client.outgoing_messages
          → (elim o [ none ↦ [] | some u ↦ u ]) ++ t ≡ queued s.client.outgoing_messages
      entry none t h = h
      entry (some u) t h = h

  write_some-stream :
      (w : Write) (c : Client F) (left : Text)
      → c.game_over ≡ false
      → Yields (λ left'. written w left ++ left' ≡ left) (write_some w c left)
  unfolding write_some written
  write_some-stream (wrote n) c left g = yields (take-append-drop n left)
  write_some-stream write_timeout c left g = Yields-if c.game_over (λ h. cc (h, g)) (λ h. on_fatal)
  write_some-stream write_error c left g = on_fatal

  send_from-stream :
      (unsent : Text) (w : Write) (s : System F)
      → s.client.game_over ≡ false
      → Yields
          (λ s'. stream s' ≡ s.sent ++ (unsent ++ queued s.client.outgoing_messages))
          (send_from unsent w s)
  unfolding send_from
  send_from-stream [] w s g =
      Yields-if s.client.game_over (λ h. cc (h, g)) (λ h. take_outgoing-stream s)
  send_from-stream (x ∷ left) w s g =
      Yields-bind (λ left'. written w (x ∷ left) ++ left' ≡ x ∷ left)
        (write_some-stream w s.client (x ∷ left) g)
        (λ left' h. yields (
          append_assoc s.sent (written w (x ∷ left)) _
          ∙ ap (λ t. s.sent ++ t)
              (sym (append_assoc (written w (x ∷ left)) left' _)
                ∙ ap (λ t. t ++ queued s.client.outgoing_messages) h)))

  -- A turn of network_sender that succeeds before the end of the game leaves the bytes that are
  -- sent, those of the message on its way and those of the queue together what they were, in that
  -- order.
  pub network_sender-conserves :
      (w : Write) (s : System F) {s' : System F}
      → s.client.game_over ≡ false
      → network_sender w s ≡ done s'
      → stream s' ≡ stream s
  unfolding network_sender
  network_sender-conserves w s g e = Yields-done (send_from-stream s.unsent w s g) e
