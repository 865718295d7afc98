-- ===== src/Approximator/Client/Threads/Kept.antt =====
-- What the receiver, the sender, the console and the manual strategy keep of a well-formed client.
use computer_networks_course.Prelude.{
  ℕ, zero, suc, ◌≡◌, refl, ◌∙◌, inl, inr, Bool, true, false, Option, none, some, List, [], ◌∷◌,
  ◌++◌, Option-cases, All, All-append, Text, ℤ,
}
use computer_networks_course.Outcome.{Ensures, returns, exits, Ensures-bind, Ensures-map, unless}
use computer_networks_course.Approximator.ApproxServer.Framing.{next_line}
use computer_networks_course.Approximator.Constants.{Double, crlf}
use computer_networks_course.Approximator.MsgParser.Integer.Laws.{in_int}
use computer_networks_course.Approximator.MsgParser.Message.{
  Message, create_message, validate_int_double_pair,
}
use computer_networks_course.Approximator.MsgParser.Params.{split_params}
use computer_networks_course.Approximator.MsgParser.Printer.Laws.{
  Printable, create_put-RoundTrip, create_hello-RoundTrip,
}
use computer_networks_course.Approximator.ServerLogic.MessageInvariant.{pair_in_int}
use computer_networks_course.Approximator.Client.Queue.{push, try_pop_for}
use computer_networks_course.Approximator.Client.State.{
  Client, log_stdout, log_stderr, send_hello_message,
}
use computer_networks_course.Approximator.Client.Strategy.{
  Input, poll_error, poll_timeout, not_readable, read_error, read_bytes, cut_line, manual_line,
  manual_lines, manual_strategy, send_put_message,
}
use computer_networks_course.Approximator.Client.Network.{
  Receive, recv_error, recv_timeout, recv_closed, recv_bytes, Receiver, receive_line, receive_lines,
  receive_bytes, network_receiver, take_entry, next_outgoing,
}
use computer_networks_course.Approximator.Client.Processor.Sound.{
  Written, IsClient, Prepared, create_message-Sound,
}

module _ {F : Type 0} where
  -- What the client knows of the game, and its counter, are the same.
  abbrev pub SameGame : Client F → Client F → Type 0
  SameGame c c' =
      (c'.k ≡ c.k)
      × (c'.k_set ≡ c.k_set)
      × (c'.n ≡ c.n)
      × (c'.coeffs ≡ c.coeffs)
      × (c'.current_approximation ≡ c.current_approximation)
      × (c'.real_values ≡ c.real_values)
      × (c'.puts_without_answer ≡ c.puts_without_answer)

  abbrev pub Kept : Client F → Client F → Type 0
  Kept c c' = IsClient c' × SameGame c c'

  same_game : (c : Client F) → SameGame c c
  same_game c = (refl, refl, refl, refl, refl, refl, refl)

  SameGame-trans : (c c' c'' : Client F) → SameGame c c' → SameGame c' c'' → SameGame c c''
  SameGame-trans c c' c'' h k =
      (k.0 ∙ h.0, k.1 ∙ h.1, k.2 ∙ h.2, k.3 ∙ h.3, k.4 ∙ h.4, k.5 ∙ h.5, k.6 ∙ h.6)

  pub Prepared-same : ⦃d : Double F⦄ (c c' : Client F) → SameGame c c' → Prepared c → Prepared c'
  Prepared-same c c' h p = rw (h.0, h.1, h.2, h.3, h.4, h.5) p

  IsClient-logs :
      (c : Client F) (over : Bool) (l : List (Text × Bool))
      → IsClient c
      → IsClient (record c { logs = l; game_over = over })
  IsClient-logs c over l v = record {
    named = v.named;
    outgoing = v.outgoing;
    incoming = v.incoming;
    few = v.few;
  }

  pub Kept-logs :
      (c : Client F) (l : List (Text × Bool)) → IsClient c → Kept c (record c { logs = l })
  Kept-logs c l v = (IsClient-logs c c.game_over l v, same_game c)

  next-Kept :
      (c : Client F) (q : List (Option (Message F)))
      → IsClient c
      → All Written q
      → IsClient (record c { outgoing_messages = q })
  next-Kept c q v w = record { named = v.named; outgoing = w; incoming = v.incoming; few = v.few }

  take_entry-Kept :
      (q : List (Option (Message F))) (c : Client F)
      → All Written q
      → IsClient c
      → Ensures (λ r. Kept c r.1) (take_entry (try_pop_for q) c)
  unfolding take_entry try_pop_for
  take_entry-Kept [] c w v = returns (v, same_game c)
  take_entry-Kept (none ∷ rest) c w v = cc (w.0.1)
  take_entry-Kept (some m ∷ rest) c w v = returns (next-Kept c rest v w.1, same_game c)

  pub next_outgoing-Kept : (c : Client F) → IsClient c → Ensures (λ r. Kept c r.1) (next_outgoing c)
  unfolding next_outgoing
  next_outgoing-Kept c v = take_entry-Kept c.outgoing_messages c v.outgoing v

module _ {F : Type 0} ⦃d : Double F⦄ where
  pub send_hello-Kept : (c : Client F) → IsClient c → Kept c (send_hello_message c)
  unfolding send_hello_message push
  send_hello-Kept c v = (
    next-Kept c _ v (
        All-append Written c.outgoing_messages _ v.outgoing
          ((_, create_hello-RoundTrip c.player_id v.named.0 v.named.1), tt)),
    same_game c,
  )

  receive_line-Kept :
      (first : Bool) (line : Text) (c : Client F)
      → IsClient c
      → Ensures (Kept c) (receive_line first line c)
  unfolding receive_line log_stderr push
  receive_line-Kept first line c v = elim (Option-cases (create_message {F = F} (line ++ crlf))) [
    | inl e ↦ rw (e, receive_line) (unless first (λ f. exits) (λ f. returns (Kept-logs c _ v)))
    | inr (msg, e) ↦
        rw (e, receive_line)
          (returns (
            record {
              named = v.named;
              outgoing = v.outgoing;
              few = v.few;
              incoming =
                  All-append _ c.incoming_messages _ v.incoming (create_message-Sound _ msg e, tt);
            },
            same_game c,
          ))
  ]

  receive_lines-Kept :
      (fuel : ℕ) (r : Receiver) (c : Client F)
      → IsClient c
      → Ensures (λ x. Kept c x.1) (receive_lines fuel r c)
  unfolding receive_lines
  receive_lines-Kept zero r c v = returns (v, same_game c)
  receive_lines-Kept (suc fuel) r c v = elim (Option-cases (next_line r.recv_buffer)) [
    | inl e ↦ rw (e, receive_lines) (returns (v, same_game c))
    | inr ((line, rest), e) ↦
        rw (e, receive_lines)
          (Ensures-bind (receive_line-Kept r.is_first_message line c v) (λ c' h.
            Ensures-map (λ x k. (k.0, SameGame-trans c c' x.1 h.1 k.1))
              (receive_lines-Kept fuel (record { recv_buffer = rest; is_first_message = false }) c'
                h.0)))
  ]

  pub network_receiver-Kept :
      (result : Receive) (r : Receiver) (c : Client F)
      → IsClient c
      → Ensures (λ x. Kept c x.1) (network_receiver result r c)
  unfolding network_receiver receive_bytes
  network_receiver-Kept recv_error r c v = exits
  network_receiver-Kept recv_timeout r c v = returns (v, same_game c)
  network_receiver-Kept recv_closed r c v = returns (IsClient-logs c true c.logs v, same_game c)
  network_receiver-Kept (recv_bytes bytes) r c v = receive_lines-Kept _ _ c v

  -- A put of a point that fits an `int` is queued.
  pub send_put-Kept :
      (printable : Printable d) (point : ℤ) (value : F) (c : Client F)
      → in_int point ≡ true
      → IsClient c
      → Kept c (send_put_message point value c)
  unfolding send_put_message log_stdout push
  send_put-Kept printable point value c fits v = (
    record {
      named = v.named;
      incoming = v.incoming;
      few = v.few;
      outgoing = All-append Written c.outgoing_messages _ v.outgoing (
        (_, (create_put-RoundTrip point value (printable value).0 fits (printable value).1).0),
        tt,
      );
    },
    same_game c,
  )

  manual_line-Kept :
      (printable : Printable d) (line : Text) (c : Client F)
      → IsClient c
      → Kept c (manual_line line c)
  unfolding manual_line log_stderr
  manual_line-Kept printable line c v = elim (Option-cases (split_params line)) [
    | inl e ↦ rw (e, manual_line) (Kept-logs c _ v)
    | inr (params, e) ↦ elim (Option-cases (validate_int_double_pair {F = F} params)) [
      | inl f ↦ rw (e, manual_line) (rw (f, manual_line) (Kept-logs c _ v))
      | inr ((point, value), f) ↦
          rw (e, manual_line)
            (rw (f, manual_line)
              (send_put-Kept printable point value c (pair_in_int params point value f) v))
    ]
  ]

  manual_lines-Kept :
      (printable : Printable d) (fuel : ℕ) (buffer : Text) (c : Client F)
      → IsClient c
      → Kept c (manual_lines fuel buffer c).1
  unfolding manual_lines
  manual_lines-Kept printable zero buffer c v = (v, same_game c)
  manual_lines-Kept printable (suc fuel) buffer c v = elim (Option-cases (cut_line buffer)) [
    | inl e ↦ rw (e, manual_lines) (v, same_game c)
    | inr ((line, rest), e) ↦
        let h = manual_line-Kept printable line c v in
        let k = manual_lines-Kept printable fuel rest (manual_line line c) h.0 in
        rw (e, manual_lines)
          (
            k.0,
            SameGame-trans c (manual_line line c) (manual_lines fuel rest (manual_line line c)).1
                h.1 k.1,
          )
  ]

  pub manual_strategy-Kept :
      (printable : Printable d) (input : Input) (buffer : Text) (c : Client F)
      → IsClient c
      → Ensures (λ x. Kept c x.1) (manual_strategy input buffer c)
  unfolding manual_strategy log_stderr
  manual_strategy-Kept printable poll_error buffer c v = exits
  manual_strategy-Kept printable poll_timeout buffer c v = returns (v, same_game c)
  manual_strategy-Kept printable not_readable buffer c v =
      returns (manual_lines-Kept printable _ buffer c v)
  manual_strategy-Kept printable read_error buffer c v = returns (Kept-logs c _ v)
  manual_strategy-Kept printable (read_bytes bytes) buffer c v =
      returns (manual_lines-Kept printable _ _ c v)
