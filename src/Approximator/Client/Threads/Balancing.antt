-- ===== src/Approximator/Client/Threads/Balancing.antt =====
-- The turns of the processor and of the strategy keep the balance of puts and answers.
use computer_networks_course.Prelude.{
  ℕ, ◌+◌, ◌≤◌, ◌≡◌, refl, ◌∙◌, inl, inr, Bool, true, false, ◌&&◌, ◌||◌, not, List, [], ◌∷◌, arith,
  if◌then◌else◌, get_elem?, if_true, if_false, Bool-cases, ◌==◌, ==_iff, Text,
}
use computer_networks_course.Outcome.{
  or_fault, Yields, yields, Yields-bind, Yields-behind, Yields-if, Yields-map,
}
use computer_networks_course.Approximator.Constants.{Double}
use computer_networks_course.Approximator.MsgParser.Message.{Message}
use computer_networks_course.Approximator.Client.Queue.{try_pop_for}
use computer_networks_course.Approximator.Client.State.{
  Client, new_client, register_connection, log_stdout, increment_puts_without_answer, wait_for_puts,
}
use computer_networks_course.Approximator.Client.Strategy.{
  Phase, Input, waiting, incrementing, choosing, sending, auto_strategy, get_best_put,
  send_put_message, squared_differences, max_index,
}
use computer_networks_course.Approximator.Client.Processor.{
  process_message, process_next, message_processor,
}
use computer_networks_course.Approximator.Client.Processor.Laws.{one_if, is_answer, Falls-message}
use computer_networks_course.Approximator.Client.Threads.{
  System, Turn, greeting, processing, printing, choosing_put, receiving, writing, start,
  strategy_turn, processor_turn, turn,
}
use computer_networks_course.Approximator.Client.Threads.Balance.{
  answers_first, answered, put_made, is_sending, busy, Free, Free-down, Balanced, Balanced-eq,
  Balanced-greet, Balanced-log_printer, Balanced-sender, Balanced-receiver,
}

pub behind_wait :
    (F : Type 0) (over : Bool) (n : ℕ)
    → (let ph : Phase F = (if over then waiting else if n == 0 then incrementing else waiting) in
        (busy ph ≡ 0) × Free ph n)
behind_wait F true n = (refl, tt)
behind_wait F false n = elim (Bool-cases (n == 0)) [
  | inl z ↦ rw z (refl, (==_iff n 0).0 z)
  | inr z ↦ rw z (refl, tt)
]

-- What the balance says of the counts.
message_balance :
    (first ans : Bool) (p a b n n' : ℕ)
    → p + b + 1 ≤ n + a + one_if (not first)
    → n ≤ n' + one_if (first || ans)
    → p + b + 1 ≤ n' + (a + one_if (not first && ans)) + 1
message_balance true ans p a b n n' h k = omega arith
message_balance false true p a b n n' h k = omega arith
message_balance false false p a b n n' h k = omega arith

pub Balanced-start :
    {F : Type 0} (n : ℕ) (player_id server_ip : Text) (server_port : ℕ)
    → Balanced {F = F} 0 0 (start n player_id true server_ip server_port)
unfolding start new_client register_connection log_stdout
Balanced-start n player_id server_ip server_port = record {
  kind = refl;
  few = omega arith;
  free = tt;
  balance = omega arith;
  quiet = λ e. refl;
}

module _ {F : Type 0} ⦃d : Double F⦄ where
  -- Choosing a put does not touch the counter.
  Steady-best :
      (c : Client F)
      → Yields
          (λ r.
            (r.0.puts_without_answer ≡ c.puts_without_answer)
            × (r.0.is_auto_strategy ≡ c.is_auto_strategy))
          (get_best_put c)
  unfolding get_best_put
  Steady-best c =
      let max_point : ℕ = if c.k_set then c.k else 1 in
      Yields-behind (squared_differences (max_point + 1) c.current_approximation c.real_values)
        λ squares. Yields-behind (or_fault (get_elem? c.real_values (max_index squares))) λ x.
          Yields-behind (or_fault (get_elem? c.current_approximation (max_index squares)))
            λ y. yields (refl, refl)

  Balanced-auto :
      {a p : ℕ} (ph : Phase F) (s : System F)
      → s.phase ≡ ph
      → Balanced a p s
      → Yields
          (λ r. Balanced a (p + is_sending ph) (record s { phase = r.0; client = r.1 }))
          (auto_strategy ph s.client)
  unfolding auto_strategy wait_for_puts increment_puts_without_answer send_put_message log_stdout
  Balanced-auto {a} {p} waiting s e b =
      let old : p + 0 + 1
          ≤ s.client.puts_without_answer + a + one_if (not s.progress.is_first_message) =
        rw e at b.balance in
      let w = behind_wait F s.client.game_over s.client.puts_without_answer in
      yields (record {
        kind = b.kind;
        few = b.few;
        free = w.1;
        balance = omega (arith, w.0);
        quiet = b.quiet;
      })
  Balanced-auto {a} {p} incrementing s e b =
      let old : p + 0 + 1
          ≤ s.client.puts_without_answer + a + one_if (not s.progress.is_first_message) =
        rw e at b.balance in
      let zero_puts : s.client.puts_without_answer ≡ 0 = rw e at b.free in
      yields (record {
        kind = b.kind;
        few = omega arith;
        free = tt;
        balance = omega arith;
        quiet = b.quiet;
      })
  Balanced-auto {a} {p} choosing s e b =
      let old : p + 1 + 1
          ≤ s.client.puts_without_answer + a + one_if (not s.progress.is_first_message) =
        rw e at b.balance in
      Yields-bind
        (λ r.
          (r.0.puts_without_answer ≡ s.client.puts_without_answer)
          × (r.0.is_auto_strategy ≡ s.client.is_auto_strategy))
        (Steady-best s.client)
        (λ r h. yields (record {
          kind = h.1 ∙ b.kind;
          few = omega (arith, h.0);
          free = tt;
          balance = omega (arith, h.0);
          quiet = b.quiet;
        }))
  Balanced-auto {a} {p} (sending point value) s e b =
      let old : p + 1 + 1
          ≤ s.client.puts_without_answer + a + one_if (not s.progress.is_first_message) =
        rw e at b.balance in
      yields
        (record { kind = b.kind; few = b.few; free = tt; balance = omega arith; quiet = b.quiet })

  Balanced-message :
      {a p : ℕ} (msg : Message F) (rest : List (Message F)) (s : System F)
      → Balanced a p s
      → Yields
          (λ r.
            Balanced
              (a + one_if (not s.progress.is_first_message && is_answer msg.body))
              p
              (record s { progress = r.0; client = r.1 }))
          (process_message msg s.progress (record s.client { incoming_messages = rest }))
  Balanced-message {a} {p} msg rest s b =
      Yields-map
        (λ r h. record {
          kind = h.1.2 ∙ b.kind;
          few = omega (arith, h.1.0);
          free = Free-down s.phase _ _ h.1.0 b.free;
          balance = rw h.0 (
              message_balance s.progress.is_first_message (is_answer msg.body) p a (busy s.phase)
                s.client.puts_without_answer r.1.puts_without_answer b.balance h.1.1);
          quiet = λ f. cc (h.0);
        })
        (Falls-message msg s.progress (record s.client { incoming_messages = rest }))

  Balanced-next :
      {a p : ℕ} (msgs : List (Message F)) (s : System F)
      → Balanced a p s
      → Yields
          (λ r.
            Balanced
              (a + answers_first s.progress.is_first_message msgs)
              p
              (record s { progress = r.0; client = r.1 }))
          (process_next (try_pop_for msgs) s.progress s.client)
  unfolding process_next try_pop_for
  Balanced-next [] s b = yields (Balanced-eq (omega arith) refl b)
  Balanced-next (msg ∷ rest) s b = Balanced-message msg rest s b

  Balanced-processor :
      {a p : ℕ} (s : System F)
      → Balanced a p s
      → Yields (Balanced (a + answered processing s) p) (processor_turn s)
  unfolding processor_turn message_processor answered
  Balanced-processor {a} {p} s b =
      let msgs = s.client.incoming_messages in
      let count = answers_first s.progress.is_first_message msgs in
      Yields-if s.client.game_over
        (λ g. yields (Balanced-eq (omega (arith, if_true {0} 0 count g)) refl b))
        (λ g.
          Yields-bind (λ r. Balanced (a + count) p (record s { progress = r.0; client = r.1 }))
            (Balanced-next msgs s b)
            (λ r h. yields (Balanced-eq (omega (arith, if_false {0} 0 count g)) refl h)))

  Balanced-strategy :
      {a p : ℕ} (input : Input) (s : System F)
      → Balanced a p s
      → Yields (Balanced a (p + put_made (choosing_put input) s)) (strategy_turn input s)
  unfolding strategy_turn put_made
  Balanced-strategy {a} {p} input s b =
      Yields-if s.client.is_auto_strategy
        (λ e.
          Yields-bind
            (λ r. Balanced a (p + is_sending s.phase) (record s { phase = r.0; client = r.1 }))
            (Balanced-auto s.phase s refl b) (λ r h. yields h))
        (λ e. cc (b.kind))

  -- What a turn adds to the counts.
  pub Balanced-turn :
      {a p : ℕ} (t : Turn) (s : System F)
      → Balanced a p s
      → Yields (Balanced (a + answered t s) (p + put_made t s)) (turn t s)
  unfolding turn answered put_made
  Balanced-turn greeting s b = yields (Balanced-eq (omega arith) (omega arith) (Balanced-greet s b))
  Balanced-turn processing s b =
      Yields-map (λ s' h. Balanced-eq refl (omega arith) h) (Balanced-processor s b)
  Balanced-turn printing s b =
      yields (Balanced-eq (omega arith) (omega arith) (Balanced-log_printer s b))
  Balanced-turn (choosing_put input) s b =
      Yields-map (λ s' h. Balanced-eq (omega arith) refl h) (Balanced-strategy input s b)
  Balanced-turn (receiving result) s b =
      Yields-map (λ s' h. Balanced-eq (omega arith) (omega arith) h) (Balanced-receiver result s b)
  Balanced-turn (writing w) s b =
      Yields-map (λ s' h. Balanced-eq (omega arith) (omega arith) h) (Balanced-sender w s b)
