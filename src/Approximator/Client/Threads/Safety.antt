-- ===== src/Approximator/Client/Threads/Safety.antt =====
-- No order of the turns of the threads comes to a fault.
use computer_networks_course.Prelude.{
  ℕ, ◌≤◌, ◌≡◌, refl, ◌∙◌, inl, inr, Bool, true, false, List, [], ◌∷◌, arith, if◌then◌else◌, if_true,
  if_false, ◌==◌, ==_iff, Bool-cases, length-set, Text, pos,
}
use computer_networks_course.Outcome.{
  Outcome, done, fatal, fault, ◌>>=◌, Ensures, returns, exits, Ensures-bind, unless,
}
use computer_networks_course.Approximator.Constants.{Double, max_k}
use computer_networks_course.Approximator.MsgParser.Integer.Laws.{in_int}
use computer_networks_course.Approximator.MsgParser.Printer.Laws.{Printable}
use computer_networks_course.Approximator.MsgParser.Printer.Scoring.{IsId}
use computer_networks_course.Approximator.Client.State.{
  Client, increment_puts_without_answer, wait_for_puts,
}
use computer_networks_course.Approximator.Client.Strategy.{
  Phase, Input, waiting, incrementing, choosing, sending, auto_strategy, send_put_message,
}
use computer_networks_course.Approximator.Client.Strategy.Maximum.{Order}
use computer_networks_course.Approximator.Client.Strategy.BestPut.{last_point, get_best_put-IsBest}
use computer_networks_course.Approximator.Client.Threads.{
  System, Turn, greeting, processing, printing, choosing_put, receiving, writing, network_sender,
  strategy_turn, turn, start, run,
}
use computer_networks_course.Approximator.Client.Threads.Kept.{
  Prepared-same, send_put-Kept, manual_strategy-Kept,
}
use computer_networks_course.Approximator.Client.Threads.Valid.{
  InPhase, TurnComputable, IsValid, IsValid-Kept, greet-IsValid, log_printer-IsValid,
  send_from-IsValid, receiver_turn-IsValid, processor_turn-IsValid, Behind, RunComputable,
  start-IsValid,
}

pub small_in_int : (n : ℕ) → n ≤ max_k → in_int (pos n) ≡ true
small_in_int n h = ground arith

-- A wait that ends is behind the first message.
behind_wait :
    (F : Type 0) (over first : Bool) (n : ℕ)
    → (first ≡ true → n ≡ 1)
    → InPhase {F = F} (if over then waiting else if n == 0 then incrementing else waiting) first
behind_wait F true first n h = tt
behind_wait F false first n h = elim (Bool-cases (n == 0)) [
  | inl z ↦ rw z (later first h ((==_iff n 0).0 z))
  | inr z ↦ rw z tt
]
  where
    later : (b : Bool) → (b ≡ true → n ≡ 1) → n ≡ 0 → b ≡ false
    later true k z = absurd (omega (arith, k refl))
    later false k z = refl

pub last_point-le : {F : Type 0} ⦃d : Double F⦄ (c : Client F) → c.k ≤ max_k → last_point c ≤ max_k
last_point-le c h = elim (Bool-cases c.k_set) [
  | inl e ↦ omega (arith, if_true {0} c.k 1 e)
  | inr e ↦ omega (arith, if_false {0} c.k 1 e)
]

module _ {F : Type 0} ⦃d : Double F⦄ (order : Order d) (printable : Printable d) where
  auto_strategy-IsValid :
      (ph : Phase F) (s : System F)
      → IsValid s
      → InPhase ph s.progress.is_first_message
      → Ensures (λ r. IsValid (record s { phase = r.0; client = r.1 })) (auto_strategy ph s.client)
  unfolding auto_strategy increment_puts_without_answer wait_for_puts
  auto_strategy-IsValid waiting s v p = returns (record {
    client = v.client;
    ready = v.ready;
    fresh = v.fresh;
    phase =
        behind_wait F s.client.game_over s.progress.is_first_message s.client.puts_without_answer
          (λ f. (v.fresh f).1);
  })
  auto_strategy-IsValid incrementing s v p = returns (record {
    client = record {
      named = v.client.named;
      outgoing = v.client.outgoing;
      incoming = v.client.incoming;
      few = v.client.few;
    };
    ready = v.ready;
    fresh = λ f. cc (f, p);
    phase = p;
  })
  auto_strategy-IsValid choosing s v p =
      let (c', i, value, e, best) = get_best_put-IsBest order s.client (v.ready p).0 in
      rw e (
        returns (
          rw best.followed (record {
            client = record {
              named = v.client.named;
              outgoing = v.client.outgoing;
              incoming = v.client.incoming;
              few = v.client.few;
            };
            ready = λ f. (
              ((length-set s.client.current_approximation i _ ∙ (v.ready p).0.0), (v.ready p).0.1),
              (v.ready p).1,
            );
            fresh = λ f. cc (f, p);
            phase = (p, omega (arith, best.in_range, last_point-le s.client v.client.few));
          })))
  auto_strategy-IsValid (sending point value) s v p =
      let k =
        send_put-Kept printable (pos point) value s.client (small_in_int point p.1) v.client in
      returns (record {
        client = k.0;
        ready = λ f.
            Prepared-same s.client (send_put_message (pos point) value s.client) k.1 (v.ready f);
        fresh = λ f. cc (f, p.0);
        phase = tt;
      })

  strategy_turn-IsValid :
      (input : Input) (s : System F) → IsValid s → Ensures IsValid (strategy_turn input s)
  unfolding strategy_turn
  strategy_turn-IsValid input s v =
      unless s.client.is_auto_strategy
        (λ a. Ensures-bind (auto_strategy-IsValid s.phase s v v.phase) (λ r h. returns h))
        (λ m.
          unless s.client.game_over (λ g. returns v)
            λ g.
              Ensures-bind (manual_strategy-Kept printable input s.input_buffer s.client v.client)
                (λ r k. returns (IsValid-Kept s _ v k refl refl)))

  -- A turn of any thread comes to no fault.
  pub turn-IsValid :
      (t : Turn) (s : System F) → IsValid s → TurnComputable t s → Ensures IsValid (turn t s)
  unfolding turn network_sender
  turn-IsValid greeting s v k = returns (greet-IsValid s v)
  turn-IsValid processing s v k = processor_turn-IsValid s v k
  turn-IsValid printing s v k = returns (log_printer-IsValid s v)
  turn-IsValid (choosing_put input) s v k = strategy_turn-IsValid input s v
  turn-IsValid (receiving result) s v k = receiver_turn-IsValid result s v
  turn-IsValid (writing w) s v k = send_from-IsValid s.unsent w s v

  run-keeps :
      (ts : List Turn) (s : System F) → IsValid s → RunComputable ts s → Ensures IsValid (run ts s)
  unfolding run
  run-keeps [] s v k = returns v
  run-keeps (t ∷ ts) s v k =
      onward (turn t s) (turn-IsValid t s v k.0) (λ s' w j. run-keeps ts s' w j) k.1
    where
      onward :
          (m : Outcome (System F))
          → Ensures IsValid m
          → ((s' : System F) → IsValid s' → RunComputable ts s' → Ensures IsValid (run ts s'))
          → Behind m (RunComputable ts)
          → Ensures IsValid (m >>= run ts)
      onward (done s') (returns w) go j = go s' w j
      onward fatal e go j = exits
      onward fault e go j = e

  -- No run of a client with a valid id comes to a fault, and each leaves a valid state, if the
  -- powers at the points of its STATE messages fit an `int`.
  pub run-IsValid :
      (ts : List Turn) (n : ℕ) (player_id : Text) (auto : Bool) (server_ip : Text) (server_port : ℕ)
      → IsId player_id
      → RunComputable ts (start {F = F} n player_id auto server_ip server_port)
      → Ensures IsValid (run ts (start {F = F} n player_id auto server_ip server_port))
  run-IsValid ts n player_id auto server_ip server_port named k =
      run-keeps ts _ (start-IsValid n player_id auto server_ip server_port named) k
