-- ===== src/Approximator/Client/Threads/Liveness.antt =====
-- An automatic client that waits for nothing makes a put.
use computer_networks_course.Prelude.{
  ℕ, ◌≤◌, ◌≡◌, refl, ap, ◌∙◌, true, false, some, [], ◌∷◌, ◌++◌, arith, ==_iff, if_true, if_false,
  set, pos,
}
use computer_networks_course.Outcome.{done, ◌>>=◌}
use computer_networks_course.Approximator.Constants.{Double, max_k}
use computer_networks_course.Approximator.MsgParser.Message.{Message, put}
use computer_networks_course.Approximator.MsgParser.Printer.Laws.{Printable, create_put-RoundTrip}
use computer_networks_course.Approximator.Client.Queue.{push}
use computer_networks_course.Approximator.Client.State.{
  Client, log_stdout, increment_puts_without_answer, wait_for_puts,
}
use computer_networks_course.Approximator.Client.Strategy.{
  Input, Phase, waiting, incrementing, choosing, sending, auto_strategy, get_best_put,
  send_put_message,
}
use computer_networks_course.Approximator.Client.Strategy.Maximum.{Order}
use computer_networks_course.Approximator.Client.Strategy.BestPut.{last_point, get_best_put-IsBest}
use computer_networks_course.Approximator.Client.Threads.{
  System, Turn, choosing_put, strategy_turn, turn, run,
}
use computer_networks_course.Approximator.Client.Threads.Valid.{IsValid}
use computer_networks_course.Approximator.Client.Threads.Safety.{small_in_int, last_point-le}

module _ {F : Type 0} ⦃d : Double F⦄ where
  -- A turn of the automatic strategy.
  auto_turn :
      (input : Input) (s : System F) (ph ph' : Phase F) (c' : Client F)
      → s.client.is_auto_strategy ≡ true
      → s.phase ≡ ph
      → auto_strategy ph s.client ≡ done (ph', c')
      → strategy_turn input s ≡ done (record s { phase = ph'; client = c' })
  unfolding strategy_turn
  auto_turn input s ph ph' c' auto e h =
      if_true _ _ auto
      ∙ ap (λ m. m >>= λ r. done (record s { phase = r.0; client = r.1 }))
          (ap (λ x. auto_strategy x s.client) e ∙ h)

  wait_ends :
      (c : Client F)
      → c.game_over ≡ false
      → c.puts_without_answer ≡ 0
      → auto_strategy waiting c ≡ done (incrementing, c)
  unfolding auto_strategy wait_for_puts
  wait_ends c g z =
      ap (λ ph. done (ph, c)) (if_false _ _ g ∙ if_true _ _ ((==_iff c.puts_without_answer 0).1 z))

  count_put :
      (c : Client F)
      → auto_strategy incrementing c ≡ done (choosing, increment_puts_without_answer c)
  unfolding auto_strategy
  count_put c = refl

  choose_put :
      (c c' : Client F) (i : ℕ) (value : F)
      → get_best_put c ≡ done (c', i, value)
      → auto_strategy choosing c ≡ done (sending i value, c')
  unfolding auto_strategy
  choose_put c c' i value e = rw e refl

  send_put :
      (c : Client F) (i : ℕ) (value : F)
      → auto_strategy (sending i value) c ≡ done (waiting, send_put_message (pos i) value c)
  unfolding auto_strategy
  send_put c i value = refl

  run_four :
      (t1 t2 t3 t4 : Turn) (s0 s1 s2 s3 s4 : System F)
      → turn t1 s0 ≡ done s1
      → turn t2 s1 ≡ done s2
      → turn t3 s2 ≡ done s3
      → turn t4 s3 ≡ done s4
      → run (t1 ∷ t2 ∷ t3 ∷ t4 ∷ []) s0 ≡ done s4
  unfolding run
  run_four t1 t2 t3 t4 s0 s1 s2 s3 s4 e1 e2 e3 e4 = rw (e1, e2, e3, e4) refl

module _ {F : Type 0} ⦃d : Double F⦄ where
  -- An automatic client in the game, with no unanswered put, makes a put within four turns of its
  -- strategy: a PUT at a point of the game is queued, and is then the one unanswered put. The state
  -- is valid, `<` is an order on the values, and values print as decimals that read back.
  pub run-puts :
      (order : Order d) (printable : Printable d) (i1 i2 i3 i4 : Input) (s : System F)
      → IsValid s
      → s.client.is_auto_strategy ≡ true
      → s.client.game_over ≡ false
      → s.progress.is_first_message ≡ false
      → s.phase ≡ waiting
      → s.client.puts_without_answer ≡ 0
      → (s' : System F) × (point : ℕ) × (value value' : F) × (msg : Message F) × (run
            (choosing_put i1 ∷ choosing_put i2 ∷ choosing_put i3 ∷ choosing_put i4 ∷ [])
            s
          ≡ done s')
        × (s'.client.outgoing_messages ≡ s.client.outgoing_messages ++ some msg ∷ [])
        × (msg.body ≡ put (pos point) value')
        × (s'.client.puts_without_answer ≡ 1)
        × (s'.phase ≡ waiting)
        × (point ≤ last_point s.client)
  unfolding turn increment_puts_without_answer send_put_message log_stdout push
  run-puts order printable i1 i2 i3 i4 s v auto over first ph zero_puts =
      let c1 = increment_puts_without_answer s.client in
      let (c', i, value, e, best) = get_best_put-IsBest order c1 (v.ready first).0 in
      let c2 = record c1 {
        current_approximation = set c1.current_approximation i (d.add best.approximated value);
      } in
      let chosen : get_best_put c1 ≡ done (c2, i, value) =
        e ∙ ap (λ c. done (c, i, value)) best.followed in
      let in_k : i ≤ last_point s.client = best.in_range in
      let small : i ≤ max_k = omega (arith, in_k, last_point-le s.client v.client.few) in
      let (w, reads) = printable value in
      let sent = (create_put-RoundTrip (pos i) value w (small_in_int i small) reads).0 in
      let c3 = send_put_message (pos i) value c2 in
      let s1 = record s { phase = incrementing } in
      let s2 = record s { phase = choosing; client = c1 } in
      let s3 = record s { phase = sending i value; client = c2 } in
      let s4 = record s { phase = waiting; client = c3 } in
      (
        s4,
        i,
        value,
        w,
        _,
        run_four (choosing_put i1) (choosing_put i2) (choosing_put i3) (choosing_put i4) s s1 s2 s3
            s4
            (auto_turn i1 s waiting incrementing s.client auto ph
              (wait_ends s.client over zero_puts))
            (auto_turn i2 s1 incrementing choosing c1 auto refl (count_put s.client))
            (auto_turn i3 s2 choosing (sending i value) c2 auto refl
              (choose_put c1 c2 i value chosen))
            (auto_turn i4 s3 (sending i value) waiting c3 auto refl (send_put c2 i value)),
        ap (λ o. s.client.outgoing_messages ++ o ∷ []) sent,
        refl,
        omega arith,
        refl,
        in_k,
      )
