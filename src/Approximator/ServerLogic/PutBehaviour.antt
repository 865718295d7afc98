-- ===== src/Approximator/ServerLogic/PutBehaviour.antt =====
-- What handle_put does on each of its branches.
use mathlib.Core.Path.{ap₂}
use computer_networks_course.Prelude.{
  ℕ, ◌+◌, ◌*◌, ◌≡◌, ap, ◌∙◌, Bool, true, false, ◌||◌, not, some, List, [], ◌∷◌, ◌++◌, leb,
  if◌then◌else◌, if_true, if_false, get_elem?, set, Text, ℤ, pos,
}
use computer_networks_course.Approximator.Constants.{
  Double, early_put_penalty, bad_put_penalty, bad_put_delay,
}
use computer_networks_course.Approximator.EventManager.{add_event}
use computer_networks_course.Approximator.MsgParser.Message.{Message}
use computer_networks_course.Approximator.MsgParser.Printer.{create_penalty, create_state}
use computer_networks_course.Outcome.{done, ◌>>=◌}
use computer_networks_course.Approximator.ServerLogic.Players.{
  PlayerInfo, lookup, lookup-assign_self, assign-assign,
}
use computer_networks_course.Approximator.ServerLogic.State.{
  Server, Event, bad_put_response, state_response, with_player, append_message_back,
}
use computer_networks_course.Approximator.ServerLogic.Score.{game_over}
use computer_networks_course.Approximator.ServerLogic.Handlers.{
  respond_with_penalty, respond_with_bad_put, respond_with_state, out_of_range,
  add_to_approximation, accept_put, forbid_put, put_known, handle_put,
}

module _ {F : Type 0} ⦃d : Double F⦄ where
  -- The player after an early put: fined, answered at once, and not allowed to put.
  abbrev pub fined_early : PlayerInfo F → Text → PlayerInfo F
  fined_early p answer = record p {
    penalty = d.add p.penalty (d.of_int early_put_penalty);
    can_put = false;
    messages = p.messages ++ answer ∷ [];
  }

  -- The player after a put out of range: fined, and not allowed to put.
  abbrev pub fined_bad : PlayerInfo F → PlayerInfo F
  fined_bad p = record p { penalty = d.add p.penalty (d.of_int bad_put_penalty); can_put = false }

  -- The answer to a put out of range comes a second later.
  abbrev pub bad_put_later : ℕ → Server F → ℕ → PlayerInfo F → ℤ → F → List (ℕ × Event F)
  bad_put_later now s fd p point value =
      add_event (bad_put_response fd point value p.ip p.port p.id) (now + bad_put_delay * 1000)
        s.events

  append_message_back_lem :
      (s : Server F) (fd : ℕ) (p : PlayerInfo F) (msg : Text)
      → lookup fd s.players ≡ some p
      → append_message_back s fd msg
        ≡ done (with_player s fd (record p { messages = p.messages ++ msg ∷ [] }))
  unfolding append_message_back
  append_message_back_lem s fd p msg e = rw e

  respond_with_penalty_lem :
      (s : Server F) (fd : ℕ) (p : PlayerInfo F) (point : ℤ) (value : F) (msg : Message F)
      → lookup fd s.players ≡ some p
      → create_penalty point value ≡ some msg
      → respond_with_penalty s fd point value
        ≡ done (
            with_player s fd (record p {
              penalty = d.add p.penalty (d.of_int early_put_penalty);
              can_put = true;
              messages = p.messages ++ msg.raw_message ∷ [];
            }))
  unfolding respond_with_penalty append_message_back
  respond_with_penalty_lem s fd p point value msg e c =
      rw (e, c, lookup-assign_self fd _ s.players) (rw assign-assign)

  forbid_put_lem :
      (s : Server F) (fd : ℕ) (q : PlayerInfo F)
      → forbid_put (with_player s fd q) fd ≡ done (with_player s fd (record q { can_put = false }))
  unfolding forbid_put
  forbid_put_lem s fd q = rw (lookup-assign_self fd q s.players) (rw assign-assign)

  respond_with_bad_put_lem :
      (now : ℕ) (s : Server F) (fd : ℕ) (q : PlayerInfo F) (point : ℤ) (value : F)
      → respond_with_bad_put now (with_player s fd q) fd point value
        ≡ done
            (record (with_player s fd
              (record q { penalty = d.add q.penalty (d.of_int bad_put_penalty) })) {
                events = bad_put_later now s fd q point value;
              })
  unfolding respond_with_bad_put
  respond_with_bad_put_lem now s fd q point value =
      rw (lookup-assign_self fd q s.players) (rw assign-assign)

  forbid_put_self :
      (s : Server F) (fd : ℕ) (p : PlayerInfo F)
      → lookup fd s.players ≡ some p
      → forbid_put s fd ≡ done (with_player s fd (record p { can_put = false }))
  unfolding forbid_put
  forbid_put_self s fd p e = rw e

  module _ (now : ℕ) (s : Server F) (fd : ℕ) (p : PlayerInfo F) (point : ℤ) (value : F)
      (connected : lookup fd s.players ≡ some p) where
    pub put_unknown : p.is_known ≡ false → handle_put now s fd point value ≡ done (s, false)
    unfolding handle_put
    put_unknown u = rw connected (if_false _ _ u)

    put_by_known :
        (early bad : Bool)
        → p.is_known ≡ true
        → not p.can_put ≡ early
        → out_of_range s point value ≡ bad
        → handle_put now s fd point value ≡ put_known now s fd point value early bad
    unfolding handle_put
    put_by_known early bad kn e b =
        rw connected (if_true _ _ kn ∙ ap₂ (put_known now s fd point value) e b)

    early_only :
        (msg : Message F)
        → create_penalty point value ≡ some msg
        → put_known now s fd point value true false
          ≡ done (with_player s fd (fined_early p msg.raw_message), false)
    unfolding put_known
    early_only msg c =
        rw (respond_with_penalty_lem s fd p point value msg connected c, forbid_put_lem s fd _)

    bad_only :
        put_known now s fd point value false true
        ≡ done (
          record (with_player s fd (fined_bad p)) { events = bad_put_later now s fd p point value },
          false,
        )
    unfolding put_known
    bad_only =
        rw (forbid_put_self s fd p connected, respond_with_bad_put_lem now s fd _ point value)

    early_and_bad :
        (msg : Message F)
        → create_penalty point value ≡ some msg
        → put_known now s fd point value true true
          ≡ done (
            record (with_player s fd (fined_bad (fined_early p msg.raw_message))) {
              events = bad_put_later now s fd p point value;
            },
            false,
          )
    unfolding put_known
    early_and_bad msg c = rw (
      respond_with_penalty_lem s fd p point value msg connected c,
      forbid_put_lem s fd _,
      respond_with_bad_put_lem now s fd _ point value,
    )

    in_turn :
        put_known now s fd point value false false
        ≡ accept_put now (with_player s fd (record p { can_put = false })) fd point value
    unfolding put_known
    in_turn = rw (forbid_put_self s fd p connected)

  -- The state after a put that counts, before the test for the end of the game.
  abbrev pub counted_put : ℕ → Server F → ℕ → PlayerInfo F → List F → Text → Server F
  counted_put now s fd q approximations answer =
      let q' = record q { correct_puts = q.correct_puts + 1; approximations = approximations } in
      let s' = with_player (record s { total_correct_puts = s.total_correct_puts + 1 }) fd q' in
      record s' {
        events =
            add_event (state_response fd answer q.ip q.port q.id) (now + q.delay * 1000) s.events;
      }

  accept_put_lem :
      (now : ℕ) (s : Server F) (fd : ℕ) (q : PlayerInfo F) (i : ℕ) (value a : F) (msg : Message F)
      → get_elem? q.approximations i ≡ some a
      → create_state (set q.approximations i (d.add a value)) ≡ some msg
      → accept_put now (with_player s fd q) fd (pos i) value ≡ (
          (if leb s.m (s.total_correct_puts + 1)
            then game_over
                (counted_put now s fd q (set q.approximations i (d.add a value)) msg.raw_message)
            else done
                (counted_put now s fd q (set q.approximations i (d.add a value)) msg.raw_message))
          >>= λ s3. done (s3, true))
  unfolding accept_put add_to_approximation respond_with_state
  accept_put_lem now s fd q i value a msg e c =
      let q' : PlayerInfo F = record q {
        correct_puts = q.correct_puts + 1;
        approximations = set q.approximations i (d.add a value);
      } in
      rw
        (lookup-assign_self fd q s.players, e, c, assign-assign, lookup-assign_self fd q' s.players)

  -- The player and the events after a put that does not count, by what is wrong with it.
  abbrev pub refused_player : Bool → Bool → PlayerInfo F → Text → PlayerInfo F
  refused_player true true p answer = fined_bad (fined_early p answer)
  refused_player true false p answer = fined_early p answer
  refused_player false true p answer = fined_bad p
  refused_player false false p answer = p

  abbrev pub refused_events : Bool → ℕ → Server F → ℕ → PlayerInfo F → ℤ → F → List (ℕ × Event F)
  refused_events true now s fd p point value = bad_put_later now s fd p point value
  refused_events false now s fd p point value = s.events

  -- A put of a known player that is early, out of range or both, and has a PENALTY message, does
  -- not count: 20 are fined for an early one, answered at once, then 10 for one out of range,
  -- answered a second later; nothing else changes but that the player may not put.
  pub handle_put_refused :
      (now : ℕ) (s : Server F) (fd : ℕ) (p : PlayerInfo F) (point : ℤ) (value : F) (msg : Message F)
      (early bad : Bool)
      → lookup fd s.players ≡ some p
      → p.is_known ≡ true
      → not p.can_put ≡ early
      → out_of_range s point value ≡ bad
      → (early || bad) ≡ true
      → create_penalty point value ≡ some msg
      → handle_put now s fd point value
        ≡ done (
          record (with_player s fd (refused_player early bad p msg.raw_message)) {
            events = refused_events bad now s fd p point value;
          },
          false,
        )
  handle_put_refused now s fd p point value msg true true e kn er b h c =
      put_by_known now s fd p point value e true true kn er b
      ∙ early_and_bad now s fd p point value e msg c
  handle_put_refused now s fd p point value msg true false e kn er b h c =
      put_by_known now s fd p point value e true false kn er b
      ∙ early_only now s fd p point value e msg c
  handle_put_refused now s fd p point value msg false true e kn er b h c =
      put_by_known now s fd p point value e false true kn er b ∙ bad_only now s fd p point value e
  handle_put_refused now s fd p point value msg false false e kn er b h c = absurd (cc h)

  -- A put of a known player in turn and in range, whose new state has a STATE message, counts: the
  -- value is added at the point, the counts grow by one, the player may not put until the new state
  -- is sent `delay` seconds later, and the game ends if the total reaches M.
  pub handle_put_counted :
      (now : ℕ) (s : Server F) (fd : ℕ) (p : PlayerInfo F) (i : ℕ) (value a : F) (msg : Message F)
      → lookup fd s.players ≡ some p
      → p.is_known ≡ true
      → p.can_put ≡ true
      → out_of_range s (pos i) value ≡ false
      → get_elem? p.approximations i ≡ some a
      → create_state (set p.approximations i (d.add a value)) ≡ some msg
      → handle_put now s fd (pos i) value ≡ (
          let s2 =
            counted_put now s fd
              (record p { can_put = false })
              (set p.approximations i (d.add a value))
              msg.raw_message in
          (if leb s.m (s.total_correct_puts + 1) then game_over s2 else done s2) >>= λ s3.
          done (s3, true))
  handle_put_counted now s fd p i value a msg e kn ca b ea c =
      put_by_known now s fd p (pos i) value e false false kn (ap not ca) b
      ∙ in_turn now s fd p (pos i) value e
      ∙ accept_put_lem now s fd (record p { can_put = false }) i value a msg ea c
