-- ===== src/Approximator/ServerLogic/PutInvariant.antt =====
-- handle_put keeps the invariant, and comes to no fault.
use mathlib.Core.Path.{subst}
use computer_networks_course.Prelude.{
  ℕ, ◌+◌, ◌≤◌, ◌<◌, ◌≡◌, refl, sym, ap, ◌∙◌, ◌≢◌, inl, inr, Bool, true, false, ◌||◌, not, some,
  List, [], arith, leb, if◌then◌else◌, Bool-cases, length, set, length-set, get_elem?-of_lt,
  All-map, Text, ℤ, pos, negsuc,
}
use computer_networks_course.Approximator.Constants.{Double, max_k}
use computer_networks_course.Approximator.EventManager.Laws.{SortedFrom, add_event-SortedFrom}
use computer_networks_course.Approximator.MsgParser.Integer.Laws.{in_int}
use computer_networks_course.Approximator.MsgParser.Printer.Scoring.{IsId}
use computer_networks_course.Approximator.MsgParser.Printer.Laws.{
  Printable, create_state_total, create_penalty_total,
}
use computer_networks_course.Outcome.{done, ◌>>=◌, Ensures, returns, Ensures-bind}
use computer_networks_course.Approximator.ServerLogic.Players.{
  PlayerInfo, lookup, lookup-assign_self, assign-Rising, puts-assign, Every-assign,
}
use computer_networks_course.Approximator.ServerLogic.State.{Server}
use computer_networks_course.Approximator.ServerLogic.Score.{game_over}
use computer_networks_course.Approximator.ServerLogic.Handlers.{out_of_range, handle_put}
use computer_networks_course.Approximator.ServerLogic.Invariant.{
  IsPlayer, IsValid, SameGame, with_player-IsValid, lookup-IsPlayer,
}
use computer_networks_course.Approximator.ServerLogic.PutBehaviour.{
  refused_player, refused_events, counted_put, put_unknown, handle_put_refused, handle_put_counted,
}
use computer_networks_course.Approximator.ServerLogic.ScoreLaws.{
  lookup-known_ids, game_over-announce,
}
use computer_networks_course.Approximator.ServerLogic.Announce.{
  announce-Rising, puts-announce, lookup-announce, Every-announce, told,
}

-- What a handler leaves: a valid server of the same game, with the client still connected.
abbrev pub Handled : {F : Type 0} → Server F → ℕ → Server F × Bool → Type 0
Handled {F} s fd r =
    IsValid r.0 × SameGame s r.0 × ((q : PlayerInfo F) × (lookup fd r.0.players ≡ some q))

module _ {F : Type 0} ⦃d : Double F⦄ where
  -- A known player with other fines, puts and messages.
  same_shape :
      (n k : ℕ) (p q : PlayerInfo F)
      → p.is_known ≡ true
      → q.is_known ≡ p.is_known
      → length q.approximations ≡ length p.approximations
      → q.id ≡ p.id
      → q.coefficients ≡ p.coefficients
      → IsPlayer n k p
      → IsPlayer n k q
  same_shape n k p q kn ek ea ei ec ok = record {
    points = ea ∙ ok.points;
    silent = λ h. absurd (cc (sym h ∙ ek ∙ kn));
    valid_id = λ h. subst IsId (sym ei) (ok.valid_id kn);
    enough = λ h. subst (λ (cs : List F). n + 1 ≤ length cs) (sym ec) (ok.enough kn);
  }

  refused-IsPlayer :
      (n k : ℕ) (early bad : Bool) (p : PlayerInfo F) (answer : Text)
      → p.is_known ≡ true
      → IsPlayer n k p
      → IsPlayer n k (refused_player early bad p answer)
        × ((refused_player early bad p answer).correct_puts ≡ p.correct_puts)
  refused-IsPlayer n k true true p answer kn ok =
      (same_shape n k p _ kn refl refl refl refl ok, refl)
  refused-IsPlayer n k true false p answer kn ok =
      (same_shape n k p _ kn refl refl refl refl ok, refl)
  refused-IsPlayer n k false true p answer kn ok =
      (same_shape n k p _ kn refl refl refl refl ok, refl)
  refused-IsPlayer n k false false p answer kn ok = (ok, refl)

  refused-SortedFrom :
      (bad : Bool) (now : ℕ) (s : Server F) (fd : ℕ) (p : PlayerInfo F) (point : ℤ) (value : F)
      → SortedFrom 0 s.events
      → SortedFrom 0 (refused_events bad now s fd p point value)
  refused-SortedFrom true now s fd p point value h =
      add_event-SortedFrom _ _ 0 s.events (omega arith) h
  refused-SortedFrom false now s fd p point value h = h

  -- A point that is in range is one of 0..k.
  in_range_point :
      (s : Server F) (point : ℤ) (value : F)
      → out_of_range s point value ≡ false
      → (i : ℕ) × (point ≡ pos i) × (i ≤ s.k)
  unfolding out_of_range
  in_range_point s (pos i) value h = (i, refl, ground arith)
  in_range_point s (negsuc i) value h = absurd (ground arith)

  counted_put-IsValid :
      (now : ℕ) (s : Server F) (fd : ℕ) (p : PlayerInfo F) (vs : List F) (answer : Text)
      → lookup fd s.players ≡ some p
      → length vs ≡ length p.approximations
      → p.is_known ≡ true
      → IsValid s
      → IsValid (counted_put now s fd (record p { can_put = false }) vs answer)
  counted_put-IsValid now s fd p vs answer e same kn v = record {
    ordered = assign-Rising fd 0 _ s.players v.ordered (omega arith);
    players_ok =
        Every-assign (IsPlayer s.n s.k) fd _ s.players v.players_ok
          (same_shape s.n s.k p _ kn refl same refl refl (lookup-IsPlayer s fd p e v));
    counted = omega (
      arith,
      v.counted,
      puts-assign fd 0 s.players
          (record p { approximations = vs; correct_puts = p.correct_puts + 1; can_put = false })
          v.ordered e,
    );
    timely = add_event-SortedFrom _ _ 0 s.events (omega arith) v.timely;
  }

  game_over-IsValid :
      (printable : Printable d) (s : Server F) (fd : ℕ) (p : PlayerInfo F)
      → lookup fd s.players ≡ some p
      → p.is_known ≡ true
      → IsValid s
      → Ensures
          (λ t. IsValid t × SameGame s t × ((q : PlayerInfo F) × (lookup fd t.players ≡ some q)))
          (game_over s)
  game_over-IsValid printable s fd p e kn v =
      let (msg, scores, each, em, over) =
        game_over-announce printable s (lookup-known_ids fd p s.players e kn)
          (All-map _ _ s.players (λ x ok. ok.points) v.players_ok)
          (All-map _ _ s.players (λ x ok. record { valid_id = ok.valid_id; enough = ok.enough })
            v.players_ok) in
      rw over (
        returns (
          record {
            ordered = announce-Rising msg.raw_message 0 s.players v.ordered;
            players_ok =
                Every-announce (IsPlayer s.n s.k) msg.raw_message s.players
                  (λ q ok. record {
                    points = ok.points;
                    silent = ok.silent;
                    valid_id = ok.valid_id;
                    enough = ok.enough;
                  })
                  v.players_ok;
            counted = v.counted ∙ sym (puts-announce msg.raw_message s.players);
            timely = v.timely;
          },
          (refl, refl, refl),
          (told msg.raw_message p, lookup-announce fd msg.raw_message s.players p e),
        ))

  length-set_ne : (vs : List F) (i : ℕ) (w : F) → 0 < length vs → set vs i w ≢ []
  length-set_ne vs i w h e = omega (arith, length-set vs i w, ap length e)

  put_in_turn :
      (printable : Printable d) (now : ℕ) (s : Server F) (fd : ℕ) (p : PlayerInfo F) (point : ℤ)
      (value : F)
      → s.k ≤ max_k
      → lookup fd s.players ≡ some p
      → p.is_known ≡ true
      → p.can_put ≡ true
      → out_of_range s point value ≡ false
      → IsValid s
      → Ensures (Handled s fd) (handle_put now s fd point value)
  put_in_turn printable now s fd p point value small e kn ca b v =
      let (i, ep, le) = in_range_point s point value b in
      let ok = lookup-IsPlayer s fd p e v in
      let (a, ea) = get_elem?-of_lt p.approximations i (omega (arith, ok.points)) in
      let vs = set p.approximations i (d.add a value) in
      let (msg, em) =
        create_state_total printable vs
          (length-set_ne p.approximations i (d.add a value) (omega (arith, ok.points)))
          (omega (arith, ok.points, length-set p.approximations i (d.add a value))) in
      let counted =
        counted_put-IsValid now s fd p vs msg.raw_message e
          (length-set p.approximations i (d.add a value)) kn v in
      subst (λ z. Ensures (Handled s fd) (handle_put now s fd z value)) (sym ep)
        (subst (Ensures (Handled s fd))
          (sym (
            handle_put_counted now s fd p i value a msg e kn ca
              (ap (λ z. out_of_range s z value) (sym ep) ∙ b) ea em))
          (last _ _ counted (refl, refl, refl) (lookup-assign_self fd _ s.players)
            (game_over-IsValid printable _ fd _ (lookup-assign_self fd _ s.players) kn counted)))
    where
      last :
          (s2 : Server F) (q : PlayerInfo F)
          → IsValid s2
          → SameGame s s2
          → lookup fd s2.players ≡ some q
          → Ensures
              (λ t.
                IsValid t × SameGame s2 t × ((q : PlayerInfo F) × (lookup fd t.players ≡ some q)))
              (game_over s2)
          → Ensures (Handled s fd) (
              (if leb s.m (s.total_correct_puts + 1) then game_over s2 else done s2) >>= λ s3.
              done (s3, true))
      last s2 q valid same e h = elim (Bool-cases (leb s.m (s.total_correct_puts + 1))) [
        | inl over ↦ rw over (
            Ensures-bind h
              λ t x. returns (x.0, (x.1.0 ∙ same.0, x.1.1 ∙ same.1, x.1.2 ∙ same.2), x.2))
        | inr more ↦ rw more (returns (valid, same, (q, e)))
      ]

  -- From a valid server whose points fit a STATE message, a PUT of a connected client, known or not,
  -- comes to no fault: the server stays valid, and the client connected.
  pub handle_put-IsValid :
      (printable : Printable d) (now : ℕ) (s : Server F) (fd : ℕ) (p : PlayerInfo F) (point : ℤ)
      (value : F)
      → s.k ≤ max_k
      → in_int point ≡ true
      → lookup fd s.players ≡ some p
      → IsValid s
      → Ensures (Handled s fd) (handle_put now s fd point value)
  handle_put-IsValid printable now s fd p point value small fits e v =
      elim (Bool-cases p.is_known) [
        | inr un ↦
            subst (Ensures (Handled s fd)) (sym (put_unknown now s fd p point value e un))
              (returns (v, (refl, refl, refl), (p, e)))
        | inl kn ↦ known kn (not p.can_put) (out_of_range s point value) refl refl
      ]
    where
      refused :
          p.is_known ≡ true
          → (early bad : Bool) → not p.can_put ≡ early
          → out_of_range s point value ≡ bad
          → (early || bad) ≡ true
          → Ensures (Handled s fd) (handle_put now s fd point value)
      refused kn early bad ee eb some_fault =
          let (msg, em) = create_penalty_total printable point value fits in
          let (ok, same) =
            refused-IsPlayer s.n s.k early bad p msg.raw_message kn (lookup-IsPlayer s fd p e v) in
          let valid = with_player-IsValid s fd p _ e ok same v in
          subst (Ensures (Handled s fd))
            (sym (handle_put_refused now s fd p point value msg early bad e kn ee eb some_fault em))
            (returns (
              record {
                ordered = valid.ordered;
                players_ok = valid.players_ok;
                counted = valid.counted;
                timely = refused-SortedFrom bad now s fd p point value v.timely;
              },
              (refl, refl, refl),
              (_, lookup-assign_self fd _ s.players),
            ))

      known :
          p.is_known ≡ true
          → (early bad : Bool) → not p.can_put ≡ early
          → out_of_range s point value ≡ bad
          → Ensures (Handled s fd) (handle_put now s fd point value)
      known kn false false ee eb =
          put_in_turn printable now s fd p point value small e kn (ground arith) eb v
      known kn true bad ee eb = refused kn true bad ee eb refl
      known kn false true ee eb = refused kn false true ee eb refl
