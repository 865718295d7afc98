-- ===== src/Approximator/ApproxServer/Game/Events.antt =====
-- What the handlers of messages do to the events and to the coefficients file.
use computer_networks_course.Prelude.{
  ℕ, ◌≡◌, refl, ◌∙◌, inl, inr, Bool, true, List, [], ◌∷◌, ltb, ◌||◌, ◌+◌, ◌++◌, leb, Bool-cases,
  All, Text, ℤ,
}
use computer_networks_course.Outcome.{
  or_fault, or_fatal, Yields, yields, Yields-bind, Yields-behind, Yields-if, Yields-map,
}
use computer_networks_course.Approximator.Constants.{Double, early_put_penalty}
use computer_networks_course.Approximator.EventManager.{add_event}
use computer_networks_course.Approximator.MsgParser.Integer.Laws.{in_int}
use computer_networks_course.Approximator.MsgParser.Message.{create_message}
use computer_networks_course.Approximator.MsgParser.Printer.{
  create_penalty, create_state, create_scoring,
}
use computer_networks_course.Approximator.ServerLogic.State.{
  Server, Event, hello_timeout, bad_put_response, state_response, player_of, with_player,
  append_message_back,
}
use computer_networks_course.Approximator.ServerLogic.Score.{
  collect_scores, send_scoring_messages, game_over,
}
use computer_networks_course.Approximator.ServerLogic.Handlers.{
  getline, handle_hello, respond_with_penalty, respond_with_bad_put, respond_with_state,
  add_to_approximation, get_coeffs, accept_put, forbid_put, put_known, handle_put,
}

module _ {F : Type 0} where
  -- The point of a response to a bad put is an `int`.
  abbrev pub IsEvent : Event F → Type 0
  IsEvent (hello_timeout fd ip port) = Unit
  IsEvent (bad_put_response fd point value ip port id) = in_int point ≡ true
  IsEvent (state_response fd state_msg ip port id) = Unit

  abbrev pub AreEvents : List (ℕ × Event F) → Type 0
  AreEvents = All (λ x. IsEvent x.1)

  pub add_event-AreEvents :
      (e : Event F) (t : ℕ) (es : List (ℕ × Event F))
      → IsEvent e
      → AreEvents es
      → AreEvents (add_event e t es)
  unfolding add_event
  add_event-AreEvents e t [] h k = (h, tt)
  add_event-AreEvents e t ((u, f) ∷ es) h k = elim (Bool-cases (ltb t u)) [
    | inl before ↦ rw before (h, k)
    | inr after ↦ rw after (k.0, add_event-AreEvents e t es h k.1)
  ]

  -- The events stay well formed, nothing is read of the file, and the game is the same.
  abbrev pub Clean : Server F → Server F → Type 0
  Clean s t =
      (AreEvents s.events → AreEvents t.events)
      × (t.coeff_file ≡ s.coeff_file)
      × (t.n ≡ s.n)
      × (t.k ≡ s.k)

  pub Clean-refl : (s : Server F) → Clean s s
  Clean-refl s = ((λ h. h), refl, refl, refl)

  Clean-trans : (s t u : Server F) → Clean s t → Clean t u → Clean s u
  Clean-trans s t u h k = ((λ e. k.0 (h.0 e)), k.1 ∙ h.1, k.2 ∙ h.2, k.3 ∙ h.3)

  pub append_message_back-Clean :
      (s : Server F) (fd : ℕ) (msg : Text) → Yields (Clean s) (append_message_back s fd msg)
  unfolding append_message_back
  append_message_back-Clean s fd msg = Yields-behind _ (λ p. yields (Clean-refl s))

module _ {F : Type 0} ⦃d : Double F⦄ where
  forbid_put-Clean : (s : Server F) (fd : ℕ) → Yields (Clean s) (forbid_put s fd)
  unfolding forbid_put
  forbid_put-Clean s fd = Yields-behind (player_of s fd) (λ p. yields (Clean-refl s))

  penalty-Clean :
      (s : Server F) (fd : ℕ) (point : ℤ) (value : F)
      → Yields (Clean s) (respond_with_penalty s fd point value)
  unfolding respond_with_penalty
  penalty-Clean s fd point value = Yields-behind (player_of s fd) λ p.
      Yields-behind (or_fault (create_penalty point value)) λ m.
        append_message_back-Clean
          (with_player s fd
            (record p { penalty = d.add p.penalty (d.of_int early_put_penalty); can_put = true }))
          fd m.raw_message

  bad_put-Clean :
      (now : ℕ) (s : Server F) (fd : ℕ) (point : ℤ) (value : F)
      → in_int point ≡ true
      → Yields (Clean s) (respond_with_bad_put now s fd point value)
  unfolding respond_with_bad_put
  bad_put-Clean now s fd point value h =
      Yields-behind (player_of s fd)
        (λ p. yields ((λ es. add_event-AreEvents _ _ s.events h es), refl, refl, refl))

  state-Clean :
      (now : ℕ) (s : Server F) (fd : ℕ) (msg : Text)
      → Yields (Clean s) (respond_with_state now s fd msg)
  unfolding respond_with_state
  state-Clean now s fd msg =
      Yields-behind (player_of s fd)
        (λ p. yields ((λ es. add_event-AreEvents _ _ s.events tt es), refl, refl, refl))

  scoring-Clean : (s : Server F) → Yields (Clean s) (send_scoring_messages s)
  unfolding send_scoring_messages
  scoring-Clean s =
      Yields-behind (collect_scores s s.players)
        λ r. Yields-behind (or_fault (create_scoring r.0 r.1)) (λ m. yields (Clean-refl s))

  game_over-Clean : (s : Server F) → Yields (Clean s) (game_over s)
  unfolding game_over
  game_over-Clean s = Yields-bind (Clean s) (scoring-Clean s) (λ s' h. yields h)

  accept_put-Clean :
      (now : ℕ) (s : Server F) (fd : ℕ) (point : ℤ) (value : F)
      → Yields (λ r. Clean s r.0) (accept_put now s fd point value)
  unfolding accept_put
  accept_put-Clean now s fd point value = Yields-behind (player_of s fd) λ p.
      Yields-behind (add_to_approximation p.approximations point value) λ vs.
        Yields-behind (or_fault (create_state vs)) λ m.
          Yields-bind (Clean s)
            (state-Clean now
              (with_player (record s { total_correct_puts = s.total_correct_puts + 1 }) fd
                (record p { correct_puts = p.correct_puts + 1; approximations = vs }))
              fd m.raw_message)
            λ s2 h.
              Yields-bind (Clean s)
                (Yields-if (leb s2.m s2.total_correct_puts)
                  (λ e. Yields-map (λ t k. Clean-trans s s2 t h k) (game_over-Clean s2))
                  (λ e. yields h))
                (λ t k. yields k)

  put_known-Clean :
      (now : ℕ) (s : Server F) (fd : ℕ) (point : ℤ) (value : F) (early bad : Bool)
      → in_int point ≡ true
      → Yields (λ r. Clean s r.0) (put_known now s fd point value early bad)
  unfolding put_known
  put_known-Clean now s fd point value early bad small =
      Yields-bind (Clean s)
        (Yields-if early (λ e. penalty-Clean s fd point value) (λ e. yields (Clean-refl s)))
        λ s1 h1.
          Yields-bind (Clean s)
            (Yields-map (λ t k. Clean-trans s s1 t h1 k) (forbid_put-Clean s1 fd))
            λ s2 h2.
              Yields-bind (Clean s)
                (Yields-if bad
                  (λ e.
                    Yields-map (λ t k. Clean-trans s s2 t h2 k)
                      (bad_put-Clean now s2 fd point value small))
                  (λ e. yields h2))
                λ s3 h3.
                  Yields-if (early || bad) (λ e. yields h3)
                    (λ e.
                      Yields-map (λ r k. Clean-trans s s3 r.0 h3 k)
                        (accept_put-Clean now s3 fd point value))

  pub handle_put-Clean :
      (now : ℕ) (s : Server F) (fd : ℕ) (point : ℤ) (value : F)
      → in_int point ≡ true
      → Yields (λ r. Clean s r.0) (handle_put now s fd point value)
  unfolding handle_put
  handle_put-Clean now s fd point value small = Yields-behind (player_of s fd) λ p.
      Yields-if p.is_known (λ e. put_known-Clean now s fd point value _ _ small)
        (λ e. yields (Clean-refl s))

  -- HELLO reads a line of the file, and leaves the events.
  pub handle_hello-events :
      (s : Server F) (fd : ℕ) (player_id : Text)
      → Yields (λ r. AreEvents s.events → AreEvents r.0.events) (handle_hello s fd player_id)
  unfolding handle_hello
  handle_hello-events s fd player_id =
      let line = (getline s.coeff_file).0 in
      Yields-behind (player_of s fd) λ p.
        Yields-if p.is_known (λ e. yields (λ h. h))
          λ e. Yields-behind (or_fatal (create_message (line ++ b'\n' ∷ []))) λ m.
            Yields-behind (get_coeffs m) λ cs.
              Yields-bind (λ t. AreEvents s.events → AreEvents t.events)
                (Yields-map (λ t k. k.0) (append_message_back-Clean _ fd m.raw_message))
                (λ t k. yields k)
