-- ===== src/Approximator/ApproxServer/Game/Callbacks.antt =====
-- New connections, the ends of connections and the callbacks of events, in the middle of a game.
use computer_networks_course.Prelude.{
  ℕ, ◌≤◌, ◌≡◌, refl, inl, inr, true, none, some, List, [], ◌∷◌, arith, Option-cases, Text, ℤ,
}
use computer_networks_course.Outcome.{
  Ensures, returns, Ensures-bind, Ensures-map, Ensures-or_fault, Ensures-Yields, unless, Yields,
  yields, Yields-behind,
}
use computer_networks_course.Approximator.Constants.{Double, max_k}
use computer_networks_course.Approximator.EventManager.Laws.{SortedFrom, add_event-SortedFrom}
use computer_networks_course.Approximator.MsgParser.Integer.Laws.{in_int}
use computer_networks_course.Approximator.MsgParser.Printer.{create_bad_put}
use computer_networks_course.Approximator.MsgParser.Printer.Laws.{Printable, create_bad_put_total}
use computer_networks_course.Approximator.ServerLogic.Players.{
  PlayerInfo, lookup, lookup-assign_self,
}
use computer_networks_course.Approximator.ServerLogic.State.{
  Server, Event, hello_timeout, bad_put_response, state_response, player_of, with_player,
  append_message_back, register_new_client, handle_client_disconnect, same_client, call_bad_put,
  call_state,
}
use computer_networks_course.Approximator.ServerLogic.Invariant.{
  IsPlayer, IsValid, with_player-IsValid, lookup-IsPlayer, append_message_back-IsValid,
  handle_client_disconnect-IsValid, register_new_client-IsValid,
}
use computer_networks_course.Approximator.ServerLogic.HelloInvariant.{CoeffFile}
use computer_networks_course.Approximator.ApproxServer.Game.{joins, fire, fire_first, operate}
use computer_networks_course.Approximator.ApproxServer.Game.Events.{
  IsEvent, AreEvents, add_event-AreEvents, Clean, Clean-refl, append_message_back-Clean,
}

SortedFrom-lower :
    {E : Type 0} (lo hi : ℕ) (es : List (ℕ × E)) → lo ≤ hi → SortedFrom hi es → SortedFrom lo es
SortedFrom-lower lo hi [] h s = tt
SortedFrom-lower lo hi ((t, e) ∷ es) h s = (omega (arith, s.0), s.1)

-- A server in the middle of a game.
pub record Good {F : Type 0} ⦃d : Double F⦄ (s : Server F) : Type 0 where
  pub valid : IsValid s
  pub events : AreEvents s.events
  pub file : CoeffFile d s.n s.coeff_file
  pub few : s.k ≤ max_k

module _ {F : Type 0} ⦃d : Double F⦄ where
  -- What an operation leaves that reads nothing of the file.
  pub Good-Clean : (s t : Server F) → Good s → IsValid t → Clean s t → Good t
  Good-Clean s t g v c = record {
    valid = v;
    events = c.0 g.events;
    file = rw (c.1, c.2) g.file;
    few = rw c.3 g.few;
  }

  same_client-lookup :
      (s : Server F) (fd : ℕ) (ip : Text) (port : ℕ) (id : Text)
      → same_client s fd ip port id ≡ true
      → (p : PlayerInfo F) × (lookup fd s.players ≡ some p)
  unfolding same_client
  same_client-lookup s fd ip port id h = elim (Option-cases (lookup fd s.players)) [
    | inl e ↦ cc (rw (e, same_client) at h)
    | inr (p, e) ↦ (p, e)
  ]

  may_put :
      (n k : ℕ) (p : PlayerInfo F) → IsPlayer n k p → IsPlayer n k (record p { can_put = true })
  may_put n k p ok = record {
    points = ok.points;
    silent = ok.silent;
    valid_id = ok.valid_id;
    enough = ok.enough;
  }

  pub joins-Good :
      (now fd : ℕ) (ip : Text) (port : ℕ) (s : Server F)
      → lookup fd s.players ≡ none
      → Good s
      → Ensures Good (operate (joins now fd ip port) s)
  unfolding operate register_new_client
  joins-Good now fd ip port s e g =
      let v = register_new_client-IsValid s fd ip port e g.valid in
      returns (record {
        valid = record {
          ordered = v.ordered;
          players_ok = v.players_ok;
          counted = v.counted;
          timely = add_event-SortedFrom _ _ 0 s.events (omega arith) g.valid.timely;
        };
        events = add_event-AreEvents _ _ s.events tt g.events;
        file = g.file;
        few = g.few;
      })

  disconnect-Clean : (s : Server F) (fd : ℕ) → Yields (Clean s) (handle_client_disconnect s fd)
  unfolding handle_client_disconnect
  disconnect-Clean s fd = Yields-behind (player_of s fd) (λ p. yields (Clean-refl s))

  pub leaves-Good :
      (s : Server F) (fd : ℕ) (p : PlayerInfo F)
      → lookup fd s.players ≡ some p
      → Good s
      → Ensures Good (handle_client_disconnect s fd)
  leaves-Good s fd p e g =
      Ensures-map (λ t h. Good-Clean s t g h.0.0 h.1)
        (Ensures-Yields (handle_client_disconnect-IsValid s fd p e g.valid).1
          (disconnect-Clean s fd))

  -- A message at the end of the queue of a connected client.
  queued-Good :
      (s : Server F) (fd : ℕ) (p : PlayerInfo F) (msg : Text)
      → lookup fd s.players ≡ some p
      → Good s
      → Ensures Good (append_message_back s fd msg)
  queued-Good s fd p msg e g =
      Ensures-map (λ t h. Good-Clean s t g h.0 h.1)
        (Ensures-Yields (append_message_back-IsValid s fd p msg e g.valid)
          (append_message_back-Clean s fd msg))

  still_connected :
      (s : Server F) (fd : ℕ) (msg : Text)
      → Yields
          (λ t. (q : PlayerInfo F) × (lookup fd t.players ≡ some q))
          (append_message_back s fd msg)
  unfolding append_message_back
  still_connected s fd msg =
      Yields-behind (player_of s fd) (λ p. yields (_, lookup-assign_self fd _ s.players))

  allowed-Good :
      (s : Server F) (fd : ℕ) (q : PlayerInfo F)
      → lookup fd s.players ≡ some q
      → Good s
      → Good (with_player s fd (record q { can_put = true }))
  allowed-Good s fd q e g =
      Good-Clean s _ g
        (with_player-IsValid s fd q _ e (may_put s.n s.k q (lookup-IsPlayer s fd q e g.valid)) refl
          g.valid)
        (Clean-refl s)

  call_state-Good :
      (s : Server F) (fd : ℕ) (msg ip : Text) (port : ℕ) (id : Text)
      → Good s
      → Ensures Good (call_state s fd msg ip port id)
  unfolding call_state
  call_state-Good s fd msg ip port id g =
      unless (same_client s fd ip port id)
        (λ h.
          let (p, e) = same_client-lookup s fd ip port id h in
          Ensures-bind (Ensures-Yields (queued-Good s fd p msg e g) (still_connected s fd msg))
            λ t k.
              Ensures-bind (Ensures-or_fault (lookup fd t.players) k.1.1)
                λ q l. returns (allowed-Good t fd q l.1 k.0))
        (λ h. returns g)

module _ {F : Type 0} ⦃d : Double F⦄ (printable : Printable d) where
  call_bad_put-Good :
      (s : Server F) (fd : ℕ) (point : ℤ) (value : F) (ip : Text) (port : ℕ) (id : Text)
      → in_int point ≡ true
      → Good s
      → Ensures Good (call_bad_put s fd point value ip port id)
  unfolding call_bad_put
  call_bad_put-Good s fd point value ip port id small g =
      unless (same_client s fd ip port id)
        (λ h.
          let (p, e) = same_client-lookup s fd ip port id h in
          let (msg, em) = create_bad_put_total printable point value small in
          Ensures-bind (Ensures-or_fault (lookup fd s.players) e) λ q k.
            Ensures-bind (Ensures-or_fault (create_bad_put point value) em) λ m l.
              queued-Good (with_player s fd (record q { can_put = true })) fd _ m.raw_message
                (lookup-assign_self fd _ s.players) (allowed-Good s fd q k.1 g))
        (λ h. returns g)

  pub fire_first-Good :
      (es : List (ℕ × Event F)) (s : Server F)
      → AreEvents es
      → SortedFrom 0 es
      → Good s
      → Ensures Good (fire_first es s)
  unfolding fire_first fire
  fire_first-Good [] s h o g = returns g
  fire_first-Good ((t, e) ∷ es) s h o g = by_event e h.0
    where
      behind : Good (record s { events = es })
      behind = record {
        valid = record {
          ordered = g.valid.ordered;
          players_ok = g.valid.players_ok;
          counted = g.valid.counted;
          timely = SortedFrom-lower 0 t es (omega arith) o.1;
        };
        events = h.1;
        file = g.file;
        few = g.few;
      }

      by_event : (f : Event F) → IsEvent f → Ensures Good (fire f (record s { events = es }))
      by_event (hello_timeout fd ip port) k = returns behind
      by_event (bad_put_response fd point value ip port id) k =
          call_bad_put-Good _ fd point value ip port id k behind
      by_event (state_response fd msg ip port id) k = call_state-Good _ fd msg ip port id behind
