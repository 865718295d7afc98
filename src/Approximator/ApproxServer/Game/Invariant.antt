-- ===== src/Approximator/ApproxServer/Game/Invariant.antt =====
-- The server in any order of operations: it comes to no fault, and stays well formed.
use computer_networks_course.Prelude.{
  ℕ, ◌≤◌, ◌≡◌, refl, inl, inr, false, none, some, List, [], ◌∷◌, ◌++◌, Option-cases, Text,
}
use computer_networks_course.Outcome.{
  Outcome, done, fatal, fault, ◌>>=◌, Ensures, returns, exits, Ensures-bind, Ensures-map,
  Ensures-Yields,
}
use computer_networks_course.Approximator.Constants.{Double, max_k, crlf}
use computer_networks_course.Approximator.MsgParser.Message.{
  Message, Body, hello, put, coeff, bad_put, penalty, state, scoring, create_message,
  create_message_with_crlf,
}
use computer_networks_course.Approximator.MsgParser.Message.Laws.{create_message_sound}
use computer_networks_course.Approximator.MsgParser.Printer.Laws.{Printable}
use computer_networks_course.Approximator.ServerLogic.Players.{PlayerInfo, lookup}
use computer_networks_course.Approximator.ServerLogic.State.{Server}
use computer_networks_course.Approximator.ServerLogic.Handlers.{
  handle_hello, handle_put, handle_client_message,
}
use computer_networks_course.Approximator.ServerLogic.PutInvariant.{handle_put-IsValid}
use computer_networks_course.Approximator.ServerLogic.HelloInvariant.{
  CoeffFile, handle_hello-IsValid,
}
use computer_networks_course.Approximator.ServerLogic.MessageInvariant.{Sensible, read-Sensible}
use computer_networks_course.Approximator.ApproxServer.Node.{handle_line}
use computer_networks_course.Approximator.ApproxServer.Game.{
  new_server, Operation, speaks, joins, leaves, fires, operate, perform,
}
use computer_networks_course.Approximator.ApproxServer.Game.Events.{
  handle_put-Clean, handle_hello-events,
}
use computer_networks_course.Approximator.ApproxServer.Game.Callbacks.{
  Good, Good-Clean, joins-Good, leaves-Good, fire_first-Good,
}

module _ {F : Type 0} ⦃d : Double F⦄ where
  -- What the main loop sees to: only a connected client speaks or leaves, and a new connection has a
  -- descriptor that is not in use.
  abbrev pub Allowed : Operation → Server F → Type 0
  Allowed (speaks now fd line) s = (p : PlayerInfo F) × (lookup fd s.players ≡ some p)
  Allowed (joins now fd ip port) s = lookup fd s.players ≡ none
  Allowed (leaves fd) s = (p : PlayerInfo F) × (lookup fd s.players ≡ some p)
  Allowed fires s = Unit

  abbrev pub Behind : Outcome (Server F) → (Server F → Type 0) → Type 0
  Behind (done s) P = P s
  Behind fatal P = Unit
  Behind fault P = Unit

  abbrev pub AllAllowed : List Operation → Server F → Type 0
  AllAllowed [] s = Unit
  AllAllowed (o ∷ os) s = Allowed o s × Behind (operate o s) (AllAllowed os)

module _ {F : Type 0} ⦃d : Double F⦄ (printable : Printable d) where
  message-Good :
      (now : ℕ) (s : Server F) (fd : ℕ) (p : PlayerInfo F) (line : Text) (msg : Message F)
      → create_message line ≡ some msg
      → lookup fd s.players ≡ some p
      → Good s
      → Ensures (λ r. Good r.0) (handle_client_message now s fd msg)
  unfolding handle_client_message
  message-Good now s fd p line msg em e g =
      let (_, _, ts, pm) = create_message_sound line msg em in
      rw e (by_body msg.body (read-Sensible msg.body msg.params pm ts))
    where
      by_body :
          (b : Body F)
          → Sensible b
          → Ensures
              (λ r. Good r.0)
              (elim b [
                | hello player_id ↦ handle_hello s fd player_id
                | put point value ↦ handle_put now s fd point value
                | _ ↦ done (s, false)
              ])
      by_body (hello i) ok =
          Ensures-map
            (λ r x. record {
              valid = x.0.0.0;
              events = x.1 g.events;
              file = x.0.1;
              few = rw (x.0.0.1.0) g.few;
            })
            (Ensures-Yields (handle_hello-IsValid s fd p i e ok g.file g.valid)
              (handle_hello-events s fd i))
      by_body (put z w) ok =
          Ensures-map (λ r x. Good-Clean s r.0 g x.0.0 x.1)
            (Ensures-Yields (handle_put-IsValid printable now s fd p z w g.few ok e g.valid)
              (handle_put-Clean now s fd z w ok))
      by_body (coeff cs) ok = returns g
      by_body (bad_put z w) ok = returns g
      by_body (penalty z w) ok = returns g
      by_body (state vs) ok = returns g
      by_body (scoring is vs) ok = returns g

  speaks-Good :
      (now : ℕ) (s : Server F) (fd : ℕ) (p : PlayerInfo F) (line : Text)
      → lookup fd s.players ≡ some p
      → Good s
      → Ensures Good (handle_line now s fd line)
  unfolding handle_line create_message_with_crlf
  speaks-Good now s fd p line e g = elim (Option-cases (create_message {F = F} (line ++ crlf))) [
    | inl none_read ↦ rw (none_read, handle_line) (returns g)
    | inr (msg, read) ↦
        rw (read, handle_line)
          (Ensures-bind (message-Good now s fd p (line ++ crlf) msg read e g) (λ r h. returns h))
  ]

  operate-Good : (o : Operation) (s : Server F) → Allowed o s → Good s → Ensures Good (operate o s)
  unfolding operate
  operate-Good (speaks now fd line) s a g = speaks-Good now s fd a.0 line a.1 g
  operate-Good (joins now fd ip port) s a g = joins-Good now fd ip port s a g
  operate-Good (leaves fd) s a g = leaves-Good s fd a.0 a.1 g
  operate-Good fires s a g = fire_first-Good printable s.events s g.events g.valid.timely g

  perform-keeps :
      (os : List Operation) (s : Server F) → AllAllowed os s → Good s → Ensures Good (perform os s)
  unfolding perform
  perform-keeps [] s a g = returns g
  perform-keeps (o ∷ os) s a g =
      onward (operate o s) (operate-Good o s a.0 g) a.1 (perform-keeps os)
    where
      onward :
          (m : Outcome (Server F))
          → Ensures Good m
          → Behind m (AllAllowed os)
          → ((s' : Server F) → AllAllowed os s' → Good s' → Ensures Good (perform os s'))
          → Ensures Good (m >>= perform os)
      onward (done s') (returns h) b go = go s' b h
      onward fatal h b go = exits
      onward fault h b go = h

  new_server-Good :
      (k n m : ℕ) (file : Text)
      → k ≤ max_k
      → CoeffFile d n file
      → Good (new_server {F = F} k n m file)
  new_server-Good k n m file small lines = record {
    valid = record { ordered = tt; players_ok = tt; counted = refl; timely = tt };
    events = tt;
    file = lines;
    few = small;
  }

  -- From the start of the server, any order of lines of the clients, new connections, ends of
  -- connections and calls of the events comes to no fault (the program may end by `fatal`), and
  -- leaves a server with players and events in order, as many counted puts as its players have
  -- made, and players that can be scored. Only connected clients speak and leave, a new connection
  -- has a descriptor that is not in use, K is at most K_max, values print as decimals that read
  -- back, and the lines of the coefficients file that are messages are COEFF with enough
  -- coefficients.
  pub perform-Good :
      (k n m : ℕ) (file : Text) (os : List Operation)
      → k ≤ max_k
      → CoeffFile d n file
      → AllAllowed os (new_server {F = F} k n m file)
      → Ensures Good (perform os (new_server {F = F} k n m file))
  perform-Good k n m file os small lines a =
      perform-keeps os (new_server {F = F} k n m file) a (new_server-Good k n m file small lines)
