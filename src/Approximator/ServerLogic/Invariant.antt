-- ===== src/Approximator/ServerLogic/Invariant.antt =====
-- What every operation of the server keeps.
use computer_networks_course.Prelude.{
  ℕ, ◌+◌, ◌≤◌, ◌≡◌, refl, ◌∙◌, true, false, none, some, [], ◌∷◌, ◌++◌, arith, ==-refl, length,
  length-replicate, Text,
}
use computer_networks_course.Approximator.Constants.{Double}
use computer_networks_course.Approximator.EventManager.Laws.{SortedFrom}
use computer_networks_course.Approximator.MsgParser.Printer.Scoring.{IsId}
use computer_networks_course.Outcome.{Ensures, returns, Ensures-bind, Ensures-or_fault}
use computer_networks_course.Approximator.ServerLogic.Players.{
  PlayerInfo, lookup, Rising, puts, Every, lookup-erase, assign-Rising, erase-Rising, puts-lookup,
  puts-erase, puts-assign, puts-assign_new, Every-assign, Every-erase, Every-lookup,
}
use computer_networks_course.Approximator.ServerLogic.State.{
  Server, with_player, append_message_back, handle_client_disconnect, register_new_client,
}

-- A player of a game with the points 0..k and polynomials of degree n: one value for each point; a
-- client that has not said HELLO has put nothing; one that has can be scored.
pub record IsPlayer {F : Type 0} (n k : ℕ) (p : PlayerInfo F) : Type 0 where
  pub points : length p.approximations ≡ k + 1
  pub silent : p.is_known ≡ false → p.correct_puts ≡ 0
  pub valid_id : p.is_known ≡ true → IsId p.id
  pub enough : p.is_known ≡ true → n + 1 ≤ length p.coefficients

-- The players are kept in order, each is well formed, the total is the sum of their puts, and the
-- events are in order.
pub record IsValid {F : Type 0} (s : Server F) : Type 0 where
  pub ordered : Rising 0 s.players
  pub players_ok : Every (IsPlayer s.n s.k) s.players
  pub counted : s.total_correct_puts ≡ puts s.players
  pub timely : SortedFrom 0 s.events

-- The arguments of the program do not change.
abbrev pub SameGame : {F : Type 0} → Server F → Server F → Type 0
SameGame s t = (t.k ≡ s.k) × (t.n ≡ s.n) × (t.m ≡ s.m)

module _ {F : Type 0} where
  -- Replacing a player by one with as many puts.
  pub with_player-IsValid :
      (s : Server F) (fd : ℕ) (p q : PlayerInfo F)
      → lookup fd s.players ≡ some p
      → IsPlayer s.n s.k q
      → q.correct_puts ≡ p.correct_puts
      → IsValid s
      → IsValid (with_player s fd q)
  with_player-IsValid s fd p q e ok same v = record {
    ordered = assign-Rising fd 0 q s.players v.ordered (omega arith);
    players_ok = Every-assign (IsPlayer s.n s.k) fd q s.players v.players_ok ok;
    counted = omega (arith, puts-assign fd 0 s.players q v.ordered e);
    timely = v.timely;
  }

  pub lookup-IsPlayer :
      (s : Server F) (fd : ℕ) (p : PlayerInfo F)
      → lookup fd s.players ≡ some p
      → IsValid s
      → IsPlayer s.n s.k p
  lookup-IsPlayer s fd p e v = Every-lookup (IsPlayer s.n s.k) fd p s.players v.players_ok e

  -- The message queue of a player is not part of the invariant.
  pub append_message_back-IsValid :
      (s : Server F) (fd : ℕ) (p : PlayerInfo F) (msg : Text)
      → lookup fd s.players ≡ some p
      → IsValid s
      → Ensures IsValid (append_message_back s fd msg)
  unfolding append_message_back
  append_message_back-IsValid s fd p msg e v =
      Ensures-bind (Ensures-or_fault (lookup fd s.players) e) λ q h.
        returns (with_player-IsValid s fd q _ h.1 (queue q (lookup-IsPlayer s fd q h.1 v)) refl v)
    where
      queue :
          (q : PlayerInfo F)
          → IsPlayer s.n s.k q
          → IsPlayer s.n s.k (record q { messages = q.messages ++ msg ∷ [] })
      queue q ok = record {
        points = ok.points;
        silent = ok.silent;
        valid_id = ok.valid_id;
        enough = ok.enough;
      }

  -- A connected client that leaves a valid server takes its puts with it: the subtraction does not
  -- go below zero, and the server stays valid, without the client.
  pub handle_client_disconnect-IsValid :
      (s : Server F) (fd : ℕ) (p : PlayerInfo F)
      → lookup fd s.players ≡ some p
      → IsValid s
      → (p.correct_puts ≤ s.total_correct_puts)
        × Ensures
            (λ t. IsValid t × SameGame s t × (lookup fd t.players ≡ none))
            (handle_client_disconnect s fd)
  unfolding handle_client_disconnect
  handle_client_disconnect-IsValid s fd p e v = (
    omega (arith, puts-lookup fd s.players e, v.counted),
    Ensures-bind (Ensures-or_fault (lookup fd s.players) e) λ q h. returns (
      record {
        ordered = erase-Rising fd 0 s.players v.ordered;
        players_ok = Every-erase (IsPlayer s.n s.k) fd s.players v.players_ok;
        counted = omega (arith, puts-erase fd s.players h.1, v.counted);
        timely = v.timely;
      },
      (refl, refl, refl),
      lookup-erase fd fd 0 s.players v.ordered ∙ rw (==-refl fd),
    ),
  )

module _ {F : Type 0} ⦃d : Double F⦄ where
  -- A new client, under a descriptor that is not in use, leaves a valid server valid.
  pub register_new_client-IsValid :
      (s : Server F) (fd : ℕ) (ip : Text) (port : ℕ)
      → lookup fd s.players ≡ none
      → IsValid s
      → IsValid (register_new_client s fd ip port)
  unfolding register_new_client
  register_new_client-IsValid s fd ip port e v = record {
    ordered = assign-Rising fd 0 _ s.players v.ordered (omega arith);
    players_ok = Every-assign (IsPlayer s.n s.k) fd _ s.players v.players_ok (record {
      points = length-replicate (s.k + 1) _;
      silent = λ _. refl;
      valid_id = λ h. absurd (cc h);
      enough = λ h. absurd (cc h);
    });
    counted = omega (arith, puts-assign_new fd 0 s.players _ v.ordered e, v.counted);
    timely = v.timely;
  }
