-- ===== src/Approximator/ServerLogic/State.antt =====
-- The members of ServerLogic and its operations but the message handlers. The EventManager that it
-- holds by reference is the list of events; the coefficients file is what is left to read of it.
use computer_networks_course.Prelude.{
  ℕ, ◌+◌, ◌-◌, Bool, true, false, ◌&&◌, none, some, List, [], ◌∷◌, ◌++◌, ◌==◌, if◌then◌else◌,
  replicate, Text, codes, text_eq, ℤ, pos,
}
use computer_networks_course.Approximator.Constants.{Double}
use computer_networks_course.Approximator.MsgParser.Printer.{create_bad_put}
use computer_networks_course.Outcome.{Outcome, done, fault, ◌>>=◌, or_fault}
use computer_networks_course.Approximator.ServerLogic.Players.{
  PlayerInfo, Players, lookup, assign, erase,
}

-- The callbacks that are put off, with what they capture.
pub data Event (F : Type 0) : Type 0 where
  -- of handle_new_connection: client_fd, ip_str, port
  hello_timeout : ℕ → Text → ℕ → Event F
  -- of respond_with_bad_put: client_fd, point, value, client_ip, client_port, client_id
  bad_put_response : ℕ → ℤ → F → Text → ℕ → Text → Event F
  -- of respond_with_state: client_fd, state_msg, client_ip, client_port, client_id
  state_response : ℕ → Text → Text → ℕ → Text → Event F

pub record Server (F : Type 0) : Type 0 where
  pub k : ℕ
  pub n : ℕ
  pub m : ℕ
  pub total_correct_puts : ℕ
  pub coeff_file : Text
  pub players : Players F
  pub events : List (ℕ × Event F)
  pub stopping : Bool

module _ {F : Type 0} where
  -- `players[client_fd]` behind the assertion that the client is connected.
  abbrev pub player_of : Server F → ℕ → Outcome (PlayerInfo F)
  player_of s fd = or_fault (lookup fd s.players)

  abbrev pub with_player : Server F → ℕ → PlayerInfo F → Server F
  with_player s fd p = record s { players = assign fd p s.players }

  unfoldable pub is_client_connected : Server F → ℕ → Bool
  is_client_connected s fd = elim (lookup fd s.players) [ none ↦ false | some p ↦ true ]

  unfoldable pub validate_client : Server F → ℕ → Text → ℕ → Bool
  validate_client s fd ip port = elim (lookup fd s.players) [
    | none ↦ false
    | some p ↦ text_eq p.ip ip && p.port == port
  ]

  unfoldable pub has_pending_messages : Server F → ℕ → Outcome Bool
  has_pending_messages s fd = do
    p ← player_of s fd
    done (elim p.messages [ [] ↦ false | m ∷ ms ↦ true ])

  -- `front` of an empty deque is a fault.
  unfoldable pub take_next_message_str : Server F → ℕ → Outcome (Server F × Text)
  take_next_message_str s fd = do
    p ← player_of s fd
    elim p.messages [
      | [] ↦ fault
      | m ∷ ms ↦ done (with_player s fd (record p { messages = ms }), m)
    ]

  unfoldable pub append_message_front : Server F → ℕ → Text → Outcome (Server F)
  append_message_front s fd msg = do
    p ← player_of s fd
    done (with_player s fd (record p { messages = msg ∷ p.messages }))

  unfoldable pub append_message_back : Server F → ℕ → Text → Outcome (Server F)
  append_message_back s fd msg = do
    p ← player_of s fd
    done (with_player s fd (record p { messages = p.messages ++ msg ∷ [] }))

  unfoldable pub handle_client_disconnect : Server F → ℕ → Outcome (Server F)
  handle_client_disconnect s fd = do
    p ← player_of s fd
    done (record s {
      total_correct_puts = s.total_correct_puts - p.correct_puts;
      players = erase fd s.players;
    })

  -- ServerLogic::reset
  unfoldable pub reset : Server F → Server F
  reset s = record s { events = []; total_correct_puts = 0; players = []; stopping = false }

module _ {F : Type 0} ⦃d : Double F⦄ where
  unfoldable pub register_new_client : Server F → ℕ → Text → ℕ → Server F
  register_new_client s fd ip port = with_player s fd (record {
    id = codes "UNKNOWN";
    ip = ip;
    port = port;
    messages = [];
    approximations = replicate (s.k + 1) (d.literal (pos 0) 0);
    coefficients = replicate (s.n + 1) (d.literal (pos 0) 0);
    penalty = d.literal (pos 0) 0;
    is_known = false;
    correct_puts = 0;
    can_put = false;
    delay = 0;
  })

  -- The test of both responses: the same client, with the same id, is still connected.
  unfoldable pub same_client : Server F → ℕ → Text → ℕ → Text → Bool
  same_client s fd ip port id = elim (lookup fd s.players) [
    | none ↦ false
    | some p ↦ (text_eq p.ip ip && p.port == port) && text_eq p.id id
  ]

  -- The callback of respond_with_bad_put.
  unfoldable pub call_bad_put : Server F → ℕ → ℤ → F → Text → ℕ → Text → Outcome (Server F)
  call_bad_put s fd point value ip port id =
      let answer = (do
        p ← player_of s fd
        msg ← or_fault (create_bad_put point value)
        append_message_back (with_player s fd (record p { can_put = true })) fd msg.raw_message) in
      if same_client s fd ip port id then answer else done s

  -- The callback of respond_with_state.
  unfoldable pub call_state : Server F → ℕ → Text → Text → ℕ → Text → Outcome (Server F)
  call_state s fd state_msg ip port id =
      let answer = (do
        s' ← append_message_back s fd state_msg
        p ← player_of s' fd
        done (with_player s' fd (record p { can_put = true }))) in
      if same_client s fd ip port id then answer else done s
