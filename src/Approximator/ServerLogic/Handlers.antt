-- ===== src/Approximator/ServerLogic/Handlers.antt =====
-- handle_client_message, handle_hello, handle_put and the responses. Times are milliseconds.
use computer_networks_course.Prelude.{
  ℕ, ◌+◌, ◌*◌, Bool, true, false, ◌||◌, not, List, [], ◌∷◌, ◌++◌, leb, ◌==◌, if◌then◌else◌,
  get_elem?, set, Text, ℤ, pos, negsuc, ltb_ℤ,
}
use computer_networks_course.Approximator.Constants.{
  Double, eps, min_put_value, max_put_value, early_put_penalty, bad_put_penalty, bad_put_delay,
}
use computer_networks_course.Approximator.EventManager.{add_event}
use computer_networks_course.Approximator.MsgParser.Chars.{islower}
use computer_networks_course.Approximator.MsgParser.Message.{
  Message, hello, coeff, put, create_message,
}
use computer_networks_course.Approximator.MsgParser.Printer.{create_penalty, create_state}
use computer_networks_course.Outcome.{Outcome, done, fault, ◌>>=◌, or_fault, or_fatal}
use computer_networks_course.Approximator.ServerLogic.State.{
  Server, bad_put_response, state_response, player_of, with_player, append_message_back,
}
use computer_networks_course.Approximator.ServerLogic.Score.{game_over}

-- std::getline up to '\n', which is read and dropped: the line, and what is left.
unfoldable pub getline : Text → Text × Text
getline [] = ([], [])
getline (c ∷ s) = let (line, rest) = getline s in if c == b'\n' then ([], s) else (c ∷ line, rest)

-- std::count_if with std::islower
unfoldable pub count_lower : Text → ℕ
count_lower [] = 0
count_lower (c ∷ s) = (if islower c then 1 else 0) + count_lower s

module _ {F : Type 0} ⦃d : Double F⦄ where
  -- `dynamic_cast<CoeffMessage*>(…)->getCoeffs()`
  abbrev pub get_coeffs : Message F → Outcome (List F)
  get_coeffs msg = elim msg.body [ coeff cs ↦ done cs | _ ↦ fault ]

  unfoldable pub handle_hello : Server F → ℕ → Text → Outcome (Server F × Bool)
  handle_hello s fd player_id = do
    player ← player_of s fd
    let (line, rest) = getline s.coeff_file
    let accepted = do
      coeff_msg ← or_fatal (create_message (line ++ b'\n' ∷ []))
      coefficients ← get_coeffs coeff_msg
      let player' = record player {
        id = player_id;
        delay = count_lower player_id;
        is_known = true;
        can_put = true;
        coefficients = coefficients;
      }
      s' ←
          append_message_back (with_player (record s { coeff_file = rest }) fd player') fd
            coeff_msg.raw_message
      done (s', true)
    if player.is_known then done (s, false) else accepted

  unfoldable pub respond_with_penalty : Server F → ℕ → ℤ → F → Outcome (Server F)
  respond_with_penalty s fd point value = do
    player ← player_of s fd
    penalty_msg ← or_fault (create_penalty point value)
    append_message_back
        (with_player s fd (record player {
          penalty = d.add player.penalty (d.of_int early_put_penalty);
          can_put = true;
        }))
        fd penalty_msg.raw_message

  unfoldable pub respond_with_bad_put : ℕ → Server F → ℕ → ℤ → F → Outcome (Server F)
  respond_with_bad_put now s fd point value = do
    player ← player_of s fd
    let player' = record player { penalty = d.add player.penalty (d.of_int bad_put_penalty) }
    let event = bad_put_response fd point value player.ip player.port player.id
    let s' = with_player s fd player'
    done (record s' { events = add_event event (now + bad_put_delay * 1000) s.events })

  unfoldable pub respond_with_state : ℕ → Server F → ℕ → Text → Outcome (Server F)
  respond_with_state now s fd state_msg = do
    player ← player_of s fd
    let event = state_response fd state_msg player.ip player.port player.id
    done (record s { events = add_event event (now + player.delay * 1000) s.events })

  -- The point lies outside 0..K, or the value outside its range by more than eps.
  unfoldable pub out_of_range : Server F → ℤ → F → Bool
  out_of_range s point value =
      (ltb_ℤ point (pos 0) || ltb_ℤ (pos s.k) point)
      || (d.lt (d.add value eps) min_put_value || d.lt max_put_value (d.sub value eps))

  -- `player.approximations[point] += value`
  unfoldable pub add_to_approximation : List F → ℤ → F → Outcome (List F)
  add_to_approximation approximations (negsuc i) value = fault
  add_to_approximation approximations (pos i) value = do
    a ← or_fault (get_elem? approximations i)
    done (set approximations i (d.add a value))

  -- handle_put behind its guards: the put counts.
  unfoldable pub accept_put : ℕ → Server F → ℕ → ℤ → F → Outcome (Server F × Bool)
  accept_put now s fd point value = do
    player ← player_of s fd
    approximations ← add_to_approximation player.approximations point value
    let player' = record player {
      correct_puts = player.correct_puts + 1;
      approximations = approximations;
    }
    let s1 = with_player (record s { total_correct_puts = s.total_correct_puts + 1 }) fd player'
    state_msg ← or_fault (create_state approximations)
    s2 ← respond_with_state now s1 fd state_msg.raw_message
    let over = game_over s2
    s3 ← (if leb s2.m s2.total_correct_puts then over else done s2)
    done (s3, true)

  -- `player.can_put = false`
  unfoldable pub forbid_put : Server F → ℕ → Outcome (Server F)
  forbid_put s fd = do
    player ← player_of s fd
    done (with_player s fd (record player { can_put = false }))

  -- handle_put of a known player, who may be `early`, with a put that may be `bad`.
  unfoldable pub put_known : ℕ → Server F → ℕ → ℤ → F → Bool → Bool → Outcome (Server F × Bool)
  put_known now s fd point value early bad = do
    s1 ← (if early then respond_with_penalty s fd point value else done s)
    s2 ← forbid_put s1 fd
    s3 ← (if bad then respond_with_bad_put now s2 fd point value else done s2)
    (if early || bad then done (s3, false) else accept_put now s3 fd point value)

  unfoldable pub handle_put : ℕ → Server F → ℕ → ℤ → F → Outcome (Server F × Bool)
  handle_put now s fd point value = do
    player ← player_of s fd
    let early = not player.can_put
    let bad = out_of_range s point value
    let known = put_known now s fd point value early bad
    if player.is_known then known else done (s, false)

  -- handle_client_message; `false` says that the message was unexpected.
  unfoldable pub handle_client_message : ℕ → Server F → ℕ → Message F → Outcome (Server F × Bool)
  handle_client_message now s fd msg = do
    player ← player_of s fd
    elim msg.body [
      | hello player_id ↦ handle_hello s fd player_id
      | put point value ↦ handle_put now s fd point value
      | _ ↦ done (s, false)
    ]
