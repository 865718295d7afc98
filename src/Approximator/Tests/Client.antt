-- ===== src/Approximator/Tests/Client.antt =====
-- The automatic client in short games: the coefficients and a state arrive, and it makes its puts.
use computer_networks_course.Prelude.{
  ℕ, ◌+◌, ◌*◌, ◌/◌, ◌^◌, ◌≤◌, ◌≡◌, ◌↔◌, refl, ap, true, false, some, [], ◌∷◌, ◌++◌, arith,
  if◌then◌else◌, codes, ℤ, pos, ltb,
}
use computer_networks_course.Outcome.{done, fault, ◌>>=◌}
use computer_networks_course.Approximator.MsgParser.Message.{create_message, Message, put}
use computer_networks_course.Approximator.ServerLogic.Score.{player_poly_at}
use computer_networks_course.Approximator.ServerLogic.Handlers.{out_of_range}
use computer_networks_course.Approximator.Client.State.{Client}
use computer_networks_course.Approximator.Client.Strategy.{
  poll_timeout, waiting, poly_at, get_best_put,
}
use computer_networks_course.Approximator.Client.Strategy.Maximum.{Order}
use computer_networks_course.Approximator.Client.Strategy.BestPut.{
  IsBest, get_best_put-IsBest, last_point,
}
use computer_networks_course.Approximator.Client.Strategy.Accepted.{get_best_put-accepted}
use computer_networks_course.Approximator.Tests.Rounding.{fixed_point-Monotone}
use computer_networks_course.Approximator.MsgParser.Printer.{create_put}
use computer_networks_course.Approximator.Client.Strategy.Poly.{Exact, poly_at-player_poly_at}
use computer_networks_course.Approximator.Client.Network.{wrote, receive_bytes, write_some}
use computer_networks_course.Approximator.Client.Network.Framing.{receive_bytes-append}
use computer_networks_course.Approximator.Client.Processor.{learn_points}
use computer_networks_course.Approximator.Client.Processor.Points.{learn_points-fault_iff}
use computer_networks_course.Approximator.Client.Threads.{
  System, choosing_put, written, send_from, network_sender, run,
}
use computer_networks_course.Approximator.Client.Threads.Valid.{IsValid}
use computer_networks_course.Approximator.Client.Threads.Sending.{stream, network_sender-conserves}
use computer_networks_course.Approximator.Client.Threads.Liveness.{run-puts}
use computer_networks_course.Approximator.Tests.FixedPoint.{
  fixed_point, fixed_point-Printable, scale,
}
use computer_networks_course.Approximator.Tests.Messages.{ann_valid}
use computer_networks_course.Approximator.Tests.Data.{ann, game}

pub fixed_point-Order : Order fixed_point
fixed_point-Order = record {
  irreflexive = λ a. ground arith;
  transitive = λ a b c h k. ground arith;
  total = λ a b c h k. ground arith;
  bounds = refl;
}

scaled : (a b : ℕ) → (a * 100000000 + 0) * (b * 100000000 + 0) / 100000000 ≡ a * b * 100000000
scaled a b =
    let e : (a * 100000000 + 0) * (b * 100000000 + 0) ≡ (a * b * 100000000) * 100000000 =
      grind arith in
    omega (arith, e)

pos_scale : (a : ℕ) → scale (pos a) 100000000 ≡ pos (a * 100000000)
pos_scale a = ground arith

fixed_point-Exact : Exact fixed_point
fixed_point-Exact = record {
  one = refl;
  product = λ a b h. rw (pos_scale a, pos_scale b, pos_scale (a * b)) (ap pos (scaled a b));
}

-- A client that knows the polynomial 1 + x, and no point but 0 and 1.
abbrev ready : Client ℤ
ready = record {
  player_id = codes "ann";
  is_auto_strategy = true;
  server_info = [];
  full_info = [];
  coeffs = pos 100000000 ∷ pos 100000000 ∷ [];
  n = 1;
  game_over = false;
  incoming_messages = [];
  outgoing_messages = [];
  logs = [];
  k = 0;
  k_set = false;
  puts_without_answer = 0;
  current_approximation = pos 0 ∷ pos 0 ∷ [];
  real_values = pos 100000000 ∷ pos 200000000 ∷ [];
}

abbrev ready_system : System ℤ
ready_system = record {
  client = ready;
  greeted = true;
  input_buffer = [];
  phase = waiting;
  receiver = record { recv_buffer = []; is_first_message = false };
  unsent = [];
  sent = [];
  progress = record { is_first_message = false; scoring_received = false };
  console = [];
}

ready_system-IsValid : IsValid ready_system
ready_system-IsValid = record {
  client = record {
    named = ((λ e. cc), ann_valid);
    outgoing = tt;
    incoming = tt;
    few = omega arith;
  };
  ready = λ _. ((refl, refl), omega arith);
  fresh = λ e. absurd (cc e);
  phase = tt;
}

poly_at-player_poly_at_example : poly_at ready 1 ≡ (
    if ltb (1 ^ 2) (2 ^ 31)
    then player_poly_at game (record ann { coefficients = ready.coeffs }) 1
    else fault)
poly_at-player_poly_at_example =
    poly_at-player_poly_at fixed_point-Exact ready game (record ann { coefficients = ready.coeffs })
      1 refl refl (omega arith)

learn_points-fault_iff_example : (learn_points 50000 ready ≡ fault) ↔ (2 ^ 31 ≤ 50000 ^ 2)
learn_points-fault_iff_example = learn_points-fault_iff ready 50000 (omega arith)

get_best_put-IsBest_example :
    (c' : Client ℤ) × (i : ℕ) × (value : ℤ) × (get_best_put ready ≡ done (c', i, value))
    × IsBest ready i value c'
get_best_put-IsBest_example = get_best_put-IsBest fixed_point-Order ready (refl, refl)

get_best_put-accepted_example :
    (c' : Client ℤ) × (i : ℕ) × (value value' : ℤ) × (msg : Message ℤ) × (get_best_put ready
      ≡ done (c', i, value))
    × (create_put (pos i) value ≡ some msg)
    × (create_message msg.raw_message ≡ some msg)
    × (msg.body ≡ put (pos i) value')
    × (out_of_range game (pos i) value' ≡ false)
get_best_put-accepted_example =
    get_best_put-accepted fixed_point-Order fixed_point-Printable fixed_point-Monotone ready game
      (refl, refl) (omega arith) (omega arith)

run-puts_example :
    (s' : System ℤ) × (point : ℕ) × (value value' : ℤ) × (msg : Message ℤ) × (run
        (choosing_put poll_timeout
          ∷ choosing_put poll_timeout
          ∷ choosing_put poll_timeout
          ∷ choosing_put poll_timeout
          ∷ [])
        ready_system
      ≡ done s')
    × (s'.client.outgoing_messages ≡ [] ++ some msg ∷ [])
    × (msg.body ≡ put (pos point) value')
    × (s'.client.puts_without_answer ≡ 1)
    × (s'.phase ≡ waiting)
    × (point ≤ last_point ready)
run-puts_example =
    run-puts fixed_point-Order fixed_point-Printable poll_timeout poll_timeout poll_timeout
      poll_timeout ready_system ready_system-IsValid refl refl refl refl refl

-- The end of a line, and the beginning of the next.
receive_bytes-append_example :
    receive_bytes
      (codes "EFF 1 2\r\nST" ++ codes "ATE 0 0\r\n")
      (record { recv_buffer = codes "CO"; is_first_message = true })
      ready
    ≡ (receive_bytes
          (codes "EFF 1 2\r\nST")
          (record { recv_buffer = codes "CO"; is_first_message = true })
          ready
        >>= λ (r', c'). receive_bytes (codes "ATE 0 0\r\n") r' c')
receive_bytes-append_example =
    receive_bytes-append (codes "EFF 1 2\r\nST") (codes "ATE 0 0\r\n")
      (record { recv_buffer = codes "CO"; is_first_message = true }) ready

abbrev sending_system : System ℤ
sending_system = record ready_system { unsent = codes "ann\r\n"; sent = codes "HELLO " }

written_three :
    network_sender (wrote 3) sending_system
    ≡ done (record sending_system { unsent = codes "\r\n"; sent = codes "HELLO ann" })
unfolding network_sender send_from write_some written
written_three = refl

network_sender-conserves_example :
    stream (record sending_system { unsent = codes "\r\n"; sent = codes "HELLO ann" })
    ≡ stream sending_system
network_sender-conserves_example =
    network_sender-conserves (wrote 3) sending_system refl written_three
