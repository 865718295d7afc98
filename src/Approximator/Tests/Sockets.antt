-- ===== src/Approximator/Tests/Sockets.antt =====
-- The theorems on the sockets at a concrete game.
use computer_networks_course.Prelude.{
  ℕ, ◌≡◌, refl, true, false, none, some, [], ◌∷◌, ◌++◌, arith, length, take, codes, text_eq, ℤ,
}
use computer_networks_course.Outcome.{done}
use computer_networks_course.Approximator.ApproxServer.Framing.{next_line, prepend, buffer_of}
use computer_networks_course.Approximator.ApproxServer.Node.{
  PollFd, Node, received, sent, read_lines, handle_read_from_client, handle_write_to_client,
}
use computer_networks_course.Approximator.ApproxServer.ReadLaws.{
  read_lines-enough, handle_read_from_client-unheard,
}
use computer_networks_course.Approximator.ApproxServer.WriteLaws.{
  concat, handle_write_to_client-conserves,
}
use computer_networks_course.Approximator.MsgParser.Message.{
  create_message_with_crlf, create_message,
}
use computer_networks_course.Approximator.MsgParser.Params.{
  extract_command_and_params, find, split_params,
}
use computer_networks_course.Approximator.MsgParser.Message.{parse_message}
use computer_networks_course.Approximator.ServerLogic.Players.{PlayerInfo, lookup}
use computer_networks_course.Approximator.Tests.FixedPoint.{fixed_point}
use computer_networks_course.Approximator.Tests.Data.{
  ann, newcomer, game, ann_connected, newcomer_connected, game-IsValid,
}

abbrev socket : ℕ → PollFd
socket n = record { fd = n; wants_out = false; hup = false; readable = true; writable = false }

-- The listening socket, and those of the two clients of the game.
abbrev node : Node ℤ
node = record {
  server = game;
  poll_fds = socket 3 ∷ socket 4 ∷ socket 5 ∷ [];
  client_buffers = (4, codes "") ∷ (5, codes "HE") ∷ [];
}

two_lines : next_line (codes "AB\r\nCD\r\n") ≡ some (codes "AB", codes "CD\r\n")
unfolding next_line prepend
two_lines = refl

short_buffer : length (buffer_of 5 node.client_buffers) ≡ 2
unfolding buffer_of
short_buffer = refl

read_lines-enough_example : read_lines 3 1000 node 5 2 ≡ read_lines 9 1000 node 5 2
read_lines-enough_example =
    read_lines-enough 3 9 1000 node 5 2 (omega (arith, short_buffer)) (omega (arith, short_buffer))

help_line :
    next_line (buffer_of 5 node.client_buffers ++ codes "LP\r\n") ≡ some (codes "HELP", codes "")
unfolding next_line prepend buffer_of
help_line = refl

no_help : create_message_with_crlf {F = ℤ} (codes "HELP") ≡ none
unfolding create_message_with_crlf create_message extract_command_and_params find split_params
    text_eq parse_message
no_help = refl

handle_read_from_client-unheard_example :
    (node' : Node ℤ) × (handle_read_from_client 1000 (received (codes "LP\r\n")) node 2
      ≡ done (node', 1, true))
    × (lookup 5 node'.server.players ≡ none)
handle_read_from_client-unheard_example =
    handle_read_from_client-unheard 1000 (codes "LP\r\n") node 2 (socket 5) newcomer (codes "HELP")
      (codes "") refl newcomer_connected refl help_line (rw no_help) game-IsValid

handle_write_to_client-conserves_example :
    (node' : Node ℤ) × (q : PlayerInfo ℤ) × (handle_write_to_client (sent 2) node 1
      ≡ done (node', 1, true))
    × (lookup 4 node'.server.players ≡ some q)
    × (take 2 (codes "abc") ++ concat q.messages ≡ concat ann.messages)
handle_write_to_client-conserves_example =
    handle_write_to_client-conserves node 1 2 (socket 4) ann (codes "abc") (codes "d" ∷ []) refl
      ann_connected refl (λ e. cc) (omega arith)
