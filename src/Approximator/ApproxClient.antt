-- ===== src/Approximator/ApproxClient.antt =====
-- approx-client.cpp: the client from its command line to its threads. What the resolver and the
-- sockets do is an argument, as in Networking.
pub mod Laws
use computer_networks_course.Prelude.{ℕ, if◌then◌else◌, Option, List, Text}
use computer_networks_course.Outcome.{Outcome, done, ◌>>=◌}
use computer_networks_course.Approximator.Constants.{Double}
use computer_networks_course.Approximator.Arguments.{ClientOption, ClientArgs, client_arg_parser}
use computer_networks_course.Approximator.Networking.{
  Family, Address, hinted_family, connect_to_server,
}
use computer_networks_course.Approximator.Client.Threads.{System, Turn, start, run}
use computer_networks_course.Approximator.Client.Joining.{
  Closing, Running, all_running, join_threads,
}

-- The resolver: the addresses of a host, for the family of the hints and the port.
abbrev pub Resolver : Type 0
Resolver = Text → ℕ → Family → Option (List Address)

module _ {F : Type 0} where
  -- ClientLogic and make_connection: the client in front of its threads, and the open descriptors.
  unfoldable pub make_connection : Resolver → ℕ → ClientArgs → List ℕ → Outcome (System F × List ℕ)
  make_connection resolve n args fds = do
    let family = hinted_family args.force_ipv4 args.force_ipv6
    (server, fds') ←
        connect_to_server (resolve args.server_address args.server_port family) args.server_port fds
    done (start n args.player_id args.auto_strategy server.1 server.2, fds')

  -- main in front of start_threads_and_send_hello; `port` and `n` are what two fields hold before
  -- they are set.
  unfoldable pub connected_client :
      List ClientOption → List Text → ℕ → ℕ → Resolver → List ℕ → Outcome (System F × List ℕ)
  connected_client os extra port n resolve fds = do
    args ← client_arg_parser os extra port
    make_connection resolve n args fds

module _ {F : Type 0} ⦃d : Double F⦄ where
  -- main, for an order of the turns of the threads and, if it comes to the end of the game, of the
  -- steps behind it: the system, and the threads that still run.
  unfoldable pub approx_client :
      List ClientOption
      → List Text
      → ℕ
      → ℕ
      → Resolver
      → List ℕ
      → List Turn
      → List Closing
      → Outcome (System F × Running)
  approx_client os extra port n resolve fds ts cs = do
    started ← connected_client os extra port n resolve fds
    s ← run ts started.0
    let joined = join_threads cs (s, all_running)
    if s.client.game_over then joined else done (s, all_running)
