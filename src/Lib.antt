-- ===== src/Lib.antt =====
-- Two course projects on computer networks: the-great-approximator, a game over TCP, and
-- peer-time-sync, nodes that synchronize their clocks over UDP.
--
-- the-great-approximator. The server reads lines that end with CRLF from its clients and answers
-- them; a client says HELLO, gets the coefficients of its polynomial, and approximates its values at
-- the points 0..K by PUT, until M puts have counted. Its files are those of
-- the-great-approximator/; the modules are below Approximator:
--   MsgParser (Chars, Integer, Decimal, Params, Message, Printer): msg_parser.cpp. `create_message`
--     is Message::createMessage, `parse_*` are the `parseMessage` of the subclasses, and
--     `create_put`, `create_state`, … the factories that print a message and parse it. A `nullptr`
--     and a `false` with an output parameter are `none`.
--   EventManager: server_events.cpp, the multimap of deadlines as a list.
--   ServerLogic (Players, State, Score, Handlers): server_logic.cpp. `Server` has the members of
--     ServerLogic, the list of events in place of the EventManager, and what is left to read of the
--     coefficients file. A callback is an `Event` with what it captures.
--   ApproxServer (Framing, Node, Loop): approx-server.cpp. `Node` is the state at file scope;
--     `server_turn` is a turn of the main loop, with the results of the system calls as arguments.
--     `Game` is what the loop asks of ServerLogic and the EventManager, in any order: `perform`.
--   Client (Queue, State, Strategy, Network, Processor, Threads, Joining): ts_queue.h and
--     client_logic.cpp. `Client` has the members of ClientLogic, and `System` also the locals of its
--     threads and what is written to the socket and the console. `turn` is what a thread does from
--     one access to what the threads share to the next, so that `run`, over any list of turns, is any
--     order of the threads; the lines of one `recv` or of one `read`, and a message with what it
--     changes, are one turn together. In Joining, `join_threads` is any order of what the threads
--     still do behind the end of the game, and of their ends; it returns where `nobody_runs`.
--     Overflow of the powers of poly_at, reading behind the end of a vector and a null message are
--     faults.
--   Arguments, Networking, ApproxClient: arg_parser.cpp, networking.cpp and approx-client.cpp.
--     `client_arg_parser` and `server_arg_parser` take the list of the options that getopt gives;
--     the functions of Networking take the results of their system calls and give the open
--     descriptors; `approx_client` is main of the client, with a resolver, an order of turns
--     and one of the steps behind the end of the game.
--   Strtoul (beside Approximator): std::strtoul with base 10, for both programs.
--   A `double` is a type F with the operations of `Double` (Constants), std::stod and the printing
--   with seven digits among them. `Order` says that `<` is an order on the values (none is NaN),
--   `Monotone` that adding eps takes no value below a bound that it is not below, nor subtracting it
--   above one, that printing and reading keep the order of values, and that the bounds of a put read
--   back as they are, `Exact` that small products of integers are exact, and `Printable` that a
--   printed value is a decimal number that std::stod reads to its end; FixedPoint below Tests is an
--   arithmetic that has all four.
--
-- peer-time-sync. A node learns of its peers by HELLO and CONNECT, and takes over the time of one of
-- them by SYNC_START, DELAY_REQUEST and DELAY_RESPONSE. Its files are those of peer-time-sync/; the
-- modules are below TimeSync:
--   Peers: peers.cpp, and the comparisons of networking.c. The sets are sorted lists, kept in
--     `NodeData` in place of their ids; Peers.Store has the vectors of sets and iterators, by ids,
--     with peer_list_create, peer_list_cpy and the iterators, and Peers.Iteration the loops over
--     them. The bytes of an address are those of a little-endian machine.
--   Clock: clock.c. The readings of the system's clock are arguments.
--   Codec, NodeData, Handlers, Timers: messages.c, node_data.h, and the loop of main.c. A handler
--     gives the state and the packets that it sends. A number that is read behind the end of the
--     datagram is a fault.
--   Arguments, Sockets: arg_parser.c, and what networking.c, err.c and main.c do with addresses, for
--     given results of the system calls.
--
-- `Outcome` is how a step ends: with a result, by `fatal`, or by a fault, which stands for a failed
-- assertion, a null pointer that is followed, an index out of bounds or a signed overflow. The
-- makefile turns assertions off; a step without fault runs the same way with and without them.
-- `Ensures` says that there is no fault. The clock is read once for the calls of one handler that
-- follow one another. Loops are structural but for these: the digits of a number have fuel above the
-- number, the lines of a buffer have fuel above its length, the client sockets have as many turns as
-- there are sockets, since each turn moves on or removes one, `reset_server` is told how many
-- messages a client can have, and a loop over a peer list has fuel of its length.
--
-- Not modelled: getopt, the resolver, the sockets and the clock of the system, which are arguments;
-- err.cpp and err.c but for error_msg_hex, clock_init, register_node_data, and what is printed on
-- stdout and stderr but for the logs of the client. The waits of the condition variables are turns
-- of the waiting thread.
pub mod Prelude
pub mod Outcome
pub mod Strtoul
pub mod Approximator
pub mod TimeSync
