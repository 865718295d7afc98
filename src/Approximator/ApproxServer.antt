-- ===== src/Approximator/ApproxServer.antt =====
-- approx-server.cpp: the sockets of the server and its main loop.
pub mod Framing
pub mod Node
pub mod Game
pub mod Loop
pub mod ReadLaws
pub mod WriteLaws
