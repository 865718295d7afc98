-- ===== src/Approximator/Client.antt =====
-- the-great-approximator, client_logic.cpp: the client, one module for each of its threads, their
-- shared state, and the interleavings of their turns.
pub mod Queue
pub mod State
pub mod Strategy
pub mod Network
pub mod Processor
pub mod Threads
pub mod Joining
