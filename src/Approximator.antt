-- ===== src/Approximator.antt =====
-- the-great-approximator: one module for each part of the game server and client.
pub mod Constants
pub mod MsgParser
pub mod EventManager
pub mod ServerLogic
pub mod Arguments
pub mod Networking
pub mod Client
pub mod ApproxClient
pub mod Tests
pub mod ApproxServer
