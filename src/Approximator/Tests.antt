-- ===== src/Approximator/Tests.antt =====
-- Runs of the program's functions on concrete data, and the theorems at them.
pub mod FixedPoint
pub mod Rounding
mod Messages
pub mod Data
mod Game
mod Sockets
pub mod Client
mod Play
mod Setup
mod Session
