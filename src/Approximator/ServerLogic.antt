-- ===== src/Approximator/ServerLogic.antt =====
-- server_logic.h and server_logic.cpp.
pub mod Players
pub mod State
pub mod Score
pub mod Handlers
pub mod Invariant
pub mod PutBehaviour
pub mod Announce
pub mod ScoreLaws
pub mod PutInvariant
pub mod HelloInvariant
pub mod MessageInvariant
