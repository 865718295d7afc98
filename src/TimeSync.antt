-- ===== src/TimeSync.antt =====
-- peer-time-sync: one module for each part of the node.
pub mod Peers
pub mod Arguments
pub mod Sockets
pub mod Clock
pub mod Codec
pub mod NodeData
pub mod Handlers
pub mod Timers
pub mod Tests
