-- ===== src/TimeSync/NodeData.antt =====
-- node_data.h: the state of a node. A peer list is kept in place of its id.
use computer_networks_course.Prelude.{ℕ, Bool, List, ℤ}
use computer_networks_course.TimeSync.Peers.{Addr}
use computer_networks_course.TimeSync.Clock.{Timespec}

pub record NodeData : Type 0 where
  pub my_addresses : List Addr
  pub known_peer : Addr
  pub peer_list : List Addr
  pub waiting_for_hello_reply : Bool
  pub waiting_for_ack_connect : List Addr
  pub sync_level : ℕ
  pub offset_ms : ℤ
  pub synchronized_peer : Addr
  pub next_sync_start : Timespec
  pub next_sync_check : Timespec
  pub last_sync_start : ℕ
  pub asked_to_synchronize : List Addr
  pub synchronizing : Bool
  pub synchronizing_level : ℕ
  pub peer_to_sync : Addr
  pub waiting_for_delay_response : Timespec
  pub t1 : ℕ
  pub t2 : ℕ
  pub t3 : ℕ
  pub t4 : ℕ

-- The readings of the clock while a message is handled, in turn: of the natural clock, of the
-- natural clock again, and of CLOCK_MONOTONIC.
pub record Readings : Type 0 where
  pub first : ℕ
  pub second : ℕ
  pub now : Timespec

-- What is sent: the bytes and the address.
abbrev pub Packet : Type 0
Packet = List ℕ × Addr
