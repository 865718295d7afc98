-- ===== src/TimeSync/Timers.antt =====
-- The timers of messages.c, and the messages that a node sends of its own.
pub mod Laws
pub mod Run
use computer_networks_course.Prelude.{
  ℕ, zero, suc, ◌+◌, ◌-◌, ◌*◌, ◌/◌, ◌%◌, ◌^◌, ◌≤◌, ◌<◌, ◌≡◌, refl, sym, ap, ◌∙◌, ◌≢◌, ◌↔◌, ◌⊎◌, inl,
  inr, Bool, true, false, ◌&&◌, ◌||◌, not, Option, none, some, List, [], ◌∷◌, ◌++◌, map,
  append_assoc, append-nil, arith, ltb, leb, ◌==◌, if◌then◌else◌, ltb→lt, lt→ltb, leb→le, le→leb,
  ==_iff, ==-refl, if_true, if_false, Bool-cases, Option-cases, length, get_elem?, set, take, drop,
  replicate, length-append, length-set, length-replicate, length-take, length-drop, length-map,
  take-append, drop-append, take-append-drop, get_elem?-of_lt, List-cases, All, All-append, All-map,
  Text, codes, text_eq, text_eq_iff, text_eq_refl, ℤ, pos, negsuc, pos_part, neg_part, sub_ℕ, ◌≤ℤ◌,
  ltb_ℤ,
}
use computer_networks_course.TimeSync.Peers.{Addr}
use computer_networks_course.TimeSync.Clock.{
  Timespec, clock_unsynchronized, clock_leader, get_clock, set_event_in_x_seconds, now_is_after,
}
use computer_networks_course.TimeSync.Codec.{
  hello_type, sync_start_type, create_simple_message, create_sync_level_and_timestamp_message,
}
use computer_networks_course.TimeSync.NodeData.{NodeData, Readings, Packet}
use computer_networks_course.TimeSync.Handlers.{handle_message}
use computer_networks_course.Outcome.{Outcome, done, ◌>>=◌}

abbrev pub sync_start_delay : ℕ
sync_start_delay = 5

unfoldable pub send_hello_message : NodeData → List Packet
send_hello_message node = (create_simple_message hello_type, node.known_peer) ∷ []

-- The first half of check_and_handle_timers: the peer that the node follows is silent.
unfoldable pub check_sync_source : Timespec → NodeData → NodeData
check_sync_source now node =
    if ltb clock_leader node.sync_level
      && ltb node.sync_level clock_unsynchronized
      && now_is_after now node.next_sync_check
    then record node { sync_level = clock_unsynchronized; offset_ms = pos 0 }
    else node

-- The loop over the iterator of the peer list.
unfoldable pub sync_starts : ℕ → ℕ → List Addr → List Packet
sync_starts sync_level time [] = []
sync_starts sync_level time (p ∷ ps) =
    (create_sync_level_and_timestamp_message sync_start_type sync_level time, p)
    ∷ sync_starts sync_level time ps

-- peer_list_cpy, if the iterator is valid.
unfoldable pub asked_after : List Addr → List Addr → List Addr
asked_after [] asked = asked
asked_after (p ∷ ps) asked = p ∷ ps

-- The second half of check_and_handle_timers.
unfoldable pub send_sync_starts : Readings → NodeData → NodeData × List Packet
send_sync_starts clock node =
    let time = get_clock clock.first node.sync_level node.offset_ms in
    if ltb node.sync_level (clock_unsynchronized - 1) && now_is_after clock.now node.next_sync_start
    then (
      record node {
        asked_to_synchronize = asked_after node.peer_list node.asked_to_synchronize;
        last_sync_start = clock.second;
        next_sync_start = set_event_in_x_seconds clock.now sync_start_delay;
      },
      sync_starts node.sync_level time node.peer_list,
    )
    else (node, [])

-- check_and_handle_timers
unfoldable pub check_and_handle_timers : Readings → NodeData → NodeData × List Packet
check_and_handle_timers clock node = send_sync_starts clock (check_sync_source clock.now node)

-- initialize_node_data, with what the memory held; `known_peer` is set by main.
unfoldable pub initialize_node_data : NodeData → List Addr → NodeData
initialize_node_data memory my_addresses = record memory {
  my_addresses = my_addresses;
  peer_list = [];
  waiting_for_hello_reply = false;
  waiting_for_ack_connect = [];
  sync_level = clock_unsynchronized;
  offset_ms = pos 0;
  last_sync_start = 0;
  synchronizing = false;
  asked_to_synchronize = [];
}

-- main behind initialize_node_data: a known peer is greeted.
unfoldable pub greet : Option Addr → NodeData → NodeData × List Packet
greet none node = (node, [])
greet (some peer) node =
    let node' = record node { waiting_for_hello_reply = true; known_peer = peer } in
    (node', send_hello_message node')

-- One turn of the main loop: the timers, and the datagram received, if there is one; an empty one
-- is reported and dropped.
unfoldable pub node_turn :
    Readings → Readings → Option (List ℕ × Addr) → NodeData → Outcome (NodeData × List Packet)
node_turn timers clock datagram node =
    let (node', packets) = check_and_handle_timers timers node in
    elim datagram [
      | none ↦ done (node', packets)
      | some (msg, sender) ↦
          let handled = handle_message clock node' msg sender >>= λ r. done (r.0, packets ++ r.1) in
          if length msg == 0 then done (node', packets) else handled
    ]
