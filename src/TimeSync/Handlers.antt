-- ===== src/TimeSync/Handlers.antt =====
-- The handlers of messages.c. Each gives the state of the node and what it sends, in order.
pub mod HelloReply
pub mod Invariant
pub mod ReplyInvariant
pub mod Sync
pub mod Source
use computer_networks_course.Prelude.{
  ℕ, zero, suc, ◌+◌, ◌-◌, ◌*◌, ◌/◌, ◌%◌, ◌^◌, ◌≤◌, ◌<◌, ◌≡◌, refl, sym, ap, ◌∙◌, ◌≢◌, ◌↔◌, ◌⊎◌, inl,
  inr, Bool, true, false, ◌&&◌, ◌||◌, not, Option, none, some, List, [], ◌∷◌, ◌++◌, map,
  append_assoc, append-nil, arith, ltb, leb, ◌==◌, if◌then◌else◌, ltb→lt, lt→ltb, leb→le, le→leb,
  ==_iff, ==-refl, if_true, if_false, Bool-cases, Option-cases, length, get_elem?, set, take, drop,
  replicate, length-append, length-set, length-replicate, length-take, length-drop, length-map,
  take-append, drop-append, take-append-drop, get_elem?-of_lt, List-cases, All, All-append, All-map,
  Text, codes, text_eq, text_eq_iff, text_eq_refl, ℤ, pos, negsuc, pos_part, neg_part, sub_ℕ, ◌≤ℤ◌,
  ltb_ℤ,
}
use computer_networks_course.Outcome.{Outcome, done, fault, ◌>>=◌, or_fault}
use computer_networks_course.TimeSync.Peers.{
  Addr, equal_addr, address_in_array, peer_list_contains, peer_list_add, peer_list_remove,
  peer_list_full,
}
use computer_networks_course.TimeSync.Clock.{
  Timespec, clock_unsynchronized, clock_leader, get_clock, set_event_in_x_seconds, update_offset,
}
use computer_networks_course.TimeSync.Codec.{
  hello_type, hello_reply_type, connect_type, ack_connect_type, sync_start_type, delay_request_type,
  delay_response_type, leader_type, get_time_type, time_type, read_number, create_simple_message,
  create_sync_level_and_timestamp_message, create_hello_reply_message, read_peer,
}
use computer_networks_course.TimeSync.NodeData.{NodeData, Readings, Packet}

abbrev pub leader_synchronization_delay : ℕ
leader_synchronization_delay = 2

abbrev pub synchronization_check_delay : ℕ
synchronization_check_delay = 20

abbrev pub delay_response_time : ℕ
delay_response_time = 5

abbrev pub Handled : Type 0
Handled = Outcome (NodeData × List Packet)

abbrev pub ignored : NodeData → Handled
ignored node = done (node, [])

abbrev pub wrong_size : ℕ → List ℕ → Bool
wrong_size size msg = not (length msg == size)

unfoldable pub handle_hello : NodeData → List ℕ → Addr → Handled
handle_hello node msg sender =
    let (peers, added) = peer_list_add node.peer_list sender in
    let answer : Handled =
      elim (create_hello_reply_message node.peer_list node.my_addresses sender) [
        | none ↦ ignored node
        | some reply ↦
            if ltb_ℤ added (pos 0)
            then done (record node { peer_list = peers }, [])
            else done (record node { peer_list = peers }, (reply, sender) ∷ [])
      ] in
    if wrong_size 1 msg
    then ignored node
    else if address_in_array sender node.my_addresses
    then ignored node
    else answer

-- The loop of check_hello_reply.
unfoldable pub check_peers : NodeData → Addr → ℕ → List ℕ → Outcome Bool
check_peers node sender zero buf = done true
check_peers node sender (suc count) buf = do
  (address_length, peer, rest) ← or_fault (read_peer buf)
  let more = check_peers node sender count rest
  if not (address_length == 4)
      then done false
      else if peer.sin_port == 0
      then done false
      else if equal_addr peer sender || address_in_array peer node.my_addresses
      then done false
      else more

-- memcpy of the count of peers of a HELLO_REPLY
abbrev pub read_count : List ℕ → Outcome ℕ
read_count msg = read_number 1 2 msg

unfoldable pub check_hello_reply : NodeData → List ℕ → Addr → Outcome Bool
check_hello_reply node msg sender =
    let records : Outcome Bool = (do
      count ← read_count msg
      let peers = check_peers node sender count (drop 3 msg)
      if wrong_size (3 + count * 7) msg then done false else peers) in
    if not node.waiting_for_hello_reply || not (equal_addr sender node.known_peer)
    then done false
    else if address_in_array sender node.my_addresses
    then done false
    else if ltb (length msg) 3
    then done false
    else records

-- The loop of handle_hello_reply: the list of the peers that are waited for, and the messages.
unfoldable pub connect_to_peers : ℕ → List ℕ → List Addr → Outcome (List Addr × List Packet)
connect_to_peers zero buf waiting = done (waiting, [])
connect_to_peers (suc count) buf waiting = do
  (address_length, peer, rest) ← or_fault (read_peer buf)
  (waiting', packets) ← connect_to_peers count rest (peer_list_add waiting peer).0
  done (waiting', (create_simple_message connect_type, peer) ∷ packets)

unfoldable pub handle_hello_reply : NodeData → List ℕ → Addr → Handled
handle_hello_reply node msg sender = do
  correct ← check_hello_reply node msg sender
  let accept : Handled = (do
    count ← read_count msg
    (waiting, packets) ← connect_to_peers count (drop 3 msg) node.waiting_for_ack_connect
    let node' = record node {
      waiting_for_hello_reply = false;
      waiting_for_ack_connect = waiting;
      peer_list = (peer_list_add node.peer_list sender).0;
    }
    done (node', packets))
  if correct then accept else ignored node

-- A new peer would not fit.
abbrev pub no_room : NodeData → Addr → Bool
no_room node sender =
    peer_list_full node.peer_list && not (peer_list_contains node.peer_list sender)

unfoldable pub handle_connect : NodeData → List ℕ → Addr → Handled
handle_connect node msg sender =
    if wrong_size 1 msg
    then ignored node
    else if no_room node sender
    then ignored node
    else if address_in_array sender node.my_addresses
    then ignored node
    else done (
      record node { peer_list = (peer_list_add node.peer_list sender).0 },
      (create_simple_message ack_connect_type, sender) ∷ [],
    )

unfoldable pub handle_ack_connect : NodeData → List ℕ → Addr → Handled
handle_ack_connect node msg sender =
    if wrong_size 1 msg
    then ignored node
    else if not (peer_list_contains node.waiting_for_ack_connect sender)
    then ignored node
    else if no_room node sender
    then ignored node
    else if address_in_array sender node.my_addresses
    then ignored node
    else done (
      record node {
        waiting_for_ack_connect = peer_list_remove node.waiting_for_ack_connect sender;
        peer_list = (peer_list_add node.peer_list sender).0;
      },
      [],
    )

-- `msg_buf[MESSAGE_SIZE]`
abbrev pub level_of : List ℕ → Outcome ℕ
level_of msg = or_fault (get_elem? msg 1)

-- memcpy of the time stamp
abbrev pub read_timestamp : List ℕ → Outcome ℕ
read_timestamp msg = read_number 2 8 msg

unfoldable pub check_sync_start : NodeData → List ℕ → Addr → Outcome Bool
check_sync_start node msg sender =
    let check : Outcome Bool = (do
      sender_sync_level ← level_of msg
      let known = peer_list_contains node.peer_list sender
      done (not (leb (clock_unsynchronized - 1) sender_sync_level || not known))) in
    if wrong_size 10 msg then done false else check

-- handle_sync_start from "We proceed to synchronization" on.
unfoldable pub proceed : Readings → NodeData → ℕ → Addr → ℕ → Handled
proceed clock node sender_timestamp sender sender_sync_level = done (
  record node {
    synchronizing = true;
    synchronizing_level = sender_sync_level;
    t1 = sender_timestamp;
    t2 = clock.first;
    peer_to_sync = sender;
    t3 = clock.second;
    waiting_for_delay_response = set_event_in_x_seconds clock.now delay_response_time;
  },
  (create_simple_message delay_request_type, sender) ∷ [],
)

-- handle_sync_start of a correct message.
unfoldable pub start_sync : Readings → NodeData → ℕ → Addr → ℕ → Handled
start_sync clock node sender_timestamp sender sender_sync_level =
    let synchronized_to_sender =
      ltb node.sync_level clock_unsynchronized && equal_addr sender node.synchronized_peer in
    let check = set_event_in_x_seconds clock.now synchronization_check_delay in
    if synchronized_to_sender
    then if leb node.sync_level sender_sync_level
      then ignored (record node { sync_level = clock_unsynchronized; offset_ms = pos 0 })
      else proceed clock (record node { next_sync_check = check }) sender_timestamp sender
          sender_sync_level
    else if leb node.sync_level (sender_sync_level + 1)
    then ignored node
    else proceed clock node sender_timestamp sender sender_sync_level

unfoldable pub handle_sync_start : Readings → NodeData → List ℕ → Addr → Handled
handle_sync_start clock node msg sender = do
  correct ← check_sync_start node msg sender
  let start : Handled = (do
    sender_sync_level ← level_of msg
    sender_timestamp ← read_timestamp msg
    start_sync clock node sender_timestamp sender sender_sync_level)
  if not correct then ignored node else if node.synchronizing then ignored node else start

unfoldable pub handle_delay_request : Readings → NodeData → List ℕ → Addr → Handled
handle_delay_request clock node msg sender =
    let time = get_clock clock.first node.sync_level node.offset_ms in
    let reply = create_sync_level_and_timestamp_message delay_response_type node.sync_level time in
    if wrong_size 1 msg
    then ignored node
    else if not (peer_list_contains node.asked_to_synchronize sender)
        || ltb ((node.last_sync_start + delay_response_time) % 2 ^ 64) clock.second
    then ignored node
    else done (node, (reply, sender) ∷ [])

-- handle_delay_response of a correct message.
unfoldable pub finish_sync : Readings → NodeData → ℕ → Addr → ℕ → Handled
finish_sync clock node sender_timestamp sender sender_sync_level = do
  let becomes_source =
      leb (clock_unsynchronized - 1) node.sync_level
      && ltb (sender_sync_level + 1) (clock_unsynchronized - 1)
  let start = if becomes_source then set_event_in_x_seconds clock.now 0 else node.next_sync_start
  offset ← update_offset node.t1 node.t2 node.t3 sender_timestamp
  done (
    record node {
      t4 = sender_timestamp;
      next_sync_start = start;
      sync_level = (sender_sync_level + 1) % 2 ^ 8;
      offset_ms = offset;
      synchronized_peer = sender;
      next_sync_check = set_event_in_x_seconds clock.now synchronization_check_delay;
      synchronizing = false;
    },
    [],
  )

unfoldable pub handle_delay_response : Readings → NodeData → List ℕ → Addr → Handled
handle_delay_response clock node msg sender =
    let answer : Handled = (do
      sender_sync_level ← level_of msg
      sender_timestamp ← read_timestamp msg
      let finish = finish_sync clock node sender_timestamp sender sender_sync_level
      if not (sender_sync_level == node.synchronizing_level) || ltb sender_timestamp node.t1
          then ignored node
          else finish) in
    if wrong_size 10 msg
    then ignored node
    else if not node.synchronizing || not (equal_addr sender node.peer_to_sync)
    then ignored node
    else answer

unfoldable pub handle_leader : Readings → NodeData → List ℕ → Addr → Handled
handle_leader clock node msg sender =
    let start = set_event_in_x_seconds clock.now leader_synchronization_delay in
    let answer : Handled = (do
      msg_sync ← level_of msg
      if msg_sync == clock_leader
          then ignored (record node { sync_level = clock_leader; next_sync_start = start })
          else if msg_sync == clock_unsynchronized
          then if not (node.sync_level == clock_leader)
            then ignored node
            else ignored (record node { sync_level = clock_unsynchronized })
          else ignored node) in
    if wrong_size 2 msg then ignored node else answer

unfoldable pub handle_get_time : Readings → NodeData → List ℕ → Addr → Handled
handle_get_time clock node msg sender =
    let time = get_clock clock.first node.sync_level node.offset_ms in
    let reply = create_sync_level_and_timestamp_message time_type node.sync_level time in
    if wrong_size 1 msg then ignored node else done (node, (reply, sender) ∷ [])

unfoldable pub handle_message : Readings → NodeData → List ℕ → Addr → Handled
handle_message clock node msg sender = do
  message_type ← or_fault (get_elem? msg 0)
  if message_type == hello_type
      then handle_hello node msg sender
      else if message_type == hello_reply_type
      then handle_hello_reply node msg sender
      else if message_type == connect_type
      then handle_connect node msg sender
      else if message_type == ack_connect_type
      then handle_ack_connect node msg sender
      else if message_type == sync_start_type
      then handle_sync_start clock node msg sender
      else if message_type == delay_request_type
      then handle_delay_request clock node msg sender
      else if message_type == delay_response_type
      then handle_delay_response clock node msg sender
      else if message_type == leader_type
      then handle_leader clock node msg sender
      else if message_type == get_time_type
      then handle_get_time clock node msg sender
      else ignored node
