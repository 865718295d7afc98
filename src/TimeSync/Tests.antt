-- ===== src/TimeSync/Tests.antt =====
-- The theorems on the node of peer-time-sync at concrete nodes.
mod Start
use computer_networks_course.Prelude.{
  ℕ, ◌+◌, ◌*◌, ◌≤◌, ◌<◌, ◌≡◌, refl, ap, ◌⊎◌, true, false, ◌&&◌, ◌||◌, not, none, some, List, [],
  ◌∷◌, ◌++◌, arith, leb, ◌==◌, if◌then◌else◌, length, pos, negsuc, sub_ℕ, ltb_ℤ,
}
use computer_networks_course.Outcome.{done, Ensures}
use computer_networks_course.TimeSync.Peers.{
  Addr, addr_less, equal_addr, is_excluded, address_in_array, peer_list_contains, peer_list_add,
  peer_list_remove, peer_list_full, peer_list_write_to_buf_excl,
}
use computer_networks_course.TimeSync.Peers.Laws.{
  IsPeerList, peer_list_add_lem, peer_list_remove_lem,
}
use computer_networks_course.TimeSync.Peers.Writing.{
  kept, encode, create_hello_reply_message_lem, peer_list_write_to_buf_excl_lem,
}
use computer_networks_course.TimeSync.Clock.{
  Timespec, get_natural_clock, get_clock, update_offset, clock_unsynchronized,
}
use computer_networks_course.TimeSync.Clock.Laws.{
  elapsed_ns, get_natural_clock_bounds, update_offset_exact,
}
use computer_networks_course.TimeSync.Codec.{
  buffer_size, hello_type, hello_reply_type, delay_request_type, delay_response_type, network_bytes,
  create_hello_reply_message, create_sync_level_and_timestamp_message,
}
use computer_networks_course.TimeSync.NodeData.{NodeData, Readings}
use computer_networks_course.TimeSync.Handlers.{
  handle_hello, handle_hello_reply, handle_message, handle_sync_start, handle_delay_request,
  delay_response_time,
}
use computer_networks_course.TimeSync.Handlers.HelloReply.{
  add_all, connects, handle_hello-handle_hello_reply,
}
use computer_networks_course.TimeSync.Handlers.Invariant.{IsTime, IsNode}
use computer_networks_course.TimeSync.Timers.{check_and_handle_timers, initialize_node_data}
use computer_networks_course.TimeSync.Timers.Run.{synchronization}
use computer_networks_course.TimeSync.Clock.{to_int64}
use computer_networks_course.TimeSync.Handlers.Source.{GoodSource, handle_sync_start-GoodSource}
use computer_networks_course.TimeSync.Codec.{sync_start_type}
use computer_networks_course.TimeSync.Timers.Laws.{
  initialize_node_data-IsNode, synchronizing_stays, handle_delay_request_window,
}

abbrev addr : ℕ → Addr
addr n = record { s_addr = n; sin_port = 80 }

abbrev at : ℕ → Timespec
at s = record { tv_sec = s; tv_nsec = 0 }

-- A node at `addr n` that waits for HELLO_REPLY from `addr 1`, asks for DELAY_RESPONSE, and has one
-- peer.
abbrev node : ℕ → NodeData
node n = record {
  my_addresses = addr n ∷ [];
  known_peer = addr 1;
  peer_list = addr 7 ∷ [];
  waiting_for_hello_reply = true;
  waiting_for_ack_connect = [];
  sync_level = 3;
  offset_ms = pos 0;
  synchronized_peer = addr 7;
  next_sync_start = at 0;
  next_sync_check = at 0;
  last_sync_start = 100;
  asked_to_synchronize = addr 7 ∷ [];
  synchronizing = true;
  synchronizing_level = 2;
  peer_to_sync = addr 7;
  waiting_for_delay_response = at 0;
  t1 = 5;
  t2 = 6;
  t3 = 7;
  t4 = 0;
}

abbrev clock : Readings
clock = record { first = 102; second = 103; now = at 9 }

one_peer : IsPeerList (addr 7 ∷ [])
one_peer = record { sorted = (tt, tt); fits = omega arith }

other_address :
    (a : Addr)
    → address_in_array a (addr 2 ∷ []) ≡ true
    → peer_list_contains (addr 7 ∷ []) a ≡ false
unfolding address_in_array equal_addr peer_list_contains addr_less
other_address a mine = ground arith

node-IsNode : IsNode (node 2)
node-IsNode = record {
  peers = one_peer;
  waiting = record { sorted = tt; fits = omega arith };
  asked = one_peer;
  not_mine = other_address;
  level = omega arith;
  source = λ _. omega arith;
  times = λ _. (omega arith, omega arith, omega arith);
}

-- DELAY_RESPONSE of level 2 at 300 ms.
abbrev response : List ℕ
response = 13 ∷ 2 ∷ 0 ∷ 0 ∷ 0 ∷ 0 ∷ 0 ∷ 0 ∷ 1 ∷ 44 ∷ []

initialize_node_data-IsNode_example : IsNode (initialize_node_data (node 1) (addr 2 ∷ []))
initialize_node_data-IsNode_example = initialize_node_data-IsNode (node 1) (addr 2 ∷ [])

synchronizing_stays_example :
    Ensures (λ r. r ≡ (node 2, [])) (handle_sync_start clock (node 2) response (addr 7))
    × ((check_and_handle_timers clock (node 2)).0.synchronizing ≡ true)
synchronizing_stays_example = synchronizing_stays clock (node 2) response (addr 7) refl node-IsNode

asked : peer_list_contains (addr 7 ∷ []) (addr 7) ≡ true
unfolding peer_list_contains addr_less
asked = refl

handle_delay_request_window_example :
    (103 ≤ 100 + 5
      → handle_delay_request clock (node 2) (delay_request_type ∷ []) (addr 7)
        ≡ done (
          node 2,
          (
            create_sync_level_and_timestamp_message delay_response_type 3 (get_clock 102 3 (pos 0)),
            addr 7,
          )
              ∷ [],
        ))
    × (100 + 5 < 103
        → 103 ≤ 100 + delay_response_time * 1000
        → handle_delay_request clock (node 2) (delay_request_type ∷ []) (addr 7)
          ≡ done (node 2, []))
handle_delay_request_window_example =
    handle_delay_request_window clock (node 2) (addr 7) asked (omega arith)

peer_list_add_lem_example :
    IsPeerList (peer_list_add (addr 7 ∷ []) (addr 3)).0
    × (((peer_list_add (addr 7 ∷ []) (addr 3) ≡ (addr 7 ∷ [], pos 0))
          × (peer_list_contains (addr 7 ∷ []) (addr 3) ≡ true))
        ⊎ ((peer_list_add (addr 7 ∷ []) (addr 3) ≡ (addr 7 ∷ [], negsuc 0))
            × (peer_list_full (addr 7 ∷ []) ≡ true))
        ⊎ (((peer_list_add (addr 7 ∷ []) (addr 3)).1 ≡ pos 1)
            × (peer_list_contains (addr 7 ∷ []) (addr 3) ≡ false)
            × ((b : Addr)
                → peer_list_contains (peer_list_add (addr 7 ∷ []) (addr 3)).0 b
                  ≡ (equal_addr (addr 3) b || peer_list_contains (addr 7 ∷ []) b))))
peer_list_add_lem_example = peer_list_add_lem (addr 7 ∷ []) (addr 3) one_peer

create_hello_reply_message_lem_example :
    create_hello_reply_message (addr 7 ∷ addr 9 ∷ []) (addr 1 ∷ []) (addr 9) ≡ (
      if leb buffer_size (3 + length (kept (addr 1 ∷ []) (addr 9) (addr 7 ∷ addr 9 ∷ [])) * 7)
      then none
      else some (
          hello_reply_type
            ∷ network_bytes 2 (length (kept (addr 1 ∷ []) (addr 9) (addr 7 ∷ addr 9 ∷ [])))
          ++ encode (kept (addr 1 ∷ []) (addr 9) (addr 7 ∷ addr 9 ∷ []))))
create_hello_reply_message_lem_example =
    create_hello_reply_message_lem (addr 1 ∷ []) (addr 9) (addr 7 ∷ addr 9 ∷ []) (omega arith)

mine : address_in_array (addr 1) (addr 1 ∷ []) ≡ true
unfolding address_in_array equal_addr
mine = refl

not_mine : address_in_array (addr 2) (addr 1 ∷ []) ≡ false
unfolding address_in_array equal_addr
not_mine = refl

room : ltb_ℤ (peer_list_add (addr 7 ∷ []) (addr 2)).1 (pos 0) ≡ false
unfolding peer_list_add peer_list_contains addr_less
room = refl

one_kept : kept (addr 1 ∷ []) (addr 2) (addr 7 ∷ []) ≡ addr 7 ∷ []
unfolding kept is_excluded address_in_array equal_addr
one_kept = refl

handle_hello-handle_hello_reply_example :
    (reply : List ℕ) × (handle_hello (node 1) (hello_type ∷ []) (addr 2)
      ≡ done (
        record (node 1) { peer_list = (peer_list_add (addr 7 ∷ []) (addr 2)).0 },
        (reply, addr 2) ∷ [],
      ))
    × (handle_hello_reply (node 2) reply (addr 1)
        ≡ done (
          record (node 2) {
            waiting_for_hello_reply = false;
            waiting_for_ack_connect = add_all [] (kept (addr 1 ∷ []) (addr 2) (addr 7 ∷ []));
            peer_list = (peer_list_add (addr 7 ∷ []) (addr 1)).0;
          },
          connects (kept (addr 1 ∷ []) (addr 2) (addr 7 ∷ [])),
        ))
handle_hello-handle_hello_reply_example =
    handle_hello-handle_hello_reply (node 1) (node 2) (addr 1) (addr 2) one_peer
      ((record { address = omega arith; port = omega arith }, refl), tt) mine not_mine refl refl
      refl room (omega (arith, ap length one_kept))

update_offset_exact_example :
    (update_offset 100 60 80 130 ≡ done (sub_ℕ 0 45))
    × ((level l r : ℕ)
        → level < clock_unsynchronized
        → IsTime l
        → l + 45 ≡ r + 0
        → get_clock l level (sub_ℕ 0 45) ≡ r)
update_offset_exact_example =
    update_offset_exact 100 60 80 130 0 45 5 (omega arith) (omega arith) (omega arith) (omega arith)
      refl refl

-- A node that is not synchronized, and idle.
abbrev idle_node : NodeData
idle_node = record (node 2) { sync_level = 255; synchronizing = false }

idle_known : peer_list_contains (addr 7 ∷ []) (addr 7) ≡ true
unfolding peer_list_contains addr_less
idle_known = refl

abbrev later : Readings
later = record { first = 60; second = 80; now = at 1 }

leader_time : 130 ≡ get_clock 130 0 (pos 0)
unfolding get_clock to_int64
leader_time = refl

-- The leader asked the node at 127 ms.
abbrev leader : NodeData
leader = record (node 1) { sync_level = 0; last_sync_start = 127 }

abbrev answering : Readings
answering = record { first = 130; second = 130; now = at 1 }

synchronization_example :
    (b1 b2 : NodeData) × (request reply : List ℕ) × (handle_message later idle_node
        (create_sync_level_and_timestamp_message sync_start_type 0 100)
        (addr 7)
      ≡ done (b1, (request, addr 7) ∷ []))
    × (handle_message answering leader request (addr 7) ≡ done (leader, (reply, addr 7) ∷ []))
    × (handle_message clock b1 reply (addr 7) ≡ done (b2, []))
    × (b2.sync_level ≡ 0 + 1)
    × (b2.synchronized_peer ≡ addr 7)
    × (b2.synchronizing ≡ false)
    × ((l r : ℕ) → IsTime l → l + 45 ≡ r + 0 → get_clock l b2.sync_level b2.offset_ms ≡ r)
synchronization_example =
    synchronization leader idle_node (addr 7) (addr 7) answering later clock 100 130 0 45 5
      (omega arith) refl refl idle_known idle_known (omega arith) leader_time (omega arith)
      (omega arith) (omega arith) (omega arith) (omega arith) (omega arith) refl refl

handle_sync_start-GoodSource_example :
    Ensures (GoodSource idle_node (addr 7)) (handle_sync_start clock idle_node response (addr 7))
handle_sync_start-GoodSource_example =
    handle_sync_start-GoodSource clock idle_node response (addr 7) refl
