-- ===== src/TimeSync/Timers/Laws.antt =====
-- The timers and the main loop keep the node well formed; what a node that synchronizes waits for.
use computer_networks_course.Prelude.{
  ℕ, ◌+◌, ◌-◌, ◌*◌, ◌%◌, ◌^◌, ◌≤◌, ◌<◌, ◌≡◌, refl, sym, ◌∙◌, inl, inr, true, false, ◌&&◌, ◌||◌, not,
  List, [], ◌∷◌, arith, ltb, if_true, if_false, Bool-cases,
}
use computer_networks_course.Outcome.{unless, done, Ensures, returns, Ensures-bind}
use computer_networks_course.TimeSync.Peers.{Addr, peer_list_contains}
use computer_networks_course.TimeSync.Peers.Laws.{IsPeerList}
use computer_networks_course.TimeSync.Clock.{
  Timespec, clock_unsynchronized, clock_leader, get_clock, now_is_after,
}
use computer_networks_course.TimeSync.Codec.{
  delay_request_type, delay_response_type, create_sync_level_and_timestamp_message,
}
use computer_networks_course.TimeSync.NodeData.{NodeData, Readings}
use computer_networks_course.TimeSync.Handlers.{
  delay_response_time, handle_sync_start, handle_delay_request,
}
use computer_networks_course.TimeSync.Handlers.Invariant.{IsTime, IsNode}
use computer_networks_course.TimeSync.Handlers.Sync.{check_sync_start_total}
use computer_networks_course.TimeSync.Timers.{
  check_sync_source, asked_after, send_sync_starts, check_and_handle_timers, initialize_node_data,
}

check_sync_source-IsNode :
    (now : Timespec) (node : NodeData)
    → IsNode node
    → IsNode (check_sync_source now node)
      × ((check_sync_source now node).my_addresses ≡ node.my_addresses)
      × ((check_sync_source now node).synchronizing ≡ node.synchronizing)
unfolding check_sync_source
check_sync_source-IsNode now node v =
    elim (Bool-cases (
      ltb clock_leader node.sync_level
      && ltb node.sync_level clock_unsynchronized
      && now_is_after now node.next_sync_check)) [
        | inr stays ↦ rw stays (v, refl, refl)
        | inl lost ↦ rw lost (
          record {
            peers = v.peers;
            waiting = v.waiting;
            asked = v.asked;
            not_mine = v.not_mine;
            level = omega arith;
            source = v.source;
            times = v.times;
          },
          refl,
          refl,
        )
      ]

asked_after-IsPeerList :
    (ps asked : List Addr) → IsPeerList ps → IsPeerList asked → IsPeerList (asked_after ps asked)
unfolding asked_after
asked_after-IsPeerList [] asked v w = w
asked_after-IsPeerList (p ∷ ps) asked v w = v

send_sync_starts-IsNode :
    (clock : Readings) (node : NodeData)
    → IsNode node
    → IsNode (send_sync_starts clock node).0
      × ((send_sync_starts clock node).0.my_addresses ≡ node.my_addresses)
      × ((send_sync_starts clock node).0.synchronizing ≡ node.synchronizing)
unfolding send_sync_starts
send_sync_starts-IsNode clock node v =
    elim (Bool-cases (
      ltb node.sync_level (clock_unsynchronized - 1)
      && now_is_after clock.now node.next_sync_start)) [
        | inr quiet ↦ rw quiet (v, refl, refl)
        | inl sends ↦ rw sends (
          record {
            peers = v.peers;
            waiting = v.waiting;
            asked = asked_after-IsPeerList node.peer_list node.asked_to_synchronize v.peers v.asked;
            not_mine = v.not_mine;
            level = v.level;
            source = v.source;
            times = v.times;
          },
          refl,
          refl,
        )
      ]

timers-IsNode :
    (clock : Readings) (node : NodeData)
    → IsNode node
    → IsNode (check_and_handle_timers clock node).0
      × ((check_and_handle_timers clock node).0.my_addresses ≡ node.my_addresses)
      × ((check_and_handle_timers clock node).0.synchronizing ≡ node.synchronizing)
unfolding check_and_handle_timers
timers-IsNode clock node v =
    let (w, e, f) = check_sync_source-IsNode clock.now node v in
    let (x, e', f') = send_sync_starts-IsNode clock (check_sync_source clock.now node) w in
    (x, e' ∙ e, f' ∙ f)

-- A new node is well formed.
pub initialize_node_data-IsNode :
    (memory : NodeData) (my_addresses : List Addr)
    → IsNode (initialize_node_data memory my_addresses)
unfolding initialize_node_data peer_list_contains
initialize_node_data-IsNode memory my_addresses = record {
  peers = record { sorted = tt; fits = omega arith };
  waiting = record { sorted = tt; fits = omega arith };
  asked = record { sorted = tt; fits = omega arith };
  not_mine = λ a mine. refl;
  level = omega arith;
  source = λ e. absurd (cc e);
  times = λ e. absurd (cc e);
}

-- A well-formed node that waits for a DELAY_RESPONSE takes no SYNC_START, from any sender, and the
-- timers, at any time, also past the deadline for the response, do not end the wait.
pub synchronizing_stays :
    (clock : Readings) (node : NodeData) (msg : List ℕ) (sender : Addr)
    → node.synchronizing ≡ true
    → IsNode node
    → Ensures (λ r. r ≡ (node, [])) (handle_sync_start clock node msg sender)
      × ((check_and_handle_timers clock node).0.synchronizing ≡ true)
unfolding handle_sync_start
synchronizing_stays clock node msg sender waits v = (
  Ensures-bind (check_sync_start_total node msg sender) λ correct h.
      unless (not correct) (λ _. returns refl)
        λ ok.
          unless node.synchronizing (λ _. returns refl) (λ stops. absurd (cc (sym waits ∙ stops))),
  (timers-IsNode clock node v).2 ∙ waits,
)

-- A DELAY_REQUEST of a peer that was asked to synchronize is answered up to 5 milliseconds after
-- the last SYNC_START, and dropped after that, also within the DELAY_RESPONSE_TIME of 5 seconds.
pub handle_delay_request_window :
    (clock : Readings) (node : NodeData) (sender : Addr)
    → peer_list_contains node.asked_to_synchronize sender ≡ true
    → IsTime node.last_sync_start
    → (clock.second ≤ node.last_sync_start + 5
        → handle_delay_request clock node (delay_request_type ∷ []) sender
          ≡ done (
            node,
            (
              create_sync_level_and_timestamp_message delay_response_type node.sync_level
                  (get_clock clock.first node.sync_level node.offset_ms),
              sender,
            )
                ∷ [],
          ))
      × (node.last_sync_start + 5 < clock.second
          → clock.second ≤ node.last_sync_start + delay_response_time * 1000
          → handle_delay_request clock node (delay_request_type ∷ []) sender ≡ done (node, []))
unfolding handle_delay_request
handle_delay_request_window clock node sender asked fits =
    (λ soon. if_false _ _ (in_time soon), λ late within. if_true _ _ (too_late late))
  where
    in_time :
        clock.second ≤ node.last_sync_start + 5
        → (not (peer_list_contains node.asked_to_synchronize sender)
            || ltb ((node.last_sync_start + 5) % 2 ^ 64) clock.second)
          ≡ false
    in_time soon = ground arith

    too_late :
        node.last_sync_start + 5 < clock.second
        → (not (peer_list_contains node.asked_to_synchronize sender)
            || ltb ((node.last_sync_start + 5) % 2 ^ 64) clock.second)
          ≡ true
    too_late late = ground arith
