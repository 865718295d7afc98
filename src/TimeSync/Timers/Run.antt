-- ===== src/TimeSync/Timers/Run.antt =====
-- A whole synchronization of one node to another.
use computer_networks_course.Prelude.{
  ℕ, ◌+◌, ◌-◌, ◌%◌, ◌^◌, ◌≤◌, ◌<◌, ◌≡◌, refl, sym, ap, ◌∙◌, true, false, ◌&&◌, ◌||◌, not, List, [],
  ◌∷◌, arith, ltb, leb, ◌==◌, if◌then◌else◌, if_false, length, ℤ, sub_ℕ,
}
use computer_networks_course.Outcome.{done, ◌>>=◌}
use computer_networks_course.TimeSync.Peers.{Addr, equal_addr, peer_list_contains}
use computer_networks_course.TimeSync.Peers.Laws.{equal_addr_iff}
use computer_networks_course.TimeSync.Peers.Writing.{network_value-timestamp}
use computer_networks_course.TimeSync.Clock.{
  Timespec, clock_unsynchronized, get_clock, set_event_in_x_seconds, update_offset,
}
use computer_networks_course.TimeSync.Clock.Laws.{update_offset_exact}
use computer_networks_course.TimeSync.Codec.{
  read_number_total, sync_start_type, delay_request_type, delay_response_type, network_bytes,
  create_simple_message, create_sync_level_and_timestamp_message,
}
use computer_networks_course.TimeSync.NodeData.{NodeData, Readings}
use computer_networks_course.TimeSync.Handlers.{
  wrong_size, delay_response_time, synchronization_check_delay, read_timestamp, check_sync_start,
  proceed, start_sync, handle_sync_start, finish_sync, handle_delay_response, handle_message,
}
use computer_networks_course.TimeSync.Handlers.Invariant.{IsTime}
use computer_networks_course.TimeSync.Timers.Laws.{handle_delay_request_window}

-- A message with a level and a time stamp.
abbrev timed : ℕ → ℕ → ℕ → List ℕ
timed kind level t = kind ∷ level ∷ network_bytes 8 t

length-timed : (kind level t : ℕ) → length (timed kind level t) ≡ 10
unfolding network_bytes
length-timed kind level t = refl

read_timestamp-timed : (kind level t : ℕ) → IsTime t → read_timestamp (timed kind level t) ≡ done t
read_timestamp-timed kind level t h =
    read_number_total 2 8 (timed kind level t) (omega (arith, length-timed kind level t))
    ∙ ap done (unfold network_bytes in network_value-timestamp t (omega arith))

right_size : (kind level t : ℕ) → wrong_size 10 (timed kind level t) ≡ false
right_size kind level t = ground (arith, length-timed kind level t)

-- The node that waits for the DELAY_RESPONSE.
abbrev waiting : Readings → NodeData → Addr → ℕ → ℕ → NodeData
waiting clock b addr_a level t = record b {
  synchronizing = true;
  synchronizing_level = level;
  t1 = t;
  t2 = clock.first;
  peer_to_sync = addr_a;
  t3 = clock.second;
  waiting_for_delay_response = set_event_in_x_seconds clock.now delay_response_time;
}

started :
    (clock : Readings) (b : NodeData) (addr_a : Addr) (level t : ℕ)
    → level < clock_unsynchronized - 1
    → b.sync_level ≡ clock_unsynchronized
    → start_sync clock b t addr_a level
      ≡ done
          (waiting clock b addr_a level t, (create_simple_message delay_request_type, addr_a) ∷ [])
unfolding start_sync proceed
started clock b addr_a level t low un = if_false _ _ free ∙ if_false _ _ lower
  where
    free : (ltb b.sync_level clock_unsynchronized && equal_addr addr_a b.synchronized_peer) ≡ false
    free = ground arith

    lower : leb b.sync_level (level + 1) ≡ false
    lower = ground arith

sync_start_taken :
    (clock : Readings) (b : NodeData) (addr_a : Addr) (level t : ℕ)
    → IsTime t
    → level < clock_unsynchronized - 1
    → b.sync_level ≡ clock_unsynchronized
    → b.synchronizing ≡ false
    → peer_list_contains b.peer_list addr_a ≡ true
    → handle_sync_start clock b (timed sync_start_type level t) addr_a
      ≡ done
          (waiting clock b addr_a level t, (create_simple_message delay_request_type, addr_a) ∷ [])
unfolding handle_sync_start check_sync_start
sync_start_taken clock b addr_a level t time low un free known =
    ap
      (λ z. z >>= λ correct.
        if not correct
        then done (b, [])
        else if b.synchronizing
        then done (b, [])
        else (read_timestamp (timed sync_start_type level t) >>= λ s.
            start_sync clock b s addr_a level))
      (if_false _ _ (right_size sync_start_type level t) ∙ ap done correct)
    ∙ if_false _ _ free
    ∙ ap (λ m. m >>= λ s. start_sync clock b s addr_a level)
        (read_timestamp-timed sync_start_type level t time)
    ∙ started clock b addr_a level t low un
  where
    correct :
        not (leb (clock_unsynchronized - 1) level || not (peer_list_contains b.peer_list addr_a))
        ≡ true
    correct = ground arith

-- The node that has taken over the time.
abbrev synchronized : Readings → NodeData → Addr → ℕ → ℕ → Timespec → ℤ → NodeData
synchronized clock b addr_a level t start offset = record b {
  t4 = t;
  next_sync_start = start;
  sync_level = (level + 1) % 2 ^ 8;
  offset_ms = offset;
  synchronized_peer = addr_a;
  next_sync_check = set_event_in_x_seconds clock.now synchronization_check_delay;
  synchronizing = false;
}

-- When the node starts to synchronize others: at once, if it could not before.
abbrev start_after : Readings → NodeData → ℕ → Timespec
start_after clock b level =
    if leb (clock_unsynchronized - 1) b.sync_level && ltb (level + 1) (clock_unsynchronized - 1)
    then set_event_in_x_seconds clock.now 0
    else b.next_sync_start

response_taken :
    (clock : Readings) (b : NodeData) (addr_a : Addr) (level t : ℕ) (offset : ℤ)
    → IsTime t
    → b.synchronizing ≡ true
    → b.synchronizing_level ≡ level
    → b.peer_to_sync ≡ addr_a
    → b.t1 ≤ t
    → update_offset b.t1 b.t2 b.t3 t ≡ done offset
    → handle_delay_response clock b (timed delay_response_type level t) addr_a
      ≡ done (synchronized clock b addr_a level t (start_after clock b level) offset, [])
unfolding handle_delay_response finish_sync
response_taken clock b addr_a level t offset time runs same source order computed =
    if_false _ _ (right_size delay_response_type level t)
    ∙ if_false _ _ from_source
    ∙ ap
        (λ m. m >>= λ z.
          if not (level == b.synchronizing_level) || ltb z b.t1
          then done (b, [])
          else (update_offset b.t1 b.t2 b.t3 z >>= λ o.
              done (synchronized clock b addr_a level z (start_after clock b level) o, [])))
        (read_timestamp-timed delay_response_type level t time)
    ∙ if_false _ _ agrees
    ∙ rw computed
  where
    from_source : (not b.synchronizing || not (equal_addr addr_a b.peer_to_sync)) ≡ false
    from_source = ground (arith, (equal_addr_iff addr_a b.peer_to_sync).1 (sym source))

    agrees : (not (level == b.synchronizing_level) || ltb t b.t1) ≡ false
    agrees = ground arith

-- A whole synchronization of an unsynchronized node b with a peer a of a level below 254, who is
-- among its peers and asked it at most 5 ms before: SYNC_START makes b send DELAY_REQUEST, which a
-- answers, and with the answer b is synchronized to a, one level below it. If messages take as long
-- both ways, the clock that b shows is from then on that of a. Times are below 2^62 ms, and the
-- clock of a does not go back.
pub synchronization :
    (a b : NodeData) (addr_a addr_b : Addr) (at_a at_b at_b' : Readings) (t1 t4 x y d : ℕ)
    → a.sync_level < clock_unsynchronized - 1
    → b.sync_level ≡ clock_unsynchronized
    → b.synchronizing ≡ false
    → peer_list_contains b.peer_list addr_a ≡ true
    → peer_list_contains a.asked_to_synchronize addr_b ≡ true
    → at_a.second ≤ a.last_sync_start + 5
    → t4 ≡ get_clock at_a.first a.sync_level a.offset_ms
    → IsTime a.last_sync_start
    → IsTime t1
    → IsTime t4
    → IsTime at_b.first
    → IsTime at_b.second
    → t1 ≤ t4
    → at_b.first + y ≡ t1 + x + d
    → t4 + x ≡ at_b.second + y + d
    → (b1 b2 : NodeData) × (request reply : List ℕ) × (handle_message at_b b
          (create_sync_level_and_timestamp_message sync_start_type a.sync_level t1)
          addr_a
        ≡ done (b1, (request, addr_a) ∷ []))
      × (handle_message at_a a request addr_b ≡ done (a, (reply, addr_b) ∷ []))
      × (handle_message at_b' b1 reply addr_a ≡ done (b2, []))
      × (b2.sync_level ≡ a.sync_level + 1)
      × (b2.synchronized_peer ≡ addr_a)
      × (b2.synchronizing ≡ false)
      × ((l r : ℕ) → IsTime l → l + y ≡ r + x → get_clock l b2.sync_level b2.offset_ms ≡ r)
unfolding handle_message create_sync_level_and_timestamp_message create_simple_message
synchronization a b addr_a addr_b at_a at_b at_b' t1 t4 x y d low un free known asked soon e4 h h1
      h4 h2 h3 le there back =
    let level = a.sync_level in
    let b1 = waiting at_b b addr_a level t1 in
    let (offset, shows) =
      update_offset_exact t1 at_b.first at_b.second t4 x y d h1 h2 h3 h4 there back in
    let b2 = synchronized at_b' b1 addr_a level t4 (start_after at_b' b1 level) (sub_ℕ x y) in
    let next : (level + 1) % 2 ^ 8 ≡ level + 1 = omega arith in
    (
      b1,
      b2,
      create_simple_message delay_request_type,
      timed delay_response_type level t4,
      sync_start_taken at_b b addr_a level t1 h1 low un free known,
      (handle_delay_request_window at_a a addr_b asked h).0 soon
          ∙ ap (λ z. done (a, (timed delay_response_type level z, addr_b) ∷ [])) (sym e4),
      response_taken at_b' b1 addr_a level t4 (sub_ℕ x y) h4 refl refl refl le offset,
      next,
      refl,
      refl,
      λ l r fits e.
          ap (λ z. get_clock l z (sub_ℕ x y)) next ∙ shows (level + 1) l r (omega arith) fits e,
    )
