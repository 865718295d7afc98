-- ===== src/TimeSync/Handlers/Source.antt =====
-- Whom a node takes its time from.
use computer_networks_course.Prelude.{
  ℕ, ◌+◌, ◌-◌, ◌<◌, ◌≡◌, refl, sym, ◌∙◌, Bool, true, false, ◌&&◌, not, some, List, [], ◌∷◌, arith,
  ltb, leb, get_elem?, get_elem?-of_lt, length, ◌≤◌, pos,
}
use computer_networks_course.Outcome.{unless, Ensures, returns, Ensures-bind, Ensures-or_fault}
use computer_networks_course.TimeSync.Peers.{Addr, equal_addr, peer_list_contains}
use computer_networks_course.TimeSync.Clock.{clock_unsynchronized}
use computer_networks_course.TimeSync.Codec.{
  read_number_total, delay_request_type, create_simple_message,
}
use computer_networks_course.TimeSync.NodeData.{NodeData, Readings, Packet}
use computer_networks_course.TimeSync.Handlers.{
  wrong_size, check_sync_start, proceed, start_sync, handle_sync_start,
}

-- What has to hold of the sender when a SYNC_START starts a synchronization.
abbrev pub GoodSource : NodeData → Addr → NodeData × List Packet → Type 0
GoodSource node sender r =
    r.0.synchronizing ≡ true
    → (peer_list_contains node.peer_list sender ≡ true)
      × (r.0.peer_to_sync ≡ sender)
      × (r.0.synchronizing_level < node.sync_level)
      × (r.0.synchronizing_level < clock_unsynchronized - 1)
      × (r.1 ≡ (create_simple_message delay_request_type, sender) ∷ [])

quiet :
    (node : NodeData) (sender : Addr) (ps : List Packet)
    → node.synchronizing ≡ false
    → (other : NodeData) → other.synchronizing ≡ node.synchronizing
    → GoodSource node sender (other, ps)
quiet node sender ps idle other same = λ runs. absurd (cc (sym runs ∙ same ∙ idle))

-- A SYNC_START that passes the check comes of a known peer, and has a level below 254.
abbrev Checked : NodeData → List ℕ → Addr → Bool → Type 0
Checked node msg sender correct =
    correct ≡ true
    → (level : ℕ) × (get_elem? msg 1 ≡ some level)
      × (level < clock_unsynchronized - 1)
      × (peer_list_contains node.peer_list sender ≡ true)
      × (10 ≤ length msg)

check_sync_start_sound :
    (node : NodeData) (msg : List ℕ) (sender : Addr)
    → Ensures (Checked node msg sender) (check_sync_start node msg sender)
unfolding check_sync_start
check_sync_start_sound node msg sender =
    unless (wrong_size 10 msg) (λ _. returns (λ e. absurd (cc e)))
      λ size.
        let (level, e) = get_elem?-of_lt msg 1 (ground arith) in
        Ensures-bind (Ensures-or_fault (get_elem? msg 1) e)
          λ l x. returns (λ ok. (l, x.1, ground arith, ground arith, ground arith))

start_sync-GoodSource :
    (clock : Readings) (node : NodeData) (t : ℕ) (sender : Addr) (level : ℕ)
    → node.synchronizing ≡ false
    → level < clock_unsynchronized - 1
    → peer_list_contains node.peer_list sender ≡ true
    → Ensures (GoodSource node sender) (start_sync clock node t sender level)
unfolding start_sync proceed
start_sync-GoodSource clock node t sender level idle low known =
    unless (ltb node.sync_level clock_unsynchronized && equal_addr sender node.synchronized_peer)
      (λ _.
        unless (leb node.sync_level level)
          (λ _. returns (
            quiet node sender [] idle
              (record node { sync_level = clock_unsynchronized; offset_ms = pos 0 }) refl))
          (λ lower. returns (λ _. (known, refl, ground arith, low, refl))))
      (λ _.
        unless (leb node.sync_level (level + 1))
          (λ _. returns (quiet node sender [] idle node refl))
          (λ lower. returns (λ _. (known, refl, ground arith, low, refl))))

-- A SYNC_START to an idle node comes to no fault, and if it makes the node synchronize, the sender
-- is a known peer with a level below the own one and below 254, who is sent a DELAY_REQUEST.
pub handle_sync_start-GoodSource :
    (clock : Readings) (node : NodeData) (msg : List ℕ) (sender : Addr)
    → node.synchronizing ≡ false
    → Ensures (GoodSource node sender) (handle_sync_start clock node msg sender)
unfolding handle_sync_start
handle_sync_start-GoodSource clock node msg sender idle =
    Ensures-bind (check_sync_start_sound node msg sender) λ correct h.
      unless (not correct) (λ _. returns (quiet node sender [] idle node refl))
        λ ok.
          unless node.synchronizing (λ _. returns (quiet node sender [] idle node refl))
            λ _.
              let (level, e, low, known, long) = h (ground arith) in
              rw (e, read_number_total 2 8 msg long)
                (start_sync-GoodSource clock node _ sender level idle low known)
