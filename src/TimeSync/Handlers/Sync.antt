-- ===== src/TimeSync/Handlers/Sync.antt =====
-- The messages of the clock synchronization keep the node well formed; so does every message.

use computer_networks_course.Prelude.{
  length, ℕ, ◌-◌, ◌≤◌, ◌<◌, ◌≡◌, Bool, true, some, List, arith, get_elem?, get_elem?-of_lt,
}
use computer_networks_course.Outcome.{unless, Ensures, returns, Ensures-bind, Ensures-or_fault}
use computer_networks_course.TimeSync.Peers.{Addr}
use computer_networks_course.TimeSync.Clock.{clock_unsynchronized}
use computer_networks_course.TimeSync.NodeData.{NodeData, Readings}
use computer_networks_course.TimeSync.Handlers.{wrong_size, check_sync_start}
use computer_networks_course.TimeSync.Handlers.Invariant.{IsTime}

-- The readings of the natural clock leave room for sums.
abbrev pub InTime : Readings → Type 0
InTime clock = IsTime clock.first × IsTime clock.second

-- A SYNC_START that passes the check has a level below 254, and a time stamp.
abbrev pub LowLevel : List ℕ → Bool → Type 0
LowLevel msg correct =
    correct ≡ true
    → (level : ℕ) × (get_elem? msg 1 ≡ some level)
      × (level < clock_unsynchronized - 1)
      × (10 ≤ length msg)

pub check_sync_start_total :
    (node : NodeData) (msg : List ℕ) (sender : Addr)
    → Ensures (LowLevel msg) (check_sync_start node msg sender)
unfolding check_sync_start
check_sync_start_total node msg sender =
    unless (wrong_size 10 msg) (λ _. returns (λ e. absurd (cc e)))
      λ size.
        let (level, e) = get_elem?-of_lt msg 1 (ground arith) in
        Ensures-bind (Ensures-or_fault (get_elem? msg 1) e)
          λ l x. returns (λ ok. (l, x.1, ground arith, ground arith))
