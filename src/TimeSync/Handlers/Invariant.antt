-- ===== src/TimeSync/Handlers/Invariant.antt =====
-- Every message keeps the node well formed, and comes to no fault.

use computer_networks_course.Prelude.{
  take, drop, ℕ, ◌+◌, ◌-◌, ◌^◌, ◌≤◌, ◌<◌, ◌≡◌, refl, sym, ap, ◌∙◌, inl, inr, true, false, not,
  Option, none, some, List, [], ◌∷◌, arith, if◌then◌else◌, Bool-cases, pos, sub_ℕ, ltb_ℤ,
}
use computer_networks_course.Outcome.{unless, done, ◌>>=◌, Ensures, returns}
use computer_networks_course.TimeSync.Peers.{
  Addr, equal_addr, address_in_array, peer_list_contains, peer_list_add, peer_list_remove,
}
use computer_networks_course.TimeSync.Peers.Laws.{
  IsPeerList, equal_addr_iff, peer_list_add_lem, peer_list_remove_lem,
}
use computer_networks_course.TimeSync.Clock.{
  clock_unsynchronized, to_int64, checked, ◌-ℤ◌, ◌+ℤ◌, half, update_offset,
}
use computer_networks_course.TimeSync.Codec.{network_value, create_hello_reply_message}
use computer_networks_course.TimeSync.NodeData.{NodeData, Packet}
use computer_networks_course.TimeSync.Handlers.{
  Handled, ignored, wrong_size, handle_hello, no_room, handle_connect, handle_ack_connect,
}

-- The number in the eight bytes behind the level, as far as the datagram has them.
abbrev pub timestamp_of : List ℕ → ℕ
timestamp_of msg = network_value 0 (take 8 (drop 2 msg))

-- The number in the two bytes behind the type, as far as the datagram has them.
abbrev pub peer_count : List ℕ → ℕ
peer_count msg = network_value 0 (take 2 (drop 1 msg))

-- A time that leaves room for the sums of update_offset.
abbrev pub IsTime : ℕ → Type 0
IsTime t = t < 2 ^ 62

-- The lists of a node are peer lists, its own addresses are not among its peers, its level is one of
-- 0..255, and while it synchronizes, it does so with a level below 254 and times in range.
pub record IsNode (node : NodeData) : Type 0 where
  pub peers : IsPeerList node.peer_list
  pub waiting : IsPeerList node.waiting_for_ack_connect
  pub asked : IsPeerList node.asked_to_synchronize
  pub not_mine :
      (a : Addr)
      → address_in_array a node.my_addresses ≡ true
      → peer_list_contains node.peer_list a ≡ false
  pub level : node.sync_level ≤ clock_unsynchronized
  pub source : node.synchronizing ≡ true → node.synchronizing_level < clock_unsynchronized - 1
  pub times : node.synchronizing ≡ true → IsTime node.t1 × IsTime node.t2 × IsTime node.t3

-- What a handler leaves: a well-formed node with the same addresses.
abbrev pub Keeps : NodeData → NodeData × List Packet → Type 0
Keeps node r = IsNode r.0 × (r.0.my_addresses ≡ node.my_addresses)

small : (t : ℕ) → IsTime t → to_int64 t ≡ pos t
unfolding to_int64
small t h = ground arith

checked_sub : (a b : ℕ) → a < 2 ^ 63 → b < 2 ^ 63 → checked (sub_ℕ a b) ≡ done (sub_ℕ a b)
unfolding checked
checked_sub a b h k = ground arith

sub_pos : (a b : ℕ) → pos a -ℤ pos b ≡ sub_ℕ a b
sub_pos a b = ground arith

sub_plus : (a b c : ℕ) → sub_ℕ a b +ℤ pos c ≡ sub_ℕ (a + c) b
sub_plus a b c = ground arith

sub_minus : (a b c : ℕ) → sub_ℕ a b -ℤ pos c ≡ sub_ℕ a (b + c)
sub_minus a b c = ground arith

pub update_offset_total :
    (t1 t2 t3 t4 : ℕ)
    → IsTime t1
    → IsTime t2
    → IsTime t3
    → IsTime t4
    → update_offset t1 t2 t3 t4 ≡ done (half (sub_ℕ (t2 + t3) (t1 + t4)))
unfolding update_offset
update_offset_total t1 t2 t3 t4 h1 h2 h3 h4 =
    rw (small t1 h1, small t2 h2, small t3 h3, small t4 h4) chain
  where
    chain :
        (checked (pos t2 -ℤ pos t1) >>= λ a.
        checked (a +ℤ pos t3) >>= λ b. checked (b -ℤ pos t4) >>= λ c. done (half c))
        ≡ done (half (sub_ℕ (t2 + t3) (t1 + t4)))
    chain =
        ap
          (λ z. checked z >>= λ a.
            checked (a +ℤ pos t3) >>= λ b. checked (b -ℤ pos t4) >>= λ c. done (half c))
          (sub_pos t2 t1)
        ∙ ap
            (λ z. z >>= λ a.
              checked (a +ℤ pos t3) >>= λ b. checked (b -ℤ pos t4) >>= λ c. done (half c))
            (checked_sub t2 t1 (omega arith) (omega arith))
        ∙ ap (λ z. checked z >>= λ b. checked (b -ℤ pos t4) >>= λ c. done (half c))
            (sub_plus t2 t1 t3)
        ∙ ap (λ z. z >>= λ b. checked (b -ℤ pos t4) >>= λ c. done (half c))
            (checked_sub (t2 + t3) t1 (omega arith) (omega arith))
        ∙ ap (λ z. checked z >>= λ c. done (half c)) (sub_minus (t2 + t3) t1 t4)
        ∙ ap (λ z. z >>= λ c. done (half c))
            (checked_sub (t2 + t3) (t1 + t4) (omega arith) (omega arith))

add-not_mine :
    (node : NodeData) (sender : Addr)
    → address_in_array sender node.my_addresses ≡ false
    → IsNode node
    → (a : Addr) → address_in_array a node.my_addresses ≡ true
    → peer_list_contains (peer_list_add node.peer_list sender).0 a ≡ false
add-not_mine node sender other v a mine = elim (peer_list_add_lem node.peer_list sender v.peers).1 [
  | inl (e, known) ↦ rw e (v.not_mine a mine)
  | inr (inl (e, full)) ↦ rw e (v.not_mine a mine)
  | inr (inr (e, new, contains)) ↦ contains a ∙ rw (differ, v.not_mine a mine)
]
  where
    differ : equal_addr sender a ≡ false
    differ = elim (Bool-cases (equal_addr sender a)) [
      | inr no_match ↦ no_match
      | inl same ↦ absurd (
          cc (
            sym mine
            ∙ ap (λ x. address_in_array x node.my_addresses)
                (sym ((equal_addr_iff sender a).0 same))
            ∙ other))
    ]

-- A node with a new peer.
pub add-IsNode :
    (node : NodeData) (sender : Addr)
    → address_in_array sender node.my_addresses ≡ false
    → IsNode node
    → IsNode (record node { peer_list = (peer_list_add node.peer_list sender).0 })
add-IsNode node sender other v = record {
  peers = (peer_list_add_lem node.peer_list sender v.peers).0;
  waiting = v.waiting;
  asked = v.asked;
  not_mine = add-not_mine node sender other v;
  level = v.level;
  source = v.source;
  times = v.times;
}

pub handle_hello-Keeps :
    (node : NodeData) (msg : List ℕ) (sender : Addr)
    → IsNode node
    → Ensures (Keeps node) (handle_hello node msg sender)
unfolding handle_hello
handle_hello-Keeps node msg sender v =
    unless (wrong_size 1 msg) (λ _. returns (v, refl))
      λ _.
        unless (address_in_array sender node.my_addresses) (λ _. returns (v, refl))
          λ other. answer other (create_hello_reply_message node.peer_list node.my_addresses sender)
  where
    answer :
        address_in_array sender node.my_addresses ≡ false
        → (reply : Option (List ℕ))
        → Ensures (Keeps node) (elim reply as (λ _. Handled) [
          | none ↦ ignored node
          | some bytes ↦
              if ltb_ℤ (peer_list_add node.peer_list sender).1 (pos 0)
              then done (record node { peer_list = (peer_list_add node.peer_list sender).0 }, [])
              else done (
                record node { peer_list = (peer_list_add node.peer_list sender).0 },
                (bytes, sender) ∷ [],
              )
        ])
    answer other none = returns (v, refl)
    answer other (some bytes) =
        unless (ltb_ℤ (peer_list_add node.peer_list sender).1 (pos 0))
          (λ _. returns (add-IsNode node sender other v, refl))
          (λ _. returns (add-IsNode node sender other v, refl))

pub handle_connect-Keeps :
    (node : NodeData) (msg : List ℕ) (sender : Addr)
    → IsNode node
    → Ensures (Keeps node) (handle_connect node msg sender)
unfolding handle_connect
handle_connect-Keeps node msg sender v =
    unless (wrong_size 1 msg) (λ _. returns (v, refl))
      λ _.
        unless (no_room node sender) (λ _. returns (v, refl))
          λ _.
            unless (address_in_array sender node.my_addresses) (λ _. returns (v, refl))
              λ other. returns (add-IsNode node sender other v, refl)

remove_waiting-IsNode :
    (node : NodeData) (sender : Addr)
    → IsNode node
    → IsNode (record node {
      waiting_for_ack_connect = peer_list_remove node.waiting_for_ack_connect sender;
    })
remove_waiting-IsNode node sender v = record {
  peers = v.peers;
  waiting = (peer_list_remove_lem node.waiting_for_ack_connect sender v.waiting).0;
  asked = v.asked;
  not_mine = v.not_mine;
  level = v.level;
  source = v.source;
  times = v.times;
}

pub handle_ack_connect-Keeps :
    (node : NodeData) (msg : List ℕ) (sender : Addr)
    → IsNode node
    → Ensures (Keeps node) (handle_ack_connect node msg sender)
unfolding handle_ack_connect
handle_ack_connect-Keeps node msg sender v =
    unless (wrong_size 1 msg) (λ _. returns (v, refl))
      λ _.
        unless (not (peer_list_contains node.waiting_for_ack_connect sender))
          (λ _. returns (v, refl))
          λ _.
            unless (no_room node sender) (λ _. returns (v, refl))
              λ _.
                unless (address_in_array sender node.my_addresses) (λ _. returns (v, refl))
                  λ other.
                    returns (add-IsNode _ sender other (remove_waiting-IsNode node sender v), refl)
