-- ===== src/TimeSync/Handlers/ReplyInvariant.antt =====
-- A HELLO_REPLY keeps the node well formed, and no byte is read behind its end.

use computer_networks_course.Prelude.{
  ◌≤◌, ℕ, zero, suc, ◌+◌, ◌*◌, ◌≡◌, refl, Bool, true, false, ◌||◌, not, some, List, [], ◌∷◌, arith,
  ltb, ◌==◌, if◌then◌else◌, length, drop, length-drop,
}
use computer_networks_course.Outcome.{
  unless, done, ◌>>=◌, Ensures, returns, Ensures-bind, Ensures-map,
}
use computer_networks_course.TimeSync.Peers.{Addr, equal_addr, address_in_array, peer_list_add}
use computer_networks_course.TimeSync.Peers.Laws.{IsPeerList, peer_list_add_lem}
use computer_networks_course.TimeSync.Codec.{read_peer, read_number_total}
use computer_networks_course.TimeSync.NodeData.{NodeData}
use computer_networks_course.TimeSync.Handlers.{
  ignored, wrong_size, check_peers, read_count, check_hello_reply, connect_to_peers,
  handle_hello_reply,
}
use computer_networks_course.Outcome.{Ensures, returns, Ensures-bind, Ensures-map}
use computer_networks_course.TimeSync.Peers.Laws.{IsPeerList, peer_list_add_lem}
use computer_networks_course.TimeSync.Handlers.{
  check_peers, read_count, check_hello_reply, connect_to_peers, handle_hello_reply, ignored,
  wrong_size,
}
use computer_networks_course.TimeSync.Codec.{read_peer, read_number_total}
use computer_networks_course.TimeSync.Peers.{equal_addr, address_in_array, peer_list_add}
use computer_networks_course.TimeSync.Handlers.Invariant.{peer_count, IsNode, Keeps, add-IsNode}

-- A HELLO_REPLY of the right length holds as many records as it says.
read_peer-total :
    (count : ℕ) (buf : List ℕ)
    → length buf ≡ suc count * 7
    → (len : ℕ) × (peer : Addr) × (rest : List ℕ) × (read_peer buf ≡ some (len, peer, rest))
      × (length rest ≡ count * 7)
unfolding read_peer
read_peer-total count (len ∷ a ∷ b ∷ c ∷ d ∷ p ∷ q ∷ rest) h = (len, _, rest, refl, omega arith)
read_peer-total count [] h = absurd (omega arith)
read_peer-total count (a ∷ []) h = absurd (omega arith)
read_peer-total count (a ∷ b ∷ []) h = absurd (omega arith)
read_peer-total count (a ∷ b ∷ c ∷ []) h = absurd (omega arith)
read_peer-total count (a ∷ b ∷ c ∷ d ∷ []) h = absurd (omega arith)
read_peer-total count (a ∷ b ∷ c ∷ d ∷ e ∷ []) h = absurd (omega arith)
read_peer-total count (a ∷ b ∷ c ∷ d ∷ e ∷ f ∷ []) h = absurd (omega arith)

abbrev Any : Bool → Type 0
Any b = Unit

check_peers_total :
    (node : NodeData) (sender : Addr) (count : ℕ) (buf : List ℕ)
    → length buf ≡ count * 7
    → Ensures Any (check_peers node sender count buf)
unfolding check_peers
check_peers_total node sender zero buf h = returns tt
check_peers_total node sender (suc count) buf h =
    let (len, peer, rest, e, l) = read_peer-total count buf h in
    rw e (
      unless (not (len == 4)) (λ _. returns tt)
        λ _.
          unless (peer.sin_port == 0) (λ _. returns tt)
            λ _.
              unless (equal_addr peer sender || address_in_array peer node.my_addresses)
                (λ _. returns tt) λ _. check_peers_total node sender count rest l)

connect_to_peers_total :
    (count : ℕ) (buf : List ℕ) (waiting : List Addr)
    → length buf ≡ count * 7
    → IsPeerList waiting
    → Ensures (λ r. IsPeerList r.0) (connect_to_peers count buf waiting)
unfolding connect_to_peers
connect_to_peers_total zero buf waiting h v = returns v
connect_to_peers_total (suc count) buf waiting h v =
    let (len, peer, rest, e, l) = read_peer-total count buf h in
    rw e (
      Ensures-bind
        (connect_to_peers_total count rest (peer_list_add waiting peer).0 l
          (peer_list_add_lem waiting peer v).0)
        λ r ok. returns ok)

-- What a HELLO_REPLY that passes the check has.
abbrev HasRecords : NodeData → List ℕ → Addr → Bool → Type 0
HasRecords node msg sender correct =
    correct ≡ true
    → (3 ≤ length msg)
      × (length (drop 3 msg) ≡ peer_count msg * 7)
      × (address_in_array sender node.my_addresses ≡ false)

check_hello_reply_total :
    (node : NodeData) (msg : List ℕ) (sender : Addr)
    → Ensures (HasRecords node msg sender) (check_hello_reply node msg sender)
unfolding check_hello_reply
check_hello_reply_total node msg sender =
    unless (not node.waiting_for_hello_reply || not (equal_addr sender node.known_peer))
      (λ _. returns (λ e. absurd (cc e)))
      λ _.
        unless (address_in_array sender node.my_addresses) (λ _. returns (λ e. absurd (cc e)))
          λ other.
            unless (ltb (length msg) 3) (λ _. returns (λ e. absurd (cc e)))
              λ long.
                let enough : 3 ≤ length msg = ground arith in
                rw (read_number_total 1 2 msg enough) (
                  unless (wrong_size (3 + peer_count msg * 7) msg)
                    (λ _. returns (λ e. absurd (cc e)))
                    λ size.
                      let l : length (drop 3 msg) ≡ peer_count msg * 7 =
                        ground (arith, length-drop 3 msg) in
                      Ensures-map (λ c _. λ _. (enough, l, other))
                        (check_peers_total node sender (peer_count msg) (drop 3 msg) l))

pub handle_hello_reply-Keeps :
    (node : NodeData) (msg : List ℕ) (sender : Addr)
    → IsNode node
    → Ensures (Keeps node) (handle_hello_reply node msg sender)
unfolding handle_hello_reply
handle_hello_reply-Keeps node msg sender v =
    Ensures-bind (check_hello_reply_total node msg sender) λ correct h. branch correct h
  where
    branch :
        (correct : Bool)
        → HasRecords node msg sender correct
        → Ensures (Keeps node) (
            if correct
            then (read_count msg >>= λ count.
                connect_to_peers count (drop 3 msg) node.waiting_for_ack_connect >>= λ r. done (
                  record node {
                    waiting_for_hello_reply = false;
                    waiting_for_ack_connect = r.0;
                    peer_list = (peer_list_add node.peer_list sender).0;
                  },
                  r.1,
                ))
            else ignored node)
    branch false h = returns (v, refl)
    branch true h =
        let (enough, l, other) = h refl in
        rw (read_number_total 1 2 msg enough) (
          Ensures-bind
            (connect_to_peers_total (peer_count msg) (drop 3 msg) node.waiting_for_ack_connect l
              v.waiting)
            λ r ok.
              let added = add-IsNode node sender other v in
              returns (
                record {
                  peers = added.peers;
                  waiting = ok;
                  asked = v.asked;
                  not_mine = added.not_mine;
                  level = v.level;
                  source = v.source;
                  times = v.times;
                },
                refl,
              ))
