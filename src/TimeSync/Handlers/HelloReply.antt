-- ===== src/TimeSync/Handlers/HelloReply.antt =====
-- HELLO and HELLO_REPLY between two nodes.
use mathlib.Core.Path.{subst}
use computer_networks_course.Prelude.{
  if◌then◌else◌, ℕ, ◌+◌, ◌*◌, ◌^◌, ◌<◌, ◌≡◌, refl, sym, ap, ◌∙◌, inl, inr, true, false, ◌||◌, not,
  List, [], ◌∷◌, ◌++◌, arith, ltb, leb, ◌==◌, if_false, Bool-cases, length, drop, All, pos, ltb_ℤ,
}
use computer_networks_course.Outcome.{◌>>=◌, done}
use computer_networks_course.TimeSync.Peers.{
  Addr, equal_addr, address_in_array, is_excluded, peer_list_add,
}
use computer_networks_course.TimeSync.Peers.Laws.{IsPeerList, equal_addr_iff}
use computer_networks_course.TimeSync.Peers.Writing.{
  kept, encode, length-encode, create_hello_reply_message_lem, IsAddr, read_peer-encode,
  network_value-count,
}
use computer_networks_course.TimeSync.Codec.{
  read_number_total, buffer_size, hello_type, hello_reply_type, connect_type, network_bytes,
  create_simple_message,
}
use computer_networks_course.TimeSync.NodeData.{NodeData, Packet}
use computer_networks_course.TimeSync.Handlers.{
  wrong_size, handle_hello, check_peers, read_count, check_hello_reply, connect_to_peers,
  handle_hello_reply,
}

-- A peer that a node takes from a HELLO_REPLY of `sender`.
pub record IsListed (node : NodeData) (sender peer : Addr) : Type 0 where
  pub addr : IsAddr peer
  pub has_port : (peer.sin_port == 0) ≡ false
  pub not_sender : equal_addr peer sender ≡ false
  pub not_mine : address_in_array peer node.my_addresses ≡ false

-- The peers that are waited for when all of a HELLO_REPLY have been added.
abbrev pub add_all : List Addr → List Addr → List Addr
add_all waiting [] = waiting
add_all waiting (p ∷ ps) = add_all (peer_list_add waiting p).0 ps

abbrev pub connects : List Addr → List Packet
connects [] = []
connects (p ∷ ps) = (create_simple_message connect_type, p) ∷ connects ps

check_peers-encode :
    (node : NodeData) (sender : Addr) (ps : List Addr)
    → All (IsListed node sender) ps
    → check_peers node sender (length ps) (encode ps) ≡ done true
unfolding check_peers encode
check_peers-encode node sender [] h = refl
check_peers-encode node sender (p ∷ ps) (h, hs) = rw (
  read_peer-encode p (encode ps) h.addr,
  h.has_port,
  h.not_sender,
  h.not_mine,
  check_peers-encode node sender ps hs,
)

connect_to_peers-encode :
    (ps waiting : List Addr)
    → All IsAddr ps
    → connect_to_peers (length ps) (encode ps) waiting ≡ done (add_all waiting ps, connects ps)
unfolding connect_to_peers encode
connect_to_peers-encode [] waiting h = refl
connect_to_peers-encode (p ∷ ps) waiting (h, hs) =
    rw (read_peer-encode p (encode ps) h, connect_to_peers-encode ps (peer_list_add waiting p).0 hs)

listed-IsAddr :
    (node : NodeData) (sender : Addr) (ps : List Addr)
    → All (IsListed node sender) ps
    → All IsAddr ps
listed-IsAddr node sender [] h = tt
listed-IsAddr node sender (p ∷ ps) (h, hs) = (h.addr, listed-IsAddr node sender ps hs)

-- The bytes of a HELLO_REPLY with the peers ps.
abbrev pub reply_of : List Addr → List ℕ
reply_of ps = hello_reply_type ∷ network_bytes 2 (length ps) ++ encode ps

length-reply_of : (ps : List Addr) → length (reply_of ps) ≡ 3 + length ps * 7
length-reply_of ps = unfold network_bytes in omega (arith, length-encode ps)

read_count-reply_of :
    (ps : List Addr) → length ps < 2 ^ 16 → read_count (reply_of ps) ≡ done (length ps)
read_count-reply_of ps h =
    read_number_total 1 2 (reply_of ps) (omega (arith, length-reply_of ps))
    ∙ ap done (unfold network_bytes in network_value-count (length ps) h)

drop-reply_of : (ps : List Addr) → drop 3 (reply_of ps) ≡ encode ps
drop-reply_of ps = unfold network_bytes in refl

-- A node that waits for the HELLO_REPLY of its known peer takes one with listed peers: it sends
-- CONNECT to each of them and waits for their answers, knows the sender from now on, and waits for
-- no other HELLO_REPLY.
pub handle_hello_reply-accepts :
    (node : NodeData) (sender : Addr) (ps : List Addr)
    → node.waiting_for_hello_reply ≡ true
    → sender ≡ node.known_peer
    → address_in_array sender node.my_addresses ≡ false
    → length ps < 2 ^ 16
    → All (IsListed node sender) ps
    → handle_hello_reply node (reply_of ps) sender
      ≡ done (
        record node {
          waiting_for_hello_reply = false;
          waiting_for_ack_connect = add_all node.waiting_for_ack_connect ps;
          peer_list = (peer_list_add node.peer_list sender).0;
        },
        connects ps,
      )
unfolding handle_hello_reply check_hello_reply network_bytes
handle_hello_reply-accepts node sender ps waits known other few listed = rw (
  correct,
  read_count-reply_of ps few,
  connect_to_peers-encode ps node.waiting_for_ack_connect (listed-IsAddr node sender ps listed),
)
  where
    size : (length (reply_of ps) == 3 + length ps * 7) ≡ true
    size = ground (arith, length-reply_of ps)

    long : ltb (length (reply_of ps)) 3 ≡ false
    long = ground (arith, length-reply_of ps)

    from_known :
        (not node.waiting_for_hello_reply || not (equal_addr sender node.known_peer)) ≡ false
    from_known = ground (arith, (equal_addr_iff sender node.known_peer).1 known)

    correct : check_hello_reply node (reply_of ps) sender ≡ done true
    correct =
        if_false _ _ from_known
        ∙ if_false _ _ other
        ∙ if_false _ _ long
        ∙ ap
            (λ m. m >>= λ count.
              if wrong_size (3 + count * 7) (reply_of ps)
              then done false
              else check_peers node sender count (encode ps))
            (read_count-reply_of ps few)
        ∙ if_false _ _ (ap not size)
        ∙ check_peers-encode node sender ps listed

kept-IsListed :
    (answering asking : NodeData) (a b : Addr) (ps : List Addr)
    → address_in_array a answering.my_addresses ≡ true
    → asking.my_addresses ≡ b ∷ []
    → All (λ p. IsAddr p × ((p.sin_port == 0) ≡ false)) ps
    → All (IsListed asking a) (kept answering.my_addresses b ps)
unfolding kept
kept-IsListed answering asking a b [] mine yours h = tt
kept-IsListed answering asking a b (p ∷ ps) mine yours (h, hs) =
    elim (Bool-cases (is_excluded answering.my_addresses b p)) [
      | inl out ↦ rw out (kept-IsListed answering asking a b ps mine yours hs)
      | inr in_list ↦ rw in_list (
        record {
          addr = h.0;
          has_port = h.1;
          not_sender = not_a in_list;
          not_mine =
              ap (address_in_array p) yours ∙ unfold is_excluded address_in_array in ground arith;
        },
        kept-IsListed answering asking a b ps mine yours hs,
      )
    ]
  where
    not_a : is_excluded answering.my_addresses b p ≡ false → equal_addr p a ≡ false
    not_a outside = elim (Bool-cases (equal_addr p a)) [
      | inr other ↦ other
      | inl same ↦
          let here : address_in_array p answering.my_addresses ≡ true =
            subst (λ x. address_in_array x answering.my_addresses ≡ true)
              (sym ((equal_addr_iff p a).0 same)) mine in
          absurd (unfold is_excluded in ground arith)
    ]

-- The answer of a node to a HELLO, if it fits a datagram and there is room for the new peer, is one
-- that the asking node takes: it sends CONNECT to the peers of the list but the two nodes
-- themselves. The asking node waits for the answer of the other and has one address, which is not
-- one of the other; the peers of the list fit 32 and 16 bits and have ports.
pub handle_hello-handle_hello_reply :
    (answering asking : NodeData) (a b : Addr)
    → IsPeerList answering.peer_list
    → All (λ p. IsAddr p × ((p.sin_port == 0) ≡ false)) answering.peer_list
    → address_in_array a answering.my_addresses ≡ true
    → address_in_array b answering.my_addresses ≡ false
    → asking.my_addresses ≡ b ∷ []
    → asking.waiting_for_hello_reply ≡ true
    → a ≡ asking.known_peer
    → ltb_ℤ (peer_list_add answering.peer_list b).1 (pos 0) ≡ false
    → 3 + length (kept answering.my_addresses b answering.peer_list) * 7 < buffer_size
    → (reply : List ℕ) × (handle_hello answering (hello_type ∷ []) b
        ≡ done (
          record answering { peer_list = (peer_list_add answering.peer_list b).0 },
          (reply, b) ∷ [],
        ))
      × (handle_hello_reply asking reply a
          ≡ done (
            record asking {
              waiting_for_hello_reply = false;
              waiting_for_ack_connect =
                  add_all asking.waiting_for_ack_connect
                    (kept answering.my_addresses b answering.peer_list);
              peer_list = (peer_list_add asking.peer_list a).0;
            },
            connects (kept answering.my_addresses b answering.peer_list),
          ))
unfolding handle_hello
handle_hello-handle_hello_reply answering asking a b valid addrs mine other yours waits known room
      fits =
    let ps = kept answering.my_addresses b answering.peer_list in
    let short : leb buffer_size (3 + length ps * 7) ≡ false = ground arith in
    (
      reply_of ps,
      rw (
        other,
        create_hello_reply_message_lem answering.my_addresses b answering.peer_list valid.fits,
        short,
        room,
      ),
      handle_hello_reply-accepts asking a ps waits known (ap (address_in_array a) yours ∙ different)
          (omega arith) (kept-IsListed answering asking a b answering.peer_list mine yours addrs),
    )
  where
    different : address_in_array a (b ∷ []) ≡ false
    different = elim (Bool-cases (equal_addr a b)) [
      | inl same ↦ absurd (
          cc (
            sym mine
            ∙ ap (λ x. address_in_array x answering.my_addresses) ((equal_addr_iff a b).0 same)
            ∙ other))
      | inr differ ↦ unfold address_in_array in ground arith
    ]
