-- ===== src/TimeSync/Peers.antt =====
-- peers.cpp: a std::set of addresses in order; and the comparisons of networking.c.
pub mod Laws
pub mod Writing
pub mod Store
pub mod Iteration
use computer_networks_course.Prelude.{
  ℕ, zero, suc, ◌+◌, ◌-◌, ◌*◌, ◌/◌, ◌%◌, ◌^◌, ◌≤◌, ◌<◌, ◌≡◌, refl, sym, ap, ◌∙◌, ◌≢◌, ◌↔◌, ◌⊎◌, inl,
  inr, Bool, true, false, ◌&&◌, ◌||◌, not, Option, none, some, List, [], ◌∷◌, ◌++◌, map,
  append_assoc, append-nil, arith, ltb, leb, ◌==◌, if◌then◌else◌, ltb→lt, lt→ltb, leb→le, le→leb,
  ==_iff, ==-refl, if_true, if_false, Bool-cases, Option-cases, length, get_elem?, set, take, drop,
  replicate, length-append, length-set, length-replicate, length-take, length-drop, length-map,
  take-append, drop-append, take-append-drop, get_elem?-of_lt, List-cases, All, All-append, All-map,
  Text, codes, text_eq, text_eq_iff, text_eq_refl, ℤ, pos, negsuc, pos_part, neg_part, sub_ℕ, ◌≤ℤ◌,
  ltb_ℤ,
}

-- struct sockaddr_in: the address and the port as they are stored, in network byte order.
pub record Addr : Type 0 where
  pub s_addr : ℕ
  pub sin_port : ℕ

abbrev pub max_capacity : ℕ
max_capacity = 65535

-- SockaddrInLess
unfoldable pub addr_less : Addr → Addr → Bool
addr_less a b =
    if not (a.s_addr == b.s_addr) then ltb a.s_addr b.s_addr else ltb a.sin_port b.sin_port

-- equal_addr
unfoldable pub equal_addr : Addr → Addr → Bool
equal_addr a b = a.s_addr == b.s_addr && a.sin_port == b.sin_port

-- address_in_array, and is_src_addr of peers.cpp
unfoldable pub address_in_array : Addr → List Addr → Bool
address_in_array a [] = false
address_in_array a (b ∷ bs) = equal_addr a b || address_in_array a bs

-- `find(*peer) != end()`
unfoldable pub peer_list_contains : List Addr → Addr → Bool
peer_list_contains [] peer = false
peer_list_contains (p ∷ ps) peer =
    if addr_less p peer then peer_list_contains ps peer else not (addr_less peer p)

-- std::set::insert
unfoldable pub insert : List Addr → Addr → List Addr
insert [] peer = peer ∷ []
insert (p ∷ ps) peer =
    if addr_less p peer
    then p ∷ insert ps peer
    else if addr_less peer p
    then peer ∷ p ∷ ps
    else p ∷ ps

-- peer_list_add: the list, and 1, 0 or -1.
unfoldable pub peer_list_add : List Addr → Addr → List Addr × ℤ
peer_list_add ps peer =
    if peer_list_contains ps peer
    then (ps, pos 0)
    else if ltb (length ps) max_capacity
    then (insert ps peer, pos 1)
    else (ps, negsuc 0)

-- peer_list_remove
unfoldable pub peer_list_remove : List Addr → Addr → List Addr
peer_list_remove [] peer = []
peer_list_remove (p ∷ ps) peer =
    if addr_less p peer
    then p ∷ peer_list_remove ps peer
    else if addr_less peer p
    then p ∷ ps
    else ps

-- peer_list_full
unfoldable pub peer_list_full : List Addr → Bool
peer_list_full ps = leb max_capacity (length ps)

-- peer_list_count: a `uint16_t`
unfoldable pub peer_list_count : List Addr → ℕ
peer_list_count ps = length ps % 2 ^ 16

-- A peer that the two loops below leave out.
unfoldable pub is_excluded : List Addr → Addr → Addr → Bool
is_excluded src_addr_arr dest_addr peer =
    address_in_array peer src_addr_arr || equal_addr peer dest_addr

-- peer_list_count_excl, from `count` on.
unfoldable pub count_excl_loop : List Addr → List Addr → Addr → ℕ → ℕ
count_excl_loop [] src_addr_arr dest_addr count = count
count_excl_loop (p ∷ ps) src_addr_arr dest_addr count =
    count_excl_loop ps src_addr_arr dest_addr
      (if is_excluded src_addr_arr dest_addr p then count else (count + 1) % 2 ^ 16)

unfoldable pub peer_list_count_excl : List Addr → List Addr → Addr → ℕ
peer_list_count_excl ps src_addr_arr dest_addr = count_excl_loop ps src_addr_arr dest_addr 0

-- The bytes of an address and of a port in the memory of a little-endian machine.
unfoldable pub addr_bytes : ℕ → List ℕ
addr_bytes a = a % 256 ∷ a / 256 % 256 ∷ a / 65536 % 256 ∷ a / 16777216 % 256 ∷ []

unfoldable pub port_bytes : ℕ → List ℕ
port_bytes p = p % 256 ∷ p / 256 % 256 ∷ []

abbrev pub record_size : ℕ
record_size = 7

-- peer_list_write_to_buf_excl: the bytes written, or `none` for `false`.
unfoldable pub peer_list_write_to_buf_excl : List Addr → ℕ → List Addr → Addr → Option (List ℕ)
peer_list_write_to_buf_excl [] size src_addr_arr dest_addr = if ltb 0 size then none else some []
peer_list_write_to_buf_excl (p ∷ ps) size src_addr_arr dest_addr =
    let skip = peer_list_write_to_buf_excl ps size src_addr_arr dest_addr in
    let rest = peer_list_write_to_buf_excl ps (size - record_size) src_addr_arr dest_addr in
    let write = elim rest as (λ _. Option (List ℕ)) [
      | none ↦ none
      | some bytes ↦ some (4 ∷ addr_bytes p.s_addr ++ (port_bytes p.sin_port ++ bytes))
    ] in
    if is_excluded src_addr_arr dest_addr p
    then skip
    else if ltb size record_size
    then none
    else write
