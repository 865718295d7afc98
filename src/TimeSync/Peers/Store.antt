-- ===== src/TimeSync/Peers/Store.antt =====
-- The vectors `peer_lists` and `peer_list_iterators` of peers.cpp: lists by their ids, and the
-- iterators over them. A failed assertion is a fault.
use computer_networks_course.Prelude.{
  ℕ, zero, suc, ◌-◌, ◌^◌, Bool, true, false, Option, none, some, List, [], ◌∷◌, ◌++◌, ltb,
  if◌then◌else◌, length, get_elem?, set, ℤ,
}
use computer_networks_course.Outcome.{Outcome, done, fault, ◌>>=◌, or_fault}
use computer_networks_course.TimeSync.Peers.{Addr, addr_less, peer_list_add, peer_list_remove}

-- An iterator is the peer that it stands at, or the end of the set.
pub record Store : Type 0 where
  pub lists : List (List Addr)
  pub iterators : List (Option Addr)

-- `begin()`
unfoldable pub first_of : List Addr → Option Addr
first_of [] = none
first_of (a ∷ l) = some a

-- `++`: the first peer of the set behind the one that the iterator stands at.
unfoldable pub next_of : List Addr → Addr → Option Addr
next_of [] at = none
next_of (a ∷ l) at = if addr_less at a then some a else next_of l at

-- `iterator != end()`
abbrev pub not_end : Option Addr → Bool
not_end none = false
not_end (some a) = true

-- peer_list_create: the id and the store. The static counter is the size of the vector.
unfoldable pub peer_list_create : Store → Outcome (ℕ × Store)
peer_list_create store =
    if ltb (length store.lists) (2 ^ 64 - 1)
    then done (
      length store.lists,
      record { lists = store.lists ++ [] ∷ []; iterators = store.iterators ++ none ∷ [] },
    )
    else fault

-- `assert(list_id < peer_lists.size())`, and the list.
unfoldable pub list_of : Store → ℕ → Outcome (List Addr)
list_of store list_id = or_fault (get_elem? store.lists list_id)

-- peer_list_add and peer_list_remove of a list by its id.
unfoldable pub add_to : Store → ℕ → Addr → Outcome (Store × ℤ)
add_to store list_id peer = do
  l ← list_of store list_id
  let (l', result) = peer_list_add l peer
  done (record store { lists = set store.lists list_id l' }, result)

unfoldable pub remove_from : Store → ℕ → Addr → Outcome Store
remove_from store list_id peer = do
  l ← list_of store list_id
  done (record store { lists = set store.lists list_id (peer_list_remove l peer) })

-- peer_list_cpy
unfoldable pub peer_list_cpy : Store → ℕ → ℕ → Outcome Store
peer_list_cpy store src_list dest_list = do
  l ← list_of store src_list
  old ← list_of store dest_list
  done (record store { lists = set store.lists dest_list l })

-- peer_list_iterator_begin
unfoldable pub peer_list_iterator_begin : Store → ℕ → Outcome (Store × Bool)
peer_list_iterator_begin store list_id = do
  l ← list_of store list_id
  done (record store { iterators = set store.iterators list_id (first_of l) }, not_end (first_of l))

-- peer_list_iterator_next
unfoldable pub peer_list_iterator_next : Store → ℕ → Outcome (Store × Bool)
peer_list_iterator_next store list_id = do
  l ← list_of store list_id
  it ← or_fault (get_elem? store.iterators list_id)
  at ← or_fault it
  done (
    record store { iterators = set store.iterators list_id (next_of l at) },
    not_end (next_of l at),
  )

-- peer_list_iterator_get_peer
unfoldable pub peer_list_iterator_get_peer : Store → ℕ → Outcome Addr
peer_list_iterator_get_peer store list_id = do
  l ← list_of store list_id
  it ← or_fault (get_elem? store.iterators list_id)
  or_fault it

-- `do { … get_peer … } while (iterator_next);`: the peers that the loop visits, for fuel.
unfoldable pub walk : ℕ → Store → ℕ → Outcome (List Addr)
walk zero store list_id = fault
walk (suc fuel) store list_id = do
  peer ← peer_list_iterator_get_peer store list_id
  (store', more) ← peer_list_iterator_next store list_id
  let go_on = do peers ← walk fuel store' list_id; done (peer ∷ peers)
  if more then go_on else done (peer ∷ [])

-- `if (iterator_begin) do { … } while (iterator_next);`, as messages.c loops over a list.
unfoldable pub visit : ℕ → Store → ℕ → Outcome (List Addr)
visit fuel store list_id = do
  (store', some_peer) ← peer_list_iterator_begin store list_id
  let peers = walk fuel store' list_id
  if some_peer then peers else done []
