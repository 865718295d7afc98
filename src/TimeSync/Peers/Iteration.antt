-- ===== src/TimeSync/Peers/Iteration.antt =====
-- Iterating over a list of the store visits its peers, each once and in order.
use computer_networks_course.Prelude.{
  ℕ, zero, suc, ◌≤◌, ◌<◌, ◌≡◌, refl, true, false, Option, some, List, [], ◌∷◌, ◌++◌, append_assoc,
  arith, length, length-set, get_elem?, get_elem?-set_self, set, All,
}
use computer_networks_course.Outcome.{done}
use computer_networks_course.TimeSync.Peers.{Addr, addr_less}
use computer_networks_course.TimeSync.Peers.Laws.{Sorted}
use computer_networks_course.TimeSync.Peers.Store.{
  Store, first_of, next_of, list_of, peer_list_iterator_begin, peer_list_iterator_next,
  peer_list_iterator_get_peer, walk, visit,
}

not_less_self : (a : Addr) → addr_less a a ≡ false
unfolding addr_less
not_less_self a = ground arith

less_asym : (a b : Addr) → addr_less a b ≡ true → addr_less b a ≡ false
unfolding addr_less
less_asym a b h = ground arith

All-middle :
    (P : Addr → Type 0) (pre : List Addr) (a : Addr) (suf : List Addr)
    → All P (pre ++ a ∷ suf)
    → P a
All-middle P [] a suf h = h.0
All-middle P (p ∷ pre) a suf h = All-middle P pre a suf h.1

-- Behind a peer of the set stands the next one.
next_of-middle :
    (pre : List Addr) (a : Addr) (suf : List Addr)
    → Sorted (pre ++ a ∷ suf)
    → next_of (pre ++ a ∷ suf) a ≡ first_of suf
unfolding next_of first_of
next_of-middle [] a [] s = rw (not_less_self a)
next_of-middle [] a (b ∷ suf) s = rw (not_less_self a, s.0.0)
next_of-middle (p ∷ pre) a suf s =
    rw (less_asym p a (All-middle _ pre a suf s.0)) (next_of-middle pre a suf s.1)

-- What a list of a store and its iterator are.
pub record At (store : Store) (list_id : ℕ) (l : List Addr) (it : Option Addr) : Type 0 where
  pub has_list : get_elem? store.lists list_id ≡ some l
  pub has_iterator : get_elem? store.iterators list_id ≡ some it
  pub in_range : list_id < length store.iterators

walk_lem :
    (suf : List Addr) (fuel : ℕ) (store : Store) (list_id : ℕ) (pre : List Addr) (a : Addr)
    → Sorted (pre ++ a ∷ suf)
    → At store list_id (pre ++ a ∷ suf) (some a)
    → length suf < fuel
    → walk fuel store list_id ≡ done (a ∷ suf)
unfolding walk peer_list_iterator_get_peer peer_list_iterator_next list_of first_of
walk_lem [] zero store list_id pre a s at h = absurd (omega arith)
walk_lem (b ∷ suf) zero store list_id pre a s at h = absurd (omega arith)
walk_lem [] (suc fuel) store list_id pre a s at h =
    rw (at.has_list, at.has_iterator, next_of-middle pre a [] s) refl
walk_lem (b ∷ suf) (suc fuel) store list_id pre a s at h =
    let same = append_assoc pre (a ∷ []) (b ∷ suf) in
    let later : At (record store { iterators = set store.iterators list_id (some b) }) list_id
        ((pre ++ a ∷ []) ++ b ∷ suf) (some b) =
      record {
        has_list = rw same at.has_list;
        has_iterator = get_elem?-set_self store.iterators list_id (some b) at.in_range;
        in_range = rw (length-set store.iterators list_id (some b)) at.in_range;
      } in
    rw (at.has_list, at.has_iterator, next_of-middle pre a (b ∷ suf) s)
      (rw (walk_lem suf fuel _ list_id (pre ++ a ∷ []) b (rw same s) later (omega arith)) refl)

-- A loop over a peer list by peer_list_iterator_begin, get_peer and next, wherever its iterator
-- stood before, comes to no failed assertion and visits exactly the peers of the list, in order,
-- and ends. The list is sorted, and fuel of its length is enough.
pub visit_lem :
    (fuel : ℕ) (store : Store) (list_id : ℕ) (l : List Addr)
    → get_elem? store.lists list_id ≡ some l
    → list_id < length store.iterators
    → Sorted l
    → length l ≤ fuel
    → visit fuel store list_id ≡ done l
unfolding visit peer_list_iterator_begin list_of first_of
visit_lem fuel store list_id [] e h s f = rw e refl
visit_lem fuel store list_id (a ∷ l) e h s f = rw e (
    walk_lem l fuel (record store { iterators = set store.iterators list_id (some a) }) list_id [] a
      s
      (record {
        has_list = e;
        has_iterator = get_elem?-set_self store.iterators list_id (some a) h;
        in_range = rw (length-set store.iterators list_id (some a)) h;
      })
      (omega arith))
