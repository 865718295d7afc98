-- ===== src/TimeSync/Peers/Laws.antt =====
-- The peer lists as finite sets.
use mathlib.Core.Path.{ap₂}
use computer_networks_course.Prelude.{
  suc, ◌≤◌, ◌≡◌, refl, ◌↔◌, ◌⊎◌, inl, inr, true, false, ◌&&◌, ◌||◌, not, List, [], ◌∷◌, arith, ltb,
  Bool-cases, length, All, pos, negsuc,
}
use computer_networks_course.TimeSync.Peers.{
  Addr, max_capacity, addr_less, equal_addr, peer_list_contains, insert, peer_list_add,
  peer_list_remove, peer_list_full, peer_list_count,
}

-- The addresses rise, so that none is there twice.
abbrev pub Sorted : List Addr → Type 0
Sorted [] = Unit
Sorted (p ∷ ps) = All (λ q. addr_less p q ≡ true) ps × Sorted ps

-- A peer list is sorted and not above its capacity.
pub record IsPeerList (ps : List Addr) : Type 0 where
  pub sorted : Sorted ps
  pub fits : length ps ≤ max_capacity

pub equal_addr_iff : (a b : Addr) → (equal_addr a b ≡ true) ↔ (a ≡ b)
unfolding equal_addr
equal_addr_iff a b = (forth a b, λ e. rw e (self b))
  where
    self : (a : Addr) → equal_addr a a ≡ true
    self a = ground arith

    forth : (a b : Addr) → equal_addr a b ≡ true → a ≡ b
    forth a b h =
        let ex : a.s_addr ≡ b.s_addr = ground arith in
        let eu : a.sin_port ≡ b.sin_port = ground arith in
        ap₂ {C = Addr} (λ x u. record { s_addr = x; sin_port = u }) ex eu

less_trans : (a b c : Addr) → addr_less a b ≡ true → addr_less b c ≡ true → addr_less a c ≡ true
unfolding addr_less
less_trans a b c h k = ground arith

All-less :
    (a b : Addr) (ps : List Addr)
    → addr_less a b ≡ true
    → All (λ q. addr_less b q ≡ true) ps
    → All (λ q. addr_less a q ≡ true) ps
All-less a b [] h k = tt
All-less a b (p ∷ ps) h (k, ks) = (less_trans a b p h k, All-less a b ps h ks)

insert-All :
    (p : Addr) (ps : List Addr) (a : Addr)
    → addr_less p a ≡ true
    → All (λ q. addr_less p q ≡ true) ps
    → All (λ q. addr_less p q ≡ true) (insert ps a)
unfolding insert
insert-All p [] a h k = (h, tt)
insert-All p (q ∷ ps) a h (k, ks) = ground (arith, insert-All p ps a h ks)

insert-Sorted : (ps : List Addr) (a : Addr) → Sorted ps → Sorted (insert ps a)
unfolding insert
insert-Sorted [] a s = (tt, tt)
insert-Sorted (p ∷ ps) a (h, s) = elim (Bool-cases (addr_less p a)) [
  | inl lt ↦ rw lt (insert-All p ps a lt h, insert-Sorted ps a s)
  | inr ge ↦ elim (Bool-cases (addr_less a p)) [
    | inl gt ↦ rw (ge, gt) ((gt, All-less a p ps gt h), (h, s))
    | inr le ↦ rw (ge, le) (h, s)
  ]
]

length-insert : (ps : List Addr) (a : Addr) → length (insert ps a) ≤ suc (length ps)
unfolding insert
length-insert [] a = omega arith
length-insert (p ∷ ps) a = ground (arith, length-insert ps a)

contains-insert :
    (ps : List Addr) (a b : Addr)
    → peer_list_contains (insert ps a) b ≡ (equal_addr a b || peer_list_contains ps b)
unfolding insert peer_list_contains equal_addr addr_less
contains-insert [] a b = ground arith
contains-insert (p ∷ ps) a b = ground (arith, contains-insert ps a b)

contains-below :
    (b : Addr) (ps : List Addr)
    → All (λ q. addr_less b q ≡ true) ps
    → peer_list_contains ps b ≡ false
unfolding peer_list_contains addr_less
contains-below b [] h = refl
contains-below b (p ∷ ps) (h, hs) = ground arith

remove-All :
    (p : Addr) (ps : List Addr) (a : Addr)
    → All (λ q. addr_less p q ≡ true) ps
    → All (λ q. addr_less p q ≡ true) (peer_list_remove ps a)
unfolding peer_list_remove
remove-All p [] a h = tt
remove-All p (q ∷ ps) a (k, ks) = ground (arith, remove-All p ps a ks)

remove-Sorted : (ps : List Addr) (a : Addr) → Sorted ps → Sorted (peer_list_remove ps a)
unfolding peer_list_remove
remove-Sorted [] a s = tt
remove-Sorted (p ∷ ps) a (h, s) = elim (Bool-cases (addr_less p a)) [
  | inl lt ↦ rw lt (remove-All p ps a h, remove-Sorted ps a s)
  | inr ge ↦ elim (Bool-cases (addr_less a p)) [
    | inl gt ↦ rw (ge, gt) (h, s)
    | inr le ↦ rw (ge, le) s
  ]
]

length-remove : (ps : List Addr) (a : Addr) → length (peer_list_remove ps a) ≤ length ps
unfolding peer_list_remove
length-remove [] a = omega arith
length-remove (p ∷ ps) a = ground (arith, length-remove ps a)

contains-remove :
    (ps : List Addr) (a b : Addr)
    → Sorted ps
    → peer_list_contains (peer_list_remove ps a) b
      ≡ (not (equal_addr a b) && peer_list_contains ps b)
unfolding peer_list_remove peer_list_contains equal_addr addr_less
contains-remove [] a b s = ground arith
contains-remove (p ∷ ps) a b (h, s) =
    ground (arith, contains-remove ps a b s, contains-below' p b ps h)
  where
    contains-below' :
        (p b : Addr) (ps : List Addr)
        → All (λ q. addr_less p q ≡ true) ps
        → addr_less p b ≡ false
        → peer_list_contains ps b ≡ false
    contains-below' p b [] h n = refl
    contains-below' p b (q ∷ ps) (h, hs) n = ground arith

-- Adding a peer to a peer list: a peer that is there already (0) and a list that is full (-1) leave
-- the list as it is; otherwise (1) the list has the new peer too. It stays a peer list.
pub peer_list_add_lem :
    (ps : List Addr) (a : Addr)
    → IsPeerList ps
    → IsPeerList (peer_list_add ps a).0
      × (((peer_list_add ps a ≡ (ps, pos 0)) × (peer_list_contains ps a ≡ true))
          ⊎ ((peer_list_add ps a ≡ (ps, negsuc 0)) × (peer_list_full ps ≡ true))
          ⊎ (((peer_list_add ps a).1 ≡ pos 1)
              × (peer_list_contains ps a ≡ false)
              × ((b : Addr)
                  → peer_list_contains (peer_list_add ps a).0 b
                    ≡ (equal_addr a b || peer_list_contains ps b))))
unfolding peer_list_add peer_list_full
peer_list_add_lem ps a v = elim (Bool-cases (peer_list_contains ps a)) [
  | inl known ↦ rw known (v, inl (refl, refl))
  | inr new ↦ elim (Bool-cases (ltb (length ps) max_capacity)) [
    | inr full ↦ rw (new, full) (v, inr (inl (refl, ground arith)))
    | inl room ↦
        rw (new, room)
          (
            record {
              sorted = insert-Sorted ps a v.sorted;
              fits = ground (arith, length-insert ps a);
            },
            inr (inr (refl, refl, contains-insert ps a)),
          )
  ]
]

-- Removing a peer from a peer list removes that peer and no other, and leaves a peer list.
pub peer_list_remove_lem :
    (ps : List Addr) (a : Addr)
    → IsPeerList ps
    → IsPeerList (peer_list_remove ps a)
      × ((b : Addr)
          → peer_list_contains (peer_list_remove ps a) b
            ≡ (not (equal_addr a b) && peer_list_contains ps b))
peer_list_remove_lem ps a v = (
  record { sorted = remove-Sorted ps a v.sorted; fits = omega (arith, length-remove ps a, v.fits) },
  λ b. contains-remove ps a b v.sorted,
)

-- The 16-bit count of a peer list does not wrap.
pub peer_list_count_lem : (ps : List Addr) → IsPeerList ps → peer_list_count ps ≡ length ps
unfolding peer_list_count
peer_list_count_lem ps v = omega (arith, v.fits)
