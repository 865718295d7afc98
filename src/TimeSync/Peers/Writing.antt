-- ===== src/TimeSync/Peers/Writing.antt =====
-- HELLO_REPLY from the list of peers to its bytes, and back.
use mathlib.Core.Path.{ap₂}
use computer_networks_course.Prelude.{
  ℕ, ◌+◌, ◌-◌, ◌*◌, ◌/◌, ◌%◌, ◌^◌, ◌≤◌, ◌<◌, ◌≡◌, refl, ap, ◌∙◌, inl, inr, true, false, Option,
  none, some, List, [], ◌∷◌, ◌++◌, arith, ltb, leb, ◌==◌, if◌then◌else◌, ==-refl, Bool-cases,
  length,
}
use computer_networks_course.TimeSync.Peers.{
  Addr, max_capacity, is_excluded, count_excl_loop, peer_list_count_excl,
  peer_list_write_to_buf_excl, addr_bytes, port_bytes,
}
use computer_networks_course.TimeSync.Codec.{
  buffer_size, hello_reply_type, network_bytes, network_value, create_hello_reply_message,
  read_peer,
}

-- The peers that are not left out.
unfoldable pub kept : List Addr → Addr → List Addr → List Addr
kept src dest [] = []
kept src dest (p ∷ ps) = if is_excluded src dest p then kept src dest ps else p ∷ kept src dest ps

-- The records of peers.
unfoldable pub encode : List Addr → List ℕ
encode [] = []
encode (p ∷ ps) = 4 ∷ addr_bytes p.s_addr ++ (port_bytes p.sin_port ++ encode ps)

length-kept :
    (src : List Addr) (dest : Addr) (ps : List Addr) → length (kept src dest ps) ≤ length ps
unfolding kept
length-kept src dest [] = omega arith
length-kept src dest (p ∷ ps) = ground (arith, length-kept src dest ps)

pub length-encode : (ps : List Addr) → length (encode ps) ≡ length ps * 7
unfolding encode addr_bytes port_bytes
length-encode [] = refl
length-encode (p ∷ ps) = omega (arith, length-encode ps)

count_excl_loop_lem :
    (src : List Addr) (dest : Addr) (ps : List Addr) (count : ℕ)
    → count + length ps < 2 ^ 16
    → count_excl_loop ps src dest count ≡ count + length (kept src dest ps)
unfolding count_excl_loop kept
count_excl_loop_lem src dest [] count h = omega arith
count_excl_loop_lem src dest (p ∷ ps) count h = elim (Bool-cases (is_excluded src dest p)) [
  | inl out ↦ rw out (count_excl_loop_lem src dest ps count (omega arith))
  | inr in_list ↦ rw in_list (
      ap (count_excl_loop ps src dest) (small (count + 1) (omega arith))
      ∙ count_excl_loop_lem src dest ps (count + 1) (omega arith)
      ∙ omega arith)
]
  where
    small : (n : ℕ) → n < 2 ^ 16 → n % 2 ^ 16 ≡ n
    small n h = omega arith

-- The count of a peer list does not wrap: it is the number of peers that are kept.
pub peer_list_count_excl_lem :
    (src : List Addr) (dest : Addr) (ps : List Addr)
    → length ps ≤ max_capacity
    → peer_list_count_excl ps src dest ≡ length (kept src dest ps)
unfolding peer_list_count_excl
peer_list_count_excl_lem src dest ps h =
    count_excl_loop_lem src dest ps 0 (omega arith) ∙ omega arith

write_more :
    (rest : Option (List ℕ)) (p : Addr) (size n : ℕ) (bytes : List ℕ)
    → rest ≡ (if size - 7 == n then some bytes else none)
    → (if ltb size 7 then none else elim rest as (λ _. Option (List ℕ)) [
      | none ↦ none
      | some bytes ↦ some (4 ∷ addr_bytes p.s_addr ++ (port_bytes p.sin_port ++ bytes))
    ])
      ≡ (if size == n + 7
          then some (4 ∷ addr_bytes p.s_addr ++ (port_bytes p.sin_port ++ bytes))
          else none)
write_more rest p size n bytes e = rw e (elim (Bool-cases (ltb size 7)) [
  | inl short ↦ let other : (size == n + 7) ≡ false = ground arith in rw (short, other)
  | inr long ↦ elim (Bool-cases (size - 7 == n)) [
    | inl same ↦ let same' : (size == n + 7) ≡ true = ground arith in rw (long, same, same')
    | inr other ↦ let other' : (size == n + 7) ≡ false = ground arith in rw (long, other, other')
  ]
])

-- The buffer is written in full exactly if its size is that of the kept peers; then it holds their
-- records.
pub peer_list_write_to_buf_excl_lem :
    (src : List Addr) (dest : Addr) (ps : List Addr) (size : ℕ)
    → peer_list_write_to_buf_excl ps size src dest
      ≡ (if size == length (kept src dest ps) * 7 then some (encode (kept src dest ps)) else none)
unfolding peer_list_write_to_buf_excl kept encode
peer_list_write_to_buf_excl_lem src dest [] size = ground arith
peer_list_write_to_buf_excl_lem src dest (p ∷ ps) size =
    elim (Bool-cases (is_excluded src dest p)) [
      | inl out ↦ rw out (peer_list_write_to_buf_excl_lem src dest ps size)
      | inr in_list ↦ rw in_list (
          write_more _ p size (length (kept src dest ps) * 7) _
            (peer_list_write_to_buf_excl_lem src dest ps (size - 7))
          ∙ ap
              (λ n.
                if size == n
                then some (
                    4 ∷ addr_bytes p.s_addr ++ (port_bytes p.sin_port ++ encode (kept src dest ps)))
                else none)
              (omega arith))
    ]

-- A HELLO_REPLY holds the peers of the list but the sender and the receiver, if it fits the buffer;
-- otherwise there is none. The list is within its capacity.
pub create_hello_reply_message_lem :
    (src : List Addr) (dest : Addr) (ps : List Addr)
    → length ps ≤ max_capacity
    → create_hello_reply_message ps src dest ≡ (
        if leb buffer_size (3 + length (kept src dest ps) * 7)
        then none
        else some (
            hello_reply_type ∷ network_bytes 2 (length (kept src dest ps))
            ++ encode (kept src dest ps)))
unfolding create_hello_reply_message
create_hello_reply_message_lem src dest ps h = rw (
  peer_list_count_excl_lem src dest ps h,
  peer_list_write_to_buf_excl_lem src dest ps (length (kept src dest ps) * 7),
  ==-refl (length (kept src dest ps) * 7),
  peer_list_count_excl_lem src dest ps h,
)

-- An address that its machine can hold.
pub record IsAddr (a : Addr) : Type 0 where
  pub address : a.s_addr < 2 ^ 32
  pub port : a.sin_port < 2 ^ 16

pub read_peer-encode :
    (p : Addr) (rest : List ℕ)
    → IsAddr p
    → read_peer (4 ∷ addr_bytes p.s_addr ++ (port_bytes p.sin_port ++ rest)) ≡ some (4, p, rest)
unfolding read_peer addr_bytes port_bytes
read_peer-encode p rest v =
    ap₂ (λ x u. some (4, record { s_addr = x; sin_port = u }, rest)) (four p.s_addr v.address)
      (two p.sin_port v.port)
  where
    four :
        (a : ℕ)
        → a < 2 ^ 32
        → a % 256 + a / 256 % 256 * 256 + a / 65536 % 256 * 65536 + a / 16777216 % 256 * 16777216
          ≡ a
    four a h = omega arith

    two : (a : ℕ) → a < 2 ^ 16 → a % 256 + a / 256 % 256 * 256 ≡ a
    two a h = omega arith

-- The number of peers is read back.
pub network_value-count : (n : ℕ) → n < 2 ^ 16 → network_value 0 (network_bytes 2 n) ≡ n
unfolding network_value network_bytes
network_value-count n h = omega arith

-- A time stamp of 64 bits is read back.
pub network_value-timestamp : (n : ℕ) → n < 2 ^ 64 → network_value 0 (network_bytes 8 n) ≡ n
unfolding network_value network_bytes
network_value-timestamp n h = omega arith
