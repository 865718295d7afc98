-- ===== src/TimeSync/Codec.antt =====
-- The messages of messages.c as bytes.
use computer_networks_course.Prelude.{
  ℕ, zero, suc, ◌+◌, ◌*◌, ◌/◌, ◌%◌, Option, none, some, List, [], ◌∷◌, ◌++◌, leb, ltb, ◌≤◌, ◌≡◌,
  refl, false, arith, take, drop, length, if◌then◌else◌,
}
use computer_networks_course.Outcome.{Outcome, done, fault}
use computer_networks_course.TimeSync.Peers.{
  Addr, peer_list_count_excl, peer_list_write_to_buf_excl,
}

abbrev pub hello_type : ℕ
hello_type = 1

abbrev pub hello_reply_type : ℕ
hello_reply_type = 2

abbrev pub connect_type : ℕ
connect_type = 3

abbrev pub ack_connect_type : ℕ
ack_connect_type = 4

abbrev pub sync_start_type : ℕ
sync_start_type = 11

abbrev pub delay_request_type : ℕ
delay_request_type = 12

abbrev pub delay_response_type : ℕ
delay_response_type = 13

abbrev pub leader_type : ℕ
leader_type = 21

abbrev pub get_time_type : ℕ
get_time_type = 31

abbrev pub time_type : ℕ
time_type = 32

abbrev pub buffer_size : ℕ
buffer_size = 65536

-- A number as `w` bytes in network byte order: htons, htonll and memcpy.
unfoldable pub network_bytes : ℕ → ℕ → List ℕ
network_bytes zero n = []
network_bytes (suc w) n = network_bytes w (n / 256) ++ n % 256 ∷ []

-- memcpy and ntohs, ntohll, behind the bytes that make `value`.
unfoldable pub network_value : ℕ → List ℕ → ℕ
network_value value [] = value
network_value value (b ∷ bs) = network_value (value * 256 + b) bs

-- memcpy of `width` bytes from `msg_buf + offset`, and ntohs or ntohll. Bytes behind the end of the
-- datagram are a fault.
unfoldable pub read_number : ℕ → ℕ → List ℕ → Outcome ℕ
read_number offset width msg =
    if ltb (length msg) (offset + width)
    then fault
    else done (network_value 0 (take width (drop offset msg)))

pub read_number_total :
    (offset width : ℕ) (msg : List ℕ)
    → offset + width ≤ length msg
    → read_number offset width msg ≡ done (network_value 0 (take width (drop offset msg)))
unfolding read_number
read_number_total offset width msg h = rw (le-not_lt (offset + width) (length msg) h) refl
  where
    le-not_lt : (m n : ℕ) → m ≤ n → ltb n m ≡ false
    le-not_lt m n k = ground arith

-- create_simple_message
unfoldable pub create_simple_message : ℕ → List ℕ
create_simple_message message_type = message_type ∷ []

-- create_sync_level_and_timestamp_message
unfoldable pub create_sync_level_and_timestamp_message : ℕ → ℕ → ℕ → List ℕ
create_sync_level_and_timestamp_message message_type sync_level timestamp =
    message_type ∷ sync_level ∷ network_bytes 8 timestamp

-- create_hello_reply_message; `none` is the length 0.
unfoldable pub create_hello_reply_message : List Addr → List Addr → Addr → Option (List ℕ)
create_hello_reply_message peer_list src_addr_arr dest_addr =
    let count = peer_list_count_excl peer_list src_addr_arr dest_addr in
    let body = peer_list_write_to_buf_excl peer_list (count * 7) src_addr_arr dest_addr in
    let message = elim body as (λ _. Option (List ℕ)) [
      | none ↦ none
      | some bytes ↦ some (hello_reply_type ∷ network_bytes 2 count ++ bytes)
    ] in
    if leb buffer_size (1 + 2 + count * 7) then none else message

-- A peer of a HELLO_REPLY: the length of its address, the address and port as memcpy stores them on
-- a little-endian machine, and the bytes behind it.
unfoldable pub read_peer : List ℕ → Option (ℕ × Addr × List ℕ)
read_peer (len ∷ a ∷ b ∷ c ∷ d ∷ p ∷ q ∷ rest) =
    some (
      len,
      record { s_addr = a + b * 256 + c * 65536 + d * 16777216; sin_port = p + q * 256 },
      rest,
    )
read_peer buf = none
