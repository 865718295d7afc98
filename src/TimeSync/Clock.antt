-- ===== src/TimeSync/Clock.antt =====
-- clock.c. The system's clock is given by its readings.
pub mod Laws
use computer_networks_course.Prelude.{
  ℕ, zero, suc, ◌+◌, ◌-◌, ◌*◌, ◌/◌, ◌%◌, ◌^◌, ◌≤◌, ◌<◌, ◌≡◌, refl, sym, ap, ◌∙◌, ◌≢◌, ◌↔◌, ◌⊎◌, inl,
  inr, Bool, true, false, ◌&&◌, ◌||◌, not, Option, none, some, List, [], ◌∷◌, ◌++◌, map,
  append_assoc, append-nil, arith, ltb, leb, ◌==◌, if◌then◌else◌, ltb→lt, lt→ltb, leb→le, le→leb,
  ==_iff, ==-refl, if_true, if_false, Bool-cases, Option-cases, length, get_elem?, set, take, drop,
  replicate, length-append, length-set, length-replicate, length-take, length-drop, length-map,
  take-append, drop-append, take-append-drop, get_elem?-of_lt, List-cases, All, All-append, All-map,
  Text, codes, text_eq, text_eq_iff, text_eq_refl, ℤ, pos, negsuc, pos_part, neg_part, sub_ℕ, ◌≤ℤ◌,
  ltb_ℤ,
}
use computer_networks_course.Outcome.{Outcome, done, fault, ◌>>=◌}

pub record Timespec : Type 0 where
  pub tv_sec : ℕ
  pub tv_nsec : ℕ

abbrev pub clock_unsynchronized : ℕ
clock_unsynchronized = 255

abbrev pub clock_leader : ℕ
clock_leader = 0

-- get_natural_clock; the division rounds towards zero.
unfoldable pub get_natural_clock : Timespec → Timespec → ℕ
get_natural_clock start current =
    let seconds = (current.tv_sec - start.tv_sec) * 1000 in
    if leb start.tv_nsec current.tv_nsec
    then seconds + (current.tv_nsec - start.tv_nsec) / 1000000
    else seconds - (start.tv_nsec - current.tv_nsec) / 1000000

-- The cast of `uint64_t` to `int64_t`.
unfoldable pub to_int64 : ℕ → ℤ
to_int64 n = if ltb (n % 2 ^ 64) (2 ^ 63) then pos (n % 2 ^ 64) else sub_ℕ (n % 2 ^ 64) (2 ^ 64)

abbrev pub in_int64 : ℤ → Bool
in_int64 z = leb (pos_part z) (2 ^ 63 - 1) && leb (neg_part z) (2 ^ 63)

-- Signed arithmetic: an overflow is a fault.
unfoldable pub checked : ℤ → Outcome ℤ
checked z = if in_int64 z then done z else fault

abbrev pub ◌+ℤ◌ : ℤ → ℤ → ℤ
a +ℤ b = sub_ℕ (pos_part a + pos_part b) (neg_part a + neg_part b)

infixl 60 ◌+ℤ◌
abbrev pub ◌-ℤ◌ : ℤ → ℤ → ℤ
a -ℤ b = sub_ℕ (pos_part a + neg_part b) (neg_part a + pos_part b)

infixl 60 ◌-ℤ◌
-- `/ 2`, towards zero.
unfoldable pub half : ℤ → ℤ
half (pos n) = pos (n / 2)
half (negsuc n) = sub_ℕ 0 (suc n / 2)

-- get_clock at a reading of the natural clock.
unfoldable pub get_clock : ℕ → ℕ → ℤ → ℕ
get_clock natural sync_level offset_ms =
    let natural_time = to_int64 natural in
    let shifted = pos_part (natural_time -ℤ offset_ms) in
    if sync_level == clock_unsynchronized
    then natural
    else if ltb_ℤ natural_time offset_ms
    then 0
    else shifted

-- set_event_in_x_seconds
unfoldable pub set_event_in_x_seconds : Timespec → ℕ → Timespec
set_event_in_x_seconds now x = record now { tv_sec = now.tv_sec + x }

-- check_order
unfoldable pub check_order : Timespec → Timespec → Bool
check_order before after =
    ltb before.tv_sec after.tv_sec
    || before.tv_sec == after.tv_sec && ltb before.tv_nsec after.tv_nsec

-- now_is_after
unfoldable pub now_is_after : Timespec → Timespec → Bool
now_is_after now ts1 = check_order ts1 now

-- update_offset: the new offset.
unfoldable pub update_offset : ℕ → ℕ → ℕ → ℕ → Outcome ℤ
update_offset t1 t2 t3 t4 = do
  a ← checked (to_int64 t2 -ℤ to_int64 t1)
  b ← checked (a +ℤ to_int64 t3)
  c ← checked (b -ℤ to_int64 t4)
  done (half c)
