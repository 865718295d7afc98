-- ===== src/TimeSync/Clock/Laws.antt =====
-- The readings of the clock, and the offset of a synchronization.
use computer_networks_course.Prelude.{
  ℕ, ◌+◌, ◌-◌, ◌*◌, ◌≤◌, ◌<◌, ◌≡◌, ap, ◌∙◌, inl, inr, true, false, arith, leb, ◌==◌, Bool-cases,
  pos, negsuc, pos_part, sub_ℕ, ltb_ℤ,
}
use computer_networks_course.Outcome.{done}
use computer_networks_course.TimeSync.Clock.{
  Timespec, clock_unsynchronized, get_natural_clock, to_int64, half, get_clock, update_offset, ◌-ℤ◌,
}
use computer_networks_course.TimeSync.Handlers.Invariant.{IsTime, update_offset_total}

-- Since the start of the program, in nanoseconds: for a clock that does not go back.
abbrev pub elapsed_ns : Timespec → Timespec → ℕ
elapsed_ns start current =
    (current.tv_sec - start.tv_sec) * 1000000000 + current.tv_nsec - start.tv_nsec

-- The natural clock is off by less than a millisecond, to either side, for a clock that does not go
-- back.
pub get_natural_clock_bounds :
    (start current : Timespec)
    → start.tv_nsec < 1000000000
    → current.tv_nsec < 1000000000
    → start.tv_sec ≤ current.tv_sec
    → (start.tv_sec ≡ current.tv_sec → start.tv_nsec ≤ current.tv_nsec)
    → (get_natural_clock start current * 1000000 < elapsed_ns start current + 1000000)
      × (elapsed_ns start current < get_natural_clock start current * 1000000 + 1000000)
unfolding get_natural_clock
get_natural_clock_bounds start current h k s e =
    elim (Bool-cases (start.tv_sec == current.tv_sec)) [
      | inl same ↦
          let eq : start.tv_sec ≡ current.tv_sec = ground arith in
          let later = e eq in (ground arith, ground arith)
      | inr differ ↦
          let more : start.tv_sec < current.tv_sec = ground arith in (ground arith, ground arith)
    ]

half_double : (a b x y : ℕ) → x + 2 * b ≡ y + 2 * a → half (sub_ℕ x y) ≡ sub_ℕ a b
unfolding half
half_double a b x y h = elim (Bool-cases (leb y x)) [
  | inl le ↦ let le' : leb b a ≡ true = ground arith in rw (le, le') (ap pos (ground arith))
  | inr gt ↦
      let gt' : leb b a ≡ false = ground arith in
      rw (gt, gt') (negative (y - x - 1) (b - a - 1) (ground arith))
]
  where
    negative : (m n : ℕ) → m ≡ 2 * n + 1 → half (negsuc m) ≡ negsuc n
    negative m n e = ground arith

shift_back :
    (l r a b : ℕ)
    → l + b ≡ r + a
    → (ltb_ℤ (pos l) (sub_ℕ a b) ≡ false) × (pos_part (pos l -ℤ sub_ℕ a b) ≡ r)
shift_back l r a b h = (ground arith, ground arith)

small_int64 : (t : ℕ) → IsTime t → to_int64 t ≡ pos t
unfolding to_int64
small_int64 t h = ground arith

-- If the clocks of two nodes differ by a - b and messages take as long both ways, the exchange
-- gives exactly that offset, and from then on the clock of the synchronized node shows the time of
-- the other. Times are below 2^62 ms.
pub update_offset_exact :
    (t1 t2 t3 t4 a b d : ℕ)
    → IsTime t1
    → IsTime t2
    → IsTime t3
    → IsTime t4
    → t2 + b ≡ t1 + a + d
    → t4 + a ≡ t3 + b + d
    → (update_offset t1 t2 t3 t4 ≡ done (sub_ℕ a b))
      × ((level l r : ℕ)
          → level < clock_unsynchronized
          → IsTime l
          → l + b ≡ r + a
          → get_clock l level (sub_ℕ a b) ≡ r)
unfolding get_clock
update_offset_exact t1 t2 t3 t4 a b d h1 h2 h3 h4 there back = (
  update_offset_total t1 t2 t3 t4 h1 h2 h3 h4
      ∙ ap done (half_double a b (t2 + t3) (t1 + t4) (omega arith)),
  λ level l r low fits e.
      let differ : (level == clock_unsynchronized) ≡ false = ground arith in
      let (ahead, same) = shift_back l r a b e in rw (differ, small_int64 l fits, ahead) same,
)
