-- ===== src/Approximator/Client/Threads/Counting.antt =====
-- The puts and the answers of an automatic client: what each turn does, and any order of turns.
use computer_networks_course.Prelude.{
  ℕ, ◌+◌, ◌≤◌, ◌≡◌, refl, Bool, true, false, not, List, [], ◌∷◌, arith, if◌then◌else◌, Text,
}
use computer_networks_course.Outcome.{
  Outcome, done, fatal, fault, ◌>>=◌, Yields, yields, on_fatal, on_fault, Yields-map, Yields-done,
}
use computer_networks_course.Approximator.Constants.{Double}
use computer_networks_course.Approximator.Client.Processor.Laws.{one_if}
use computer_networks_course.Approximator.Client.Threads.{System, Turn, start, turn, run}
use computer_networks_course.Approximator.Client.Threads.Balance.{
  answered, put_made, Balanced, Balanced-eq,
}
use computer_networks_course.Approximator.Client.Threads.Balancing.{Balanced-start, Balanced-turn}

-- The phase behind a wait.
counted :
    (first : Bool) (a p b n : ℕ)
    → n ≤ 1
    → (0 + p) + b + 1 ≤ n + (0 + a) + one_if (not first)
    → (first ≡ true → 0 + a ≡ 0)
    → p ≤ (if first then 0 else a + 1)
counted true a p b n h k q = omega (arith, q refl)
counted false a p b n h k q = omega arith

-- The counts behind a message, from those in front of it.
module _ {F : Type 0} ⦃d : Double F⦄ where
  abbrev behind : Outcome (System F) → (System F → ℕ) → ℕ
  behind (done s) count = count s
  behind fatal count = 0
  behind fault count = 0

  -- What is counted over the turns of a run.
  unfoldable pub total : (Turn → System F → ℕ) → List Turn → System F → ℕ
  total count [] s = 0
  total count (t ∷ ts) s = count t s + behind (turn t s) (total count ts)

  Balanced-run :
      (ts : List Turn) (a p : ℕ) (s : System F)
      → Balanced a p s
      → Yields (Balanced (a + total answered ts s) (p + total put_made ts s)) (run ts s)
  unfolding run total
  Balanced-run [] a p s b = yields (Balanced-eq (omega arith) (omega arith) b)
  Balanced-run (t ∷ ts) a p s b =
      onward (turn t s) (Balanced-turn t s b) (λ s' h. Balanced-run ts _ _ s' h)
    where
      onward :
          (m : Outcome (System F))
          → Yields (Balanced (a + answered t s) (p + put_made t s)) m
          → ((s' : System F)
              → Balanced (a + answered t s) (p + put_made t s) s'
              → Yields
                  (Balanced
                    (a + answered t s + total answered ts s')
                    (p + put_made t s + total put_made ts s'))
                  (run ts s'))
          → Yields
              (Balanced
                (a + (answered t s + behind m (total answered ts)))
                (p + (put_made t s + behind m (total put_made ts))))
              (m >>= run ts)
      onward (done s') (yields h) k =
          Yields-map (λ s'' j. Balanced-eq (omega arith) (omega arith) j) (k s' h)
      onward fatal y k = on_fatal
      onward fault y k = on_fault

  -- In any order of the turns of its threads, an automatic client makes no PUT before its first
  -- message, and from then on at most one more than the answers to puts (STATE and BAD_PUT) that
  -- its processor has taken.
  pub run-puts_bounded :
      (n : ℕ) (player_id server_ip : Text) (server_port : ℕ) (ts : List Turn) {s : System F}
      → run ts (start n player_id true server_ip server_port) ≡ done s
      → total put_made ts (start n player_id true server_ip server_port) ≤ (
          if s.progress.is_first_message
          then 0
          else total answered ts (start n player_id true server_ip server_port) + 1)
  run-puts_bounded n player_id server_ip server_port ts {s} e =
      let s0 = start n player_id true server_ip server_port in
      let b =
        Yields-done (Balanced-run ts 0 0 s0 (Balanced-start n player_id server_ip server_port)) e in
      counted s.progress.is_first_message _ _ _ _ b.few b.balance b.quiet
