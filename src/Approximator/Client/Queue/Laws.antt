-- ===== src/Approximator/Client/Queue/Laws.antt =====
-- ThreadSafeQueue against its contract: for any interleaving of calls, what comes out is what went
-- in, in that order.
use computer_networks_course.Prelude.{
  ◌≡◌, sym, ap, ◌∙◌, Option, none, some, List, [], ◌∷◌, ◌++◌, append_assoc, append-nil,
}
use computer_networks_course.Approximator.Client.Queue.{push, pop, try_pop, try_pop_for}

-- The calls of the threads, in the order of the mutex.
pub data Call {ℓ} (A : Type ℓ) : Type ℓ where
  pushing : A → Call A
  popping try_popping try_popping_for : Call A

module _ {ℓ} {A : Type ℓ} where
  -- The entry that a pop takes, in front of what the later calls take.
  took : Option (A × List A) → List A → (List A → List A × List A) → List A × List A
  took none q later = later q
  took (some (a, q')) q later = let (out, rest) = later q' in (a ∷ out, rest)

  -- The entries that the calls take, and the queue behind them.
  unfoldable pub run_calls : List (Call A) → List A → List A × List A
  unfolding took
  run_calls [] q = ([], q)
  run_calls (pushing a ∷ cs) q = run_calls cs (push a q)
  run_calls (popping ∷ cs) q = took (pop q) q (run_calls cs)
  run_calls (try_popping ∷ cs) q = took (try_pop q) q (run_calls cs)
  run_calls (try_popping_for ∷ cs) q = took (try_pop_for q) q (run_calls cs)

  -- What the calls put in.
  unfoldable pub pushed : List (Call A) → List A
  pushed [] = []
  pushed (pushing a ∷ cs) = a ∷ pushed cs
  pushed (popping ∷ cs) = pushed cs
  pushed (try_popping ∷ cs) = pushed cs
  pushed (try_popping_for ∷ cs) = pushed cs

  -- ThreadSafeQueue is a queue: for any order of calls, what the calls take out, and then what is
  -- left, is what was there and what they put in, in that order.
  pub run_calls-fifo :
      (cs : List (Call A)) (q : List A) → (run_calls cs q).0 ++ (run_calls cs q).1 ≡ q ++ pushed cs
  unfolding run_calls pushed push took pop try_pop try_pop_for
  run_calls-fifo [] q = sym (append-nil q)
  run_calls-fifo (pushing a ∷ cs) q =
      run_calls-fifo cs (q ++ a ∷ []) ∙ append_assoc q (a ∷ []) (pushed cs)
  run_calls-fifo (popping ∷ cs) [] = run_calls-fifo cs []
  run_calls-fifo (popping ∷ cs) (a ∷ q) = ap (◌∷◌ a) (run_calls-fifo cs q)
  run_calls-fifo (try_popping ∷ cs) [] = run_calls-fifo cs []
  run_calls-fifo (try_popping ∷ cs) (a ∷ q) = ap (◌∷◌ a) (run_calls-fifo cs q)
  run_calls-fifo (try_popping_for ∷ cs) [] = run_calls-fifo cs []
  run_calls-fifo (try_popping_for ∷ cs) (a ∷ q) = ap (◌∷◌ a) (run_calls-fifo cs q)
