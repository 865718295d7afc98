-- ===== src/Approximator/Client/Queue.antt =====
-- ts_queue.h: the queue between two threads. Each operation holds the mutex, so a queue is a list,
-- oldest entry first, and an operation is one step.
pub mod Laws
use computer_networks_course.Prelude.{Option, none, some, List, [], ◌∷◌, ◌++◌}

module _ {ℓ} {A : Type ℓ} where
  unfoldable pub push : A → List A → List A
  push item queue = queue ++ item ∷ []

  -- Returns immediately; `none` is `false`.
  unfoldable pub try_pop : List A → Option (A × List A)
  try_pop [] = none
  try_pop (item ∷ queue) = some (item, queue)

  -- The queue is the one at the end of the wait: with an entry, or empty at the timeout.
  unfoldable pub try_pop_for : List A → Option (A × List A)
  try_pop_for [] = none
  try_pop_for (item ∷ queue) = some (item, queue)

  -- Blocks while the queue is empty: `none` is a wait that has not ended.
  unfoldable pub pop : List A → Option (A × List A)
  pop [] = none
  pop (item ∷ queue) = some (item, queue)
