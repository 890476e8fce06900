-- ===== src/CircularQueue/Fifo.antt =====
-- What the circular queue of src/misc/circular_queue.rs promises: a bounded first-in first-out list.
use rust_nethuns.Common.{
  ℕ, Bool, true, false, Option, none, some, List, [], ◌∷◌, ◌++◌, length, leb, if◌then◌else◌,
}

module _ {ℓ} {A : Type ℓ} where
  unfoldable pub pop : List A → Option A × List A
  pop [] = (none, [])
  pop (x ∷ xs) = (some x, xs)

  unfoldable pub push : ℕ → List A → A → Bool × List A
  push capacity xs x = if leb capacity (length xs) then (false, xs) else (true, xs ++ x ∷ [])
