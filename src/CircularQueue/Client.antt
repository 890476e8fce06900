-- ===== src/CircularQueue/Client.antt =====
-- Calls of a client of src/misc/circular_queue.rs: no sequence of them tells the circular queue
-- from a bounded list.
use rust_nethuns.Common.{ℕ, ◌≡◌, refl, Bool, Option, some, List, [], ◌∷◌, ◌>>=◌}
use rust_nethuns.CircularQueue.{
  CircularQueue, pop, push, pop_unchecked, clone_pop_unchecked, clone_pop,
}
use rust_nethuns.CircularQueue.Fifo
use rust_nethuns.CircularQueue.Refine.{Holds, pop_refines, push_refines}

pub data Op {ℓ} (A : Type ℓ) : Type ℓ where
  push_op : A → Op A
  pop_op : Op A
  clone_pop_op : Op A

pub data Reply {ℓ} (A : Type ℓ) : Type ℓ where
  pushed_reply : Bool → Reply A
  popped_reply : Option A → Reply A

module _ {ℓ} {A : Type ℓ} where
  -- The replies to the calls, in order; `none` if one of them faults.
  pub run : CircularQueue A → List (Op A) → Option (List (Reply A))
  run q [] = some []
  run q (push_op x ∷ ops) = do
    (done, q') ← push q x
    replies ← run q' ops
    some (pushed_reply done ∷ replies)
  run q (pop_op ∷ ops) = do
    (item, q') ← pop q
    replies ← run q' ops
    some (popped_reply item ∷ replies)
  run q (clone_pop_op ∷ ops) = do
    (item, q') ← clone_pop q
    replies ← run q' ops
    some (popped_reply item ∷ replies)

  unfoldable pub run_fifo : ℕ → List A → List (Op A) → List (Reply A)
  run_fifo capacity xs [] = []
  run_fifo capacity xs (push_op x ∷ ops) =
      let (done, xs') = Fifo.push capacity xs x in pushed_reply done ∷ run_fifo capacity xs' ops
  run_fifo capacity xs (pop_op ∷ ops) =
      let (item, xs') = Fifo.pop xs in popped_reply item ∷ run_fifo capacity xs' ops
  run_fifo capacity xs (clone_pop_op ∷ ops) =
      let (item, xs') = Fifo.pop xs in popped_reply item ∷ run_fifo capacity xs' ops

  -- A clone of the item is the item.
  clone_pop-eq-pop : (q : CircularQueue A) → clone_pop q ≡ pop q
  unfolding clone_pop pop pop_unchecked clone_pop_unchecked
  clone_pop-eq-pop q = refl

  -- A valid circular queue answers every sequence of calls as the bounded list of its items does,
  -- and never faults.
  pub run_refines :
      {bits : ℕ} (ops : List (Op A)) {q : CircularQueue A} {xs : List A}
      → Holds bits q xs
      → run q ops ≡ some (run_fifo q.num_items xs ops)
  unfolding run run_fifo
  run_refines [] h = refl
  run_refines (push_op x ∷ ops) h =
      let (q', e, h', n) = push_refines x h in rw (e, run_refines ops h', n)
  run_refines (pop_op ∷ ops) h = let (q', e, h', n) = pop_refines h in rw (e, run_refines ops h', n)
  run_refines (clone_pop_op ∷ ops) {q} h =
      let (q', e, h', n) = pop_refines h in rw (clone_pop-eq-pop q, e, run_refines ops h', n)
