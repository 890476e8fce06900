-- ===== src/Examples/Queue.antt =====
-- Runs of src/misc/circular_queue.rs: a queue of four cells whose indices are about to wrap.
use rust_nethuns.Common.{
  ℕ, ◌-◌, ◌*◌, ◌^◌, ◌≤◌, ◌<◌, ◌≡◌, refl, true, false, none, some, List, [], ◌∷◌, arith,
}
use rust_nethuns.Common.Words.{usize_mod}
use rust_nethuns.CircularQueue.{CircularQueue, next_power_of_two}
use rust_nethuns.CircularQueue.NextPow.{next_power_of_two_lem}
use rust_nethuns.CircularQueue.Refine.{Holds}
use rust_nethuns.CircularQueue.Fifo
use rust_nethuns.CircularQueue.Client.{
  Op, push_op, pop_op, clone_pop_op, pushed_reply, popped_reply, run, run_fifo, run_refines,
}

abbrev wrapped : CircularQueue ℕ
wrapped = record {
  buffer = 10 ∷ 11 ∷ 12 ∷ 13 ∷ [];
  head = usize_mod - 1;
  tail = 1;
  mask = 3;
  num_items = 3;
}

abbrev nine : Unit {0} → ℕ
nine _ = 9

abbrev calls : List (Op ℕ)
calls = push_op 7 ∷ push_op 8 ∷ clone_pop_op ∷ pop_op ∷ pop_op ∷ pop_op ∷ []

wrapped-Holds : Holds 2 wrapped (13 ∷ 10 ∷ [])
wrapped-Holds = record {
  valid = record {
    shape = record {
      few_bits = omega arith;
      mask_eq = refl;
      length_eq = refl;
      head_lt = omega arith;
      tail_lt = omega arith;
      some_items = omega arith;
      items_le = omega arith;
    };
    count_le = omega arith;
  };
  counted = refl;
  items = (refl, (refl, tt));
}

run_refines_example :
    run wrapped calls
    ≡ some (
        pushed_reply true
        ∷ pushed_reply false
        ∷ popped_reply (some 13)
        ∷ popped_reply (some 10)
        ∷ popped_reply (some 7)
        ∷ popped_reply none
        ∷ [])
unfolding run_fifo Fifo.push Fifo.pop
run_refines_example = run_refines calls wrapped-Holds

next_power_of_two_example :
    (j : ℕ) × (next_power_of_two 5 ≡ 2 ^ j) × (j < 64) × (5 ≤ 2 ^ j) × (2 ^ j < 2 * 5)
next_power_of_two_example = next_power_of_two_lem 5 (omega arith) (omega arith)
