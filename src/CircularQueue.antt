-- ===== src/CircularQueue.antt =====
-- src/misc/circular_queue.rs: a circular queue with free-running head and tail indices, masked
-- when the buffer is accessed. The buffer's length is a power of two.
pub mod NextPow
pub mod Valid
pub mod Fifo
pub mod Refine
pub mod Client
use rust_nethuns.Common.{
  ℕ, zero, suc, ◌+◌, ◌-◌, ◌*◌, ◌≡◌, Bool, true, false, Option, none, some, List, get_elem?, set,
  length, replicate, leb, ltb, ◌==◌, if◌then◌else◌, ◌>>=◌, bit_and,
}
use rust_nethuns.Common.Words.{usize_mod, wrapping_inc, sub_usize}

pub record CircularQueue {ℓ} (A : Type ℓ) : Type ℓ where
  pub buffer : List A
  pub head : ℕ
  pub tail : ℕ
  pub mask : ℕ
  pub num_items : ℕ

-- `usize::next_power_of_two`: the least power of two that is not below `n`. Past 2 ^ 63 the result
-- does not fit a `usize`, and a release build returns 0.
next_power_from : ℕ → ℕ → ℕ → ℕ
next_power_from zero p n = 0
next_power_from (suc fuel) p n =
    let rest = next_power_from fuel (2 * p) n in if leb n p then p else rest

pub next_power_of_two : ℕ → ℕ
unfolding next_power_from
next_power_of_two n = next_power_from 64 1 n

module _ {ℓ} {A : Type ℓ} where
  -- `none` is the failed assertion.
  unfoldable pub new : ℕ → (Unit {0} → A) → Option (CircularQueue A)
  new requested generator =
      let size = next_power_of_two requested in
      if ltb 0 requested
      then some (record {
        buffer = replicate size (generator tt);
        head = 0;
        tail = 0;
        mask = sub_usize size 1;
        num_items = requested;
      })
      else none

  unfoldable pub size : CircularQueue A → ℕ
  size q = wrapping_inc q.mask

  unfoldable pub is_empty : CircularQueue A → Bool
  is_empty q = q.head == q.tail

  unfoldable pub is_full : CircularQueue A → Bool
  is_full q = leb q.num_items (sub_usize q.tail q.head)

  unfoldable pub advance_head : CircularQueue A → CircularQueue A
  advance_head q = record q { head = wrapping_inc q.head }

  unfoldable pub advance_tail : CircularQueue A → CircularQueue A
  advance_tail q = record q { tail = wrapping_inc q.tail }

  -- An access out of bounds is a fault.
  unfoldable pub get : CircularQueue A → ℕ → Option A
  get q index = get_elem? q.buffer (bit_and index q.mask)

  -- `get_mut`, and what is stored through the reference that it returns
  unfoldable pub set_at : CircularQueue A → ℕ → A → Option (CircularQueue A)
  set_at q index value =
      let i = bit_and index q.mask in
      if ltb i (length q.buffer) then some (record q { buffer = set q.buffer i value }) else none

  unfoldable pub pop_unchecked : CircularQueue A → Option (A × CircularQueue A)
  unfolding get advance_head
  pop_unchecked q = do item ← get q q.head; some (item, advance_head q)

  unfoldable pub pop : CircularQueue A → Option (Option A × CircularQueue A)
  pop q =
      if is_empty q then some (none, q) else (do (item, q') ← pop_unchecked q; some (some item, q'))

  unfoldable pub push_unchecked : CircularQueue A → A → Option (CircularQueue A)
  unfolding set_at advance_tail
  push_unchecked q value = do q' ← set_at q q.tail value; some (advance_tail q')

  unfoldable pub push : CircularQueue A → A → Option (Bool × CircularQueue A)
  push q value =
      if is_full q then some (false, q) else (do q' ← push_unchecked q value; some (true, q'))

  -- `self.buffer[index & self.mask].clone()`: an index out of bounds panics.
  unfoldable pub clone_get : CircularQueue A → ℕ → Option A
  clone_get q index = get_elem? q.buffer (bit_and index q.mask)

  unfoldable pub clone_pop_unchecked : CircularQueue A → Option (A × CircularQueue A)
  unfolding clone_get advance_head
  clone_pop_unchecked q = do ret ← clone_get q q.head; some (ret, advance_head q)

  unfoldable pub clone_pop : CircularQueue A → Option (Option A × CircularQueue A)
  clone_pop q =
      if is_empty q
      then some (none, q)
      else (do (ret, q') ← clone_pop_unchecked q; some (some ret, q'))
