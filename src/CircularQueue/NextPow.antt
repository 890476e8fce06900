-- ===== src/CircularQueue/NextPow.antt =====
-- `usize::next_power_of_two`, as `new` of src/misc/circular_queue.rs calls it.
use rust_nethuns.Common.{
  ℕ, zero, suc, ◌+◌, ◌*◌, ◌^◌, ◌≤◌, ◌<◌, ◌≡◌, refl, ap, inl, inr, arith, leb, Bool-cases,
}
use native.Mathlib.Nat.{pow-suc}
use rust_nethuns.CircularQueue.{next_power_from, next_power_of_two}

next_power_from_lem :
    (fuel k n : ℕ)
    → fuel + k ≡ 64
    → n ≤ 2 ^ 63
    → 2 ^ k < 2 * n
    → (j : ℕ) × (next_power_from fuel (2 ^ k) n ≡ 2 ^ j) × (j < 64) × (n ≤ 2 ^ j) × (2 ^ j < 2 * n)
unfolding next_power_from
next_power_from_lem zero k n e h l =
    absurd (omega (arith, ap (λ (t : ℕ). 2 ^ t) {x = k} {y = 64} (omega arith)))
next_power_from_lem (suc fuel) k n e h l = elim (Bool-cases (leb n (2 ^ k))) [
  | inl stop ↦ (k, rw stop, omega arith, ground arith, l)
  | inr more ↦
      rw (more, ← doubled k)
        (next_power_from_lem fuel (suc k) n (omega arith) h (ground (arith, doubled k)))
]
  where
    doubled : (k : ℕ) → 2 ^ suc k ≡ 2 * 2 ^ k
    doubled k = omega (arith, pow-suc 2 k)

-- The result is the least power of two that is not below the argument.
pub next_power_of_two_lem :
    (n : ℕ)
    → 0 < n
    → n ≤ 2 ^ 63
    → (j : ℕ) × (next_power_of_two n ≡ 2 ^ j) × (j < 64) × (n ≤ 2 ^ j) × (2 ^ j < 2 * n)
unfolding next_power_of_two
next_power_of_two_lem n pos h = next_power_from_lem 64 0 n refl h (omega arith)
