-- ===== src/Common/Words.antt =====
-- Machine words: a `usize` has 64 bits; `u32` and `u16` keep their wrap-around written out.
use Prim.Native.Nat.{ℕ, zero, suc, ◌+◌, ◌-◌, ◌*◌, ◌/◌, ◌%◌, ◌^◌, ◌≤◌, ◌<◌}
use mathlib.Core.Path.{◌≡◌, ap, sym, ◌∙◌}
use native.Mathlib.Nat.{
  zero-add, suc-add, mul_assoc, pow-suc, mod-add-mod, mod-eq_of_lt, mod-eq-sub-mod, mod-lt,
  mod-add-div, add-mul-mod_self_left,
}
use native.Mathlib.Decide.{dec_lt}
use mathlib.Core.Logic.{◌≢◌}
use native.Mathlib.Omega.{arith}

abbrev pub usize_mod : ℕ
usize_mod = 2 ^ 64

-- `Wrapping<usize> + 1`
abbrev pub wrapping_inc : ℕ → ℕ
wrapping_inc i = (i + 1) % usize_mod

-- `usize` subtraction in a release build, which wraps
abbrev pub sub_usize : ℕ → ℕ → ℕ
sub_usize a b = (a + usize_mod - b) % usize_mod

pow-two-add : (d k : ℕ) → 2 ^ (d + k) ≡ 2 ^ k * 2 ^ d
pow-two-add zero k = rw zero-add (omega arith)
pow-two-add (suc d) k = rw (suc-add, pow-suc, pow-suc, pow-two-add d k) (omega arith)

-- Reducing modulo the word size does not change a remainder by a smaller power of two.
pub mod-usize-mod : (k a : ℕ) → k ≤ 64 → a % usize_mod % 2 ^ k ≡ a % 2 ^ k
mod-usize-mod k a h = omega (
  arith,
  add-mul-mod_self_left (a % usize_mod) (2 ^ k) (2 ^ (64 - k) * (a / usize_mod)),
  ap (λ (t : ℕ). t % 2 ^ k)
      (sym (mod-add-div a usize_mod) ∙ ap (λ (t : ℕ). a % usize_mod + t) regroup),
)
  where
    regroup : usize_mod * (a / usize_mod) ≡ 2 ^ k * (2 ^ (64 - k) * (a / usize_mod))
    regroup =
        rw (← mul_assoc, ← pow-two-add (64 - k) k)
          (ap (λ (t : ℕ). 2 ^ t * (a / usize_mod)) {x = 64} (omega arith))

-- Fewer than `m` steps round a ring of `m` cells do not come back to the start.
pub add-mod-ne : (m h j : ℕ) → 0 < j → j < m → (h + j) % m ≢ h % m
add-mod-ne m h j pos lt = elim (dec_lt (h % m + j) m) [
  | yes p ↦ omega (arith, mod-eq_of_lt p, mod-add-mod h m j)
  | no p ↦ omega (
    arith,
    mod-add-mod h m j,
    mod-lt h {m = m} (omega arith),
    mod-eq-sub-mod {n = h % m + j} {m = m} (omega arith),
    mod-eq_of_lt {n = h % m + j - m} {m = m} (omega (arith, mod-lt h {m = m} (omega arith))),
  )
]
