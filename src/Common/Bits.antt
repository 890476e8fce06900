-- ===== src/Common/Bits.antt =====
-- `&` with a mask of low bits is a remainder, at every width.
use Prim.Native.Nat.{
  ℕ, zero, suc, ◌+◌, ◌-◌, ◌*◌, ◌/◌, ◌%◌, ◌^◌, ◌≤◌, ◌<◌, min, bit_and, digits, bit_and-bitwise,
}
use mathlib.Core.Path.{◌≡◌, ap, sym, ◌∙◌}
use native.Mathlib.Nat.{
  pow-suc, one-le-pow, mul_assoc, mod-lt, mod-eq_of_lt, mod-add-div, add-mul-mod_self_left,
}
use native.Mathlib.Omega.{arith}

-- The last digit of a number splits off its remainder by an even number.
split_digit : (m q r : ℕ) → 0 < m → r < 2 → (q * 2 + r) % (2 * m) ≡ q % m * 2 + r
split_digit m q r pos small =
    ap (λ (t : ℕ). t % (2 * m)) regroup
    ∙ add-mul-mod_self_left (q % m * 2 + r) (2 * m) (q / m)
    ∙ mod-eq_of_lt (omega (arith, mod-lt q {m = m} pos))
  where
    regroup : q * 2 + r ≡ q % m * 2 + r + 2 * m * (q / m)
    regroup = omega (arith, mod-add-div q m, mul_assoc 2 m (q / m))

-- What a mask of `k` ones leaves of a number, looking at `n` digits of it.
abbrev masked : ℕ → ℕ → ℕ → ℕ
masked n k a = digits (λ b. zero) min n a (2 ^ k - 1)

masked-eq-mod : (n k a : ℕ) → a ≤ n → masked n k a ≡ a % 2 ^ k
masked-eq-mod zero k zero h = sym (mod-eq_of_lt {n = 0} {m = 2 ^ k} (one-le-pow k 2 (omega arith)))
masked-eq-mod zero k (suc a) h = absurd (omega arith)
masked-eq-mod (suc n) k zero h =
    sym (mod-eq_of_lt {n = 0} {m = 2 ^ k} (one-le-pow k 2 (omega arith)))
masked-eq-mod (suc n) zero (suc a) h = omega (arith, masked-eq-mod n zero (suc a / 2) (omega arith))
masked-eq-mod (suc n) (suc k) (suc a) h =
    rw (half, odd, masked-eq-mod n k (suc a / 2) (omega arith), doubled)
      (omega (
        arith,
        split_digit (2 ^ k) (suc a / 2) (suc a % 2) (one-le-pow k 2 (omega arith)) (omega arith),
        ap (λ (t : ℕ). t % (2 * 2 ^ k)) {x = suc a} {y = suc a / 2 * 2 + suc a % 2} (omega arith),
      ))
  where
    doubled : 2 ^ suc k ≡ 2 * 2 ^ k
    doubled = omega (arith, pow-suc 2 k)

    half : (2 ^ suc k - 1) / 2 ≡ 2 ^ k - 1
    half = omega (arith, doubled)

    odd : (2 ^ suc k - 1) % 2 ≡ 1
    odd = omega (arith, doubled, one-le-pow k 2 (omega arith))

pub bit_and_mask : (k a : ℕ) → bit_and a (2 ^ k - 1) ≡ a % 2 ^ k
bit_and_mask k a = bit_and-bitwise a (2 ^ k - 1) ∙ masked-eq-mod a k a (omega arith)
