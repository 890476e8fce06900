-- ===== src/Common/Counts.antt =====
-- Lists of numbers up to order: how often each number occurs.
use Prim.Native.Nat.{ℕ, zero, suc, ◌+◌}
use mathlib.Core.Path.{◌≡◌, refl}
use mathlib.Core.List.{List, [], ◌∷◌, ◌++◌, map}
use mathlib.Core.Option.{some}
use native.Mathlib.Omega.{arith}
use rust_nethuns.Common.Tests.{◌==◌, if◌then◌else◌}
use rust_nethuns.Common.Lists.{get_elem?, set, gather}

pub count : ℕ → List ℕ → ℕ
count b [] = 0
count b (x ∷ xs) = (if b == x then 1 else 0) + count b xs

-- Two lists hold the same numbers, as often.
abbrev pub SameItems : List ℕ → List ℕ → Type 0
SameItems xs ys = (b : ℕ) → count b xs ≡ count b ys

pub count-cons : (b x : ℕ) (xs : List ℕ) → count b (x ∷ xs) ≡ count b (x ∷ []) + count b xs
unfolding count
count-cons b x xs = ground arith

pub count-nil : (b : ℕ) → count b [] ≡ 0
unfolding count
count-nil b = refl

pub count-append : (b : ℕ) (xs ys : List ℕ) → count b (xs ++ ys) ≡ count b xs + count b ys
unfolding count
count-append b [] ys = omega arith
count-append b (x ∷ xs) ys = omega (arith, count-append b xs ys)

module _ {ℓ} {A : Type ℓ} (f : A → ℕ) where
  -- Replacing an element trades its number for the new one's.
  pub count-map-set :
      (b : ℕ) (xs : List A) (i : ℕ) (x y : A)
      → get_elem? xs i ≡ some x
      → count b (map f (set xs i y)) + count b (f x ∷ []) ≡ count b (map f xs) + count b (f y ∷ [])
  unfolding count
  count-map-set b [] i x y e = cc
  count-map-set b (z ∷ xs) zero x y e = ground arith
  count-map-set b (z ∷ xs) (suc i) x y e = omega (arith, count-map-set b xs i x y e)

module _ {ℓ} {A : Type ℓ} (f : A → List ℕ) where
  pub count-gather-set :
      (b : ℕ) (xs : List A) (i : ℕ) (x y : A)
      → get_elem? xs i ≡ some x
      → count b (gather f (set xs i y)) + count b (f x) ≡ count b (gather f xs) + count b (f y)
  count-gather-set b [] i x y e = cc
  count-gather-set b (z ∷ xs) zero x y e =
      ground (arith, count-append b (f y) (gather f xs), count-append b (f z) (gather f xs))
  count-gather-set b (z ∷ xs) (suc i) x y e = omega (
    arith,
    count-append b (f z) (gather f (set xs i y)),
    count-append b (f z) (gather f xs),
    count-gather-set b xs i x y e,
  )
