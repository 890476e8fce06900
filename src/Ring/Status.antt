-- ===== src/Ring/Status.antt =====
-- `AtomicRingSlotStatus` of src/sockets/ring.rs: the byte that stands for a slot's status.
use rust_nethuns.Common.{ℕ, zero, suc, ◌<◌, ◌≡◌, ◌↔◌, refl, Option, none, some, arith}
use rust_nethuns.Ring.{RingSlotStatus, free, in_use, in_flight}

unfoldable pub to_u8 : RingSlotStatus → ℕ
to_u8 free = 0
to_u8 in_use = 1
to_u8 in_flight = 2

-- `none` is the panic on an invalid discriminant.
unfoldable pub from_u8 : ℕ → Option RingSlotStatus
from_u8 zero = some free
from_u8 (suc zero) = some in_use
from_u8 (suc (suc zero)) = some in_flight
from_u8 (suc (suc (suc n))) = none

pub record AtomicRingSlotStatus : Type 0 where
  pub val : ℕ

unfoldable pub new : RingSlotStatus → AtomicRingSlotStatus
unfolding to_u8
new v = record { val = to_u8 v }

unfoldable pub load : AtomicRingSlotStatus → Option RingSlotStatus
unfolding from_u8
load a = from_u8 a.val

unfoldable pub store : AtomicRingSlotStatus → RingSlotStatus → AtomicRingSlotStatus
unfolding to_u8
store a v = record a { val = to_u8 v }

-- A status that was stored, or put in by `new`, is loaded without a panic, and is the same.
pub load-store :
    (a : AtomicRingSlotStatus) (v : RingSlotStatus)
    → (load (store a v) ≡ some v) × (load (new v) ≡ some v)
unfolding load store new
load-store a free = (refl, refl)
load-store a in_use = (refl, refl)
load-store a in_flight = (refl, refl)

-- A load panics exactly at the bytes that no status is stored as.
pub load-none_iff : (a : AtomicRingSlotStatus) → (load a ≡ none) ↔ (2 < a.val)
unfolding load
load-none_iff a = by_value a.val
  where
    by_value : (n : ℕ) → (from_u8 n ≡ none) ↔ (2 < n)
    by_value zero = ground arith
    by_value (suc zero) = ground arith
    by_value (suc (suc zero)) = ground arith
    by_value (suc (suc (suc n))) = ground arith
