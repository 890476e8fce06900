-- ===== src/Programs/Meter/Conserved.antt =====
-- No packet is lost between the counters and what is printed (examples/send.rs, examples/meter.rs).
use rust_nethuns.Common.{
  ℕ, zero, suc, ◌+◌, ◌^◌, ◌<◌, ◌≡◌, refl, ap, Option, none, some, List, [], ◌∷◌, length, length-set,
  get_elem?, set, arith,
}
use native.Mathlib.Nat.{mod-eq_of_lt}
use rust_nethuns.Programs.{inc_u64}
use rust_nethuns.Programs.Meter.{Meters, Event, packet, tick, fetch_add, meter_step, run}

abbrev pub sum_of : List ℕ → ℕ
sum_of [] = 0
sum_of (x ∷ xs) = x + sum_of xs

-- The packets of a sequence of steps.
abbrev pub packets_in : List Event → ℕ
packets_in [] = 0
packets_in (packet i ∷ events) = suc (packets_in events)
packets_in (tick ∷ events) = packets_in events

-- Every packet is of one of `n` sockets.
abbrev pub AreOf : ℕ → List Event → Type 0
AreOf n [] = Unit
AreOf n (packet i ∷ events) = (i < n) × AreOf n events
AreOf n (tick ∷ events) = AreOf n events

-- The packets that are counted or in print.
abbrev pub known : Meters → ℕ
known m = sum_of m.printed + (m.sum + sum_of m.totals)

inc_small : (t : ℕ) → suc t < 2 ^ 64 → inc_u64 t ≡ suc t
inc_small t h = omega (arith, h)

fetch_add-sum_of :
    (totals : List ℕ) (i : ℕ)
    → i < length totals
    → suc (sum_of totals) < 2 ^ 64
    → sum_of (fetch_add totals i) ≡ suc (sum_of totals)
unfolding fetch_add
fetch_add-sum_of [] i h small = absurd (omega arith)
fetch_add-sum_of (t ∷ totals) zero h small = omega (arith, inc_small t (omega arith))
fetch_add-sum_of (t ∷ totals) (suc i) h small =
    omega (arith, fetch_add-sum_of totals i (omega arith) (omega arith))

length-fetch_add : (totals : List ℕ) (i : ℕ) → length (fetch_add totals i) ≡ length totals
unfolding fetch_add
length-fetch_add [] i = refl
length-fetch_add (t ∷ totals) zero = refl
length-fetch_add (t ∷ totals) (suc i) = ap suc (length-fetch_add totals i)

-- A counter that is swapped for 0.
set-sum_of :
    (totals : List ℕ) (i t : ℕ)
    → get_elem? totals i ≡ some t
    → sum_of (set totals i 0) + t ≡ sum_of totals
set-sum_of [] i t here = absurd cc
set-sum_of (x ∷ totals) zero t here = let same : x ≡ t = cc in omega (arith, same)
set-sum_of (x ∷ totals) (suc i) t here = omega (arith, set-sum_of totals i t here)

meter_step-known :
    (m : Meters) (found : Option ℕ)
    → get_elem? m.totals m.next ≡ found
    → known m < 2 ^ 64
    → (known (meter_step found m) ≡ known m)
      × (length (meter_step found m).totals ≡ length m.totals)
unfolding meter_step
meter_step-known m none here small = (omega arith, refl)
meter_step-known m (some t) here small = (
  omega (arith, set-sum_of m.totals m.next t here, mod-eq_of_lt {n = m.sum + t} {m = 2 ^ 64}),
  length-set m.totals m.next 0,
)

-- In whatever order the threads take their steps, every packet is in a counter, in the sum of the meter
-- or in print, exactly once: together they are those from before and those that are sent or received
-- meanwhile. The conditions are that these packets are of sockets that have a counter, and that there
-- are fewer than 2 ^ 64 of them all.
pub known-run :
    (events : List Event) (m : Meters)
    → AreOf (length m.totals) events
    → known m + packets_in events < 2 ^ 64
    → known (run events m) ≡ known m + packets_in events
unfolding run
known-run [] m a small = omega arith
known-run (packet i ∷ events) m (inside, a) small =
    let m' : Meters = record m { totals = fetch_add m.totals i } in
    let more = fetch_add-sum_of m.totals i inside (omega arith) in
    omega
      (arith, more, known-run events m' (rw (length-fetch_add m.totals i) a) (omega (arith, more)))
known-run (tick ∷ events) m a small =
    let m' = meter_step (get_elem? m.totals m.next) m in
    let (same, size) = meter_step-known m (get_elem? m.totals m.next) refl (omega arith) in
    omega (arith, same, known-run events m' (rw size a) (omega (arith, same)))
