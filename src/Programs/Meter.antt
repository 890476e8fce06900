-- ===== src/Programs/Meter.antt =====
-- The counters of examples/send.rs and examples/meter.rs: the threads that send or receive packets
-- count them, and another thread swaps the counters for 0, adds up what it finds, and prints the sum
-- each second. The threads take their steps in any order.
pub mod Conserved
use rust_nethuns.Common.{
  ℕ, zero, suc, ◌+◌, ◌%◌, ◌^◌, Option, none, some, List, [], ◌∷◌, get_elem?, set,
}
use rust_nethuns.Programs.{inc_u64}

-- The shared counters; in the thread of the meter the sum so far, the position of the next counter,
-- and what has been printed, last first.
pub record Meters : Type 0 where
  pub totals : List ℕ
  pub sum : ℕ
  pub next : ℕ
  pub printed : List ℕ

-- A thread counts a packet of the socket with that index, or the meter takes its next step.
pub data Event : Type 0 where
  packet : ℕ → Event
  tick : Event

-- `totals.get(i)`, and `fetch_add` if that counter is there.
unfoldable pub fetch_add : List ℕ → ℕ → List ℕ
fetch_add [] i = []
fetch_add (t ∷ totals) zero = inc_u64 t ∷ totals
fetch_add (t ∷ totals) (suc i) = t ∷ fetch_add totals i

-- The meter's next step: a counter is swapped and added, or all have been and the sum is printed.
unfoldable pub meter_step : Option ℕ → Meters → Meters
meter_step (some t) m = record m {
  totals = set m.totals m.next 0;
  sum = (m.sum + t) % 2 ^ 64;
  next = m.next + 1;
}
meter_step none m = record m { sum = 0; next = 0; printed = m.sum ∷ m.printed }

unfoldable pub run : List Event → Meters → Meters
unfolding fetch_add meter_step
run [] m = m
run (packet i ∷ events) m = run events (record m { totals = fetch_add m.totals i })
run (tick ∷ events) m = run events (meter_step (get_elem? m.totals m.next) m)
