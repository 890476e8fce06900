-- ===== src/Ring/FreeSlots.antt =====
-- `num_free_slots` and `nethuns_send_slot` of src/sockets/ring.rs.
use rust_nethuns.Common.{
  ℕ, zero, suc, ◌+◌, ◌-◌, ◌%◌, ◌^◌, ◌≤◌, ◌<◌, ◌≡◌, ◌≢◌, ◌⊎◌, ◌∙◌, refl, sym, min, Option, none,
  some, List, length, get_elem?, arith, inl, inr,
}
use rust_nethuns.CircularQueue.Valid.{IsShaped, index_eq, size-eq-pow, pow-lt-usize}
use rust_nethuns.Common.Words.{sub_usize}
use native.Mathlib.Nat.{add-zero, one-le-pow}
use rust_nethuns.Ring.{
  NethunsRing, NethunsRingSlot, RingSlotStatus, free, in_use, in_flight, count_free, num_free_slots,
  get_slot, size,
}

-- The slot that a position selects.
abbrev pub status_at : NethunsRing → ℕ → Option RingSlotStatus
status_at r pos = elim (get_slot r pos) [ none ↦ none | some slot ↦ some slot.status ]

count_free-le : (buffer : List NethunsRingSlot) (pos n : ℕ) → count_free buffer pos n ≤ n
unfolding count_free
count_free-le buffer pos zero = omega arith
count_free-le buffer pos (suc n) = ground (arith, count_free-le buffer (pos + 1) n)

abbrev cell_status : List NethunsRingSlot → ℕ → Option RingSlotStatus
cell_status buffer pos = elim (get_elem? buffer (pos % length buffer)) [
  | none ↦ none
  | some slot ↦ some slot.status
]

-- The first round, at a free slot and at any other cell.
count_free-suc :
    (buffer : List NethunsRingSlot) (pos n : ℕ)
    → ((cell_status buffer pos ≡ some free)
        × (count_free buffer pos (suc n) ≡ suc (count_free buffer (pos + 1) n)))
      ⊎ ((cell_status buffer pos ≢ some free) × (count_free buffer pos (suc n) ≡ 0))
unfolding count_free
count_free-suc buffer pos n = by_cell (get_elem? buffer (pos % length buffer)) refl
  where
    by_cell :
        (o : Option NethunsRingSlot)
        → get_elem? buffer (pos % length buffer) ≡ o
        → ((cell_status buffer pos ≡ some free)
            × (count_free buffer pos (suc n) ≡ suc (count_free buffer (pos + 1) n)))
          ⊎ ((cell_status buffer pos ≢ some free) × (count_free buffer pos (suc n) ≡ 0))
    by_cell none e = inr (rw (e, cell_status) (λ p. cc), rw (e, count_free))
    by_cell (some slot) e = by_status slot.status refl
      where
        by_status :
            (s : RingSlotStatus)
            → slot.status ≡ s
            → ((cell_status buffer pos ≡ some free)
                × (count_free buffer pos (suc n) ≡ suc (count_free buffer (pos + 1) n)))
              ⊎ ((cell_status buffer pos ≢ some free) × (count_free buffer pos (suc n) ≡ 0))
        by_status free st = inl (rw (e, cell_status, st), rw (e, st, count_free))
        by_status in_use st = inr (rw (e, cell_status, st) (λ p. cc), rw (e, st, count_free))
        by_status in_flight st = inr (rw (e, cell_status, st) (λ p. cc), rw (e, st, count_free))

count_free-free :
    (buffer : List NethunsRingSlot) (pos n i : ℕ)
    → i < count_free buffer pos n
    → cell_status buffer (pos + i) ≡ some free
count_free-free buffer pos zero i h = absurd (omega (arith, count_free-le buffer pos 0))
count_free-free buffer pos (suc n) zero h = elim (count_free-suc buffer pos n) [
  | inl (e, _) ↦ rw add-zero e
  | inr (_, z) ↦ absurd (omega arith)
]
count_free-free buffer pos (suc n) (suc i) h = elim (count_free-suc buffer pos n) [
  | inl (_, c) ↦
      let moved : pos + 1 + i ≡ pos + suc i = omega arith in
      rw moved at (count_free-free buffer (pos + 1) n i (omega arith))
  | inr (_, z) ↦ absurd (omega arith)
]

count_free-stop :
    (buffer : List NethunsRingSlot) (pos n : ℕ)
    → count_free buffer pos n < n
    → cell_status buffer (pos + count_free buffer pos n) ≢ some free
count_free-stop buffer pos zero h = elim h [ ]
count_free-stop buffer pos (suc n) h = elim (count_free-suc buffer pos n) [
  | inl (_, c) ↦
      let moved : pos + 1 + count_free buffer (pos + 1) n ≡ pos + count_free buffer pos (suc n) =
        omega arith in
      rw moved at (count_free-stop buffer (pos + 1) n (omega arith))
  | inr (ne, z) ↦ rw (z, add-zero) ne
]

module _ {bits : ℕ} (r : NethunsRing) (v : IsShaped bits r.rings) where
  cell-eq-slot : (pos : ℕ) → cell_status r.rings.buffer pos ≡ status_at r pos
  unfolding get_slot
  cell-eq-slot pos = rw (cell_status, status_at, index_eq v pos, v.length_eq)

  bound_eq : sub_usize (size r) 1 ≡ 2 ^ bits - 1
  unfolding size
  bound_eq = omega (arith, size-eq-pow v, pow-lt-usize v.few_bits, one-le-pow bits 2)

  -- On a ring of the right shape the count is at most 32, and less than the size of the ring.
  pub num_free_slots-le : (pos : ℕ) → num_free_slots r pos ≤ min (2 ^ bits - 1) 32
  unfolding num_free_slots
  num_free_slots-le pos =
      omega (arith, bound_eq, count_free-le r.rings.buffer pos (min (sub_usize (size r) 1) 32))

  -- On a ring of the right shape the slots that are counted are free: they are consecutive from `pos` on.
  pub num_free_slots-free :
      (pos i : ℕ) → i < num_free_slots r pos → status_at r (pos + i) ≡ some free
  unfolding num_free_slots
  num_free_slots-free pos i h =
      sym (cell-eq-slot (pos + i)) ∙ count_free-free r.rings.buffer pos _ i h

  -- On a ring of the right shape a count below the cap stops at a slot that is not free.
  pub num_free_slots-stop :
      (pos : ℕ)
      → num_free_slots r pos < min (2 ^ bits - 1) 32
      → status_at r (pos + num_free_slots r pos) ≢ some free
  unfolding num_free_slots
  num_free_slots-stop pos h =
      rw (← cell-eq-slot) (
        count_free-stop r.rings.buffer pos (min (sub_usize (size r) 1) 32)
          (omega (arith, bound_eq)))
