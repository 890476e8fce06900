-- ===== src/Netmap/Reclaim.antt =====
-- The macro `nethuns_ring_free_slots` of src/sockets/ring.rs with `nethuns_blocks_free` of
-- src/sockets/api/netmap/utility.rs: the buffers of released packets go back to the free ring.
use rust_nethuns.Common.{
  ℕ, suc, ◌+◌, ◌^◌, ◌≤◌, ◌≡◌, refl, true, false, some, List, [], ◌∷◌, ◌++◌, append_assoc,
  append-nil, map, length, length-append, arith, if◌then◌else◌, inl, inr, Bool-cases,
}
use rust_nethuns.CircularQueue.{CircularQueue}
use rust_nethuns.CircularQueue.Valid.{advance_tail-IsShaped}
use rust_nethuns.CircularQueue.Refine.{Holds, pushed, push_unchecked-Holds}
use rust_nethuns.Ring.{
  NethunsRing, NethunsRingSlot, is_free, is_empty, get_slot, tail, advance_tail, free_slots_loop,
  nethuns_ring_free_slots,
}
use rust_nethuns.Ring.SendSlot.{get_slot-some}
use rust_nethuns.Netmap.Outstanding.{Outstanding}
use rust_nethuns.Netmap.Utility.{nethuns_blocks_free}

abbrev pub buf_of : NethunsRingSlot → ℕ
buf_of slot = slot.pkthdr.buf_idx

-- The slots at the tail whose packets have been released, and the rest.
unfoldable pub leading_free : List NethunsRingSlot → List NethunsRingSlot
unfolding is_free
leading_free [] = []
leading_free (slot ∷ slots) =
    let rest = leading_free slots in if is_free slot.status then slot ∷ rest else []

unfoldable pub after_free : List NethunsRingSlot → List NethunsRingSlot
unfolding is_free
after_free [] = []
after_free (slot ∷ slots) =
    let rest = after_free slots in if is_free slot.status then rest else slot ∷ slots

pub leading_free-append :
    (slots : List NethunsRingSlot) → leading_free slots ++ after_free slots ≡ slots
unfolding leading_free after_free
leading_free-append [] = refl
leading_free-append (slot ∷ slots) = ground (arith, leading_free-append slots)

-- The ring and the free ring after the slots at the tail have been given back.
pub record Reclaimed (bits free_bits : ℕ) (r : NethunsRing) (buffers : List ℕ)
    (slots : List NethunsRingSlot) (r' : NethunsRing) (f' : CircularQueue ℕ) : Type 0 where
  pub still : Outstanding bits r' (after_free slots)
  pub freed : Holds free_bits f' (buffers ++ map buf_of (leading_free slots))
  pub same_head : r'.rings.head ≡ r.rings.head
  pub same_buffer : r'.rings.buffer ≡ r.rings.buffer
  pub same_mask : r'.rings.mask ≡ r.rings.mask

module _ {bits : ℕ} where
  Outstanding-nil : {r : NethunsRing} → Outstanding bits r [] → is_empty r ≡ true
  unfolding is_empty
  Outstanding-nil o = ground (arith, o.counted, o.shape.head_lt, o.shape.tail_lt)

  Outstanding-cons :
      {r : NethunsRing} {slot : NethunsRingSlot} {slots : List NethunsRingSlot}
      → Outstanding bits r (slot ∷ slots)
      → (is_empty r ≡ false)
        × (get_slot r (tail r) ≡ some slot)
        × Outstanding bits (advance_tail r) slots
  unfolding is_empty get_slot advance_tail
  Outstanding-cons o = (
    ground (arith, o.counted),
    o.cells.0,
    record {
      shape = advance_tail-IsShaped o.shape;
      counted = omega (arith, o.counted, o.shape.head_lt, o.shape.tail_lt);
      cells = o.cells.1;
    },
  )

loop_lem :
    {bits free_bits : ℕ} (slots : List NethunsRingSlot) (r : NethunsRing) (f : CircularQueue ℕ)
    (buffers : List ℕ)
    → Outstanding bits r slots
    → Holds free_bits f buffers
    → length buffers + length slots ≤ 2 ^ free_bits
    → (r' : NethunsRing) × (f' : CircularQueue ℕ) × (free_slots_loop nethuns_blocks_free
          (suc (length slots))
          r
          f
        ≡ some (r', f'))
      × Reclaimed bits free_bits r buffers slots r' f'
unfolding free_slots_loop after_free leading_free nethuns_blocks_free advance_tail
loop_lem [] r f buffers o h room = (
  r,
  f,
  rw (free_slots_loop, (get_slot-some r o.shape (tail r)).1, Outstanding-nil o),
  record {
    still = o;
    freed = rw append-nil h;
    same_head = refl;
    same_buffer = refl;
    same_mask = refl;
  },
)
loop_lem (slot ∷ slots) r f buffers o h room =
    let (taken, here, o') = Outstanding-cons o in
    elim (Bool-cases (is_free slot.status)) [
      | inr busy ↦ (
        r,
        f,
        rw (free_slots_loop, here, taken, busy),
        record {
          still = rw busy o;
          freed = rw (busy, append-nil) h;
          same_head = refl;
          same_buffer = refl;
          same_mask = refl;
        },
      )
      | inl released ↦
          let (e, h') = push_unchecked-Holds (buf_of slot) h (omega arith) in
          let (r', f', run, done) =
            loop_lem slots (advance_tail r) (pushed f (buf_of slot)) (buffers ++ buf_of slot ∷ [])
              o' h' (omega (arith, length-append buffers (buf_of slot ∷ []))) in
          (
            r',
            f',
            rw (free_slots_loop, here, taken, released, e) run,
            record {
              still = rw released done.still;
              freed =
                  rw
                    (
                      released,
                      ← append_assoc buffers (buf_of slot ∷ []) (map buf_of (leading_free slots)),
                    )
                    done.freed;
              same_head = done.same_head;
              same_buffer = done.same_buffer;
              same_mask = done.same_mask;
            },
          )
    ]

-- The loop ends without a fault. The released packets at the tail leave the ring, up to the first
-- slot that is still taken, and their buffers are added to the free ring in order; nothing else of
-- the ring changes. The free ring has to have a cell for each slot that the ring holds.
pub nethuns_ring_free_slots_lem :
    {bits free_bits : ℕ} {r : NethunsRing} {f : CircularQueue ℕ} {slots : List NethunsRingSlot}
    {buffers : List ℕ}
    → Outstanding bits r slots
    → Holds free_bits f buffers
    → length buffers + length slots ≤ 2 ^ free_bits
    → (r' : NethunsRing) × (f' : CircularQueue ℕ) × (nethuns_ring_free_slots nethuns_blocks_free r f
        ≡ some (r', f'))
      × Reclaimed bits free_bits r buffers slots r' f'
unfolding nethuns_ring_free_slots
nethuns_ring_free_slots_lem {r} {f} {slots} {buffers} o h room =
    rw (← o.counted) (loop_lem slots r f buffers o h room)
