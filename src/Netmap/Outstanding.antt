-- ===== src/Netmap/Outstanding.antt =====
-- A reception ring of src/sockets/ring.rs and the packets between its tail and its head: what a
-- write to the head slot and an advance of the head do to them.
use rust_nethuns.Common.{
  ℕ, ◌+◌, ◌%◌, ◌^◌, ◌<◌, ◌≡◌, ◌∙◌, sym, ap, subst, List, [], ◌∷◌, ◌++◌, length, length-append, set,
  bit_and, arith,
}
use rust_nethuns.Common.Words.{usize_mod, mod-usize-mod}
use rust_nethuns.CircularQueue.Valid.{IsShaped, advance_head-IsShaped, pow-lt-usize}
use rust_nethuns.CircularQueue.Refine.{Window, Window-set, Window-prefix}
use rust_nethuns.Ring.{NethunsRing, NethunsRingSlot, head, advance_head, outstanding}
use rust_nethuns.Ring.SendSlot.{stored, stored-IsShaped}

-- The slots from the tail to the head of a reception ring, oldest first.
pub record Outstanding (bits : ℕ) (r : NethunsRing) (slots : List NethunsRingSlot) : Type 0 where
  pub shape : IsShaped bits r.rings
  pub counted : length slots ≡ outstanding r
  pub cells : Window r.rings.buffer r.rings.mask r.rings.tail slots

module _ {bits : ℕ} (r : NethunsRing) (slots : List NethunsRingSlot) (slot : NethunsRingSlot)
    (o : Outstanding bits r slots) (room : length slots < 2 ^ bits) where
  -- The cells after a write to the head slot, which now extends them.
  extended :
      Window
        (set r.rings.buffer (bit_and (head r) r.rings.mask) slot)
        r.rings.mask
        r.rings.tail
        (slots ++ slot ∷ [])
  extended =
      subst
        (λ m.
          Window (set r.rings.buffer (bit_and (head r) m) slot) m r.rings.tail (slots ++ slot ∷ []))
        (sym o.shape.mask_eq)
        (Window-set bits r.rings.buffer slot (head r) r.rings.tail slots o.shape.few_bits
          o.shape.length_eq room position
          (subst (λ m. Window r.rings.buffer m r.rings.tail slots) o.shape.mask_eq o.cells))
    where
      from_tail : head r ≡ (r.rings.tail + outstanding r) % usize_mod
      from_tail = omega (arith, o.shape.head_lt, o.shape.tail_lt)

      position : head r % 2 ^ bits ≡ (r.rings.tail + length slots) % 2 ^ bits
      position =
          ap (λ (t : ℕ). t % 2 ^ bits) from_tail
          ∙ mod-usize-mod bits (r.rings.tail + outstanding r) (omega (arith, o.shape.few_bits))
          ∙ ap (λ (n : ℕ). (r.rings.tail + n) % 2 ^ bits) (sym o.counted)

  -- The head slot is not one of those between the tail and the head.
  pub Outstanding-stored : Outstanding bits (stored r (head r) slot) slots
  Outstanding-stored = record {
    shape = stored-IsShaped r o.shape (head r) slot;
    counted = o.counted;
    cells = Window-prefix _ _ _ slots (slot ∷ []) extended;
  }

  -- When the head advances, the slot that was written is the newest of them.
  pub Outstanding-taken :
      Outstanding bits (advance_head (stored r (head r) slot)) (slots ++ slot ∷ [])
  unfolding advance_head
  Outstanding-taken = record {
    shape = advance_head-IsShaped (stored-IsShaped r o.shape (head r) slot);
    counted = omega (
      arith,
      length-append slots (slot ∷ []),
      o.counted,
      o.shape.head_lt,
      o.shape.tail_lt,
      pow-lt-usize o.shape.few_bits,
    );
    cells = extended;
  }
