-- ===== src/Ring/SendSlot.antt =====
-- `nethuns_send_slot` of src/sockets/ring.rs: marking a slot for transmission.
use rust_nethuns.Common.{
  ℕ, ◌%◌, ◌^◌, ◌≡◌, ◌≢◌, refl, Bool, true, false, some, bit_and, set, get_elem?-set_self,
  get_elem?-set_ne, inl, inr, Bool-cases,
}
use rust_nethuns.CircularQueue.Valid.{
  IsShaped, set_at-some, set_at-IsShaped, get-some, index-lt, index_eq,
}
use rust_nethuns.Ring.{
  NethunsRing, NethunsRingSlot, free, in_use, is_free, get_slot, set_slot, nethuns_send_slot,
}

-- The ring with a slot stored at a position.
abbrev pub stored : NethunsRing → ℕ → NethunsRingSlot → NethunsRing
stored r i slot = record r {
  rings = record (r.rings) { buffer = set r.rings.buffer (bit_and i r.rings.mask) slot };
}

module _ {bits : ℕ} (r : NethunsRing) (v : IsShaped bits r.rings) where
  pub get_slot-some : (i : ℕ) → (slot : NethunsRingSlot) × (get_slot r i ≡ some slot)
  unfolding get_slot
  get_slot-some i = get-some v i

  pub set_slot-some : (i : ℕ) (slot : NethunsRingSlot) → set_slot r i slot ≡ some (stored r i slot)
  unfolding set_slot
  set_slot-some i slot = rw (set_at-some v i slot)

  pub stored-IsShaped : (i : ℕ) (slot : NethunsRingSlot) → IsShaped bits (stored r i slot).rings
  stored-IsShaped i slot = set_at-IsShaped v i slot

  pub get_slot-stored_self :
      (i : ℕ) (slot : NethunsRingSlot) → get_slot (stored r i slot) i ≡ some slot
  unfolding get_slot
  get_slot-stored_self i slot = get_elem?-set_self r.rings.buffer _ slot (index-lt v i)

  pub get_slot-stored_ne :
      (i j : ℕ) (slot : NethunsRingSlot)
      → i % 2 ^ bits ≢ j % 2 ^ bits
      → get_slot (stored r i slot) j ≡ get_slot r j
  unfolding get_slot
  get_slot-stored_ne i j slot ne =
      get_elem?-set_ne r.rings.buffer _ _ slot (rw (index_eq v i, index_eq v j) ne)

  -- A free slot is marked for sending with its length, and nothing else of the ring is touched.
  pub nethuns_send_slot-free :
      (id len : ℕ) (slot : NethunsRingSlot)
      → get_slot r id ≡ some slot
      → slot.status ≡ free
      → nethuns_send_slot r id len
        ≡ some (true, stored r id (record slot { len = len; status = in_use }))
  unfolding nethuns_send_slot
  nethuns_send_slot-free id len slot e st = rw (e, st, set_slot-some)

  -- A slot that is in use or in flight is left alone.
  pub nethuns_send_slot-taken :
      (id len : ℕ) (slot : NethunsRingSlot)
      → get_slot r id ≡ some slot
      → is_free slot.status ≡ false
      → nethuns_send_slot r id len ≡ some (false, r)
  unfolding nethuns_send_slot
  nethuns_send_slot-taken id len slot e st = rw (e, st)

  -- At a slot that `is_free` accepts, a slot is marked for sending.
  send_slot-ready :
      (id len : ℕ) (slot : NethunsRingSlot)
      → get_slot r id ≡ some slot
      → is_free slot.status ≡ true
      → nethuns_send_slot r id len
        ≡ some (true, stored r id (record slot { len = len; status = in_use }))
  unfolding nethuns_send_slot
  send_slot-ready id len slot e st = rw (e, st, set_slot-some)

-- Marking a slot for sending never faults, and it succeeds at most once: the same call again is
-- refused, whatever length it gives. The other slots are as before, and the ring keeps its shape.
pub nethuns_send_slot_lem :
    {bits : ℕ} (r : NethunsRing) (v : IsShaped bits r.rings) (id len again j : ℕ)
    → id % 2 ^ bits ≢ j % 2 ^ bits
    → (done : Bool) × (r' : NethunsRing) × (nethuns_send_slot r id len ≡ some (done, r'))
      × (nethuns_send_slot r' id again ≡ some (false, r'))
      × (get_slot r' j ≡ get_slot r j)
      × IsShaped bits r'.rings
unfolding is_free
nethuns_send_slot_lem r v id len again j ne =
    let (slot, e) = get_slot-some r v id in
    let marked : NethunsRingSlot = record slot { len = len; status = in_use } in
    elim (Bool-cases (is_free slot.status)) [
      | inl ready ↦ (
        true,
        stored r id marked,
        send_slot-ready r v id len slot e ready,
        nethuns_send_slot-taken (stored r id marked) (stored-IsShaped r v id marked) id again marked
            (get_slot-stored_self r v id marked) refl,
        get_slot-stored_ne r v id j marked ne,
        stored-IsShaped r v id marked,
      )
      | inr busy ↦ (
        false,
        r,
        nethuns_send_slot-taken r v id len slot e busy,
        nethuns_send_slot-taken r v id again slot e busy,
        refl,
        v,
      )
    ]
