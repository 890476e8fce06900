-- ===== src/Pcap/Slots.antt =====
-- The ring of a pcap socket whose packets have all been released: every slot can take a packet.
use rust_nethuns.Common.{
  subst, ℕ, zero, suc, ◌%◌, ◌^◌, ◌≤◌, ◌≡◌, ◌≢◌, refl, sym, ap, ◌∙◌, ◌==◌, ==_iff, Bool-cases, inl,
  inr, some, length, length-replicate, get_elem?, replicate, arith,
}
use rust_nethuns.CircularQueue.Valid.{IsShaped, advance_head-IsShaped, index_eq, fresh}
use rust_nethuns.Ring.{
  NethunsRing, NethunsRingSlot, free, get_slot, set_slot, advance_head, default_with_packet_size,
}
use rust_nethuns.Ring.SendSlot.{
  stored, set_slot-some, stored-IsShaped, get_slot-stored_self, get_slot-stored_ne,
}

-- Every slot is free, and its buffer has room for `size` bytes.
pub record IsRoomy (bits size : ℕ) (r : NethunsRing) : Type 0 where
  pub shaped : IsShaped bits r.rings
  pub roomy :
      (pos : ℕ) (slot : NethunsRingSlot)
      → get_slot r pos ≡ some slot
      → (slot.status ≡ free) × (size ≤ length slot.packet)

-- The ring after a packet has been put at the head and the head has been advanced.
abbrev pub received : NethunsRing → NethunsRingSlot → NethunsRing
received r slot = advance_head (stored r r.rings.head slot)

-- Two positions of one cell.
same_get :
    {bits : ℕ} (r : NethunsRing) (v : IsShaped bits r.rings) (i j : ℕ)
    → i % 2 ^ bits ≡ j % 2 ^ bits
    → get_slot r i ≡ get_slot r j
unfolding get_slot
same_get r v i j e = ap (get_elem? r.rings.buffer) (index_eq v i ∙ e ∙ sym (index_eq v j))

some_inj : {a b : NethunsRingSlot} → some a ≡ some b → a ≡ b
some_inj e = cc

get_elem?-replicate :
    (n i : ℕ) {a b : NethunsRingSlot} → get_elem? (replicate n a) i ≡ some b → a ≡ b
get_elem?-replicate zero i e = absurd cc
get_elem?-replicate (suc n) zero e = cc
get_elem?-replicate (suc n) (suc i) e = get_elem?-replicate n i e

-- A ring as `open` makes it is roomy.
pub fresh-IsRoomy :
    {bits requested size : ℕ}
    → IsShaped bits (fresh requested (λ _. default_with_packet_size size) bits)
    → IsRoomy bits size (record {
      pktsize = size;
      rings = fresh requested (λ _. default_with_packet_size size) bits;
    })
unfolding get_slot default_with_packet_size
fresh-IsRoomy {bits} {requested} {size} v = record {
  shaped = v;
  roomy = λ pos slot e.
      subst (λ (s : NethunsRingSlot). (s.status ≡ free) × (size ≤ length s.packet))
        (get_elem?-replicate (2 ^ bits) _ e) (refl, omega (arith, length-replicate {A = ℕ} size 0));
}

module _ {bits size : ℕ} {r : NethunsRing} (v : IsRoomy bits size r) where
  pub received-IsShaped : (slot : NethunsRingSlot) → IsShaped bits (received r slot).rings
  unfolding advance_head
  received-IsShaped slot = advance_head-IsShaped (stored-IsShaped r v.shaped r.rings.head slot)

  pub get_slot-received :
      (slot : NethunsRingSlot) → get_slot (received r slot) r.rings.head ≡ some slot
  unfolding advance_head get_slot
  get_slot-received slot = get_slot-stored_self r v.shaped r.rings.head slot

  get_slot-received_ne :
      (slot : NethunsRingSlot) (j : ℕ)
      → r.rings.head % 2 ^ bits ≢ j % 2 ^ bits
      → get_slot (received r slot) j ≡ get_slot r j
  unfolding advance_head get_slot
  get_slot-received_ne slot j ne = get_slot-stored_ne r v.shaped r.rings.head j slot ne

  -- The slot of the packet is free again, with its bytes.
  abbrev pub released : NethunsRingSlot → NethunsRing
  released slot = stored (received r slot) r.rings.head (record slot { status = free })

  get_slot-released :
      (slot : NethunsRingSlot)
      → get_slot (released slot) r.rings.head ≡ some (record slot { status = free })
  get_slot-released slot =
      get_slot-stored_self (received r slot) (received-IsShaped slot) r.rings.head _

  get_slot-released_ne :
      (slot : NethunsRingSlot) (j : ℕ)
      → r.rings.head % 2 ^ bits ≢ j % 2 ^ bits
      → get_slot (released slot) j ≡ get_slot r j
  get_slot-released_ne slot j ne =
      get_slot-stored_ne (received r slot) (received-IsShaped slot) r.rings.head j _ ne
      ∙ get_slot-received_ne slot j ne

  released-IsShaped : (slot : NethunsRingSlot) → IsShaped bits (released slot).rings
  released-IsShaped slot = stored-IsShaped (received r slot) (received-IsShaped slot) r.rings.head _

  pub release-some :
      (slot : NethunsRingSlot)
      → set_slot (received r slot) r.rings.head (record slot { status = free })
        ≡ some (released slot)
  release-some slot = set_slot-some (received r slot) (received-IsShaped slot) r.rings.head _

  pub released-IsRoomy :
      (slot : NethunsRingSlot) → size ≤ length slot.packet → IsRoomy bits size (released slot)
  released-IsRoomy slot room = record {
    shaped = released-IsShaped slot;
    roomy = λ j other e. elim (Bool-cases (r.rings.head % 2 ^ bits == j % 2 ^ bits)) [
      | inl same ↦
          let at_j =
            sym (
              same_get (released slot) (released-IsShaped slot) r.rings.head j
                ((==_iff _ _).0 same))
            ∙ get_slot-released slot in
          subst (λ (s : NethunsRingSlot). (s.status ≡ free) × (size ≤ length s.packet))
            (some_inj (sym at_j ∙ e)) (refl, room)
      | inr other_slot ↦ v.roomy j other (sym (get_slot-released_ne slot j (λ p. ground arith)) ∙ e)
    ];
  }
