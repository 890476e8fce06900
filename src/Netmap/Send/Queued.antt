-- ===== src/Netmap/Send/Queued.antt =====
-- The packets that wait in the transmission ring of src/sockets/api/netmap/nethuns_socket.rs:
-- `send` adds one at the end, and never writes over one that waits.
use rust_nethuns.Common.{
  ℕ, ◌+◌, ◌%◌, ◌^◌, ◌≤◌, ◌<◌, ◌≡◌, ◌∙◌, ◌⊎◌, inl, inr, refl, sym, ap, true, false, some, List, [],
  ◌∷◌, ◌++◌, length, take, ltb, Bool-cases, ok, err, eq→==, bit_and, arith,
}
use native.Mathlib.Nat.{add-mod_right, one-le-pow}
use native.Mathlib.Decide.{dec_lt}
use rust_nethuns.Common.Words.{usize_mod, mod-usize-mod}
use rust_nethuns.CircularQueue.Valid.{index_eq}
use rust_nethuns.CircularQueue.Refine.{Holds, pushed, push_unchecked-Holds}
use rust_nethuns.Ring
use rust_nethuns.Ring.{NethunsRing, NethunsRingSlot, is_free, in_use}
use rust_nethuns.Ring.SendSlot.{get_slot-some, set_slot-some}
use rust_nethuns.Errors.{NethunsSendError}
use rust_nethuns.Netmap.{NethunsSocketNetmap, netmap_buf, set_buf}
use rust_nethuns.Netmap.Send.{with_tx, nethuns_get_buf_addr, put_packet, send_on, send}

-- None of the slots is free.
abbrev pub AreTaken : List NethunsRingSlot → Type 0
AreTaken [] = Unit
AreTaken (slot ∷ slots) = (is_free slot.status ≡ false) × AreTaken slots

-- The slots from the head to the tail of the transmission ring, oldest first, are those of the list
-- and none of them is free; the buffers of the port have the size that the socket keeps.
pub record TxInv (bits : ℕ) (s : NethunsSocketNetmap) (tx : NethunsRing)
    (slots : List NethunsRingSlot) : Type 0 where
  pub tx_eq : s.base.tx_ring ≡ some tx
  pub queued : Holds bits tx.rings slots
  pub taken : AreTaken slots
  pub sized : (i : ℕ) → length (netmap_buf s.p.nifp i) ≡ s.nr_buf_size

-- What the netmap headers promise of `nm_pkt_copy` for a packet that fits: the packet stands at the
-- start of the buffer, whose size does not change.
pub record CopyLaws (copy : List ℕ → List ℕ → List ℕ) : Type 0 where
  pub copied :
      (dst packet : List ℕ)
      → length packet ≤ length dst
      → take (length packet) (copy dst packet) ≡ packet
  pub same_size :
      (dst packet : List ℕ) → length packet ≤ length dst → length (copy dst packet) ≡ length dst

append-AreTaken :
    (slots : List NethunsRingSlot) (slot : NethunsRingSlot)
    → AreTaken slots
    → is_free slot.status ≡ false
    → AreTaken (slots ++ slot ∷ [])
append-AreTaken [] slot a t = (t, tt)
append-AreTaken (x ∷ xs) slot a t = (a.0, append-AreTaken xs slot a.1 t)

-- If every slot waits, the tail is at the oldest of them.
full-tail :
    {bits : ℕ} (tx : NethunsRing) (x : NethunsRingSlot) (xs : List NethunsRingSlot)
    → Holds bits tx.rings (x ∷ xs)
    → length (x ∷ xs) ≡ 2 ^ bits
    → Ring.get_slot tx (Ring.tail tx) ≡ some x
unfolding Ring.get_slot
full-tail {bits} tx x xs h full = rw same_cell h.items.0
  where
    around : Ring.tail tx % 2 ^ bits ≡ Ring.head tx % 2 ^ bits
    around =
        ap (λ (t : ℕ). t % 2 ^ bits) {x = Ring.tail tx} {y = (Ring.head tx + 2 ^ bits) % usize_mod}
          (omega (arith, h.counted, full, h.valid.tail_lt, h.valid.head_lt))
        ∙ mod-usize-mod bits (Ring.head tx + 2 ^ bits) (omega (arith, h.valid.few_bits))
        ∙ add-mod_right (Ring.head tx) (2 ^ bits)

    same_cell : bit_and (Ring.tail tx) tx.rings.mask ≡ bit_and (Ring.head tx) tx.rings.mask
    same_cell =
        index_eq h.valid.shape (Ring.tail tx) ∙ around ∙ sym (index_eq h.valid.shape (Ring.head tx))

-- So a free slot at the tail is none of those that wait.
room-at_tail :
    {bits : ℕ} (tx : NethunsRing) (slots : List NethunsRingSlot) (slot : NethunsRingSlot)
    → Holds bits tx.rings slots
    → AreTaken slots
    → Ring.get_slot tx (Ring.tail tx) ≡ some slot
    → is_free slot.status ≡ true
    → length slots < 2 ^ bits
room-at_tail {bits} tx [] slot h t here ready = omega (arith, one-le-pow bits 2)
room-at_tail {bits} tx (x ∷ xs) slot h t here ready = elim (dec_lt (length (x ∷ xs)) (2 ^ bits)) [
  | yes room ↦ room
  | no full ↦
      let oldest = full-tail tx x xs h (omega (arith, h.counted, h.valid.count_le)) in
      let same : slot ≡ x = ground (arith, here, oldest) in
      absurd (ground (arith, ap (λ (slot : NethunsRingSlot). is_free slot.status) same, ready, t.0))
]

-- What `send` makes of the slot at the tail, and of its buffer.
abbrev pub sent_slot : NethunsRingSlot → List ℕ → NethunsRingSlot
sent_slot slot packet = record slot { len = length packet; status = in_use }

module _ (copy : List ℕ → List ℕ → List ℕ) where
  abbrev pub with_packet : NethunsSocketNetmap → ℕ → List ℕ → NethunsSocketNetmap
  with_packet s dst packet = record s {
    p = record (s.p) { nifp = set_buf s.p.nifp dst (copy (netmap_buf s.p.nifp dst) packet) };
  }

  module _ (laws : CopyLaws copy) {bits : ℕ} {s : NethunsSocketNetmap} {tx : NethunsRing}
      {slots : List NethunsRingSlot} (v : TxInv bits s tx slots) (packet : List ℕ) where
    -- On a socket that transmits, whose waiting slots are those from the head to the tail of its ring and
    -- whose buffers have the size that it keeps (`TxInv`), and if the copy obeys `CopyLaws`, `send`
    -- returns, and does one of three things. Exactly if the slot at the tail is not free, it fails with
    -- `InUse` and nothing changes. If that slot is free and the packet is longer than a buffer, it fails
    -- with both lengths and nothing changes. If it is free and the packet fits, the packet waits as the
    -- last one, after all that waited before: its slot is marked with its length, and its bytes are at
    -- the start of the slot's buffer.
    pub send_lem :
        (at_tail : NethunsRingSlot) × (Ring.get_slot tx (Ring.tail tx) ≡ some at_tail)
        × (((is_free at_tail.status ≡ false)
              × (send copy s packet ≡ some (err NethunsSendError.in_use, s)))
            ⊎ ((is_free at_tail.status ≡ true)
                × (s.nr_buf_size < length packet)
                × (send copy s packet
                    ≡ some (
                      err (NethunsSendError.invalid_packet_size s.nr_buf_size (length packet)),
                      s,
                    )))
            ⊎ ((is_free at_tail.status ≡ true)
                × (length packet ≤ s.nr_buf_size)
                × ((s' : NethunsSocketNetmap) × (tx' : NethunsRing) × (slot : NethunsRingSlot)
                    × (send copy s packet ≡ some (ok tt, s'))
                    × TxInv bits s' tx' (slots ++ slot ∷ [])
                    × (slot.status ≡ in_use)
                    × (slot.len ≡ length packet)
                    × (take (length packet) (netmap_buf s'.p.nifp slot.pkthdr.buf_idx) ≡ packet))))
    unfolding send put_packet nethuns_get_buf_addr Ring.advance_tail is_free
    send_lem =
        let (slot, here) = get_slot-some tx v.queued.valid.shape (Ring.tail tx) in
        (
          slot,
          here,
          elim (Bool-cases (is_free slot.status)) [
            | inr busy ↦ inl (busy, on_ring ∙ rw (here, busy))
            | inl ready ↦ elim (Bool-cases (ltb s.nr_buf_size (length packet))) [
              | inl long ↦ inr (inl (ready, ground (arith, long), on_ring ∙ rw (here, ready, long)))
              | inr fits ↦
                  let done = sent_slot slot packet in
                  let dst = slot.pkthdr.buf_idx in
                  let (_, queued') =
                    push_unchecked-Holds done v.queued
                      (room-at_tail tx slots slot v.queued v.taken here ready) in
                  let small : length packet ≤ length (netmap_buf s.p.nifp dst) =
                    ground (arith, fits, v.sized dst) in
                  inr (
                    inr (
                      ready,
                      ground (arith, fits),
                      (
                        with_tx (with_packet s dst packet)
                            (record tx { rings = pushed tx.rings done }),
                        record tx { rings = pushed tx.rings done },
                        done,
                        on_ring
                            ∙ rw (
                              here,
                              ready,
                              fits,
                              set_slot-some tx v.queued.valid.shape (Ring.tail tx) done,
                            ),
                        record {
                          tx_eq = refl;
                          queued = queued';
                          taken = append-AreTaken slots done v.taken refl;
                          sized = λ i. ground (
                            arith,
                            laws.same_size (netmap_buf s.p.nifp dst) packet small,
                            v.sized dst,
                            v.sized i,
                          );
                        },
                        refl,
                        refl,
                        rw (eq→== dst dst refl)
                            (laws.copied (netmap_buf s.p.nifp dst) packet small),
                      ),
                    ))
            ]
          ],
        )
      where
        on_ring : send copy s packet ≡ send_on copy s packet (some tx)
        on_ring = ap (send_on copy s packet) v.tx_eq
