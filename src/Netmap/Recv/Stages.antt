-- ===== src/Netmap/Recv/Stages.antt =====
-- The parts of `recv` of src/sockets/api/netmap/nethuns_socket.rs: reclaiming, delivering and
-- discarding keep the invariant and account for every buffer.
use rust_nethuns.Common.{
  ℕ, suc, ◌+◌, ◌^◌, ◌≤◌, ◌≡◌, ◌∙◌, refl, sym, ap, some, List, [], ◌∷◌, ◌++◌, map, length,
  length-append, length-map, ok, err, arith,
}
use rust_nethuns.Common.Counts.{SameItems, count, count-append, count-cons}
use mathlib.Core.List.{map-append}
use rust_nethuns.Ring.{NethunsRing, NethunsRingSlot, head, advance_head, get_slot}
use rust_nethuns.Ring.SendSlot.{stored, set_slot-some, get_slot-stored_self}
use rust_nethuns.Netmap.{NethunsSocketNetmap}
use rust_nethuns.Netmap.Api.{ring_bufs}
use rust_nethuns.Netmap.Outstanding.{Outstanding-taken}
use rust_nethuns.Netmap.Reclaim.{
  buf_of, leading_free, after_free, leading_free-append, nethuns_ring_free_slots_lem,
}
use rust_nethuns.Netmap.Recv.{Received, with_rx, taken_slot, reclaim, deliver, discard}
use rust_nethuns.Errors.{NethunsRecvError}
use rust_nethuns.Netmap.Recv.Inv.{RxInv, RecvPost, owned}

module _ {bits free_bits : ℕ} {s : NethunsSocketNetmap} {rx : NethunsRing}
    {slots : List NethunsRingSlot} {buffers : List ℕ}
    (v : RxInv bits free_bits s rx slots buffers) where
  freed_slots : map buf_of (leading_free slots) ++ map buf_of (after_free slots) ≡ map buf_of slots
  freed_slots =
      sym (map-append buf_of (leading_free slots) (after_free slots))
      ∙ ap (map buf_of) (leading_free-append slots)

  freed_length : length (leading_free slots) + length (after_free slots) ≡ length slots
  freed_length =
      sym (length-append (leading_free slots) (after_free slots))
      ∙ ap length (leading_free-append slots)

  -- Reclaiming moves the buffers of released packets to the free ring, and keeps the invariant.
  pub reclaim_lem :
      (s' : NethunsSocketNetmap) × (rx' : NethunsRing) × (reclaim s rx ≡ some (s', rx'))
      × RxInv bits free_bits s' rx' (after_free slots) (buffers ++ map buf_of (leading_free slots))
      × SameItems
          (owned s' (after_free slots) (buffers ++ map buf_of (leading_free slots)))
          (owned s slots buffers)
      × (length (buffers ++ map buf_of (leading_free slots)) + length (after_free slots)
          ≡ length buffers + length slots)
  unfolding reclaim
  reclaim_lem =
      let (rx', f', run, done) =
        nethuns_ring_free_slots_lem v.ring v.pool (omega (arith, v.room, v.fits)) in
      (
        record (with_rx s rx') { free_ring = f' },
        rx',
        rw run,
        record {
          rx_eq = refl;
          ring = done.still;
          pool = done.freed;
          room = omega (
            arith,
            v.room,
            freed_length,
            length-append buffers (map buf_of (leading_free slots)),
            length-map buf_of (leading_free slots),
          );
          fits = v.fits;
          port = v.port;
        },
        λ b. omega (
          arith,
          count-append b (buffers ++ freed) (kept ++ kernel),
          count-append b buffers freed,
          count-append b kept kernel,
          count-append b buffers (map buf_of slots ++ kernel),
          count-append b (map buf_of slots) kernel,
          count-append b freed kept,
          ap (count b) freed_slots,
        ),
        omega (
          arith,
          freed_length,
          length-append buffers (map buf_of (leading_free slots)),
          length-map buf_of (leading_free slots),
        ),
      )
    where
      freed : List ℕ
      freed = map buf_of (leading_free slots)

      kept : List ℕ
      kept = map buf_of (after_free slots)

      kernel : List ℕ
      kernel = ring_bufs s.p.nifp.rx_rings

-- What `deliver` returns.
abbrev pub delivered : NethunsSocketNetmap → NethunsRing → NethunsRingSlot → Received
delivered s rx slot =
    let rx' = advance_head (stored rx (head rx) (taken_slot s slot)) in
    (ok (record { id = head rx'; slot = head rx; buffer = buf_of slot }), with_rx s rx')

module _ {bits free_bits : ℕ} {s : NethunsSocketNetmap} {rx : NethunsRing}
    {slots : List NethunsRingSlot} {buffers : List ℕ} (v : RxInv bits free_bits s rx slots buffers)
    (spare : length buffers + suc (length slots) ≤ 2 ^ bits) (slot : NethunsRingSlot)
    (before : List ℕ) (ledger : SameItems (buf_of slot ∷ owned s slots buffers) before) where
  -- Delivering adds the head slot, with its buffer, to the packets that are out.
  pub deliver_lem :
      (deliver s rx slot ≡ some (delivered s rx slot))
      × RecvPost bits free_bits before (suc (length buffers + length slots)) (delivered s rx slot)
  unfolding deliver advance_head get_slot
  deliver_lem = (
    rw (set_slot-some rx v.ring.shape (head rx) (taken_slot s slot)),
    record {
      rx' = advance_head (stored rx (head rx) (taken_slot s slot));
      slots' = slots ++ taken_slot s slot ∷ [];
      buffers' = buffers;
      lost = [];
      inv = record {
        rx_eq = refl;
        ring = Outstanding-taken rx slots (taken_slot s slot) v.ring (omega arith);
        pool = v.pool;
        room = omega (arith, length-append slots (taken_slot s slot ∷ []));
        fits = v.fits;
        port = v.port;
      };
      handed = (
        taken_slot s slot,
        get_slot-stored_self rx v.ring.shape (head rx) (taken_slot s slot),
        refl,
        refl,
        omega arith,
        refl,
      );
      lost_length = refl;
      ledger = λ b. omega (
        arith,
        ledger b,
        count-cons b (buf_of slot) (owned s slots buffers),
        count-append b buffers (map buf_of slots ++ kernel),
        count-append b (map buf_of slots) kernel,
        count-append b buffers (map buf_of (slots ++ taken_slot s slot ∷ []) ++ kernel),
        count-append b (map buf_of (slots ++ taken_slot s slot ∷ [])) kernel,
        ap (count b) (map-append buf_of slots (taken_slot s slot ∷ [])),
        count-append b (map buf_of slots) (buf_of slot ∷ []),
      );
      in_hand = omega (arith, length-append slots (taken_slot s slot ∷ []));
    },
  )
    where
      kernel : List ℕ
      kernel = ring_bufs s.p.nifp.rx_rings

  -- Discarding forgets the buffer of the head slot.
  pub discard_lem :
      (out : Received) × (discard s rx ≡ some out)
      × (out.0 ≡ err NethunsRecvError.packet_filtered)
      × RecvPost bits free_bits before (suc (length buffers + length slots)) out
  unfolding discard
  discard_lem =
      let (s', rx', run, inv', same, total) = reclaim_lem v in
      (
        (err NethunsRecvError.packet_filtered, s'),
        rw run,
        refl,
        record {
          rx' = rx';
          slots' = after_free slots;
          buffers' = buffers ++ map buf_of (leading_free slots);
          lost = buf_of slot ∷ [];
          inv = inv';
          handed = tt;
          lost_length = refl;
          ledger = λ b. omega (
            arith,
            ledger b,
            same b,
            count-cons b (buf_of slot) (owned s slots buffers),
            count-cons b (buf_of slot)
                (owned s' (after_free slots) (buffers ++ map buf_of (leading_free slots))),
          );
          in_hand = omega (arith, total);
        },
      )
