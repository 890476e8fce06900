-- ===== src/Netmap/Recv/Release.antt =====
-- `RecvPacket::drop` of src/sockets/base.rs: the slot of a released packet becomes free.
use rust_nethuns.Common.{
  ℕ, ◌<◌, ◌≡◌, ◌∙◌, refl, sym, ap, ap₂, some, List, [], ◌∷◌, map, length, get_elem?, set,
  get_elem?-set_self, get_elem?-set_ne, arith, bit_and, length-map,
}
use native.Mathlib.Decide.{ℕ_discrete}
use rust_nethuns.Common.Words.{wrapping_inc}
use rust_nethuns.CircularQueue.Valid.{index-lt}
use rust_nethuns.CircularQueue.Refine.{Window}
use rust_nethuns.Ring
use rust_nethuns.Ring.{NethunsRing, NethunsRingSlot, RingSlotStatus, free}
use rust_nethuns.Ring.SendSlot.{
  stored, stored-IsShaped, set_slot-some, get_slot-some, get_slot-stored_self,
}
use rust_nethuns.Ring.FreeSlots.{status_at}
use rust_nethuns.Netmap.{NethunsSocketNetmap, RecvPacket}
use rust_nethuns.Netmap.Reclaim.{buf_of}
use rust_nethuns.Netmap.Recv.{with_rx, drop_on, drop_packet}
use rust_nethuns.Netmap.Recv.Inv.{RxInv}

-- A write that keeps the buffer of a cell keeps the buffers of every window.
Window-rewrite :
    (cells : List NethunsRingSlot) (mask h i : ℕ) (old new : NethunsRingSlot)
    (slots : List NethunsRingSlot)
    → get_elem? cells i ≡ some old
    → i < length cells
    → buf_of new ≡ buf_of old
    → Window cells mask h slots
    → (slots' : List NethunsRingSlot) × Window (set cells i new) mask h slots'
      × (map buf_of slots' ≡ map buf_of slots)
Window-rewrite cells mask h i old new [] e l b w = ([], tt, refl)
Window-rewrite cells mask h i old new (slot ∷ slots) e l b w =
    let (slots', w', same) = Window-rewrite cells mask (wrapping_inc h) i old new slots e l b w.1 in
    elim (ℕ_discrete i (bit_and h mask)) [
      | yes hit ↦ (
        new ∷ slots',
        (rw (← hit) (get_elem?-set_self cells i new l), w'),
        ap₂ ◌∷◌ (b ∙ ap buf_of (same_cell hit)) same,
      )
      | no miss ↦ (
        slot ∷ slots',
        (get_elem?-set_ne cells i (bit_and h mask) new miss ∙ w.0, w'),
        ap (◌∷◌ (buf_of slot)) same,
      )
    ]
  where
    same_cell : i ≡ bit_and h mask → old ≡ slot
    same_cell hit = ground (arith, e, ap (get_elem? cells) hit, w.0)

-- From a state of the invariant, releasing a packet does not fault, makes its slot free, leaves
-- every buffer with the packet that it was with, and keeps the invariant.
pub drop_packet_lem :
    {bits free_bits : ℕ} {s : NethunsSocketNetmap} {rx : NethunsRing} {slots : List NethunsRingSlot}
    {buffers : List ℕ} (pkt : RecvPacket)
    → RxInv bits free_bits s rx slots buffers
    → (s' : NethunsSocketNetmap) × (rx' : NethunsRing) × (slots' : List NethunsRingSlot)
      × (drop_packet s pkt ≡ some s')
      × RxInv bits free_bits s' rx' slots' buffers
      × (map buf_of slots' ≡ map buf_of slots)
      × (s'.p ≡ s.p)
      × (status_at rx' pkt.slot ≡ some free)
unfolding drop_packet Ring.get_slot
drop_packet_lem {s} {rx} {slots} {buffers} pkt v =
    let (slot, here) = get_slot-some rx v.ring.shape pkt.slot in
    let freed : NethunsRingSlot = record slot { status = free } in
    let (slots', cells, same) =
      Window-rewrite rx.rings.buffer rx.rings.mask rx.rings.tail (bit_and pkt.slot rx.rings.mask)
        slot freed slots here (index-lt v.ring.shape pkt.slot) refl v.ring.cells in
    let same_length : length slots' ≡ length slots =
      sym (length-map buf_of slots') ∙ ap length same ∙ length-map buf_of slots in
    (
      with_rx s (stored rx pkt.slot freed),
      stored rx pkt.slot freed,
      slots',
      ap (drop_on s pkt) v.rx_eq ∙ rw (here, set_slot-some rx v.ring.shape pkt.slot freed),
      record {
        rx_eq = refl;
        ring = record {
          shape = stored-IsShaped rx v.ring.shape pkt.slot freed;
          counted = same_length ∙ v.ring.counted;
          cells = cells;
        };
        pool = v.pool;
        room = omega (arith, v.room, same_length);
        fits = v.fits;
        port = v.port;
      },
      same,
      refl,
      rw (status_at, get_slot-stored_self rx v.ring.shape pkt.slot freed),
    )
