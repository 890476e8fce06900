-- ===== src/Netmap/Recv/TakePacket.antt =====
-- The middle of `recv` of src/sockets/api/netmap/nethuns_socket.rs: a packet's buffer is exchanged
-- for one of the free ring.
use rust_nethuns.Common.{
  ℕ, suc, ◌+◌, ◌<◌, ◌≡◌, refl, sym, subst, none, some, List, [], ◌∷◌, ◌++◌, map, length, get_elem?,
  get_elem?_in, length-set, err, arith, bit_or, inl, inr, Bool-cases, Option-cases, if◌then◌else◌,
  ◌>>=◌,
}
use rust_nethuns.Common.Counts.{
  SameItems, count-append, count-cons, count-map-set, count-gather-set,
}
use rust_nethuns.CircularQueue
use rust_nethuns.CircularQueue.Refine.{pop_unchecked-Holds, clone_pop_unchecked-Holds}
use rust_nethuns.Ring
use rust_nethuns.Ring.{NethunsRing, NethunsRingSlot, head}
use rust_nethuns.Ring.SendSlot.{stored, set_slot-some, get_slot-some}
use rust_nethuns.Errors.{NethunsRecvError}
use rust_nethuns.Netmap.{
  NetmapSlot, NetmapRing, NethunsSocketNetmap, netmap_rxring, set_rxring, set_netmap_slot, get_slot,
}
use rust_nethuns.Netmap.Api.{NetmapApi, slot_bufs, ring_bufs}
use rust_nethuns.Netmap.Outstanding.{Outstanding-stored}
use rust_nethuns.Netmap.Reclaim.{buf_of}
use rust_nethuns.Netmap.Recv.{
  Received, with_rx, header_of, filtered_out, deliver, discard, take_packet,
}
use rust_nethuns.Netmap.Recv.Inv.{RxInv, RecvPost, owned, cost}
use rust_nethuns.Netmap.Recv.Stages.{deliver_lem, discard_lem}

module _ (api : NetmapApi) (s : NethunsSocketNetmap) (rx : NethunsRing) (ri : ℕ) (ring : NetmapRing)
    (cur_slot : NetmapSlot) (slot : NethunsRingSlot) (new_buf : ℕ) where
  -- The netmap ring, the head slot and the socket after the exchange.
  abbrev ring_after : NetmapRing
  ring_after =
      record (set_netmap_slot ring ring.cur
        (record cur_slot { buf_idx = new_buf; flags = bit_or cur_slot.flags api.ns_buf_changed })) {
          cur = api.nm_ring_next ring ring.cur;
          head = api.nm_ring_next ring ring.cur;
        }

  abbrev slot_after : NethunsRingSlot
  slot_after = record slot { pkthdr = header_of ring cur_slot }

  abbrev socket_after : NethunsSocketNetmap
  socket_after = record (with_rx s (stored rx (head rx) slot_after)) {
    free_ring = CircularQueue.advance_head s.free_ring;
    p = record (s.p) { nifp = set_rxring s.p.nifp ri ring_after };
  }

  module _ {bits free_bits : ℕ} {slots : List NethunsRingSlot} {buffers : List ℕ}
      (v : RxInv bits free_bits s rx slots (new_buf ∷ buffers))
      (at_ring : get_elem? s.p.nifp.rx_rings ri ≡ some ring)
      (at_slot : get_elem? ring.slots ring.cur ≡ some cur_slot) where
    exchange-RxInv :
        RxInv bits free_bits socket_after (stored rx (head rx) slot_after) slots buffers
    exchange-RxInv = record {
      rx_eq = refl;
      ring = Outstanding-stored rx slots slot_after v.ring (omega (arith, v.room));
      pool = (pop_unchecked-Holds v.pool).1;
      room = omega (arith, v.room);
      fits = v.fits;
      port = record {
        first_le = v.port.first_le;
        le_last = v.port.le_last;
        in_bounds = omega (arith, v.port.in_bounds, length-set s.p.nifp.rx_rings ri ring_after);
      };
    }

    exchange-SameItems :
        SameItems
          (buf_of slot_after ∷ owned socket_after slots buffers)
          (owned s slots (new_buf ∷ buffers))
    exchange-SameItems b = omega (
      arith,
      count-cons b cur_slot.buf_idx (owned socket_after slots buffers),
      count-cons b new_buf (owned s slots buffers),
      count-append b buffers (map buf_of slots ++ ring_bufs s.p.nifp.rx_rings),
      count-append b buffers (map buf_of slots ++ ring_bufs socket_after.p.nifp.rx_rings),
      count-append b (map buf_of slots) (ring_bufs s.p.nifp.rx_rings),
      count-append b (map buf_of slots) (ring_bufs socket_after.p.nifp.rx_rings),
      count-gather-set (λ (r : NetmapRing). slot_bufs r.slots) b s.p.nifp.rx_rings ri ring
          ring_after at_ring,
      count-map-set (λ (n : NetmapSlot). n.buf_idx) b ring.slots ring.cur cur_slot
          (record cur_slot { buf_idx = new_buf; flags = bit_or cur_slot.flags api.ns_buf_changed })
          at_slot,
    )

    -- How `take_packet` goes on after the exchange.
    take_packet_run :
        Ring.get_slot rx (head rx) ≡ some slot
        → take_packet api s rx ri ≡ (
            if filtered_out socket_after slot_after.pkthdr cur_slot.buf_idx
            then discard socket_after (stored rx (head rx) slot_after)
            else deliver socket_after (stored rx (head rx) slot_after) slot_after)
    unfolding take_packet get_slot netmap_rxring
    take_packet_run at_head = rw (
      at_ring,
      ◌>>=◌,
      get_slot,
      at_slot,
      at_head,
      set_slot-some rx v.ring.shape (head rx) slot_after,
      clone_pop_unchecked-Holds v.pool,
    )

    take_packet_hit :
        Ring.get_slot rx (head rx) ≡ some slot
        → (out : Received) × (take_packet api s rx ri ≡ some out)
          × RecvPost bits free_bits
              (owned s slots (new_buf ∷ buffers))
              (suc (length buffers + length slots))
              out
    take_packet_hit at_head =
        elim (Bool-cases (filtered_out socket_after slot_after.pkthdr cur_slot.buf_idx)) [
          | inl turned_down ↦
              let (out, run, _, post) =
                discard_lem exchange-RxInv (omega (arith, v.room)) slot_after _
                  exchange-SameItems in
              (out, rw (take_packet_run at_head, turned_down) run, post)
          | inr passed ↦
              let (run, post) =
                deliver_lem exchange-RxInv (omega (arith, v.room)) slot_after _
                  exchange-SameItems in
              (_, rw (take_packet_run at_head, passed) run, post)
        ]

-- A call that fails before anything is exchanged, or after a reclaim.
pub fail-RecvPost :
    {bits free_bits : ℕ} {s : NethunsSocketNetmap} {rx : NethunsRing} {slots : List NethunsRingSlot}
    {buffers before : List ℕ} (e : NethunsRecvError)
    → cost (err e) ≡ 0
    → RxInv bits free_bits s rx slots buffers
    → SameItems (owned s slots buffers) before
    → RecvPost bits free_bits before (length buffers + length slots) (err e, s)
fail-RecvPost {rx} {slots} {buffers} e free_of_cost v same = record {
  rx' = rx;
  slots' = slots;
  buffers' = buffers;
  lost = [];
  inv = v;
  handed = tt;
  lost_length = sym free_of_cost;
  ledger = same;
  in_hand = omega (arith, free_of_cost);
}

pub resize-RecvPost :
    {bits free_bits n m : ℕ} {before : List ℕ} {out : Received}
    → n ≡ m
    → RecvPost bits free_bits before n out
    → RecvPost bits free_bits before m out
resize-RecvPost {bits} {free_bits} {before} {out} e post =
    subst (λ k. RecvPost bits free_bits before k out) e post

-- Taking a packet from a ring of the port does not fault, keeps the invariant, and accounts for
-- every buffer.
pub take_packet_lem :
    (api : NetmapApi) {s : NethunsSocketNetmap} {rx : NethunsRing} {slots : List NethunsRingSlot}
    (ri b : ℕ) (buffers : List ℕ) {bits free_bits : ℕ}
    → RxInv bits free_bits s rx slots (b ∷ buffers)
    → ri < length s.p.nifp.rx_rings
    → (out : Received) × (take_packet api s rx ri ≡ some out)
      × RecvPost bits free_bits
          (owned s slots (b ∷ buffers))
          (suc (length buffers + length slots))
          out
unfolding take_packet netmap_rxring get_slot
take_packet_lem api {s} {rx} {slots} ri b buffers {bits} {free_bits} v inside =
    let (ring, at_ring) = get_elem?_in s.p.nifp.rx_rings ri inside in
    let (slot, at_head) = get_slot-some rx v.ring.shape (head rx) in
    elim (Option-cases (get_elem? ring.slots ring.cur)) [
      | inr (cur_slot, at_slot) ↦
          take_packet_hit api s rx ri ring cur_slot slot b v at_ring at_slot at_head
      | inl outside ↦ (
        (err NethunsRecvError.error, s),
        missed ring at_ring outside,
        resize-RecvPost (omega arith) (fail-RecvPost NethunsRecvError.error refl v (λ _. refl)),
      )
    ]
  where
    missed :
        (ring : NetmapRing)
        → get_elem? s.p.nifp.rx_rings ri ≡ some ring
        → get_elem? ring.slots ring.cur ≡ none
        → take_packet api s rx ri ≡ some (err NethunsRecvError.error, s)
    missed ring at_ring outside = rw (take_packet, netmap_rxring, at_ring, ◌>>=◌, get_slot, outside)
