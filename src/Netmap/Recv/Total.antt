-- ===== src/Netmap/Recv/Total.antt =====
-- `recv` of src/sockets/api/netmap/nethuns_socket.rs as a whole: it always returns, keeps the
-- invariant, and accounts for every buffer.
use rust_nethuns.Common.{
  ℕ, suc, ◌+◌, ◌<◌, ◌≡◌, ◌∙◌, refl, ap, subst, none, some, List, [], ◌∷◌, ◌++◌, map, length, Result,
  ok, err, arith, ◌⊎◌, inl, inr, Bool-cases, if◌then◌else◌,
}
use rust_nethuns.Common.Counts.{count}
use rust_nethuns.CircularQueue
use rust_nethuns.CircularQueue.Refine.{is_empty-count, is_empty-cons}
use rust_nethuns.Ring.{NethunsRing, NethunsRingSlot, is_free, head}
use rust_nethuns.Ring.SendSlot.{get_slot-some}
use rust_nethuns.Errors.{NethunsRecvError}
use rust_nethuns.Netmap.{NmPortDescriptor, NethunsSocketNetmap}
use rust_nethuns.Netmap.Api.{NetmapApi, RxSyncLaws, ring_bufs}
use rust_nethuns.Netmap.RingSearch.{IsSearchable, Searched, non_empty_rx_ring-Searched}
use rust_nethuns.Netmap.Reclaim.{buf_of}
use rust_nethuns.Netmap.Recv.{Received, find_ring, recv_packet, recv_refill, recv_on, recv}
use rust_nethuns.Netmap.Recv.Inv.{RxInv, RecvPost, owned}
use rust_nethuns.Netmap.Recv.Stages.{reclaim_lem}
use rust_nethuns.Netmap.Recv.TakePacket.{take_packet_lem, fail-RecvPost, resize-RecvPost}

-- A search leaves the port searchable, with the same rings, and the ring that it finds is one of them.
record FoundRing (p : NmPortDescriptor) (found : Result ℕ NethunsRecvError) (p' : NmPortDescriptor)
    : Type 0 where
  port : IsSearchable p'
  bufs : ring_bufs p'.nifp.rx_rings ≡ ring_bufs p.nifp.rx_rings
  which :
      (found ≡ err NethunsRecvError.no_packets_available)
      ⊎ ((ri : ℕ) × (found ≡ ok ri) × (ri < length p'.nifp.rx_rings))

Searched-FoundRing :
    {p : NmPortDescriptor} {out : Result ℕ NethunsRecvError × NmPortDescriptor}
    → IsSearchable p
    → Searched p out
    → FoundRing p out.0 out.1
Searched-FoundRing v (inl e) = record {
  port = rw e v;
  bufs = rw e;
  which = inl (ap (λ (o : Result ℕ NethunsRecvError × NmPortDescriptor). o.0) e);
}
Searched-FoundRing v (inr (i, e, above, below, _)) = record {
  port = rw e (record { first_le = above; le_last = below; in_bounds = v.in_bounds });
  bufs = rw e;
  which = inr (
    i,
    ap (λ (o : Result ℕ NethunsRecvError × NmPortDescriptor). o.0) e,
    rw e (omega (arith, v.in_bounds)),
  );
}

module _ (api : NetmapApi) (laws : RxSyncLaws api) where
  synced-IsSearchable : {p : NmPortDescriptor} → IsSearchable p → IsSearchable (api.rx_sync p)
  synced-IsSearchable {p} v = record {
    first_le = rw (laws.same_first p, laws.same_cur p) v.first_le;
    le_last = rw (laws.same_last p, laws.same_cur p) v.le_last;
    in_bounds = rw (laws.same_last p, laws.same_rings p) v.in_bounds;
  }

  find_ring_lem :
      (p : NmPortDescriptor)
      → IsSearchable p
      → (found : Result ℕ NethunsRecvError) × (p' : NmPortDescriptor) × (find_ring api p
          ≡ some (found, p'))
        × FoundRing p found p'
  unfolding find_ring
  find_ring_lem p v =
      let (out, run, searched) = non_empty_rx_ring-Searched p v in
      elim searched [
        | inr (i, e, above, below, has) ↦ (
          ok i,
          record p { cur_rx_ring = i },
          rw (run, e),
          Searched-FoundRing v (inr (i, refl, above, below, has)),
        )
        | inl e ↦
            let (out', run', searched') =
              non_empty_rx_ring-Searched (api.rx_sync p) (synced-IsSearchable v) in
            let f = Searched-FoundRing (synced-IsSearchable v) searched' in
            (
              out'.0,
              out'.1,
              rw (run, e, run'),
              record { port = f.port; bufs = f.bufs ∙ laws.same_bufs p; which = f.which },
            )
      ]

  module _ {bits free_bits : ℕ} where
    recv_packet_lem :
        (s : NethunsSocketNetmap) {rx : NethunsRing} {slots : List NethunsRingSlot} (b : ℕ)
        (buffers : List ℕ)
        → RxInv bits free_bits s rx slots (b ∷ buffers)
        → (out : Received) × (recv_packet api s rx ≡ some out)
          × RecvPost bits free_bits
              (owned s slots (b ∷ buffers))
              (suc (length buffers + length slots))
              out
    unfolding recv_packet
    recv_packet_lem s {rx} {slots} b buffers v =
        let (found, p', run, f) = find_ring_lem s.p v.port in
        let v' : RxInv bits free_bits (record s { p = p' }) rx slots (b ∷ buffers) = record {
          rx_eq = v.rx_eq;
          ring = v.ring;
          pool = v.pool;
          room = v.room;
          fits = v.fits;
          port = f.port;
        } in
        let same : owned (record s { p = p' }) slots (b ∷ buffers) ≡ owned s slots (b ∷ buffers) =
          ap (λ k. (b ∷ buffers) ++ (map buf_of slots ++ k)) f.bufs in
        elim f.which [
          | inl e ↦ (
            (err NethunsRecvError.no_packets_available, record s { p = p' }),
            rw (run, e),
            resize-RecvPost (omega arith) (
                fail-RecvPost NethunsRecvError.no_packets_available refl v'
                  (λ c. ap (count c) same)),
          )
          | inr (ri, e, inside) ↦
              let (out, run', post) = take_packet_lem api ri b buffers v' inside in
              (
                out,
                rw (run, e) run',
                subst (λ t. RecvPost bits free_bits t (suc (length buffers + length slots)) out)
                    same post,
              )
        ]

    -- With a free ring of which it is known whether it is empty.
    recv_with :
        (s : NethunsSocketNetmap) {rx : NethunsRing} {slots : List NethunsRingSlot}
        (buffers : List ℕ)
        → RxInv bits free_bits s rx slots buffers
        → (out : Received) × ((if CircularQueue.is_empty s.free_ring
              then some (err NethunsRecvError.no_packets_available, s)
              else recv_packet api s rx)
            ≡ some out)
          × RecvPost bits free_bits (owned s slots buffers) (length buffers + length slots) out
    recv_with s [] v = (
      (err NethunsRecvError.no_packets_available, s),
      rw (is_empty-count v.pool),
      fail-RecvPost NethunsRecvError.no_packets_available refl v (λ _. refl),
    )
    recv_with s (b ∷ buffers) v =
        let (out, run, post) = recv_packet_lem s b buffers v in
        (out, rw (is_empty-cons v.pool) run, resize-RecvPost (omega arith) post)

    recv_refill_lem :
        (s : NethunsSocketNetmap) {rx : NethunsRing} {slots : List NethunsRingSlot}
        (buffers : List ℕ)
        → RxInv bits free_bits s rx slots buffers
        → (out : Received) × (recv_refill api s rx ≡ some out)
          × RecvPost bits free_bits (owned s slots buffers) (length buffers + length slots) out
    unfolding recv_refill
    recv_refill_lem s {rx} {slots} [] v =
        let (s', rx', run, v', same, total) = reclaim_lem v in
        let (out, run', post) = recv_with s' _ v' in
        (
          out,
          rw (is_empty-count v.pool, run) run',
          record {
            rx' = post.rx';
            slots' = post.slots';
            buffers' = post.buffers';
            lost = post.lost;
            inv = post.inv;
            handed = post.handed;
            lost_length = post.lost_length;
            ledger = λ c. post.ledger c ∙ same c;
            in_hand = post.in_hand ∙ total;
          },
        )
    recv_refill_lem s (b ∷ buffers) v =
        let (out, run, post) = recv_packet_lem s b buffers v in
        (out, rw (is_empty-cons v.pool) run, resize-RecvPost (omega arith) post)

    -- Under the invariant, and if the synchronisations obey `RxSyncLaws`, `recv` returns: no loop runs out, no index of a ring or a slot is out of bounds, and the
    -- free ring is never popped while it is empty. The invariant holds again, and the buffers in
    -- hand are those from before, but for one that is lost if the packet was filtered out. A packet
    -- that is returned belongs to a slot that is in use and has its buffer.
    pub recv_lem :
        (s : NethunsSocketNetmap) {rx : NethunsRing} {slots : List NethunsRingSlot}
        (buffers : List ℕ)
        → RxInv bits free_bits s rx slots buffers
        → (out : Received) × (recv api s ≡ some out)
          × RecvPost bits free_bits (owned s slots buffers) (length buffers + length slots) out
    unfolding recv
    recv_lem s {rx} {slots} buffers v =
        let (slot, at_head) = get_slot-some rx v.ring.shape (head rx) in
        elim (Bool-cases (is_free slot.status)) [
          | inl ready ↦
              let (out, run, post) = recv_refill_lem s buffers v in
              (out, on_ring ∙ rw (at_head, ready) run, post)
          | inr busy ↦ (
            (err NethunsRecvError.in_use, s),
            on_ring ∙ rw (at_head, busy),
            fail-RecvPost NethunsRecvError.in_use refl v (λ _. refl),
          )
        ]
      where
        on_ring : recv api s ≡ recv_on api s (some rx)
        on_ring = ap (recv_on api s) v.rx_eq

-- A socket without a reception ring refuses, and nothing changes.
pub recv-not_rx :
    (api : NetmapApi) (s : NethunsSocketNetmap)
    → s.base.rx_ring ≡ none
    → recv api s ≡ some (err NethunsRecvError.not_rx, s)
unfolding recv
recv-not_rx api s e = ap (recv_on api s) e
