-- ===== src/Netmap/Session.antt =====
-- A client of the receiving side: calls of `recv` and releases of packets, in any order
-- (src/sockets/api/netmap/nethuns_socket.rs, src/sockets/base.rs).
use rust_nethuns.Common.{
  ℕ, ◌+◌, ◌^◌, ◌≤◌, ◌≡◌, ◌∙◌, refl, sym, ap, Option, some, List, [], ◌∷◌, length, length-map, err,
  arith, ◌>>=◌, inl, inr, Bool-cases,
}
use rust_nethuns.CircularQueue.Refine.{is_empty-count}
use rust_nethuns.Ring.{NethunsRing, NethunsRingSlot, is_free, head}
use rust_nethuns.Ring.SendSlot.{get_slot-some}
use rust_nethuns.Errors.{NethunsRecvError}
use rust_nethuns.Netmap.{NethunsSocketNetmap, RecvPacket}
use rust_nethuns.Netmap.Api.{NetmapApi, RxSyncLaws}
use rust_nethuns.Netmap.Reclaim.{buf_of, leading_free, after_free}
use rust_nethuns.Netmap.Recv.{recv, recv_on, recv_refill, drop_packet}
use rust_nethuns.Netmap.Recv.Inv.{RxInv, cost}
use rust_nethuns.Netmap.Recv.Stages.{reclaim_lem}
use rust_nethuns.Netmap.Recv.Total.{recv_lem}
use rust_nethuns.Netmap.Recv.Release.{drop_packet_lem}

pub data Call : Type 0 where
  recv_call : Call
  drop_call : RecvPacket → Call

module _ (api : NetmapApi) where
  -- The number of packets that were filtered out, and the last state.
  unfoldable pub run : NethunsSocketNetmap → List Call → Option (ℕ × NethunsSocketNetmap)
  unfolding recv drop_packet
  run s [] = some (0, s)
  run s (recv_call ∷ calls) = do
    (res, s') ← recv api s
    (n, s'') ← run s' calls
    some (cost res + n, s'')
  run s (drop_call pkt ∷ calls) = do s' ← drop_packet s pkt; run s' calls

  module _ (laws : RxSyncLaws api) {bits free_bits : ℕ} where
    -- From a state of the invariant, and if the synchronisations obey `RxSyncLaws`, every sequence of
    -- calls runs without a fault and keeps the invariant. Each packet that is
    -- filtered out leaves one buffer less in the free ring and with packets, and nothing else
    -- changes their number.
    pub run_lem :
        (calls : List Call) (s : NethunsSocketNetmap) {rx : NethunsRing}
        {slots : List NethunsRingSlot} (buffers : List ℕ)
        → RxInv bits free_bits s rx slots buffers
        → (n : ℕ) × (s' : NethunsSocketNetmap) × (rx' : NethunsRing) × (slots' : List
            NethunsRingSlot)
          × (buffers' : List ℕ) × (run s calls ≡ some (n, s'))
          × RxInv bits free_bits s' rx' slots' buffers'
          × (n + (length buffers' + length slots') ≡ length buffers + length slots)
    unfolding run
    run_lem [] s {rx} {slots} buffers v = (0, s, rx, slots, buffers, refl, v, omega arith)
    run_lem (recv_call ∷ calls) s buffers v =
        let (out, e, post) = recv_lem api laws s buffers v in
        let (n, s', rx', slots', buffers', e', v', total) =
          run_lem calls out.1 post.buffers' post.inv in
        (
          cost out.0 + n,
          s',
          rx',
          slots',
          buffers',
          rw (e, e'),
          v',
          omega (arith, total, post.in_hand),
        )
    run_lem (drop_call pkt ∷ calls) s {rx} {slots} buffers v =
        let (s₁, rx₁, slots₁, e, v₁, same, _, _) = drop_packet_lem pkt v in
        let (n, s', rx', slots', buffers', e', v', total) = run_lem calls s₁ buffers v₁ in
        let same_length : length slots₁ ≡ length slots =
          sym (length-map buf_of slots₁) ∙ ap length same ∙ length-map buf_of slots in
        (n, s', rx', slots', buffers', rw (e, e'), v', omega (arith, total, same_length))

    -- So a socket, under the same conditions, turns down at most as many packets as its reception ring has slots, however long
    -- it runs and whatever is released in between.
    pub filtered_bound :
        (calls : List Call) (s : NethunsSocketNetmap) {rx : NethunsRing}
        {slots : List NethunsRingSlot} (buffers : List ℕ)
        → RxInv bits free_bits s rx slots buffers
        → (n : ℕ) × (s' : NethunsSocketNetmap) × (run s calls ≡ some (n, s')) × (n ≤ 2 ^ bits)
    filtered_bound calls s buffers v =
        let (n, s', _, _, _, e, _, total) = run_lem calls s buffers v in
        (n, s', e, omega (arith, total, v.room))

    -- Under the same conditions, a socket with no buffer left and no packet out receives nothing, and is left without one.
    pub starved :
        (s : NethunsSocketNetmap) {rx : NethunsRing}
        → RxInv bits free_bits s rx [] []
        → (e : NethunsRecvError) × (s' : NethunsSocketNetmap) × (rx' : NethunsRing) × (recv api s
            ≡ some (err e, s'))
          × RxInv bits free_bits s' rx' [] []
    unfolding recv recv_refill after_free leading_free
    starved s {rx} v =
        let (slot, at_head) = get_slot-some rx v.ring.shape (head rx) in
        elim (Bool-cases (is_free slot.status)) [
          | inl ready ↦
              let (s', rx', e, v', _, _) = reclaim_lem v in
              (
                NethunsRecvError.no_packets_available,
                s',
                rx',
                on_ring ∙ rw (at_head, ready, is_empty-count v.pool, e, is_empty-count v'.pool),
                v',
              )
          | inr busy ↦ (NethunsRecvError.in_use, s, rx, on_ring ∙ rw (at_head, busy), v)
        ]
      where
        on_ring : recv api s ≡ recv_on api s (some rx)
        on_ring = ap (recv_on api s) v.rx_eq
