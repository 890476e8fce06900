-- ===== src/Netmap/Duplex/Reception.antt =====
-- `recv` and the release of a packet leave the transmission of a socket as it is.
use rust_nethuns.Common.{
  ℕ, zero, suc, ◌≡◌, ◌∙◌, refl, ap, inl, inr, Bool, true, false, Bool-cases, Option, none, some,
  Option-cases, ◌==◌, if◌then◌else◌,
}
use rust_nethuns.Common.Always.{
  Always, Always-some, Always-none, Always-bind, Always-then, Always-if, Always-weaken,
  Result-cases,
}
use rust_nethuns.CircularQueue
use rust_nethuns.CircularQueue.{CircularQueue}
use rust_nethuns.Ring
use rust_nethuns.Ring.{NethunsRing, NethunsRingSlot, free, is_free}
use rust_nethuns.Errors.{NethunsRecvError}
use rust_nethuns.Netmap.{NmPortDescriptor, NethunsSocketNetmap, RecvPacket, netmap_rxring, get_slot}
use rust_nethuns.Netmap.Api.{NetmapApi}
use rust_nethuns.Netmap.Utility.{next_ring, has_packets, search_from, non_empty_rx_ring}
use rust_nethuns.Netmap.Recv.{
  Received, with_rx, header_of, reclaim, deliver, discard, find_ring, take_packet, recv_packet,
  recv_refill, recv_on, recv, drop_on, drop_packet,
}
use rust_nethuns.Netmap.Duplex.{SyncsApart, tx_port, tx_side}

-- The state that a call leaves, if it returns, has the same transmission.
abbrev pub KeepsTx : NethunsSocketNetmap → Option Received → Type 0
KeepsTx s = Always (λ out. tx_side out.1 ≡ tx_side s)

search_from-tx :
    (fuel : ℕ) (d : NmPortDescriptor) (ri : ℕ)
    → Always (λ out. tx_port out.1 ≡ tx_port d) (search_from fuel d ri)
unfolding search_from
search_from-tx zero d ri = Always-none
search_from-tx (suc fuel) d ri = elim (Option-cases (netmap_rxring d.nifp ri)) [
  | inl e ↦ rw (search_from, e) Always-none
  | inr (ring, e) ↦ elim (Bool-cases (has_packets ring)) [
    | inl h ↦ rw (search_from, e, h) (Always-some refl)
    | inr h ↦ elim (Bool-cases (next_ring d ri == d.cur_rx_ring)) [
      | inl back ↦ rw (search_from, e, h, back) (Always-some refl)
      | inr on ↦ rw (search_from, e, h, on) (search_from-tx fuel d (next_ring d ri))
    ]
  ]
]

non_empty_rx_ring-tx :
    (d : NmPortDescriptor) → Always (λ out. tx_port out.1 ≡ tx_port d) (non_empty_rx_ring d)
unfolding non_empty_rx_ring
non_empty_rx_ring-tx d = search_from-tx _ d d.cur_rx_ring

reclaim-tx :
    (s : NethunsSocketNetmap) (rx : NethunsRing)
    → Always (λ out. tx_side out.0 ≡ tx_side s) (reclaim s rx)
unfolding reclaim
reclaim-tx s rx = Always-bind _ _ (λ out. Always-some refl)

deliver-tx :
    (s : NethunsSocketNetmap) (rx : NethunsRing) (slot : NethunsRingSlot)
    → KeepsTx s (deliver s rx slot)
unfolding deliver
deliver-tx s rx slot = Always-bind _ _ (λ rx'. Always-some refl)

discard-tx : (s : NethunsSocketNetmap) (rx : NethunsRing) → KeepsTx s (discard s rx)
unfolding discard
discard-tx s rx = Always-then _ _ (reclaim-tx s rx) (λ out same. Always-some same)

-- The socket with the packet's buffer in the head slot and another one in the netmap slot.
abbrev taken :
    NethunsSocketNetmap → NethunsRing → CircularQueue ℕ → NmPortDescriptor → NethunsSocketNetmap
taken s rx free_ring p = record (with_rx s rx) { free_ring = free_ring; p = p }

-- The end of `recv`, whether or not the filter turns the packet down.
ended-tx :
    (s s' : NethunsSocketNetmap) (rx : NethunsRing) (slot : NethunsRingSlot) (filtered : Bool)
    → tx_side s' ≡ tx_side s
    → KeepsTx s (if filtered then discard s' rx else deliver s' rx slot)
ended-tx s s' rx slot true same = Always-weaken (λ out e. e ∙ same) (discard-tx s' rx)
ended-tx s s' rx slot false same = Always-weaken (λ out e. e ∙ same) (deliver-tx s' rx slot)

module _ (api : NetmapApi) (apart : SyncsApart api) where
  find_ring-tx :
      (p : NmPortDescriptor) → Always (λ out. tx_port out.1 ≡ tx_port p) (find_ring api p)
  unfolding find_ring
  find_ring-tx p = Always-then _ _ (non_empty_rx_ring-tx p) (λ out same. elim (Result-cases out.0) [
    | inl (ri, e) ↦ rw e (Always-some same)
    | inr (_, e) ↦ rw e (
        Always-weaken (λ out' same'. same' ∙ apart.rx_apart out.1 ∙ same)
          (non_empty_rx_ring-tx (api.rx_sync out.1)))
  ])

  take_packet-tx :
      (s : NethunsSocketNetmap) (rx : NethunsRing) (ri : ℕ) → KeepsTx s (take_packet api s rx ri)
  unfolding take_packet
  take_packet-tx s rx ri = Always-bind (netmap_rxring s.p.nifp ri) _ (λ ring.
      elim (Result-cases (get_slot ring ring.cur NethunsRecvError.error)) [
        | inr (_, e) ↦ rw e (Always-some refl)
        | inl (cur_slot, e) ↦ rw e (
            Always-bind (Ring.get_slot rx (Ring.head rx)) _ (λ slot.
              Always-bind (Ring.set_slot rx (Ring.head rx) _) _ (λ rx'.
                Always-bind (CircularQueue.clone_pop_unchecked s.free_ring) _ (λ popped.
                  ended-tx s (taken s rx' _ _) rx'
                    (record slot { pkthdr = header_of ring cur_slot }) _ refl))))
      ])

  recv_packet-tx : (s : NethunsSocketNetmap) (rx : NethunsRing) → KeepsTx s (recv_packet api s rx)
  unfolding recv_packet
  recv_packet-tx s rx = Always-then _ _ (find_ring-tx s.p) (λ out same.
      let kept : tx_side (record s { p = out.1 }) ≡ tx_side s =
        ap (λ q. (s.base.tx_ring, s.nr_buf_size, q)) same in
      elim (Result-cases out.0) [
        | inl (ri, e) ↦ rw e (
            Always-weaken (λ out' same'. same' ∙ kept)
              (take_packet-tx (record s { p = out.1 }) rx ri))
        | inr (_, e) ↦ rw e (Always-some kept)
      ])

  recv_refill-tx : (s : NethunsSocketNetmap) (rx : NethunsRing) → KeepsTx s (recv_refill api s rx)
  unfolding recv_refill
  recv_refill-tx s rx =
      Always-if _
        (Always-then _ _ (reclaim-tx s rx) (λ out same.
          Always-if _ (Always-some same)
            (Always-weaken (λ out' same'. same' ∙ same) (recv_packet-tx out.0 out.1))))
        (recv_packet-tx s rx)

  recv_on-tx : (s : NethunsSocketNetmap) (rx : Option NethunsRing) → KeepsTx s (recv_on api s rx)
  unfolding recv_on
  recv_on-tx s none = Always-some refl
  recv_on-tx s (some rx) =
      Always-bind (Ring.get_slot rx (Ring.head rx)) _
        (λ slot. Always-if (is_free slot.status) (recv_refill-tx s rx) (Always-some refl))

  pub recv-tx : (s : NethunsSocketNetmap) → KeepsTx s (recv api s)
  unfolding recv
  recv-tx s = recv_on-tx s s.base.rx_ring

drop_on-tx :
    (s : NethunsSocketNetmap) (pkt : RecvPacket) (rx : Option NethunsRing)
    → Always (λ s'. tx_side s' ≡ tx_side s) (drop_on s pkt rx)
unfolding drop_on
drop_on-tx s pkt none = Always-none
drop_on-tx s pkt (some rx) = Always-bind (Ring.get_slot rx pkt.slot) _ (λ slot.
    Always-bind (Ring.set_slot rx pkt.slot (record slot { status = free })) _
      (λ rx'. Always-some refl))

pub drop_packet-tx :
    (s : NethunsSocketNetmap) (pkt : RecvPacket)
    → Always (λ s'. tx_side s' ≡ tx_side s) (drop_packet s pkt)
unfolding drop_packet
drop_packet-tx s pkt = drop_on-tx s pkt s.base.rx_ring
