-- ===== src/Programs/FilePcap/Capturing.antt =====
-- `run_capture_mode` of examples/file-pcap.rs, and the packets that it receives.
use rust_nethuns.Common.{
  ℕ, zero, suc, ◌≤◌, ◌<◌, ◌≡◌, ◌⊎◌, inl, inr, refl, some, List, [], length, ok, err, arith,
}
use rust_nethuns.Pkthdr.{Pkthdr}
use rust_nethuns.Errors.{NethunsRecvError}
use rust_nethuns.Netmap.{NethunsSocketNetmap, RecvPacket}
use rust_nethuns.Netmap.Api.{NetmapApi, RxSyncLaws}
use rust_nethuns.Netmap.Recv.{Received, recv, drop_packet}
use rust_nethuns.Pcap.{NethunsSocketPcap}
use rust_nethuns.Pcap.Reader.{write}
use rust_nethuns.Pcap.Store.{answers, store_header, PcapStored, store}
use rust_nethuns.Pcap.Store.Stored.{as_stored, store_lem}
use rust_nethuns.Pcap.Store.Capture.{store_packets, if_stored}
use rust_nethuns.Programs.Forward.{buffer}
use rust_nethuns.Netmap.Sides.{Receiving, recv-Receiving, drop_packet-Receiving}
use rust_nethuns.Programs.Receptions.{Receptions, no_call, refused, received, pkthdr-some}
use rust_nethuns.Programs.FilePcap.{
  pkthdr, Capture, captured, store_panic, and_before, capture_loop,
}

-- What the other socket has stored are the packets that calls of `recv` have given, in order; all calls
-- have been made, or as many packets as wanted have come. Or a packet that the next call gives after
-- those cannot be stored.
abbrev pub Stores :
    ℕ → ℕ → ℕ → NetmapApi → ℕ → ℕ → NethunsSocketNetmap → NethunsSocketPcap → Capture → Type 0
Stores bits free_bits hand api rounds left s out (captured packets s' out') =
    (n : ℕ) × Receptions api n s packets s'
    × (((n ≡ rounds) × (length packets ≤ left)) ⊎ ((n ≤ rounds) × (length packets ≡ left)))
    × Receiving bits free_bits hand s'
    × (store_packets out packets ≡ some out')
Stores bits free_bits hand api rounds left s out (store_panic packets e) =
    (n : ℕ) × (s1 s2 : NethunsSocketNetmap) × (pkt : RecvPacket) × (h : Pkthdr) × (out1
      out2 : NethunsSocketPcap)
    × Receptions api n s packets s1
    × (n < rounds)
    × (length packets < left)
    × (recv api s1 ≡ some (ok pkt, s2))
    × (pkthdr s2 pkt ≡ some h)
    × (store_packets out packets ≡ some out1)
    × (store out1 (answers h) (buffer s2 pkt) ≡ some (err e, out2))

store-some :
    (out : NethunsSocketPcap) (h : Pkthdr) (bytes : List ℕ)
    → (stored : PcapStored) × (store out (answers h) bytes ≡ some stored)
store-some out h bytes =
    (as_stored (write out (store_header (answers h) bytes) _), store_lem out h bytes)

module _ (bits free_bits hand : ℕ) where
  -- A packet before the others.
  and_before-Stores :
      (api : NetmapApi) (rounds left n : ℕ) (s s1 s2 : NethunsSocketNetmap) (pkt : RecvPacket)
      (out out' : NethunsSocketPcap) (h : Pkthdr) (c : Capture)
      → recv api s ≡ some (ok pkt, s1)
      → pkthdr s1 pkt ≡ some h
      → store out (answers h) (buffer s1 pkt) ≡ some (ok n, out')
      → drop_packet s1 pkt ≡ some s2
      → Stores bits free_bits hand api rounds left s2 out' c
      → Stores bits free_bits hand api
          (suc rounds)
          (suc left)
          s
          out
          (and_before (h, buffer s1 pkt) c)
  unfolding and_before store_packets
  and_before-Stores api rounds left n s s1 s2 pkt out out' h (captured packets s' out'') run header
        stored dropped (k, t, ends, r, e) =
      (
        suc k,
        received pkt h run header dropped t,
        elim ends [
          | inl (all, few) ↦ inl (omega (arith, all), omega (arith, few))
          | inr (some_left, full) ↦ inr (omega (arith, some_left), omega (arith, full))
        ],
        r,
        rw (store_packets, stored, if_stored) e,
      )
  and_before-Stores api rounds left n s s1 s2 pkt out out' h (store_panic packets x) run header
        stored dropped (k, s3, s4, pkt', h', out1, out2, t, few, wanted, run', header', e, failed) =
      (
        suc k,
        s3,
        s4,
        pkt',
        h',
        out1,
        out2,
        received pkt h run header dropped t,
        omega (arith, few),
        omega (arith, wanted),
        run',
        header',
        rw (store_packets, stored, if_stored) e,
        failed,
      )

  -- A call that gives no packet, before the others.
  refused-Stores :
      (api : NetmapApi) (rounds left : ℕ) (s s1 : NethunsSocketNetmap) (x : NethunsRecvError)
      (out : NethunsSocketPcap) (c : Capture)
      → recv api s ≡ some (err x, s1)
      → Stores bits free_bits hand api rounds left s1 out c
      → Stores bits free_bits hand api (suc rounds) left s out c
  refused-Stores api rounds left s s1 x out (captured packets s' out') run (k, t, ends, r, e) = (
    suc k,
    refused x run t,
    elim ends [
      | inl (all, few) ↦ inl (omega (arith, all), few)
      | inr (some_left, full) ↦ inr (omega (arith, some_left), full)
    ],
    r,
    e,
  )
  refused-Stores api rounds left s s1 x out (store_panic packets y) run
        (k, s3, s4, pkt', h', out1, out2, t, few, wanted, run', header', e, failed) =
      (
        suc k,
        s3,
        s4,
        pkt',
        h',
        out1,
        out2,
        refused x run t,
        omega (arith, few),
        wanted,
        run',
        header',
        e,
        failed,
      )

  module _ (api : NetmapApi) (laws : RxSyncLaws api) where
    -- What the loop comes to within a number of rounds.
    abbrev Captures : ℕ → Type 0
    Captures rounds =
        (left : ℕ) (s : NethunsSocketNetmap) (out : NethunsSocketPcap)
        → Receiving bits free_bits hand s
        → (c : Capture) × (capture_loop api rounds left s out ≡ some c)
          × Stores bits free_bits hand api rounds left s out c

    module _ (rounds : ℕ) (rest : Captures rounds) (left : ℕ) (s : NethunsSocketNetmap)
        (out : NethunsSocketPcap) where
      abbrev Goal : Type 0
      Goal =
          (c : Capture) × (capture_loop api (suc rounds) (suc left) s out ≡ some c)
          × Stores bits free_bits hand api (suc rounds) (suc left) s out c

      -- A packet is stored.
      by_stored :
          (s' : NethunsSocketNetmap) (pkt : RecvPacket) (h : Pkthdr) (stored : PcapStored)
          → recv api s ≡ some (ok pkt, s')
          → Receiving bits free_bits hand s'
          → pkthdr s' pkt ≡ some h
          → store out (answers h) (buffer s' pkt) ≡ some stored
          → Goal
      unfolding capture_loop store_packets
      by_stored s' pkt h (err e, out') run r header failed = (
        store_panic [] e,
        rw (capture_loop, run, header, failed) refl,
        (0, s, s', pkt, h, out, out', no_call, omega arith, omega arith, run, header, refl, failed),
      )
      by_stored s' pkt h (ok n, out') run r header stored =
          let (s'', dropped, r') = drop_packet-Receiving pkt r in
          let (c, run', v) = rest left s'' out' r' in
          (
            and_before (h, buffer s' pkt) c,
            rw (capture_loop, run, header, stored, dropped, run') refl,
            and_before-Stores api rounds left n s s' s'' pkt out out' h c run header stored dropped
                v,
          )

      by_received :
          (res : Received) → recv api s ≡ some res → Receiving bits free_bits hand res.1 → Goal
      unfolding capture_loop
      by_received (err e, s') run r =
          let (c, run', v) = rest (suc left) s' out r in
          (c, rw (capture_loop, run) run', refused-Stores api rounds (suc left) s s' e out c run v)
      by_received (ok pkt, s') run r =
          let (h, header) = pkthdr-some pkt r in
          let (stored, e) = store-some out h (buffer s' pkt) in
          by_stored s' pkt h stored run r header e

    -- For any number of rounds and of packets wanted, the capture calls `recv` once in each round, until
    -- as many packets have come as are wanted. It stores exactly the packets that these calls give, each
    -- with the header and the bytes that the socket gives for it, in their order; each is dropped before
    -- the next call, and the socket is as it should be at the end, with no more buffers in hand. Or it
    -- panics, because the next packet cannot be stored after those. It never faults otherwise. The
    -- conditions are that the
    -- socket is as it should be at first, and that the synchronisations obey `RxSyncLaws`.
    pub capture_loop_lem :
        (rounds left : ℕ) (s : NethunsSocketNetmap) (out : NethunsSocketPcap)
        → Receiving bits free_bits hand s
        → (c : Capture) × (capture_loop api rounds left s out ≡ some c)
          × Stores bits free_bits hand api rounds left s out c
    unfolding capture_loop store_packets
    capture_loop_lem zero left s out r =
        (captured [] s out, refl, (0, no_call, inl (refl, omega arith), r, refl))
    capture_loop_lem (suc rounds) zero s out r =
        (captured [] s out, refl, (0, no_call, inr (omega arith, refl), r, refl))
    capture_loop_lem (suc rounds) (suc left) s out r =
        let (res, run, r') = recv-Receiving api laws r in
        by_received rounds (capture_loop_lem rounds) left s out res run r'
