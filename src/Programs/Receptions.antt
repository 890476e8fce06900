-- ===== src/Programs/Receptions.antt =====
-- What a socket receives when a program calls `recv` again and again and drops each packet before the
-- next call: the independent description of the receiving loops of examples.
use rust_nethuns.Common.{ℕ, suc, ◌≡◌, ◌∙◌, refl, ap, some, List, [], ◌∷◌, ok, err}
use rust_nethuns.Errors.{NethunsRecvError}
use rust_nethuns.Pkthdr.{Pkthdr}
use rust_nethuns.Ring.SendSlot.{get_slot-some}
use rust_nethuns.Netmap.{NethunsSocketNetmap, RecvPacket}
use rust_nethuns.Netmap.Api.{NetmapApi}
use rust_nethuns.Netmap.Recv.{recv, drop_packet}
use rust_nethuns.Netmap.Sides.{Receiving}
use rust_nethuns.Programs.Forward.{buffer}
use rust_nethuns.Programs.FilePcap.{pkthdr, pkthdr_on}

-- So many calls of `recv`, the headers and the bytes of the packets that they give, and the socket then.
pub data Receptions (api : NetmapApi)
    : ℕ → NethunsSocketNetmap → List (Pkthdr × List ℕ) → NethunsSocketNetmap → Type 0 where
  no_call : {s : NethunsSocketNetmap} → Receptions api 0 s [] s
  refused :
      {n : ℕ} {s s1 s' : NethunsSocketNetmap} {packets : List (Pkthdr × List ℕ)}
      (e : NethunsRecvError)
      → recv api s ≡ some (err e, s1)
      → Receptions api n s1 packets s'
      → Receptions api (suc n) s packets s'
  received :
      {n : ℕ} {s s1 s2 s' : NethunsSocketNetmap} {packets : List (Pkthdr × List ℕ)}
      (pkt : RecvPacket) (h : Pkthdr)
      → recv api s ≡ some (ok pkt, s1)
      → pkthdr s1 pkt ≡ some h
      → drop_packet s1 pkt ≡ some s2
      → Receptions api n s2 packets s'
      → Receptions api (suc n) s ((h, buffer s1 pkt) ∷ packets) s'

-- A packet has a header.
pub pkthdr-some :
    {bits free_bits hand : ℕ} {s : NethunsSocketNetmap} (pkt : RecvPacket)
    → Receiving bits free_bits hand s
    → (h : Pkthdr) × (pkthdr s pkt ≡ some h)
unfolding pkthdr_on
pkthdr-some pkt r =
    let (slot, here) = get_slot-some r.rx r.inv.ring.shape pkt.slot in
    (slot.pkthdr, ap (pkthdr_on pkt) r.inv.rx_eq ∙ rw here refl)
