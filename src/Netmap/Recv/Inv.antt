-- ===== src/Netmap/Recv/Inv.antt =====
-- The invariant of the receiving side of src/sockets/api/netmap/nethuns_socket.rs, and the buffers
-- that the socket has in hand.
use rust_nethuns.Common.{ℕ, ◌+◌, ◌^◌, ◌≤◌, ◌≡◌, some, List, ◌++◌, map, length, Result, ok, err}
use rust_nethuns.Common.Counts.{SameItems}
use rust_nethuns.CircularQueue.Refine.{Holds}
use rust_nethuns.Ring.{NethunsRing, NethunsRingSlot, in_use, get_slot}
use rust_nethuns.Errors.{NethunsRecvError}
use rust_nethuns.Netmap.{NethunsSocketNetmap, RecvPacket}
use rust_nethuns.Netmap.Api.{ring_bufs}
use rust_nethuns.Netmap.Recv.{Received}
use rust_nethuns.Netmap.RingSearch.{IsSearchable}
use rust_nethuns.Netmap.Outstanding.{Outstanding}
use rust_nethuns.Netmap.Reclaim.{buf_of}

-- The reception ring holds the packets `slots` that have not been taken back, the free ring holds
-- the buffers `buffers`, and together they are no more than the ring has slots.
pub record RxInv (bits free_bits : ℕ) (s : NethunsSocketNetmap) (rx : NethunsRing)
    (slots : List NethunsRingSlot) (buffers : List ℕ) : Type 0 where
  pub rx_eq : s.base.rx_ring ≡ some rx
  pub ring : Outstanding bits rx slots
  pub pool : Holds free_bits s.free_ring buffers
  pub room : length buffers + length slots ≤ 2 ^ bits
  pub fits : 2 ^ bits ≤ 2 ^ free_bits
  pub port : IsSearchable s.p

-- The buffers of the free ring, of the packets that have not been taken back, and of the kernel's
-- reception rings.
abbrev pub owned : NethunsSocketNetmap → List NethunsRingSlot → List ℕ → List ℕ
owned s slots buffers = buffers ++ (map buf_of slots ++ ring_bufs s.p.nifp.rx_rings)

-- A packet that is filtered out costs one buffer, and nothing else does.
abbrev pub cost : Result RecvPacket NethunsRecvError → ℕ
cost (ok pkt) = 0
cost (err NethunsRecvError.packet_filtered) = 1
cost (err _) = 0

-- A packet that is handed out belongs to a slot that is now in use and has its buffer; no more than
-- the configured size of it counts as captured, and its identifier is the new head.
abbrev pub Handed : Received → NethunsRing → Type 0
Handed (ok pkt, s) rx =
    (slot : NethunsRingSlot) × (get_slot rx pkt.slot ≡ some slot)
    × (slot.status ≡ in_use)
    × (slot.pkthdr.buf_idx ≡ pkt.buffer)
    × (slot.pkthdr.caplen ≤ s.base.opt.packetsize)
    × (pkt.id ≡ rx.rings.head)
Handed (err e, s) rx = Unit

-- What holds after a call that began with the buffers `before`, `hand` of them in the free ring or
-- out with packets: the invariant, the packet handed out, and the ledger of the buffers.
pub record RecvPost (bits free_bits : ℕ) (before : List ℕ) (hand : ℕ) (out : Received)
    : Type 0 where
  pub rx' : NethunsRing
  pub slots' : List NethunsRingSlot
  pub buffers' : List ℕ
  pub lost : List ℕ
  pub inv : RxInv bits free_bits out.1 rx' slots' buffers'
  pub handed : Handed out rx'
  pub lost_length : length lost ≡ cost out.0
  pub ledger : SameItems (lost ++ owned out.1 slots' buffers') before
  pub in_hand : cost out.0 + (length buffers' + length slots') ≡ hand
