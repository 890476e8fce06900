-- ===== src/Netmap/Recv.antt =====
-- `recv` of src/sockets/api/netmap/nethuns_socket.rs, and the release of a received packet
-- (`RecvPacket::drop` of src/sockets/base.rs).
pub mod Inv
pub mod Stages
pub mod TakePacket
pub mod Total
pub mod Release
use rust_nethuns.Common.{
  ℕ, min, Bool, true, false, Option, none, some, if◌then◌else◌, ◌>>=◌, Result, ok, err, bit_or,
}
use rust_nethuns.CircularQueue.{CircularQueue}
use rust_nethuns.CircularQueue
use rust_nethuns.Pkthdr.{Pkthdr}
use rust_nethuns.Ring.{NethunsRing, NethunsRingSlot, RingSlotStatus, free, in_use, is_free}
use rust_nethuns.Ring
use rust_nethuns.Errors.{NethunsRecvError}
use rust_nethuns.Netmap.{
  NetmapSlot, NetmapRing, NmPortDescriptor, NethunsSocketNetmap, RecvPacket, netmap_buf,
  netmap_rxring, set_rxring, get_slot, set_netmap_slot,
}
use rust_nethuns.Netmap.Api.{NetmapApi}
use rust_nethuns.Netmap.Utility.{non_empty_rx_ring, nethuns_blocks_free}

abbrev pub Received : Type 0
Received = Result RecvPacket NethunsRecvError × NethunsSocketNetmap

abbrev pub fail : NethunsRecvError → NethunsSocketNetmap → Option Received
fail e s = some (err e, s)

abbrev pub with_rx : NethunsSocketNetmap → NethunsRing → NethunsSocketNetmap
with_rx s rx = record s { base = record (s.base) { rx_ring = some rx } }

-- `nethuns_ring_free_slots!(self, rx_ring, nethuns_blocks_free)`
unfoldable pub reclaim :
    NethunsSocketNetmap → NethunsRing → Option (NethunsSocketNetmap × NethunsRing)
unfolding Ring.nethuns_ring_free_slots nethuns_blocks_free
reclaim s rx = do
  (rx', free') ← Ring.nethuns_ring_free_slots nethuns_blocks_free rx s.free_ring
  some (record (with_rx s rx') { free_ring = free' }, rx')

-- Whether the filter turns the packet down.
unfoldable pub filtered_out : NethunsSocketNetmap → Pkthdr → ℕ → Bool
filtered_out s hdr buf = elim s.base.filter [
  | none ↦ false
  | some filter ↦ if filter hdr (netmap_buf s.p.nifp buf) then false else true
]

-- The header of a packet, as the ring slot keeps it.
abbrev pub header_of : NetmapRing → NetmapSlot → Pkthdr
header_of ring slot = record {
  ts = ring.ts;
  len = slot.len;
  caplen = slot.len;
  buf_idx = slot.buf_idx;
}

-- The head slot of a packet that passes the filter.
abbrev pub taken_slot : NethunsSocketNetmap → NethunsRingSlot → NethunsRingSlot
taken_slot s slot = record slot {
  pkthdr = record (slot.pkthdr) { caplen = min s.base.opt.packetsize slot.pkthdr.caplen };
  status = in_use;
}

-- The end of `recv`, for a packet that passes the filter: the slot is taken and the head advances.
unfoldable pub deliver : NethunsSocketNetmap → NethunsRing → NethunsRingSlot → Option Received
unfolding Ring.set_slot Ring.advance_head
deliver s rx slot = do
  rx' ← Ring.set_slot rx (Ring.head rx) (taken_slot s slot)
  let rx'' = Ring.advance_head rx'
  some (
    ok (record { id = Ring.head rx''; slot = Ring.head rx; buffer = slot.pkthdr.buf_idx }),
    with_rx s rx'',
  )

-- The end of `recv`, for a packet that the filter turns down.
unfoldable pub discard : NethunsSocketNetmap → NethunsRing → Option Received
unfolding reclaim
discard s rx = do (s', rx') ← reclaim s rx; fail NethunsRecvError.packet_filtered s'

module _ (api : NetmapApi) where
  -- The first search, and the one after a synchronisation if it fails.
  unfoldable pub find_ring :
      NmPortDescriptor → Option (Result ℕ NethunsRecvError × NmPortDescriptor)
  unfolding non_empty_rx_ring
  find_ring p = do
    (found, p') ← non_empty_rx_ring p
    elim found [ ok ri ↦ some (ok ri, p') | err e ↦ non_empty_rx_ring (api.rx_sync p') ]

  -- From the ring slot `cur` of netmap ring `ri`: the packet's buffer goes to the head slot, and a
  -- buffer of the free ring takes its place.
  unfoldable pub take_packet : NethunsSocketNetmap → NethunsRing → ℕ → Option Received
  unfolding netmap_rxring get_slot Ring.get_slot Ring.set_slot CircularQueue.clone_pop_unchecked
      filtered_out deliver discard
  take_packet s rx ri = do
    ring ← netmap_rxring s.p.nifp ri
    elim (get_slot ring ring.cur NethunsRecvError.error) [
      | err e ↦ fail e s
      | ok cur_slot ↦ do
        slot ← Ring.get_slot rx (Ring.head rx)
        let slot' = record slot { pkthdr = header_of ring cur_slot }
        rx' ← Ring.set_slot rx (Ring.head rx) slot'
        (new_buf, free') ← CircularQueue.clone_pop_unchecked s.free_ring
        let next = api.nm_ring_next ring ring.cur
        let ring' =
            record (set_netmap_slot ring ring.cur (record cur_slot {
              buf_idx = new_buf;
              flags = bit_or cur_slot.flags api.ns_buf_changed;
            })) { cur = next; head = next }
        let s' = record (with_rx s rx') {
          free_ring = free';
          p = record (s.p) { nifp = set_rxring s.p.nifp ri ring' };
        }
        if filtered_out s' slot'.pkthdr cur_slot.buf_idx
            then discard s' rx'
            else deliver s' rx' slot'
    ]

  -- With a buffer at hand: find a packet and take it.
  unfoldable pub recv_packet : NethunsSocketNetmap → NethunsRing → Option Received
  unfolding find_ring take_packet
  recv_packet s rx = do
    (found, p') ← find_ring s.p
    let s' = record s { p = p' }
    elim found [ err e ↦ fail e s' | ok ri ↦ take_packet s' rx ri ]

  -- The buffers of released packets are taken back only when the free ring has none left.
  unfoldable pub recv_refill : NethunsSocketNetmap → NethunsRing → Option Received
  unfolding CircularQueue.is_empty reclaim recv_packet
  recv_refill s rx =
      if CircularQueue.is_empty s.free_ring
      then (do
        (s', rx') ← reclaim s rx
        if CircularQueue.is_empty s'.free_ring
            then fail NethunsRecvError.no_packets_available s'
            else recv_packet s' rx')
      else recv_packet s rx

  -- The first tests of `recv`, on the socket's reception ring.
  unfoldable pub recv_on : NethunsSocketNetmap → Option NethunsRing → Option Received
  unfolding Ring.get_slot is_free recv_refill
  recv_on s none = fail NethunsRecvError.not_rx s
  recv_on s (some rx) = do
    slot ← Ring.get_slot rx (Ring.head rx)
    if is_free slot.status then recv_refill s rx else fail NethunsRecvError.in_use s

  unfoldable pub recv : NethunsSocketNetmap → Option Received
  unfolding recv_on
  recv s = recv_on s s.base.rx_ring

-- `RecvPacket::drop`: the slot's status becomes free, through the reference that the packet holds.
unfoldable pub drop_on :
    NethunsSocketNetmap → RecvPacket → Option NethunsRing → Option NethunsSocketNetmap
unfolding Ring.get_slot Ring.set_slot
drop_on s pkt none = none
drop_on s pkt (some rx) = do
  slot ← Ring.get_slot rx pkt.slot
  rx' ← Ring.set_slot rx pkt.slot (record slot { status = free })
  some (with_rx s rx')

unfoldable pub drop_packet : NethunsSocketNetmap → RecvPacket → Option NethunsSocketNetmap
unfolding drop_on
drop_packet s pkt = drop_on s pkt s.base.rx_ring
