-- ===== src/Netmap.antt =====
-- The state of src/sockets/api/netmap and src/sockets/base.rs: the netmap port that the kernel
-- shares with the process (lib/netmap/src), and the socket over it.
-- A pointer into a ring, a slot or a buffer is the index of what it points to.
pub mod Utility
pub mod RingSearch
pub mod Outstanding
pub mod Reclaim
pub mod Api
pub mod Recv
pub mod Session
pub mod FreeList
pub mod Bind
pub mod Send
pub mod Close
pub mod Flush
pub mod Transmit
pub mod Lifetime
pub mod Startup
pub mod Sides
pub mod Duplex
use rust_nethuns.Common.{
  ℕ, ◌+◌, ◌==◌, Bool, true, false, Option, none, some, List, length, get_elem?, set, leb, ltb,
  if◌then◌else◌, ◌>>=◌, Result, ok, err,
}
use rust_nethuns.CircularQueue.{CircularQueue}
use rust_nethuns.Types.{NethunsQueue, NethunsSocketOptions, NethunsStat}
use rust_nethuns.Pkthdr.{Pkthdr, Timeval}
use rust_nethuns.Ring.{NethunsRing}
use rust_nethuns.Ring

-- `netmap_slot`. `ptr` is null, or points to the slot of the transmission ring with that position.
pub record NetmapSlot : Type 0 where
  pub buf_idx : ℕ
  pub len : ℕ
  pub flags : ℕ
  pub ptr : Option ℕ

-- `netmap_ring`; its `num_slots` is the length of `slots`.
pub record NetmapRing : Type 0 where
  pub head : ℕ
  pub cur : ℕ
  pub tail : ℕ
  pub ts : Timeval
  pub nr_buf_size : ℕ
  pub slots : List NetmapSlot

-- `netmap_if` with its rings, and the memory of the packet buffers, by buffer index.
pub record NetmapIf : Type 0 where
  pub tx_rings : List NetmapRing
  pub rx_rings : List NetmapRing
  pub ni_bufs_head : ℕ
  pub buffers : ℕ → List ℕ

-- `nmport_d`, as far as the program reads it.
pub record NmPortDescriptor : Type 0 where
  pub first_tx_ring : ℕ
  pub last_tx_ring : ℕ
  pub first_rx_ring : ℕ
  pub last_rx_ring : ℕ
  pub cur_rx_ring : ℕ
  pub nifp : NetmapIf

-- `NethunsFilter`: whether a packet with that header and those bytes is received.
abbrev pub NethunsFilter : Type 0
NethunsFilter = Pkthdr → List ℕ → Bool

pub record NethunsSocketBase : Type 0 where
  pub opt : NethunsSocketOptions
  pub tx_ring : Option NethunsRing
  pub rx_ring : Option NethunsRing
  pub devname : List ℕ
  pub queue : NethunsQueue
  pub ifindex : ℕ
  pub filter : Option NethunsFilter

-- `NethunsSocketNetmap`. `some_ring` gives the address and the size of the buffers, which all rings
-- of a port share: the memory in `p.nifp`, and this size.
pub record NethunsSocketNetmap : Type 0 where
  pub base : NethunsSocketBase
  pub p : NmPortDescriptor
  pub nr_buf_size : ℕ
  pub free_ring : CircularQueue ℕ

-- `RecvPacket`: the header and the status flag are references into the slot `slot` of the
-- reception ring, the bytes are those of a netmap buffer.
pub record RecvPacket : Type 0 where
  pub id : ℕ
  pub slot : ℕ
  pub buffer : ℕ

-- The bytes of the buffer with that index. The address is computed from the index, which nothing
-- checks: that an index in a slot or in the list of extra buffers names a buffer is up to netmap, and
-- no theorem says it.
abbrev pub netmap_buf : NetmapIf → ℕ → List ℕ
netmap_buf nifp index = nifp.buffers index

abbrev pub set_buf : NetmapIf → ℕ → List ℕ → NetmapIf
set_buf nifp index bytes = record nifp {
  buffers = λ j. if index == j then bytes else nifp.buffers j;
}

-- `netmap_rxring` and `netmap_txring`: an index out of bounds panics, and the address of a ring is
-- never null.
unfoldable pub netmap_rxring : NetmapIf → ℕ → Option NetmapRing
netmap_rxring nifp index = get_elem? nifp.rx_rings index

unfoldable pub netmap_txring : NetmapIf → ℕ → Option NetmapRing
netmap_txring nifp index = get_elem? nifp.tx_rings index

-- What is stored through the address of a ring.
abbrev pub set_rxring : NetmapIf → ℕ → NetmapRing → NetmapIf
set_rxring nifp index ring = record nifp { rx_rings = set nifp.rx_rings index ring }

abbrev pub set_txring : NetmapIf → ℕ → NetmapRing → NetmapIf
set_txring nifp index ring = record nifp { tx_rings = set nifp.tx_rings index ring }

unfoldable pub nm_ring_empty : NetmapRing → Bool
nm_ring_empty ring = ring.head == ring.tail

-- `NetmapRing::get_slot`: an error for an index out of bounds.
unfoldable pub get_slot : {E : Type 0} → NetmapRing → ℕ → E → Result NetmapSlot E
get_slot ring index e = elim (get_elem? ring.slots index) [ none ↦ err e | some slot ↦ ok slot ]

abbrev pub set_netmap_slot : NetmapRing → ℕ → NetmapSlot → NetmapRing
set_netmap_slot ring index slot = record ring { slots = set ring.slots index slot }

-- src/sockets.rs and src/sockets/api.rs: the directions of a socket, and its ring sizes.
unfoldable pub rx : NethunsSocketBase → Bool
rx base = elim base.rx_ring [ none ↦ false | some _ ↦ true ]

unfoldable pub tx : NethunsSocketBase → Bool
tx base = elim base.tx_ring [ none ↦ false | some _ ↦ true ]

unfoldable pub rxring_get_size : NethunsSocketNetmap → Option ℕ
unfolding Ring.size
rxring_get_size s = elim s.base.rx_ring [ none ↦ none | some r ↦ some (Ring.size r) ]

unfoldable pub txring_get_size : NethunsSocketNetmap → Option ℕ
unfolding Ring.size
txring_get_size s = elim s.base.tx_ring [ none ↦ none | some r ↦ some (Ring.size r) ]

unfoldable pub set_filter : NethunsSocketNetmap → Option NethunsFilter → NethunsSocketNetmap
set_filter s filter = record s { base = record (s.base) { filter = filter } }
