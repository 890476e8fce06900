-- ===== src/Examples/Port.antt =====
-- A netmap port of two reception rings, the first of them with a packet: its search
-- (src/sockets/api/netmap/utility.rs), and a netmap library that changes nothing of it.
use rust_nethuns.Common.{
  ℕ, ◌+◌, ◌≡◌, ◌==◌, refl, true, none, some, [], ◌∷◌, length, if◌then◌else◌, arith,
}
use rust_nethuns.Netmap.{NetmapSlot, NetmapRing, NmPortDescriptor}
use rust_nethuns.Netmap.Api.{NetmapApi, RxSyncLaws}
use rust_nethuns.Netmap.RingSearch.{
  IsSearchable, first_with_packets, search_order, non_empty_rx_ring_lem,
}
use rust_nethuns.Netmap.Utility.{non_empty_rx_ring}

abbrev pub cell : ℕ → NetmapSlot
cell index = record { buf_idx = index; len = 60; flags = 0; ptr = none }

abbrev pub packets : NetmapRing
packets = record {
  head = 0;
  cur = 0;
  tail = 1;
  ts = record { tv_sec = 5; tv_usec = 6 };
  nr_buf_size = 2048;
  slots = cell 1 ∷ cell 2 ∷ [];
}

abbrev no_packets : NetmapRing
no_packets = record {
  head = 1;
  cur = 1;
  tail = 1;
  ts = record { tv_sec = 5; tv_usec = 6 };
  nr_buf_size = 2048;
  slots = cell 3 ∷ cell 4 ∷ [];
}

abbrev pub port : NmPortDescriptor
port = record {
  first_tx_ring = 0;
  last_tx_ring = 0;
  first_rx_ring = 0;
  last_rx_ring = 1;
  cur_rx_ring = 1;
  nifp = record {
    tx_rings = no_packets ∷ [];
    rx_rings = packets ∷ no_packets ∷ [];
    ni_bufs_head = 0;
    buffers = λ index. index ∷ 0 ∷ 0 ∷ 0 ∷ 0 ∷ [];
  };
}

pub port-IsSearchable : IsSearchable port
port-IsSearchable = record {
  first_le = omega arith;
  le_last = omega arith;
  in_bounds = omega arith;
}

-- A library whose synchronisations bring nothing new.
abbrev pub quiet : NetmapApi
quiet = record {
  nm_ring_next = λ ring i. if i + 1 == length ring.slots then 0 else i + 1;
  ns_buf_changed = 1;
  rx_sync = λ d. d;
  tx_sync = λ d. (true, d);
}

pub quiet-RxSyncLaws : RxSyncLaws quiet
quiet-RxSyncLaws = record {
  same_first = λ d. refl;
  same_last = λ d. refl;
  same_cur = λ d. refl;
  same_rings = λ d. refl;
  same_bufs = λ d. refl;
}

non_empty_rx_ring_example :
    non_empty_rx_ring port ≡ some (first_with_packets port (search_order port))
non_empty_rx_ring_example = non_empty_rx_ring_lem port port-IsSearchable
