-- ===== src/Examples/Socket.antt =====
-- A socket over the port of `Examples/Port`: calls of `recv` and releases of packets
-- (src/sockets/api/netmap/nethuns_socket.rs).
use rust_nethuns.Common.{
  ℕ, ◌+◌, ◌^◌, ◌≤◌, ◌≡◌, refl, false, none, some, List, [], ◌∷◌, map, length, err, arith,
}
use rust_nethuns.CircularQueue.{CircularQueue}
use rust_nethuns.CircularQueue.Refine.{Holds}
use rust_nethuns.Pkthdr.{default_pkthdr}
use rust_nethuns.Types.{NethunsSocketOptions, any, rx_only, in_out, default_mode}
use rust_nethuns.Errors.{NethunsRecvError}
use rust_nethuns.Ring.{NethunsRing, NethunsRingSlot, free, in_use, nethuns_ring_free_slots}
use rust_nethuns.Ring.FreeSlots.{status_at}
use rust_nethuns.Netmap.{NethunsSocketNetmap, RecvPacket}
use rust_nethuns.Netmap.Utility.{nethuns_blocks_free}
use rust_nethuns.Netmap.Outstanding.{Outstanding}
use rust_nethuns.Netmap.Reclaim.{Reclaimed, buf_of, nethuns_ring_free_slots_lem}
use rust_nethuns.Netmap.Recv.{Received, recv, drop_packet}
use rust_nethuns.Netmap.Recv.Inv.{RxInv, RecvPost, owned}
use rust_nethuns.Netmap.Recv.Total.{recv_lem}
use rust_nethuns.Netmap.Recv.Release.{drop_packet_lem}
use rust_nethuns.Netmap.Session.{Call, recv_call, drop_call, run, run_lem, filtered_bound, starved}
use rust_nethuns.Examples.Port.{port, port-IsSearchable, quiet, quiet-RxSyncLaws}

abbrev pub options : NethunsSocketOptions
options = record {
  numblocks = 1;
  numpackets = 2;
  packetsize = 4;
  timeout_ms = 0;
  dir = in_out;
  capture = default_mode;
  mode = rx_only;
  promisc = false;
  rxhash = false;
  tx_qdisc_bypass = false;
  xdp_prog = none;
  xdp_prog_sec = none;
  xsk_map_name = none;
  reuse_maps = none;
  pin_dir = none;
}

abbrev pub idle : NethunsRingSlot
idle = record {
  status = free;
  pkthdr = default_pkthdr;
  id = 0;
  len = 0;
  packet = 0 ∷ 0 ∷ 0 ∷ 0 ∷ [];
}

-- A packet in buffer 9 that the client still holds.
abbrev pub held : NethunsRingSlot
held = record idle { status = in_use; pkthdr = record default_pkthdr { buf_idx = 9 } }

-- A packet in buffer 8 that has been released.
abbrev pub released : NethunsRingSlot
released = record idle { pkthdr = record default_pkthdr { buf_idx = 8 } }

abbrev pub ring : NethunsRing
ring = record {
  pktsize = 4;
  rings = record {
    buffer = released ∷ held ∷ idle ∷ idle ∷ [];
    head = 2;
    tail = 0;
    mask = 3;
    num_items = 4;
  };
}

abbrev spent_pool : CircularQueue ℕ
spent_pool = record { buffer = 7 ∷ 6 ∷ 5 ∷ 0 ∷ []; head = 3; tail = 3; mask = 3; num_items = 4 }

abbrev pub fresh_pool : CircularQueue ℕ
fresh_pool = record { buffer = 7 ∷ 6 ∷ 0 ∷ 0 ∷ []; head = 0; tail = 2; mask = 3; num_items = 4 }

abbrev socket : NethunsRing → CircularQueue ℕ → NethunsSocketNetmap
socket rx pool = record {
  base = record {
    opt = options;
    tx_ring = none;
    rx_ring = some rx;
    devname = [];
    queue = any;
    ifindex = 1;
    filter = some (λ hdr bytes. false);
  };
  p = port;
  nr_buf_size = 2048;
  free_ring = pool;
}

ring-Outstanding : Outstanding 2 ring (released ∷ held ∷ [])
ring-Outstanding = record {
  shape = record {
    few_bits = omega arith;
    mask_eq = refl;
    length_eq = refl;
    head_lt = omega arith;
    tail_lt = omega arith;
    some_items = omega arith;
    items_le = omega arith;
  };
  counted = refl;
  cells = (refl, (refl, tt));
}

spent_pool-Holds : Holds 2 spent_pool []
spent_pool-Holds = record {
  valid = record {
    shape = record {
      few_bits = omega arith;
      mask_eq = refl;
      length_eq = refl;
      head_lt = omega arith;
      tail_lt = omega arith;
      some_items = omega arith;
      items_le = omega arith;
    };
    count_le = omega arith;
  };
  counted = refl;
  items = tt;
}

fresh_pool-Holds : Holds 2 fresh_pool (7 ∷ 6 ∷ [])
fresh_pool-Holds = record {
  valid = record {
    shape = record {
      few_bits = omega arith;
      mask_eq = refl;
      length_eq = refl;
      head_lt = omega arith;
      tail_lt = omega arith;
      some_items = omega arith;
      items_le = omega arith;
    };
    count_le = omega arith;
  };
  counted = refl;
  items = (refl, (refl, tt));
}

-- With two buffers in the free ring.
abbrev pub ready : NethunsSocketNetmap
ready = socket ring fresh_pool

-- With no buffer in the free ring, and one to be taken back.
abbrev spent : NethunsSocketNetmap
spent = socket ring spent_pool

pub ready-RxInv : RxInv 2 2 ready ring (released ∷ held ∷ []) (7 ∷ 6 ∷ [])
ready-RxInv = record {
  rx_eq = refl;
  ring = ring-Outstanding;
  pool = fresh_pool-Holds;
  room = omega arith;
  fits = omega arith;
  port = port-IsSearchable;
}

spent-RxInv : RxInv 2 2 spent ring (released ∷ held ∷ []) []
spent-RxInv = record {
  rx_eq = refl;
  ring = ring-Outstanding;
  pool = spent_pool-Holds;
  room = omega arith;
  fits = omega arith;
  port = port-IsSearchable;
}

abbrev held_packet : RecvPacket
held_packet = record { id = 2; slot = 1; buffer = 9 }

abbrev calls : List Call
calls = recv_call ∷ drop_call held_packet ∷ recv_call ∷ []

nethuns_ring_free_slots_example :
    (r' : NethunsRing) × (f' : CircularQueue ℕ) × (nethuns_ring_free_slots nethuns_blocks_free ring
        spent_pool
      ≡ some (r', f'))
    × Reclaimed 2 2 ring [] (released ∷ held ∷ []) r' f'
nethuns_ring_free_slots_example =
    nethuns_ring_free_slots_lem ring-Outstanding spent_pool-Holds (omega arith)

recv_example :
    (out : Received) × (recv quiet spent ≡ some out)
    × RecvPost 2 2 (owned spent (released ∷ held ∷ []) []) 2 out
recv_example = recv_lem quiet quiet-RxSyncLaws spent [] spent-RxInv

drop_packet_example :
    (s' : NethunsSocketNetmap) × (rx' : NethunsRing) × (slots' : List NethunsRingSlot)
    × (drop_packet ready held_packet ≡ some s')
    × RxInv 2 2 s' rx' slots' (7 ∷ 6 ∷ [])
    × (map buf_of slots' ≡ 8 ∷ 9 ∷ [])
    × (s'.p ≡ port)
    × (status_at rx' 1 ≡ some free)
drop_packet_example = drop_packet_lem held_packet ready-RxInv

run_example :
    (n : ℕ) × (s' : NethunsSocketNetmap) × (rx' : NethunsRing) × (slots' : List NethunsRingSlot)
    × (buffers' : List ℕ) × (run quiet ready calls ≡ some (n, s'))
    × RxInv 2 2 s' rx' slots' buffers'
    × (n + (length buffers' + length slots') ≡ 4)
run_example = run_lem quiet quiet-RxSyncLaws calls ready (7 ∷ 6 ∷ []) ready-RxInv

filtered_bound_example :
    (n : ℕ) × (s' : NethunsSocketNetmap) × (run quiet ready calls ≡ some (n, s')) × (n ≤ 2 ^ 2)
filtered_bound_example = filtered_bound quiet quiet-RxSyncLaws calls ready (7 ∷ 6 ∷ []) ready-RxInv

abbrev empty_ring : NethunsRing
empty_ring = record {
  pktsize = 4;
  rings = record { buffer = idle ∷ idle ∷ []; head = 0; tail = 0; mask = 1; num_items = 2 };
}

abbrev dry : NethunsSocketNetmap
dry = socket empty_ring spent_pool

dry-RxInv : RxInv 1 2 dry empty_ring [] []
dry-RxInv = record {
  rx_eq = refl;
  ring = record {
    shape = record {
      few_bits = omega arith;
      mask_eq = refl;
      length_eq = refl;
      head_lt = omega arith;
      tail_lt = omega arith;
      some_items = omega arith;
      items_le = omega arith;
    };
    counted = refl;
    cells = tt;
  };
  pool = spent_pool-Holds;
  room = omega arith;
  fits = omega arith;
  port = port-IsSearchable;
}

starved_example :
    (e : NethunsRecvError) × (s' : NethunsSocketNetmap) × (rx' : NethunsRing) × (recv quiet dry
      ≡ some (err e, s'))
    × RxInv 1 2 s' rx' [] []
starved_example = starved quiet quiet-RxSyncLaws dry dry-RxInv
