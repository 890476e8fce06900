-- ===== src/Examples/Closing.antt =====
-- A run of `drop` of src/sockets/api/netmap/nethuns_socket.rs: two buffers of transmission slots and
-- two of the free ring go back to an empty list.
use rust_nethuns.Common.{ℕ, ◌≡◌, refl, none, some, [], ◌∷◌, arith}
use rust_nethuns.CircularQueue.Refine.{Holds}
use rust_nethuns.Pkthdr.{default_pkthdr}
use rust_nethuns.Types.{any}
use rust_nethuns.Ring
use rust_nethuns.Ring.{NethunsRing, NethunsRingSlot}
use rust_nethuns.Netmap.{NethunsSocketNetmap}
use rust_nethuns.Netmap.FreeList.Chains.{Chain}
use rust_nethuns.Netmap.Close.{drop_socket, drop_socket_lem, leave_promisc}
use rust_nethuns.Examples.Port.{port}
use rust_nethuns.Examples.Modes.{one_interface, at_first}
use rust_nethuns.Examples.Socket.{options, idle}
use rust_nethuns.Examples.Lists.{empty_list, two_buffers, two_buffers-Holds}

abbrev slot_of : ℕ → NethunsRingSlot
slot_of index = record idle { pkthdr = record default_pkthdr { buf_idx = index } }

abbrev tx : NethunsRing
tx = record {
  pktsize = 4;
  rings = record {
    buffer = slot_of 4 ∷ slot_of 5 ∷ [];
    head = 0;
    tail = 0;
    mask = 1;
    num_items = 2;
  };
}

abbrev closing : NethunsSocketNetmap
closing = record {
  base = record {
    opt = options;
    tx_ring = some tx;
    rx_ring = none;
    devname = [];
    queue = any;
    ifindex = 1;
    filter = none;
  };
  p = record port { nifp = empty_list };
  nr_buf_size = 5;
  free_ring = two_buffers;
}

drop_socket_example :
    (s' : NethunsSocketNetmap) × (drop_socket one_interface closing at_first ≡ some (s', at_first))
    × Holds 1 s'.free_ring []
    × Chain s'.p.nifp s'.p.nifp.ni_bufs_head (6 ∷ 7 ∷ 5 ∷ 4 ∷ [])
unfolding Ring.size Ring.get_slot leave_promisc
drop_socket_example =
    drop_socket_lem one_interface closing at_first at_first tx (4 ∷ 5 ∷ []) (7 ∷ 6 ∷ []) [] refl
      refl refl ((slot_of 4, refl, refl), ((slot_of 5, refl, refl), tt)) two_buffers-Holds
      (
        (omega arith, omega arith, omega arith),
        tt,
        (
          (omega arith, omega arith, omega arith),
          (omega arith, tt),
          (
            (omega arith, omega arith, omega arith),
            (omega arith, (omega arith, tt)),
            (
              (omega arith, omega arith, omega arith),
              (omega arith, (omega arith, (omega arith, tt))),
              tt,
            ),
          ),
        ),
      )
      (omega arith) refl
