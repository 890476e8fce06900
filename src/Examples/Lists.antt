-- ===== src/Examples/Lists.antt =====
-- A memory without extra buffers, and a free ring of two, which a socket gives back in `drop`
-- (src/sockets/api/netmap/nethuns_socket.rs).
use rust_nethuns.Common.{ℕ, refl, [], ◌∷◌, arith}
use rust_nethuns.CircularQueue.{CircularQueue}
use rust_nethuns.CircularQueue.Refine.{Holds}
use rust_nethuns.Netmap.{NetmapIf}

abbrev pub empty_list : NetmapIf
empty_list = record {
  tx_rings = [];
  rx_rings = [];
  ni_bufs_head = 0;
  buffers = λ index. 0 ∷ 0 ∷ 0 ∷ 0 ∷ 0 ∷ [];
}

abbrev pub two_buffers : CircularQueue ℕ
two_buffers = record { buffer = 7 ∷ 6 ∷ []; head = 0; tail = 2; mask = 1; num_items = 2 }

pub two_buffers-Holds : Holds 1 two_buffers (7 ∷ 6 ∷ [])
two_buffers-Holds = record {
  valid = record {
    shape = record {
      few_bits = omega arith;
      mask_eq = refl;
      length_eq = refl;
      head_lt = omega arith;
      tail_lt = omega arith;
      some_items = omega arith;
      items_le = omega arith;
    };
    count_le = omega arith;
  };
  counted = refl;
  items = (refl, (refl, tt));
}
