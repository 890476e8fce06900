-- ===== src/Examples/Opening.antt =====
-- Runs of `open` and `bind` of src/sockets/api/netmap/bindable_socket.rs.
use rust_nethuns.Common.{ℕ, ◌+◌, ◌≡◌, inr, refl, false, none, some, List, [], ◌∷◌}
use rust_nethuns.Types.{
  NethunsSocketOptions, NethunsSocketMode, any, rx_tx, rx_only, in_out, default_mode,
}
use rust_nethuns.Netmap.{NethunsSocketBase, netmap_rxring, rx, tx}
use rust_nethuns.Netmap.Bind.{
  BindApi, open_socket, base_with, bind, extra_bufs, port_name, has_nul, is_vale, mode_flags,
}
use rust_nethuns.Netmap.Bind.Modes.{new_ring, open_socket-zero, extra_bufs-one_way, bind-one_way}
use rust_nethuns.Examples.Port.{port}
use rust_nethuns.Examples.Modes.{one_interface, at_first}

abbrev options : NethunsSocketMode → ℕ → NethunsSocketOptions
options mode numpackets = record {
  numblocks = 1;
  numpackets = numpackets;
  packetsize = 4;
  timeout_ms = 0;
  dir = in_out;
  capture = default_mode;
  mode = mode;
  promisc = false;
  rxhash = false;
  tx_qdisc_bypass = false;
  xdp_prog = none;
  xdp_prog_sec = none;
  xsk_map_name = none;
  reuse_maps = none;
  pin_dir = none;
}

abbrev receiver : NethunsSocketBase
receiver = base_with (options rx_only 2) none (some (new_ring (options rx_only 2) 1))

abbrev pub dev : List ℕ
dev = b'e' ∷ b't' ∷ b'h' ∷ b'0' ∷ []

-- A system that has the port and grants every buffer.
abbrev pub api : BindApi
api = record {
  decimal = λ n. (n + b'0') ∷ [];
  prepare = λ name. some port;
  open_desc = λ d n. some (n, d);
  if_nametoindex = λ name. 1;
}

open_socket-zero_example : open_socket (options rx_tx 0) ≡ none
open_socket-zero_example = open_socket-zero (options rx_tx 0) refl

extra_bufs-one_way_example : extra_bufs receiver ≡ 0
extra_bufs-one_way_example = extra_bufs-one_way receiver (inr refl)

bind-one_way_example : bind one_interface api receiver dev any at_first ≡ none
unfolding port_name has_nul is_vale mode_flags rx tx netmap_rxring
bind-one_way_example =
    bind-one_way one_interface api receiver dev any at_first port port _ (inr refl) refl refl refl
      refl refl
