-- ===== src/Netmap/Duplex.antt =====
-- A socket of both directions (src/sockets/api/netmap/nethuns_socket.rs): its reception and its
-- transmission do not get in each other's way.
pub mod Reception
pub mod Transmission
pub mod Client
use rust_nethuns.Common.{ℕ, ◌≡◌, Option, List}
use rust_nethuns.CircularQueue.{CircularQueue}
use rust_nethuns.Ring.{NethunsRing}
use rust_nethuns.Netmap.{NetmapRing, NmPortDescriptor, NethunsSocketNetmap}
use rust_nethuns.Netmap.Api.{NetmapApi}

-- What the transmission reads of a port, and of a socket but for the buffers' bytes.
abbrev pub tx_port : NmPortDescriptor → List NetmapRing × ℕ × ℕ
tx_port d = (d.nifp.tx_rings, d.first_tx_ring, d.last_tx_ring)

abbrev pub tx_side : NethunsSocketNetmap → Option NethunsRing × ℕ × (List NetmapRing × ℕ × ℕ)
tx_side s = (s.base.tx_ring, s.nr_buf_size, tx_port s.p)

-- The same for the reception.
abbrev pub rx_port : NmPortDescriptor → List NetmapRing × ℕ × ℕ × ℕ
rx_port d = (d.nifp.rx_rings, d.first_rx_ring, d.last_rx_ring, d.cur_rx_ring)

abbrev pub rx_side :
    NethunsSocketNetmap → Option NethunsRing × CircularQueue ℕ × (List NetmapRing × ℕ × ℕ × ℕ)
rx_side s = (s.base.rx_ring, s.free_ring, rx_port s.p)

-- A synchronisation of one direction leaves what belongs to the other one.
pub record SyncsApart (api : NetmapApi) : Type 0 where
  pub rx_apart : (d : NmPortDescriptor) → tx_port (api.rx_sync d) ≡ tx_port d
  pub tx_apart : (d : NmPortDescriptor) → rx_port (api.tx_sync d).1 ≡ rx_port d
