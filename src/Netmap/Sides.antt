-- ===== src/Netmap/Sides.antt =====
-- The two sides of a socket (src/sockets/api/netmap/nethuns_socket.rs) between the calls of a program,
-- and what the calls of a receiving program leave of them.
use rust_nethuns.Common.{ℕ, ◌+◌, ◌≤◌, ◌≡◌, ◌∙◌, sym, ap, some, List, length, length-map, arith}
use rust_nethuns.Common.Counts.{SameItems}
use rust_nethuns.Ring.{NethunsRing, NethunsRingSlot}
use rust_nethuns.Netmap.{NethunsSocketNetmap, RecvPacket}
use rust_nethuns.Netmap.Api.{NetmapApi, RxSyncLaws}
use rust_nethuns.Netmap.Reclaim.{buf_of}
use rust_nethuns.Netmap.Recv.{Received, recv, drop_packet}
use rust_nethuns.Netmap.Recv.Inv.{RxInv}
use rust_nethuns.Netmap.Recv.Total.{recv_lem}
use rust_nethuns.Netmap.Recv.Release.{drop_packet_lem}
use rust_nethuns.Netmap.Flush.Total.{TxReady, tx_owned}

-- A socket that is ready to transmit and has the buffers `before`.
pub record Ready (api : NetmapApi) (bits : ℕ) (before : List ℕ) (s : NethunsSocketNetmap)
    : Type 0 where
  pub tx : NethunsRing
  pub tails : List ℕ
  pub inv : TxReady api bits s tx tails
  pub same : SameItems (tx_owned s tx) before

-- A socket that receives, with at most so many buffers in hand.
pub record Receiving (bits free_bits : ℕ) (hand : ℕ) (s : NethunsSocketNetmap) : Type 0 where
  pub rx : NethunsRing
  pub slots : List NethunsRingSlot
  pub buffers : List ℕ
  pub inv : RxInv bits free_bits s rx slots buffers
  pub at_most : length buffers + length slots ≤ hand

module _ {bits free_bits hand : ℕ} where
  -- Receiving keeps a socket receiving, whatever it answers.
  pub recv-Receiving :
      (api : NetmapApi) (laws : RxSyncLaws api) {s : NethunsSocketNetmap}
      → Receiving bits free_bits hand s
      → (out : Received) × (recv api s ≡ some out) × Receiving bits free_bits hand out.1
  recv-Receiving api laws {s} r =
      let (out, run, post) = recv_lem api laws s r.buffers r.inv in
      (
        out,
        run,
        record {
          rx = post.rx';
          slots = post.slots';
          buffers = post.buffers';
          inv = post.inv;
          at_most = omega (arith, post.in_hand, r.at_most);
        },
      )

  -- Dropping a packet keeps a socket receiving.
  pub drop_packet-Receiving :
      (pkt : RecvPacket) {s : NethunsSocketNetmap}
      → Receiving bits free_bits hand s
      → (s' : NethunsSocketNetmap) × (drop_packet s pkt ≡ some s')
        × Receiving bits free_bits hand s'
  drop_packet-Receiving pkt r =
      let (s', rx', slots', run, v, same, _, _) = drop_packet_lem pkt r.inv in
      let same_length : length slots' ≡ length r.slots =
        sym (length-map buf_of slots') ∙ ap length same ∙ length-map buf_of r.slots in
      (
        s',
        run,
        record {
          rx = rx';
          slots = slots';
          buffers = r.buffers;
          inv = v;
          at_most = omega (arith, r.at_most, same_length);
        },
      )
