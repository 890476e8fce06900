-- ===== src/Netmap/Send.antt =====
-- `send`, `send_slot` and `get_packet_buffer_ref` of src/sockets/api/netmap/nethuns_socket.rs: a
-- packet is copied into the buffer of the slot at the tail of the transmission ring, which is marked
-- for sending.
pub mod Queued
use rust_nethuns.Common.{
  ℕ, Bool, true, false, Option, none, some, List, length, ltb, if◌then◌else◌, ◌>>=◌, Result, ok,
  err,
}
use rust_nethuns.Ring.{NethunsRing, NethunsRingSlot, is_free}
use rust_nethuns.Ring
use rust_nethuns.Errors.{NethunsSendError}
use rust_nethuns.Netmap.{NethunsSocketNetmap, netmap_buf, set_buf}

abbrev pub Sent : Type 0
Sent = Result (Unit {0}) NethunsSendError × NethunsSocketNetmap

abbrev pub with_tx : NethunsSocketNetmap → NethunsRing → NethunsSocketNetmap
with_tx s tx = record s { base = record (s.base) { tx_ring = some tx } }

-- The macro `nethuns_get_buf_addr_netmap`: the index of the buffer, whose size is that of all
-- buffers of the port.
unfoldable pub nethuns_get_buf_addr : NethunsRing → ℕ → Option ℕ
unfolding Ring.get_slot
nethuns_get_buf_addr tx pktid = do slot ← Ring.get_slot tx pktid; some slot.pkthdr.buf_idx

-- `copy dst packet` is what `nm_pkt_copy` of the netmap headers leaves in `dst`.
module _ (copy : List ℕ → List ℕ → List ℕ) where
  -- The end of `send`, for a slot that is free and a packet that fits.
  unfoldable pub put_packet : NethunsSocketNetmap → NethunsRing → List ℕ → Option Sent
  unfolding nethuns_get_buf_addr Ring.nethuns_send_slot Ring.advance_tail
  put_packet s tx packet = do
    dst ← nethuns_get_buf_addr tx (Ring.tail tx)
    (done, tx') ← Ring.nethuns_send_slot tx (Ring.tail tx) (length packet)
    some (
      ok tt,
      with_tx
          (record s {
            p = record (s.p) {
              nifp = set_buf s.p.nifp dst (copy (netmap_buf s.p.nifp dst) packet);
            };
          })
          (Ring.advance_tail tx'),
    )

  unfoldable pub send_on : NethunsSocketNetmap → List ℕ → Option NethunsRing → Option Sent
  unfolding Ring.get_slot is_free put_packet
  send_on s packet none = some (err NethunsSendError.not_tx, s)
  send_on s packet (some tx) = do
    slot ← Ring.get_slot tx (Ring.tail tx)
    if is_free slot.status
        then (if ltb s.nr_buf_size (length packet)
            then some (err (NethunsSendError.invalid_packet_size s.nr_buf_size (length packet)), s)
            else put_packet s tx packet)
        else some (err NethunsSendError.in_use, s)

  unfoldable pub send : NethunsSocketNetmap → List ℕ → Option Sent
  unfolding send_on
  send s packet = send_on s packet s.base.tx_ring

unfoldable pub send_slot_on : NethunsSocketNetmap → ℕ → ℕ → Option NethunsRing → Option Sent
unfolding Ring.nethuns_send_slot
send_slot_on s id len none = some (err NethunsSendError.not_tx, s)
send_slot_on s id len (some tx) = do
  (done, tx') ← Ring.nethuns_send_slot tx id len
  if done then some (ok tt, with_tx s tx') else some (err NethunsSendError.in_use, with_tx s tx')

unfoldable pub send_slot : NethunsSocketNetmap → ℕ → ℕ → Option Sent
unfolding send_slot_on
send_slot s id len = send_slot_on s id len s.base.tx_ring

-- `get_packet_buffer_ref`: the buffer of a slot, if the socket transmits.
unfoldable pub buffer_ref_on : ℕ → Option NethunsRing → Option (Option ℕ)
unfolding nethuns_get_buf_addr
buffer_ref_on pktid none = some none
buffer_ref_on pktid (some tx) = do dst ← nethuns_get_buf_addr tx pktid; some (some dst)

unfoldable pub get_packet_buffer_ref : NethunsSocketNetmap → ℕ → Option (Option ℕ)
unfolding buffer_ref_on
get_packet_buffer_ref s pktid = buffer_ref_on pktid s.base.tx_ring
