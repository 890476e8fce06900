-- ===== src/Programs/Send.antt =====
-- examples/send.rs: one payload is sent from every socket, over and over, either copied by `send` or
-- put into all the buffers beforehand and marked by `send_slot`.
pub mod Batches
pub mod Rounds
pub mod Filled
use rust_nethuns.Common.{
  ℕ, zero, suc, ◌+◌, Bool, true, false, Option, none, some, List, [], ◌∷◌, ◌++◌, length, take, drop,
  leb, if◌then◌else◌, ◌>>=◌, Result, ok, err,
}
use rust_nethuns.Errors.{NethunsSendError, NethunsFlushError}
use rust_nethuns.Netmap.{NethunsSocketNetmap, netmap_buf, set_buf, txring_get_size}
use rust_nethuns.Netmap.Api.{NetmapApi}
use rust_nethuns.Netmap.Send.{send, send_slot, get_packet_buffer_ref}
use rust_nethuns.Netmap.Flush.{flush}
use rust_nethuns.Programs.{inc_u64}

-- `Args`, without the name of the interface.
pub record Args : Type 0 where
  pub batch_size : ℕ
  pub num_sockets : ℕ
  pub multithreading : Bool
  pub zerocopy : Bool

-- The payload of `configure_example`.
abbrev pub payload : List ℕ
payload =
    0xff ∷ 0xff ∷ 0xff ∷ 0xff ∷ 0xff ∷ 0xff ∷ 0xf0 ∷ 0xbf ∷ 0x97 ∷ 0xe2 ∷ 0xff ∷ 0xae ∷ 0x08 ∷ 0x00
    ∷ 0x45 ∷ 0x00 ∷ 0x00 ∷ 0x54 ∷ 0xb3 ∷ 0xf9 ∷ 0x40 ∷ 0x00 ∷ 0x40 ∷ 0x11 ∷ 0xf5 ∷ 0x32 ∷ 0x01
    ∷ 0x02 ∷ 0x03 ∷ 0x04 ∷ 0x05 ∷ 0x06 ∷ 0x07 ∷ 0x08 ∷ []

-- What belongs to one index of the vectors of `st_send`: the socket, the position of its next slot,
-- and its counter.
pub record Sender : Type 0 where
  pub socket : NethunsSocketNetmap
  pub pktid : ℕ
  pub total : ℕ

abbrev pub Batch : Type 0
Batch = Result (Unit {0}) NethunsFlushError × Sender

-- The first part of `transmit_zc`: `n` more slots, until one is not free.
unfoldable pub prepare_zc : ℕ → ℕ → Sender → Option Sender
unfolding send_slot
prepare_zc zero pkt_size st = some st
prepare_zc (suc n) pkt_size st = do
  (res, s) ← send_slot st.socket st.pktid pkt_size
  elim res [
    | err e ↦ some (record st { socket = s })
    | ok _ ↦
        prepare_zc n pkt_size
          (record { socket = s; pktid = inc_u64 st.pktid; total = inc_u64 st.total })
  ]

module _ (api : NetmapApi) where
  -- The last part of both: `socket.flush()?`.
  unfoldable pub send_batch : Sender → Option Batch
  unfolding flush
  send_batch st = do (res, s) ← flush api st.socket; some (res, record st { socket = s })

  unfoldable pub transmit_zc : Args → ℕ → Sender → Option Batch
  unfolding prepare_zc send_batch
  transmit_zc args pkt_size st = do st' ← prepare_zc args.batch_size pkt_size st; send_batch st'

  module _ (copy : List ℕ → List ℕ → List ℕ) where
    -- The first part of `transmit_c`: `n` more packets, until one is refused.
    unfoldable pub prepare_c : ℕ → List ℕ → Sender → Option Sender
    unfolding send
    prepare_c zero packet st = some st
    prepare_c (suc n) packet st = do
      (res, s) ← send copy st.socket packet
      elim res [
        | err e ↦ some (record st { socket = s })
        | ok _ ↦
            prepare_c n packet (record { socket = s; pktid = st.pktid; total = inc_u64 st.total })
      ]

    unfoldable pub transmit_c : Args → List ℕ → Sender → Option Batch
    unfolding prepare_c send_batch
    transmit_c args packet st = do st' ← prepare_c args.batch_size packet st; send_batch st'

    -- The body of the loop of `mt_send`, and that of the inner loop of `st_send`.
    unfoldable pub transmit_one : Args → List ℕ → Sender → Option Batch
    unfolding transmit_zc transmit_c
    transmit_one args packet st =
        if args.zerocopy then transmit_zc args (length packet) st else transmit_c args packet st

    -- The loop of `mt_send`, for the number of rounds in which the flag is not set; the first error
    -- ends it.
    unfoldable pub mt_send : ℕ → Args → List ℕ → Sender → Option Batch
    unfolding transmit_one
    mt_send zero args packet st = some (ok tt, st)
    mt_send (suc n) args packet st = do
      (res, st') ← transmit_one args packet st
      elim res [ err e ↦ some (err e, st') | ok _ ↦ mt_send n args packet st' ]

    -- One round of `st_send` over all sockets.
    unfoldable pub transmit_all :
        Args → List ℕ → List Sender → Option (Result (Unit {0}) NethunsFlushError × List Sender)
    unfolding transmit_one
    transmit_all args packet [] = some (ok tt, [])
    transmit_all args packet (st ∷ sts) = do
      (res, st') ← transmit_one args packet st
      elim res [
        | err e ↦ some (err e, st' ∷ sts)
        | ok _ ↦ do (res', sts') ← transmit_all args packet sts; some (res', st' ∷ sts')
      ]

    unfoldable pub st_send :
        ℕ → Args → List ℕ → List Sender → Option (Result (Unit {0}) NethunsFlushError × List Sender)
    unfolding transmit_all
    st_send zero args packet sts = some (ok tt, sts)
    st_send (suc n) args packet sts = do
      (res, sts') ← transmit_all args packet sts
      elim res [ err e ↦ some (err e, sts') | ok _ ↦ st_send n args packet sts' ]

-- `write_all` into a slice: whether all of the packet fits, and the slice afterwards.
unfoldable pub write_all : List ℕ → List ℕ → Bool × List ℕ
write_all buf packet =
    if leb (length packet) (length buf)
    then (true, packet ++ drop (length packet) buf)
    else (false, take (length buf) packet)

-- The loop of `fill_tx_ring` over the slots from `j` on; `none` is a panic. The answer is whether every
-- packet did fit.
unfoldable pub fill_slots :
    ℕ → ℕ → List ℕ → NethunsSocketNetmap → Option (Bool × NethunsSocketNetmap)
unfolding get_packet_buffer_ref write_all
fill_slots zero j packet s = some (true, s)
fill_slots (suc n) j packet s = do
  found ← get_packet_buffer_ref s j
  dst ← found
  let (fits, bytes) = write_all (netmap_buf s.p.nifp dst) packet
  let s' = record s { p = record (s.p) { nifp = set_buf s.p.nifp dst bytes } }
  let rest = fill_slots n (j + 1) packet s'
  if fits then rest else some (false, s')

-- `fill_tx_ring`, once the socket is bound.
unfoldable pub fill_tx_ring :
    Args → List ℕ → NethunsSocketNetmap → Option (Bool × NethunsSocketNetmap)
unfolding txring_get_size fill_slots
fill_tx_ring args packet s =
    if args.zerocopy
    then (do size ← txring_get_size s; fill_slots size 0 packet s)
    else some (true, s)
