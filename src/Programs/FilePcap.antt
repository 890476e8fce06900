-- ===== src/Programs/FilePcap.antt =====
-- examples/file-pcap.rs: the packets of a file are read and counted, or packets are captured and stored
-- in a file. What the program prints is left out.
pub mod Counting
pub mod Capturing
use rust_nethuns.Common.{
  ℕ, zero, suc, ◌+◌, ◌%◌, ◌^◌, false, Option, none, some, List, [], ◌∷◌, ◌>>=◌, Result, ok, err,
}
use rust_nethuns.Types.{NethunsSocketOptions, in_out, default_mode, rx_tx}
use rust_nethuns.Errors.{NethunsPcapReadError, NethunsPcapStoreError}
use rust_nethuns.Pkthdr.{Pkthdr}
use rust_nethuns.Ring.{NethunsRing}
use rust_nethuns.Ring
use rust_nethuns.Netmap.{NethunsSocketNetmap, RecvPacket}
use rust_nethuns.Netmap.Api.{NetmapApi}
use rust_nethuns.Netmap.Recv.{recv, drop_packet}
use rust_nethuns.Programs.Forward.{buffer}
use rust_nethuns.Pcap.{NethunsSocketPcap}
use rust_nethuns.Pcap.Reader.{FileSystem, open_pcap, read, release}
use rust_nethuns.Pcap.Store.{answers, store}
use rust_nethuns.Programs.{inc_u64}

-- The options of both modes.
abbrev pub options : NethunsSocketOptions
options = record {
  numblocks = 1;
  numpackets = 1024;
  packetsize = 2048;
  timeout_ms = 0;
  dir = in_out;
  capture = default_mode;
  mode = rx_tx;
  promisc = false;
  rxhash = false;
  tx_qdisc_bypass = false;
  xdp_prog = none;
  xdp_prog_sec = none;
  xsk_map_name = none;
  reuse_maps = none;
  pin_dir = none;
}

-- The counters when the loop breaks; `none` if it is still in its rounds.
abbrev pub Totals : Type 0
Totals = Option (ℕ × ℕ)

-- An error is the end of the file, or it is counted and the loop goes on.
unfoldable pub after_error : NethunsPcapReadError → ℕ → ℕ → (ℕ → Option Totals) → Option Totals
after_error NethunsPcapReadError.eof total errors again = some (some (total, errors))
after_error e total errors again = again (inc_u64 errors)

-- The loop of `run_read_count_mode`, for a number of rounds. A packet is dropped at the end of its
-- round.
unfoldable pub count_loop : ℕ → NethunsSocketPcap → ℕ → ℕ → Option Totals
unfolding read release after_error
count_loop zero s total errors = some none
count_loop (suc rounds) s total errors = do
  (res, s') ← read s
  elim res [
    | err e ↦ after_error e total errors (λ errors'. count_loop rounds s' total errors')
    | ok pkt ↦ do s'' ← release s' pkt; count_loop rounds s'' (inc_u64 total) errors
  ]

-- `expect` panics on a file that does not open.
unfoldable pub run_read_count_mode : ℕ → FileSystem → List ℕ → Option Totals
unfolding open_pcap count_loop
run_read_count_mode rounds fs filename = do
  opened ← open_pcap fs options filename false
  elim opened [ err e ↦ none | ok s ↦ count_loop rounds s 0 0 ]

-- `pkt.pkthdr()`: the header in the slot of the packet.
unfoldable pub pkthdr_on : RecvPacket → Option NethunsRing → Option Pkthdr
unfolding Ring.get_slot
pkthdr_on pkt none = none
pkthdr_on pkt (some rx) = do slot ← Ring.get_slot rx pkt.slot; some slot.pkthdr

abbrev pub pkthdr : NethunsSocketNetmap → RecvPacket → Option Pkthdr
pkthdr s pkt = pkthdr_on pkt s.base.rx_ring

-- The packets that have been stored, with both sockets; or also the error on which the program panics.
pub data Capture : Type 0 where
  captured : List (Pkthdr × List ℕ) → NethunsSocketNetmap → NethunsSocketPcap → Capture
  store_panic : List (Pkthdr × List ℕ) → NethunsPcapStoreError → Capture

unfoldable pub and_before : Pkthdr × List ℕ → Capture → Capture
and_before p (captured packets s out) = captured (p ∷ packets) s out
and_before p (store_panic packets e) = store_panic (p ∷ packets) e

-- The loop of `run_capture_mode`, for a number of rounds, with the number of packets that it still
-- wants.
unfoldable pub capture_loop :
    NetmapApi → ℕ → ℕ → NethunsSocketNetmap → NethunsSocketPcap → Option Capture
unfolding recv drop_packet pkthdr_on store and_before
capture_loop api zero left s out = some (captured [] s out)
capture_loop api (suc rounds) zero s out = some (captured [] s out)
capture_loop api (suc rounds) (suc left) s out = do
  (res, s') ← recv api s
  elim res [
    | err e ↦ capture_loop api rounds (suc left) s' out
    | ok pkt ↦ do
      h ← pkthdr s' pkt
      (stored, out') ← store out (answers h) (buffer s' pkt)
      elim stored [
        | err e ↦ some (store_panic [] e)
        | ok n ↦ do
          s'' ← drop_packet s' pkt
          rest ← capture_loop api rounds left s'' out'
          some (and_before (h, buffer s' pkt) rest)
      ]
  ]
