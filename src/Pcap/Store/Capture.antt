-- ===== src/Pcap/Store/Capture.antt =====
-- A capture: packets that a netmap socket has received are stored in a file, which another socket
-- reads (src/sockets/pcap/reader_builtin.rs).
use rust_nethuns.Common.{
  map, ℕ, suc, ◌^◌, ◌≤◌, ◌<◌, ◌≡◌, ◌∙◌, refl, ap, true, false, Option, none, some, List, [], ◌∷◌,
  length, length-take, take, Result, ok, err, arith,
}
use native.Mathlib.Nat.{mod-lt}
use rust_nethuns.Errors.{NethunsPcapReadError, NethunsPcapWriteError}
use rust_nethuns.Types.{NethunsSocketOptions}
use rust_nethuns.Netmap.Bind.Modes.{slots_wanted}
use rust_nethuns.Pkthdr.{Pkthdr, tstamp_sec, tstamp_usec}
use rust_nethuns.Pcap.{NethunsPcapPkthdr, NethunsSocketPcap}
use rust_nethuns.Pcap.File.{reading_at}
use rust_nethuns.Pcap.Header.{FitsPkthdr}
use rust_nethuns.Pcap.Reader.{FileSystem, open_pcap, write}
use rust_nethuns.Pcap.Store.{answers, store_header, PcapStored, store}
use rust_nethuns.Pcap.Store.Stored.{as_stored, kept, caplen-le, caplen-lt, store_lem}
use rust_nethuns.Pcap.Replay.{if_written, write_packets, replay, AreWhole}
use rust_nethuns.Pcap.Opening.{file_bytes}
use rust_nethuns.Pcap.Roundtrip.{replay_lem}

unfoldable pub if_stored :
    Option PcapStored → (NethunsSocketPcap → Option NethunsSocketPcap) → Option NethunsSocketPcap
if_stored none next = none
if_stored (some (err e, s)) next = none
if_stored (some (ok n, s)) next = next s

-- A client that stores packets, until that fails.
unfoldable pub store_packets : NethunsSocketPcap → List (Pkthdr × List ℕ) → Option NethunsSocketPcap
unfolding if_stored
store_packets s [] = some s
store_packets s ((h, packet) ∷ packets) =
    if_stored (store s (answers h) packet) (λ s'. store_packets s' packets)

-- The record of a packet.
unfoldable pub record_of : Pkthdr × List ℕ → NethunsPcapPkthdr × List ℕ
record_of (h, packet) = (store_header (answers h) packet, take (kept h packet) packet)

by_write :
    (w : Result ℕ NethunsPcapWriteError × NethunsSocketPcap)
    (next next' : NethunsSocketPcap → Option NethunsSocketPcap)
    → ((s : NethunsSocketPcap) → next s ≡ next' s)
    → if_stored (some (as_stored w)) next ≡ if_written w next'
unfolding if_stored if_written
by_write (ok n, s) next next' same = same s
by_write (err NethunsPcapWriteError.not_supported, s) next next' same = refl
by_write (err (NethunsPcapWriteError.file_error e), s) next next' same = refl

store_packets_eq :
    (s : NethunsSocketPcap) (packets : List (Pkthdr × List ℕ))
    → store_packets s packets ≡ write_packets s (map record_of packets)
unfolding store_packets write_packets record_of
store_packets_eq s [] = refl
store_packets_eq s ((h, packet) ∷ packets) =
    rw (store_packets, write_packets, store_lem s h packet)
      (by_write (write s (store_header (answers h) packet) (take (kept h packet) packet))
        (λ s'. store_packets s' packets) (λ s'. write_packets s' (map record_of packets))
        (λ s'. store_packets_eq s' packets))

record-FitsPkthdr : (h : Pkthdr) (packet : List ℕ) → FitsPkthdr (store_header (answers h) packet)
unfolding store_header tstamp_sec tstamp_usec
record-FitsPkthdr h packet = record {
  sec_fits = omega (arith, mod-lt h.ts.tv_sec {m = 2 ^ 32} (omega arith));
  usec_fits = omega (arith, mod-lt h.ts.tv_usec {m = 2 ^ 32} (omega arith));
  caplen_fits = omega (arith, caplen-lt (answers h) packet);
  len_fits = omega arith;
}

records-AreWhole : (packets : List (Pkthdr × List ℕ)) → AreWhole (map record_of packets)
unfolding AreWhole record_of
records-AreWhole [] = tt
records-AreWhole ((h, packet) ∷ packets) = (
  record-FitsPkthdr h packet,
  omega (arith, length-take (kept h packet) packet, caplen-le (answers h) packet),
  records-AreWhole packets,
)

length_records :
    (packets : List (Pkthdr × List ℕ)) → length (map record_of packets) ≡ length packets
length_records [] = refl
length_records (p ∷ packets) = ap suc (length_records packets)

read_back :
    (size : ℕ) (packets : List (Pkthdr × List ℕ))
    → map (λ (r : NethunsPcapPkthdr × List ℕ). take size (r.1)) (map record_of packets)
      ≡ map (λ (p : Pkthdr × List ℕ). take size (take (kept (p.0) (p.1)) (p.1))) packets
unfolding record_of
read_back size [] = refl
read_back size ((h, packet) ∷ packets) =
    ap (◌∷◌ (take size (take (kept h packet) packet))) (read_back size packets)

-- One socket opens a new file and stores packets that a netmap socket has received, with whatever
-- headers; another opens the file and reads and drops packets until a call fails. If the options of
-- both ask for a slot, and the disk has room for the file, then nothing fails or panics before the
-- end: what is read are exactly the bytes of the packets that are kept in their records, in order,
-- each cut to the packet size of the reader's options, and then the end of the file.
pub capture_lem :
    (writer_fs reader_fs : FileSystem) (writer_opt reader_opt : NethunsSocketOptions)
    (filename : List ℕ) (limit : ℕ) (packets : List (Pkthdr × List ℕ))
    → writer_fs.create_file filename ≡ ok limit
    → reader_fs.open_file filename ≡ ok (reading_at limit (file_bytes (map record_of packets)) 0)
    → 0 < slots_wanted writer_opt
    → 0 < slots_wanted reader_opt
    → length (file_bytes (map record_of packets)) ≤ limit
    → (w w' r : NethunsSocketPcap) × (open_pcap writer_fs writer_opt filename true ≡ some (ok w))
      × (store_packets w packets ≡ some w')
      × (w'.reader.bytes ≡ file_bytes (map record_of packets))
      × (open_pcap reader_fs reader_opt filename false ≡ some (ok r))
      × (replay (suc (length packets)) r
          ≡ some (
            map
                (λ (p : Pkthdr × List ℕ).
                  take reader_opt.packetsize (take (kept (p.0) (p.1)) (p.1)))
                packets,
            some NethunsPcapReadError.eof,
          ))
capture_lem writer_fs reader_fs writer_opt reader_opt filename limit packets created opened w_slots
      r_slots room =
    let (w, w', r, w_open, written, content, r_open, replayed) =
      replay_lem writer_fs reader_fs writer_opt reader_opt filename limit (map record_of packets)
        created opened w_slots r_slots room (records-AreWhole packets) in
    (
      w,
      w',
      r,
      w_open,
      store_packets_eq w packets ∙ written,
      content,
      r_open,
      rw (← length_records packets, ← read_back reader_opt.packetsize packets) replayed,
    )
