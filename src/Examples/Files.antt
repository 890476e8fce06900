-- ===== src/Examples/Files.antt =====
-- Files of src/sockets/pcap/reader_builtin.rs: two packets, the second of which is longer than the
-- reader's slots.
use rust_nethuns.Common.{
  map, ℕ, ◌^◌, ◌<◌, ◌≡◌, refl, true, false, none, some, List, [], ◌∷◌, ◌++◌, length, take, ok,
  arith,
}
use rust_nethuns.Errors.{NethunsPcapReadError}
use rust_nethuns.Pkthdr.{Pkthdr, snaplen, offvlan_tpid}
use rust_nethuns.Ring.{NethunsRing, default_with_packet_size}
use rust_nethuns.CircularQueue.Valid.{IsShaped}
use rust_nethuns.Netmap.Bind.Modes.{new_ring}
use rust_nethuns.Pcap.{NethunsPcapPkthdr, NethunsSocketPcap, tcpdump_magic}
use rust_nethuns.Pcap.File.{reading_at, writing}
use rust_nethuns.Pcap.Header.{FitsPkthdr, file_header_bytes, pkthdr_bytes}
use rust_nethuns.Pcap.Slots.{fresh-IsRoomy}
use rust_nethuns.Pcap.Reader.{FileSystem, open_pcap, socket_on, rewind, write}
use rust_nethuns.Pcap.Replay.{write_packets, replay, records_bytes, AreWhole}
use rust_nethuns.Pcap.Opening.{file_bytes}
use rust_nethuns.Pcap.Roundtrip.{replay_lem, rewind_lem}
use rust_nethuns.Pcap.Store.{PkthdrTrait, answers, store, store_header, tag_bytes}
use rust_nethuns.Pcap.Store.Stored.{as_stored, store_lem, store-tagged, store-short}
use rust_nethuns.Pcap.Store.Capture.{store_packets, record_of, capture_lem}
use rust_nethuns.Examples.Socket.{options}

-- A directory with one file, where new files can grow up to 200 bytes.
abbrev pub disk : List ℕ → FileSystem
disk content = record { open_file = λ _. ok (reading_at 200 content 0); create_file = λ _. ok 200 }

abbrev header : ℕ → NethunsPcapPkthdr
header n = record { ts = record { tv_sec = 1700000000; tv_usec = 5 }; caplen = n; len = n }

abbrev short_packet : List ℕ
short_packet = 1 ∷ 2 ∷ []

abbrev long_packet : List ℕ
long_packet = 9 ∷ 8 ∷ 7 ∷ 6 ∷ 5 ∷ 4 ∷ []

abbrev pub two_records : List (NethunsPcapPkthdr × List ℕ)
two_records = (header 2, short_packet) ∷ (header 6, long_packet) ∷ []

header-FitsPkthdr : (n : ℕ) → n < 2 ^ 32 → FitsPkthdr (header n)
header-FitsPkthdr n small = record {
  sec_fits = omega arith;
  usec_fits = omega arith;
  caplen_fits = omega arith;
  len_fits = omega arith;
}

pub two-AreWhole : AreWhole two_records
unfolding AreWhole
two-AreWhole =
    (header-FitsPkthdr 2 (omega arith), refl, (header-FitsPkthdr 6 (omega arith), refl, tt))

two-size : length (file_bytes two_records) ≡ 80
unfolding records_bytes file_header_bytes pkthdr_bytes
two-size = refl

replay_example :
    (w w' r : NethunsSocketPcap) × (open_pcap (disk []) options [] true ≡ some (ok w))
    × (write_packets w two_records ≡ some w')
    × (w'.reader.bytes ≡ file_bytes two_records)
    × (open_pcap (disk (file_bytes two_records)) options [] false ≡ some (ok r))
    × (replay 3 r
        ≡ some (
          short_packet ∷ take options.packetsize long_packet ∷ [],
          some NethunsPcapReadError.eof,
        ))
replay_example =
    replay_lem (disk []) (disk (file_bytes two_records)) options options [] 200 two_records refl
      refl (omega arith) (omega arith) (omega (arith, two-size)) two-AreWhole

-- A ring of two free slots, as `open` makes it.
abbrev pub rx : NethunsRing
rx = new_ring options 1

fresh-two : IsShaped 1 rx.rings
unfolding default_with_packet_size
fresh-two = record {
  few_bits = omega arith;
  mask_eq = refl;
  length_eq = refl;
  head_lt = omega arith;
  tail_lt = omega arith;
  some_items = omega arith;
  items_le = omega arith;
}

rewind_example :
    (s : NethunsSocketPcap) × (rewind
        (socket_on options rx (reading_at 200 (file_bytes two_records) 80) 4 tcpdump_magic)
      ≡ (ok 24, s))
    × (replay 3 s ≡ some (short_packet ∷ take 4 long_packet ∷ [], some NethunsPcapReadError.eof))
rewind_example =
    rewind_lem {bits = 1} options rx 4 tcpdump_magic 200 80 two_records (fresh-IsRoomy fresh-two)
      refl two-AreWhole

-- The header of a packet of which three bytes have been captured.
abbrev captured : Pkthdr
captured = record {
  ts = record { tv_sec = 1700000000; tv_usec = 5 };
  len = 6;
  caplen = 3;
  buf_idx = 0;
}

abbrev new_file : NethunsSocketPcap
new_file = socket_on options rx (writing 200 []) 4 tcpdump_magic

store_example :
    store new_file (answers captured) long_packet
    ≡ some
        (as_stored (write new_file (store_header (answers captured) long_packet) (9 ∷ 8 ∷ 7 ∷ [])))
unfolding store_header snaplen offvlan_tpid
store_example = store_lem new_file captured long_packet

abbrev captures : List (Pkthdr × List ℕ)
captures = (captured, long_packet) ∷ (captured, short_packet) ∷ []

captures-size : length (file_bytes (map record_of captures)) ≡ 77
unfolding records_bytes file_header_bytes pkthdr_bytes record_of store_header snaplen offvlan_tpid
captures-size = refl

capture_example :
    (w w' r : NethunsSocketPcap) × (open_pcap (disk []) options [] true ≡ some (ok w))
    × (store_packets w captures ≡ some w')
    × (w'.reader.bytes ≡ file_bytes (map record_of captures))
    × (open_pcap (disk (file_bytes (map record_of captures))) options [] false ≡ some (ok r))
    × (replay 3 r ≡ some ((9 ∷ 8 ∷ 7 ∷ []) ∷ short_packet ∷ [], some NethunsPcapReadError.eof))
unfolding store_header snaplen offvlan_tpid
capture_example =
    capture_lem (disk []) (disk (file_bytes (map record_of captures))) options options [] 200
      captures refl refl (omega arith) (omega arith) (omega (arith, captures-size))

-- A packet whose VLAN tag has been taken off, and one that is too short for its tag.
abbrev tagged : ℕ → PkthdrTrait
tagged n = record {
  tstamp_sec = 1;
  tstamp_usec = 2;
  snaplen = n;
  len = n;
  offvlan_tpid = 0x8100;
  offvlan_tci = 7;
}

abbrev frame : List ℕ
frame = 1 ∷ 2 ∷ 3 ∷ 4 ∷ 5 ∷ 6 ∷ 7 ∷ 8 ∷ 9 ∷ 10 ∷ 11 ∷ 12 ∷ 13 ∷ 14 ∷ 15 ∷ 16 ∷ 17 ∷ 18 ∷ []

store-tagged_example :
    store new_file (tagged 18) frame
    ≡ some (
      ok 2,
      socket_on options rx
          (writing 200 (
            pkthdr_bytes (store_header (tagged 18) frame)
            ++ (take 12 frame ++ (tag_bytes (tagged 18) ++ (13 ∷ 14 ∷ [])))))
          4
          tcpdump_magic,
    )
unfolding store_header snaplen offvlan_tpid
store-tagged_example =
    store-tagged options rx 4 tcpdump_magic 200 [] (tagged 18) frame refl (omega arith)
      (omega arith)

store-short_example : store new_file (tagged 6) long_packet ≡ none
unfolding store_header snaplen offvlan_tpid
store-short_example =
    store-short options rx 4 tcpdump_magic 200 [] (tagged 6) long_packet refl (omega arith)
      (omega arith) (omega arith)
