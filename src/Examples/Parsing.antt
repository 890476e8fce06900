-- ===== src/Examples/Parsing.antt =====
-- A reader of pcap files with one packet of two bytes (src/sockets/pcap/reader_pcap.rs).
use rust_nethuns.Common.{ℕ, ◌<◌, ◌≡◌, ◌↔◌, refl, none, some, [], ◌∷◌, ok, arith}
use rust_nethuns.CircularQueue.Valid.{IsShaped}
use rust_nethuns.Ring.{NethunsRing, default_with_packet_size, get_slot}
use rust_nethuns.Netmap.Bind.{base_with}
use rust_nethuns.Netmap.Bind.Modes.{new_ring}
use rust_nethuns.Pcap.{tcpdump_magic}
use rust_nethuns.Pcap.Parser.{LegacyPcapBlock, PcapParser, ParserSocket, legacy, parser_read}
use rust_nethuns.Pcap.Parser.Reading.{parser_read_lem}
use rust_nethuns.Examples.Socket.{options}

abbrev two_bytes : LegacyPcapBlock
two_bytes = record { ts_sec = 1; ts_usec = 2; caplen = 2; origlen = 2; data_bytes = 7 ∷ 8 ∷ [] }

-- The state is the number of bytes that have been consumed.
abbrev one_packet : PcapParser ℕ
one_packet = record {
  new_reader = λ name. ok 0;
  next = λ r. (ok (18, legacy two_bytes), r);
  consume = λ r n. n;
  refill = λ r. (ok tt, r);
}

abbrev parser_rx : NethunsRing
parser_rx = new_ring options 1

abbrev parsing : ParserSocket ℕ
parsing = record {
  base = base_with options none (some parser_rx);
  reader = 0;
  snaplen = 4;
  magic = tcpdump_magic;
}

parser-IsShaped : IsShaped 1 parser_rx.rings
unfolding default_with_packet_size
parser-IsShaped = record {
  few_bits = omega arith;
  mask_eq = refl;
  length_eq = refl;
  head_lt = omega arith;
  tail_lt = omega arith;
  some_items = omega arith;
  items_le = omega arith;
}

parser_read_example : (parser_read one_packet 3 parsing ≡ none) ↔ (2 < 4)
unfolding default_with_packet_size get_slot
parser_read_example =
    parser_read_lem one_packet 2 18 parsing 0 parser_rx (default_with_packet_size 4) two_bytes refl
      parser-IsShaped refl refl refl refl (omega arith)
