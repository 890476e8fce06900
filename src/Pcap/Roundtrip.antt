-- ===== src/Pcap/Roundtrip.antt =====
-- A file of packets that one socket writes and another reads back
-- (src/sockets/pcap/reader_builtin.rs).
use rust_nethuns.Common.{
  map, ℕ, suc, ◌≤◌, ◌<◌, ◌≡◌, refl, true, false, ◌==◌, some, List, length, take, ok, arith,
}
use rust_nethuns.Types.{NethunsSocketOptions}
use rust_nethuns.Errors.{NethunsPcapReadError}
use rust_nethuns.Ring.{NethunsRing}
use rust_nethuns.Netmap.Bind.Modes.{slots_wanted}
use rust_nethuns.Pcap.{NethunsPcapPkthdr, NethunsSocketPcap, tcpdump_magic, kuznetzov_tcpdump_magic}
use rust_nethuns.Pcap.File.{reading_at}
use rust_nethuns.Pcap.Header.{file_header_bytes, length-file_header_bytes, file_header_size}
use rust_nethuns.Pcap.Slots.{IsRoomy}
use rust_nethuns.Pcap.Reader.{FileSystem, socket_on, open_pcap, new_file_header, rewind}
use rust_nethuns.Pcap.Replay.{write_packets, replay, AreWhole, write_packets-append, replay-records}
use rust_nethuns.Pcap.Opening.{file_bytes, sizes, open-writing, open-reading}

-- A socket whose slots are all free, that has read any part of a file as `open` and `write` make it,
-- rewinds to the first record: all packets of the file are read again from there, in order, each cut
-- to the packet size, and then the end of the file. Headers fit their fields and tell the packets'
-- lengths, and the socket's magic number is not Kuznetzov's.
pub rewind_lem :
    {bits : ℕ} (opt : NethunsSocketOptions) (rx : NethunsRing) (snaplen magic limit cursor : ℕ)
    (records : List (NethunsPcapPkthdr × List ℕ))
    → IsRoomy bits opt.packetsize rx
    → (magic == kuznetzov_tcpdump_magic) ≡ false
    → AreWhole records
    → (s : NethunsSocketPcap) × (rewind
          (socket_on opt rx (reading_at limit (file_bytes records) cursor) snaplen magic)
        ≡ (ok file_header_size, s))
      × (replay (suc (length records)) s
          ≡ some (
            map (λ (r : NethunsPcapPkthdr × List ℕ). take opt.packetsize (r.1)) records,
            some NethunsPcapReadError.eof,
          ))
unfolding rewind file_header_bytes
rewind_lem opt rx snaplen magic limit cursor records v plain whole = (
  _,
  refl,
  replay-records opt snaplen magic limit plain rx v (file_header_bytes new_file_header) records
      (suc (length records)) whole (omega arith),
)

-- One socket opens a new file for writing and writes packets; another socket opens a file with those
-- bytes for reading, and reads and drops packets until a call fails. If the options of both ask for a
-- slot, the disk has room for the file, and the header of every packet fits its fields and tells its
-- length, then nothing fails or panics before the end: the file that is written has exactly the
-- header and the records, and what is read are exactly the packets, in order, each cut to the packet
-- size of the reader's options, and then the end of the file.
pub replay_lem :
    (writer_fs reader_fs : FileSystem) (writer_opt reader_opt : NethunsSocketOptions)
    (filename : List ℕ) (limit : ℕ) (records : List (NethunsPcapPkthdr × List ℕ))
    → writer_fs.create_file filename ≡ ok limit
    → reader_fs.open_file filename ≡ ok (reading_at limit (file_bytes records) 0)
    → 0 < slots_wanted writer_opt
    → 0 < slots_wanted reader_opt
    → length (file_bytes records) ≤ limit
    → AreWhole records
    → (w w' r : NethunsSocketPcap) × (open_pcap writer_fs writer_opt filename true ≡ some (ok w))
      × (write_packets w records ≡ some w')
      × (w'.reader.bytes ≡ file_bytes records)
      × (open_pcap reader_fs reader_opt filename false ≡ some (ok r))
      × (replay (suc (length records)) r
          ≡ some (
            map
                (λ (record_of : NethunsPcapPkthdr × List ℕ).
                  take reader_opt.packetsize (record_of.1))
                records,
            some NethunsPcapReadError.eof,
          ))
unfolding file_header_bytes
replay_lem writer_fs reader_fs writer_opt reader_opt filename limit records created opened w_slots
      r_slots room whole =
    let (w_rx, w_open) =
      open-writing writer_fs writer_opt filename limit created w_slots
        (omega (arith, sizes records, length-file_header_bytes new_file_header)) in
    let (bits, rx, snaplen, v, r_open) =
      open-reading reader_fs reader_opt filename limit records opened r_slots in
    (
      _,
      _,
      _,
      w_open,
      write_packets-append writer_opt w_rx writer_opt.packetsize tcpdump_magic limit
          (file_header_bytes new_file_header) records (omega (arith, sizes records)),
      refl,
      r_open,
      replay-records reader_opt snaplen tcpdump_magic limit refl rx v
          (file_header_bytes new_file_header) records (suc (length records)) whole (omega arith),
    )
