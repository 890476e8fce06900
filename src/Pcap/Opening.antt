-- ===== src/Pcap/Opening.antt =====
-- `open` of src/sockets/pcap/reader_builtin.rs.
use rust_nethuns.Common.{
  ℕ, ◌+◌, ◌^◌, ◌*◌, ◌≤◌, ◌<◌, ◌≡◌, ◌≢◌, ne→==, refl, ap, min, true, false, some, List, [], ◌++◌,
  length, length-append, ok, err, arith,
}
use rust_nethuns.Types.{NethunsSocketOptions}
use rust_nethuns.Errors.{NethunsPcapOpenError}
use rust_nethuns.Ring.{NethunsRing, NethunsRingSlot, get_slot, is_free, default_with_packet_size}
use rust_nethuns.Ring
use rust_nethuns.Netmap.Bind.Modes.{slots_wanted, new_ring}
use rust_nethuns.CircularQueue.Valid.{new-IsValid}
use native.Mathlib.Nat.{mod-lt}
use rust_nethuns.Pcap.{
  NethunsPcapPkthdr, tcpdump_magic, kuznetzov_tcpdump_magic, nsec_tcpdump_magic,
}
use rust_nethuns.Pcap.File.{reading_at, writing, read_exact-part, write_all-end}
use rust_nethuns.Pcap.Header.{
  file_header_bytes, length-file_header_bytes, file_header_size, file_header_roundtrip,
  FitsFileHeader, PcapFileHeader,
}
use rust_nethuns.Pcap.Slots.{IsRoomy, fresh-IsRoomy}
use rust_nethuns.Pcap.Reader.{
  FileSystem, socket_on, open_pcap, open_reading, check_header, open_writing, new_file_header,
}
use rust_nethuns.Pcap.Replay.{records_bytes}

-- A new pcap file with records.
abbrev pub file_bytes : List (NethunsPcapPkthdr × List ℕ) → List ℕ
file_bytes records = file_header_bytes new_file_header ++ records_bytes records

new_header-FitsFileHeader : FitsFileHeader new_file_header
new_header-FitsFileHeader = record {
  magic_fits = omega arith;
  major_fits = omega arith;
  minor_fits = omega arith;
  thiszone_fits = omega arith;
  sigfigs_fits = omega arith;
  snaplen_fits = omega arith;
  linktype_fits = omega arith;
}

pub sizes :
    (records : List (NethunsPcapPkthdr × List ℕ))
    → length (file_bytes records)
      ≡ length (file_header_bytes new_file_header) + length (records_bytes records)
sizes records = length-append (file_header_bytes new_file_header) (records_bytes records)

few_slots : (opt : NethunsSocketOptions) → slots_wanted opt ≤ 2 ^ 63
few_slots opt = omega (arith, mod-lt (opt.numblocks * opt.numpackets) {m = 2 ^ 32} (omega arith))

-- A file that is opened for writing starts with its header.
pub open-writing :
    (fs : FileSystem) (opt : NethunsSocketOptions) (filename : List ℕ) (limit : ℕ)
    → fs.create_file filename ≡ ok limit
    → 0 < slots_wanted opt
    → file_header_size ≤ limit
    → (rx : NethunsRing) × (open_pcap fs opt filename true
        ≡ some (
            ok (
              socket_on opt rx
                (writing limit (file_header_bytes new_file_header))
                opt.packetsize
                tcpdump_magic)))
unfolding open_pcap open_writing Ring.new
open-writing fs opt filename limit created some_slots room =
    let (bits, e, valid, _) =
      new-IsValid (slots_wanted opt) (λ _. default_with_packet_size opt.packetsize) some_slots
        (few_slots opt) in
    (
      new_ring opt bits,
      rw (
        open_pcap,
        e,
        created,
        open_writing,
        write_all-end limit [] (file_header_bytes new_file_header)
            (omega (arith, length-file_header_bytes new_file_header)),
      ),
    )

open_reading-header :
    (opt : NethunsSocketOptions) (rx : NethunsRing) (limit : ℕ) (h : PcapFileHeader) (rest : List ℕ)
    → FitsFileHeader h
    → open_reading opt rx (reading_at limit (file_header_bytes h ++ rest) 0)
      ≡ check_header opt rx (reading_at limit (file_header_bytes h ++ rest) file_header_size) h
unfolding open_reading
open_reading-header opt rx limit h rest fits =
    rw
      (
        open_reading,
        read_exact-part limit [] (file_header_bytes h) rest 0 file_header_size refl
            (length-file_header_bytes h),
      )
      (ap (check_header opt rx (reading_at limit (file_header_bytes h ++ rest) file_header_size))
        (file_header_roundtrip h fits))

-- A file that starts with a header that fits its fields, and whose magic number is none of the three
-- that are known, is turned down with that number, if the options ask for a slot.
pub open-unsupported :
    (fs : FileSystem) (opt : NethunsSocketOptions) (filename : List ℕ) (limit : ℕ)
    (h : PcapFileHeader) (rest : List ℕ)
    → fs.open_file filename ≡ ok (reading_at limit (file_header_bytes h ++ rest) 0)
    → 0 < slots_wanted opt
    → FitsFileHeader h
    → h.magic ≢ tcpdump_magic
    → h.magic ≢ kuznetzov_tcpdump_magic
    → h.magic ≢ nsec_tcpdump_magic
    → open_pcap fs opt filename false
      ≡ some (err (NethunsPcapOpenError.magic_not_supported h.magic))
unfolding open_pcap check_header Ring.new
open-unsupported fs opt filename limit h rest opened some_slots fits plain kuznetzov nsec =
    let (bits, e, valid, _) =
      new-IsValid (slots_wanted opt) (λ _. default_with_packet_size opt.packetsize) some_slots
        (few_slots opt) in
    rw (
      open_pcap,
      e,
      opened,
      open_reading-header opt (new_ring opt bits) limit h rest fits,
      ne→== _ _ plain,
      ne→== _ _ kuznetzov,
      ne→== _ _ nsec,
    )

-- It is opened again for reading, with the cursor at the first record.
pub open-reading :
    (fs : FileSystem) (opt : NethunsSocketOptions) (filename : List ℕ) (limit : ℕ)
    (records : List (NethunsPcapPkthdr × List ℕ))
    → fs.open_file filename ≡ ok (reading_at limit (file_bytes records) 0)
    → 0 < slots_wanted opt
    → (bits : ℕ) × (rx : NethunsRing) × (snaplen : ℕ) × IsRoomy bits opt.packetsize rx
      × (open_pcap fs opt filename false
          ≡ some (
              ok (
                socket_on opt rx
                  (reading_at limit (file_bytes records) file_header_size)
                  snaplen
                  tcpdump_magic)))
unfolding open_pcap check_header Ring.new
open-reading fs opt filename limit records opened some_slots =
    let (bits, e, valid, _) =
      new-IsValid (slots_wanted opt) (λ _. default_with_packet_size opt.packetsize) some_slots
        (few_slots opt) in
    (
      bits,
      new_ring opt bits,
      min 65535 opt.packetsize,
      fresh-IsRoomy valid.shape,
      rw (
        open_pcap,
        e,
        opened,
        open_reading-header opt (new_ring opt bits) limit new_file_header (records_bytes records)
            new_header-FitsFileHeader,
      ),
    )
