-- ===== src/Pcap/Reader.antt =====
-- The built-in reader and writer of pcap files (src/sockets/pcap/reader_builtin.rs).
use rust_nethuns.Common.{
  ℕ, ◌-◌, ◌*◌, ◌%◌, ◌^◌, ◌==◌, min, Bool, true, false, Option, none, some, List, [], ◌++◌, length,
  drop, leb, ltb, if◌then◌else◌, ◌>>=◌, Result, ok, err,
}
use rust_nethuns.Types.{NethunsSocketOptions}
use rust_nethuns.Errors.{
  IoError, NethunsPcapOpenError, NethunsPcapReadError, NethunsPcapWriteError,
  NethunsPcapRewindError, read_error_of_io,
}
use rust_nethuns.Pkthdr.{
  Pkthdr, tstamp_set_sec, tstamp_set_usec, tstamp_set_nsec, set_len, set_snaplen,
}
use rust_nethuns.Ring.{NethunsRing, NethunsRingSlot, free, in_use, is_free}
use rust_nethuns.Ring
use rust_nethuns.Netmap.Bind.{base_with}
use rust_nethuns.Pcap.{
  NethunsPcapPkthdr, NethunsSocketPcap, tcpdump_magic, kuznetzov_tcpdump_magic, nsec_tcpdump_magic,
}
use rust_nethuns.Pcap.File.{
  PcapFile, after_io, read_exact, write_all, seek_start, seek_current, writing,
}
use rust_nethuns.Pcap.Header.{
  PcapFileHeader, file_header_bytes, file_header_of, pkthdr_bytes, pkthdr_of, patched_pkthdr_of,
  file_header_size, pkthdr_size, patched_pkthdr_size,
}

-- What the file system gives: a file that exists, open for reading; how far a new or emptied file can
-- grow.
pub record FileSystem : Type 0 where
  pub open_file : List ℕ → Result PcapFile IoError
  pub create_file : List ℕ → Result ℕ IoError

-- `RecvPacket` of a pcap socket: its bytes are the start of the slot's own buffer.
pub record PcapPacket : Type 0 where
  pub id : ℕ
  pub slot : ℕ
  pub buffer : List ℕ

abbrev pub PcapOpened : Type 0
PcapOpened = Result NethunsSocketPcap NethunsPcapOpenError

abbrev pub socket_on : NethunsSocketOptions → NethunsRing → PcapFile → ℕ → ℕ → NethunsSocketPcap
socket_on opt rx file snaplen magic = record {
  base = base_with opt none (some rx);
  reader = file;
  snaplen = snaplen;
  magic = magic;
}

abbrev pub is_supported : ℕ → Bool
is_supported magic =
    if magic == tcpdump_magic
    then true
    else (if magic == kuznetzov_tcpdump_magic then true else magic == nsec_tcpdump_magic)

-- The end of `open` for a file that is to be read.
unfoldable pub check_header :
    NethunsSocketOptions → NethunsRing → PcapFile → PcapFileHeader → PcapOpened
check_header opt rx file file_header =
    if is_supported file_header.magic
    then ok (socket_on opt rx file (min file_header.snaplen opt.packetsize) file_header.magic)
    else err (NethunsPcapOpenError.magic_not_supported file_header.magic)

-- `open` of a file that is to be read, once it is open.
unfoldable pub open_reading : NethunsSocketOptions → NethunsRing → PcapFile → PcapOpened
unfolding read_exact file_header_of check_header
open_reading opt rx file =
    after_io (read_exact file file_header_size) (λ e file'. err (NethunsPcapOpenError.file_error e))
      (λ bytes file'. check_header opt rx file' (file_header_of bytes))

-- The header of a new file.
abbrev pub new_file_header : PcapFileHeader
new_file_header = record {
  magic = tcpdump_magic;
  version_major = 2;
  version_minor = 4;
  thiszone = 0;
  sigfigs = 0;
  snaplen = 0xffff;
  linktype = 1;
}

-- `open` of a file that is to be written, once it is open and empty.
unfoldable pub open_writing : NethunsSocketOptions → NethunsRing → PcapFile → PcapOpened
unfolding write_all file_header_bytes
open_writing opt rx file =
    after_io (write_all file (file_header_bytes new_file_header))
      (λ e file'. err (NethunsPcapOpenError.file_error e))
      (λ _ file'. ok (socket_on opt rx file' opt.packetsize tcpdump_magic))

-- `none` is the panic of a ring of no slots. The product is of 32 bits.
unfoldable pub open_pcap : FileSystem → NethunsSocketOptions → List ℕ → Bool → Option PcapOpened
unfolding Ring.new open_reading open_writing
open_pcap fs opt filename writing_mode = do
  rx ← Ring.new (opt.numblocks * opt.numpackets % 2 ^ 32) opt.packetsize
  elim writing_mode [
    | false ↦ elim (fs.open_file filename) [
      | err e ↦ some (err (NethunsPcapOpenError.file_error e))
      | ok file ↦ some (open_reading opt rx file)
    ]
    | true ↦ elim (fs.create_file filename) [
      | err e ↦ some (err (NethunsPcapOpenError.file_error e))
      | ok limit ↦ some (open_writing opt rx (writing limit []))
    ]
  ]

abbrev pub PcapRead : Type 0
PcapRead = Result PcapPacket NethunsPcapReadError × NethunsSocketPcap

abbrev pub with_reader : NethunsSocketPcap → PcapFile → NethunsSocketPcap
with_reader s file = record s { reader = file }

abbrev pub with_ring : NethunsSocketPcap → NethunsRing → NethunsSocketPcap
with_ring s rx = record s { base = record (s.base) { rx_ring = some rx } }

-- The packet header of the slot, from that of the file. Times are cast to 32 bits.
unfoldable pub slot_header : ℕ → NethunsPcapPkthdr → ℕ → Pkthdr → Pkthdr
unfolding tstamp_set_sec tstamp_set_usec tstamp_set_nsec set_len set_snaplen
slot_header magic h bytes old =
    let timed = tstamp_set_sec old (h.ts.tv_sec % 2 ^ 32) in
    let stamped =
      if magic == nsec_tcpdump_magic
      then tstamp_set_nsec timed (h.ts.tv_usec % 2 ^ 32)
      else tstamp_set_usec timed (h.ts.tv_usec % 2 ^ 32) in
    set_snaplen (set_len stamped h.len) bytes

-- The end of `read`, with the header at hand. A slot's buffer that is shorter than the packet is a
-- panic. A buffer that could not be filled keeps its bytes here; they are not looked at, since the
-- slot stays free.
unfoldable pub read_payload :
    NethunsSocketPcap
    → NethunsRing
    → NethunsRingSlot
    → PcapFile
    → NethunsPcapPkthdr
    → Option PcapRead
unfolding read_exact slot_header Ring.set_slot Ring.advance_head read_error_of_io
read_payload s rx slot file h =
    let bytes = min s.base.opt.packetsize h.caplen in
    if leb bytes (length slot.packet)
    then after_io (read_exact file bytes)
        (λ e file'. some (err (read_error_of_io e), with_reader s file'))
        (λ payload file'. do
          let file'' =
              if ltb s.base.opt.packetsize h.caplen
              then seek_current file' (h.caplen - s.base.opt.packetsize)
              else file'
          rx' ← Ring.set_slot rx (Ring.head rx) (record slot {
            status = in_use;
            pkthdr = slot_header s.magic h bytes slot.pkthdr;
            packet = payload ++ drop bytes slot.packet;
          })
          let rx'' = Ring.advance_head rx'
          some (
            ok (record { id = Ring.head rx''; slot = Ring.head rx; buffer = payload }),
            with_ring (with_reader s file'') rx'',
          ))
    else none

-- The header of the next record: a patched header is longer.
unfoldable pub read_header : ℕ → PcapFile → Result NethunsPcapPkthdr IoError × PcapFile
unfolding read_exact pkthdr_of patched_pkthdr_of
read_header magic file =
    if magic == kuznetzov_tcpdump_magic
    then after_io (read_exact file patched_pkthdr_size) (λ e file'. (err e, file'))
        (λ bytes file'. (ok (patched_pkthdr_of bytes).hdr, file'))
    else after_io (read_exact file pkthdr_size) (λ e file'. (err e, file'))
        (λ bytes file'. (ok (pkthdr_of bytes), file'))

-- `read`, on the socket's ring
unfoldable pub read_on : NethunsSocketPcap → Option NethunsRing → Option PcapRead
unfolding Ring.get_slot is_free read_header read_payload read_error_of_io
read_on s none = none
read_on s (some rx) = do
  slot ← Ring.get_slot rx (Ring.head rx)
  if is_free slot.status
      then after_io (read_header s.magic s.reader)
          (λ e file. some (err (read_error_of_io e), with_reader s file))
          (λ h file. read_payload (with_reader s file) rx slot file h)
      else some (err NethunsPcapReadError.in_use, s)

unfoldable pub read : NethunsSocketPcap → Option PcapRead
unfolding read_on
read s = read_on s s.base.rx_ring

-- The release of a packet (`RecvPacket::drop` of src/sockets/base.rs).
unfoldable pub release_on :
    NethunsSocketPcap → PcapPacket → Option NethunsRing → Option NethunsSocketPcap
unfolding Ring.get_slot Ring.set_slot
release_on s pkt none = none
release_on s pkt (some rx) = do
  slot ← Ring.get_slot rx pkt.slot
  rx' ← Ring.set_slot rx pkt.slot (record slot { status = free })
  some (with_ring s rx')

unfoldable pub release : NethunsSocketPcap → PcapPacket → Option NethunsSocketPcap
unfolding release_on
release s pkt = release_on s pkt s.base.rx_ring

-- `write`: a failure after the header leaves a header without its packet.
unfoldable pub write :
    NethunsSocketPcap
    → NethunsPcapPkthdr
    → List ℕ
    → Result ℕ NethunsPcapWriteError × NethunsSocketPcap
unfolding write_all pkthdr_bytes
write s h packet =
    after_io (write_all s.reader (pkthdr_bytes h))
      (λ e file. (err (NethunsPcapWriteError.file_error e), with_reader s file))
      (λ _ file.
        after_io (write_all file packet)
          (λ e file'. (err (NethunsPcapWriteError.file_error e), with_reader s file'))
          (λ _ file'. (ok (length packet), with_reader s file')))

unfoldable pub rewind : NethunsSocketPcap → Result ℕ NethunsPcapRewindError × NethunsSocketPcap
rewind s =
    after_io (seek_start s.reader file_header_size)
      (λ e file. (err (NethunsPcapRewindError.file_error e), with_reader s file))
      (λ pos file. (ok pos, with_reader s file))
