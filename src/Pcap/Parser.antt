-- ===== src/Pcap/Parser.antt =====
-- The reader of pcap files over the pcap_parser crate (src/sockets/pcap/reader_pcap.rs).
pub mod Reading
use rust_nethuns.Common.{
  ℕ, zero, suc, ◌*◌, ◌%◌, ◌^◌, ◌==◌, min, Bool, true, false, Option, none, some, List, length, take,
  leb, if◌then◌else◌, ◌>>=◌, Result, ok, err,
}
use rust_nethuns.Types.{NethunsSocketOptions}
use rust_nethuns.Errors.{
  NethunsPcapOpenError, NethunsPcapReadError, NethunsPcapWriteError, NethunsPcapStoreError,
  NethunsPcapRewindError,
}
use rust_nethuns.Pkthdr.{
  Pkthdr, tstamp_set_sec, tstamp_set_usec, tstamp_set_nsec, set_len, set_snaplen,
}
use rust_nethuns.Ring.{NethunsRing, NethunsRingSlot, in_use, is_free}
use rust_nethuns.Ring
use rust_nethuns.Netmap.{NethunsSocketBase}
use rust_nethuns.Netmap.Bind.{base_with}
use rust_nethuns.Pcap.{NethunsPcapPkthdr, nsec_tcpdump_magic}
use rust_nethuns.Pcap.Reader.{PcapPacket}
use rust_nethuns.Pcap.Store.{PkthdrTrait}

-- What the crate gives: the blocks of a file, its errors, and a reader in a state `R`, which is made
-- for a file, gives the next block with its size, drops bytes, and fills its buffer.
pub record LegacyPcapBlock : Type 0 where
  pub ts_sec : ℕ
  pub ts_usec : ℕ
  pub caplen : ℕ
  pub origlen : ℕ
  pub data_bytes : List ℕ

pub data PcapBlockOwned : Type 0 where
  legacy : LegacyPcapBlock → PcapBlockOwned
  legacy_header : ℕ → PcapBlockOwned
  next_generation : PcapBlockOwned

pub data PcapError : Type 0 where
  incomplete eof other : PcapError

-- `From<PcapError>` for `NethunsPcapReadError`
unfoldable pub read_error_of_pcap : PcapError → NethunsPcapReadError
read_error_of_pcap eof = NethunsPcapReadError.eof
read_error_of_pcap incomplete = NethunsPcapReadError.pcap_error
read_error_of_pcap other = NethunsPcapReadError.pcap_error

pub record PcapParser (R : Type 0) : Type 0 where
  pub new_reader : List ℕ → Result R NethunsPcapOpenError
  pub next : R → Result (ℕ × PcapBlockOwned) PcapError × R
  pub consume : R → ℕ → R
  pub refill : R → Result (Unit {0}) PcapError × R

-- `NethunsSocketPcapInner` with the reader of the crate
pub record ParserSocket (R : Type 0) : Type 0 where
  pub base : NethunsSocketBase
  pub reader : R
  pub snaplen : ℕ
  pub magic : ℕ

abbrev pub ParserRead : Type 0 → Type 0
ParserRead R = Result PcapPacket NethunsPcapReadError × ParserSocket R

abbrev pub with_parser : {R : Type 0} → ParserSocket R → R → ParserSocket R
with_parser s r = record s { reader = r }

-- The packet header of the slot.
unfoldable pub block_header : ℕ → LegacyPcapBlock → ℕ → Pkthdr → Pkthdr
unfolding tstamp_set_sec tstamp_set_usec tstamp_set_nsec set_len set_snaplen
block_header magic packet bytes old =
    let timed = tstamp_set_sec old packet.ts_sec in
    let stamped =
      if magic == nsec_tcpdump_magic
      then tstamp_set_nsec timed packet.ts_usec
      else tstamp_set_usec timed packet.ts_usec in
    set_snaplen (set_len stamped packet.origlen) bytes

module _ {R : Type 0} (parser : PcapParser R) where
  -- The first block must be the header; `none` is the panic on another.
  unfoldable pub open_first :
      NethunsSocketOptions
      → NethunsRing
      → Result (ℕ × PcapBlockOwned) PcapError × R
      → Option (Result (ParserSocket R) NethunsPcapOpenError)
  open_first opt rx (err e, r) = some (err NethunsPcapOpenError.pcap_error)
  open_first opt rx (ok (offset, legacy packet), r) = none
  open_first opt rx (ok (offset, next_generation), r) = none
  open_first opt rx (ok (offset, legacy_header magic), r) = some (
      ok (record {
        base = base_with opt none (some rx);
        reader = parser.consume r offset;
        snaplen = opt.packetsize;
        magic = magic;
      }))

  unfoldable pub parser_open :
      NethunsSocketOptions → List ℕ → Bool → Option (Result (ParserSocket R) NethunsPcapOpenError)
  unfolding open_first Ring.new
  parser_open opt filename true = some (err NethunsPcapOpenError.write_mode_not_supported)
  parser_open opt filename false = do
    rx ← Ring.new (opt.numblocks * opt.numpackets % 2 ^ 32) opt.packetsize
    elim (parser.new_reader filename) [
      | err e ↦ some (err e)
      | ok r ↦ open_first opt rx (parser.next r)
    ]

  -- A packet goes into the slot. The copy panics if the block is too short, and if what is copied is
  -- not as long as the slot's buffer.
  unfoldable pub read_legacy :
      ParserSocket R → NethunsRing → NethunsRingSlot → R → LegacyPcapBlock → Option (ParserRead R)
  unfolding block_header Ring.set_slot Ring.advance_head
  read_legacy s rx slot r packet =
      let bytes = min s.base.opt.packetsize packet.caplen in
      if leb bytes (length packet.data_bytes)
      then (if bytes == length slot.packet
          then (do
            rx' ← Ring.set_slot rx (Ring.head rx) (record slot {
              status = in_use;
              pkthdr = block_header s.magic packet bytes slot.pkthdr;
              packet = take bytes packet.data_bytes;
            })
            let rx'' = Ring.advance_head rx'
            some (
              ok (record {
                id = Ring.head rx'';
                slot = Ring.head rx;
                buffer = take bytes packet.data_bytes;
              }),
              record s { base = record (s.base) { rx_ring = some rx'' }; reader = r },
            ))
          else none)
      else none

  unfoldable pub read_refill :
      ParserSocket R
      → (R → Option (ParserRead R))
      → Result (Unit {0}) PcapError × R
      → Option (ParserRead R)
  unfolding read_error_of_pcap
  read_refill s again (err e, r) = some (err (read_error_of_pcap e), with_parser s r)
  read_refill s again (ok _, r) = again r

  -- The body of the loop, with what follows after the reader has been filled.
  unfoldable pub read_block :
      ParserSocket R
      → NethunsRing
      → NethunsRingSlot
      → (R → Option (ParserRead R))
      → Result (ℕ × PcapBlockOwned) PcapError × R
      → Option (ParserRead R)
  unfolding read_legacy read_refill read_error_of_pcap
  read_block s rx slot again (ok (offset, legacy packet), r) =
      read_legacy s rx slot (parser.consume r offset) packet
  read_block s rx slot again (ok (offset, legacy_header magic), r) = none
  read_block s rx slot again (ok (offset, next_generation), r) = none
  read_block s rx slot again (err incomplete, r) = read_refill s again (parser.refill r)
  read_block s rx slot again (err eof, r) = some (err (read_error_of_pcap eof), with_parser s r)
  read_block s rx slot again (err other, r) = some (err (read_error_of_pcap other), with_parser s r)

  -- The loop. `none` is a panic, or fuel that runs out.
  unfoldable pub read_blocks :
      ℕ → ParserSocket R → NethunsRing → NethunsRingSlot → R → Option (ParserRead R)
  unfolding read_block
  read_blocks zero s rx slot r = none
  read_blocks (suc fuel) s rx slot r =
      read_block s rx slot (λ r'. read_blocks fuel s rx slot r') (parser.next r)

  unfoldable pub parser_read_on : ℕ → ParserSocket R → Option NethunsRing → Option (ParserRead R)
  unfolding Ring.get_slot is_free read_blocks
  parser_read_on fuel s none = none
  parser_read_on fuel s (some rx) = do
    slot ← Ring.get_slot rx (Ring.head rx)
    if is_free slot.status
        then read_blocks fuel s rx slot s.reader
        else some (err NethunsPcapReadError.in_use, s)

  unfoldable pub parser_read : ℕ → ParserSocket R → Option (ParserRead R)
  unfolding parser_read_on
  parser_read fuel s = parser_read_on fuel s s.base.rx_ring

  abbrev pub parser_write :
      ParserSocket R → NethunsPcapPkthdr → List ℕ → Result ℕ NethunsPcapWriteError × ParserSocket R
  parser_write s header packet = (err NethunsPcapWriteError.not_supported, s)

  abbrev pub parser_store :
      ParserSocket R → PkthdrTrait → List ℕ → Result ℕ NethunsPcapStoreError × ParserSocket R
  parser_store s pkthdr packet = (err NethunsPcapStoreError.not_supported, s)

  abbrev pub parser_rewind : ParserSocket R → Result ℕ NethunsPcapRewindError × ParserSocket R
  parser_rewind s = (err NethunsPcapRewindError.not_supported, s)
