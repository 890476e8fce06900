-- ===== src/Pcap/Store.antt =====
-- `store` of src/sockets/pcap/reader_builtin.rs: a packet that a socket has received is written to a
-- pcap file.
pub mod Stored
pub mod Capture
use rust_nethuns.Common.{
  ℕ, ◌+◌, ◌-◌, ◌*◌, ◌%◌, ◌^◌, ◌==◌, min, Bool, true, false, Option, none, some, List, [], ◌∷◌, ◌++◌,
  length, take, drop, leb, if◌then◌else◌, Result, ok, err,
}
use rust_nethuns.Errors.{NethunsPcapStoreError}
use rust_nethuns.Pkthdr.{
  Pkthdr, tstamp_sec, tstamp_usec, snaplen, hdr_len, offvlan_tpid, offvlan_tci,
}
use rust_nethuns.Vlan.{from_be}
use rust_nethuns.Pcap.{NethunsPcapPkthdr, NethunsSocketPcap}
use rust_nethuns.Pcap.File.{PcapFile, after_io, write_all}
use rust_nethuns.Pcap.Header.{pkthdr_bytes}
use rust_nethuns.Pcap.Words.{to_le}
use rust_nethuns.Pcap.Reader.{with_reader}

-- What a header answers (`&dyn PkthdrTrait`) to the methods that `store` calls.
pub record PkthdrTrait : Type 0 where
  pub tstamp_sec : ℕ
  pub tstamp_usec : ℕ
  pub snaplen : ℕ
  pub len : ℕ
  pub offvlan_tpid : ℕ
  pub offvlan_tci : ℕ

-- The answers of the packet header of the netmap framework.
abbrev pub answers : Pkthdr → PkthdrTrait
answers h = record {
  tstamp_sec = tstamp_sec h;
  tstamp_usec = tstamp_usec h;
  snaplen = snaplen h;
  len = hdr_len h;
  offvlan_tpid = offvlan_tpid h;
  offvlan_tci = offvlan_tci h;
}

-- The header of the record, of 32-bit sums.
unfoldable pub store_header : PkthdrTrait → List ℕ → NethunsPcapPkthdr
store_header pkthdr packet = record {
  ts = record { tv_sec = pkthdr.tstamp_sec; tv_usec = pkthdr.tstamp_usec };
  caplen = min (length packet % 2 ^ 32) ((pkthdr.snaplen + 4 * pkthdr.offvlan_tpid) % 2 ^ 32);
  len = (pkthdr.len + 4 * pkthdr.offvlan_tpid) % 2 ^ 32;
}

-- `&packet[from..to]`, which panics if that is not a part of the packet.
unfoldable pub slice : List ℕ → ℕ → ℕ → Option (List ℕ)
slice packet from to =
    if leb from to
    then (if leb to (length packet) then some (take (to - from) (drop from packet)) else none)
    else none

-- The memory of the tag, `h8021q`.
abbrev pub tag_bytes : PkthdrTrait → List ℕ
tag_bytes pkthdr = to_le 2 (from_be pkthdr.offvlan_tpid) ++ to_le 2 (from_be pkthdr.offvlan_tci)

-- The length that is left for the payload of a tagged packet. The difference wraps, in a release build.
abbrev pub tagged_clen : ℕ → ℕ
tagged_clen caplen = (caplen + 2 ^ 32 - 16) % 2 ^ 32

abbrev pub PcapStored : Type 0
PcapStored = Result ℕ NethunsPcapStoreError × NethunsSocketPcap

-- A part of the packet is written, if it is there, and then the rest.
unfoldable pub store_part :
    NethunsSocketPcap
    → PcapFile
    → Option (List ℕ)
    → (PcapFile → Option PcapStored)
    → Option PcapStored
store_part s file none rest = none
store_part s file (some part) rest =
    after_io (write_all file part)
      (λ e file'. some (err (NethunsPcapStoreError.file_error e), with_reader s file'))
      (λ _ file'. rest file')

unfoldable pub store : NethunsSocketPcap → PkthdrTrait → List ℕ → Option PcapStored
unfolding slice store_part
store s pkthdr packet =
    let header = store_header pkthdr packet in
    store_part s s.reader (some (pkthdr_bytes header)) (λ file.
      if pkthdr.offvlan_tpid == 0
      then store_part s file (slice packet 0 header.caplen)
          (λ file'. some (ok header.caplen, with_reader s file'))
      else store_part s file (slice packet 0 12) (λ file1.
        store_part s file1 (some (tag_bytes pkthdr)) (λ file2.
          let clen = tagged_clen header.caplen in
          store_part s file2 (slice packet 12 ((clen + 12) % 2 ^ 32))
            (λ file3. some (ok clen, with_reader s file3)))))
