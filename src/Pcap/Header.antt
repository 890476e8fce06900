-- ===== src/Pcap/Header.antt =====
-- The bytes of the headers of a pcap file (src/sockets/pcap.rs, src/sockets/pcap/reader_builtin.rs):
-- the memory of the C structs, which is what is read and written.
use rust_nethuns.Common.{ℕ, ◌^◌, ◌<◌, ◌≡◌, refl, List, [], ◌++◌, length, drop}
use rust_nethuns.Pcap.{NethunsPcapPkthdr, NethunsPcapPatchedPkthdr}
use rust_nethuns.Pcap.Words.{to_le, from_le, from_le-to_le}

-- `pcap_file_header`
pub record PcapFileHeader : Type 0 where
  pub magic : ℕ
  pub version_major : ℕ
  pub version_minor : ℕ
  pub thiszone : ℕ
  pub sigfigs : ℕ
  pub snaplen : ℕ
  pub linktype : ℕ

-- `any_as_u8_slice` of a file header
unfoldable pub file_header_bytes : PcapFileHeader → List ℕ
unfolding to_le
file_header_bytes h =
    to_le 4 h.magic
    ++ (to_le 2 h.version_major
        ++ (to_le 2 h.version_minor
            ++ (to_le 4 h.thiszone
                ++ (to_le 4 h.sigfigs ++ (to_le 4 h.snaplen ++ to_le 4 h.linktype)))))

-- A file header whose memory has been filled.
unfoldable pub file_header_of : List ℕ → PcapFileHeader
unfolding from_le
file_header_of bytes = record {
  magic = from_le 4 bytes;
  version_major = from_le 2 (drop 4 bytes);
  version_minor = from_le 2 (drop 6 bytes);
  thiszone = from_le 4 (drop 8 bytes);
  sigfigs = from_le 4 (drop 12 bytes);
  snaplen = from_le 4 (drop 16 bytes);
  linktype = from_le 4 (drop 20 bytes);
}

-- `any_as_u8_slice` of a packet header
unfoldable pub pkthdr_bytes : NethunsPcapPkthdr → List ℕ
unfolding to_le
pkthdr_bytes h =
    to_le 8 h.ts.tv_sec ++ (to_le 8 h.ts.tv_usec ++ (to_le 4 h.caplen ++ to_le 4 h.len))

-- A packet header whose memory has been filled.
unfoldable pub pkthdr_of : List ℕ → NethunsPcapPkthdr
unfolding from_le
pkthdr_of bytes = record {
  ts = record { tv_sec = from_le 8 bytes; tv_usec = from_le 8 (drop 8 bytes) };
  caplen = from_le 4 (drop 16 bytes);
  len = from_le 4 (drop 20 bytes);
}

-- A patched header whose memory has been filled; its last byte is padding.
unfoldable pub patched_pkthdr_of : List ℕ → NethunsPcapPatchedPkthdr
unfolding from_le pkthdr_of
patched_pkthdr_of bytes = record {
  hdr = pkthdr_of bytes;
  index = from_le 4 (drop 24 bytes);
  protocol = from_le 2 (drop 28 bytes);
  pkt_type = from_le 1 (drop 30 bytes);
}

-- `mem::size_of` of the three structs
abbrev pub file_header_size : ℕ
file_header_size = 24

abbrev pub pkthdr_size : ℕ
pkthdr_size = 24

abbrev pub patched_pkthdr_size : ℕ
patched_pkthdr_size = 32

pub length-file_header_bytes :
    (h : PcapFileHeader) → length (file_header_bytes h) ≡ file_header_size
unfolding file_header_bytes to_le
length-file_header_bytes h = refl

pub length-pkthdr_bytes : (h : NethunsPcapPkthdr) → length (pkthdr_bytes h) ≡ pkthdr_size
unfolding pkthdr_bytes to_le
length-pkthdr_bytes h = refl

-- The fields of a packet header fit their widths.
pub record FitsPkthdr (h : NethunsPcapPkthdr) : Type 0 where
  pub sec_fits : h.ts.tv_sec < 256 ^ 8
  pub usec_fits : h.ts.tv_usec < 256 ^ 8
  pub caplen_fits : h.caplen < 256 ^ 4
  pub len_fits : h.len < 256 ^ 4

-- A packet header is read back from its bytes.
pub pkthdr_roundtrip : (h : NethunsPcapPkthdr) → FitsPkthdr h → pkthdr_of (pkthdr_bytes h) ≡ h
unfolding pkthdr_of pkthdr_bytes to_le
pkthdr_roundtrip h f = λ i. record {
  ts = record {
    tv_sec = from_le-to_le 8 h.ts.tv_sec (drop 8 (pkthdr_bytes h)) f.sec_fits i;
    tv_usec = from_le-to_le 8 h.ts.tv_usec (drop 16 (pkthdr_bytes h)) f.usec_fits i;
  };
  caplen = from_le-to_le 4 h.caplen (drop 20 (pkthdr_bytes h)) f.caplen_fits i;
  len = from_le-to_le 4 h.len [] f.len_fits i;
}

-- The fields of a file header fit their widths.
pub record FitsFileHeader (h : PcapFileHeader) : Type 0 where
  pub magic_fits : h.magic < 256 ^ 4
  pub major_fits : h.version_major < 256 ^ 2
  pub minor_fits : h.version_minor < 256 ^ 2
  pub thiszone_fits : h.thiszone < 256 ^ 4
  pub sigfigs_fits : h.sigfigs < 256 ^ 4
  pub snaplen_fits : h.snaplen < 256 ^ 4
  pub linktype_fits : h.linktype < 256 ^ 4

-- A file header is read back from its bytes.
pub file_header_roundtrip :
    (h : PcapFileHeader) → FitsFileHeader h → file_header_of (file_header_bytes h) ≡ h
unfolding file_header_of file_header_bytes to_le
file_header_roundtrip h f = λ i. record {
  magic = from_le-to_le 4 h.magic (drop 4 (file_header_bytes h)) f.magic_fits i;
  version_major = from_le-to_le 2 h.version_major (drop 6 (file_header_bytes h)) f.major_fits i;
  version_minor = from_le-to_le 2 h.version_minor (drop 8 (file_header_bytes h)) f.minor_fits i;
  thiszone = from_le-to_le 4 h.thiszone (drop 12 (file_header_bytes h)) f.thiszone_fits i;
  sigfigs = from_le-to_le 4 h.sigfigs (drop 16 (file_header_bytes h)) f.sigfigs_fits i;
  snaplen = from_le-to_le 4 h.snaplen (drop 20 (file_header_bytes h)) f.snaplen_fits i;
  linktype = from_le-to_le 4 h.linktype [] f.linktype_fits i;
}
