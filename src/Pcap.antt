-- ===== src/Pcap.antt =====
-- src/sockets/pcap.rs and src/sockets/pcap/constants.rs: sockets that read and write files of
-- captured packets. The machine is little-endian.
pub mod Words
pub mod File
pub mod Header
pub mod Reader
pub mod Slots
pub mod Record
pub mod Replay
pub mod Opening
pub mod Roundtrip
pub mod Parser
pub mod Store
use rust_nethuns.Common.{ℕ, List}
use rust_nethuns.Netmap.{NethunsSocketBase}
use File.{PcapFile}

abbrev pub tcpdump_magic : ℕ
tcpdump_magic = 0xa1b2_c3d4

abbrev pub kuznetzov_tcpdump_magic : ℕ
kuznetzov_tcpdump_magic = 0xa1b2_cd34

abbrev pub nsec_tcpdump_magic : ℕ
nsec_tcpdump_magic = 0xa1b2_3c4d

-- `nethuns_pcap_timeval`: 64-bit numbers that stand for their two's complement
pub record NethunsPcapTimeval : Type 0 where
  pub tv_sec : ℕ
  pub tv_usec : ℕ

-- `nethuns_pcap_pkthdr`
pub record NethunsPcapPkthdr : Type 0 where
  pub ts : NethunsPcapTimeval
  pub caplen : ℕ
  pub len : ℕ

-- `nethuns_pcap_patched_pkthdr`
pub record NethunsPcapPatchedPkthdr : Type 0 where
  pub hdr : NethunsPcapPkthdr
  pub index : ℕ
  pub protocol : ℕ
  pub pkt_type : ℕ

-- `NethunsSocketPcapInner` with the built-in reader
pub record NethunsSocketPcap : Type 0 where
  pub base : NethunsSocketBase
  pub reader : PcapFile
  pub snaplen : ℕ
  pub magic : ℕ
