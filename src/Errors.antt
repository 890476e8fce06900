-- ===== src/Errors.antt =====
-- src/sockets/errors.rs: the errors of each operation, without their message texts and without the errors
-- of other crates that some of them carry.
use rust_nethuns.Common.{ℕ}

pub data NethunsOpenError : Type 0 where
  invalid_options error : NethunsOpenError

pub data NethunsBindError : Type 0 where
  illegal_argument framework_error error : NethunsBindError

pub data NethunsRecvError : Type 0 where
  not_rx in_use no_packets_available packet_filtered framework_error error : NethunsRecvError

pub data NethunsSendError : Type 0 where
  not_tx : NethunsSendError
  invalid_packet_size : ℕ → ℕ → NethunsSendError
  in_use error : NethunsSendError

pub data NethunsFlushError : Type 0 where
  not_tx in_use failed_transmission framework_error error : NethunsFlushError

-- `io::Error`, as far as the conversions look at it.
pub data IoError : Type 0 where
  unexpected_eof other : IoError

pub data NethunsPcapOpenError : Type 0 where
  write_mode_not_supported pcap_error : NethunsPcapOpenError
  magic_not_supported : ℕ → NethunsPcapOpenError
  file_error : IoError → NethunsPcapOpenError

pub data NethunsPcapReadError : Type 0 where
  in_use pcap_error : NethunsPcapReadError
  file_error : IoError → NethunsPcapReadError
  eof : NethunsPcapReadError

pub data NethunsPcapWriteError : Type 0 where
  not_supported : NethunsPcapWriteError
  file_error : IoError → NethunsPcapWriteError

pub data NethunsPcapStoreError : Type 0 where
  not_supported : NethunsPcapStoreError
  file_error : IoError → NethunsPcapStoreError

pub data NethunsPcapRewindError : Type 0 where
  not_supported : NethunsPcapRewindError
  file_error : IoError → NethunsPcapRewindError

-- `From<io::Error>` for `NethunsPcapReadError`: the end of the file is told apart.
unfoldable pub read_error_of_io : IoError → NethunsPcapReadError
read_error_of_io IoError.unexpected_eof = NethunsPcapReadError.eof
read_error_of_io IoError.other = NethunsPcapReadError.file_error IoError.other
