-- ===== src/Types.antt =====
-- src/types.rs: the options and the enumerations of a socket.
use rust_nethuns.Common.{ℕ, Bool, Option, String}

pub data NethunsQueue : Type 0 where
  any : NethunsQueue
  queue : ℕ → NethunsQueue

pub data NethunsCaptureDir : Type 0 where
  in_dir out_dir in_out : NethunsCaptureDir

pub data NethunsCaptureMode : Type 0 where
  default_mode skb_mode drv_mode zero_copy : NethunsCaptureMode

pub data NethunsSocketMode : Type 0 where
  rx_tx rx_only tx_only : NethunsSocketMode

pub record NethunsSocketOptions : Type 0 where
  pub numblocks : ℕ
  pub numpackets : ℕ
  pub packetsize : ℕ
  pub timeout_ms : ℕ
  pub dir : NethunsCaptureDir
  pub capture : NethunsCaptureMode
  pub mode : NethunsSocketMode
  pub promisc : Bool
  pub rxhash : Bool
  pub tx_qdisc_bypass : Bool
  pub xdp_prog : Option String
  pub xdp_prog_sec : Option String
  pub xsk_map_name : Option String
  pub reuse_maps : Option Bool
  pub pin_dir : Option String

pub record NethunsStat : Type 0 where
  pub rx_packets : ℕ
  pub tx_packets : ℕ
  pub rx_dropped : ℕ
  pub rx_if_dropped : ℕ
  pub rx_invalid : ℕ
  pub tx_invalid : ℕ
  pub freeze : ℕ
