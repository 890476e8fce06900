-- ===== src/Pkthdr.antt =====
-- src/sockets/api/netmap/pkthdr.rs: the packet header of the netmap framework. The fields of
-- `timeval` are C longs: numbers below 2 ^ 64 that stand for their two's complement.
pub mod Stamps
use rust_nethuns.Common.{ℕ, ◌*◌, ◌/◌, ◌%◌, ◌^◌}

pub record Timeval : Type 0 where
  pub tv_sec : ℕ
  pub tv_usec : ℕ

pub record Pkthdr : Type 0 where
  pub ts : Timeval
  pub len : ℕ
  pub caplen : ℕ
  pub buf_idx : ℕ

-- `Pkthdr::default()`
abbrev pub default_pkthdr : Pkthdr
default_pkthdr = record {
  ts = record { tv_sec = 0; tv_usec = 0 };
  len = 0;
  caplen = 0;
  buf_idx = 0;
}

unfoldable pub tstamp_sec : Pkthdr → ℕ
tstamp_sec h = h.ts.tv_sec % 2 ^ 32

unfoldable pub tstamp_usec : Pkthdr → ℕ
tstamp_usec h = h.ts.tv_usec % 2 ^ 32

-- The product is of 64 bits and wraps; the cast keeps 32 of them.
unfoldable pub tstamp_nsec : Pkthdr → ℕ
tstamp_nsec h = h.ts.tv_usec * 1000 % 2 ^ 64 % 2 ^ 32

unfoldable pub tstamp_set_sec : Pkthdr → ℕ → Pkthdr
tstamp_set_sec h sec = record h { ts = record { tv_sec = sec; tv_usec = h.ts.tv_usec } }

unfoldable pub tstamp_set_usec : Pkthdr → ℕ → Pkthdr
tstamp_set_usec h usec = record h { ts = record { tv_sec = h.ts.tv_sec; tv_usec = usec } }

unfoldable pub tstamp_set_nsec : Pkthdr → ℕ → Pkthdr
tstamp_set_nsec h nsec = record h { ts = record { tv_sec = h.ts.tv_sec; tv_usec = nsec / 1000 } }

unfoldable pub snaplen : Pkthdr → ℕ
snaplen h = h.caplen

unfoldable pub hdr_len : Pkthdr → ℕ
hdr_len h = h.len

unfoldable pub set_snaplen : Pkthdr → ℕ → Pkthdr
set_snaplen h len = record h { caplen = len }

unfoldable pub set_len : Pkthdr → ℕ → Pkthdr
set_len h len = record h { len = len }

abbrev pub rxhash : Pkthdr → ℕ
rxhash h = 0

unfoldable pub offvlan_tpid : Pkthdr → ℕ
offvlan_tpid h = 0

unfoldable pub offvlan_tci : Pkthdr → ℕ
offvlan_tci h = 0
