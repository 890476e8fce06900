-- ===== src/Pkthdr/Stamps.antt =====
-- Timestamps and lengths of src/sockets/api/netmap/pkthdr.rs: what is set is what is read.
use rust_nethuns.Common.{ℕ, ◌-◌, ◌%◌, ◌^◌, ◌<◌, ◌≡◌, arith}
use rust_nethuns.Pkthdr.{
  Pkthdr, tstamp_sec, tstamp_usec, tstamp_nsec, tstamp_set_sec, tstamp_set_usec, tstamp_set_nsec,
}

module _ (h : Pkthdr) (sec frac : ℕ) (s : sec < 2 ^ 32) (f : frac < 2 ^ 32) where
  -- Seconds and microseconds that fit 32 bits are read back as they were set, in either order of
  -- the two calls.
  pub tstamp_usec_roundtrip :
      (tstamp_sec (tstamp_set_usec (tstamp_set_sec h sec) frac) ≡ sec)
      × (tstamp_usec (tstamp_set_usec (tstamp_set_sec h sec) frac) ≡ frac)
      × (tstamp_set_usec (tstamp_set_sec h sec) frac ≡ tstamp_set_sec (tstamp_set_usec h frac) sec)
  unfolding tstamp_sec tstamp_usec tstamp_set_sec tstamp_set_usec
  tstamp_usec_roundtrip = ground arith

  -- Nanoseconds are kept to the microsecond: what is read back is what was set, rounded down to a
  -- multiple of 1000, and the seconds are not touched.
  pub tstamp_nsec_roundtrip :
      (tstamp_nsec (tstamp_set_nsec (tstamp_set_sec h sec) frac) ≡ frac - frac % 1000)
      × (tstamp_sec (tstamp_set_nsec (tstamp_set_sec h sec) frac) ≡ sec)
  unfolding tstamp_sec tstamp_nsec tstamp_set_sec tstamp_set_nsec
  tstamp_nsec_roundtrip = ground arith
