-- ===== src/Examples/Headers.antt =====
-- Packet headers and VLAN tags (src/sockets/api/netmap/pkthdr.rs, src/vlan.rs).
use rust_nethuns.Common.{ℕ, ◌+◌, ◌*◌, ◌≡◌, ◌↔◌, Option, none, some, List, [], ◌∷◌, arith}
use rust_nethuns.Pkthdr.{default_pkthdr, tstamp_sec, tstamp_nsec, tstamp_set_sec, tstamp_set_nsec}
use rust_nethuns.Pkthdr.Stamps.{tstamp_nsec_roundtrip}
use rust_nethuns.Vlan.{Etherparse, nethuns_vlan_vid}
use rust_nethuns.Vlan.Fields.{tag, vid_iff}

-- A parser of the headers at the start of a slice.
abbrev vlan_at : List ℕ → Option (ℕ × List ℕ)
vlan_at (b0 ∷ b1 ∷ b2 ∷ b3 ∷ rest) = some (b2 * 256 + b3, b0 ∷ b1 ∷ b2 ∷ b3 ∷ [])
vlan_at _ = none

abbrev ether_type_at : List ℕ → Option ℕ
ether_type_at (_ ∷ _ ∷ _ ∷ _ ∷ _ ∷ _ ∷ _ ∷ _ ∷ _ ∷ _ ∷ _ ∷ _ ∷ hi ∷ lo ∷ rest) =
    some (hi * 256 + lo)
ether_type_at _ = none

abbrev parse : Etherparse
parse = record { ethernet2_type = ether_type_at; single_vlan = vlan_at }

-- Two tags, of which the second one is cut off.
abbrev payload : List ℕ
payload = 0x20 ∷ 0x05 ∷ 0x81 ∷ 0x00 ∷ 0x00 ∷ []

tstamp_nsec_roundtrip_example :
    (tstamp_nsec (tstamp_set_nsec (tstamp_set_sec default_pkthdr 7) 2345) ≡ 2000)
    × (tstamp_sec (tstamp_set_nsec (tstamp_set_sec default_pkthdr 7) 2345) ≡ 7)
tstamp_nsec_roundtrip_example =
    tstamp_nsec_roundtrip default_pkthdr 7 2345 (omega arith) (omega arith)

vid_iff_example : (nethuns_vlan_vid (tag 5 1 33) ≡ 33) ↔ (◌≡◌ {A = ℕ} 1 0)
vid_iff_example = vid_iff 5 1 33 (omega arith) (omega arith) (omega arith)
