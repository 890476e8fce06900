-- ===== src/Vlan.antt =====
-- src/vlan.rs: the fields of an 802.1Q tag. The parsers of the etherparse crate are parameters.
pub mod Fields
use rust_nethuns.Common.{
  ℕ, ◌+◌, ◌-◌, ◌*◌, ◌/◌, ◌%◌, ◌^◌, ◌==◌, Bool, true, false, ◌||◌, Option, none, some, List, [], ◌∷◌,
  if◌then◌else◌, bit_and,
}
use rust_nethuns.Pkthdr.{Pkthdr, offvlan_tpid, offvlan_tci}

abbrev pub nethuns_eth_p_8021q : ℕ
nethuns_eth_p_8021q = 0x8100

abbrev pub nethuns_eth_p_8021ad : ℕ
nethuns_eth_p_8021ad = 0x88a8

unfoldable pub nethuns_vlan_vid : ℕ → ℕ
nethuns_vlan_vid tci = bit_and tci (2 ^ 13 - 1)

unfoldable pub nethuns_vlan_pcp : ℕ → ℕ
nethuns_vlan_pcp tci = bit_and (tci / 2 ^ 13) 7

unfoldable pub nethuns_vlan_dei : ℕ → ℕ
nethuns_vlan_dei tci = bit_and (tci / 2 ^ 12) 1

abbrev pub is_vlan : ℕ → Bool
is_vlan ether_type = ether_type == nethuns_eth_p_8021q || ether_type == nethuns_eth_p_8021ad

-- `u16::from_be` on a little-endian machine: the two bytes are swapped.
unfoldable pub from_be : ℕ → ℕ
from_be x = x % 256 * 256 + x / 256 % 256

-- `read_u16::<BigEndian>().unwrap_or(0)`
unfoldable pub read_u16_be : List ℕ → ℕ
read_u16_be (hi ∷ lo ∷ rest) = hi * 256 + lo
read_u16_be _ = 0

-- What the etherparse crate gives: `Ethernet2Header::from_slice`, the ethernet type of a frame;
-- `SingleVlanHeader::from_slice`, the ethernet type of the VLAN header at the start of a slice, and its
-- `to_bytes`; nothing if the slice is too short.
pub record Etherparse : Type 0 where
  pub ethernet2_type : List ℕ → Option ℕ
  pub single_vlan : List ℕ → Option (ℕ × List ℕ)

module _ (parse : Etherparse) where
  unfoldable pub nethuns_vlan_tpid : List ℕ → ℕ
  nethuns_vlan_tpid payload = elim (parse.ethernet2_type payload) [
    | some ether_type ↦ if is_vlan ether_type then ether_type else 0
    | none ↦ 0
  ]

  unfoldable pub nethuns_vlan_tci : List ℕ → ℕ
  unfolding from_be read_u16_be
  nethuns_vlan_tci payload = elim (parse.single_vlan payload) [
    | some (ether_type, bytes) ↦ if is_vlan ether_type then from_be (read_u16_be bytes) else 0
    | none ↦ 0
  ]

  -- `nethuns_vlan_tpid_`
  unfoldable pub nethuns_vlan_tpid_of : Pkthdr → List ℕ → ℕ
  unfolding nethuns_vlan_tpid
  nethuns_vlan_tpid_of hdr payload =
      let tpid = offvlan_tpid hdr in if tpid == 0 then nethuns_vlan_tpid payload else tpid

  -- `nethuns_vlan_tci_`
  unfoldable pub nethuns_vlan_tci_of : Pkthdr → List ℕ → ℕ
  unfolding nethuns_vlan_tci
  nethuns_vlan_tci_of hdr payload =
      if offvlan_tpid hdr == 0 then nethuns_vlan_tci payload else offvlan_tci hdr
