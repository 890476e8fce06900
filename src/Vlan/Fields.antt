-- ===== src/Vlan/Fields.antt =====
-- The fields of an 802.1Q tag in src/vlan.rs: what the functions return for a tag that is put
-- together from its fields.
use rust_nethuns.Common.{ℕ, ◌+◌, ◌*◌, ◌/◌, ◌^◌, ◌<◌, ◌≡◌, ◌↔◌, refl, some, List, [], ◌∷◌, arith}
use rust_nethuns.Common.Bits.{bit_and_mask}
use rust_nethuns.Pkthdr.{Pkthdr, offvlan_tpid}
use rust_nethuns.Vlan.{
  nethuns_vlan_vid, nethuns_vlan_pcp, nethuns_vlan_dei, Etherparse, nethuns_vlan_tpid,
  nethuns_vlan_tci, nethuns_vlan_tpid_of, nethuns_vlan_tci_of,
}

-- A tag: 3 bits of priority, the drop eligible bit, 12 bits of VLAN identifier.
abbrev pub tag : ℕ → ℕ → ℕ → ℕ
tag pcp dei vid = pcp * 2 ^ 13 + dei * 2 ^ 12 + vid

-- Of a tag whose fields fit their bits, the priority and the drop eligible bit are read back. The identifier comes with the
-- drop eligible bit above it.
pub tag_fields :
    (pcp dei vid : ℕ)
    → pcp < 8
    → dei < 2
    → vid < 2 ^ 12
    → (nethuns_vlan_pcp (tag pcp dei vid) ≡ pcp)
      × (nethuns_vlan_dei (tag pcp dei vid) ≡ dei)
      × (nethuns_vlan_vid (tag pcp dei vid) ≡ dei * 2 ^ 12 + vid)
unfolding nethuns_vlan_pcp nethuns_vlan_dei nethuns_vlan_vid
tag_fields pcp dei vid p d v = (
  omega (arith, bit_and_mask 3 (tag pcp dei vid / 2 ^ 13)),
  omega (arith, bit_and_mask 1 (tag pcp dei vid / 2 ^ 12)),
  omega (arith, bit_and_mask 13 (tag pcp dei vid)),
)

-- The identifier of a tag whose fields fit their bits is read back exactly if the drop eligible bit is not set.
pub vid_iff :
    (pcp dei vid : ℕ)
    → pcp < 8
    → dei < 2
    → vid < 2 ^ 12
    → (nethuns_vlan_vid (tag pcp dei vid) ≡ vid) ↔ (dei ≡ 0)
vid_iff pcp dei vid p d v =
    let e = (tag_fields pcp dei vid p d v).2 in (λ h. omega arith, λ h. omega arith)

-- What the documentation of etherparse says of `SingleVlanHeader`: the header is four bytes, the tag
-- control information and then the ethernet type of what follows it, and `to_bytes` gives them back.
pub record VlanLaws (parse : Etherparse) : Type 0 where
  pub from_slice :
      (b0 b1 b2 b3 : ℕ) (rest : List ℕ)
      → parse.single_vlan (b0 ∷ b1 ∷ b2 ∷ b3 ∷ rest) ≡ some (b2 * 256 + b3, b0 ∷ b1 ∷ b2 ∷ b3 ∷ [])

module _ (parse : Etherparse) where
  -- The netmap header carries no tag of its own, so the tag is always looked for in the packet.
  pub netmap_no_offload :
      (hdr : Pkthdr) (payload : List ℕ)
      → (nethuns_vlan_tpid_of parse hdr payload ≡ nethuns_vlan_tpid parse payload)
        × (nethuns_vlan_tci_of parse hdr payload ≡ nethuns_vlan_tci parse payload)
  unfolding nethuns_vlan_tpid_of nethuns_vlan_tci_of offvlan_tpid
  netmap_no_offload hdr payload = (refl, refl)
