-- ===== src/Ring.antt =====
-- src/sockets/ring.rs: the ring of packet slots that a socket keeps for each direction.
-- A slot's status is an atomic byte in the source; here a slot holds the status that the byte
-- stands for (`Status` relates the two).
pub mod Status
pub mod FreeSlots
pub mod SendSlot
use rust_nethuns.Common.{
  ℕ, zero, suc, ◌+◌, ◌-◌, ◌%◌, min, Bool, true, false, Option, none, some, List, length, get_elem?,
  replicate, if◌then◌else◌, ◌>>=◌,
}
use rust_nethuns.Common.Words.{sub_usize}
use rust_nethuns.CircularQueue
use rust_nethuns.CircularQueue.{CircularQueue}
use rust_nethuns.Pkthdr.{Pkthdr, default_pkthdr}

pub data RingSlotStatus : Type 0 where
  free in_use in_flight : RingSlotStatus

unfoldable pub is_free : RingSlotStatus → Bool
is_free free = true
is_free in_use = false
is_free in_flight = false

pub record NethunsRingSlot : Type 0 where
  pub status : RingSlotStatus
  pub pkthdr : Pkthdr
  pub id : ℕ
  pub len : ℕ
  pub packet : List ℕ

pub record NethunsRing : Type 0 where
  pub pktsize : ℕ
  pub rings : CircularQueue NethunsRingSlot

unfoldable pub default_with_packet_size : ℕ → NethunsRingSlot
default_with_packet_size pktsize = record {
  status = free;
  pkthdr = default_pkthdr;
  id = 0;
  len = 0;
  packet = replicate pktsize 0;
}

unfoldable pub new : ℕ → ℕ → Option NethunsRing
unfolding default_with_packet_size
new nslots pktsize = do
  rings ← CircularQueue.new nslots (λ _. default_with_packet_size pktsize)
  some (record { pktsize = pktsize; rings = rings })

unfoldable pub get_slot : NethunsRing → ℕ → Option NethunsRingSlot
unfolding CircularQueue.get
get_slot r index = CircularQueue.get r.rings index

-- `get_slot_mut`, and what is stored through the reference that it returns
unfoldable pub set_slot : NethunsRing → ℕ → NethunsRingSlot → Option NethunsRing
unfolding CircularQueue.set_at
set_slot r index slot = do
  rings ← CircularQueue.set_at r.rings index slot
  some (record r { rings = rings })

unfoldable pub size : NethunsRing → ℕ
unfolding CircularQueue.size
size r = CircularQueue.size r.rings

unfoldable pub is_empty : NethunsRing → Bool
unfolding CircularQueue.is_empty
is_empty r = CircularQueue.is_empty r.rings

unfoldable pub is_full : NethunsRing → Bool
unfolding CircularQueue.is_full
is_full r = CircularQueue.is_full r.rings

abbrev pub head : NethunsRing → ℕ
head r = r.rings.head

abbrev pub tail : NethunsRing → ℕ
tail r = r.rings.tail

unfoldable pub advance_head : NethunsRing → NethunsRing
unfolding CircularQueue.advance_head
advance_head r = record r { rings = CircularQueue.advance_head r.rings }

unfoldable pub advance_tail : NethunsRing → NethunsRing
unfolding CircularQueue.advance_tail
advance_tail r = record r { rings = CircularQueue.advance_tail r.rings }

-- The loop of `num_free_slots` over the cells from `pos` on, round the buffer, `n` of them at most.
count_free : List NethunsRingSlot → ℕ → ℕ → ℕ
unfolding is_free
count_free buffer pos zero = 0
count_free buffer pos (suc n) =
    let rest = count_free buffer (pos + 1) n in
    elim (get_elem? buffer (pos % length buffer)) [
      | none ↦ 0
      | some slot ↦ if is_free slot.status then suc rest else 0
    ]

unfoldable pub num_free_slots : NethunsRing → ℕ → ℕ
unfolding count_free size
num_free_slots r pos = count_free r.rings.buffer pos (min (sub_usize (size r) 1) 32)

unfoldable pub nethuns_send_slot : NethunsRing → ℕ → ℕ → Option (Bool × NethunsRing)
unfolding get_slot set_slot is_free
nethuns_send_slot r id len = do
  slot ← get_slot r id
  if is_free slot.status
      then (do r' ← set_slot r id (record slot { len = len; status = in_use }); some (true, r'))
      else some (false, r)

-- The macro `nethuns_ring_free_slots`: from the tail on, hand each free slot to `free_macro` and
-- advance, until the ring is empty or a slot is still taken. The fuel bounds the rounds.
module _ {ℓ} {S : Type ℓ} (free_macro : S → NethunsRingSlot → Option S) where
  unfoldable pub free_slots_loop : ℕ → NethunsRing → S → Option (NethunsRing × S)
  unfolding get_slot is_empty is_free advance_tail
  free_slots_loop zero r s = none
  free_slots_loop (suc fuel) r s = elim (get_slot r (tail r)) [
    | none ↦ none
    | some slot ↦ elim (is_empty r) [
      | true ↦ some (r, s)
      | false ↦ elim (is_free slot.status) [
        | false ↦ some (r, s)
        | true ↦ elim (free_macro s slot) [
          | none ↦ none
          | some s' ↦ free_slots_loop fuel (advance_tail r) s'
        ]
      ]
    ]
  ]

-- The slots between the tail and the head.
abbrev pub outstanding : NethunsRing → ℕ
outstanding r = sub_usize r.rings.head r.rings.tail

-- One round for each slot that can be freed, and one to see that none is left.
unfoldable pub nethuns_ring_free_slots {ℓ} :
    {S : Type ℓ} → (S → NethunsRingSlot → Option S) → NethunsRing → S → Option (NethunsRing × S)
unfolding free_slots_loop
nethuns_ring_free_slots free_macro r s = free_slots_loop free_macro (suc (outstanding r)) r s
