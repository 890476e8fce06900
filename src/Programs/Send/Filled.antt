-- ===== src/Programs/Send/Filled.antt =====
-- The ring that examples/send.rs fills for the transmission without copies.
use rust_nethuns.Common.{
  ℕ, zero, suc, ◌+◌, ◌^◌, ◌≤◌, ◌<◌, ◌≡◌, ◌∙◌, ◌==◌, refl, ap, subst, true, some, inl, inr, List,
  ◌++◌, ◌>>=◌, length, length-append, take, Option, none, drop, take-append_exact, leb, le→leb,
  eq→==, Bool-cases, arith,
}
use native.Mathlib.Decide.{ℕ_discrete}
use rust_nethuns.CircularQueue.Valid.{IsShaped}
use rust_nethuns.Ring.{NethunsRing, NethunsRingSlot}
use rust_nethuns.Ring
use rust_nethuns.Ring.SendSlot.{get_slot-some}
use rust_nethuns.Netmap.{NetmapIf, NethunsSocketNetmap, netmap_buf, set_buf, txring_get_size}
use rust_nethuns.Netmap.Api.{NetmapApi}
use rust_nethuns.Netmap.Bind.Pool.{size_eq}
use rust_nethuns.Netmap.Send.{get_packet_buffer_ref, buffer_ref_on, nethuns_get_buf_addr}
use rust_nethuns.Netmap.Flush.Total.{TxReady}
use rust_nethuns.Programs.Send.{Args, write_all, fill_slots, fill_tx_ring}

module _ (packet : List ℕ) where
  -- The packet fits every buffer.
  abbrev pub IsRoomy : NetmapIf → Type 0
  IsRoomy nifp = (i : ℕ) → length packet ≤ length (netmap_buf nifp i)

  -- The packet stands at the start of a buffer.
  abbrev pub Starts : NetmapIf → ℕ → Type 0
  Starts nifp i = take (length packet) (netmap_buf nifp i) ≡ packet

  abbrev written : NetmapIf → ℕ → NetmapIf
  written nifp dst = set_buf nifp dst (packet ++ drop (length packet) (netmap_buf nifp dst))

  abbrev with_nifp : NethunsSocketNetmap → NetmapIf → NethunsSocketNetmap
  with_nifp s nifp = record s { p = record (s.p) { nifp = nifp } }

  written-Starts_self : (nifp : NetmapIf) (dst : ℕ) → Starts (written nifp dst) dst
  written-Starts_self nifp dst =
      rw (eq→== dst dst refl)
        (take-append_exact packet (drop (length packet) (netmap_buf nifp dst)) (length packet) refl)

  -- Writing the packet anywhere keeps it where it stands.
  written-Starts : (nifp : NetmapIf) (dst i : ℕ) → Starts nifp i → Starts (written nifp dst) i
  written-Starts nifp dst i h = elim (Bool-cases (dst == i)) [
    | inl hit ↦
        rw hit (
          take-append_exact packet (drop (length packet) (netmap_buf nifp dst)) (length packet)
            refl)
    | inr miss ↦ rw miss h
  ]

  written-IsRoomy : (nifp : NetmapIf) (dst : ℕ) → IsRoomy nifp → IsRoomy (written nifp dst)
  written-IsRoomy nifp dst room i = elim (Bool-cases (dst == i)) [
    | inl hit ↦
        rw hit (omega (arith, length-append packet (drop (length packet) (netmap_buf nifp dst))))
    | inr miss ↦ rw miss (room i)
  ]

  module _ {bits : ℕ} (tx : NethunsRing) (v : IsShaped bits tx.rings) where
    found_buffer :
        (s : NethunsSocketNetmap) (j : ℕ) (slot : NethunsRingSlot)
        → s.base.tx_ring ≡ some tx
        → Ring.get_slot tx j ≡ some slot
        → get_packet_buffer_ref s j ≡ some (some slot.pkthdr.buf_idx)
    unfolding get_packet_buffer_ref nethuns_get_buf_addr
    found_buffer s j slot on here = ap (buffer_ref_on j) on ∙ rw here refl

    -- From position `j` on, `n` slots.
    fill_slots_lem :
        (n j : ℕ) (s : NethunsSocketNetmap)
        → s.base.tx_ring ≡ some tx
        → IsRoomy s.p.nifp
        → (nifp : NetmapIf) × (fill_slots n j packet s ≡ some (true, with_nifp s nifp))
          × (nifp.tx_rings ≡ s.p.nifp.tx_rings)
          × ((i : ℕ) → Starts s.p.nifp i → Starts nifp i)
          × ((k : ℕ) (slot : NethunsRingSlot)
              → j ≤ k
              → k < j + n
              → Ring.get_slot tx k ≡ some slot
              → Starts nifp slot.pkthdr.buf_idx)
    unfolding fill_slots write_all
    fill_slots_lem zero j s on room =
        (s.p.nifp, refl, refl, λ i h. h, λ k slot above below here. absurd (omega arith))
    fill_slots_lem (suc n) j s on room =
        let (slot, here) = get_slot-some tx v j in
        let dst = slot.pkthdr.buf_idx in
        let nifp1 = written s.p.nifp dst in
        let (nifp, run, rings, kept, filled) =
          fill_slots_lem n (j + 1) (with_nifp s nifp1) on (written-IsRoomy s.p.nifp dst room) in
        let fits : leb (length packet) (length (netmap_buf s.p.nifp dst)) ≡ true =
          le→leb _ _ (room dst) in
        (
          nifp,
          rw (fill_slots, found_buffer s j slot on here, ◌>>=◌, fits) run,
          rings,
          λ i h. kept i (written-Starts s.p.nifp dst i h),
          λ k slot' above below here'. elim (ℕ_discrete k j) [
            | yes same ↦
                let one : slot ≡ slot' = ground (arith, here, here', ap (Ring.get_slot tx) same) in
                kept slot'.pkthdr.buf_idx (
                  subst (Starts nifp1) (ap (λ (x : NethunsRingSlot). x.pkthdr.buf_idx) one)
                    (written-Starts_self s.p.nifp dst))
            | no later ↦ filled k slot' (omega arith) (omega arith) here'
          ],
        )

txring_get_size-some :
    {bits : ℕ} (s : NethunsSocketNetmap) (tx : NethunsRing)
    → s.base.tx_ring ≡ some tx
    → IsShaped bits tx.rings
    → txring_get_size s ≡ some (2 ^ bits)
unfolding txring_get_size
txring_get_size-some s tx on v =
    ap (λ (o : Option NethunsRing). elim o [ none ↦ none | some r ↦ some (Ring.size r) ]) on
    ∙ ap some (size_eq tx v)

-- Filling the ring for the transmission without copies does not panic: the packet then stands at the
-- start of the buffer of every slot, so that `send_slot` sends it, and the socket is ready to transmit.
-- The conditions are that it was ready before, and that the packet fits every buffer.
pub fill_tx_ring_lem :
    {api : NetmapApi} {bits : ℕ} {tails : List ℕ} (args : Args) (packet : List ℕ)
    (s : NethunsSocketNetmap) (tx : NethunsRing)
    → args.zerocopy ≡ true
    → TxReady api bits s tx tails
    → IsRoomy packet s.p.nifp
    → (s' : NethunsSocketNetmap) × (fill_tx_ring args packet s ≡ some (true, s'))
      × TxReady api bits s' tx tails
      × ((k : ℕ) (slot : NethunsRingSlot)
          → k < 2 ^ bits
          → Ring.get_slot tx k ≡ some slot
          → Starts packet s'.p.nifp slot.pkthdr.buf_idx)
unfolding fill_tx_ring
fill_tx_ring_lem {bits} args packet s tx zc v room =
    let (nifp, run, rings, _, filled) =
      fill_slots_lem packet tx v.cells.shape (2 ^ bits) 0 s v.tx_eq room in
    (
      record s { p = record (s.p) { nifp = nifp } },
      rw (zc, txring_get_size-some s tx v.tx_eq v.cells.shape) run,
      record {
        tx_eq = v.tx_eq;
        cells = v.cells;
        rings = rw rings v.rings;
        range = v.range;
        small = v.small;
      },
      λ k slot below here. filled k slot (omega arith) (omega arith) here,
    )
