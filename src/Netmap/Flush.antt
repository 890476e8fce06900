-- ===== src/Netmap/Flush.antt =====
-- `flush` of src/sockets/api/netmap/nethuns_socket.rs: the slots marked for sending exchange their
-- buffers with the netmap slots of the port's transmission rings, and get them back when the kernel
-- has sent them.
pub mod Links
pub mod Push
pub mod Clean
pub mod Port
pub mod Total
use rust_nethuns.Common.{
  ℕ, zero, suc, ◌+◌, ◌-◌, ◌==◌, Bool, true, false, not, ◌||◌, Option, none, some, List, [], ◌∷◌,
  get_elem?, set, length, ltb, if◌then◌else◌, ◌>>=◌, Result, ok, err, bit_and,
}
use rust_nethuns.Common.Words.{wrapping_inc}
use rust_nethuns.Ring.{NethunsRing, NethunsRingSlot, RingSlotStatus, free, in_use, in_flight}
use rust_nethuns.Ring
use rust_nethuns.Errors.{NethunsFlushError}
use rust_nethuns.Netmap.{
  NetmapSlot, NetmapRing, NetmapIf, NmPortDescriptor, NethunsSocketNetmap, nm_ring_empty,
  netmap_txring, set_txring, get_slot, set_netmap_slot,
}
use rust_nethuns.Netmap.Api.{NetmapApi}
use rust_nethuns.Netmap.Send.{with_tx}

unfoldable pub is_in_use : RingSlotStatus → Bool
is_in_use free = false
is_in_use in_use = true
is_in_use in_flight = false

-- The slot in flight, with the buffer of the netmap slot.
abbrev pub launched : NethunsRingSlot → NetmapSlot → NethunsRingSlot
launched slot ns = record slot {
  status = in_flight;
  pkthdr = record (slot.pkthdr) { buf_idx = ns.buf_idx };
}

-- The slot of a packet that has been sent, with its buffer back.
abbrev pub landed : NethunsRingSlot → NetmapSlot → NethunsRingSlot
landed slot ns = record slot {
  status = free;
  pkthdr = record (slot.pkthdr) { buf_idx = ns.buf_idx };
}

abbrev pub with_cells : NethunsRing → List NethunsRingSlot → NethunsRing
with_cells tx cells = record tx { rings = record (tx.rings) { buffer = cells } }

abbrev pub Flushed : Type 0
Flushed = Result (Unit {0}) NethunsFlushError × NethunsSocketNetmap

abbrev pub with_port : NethunsSocketNetmap → NmPortDescriptor → NethunsRing → NethunsSocketNetmap
with_port s p tx = record (with_tx s tx) { p = p }

-- The body of the second inner loop. A null pointer in the netmap slot is a fault.
unfoldable pub clean_slot :
    NetmapRing
    → NethunsRing
    → ℕ
    → Option (Result (Unit {0}) NethunsFlushError × NetmapRing × NethunsRing)
unfolding get_slot
clean_slot ring tx scan = elim (get_slot ring scan NethunsFlushError.framework_error) [
  | err e ↦ some (err e, ring, tx)
  | ok ns ↦ do
    cell ← ns.ptr
    slot ← get_elem? tx.rings.buffer cell
    some (
      ok tt,
      set_netmap_slot ring scan (record ns { buf_idx = slot.pkthdr.buf_idx }),
      with_cells tx (set tx.rings.buffer cell (landed slot ns)),
    )
]

module _ (api : NetmapApi) where
  -- The netmap ring with a packet at its head, whose netmap slot remembers the nethuns slot, and the
  -- head moved on.
  abbrev pub loaded : NetmapRing → NetmapSlot → NethunsRingSlot → ℕ → NetmapRing
  loaded ring ns slot cell =
      record (set_netmap_slot ring ring.head (record ns {
        buf_idx = slot.pkthdr.buf_idx;
        len = slot.len;
        flags = api.ns_buf_changed;
        ptr = some cell;
      })) { cur = api.nm_ring_next ring ring.head; head = api.nm_ring_next ring ring.head }

  -- The body of the first inner loop, for a slot in use and a ring with room. A length that does not
  -- fit 16 bits panics.
  unfoldable pub push_slot :
      NetmapRing
      → NethunsRing
      → ℕ
      → NethunsRingSlot
      → Option (Result NetmapRing NethunsFlushError × NethunsRing)
  unfolding get_slot Ring.set_slot Ring.advance_head
  push_slot ring tx head slot = elim (get_slot ring ring.head NethunsFlushError.framework_error) [
    | err e ↦ do tx' ← Ring.set_slot tx head (record slot { status = in_flight }); some (err e, tx')
    | ok ns ↦ elim (ltb 65535 slot.len) [
      | true ↦ none
      | false ↦ do
        tx' ← Ring.set_slot tx head (launched slot ns)
        some (ok (loaded ring ns slot (bit_and head tx.rings.mask)), Ring.advance_head tx')
    ]
  ]

  -- The first inner loop, from slot `head` on. `none` is a panic, or fuel that runs out.
  unfoldable pub push_packets :
      ℕ
      → NetmapRing
      → NethunsRing
      → ℕ
      → Option (Result (Unit {0}) NethunsFlushError × NetmapRing × NethunsRing × ℕ)
  unfolding Ring.get_slot nm_ring_empty is_in_use push_slot
  push_packets zero ring tx head = none
  push_packets (suc fuel) ring tx head = elim (Ring.get_slot tx head) [
    | none ↦ none
    | some slot ↦ elim (nm_ring_empty ring || not (is_in_use slot.status)) [
      | true ↦ some (ok tt, ring, tx, head)
      | false ↦ elim (push_slot ring tx head slot) [
        | none ↦ none
        | some (err e, tx') ↦ some (err e, ring, tx', head)
        | some (ok ring', tx') ↦ push_packets fuel ring' tx' (wrapping_inc head)
      ]
    ]
  ]

  -- The first loop over `n` rings from ring `i` on, and the tails that the rings had. A round for
  -- each slot that can be in use, and one to see that none is left.
  unfoldable pub push_rings :
      ℕ
      → ℕ
      → NetmapIf
      → NethunsRing
      → ℕ
      → Option (Result (List ℕ) NethunsFlushError × NetmapIf × NethunsRing)
  unfolding netmap_txring push_packets
  push_rings zero i nifp tx head = some (ok [], nifp, tx)
  push_rings (suc n) i nifp tx head = elim (netmap_txring nifp i) [
    | none ↦ none
    | some ring ↦ elim (push_packets (suc (length tx.rings.buffer)) ring tx head) [
      | none ↦ none
      | some (err e, ring', tx', head') ↦ some (err e, set_txring nifp i ring', tx')
      | some (ok _, ring', tx', head') ↦
          elim (push_rings n (i + 1) (set_txring nifp i ring') tx' head') [
            | none ↦ none
            | some (err e, nifp', tx'') ↦ some (err e, nifp', tx'')
            | some (ok tails, nifp', tx'') ↦ some (ok (ring.tail ∷ tails), nifp', tx'')
          ]
    ]
  ]

  -- The second inner loop, from netmap slot `scan` to `stop`.
  unfoldable pub clean_slots :
      ℕ
      → NetmapRing
      → NethunsRing
      → ℕ
      → ℕ
      → Option (Result (Unit {0}) NethunsFlushError × NetmapRing × NethunsRing)
  unfolding clean_slot
  clean_slots zero ring tx scan stop = none
  clean_slots (suc fuel) ring tx scan stop = elim (scan == stop) [
    | true ↦ some (ok tt, ring, tx)
    | false ↦ elim (clean_slot ring tx scan) [
      | none ↦ none
      | some (err e, ring', tx') ↦ some (err e, ring', tx')
      | some (ok _, ring', tx') ↦ clean_slots fuel ring' tx' (api.nm_ring_next ring' scan) stop
    ]
  ]

  -- The second loop over the rings, from ring `i` on, with the tails from before.
  unfoldable pub clean_rings :
      List ℕ
      → ℕ
      → NetmapIf
      → NethunsRing
      → Option (Result (Unit {0}) NethunsFlushError × NetmapIf × NethunsRing)
  unfolding netmap_txring clean_slots
  clean_rings [] i nifp tx = some (ok tt, nifp, tx)
  clean_rings (prev ∷ tails) i nifp tx = elim (netmap_txring nifp i) [
    | none ↦ none
    | some ring ↦
        elim (clean_slots (suc (length ring.slots)) ring tx (api.nm_ring_next ring prev)
          (api.nm_ring_next ring ring.tail)) [
            | none ↦ none
            | some (err e, ring', tx') ↦ some (err e, set_txring nifp i ring', tx')
            | some (ok _, ring', tx') ↦ clean_rings tails (i + 1) (set_txring nifp i ring') tx'
          ]
  ]

  -- The end of `flush`: the synchronisation, and the second loop.
  unfoldable pub sync_and_clean : NethunsSocketNetmap → NethunsRing → List ℕ → Option Flushed
  unfolding clean_rings
  sync_and_clean s tx tails =
      let (done, p) = api.tx_sync s.p in
      elim done [
        | false ↦ some (err NethunsFlushError.error, with_port s p tx)
        | true ↦ do
          (res, nifp, tx') ← clean_rings tails p.first_tx_ring p.nifp tx
          some (res, with_port s (record p { nifp = nifp }) tx')
      ]

  unfoldable pub flush_on : NethunsSocketNetmap → Option NethunsRing → Option Flushed
  unfolding push_rings sync_and_clean
  flush_on s none = some (err NethunsFlushError.not_tx, s)
  flush_on s (some tx) =
      elim (push_rings (suc s.p.last_tx_ring - s.p.first_tx_ring) s.p.first_tx_ring s.p.nifp tx
        (Ring.head tx)) [
          | none ↦ none
          | some (err e, nifp, tx') ↦ some (err e, with_port s (record (s.p) { nifp = nifp }) tx')
          | some (ok tails, nifp, tx') ↦
              sync_and_clean (with_port s (record (s.p) { nifp = nifp }) tx') tx' tails
        ]

  unfoldable pub flush : NethunsSocketNetmap → Option Flushed
  unfolding flush_on
  flush s = flush_on s s.base.tx_ring
