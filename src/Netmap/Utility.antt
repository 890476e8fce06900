-- ===== src/Netmap/Utility.antt =====
-- src/sockets/api/netmap/utility.rs: the search for a reception ring with packets, and the return
-- of a buffer to the free ring.
use rust_nethuns.Common.{
  ℕ, zero, suc, ◌+◌, ◌-◌, ◌==◌, Bool, true, false, Option, none, some, ltb, if◌then◌else◌, Result,
  ok, err,
}
use rust_nethuns.CircularQueue.{CircularQueue}
use rust_nethuns.CircularQueue
use rust_nethuns.Ring.{NethunsRingSlot}
use rust_nethuns.Errors.{NethunsRecvError}
use rust_nethuns.Netmap.{NetmapRing, NmPortDescriptor, netmap_rxring}

-- The next ring of the search, from the last one back to the first. (The indices are far below the
-- range of the C field.)
abbrev pub next_ring : NmPortDescriptor → ℕ → ℕ
next_ring d ri = if ltb d.last_rx_ring (ri + 1) then d.first_rx_ring else ri + 1

abbrev pub has_packets : NetmapRing → Bool
has_packets ring = if ring.cur == ring.tail then false else true

-- The loop, from ring `ri` on. `none` is a panic, or fuel that runs out.
unfoldable pub search_from :
    ℕ → NmPortDescriptor → ℕ → Option (Result ℕ NethunsRecvError × NmPortDescriptor)
unfolding netmap_rxring
search_from zero d ri = none
search_from (suc fuel) d ri = elim (netmap_rxring d.nifp ri) [
  | none ↦ none
  | some ring ↦ elim (has_packets ring) [
    | true ↦ some (ok ri, record d { cur_rx_ring = ri })
    | false ↦ elim (next_ring d ri == d.cur_rx_ring) [
      | true ↦ some (err NethunsRecvError.no_packets_available, d)
      | false ↦ search_from fuel d (next_ring d ri)
    ]
  ]
]

-- One round for each reception ring. The ring that is found is given by its index.
unfoldable pub non_empty_rx_ring :
    NmPortDescriptor → Option (Result ℕ NethunsRecvError × NmPortDescriptor)
unfolding search_from
non_empty_rx_ring d = search_from (suc d.last_rx_ring - d.first_rx_ring) d d.cur_rx_ring

-- The macro `nethuns_blocks_free`, whose socket is here its free ring.
unfoldable pub nethuns_blocks_free : CircularQueue ℕ → NethunsRingSlot → Option (CircularQueue ℕ)
unfolding CircularQueue.push_unchecked
nethuns_blocks_free free_ring slot = CircularQueue.push_unchecked free_ring slot.pkthdr.buf_idx
