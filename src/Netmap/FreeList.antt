-- ===== src/Netmap/FreeList.antt =====
-- The list of extra buffers that netmap keeps in the buffers themselves: `ni_bufs_head` is the
-- first index, and the first four bytes of a buffer hold the next one, 0 at the end. These are the
-- loops over it in `bind` (src/sockets/api/netmap/bindable_socket.rs) and in `drop`
-- (src/sockets/api/netmap/nethuns_socket.rs).
pub mod Chains
use rust_nethuns.Common.{
  ℕ, zero, suc, ◌+◌, ◌*◌, ◌/◌, ◌%◌, ◌^◌, ◌==◌, Bool, true, false, Option, none, some, List, [], ◌∷◌,
  if◌then◌else◌, ◌>>=◌,
}
use rust_nethuns.CircularQueue.{CircularQueue}
use rust_nethuns.CircularQueue
use rust_nethuns.Ring.{NethunsRing}
use rust_nethuns.Ring
use rust_nethuns.Netmap.{NetmapIf, netmap_buf, set_buf}

-- A `u32` in the first four bytes, least significant first. A buffer is never shorter.
unfoldable pub read_u32 : List ℕ → ℕ
read_u32 (a ∷ b ∷ c ∷ d ∷ rest) = a + 256 * (b + 256 * (c + 256 * d))
read_u32 _ = 0

unfoldable pub write_u32 : List ℕ → ℕ → List ℕ
write_u32 (a ∷ b ∷ c ∷ d ∷ rest) v =
    (v % 256) ∷ (v / 256 % 256) ∷ (v / 65536 % 256) ∷ (v / 16777216 % 256) ∷ rest
write_u32 bytes v = bytes

-- The index after `scan` in the list.
unfoldable pub next_buf : NetmapIf → ℕ → ℕ
unfolding read_u32
next_buf nifp scan = read_u32 (netmap_buf nifp scan)

-- `*next = ni_bufs_head; ni_bufs_head = idx`
unfoldable pub release_buf : NetmapIf → ℕ → NetmapIf
unfolding write_u32
release_buf nifp idx =
    record (set_buf nifp idx (write_u32 (netmap_buf nifp idx) nifp.ni_bufs_head)) {
      ni_bufs_head = idx;
    }

-- The transmission slots from `i` on, `n` of them, take the buffers of the list in order.
unfoldable pub fill_tx_ring : NetmapIf → ℕ → ℕ → NethunsRing → ℕ → Option (NethunsRing × ℕ)
unfolding next_buf Ring.get_slot Ring.set_slot
fill_tx_ring nifp zero i tx_ring scan = some (tx_ring, scan)
fill_tx_ring nifp (suc n) i tx_ring scan = do
  slot ← Ring.get_slot tx_ring i
  tx_ring' ←
      Ring.set_slot tx_ring i (record slot { pkthdr = record (slot.pkthdr) { buf_idx = scan } })
  fill_tx_ring nifp n (i + 1) tx_ring' (next_buf nifp scan)

-- The rest of the list goes to the free ring. `none` if the fuel runs out before the list ends.
unfoldable pub fill_free_ring : NetmapIf → ℕ → CircularQueue ℕ → ℕ → Option (CircularQueue ℕ)
unfolding next_buf CircularQueue.push_unchecked
fill_free_ring nifp zero free_ring scan = if scan == 0 then some free_ring else none
fill_free_ring nifp (suc fuel) free_ring scan = elim (scan == 0) [
  | true ↦ some free_ring
  | false ↦ elim (CircularQueue.push_unchecked free_ring scan) [
    | none ↦ none
    | some free_ring' ↦ fill_free_ring nifp fuel free_ring' (next_buf nifp scan)
  ]
]

-- The first loop of `drop`: the buffers of the transmission slots, from slot `i` on.
unfoldable pub release_tx_ring : ℕ → ℕ → NethunsRing → NetmapIf → Option NetmapIf
unfolding release_buf Ring.get_slot
release_tx_ring zero i tx_ring nifp = some nifp
release_tx_ring (suc n) i tx_ring nifp = do
  slot ← Ring.get_slot tx_ring i
  release_tx_ring n (i + 1) tx_ring (release_buf nifp slot.pkthdr.buf_idx)

-- The second loop of `drop`: the buffers of the free ring, until it is empty.
unfoldable pub release_free_ring :
    ℕ → CircularQueue ℕ → NetmapIf → Option (CircularQueue ℕ × NetmapIf)
unfolding release_buf CircularQueue.is_empty CircularQueue.clone_pop_unchecked
release_free_ring zero free_ring nifp = none
release_free_ring (suc fuel) free_ring nifp = elim (CircularQueue.is_empty free_ring) [
  | true ↦ some (free_ring, nifp)
  | false ↦ elim (CircularQueue.clone_pop_unchecked free_ring) [
    | none ↦ none
    | some (idx, free_ring') ↦ release_free_ring fuel free_ring' (release_buf nifp idx)
  ]
]
