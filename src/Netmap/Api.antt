-- ===== src/Netmap/Api.antt =====
-- What the program takes from the netmap library and the kernel, which are not part of the
-- repository: the next index of a ring, a flag, and the two synchronisation calls.
use rust_nethuns.Common.{ℕ, Bool, ◌≡◌, List, length, map, gather}
use rust_nethuns.Netmap.{NetmapSlot, NetmapRing, NmPortDescriptor}

pub record NetmapApi : Type 0 where
  -- `nm_ring_next`
  pub nm_ring_next : NetmapRing → ℕ → ℕ
  -- `NS_BUF_CHANGED`
  pub ns_buf_changed : ℕ
  -- `ioctl(fd, NIOCRXSYNC)`, whose result the program does not look at
  pub rx_sync : NmPortDescriptor → NmPortDescriptor
  -- `ioctl(fd, NIOCTXSYNC)`, and whether it succeeded
  pub tx_sync : NmPortDescriptor → Bool × NmPortDescriptor

-- The buffers in the slots of some rings.
abbrev pub slot_bufs : List NetmapSlot → List ℕ
slot_bufs slots = map (λ slot. slot.buf_idx) slots

abbrev pub ring_bufs : List NetmapRing → List ℕ
ring_bufs rings = gather (λ ring. slot_bufs ring.slots) rings

-- The descriptor is memory of the process, which the kernel does not write, and the kernel neither
-- moves the rings nor exchanges the buffers in their slots.
pub record RxSyncLaws (api : NetmapApi) : Type 0 where
  pub same_first : (d : NmPortDescriptor) → (api.rx_sync d).first_rx_ring ≡ d.first_rx_ring
  pub same_last : (d : NmPortDescriptor) → (api.rx_sync d).last_rx_ring ≡ d.last_rx_ring
  pub same_cur : (d : NmPortDescriptor) → (api.rx_sync d).cur_rx_ring ≡ d.cur_rx_ring
  pub same_rings :
      (d : NmPortDescriptor) → length (api.rx_sync d).nifp.rx_rings ≡ length d.nifp.rx_rings
  pub same_bufs :
      (d : NmPortDescriptor) → ring_bufs (api.rx_sync d).nifp.rx_rings ≡ ring_bufs d.nifp.rx_rings
