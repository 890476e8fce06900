-- ===== src/Netmap/Close.antt =====
-- `drop` of a socket (src/sockets/api/netmap/nethuns_socket.rs): its buffers go back to the list
-- that netmap keeps in the buffers themselves.
use rust_nethuns.Common.{
  ℕ, suc, ◌+◌, ◌^◌, ◌<◌, ◌≡◌, ◌∙◌, refl, ap, Bool, true, false, Option, none, some, List, [], ◌∷◌,
  ◌++◌, length, ◌>>=◌,
}
use rust_nethuns.CircularQueue.Valid.{count}
use rust_nethuns.CircularQueue.Refine.{Holds}
use rust_nethuns.Misc.{IfCalls, Process, nethuns_clear_if_promisc}
use rust_nethuns.Ring
use rust_nethuns.Ring.{NethunsRing, NethunsRingSlot}
use rust_nethuns.Netmap.{NetmapIf, NethunsSocketNetmap}
use rust_nethuns.Netmap.FreeList.{release_buf, release_tx_ring, release_free_ring}
use rust_nethuns.Netmap.FreeList.Chains.{
  Chain, AreReleasable, onto, release-AreReleasable, Chain-release, release_free_ring_lem,
}

unfoldable pub release_tx : Option NethunsRing → NetmapIf → Option NetmapIf
unfolding release_tx_ring Ring.size
release_tx none nifp = some nifp
release_tx (some tx_ring) nifp = release_tx_ring (Ring.size tx_ring) 0 tx_ring nifp

-- The promiscuous mode is given up if the socket asked for it; a failure of that is only printed.
unfoldable pub leave_promisc :
    {W : Type 0} → IfCalls W → Bool → List ℕ → Process W → Option (Process W)
unfolding nethuns_clear_if_promisc
leave_promisc calls false dev proc = some proc
leave_promisc calls true dev proc = do
  (left, proc') ← nethuns_clear_if_promisc calls proc dev
  some proc'

-- The socket when its buffers have been given back: one round for each buffer of the free ring, and
-- one to see that none is left.
unfoldable pub give_back : NethunsSocketNetmap → Option NethunsSocketNetmap
unfolding release_tx release_free_ring
give_back s = do
  nifp ← release_tx s.base.tx_ring s.p.nifp
  (free_ring, nifp') ← release_free_ring (suc (count s.free_ring)) s.free_ring nifp
  some (record s { p = record (s.p) { nifp = nifp' }; free_ring = free_ring })

unfoldable pub drop_socket :
    {W : Type 0}
    → IfCalls W
    → NethunsSocketNetmap
    → Process W
    → Option (NethunsSocketNetmap × Process W)
unfolding leave_promisc give_back
drop_socket calls s proc = do
  proc' ← leave_promisc calls s.base.opt.promisc s.base.devname proc
  s' ← give_back s
  some (s', proc')

-- The slots from position `i` on have these buffers.
abbrev pub HasBuffers : NethunsRing → ℕ → List ℕ → Type 0
HasBuffers r i [] = Unit
HasBuffers r i (x ∷ xs) =
    ((slot : NethunsRingSlot) × (Ring.get_slot r i ≡ some slot) × (slot.pkthdr.buf_idx ≡ x))
    × HasBuffers r (i + 1) xs

release_buf-small :
    (nifp : NetmapIf) (x : ℕ) → x < 2 ^ 32 → (release_buf nifp x).ni_bufs_head < 2 ^ 32
unfolding release_buf
release_buf-small nifp x h = h

release_tx_ring_lem :
    (xs zs ys : List ℕ) (i : ℕ) (r : NethunsRing) (nifp : NetmapIf)
    → HasBuffers r i xs
    → AreReleasable nifp (xs ++ zs) ys
    → nifp.ni_bufs_head < 2 ^ 32
    → Chain nifp nifp.ni_bufs_head ys
    → (nifp' : NetmapIf) × (release_tx_ring (length xs) i r nifp ≡ some nifp')
      × AreReleasable nifp' zs (onto xs ys)
      × (nifp'.ni_bufs_head < 2 ^ 32)
      × Chain nifp' nifp'.ni_bufs_head (onto xs ys)
unfolding release_tx_ring
release_tx_ring_lem [] zs ys i r nifp b a l c = (nifp, refl, a, l, c)
release_tx_ring_lem (x ∷ xs) zs ys i r nifp ((slot, here, e), b) (ok_x, f, a) l c =
    let (nifp', run, a', l', c') =
      release_tx_ring_lem xs zs (x ∷ ys) (i + 1) r (release_buf nifp x) b
        (release-AreReleasable nifp x (xs ++ zs) (x ∷ ys) a) (release_buf-small nifp x ok_x.1)
        (Chain-release nifp x ys ok_x l f c) in
    (nifp', rw (here, e) run, a', l', c')

release_tx-sized :
    (tx_ring : NethunsRing) (nifp : NetmapIf) {n : ℕ}
    → Ring.size tx_ring ≡ n
    → release_tx (some tx_ring) nifp ≡ release_tx_ring n 0 tx_ring nifp
unfolding release_tx
release_tx-sized tx_ring nifp e = ap (λ k. release_tx_ring k 0 tx_ring nifp) e

-- Closing a socket that transmits never faults, unless giving up the promiscuous mode does:
-- afterwards the list of netmap holds the buffers of
-- its transmission slots and of its free ring, the last one given back first, before those that the
-- list had, and the free ring is empty. The condition is that these buffers are all different and
-- none of them is in the list.
pub drop_socket_lem :
    {W : Type 0} (calls : IfCalls W) {bits : ℕ} (s : NethunsSocketNetmap) (proc proc' : Process W)
    (tx_ring : NethunsRing) (xs zs ys : List ℕ)
    → leave_promisc calls s.base.opt.promisc s.base.devname proc ≡ some proc'
    → s.base.tx_ring ≡ some tx_ring
    → Ring.size tx_ring ≡ length xs
    → HasBuffers tx_ring 0 xs
    → Holds bits s.free_ring zs
    → AreReleasable s.p.nifp (xs ++ zs) ys
    → s.p.nifp.ni_bufs_head < 2 ^ 32
    → Chain s.p.nifp s.p.nifp.ni_bufs_head ys
    → (s' : NethunsSocketNetmap) × (drop_socket calls s proc ≡ some (s', proc'))
      × Holds bits s'.free_ring []
      × Chain s'.p.nifp s'.p.nifp.ni_bufs_head (onto zs (onto xs ys))
unfolding drop_socket give_back
drop_socket_lem calls s proc proc' tx_ring xs zs ys left on sized b h a l c =
    let (nifp', run, a', l', c') = release_tx_ring_lem xs zs ys 0 tx_ring s.p.nifp b a l c in
    let (q', nifp'', run', h', c'') =
      release_free_ring_lem zs (onto xs ys) nifp' s.free_ring h a' l' c' in
    let first =
      ap (λ o. release_tx o s.p.nifp) on ∙ release_tx-sized tx_ring s.p.nifp sized ∙ run in
    (
      record s { p = record (s.p) { nifp = nifp'' }; free_ring = q' },
      rw (left, give_back, first, ← h.counted, run'),
      h',
      c'',
    )
