-- ===== src/Netmap/Lifetime.antt =====
-- The life of a socket (src/sockets/api/netmap/bindable_socket.rs and nethuns_socket.rs): bound with the
-- promiscuous mode of src/misc.rs, and dropped.
use rust_nethuns.Common.{
  ℕ, suc, ◌^◌, ◌≤◌, ◌≡◌, ◌∙◌, ap, ◌⊎◌, inl, inr, refl, sym, true, some, List, [], ◌∷◌, ◌++◌, length,
  Result, ok, err, arith,
}
use rust_nethuns.CircularQueue.Valid.{IsShaped}
use rust_nethuns.Types.{NethunsQueue, NethunsSocketOptions}
use rust_nethuns.Errors.{NethunsBindError}
use rust_nethuns.Ring.{NethunsRing}
use rust_nethuns.Misc.{IfCalls, Process}
use rust_nethuns.Misc.Mode.{ModeLaws}
use rust_nethuns.Misc.Counted.{IsCounted}
use rust_nethuns.Misc.Users.{set_lem, clear_lem}
use rust_nethuns.Netmap.{NetmapIf, NmPortDescriptor, NethunsSocketBase, NethunsSocketNetmap}
use rust_nethuns.Netmap.RingSearch.{IsSearchable}
use rust_nethuns.Netmap.Outstanding.{Outstanding}
use rust_nethuns.Netmap.Recv.Inv.{RxInv}
use rust_nethuns.Netmap.FreeList.Chains.{Chain, AreReleasable, onto}
use rust_nethuns.Netmap.Bind.{BindApi, Bound, base_with, ask_promisc, after_asked, deal_buffers}
use rust_nethuns.Netmap.Bind.Pool.{size_eq, deal_buffers_lem}
use rust_nethuns.Netmap.Close.{leave_promisc, drop_socket, drop_socket_lem}

-- Clearing the list changes none of its buffers.
AreReleasable-cleared :
    (nifp : NetmapIf) (xs ys : List ℕ)
    → AreReleasable nifp xs ys
    → AreReleasable (record nifp { ni_bufs_head = 0 }) xs ys
AreReleasable-cleared nifp [] ys a = tt
AreReleasable-cleared nifp (x ∷ xs) ys (b, f, a) = (b, f, AreReleasable-cleared nifp xs (x ∷ ys) a)

module _ {W : Type 0} {calls : IfCalls W} {dev : List ℕ} (laws : ModeLaws calls dev) where
  -- Asking for the mode makes one more user, or fails.
  ask_lem :
      {before budget users lost : ℕ} (proc : Process W)
      → IsCounted laws before (suc budget) users lost proc
      → (asked : Result (Unit {0}) (Unit {0})) × (proc' : Process W) × (ask_promisc calls true dev
            proc
          ≡ some (asked, proc'))
        × (((asked ≡ ok tt) × IsCounted laws before budget (suc users) lost proc')
            ⊎ ((asked ≡ err tt) × IsCounted laws before budget users lost proc'))
  unfolding ask_promisc
  ask_lem proc v =
      let (proc', ends) = set_lem laws proc v in
      elim ends [
        | inl (e, v') ↦ (ok tt, proc', e, inl (refl, v'))
        | inr (e, v') ↦ (err tt, proc', e, inr (refl, v'))
      ]

  -- Leaving it makes one user less, whether it succeeds or not.
  leave_lem :
      {before budget users lost : ℕ} (proc : Process W)
      → IsCounted laws before (suc budget) (suc users) lost proc
      → (proc' : Process W) × (leave_promisc calls true dev proc ≡ some proc')
        × (IsCounted laws before budget users lost proc'
            ⊎ IsCounted laws before budget users (suc lost) proc')
  unfolding leave_promisc
  leave_lem proc v =
      let (proc', ends) = clear_lem laws proc v in
      elim ends [
        | inl (e, v') ↦ (proc', rw (leave_promisc, e), inl v')
        | inr (e, v') ↦ (proc', rw (leave_promisc, e), inr v')
      ]

  -- In the mode, as long as there is a user.
  used-mode :
      {before budget users lost : ℕ} (proc : Process W)
      → IsCounted laws before budget (suc users) lost proc
      → laws.mode proc.system ≡ 1
  used-mode proc v = elim v.while_used [ inl z ↦ absurd (omega (arith, z)) | inr on ↦ on ]

  module _ (api : BindApi) (opt : NethunsSocketOptions) (q : NethunsQueue) (d : NmPortDescriptor)
      (nr_buf_size granted : ℕ) where
    -- A socket of both directions that asks for the promiscuous mode, and is dropped unused. Either
    -- `bind` fails because the mode cannot be set, and the interface has no user more. Or the socket
    -- is ready to receive and the interface is in the mode; then dropping the socket gives its user up,
    -- or counts as a failed call to leave, and gives all buffers back to the list of netmap, those of
    -- the free ring before those of the transmission slots, last ones first. The conditions are those
    -- of `deal_buffers_lem`, that the buffers are all different, and that the system calls obey
    -- `ModeLaws` with room for two more calls.
    pub lifetime_lem :
        {bits tx_bits before budget users lost : ℕ} (tx_ring rx_ring : NethunsRing) (xs ys : List ℕ)
        (proc : Process W)
        → opt.promisc ≡ true
        → Outstanding bits rx_ring []
        → IsShaped tx_bits tx_ring.rings
        → length xs ≡ 2 ^ tx_bits
        → length ys ≤ 2 ^ bits
        → 2 ^ bits ≤ granted
        → granted ≤ 2 ^ 63
        → Chain d.nifp d.nifp.ni_bufs_head (xs ++ ys)
        → AreReleasable d.nifp (xs ++ ys) []
        → IsSearchable d
        → IsCounted laws before (suc (suc budget)) users lost proc
        → (res : Bound) × (proc1 : Process W) × (deal_buffers calls api
              (base_with opt (some tx_ring) (some rx_ring))
              dev
              q
              d
              nr_buf_size
              granted
              proc
            ≡ some (res, proc1))
          × (((base : NethunsSocketBase) × (res ≡ err (NethunsBindError.error, base))
                × IsCounted laws before (suc budget) users lost proc1)
              ⊎ ((s : NethunsSocketNetmap) × (free_bits : ℕ) × (s' : NethunsSocketNetmap)
                  × (proc2 : Process W) × (res ≡ ok s)
                  × RxInv bits free_bits s rx_ring [] ys
                  × (laws.mode proc1.system ≡ 1)
                  × (drop_socket calls s proc1 ≡ some (s', proc2))
                  × Chain s'.p.nifp s'.p.nifp.ni_bufs_head (onto ys (onto xs []))
                  × (IsCounted laws before budget users lost proc2
                      ⊎ IsCounted laws before budget users (suc lost) proc2)))
    unfolding after_asked
    lifetime_lem {tx_bits} tx_ring rx_ring xs ys proc wanted o v sized room enough small c a port
          n =
        let (asked, proc1, e, ends) = ask_lem proc n in
        let (s, run, t) =
          deal_buffers_lem calls api opt dev q d nr_buf_size granted tx_ring rx_ring xs ys proc
            proc1 asked (ap (λ b. ask_promisc calls b dev proc) wanted ∙ e) o v sized room enough
            small c port in
        let base = base_with opt s.base.tx_ring (some rx_ring) in
        (
          after_asked asked s base,
          proc1,
          run,
          elim ends [
            | inr (failed, n1) ↦ inl (base, ap (λ r. after_asked r s base) failed, n1)
            | inl (set, n1) ↦
                let (proc2, left, n2) = leave_lem proc1 n1 in
                let (s', dropped, _, list) =
                  drop_socket_lem calls s proc1 proc2 t.tx_ring xs ys []
                    (rw (t.same_opt, t.same_dev, wanted) left) t.tx_eq
                    (size_eq t.tx_ring t.tx_shape ∙ sym sized) t.tx_buffers t.inv.pool
                    (rw t.cleared (AreReleasable-cleared d.nifp (xs ++ ys) [] a))
                    (rw t.cleared (omega arith)) (rw t.cleared refl) in
                inr (
                  s,
                  t.free_bits,
                  s',
                  proc2,
                  ap (λ r. after_asked r s base) set,
                  t.inv,
                  used-mode proc1 n1,
                  dropped,
                  list,
                  n2,
                )
          ],
        )
