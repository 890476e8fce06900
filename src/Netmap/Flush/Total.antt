-- ===== src/Netmap/Flush/Total.antt =====
-- `flush` of src/sockets/api/netmap/nethuns_socket.rs as a whole: it always returns, loses no buffer,
-- and leaves the socket ready for the next call.
use rust_nethuns.Common.{
  ℕ, suc, ◌+◌, ◌-◌, ◌^◌, ◌≤◌, ◌≡◌, ◌∙◌, ◌⊎◌, inl, inr, refl, sym, ap, subst, true, false,
  Bool-cases, some, List, [], ◌∷◌, ◌++◌, length, get_elem?, Result, ok, err, arith,
}
use rust_nethuns.Common.Counts.{SameItems, count}
use rust_nethuns.Ring.{NethunsRing}
use rust_nethuns.Ring
use rust_nethuns.Errors.{NethunsFlushError}
use rust_nethuns.Netmap.{NetmapRing, NetmapIf, NmPortDescriptor, NethunsSocketNetmap}
use rust_nethuns.Netmap.Api.{NetmapApi, ring_bufs}
use rust_nethuns.Netmap.Flush.{
  Flushed, with_port, push_rings, clean_rings, sync_and_clean, flush_on, flush,
}
use rust_nethuns.Netmap.Flush.Links.{NextLaws, Linked-same, Linked-walk, walk, walk-by_size}
use rust_nethuns.Netmap.Flush.Push.{cell_bufs}
use rust_nethuns.Netmap.Flush.Port.{
  AtRings, CellsInv, RingInv, SyncedInv, push_rings_lem, clean_rings_lem,
}

-- A transmission ring after a synchronisation: the kernel has moved its tail forward, and not past
-- the head.
pub record Advanced (api : NetmapApi) (ring ring' : NetmapRing) : Type 0 where
  pub same_slots : ring'.slots ≡ ring.slots
  pub same_head : ring'.head ≡ ring.head
  pub steps : ℕ
  pub steps_small : steps ≤ length ring.slots
  pub moved : walk api ring steps ring.tail ≡ ring'.tail
  pub not_past : (n : ℕ) → walk api ring n (api.nm_ring_next ring ring.tail) ≡ ring.head → steps ≤ n

-- What the synchronisation of the transmission does to a port: it moves the tails of the port's
-- rings, or fails and leaves them. The buffers stay in their slots.
pub record TxSyncLaws (api : NetmapApi) : Type 0 where
  pub same_first : (d : NmPortDescriptor) → (api.tx_sync d).1.first_tx_ring ≡ d.first_tx_ring
  pub same_last : (d : NmPortDescriptor) → (api.tx_sync d).1.last_tx_ring ≡ d.last_tx_ring
  pub same_bufs :
      (d : NmPortDescriptor) → ring_bufs (api.tx_sync d).1.nifp.tx_rings ≡ ring_bufs d.nifp.tx_rings
  pub advanced :
      (d : NmPortDescriptor) (i : ℕ) (ring : NetmapRing)
      → d.first_tx_ring ≤ i
      → i ≤ d.last_tx_ring
      → get_elem? d.nifp.tx_rings i ≡ some ring
      → (ring' : NetmapRing) × (get_elem? (api.tx_sync d).1.nifp.tx_rings i ≡ some ring')
        × Advanced api ring ring'
  pub failed :
      (d : NmPortDescriptor)
      → (api.tx_sync d).0 ≡ false
      → (api.tx_sync d).1.nifp.tx_rings ≡ d.nifp.tx_rings

-- The transmitting side of a socket between calls: the tails of the port's rings are `tails`, and
-- the length of a packet that fits a buffer fits 16 bits.
pub record TxReady (api : NetmapApi) (bits : ℕ) (s : NethunsSocketNetmap) (tx : NethunsRing)
    (tails : List ℕ) : Type 0 where
  pub tx_eq : s.base.tx_ring ≡ some tx
  pub cells : CellsInv bits tx
  pub rings : AtRings (RingInv api bits) s.p.nifp.tx_rings s.p.first_tx_ring tails
  pub range : s.p.first_tx_ring + length tails ≡ suc s.p.last_tx_ring
  pub small : s.nr_buf_size ≤ 65535

-- How `flush` ends: well if the synchronisation of the port has succeeded, and else with an error.
abbrev pub FlushEnds : NetmapApi → NmPortDescriptor → Result (Unit {0}) NethunsFlushError → Type 0
FlushEnds api d res =
    ((res ≡ ok tt) × ((api.tx_sync d).0 ≡ true))
    ⊎ ((res ≡ err NethunsFlushError.error) × ((api.tx_sync d).0 ≡ false))

-- The port that is synchronised is the one that the first loop leaves, and its synchronisation decides.
pub record Decided (api : NetmapApi) (s : NethunsSocketNetmap) (tx : NethunsRing) (tails : List ℕ)
    (res : Result (Unit {0}) NethunsFlushError) : Type 0 where
  pub nifp : NetmapIf
  pub pushed_tx : NethunsRing
  pub pushed :
      push_rings api
        (suc s.p.last_tx_ring - s.p.first_tx_ring)
        s.p.first_tx_ring
        s.p.nifp
        tx
        (Ring.head tx)
      ≡ some (ok tails, nifp, pushed_tx)
  pub ends : FlushEnds api (record (s.p) { nifp = nifp }) res

-- Some synchronisation of the transmission fails.
abbrev pub SyncFails : NetmapApi → Type 0
SyncFails api = (d : NmPortDescriptor) × ((api.tx_sync d).0 ≡ false)

-- The buffers of the socket's transmission slots and of the netmap transmission rings.
abbrev pub tx_owned : NethunsSocketNetmap → NethunsRing → List ℕ
tx_owned s tx = cell_bufs tx ++ ring_bufs s.p.nifp.tx_rings

module _ (api : NetmapApi) (s : NethunsSocketNetmap) (tx : NethunsRing) (tails : List ℕ)
    {nifp : NetmapIf} {tx' : NethunsRing} where
  -- How `flush` goes on after the first loop, and after the synchronisation.
  push_run :
      {n : ℕ}
      → suc s.p.last_tx_ring - s.p.first_tx_ring ≡ n
      → push_rings api n s.p.first_tx_ring s.p.nifp tx (Ring.head tx) ≡ some (ok tails, nifp, tx')
      → flush_on api s (some tx)
        ≡ sync_and_clean api (with_port s (record (s.p) { nifp = nifp }) tx') tx' tails
  unfolding flush_on
  push_run rounds run = rw (flush_on, rounds, run)

  sync_run :
      {res : Result (Unit {0}) NethunsFlushError}
      → (api.tx_sync s.p).0 ≡ true
      → clean_rings api tails (api.tx_sync s.p).1.first_tx_ring (api.tx_sync s.p).1.nifp tx
        ≡ some (res, nifp, tx')
      → sync_and_clean api s tx tails
        ≡ some (res, with_port s (record ((api.tx_sync s.p).1) { nifp = nifp }) tx')
  unfolding sync_and_clean
  sync_run done run = rw (sync_and_clean, done, run)

module _ (api : NetmapApi) (next : NextLaws api) (laws : TxSyncLaws api) (bits : ℕ) where
  synced_ring :
      {tail : ℕ} {ring ring' : NetmapRing}
      → RingInv api bits tail ring
      → Advanced api ring ring'
      → SyncedInv api bits tail ring'
  synced_ring {tail} {ring} {ring'} v a = record {
    head_in = rw (a.same_slots, a.same_head) v.head_in;
    n = v.n;
    links = rw (next.by_size ring ring' tail (ap length a.same_slots)) (
        Linked-same api next (2 ^ bits) ring ring' (api.nm_ring_next ring tail) v.n a.same_slots
          a.same_head v.links);
    m = a.steps;
    m_le = a.not_past v.n (
        subst (λ t. walk api ring v.n (api.nm_ring_next ring t) ≡ ring.head) (sym v.tail_eq)
          (Linked-walk api (2 ^ bits) ring (api.nm_ring_next ring tail) v.n v.links));
    m_small = rw a.same_slots a.steps_small;
    moved =
        walk-by_size api next ring ring' a.steps tail (ap length a.same_slots)
        ∙ ap (walk api ring a.steps) (sym v.tail_eq)
        ∙ a.moved;
  }

  synced_rings :
      (d : NmPortDescriptor) (tails : List ℕ) (i : ℕ)
      → d.first_tx_ring ≤ i
      → i + length tails ≤ suc d.last_tx_ring
      → AtRings (RingInv api bits) d.nifp.tx_rings i tails
      → AtRings (SyncedInv api bits) (api.tx_sync d).1.nifp.tx_rings i tails
  synced_rings d [] i f l a = tt
  synced_rings d (p ∷ tails) i f l ((ring, here, v), a) =
      let (ring', here', moved) = laws.advanced d i ring f (omega arith) here in
      (
        (ring', here', synced_ring v moved),
        synced_rings d tails (i + 1) (omega arith) (omega arith) a,
      )

  -- The synchronisation, and what follows.
  sync_and_clean_lem :
      (s : NethunsSocketNetmap) (tx : NethunsRing) (tails : List ℕ)
      → TxReady api bits s tx tails
      → (out : Flushed) × (tx' : NethunsRing) × (tails' : List ℕ) × (sync_and_clean api s tx tails
          ≡ some out)
        × FlushEnds api s.p out.0
        × TxReady api bits out.1 tx' tails'
        × SameItems (tx_owned out.1 tx') (tx_owned s tx)
  unfolding sync_and_clean
  sync_and_clean_lem s tx tails v = elim (Bool-cases (api.tx_sync s.p).0) [
    | inr failed ↦ (
      (err NethunsFlushError.error, with_port s (api.tx_sync s.p).1 tx),
      tx,
      tails,
      rw (sync_and_clean, failed),
      inr (refl, failed),
      record {
        tx_eq = refl;
        cells = v.cells;
        rings = rw (laws.failed s.p failed, laws.same_first s.p) v.rings;
        range = rw (laws.same_first s.p, laws.same_last s.p) v.range;
        small = v.small;
      },
      rw (laws.failed s.p failed) (λ b. refl),
    )
    | inl done ↦
        let p = (api.tx_sync s.p).1 in
        let (nifp, tx', tails', run, cells, l, rings, traded) =
          clean_rings_lem api next tails p.first_tx_ring p.nifp tx v.cells (
            rw (laws.same_first s.p) (
              synced_rings s.p tails s.p.first_tx_ring (omega arith) (omega (arith, v.range))
                v.rings)) in
        (
          (ok tt, with_port s (record p { nifp = nifp }) tx'),
          tx',
          tails',
          sync_run api s tx tails done run,
          inl (refl, done),
          record {
            tx_eq = refl;
            cells = cells;
            rings = rings;
            range = rw (laws.same_first s.p, laws.same_last s.p) (omega (arith, l, v.range));
            small = v.small;
          },
          λ b. traded.same_items b ∙ ap (λ k. count b (cell_bufs tx ++ k)) (laws.same_bufs s.p),
        )
  ]

  -- `flush` returns, and the synchronisation of the port, as the first loop leaves it, decides: it
  -- succeeds if that does, and fails with `Error` if that fails. In both cases the socket is
  -- ready for the next call, and every buffer of its transmission slots and of the port's
  -- transmission rings is still in one of them. The conditions are that the socket is ready, and that
  -- the netmap library obeys `NextLaws` and `TxSyncLaws`.
  pub flush_lem :
      (s : NethunsSocketNetmap) (tx : NethunsRing) (tails : List ℕ)
      → TxReady api bits s tx tails
      → (out : Flushed) × (tx' : NethunsRing) × (tails' : List ℕ) × (flush api s ≡ some out)
        × Decided api s tx tails out.0
        × TxReady api bits out.1 tx' tails'
        × SameItems (tx_owned out.1 tx') (tx_owned s tx)
  unfolding flush flush_on
  flush_lem s tx tails v =
      let (nifp, tx₁, pushed, cells, rings, traded) =
        push_rings_lem api next tails s.p.first_tx_ring s.p.nifp tx (Ring.head tx) v.cells v.rings
          refl in
      let s₁ = with_port s (record (s.p) { nifp = nifp }) tx₁ in
      let (out, tx', tails', run', result, ready, same) =
        sync_and_clean_lem s₁ tx₁ tails (record {
          tx_eq = refl;
          cells = cells;
          rings = rings;
          range = v.range;
          small = v.small;
        }) in
      let rounds : suc s.p.last_tx_ring - s.p.first_tx_ring ≡ length tails =
        omega (arith, v.range) in
      (
        out,
        tx',
        tails',
        on_ring ∙ push_run api s tx tails rounds pushed ∙ run',
        record { nifp = nifp; pushed_tx = tx₁; pushed = rw rounds pushed; ends = result },
        ready,
        λ b. same b ∙ traded.same_items b,
      )
    where
      on_ring : flush api s ≡ flush_on api s (some tx)
      on_ring = ap (flush_on api s) v.tx_eq
