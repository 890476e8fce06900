-- ===== src/Netmap/Flush/Port.antt =====
-- The transmission rings of a port in `flush` (src/sockets/api/netmap/nethuns_socket.rs), from ring to
-- ring.
use rust_nethuns.Common.{
  ℕ, suc, ◌+◌, ◌^◌, ◌≤◌, ◌<◌, ◌≡◌, ◌∙◌, refl, ap, some, List, [], ◌∷◌, ◌++◌, length, get_elem?,
  get_elem?-set_self, get_elem?-set_ne, get_elem?_bound, set, ok, arith,
}
use rust_nethuns.Common.Counts.{SameItems, count-append, count-gather-set}
use rust_nethuns.CircularQueue.Valid.{IsShaped}
use rust_nethuns.Ring.{NethunsRing}
use rust_nethuns.Netmap.{NetmapRing, NetmapIf, netmap_txring, set_txring}
use rust_nethuns.Netmap.Api.{NetmapApi, slot_bufs, ring_bufs}
use rust_nethuns.Netmap.Flush.{push_rings, clean_rings}
use rust_nethuns.Netmap.Flush.Links.{NextLaws, Linked, walk, walk-next}
use rust_nethuns.Netmap.Flush.Push.{AreShort, marked-le, Exchanged, cell_bufs, push_packets_lem}
use rust_nethuns.Netmap.Flush.Clean.{clean_slots_lem}

-- The rings from index `i` on, one for each label, have a property with their labels.
abbrev pub AtRings : (ℕ → NetmapRing → Type 0) → List NetmapRing → ℕ → List ℕ → Type 0
AtRings P rings i [] = Unit
AtRings P rings i (p ∷ ps) =
    ((ring : NetmapRing) × (get_elem? rings i ≡ some ring) × P p ring) × AtRings P rings (i + 1) ps

AtRings-set :
    (P : ℕ → NetmapRing → Type 0) (rings : List NetmapRing) (j i : ℕ) (r : NetmapRing) (ps : List ℕ)
    → j < i
    → AtRings P rings i ps
    → AtRings P (set rings j r) i ps
AtRings-set P rings j i r [] l a = tt
AtRings-set P rings j i r (p ∷ ps) l ((ring, here, h), a) = (
  (ring, get_elem?-set_ne rings j i r (omega arith) ∙ here, h),
  AtRings-set P rings j (i + 1) r ps (omega arith) a,
)

-- The cells of the transmission ring.
pub record CellsInv (bits : ℕ) (tx : NethunsRing) : Type 0 where
  pub shape : IsShaped bits tx.rings
  pub short : AreShort tx.rings.buffer

-- A netmap ring with that tail: the netmap slots after the tail, up to the head, are linked.
pub record RingInv (api : NetmapApi) (bits tail : ℕ) (ring : NetmapRing) : Type 0 where
  pub tail_eq : ring.tail ≡ tail
  pub head_in : ring.head < length ring.slots
  pub n : ℕ
  pub links : Linked api (2 ^ bits) ring (api.nm_ring_next ring tail) n

-- The ring after a synchronisation, which moved the tail by `m` steps and not past the head.
pub record SyncedInv (api : NetmapApi) (bits prev : ℕ) (ring : NetmapRing) : Type 0 where
  pub head_in : ring.head < length ring.slots
  pub n : ℕ
  pub links : Linked api (2 ^ bits) ring (api.nm_ring_next ring prev) n
  pub m : ℕ
  pub m_le : m ≤ n
  pub m_small : m ≤ length ring.slots
  pub moved : walk api ring m prev ≡ ring.tail

-- What a loop over rings from `i` on leaves alone: the rings before, and every buffer.
pub record Traded (i : ℕ) (nifp : NetmapIf) (tx : NethunsRing) (nifp' : NetmapIf)
    (tx' : NethunsRing) : Type 0 where
  pub before : (j : ℕ) → j < i → get_elem? nifp'.tx_rings j ≡ get_elem? nifp.tx_rings j
  pub same_items :
      SameItems
        (cell_bufs tx' ++ ring_bufs nifp'.tx_rings)
        (cell_bufs tx ++ ring_bufs nifp.tx_rings)

Traded-ring :
    (i : ℕ) (nifp nifp' : NetmapIf) (ring ring' : NetmapRing) (tx tx₁ tx' : NethunsRing)
    → get_elem? nifp.tx_rings i ≡ some ring
    → Exchanged ring tx ring' tx₁
    → Traded (i + 1) (set_txring nifp i ring') tx₁ nifp' tx'
    → Traded i nifp tx nifp' tx'
Traded-ring i nifp nifp' ring ring' tx tx₁ tx' here x t = record {
  before = λ j l. t.before j (omega arith) ∙ get_elem?-set_ne nifp.tx_rings i j ring' (omega arith);
  same_items = λ b. omega (
    arith,
    t.same_items b,
    x.same_bufs b,
    count-append b (cell_bufs tx₁) (ring_bufs (set nifp.tx_rings i ring')),
    count-append b (cell_bufs tx) (ring_bufs nifp.tx_rings),
    count-gather-set (λ (r : NetmapRing). slot_bufs r.slots) b nifp.tx_rings i ring ring' here,
  );
}

module _ (api : NetmapApi) (laws : NextLaws api) {bits : ℕ} where
  -- The first loop ends without a fault, and returns the tails that the rings had.
  pub push_rings_lem :
      (tails : List ℕ) (i : ℕ) (nifp : NetmapIf) (tx : NethunsRing) (head : ℕ)
      → CellsInv bits tx
      → AtRings (RingInv api bits) nifp.tx_rings i tails
      → head ≡ tx.rings.head
      → (nifp' : NetmapIf) × (tx' : NethunsRing) × (push_rings api (length tails) i nifp tx head
          ≡ some (ok tails, nifp', tx'))
        × CellsInv bits tx'
        × AtRings (RingInv api bits) nifp'.tx_rings i tails
        × Traded i nifp tx nifp' tx'
  unfolding push_rings netmap_txring
  push_rings_lem [] i nifp tx head v a at_head =
      (nifp, tx, refl, v, tt, record { before = λ j l. refl; same_items = λ b. refl })
  push_rings_lem (p ∷ tails) i nifp tx head v ((ring, here, r), a) at_head =
      let on : i < i + 1 = omega arith in
      let (ring', tx₁, head₁, n₁, run₁, v₁, x₁, _, at_head₁) =
        push_packets_lem api laws (suc (length tx.rings.buffer)) head
          (omega (arith, marked-le tx.rings.buffer))
          (record { shape = v.shape; short = v.short; head_in = r.head_in; links = r.links })
          at_head in
      let (nifp', tx', run, v', a', t) =
        push_rings_lem tails (i + 1) (set_txring nifp i ring') tx₁ head₁
          (record { shape = v₁.shape; short = v₁.short })
          (AtRings-set (RingInv api bits) nifp.tx_rings i (i + 1) ring' tails on a) at_head₁ in
      let still : get_elem? nifp'.tx_rings i ≡ some ring' =
        t.before i on
        ∙ get_elem?-set_self nifp.tx_rings i ring' (get_elem?_bound nifp.tx_rings i here) in
      (
        nifp',
        tx',
        rw (push_rings, netmap_txring, here, run₁, run)
            (ap (λ k. some (ok (k ∷ tails), nifp', tx')) r.tail_eq),
        v',
        (
          (
            ring',
            still,
            record {
              tail_eq = x₁.same_tail ∙ r.tail_eq;
              head_in = v₁.head_in;
              n = n₁;
              links = rw (laws.by_size ring ring' p x₁.same_size) v₁.links;
            },
          ),
          a',
        ),
        Traded-ring i nifp nifp' ring ring' tx tx₁ tx' here x₁ t,
      )

  -- The second loop ends without a fault, and the rings are ready for the next flush.
  pub clean_rings_lem :
      (tails : List ℕ) (i : ℕ) (nifp : NetmapIf) (tx : NethunsRing)
      → CellsInv bits tx
      → AtRings (SyncedInv api bits) nifp.tx_rings i tails
      → (nifp' : NetmapIf) × (tx' : NethunsRing) × (tails' : List ℕ) × (clean_rings api tails i nifp
            tx
          ≡ some (ok tt, nifp', tx'))
        × CellsInv bits tx'
        × (length tails' ≡ length tails)
        × AtRings (RingInv api bits) nifp'.tx_rings i tails'
        × Traded i nifp tx nifp' tx'
  unfolding clean_rings netmap_txring
  clean_rings_lem [] i nifp tx v a =
      (nifp, tx, [], refl, v, refl, tt, record { before = λ j l. refl; same_items = λ b. refl })
  clean_rings_lem (p ∷ tails) i nifp tx v ((ring, here, r), a) =
      let on : i < i + 1 = omega arith in
      let (ring', tx₁, n₁, run₁, v₁, x₁, _) =
        clean_slots_lem api laws (suc (length ring.slots)) r.m r.n (api.nm_ring_next ring p)
          (api.nm_ring_next ring ring.tail) (omega (arith, r.m_small)) r.m_le
          (record { shape = v.shape; short = v.short; head_in = r.head_in; links = r.links })
          (walk-next api ring r.m p ∙ ap (api.nm_ring_next ring) r.moved) in
      let (nifp', tx', tails', run, v', l, a', t) =
        clean_rings_lem tails (i + 1) (set_txring nifp i ring') tx₁
          (record { shape = v₁.shape; short = v₁.short })
          (AtRings-set (SyncedInv api bits) nifp.tx_rings i (i + 1) ring' tails on a) in
      let still : get_elem? nifp'.tx_rings i ≡ some ring' =
        t.before i on
        ∙ get_elem?-set_self nifp.tx_rings i ring' (get_elem?_bound nifp.tx_rings i here) in
      (
        nifp',
        tx',
        ring.tail ∷ tails',
        rw (clean_rings, netmap_txring, here, run₁) run,
        v',
        ap suc l,
        (
          (
            ring',
            still,
            record {
              tail_eq = x₁.same_tail;
              head_in = v₁.head_in;
              n = n₁;
              links = rw (laws.by_size ring ring' ring.tail x₁.same_size) v₁.links;
            },
          ),
          a',
        ),
        Traded-ring i nifp nifp' ring ring' tx tx₁ tx' here x₁ t,
      )
