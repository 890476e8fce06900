-- ===== src/Netmap/Flush/Links.antt =====
-- The netmap slots of a transmission ring that the kernel has not given back, in `flush` of
-- src/sockets/api/netmap/nethuns_socket.rs: each points to a slot of the socket's ring.
use rust_nethuns.Common.{
  ℕ, zero, suc, ◌<◌, ◌≡◌, ◌∙◌, refl, sym, ap, subst, some, List, length, length-set, get_elem?, set,
  get_elem?-set_self, get_elem?-set_ne, get_elem?_bound,
}
use native.Mathlib.Decide.{ℕ_discrete}
use rust_nethuns.Netmap.{NetmapSlot, NetmapRing, set_netmap_slot}
use rust_nethuns.Netmap.Api.{NetmapApi}

-- What the netmap headers say of `nm_ring_next`: it depends on the number of slots, and stays among
-- them.
pub record NextLaws (api : NetmapApi) : Type 0 where
  pub by_size :
      (r r' : NetmapRing) (i : ℕ)
      → length r'.slots ≡ length r.slots
      → api.nm_ring_next r' i ≡ api.nm_ring_next r i
  pub inside : (r : NetmapRing) (i : ℕ) → i < length r.slots → api.nm_ring_next r i < length r.slots

module _ (api : NetmapApi) where
  -- `n` steps round the ring.
  abbrev pub walk : NetmapRing → ℕ → ℕ → ℕ
  walk ring zero i = i
  walk ring (suc n) i = walk ring n (api.nm_ring_next ring i)

  -- The `n` netmap slots from `i` up to the head point to cells of a ring of `size` slots.
  abbrev pub Linked : ℕ → NetmapRing → ℕ → ℕ → Type 0
  Linked size ring i zero = i ≡ ring.head
  Linked size ring i (suc n) =
      ((ns : NetmapSlot) × (cell : ℕ) × (get_elem? ring.slots i ≡ some ns)
        × (ns.ptr ≡ some cell)
        × (cell < size))
      × Linked size ring (api.nm_ring_next ring i) n

  pub Linked-walk :
      (size : ℕ) (ring : NetmapRing) (i n : ℕ) → Linked size ring i n → walk ring n i ≡ ring.head
  Linked-walk size ring i zero h = h
  Linked-walk size ring i (suc n) h = Linked-walk size ring (api.nm_ring_next ring i) n h.1

  pub walk-next :
      (ring : NetmapRing) (n i : ℕ)
      → walk ring n (api.nm_ring_next ring i) ≡ api.nm_ring_next ring (walk ring n i)
  walk-next ring zero i = refl
  walk-next ring (suc n) i = walk-next ring n (api.nm_ring_next ring i)

  module _ (laws : NextLaws api) where
    pub walk-by_size :
        (ring ring' : NetmapRing) (n i : ℕ)
        → length ring'.slots ≡ length ring.slots
        → walk ring' n i ≡ walk ring n i
    walk-by_size ring ring' zero i e = refl
    walk-by_size ring ring' (suc n) i e =
        walk-by_size ring ring' n (api.nm_ring_next ring' i) e
        ∙ ap (walk ring n) (laws.by_size ring ring' i e)

    -- Links are about the slots and the head.
    pub Linked-same :
        (size : ℕ) (ring ring' : NetmapRing) (i n : ℕ)
        → ring'.slots ≡ ring.slots
        → ring'.head ≡ ring.head
        → Linked size ring i n
        → Linked size ring' i n
    Linked-same size ring ring' i zero same head l = l ∙ sym head
    Linked-same size ring ring' i (suc n) same head ((ns, cell, here, p, c), l) = (
      (ns, cell, ap (λ (k : List NetmapSlot). get_elem? k i) same ∙ here, p, c),
      subst (λ k. Linked size ring' k n) (sym (laws.by_size ring ring' i (ap length same)))
          (Linked-same size ring ring' (api.nm_ring_next ring i) n same head l),
    )

    -- A netmap slot that points to a cell is written: the links are as before.
    pub Linked-set :
        (size : ℕ) (ring : NetmapRing) (j cell : ℕ) (ns : NetmapSlot) (i n : ℕ)
        → ns.ptr ≡ some cell
        → cell < size
        → Linked size ring i n
        → Linked size (set_netmap_slot ring j ns) i n
    Linked-set size ring j cell ns i zero p c h = h
    Linked-set size ring j cell ns i (suc n) p c ((ns', cell', here, p', c'), h) = (
      here_after (ℕ_discrete j i),
      rw (laws.by_size ring (set_netmap_slot ring j ns) i (length-set ring.slots j ns))
          (Linked-set size ring j cell ns (api.nm_ring_next ring i) n p c h),
    )
      where
        here_after :
            Dec (j ≡ i)
            → (ns'' : NetmapSlot) × (cell'' : ℕ) × (get_elem? (set ring.slots j ns) i ≡ some ns'')
              × (ns''.ptr ≡ some cell'')
              × (cell'' < size)
        here_after (yes e) = (
          ns,
          cell,
          rw (← e) (get_elem?-set_self ring.slots j ns (rw e (get_elem?_bound ring.slots i here))),
          p,
          c,
        )
        here_after (no ne) = (ns', cell', get_elem?-set_ne ring.slots j i ns ne ∙ here, p', c')

    -- The head moves on past a slot that points to a cell.
    pub Linked-extend :
        (size : ℕ) (ring ring' : NetmapRing) (cell : ℕ) (ns : NetmapSlot) (i n : ℕ)
        → ring'.slots ≡ ring.slots
        → get_elem? ring.slots ring.head ≡ some ns
        → ns.ptr ≡ some cell
        → cell < size
        → ring'.head ≡ api.nm_ring_next ring ring.head
        → Linked size ring i n
        → Linked size ring' i (suc n)
    Linked-extend size ring ring' cell ns i zero same here p c moved h = (
      (
        ns,
        cell,
        ap (λ (l : List NetmapSlot). get_elem? l i) same ∙ ap (get_elem? ring.slots) h ∙ here,
        p,
        c,
      ),
      laws.by_size ring ring' i (ap length same) ∙ ap (api.nm_ring_next ring) h ∙ sym moved,
    )
    Linked-extend size ring ring' cell ns i (suc n) same here p c moved
          ((ns', cell', at_i, p', c'), h) =
        (
          (ns', cell', ap (λ (l : List NetmapSlot). get_elem? l i) same ∙ at_i, p', c'),
          subst (λ k. Linked size ring' k (suc n))
              (sym (laws.by_size ring ring' i (ap length same)))
              (Linked-extend size ring ring' cell ns (api.nm_ring_next ring i) n same here p c moved
                h),
        )
