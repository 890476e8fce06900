-- ===== src/Netmap/Flush/Clean.antt =====
-- The second loop of `flush` (src/sockets/api/netmap/nethuns_socket.rs) at one netmap ring: the slots
-- of the packets that have been sent are free again.
use rust_nethuns.Common.{
  ℕ, zero, suc, ◌^◌, ◌==◌, ◌≤◌, ◌<◌, ◌≡◌, ◌∙◌, inl, inr, refl, ap, subst, some, length, length-set,
  get_elem?_in, set, Bool-cases, ok, eq→==, ==_iff, arith,
}
use rust_nethuns.Common.Counts.{count-map-set}
use rust_nethuns.Ring.{NethunsRing}
use rust_nethuns.Netmap.{NetmapSlot, NetmapRing, get_slot, set_netmap_slot}
use rust_nethuns.Netmap.Api.{NetmapApi}
use rust_nethuns.Netmap.Reclaim.{buf_of}
use rust_nethuns.Netmap.Flush.{landed, with_cells, clean_slot, clean_slots}
use rust_nethuns.Netmap.Flush.Links.{NextLaws, Linked-set, walk, walk-by_size}
use rust_nethuns.Netmap.Flush.Push.{
  get_elem?-AreShort, set-AreShort, PushInv, Exchanged, unchanged, Exchanged-trans,
}

module _ (api : NetmapApi) (laws : NextLaws api) {bits : ℕ} where
  -- One round, at a netmap slot that points to a cell.
  clean_slot_lem :
      {ring : NetmapRing} {tx : NethunsRing} (scan n : ℕ)
      → PushInv api bits scan (suc n) ring tx
      → (ring' : NetmapRing) × (tx' : NethunsRing) × (clean_slot ring tx scan
          ≡ some (ok tt, ring', tx'))
        × PushInv api bits (api.nm_ring_next ring' scan) n ring' tx'
        × Exchanged ring tx ring' tx'
        × (tx'.rings.head ≡ tx.rings.head)
  unfolding clean_slot get_slot
  clean_slot_lem {ring} {tx} scan n v =
      let ((ns, cell, here, points, inside), rest) = v.links in
      let in_buffer : cell < length tx.rings.buffer = rw v.shape.length_eq inside in
      let (slot, at_cell) = get_elem?_in tx.rings.buffer cell in_buffer in
      let back : NetmapSlot = record ns { buf_idx = slot.pkthdr.buf_idx } in
      (
        set_netmap_slot ring scan back,
        with_cells tx (set tx.rings.buffer cell (landed slot ns)),
        rw (clean_slot, get_slot, here, points, at_cell),
        record {
          shape = record {
            few_bits = v.shape.few_bits;
            mask_eq = v.shape.mask_eq;
            length_eq = length-set tx.rings.buffer cell (landed slot ns) ∙ v.shape.length_eq;
            head_lt = v.shape.head_lt;
            tail_lt = v.shape.tail_lt;
            some_items = v.shape.some_items;
            items_le = v.shape.items_le;
          };
          short =
              set-AreShort tx.rings.buffer cell (landed slot ns) v.short
                (get_elem?-AreShort tx.rings.buffer cell slot v.short at_cell);
          head_in = rw (length-set ring.slots scan back) v.head_in;
          links =
              rw
                (laws.by_size ring (set_netmap_slot ring scan back) scan
                  (length-set ring.slots scan back))
                (Linked-set api laws (2 ^ bits) ring scan cell back (api.nm_ring_next ring scan) n
                  points inside rest);
        },
        record {
          same_size = length-set ring.slots scan back;
          same_tail = refl;
          same_bufs = λ b. omega (
            arith,
            count-map-set buf_of b tx.rings.buffer cell slot (landed slot ns) at_cell,
            count-map-set (λ (k : NetmapSlot). k.buf_idx) b ring.slots scan ns back here,
          );
        },
        refl,
      )

  -- With a round for each step from `scan` to `stop`, and one more, the loop ends without a fault. It
  -- exchanges the buffers back and loses none.
  pub clean_slots_lem :
      (fuel m n : ℕ) {ring : NetmapRing} {tx : NethunsRing} (scan stop : ℕ)
      → m < fuel
      → m ≤ n
      → PushInv api bits scan n ring tx
      → walk api ring m scan ≡ stop
      → (ring' : NetmapRing) × (tx' : NethunsRing) × (n' : ℕ) × (clean_slots api fuel ring tx scan
            stop
          ≡ some (ok tt, ring', tx'))
        × PushInv api bits stop n' ring' tx'
        × Exchanged ring tx ring' tx'
        × (tx'.rings.head ≡ tx.rings.head)
  unfolding clean_slots
  clean_slots_lem zero m n scan stop f l v w = elim f [ ]
  clean_slots_lem (suc fuel) zero n {ring} {tx} scan stop f l v w = (
    ring,
    tx,
    n,
    rw (clean_slots, eq→== scan stop w),
    subst (λ k. PushInv api bits k n ring tx) w v,
    unchanged ring tx,
    refl,
  )
  clean_slots_lem (suc fuel) (suc m) zero scan stop f l v w = elim l [ ]
  clean_slots_lem (suc fuel) (suc m) (suc n) {ring} {tx} scan stop f l v w =
      elim (Bool-cases (scan == stop)) [
        | inl there ↦ (
          ring,
          tx,
          suc n,
          rw (clean_slots, there),
          subst (λ k. PushInv api bits k (suc n) ring tx) ((==_iff scan stop).0 there) v,
          unchanged ring tx,
          refl,
        )
        | inr on ↦
            let (ring₁, tx₁, run₁, v₁, x₁, h₁) = clean_slot_lem scan n v in
            let (ring', tx', n', run, v', x, h) =
              clean_slots_lem fuel m n (api.nm_ring_next ring₁ scan) stop (omega arith)
                (omega arith) v₁
                (walk-by_size api laws ring ring₁ m (api.nm_ring_next ring₁ scan) x₁.same_size
                  ∙ ap (walk api ring m) (laws.by_size ring ring₁ scan x₁.same_size)
                  ∙ w) in
            (ring', tx', n', rw (clean_slots, on, run₁) run, v', Exchanged-trans x₁ x, h ∙ h₁)
      ]
