-- ===== src/Netmap/Flush/Push.antt =====
-- The first loop of `flush` (src/sockets/api/netmap/nethuns_socket.rs) at one netmap ring: it ends,
-- and exchanges buffers with the ring.
use rust_nethuns.Common.{
  ℕ, zero, suc, ◌+◌, ◌^◌, ◌≤◌, ◌<◌, ◌≡◌, ◌∙◌, ◌⊎◌, inl, inr, refl, sym, ap, true, false, some, List,
  [], ◌∷◌, map, length, length-set, get_elem?, get_elem?_in, get_elem?-set_self, set, ltb,
  Bool-cases, ok, bit_and, arith, if◌then◌else◌,
}
use rust_nethuns.Common.Counts.{count, count-map-set}
use rust_nethuns.Common.Words.{wrapping_inc}
use rust_nethuns.CircularQueue.Valid.{IsShaped, index-lt, advance_head-IsShaped}
use rust_nethuns.Ring
use rust_nethuns.Ring.{NethunsRing, NethunsRingSlot, RingSlotStatus, in_use, in_flight}
use rust_nethuns.Ring.SendSlot.{stored, stored-IsShaped, get_slot-some, set_slot-some}
use rust_nethuns.Netmap.{NetmapSlot, NetmapRing, nm_ring_empty, get_slot, set_netmap_slot}
use rust_nethuns.Netmap.Api.{NetmapApi, slot_bufs}
use rust_nethuns.Netmap.Reclaim.{buf_of}
use rust_nethuns.Netmap.Flush.{is_in_use, launched, loaded, push_slot, push_packets}
use rust_nethuns.Netmap.Flush.Links.{NextLaws, Linked, Linked-set, Linked-extend}

-- The lengths of the slots fit 16 bits.
abbrev pub AreShort : List NethunsRingSlot → Type 0
AreShort [] = Unit
AreShort (slot ∷ cells) = (slot.len ≤ 65535) × AreShort cells

pub get_elem?-AreShort :
    (cells : List NethunsRingSlot) (i : ℕ) (slot : NethunsRingSlot)
    → AreShort cells
    → get_elem? cells i ≡ some slot
    → slot.len ≤ 65535
get_elem?-AreShort [] i slot h e = cc
get_elem?-AreShort (x ∷ cells) zero slot h e = ground (arith, h.0, e)
get_elem?-AreShort (x ∷ cells) (suc i) slot h e = get_elem?-AreShort cells i slot h.1 e

pub set-AreShort :
    (cells : List NethunsRingSlot) (i : ℕ) (slot : NethunsRingSlot)
    → AreShort cells
    → slot.len ≤ 65535
    → AreShort (set cells i slot)
set-AreShort [] i slot h l = tt
set-AreShort (x ∷ cells) zero slot h l = (l, h.1)
set-AreShort (x ∷ cells) (suc i) slot h l = (h.0, set-AreShort cells i slot h.1 l)

-- How many slots are marked for sending.
unfoldable pub marked : List NethunsRingSlot → ℕ
unfolding is_in_use
marked [] = 0
marked (slot ∷ cells) = (if is_in_use slot.status then 1 else 0) + marked cells

pub marked-le : (cells : List NethunsRingSlot) → marked cells ≤ length cells
unfolding marked
marked-le [] = omega arith
marked-le (slot ∷ cells) = ground (arith, marked-le cells)

marked-set :
    (cells : List NethunsRingSlot) (i : ℕ) (old new : NethunsRingSlot)
    → get_elem? cells i ≡ some old
    → is_in_use old.status ≡ true
    → is_in_use new.status ≡ false
    → suc (marked (set cells i new)) ≡ marked cells
unfolding marked
marked-set [] i old new e t f = cc
marked-set (x ∷ cells) zero old new e t f =
    let same : x ≡ old = ground (arith, e) in rw (same, t, f) (omega arith)
marked-set (x ∷ cells) (suc i) old new e t f = omega (arith, marked-set cells i old new e t f)

-- A transmission ring and a netmap ring between rounds: the `n` netmap slots from `from` up to the
-- head point to cells.
pub record PushInv (api : NetmapApi) (bits from n : ℕ) (ring : NetmapRing) (tx : NethunsRing)
    : Type 0 where
  pub shape : IsShaped bits tx.rings
  pub short : AreShort tx.rings.buffer
  pub head_in : ring.head < length ring.slots
  pub links : Linked api (2 ^ bits) ring from n

-- The buffers of the cells of a transmission ring.
abbrev pub cell_bufs : NethunsRing → List ℕ
cell_bufs tx = map buf_of tx.rings.buffer

-- What a loop over a netmap ring leaves alone: its size, its tail, and every buffer.
pub record Exchanged (ring : NetmapRing) (tx : NethunsRing) (ring' : NetmapRing) (tx' : NethunsRing)
    : Type 0 where
  pub same_size : length ring'.slots ≡ length ring.slots
  pub same_tail : ring'.tail ≡ ring.tail
  pub same_bufs :
      (b : ℕ)
      → count b (cell_bufs tx') + count b (slot_bufs ring'.slots)
        ≡ count b (cell_bufs tx) + count b (slot_bufs ring.slots)

pub unchanged : (ring : NetmapRing) (tx : NethunsRing) → Exchanged ring tx ring tx
unchanged ring tx = record { same_size = refl; same_tail = refl; same_bufs = λ b. refl }

pub Exchanged-trans :
    {ring ring' ring'' : NetmapRing} {tx tx' tx'' : NethunsRing}
    → Exchanged ring tx ring' tx'
    → Exchanged ring' tx' ring'' tx''
    → Exchanged ring tx ring'' tx''
Exchanged-trans x y = record {
  same_size = y.same_size ∙ x.same_size;
  same_tail = y.same_tail ∙ x.same_tail;
  same_bufs = λ b. y.same_bufs b ∙ x.same_bufs b;
}

-- Where the loop stops: the netmap ring is full, or the next slot is not marked for sending.
abbrev pub Stopped : NetmapRing → NethunsRing → ℕ → Type 0
Stopped ring tx head =
    (nm_ring_empty ring ≡ true)
    ⊎ ((slot : NethunsRingSlot) × (Ring.get_slot tx head ≡ some slot)
        × (is_in_use slot.status ≡ false))

module _ (api : NetmapApi) (laws : NextLaws api) {bits from : ℕ} where
  push_slot_lem :
      {n : ℕ} {ring : NetmapRing} {tx : NethunsRing} (head : ℕ) (slot : NethunsRingSlot)
      → PushInv api bits from n ring tx
      → Ring.get_slot tx head ≡ some slot
      → is_in_use slot.status ≡ true
      → (ring' : NetmapRing) × (tx' : NethunsRing) × (push_slot api ring tx head slot
          ≡ some (ok ring', tx'))
        × PushInv api bits from (suc n) ring' tx'
        × Exchanged ring tx ring' tx'
        × (suc (marked tx'.rings.buffer) ≡ marked tx.rings.buffer)
        × (tx'.rings.head ≡ wrapping_inc tx.rings.head)
  unfolding push_slot get_slot Ring.advance_head Ring.get_slot is_in_use
  push_slot_lem {n} {ring} {tx} head slot v here busy =
      let (ns, at_head) = get_elem?_in ring.slots ring.head v.head_in in
      let cell = bit_and head tx.rings.mask in
      let inside = index-lt v.shape head in
      let short = get_elem?-AreShort tx.rings.buffer cell slot v.short here in
      let fits : ltb 65535 slot.len ≡ false = ground (arith, short) in
      let new : NetmapSlot = record ns {
        buf_idx = slot.pkthdr.buf_idx;
        len = slot.len;
        flags = api.ns_buf_changed;
        ptr = some cell;
      } in
      (
        loaded api ring ns slot cell,
        Ring.advance_head (stored tx head (launched slot ns)),
        rw (push_slot, get_slot, at_head, fits, set_slot-some tx v.shape head (launched slot ns)),
        record {
          shape = advance_head-IsShaped (stored-IsShaped tx v.shape head (launched slot ns));
          short = set-AreShort tx.rings.buffer cell (launched slot ns) v.short short;
          head_in = rw (length-set ring.slots ring.head new) (laws.inside ring ring.head v.head_in);
          links =
              Linked-extend api laws (2 ^ bits) (set_netmap_slot ring ring.head new)
                (loaded api ring ns slot cell) cell new from n refl
                (get_elem?-set_self ring.slots ring.head new v.head_in) refl
                (rw (← v.shape.length_eq) inside)
                (sym (
                  laws.by_size ring (set_netmap_slot ring ring.head new) ring.head
                    (length-set ring.slots ring.head new)))
                (Linked-set api laws (2 ^ bits) ring ring.head cell new from n refl
                  (rw (← v.shape.length_eq) inside) v.links);
        },
        record {
          same_size = length-set ring.slots ring.head _;
          same_tail = refl;
          same_bufs = λ b. omega (
            arith,
            count-map-set buf_of b tx.rings.buffer cell slot (launched slot ns) here,
            count-map-set (λ (n : NetmapSlot). n.buf_idx) b ring.slots ring.head ns new at_head,
          );
        },
        marked-set tx.rings.buffer cell slot (launched slot ns) here busy refl,
        refl,
      )

  -- With a round for each slot that is marked, and one more, the loop over a netmap ring ends without
  -- a fault. It stops only when the ring is full or the next slot is not marked, and it exchanges
  -- buffers and loses none. The pointers of the netmap slots from `from` up to the head stay inside the
  -- socket's ring, also those of the slots that it fills. The conditions are that this holds at first
  -- (`PushInv`), that the ring has its shape, the lengths of its slots fit 16 bits and the head of the
  -- netmap ring is one of its slots, that the loop begins at the head of the socket's ring, and that the
  -- netmap library obeys `NextLaws`.
  pub push_packets_lem :
      (fuel : ℕ) {n : ℕ} {ring : NetmapRing} {tx : NethunsRing} (head : ℕ)
      → marked tx.rings.buffer < fuel
      → PushInv api bits from n ring tx
      → head ≡ tx.rings.head
      → (ring' : NetmapRing) × (tx' : NethunsRing) × (head' n' : ℕ) × (push_packets api fuel ring tx
            head
          ≡ some (ok tt, ring', tx', head'))
        × PushInv api bits from n' ring' tx'
        × Exchanged ring tx ring' tx'
        × Stopped ring' tx' head'
        × (head' ≡ tx'.rings.head)
  unfolding push_packets
  push_packets_lem zero head m v at_head = elim m [ ]
  push_packets_lem (suc fuel) {n} {ring} {tx} head m v at_head =
      let (slot, here) = get_slot-some tx v.shape head in
      elim (Bool-cases (nm_ring_empty ring)) [
        | inl full ↦ (
          ring,
          tx,
          head,
          n,
          rw (push_packets, here, full),
          v,
          unchanged ring tx,
          inl full,
          at_head,
        )
        | inr room ↦ elim (Bool-cases (is_in_use slot.status)) [
          | inr idle ↦ (
            ring,
            tx,
            head,
            n,
            rw (push_packets, here, room, idle),
            v,
            unchanged ring tx,
            inr (slot, here, idle),
            at_head,
          )
          | inl busy ↦
              let (ring₁, tx₁, run₁, v₁, x₁, fewer, moved) = push_slot_lem head slot v here busy in
              let (ring', tx', head', n', run, v', x, stop, last) =
                push_packets_lem fuel (wrapping_inc head) (omega (arith, fewer)) v₁
                  (ap wrapping_inc at_head ∙ sym moved) in
              (
                ring',
                tx',
                head',
                n',
                rw (push_packets, here, room, busy, run₁) run,
                v',
                Exchanged-trans x₁ x,
                stop,
                last,
              )
        ]
      ]
