-- ===== src/Netmap/Bind/Pool.antt =====
-- The end of `bind` of src/sockets/api/netmap/bindable_socket.rs: the extra buffers are dealt out to
-- the transmission slots and to the free ring.
use rust_nethuns.Common.{
  ℕ, suc, ◌+◌, ◌%◌, ◌^◌, ◌≤◌, ◌<◌, ◌≡◌, ◌≢◌, ◌∙◌, refl, sym, ap, some, List, [], ◌∷◌, ◌++◌, length,
  Result, arith,
}
use rust_nethuns.CircularQueue.Valid.{IsShaped, fresh, new-IsValid, size-eq-pow}
use rust_nethuns.CircularQueue.Refine.{Holds}
use native.Mathlib.Nat.{one-le-pow, mod-eq_of_lt}
use rust_nethuns.Types.{NethunsQueue, NethunsSocketOptions}
use rust_nethuns.Ring
use rust_nethuns.Ring.{NethunsRing, NethunsRingSlot}
use rust_nethuns.Ring.SendSlot.{
  stored, stored-IsShaped, get_slot-some, set_slot-some, get_slot-stored_self, get_slot-stored_ne,
}
use rust_nethuns.Netmap.{NetmapIf, NmPortDescriptor, NethunsSocketNetmap, rx}
use rust_nethuns.Netmap.RingSearch.{IsSearchable}
use rust_nethuns.Netmap.Outstanding.{Outstanding}
use rust_nethuns.Netmap.Recv.Inv.{RxInv}
use rust_nethuns.Netmap.FreeList.{next_buf, fill_tx_ring}
use rust_nethuns.Netmap.FreeList.Chains.{Chain, fill_free_ring_lem}
use rust_nethuns.Misc.{IfCalls, Process}
use rust_nethuns.Netmap.Close.{HasBuffers}
use rust_nethuns.Netmap.Bind.{
  BindApi, base_with, fill_tx, fill_rx, ask_promisc, after_asked, deal_buffers,
}

-- The size of a ring is that of its buffer.
pub size_eq : {bits : ℕ} (r : NethunsRing) → IsShaped bits r.rings → Ring.size r ≡ 2 ^ bits
unfolding Ring.size
size_eq r v = size-eq-pow v

-- A slot below a position of the ring is another cell.
mod-ne : (n i j : ℕ) → i < n → j < i → i % n ≢ j % n
mod-ne n i j h l = λ e.
    omega (arith, e, mod-eq_of_lt {n = i} {m = n} h, mod-eq_of_lt {n = j} {m = n} (omega arith))

-- The transmission slots use up the first buffers of the list, each slot gets one, and the slots
-- before them stay as they are.
fill_tx_ring_lem :
    {bits : ℕ} (nifp : NetmapIf) (xs ys : List ℕ) (i : ℕ) (tx_ring : NethunsRing) (scan : ℕ)
    → IsShaped bits tx_ring.rings
    → i + length xs ≤ 2 ^ bits
    → Chain nifp scan (xs ++ ys)
    → (tx_ring' : NethunsRing) × (scan' : ℕ) × (fill_tx_ring nifp (length xs) i tx_ring scan
        ≡ some (tx_ring', scan'))
      × Chain nifp scan' ys
      × IsShaped bits tx_ring'.rings
      × HasBuffers tx_ring' i xs
      × ((j : ℕ) → j < i → Ring.get_slot tx_ring' j ≡ Ring.get_slot tx_ring j)
unfolding fill_tx_ring
fill_tx_ring_lem nifp [] ys i tx_ring scan v r c = (tx_ring, scan, refl, c, v, tt, λ j l. refl)
fill_tx_ring_lem {bits} nifp (x ∷ xs) ys i tx_ring scan v r c =
    let (slot, here) = get_slot-some tx_ring v i in
    let filled : NethunsRingSlot = record slot {
      pkthdr = record (slot.pkthdr) { buf_idx = scan };
    } in
    let (tx_ring', scan', run, c', v', has, kept) =
      fill_tx_ring_lem nifp xs ys (i + 1) (stored tx_ring i filled) (next_buf nifp x)
        (stored-IsShaped tx_ring v i filled) (omega arith) c.2 in
    (
      tx_ring',
      scan',
      rw (here, set_slot-some tx_ring v i filled)
          (ap
              (λ k.
                fill_tx_ring nifp (length xs) (i + 1) (stored tx_ring i filled) (next_buf nifp k))
              c.0
            ∙ run),
      c',
      v',
      ((filled, kept i (omega arith) ∙ get_slot-stored_self tx_ring v i filled, c.0), has),
      λ j l.
          kept j (omega arith)
          ∙ get_slot-stored_ne tx_ring v i j filled (mod-ne (2 ^ bits) i j (omega arith) l),
    )

fill_tx-sized :
    (nifp : NetmapIf) (tx_ring tx_ring' : NethunsRing) (n scan : ℕ)
    → Ring.size tx_ring ≡ n
    → fill_tx_ring nifp n 0 tx_ring nifp.ni_bufs_head ≡ some (tx_ring', scan)
    → fill_tx nifp (some tx_ring) ≡ some (some tx_ring', scan)
unfolding fill_tx
fill_tx-sized nifp tx_ring tx_ring' n scan sized run = rw (sized, run)

module _ {W : Type 0} (calls : IfCalls W) (api : BindApi) (opt : NethunsSocketOptions)
    (dev : List ℕ) (q : NethunsQueue) (d : NmPortDescriptor) (nr_buf_size granted : ℕ) where
  -- A socket that is ready to receive, and whose transmission slots have these buffers.
  pub record Dealt (bits tx_bits : ℕ) (rx_ring : NethunsRing) (xs ys : List ℕ)
      (s : NethunsSocketNetmap) : Type 0 where
    pub free_bits : ℕ
    pub inv : RxInv bits free_bits s rx_ring [] ys
    pub tx_ring : NethunsRing
    pub tx_eq : s.base.tx_ring ≡ some tx_ring
    pub tx_shape : IsShaped tx_bits tx_ring.rings
    pub tx_buffers : HasBuffers tx_ring 0 xs
    pub cleared : s.p.nifp ≡ record (d.nifp) { ni_bufs_head = 0 }
    pub same_opt : s.base.opt ≡ opt
    pub same_dev : s.base.devname ≡ dev

  -- A socket of both directions, fresh from `open`, whose port has enough extra buffers for its two
  -- rings: dealing them out does not fault, and the socket is ready to receive. Its transmission
  -- slots have the first buffers of the list, the free ring holds the rest, in order, the invariant
  -- of the reception holds with no packet out, and the list is cleared. If the promiscuous mode
  -- cannot be set, `bind` fails instead, with the transmission slots filled. The conditions are that
  -- the list has one buffer for each transmission
  -- slot and at most one for each reception slot, that no more than 2 ^ 63 were granted, and that the
  -- port can be searched.
  pub deal_buffers_lem :
      {bits tx_bits : ℕ} (tx_ring rx_ring : NethunsRing) (xs ys : List ℕ) (proc proc' : Process W)
      (asked : Result (Unit {0}) (Unit {0}))
      → ask_promisc calls opt.promisc dev proc ≡ some (asked, proc')
      → Outstanding bits rx_ring []
      → IsShaped tx_bits tx_ring.rings
      → length xs ≡ 2 ^ tx_bits
      → length ys ≤ 2 ^ bits
      → 2 ^ bits ≤ granted
      → granted ≤ 2 ^ 63
      → Chain d.nifp d.nifp.ni_bufs_head (xs ++ ys)
      → IsSearchable d
      → (s : NethunsSocketNetmap) × (deal_buffers calls api
            (base_with opt (some tx_ring) (some rx_ring))
            dev
            q
            d
            nr_buf_size
            granted
            proc
          ≡ some (after_asked asked s (base_with opt s.base.tx_ring (some rx_ring)), proc'))
        × Dealt bits tx_bits rx_ring xs ys s
  unfolding deal_buffers rx fill_rx
  deal_buffers_lem {bits} tx_ring rx_ring xs ys proc proc' asked asking o v sized room enough small
        c port =
      let (fb, made, valid, _) =
        new-IsValid granted (λ _. 0) (omega (arith, one-le-pow bits 2)) small in
      let empty : Holds fb (fresh granted (λ _. 0) fb) [] = record {
        valid = valid;
        counted = refl;
        items = tt;
      } in
      let (tx_ring', scan, run, rest, v', has, _) =
        fill_tx_ring_lem d.nifp xs ys 0 tx_ring d.nifp.ni_bufs_head v (omega (arith, sized)) c in
      let filled =
        fill_tx-sized d.nifp tx_ring tx_ring' (length xs) scan (size_eq tx_ring v ∙ sym sized)
          run in
      let (free_ring, run', holds) =
        fill_free_ring_lem d.nifp ys [] (suc granted) scan (fresh granted (λ _. 0) fb) rest empty
          (omega (arith, valid.items_le)) (omega arith) in
      (
        record {
          base = record (base_with opt (some tx_ring') (some rx_ring)) {
            devname = dev;
            queue = q;
            ifindex = api.if_nametoindex dev;
          };
          p = record d { nifp = record (d.nifp) { ni_bufs_head = 0 } };
          nr_buf_size = nr_buf_size;
          free_ring = free_ring;
        },
        rw (made, filled, run', asking),
        record {
          free_bits = fb;
          inv = record {
            rx_eq = refl;
            ring = o;
            pool = holds;
            room = omega arith;
            fits = omega (arith, valid.items_le);
            port = record {
              first_le = port.first_le;
              le_last = port.le_last;
              in_bounds = port.in_bounds;
            };
          };
          tx_ring = tx_ring';
          tx_eq = refl;
          tx_shape = v';
          tx_buffers = has;
          cleared = refl;
          same_opt = refl;
          same_dev = refl;
        },
      )
