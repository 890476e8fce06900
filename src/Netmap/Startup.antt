-- ===== src/Netmap/Startup.antt =====
-- A socket from its options on (src/sockets/api/netmap/bindable_socket.rs): `open` and then `bind`.
use rust_nethuns.Common.{
  ℕ, suc, ◌+◌, ◌*◌, ◌^◌, ◌≤◌, ◌<◌, ◌≡◌, ◌∙◌, refl, ap, subst, false, some, List, ◌++◌, length,
  get_elem?_in, ◌>>=◌, Result, ok, arith, eq→==,
}
use native.Mathlib.Decide.{dec_lt}
use native.Mathlib.Nat.{pow-le-pow_right}
use rust_nethuns.CircularQueue.Valid.{IsShaped, new-IsValid}
use rust_nethuns.Types.{NethunsQueue, NethunsSocketOptions, rx_tx}
use rust_nethuns.Ring.{default_with_packet_size}
use rust_nethuns.Misc.{IfCalls, Process}
use rust_nethuns.Netmap.{
  NetmapRing, NmPortDescriptor, NethunsSocketBase, NethunsSocketNetmap, netmap_rxring, rx, tx,
}
use rust_nethuns.Netmap.RingSearch.{IsSearchable}
use rust_nethuns.Netmap.FreeList.Chains.{Chain}
use rust_nethuns.Netmap.Bind.{
  BindApi, base_with, open_socket, wants_rx, wants_tx, has_nul, port_name, extra_bufs, ring_size,
  ask_promisc, after_asked, Bound, open_port, deal_buffers, bind,
}
use rust_nethuns.Netmap.Bind.Modes.{slots_wanted, new_ring, ring_if, open_socket_lem}
use rust_nethuns.Netmap.Bind.Pool.{Dealt, size_eq, deal_buffers_lem}

-- The least power of two that is large enough is one.
pow_above : (a b w : ℕ) → w ≤ 2 ^ a → 2 ^ b < 2 * w → b ≤ a
pow_above a b w above below = elim (dec_lt a b) [
  | yes less ↦
      absurd (
        omega
          (arith, pow-le-pow_right {n = 2} (omega arith) {i = suc a} {j = b} less, above, below))
  | no not_less ↦ omega arith
]

-- The rings of a new socket.
new_ring-IsShaped :
    (opt : NethunsSocketOptions) (bits : ℕ)
    → 0 < slots_wanted opt
    → slots_wanted opt ≤ 2 ^ bits
    → 2 ^ bits < 2 * slots_wanted opt
    → IsShaped bits (new_ring opt bits).rings
new_ring-IsShaped opt bits pos above below =
    let (bits', _, valid, below') =
      new-IsValid (slots_wanted opt) (λ _. default_with_packet_size opt.packetsize) pos
        (omega arith) in
    let same : bits' ≡ bits = omega (
      arith,
      pow_above bits bits' (slots_wanted opt) above below',
      pow_above bits' bits (slots_wanted opt) valid.items_le below,
    ) in
    subst (λ b. IsShaped b (new_ring opt b).rings) same valid.shape

-- A socket of both directions as `open` makes it.
abbrev pub opened : NethunsSocketOptions → ℕ → NethunsSocketBase
opened opt bits = base_with opt (some (new_ring opt bits)) (some (new_ring opt bits))

open_socket-opened :
    (opt : NethunsSocketOptions) (bits : ℕ)
    → opt.mode ≡ rx_tx
    → 0 < slots_wanted opt
    → slots_wanted opt ≤ 2 ^ bits
    → 2 ^ bits < 2 * slots_wanted opt
    → open_socket opt ≡ some (ok (opened opt bits))
unfolding wants_rx wants_tx
open_socket-opened opt bits both pos above below =
    let (bits', run, above', below') = open_socket_lem opt pos in
    let same : bits' ≡ bits = omega (
      arith,
      pow_above bits bits' (slots_wanted opt) above below',
      pow_above bits' bits (slots_wanted opt) above' below,
    ) in
    run
    ∙ ap
        (λ m. some (
          ok (
            base_with opt (ring_if (wants_tx m) (new_ring opt bits'))
              (ring_if (wants_rx m) (new_ring opt bits')))))
        both
    ∙ ap (λ b. some (ok (opened opt b))) same

-- It asks for one buffer for each slot of its rings.
extra_bufs-opened :
    (opt : NethunsSocketOptions) (bits : ℕ)
    → IsShaped bits (new_ring opt bits).rings
    → 2 ^ bits < 2 ^ 31
    → extra_bufs (opened opt bits) ≡ 2 ^ bits + 2 ^ bits
unfolding extra_bufs ring_size rx tx
extra_bufs-opened opt bits v small = rw (size_eq (new_ring opt bits) v) (omega (arith, small))

module _ {W : Type 0} (calls : IfCalls W) (api : BindApi) (opt : NethunsSocketOptions)
    (dev : List ℕ) (q : NethunsQueue) (proc proc' : Process W) (bits : ℕ) where
  -- `bind` comes to its end.
  bind_run :
      (desc d : NmPortDescriptor) (ring : NetmapRing) (n : ℕ) (out : Bound × Process W)
      → has_nul (port_name api.decimal (opened opt bits) dev q) ≡ false
      → has_nul dev ≡ false
      → api.prepare (port_name api.decimal (opened opt bits) dev q) ≡ some desc
      → extra_bufs (opened opt bits) ≡ n
      → api.open_desc desc n ≡ some (n, d)
      → netmap_rxring d.nifp d.first_rx_ring ≡ some ring
      → deal_buffers calls api (opened opt bits) dev q d ring.nr_buf_size n proc ≡ some out
      → bind calls api (opened opt bits) dev q proc ≡ some out
  unfolding bind open_port rx
  bind_run desc d ring n out named dev_ok prepared extra granted first run =
      rw (named, dev_ok, prepared, open_port, extra, granted, extra, eq→== n n refl, ◌>>=◌, first)
        run

  -- From options that ask for both directions, `open` and `bind` give a socket that is ready to receive
  -- and whose transmission slots have a buffer each, unless the promiscuous mode cannot be set. The
  -- rings have the least power of two of slots that is large enough, `2 ^ bits`. The conditions are
  -- that the options ask for a slot and for fewer than 2 ^ 31 in a ring, that the names have no zero
  -- byte, and that the port opens with one extra buffer for each slot, all in one list, and can be
  -- searched.
  pub startup_lem :
      (desc d : NmPortDescriptor) (xs ys : List ℕ) (asked : Result (Unit {0}) (Unit {0}))
      → opt.mode ≡ rx_tx
      → 0 < slots_wanted opt
      → slots_wanted opt ≤ 2 ^ bits
      → 2 ^ bits < 2 * slots_wanted opt
      → 2 ^ bits < 2 ^ 31
      → has_nul (port_name api.decimal (opened opt bits) dev q) ≡ false
      → has_nul dev ≡ false
      → api.prepare (port_name api.decimal (opened opt bits) dev q) ≡ some desc
      → api.open_desc desc (2 ^ bits + 2 ^ bits) ≡ some (2 ^ bits + 2 ^ bits, d)
      → length xs ≡ 2 ^ bits
      → length ys ≡ 2 ^ bits
      → Chain d.nifp d.nifp.ni_bufs_head (xs ++ ys)
      → IsSearchable d
      → ask_promisc calls opt.promisc dev proc ≡ some (asked, proc')
      → (s : NethunsSocketNetmap) × (size : ℕ) × (open_socket opt ≡ some (ok (opened opt bits)))
        × (bind calls api (opened opt bits) dev q proc
            ≡ some (
              after_asked asked s (base_with opt s.base.tx_ring (some (new_ring opt bits))),
              proc',
            ))
        × Dealt calls api opt dev q d size
            (2 ^ bits + 2 ^ bits)
            bits
            bits
            (new_ring opt bits)
            xs
            ys
            s
  unfolding netmap_rxring
  startup_lem desc d xs ys asked both pos above below small named dev_ok prepared granted len_x
        len_y chain port asking =
      let v = new_ring-IsShaped opt bits pos above below in
      let extra = extra_bufs-opened opt bits v small in
      let (ring, first) =
        get_elem?_in d.nifp.rx_rings d.first_rx_ring
          (omega (arith, port.first_le, port.le_last, port.in_bounds)) in
      let (s, run, t) =
        deal_buffers_lem calls api opt dev q d ring.nr_buf_size (2 ^ bits + 2 ^ bits)
          (new_ring opt bits) (new_ring opt bits) xs ys proc proc' asked asking
          (record { shape = v; counted = refl; cells = tt }) v len_x (omega (arith, len_y))
          (omega arith) (omega (arith, small)) chain port in
      (
        s,
        ring.nr_buf_size,
        open_socket-opened opt bits both pos above below,
        bind_run desc d ring (2 ^ bits + 2 ^ bits) _ named dev_ok prepared extra granted first run,
        t,
      )
