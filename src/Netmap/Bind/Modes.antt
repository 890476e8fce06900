-- ===== src/Netmap/Bind/Modes.antt =====
-- The modes of a socket in `open` and `bind` of src/sockets/api/netmap/bindable_socket.rs.
use rust_nethuns.Common.{
  ℕ, ◌*◌, ◌%◌, ◌^◌, ◌≤◌, ◌<◌, ◌≡◌, ◌⊎◌, inl, inr, refl, Bool, true, false, not, ◌&&◌, Bool-cases,
  Option, none, some, List, if◌then◌else◌, ◌>>=◌, ok, err, arith,
}
use rust_nethuns.CircularQueue.Valid.{fresh, new-IsValid, new-zero}
use rust_nethuns.CircularQueue
use rust_nethuns.Ring.{NethunsRing, default_with_packet_size}
use rust_nethuns.Types.{
  NethunsQueue, NethunsSocketMode, rx_tx, rx_only, tx_only, NethunsSocketOptions,
}
use rust_nethuns.Netmap.{NetmapRing, NmPortDescriptor, NethunsSocketBase, netmap_rxring, rx, tx}
use rust_nethuns.Errors.{NethunsBindError}
use rust_nethuns.Misc.{IfCalls, Process}
use rust_nethuns.Netmap.Bind.{
  ring_size, BindApi, open_socket, make_ring, wants_rx, wants_tx, base_with, extra_bufs, has_nul,
  port_name, bind, open_port, deal_buffers,
}

-- The number of slots that the options ask for.
abbrev pub slots_wanted : NethunsSocketOptions → ℕ
slots_wanted opt = opt.numblocks * opt.numpackets % 2 ^ 32

-- A ring as `open` makes it, with `2 ^ bits` free slots.
abbrev pub new_ring : NethunsSocketOptions → ℕ → NethunsRing
new_ring opt bits = record {
  pktsize = opt.packetsize;
  rings = fresh (slots_wanted opt) (λ _. default_with_packet_size opt.packetsize) bits;
}

-- The ring of a direction, if the mode asks for it.
abbrev pub ring_if : Bool → NethunsRing → Option NethunsRing
ring_if true r = some r
ring_if false r = none

-- Every mode has a direction.
some_direction : (m : NethunsSocketMode) → (not (wants_rx m) && not (wants_tx m)) ≡ false
unfolding wants_rx wants_tx
some_direction rx_tx = refl
some_direction rx_only = refl
some_direction tx_only = refl

no_rx-tx : (m : NethunsSocketMode) → wants_rx m ≡ false → wants_tx m ≡ true
unfolding wants_rx wants_tx
no_rx-tx rx_tx e = refl
no_rx-tx rx_only e = cc
no_rx-tx tx_only e = refl

make_ring_if :
    (b : Bool) (opt : NethunsSocketOptions) (bits : ℕ)
    → CircularQueue.new (slots_wanted opt) (λ _. default_with_packet_size opt.packetsize)
      ≡ some (new_ring opt bits).rings
    → make_ring b opt ≡ some (ring_if b (new_ring opt bits))
unfolding make_ring
make_ring_if false opt bits e = refl
make_ring_if true opt bits e = rw e

make_ring-zero : (opt : NethunsSocketOptions) → slots_wanted opt ≡ 0 → make_ring true opt ≡ none
unfolding make_ring
make_ring-zero opt z =
    rw (new-zero (slots_wanted opt) (λ _. default_with_packet_size opt.packetsize) z)

-- `open` succeeds if the options ask for at least one slot. The socket then has a ring for each
-- direction of its mode, and for no other; the rings are empty, and their size is the least power
-- of two that is large enough.
pub open_socket_lem :
    (opt : NethunsSocketOptions)
    → 0 < slots_wanted opt
    → (bits : ℕ) × (open_socket opt
        ≡ some (
            ok (
              base_with opt
                (ring_if (wants_tx opt.mode) (new_ring opt bits))
                (ring_if (wants_rx opt.mode) (new_ring opt bits)))))
      × (slots_wanted opt ≤ 2 ^ bits)
      × (2 ^ bits < 2 * slots_wanted opt)
unfolding open_socket
open_socket_lem opt pos =
    let (bits, e, v, below) =
      new-IsValid (slots_wanted opt) (λ _. default_with_packet_size opt.packetsize) pos
        (omega arith) in
    (
      bits,
      rw (
        some_direction opt.mode,
        make_ring_if (wants_rx opt.mode) opt bits e,
        make_ring_if (wants_tx opt.mode) opt bits e,
      ),
      v.items_le,
      below,
    )

-- Without a slot `open` panics, in every mode.
pub open_socket-zero : (opt : NethunsSocketOptions) → slots_wanted opt ≡ 0 → open_socket opt ≡ none
unfolding open_socket
open_socket-zero opt z = elim (Bool-cases (wants_rx opt.mode)) [
  | inl r ↦ rw (some_direction opt.mode, r, make_ring-zero opt z)
  | inr t ↦
      rw (some_direction opt.mode, t, no_rx-tx opt.mode t, make_ring, ◌>>=◌, make_ring-zero opt z)
]

-- A socket of one direction asks for no extra buffers: each ring's size is added if the other
-- direction is there.
pub extra_bufs-one_way :
    (base : NethunsSocketBase) → (base.rx_ring ≡ none) ⊎ (base.tx_ring ≡ none) → extra_bufs base ≡ 0
unfolding extra_bufs ring_size rx tx
extra_bufs-one_way base (inl e) = ground arith
extra_bufs-one_way base (inr e) = ground arith

module _ {W : Type 0} (calls : IfCalls W) (api : BindApi) (base : NethunsSocketBase) (dev : List ℕ)
    (q : NethunsQueue) (proc : Process W) where
  -- A socket of one direction panics in `bind`, as soon as its port opens with the extra buffers
  -- that were asked for and the port's first ring is there: the free ring gets no cells.
  pub bind-one_way :
      (d d' : NmPortDescriptor) (ring : NetmapRing)
      → (base.rx_ring ≡ none) ⊎ (base.tx_ring ≡ none)
      → has_nul (port_name api.decimal base dev q) ≡ false
      → has_nul dev ≡ false
      → api.prepare (port_name api.decimal base dev q) ≡ some d
      → api.open_desc d 0 ≡ some (0, d')
      → netmap_rxring d'.nifp (if rx base then d'.first_rx_ring else d'.first_tx_ring) ≡ some ring
      → bind calls api base dev q proc ≡ none
  unfolding bind open_port deal_buffers
  bind-one_way d d' ring one_way name_ok dev_ok prepared opened looked_up = rw (
    name_ok,
    dev_ok,
    prepared,
    open_port,
    extra_bufs-one_way base one_way,
    opened,
    extra_bufs-one_way base one_way,
    ◌>>=◌,
    looked_up,
    deal_buffers,
  )

  -- A failure before the buffers are dealt out gives the socket back as it was.
  pub bind-refused :
      has_nul (port_name api.decimal base dev q) ≡ false
      → has_nul dev ≡ false
      → api.prepare (port_name api.decimal base dev q) ≡ none
      → bind calls api base dev q proc ≡ some (err (NethunsBindError.framework_error, base), proc)
  unfolding bind
  bind-refused name_ok dev_ok refused = rw (name_ok, dev_ok, refused)
