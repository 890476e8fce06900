-- ===== src/Examples/Binding.antt =====
-- Four extra buffers dealt out by `bind` of src/sockets/api/netmap/bindable_socket.rs: two for the
-- transmission slots, two for the free ring.
use rust_nethuns.Common.{
  ℕ, ◌+◌, ◌≡◌, ◌==◌, ◌⊎◌, inl, refl, true, some, [], ◌∷◌, ok, err, if◌then◌else◌, arith,
}
use rust_nethuns.CircularQueue.Valid.{IsShaped}
use rust_nethuns.Types.{NethunsSocketOptions, any, rx_tx}
use rust_nethuns.Errors.{NethunsBindError}
use rust_nethuns.Misc.{Process, get_info, promisc_bit}
use rust_nethuns.Misc.Counted.{IsCounted}
use rust_nethuns.Ring.{NethunsRing}
use rust_nethuns.Netmap.{NmPortDescriptor, NethunsSocketBase, NethunsSocketNetmap, rx, tx}
use rust_nethuns.Netmap.Recv.Inv.{RxInv}
use rust_nethuns.Netmap.FreeList.{next_buf, read_u32}
use rust_nethuns.Netmap.FreeList.Chains.{Chain, AreReleasable}
use rust_nethuns.Netmap.Bind.{
  BindApi, Bound, base_with, open_socket, ask_promisc, after_asked, deal_buffers, bind, port_name,
  has_nul, is_vale, mode_flags,
}
use rust_nethuns.Netmap.Bind.Modes.{new_ring}
use rust_nethuns.Netmap.Startup.{opened, startup_lem}
use rust_nethuns.Netmap.Bind.Pool.{Dealt, deal_buffers_lem}
use rust_nethuns.Netmap.RingSearch.{IsSearchable}
use rust_nethuns.Netmap.Close.{drop_socket}
use rust_nethuns.Netmap.Lifetime.{lifetime_lem}
use rust_nethuns.Examples.Port.{port}
use rust_nethuns.Examples.Modes.{one_interface, eth, one-ModeLaws, at_first}
use rust_nethuns.Examples.Opening.{api, dev}
use rust_nethuns.Examples.Socket.{options, idle}

abbrev unused : NethunsRing
unused = record {
  pktsize = 4;
  rings = record { buffer = idle ∷ idle ∷ []; head = 0; tail = 0; mask = 1; num_items = 2 };
}

-- A port whose extra buffers are 1, 2, 3 and 4, in this order.
abbrev granted_port : NmPortDescriptor
granted_port = record port {
  nifp = record (port.nifp) {
    ni_bufs_head = 1;
    buffers = λ i. (if i == 4 then 0 else i + 1) ∷ 0 ∷ 0 ∷ 0 ∷ 0 ∷ [];
  };
}

granted_port-Chain : Chain granted_port.nifp 1 (1 ∷ 2 ∷ 3 ∷ 4 ∷ [])
unfolding next_buf read_u32
granted_port-Chain =
    (refl, omega arith, (refl, omega arith, (refl, omega arith, (refl, omega arith, refl))))

granted_port-IsSearchable : IsSearchable granted_port
granted_port-IsSearchable = record {
  first_le = omega arith;
  le_last = omega arith;
  in_bounds = omega arith;
}

granted_port-AreReleasable : AreReleasable granted_port.nifp (1 ∷ 2 ∷ 3 ∷ 4 ∷ []) []
granted_port-AreReleasable = (
  (omega arith, omega arith, omega arith),
  tt,
  (
    (omega arith, omega arith, omega arith),
    (omega arith, tt),
    (
      (omega arith, omega arith, omega arith),
      (omega arith, (omega arith, tt)),
      (
        (omega arith, omega arith, omega arith),
        (omega arith, (omega arith, (omega arith, tt))),
        tt,
      ),
    ),
  ),
)

unused-IsShaped : IsShaped 1 unused.rings
unused-IsShaped = record {
  few_bits = omega arith;
  mask_eq = refl;
  length_eq = refl;
  head_lt = omega arith;
  tail_lt = omega arith;
  some_items = omega arith;
  items_le = omega arith;
}

deal_buffers_example :
    (s : NethunsSocketNetmap) × (deal_buffers one_interface api
        (base_with options (some unused) (some unused))
        dev
        any
        granted_port
        5
        4
        at_first
      ≡ some (after_asked (ok tt) s (base_with options s.base.tx_ring (some unused)), at_first))
    × Dealt one_interface api options dev any granted_port 5 4 1 1 unused
        (1 ∷ 2 ∷ [])
        (3 ∷ 4 ∷ [])
        s
unfolding ask_promisc
deal_buffers_example =
    deal_buffers_lem one_interface api options dev any granted_port 5 4 unused unused (1 ∷ 2 ∷ [])
      (3 ∷ 4 ∷ []) at_first at_first (ok tt) refl
      (record { shape = unused-IsShaped; counted = refl; cells = tt }) unused-IsShaped refl
      (omega arith) (omega arith) (omega arith) granted_port-Chain granted_port-IsSearchable

abbrev promiscuous : NethunsSocketOptions
promiscuous = record options { promisc = true }

at_first-IsCounted : IsCounted one-ModeLaws 0 2 0 0 at_first
unfolding get_info one-ModeLaws
at_first-IsCounted = record {
  before_small = omega arith;
  unlocked = refl;
  entry = (refl, refl, omega arith);
  while_used = inl refl;
  when_unused = inl refl;
}

lifetime_example :
    (res : Bound) × (proc1 : Process ℕ) × (deal_buffers one_interface api
        (base_with promiscuous (some unused) (some unused))
        eth
        any
        granted_port
        5
        4
        at_first
      ≡ some (res, proc1))
    × (((base : NethunsSocketBase) × (res ≡ err (NethunsBindError.error, base))
          × IsCounted one-ModeLaws 0 1 0 0 proc1)
        ⊎ ((s : NethunsSocketNetmap) × (free_bits : ℕ) × (s' : NethunsSocketNetmap)
            × (proc2 : Process ℕ) × (res ≡ ok s)
            × RxInv 1 free_bits s unused [] (3 ∷ 4 ∷ [])
            × (promisc_bit proc1.system ≡ 1)
            × (drop_socket one_interface s proc1 ≡ some (s', proc2))
            × Chain s'.p.nifp s'.p.nifp.ni_bufs_head (4 ∷ 3 ∷ 2 ∷ 1 ∷ [])
            × (IsCounted one-ModeLaws 0 0 0 0 proc2 ⊎ IsCounted one-ModeLaws 0 0 0 1 proc2)))
unfolding one-ModeLaws
lifetime_example =
    lifetime_lem one-ModeLaws api promiscuous any granted_port 5 4 unused unused (1 ∷ 2 ∷ [])
      (3 ∷ 4 ∷ []) at_first refl (record { shape = unused-IsShaped; counted = refl; cells = tt })
      unused-IsShaped refl (omega arith) (omega arith) (omega arith) granted_port-Chain
      granted_port-AreReleasable granted_port-IsSearchable at_first-IsCounted

-- Options of both directions, and a system that grants the four buffers.
abbrev both : NethunsSocketOptions
both = record options { mode = rx_tx }

abbrev granting : BindApi
granting = record api { open_desc = λ d n. some (n, granted_port) }

startup_example :
    (s : NethunsSocketNetmap) × (size : ℕ) × (open_socket both ≡ some (ok (opened both 1)))
    × (bind one_interface granting (opened both 1) dev any at_first
        ≡ some (
          after_asked (ok tt) s (base_with both s.base.tx_ring (some (new_ring both 1))),
          at_first,
        ))
    × Dealt one_interface granting both dev any granted_port size 4 1 1
        (new_ring both 1)
        (1 ∷ 2 ∷ [])
        (3 ∷ 4 ∷ [])
        s
unfolding port_name has_nul is_vale mode_flags rx tx ask_promisc
startup_example =
    startup_lem one_interface granting both dev any at_first at_first 1 port granted_port
      (1 ∷ 2 ∷ []) (3 ∷ 4 ∷ []) (ok tt) refl (omega arith) (omega arith) (omega arith) (omega arith)
      refl refl refl refl refl refl granted_port-Chain granted_port-IsSearchable refl
