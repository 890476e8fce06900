-- ===== src/Examples/Flushing.antt =====
-- A run of `flush` of src/sockets/api/netmap/nethuns_socket.rs: one packet waits, and the netmap ring
-- has room for it.
use rust_nethuns.Common.{ℕ, ◌≡◌, refl, none, some, List, [], ◌∷◌, ok, arith}
use rust_nethuns.Common.Counts.{SameItems}
use rust_nethuns.Types.{any}
use rust_nethuns.Ring.{NethunsRing}
use rust_nethuns.Netmap.{NetmapRing, NethunsSocketNetmap}
use rust_nethuns.Netmap.Flush.{Flushed, flush, push_packets, is_in_use}
use rust_nethuns.Netmap.Flush.Links.{NextLaws}
use rust_nethuns.Netmap.Flush.Push.{PushInv, Exchanged, Stopped, marked, push_packets_lem}
use rust_nethuns.Netmap.Flush.Total.{Decided, TxReady, TxSyncLaws, tx_owned, flush_lem}
use rust_nethuns.Examples.Port.{port, quiet, packets}
use rust_nethuns.Examples.Socket.{options, fresh_pool}
use rust_nethuns.Examples.Sending.{tx, tx-IsShaped, exact}
use rust_nethuns.Netmap.Transmit.{
  Call, send_call, send_slot_call, flush_call, transmit, transmit_lem,
}

pub quiet-NextLaws : NextLaws quiet
quiet-NextLaws = record { by_size = λ r r' i e. rw e refl; inside = λ r i h. ground arith }

pub quiet-TxSyncLaws : TxSyncLaws quiet
quiet-TxSyncLaws = record {
  same_first = λ d. refl;
  same_last = λ d. refl;
  same_bufs = λ d. refl;
  advanced = λ d i ring f l here. (
    ring,
    here,
    record {
      same_slots = refl;
      same_head = refl;
      steps = 0;
      steps_small = omega arith;
      moved = refl;
      not_past = λ n w. omega arith;
    },
  );
  failed = λ d e. refl;
}

abbrev pub flushing : NethunsSocketNetmap
flushing = record {
  base = record {
    opt = options;
    tx_ring = some tx;
    rx_ring = none;
    devname = [];
    queue = any;
    ifindex = 1;
    filter = none;
  };
  p = record port { nifp = record (port.nifp) { tx_rings = packets ∷ [] } };
  nr_buf_size = 5;
  free_ring = fresh_pool;
}

pub flushing-TxReady : TxReady quiet 1 flushing tx (1 ∷ [])
flushing-TxReady = record {
  tx_eq = refl;
  cells = record { shape = tx-IsShaped; short = (omega arith, (omega arith, tt)) };
  rings =
      ((packets, refl, record { tail_eq = refl; head_in = omega arith; n = 0; links = refl }), tt);
  range = refl;
  small = omega arith;
}

flush_example :
    (out : Flushed) × (tx' : NethunsRing) × (tails' : List ℕ) × (flush quiet flushing ≡ some out)
    × Decided quiet flushing tx (1 ∷ []) out.0
    × TxReady quiet 1 out.1 tx' tails'
    × SameItems (tx_owned out.1 tx') (tx_owned flushing tx)
flush_example =
    flush_lem quiet quiet-NextLaws quiet-TxSyncLaws 1 flushing tx (1 ∷ []) flushing-TxReady

push_packets_example :
    (ring' : NetmapRing) × (tx' : NethunsRing) × (head' n' : ℕ) × (push_packets quiet 3 packets tx 1
      ≡ some (ok tt, ring', tx', head'))
    × PushInv quiet 1 0 n' ring' tx'
    × Exchanged packets tx ring' tx'
    × Stopped ring' tx' head'
    × (head' ≡ tx'.rings.head)
unfolding marked is_in_use
push_packets_example =
    push_packets_lem quiet quiet-NextLaws 3 {n = 0} {ring = packets} {tx = tx} 1 (omega arith)
      (record {
        shape = tx-IsShaped;
        short = (omega arith, (omega arith, tt));
        head_in = omega arith;
        links = refl;
      })
      refl

abbrev calls : List Call
calls = flush_call ∷ send_slot_call 0 60 ∷ send_call (1 ∷ 2 ∷ []) ∷ flush_call ∷ []

transmit_example :
    (s' : NethunsSocketNetmap) × (tx' : NethunsRing) × (tails' : List ℕ) × (transmit exact quiet
        flushing calls
      ≡ some s')
    × TxReady quiet 1 s' tx' tails'
    × SameItems (tx_owned s' tx') (tx_owned flushing tx)
transmit_example =
    transmit_lem exact quiet quiet-NextLaws quiet-TxSyncLaws calls flushing tx (1 ∷ [])
      (omega arith, tt) flushing-TxReady
