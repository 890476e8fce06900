-- ===== src/Examples/Sending.antt =====
-- A run of `send` of src/sockets/api/netmap/nethuns_socket.rs, on a ring of two slots of which one
-- waits for its transmission.
use rust_nethuns.Common.{
  ℕ, true, false, ◌<◌, ◌≤◌, ◌≡◌, ◌⊎◌, refl, none, some, List, [], ◌∷◌, ◌++◌, length, take, drop,
  take-append_exact, ok, err, arith,
}
use rust_nethuns.Types.{any}
use rust_nethuns.CircularQueue.Valid.{IsShaped}
use rust_nethuns.Errors.{NethunsSendError}
use rust_nethuns.Ring.{NethunsRing, NethunsRingSlot, in_use, is_free, get_slot, tail}
use rust_nethuns.Netmap.{NethunsSocketNetmap, netmap_buf}
use rust_nethuns.Netmap.Send.{send}
use rust_nethuns.Netmap.Send.Queued.{TxInv, CopyLaws, send_lem}
use rust_nethuns.Examples.Port.{port}
use rust_nethuns.Examples.Socket.{options, idle, fresh_pool}

-- A copy of the packet's bytes and no more.
abbrev pub exact : List ℕ → List ℕ → List ℕ
exact dst packet = packet ++ drop (length packet) dst

length-exact :
    (dst packet : List ℕ) → length packet ≤ length dst → length (exact dst packet) ≡ length dst
length-exact dst [] h = refl
length-exact [] (x ∷ packet) h = elim h [ ]
length-exact (y ∷ dst) (x ∷ packet) h = omega (arith, length-exact dst packet (omega arith))

exact-CopyLaws : CopyLaws exact
exact-CopyLaws = record {
  copied = λ dst packet h. take-append_exact packet (drop (length packet) dst) (length packet) refl;
  same_size = length-exact;
}

abbrev waiting : NethunsRingSlot
waiting = record idle { status = in_use; len = 3 }

abbrev pub tx : NethunsRing
tx = record {
  pktsize = 4;
  rings = record { buffer = idle ∷ waiting ∷ []; head = 1; tail = 2; mask = 1; num_items = 2 };
}

abbrev sender : NethunsSocketNetmap
sender = record {
  base = record {
    opt = options;
    tx_ring = some tx;
    rx_ring = none;
    devname = [];
    queue = any;
    ifindex = 1;
    filter = none;
  };
  p = port;
  nr_buf_size = 5;
  free_ring = fresh_pool;
}

pub tx-IsShaped : IsShaped 1 tx.rings
tx-IsShaped = record {
  few_bits = omega arith;
  mask_eq = refl;
  length_eq = refl;
  head_lt = omega arith;
  tail_lt = omega arith;
  some_items = omega arith;
  items_le = omega arith;
}

tx-TxInv : TxInv 1 sender tx (waiting ∷ [])
unfolding is_free
tx-TxInv = record {
  tx_eq = refl;
  queued = record {
    valid = record { shape = tx-IsShaped; count_le = omega arith };
    counted = refl;
    items = (refl, tt);
  };
  taken = (refl, tt);
  sized = λ i. refl;
}

send_example :
    (at_tail : NethunsRingSlot) × (get_slot tx (tail tx) ≡ some at_tail)
    × (((is_free at_tail.status ≡ false)
          × (send exact sender (1 ∷ 2 ∷ []) ≡ some (err NethunsSendError.in_use, sender)))
        ⊎ ((is_free at_tail.status ≡ true)
            × (5 < 2)
            × (send exact sender (1 ∷ 2 ∷ [])
                ≡ some (err (NethunsSendError.invalid_packet_size 5 2), sender)))
        ⊎ ((is_free at_tail.status ≡ true)
            × (2 ≤ 5)
            × ((s' : NethunsSocketNetmap) × (tx' : NethunsRing) × (slot : NethunsRingSlot) × (send
                    exact sender
                    (1 ∷ 2 ∷ [])
                  ≡ some (ok tt, s'))
                × TxInv 1 s' tx' (waiting ∷ slot ∷ [])
                × (slot.status ≡ in_use)
                × (slot.len ≡ 2)
                × (take 2 (netmap_buf s'.p.nifp slot.pkthdr.buf_idx) ≡ 1 ∷ 2 ∷ []))))
send_example = send_lem exact exact-CopyLaws tx-TxInv (1 ∷ 2 ∷ [])
