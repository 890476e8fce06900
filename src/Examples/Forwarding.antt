-- ===== src/Examples/Forwarding.antt =====
-- Runs of the programs of examples that forward and send packets.
use rust_nethuns.Common.{
  ℕ, ◌*◌, ◌^◌, ◌<◌, ◌≡◌, refl, true, false, none, some, List, [], ◌∷◌, Result, arith,
}
use rust_nethuns.Errors.{NethunsFlushError}
use rust_nethuns.Ring
use rust_nethuns.Ring.{NethunsRingSlot}
use rust_nethuns.Netmap.{NethunsSocketNetmap}
use rust_nethuns.Netmap.Flush.Total.{TxReady, tx_owned}
use rust_nethuns.Netmap.Sides.{Ready, Receiving}
use rust_nethuns.Programs.Forward.{Forwarder}
use rust_nethuns.Programs.ForwardMt.{
  ForwarderMt, Turn, producer, consumer, meter_rcv, meter_fwd, Ran, run_turns,
}
use rust_nethuns.Programs.ForwardMt.Turns.{InOrder}
use rust_nethuns.Programs.ForwardMt.Fifo.{run_turns_lem}
use rust_nethuns.Programs.Send.{Args, Sender, st_send, fill_tx_ring}
use rust_nethuns.Programs.Send.Batches.{BatchEnds}
use rust_nethuns.Programs.Send.Rounds.{AreSent, st_send_lem}
use rust_nethuns.Programs.Send.Filled.{Starts, fill_tx_ring_lem}
use rust_nethuns.Examples.Port.{quiet, quiet-RxSyncLaws}
use rust_nethuns.Examples.Socket.{ring, held, released, ready, ready-RxInv}
use rust_nethuns.Examples.Sending.{tx, exact}
use rust_nethuns.Examples.Flushing.{quiet-NextLaws, quiet-TxSyncLaws, flushing, flushing-TxReady}

pub ready-Receiving : Receiving 2 2 4 ready
ready-Receiving = record {
  rx = ring;
  slots = released ∷ held ∷ [];
  buffers = 7 ∷ 6 ∷ [];
  inv = ready-RxInv;
  at_most = omega arith;
}

pub flushing-Ready : Ready quiet 1 (tx_owned flushing tx) flushing
flushing-Ready = record { tx = tx; tails = 1 ∷ []; inv = flushing-TxReady; same = λ b. refl }

abbrev forwarder : Forwarder
forwarder = record { in_socket = ready; out_socket = flushing; added_rcv = 0; added_fwd = 0 }

abbrev threads : ForwarderMt
threads = record {
  in_socket = ready;
  out_socket = flushing;
  queue = [];
  unpushed = none;
  unsent = none;
  total_rcv = 0;
  total_fwd = 0;
  metered_rcv = 0;
  metered_fwd = 0;
}

abbrev turns : List Turn
turns = producer ∷ consumer ∷ meter_rcv ∷ producer ∷ meter_fwd ∷ consumer ∷ producer ∷ consumer ∷ []

run_turns_example :
    (r : Ran) × (run_turns quiet exact turns threads ≡ some r)
    × InOrder quiet 2 2 1 4 (tx_owned flushing tx) [] r
run_turns_example =
    run_turns_lem quiet quiet-RxSyncLaws quiet-NextLaws quiet-TxSyncLaws exact turns threads
      (record {
        receiving = ready-Receiving;
        ready = flushing-Ready;
        within = omega arith;
        counted = refl;
      })

abbrev two_bytes : List ℕ
two_bytes = 1 ∷ 2 ∷ []

abbrev args : Args
args = record { batch_size = 2; num_sockets = 1; multithreading = false; zerocopy = true }

abbrev sender : Sender
sender = record { socket = flushing; pktid = 0; total = 0 }

st_send_example :
    (res : Result (Unit {0}) NethunsFlushError) × (sts : List Sender) × (st_send quiet exact 2 args
        two_bytes
        (sender ∷ [])
      ≡ some (res, sts))
    × BatchEnds quiet res
    × AreSent quiet 1 (tx_owned flushing tx ∷ []) (2 * 2) (sender ∷ []) sts
st_send_example =
    st_send_lem quiet exact quiet-NextLaws quiet-TxSyncLaws 1 args two_bytes (omega arith) 2
      (tx_owned flushing tx ∷ []) (sender ∷ []) (flushing-Ready, tt)

fill_tx_ring_example :
    (s' : NethunsSocketNetmap) × (fill_tx_ring args two_bytes flushing ≡ some (true, s'))
    × TxReady quiet 1 s' tx (1 ∷ [])
    × ((k : ℕ) (slot : NethunsRingSlot)
        → k < 2 ^ 1
        → Ring.get_slot tx k ≡ some slot
        → Starts two_bytes s'.p.nifp slot.pkthdr.buf_idx)
fill_tx_ring_example =
    fill_tx_ring_lem args two_bytes flushing tx refl flushing-TxReady (λ i. omega arith)
