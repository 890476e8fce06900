-- ===== src/Examples/Duplex.antt =====
-- A socket that receives and transmits.
use rust_nethuns.Common.{◌≡◌, refl, some, List, [], ◌∷◌, arith}
use rust_nethuns.Netmap.{NethunsSocketNetmap}
use rust_nethuns.Netmap.Flush.Total.{tx_owned}
use rust_nethuns.Netmap.Sides.{Ready, Receiving}
use rust_nethuns.Netmap.Duplex.{SyncsApart}
use rust_nethuns.Netmap.Duplex.Client.{
  Call, recv_call, drop_call, send_call, send_slot_call, flush_call, Receiving-same, Ready-same,
  operate_all, operate_all_lem,
}
use rust_nethuns.Examples.Port.{quiet, quiet-RxSyncLaws}
use rust_nethuns.Examples.Socket.{ready}
use rust_nethuns.Examples.Sending.{tx, exact}
use rust_nethuns.Examples.Flushing.{quiet-NextLaws, quiet-TxSyncLaws, flushing}
use rust_nethuns.Examples.Forwarding.{ready-Receiving, flushing-Ready}

quiet-SyncsApart : SyncsApart quiet
quiet-SyncsApart = record { rx_apart = λ d. refl; tx_apart = λ d. refl }

-- The reception of one socket and the transmission of another one.
abbrev both : NethunsSocketNetmap
both = record flushing {
  base = record (ready.base) { tx_ring = some tx };
  p = record (ready.p) {
    first_tx_ring = flushing.p.first_tx_ring;
    last_tx_ring = flushing.p.last_tx_ring;
    nifp = record (ready.p.nifp) { tx_rings = flushing.p.nifp.tx_rings };
  };
  free_ring = ready.free_ring;
}

abbrev answering : List Call
answering =
    recv_call
    ∷ send_call (1 ∷ 2 ∷ [])
    ∷ flush_call
    ∷ drop_call (record { id = 1; slot = 0; buffer = 3 })
    ∷ recv_call
    ∷ send_slot_call 0 60
    ∷ flush_call
    ∷ []

operate_all_example :
    (s' : NethunsSocketNetmap) × (operate_all exact quiet both answering ≡ some s')
    × Receiving 2 2 4 s'
    × Ready quiet 1 (tx_owned flushing tx) s'
operate_all_example =
    operate_all_lem exact quiet quiet-NextLaws quiet-RxSyncLaws quiet-TxSyncLaws quiet-SyncsApart
      answering both (tt, (tt, (tt, (tt, (tt, (omega arith, (tt, tt)))))))
      (Receiving-same refl ready-Receiving) (Ready-same refl flushing-Ready)
