-- ===== src/Programs/ForwardMt/Fifo.antt =====
-- Runs of the threads of examples/forward-mt.rs, and the order of the packets.
use rust_nethuns.Common.{
  ℕ, ◌≡◌, ◌∙◌, refl, sym, ap, Option, some, List, [], ◌∷◌, ◌++◌, append_assoc, append-nil,
}
use rust_nethuns.Netmap.{RecvPacket}
use rust_nethuns.Netmap.Api.{NetmapApi, RxSyncLaws}
use rust_nethuns.Netmap.Flush.Links.{NextLaws}
use rust_nethuns.Netmap.Flush.Total.{TxSyncLaws}
use rust_nethuns.Programs.ForwardMt.{
  ForwarderMt, Turn, producer, consumer, meter_rcv, meter_fwd, swap_rcv, swap_fwd, Ran, ran, halted,
  turn, join, then_run, run_turns,
}
use rust_nethuns.Programs.ForwardMt.Turns.{
  pending, Sound, InOrder, producer_turn_lem, consumer_turn_lem, swap_rcv_lem, swap_fwd_lem,
}

module _ (api : NetmapApi) (rx_laws : RxSyncLaws api) (next : NextLaws api)
    (tx_laws : TxSyncLaws api) (copy : List ℕ → List ℕ → List ℕ)
    {rx_bits free_bits tx_bits hand : ℕ} {before : List ℕ} where
  turn_lem :
      (t : Turn) (st : ForwarderMt)
      → Sound api rx_bits free_bits tx_bits hand before st
      → (r : Ran) × (turn api copy t st ≡ some r)
        × InOrder api rx_bits free_bits tx_bits hand before (pending st) r
  unfolding turn
  turn_lem producer st v = producer_turn_lem v rx_laws st.unpushed refl
  turn_lem consumer st v = consumer_turn_lem v next tx_laws copy st.unsent refl
  turn_lem meter_rcv st v = (ran [] [] (swap_rcv st), refl, swap_rcv_lem v)
  turn_lem meter_fwd st v = (ran [] [] (swap_fwd st), refl, swap_fwd_lem v)

  -- What follows a turn, if every further turn is in order.
  then_run_lem :
      (next_turns : ForwarderMt → Option Ran) (first : List RecvPacket) (r : Ran)
      → InOrder api rx_bits free_bits tx_bits hand before first r
      → ((st : ForwarderMt)
          → Sound api rx_bits free_bits tx_bits hand before st
          → (r' : Ran) × (next_turns st ≡ some r')
            × InOrder api rx_bits free_bits tx_bits hand before (pending st) r')
      → (r' : Ran) × (then_run r next_turns ≡ some r')
        × InOrder api rx_bits free_bits tx_bits hand before first r'
  unfolding then_run join
  then_run_lem next_turns first (halted e) o rest = (halted e, refl, o)
  then_run_lem next_turns first (ran rcv fwd st) (v, e) rest =
      let (r', run, o) = rest st v in (join rcv fwd r', rw (then_run, run) refl, joined r' o)
    where
      joined :
          (r' : Ran)
          → InOrder api rx_bits free_bits tx_bits hand before (pending st) r'
          → InOrder api rx_bits free_bits tx_bits hand before first (join rcv fwd r')
      joined (halted e') o = o
      joined (ran rcv' fwd' st') (v', e') = (
        v',
        append_assoc fwd fwd' (pending st')
            ∙ ap (λ k. fwd ++ k) e'
            ∙ sym (append_assoc fwd (pending st) rcv')
            ∙ ap (λ k. k ++ rcv') e
            ∙ append_assoc first rcv rcv',
      )

  -- In whatever order the two threads and the one that prints the counters take their turns, nothing
  -- faults, and no packet is lost,
  -- doubled or overtaken: the packets that are sent, followed by those that are pending at the end,
  -- are those that were pending at first, followed by those that are received, in the order of their
  -- reception. Both sockets stay as they should be, the queue stays within its size, and the packets
  -- that are counted as received, in the counter or in what was taken from it, are, up to the
  -- wrap-around, those counted as forwarded and the pending ones. The program halts, by the panic of
  -- the second thread, only if a synchronisation of the transmission fails. The
  -- conditions are that this holds at first, and that the netmap library obeys `RxSyncLaws`,
  -- `NextLaws` and `TxSyncLaws`.
  pub run_turns_lem :
      (turns : List Turn) (st : ForwarderMt)
      → Sound api rx_bits free_bits tx_bits hand before st
      → (r : Ran) × (run_turns api copy turns st ≡ some r)
        × InOrder api rx_bits free_bits tx_bits hand before (pending st) r
  unfolding run_turns
  run_turns_lem [] st v = (ran [] [] st, refl, (v, sym (append-nil _)))
  run_turns_lem (t ∷ turns) st v =
      let (r, run, o) = turn_lem t st v in
      let (r', run', o') =
        then_run_lem (run_turns api copy turns) (pending st) r o (run_turns_lem turns) in
      (r', rw (run_turns, run) run', o')
