-- ===== src/Programs/ForwardMt.antt =====
-- examples/forward-mt.rs: a thread receives packets and pushes them into a queue, another one pops
-- them, sends and drops them, and a third one takes and resets their counters. The threads take their
-- turns in any order; a turn is one call of the library with what surrounds it, or one swap of a
-- counter.
pub mod Turns
pub mod Fifo
use rust_nethuns.Common.{
  ℕ, ◌+◌, Option, none, some, List, [], ◌∷◌, ◌++◌, length, ltb, ◌>>=◌, Result, ok, err,
  if◌then◌else◌,
}
use rust_nethuns.Errors.{NethunsFlushError}
use rust_nethuns.Netmap.{NethunsSocketNetmap, RecvPacket}
use rust_nethuns.Netmap.Api.{NetmapApi}
use rust_nethuns.Netmap.Recv.{recv, drop_packet}
use rust_nethuns.Netmap.Send.{send}
use rust_nethuns.Netmap.Flush.{flush}
use rust_nethuns.Programs.{inc_u64}
use rust_nethuns.Programs.Forward.{buffer}

-- The size of the queue.
abbrev pub queue_size : ℕ
queue_size = 65536

-- The sockets, the queue, the packet that the first thread has not pushed yet, the packet that the
-- second one has popped and not sent yet, the counters, and the sums of what the thread that prints
-- them has taken from each.
pub record ForwarderMt : Type 0 where
  pub in_socket : NethunsSocketNetmap
  pub out_socket : NethunsSocketNetmap
  pub queue : List RecvPacket
  pub unpushed : Option RecvPacket
  pub unsent : Option RecvPacket
  pub total_rcv : ℕ
  pub total_fwd : ℕ
  pub metered_rcv : ℕ
  pub metered_fwd : ℕ

pub data Turn : Type 0 where
  producer consumer meter_rcv meter_fwd : Turn

-- The packets that were received and those that were sent, in order, and what the program is then; or
-- the panic of the second thread when `flush` fails.
pub data Ran : Type 0 where
  ran : List RecvPacket → List RecvPacket → ForwarderMt → Ran
  halted : NethunsFlushError → Ran

-- A packet is popped, if there is one.
unfoldable pub pop_turn : ForwarderMt → List RecvPacket → Option Ran
pop_turn st [] = some (ran [] [] st)
pop_turn st (pkt ∷ rest) = some (ran [] [] (record st { queue = rest; unsent = some pkt }))

-- `meter` swaps the counters with 0, one after the other.
unfoldable pub swap_rcv : ForwarderMt → ForwarderMt
swap_rcv st = record st { total_rcv = 0; metered_rcv = st.metered_rcv + st.total_rcv }

unfoldable pub swap_fwd : ForwarderMt → ForwarderMt
swap_fwd st = record st { total_fwd = 0; metered_fwd = st.metered_fwd + st.total_fwd }

-- What follows `flush`, on whose success the program insists.
unfoldable pub unwrap_flush : ForwarderMt → Result (Unit {0}) NethunsFlushError → Option Ran
unwrap_flush st (ok _) = some (ran [] [] st)
unwrap_flush st (err e) = some (halted e)

module _ (api : NetmapApi) where
  -- `socket.flush().unwrap()`
  unfoldable pub flush_turn : ForwarderMt → NethunsSocketNetmap → Option Ran
  unfolding flush unwrap_flush
  flush_turn st out = do
    (flushed, out') ← flush api out
    unwrap_flush (record st { out_socket = out' }) flushed

  -- The first thread pushes its packet if the queue has room, or it receives one.
  unfoldable pub producer_turn : ForwarderMt → Option RecvPacket → Option Ran
  unfolding recv
  producer_turn st (some pkt) =
      if ltb (length st.queue) queue_size
      then some (ran [] [] (record st { queue = st.queue ++ pkt ∷ []; unpushed = none }))
      else some (ran [] [] st)
  producer_turn st none = do
    (res, s) ← recv api st.in_socket
    elim res [
      | err e ↦ some (ran [] [] (record st { in_socket = s }))
      | ok pkt ↦ some (
          ran (pkt ∷ []) []
            (record st { in_socket = s; unpushed = some pkt; total_rcv = inc_u64 st.total_rcv }))
    ]

  module _ (copy : List ℕ → List ℕ → List ℕ) where
    -- The second thread sends its packet, and drops it when that has succeeded, else it flushes, whatever
    -- the error; or it pops a packet.
    unfoldable pub consumer_turn : ForwarderMt → Option RecvPacket → Option Ran
    unfolding send drop_packet pop_turn flush_turn
    consumer_turn st none = pop_turn st st.queue
    consumer_turn st (some pkt) = do
      (res, out) ← send copy st.out_socket (buffer st.in_socket pkt)
      elim res [
        | ok _ ↦ do
          s ← drop_packet st.in_socket pkt
          some (
              ran [] (pkt ∷ []) (record st {
                in_socket = s;
                out_socket = out;
                unsent = none;
                total_fwd = inc_u64 st.total_fwd;
              }))
        | err _ ↦ flush_turn st out
      ]

    unfoldable pub turn : Turn → ForwarderMt → Option Ran
    unfolding producer_turn consumer_turn swap_rcv swap_fwd
    turn producer st = producer_turn st st.unpushed
    turn consumer st = consumer_turn st st.unsent
    turn meter_rcv st = some (ran [] [] (swap_rcv st))
    turn meter_fwd st = some (ran [] [] (swap_fwd st))

-- A turn after others.
unfoldable pub join : List RecvPacket → List RecvPacket → Ran → Ran
join rcv fwd (ran rcv' fwd' st) = ran (rcv ++ rcv') (fwd ++ fwd') st
join rcv fwd (halted e) = halted e

unfoldable pub then_run : Ran → (ForwarderMt → Option Ran) → Option Ran
unfolding join
then_run (ran rcv fwd st) next = do r ← next st; some (join rcv fwd r)
then_run (halted e) next = some (halted e)

-- The threads take these turns.
unfoldable pub run_turns :
    NetmapApi → (List ℕ → List ℕ → List ℕ) → List Turn → ForwarderMt → Option Ran
unfolding turn then_run
run_turns api copy [] st = some (ran [] [] st)
run_turns api copy (t ∷ ts) st = do r ← turn api copy t st; then_run r (run_turns api copy ts)
