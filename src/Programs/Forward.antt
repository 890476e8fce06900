-- ===== src/Programs/Forward.antt =====
-- examples/forward.rs: what one socket receives, another one sends.
pub mod Loop
use rust_nethuns.Common.{ℕ, zero, suc, Option, none, some, List, ◌>>=◌, Result, ok, err}
use rust_nethuns.Errors.{NethunsSendError, NethunsFlushError}
use rust_nethuns.Netmap.{NethunsSocketNetmap, RecvPacket, netmap_buf}
use rust_nethuns.Netmap.Api.{NetmapApi}
use rust_nethuns.Netmap.Recv.{recv, drop_packet}
use rust_nethuns.Netmap.Send.{send}
use rust_nethuns.Netmap.Flush.{flush}
use rust_nethuns.Programs.{inc_u64}

-- `pkt.buffer()`: the whole buffer that netmap put the packet into.
abbrev pub buffer : NethunsSocketNetmap → RecvPacket → List ℕ
buffer s pkt = netmap_buf s.p.nifp pkt.buffer

-- How the loop around `send` ends: it breaks, it is still in its rounds, or it panics.
pub data Ended : Type 0 where
  sent waiting : NethunsSocketNetmap → Ended
  send_panic : NethunsSendError → Ended
  flush_panic : NethunsFlushError → Ended

-- The sockets of `main`, and what `main` has added to `total_rcv` and `total_fwd` so far. It never reads
-- these counters: another thread takes their values and resets them (as in Meter).
pub record Forwarder : Type 0 where
  pub in_socket : NethunsSocketNetmap
  pub out_socket : NethunsSocketNetmap
  pub added_rcv : ℕ
  pub added_fwd : ℕ

-- How the outer loop stands after some rounds: between two rounds, inside of the loop around `send`,
-- or ended by a panic.
pub data Outcome : Type 0 where
  going stuck : Forwarder → Outcome
  panicked : Ended → Outcome

-- The answer of `flush`, on which the program insists.
unfoldable pub expect_flush : Result (Unit {0}) NethunsFlushError → Option Ended → Option Ended
expect_flush (ok _) again = again
expect_flush (err e) again = some (flush_panic e)

-- The end of a round that has received a packet: if it was sent it is counted, and dropped.
unfoldable pub forwarded : Forwarder → RecvPacket → Ended → Option Outcome
unfolding drop_packet
forwarded st pkt (sent out) = do
  s ← drop_packet st.in_socket pkt
  some (going (record st { in_socket = s; out_socket = out; added_fwd = inc_u64 st.added_fwd }))
forwarded st pkt (waiting out) = some (stuck (record st { out_socket = out }))
forwarded st pkt (send_panic e) = some (panicked (send_panic e))
forwarded st pkt (flush_panic e) = some (panicked (flush_panic e))

-- The outer loop goes on as long as it is not stuck and has not panicked.
unfoldable pub if_going : Outcome → (Forwarder → Option Outcome) → Option Outcome
if_going (going st) next = next st
if_going (stuck st) next = some (stuck st)
if_going (panicked e) next = some (panicked e)

module _ (api : NetmapApi) where
  -- The `match` on the answer of `send`; `again` is the next round.
  unfoldable pub after_send :
      Result (Unit {0}) NethunsSendError
      → NethunsSocketNetmap
      → (NethunsSocketNetmap → Option Ended)
      → Option Ended
  unfolding flush expect_flush
  after_send (ok _) s again = some (sent s)
  after_send (err NethunsSendError.in_use) s again = do
    (flushed, s') ← flush api s
    expect_flush flushed (again s')
  after_send (err e) s again = some (send_panic e)

  module _ (copy : List ℕ → List ℕ → List ℕ) where
    -- The inner loop, for a number of rounds.
    unfoldable pub send_until : ℕ → List ℕ → NethunsSocketNetmap → Option Ended
    unfolding send after_send
    send_until zero packet s = some (waiting s)
    send_until (suc n) packet s = do
      (res, s') ← send copy s packet
      after_send res s' (send_until n packet)

    -- A round of the outer loop, with a bound on the rounds of the inner one.
    unfoldable pub forward_one : ℕ → Forwarder → Option Outcome
    unfolding recv send_until forwarded
    forward_one patience st = do
      (res, s) ← recv api st.in_socket
      elim res [
        | err e ↦ some (going (record st { in_socket = s }))
        | ok pkt ↦ do
          ended ← send_until patience (buffer s pkt) st.out_socket
          forwarded (record st { in_socket = s; added_rcv = inc_u64 st.added_rcv }) pkt ended
      ]

    -- The outer loop, for the number of rounds in which the flag is not set.
    unfoldable pub forward : ℕ → ℕ → Forwarder → Option Outcome
    unfolding forward_one if_going
    forward zero patience st = some (going st)
    forward (suc n) patience st = do
      outcome ← forward_one patience st
      if_going outcome (forward n patience)
