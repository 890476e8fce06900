-- ===== src/Programs/Forward/Loop.antt =====
-- The loops of examples/forward.rs.
use rust_nethuns.Common.{ℕ, ◌<◌, ◌≡◌, List}
use rust_nethuns.Errors.{NethunsSendError, NethunsFlushError}
use rust_nethuns.Netmap.Api.{NetmapApi}
use rust_nethuns.Netmap.Flush.Total.{SyncFails}
use rust_nethuns.Programs.{inc_u64}
use rust_nethuns.Netmap.Sides.{Ready, Receiving}
use rust_nethuns.Programs.Forward.{
  Ended, sent, waiting, send_panic, flush_panic, Forwarder, Outcome, going, stuck, panicked,
}

-- The program panics only for a packet that is longer than a buffer of the sending socket, and if the
-- synchronisation fails.
abbrev pub PanicReason : NetmapApi → Ended → Type 0
PanicReason api (sent s) = ⊥
PanicReason api (waiting s) = ⊥
PanicReason api (send_panic e) =
    (size len : ℕ) × (e ≡ NethunsSendError.invalid_packet_size size len) × (size < len)
PanicReason api (flush_panic e) = (e ≡ NethunsFlushError.error) × SyncFails api

-- A loop around `send` that breaks, or goes on, leaves the socket ready.
abbrev pub EndsWell : NetmapApi → ℕ → List ℕ → Ended → Type 0
EndsWell api bits before (sent s) = Ready api bits before s
EndsWell api bits before (waiting s) = Ready api bits before s
EndsWell api bits before (send_panic e) = PanicReason api (send_panic e)
EndsWell api bits before (flush_panic e) = PanicReason api (flush_panic e)

-- Both sockets as they should be. What is added to the counters is equal between two rounds, and one
-- packet ahead while that packet waits.
pub record Sound (api : NetmapApi) (rx_bits free_bits tx_bits hand : ℕ) (before : List ℕ)
    (st : Forwarder) : Type 0 where
  pub receiving : Receiving rx_bits free_bits hand st.in_socket
  pub ready : Ready api tx_bits before st.out_socket

abbrev pub SoundOutcome : NetmapApi → ℕ → ℕ → ℕ → ℕ → List ℕ → Outcome → Type 0
SoundOutcome api rx_bits free_bits tx_bits hand before (going st) =
    Sound api rx_bits free_bits tx_bits hand before st × (st.added_rcv ≡ st.added_fwd)
SoundOutcome api rx_bits free_bits tx_bits hand before (stuck st) =
    Sound api rx_bits free_bits tx_bits hand before st × (st.added_rcv ≡ inc_u64 st.added_fwd)
SoundOutcome api rx_bits free_bits tx_bits hand before (panicked ended) = PanicReason api ended
