-- ===== src/Programs/Receive/Steps.antt =====
-- The loops of examples/meter.rs as step relations, over `recv` and the release of packets.
use rust_nethuns.Common.{
  ℕ, suc, ◌≡◌, Bool, true, false, not, ◌&&◌, Option, none, some, List, [], ◌∷◌, Result, ok, err,
}
use rust_nethuns.Errors.{NethunsRecvError}
use rust_nethuns.Netmap.{NethunsSocketNetmap, RecvPacket}
use rust_nethuns.Netmap.Api.{NetmapApi}
use rust_nethuns.Netmap.Recv.{recv, drop_packet}
use rust_nethuns.Programs.{inc_u64}
use rust_nethuns.Programs.Forward.{buffer}
use rust_nethuns.Programs.Receive.{Metered, PktError, recv_error, parse_error}

-- A slot in use, no packet, and a packet that is filtered out: the errors that do not end a loop.
abbrev pub IsPassing : NethunsRecvError → Type 0
IsPassing NethunsRecvError.in_use = Unit
IsPassing NethunsRecvError.no_packets_available = Unit
IsPassing NethunsRecvError.packet_filtered = Unit
IsPassing _ = ⊥

abbrev pub IsFatal : NethunsRecvError → Type 0
IsFatal NethunsRecvError.in_use = ⊥
IsFatal NethunsRecvError.no_packets_available = ⊥
IsFatal NethunsRecvError.packet_filtered = ⊥
IsFatal _ = Unit

module _ (api : NetmapApi) (has_addrs : List ℕ → Bool) (debug : Bool) where
  -- One reception: the socket with its counter before, the error that ends the loop, if there is one,
  -- and both afterwards. Every packet is counted and dropped.
  pub data Step : Metered → Option PktError → Metered → Type 0 where
    passed :
        {s s' : NethunsSocketNetmap} (total : ℕ) (e : NethunsRecvError)
        → recv api s ≡ some (err e, s')
        → IsPassing e
        → Step (record { sock = s; tot = total }) none (record { sock = s'; tot = total })
    failed :
        {s s' : NethunsSocketNetmap} (total : ℕ) (e : NethunsRecvError)
        → recv api s ≡ some (err e, s')
        → IsFatal e
        → Step
            (record { sock = s; tot = total })
            (some (recv_error e))
            (record { sock = s'; tot = total })
    counted :
        {s s1 s' : NethunsSocketNetmap} (total : ℕ) (pkt : RecvPacket)
        → recv api s ≡ some (ok pkt, s1)
        → (debug && not (has_addrs (buffer s1 pkt))) ≡ false
        → drop_packet s1 pkt ≡ some s'
        → Step (record { sock = s; tot = total }) none (record { sock = s'; tot = inc_u64 total })
    unparsed :
        {s s1 s' : NethunsSocketNetmap} (total : ℕ) (pkt : RecvPacket)
        → recv api s ≡ some (ok pkt, s1)
        → (debug && not (has_addrs (buffer s1 pkt))) ≡ true
        → drop_packet s1 pkt ≡ some s'
        → Step
            (record { sock = s; tot = total })
            (some parse_error)
            (record { sock = s'; tot = inc_u64 total })

  -- So many receptions from one socket, or fewer if one ends the loop.
  pub data Steps : ℕ → Metered → Result (Unit {0}) PktError → Metered → Type 0 where
    all_made : {m : Metered} → Steps 0 m (ok tt) m
    ended :
        {n : ℕ} {m m' : Metered} (e : PktError) → Step m (some e) m' → Steps (suc n) m (err e) m'
    made :
        {n : ℕ} {m m1 m' : Metered} {res : Result (Unit {0}) PktError}
        → Step m none m1
        → Steps n m1 res m'
        → Steps (suc n) m res m'

  -- One reception from each socket in turn, until one ends the loop.
  pub data Pass : List Metered → Result (Unit {0}) PktError → List Metered → Type 0 where
    no_more : Pass [] (ok tt) []
    stopped :
        {m m' : Metered} {ms : List Metered} (e : PktError)
        → Step m (some e) m'
        → Pass (m ∷ ms) (err e) (m' ∷ ms)
    next :
        {m m' : Metered} {ms ms' : List Metered} {res : Result (Unit {0}) PktError}
        → Step m none m'
        → Pass ms res ms'
        → Pass (m ∷ ms) res (m' ∷ ms')

  -- So many passes, or fewer if one of them ends the loop.
  pub data Passes : ℕ → List Metered → Result (Unit {0}) PktError → List Metered → Type 0 where
    all_passed : {ms : List Metered} → Passes 0 ms (ok tt) ms
    broken_off :
        {n : ℕ} {ms ms' : List Metered} (e : PktError)
        → Pass ms (err e) ms'
        → Passes (suc n) ms (err e) ms'
    passed_on :
        {n : ℕ} {ms ms1 ms' : List Metered} {res : Result (Unit {0}) PktError}
        → Pass ms (ok tt) ms1
        → Passes n ms1 res ms'
        → Passes (suc n) ms res ms'
