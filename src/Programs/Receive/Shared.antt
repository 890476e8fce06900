-- ===== src/Programs/Receive/Shared.antt =====
-- examples/meter.rs, `st_execution`: one thread receives from all sockets in turn. Each has a counter of
-- its own, and they share the count to the next dump.
pub mod Rounds
use rust_nethuns.Common.{
  ℕ, zero, suc, Bool, Option, none, some, List, [], ◌∷◌, ◌>>=◌, Result, ok, err, if◌then◌else◌,
}
use rust_nethuns.Netmap.Api.{NetmapApi}
use rust_nethuns.Programs.Receive.{Metered, PktError, goes_on, recv_pkt}

-- The error with which the loops return, if `recv_pkt` had one on which they do not go on.
unfoldable pub stops : Result (Unit {0}) PktError → Option PktError
unfolding goes_on
stops (ok _) = none
stops (err e) = if goes_on e then none else some e

-- The result, the sockets, and the packets since the rings were dumped last.
abbrev pub Round : Type 0
Round = Result (Unit {0}) PktError × List Metered × ℕ

module _ (api : NetmapApi) (has_addrs : List ℕ → Bool) (debug : Bool) where
  -- One pass over the sockets.
  unfoldable pub receive_all : List Metered → ℕ → Option Round
  unfolding recv_pkt stops
  receive_all [] count = some (ok tt, [], count)
  receive_all (m ∷ ms) count = do
    (res, st) ←
        recv_pkt api has_addrs debug
          (record { socket = m.sock; total = m.tot; count_to_dump = count })
    let m' : Metered = record { sock = st.socket; tot = st.total } in
        elim (stops res) [
          | some e ↦ some (err e, m' ∷ ms, st.count_to_dump)
          | none ↦ do
            (res', ms', count') ← receive_all ms st.count_to_dump
            some (res', m' ∷ ms', count')
        ]

  -- The loop, for the number of rounds in which the flag is not set.
  unfoldable pub st_execution : ℕ → List Metered → ℕ → Option Round
  unfolding receive_all
  st_execution zero ms count = some (ok tt, ms, count)
  st_execution (suc n) ms count = do
    (res, ms', count') ← receive_all ms count
    elim res [ err e ↦ some (err e, ms', count') | ok _ ↦ st_execution n ms' count' ]
