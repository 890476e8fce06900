-- ===== src/Programs/Receive.antt =====
-- examples/meter.rs and examples/filter.rs: packets are received, counted and dropped. What the
-- programs print is left out.
pub mod Steps
pub mod Loop
pub mod Filtering
pub mod Shared
use rust_nethuns.Common.{
  ℕ, zero, suc, ◌+◌, ◌%◌, ◌^◌, ◌==◌, Bool, true, false, not, ◌&&◌, Option, none, some, List, ◌>>=◌,
  Result, ok, err, if◌then◌else◌,
}
use rust_nethuns.Errors.{NethunsRecvError}
use rust_nethuns.Netmap.{NethunsSocketNetmap, RecvPacket}
use rust_nethuns.Netmap.Api.{NetmapApi}
use rust_nethuns.Netmap.Recv.{recv, drop_packet}
use rust_nethuns.Programs.{inc_u64}
use rust_nethuns.Programs.Forward.{buffer}

-- A socket, its counter, and the packets since the rings were dumped last.
pub record Receiver : Type 0 where
  pub socket : NethunsSocketNetmap
  pub total : ℕ
  pub count_to_dump : ℕ

-- A socket and its counter, as `sockets` and `totals` have them at the same place.
pub record Metered : Type 0 where
  pub sock : NethunsSocketNetmap
  pub tot : ℕ

-- An `anyhow::Error` of `recv_pkt`: of `recv`, or of the parsing of the addresses.
pub data PktError : Type 0 where
  recv_error : NethunsRecvError → PktError
  parse_error : PktError

-- The counter is reset at 10_000_000, and the rings are dumped, which does nothing.
unfoldable pub count_packet : ℕ → ℕ
count_packet n = let n' = inc_u64 n in if n' == 10000000 then 0 else n'

abbrev pub Pkt : Type 0
Pkt = Result (Unit {0}) PktError × Receiver

-- The end of `recv_pkt`: the packet is dropped.
unfoldable pub end_pkt : Result (Unit {0}) PktError → Receiver → RecvPacket → Option Pkt
unfolding drop_packet
end_pkt res st pkt = do s ← drop_packet st.socket pkt; some (res, record st { socket = s })

-- Whether the error is one on which the loops go on.
unfoldable pub goes_on : PktError → Bool
goes_on (recv_error NethunsRecvError.in_use) = true
goes_on (recv_error NethunsRecvError.no_packets_available) = true
goes_on (recv_error NethunsRecvError.packet_filtered) = true
goes_on _ = false

-- What follows `recv_pkt` in a loop: it goes on, or ends with the error.
unfoldable pub after_pkt :
    Result (Unit {0}) PktError → Receiver → (Receiver → Option Pkt) → Option Pkt
unfolding goes_on
after_pkt (ok _) st next = next st
after_pkt (err e) st next = if goes_on e then next st else some (err e, st)

-- `has_addrs bytes` is whether `print_addrs` succeeds on the bytes of a packet.
module _ (api : NetmapApi) (has_addrs : List ℕ → Bool) where
  unfoldable pub recv_pkt : Bool → Receiver → Option Pkt
  unfolding recv count_packet end_pkt
  recv_pkt debug st = do
    (res, s) ← recv api st.socket
    elim res [
      | err e ↦ some (err (recv_error e), record st { socket = s })
      | ok pkt ↦
          let counted = record st { socket = s; total = inc_u64 st.total } in
          if debug && not (has_addrs (buffer s pkt))
          then end_pkt (err parse_error) counted pkt
          else end_pkt (ok tt) (record counted { count_to_dump = count_packet st.count_to_dump })
              pkt
    ]

  -- The loop of `mt_execution`, for the number of rounds in which the flag is not set.
  unfoldable pub mt_execution : ℕ → Bool → Receiver → Option Pkt
  unfolding recv_pkt after_pkt
  mt_execution zero debug st = some (ok tt, st)
  mt_execution (suc n) debug st = do
    (res, st') ← recv_pkt debug st
    after_pkt res st' (mt_execution n debug)

-- The loop of examples/filter.rs, which has no way out but the flag and goes on after every error (of
-- which it prints those that it does not pass over), for the number of rounds in which
-- the flag is not set. `total2` is the packets since the rings were dumped last.
module _ (api : NetmapApi) where
  unfoldable pub filter_one : Receiver → Option Receiver
  unfolding recv count_packet drop_packet
  filter_one st = do
    (res, s) ← recv api st.socket
    elim res [
      | err e ↦ some (record st { socket = s })
      | ok pkt ↦ do
        s' ← drop_packet s pkt
        some (record {
          socket = s';
          total = inc_u64 st.total;
          count_to_dump = count_packet st.count_to_dump;
        })
    ]

  unfoldable pub filter_loop : ℕ → Receiver → Option Receiver
  unfolding filter_one
  filter_loop zero st = some st
  filter_loop (suc n) st = do st' ← filter_one st; filter_loop n st'
