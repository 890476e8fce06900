-- ===== src/Programs/Receive/Filtering.antt =====
-- The loop of examples/filter.rs.
use rust_nethuns.Common.{
  ℕ, zero, suc, ◌+◌, ◌%◌, ◌^◌, ◌<◌, ◌≡◌, refl, some, List, [], ◌∷◌, ◌++◌, length, length-append, ok,
  err, arith,
}
use rust_nethuns.Pkthdr.{Pkthdr}
use rust_nethuns.Netmap.{NethunsSocketNetmap}
use rust_nethuns.Netmap.Api.{NetmapApi, RxSyncLaws}
use rust_nethuns.Netmap.Recv.{Received, recv}
use rust_nethuns.Netmap.Sides.{Receiving, recv-Receiving, drop_packet-Receiving}
use rust_nethuns.Programs.{inc_u64}
use rust_nethuns.Programs.Forward.{buffer}
use rust_nethuns.Programs.Receptions.{Receptions, no_call, refused, received, pkthdr-some}
use rust_nethuns.Programs.Receive.{Receiver, count_packet, filter_one, filter_loop}
use rust_nethuns.Programs.Receive.Loop.{Counted, Counted-trans, count_packet-lt}

-- As many packets more are counted, up to the wrap-around.
abbrev pub IsCounted : List (Pkthdr × List ℕ) → Receiver → Receiver → Type 0
IsCounted packets st st' = st'.total % 2 ^ 64 ≡ (st.total + length packets) % 2 ^ 64

-- What a round does: it is one call of `recv` before the others, and the packet, if there is one, is
-- dropped and counted.
abbrev OneRound : NetmapApi → ℕ → ℕ → ℕ → Receiver → Type 0
OneRound api bits free_bits hand st =
    (st' : Receiver) × (packets : List (Pkthdr × List ℕ)) × (filter_one api st ≡ some st')
    × Counted bits free_bits hand 1 st st'
    × IsCounted packets st st'
    × ((n : ℕ) (rest : List (Pkthdr × List ℕ)) (s : NethunsSocketNetmap)
        → Receptions api n st'.socket rest s
        → Receptions api (suc n) st.socket (packets ++ rest) s)

module _ (api : NetmapApi) (laws : RxSyncLaws api) {bits free_bits hand : ℕ} where
  filter_one_lem :
      (st : Receiver)
      → Receiving bits free_bits hand st.socket
      → st.count_to_dump < 10000000
      → OneRound api bits free_bits hand st
  unfolding filter_one
  filter_one_lem st r below = let (out, run, r') = recv-Receiving api laws r in by_answer out run r'
    where
      by_answer :
          (out : Received)
          → recv api st.socket ≡ some out
          → Receiving bits free_bits hand out.1
          → OneRound api bits free_bits hand st
      by_answer (err e, s) run r' = (
        record st { socket = s },
        [],
        rw (filter_one, run) refl,
        record { receiving = r'; below = below; n = 0; n_le = omega arith; counted = omega arith },
        omega arith,
        λ n rest s' t. refused e run t,
      )
      by_answer (ok pkt, s) run r' =
          let (s', dropped, r'') = drop_packet-Receiving pkt r' in
          let (h, header) = pkthdr-some pkt r' in
          (
            record {
              socket = s';
              total = inc_u64 st.total;
              count_to_dump = count_packet st.count_to_dump;
            },
            (h, buffer s pkt) ∷ [],
            rw (filter_one, run, dropped) refl,
            record {
              receiving = r'';
              below = count_packet-lt st.count_to_dump below;
              n = 1;
              n_le = omega arith;
              counted = omega arith;
            },
            omega arith,
            λ n rest s'' t. received pkt h run header dropped t,
          )

  -- The loop of examples/filter.rs never faults, whatever the filter turns down, and calls `recv` exactly
  -- once in each of its rounds, whatever `recv` answers: it counts every packet that these calls give, up
  -- to the wrap-around, drops it before the next call, and does nothing else to the socket. Afterwards
  -- the socket is as it should be, with no more buffers in hand, and the counter to the next dump is
  -- below 10_000_000. The conditions are that this holds at first, and that the synchronisations obey
  -- `RxSyncLaws`.
  pub filter_loop_lem :
      (n : ℕ) (st : Receiver)
      → Receiving bits free_bits hand st.socket
      → st.count_to_dump < 10000000
      → (st' : Receiver) × (packets : List (Pkthdr × List ℕ)) × (filter_loop api n st ≡ some st')
        × Receptions api n st.socket packets st'.socket
        × IsCounted packets st st'
        × Counted bits free_bits hand n st st'
  unfolding filter_loop
  filter_loop_lem zero st r below = (
    st,
    [],
    refl,
    no_call,
    omega arith,
    record { receiving = r; below = below; n = 0; n_le = omega arith; counted = omega arith },
  )
  filter_loop_lem (suc n) st r below =
      let (st1, one, run, c, k, before) = filter_one_lem st r below in
      let (st', packets, run', t, k', c') = filter_loop_lem n st1 c.receiving c.below in
      let both = Counted-trans c c' in
      (
        st',
        one ++ packets,
        rw (filter_loop, run) run',
        before n packets st'.socket t,
        omega (arith, k, k', length-append one packets),
        record {
          receiving = both.receiving;
          below = both.below;
          n = both.n;
          n_le = omega (arith, both.n_le);
          counted = both.counted;
        },
      )
