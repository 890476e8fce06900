-- ===== src/Programs/Receive/Loop.antt =====
-- The loop of a thread of examples/meter.rs, and what examples/filter.rs shares with it.
use rust_nethuns.Common.{
  ℕ, zero, suc, ◌+◌, ◌%◌, ◌^◌, ◌≤◌, ◌<◌, ◌≡◌, ◌⊎◌, ◌==◌, inl, inr, refl, Bool, true, false, not,
  ◌&&◌, Bool-cases, some, none, Option, List, Result, ok, err, arith,
}
use rust_nethuns.Netmap.{RecvPacket}
use rust_nethuns.Netmap.Api.{NetmapApi, RxSyncLaws}
use rust_nethuns.Netmap.Recv.{Received, recv, drop_packet}
use rust_nethuns.Programs.{inc_u64}
use rust_nethuns.Netmap.Sides.{Receiving, recv-Receiving, drop_packet-Receiving}
use rust_nethuns.Programs.Forward.{buffer}
use rust_nethuns.Errors.{NethunsRecvError}
use rust_nethuns.Programs.Receive.Steps.{
  IsPassing, IsFatal, Step, passed, failed, counted, unparsed, Steps, all_made, ended, made,
}
use rust_nethuns.Programs.Receive.{
  Receiver, Metered, PktError, recv_error, parse_error, Pkt, count_packet, end_pkt, goes_on,
  recv_pkt, after_pkt, mt_execution,
}

-- A receiver after some rounds that began with `st`: its socket is as it should be, the counter to the
-- next dump is below its limit, and at most `most` packets more are counted.
pub record Counted (bits free_bits hand most : ℕ) (st st' : Receiver) : Type 0 where
  pub receiving : Receiving bits free_bits hand st'.socket
  pub below : st'.count_to_dump < 10000000
  pub n : ℕ
  pub n_le : n ≤ most
  pub counted : st'.total % 2 ^ 64 ≡ (st.total + n) % 2 ^ 64

pub count_packet-lt : (n : ℕ) → n < 10000000 → count_packet n < 10000000
unfolding count_packet
count_packet-lt n h = elim (Bool-cases (inc_u64 n == 10000000)) [
  | inl full ↦ rw full (omega arith)
  | inr less ↦ rw less (ground (arith, less, h))
]

-- The socket of a receiver with its counter.
abbrev pub metered : Receiver → Metered
metered st = record { sock = st.socket; tot = st.total }

-- The errors on which the loops go on.
IsPassing-cases :
    (e : NethunsRecvError)
    → ((goes_on (recv_error e) ≡ true) × IsPassing e)
      ⊎ ((goes_on (recv_error e) ≡ false) × IsFatal e)
unfolding goes_on
IsPassing-cases NethunsRecvError.not_rx = inr (refl, tt)
IsPassing-cases NethunsRecvError.in_use = inl (refl, tt)
IsPassing-cases NethunsRecvError.no_packets_available = inl (refl, tt)
IsPassing-cases NethunsRecvError.packet_filtered = inl (refl, tt)
IsPassing-cases NethunsRecvError.framework_error = inr (refl, tt)
IsPassing-cases NethunsRecvError.error = inr (refl, tt)

-- `recv_pkt` is a step, and its answer is one on which the loops go on exactly if the step does not end
-- them.
abbrev pub Answers :
    NetmapApi → (List ℕ → Bool) → Bool → Metered → Result (Unit {0}) PktError → Metered → Type 0
Answers api has_addrs debug m res m' =
    (Step api has_addrs debug m none m'
      × ((res ≡ ok tt) ⊎ ((e : PktError) × (res ≡ err e) × (goes_on e ≡ true))))
    ⊎ ((e : PktError) × Step api has_addrs debug m (some e) m'
        × (res ≡ err e)
        × (goes_on e ≡ false))

module _ {bits free_bits hand : ℕ} where
  pub Counted-trans :
      {most most' : ℕ} {st st' st'' : Receiver}
      → Counted bits free_bits hand most st st'
      → Counted bits free_bits hand most' st' st''
      → Counted bits free_bits hand (most + most') st st''
  Counted-trans c c' = record {
    receiving = c'.receiving;
    below = c'.below;
    n = c.n + c'.n;
    n_le = omega (arith, c.n_le, c'.n_le);
    counted = omega (arith, c.counted, c'.counted);
  }

  -- The end of a round in which a packet was counted.
  end_pkt_lem :
      (res : Result (Unit {0}) PktError) (before st : Receiver) (pkt : RecvPacket)
      → Receiving bits free_bits hand st.socket
      → st.count_to_dump < 10000000
      → st.total ≡ inc_u64 before.total
      → (st' : Receiver) × (end_pkt res st pkt ≡ some (res, st'))
        × Counted bits free_bits hand 1 before st'
        × (drop_packet st.socket pkt ≡ some st'.socket)
        × (st'.total ≡ st.total)
  unfolding end_pkt
  end_pkt_lem res before st pkt r below one =
      let (s, run, r') = drop_packet-Receiving pkt r in
      (
        record st { socket = s },
        rw (end_pkt, run) refl,
        record {
          receiving = r';
          below = below;
          n = 1;
          n_le = omega arith;
          counted = omega (arith, one);
        },
        run,
        refl,
      )

  module _ (api : NetmapApi) (laws : RxSyncLaws api) where
    module _ (has_addrs : List ℕ → Bool) (debug : Bool) where
      pub recv_pkt_lem :
          (st : Receiver)
          → Receiving bits free_bits hand st.socket
          → st.count_to_dump < 10000000
          → (out : Pkt) × (recv_pkt api has_addrs debug st ≡ some out)
            × Counted bits free_bits hand 1 st out.1
            × Answers api has_addrs debug (metered st) out.0 (metered out.1)
      unfolding recv_pkt goes_on
      recv_pkt_lem st r below =
          let (out, run, r') = recv-Receiving api laws r in received out run r'
        where
          received :
              (out : Received)
              → recv api st.socket ≡ some out
              → Receiving bits free_bits hand out.1
              → (out' : Pkt) × (recv_pkt api has_addrs debug st ≡ some out')
                × Counted bits free_bits hand 1 st out'.1
                × Answers api has_addrs debug (metered st) out'.0 (metered out'.1)
          received (err e, s) run r' = (
            (err (recv_error e), record st { socket = s }),
            rw (recv_pkt, run) refl,
            record {
              receiving = r';
              below = below;
              n = 0;
              n_le = omega arith;
              counted = omega arith;
            },
            elim (IsPassing-cases e) [
              | inl (on, p) ↦ inl (passed st.total e run p, inr (recv_error e, refl, on))
              | inr (off, f) ↦ inr (recv_error e, failed st.total e run f, refl, off)
            ],
          )
          received (ok pkt, s) run r' =
              elim (Bool-cases (debug && not (has_addrs (buffer s pkt)))) [
                | inl bad ↦
                    let (st', run', c, dropped, same) =
                      end_pkt_lem (err parse_error) st
                        (record st { socket = s; total = inc_u64 st.total }) pkt r' below refl in
                    (
                      (err parse_error, st'),
                      rw (recv_pkt, run, bad) run',
                      c,
                      inr (
                        parse_error,
                        rw same (unparsed st.total pkt run bad dropped),
                        refl,
                        refl,
                      ),
                    )
                | inr good ↦
                    let (st', run', c, dropped, same) =
                      end_pkt_lem (ok tt) st
                        (record {
                          socket = s;
                          total = inc_u64 st.total;
                          count_to_dump = count_packet st.count_to_dump;
                        })
                        pkt r' (count_packet-lt st.count_to_dump below) refl in
                    (
                      (ok tt, st'),
                      rw (recv_pkt, run, good) run',
                      c,
                      inl (rw same (counted st.total pkt run good dropped), inl refl),
                    )
              ]

      -- What follows a round, if every further round is sound.
      after_pkt_lem :
          {most n : ℕ} (st : Receiver) (out : Pkt) (next : Receiver → Option Pkt)
          → Counted bits free_bits hand 1 st out.1
          → Answers api has_addrs debug (metered st) out.0 (metered out.1)
          → ((st' : Receiver)
              → Receiving bits free_bits hand st'.socket
              → st'.count_to_dump < 10000000
              → (out' : Pkt) × (next st' ≡ some out')
                × Steps api has_addrs debug n (metered st') out'.0 (metered out'.1)
                × Counted bits free_bits hand most st' out'.1)
          → (out' : Pkt) × (after_pkt out.0 out.1 next ≡ some out')
            × Steps api has_addrs debug (suc n) (metered st) out'.0 (metered out'.1)
            × Counted bits free_bits hand (1 + most) st out'.1
      unfolding after_pkt
      after_pkt_lem st out next c answers rest =
          let (out', run, steps, c') = rest out.1 c.receiving c.below in
          elim answers [
            | inl (step, inl fine) ↦
                (out', rw (after_pkt, fine) run, made step steps, Counted-trans c c')
            | inl (step, inr (e, passed_by, on)) ↦
                (out', rw (after_pkt, passed_by, on) run, made step steps, Counted-trans c c')
            | inr (e, step, bad, off) ↦ (
              (err e, out.1),
              rw (after_pkt, bad, off) refl,
              ended e step,
              record {
                receiving = c.receiving;
                below = c.below;
                n = c.n;
                n_le = omega (arith, c.n_le);
                counted = c.counted;
              },
            )
          ]

      -- The loop of a thread of examples/meter.rs never faults, whatever the packets are and whether their
      -- addresses can be parsed. In each of its rounds it calls `recv` once, and counts and drops the
      -- packet if there is one; it makes all its rounds, unless an error ends it early: one of `recv`
      -- other than a slot in use, no packet and a packet that is filtered out, or in debug mode that the
      -- addresses of a packet cannot be parsed (`Steps`). Afterwards the socket is as it should be, with
      -- no more buffers in hand, and the count to the next dump is below 10_000_000. The conditions are
      -- that this holds at first, and that the synchronisations obey `RxSyncLaws`.
      pub mt_execution_lem :
          (n : ℕ) (st : Receiver)
          → Receiving bits free_bits hand st.socket
          → st.count_to_dump < 10000000
          → (out : Pkt) × (mt_execution api has_addrs n debug st ≡ some out)
            × Steps api has_addrs debug n (metered st) out.0 (metered out.1)
            × Counted bits free_bits hand n st out.1
      unfolding mt_execution
      mt_execution_lem zero st r below = (
        (ok tt, st),
        refl,
        all_made,
        record { receiving = r; below = below; n = 0; n_le = omega arith; counted = omega arith },
      )
      mt_execution_lem (suc n) st r below =
          let (out, run, c, answers) = recv_pkt_lem st r below in
          let (out', run', steps, c') =
            after_pkt_lem st out (mt_execution api has_addrs n debug) c answers
              (mt_execution_lem n) in
          (
            out',
            rw (mt_execution, run) run',
            steps,
            record {
              receiving = c'.receiving;
              below = c'.below;
              n = c'.n;
              n_le = omega (arith, c'.n_le);
              counted = c'.counted;
            },
          )
