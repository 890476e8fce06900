-- ===== src/Programs/Send/Batches.antt =====
-- The loops of examples/send.rs never fault, and count what they put into the ring.
use rust_nethuns.Common.{
  ℕ, zero, suc, ◌+◌, ◌*◌, ◌%◌, ◌^◌, ◌≤◌, ◌≡◌, ◌∙◌, ◌⊎◌, inl, inr, refl, sym, ap, Bool-cases, ◌>>=◌,
  some, List, length, Result, ok, err, arith,
}
use rust_nethuns.Errors.{NethunsFlushError}
use rust_nethuns.Ring.{NethunsRing}
use rust_nethuns.Netmap.{NethunsSocketNetmap}
use rust_nethuns.Netmap.Api.{NetmapApi}
use rust_nethuns.Netmap.Flush.Links.{NextLaws}
use rust_nethuns.Netmap.Flush.Total.{TxSyncLaws, Decided, SyncFails, flush_lem}
use rust_nethuns.Netmap.Transmit.{send_kept, send_slot_kept}
use rust_nethuns.Programs.{inc_u64}
use rust_nethuns.Netmap.Sides.{Ready}
use rust_nethuns.Programs.Send.{
  Args, Sender, Batch, prepare_zc, prepare_c, send_batch, transmit_zc, transmit_c, transmit_one,
  mt_send,
}

-- A counter after `n` steps.
abbrev pub add_u64 : ℕ → ℕ → ℕ
add_u64 k n = (k + n) % 2 ^ 64

-- A sender after a batch that began with `st`: ready again, and with at most `most` packets more.
pub record Sent (api : NetmapApi) (bits : ℕ) (before : List ℕ) (most : ℕ) (st st' : Sender)
    : Type 0 where
  pub ready : Ready api bits before st'.socket
  pub n : ℕ
  pub n_le : n ≤ most
  pub counted : st'.total % 2 ^ 64 ≡ add_u64 st.total n

-- A batch after a batch.
pub Sent-trans :
    {api : NetmapApi} {bits : ℕ} {before : List ℕ} {most most' : ℕ} {st st' st'' : Sender}
    → Sent api bits before most st st'
    → Sent api bits before most' st' st''
    → Sent api bits before (most + most') st st''
Sent-trans s s' = record {
  ready = s'.ready;
  n = s.n + s'.n;
  n_le = omega (arith, s.n_le, s'.n_le);
  counted = omega (arith, s.counted, s'.counted);
}

-- How a batch ends: well, or with an error, if a synchronisation fails.
abbrev pub BatchEnds : NetmapApi → Result (Unit {0}) NethunsFlushError → Type 0
BatchEnds api res = (res ≡ ok tt) ⊎ ((res ≡ err NethunsFlushError.error) × SyncFails api)

-- A batch ends as its `flush` does.
batch_ends :
    {api : NetmapApi} {s : NethunsSocketNetmap} {tx : NethunsRing} {tails : List ℕ}
    (res : Result (Unit {0}) NethunsFlushError)
    → Decided api s tx tails res
    → BatchEnds api res
batch_ends res d = elim d.ends [
  | inl (done, _) ↦ inl done
  | inr (failed, why) ↦ inr (failed, (_, why))
]

module _ (api : NetmapApi) (copy : List ℕ → List ℕ → List ℕ) (next : NextLaws api)
    (laws : TxSyncLaws api) {bits : ℕ} {before : List ℕ} where
  prepare_zc_lem :
      (n pkt_size : ℕ) (st : Sender)
      → pkt_size ≤ 65535
      → Ready api bits before st.socket
      → (st' : Sender) × (prepare_zc n pkt_size st ≡ some st') × Sent api bits before n st st'
  unfolding prepare_zc
  prepare_zc_lem zero pkt_size st fits r =
      (st, refl, record { ready = r; n = 0; n_le = omega arith; counted = omega arith })
  prepare_zc_lem (suc n) pkt_size st fits r =
      let (out, tx', run, v, same, ends) = send_slot_kept copy api r.inv st.pktid pkt_size fits in
      let r' : Ready api bits before out.1 = record {
        tx = tx';
        tails = r.tails;
        inv = v;
        same = λ b. same b ∙ r.same b;
      } in
      elim ends [
        | inr busy ↦ (
          record st { socket = out.1 },
          rw (prepare_zc, run, ◌>>=◌, busy) refl,
          record { ready = r'; n = 0; n_le = omega arith; counted = omega arith },
        )
        | inl marked ↦
            let (st', run', s) =
              prepare_zc_lem n pkt_size
                (record { socket = out.1; pktid = inc_u64 st.pktid; total = inc_u64 st.total }) fits
                r' in
            (
              st',
              rw (prepare_zc, run, ◌>>=◌, marked) run',
              record {
                ready = s.ready;
                n = suc s.n;
                n_le = omega (arith, s.n_le);
                counted = omega (arith, s.counted);
              },
            )
      ]

  prepare_c_lem :
      (n : ℕ) (packet : List ℕ) (st : Sender)
      → Ready api bits before st.socket
      → (st' : Sender) × (prepare_c api copy n packet st ≡ some st') × Sent api bits before n st st'
  unfolding prepare_c
  prepare_c_lem zero packet st r =
      (st, refl, record { ready = r; n = 0; n_le = omega arith; counted = omega arith })
  prepare_c_lem (suc n) packet st r =
      let (out, tx', run, v, same, ends) = send_kept copy api r.inv packet in
      let r' : Ready api bits before out.1 = record {
        tx = tx';
        tails = r.tails;
        inv = v;
        same = λ b. same b ∙ r.same b;
      } in
      let refused : Sent api bits before (suc n) st (record st { socket = out.1 }) = record {
        ready = r';
        n = 0;
        n_le = omega arith;
        counted = omega arith;
      } in
      elim ends [
        | inr (inl busy) ↦
            (record st { socket = out.1 }, rw (prepare_c, run, ◌>>=◌, busy) refl, refused)
        | inr (inr (long, _)) ↦
            (record st { socket = out.1 }, rw (prepare_c, run, ◌>>=◌, long) refl, refused)
        | inl sent ↦
            let (st', run', s) =
              prepare_c_lem n packet
                (record { socket = out.1; pktid = st.pktid; total = inc_u64 st.total }) r' in
            (
              st',
              rw (prepare_c, run, ◌>>=◌, sent) run',
              record {
                ready = s.ready;
                n = suc s.n;
                n_le = omega (arith, s.n_le);
                counted = omega (arith, s.counted);
              },
            )
      ]

  send_batch_lem :
      {most : ℕ} (st st' : Sender)
      → Sent api bits before most st st'
      → (out : Batch) × (send_batch api st' ≡ some out)
        × BatchEnds api out.0
        × Sent api bits before most st out.1
  unfolding send_batch
  send_batch_lem st st' s =
      let (out, tx', tails', run, ends, v, same) =
        flush_lem api next laws bits st'.socket s.ready.tx s.ready.tails s.ready.inv in
      (
        (out.0, record st' { socket = out.1 }),
        rw (send_batch, run) refl,
        batch_ends out.0 ends,
        record {
          ready = record { tx = tx'; tails = tails'; inv = v; same = λ b. same b ∙ s.ready.same b };
          n = s.n;
          n_le = s.n_le;
          counted = s.counted;
        },
      )

  module _ (args : Args) (packet : List ℕ) (fits : length packet ≤ 65535) where
    -- A batch never faults, and fails only if a synchronisation fails.
    pub transmit_one_lem :
        (st : Sender)
        → Ready api bits before st.socket
        → (out : Batch) × (transmit_one api copy args packet st ≡ some out)
          × BatchEnds api out.0
          × Sent api bits before args.batch_size st out.1
    unfolding transmit_one transmit_zc transmit_c
    transmit_one_lem st r = elim (Bool-cases args.zerocopy) [
      | inl zc ↦
          let (st', run, s) = prepare_zc_lem args.batch_size (length packet) st fits r in
          let (out, run', ends, s') = send_batch_lem st st' s in (out, rw (zc, run) run', ends, s')
      | inr c ↦
          let (st', run, s) = prepare_c_lem args.batch_size packet st r in
          let (out, run', ends, s') = send_batch_lem st st' s in (out, rw (c, run) run', ends, s')
    ]

    -- The loop of a thread, for any number of rounds: it never faults, and fails only if a
    -- synchronisation fails. Afterwards the socket is ready and has the buffers that it had, and its
    -- counter has gone up by at most the size of a batch for each round. The conditions are that
    -- the socket is ready at first, that the length of the payload fits 16 bits, and that the netmap
    -- library obeys `NextLaws` and `TxSyncLaws`.
    pub mt_send_lem :
        (n : ℕ) (st : Sender)
        → Ready api bits before st.socket
        → (out : Batch) × (mt_send api copy n args packet st ≡ some out)
          × BatchEnds api out.0
          × Sent api bits before (n * args.batch_size) st out.1
    unfolding mt_send
    mt_send_lem zero st r = (
      (ok tt, st),
      refl,
      inl refl,
      record { ready = r; n = 0; n_le = omega arith; counted = omega arith },
    )
    mt_send_lem (suc n) st r =
        let (out, run, ends, s) = transmit_one_lem st r in
        elim ends [
          | inr (failed, why) ↦ (
            out,
            rw (mt_send, run, ◌>>=◌, failed) (ap (λ res. some (res, out.1)) (sym failed)),
            inr (failed, why),
            record { ready = s.ready; n = s.n; n_le = grind (arith, s.n_le); counted = s.counted },
          )
          | inl done ↦
              let (out', run', ends', s') = mt_send_lem n out.1 s.ready in
              let t = Sent-trans s s' in
              (
                out',
                rw (mt_send, run, ◌>>=◌, done) run',
                ends',
                record {
                  ready = t.ready;
                  n = t.n;
                  n_le = grind (arith, t.n_le);
                  counted = t.counted;
                },
              )
        ]
