-- ===== src/Programs/ForwardMt/Turns.antt =====
-- A turn of a thread of examples/forward-mt.rs.
use rust_nethuns.Common.{
  ℕ, ◌+◌, ◌%◌, ◌^◌, ◌≤◌, ◌≡◌, ◌∙◌, inl, inr, refl, sym, ap, ap₂, Bool-cases, Option, none, some,
  List, [], ◌∷◌, ◌++◌, append_assoc, append-nil, length, length-append, ltb, ◌>>=◌, ok, err, arith,
}
use rust_nethuns.Errors.{NethunsFlushError}
use rust_nethuns.Netmap.{NethunsSocketNetmap, RecvPacket}
use rust_nethuns.Netmap.Api.{NetmapApi, RxSyncLaws}
use rust_nethuns.Netmap.Recv.{Received, recv}
use rust_nethuns.Netmap.Flush.Links.{NextLaws}
use rust_nethuns.Netmap.Flush.Total.{TxSyncLaws, SyncFails, flush_lem}
use rust_nethuns.Netmap.Transmit.{send_kept}
use rust_nethuns.Programs.{inc_u64}
use rust_nethuns.Programs.Forward.{buffer}
use rust_nethuns.Netmap.Sides.{Ready, Receiving, recv-Receiving, drop_packet-Receiving}
use rust_nethuns.Programs.ForwardMt.{
  queue_size, ForwarderMt, Ran, ran, halted, swap_rcv, swap_fwd, pop_turn, unwrap_flush, flush_turn,
  producer_turn, consumer_turn,
}

abbrev pub held : Option RecvPacket → List RecvPacket
held none = []
held (some pkt) = pkt ∷ []

-- The packets that are received and not sent yet, oldest first.
abbrev pub pending : ForwarderMt → List RecvPacket
pending st = held st.unsent ++ (st.queue ++ held st.unpushed)

-- Both sockets are as they should be, the queue is within its size, and the packets that are counted as
-- received and not as forwarded, in the counters or in what was taken from them, are those that are
-- pending.
pub record Sound (api : NetmapApi) (rx_bits free_bits tx_bits hand : ℕ) (before : List ℕ)
    (st : ForwarderMt) : Type 0 where
  pub receiving : Receiving rx_bits free_bits hand st.in_socket
  pub ready : Ready api tx_bits before st.out_socket
  pub within : length st.queue ≤ queue_size
  pub counted :
      (st.metered_rcv + st.total_rcv) % 2 ^ 64
      ≡ (st.metered_fwd + st.total_fwd + length (pending st)) % 2 ^ 64

-- What is sent, and what is pending then, is what was pending and what is received, in this order. The
-- program halts only if the synchronisation fails.
abbrev pub InOrder : NetmapApi → ℕ → ℕ → ℕ → ℕ → List ℕ → List RecvPacket → Ran → Type 0
InOrder api rx_bits free_bits tx_bits hand before first (ran rcv fwd st) =
    Sound api rx_bits free_bits tx_bits hand before st × (fwd ++ pending st ≡ first ++ rcv)
InOrder api rx_bits free_bits tx_bits hand before first (halted e) =
    (e ≡ NethunsFlushError.error) × SyncFails api

order_lengths :
    (fwd later first rcv : List RecvPacket)
    → fwd ++ later ≡ first ++ rcv
    → length fwd + length later ≡ length first + length rcv
order_lengths fwd later first rcv e =
    sym (length-append fwd later) ∙ ap length e ∙ length-append first rcv

module _ {api : NetmapApi} {rx_bits free_bits tx_bits hand : ℕ} {before : List ℕ} {st : ForwarderMt}
    (v : Sound api rx_bits free_bits tx_bits hand before st) where
  -- What a turn leaves, if it has received and sent these packets.
  in_order :
      (rcv fwd : List RecvPacket) (st' : ForwarderMt)
      → Receiving rx_bits free_bits hand st'.in_socket
      → Ready api tx_bits before st'.out_socket
      → length st'.queue ≤ queue_size
      → (st'.metered_rcv + st'.total_rcv) % 2 ^ 64
        ≡ (st.metered_rcv + st.total_rcv + length rcv) % 2 ^ 64
      → (st'.metered_fwd + st'.total_fwd) % 2 ^ 64
        ≡ (st.metered_fwd + st.total_fwd + length fwd) % 2 ^ 64
      → fwd ++ pending st' ≡ pending st ++ rcv
      → InOrder api rx_bits free_bits tx_bits hand before (pending st) (ran rcv fwd st')
  in_order rcv fwd st' r t within more_rcv more_fwd e = (
    record {
      receiving = r;
      ready = t;
      within = within;
      counted = omega (
        arith,
        v.counted,
        more_rcv,
        more_fwd,
        order_lengths fwd (pending st') (pending st) rcv e,
      );
    },
    e,
  )

  -- The first thread.
  pub producer_turn_lem :
      (laws : RxSyncLaws api) (u : Option RecvPacket)
      → st.unpushed ≡ u
      → (r : Ran) × (producer_turn api st u ≡ some r)
        × InOrder api rx_bits free_bits tx_bits hand before (pending st) r
  unfolding producer_turn
  producer_turn_lem laws (some pkt) here = elim (Bool-cases (ltb (length st.queue) queue_size)) [
    | inr full ↦ (
      ran [] [] st,
      rw full refl,
      in_order [] [] st v.receiving v.ready v.within (omega arith) (omega arith)
          (sym (append-nil _)),
    )
    | inl room ↦ (
      ran [] [] (record st { queue = st.queue ++ pkt ∷ []; unpushed = none }),
      rw room refl,
      in_order [] [] (record st { queue = st.queue ++ pkt ∷ []; unpushed = none }) v.receiving
          v.ready (ground (arith, room, length-append st.queue (pkt ∷ []))) (omega arith)
          (omega arith)
          (ap (λ k. held st.unsent ++ k) (append-nil _ ∙ ap (λ u. st.queue ++ held u) (sym here))
            ∙ sym (append-nil _)),
    )
  ]
  producer_turn_lem laws none here =
      let (out, run, r) = recv-Receiving api laws v.receiving in received out run r
    where
      received :
          (out : Received)
          → recv api st.in_socket ≡ some out
          → Receiving rx_bits free_bits hand out.1
          → (r : Ran) × (producer_turn api st none ≡ some r)
            × InOrder api rx_bits free_bits tx_bits hand before (pending st) r
      received (err e, s) run r = (
        ran [] [] (record st { in_socket = s }),
        rw (producer_turn, run) refl,
        in_order [] [] _ r v.ready v.within (omega arith) (omega arith) (sym (append-nil _)),
      )
      received (ok pkt, s) run r = (
        ran (pkt ∷ []) []
            (record st { in_socket = s; unpushed = some pkt; total_rcv = inc_u64 st.total_rcv }),
        rw (producer_turn, run) refl,
        in_order (pkt ∷ []) [] _ r v.ready v.within (omega arith) (omega arith) (
            ap (λ k. held st.unsent ++ k)
              (ap (λ k. k ++ pkt ∷ [])
                (sym (append-nil _) ∙ ap (λ u. st.queue ++ held u) (sym here)))
            ∙ sym (append_assoc (held st.unsent) _ (pkt ∷ []))),
      )

  -- The thread that prints the counters.
  pub swap_rcv_lem :
      InOrder api rx_bits free_bits tx_bits hand before (pending st) (ran [] [] (swap_rcv st))
  unfolding swap_rcv
  swap_rcv_lem =
      in_order [] [] (swap_rcv st) v.receiving v.ready v.within (omega arith) (omega arith)
        (sym (append-nil _))

  pub swap_fwd_lem :
      InOrder api rx_bits free_bits tx_bits hand before (pending st) (ran [] [] (swap_fwd st))
  unfolding swap_fwd
  swap_fwd_lem =
      in_order [] [] (swap_fwd st) v.receiving v.ready v.within (omega arith) (omega arith)
        (sym (append-nil _))

  -- What follows a refused packet: the waiting packets are sent, or the program halts.
  flush_turn_lem :
      (next : NextLaws api) (laws : TxSyncLaws api) (out : NethunsSocketNetmap)
      → Ready api tx_bits before out
      → (r : Ran) × (flush_turn api st out ≡ some r)
        × InOrder api rx_bits free_bits tx_bits hand before (pending st) r
  unfolding flush_turn unwrap_flush
  flush_turn_lem next laws out t =
      let (flushed, tx', tails', run, ends, ready, same) =
        flush_lem api next laws tx_bits out t.tx t.tails t.inv in
      let t' : Ready api tx_bits before flushed.1 = record {
        tx = tx';
        tails = tails';
        inv = ready;
        same = λ b. same b ∙ t.same b;
      } in
      elim ends.ends [
        | inr (failed, why) ↦ (
          halted NethunsFlushError.error,
          rw (flush_turn, run, ◌>>=◌, failed) refl,
          (refl, (_, why)),
        )
        | inl (done, _) ↦ (
          ran [] [] (record st { out_socket = flushed.1 }),
          rw (flush_turn, run, ◌>>=◌, done) refl,
          in_order [] [] (record st { out_socket = flushed.1 }) v.receiving t' v.within
              (omega arith) (omega arith) (sym (append-nil _)),
        )
      ]

  pop_turn_lem :
      (queue : List RecvPacket)
      → st.queue ≡ queue
      → st.unsent ≡ none
      → (r : Ran) × (pop_turn st queue ≡ some r)
        × InOrder api rx_bits free_bits tx_bits hand before (pending st) r
  unfolding pop_turn
  pop_turn_lem [] here idle = (
    ran [] [] st,
    refl,
    in_order [] [] st v.receiving v.ready v.within (omega arith) (omega arith) (sym (append-nil _)),
  )
  pop_turn_lem (pkt ∷ rest) here idle = (
    ran [] [] (record st { queue = rest; unsent = some pkt }),
    refl,
    in_order [] [] (record st { queue = rest; unsent = some pkt }) v.receiving v.ready
        (omega (arith, v.within, ap length here)) (omega arith) (omega arith)
        (ap₂ (λ u q. held u ++ (q ++ held st.unpushed)) (sym idle) (sym here) ∙ sym (append-nil _)),
  )

  -- The second thread.
  pub consumer_turn_lem :
      (next : NextLaws api) (laws : TxSyncLaws api) (copy : List ℕ → List ℕ → List ℕ)
      (u : Option RecvPacket)
      → st.unsent ≡ u
      → (r : Ran) × (consumer_turn api copy st u ≡ some r)
        × InOrder api rx_bits free_bits tx_bits hand before (pending st) r
  unfolding consumer_turn
  consumer_turn_lem next laws copy none here = pop_turn_lem st.queue refl here
  consumer_turn_lem next laws copy (some pkt) here =
      let packet = buffer st.in_socket pkt in
      let (out, tx', run, ready, same, ends) = send_kept copy api v.ready.inv packet in
      let t : Ready api tx_bits before out.1 = record {
        tx = tx';
        tails = v.ready.tails;
        inv = ready;
        same = λ b. same b ∙ v.ready.same b;
      } in
      let (r, run', o) = flush_turn_lem next laws out.1 t in
      elim ends [
        | inl done ↦
            let (s, dropped, r) = drop_packet-Receiving pkt v.receiving in
            let st' : ForwarderMt = record st {
              in_socket = s;
              out_socket = out.1;
              unsent = none;
              total_fwd = inc_u64 st.total_fwd;
            } in
            (
              ran [] (pkt ∷ []) st',
              rw (consumer_turn, run, ◌>>=◌, done, dropped) refl,
              in_order [] (pkt ∷ []) st' r t v.within (omega arith) (omega arith) (
                  ap (λ u. held u ++ (st.queue ++ held st.unpushed)) (sym here)
                  ∙ sym (append-nil _)),
            )
        | inr (inl busy) ↦ (r, rw (consumer_turn, run, ◌>>=◌, busy) run', o)
        | inr (inr (long, _)) ↦ (r, rw (consumer_turn, run, ◌>>=◌, long) run', o)
      ]
