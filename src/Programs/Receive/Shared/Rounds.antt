-- ===== src/Programs/Receive/Shared/Rounds.antt =====
-- The rounds of `st_execution` of examples/meter.rs, over all its sockets.
use rust_nethuns.Common.{
  ℕ, zero, suc, ◌+◌, ◌%◌, ◌^◌, ◌≤◌, ◌<◌, ◌≡◌, ◌⊎◌, inl, inr, refl, subst, Bool, none, some, List,
  [], ◌∷◌, ◌>>=◌, Result, ok, err, arith,
}
use rust_nethuns.Netmap.Api.{NetmapApi, RxSyncLaws}
use rust_nethuns.Netmap.Sides.{Receiving}
use rust_nethuns.Common.Always.{Result-cases}
use rust_nethuns.Programs.Receive.{Metered, PktError}
use rust_nethuns.Programs.Receive.Steps.{
  Step, Pass, no_more, stopped, next, Passes, all_passed, broken_off, passed_on,
}
use rust_nethuns.Programs.Receive.Loop.{Answers, recv_pkt_lem}
use rust_nethuns.Programs.Receive.Shared.{stops, Round, receive_all, st_execution}

-- The error with which the program returns is the one that ends the loop.
stops_lem :
    {api : NetmapApi} {has_addrs : List ℕ → Bool} {debug : Bool} {m m' : Metered}
    (res : Result (Unit {0}) PktError)
    → Answers api has_addrs debug m res m'
    → (Step api has_addrs debug m none m' × (stops res ≡ none))
      ⊎ ((e : PktError) × Step api has_addrs debug m (some e) m' × (stops res ≡ some e))
unfolding stops
stops_lem res answers = elim answers [
  | inl (step, inl fine) ↦ inl (step, rw fine refl)
  | inl (step, inr (e, passed_by, on)) ↦ inl (step, rw (passed_by, stops, on) refl)
  | inr (e, step, bad, off) ↦ inr (e, step, rw (bad, stops, off) refl)
]

module _ (bits free_bits hand : ℕ) where
  -- Every socket is as it should be between two calls, with `hand` buffers in hand.
  abbrev pub AreReceiving : List Metered → Type 0
  AreReceiving [] = Unit
  AreReceiving (m ∷ ms) = Receiving bits free_bits hand m.sock × AreReceiving ms

  -- A socket after some rounds: it is as it should be, and at most `most` packets more are counted.
  pub record IsMetered (most : ℕ) (m m' : Metered) : Type 0 where
    pub receiving : Receiving bits free_bits hand m'.sock
    pub n : ℕ
    pub n_le : n ≤ most
    pub counted : m'.tot % 2 ^ 64 ≡ (m.tot + n) % 2 ^ 64

  -- The same for the sockets at the same place of two lists.
  abbrev pub AreMetered : ℕ → List Metered → List Metered → Type 0
  AreMetered most [] [] = Unit
  AreMetered most (m ∷ ms) (m' ∷ ms') = IsMetered most m m' × AreMetered most ms ms'
  AreMetered most _ _ = ⊥

  -- Sockets whose turn does not come.
  AreMetered-stay : (most : ℕ) (ms : List Metered) → AreReceiving ms → AreMetered most ms ms
  AreMetered-stay most [] r = tt
  AreMetered-stay most (m ∷ ms) (r, rs) = (
    record { receiving = r; n = 0; n_le = omega arith; counted = omega arith },
    AreMetered-stay most ms rs,
  )

  AreMetered-AreReceiving :
      (most : ℕ) (ms ms' : List Metered) → AreMetered most ms ms' → AreReceiving ms'
  AreMetered-AreReceiving most [] [] c = tt
  AreMetered-AreReceiving most [] (_ ∷ _) c = absurd c
  AreMetered-AreReceiving most (_ ∷ _) [] c = absurd c
  AreMetered-AreReceiving most (m ∷ ms) (m' ∷ ms') (c, cs) =
      (c.receiving, AreMetered-AreReceiving most ms ms' cs)

  AreMetered-trans :
      (most most' all : ℕ) (ms ms' ms'' : List Metered)
      → most + most' ≡ all
      → AreMetered most ms ms'
      → AreMetered most' ms' ms''
      → AreMetered all ms ms''
  AreMetered-trans most most' all [] [] [] e c c' = tt
  AreMetered-trans most most' all [] [] (_ ∷ _) e c c' = absurd c'
  AreMetered-trans most most' all [] (_ ∷ _) _ e c c' = absurd c
  AreMetered-trans most most' all (_ ∷ _) [] _ e c c' = absurd c
  AreMetered-trans most most' all (_ ∷ _) (_ ∷ _) [] e c c' = absurd c'
  AreMetered-trans most most' all (m ∷ ms) (m' ∷ ms') (m'' ∷ ms'') e (c, cs) (c', cs') = (
    record {
      receiving = c'.receiving;
      n = c.n + c'.n;
      n_le = omega (arith, e, c.n_le, c'.n_le);
      counted = omega (arith, c.counted, c'.counted);
    },
    AreMetered-trans most most' all ms ms' ms'' e cs cs',
  )

  module _ (api : NetmapApi) (laws : RxSyncLaws api) (has_addrs : List ℕ → Bool)
      (debug : Bool) where
    -- A pass over the sockets counts at most one packet for each.
    receive_all_lem :
        (ms : List Metered) (count : ℕ)
        → AreReceiving ms
        → count < 10000000
        → (out : Round) × (receive_all api has_addrs debug ms count ≡ some out)
          × Pass api has_addrs debug ms out.0 out.1
          × AreMetered 1 ms out.1
          × (out.2 < 10000000)
    unfolding receive_all
    receive_all_lem [] count r below = ((ok tt, [], count), refl, no_more, tt, below)
    receive_all_lem (m ∷ ms) count (r, rs) below =
        let (out, run, c, answers) =
          recv_pkt_lem api laws has_addrs debug
            (record { socket = m.sock; total = m.tot; count_to_dump = count }) r below in
        let m' : Metered = record { sock = out.1.socket; tot = out.1.total } in
        let one : IsMetered 1 m m' = record {
          receiving = c.receiving;
          n = c.n;
          n_le = c.n_le;
          counted = c.counted;
        } in
        elim (stops_lem out.0 answers) [
          | inr (e, step, stop) ↦ (
            (err e, m' ∷ ms, out.1.count_to_dump),
            rw (receive_all, run, ◌>>=◌, stop) refl,
            stopped e step,
            (one, AreMetered-stay 1 ms rs),
            c.below,
          )
          | inl (step, on) ↦
              let (out', run', pass, cs, below') =
                receive_all_lem ms out.1.count_to_dump rs c.below in
              (
                (out'.0, m' ∷ out'.1, out'.2),
                rw (receive_all, run, ◌>>=◌, on, run') refl,
                next step pass,
                (one, cs),
                below',
              )
        ]

    -- The program of one thread of examples/meter.rs never faults, whatever the packets are and whether
    -- their addresses can be parsed. In each of its rounds it calls `recv` once on each socket in turn,
    -- and counts and drops the packet if there is one; it makes all its rounds, unless an error ends it
    -- early: one of `recv` other than a slot in use, no packet and a packet that is filtered out, or in
    -- debug mode that the addresses of a packet cannot be parsed (`Passes`). Afterwards every socket is
    -- as it should be, with no more buffers in hand, the counter of each has gone up by at most one for
    -- each round, and the common count to the next dump is below 10_000_000. The conditions are that
    -- this holds at first, and that the synchronisations obey `RxSyncLaws`.
    pub st_execution_lem :
        (n : ℕ) (ms : List Metered) (count : ℕ)
        → AreReceiving ms
        → count < 10000000
        → (out : Round) × (st_execution api has_addrs debug n ms count ≡ some out)
          × Passes api has_addrs debug n ms out.0 out.1
          × AreMetered n ms out.1
          × (out.2 < 10000000)
    unfolding st_execution
    st_execution_lem zero ms count r below =
        ((ok tt, ms, count), refl, all_passed, AreMetered-stay 0 ms r, below)
    st_execution_lem (suc n) ms count r below =
        let (out, run, pass, cs, below') = receive_all_lem ms count r below in
        elim (Result-cases out.0) [
          | inr (e, failed) ↦ (
            (err e, out.1, out.2),
            rw (st_execution, run, ◌>>=◌, failed) refl,
            broken_off e (subst (λ res. Pass api has_addrs debug ms res out.1) failed pass),
            AreMetered-trans 1 n (suc n) ms out.1 out.1 (omega arith) cs
                (AreMetered-stay n out.1 (AreMetered-AreReceiving 1 ms out.1 cs)),
            below',
          )
          | inl (_, done) ↦
              let (out', run', passes, cs', below'') =
                st_execution_lem n out.1 out.2 (AreMetered-AreReceiving 1 ms out.1 cs) below' in
              (
                out',
                rw (st_execution, run, ◌>>=◌, done) run',
                passed_on (subst (λ res. Pass api has_addrs debug ms res out.1) done pass) passes,
                AreMetered-trans 1 n (suc n) ms out.1 out'.1 (omega arith) cs cs',
                below'',
              )
        ]
