-- ===== src/Programs/Send/Rounds.antt =====
-- The rounds of the program of one thread in examples/send.rs, over all its sockets.
use rust_nethuns.Common.{
  ℕ, zero, suc, ◌+◌, ◌*◌, ◌≤◌, ◌≡◌, inl, inr, refl, subst, ◌>>=◌, some, List, [], ◌∷◌, length,
  Result, ok, err, arith,
}
use rust_nethuns.Errors.{NethunsFlushError}
use rust_nethuns.Netmap.Api.{NetmapApi}
use rust_nethuns.Netmap.Flush.Links.{NextLaws}
use rust_nethuns.Netmap.Flush.Total.{TxSyncLaws}
use rust_nethuns.Netmap.Sides.{Ready}
use rust_nethuns.Programs.Send.{Args, Sender, transmit_all, st_send}
use rust_nethuns.Programs.Send.Batches.{Sent, Sent-trans, BatchEnds, transmit_one_lem}

-- The senders of a list, each with the buffers of its place in the other list.
abbrev pub AreReady : NetmapApi → ℕ → List (List ℕ) → List Sender → Type 0
AreReady api bits [] [] = Unit
AreReady api bits (before ∷ befores) (st ∷ sts) =
    Ready api bits before st.socket × AreReady api bits befores sts
AreReady api bits [] (st ∷ sts) = ⊥
AreReady api bits (before ∷ befores) [] = ⊥

-- The same for all senders of a list.
abbrev pub AreSent : NetmapApi → ℕ → List (List ℕ) → ℕ → List Sender → List Sender → Type 0
AreSent api bits [] most [] [] = Unit
AreSent api bits (before ∷ befores) most (st ∷ sts) (st' ∷ sts') =
    Sent api bits before most st st' × AreSent api bits befores most sts sts'
AreSent api bits _ most _ _ = ⊥

-- A sender whose turn does not come.
stays :
    {api : NetmapApi} {bits : ℕ} {before : List ℕ} (most : ℕ) {st : Sender}
    → Ready api bits before st.socket
    → Sent api bits before most st st
stays most r = record { ready = r; n = 0; n_le = omega arith; counted = omega arith }

module _ (api : NetmapApi) (bits : ℕ) where
  AreReady-AreSent :
      (befores : List (List ℕ)) (most : ℕ) (sts : List Sender)
      → AreReady api bits befores sts
      → AreSent api bits befores most sts sts
  AreReady-AreSent [] most [] r = tt
  AreReady-AreSent [] most (st ∷ sts) r = absurd r
  AreReady-AreSent (before ∷ befores) most [] r = absurd r
  AreReady-AreSent (before ∷ befores) most (st ∷ sts) (r, rs) =
      (stays most r, AreReady-AreSent befores most sts rs)

  AreSent-AreReady :
      (befores : List (List ℕ)) (most : ℕ) (sts sts' : List Sender)
      → AreSent api bits befores most sts sts'
      → AreReady api bits befores sts'
  AreSent-AreReady [] most [] [] s = tt
  AreSent-AreReady [] most [] (_ ∷ _) s = absurd s
  AreSent-AreReady [] most (_ ∷ _) _ s = absurd s
  AreSent-AreReady (_ ∷ _) most [] _ s = absurd s
  AreSent-AreReady (_ ∷ _) most (_ ∷ _) [] s = absurd s
  AreSent-AreReady (before ∷ befores) most (st ∷ sts) (st' ∷ sts') (s, ss) =
      (s.ready, AreSent-AreReady befores most sts sts' ss)

  -- A round after a round.
  AreSent-trans :
      (befores : List (List ℕ)) (most most' all : ℕ) (sts sts' sts'' : List Sender)
      → most + most' ≡ all
      → AreSent api bits befores most sts sts'
      → AreSent api bits befores most' sts' sts''
      → AreSent api bits befores all sts sts''
  AreSent-trans [] most most' all [] [] [] e s s' = tt
  AreSent-trans [] most most' all [] [] (_ ∷ _) e s s' = absurd s'
  AreSent-trans [] most most' all [] (_ ∷ _) _ e s s' = absurd s
  AreSent-trans [] most most' all (_ ∷ _) _ _ e s s' = absurd s
  AreSent-trans (_ ∷ _) most most' all [] _ _ e s s' = absurd s
  AreSent-trans (_ ∷ _) most most' all (_ ∷ _) [] _ e s s' = absurd s
  AreSent-trans (_ ∷ _) most most' all (_ ∷ _) (_ ∷ _) [] e s s' = absurd s'
  AreSent-trans (before ∷ befores) most most' all (st ∷ sts) (st' ∷ sts') (st'' ∷ sts'') e (s, ss)
        (s', ss') =
      (
        subst (λ k. Sent api bits before k st st'') e (Sent-trans s s'),
        AreSent-trans befores most most' all sts sts' sts'' e ss ss',
      )

module _ (api : NetmapApi) (copy : List ℕ → List ℕ → List ℕ) (next : NextLaws api)
    (laws : TxSyncLaws api) (bits : ℕ) (args : Args) (packet : List ℕ)
    (fits : length packet ≤ 65535) where
  transmit_all_lem :
      (befores : List (List ℕ)) (sts : List Sender)
      → AreReady api bits befores sts
      → (res : Result (Unit {0}) NethunsFlushError) × (sts' : List Sender) × (transmit_all api copy
            args packet sts
          ≡ some (res, sts'))
        × BatchEnds api res
        × AreSent api bits befores args.batch_size sts sts'
  unfolding transmit_all
  transmit_all_lem [] [] r = (ok tt, [], refl, inl refl, tt)
  transmit_all_lem [] (st ∷ sts) r = absurd r
  transmit_all_lem (before ∷ befores) [] r = absurd r
  transmit_all_lem (before ∷ befores) (st ∷ sts) (r, rs) =
      let (out, run, ends, s) = transmit_one_lem api copy next laws args packet fits st r in
      elim ends [
        | inr (failed, why) ↦ (
          err NethunsFlushError.error,
          out.1 ∷ sts,
          rw (transmit_all, run, ◌>>=◌, failed) refl,
          inr (refl, why),
          (s, AreReady-AreSent api bits befores args.batch_size sts rs),
        )
        | inl done ↦
            let (res, sts', run', ends', ss) = transmit_all_lem befores sts rs in
            (res, out.1 ∷ sts', rw (transmit_all, run, ◌>>=◌, done, run') refl, ends', (s, ss))
      ]

  -- The program of one thread, for any number of rounds over its sockets, never faults, and fails
  -- only if a synchronisation of the transmission fails. Afterwards every socket is ready and has the buffers that it
  -- had, and its counter has gone up by at most the size of a batch for each round. The conditions
  -- are that the sockets are ready at first, that the length of the payload fits 16 bits, and that the
  -- netmap library obeys `NextLaws` and `TxSyncLaws`.
  pub st_send_lem :
      (n : ℕ) (befores : List (List ℕ)) (sts : List Sender)
      → AreReady api bits befores sts
      → (res : Result (Unit {0}) NethunsFlushError) × (sts' : List Sender) × (st_send api copy n
            args packet sts
          ≡ some (res, sts'))
        × BatchEnds api res
        × AreSent api bits befores (n * args.batch_size) sts sts'
  unfolding st_send
  st_send_lem zero befores sts r =
      (ok tt, sts, refl, inl refl, AreReady-AreSent api bits befores _ sts r)
  st_send_lem (suc n) befores sts r =
      let (res, sts', run, ends, s) = transmit_all_lem befores sts r in
      elim ends [
        | inr (failed, why) ↦ (
          err NethunsFlushError.error,
          sts',
          rw (st_send, run, failed) refl,
          inr (refl, why),
          AreSent-trans api bits befores args.batch_size (n * args.batch_size)
              (suc n * args.batch_size) sts sts' sts' (grind arith) s
              (AreReady-AreSent api bits befores _ sts'
                (AreSent-AreReady api bits befores _ sts sts' s)),
        )
        | inl done ↦
            let (res', sts'', run', ends', s') =
              st_send_lem n befores sts' (AreSent-AreReady api bits befores _ sts sts' s) in
            (
              res',
              sts'',
              rw (st_send, run, done) run',
              ends',
              AreSent-trans api bits befores args.batch_size (n * args.batch_size)
                  (suc n * args.batch_size) sts sts' sts'' (grind arith) s s',
            )
      ]
