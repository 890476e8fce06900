-- ===== src/Netmap/Duplex/Transmission.antt =====
-- `send`, `send_slot` and `flush` leave the reception of a socket as it is.
use rust_nethuns.Common.{
  ℕ, zero, suc, ◌+◌, ◌-◌, ◌≡◌, ◌∙◌, refl, ap, inl, inr, Bool-cases, Option, none, some,
  Option-cases, List, [], ◌∷◌, length, ltb, Result, ok, err,
}
use rust_nethuns.Common.Always.{
  Always, Always-some, Always-none, Always-bind, Always-then, Always-if, Always-weaken,
  Result-cases,
}
use rust_nethuns.Ring
use rust_nethuns.Ring.{NethunsRing, is_free}
use rust_nethuns.Errors.{NethunsFlushError}
use rust_nethuns.Netmap.{NetmapIf, NethunsSocketNetmap, netmap_txring, set_txring}
use rust_nethuns.Netmap.Api.{NetmapApi}
use rust_nethuns.Netmap.Send.{
  nethuns_get_buf_addr, put_packet, send_on, send, send_slot_on, send_slot,
}
use rust_nethuns.Netmap.Flush.{
  with_port, push_packets, push_rings, clean_slots, clean_rings, sync_and_clean, flush_on, flush,
}
use rust_nethuns.Netmap.Duplex.{SyncsApart, rx_side}

-- The state that a call leaves, if it returns, has the same reception.
abbrev pub KeepsRx : {A : Type 0} → NethunsSocketNetmap → Option (A × NethunsSocketNetmap) → Type 0
KeepsRx s = Always (λ out. rx_side out.1 ≡ rx_side s)

module _ (copy : List ℕ → List ℕ → List ℕ) where
  put_packet-rx :
      (s : NethunsSocketNetmap) (tx : NethunsRing) (packet : List ℕ)
      → KeepsRx s (put_packet copy s tx packet)
  unfolding put_packet
  put_packet-rx s tx packet = Always-bind (nethuns_get_buf_addr tx (Ring.tail tx)) _ (λ dst.
      Always-bind (Ring.nethuns_send_slot tx (Ring.tail tx) (length packet)) _
        (λ done. Always-some refl))

  send_on-rx :
      (s : NethunsSocketNetmap) (packet : List ℕ) (tx : Option NethunsRing)
      → KeepsRx s (send_on copy s packet tx)
  unfolding send_on
  send_on-rx s packet none = Always-some refl
  send_on-rx s packet (some tx) = Always-bind (Ring.get_slot tx (Ring.tail tx)) _ (λ slot.
      Always-if (is_free slot.status)
        (Always-if (ltb s.nr_buf_size (length packet)) (Always-some refl)
          (put_packet-rx s tx packet))
        (Always-some refl))

  pub send-rx : (s : NethunsSocketNetmap) (packet : List ℕ) → KeepsRx s (send copy s packet)
  unfolding send
  send-rx s packet = send_on-rx s packet s.base.tx_ring

send_slot_on-rx :
    (s : NethunsSocketNetmap) (id len : ℕ) (tx : Option NethunsRing)
    → KeepsRx s (send_slot_on s id len tx)
unfolding send_slot_on
send_slot_on-rx s id len none = Always-some refl
send_slot_on-rx s id len (some tx) =
    Always-bind (Ring.nethuns_send_slot tx id len) _
      (λ done. Always-if done.0 (Always-some refl) (Always-some refl))

pub send_slot-rx : (s : NethunsSocketNetmap) (id len : ℕ) → KeepsRx s (send_slot s id len)
unfolding send_slot
send_slot-rx s id len = send_slot_on-rx s id len s.base.tx_ring

-- What a loop over the rings leaves of them.
abbrev KeepsRings : {A : Type 0} → NetmapIf → Option (A × NetmapIf × NethunsRing) → Type 0
KeepsRings nifp = Always (λ out. out.1.rx_rings ≡ nifp.rx_rings)

-- How the first loop goes on after a ring.
rest-rx :
    (nifp : NetmapIf) (tail : ℕ)
    (m : Option (Result (List ℕ) NethunsFlushError × NetmapIf × NethunsRing))
    → KeepsRings nifp m
    → KeepsRings nifp (elim m [
      | none ↦ none
      | some (err e, nifp', tx) ↦ some (err e, nifp', tx)
      | some (ok tails, nifp', tx) ↦ some (ok (tail ∷ tails), nifp', tx)
    ])
rest-rx nifp tail none h = Always-none
rest-rx nifp tail (some (err e, nifp', tx)) h = Always-some (h.holds _ refl)
rest-rx nifp tail (some (ok tails, nifp', tx)) h = Always-some (h.holds _ refl)

module _ (api : NetmapApi) (apart : SyncsApart api) where
  push_rings-rx :
      (n i : ℕ) (nifp : NetmapIf) (tx : NethunsRing) (head : ℕ)
      → KeepsRings nifp (push_rings api n i nifp tx head)
  unfolding push_rings
  push_rings-rx zero i nifp tx head = Always-some refl
  push_rings-rx (suc n) i nifp tx head = elim (Option-cases (netmap_txring nifp i)) [
    | inl e ↦ rw (push_rings, e) Always-none
    | inr (ring, e) ↦
        elim (Option-cases (push_packets api (suc (length tx.rings.buffer)) ring tx head)) [
          | inl e' ↦ rw (push_rings, e, e') Always-none
          | inr (pushed, e') ↦ elim (Result-cases pushed.0) [
            | inr (_, bad) ↦ rw (push_rings, e, e', bad) (Always-some refl)
            | inl (_, good) ↦
                rw (push_rings, e, e', good)
                  (rest-rx nifp _ _
                    (push_rings-rx n (i + 1) (set_txring nifp i pushed.1) pushed.2 pushed.3))
          ]
        ]
  ]

  clean_rings-rx :
      (tails : List ℕ) (i : ℕ) (nifp : NetmapIf) (tx : NethunsRing)
      → KeepsRings nifp (clean_rings api tails i nifp tx)
  unfolding clean_rings
  clean_rings-rx [] i nifp tx = Always-some refl
  clean_rings-rx (prev ∷ tails) i nifp tx = elim (Option-cases (netmap_txring nifp i)) [
    | inl e ↦ rw (clean_rings, e) Always-none
    | inr (ring, e) ↦
        elim (Option-cases (
          clean_slots api (suc (length ring.slots)) ring tx (api.nm_ring_next ring prev)
            (api.nm_ring_next ring ring.tail))) [
              | inl e' ↦ rw (clean_rings, e, e') Always-none
              | inr (cleaned, e') ↦ elim (Result-cases cleaned.0) [
                | inr (_, bad) ↦ rw (clean_rings, e, e', bad) (Always-some refl)
                | inl (_, good) ↦
                    rw (clean_rings, e, e', good)
                      (clean_rings-rx tails (i + 1) (set_txring nifp i cleaned.1) cleaned.2)
              ]
            ]
  ]

  sync_and_clean-rx :
      (s : NethunsSocketNetmap) (tx : NethunsRing) (tails : List ℕ)
      → KeepsRx s (sync_and_clean api s tx tails)
  unfolding sync_and_clean
  sync_and_clean-rx s tx tails =
      let p = (api.tx_sync s.p).1 in
      let same = apart.tx_apart s.p in
      elim (Bool-cases (api.tx_sync s.p).0) [
        | inr failed ↦
            rw (sync_and_clean, failed)
              (Always-some (ap (λ q. (s.base.rx_ring, s.free_ring, q)) same))
        | inl done ↦
            rw (sync_and_clean, done)
              (Always-then (clean_rings api tails p.first_tx_ring p.nifp tx) _
                (clean_rings-rx tails p.first_tx_ring p.nifp tx)
                (λ out kept. Always-some (
                  ap
                    (λ r. (
                      s.base.rx_ring,
                      s.free_ring,
                      (r, p.first_rx_ring, p.last_rx_ring, p.cur_rx_ring),
                    ))
                    kept
                  ∙ ap (λ q. (s.base.rx_ring, s.free_ring, q)) same)))
      ]

  flush_on-rx : (s : NethunsSocketNetmap) (tx : Option NethunsRing) → KeepsRx s (flush_on api s tx)
  unfolding flush_on
  flush_on-rx s none = Always-some refl
  flush_on-rx s (some tx) =
      let rounds = suc s.p.last_tx_ring - s.p.first_tx_ring in
      elim (Option-cases (push_rings api rounds s.p.first_tx_ring s.p.nifp tx (Ring.head tx))) [
        | inl e ↦ rw (flush_on, e) Always-none
        | inr (out, e) ↦
            let kept =
              (push_rings-rx rounds s.p.first_tx_ring s.p.nifp tx (Ring.head tx)).holds out e in
            let same : rx_side (with_port s (record (s.p) { nifp = out.1 }) out.2) ≡ rx_side s =
              ap
                (λ r. (
                  s.base.rx_ring,
                  s.free_ring,
                  (r, s.p.first_rx_ring, s.p.last_rx_ring, s.p.cur_rx_ring),
                ))
                kept in
            elim (Result-cases out.0) [
              | inr (_, bad) ↦ rw (flush_on, e, bad) (Always-some same)
              | inl (tails, good) ↦
                  rw (flush_on, e, good)
                    (Always-weaken (λ out' same'. same' ∙ same)
                      (sync_and_clean-rx (with_port s (record (s.p) { nifp = out.1 }) out.2) out.2
                        tails))
            ]
      ]

  pub flush-rx : (s : NethunsSocketNetmap) → KeepsRx s (flush api s)
  unfolding flush
  flush-rx s = flush_on-rx s s.base.tx_ring
