-- ===== src/Netmap/Transmit.antt =====
-- A client of the transmitting side of src/sockets/api/netmap/nethuns_socket.rs: calls of `send`,
-- `send_slot` and `flush` in any order.
use rust_nethuns.Common.{
  ℕ, ◌≤◌, ◌<◌, ◌≡◌, ◌∙◌, ◌⊎◌, refl, ap, Bool-cases, inl, inr, Option, some, List, [], ◌∷◌, ◌++◌,
  length, ltb, ◌>>=◌, bit_and, arith, Result, ok, err,
}
use rust_nethuns.Common.Counts.{SameItems, count, count-append, count-map-set}
use rust_nethuns.CircularQueue.Valid.{advance_tail-IsShaped}
use rust_nethuns.Ring
use rust_nethuns.Ring.{NethunsRing, NethunsRingSlot, is_free, in_use}
use rust_nethuns.Ring.SendSlot.{stored, stored-IsShaped, get_slot-some, set_slot-some}
use rust_nethuns.Errors.{NethunsSendError}
use rust_nethuns.Netmap.{NetmapIf, NethunsSocketNetmap}
use rust_nethuns.Netmap.Api.{NetmapApi, ring_bufs}
use rust_nethuns.Netmap.Reclaim.{buf_of}
use rust_nethuns.Netmap.Send.{
  Sent, with_tx, send, send_on, put_packet, nethuns_get_buf_addr, send_slot, send_slot_on,
}
use rust_nethuns.Netmap.Send.Queued.{with_packet}
use rust_nethuns.Netmap.Flush.{flush}
use rust_nethuns.Netmap.Flush.Links.{NextLaws}
use rust_nethuns.Netmap.Flush.Push.{set-AreShort, cell_bufs}
use rust_nethuns.Netmap.Flush.Total.{TxReady, TxSyncLaws, tx_owned, flush_lem}

pub data Call : Type 0 where
  send_call : List ℕ → Call
  send_slot_call : ℕ → ℕ → Call
  flush_call : Call

-- The lengths that a client gives to `send_slot` fit 16 bits.
abbrev pub AreShortCalls : List Call → Type 0
AreShortCalls [] = Unit
AreShortCalls (send_call packet ∷ calls) = AreShortCalls calls
AreShortCalls (send_slot_call id len ∷ calls) = (len ≤ 65535) × AreShortCalls calls
AreShortCalls (flush_call ∷ calls) = AreShortCalls calls

-- What `send` answers for a socket whose buffers have a size: success, a slot that is not free yet,
-- or a packet that is too long.
abbrev pub SendEnds : ℕ → List ℕ → Result (Unit {0}) NethunsSendError → Type 0
SendEnds size packet res =
    (res ≡ ok tt)
    ⊎ (res ≡ err NethunsSendError.in_use)
    ⊎ ((res ≡ err (NethunsSendError.invalid_packet_size size (length packet)))
        × (size < length packet))

-- The slot as `nethuns_send_slot` marks it.
abbrev sent_slot : NethunsRingSlot → ℕ → NethunsRingSlot
sent_slot slot len = record slot { len = len; status = in_use }

-- Marking a slot keeps its buffer.
stored-SameItems :
    (tx : NethunsRing) (i : ℕ) (slot new : NethunsRingSlot)
    → Ring.get_slot tx i ≡ some slot
    → buf_of new ≡ buf_of slot
    → (b : ℕ) → count b (cell_bufs (stored tx i new)) ≡ count b (cell_bufs tx)
unfolding Ring.get_slot
stored-SameItems tx i slot new here same b = omega (
  arith,
  count-map-set buf_of b tx.rings.buffer (bit_and i tx.rings.mask) slot new here,
  ap (λ k. count b (k ∷ [])) same,
)

module _ (copy : List ℕ → List ℕ → List ℕ) (api : NetmapApi) where
  -- The last state, whatever the calls answer.
  pub transmit : NethunsSocketNetmap → List Call → Option NethunsSocketNetmap
  transmit s [] = some s
  transmit s (send_call packet ∷ calls) = do (res, s') ← send copy s packet; transmit s' calls
  transmit s (send_slot_call id len ∷ calls) = do (res, s') ← send_slot s id len; transmit s' calls
  transmit s (flush_call ∷ calls) = do (res, s') ← flush api s; transmit s' calls

  -- Moving the tail on does not matter to the transmitting side.
  tail-TxReady :
      {bits : ℕ} {s : NethunsSocketNetmap} {tx : NethunsRing} {tails : List ℕ}
      → TxReady api bits s tx tails
      → TxReady api bits (with_tx s (Ring.advance_tail tx)) (Ring.advance_tail tx) tails
  unfolding Ring.advance_tail
  tail-TxReady v = record {
    tx_eq = refl;
    cells = record { shape = advance_tail-IsShaped v.cells.shape; short = v.cells.short };
    rings = v.rings;
    range = v.range;
    small = v.small;
  }

  module _ {bits : ℕ} {s : NethunsSocketNetmap} {tx : NethunsRing} {tails : List ℕ}
      (v : TxReady api bits s tx tails) where
    -- A slot is marked with a length that fits, by `send` or `send_slot`.
    marked-TxReady :
        (nifp : NetmapIf) (i len : ℕ) (slot : NethunsRingSlot)
        → nifp.tx_rings ≡ s.p.nifp.tx_rings
        → Ring.get_slot tx i ≡ some slot
        → len ≤ 65535
        → TxReady api bits
            (with_tx
              (record s { p = record (s.p) { nifp = nifp } })
              (stored tx i (sent_slot slot len)))
            (stored tx i (sent_slot slot len))
            tails
    unfolding Ring.get_slot
    marked-TxReady nifp i len slot same here fits = record {
      tx_eq = refl;
      cells = record {
        shape = stored-IsShaped tx v.cells.shape i (sent_slot slot len);
        short =
            set-AreShort tx.rings.buffer (bit_and i tx.rings.mask) (sent_slot slot len)
              v.cells.short fits;
      };
      rings = rw same v.rings;
      range = v.range;
      small = v.small;
    }

    -- Marking a slot keeps the buffers of the transmitting side.
    stored-owned :
        (i len : ℕ) (slot : NethunsRingSlot) (b : ℕ)
        → Ring.get_slot tx i ≡ some slot
        → count b (cell_bufs (stored tx i (sent_slot slot len)) ++ ring_bufs s.p.nifp.tx_rings)
          ≡ count b (tx_owned s tx)
    stored-owned i len slot b here = omega (
      arith,
      stored-SameItems tx i slot (sent_slot slot len) here refl b,
      count-append b (cell_bufs tx) (ring_bufs s.p.nifp.tx_rings),
      count-append b (cell_bufs (stored tx i (sent_slot slot len))) (ring_bufs s.p.nifp.tx_rings),
    )

    -- `send` always returns, with one of its answers, and keeps the transmitting side ready and its
    -- buffers.
    pub send_kept :
        (packet : List ℕ)
        → (out : Sent) × (tx' : NethunsRing) × (send copy s packet ≡ some out)
          × TxReady api bits out.1 tx' tails
          × SameItems (tx_owned out.1 tx') (tx_owned s tx)
          × SendEnds s.nr_buf_size packet out.0
    unfolding send put_packet nethuns_get_buf_addr Ring.advance_tail
    send_kept packet =
        let (slot, here) = get_slot-some tx v.cells.shape (Ring.tail tx) in
        elim (Bool-cases (is_free slot.status)) [
          | inr busy ↦ (
            (err NethunsSendError.in_use, s),
            tx,
            on_ring ∙ rw (here, busy),
            v,
            λ b. refl,
            inr (inl refl),
          )
          | inl ready ↦ elim (Bool-cases (ltb s.nr_buf_size (length packet))) [
            | inl long ↦ (
              (err (NethunsSendError.invalid_packet_size s.nr_buf_size (length packet)), s),
              tx,
              on_ring ∙ rw (here, ready, long),
              v,
              λ b. refl,
              inr (inr (refl, ground (arith, long))),
            )
            | inr fits ↦
                let done = sent_slot slot (length packet) in
                let written = with_packet copy s slot.pkthdr.buf_idx packet in
                (
                  (ok tt, with_tx written (Ring.advance_tail (stored tx (Ring.tail tx) done))),
                  Ring.advance_tail (stored tx (Ring.tail tx) done),
                  on_ring
                      ∙ rw (here, ready, fits, set_slot-some tx v.cells.shape (Ring.tail tx) done),
                  tail-TxReady (
                      marked-TxReady written.p.nifp (Ring.tail tx) (length packet) slot refl here
                        (ground (arith, fits, v.small))),
                  λ b. stored-owned (Ring.tail tx) (length packet) slot b here,
                  inl refl,
                )
          ]
        ]
      where
        on_ring : send copy s packet ≡ send_on copy s packet (some tx)
        on_ring = ap (send_on copy s packet) v.tx_eq

    -- `send_slot` always returns, and it answers that it has marked the slot or that the slot is not
    -- free yet.
    pub send_slot_kept :
        (id len : ℕ)
        → len ≤ 65535
        → (out : Sent) × (tx' : NethunsRing) × (send_slot s id len ≡ some out)
          × TxReady api bits out.1 tx' tails
          × SameItems (tx_owned out.1 tx') (tx_owned s tx)
          × ((out.0 ≡ ok tt) ⊎ (out.0 ≡ err NethunsSendError.in_use))
    unfolding send_slot Ring.nethuns_send_slot
    send_slot_kept id len fits =
        let (slot, here) = get_slot-some tx v.cells.shape id in
        elim (Bool-cases (is_free slot.status)) [
          | inr busy ↦ (
            (err NethunsSendError.in_use, with_tx s tx),
            tx,
            on_ring ∙ rw (here, busy),
            record {
              tx_eq = refl;
              cells = v.cells;
              rings = v.rings;
              range = v.range;
              small = v.small;
            },
            λ b. refl,
            inr refl,
          )
          | inl ready ↦ (
            (ok tt, with_tx s (stored tx id (sent_slot slot len))),
            stored tx id (sent_slot slot len),
            on_ring ∙ rw (here, ready, set_slot-some tx v.cells.shape id (sent_slot slot len)),
            marked-TxReady s.p.nifp id len slot refl here fits,
            λ b. stored-owned id len slot b here,
            inl refl,
          )
        ]
      where
        on_ring : send_slot s id len ≡ send_slot_on s id len (some tx)
        on_ring = ap (send_slot_on s id len) v.tx_eq

  -- Every sequence of calls runs without a fault: no loop runs out, no length is too long for a netmap
  -- slot, and no null pointer is followed. Afterwards the socket is ready again, and every buffer of
  -- its transmission slots and of the netmap transmission rings is still in one of them. The
  -- conditions are that the socket is ready at first, that the client gives `send_slot` no length
  -- above 16 bits, and that the netmap library obeys `NextLaws` and `TxSyncLaws`.
  pub transmit_lem :
      (next : NextLaws api) (laws : TxSyncLaws api) {bits : ℕ} (calls : List Call)
      (s : NethunsSocketNetmap) (tx : NethunsRing) (tails : List ℕ)
      → AreShortCalls calls
      → TxReady api bits s tx tails
      → (s' : NethunsSocketNetmap) × (tx' : NethunsRing) × (tails' : List ℕ) × (transmit s calls
          ≡ some s')
        × TxReady api bits s' tx' tails'
        × SameItems (tx_owned s' tx') (tx_owned s tx)
  unfolding transmit
  transmit_lem next laws [] s tx tails h v = (s, tx, tails, refl, v, λ b. refl)
  transmit_lem next laws (send_call packet ∷ calls) s tx tails h v =
      let (out, tx₁, run₁, v₁, same₁, _) = send_kept v packet in
      let (s', tx', tails', run', v', same) = transmit_lem next laws calls out.1 tx₁ tails h v₁ in
      (s', tx', tails', rw (run₁, run'), v', λ b. same b ∙ same₁ b)
  transmit_lem next laws (send_slot_call id len ∷ calls) s tx tails h v =
      let (out, tx₁, run₁, v₁, same₁, _) = send_slot_kept v id len h.0 in
      let (s', tx', tails', run', v', same) = transmit_lem next laws calls out.1 tx₁ tails h.1 v₁ in
      (s', tx', tails', rw (run₁, run'), v', λ b. same b ∙ same₁ b)
  transmit_lem next laws {bits} (flush_call ∷ calls) s tx tails h v =
      let (out, tx₁, tails₁, run₁, _, v₁, same₁) = flush_lem api next laws bits s tx tails v in
      let (s', tx', tails', run', v', same) = transmit_lem next laws calls out.1 tx₁ tails₁ h v₁ in
      (s', tx', tails', rw (run₁, run'), v', λ b. same b ∙ same₁ b)
