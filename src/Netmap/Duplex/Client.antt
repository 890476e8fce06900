-- ===== src/Netmap/Duplex/Client.antt =====
-- A client of a socket of both directions: calls of either direction in any order.
use rust_nethuns.Common.{ℕ, ◌≤◌, ◌≡◌, ◌∙◌, refl, ap, Option, some, List, [], ◌∷◌, ◌>>=◌}
use rust_nethuns.Netmap.{NethunsSocketNetmap, RecvPacket}
use rust_nethuns.Netmap.Api.{NetmapApi, RxSyncLaws}
use rust_nethuns.Netmap.Recv.{recv, drop_packet}
use rust_nethuns.Netmap.Send.{send, send_slot}
use rust_nethuns.Netmap.Flush.{flush}
use rust_nethuns.Netmap.Flush.Links.{NextLaws}
use rust_nethuns.Netmap.Flush.Total.{TxSyncLaws, flush_lem}
use rust_nethuns.Netmap.Transmit.{send_kept, send_slot_kept}
use rust_nethuns.Netmap.Duplex.{SyncsApart, tx_side, rx_side}
use rust_nethuns.Netmap.Duplex.Reception.{recv-tx, drop_packet-tx}
use rust_nethuns.Netmap.Duplex.Transmission.{send-rx, send_slot-rx, flush-rx}
use rust_nethuns.Netmap.Sides.{Ready, Receiving, recv-Receiving, drop_packet-Receiving}

pub data Call : Type 0 where
  recv_call : Call
  drop_call : RecvPacket → Call
  send_call : List ℕ → Call
  send_slot_call : ℕ → ℕ → Call
  flush_call : Call

-- The lengths that a client gives to `send_slot` fit 16 bits.
abbrev pub FitsLength : Call → Type 0
FitsLength (send_slot_call id len) = len ≤ 65535
FitsLength _ = Unit

abbrev pub FitLengths : List Call → Type 0
FitLengths [] = Unit
FitLengths (call ∷ calls) = FitsLength call × FitLengths calls

-- The reception looks only at its own side of a socket.
pub Receiving-same :
    {bits free_bits hand : ℕ} {s s' : NethunsSocketNetmap}
    → rx_side s' ≡ rx_side s
    → Receiving bits free_bits hand s
    → Receiving bits free_bits hand s'
Receiving-same {bits} {free_bits} {hand} {s} {s'} e r = record {
  rx = r.rx;
  slots = r.slots;
  buffers = r.buffers;
  inv = record {
    rx_eq = ap (λ q. q.0) e ∙ r.inv.rx_eq;
    ring = r.inv.ring;
    pool = rw (ap (λ q. q.1) e) r.inv.pool;
    room = r.inv.room;
    fits = r.inv.fits;
    port = record {
      first_le = rw (ap (λ q. q.2.1) e, ap (λ q. q.2.3) e) r.inv.port.first_le;
      le_last = rw (ap (λ q. q.2.2) e, ap (λ q. q.2.3) e) r.inv.port.le_last;
      in_bounds = rw (ap (λ q. q.2.2) e, ap (λ q. q.2.0) e) r.inv.port.in_bounds;
    };
  };
  at_most = r.at_most;
}

-- And so does the transmission.
pub Ready-same :
    {api : NetmapApi} {bits : ℕ} {before : List ℕ} {s s' : NethunsSocketNetmap}
    → tx_side s' ≡ tx_side s
    → Ready api bits before s
    → Ready api bits before s'
Ready-same {api} {bits} {before} {s} {s'} e r = record {
  tx = r.tx;
  tails = r.tails;
  inv = record {
    tx_eq = ap (λ q. q.0) e ∙ r.inv.tx_eq;
    cells = r.inv.cells;
    rings = rw (ap (λ q. q.2.0) e, ap (λ q. q.2.1) e) r.inv.rings;
    range = rw (ap (λ q. q.2.1) e, ap (λ q. q.2.2) e) r.inv.range;
    small = rw (ap (λ q. q.1) e) r.inv.small;
  };
  same = rw (ap (λ q. q.2.0) e) r.same;
}

module _ (copy : List ℕ → List ℕ → List ℕ) (api : NetmapApi) where
  -- One call, whatever it answers.
  unfoldable pub operate : NethunsSocketNetmap → Call → Option NethunsSocketNetmap
  unfolding recv drop_packet send send_slot flush
  operate s recv_call = do (res, s') ← recv api s; some s'
  operate s (drop_call pkt) = drop_packet s pkt
  operate s (send_call packet) = do (res, s') ← send copy s packet; some s'
  operate s (send_slot_call id len) = do (res, s') ← send_slot s id len; some s'
  operate s flush_call = do (res, s') ← flush api s; some s'

  unfoldable pub operate_all : NethunsSocketNetmap → List Call → Option NethunsSocketNetmap
  unfolding operate
  operate_all s [] = some s
  operate_all s (call ∷ calls) = do s' ← operate s call; operate_all s' calls

  module _ (next : NextLaws api) (rx_laws : RxSyncLaws api) (tx_laws : TxSyncLaws api)
      (apart : SyncsApart api) {bits free_bits hand tx_bits : ℕ} {before : List ℕ} where
    operate_lem :
        (call : Call) {s : NethunsSocketNetmap}
        → FitsLength call
        → Receiving bits free_bits hand s
        → Ready api tx_bits before s
        → (s' : NethunsSocketNetmap) × (operate s call ≡ some s')
          × Receiving bits free_bits hand s'
          × Ready api tx_bits before s'
    unfolding operate
    operate_lem recv_call {s} h r t =
        let (out, run, r') = recv-Receiving api rx_laws r in
        (out.1, rw (operate, run) refl, r', Ready-same ((recv-tx api apart s).holds out run) t)
    operate_lem (drop_call pkt) {s} h r t =
        let (s', run, r') = drop_packet-Receiving pkt r in
        (s', run, r', Ready-same ((drop_packet-tx s pkt).holds s' run) t)
    operate_lem (send_call packet) {s} h r t =
        let (out, tx', run, t', same, _) = send_kept copy api t.inv packet in
        (
          out.1,
          rw (operate, run) refl,
          Receiving-same ((send-rx copy s packet).holds out run) r,
          record { tx = tx'; tails = t.tails; inv = t'; same = λ b. same b ∙ t.same b },
        )
    operate_lem (send_slot_call id len) {s} h r t =
        let (out, tx', run, t', same, _) = send_slot_kept copy api t.inv id len h in
        (
          out.1,
          rw (operate, run) refl,
          Receiving-same ((send_slot-rx s id len).holds out run) r,
          record { tx = tx'; tails = t.tails; inv = t'; same = λ b. same b ∙ t.same b },
        )
    operate_lem flush_call {s} h r t =
        let (out, tx', tails', run, _, t', same) =
          flush_lem api next tx_laws tx_bits s t.tx t.tails t.inv in
        (
          out.1,
          rw (operate, run) refl,
          Receiving-same ((flush-rx api apart s).holds out run) r,
          record { tx = tx'; tails = tails'; inv = t'; same = λ b. same b ∙ t.same b },
        )

    -- A socket of both directions takes calls of `recv`, `send`, `send_slot` and `flush` and releases of
    -- packets in any order: none of them ever faults, the reception stays as it should be, with no more
    -- buffers in hand, and the transmission stays ready, with the same buffers. The conditions are that
    -- both sides are so at first, that the client gives `send_slot` no length above 16 bits, and that
    -- the netmap library obeys `NextLaws`, `RxSyncLaws` and `TxSyncLaws` and synchronises one direction
    -- at a time (`SyncsApart`).
    pub operate_all_lem :
        (calls : List Call) (s : NethunsSocketNetmap)
        → FitLengths calls
        → Receiving bits free_bits hand s
        → Ready api tx_bits before s
        → (s' : NethunsSocketNetmap) × (operate_all s calls ≡ some s')
          × Receiving bits free_bits hand s'
          × Ready api tx_bits before s'
    unfolding operate_all
    operate_all_lem [] s h r t = (s, refl, r, t)
    operate_all_lem (call ∷ calls) s (h, hs) r t =
        let (s₁, run, r₁, t₁) = operate_lem call h r t in
        let (s', run', r', t') = operate_all_lem calls s₁ hs r₁ t₁ in
        (s', rw (operate_all, run) run', r', t')
