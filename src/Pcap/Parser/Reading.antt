-- ===== src/Pcap/Parser/Reading.antt =====
-- When `read` of src/sockets/pcap/reader_pcap.rs returns a packet.
use rust_nethuns.Common.{
  inl, inr, ap, Bool-cases, ℕ, suc, ◌≤◌, ◌<◌, ◌≡◌, ◌↔◌, ◌∙◌, sym, min, eq→==, ne→==, le→leb, none,
  some, length, take, leb, ok, arith,
}
use native.Mathlib.Decide.{dec_lt}
use rust_nethuns.Ring.{NethunsRing, NethunsRingSlot, free, in_use, is_free, get_slot, advance_head}
use rust_nethuns.Ring.SendSlot.{stored, set_slot-some}
use rust_nethuns.CircularQueue.Valid.{IsShaped}
use rust_nethuns.Pcap.Parser.{
  LegacyPcapBlock, PcapParser, ParserSocket, legacy, block_header, read_legacy, ParserRead,
  parser_read, parser_read_on, read_blocks, read_block,
}

to_legacy :
    {R : Type 0} (parser : PcapParser R) (fuel offset : ℕ) (s : ParserSocket R) (r : R)
    (rx : NethunsRing) (slot : NethunsRingSlot) (packet : LegacyPcapBlock)
    → s.base.rx_ring ≡ some rx
    → get_slot rx rx.rings.head ≡ some slot
    → slot.status ≡ free
    → parser.next s.reader ≡ (ok (offset, legacy packet), r)
    → parser_read parser (suc fuel) s
      ≡ read_legacy parser s rx slot (parser.consume r offset) packet
unfolding parser_read parser_read_on read_blocks read_block is_free
to_legacy parser fuel offset s r rx slot packet ring at_head is_free_slot next =
    ap (parser_read_on parser (suc fuel) s) ring
    ∙ rw (parser_read_on, at_head, is_free_slot, read_blocks, next)

module _ {R : Type 0} (parser : PcapParser R) (s : ParserSocket R) (rx : NethunsRing)
    (slot : NethunsRingSlot) (r : R) (packet : LegacyPcapBlock) where
  legacy-short :
      length slot.packet ≡ s.base.opt.packetsize
      → packet.caplen < s.base.opt.packetsize
      → read_legacy parser s rx slot r packet ≡ none
  unfolding read_legacy
  legacy-short exact short =
      elim (Bool-cases (leb (min s.base.opt.packetsize packet.caplen) (length packet.data_bytes))) [
        | inl whole ↦ rw (
          read_legacy,
          whole,
          ne→== (min s.base.opt.packetsize packet.caplen) (length slot.packet) (omega arith),
        )
        | inr missing ↦ rw (read_legacy, missing)
      ]

  abbrev taken : NethunsRingSlot
  taken = record slot {
    status = in_use;
    pkthdr = block_header s.magic packet (min s.base.opt.packetsize packet.caplen) slot.pkthdr;
    packet = take (min s.base.opt.packetsize packet.caplen) packet.data_bytes;
  }

  abbrev legacy_result : ParserRead R
  legacy_result = (
    ok (record {
      id = (advance_head (stored rx rx.rings.head taken)).rings.head;
      slot = rx.rings.head;
      buffer = take (min s.base.opt.packetsize packet.caplen) packet.data_bytes;
    }),
    record s {
      base = record (s.base) { rx_ring = some (advance_head (stored rx rx.rings.head taken)) };
      reader = r;
    },
  )

  legacy-fits :
      {bits : ℕ}
      → IsShaped bits rx.rings
      → length slot.packet ≡ s.base.opt.packetsize
      → s.base.opt.packetsize ≤ packet.caplen
      → packet.caplen ≤ length packet.data_bytes
      → read_legacy parser s rx slot r packet ≡ some legacy_result
  unfolding read_legacy
  legacy-fits shaped exact fits whole = rw (
    read_legacy,
    le→leb (min s.base.opt.packetsize packet.caplen) (length packet.data_bytes) (omega arith),
    eq→== (min s.base.opt.packetsize packet.caplen) (length slot.packet) (omega arith),
    set_slot-some rx shaped rx.rings.head taken,
  )

none-some : {A : Type 0} {a : A} → none ≡ some a → ⊥
none-some e = cc

-- If the head slot is free and its buffer has the packet size of the options, as `open` makes it, and
-- the next block is a packet with as many bytes as it tells, then `read` panics exactly if the packet
-- has fewer bytes than the packet size.
pub parser_read_lem :
    {R : Type 0} {bits : ℕ} (parser : PcapParser R) (fuel offset : ℕ) (s : ParserSocket R) (r : R)
    (rx : NethunsRing) (slot : NethunsRingSlot) (packet : LegacyPcapBlock)
    → s.base.rx_ring ≡ some rx
    → IsShaped bits rx.rings
    → get_slot rx rx.rings.head ≡ some slot
    → slot.status ≡ free
    → length slot.packet ≡ s.base.opt.packetsize
    → parser.next s.reader ≡ (ok (offset, legacy packet), r)
    → packet.caplen ≤ length packet.data_bytes
    → (parser_read parser (suc fuel) s ≡ none) ↔ (packet.caplen < s.base.opt.packetsize)
parser_read_lem parser fuel offset s r rx slot packet ring shaped at_head is_free_slot exact next
      whole =
    let is_legacy =
      to_legacy parser fuel offset s r rx slot packet ring at_head is_free_slot next in
    elim (dec_lt packet.caplen s.base.opt.packetsize) [
      | yes short ↦ (
        λ _. short,
        λ _. is_legacy ∙ legacy-short parser s rx slot (parser.consume r offset) packet exact short,
      )
      | no fits ↦
          let e =
            legacy-fits parser s rx slot (parser.consume r offset) packet shaped exact (omega arith)
              whole in
          (λ p. absurd (none-some (sym p ∙ is_legacy ∙ e)), λ short. absurd (omega arith))
    ]
