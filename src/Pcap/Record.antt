-- ===== src/Pcap/Record.antt =====
-- Records of a pcap file: what `write` of src/sockets/pcap/reader_builtin.rs appends to the file, and
-- what `read` makes of it.
use rust_nethuns.Common.{
  ℕ, ◌+◌, ◌-◌, ◌≤◌, ◌≡◌, ◌∙◌, refl, ap, min, false, ◌==◌, ltb, le→leb, Bool-cases, inl, inr, some,
  List, ◌++◌, append_assoc, length, length-append, length-take, length-drop, take, drop,
  if◌then◌else◌, ok, arith,
}
use rust_nethuns.Types.{NethunsSocketOptions}
use rust_nethuns.Ring.{NethunsRing, NethunsRingSlot, in_use, is_free}
use rust_nethuns.Ring.SendSlot.{get_slot-some, set_slot-some}
use rust_nethuns.Pcap.{NethunsPcapPkthdr, NethunsSocketPcap, kuznetzov_tcpdump_magic}
use rust_nethuns.Pcap.File.{
  PcapFile, reading_at, writing, seek_current, read_exact-part, read_exact-start, write_all-end,
}
use rust_nethuns.Pcap.Header.{
  pkthdr_bytes, length-pkthdr_bytes, FitsPkthdr, pkthdr_roundtrip, pkthdr_size,
}
use rust_nethuns.Pcap.Slots.{IsRoomy, received}
use rust_nethuns.Pcap.Reader.{
  PcapPacket, socket_on, slot_header, read_payload, read_header, read_on, read, write,
}

-- A write at the end of a file with room appends the header and the packet, and returns the
-- length of the packet.
pub write-record :
    (opt : NethunsSocketOptions) (rx : NethunsRing) (snaplen magic limit : ℕ) (bytes : List ℕ)
    (h : NethunsPcapPkthdr) (packet : List ℕ)
    → length bytes + (pkthdr_size + length packet) ≤ limit
    → write (socket_on opt rx (writing limit bytes) snaplen magic) h packet ≡ (
      ok (length packet),
      socket_on opt rx (writing limit (bytes ++ (pkthdr_bytes h ++ packet))) snaplen magic,
    )
unfolding write
write-record opt rx snaplen magic limit bytes h packet room =
    let grown : length (bytes ++ pkthdr_bytes h) ≡ length bytes + pkthdr_size =
      length-append bytes (pkthdr_bytes h) ∙ ap (λ k. length bytes + k) (length-pkthdr_bytes h) in
    rw (
      write,
      write_all-end limit bytes (pkthdr_bytes h) (omega (arith, length-pkthdr_bytes h)),
      write_all-end limit (bytes ++ pkthdr_bytes h) packet (omega arith),
      append_assoc bytes (pkthdr_bytes h) packet,
    )

-- After the bytes that fit the slot, the rest of the packet is skipped.
skip_rest :
    (limit : ℕ) (bytes : List ℕ) (pos size caplen : ℕ)
    → (if ltb size caplen
        then seek_current (reading_at limit bytes (pos + min size caplen)) (caplen - size)
        else reading_at limit bytes (pos + min size caplen))
      ≡ reading_at limit bytes (pos + caplen)
skip_rest limit bytes pos size caplen = elim (Bool-cases (ltb size caplen)) [
  | inl more ↦ rw more (ap (reading_at limit bytes) (ground arith))
  | inr all ↦ rw all (ap (reading_at limit bytes) (ground arith))
]

-- The slot of a packet that has been read.
abbrev pub read_slot :
    NethunsSocketOptions → ℕ → NethunsPcapPkthdr → List ℕ → NethunsRingSlot → NethunsRingSlot
read_slot opt magic h packet slot = record slot {
  status = in_use;
  pkthdr = slot_header magic h (min opt.packetsize h.caplen) slot.pkthdr;
  packet =
      take (min opt.packetsize h.caplen) packet ++ drop (min opt.packetsize h.caplen) slot.packet;
}

-- Its buffer is as long as before.
pub read_slot-room :
    (opt : NethunsSocketOptions) (magic : ℕ) (h : NethunsPcapPkthdr) (packet : List ℕ)
    (slot : NethunsRingSlot)
    → h.caplen ≡ length packet
    → opt.packetsize ≤ length slot.packet
    → opt.packetsize ≤ length (read_slot opt magic h packet slot).packet
read_slot-room opt magic h packet slot whole room =
    let n : ℕ = min opt.packetsize h.caplen in
    omega (
      arith,
      length-append (take n packet) (drop n slot.packet),
      length-take n packet,
      length-drop n slot.packet,
    )

abbrev pub read_packet :
    NethunsRing → NethunsSocketOptions → NethunsPcapPkthdr → List ℕ → NethunsRingSlot → PcapPacket
read_packet rx opt h packet slot = record {
  id = (received rx slot).rings.head;
  slot = rx.rings.head;
  buffer = take (min opt.packetsize h.caplen) packet;
}

module _ {bits : ℕ} (opt : NethunsSocketOptions) (snaplen magic limit : ℕ) (rx : NethunsRing)
    (v : IsRoomy bits opt.packetsize rx) where
  payload-read :
      (before after : List ℕ) (h : NethunsPcapPkthdr) (packet : List ℕ) (pos : ℕ)
      (slot : NethunsRingSlot) (file : PcapFile)
      → length before ≡ pos
      → h.caplen ≡ length packet
      → opt.packetsize ≤ length slot.packet
      → read_payload
          (socket_on opt rx file snaplen magic)
          rx
          slot
          (reading_at limit (before ++ (packet ++ after)) pos)
          h
        ≡ some (
          ok (read_packet rx opt h packet (read_slot opt magic h packet slot)),
          socket_on opt
              (received rx (read_slot opt magic h packet slot))
              (reading_at limit (before ++ (packet ++ after)) (pos + h.caplen))
              snaplen
              magic,
        )
  unfolding read_payload
  payload-read before after h packet pos slot file at_pos whole room =
      let n : ℕ = min opt.packetsize h.caplen in
      rw (
        read_payload,
        le→leb n (length slot.packet) (omega arith),
        read_exact-start limit before packet after pos n at_pos (omega arith),
        set_slot-some rx v.shaped rx.rings.head (read_slot opt magic h packet slot),
        skip_rest limit (before ++ (packet ++ after)) pos opt.packetsize h.caplen,
      )

  -- The state before and after the record is read.
  abbrev pub before_record : List ℕ → NethunsPcapPkthdr → List ℕ → List ℕ → NethunsSocketPcap
  before_record before h packet after =
      socket_on opt rx
        (reading_at limit (before ++ (pkthdr_bytes h ++ (packet ++ after))) (length before)) snaplen
        magic

  header-read :
      (before : List ℕ) (h : NethunsPcapPkthdr) (after : List ℕ)
      → (magic == kuznetzov_tcpdump_magic) ≡ false
      → FitsPkthdr h
      → read_header magic (reading_at limit (before ++ (pkthdr_bytes h ++ after)) (length before))
        ≡ (
          ok h,
          reading_at limit (before ++ (pkthdr_bytes h ++ after)) (length before + pkthdr_size),
        )
  unfolding read_header
  header-read before h after plain fits = rw (
    read_header,
    plain,
    read_exact-part limit before (pkthdr_bytes h) after (length before) pkthdr_size refl
        (length-pkthdr_bytes h),
    pkthdr_roundtrip h fits,
  )

  -- On a roomy ring a record at the cursor is read whole, in a file that is not Kuznetzov's, if its
  -- header fits its fields and tells the length of the packet. What the client gets are the bytes
  -- that fit a slot; the cursor stands after the record, and the slot is in use.
  pub read-record :
      (before : List ℕ) (h : NethunsPcapPkthdr) (packet after : List ℕ)
      → (magic == kuznetzov_tcpdump_magic) ≡ false
      → FitsPkthdr h
      → h.caplen ≡ length packet
      → (slot : NethunsRingSlot) × (opt.packetsize ≤ length slot.packet)
        × (read (before_record before h packet after)
            ≡ some (
              ok (read_packet rx opt h packet (read_slot opt magic h packet slot)),
              socket_on opt
                  (received rx (read_slot opt magic h packet slot))
                  (reading_at limit
                    (before ++ (pkthdr_bytes h ++ (packet ++ after)))
                    (length before + pkthdr_size + h.caplen))
                  snaplen
                  magic,
            ))
  unfolding read read_on is_free
  read-record before h packet after plain fits whole =
      let (slot, at_head) = get_slot-some rx v.shaped rx.rings.head in
      let (is_free_slot, room) = v.roomy rx.rings.head slot at_head in
      (
        slot,
        room,
        rw (
          at_head,
          is_free_slot,
          header-read before h (packet ++ after) plain fits,
          ← append_assoc before (pkthdr_bytes h) (packet ++ after),
          payload-read (before ++ pkthdr_bytes h) after h packet (length before + pkthdr_size) slot
              (reading_at limit ((before ++ pkthdr_bytes h) ++ (packet ++ after))
                (length before + pkthdr_size))
              (length-append before (pkthdr_bytes h)
                ∙ ap (λ k. length before + k) (length-pkthdr_bytes h))
              whole room,
        ),
      )
