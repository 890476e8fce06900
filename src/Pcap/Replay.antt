-- ===== src/Pcap/Replay.antt =====
-- The packets that a client writes to a file, and those that a client reads from it
-- (src/sockets/pcap/reader_builtin.rs).
use rust_nethuns.Common.{
  map, ℕ, zero, suc, ◌+◌, ◌≤◌, ◌<◌, ◌≡◌, ◌∙◌, refl, ap, ap₂, min, false, ◌==◌, Option, none, some,
  ◌>>=◌, List, [], ◌∷◌, ◌++◌, append_assoc, append-nil, length, length-append, take, Result, ok,
  err, arith,
}
use rust_nethuns.Types.{NethunsSocketOptions}
use rust_nethuns.Errors.{NethunsPcapReadError, NethunsPcapWriteError, read_error_of_io}
use rust_nethuns.Ring.{NethunsRing, NethunsRingSlot, is_free}
use rust_nethuns.Ring.SendSlot.{get_slot-some}
use rust_nethuns.Pcap.{NethunsPcapPkthdr, NethunsSocketPcap, kuznetzov_tcpdump_magic}
use rust_nethuns.Pcap.File.{PcapFile, reading_at, writing, read_exact-eof}
use rust_nethuns.Pcap.Header.{pkthdr_bytes, length-pkthdr_bytes, FitsPkthdr, pkthdr_size}
use rust_nethuns.Pcap.Slots.{
  IsRoomy, received, released, get_slot-received, release-some, released-IsRoomy,
}
use rust_nethuns.Pcap.Record.{read-record, write-record, read_slot-room, read_slot, read_packet}
use rust_nethuns.Pcap.Reader.{socket_on, read, read_on, read_header, release, release_on, write}

unfoldable pub if_written :
    Result ℕ NethunsPcapWriteError × NethunsSocketPcap
    → (NethunsSocketPcap → Option NethunsSocketPcap)
    → Option NethunsSocketPcap
if_written (err e, s) next = none
if_written (ok n, s) next = next s

-- A client that writes packets, until a write fails.
unfoldable pub write_packets :
    NethunsSocketPcap → List (NethunsPcapPkthdr × List ℕ) → Option NethunsSocketPcap
unfolding if_written
write_packets s [] = some s
write_packets s ((h, packet) ∷ records) =
    if_written (write s h packet) (λ s'. write_packets s' records)

-- A client that reads packets, and drops each of them before it reads the next, until a read fails:
-- the packets and the error, if there has been one within `rounds` calls.
unfoldable pub replay : ℕ → NethunsSocketPcap → Option (List (List ℕ) × Option NethunsPcapReadError)
replay zero s = some ([], none)
replay (suc rounds) s = do
  (res, s') ← read s
  elim res [
    | err e ↦ some ([], some e)
    | ok pkt ↦ do
      s'' ← release s' pkt
      (packets, end) ← replay rounds s''
      some (pkt.buffer ∷ packets, end)
  ]

-- The bytes of records.
unfoldable pub records_bytes : List (NethunsPcapPkthdr × List ℕ) → List ℕ
records_bytes [] = []
records_bytes ((h, packet) ∷ records) = pkthdr_bytes h ++ (packet ++ records_bytes records)

-- Every header fits its fields and tells the length of its packet.
unfoldable pub AreWhole : List (NethunsPcapPkthdr × List ℕ) → Type 0
AreWhole [] = Unit
AreWhole ((h, packet) ∷ records) = FitsPkthdr h × (h.caplen ≡ length packet) × AreWhole records

pub write_packets-append :
    (opt : NethunsSocketOptions) (rx : NethunsRing) (snaplen magic limit : ℕ) (bytes : List ℕ)
    (records : List (NethunsPcapPkthdr × List ℕ))
    → length bytes + length (records_bytes records) ≤ limit
    → write_packets (socket_on opt rx (writing limit bytes) snaplen magic) records
      ≡ some (socket_on opt rx (writing limit (bytes ++ records_bytes records)) snaplen magic)
unfolding write_packets if_written records_bytes
write_packets-append opt rx snaplen magic limit bytes [] room = rw append-nil refl
write_packets-append opt rx snaplen magic limit bytes ((h, packet) ∷ records) room =
    let sizes : length (pkthdr_bytes h ++ (packet ++ records_bytes records))
        ≡ pkthdr_size + (length packet + length (records_bytes records)) =
      omega (
        arith,
        length-append (pkthdr_bytes h) (packet ++ records_bytes records),
        length-append packet (records_bytes records),
        length-pkthdr_bytes h,
      ) in
    let grown : length (bytes ++ (pkthdr_bytes h ++ packet))
        ≡ length bytes + (pkthdr_size + length packet) =
      omega (
        arith,
        length-append bytes (pkthdr_bytes h ++ packet),
        length-append (pkthdr_bytes h) packet,
        length-pkthdr_bytes h,
      ) in
    rw (
      write_packets,
      write-record opt rx snaplen magic limit bytes h packet (omega arith),
      write_packets-append opt rx snaplen magic limit (bytes ++ (pkthdr_bytes h ++ packet)) records
          (omega arith),
      append_assoc,
      append_assoc,
    )

-- The cursor after a record.
next_record :
    (limit : ℕ) (before : List ℕ) (h : NethunsPcapPkthdr) (packet rest : List ℕ)
    → h.caplen ≡ length packet
    → reading_at limit
        ((before ++ (pkthdr_bytes h ++ packet)) ++ rest)
        (length (before ++ (pkthdr_bytes h ++ packet)))
      ≡ reading_at limit
          (before ++ (pkthdr_bytes h ++ (packet ++ rest)))
          (length before + pkthdr_size + h.caplen)
next_record limit before h packet rest whole =
    ap₂ (reading_at limit)
      (append_assoc before (pkthdr_bytes h ++ packet) rest
        ∙ ap (λ k. before ++ k) (append_assoc (pkthdr_bytes h) packet rest))
      (omega (
        arith,
        length-append before (pkthdr_bytes h ++ packet),
        length-append (pkthdr_bytes h) packet,
        length-pkthdr_bytes h,
      ))

take-min : (n : ℕ) (xs : List ℕ) → take (min n (length xs)) xs ≡ take n xs
take-min zero xs =
    let none_taken : min 0 (length xs) ≡ 0 = omega arith in ap (λ k. take k xs) none_taken
take-min (suc n) [] =
    let none_left : min (suc n) 0 ≡ 0 = omega arith in ap (λ k. take k []) none_left
take-min (suc n) (x ∷ xs) =
    let step : min (suc n) (suc (length xs)) ≡ suc (min n (length xs)) = omega arith in
    ap (λ k. take k (x ∷ xs)) step ∙ ap (◌∷◌ x) (take-min n xs)

module _ {bits : ℕ} (opt : NethunsSocketOptions) (snaplen magic limit : ℕ)
    (plain : (magic == kuznetzov_tcpdump_magic) ≡ false) where
  replay-eof :
      (rx : NethunsRing) (v : IsRoomy bits opt.packetsize rx) (bytes : List ℕ) (rounds : ℕ)
      → replay (suc rounds) (socket_on opt rx (reading_at limit bytes (length bytes)) snaplen magic)
        ≡ some ([], some NethunsPcapReadError.eof)
  unfolding replay read read_on is_free read_header read_error_of_io
  replay-eof rx v bytes rounds =
      let (slot, at_head) = get_slot-some rx v.shaped rx.rings.head in
      let (is_free_slot, room) = v.roomy rx.rings.head slot at_head in
      rw (at_head, is_free_slot, plain, read_exact-eof limit bytes 23)

  release-packet :
      (rx : NethunsRing) (v : IsRoomy bits opt.packetsize rx) (slot : NethunsRingSlot)
      (h : NethunsPcapPkthdr) (packet : List ℕ) (file : PcapFile)
      → release
          (socket_on opt (received rx slot) file snaplen magic)
          (read_packet rx opt h packet slot)
        ≡ some (socket_on opt (released v slot) file snaplen magic)
  unfolding release release_on
  release-packet rx v slot h packet file =
      rw (release, release_on, get_slot-received v slot, release-some v slot)

  -- The rest of the file is replayed.
  pub replay-records :
      (rx : NethunsRing) (v : IsRoomy bits opt.packetsize rx) (before : List ℕ)
      (records : List (NethunsPcapPkthdr × List ℕ)) (rounds : ℕ)
      → AreWhole records
      → length records < rounds
      → replay rounds (
          socket_on opt rx
            (reading_at limit (before ++ records_bytes records) (length before))
            snaplen
            magic)
        ≡ some (
          map (λ (r : NethunsPcapPkthdr × List ℕ). take opt.packetsize (r.1)) records,
          some NethunsPcapReadError.eof,
        )
  unfolding replay records_bytes AreWhole
  replay-records rx v before [] zero w h = absurd (omega arith)
  replay-records rx v before [] (suc rounds) w h = rw append-nil (replay-eof rx v before rounds)
  replay-records rx v before ((h, packet) ∷ records) zero w lt = absurd (omega arith)
  replay-records rx v before ((h, packet) ∷ records) (suc rounds) w lt =
      let (slot, room, at_record) =
        read-record opt snaplen magic limit rx v before h packet (records_bytes records) plain w.0
          w.1 in
      let slot' = read_slot opt magic h packet slot in
      rw (
        replay,
        at_record,
        release-packet rx v slot' h packet _,
        ← next_record limit before h packet (records_bytes records) w.1,
        replay-records (released v slot')
            (released-IsRoomy v slot' (read_slot-room opt magic h packet slot w.1 room))
            (before ++ (pkthdr_bytes h ++ packet)) records rounds w.2 (omega arith),
        w.1,
        take-min opt.packetsize packet,
      )
