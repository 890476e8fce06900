-- ===== src/Programs/FilePcap/Counting.antt =====
-- The count of examples/file-pcap.rs is that of the packets in the file.
use rust_nethuns.Common.{
  ℕ, zero, suc, ◌+◌, ◌%◌, ◌^◌, ◌<◌, ◌≡◌, ◌∙◌, refl, sym, ap, Option, none, some, List, [], ◌∷◌,
  length, length-map, ok, err, arith,
}
use rust_nethuns.Errors.{NethunsPcapReadError}
use rust_nethuns.Pcap.{NethunsPcapPkthdr, NethunsSocketPcap, tcpdump_magic}
use rust_nethuns.Pcap.File.{reading_at}
use rust_nethuns.Pcap.Header.{file_header_bytes}
use rust_nethuns.Pcap.Reader.{FileSystem, PcapRead, PcapPacket, new_file_header, read, release}
use rust_nethuns.Pcap.Replay.{replay, AreWhole, replay-records}
use rust_nethuns.Pcap.Opening.{file_bytes, open-reading}
use rust_nethuns.Programs.{inc_u64}
use rust_nethuns.Programs.FilePcap.{options, after_error, count_loop, run_read_count_mode}

-- The packets that a client has read, and the error that has ended its loop.
abbrev ReadBack : Type 0
ReadBack = List (List ℕ) × Option NethunsPcapReadError

abbrev Replayed : Type 0
Replayed = Option ReadBack

-- A client that ends with the end of the file has read these packets.
abbrev Ends : Replayed → ℕ → Type 0
Ends r n =
    (packets : List (List ℕ)) × (r ≡ some (packets, some NethunsPcapReadError.eof))
    × (length packets ≡ n)

some_inj : {A : Type 0} {a b : A} → some a ≡ some b → a ≡ b
some_inj e = cc

same_end : (a b : ReadBack) → some a ≡ some b → (length (a.0) ≡ length (b.0)) × (a.1 ≡ b.1)
same_end a b e =
    (ap (λ (r : ReadBack). length (r.0)) (some_inj e), ap (λ (r : ReadBack). r.1) (some_inj e))

never : {A : Type 0} {a : A} → none ≡ some a → ⊥
never e = cc

-- The loop of the program after `rounds` rounds that the client of `replay` has ended with the end of
-- the file.
abbrev Counts : ℕ → ℕ → Type 0
Counts rounds errors =
    (n : ℕ) (s : NethunsSocketPcap) (total : ℕ)
    → Ends (replay rounds s) n
    → total < 2 ^ 64
    → count_loop rounds s total errors ≡ some (some ((total + n) % 2 ^ 64, errors))

module _ (rounds errors : ℕ) (rest : Counts rounds errors) (n : ℕ) (s : NethunsSocketPcap)
    (total : ℕ) (ends : Ends (replay (suc rounds) s) n) (small : total < 2 ^ 64) where
  abbrev Counted : Type 0
  Counted = count_loop (suc rounds) s total errors ≡ some (some ((total + n) % 2 ^ 64, errors))

  by_rest :
      (s' s'' : NethunsSocketPcap) (pkt : PcapPacket) (r : Replayed)
      → read s ≡ some (ok pkt, s')
      → release s' pkt ≡ some s''
      → replay rounds s'' ≡ r
      → Counted
  unfolding count_loop replay
  by_rest s' s'' pkt none here gone again =
      let run : replay (suc rounds) s ≡ none = rw (replay, here, gone, again) refl in
      absurd (never (sym run ∙ ends.1))
  by_rest s' s'' pkt (some (packets, end)) here gone again =
      let run : replay (suc rounds) s ≡ some (pkt.buffer ∷ packets, end) =
        rw (replay, here, gone, again) refl in
      let (size, at_end) =
        same_end (pkt.buffer ∷ packets, end) (ends.0, some NethunsPcapReadError.eof)
          (sym run ∙ ends.1) in
      rw (count_loop, here, gone)
        (rest (length packets) s'' (inc_u64 total)
            (packets, again ∙ ap (λ k. some (packets, k)) at_end, refl) (omega arith)
          ∙ ap (λ (k : ℕ). some (some (k, errors))) {x = (inc_u64 total + length packets) % 2 ^ 64}
              {y = (total + n) % 2 ^ 64} (omega (arith, size, ends.2)))

  by_release :
      (s' : NethunsSocketPcap) (pkt : PcapPacket) (r : Option NethunsSocketPcap)
      → read s ≡ some (ok pkt, s')
      → release s' pkt ≡ r
      → Counted
  unfolding replay
  by_release s' pkt none here gone =
      let run : replay (suc rounds) s ≡ none = rw (replay, here, gone) refl in
      absurd (never (sym run ∙ ends.1))
  by_release s' pkt (some s'') here gone = by_rest s' s'' pkt (replay rounds s'') here gone refl

  by_read : (r : Option PcapRead) → read s ≡ r → Counted
  unfolding count_loop replay after_error
  by_read none here =
      let run : replay (suc rounds) s ≡ none = rw (replay, here) refl in
      absurd (never (sym run ∙ ends.1))
  by_read (some (err x, s')) here =
      let run : replay (suc rounds) s ≡ some ([], some x) = rw (replay, here) refl in
      let (size, at_end) =
        same_end ([], some x) (ends.0, some NethunsPcapReadError.eof) (sym run ∙ ends.1) in
      rw (count_loop, here, some_inj at_end)
        (ap (λ (k : ℕ). some (some (k, errors))) {x = total} {y = (total + n) % 2 ^ 64}
          (omega (arith, size, ends.2)))
  by_read (some (ok pkt, s')) here = by_release s' pkt (release s' pkt) here refl

count_loop-replay : (rounds errors : ℕ) → Counts rounds errors
unfolding replay
count_loop-replay zero errors n s total ends small =
    absurd (never (same_end ([], none) (ends.0, some NethunsPcapReadError.eof) ends.1).1)
count_loop-replay (suc rounds) errors n s total ends small =
    by_read rounds errors (count_loop-replay rounds errors) n s total ends small (read s) refl

-- Counting the packets of a file as `open` and `write` make it neither fails nor panics, and it ends
-- within a round for each packet and one more: the total is the number of the packets, and there are no
-- errors. The condition is that the header of every packet fits its fields and tells its length.
pub run_read_count_mode_lem :
    (fs : FileSystem) (filename : List ℕ) (limit rounds : ℕ)
    (records : List (NethunsPcapPkthdr × List ℕ))
    → fs.open_file filename ≡ ok (reading_at limit (file_bytes records) 0)
    → AreWhole records
    → length records < rounds
    → run_read_count_mode rounds fs filename ≡ some (some (length records % 2 ^ 64, 0))
unfolding run_read_count_mode file_header_bytes
run_read_count_mode_lem fs filename limit rounds records opened whole enough =
    let (bits, rx, snaplen, v, r_open) =
      open-reading fs options filename limit records opened (omega arith) in
    let replayed =
      replay-records options snaplen tcpdump_magic limit refl rx v
        (file_header_bytes new_file_header) records rounds whole enough in
    rw r_open (
      count_loop-replay rounds 0 (length records) _ 0 (_, replayed, length-map _ records)
        (omega arith)
      ∙ ap (λ (k : ℕ). some (some (k, 0))) {x = (0 + length records) % 2 ^ 64}
          {y = length records % 2 ^ 64} (omega arith))
