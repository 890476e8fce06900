-- ===== src/Pcap/File.antt =====
-- `std::fs::File` as src/sockets/pcap/reader_builtin.rs uses it: bytes and a cursor, reads and writes
-- at the cursor. `limit` is the size that the file can grow to; a call that a file is not open for
-- fails.
use rust_nethuns.Common.{
  ℕ, zero, suc, ◌+◌, ◌-◌, ◌≤◌, ◌≡◌, refl, sym, ap, ap₂, Bool, true, false, List, [], ◌∷◌, ◌++◌,
  append-nil, length, length-append, take, drop, take-append_exact, drop-append_exact, replicate,
  leb, le→leb, if◌then◌else◌, Result, ok, err, arith,
}
use rust_nethuns.Errors.{IoError}

pub record PcapFile : Type 0 where
  pub bytes : List ℕ
  pub cursor : ℕ
  pub limit : ℕ
  pub readable : Bool
  pub writable : Bool

-- `read_exact`: a read past the end consumes what is left.
unfoldable pub read_exact : PcapFile → ℕ → Result (List ℕ) IoError × PcapFile
read_exact f n =
    if f.readable
    then (if leb (f.cursor + n) (length f.bytes)
        then (ok (take n (drop f.cursor f.bytes)), record f { cursor = f.cursor + n })
        else (
          err IoError.unexpected_eof,
          record f { cursor = f.cursor + (length f.bytes - f.cursor) },
        ))
    else (err IoError.other, f)

-- A call on the file, with what is done after its failure and after its success.
abbrev pub after_io {ℓ κ} :
    {A : Type ℓ} {B : Type κ}
    → Result A IoError × PcapFile
    → (IoError → PcapFile → B)
    → (A → PcapFile → B)
    → B
after_io (err e, file) failed done = failed e file
after_io (ok a, file) failed done = done a file

-- What is written at the cursor: it goes over what stands there, and a gap before it is filled with
-- zeros.
unfoldable pub written : PcapFile → List ℕ → PcapFile
written f part = record f {
  bytes =
      take f.cursor (f.bytes ++ replicate (f.cursor - length f.bytes) 0)
      ++ (part ++ drop (f.cursor + length part) f.bytes);
  cursor = f.cursor + length part;
}

-- `write_all`: on a full disk as much is written as fits.
unfoldable pub write_all : PcapFile → List ℕ → Result (Unit {0}) IoError × PcapFile
unfolding written
write_all f part =
    if f.writable
    then (if leb (f.cursor + length part) f.limit
        then (ok tt, written f part)
        else (err IoError.other, written f (take (f.limit - f.cursor) part)))
    else (err IoError.other, f)

-- `seek(SeekFrom::Start(pos))`, whose result is the new position: a file on a disk is put anywhere.
abbrev pub seek_start : PcapFile → ℕ → Result ℕ IoError × PcapFile
seek_start f pos = (ok pos, record f { cursor = pos })

abbrev pub seek_current : PcapFile → ℕ → PcapFile
seek_current f skip = record f { cursor = f.cursor + skip }

-- A file open for reading, at a position.
abbrev pub reading_at : ℕ → List ℕ → ℕ → PcapFile
reading_at limit bytes pos = record {
  bytes = bytes;
  cursor = pos;
  limit = limit;
  readable = true;
  writable = false;
}

-- A file open for writing, at its end.
abbrev pub writing : ℕ → List ℕ → PcapFile
writing limit bytes = record {
  bytes = bytes;
  cursor = length bytes;
  limit = limit;
  readable = false;
  writable = true;
}

-- A read of the part of the file that stands at the cursor.
pub read_exact-part :
    (limit : ℕ) (before part after : List ℕ) (pos n : ℕ)
    → length before ≡ pos
    → length part ≡ n
    → read_exact (reading_at limit (before ++ (part ++ after)) pos) n
      ≡ (ok part, reading_at limit (before ++ (part ++ after)) (pos + n))
unfolding read_exact
read_exact-part limit before part after pos n at_pos len = rw (
  le→leb (pos + n) (length (before ++ (part ++ after)))
      (omega (arith, length-append before (part ++ after), length-append part after)),
  drop-append_exact before (part ++ after) pos at_pos,
  take-append_exact part after n len,
)

take-append_left : (n : ℕ) (xs ys : List ℕ) → n ≤ length xs → take n (xs ++ ys) ≡ take n xs
take-append_left zero xs ys h = refl
take-append_left (suc n) [] ys h = absurd (omega arith)
take-append_left (suc n) (x ∷ xs) ys h = ap (◌∷◌ x) (take-append_left n xs ys (omega arith))

-- A read of the start of the part that stands at the cursor.
pub read_exact-start :
    (limit : ℕ) (before part after : List ℕ) (pos n : ℕ)
    → length before ≡ pos
    → n ≤ length part
    → read_exact (reading_at limit (before ++ (part ++ after)) pos) n
      ≡ (ok (take n part), reading_at limit (before ++ (part ++ after)) (pos + n))
unfolding read_exact
read_exact-start limit before part after pos n at_pos le = rw (
  le→leb (pos + n) (length (before ++ (part ++ after)))
      (omega (arith, length-append before (part ++ after), length-append part after)),
  drop-append_exact before (part ++ after) pos at_pos,
  take-append_left n part after le,
)

-- At the end of the file nothing more is read.
pub read_exact-eof :
    (limit : ℕ) (bytes : List ℕ) (n : ℕ)
    → read_exact (reading_at limit bytes (length bytes)) (1 + n)
      ≡ (err IoError.unexpected_eof, reading_at limit bytes (length bytes))
unfolding read_exact
read_exact-eof limit bytes n = ground arith

drop-beyond : (n : ℕ) (bytes : List ℕ) → length bytes ≤ n → drop n bytes ≡ []
drop-beyond zero [] h = refl
drop-beyond zero (x ∷ bytes) h = elim h [ ]
drop-beyond (suc n) [] h = refl
drop-beyond (suc n) (x ∷ bytes) h = drop-beyond n bytes (omega arith)

written-end :
    (limit : ℕ) (bytes part : List ℕ)
    → written (writing limit bytes) part ≡ writing limit (bytes ++ part)
unfolding written
written-end limit bytes part =
    let new : take (length bytes) (bytes ++ replicate (length bytes - length bytes) 0)
          ++ (part ++ drop (length bytes + length part) bytes)
        ≡ bytes ++ part =
      rw (
        take-append_exact bytes (replicate (length bytes - length bytes) 0) (length bytes) refl,
        drop-beyond (length bytes + length part) bytes (omega arith),
        append-nil,
      ) in
    ap₂ (λ b c. record { bytes = b; cursor = c; limit = limit; readable = false; writable = true })
      new (sym (length-append bytes part))

-- A write at the end of the file appends, if there is room.
pub write_all-end :
    (limit : ℕ) (bytes part : List ℕ)
    → length bytes + length part ≤ limit
    → write_all (writing limit bytes) part ≡ (ok tt, writing limit (bytes ++ part))
unfolding write_all
write_all-end limit bytes part room =
    rw (le→leb (length bytes + length part) limit room, written-end limit bytes part)
