-- ===== src/Pcap/Store/Stored.antt =====
-- What `store` of src/sockets/pcap/reader_builtin.rs leaves in the file.
use rust_nethuns.Common.{
  ◌⊎◌, inl, inr, ℕ, ◌+◌, ◌-◌, ◌%◌, ◌^◌, ◌≤◌, ◌<◌, ◌≡◌, refl, ◌==◌, false, Option, none, some, List,
  ◌++◌, append_assoc, length, length-append, length-take, take, drop, le→leb, lt→leb_false, Result,
  ok, err, arith,
}
use native.Mathlib.Nat.{mod-lt}
use native.Mathlib.Decide.{dec_lt}
use rust_nethuns.Vlan.{from_be}
use rust_nethuns.Pcap.Words.{to_le, length-to_le}
use rust_nethuns.Errors.{IoError, NethunsPcapStoreError, NethunsPcapWriteError}
use rust_nethuns.Types.{NethunsSocketOptions}
use rust_nethuns.Ring.{NethunsRing}
use rust_nethuns.Pkthdr.{Pkthdr, offvlan_tpid}
use rust_nethuns.Pcap.{NethunsPcapPkthdr, NethunsSocketPcap}
use rust_nethuns.Pcap.File.{PcapFile, after_io, write_all, writing, write_all-end}
use rust_nethuns.Pcap.Header.{pkthdr_bytes, length-pkthdr_bytes, pkthdr_size}
use rust_nethuns.Pcap.Reader.{with_reader, write, socket_on}
use rust_nethuns.Pcap.Store.{
  PkthdrTrait, answers, store_header, slice, tag_bytes, tagged_clen, PcapStored, store_part, store,
}

slice-start :
    (packet : List ℕ) (n : ℕ) → n ≤ length packet → slice packet 0 n ≡ some (take n packet)
unfolding slice
slice-start packet n le =
    let all_of : n - 0 ≡ n = omega arith in
    rw (le→leb 0 n (omega arith), le→leb n (length packet) le, all_of)

slice-part :
    (packet : List ℕ) (from n : ℕ)
    → from + n ≤ length packet
    → slice packet from (from + n) ≡ some (take n (drop from packet))
unfolding slice
slice-part packet from n le =
    let n_of : from + n - from ≡ n = omega arith in
    rw (le→leb from (from + n) (omega arith), le→leb (from + n) (length packet) le, n_of)

slice-none :
    (packet : List ℕ) (from to : ℕ)
    → (to < from) ⊎ (length packet < to)
    → slice packet from to ≡ none
unfolding slice
slice-none packet from to (inl lt) = rw (lt→leb_false from to lt)
slice-none packet from to (inr beyond) = ground arith

pub caplen-le : (a : PkthdrTrait) (packet : List ℕ) → (store_header a packet).caplen ≤ length packet
unfolding store_header
caplen-le a packet = omega arith

pub caplen-lt : (a : PkthdrTrait) (packet : List ℕ) → (store_header a packet).caplen < 2 ^ 32
unfolding store_header
caplen-lt a packet = omega (arith, mod-lt (length packet) {m = 2 ^ 32} (omega arith))

length-tag_bytes : (a : PkthdrTrait) → length (tag_bytes a) ≡ 4
length-tag_bytes a = omega (
  arith,
  length-append (to_le 2 (from_be a.offvlan_tpid)) (to_le 2 (from_be a.offvlan_tci)),
  length-to_le 2 (from_be a.offvlan_tpid),
  length-to_le 2 (from_be a.offvlan_tci),
)

-- The result of a `write` as that of a `store`.
abbrev pub as_stored : Result ℕ NethunsPcapWriteError × NethunsSocketPcap → PcapStored
as_stored (ok n, s) = (ok n, s)
as_stored (err NethunsPcapWriteError.not_supported, s) =
    (err NethunsPcapStoreError.not_supported, s)
as_stored (err (NethunsPcapWriteError.file_error e), s) =
    (err (NethunsPcapStoreError.file_error e), s)

-- The number of bytes of the packet that are stored.
abbrev pub kept : Pkthdr → List ℕ → ℕ
kept h packet = (store_header (answers h) packet).caplen

untagged :
    (s : NethunsSocketPcap) (h : NethunsPcapPkthdr) (n : ℕ) (part : List ℕ)
    → length part ≡ n
    → store_part s s.reader
        (some (pkthdr_bytes h))
        (λ file. store_part s file (some part) (λ file'. some (ok n, with_reader s file')))
      ≡ some (as_stored (write s h part))
unfolding store_part write
untagged s h n part len = by_header (write_all s.reader (pkthdr_bytes h)) refl
  where
    by_packet :
        (w : Result (Unit {0}) IoError × PcapFile)
        → after_io w
            (λ e file'. some (err (NethunsPcapStoreError.file_error e), with_reader s file'))
            (λ _ file'. some (ok n, with_reader s file'))
          ≡ some (
              as_stored (
                after_io w
                  (λ e file'. (err (NethunsPcapWriteError.file_error e), with_reader s file'))
                  (λ _ file'. (ok (length part), with_reader s file'))))
    by_packet (err e, file) = refl
    by_packet (ok _, file) = rw len

    by_header :
        (w : Result (Unit {0}) IoError × PcapFile)
        → write_all s.reader (pkthdr_bytes h) ≡ w
        → store_part s s.reader
            (some (pkthdr_bytes h))
            (λ file. store_part s file (some part) (λ file'. some (ok n, with_reader s file')))
          ≡ some (as_stored (write s h part))
    by_header (err e, file) at_header = rw (store_part, write, at_header)
    by_header (ok _, file) at_header =
        rw (store_part, write, at_header) (by_packet (write_all file part))

-- For a packet header of the netmap framework, `store` does what `write` does with the header of the
-- record and the bytes of the packet that the header's snapshot length keeps: it never panics, it
-- returns how many bytes are kept, and it reports the failures of the file that `write` reports.
pub store_lem :
    (s : NethunsSocketPcap) (h : Pkthdr) (packet : List ℕ)
    → store s (answers h) packet
      ≡ some (as_stored (write s (store_header (answers h) packet) (take (kept h packet) packet)))
unfolding store offvlan_tpid
store_lem s h packet =
    rw (store, slice-start packet (kept h packet) (caplen-le (answers h) packet))
      (untagged s (store_header (answers h) packet) (kept h packet) (take (kept h packet) packet)
        (omega (arith, caplen-le (answers h) packet, length-take (kept h packet) packet)))

no_slice :
    (caplen size : ℕ)
    → caplen < 16
    → size < 2 ^ 31
    → ((tagged_clen caplen + 12) % 2 ^ 32 < 12) ⊎ (size < (tagged_clen caplen + 12) % 2 ^ 32)
no_slice caplen size short few = elim (dec_lt caplen 4) [
  | yes tiny ↦ inr (omega arith)
  | no enough ↦ inl (omega arith)
]

module _ (opt : NethunsSocketOptions) (rx : NethunsRing) (sl magic limit : ℕ) (bytes : List ℕ)
    (a : PkthdrTrait) (packet : List ℕ) where
  abbrev pub store_end : Option PcapStored
  store_end = store (socket_on opt rx (writing limit bytes) sl magic) a packet

  -- A tagged packet whose record keeps 16 bytes at least, at the end of a file with room: the record
  -- has its first 12 bytes, the tag, and its bytes from the 12th on, up to four bytes before the
  -- length that the record tells. What is returned is 16 less than that length.
  pub store-tagged :
      (a.offvlan_tpid == 0) ≡ false
      → 16 ≤ (store_header a packet).caplen
      → length bytes + (pkthdr_size + (store_header a packet).caplen) ≤ limit
      → store_end
        ≡ some (
          ok ((store_header a packet).caplen - 16),
          socket_on opt rx
              (writing limit (
                bytes
                ++ (pkthdr_bytes (store_header a packet)
                    ++ (take 12 packet
                        ++ (tag_bytes a
                            ++ take ((store_header a packet).caplen - 16) (drop 12 packet))))))
              sl
              magic,
        )
  unfolding store
  store-tagged tagged long room =
      let caplen : ℕ = (store_header a packet).caplen in
      let header : List ℕ = pkthdr_bytes (store_header a packet) in
      let body : List ℕ = take (caplen - 16) (drop 12 packet) in
      let whole : caplen ≤ length packet = caplen-le a packet in
      let clen : tagged_clen caplen ≡ caplen - 16 = omega (arith, caplen-lt a packet) in
      let end : (caplen - 16 + 12) % 2 ^ 32 ≡ 12 + (caplen - 16) =
        omega (arith, caplen-lt a packet) in
      let part : slice packet 12 (12 + (caplen - 16)) ≡ some body =
        slice-part packet 12 (caplen - 16) (omega arith) in
      let header_size : length header ≡ pkthdr_size = length-pkthdr_bytes (store_header a packet) in
      let b1 : List ℕ = bytes ++ header in
      let b2 : List ℕ = b1 ++ take 12 packet in
      let b3 : List ℕ = b2 ++ tag_bytes a in
      let size1 : length b1 ≡ length bytes + pkthdr_size =
        omega (arith, length-append bytes header) in
      let size2 : length b2 ≡ length b1 + 12 =
        omega (arith, length-append b1 (take 12 packet), length-take 12 packet) in
      let size3 : length b3 ≡ length b2 + 4 =
        omega (arith, length-append b2 (tag_bytes a), length-tag_bytes a) in
      rw (
        store,
        write_all-end limit bytes header (omega arith),
        tagged,
        slice-start packet 12 (omega arith),
        write_all-end limit b1 (take 12 packet) (omega (arith, length-take 12 packet)),
        write_all-end limit b2 (tag_bytes a) (omega (arith, length-tag_bytes a)),
        clen,
        end,
        part,
        write_all-end limit b3 body (omega (arith, length-take (caplen - 16) (drop 12 packet))),
        append_assoc,
        append_assoc,
        append_assoc,
      )

  -- A tagged packet whose record keeps fewer than 16 bytes makes `store` panic, at the end of a file
  -- that has room for the header and 16 bytes more, if the packet has fewer than 2 ^ 31 bytes.
  pub store-short :
      (a.offvlan_tpid == 0) ≡ false
      → (store_header a packet).caplen < 16
      → length packet < 2 ^ 31
      → length bytes + (pkthdr_size + 16) ≤ limit
      → store_end ≡ none
  unfolding store
  store-short tagged short few room =
      let caplen : ℕ = (store_header a packet).caplen in
      let header : List ℕ = pkthdr_bytes (store_header a packet) in
      let header_size : length header ≡ pkthdr_size = length-pkthdr_bytes (store_header a packet) in
      let b1 : List ℕ = bytes ++ header in
      let b2 : List ℕ = b1 ++ take 12 packet in
      let size1 : length b1 ≡ length bytes + pkthdr_size =
        omega (arith, length-append bytes header) in
      let size2 : length b2 ≤ length b1 + 12 =
        omega (arith, length-append b1 (take 12 packet), length-take 12 packet) in
      elim (dec_lt (length packet) 12) [
        | yes tiny ↦ rw (
          store,
          write_all-end limit bytes header (omega arith),
          tagged,
          slice-none packet 0 12 (inr tiny),
        )
        | no enough ↦ rw (
          store,
          write_all-end limit bytes header (omega arith),
          tagged,
          slice-start packet 12 (omega arith),
          write_all-end limit b1 (take 12 packet) (omega (arith, length-take 12 packet)),
          write_all-end limit b2 (tag_bytes a) (omega (arith, length-tag_bytes a)),
          slice-none packet 12 ((tagged_clen caplen + 12) % 2 ^ 32)
              (no_slice caplen (length packet) short few),
        )
      ]
