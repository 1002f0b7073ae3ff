-- ===== src/Reader/Front.antt =====
-- reader.go (Reader.init) up to the header: the start of an archive, and the header or what describes
-- the encoded one, found through it. The file holds the bytes of all volumes; an int64 is written out
-- where it may be negative.
use sevenzip.Prelude.{
  ℕ, ◌+◌, ◌%◌, ◌^◌, ◌||◌, List, [], ◌∷◌, take, drop, ltb, leb, ◌==◌, if◌then◌else◌,
}
use sevenzip.PropertyId
use sevenzip.Stream.{
  Bytes, Grant, Result, ok, err, bind, read_byte, unexpected_id, bad_format, bad_checksum, too_much,
  bad_offset,
}
use sevenzip.Crc.{crc32, crc32_equal, be_bytes4}
use sevenzip.Start.{StartHeader, read_signature_header, read_start_header}
use sevenzip.Files.{Libraries}
use sevenzip.Streams.{StreamsInfo, read_streams_info}
use sevenzip.Header.{Header, read_header}
use sevenzip.Reader.Signature.{find_signature}

-- The loop over the places found: the first one whose startHeader has its checksum. The reader h
-- tees to holds the 20 bytes of the startHeader.
unfoldable pub find_start : Bytes → List ℕ → Result (ℕ × StartHeader)
find_start file [] = err bad_checksum
find_start file (off ∷ offsets) =
    let further = find_start file offsets in
    bind (read_signature_header (drop off file)) λ (sh, rest).
      bind (read_start_header rest) λ (start, after).
        if crc32_equal (be_bytes4 (crc32 (take 20 rest))) sh.crc then ok (off, start) else further

-- sr.Seek(int64(start.Offset), io.SeekCurrent) behind the first 32 bytes of an io.SectionReader that
-- begins at off: the place in the file, and an error before its begin.
unfoldable pub seek_over : (off offset : ℕ) → Result ℕ
seek_over off offset =
    let position = (off + 32 + offset) % 2 ^ 64 in
    if leb (2 ^ 63) position || ltb position off then err bad_offset else ok position

-- The bytes of an io.SectionReader of int64(size) bytes from place `position` on. io.NewSectionReader
-- sets no limit where int64(size) is negative: its test for an overflow fails there.
unfoldable pub section_of : Bytes → (position size : ℕ) → Bytes
section_of file position size =
    if ltb size (2 ^ 63) then take size (drop position file) else drop position file

-- The header, or the streamsInfo of the one that is encoded.
pub data Found : Type 0 where
  plain : Header → Found
  encoded : StreamsInfo → Found

-- What is left of the section is too much.
abbrev all_read {ℓ} : {A : Type ℓ} → (A → Found) → A × Bytes → Result Found
all_read f (a, []) = ok (f a)
all_read f (a, b ∷ rest) = err too_much

unfoldable pub read_found : Libraries → Grant → Bytes → Result Found
read_found lib grant s = bind (read_byte s) λ (id, rest).
    if id == PropertyId.header
    then bind (read_header lib grant rest) (all_read plain)
    else if id == PropertyId.encoded_header
    then bind (read_streams_info grant rest) (all_read encoded)
    else err unexpected_id

-- z.start and z.end, and what stands there.
pub record Front : Type 0 where
  pub start : ℕ
  pub end_of_streams : ℕ
  pub found : Found

unfoldable pub read_front_at : Libraries → Grant → Bytes → ℕ × StartHeader → Result Front
read_front_at lib grant file (off, start) = bind (seek_over off start.offset) λ position.
    let s = section_of file position start.size in
    bind (read_found lib grant s) λ found.
      if crc32_equal (be_bytes4 (crc32 s)) start.crc
      then ok (record { start = off + 32; end_of_streams = position; found = found })
      else err bad_checksum

unfoldable pub read_front : Libraries → Grant → Bytes → Result Front
read_front lib grant file =
    let offsets = find_signature file in
    elim offsets [
      | [] ↦ err bad_format
      | off ∷ more ↦ bind (find_start file (off ∷ more)) (read_front_at lib grant file)
    ]
