-- ===== src/SubStreams.antt =====
-- struct.go (subStreamsInfo), types.go (readSubStreamsInfo) and write_struct.go
-- (writeSubStreamsInfo): how many files each folder holds, their sizes and their checksums.
pub mod Sizes
pub mod RoundTrip
pub mod Overflow
use sevenzip.Prelude.{
  ℕ, zero, suc, ◌+◌, ◌-◌, ◌%◌, ◌^◌, Bool, true, false, not, ◌&&◌, ◌||◌, List, [], ◌∷◌, ◌++◌, length,
  replicate, ltb, ◌==◌, if◌then◌else◌,
}
use sevenzip.PropertyId
use sevenzip.Stream.{Parser, Bytes, ◌>>=◌, ◌>>◌, pure, fail, read_byte, panic}
use sevenzip.Number.{check_uint64, read_uint64, write_uint64}
use sevenzip.Vectors.{read_numbers, read_crc, write_sizes}
use sevenzip.Sections.{section, finish, write_section, nonempty}
use sevenzip.Pack.{write_digests}
use sevenzip.Folder.{Folder, total_from, unpack_size}

pub record SubStreamsInfo : Type 0 where
  pub streams : List ℕ
  pub size : List ℕ
  pub digest : List ℕ

-- The inner loop over the files of one folder but the last, with `room` entries of s.size left. An
-- assignment out of range panics, whatever the read gives. The result has the sizes and their sum.
unfoldable pub read_parts : (n room total : ℕ) → Parser (List ℕ × ℕ)
read_parts zero room total = pure ([], total)
read_parts (suc n) zero total = fail panic
read_parts (suc n) (suc room) total = do
  size ← read_uint64
  (sizes, sum) ← read_parts n room ((total + size) % 2 ^ 64)
  pure (size ∷ sizes, sum)

-- `s.size[k] = folder[i].unpackSize() - total` and the folders after it.
unfoldable pub last_part : (room unpacked total : ℕ) → (ℕ → Parser (List ℕ)) → Parser (List ℕ)
last_part zero unpacked total later = fail panic
last_part (suc room) unpacked total later = do
  sizes ← later room
  pure ((unpacked + 2 ^ 64 - total) % 2 ^ 64 ∷ sizes)

-- The outer loop. What is never assigned stays 0.
unfoldable pub fill_sizes : List Folder → List ℕ → (room : ℕ) → Parser (List ℕ)
fill_sizes (f ∷ fs) (zero ∷ streams) room = fill_sizes fs streams room
fill_sizes (f ∷ fs) (suc n ∷ streams) room = do
  (parts, total) ← read_parts n room 0
  rest ← last_part (room - n) (unpack_size f) total (fill_sizes fs streams)
  pure (parts ++ rest)
fill_sizes _ _ room = pure (replicate room 0)

unfoldable pub read_sub_streams_info : List Folder → Parser SubStreamsInfo
read_sub_streams_info folder = do
  id ← read_byte
  (streams, id_after_streams) ←
      section PropertyId.num_unpack_stream (replicate (length folder) 1)
        (read_numbers (length folder)) id
  let files = total_from 0 streams
  check_uint64 files false
  (size, id_after_size) ←
      section PropertyId.size [] (fill_sizes folder streams files) id_after_streams
  (digest, id_after_crc) ← section PropertyId.crc [] (read_crc files) id_after_size
  finish id_after_crc (record { streams = streams; size = size; digest = digest })

unfoldable pub all_one : List ℕ → Bool
all_one [] = true
all_one (count ∷ streams) = count == 1 && all_one streams

unfoldable pub has_size : List ℕ → Bool
has_size [] = false
has_size (count ∷ streams) = ltb 1 count || has_size streams

-- The sizes of n files of a folder, and what the code then does with the sizes after them.
unfoldable pub write_parts : ℕ → (List ℕ → Bytes) → List ℕ → Bytes
write_parts zero later [] = []
write_parts zero later (skipped ∷ sizes) = later sizes
write_parts (suc n) later [] = []
write_parts (suc n) later (size ∷ sizes) = write_uint64 size ++ write_parts n later sizes

-- Each folder's sizes but the last. Out of sizes, where the code would panic, nothing is written.
unfoldable pub write_sub_sizes : List ℕ → List ℕ → Bytes
write_sub_sizes [] sizes = []
write_sub_sizes (zero ∷ streams) sizes = write_sub_sizes streams sizes
write_sub_sizes (suc n ∷ streams) sizes = write_parts n (write_sub_sizes streams) sizes

unfoldable pub write_sub_streams_info : SubStreamsInfo → Bytes
write_sub_streams_info s =
    write_section PropertyId.num_unpack_stream (nonempty s.streams && not (all_one s.streams))
      (write_sizes s.streams)
    ++ (write_section PropertyId.size (nonempty s.size && has_size s.streams)
          (write_sub_sizes s.streams s.size)
        ++ (write_section PropertyId.crc (nonempty s.digest) (write_digests s.digest)
            ++ (PropertyId.end ∷ [])))
