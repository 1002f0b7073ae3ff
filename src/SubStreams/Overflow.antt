-- ===== src/SubStreams/Overflow.antt =====
-- Counts of files whose sum wraps around 2 ^ 64, in readSubStreamsInfo (types.go).
use sevenzip.Prelude.{
  ℕ, zero, suc, ◌+◌, ◌≤◌, ◌<◌, ◌≡◌, refl, List, [], ◌∷◌, ◌++◌, append_assoc, arith, length, All,
}
use sevenzip.PropertyId
use sevenzip.Stream.{Bytes, err, panic, read_byte}
use sevenzip.Number.{IsU64, max_uint32}
use sevenzip.Number.RoundTrip.{read_uint64-write_uint64}
use sevenzip.Vectors.{write_sizes}
use sevenzip.Vectors.RoundTrip.{check_uint64-le, read_numbers-write_sizes}
use sevenzip.Sections.{section}
use sevenzip.Folder.{Folder, total_from}
use sevenzip.SubStreams.{read_parts, fill_sizes, read_sub_streams_info}
use sevenzip.Prelude.{◌%◌, ◌^◌}

-- With fewer entries than sizes to read the loop runs off the end of s.size.
read_parts_panic :
    (parts : List ℕ) (n total : ℕ) (rest : Bytes)
    → All IsU64 parts
    → length parts < n
    → read_parts n (length parts) total (write_sizes parts ++ rest) ≡ err panic
unfolding read_parts write_sizes
read_parts_panic parts zero total rest h lt = elim lt [ ]
read_parts_panic [] (suc n) total rest h lt = refl
read_parts_panic (x ∷ parts) (suc n) total rest (hx, h) lt = simp (
  append_assoc,
  read_uint64-write_uint64 x _ hx,
  read_parts_panic parts n ((total + x) % 2 ^ 64) rest h (omega arith),
)

-- The counts are uint64s that sum, modulo 2 ^ 64, to no more than checkUint64 allows; but the first
-- folder claims more files than that. readSubStreamsInfo passes its checks, reads as many sizes as it
-- made room for, and then panics.
pub read_sub_streams_info_panic :
    (f : Folder) (folders : List Folder) (n : ℕ) (streams parts : List ℕ) (rest : Bytes)
    → length streams ≡ length folders
    → All IsU64 (suc n ∷ streams)
    → All IsU64 parts
    → total_from 0 (suc n ∷ streams) ≡ length parts
    → length parts ≤ max_uint32
    → length parts < n
    → read_sub_streams_info (f ∷ folders) (
        PropertyId.num_unpack_stream
        ∷ (write_sizes (suc n ∷ streams) ++ (PropertyId.size ∷ (write_sizes parts ++ rest))))
      ≡ err panic
unfolding read_sub_streams_info section read_byte fill_sizes
read_sub_streams_info_panic f folders n streams parts rest counted fit parts_fit total allowed
      more =
    let counts =
      read_numbers-write_sizes (suc n ∷ streams) (PropertyId.size ∷ (write_sizes parts ++ rest))
        fit in
    rw (← counted) (
      simp (
        counts,
        total,
        check_uint64-le (length parts) _ allowed,
        read_parts_panic parts n 0 rest parts_fit more,
      ))
