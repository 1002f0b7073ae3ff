-- ===== src/SubStreams/RoundTrip.antt =====
-- The round trip of readSubStreamsInfo (types.go) and writeSubStreamsInfo (write_struct.go).
use sevenzip.Prelude.{
  ℕ, ◌≤◌, ◌≡◌, ◌≢◌, refl, ap, ◌∙◌, true, false, not, ◌&&◌, List, [], ◌∷◌, ◌++◌, append_assoc, arith,
  length, replicate, All, if◌then◌else◌,
}
use sevenzip.PropertyId
use sevenzip.Stream.{Bytes, ok}
use sevenzip.Number.{IsU64, max_uint32}
use sevenzip.Vectors.{read_crc, read_numbers, write_sizes}
use sevenzip.Vectors.RoundTrip.{check_uint64-le, read_numbers-write_sizes, FitsWidth}
use sevenzip.Sections.{
  Avoids, Avoids-write_section, read_byte-Avoids, section-write_section, write_section, nonempty,
  nonempty-false, nonempty-length, finish, section, first, others,
}
use sevenzip.Pack.{write_digests}
use sevenzip.Pack.RoundTrip.{Counted, length-Counted, read_crc-write_digests}
use sevenzip.Folder.{Folder, total_from}
use sevenzip.SubStreams.{
  SubStreamsInfo, fill_sizes, read_sub_streams_info, all_one, has_size, write_sub_sizes,
  write_sub_streams_info,
}
use sevenzip.SubStreams.Sizes.{
  sum, total_from-sum, Splits, fill_sizes-write_sub_sizes, length-Splits,
}

-- What the reader has for s.size: nothing where no folder has two files, since no size is written.
unfoldable pub read_back_size : SubStreamsInfo → List ℕ
read_back_size s = if nonempty s.size && has_size s.streams then s.size else []

pub record IsSubStreamsInfo (folders : List Folder) (s : SubStreamsInfo) : Type 0 where
  pub streams_counted : length s.streams ≡ length folders
  pub streams_fit : All IsU64 s.streams
  pub files_fit : sum s.streams ≤ max_uint32
  pub sizes_split : has_size s.streams ≡ true → Splits folders s.streams s.size
  pub digest_counted : Counted (sum s.streams) s.digest
  pub digest_fits : All (FitsWidth 4) s.digest

all_one-replicate :
    (streams : List ℕ) → all_one streams ≡ true → streams ≡ replicate (length streams) 1
unfolding all_one
all_one-replicate [] h = refl
all_one-replicate (n ∷ streams) h =
    let one : n ≡ 1 = ground arith in
    rw one (ap (λ t. 1 ∷ t) (all_one-replicate streams (ground arith)))

-- Where the counts are not written they are what the reader takes for granted.
counts_default :
    (streams : List ℕ) (n : ℕ)
    → length streams ≡ n
    → (nonempty streams && not (all_one streams)) ≡ false
    → streams ≡ replicate n 1
counts_default [] n e h = rw (← e)
counts_default (k ∷ streams) n e h = rw (← e) (all_one-replicate (k ∷ streams) (ground arith))

present_size :
    (s : SubStreamsInfo)
    → (nonempty s.size && has_size s.streams) ≡ true
    → has_size s.streams ≡ true
present_size s h = ground arith

-- The sections of a subStreamsInfo, each with what follows it.
module _ (s : SubStreamsInfo) (rest : Bytes) where
  from_end : Bytes
  from_end = PropertyId.end ∷ rest

  from_crc : Bytes
  from_crc = write_section PropertyId.crc (nonempty s.digest) (write_digests s.digest) ++ from_end

  from_size : Bytes
  from_size =
      write_section PropertyId.size (nonempty s.size && has_size s.streams)
        (write_sub_sizes s.streams s.size)
      ++ from_crc

  from_streams : Bytes
  from_streams =
      write_section PropertyId.num_unpack_stream (nonempty s.streams && not (all_one s.streams))
        (write_sizes s.streams)
      ++ from_size

  crc-Avoids : (tag : ℕ) → PropertyId.crc ≢ tag → PropertyId.end ≢ tag → Avoids tag from_crc
  unfolding from_crc from_end
  crc-Avoids tag nc ne =
      Avoids-write_section tag PropertyId.crc (nonempty s.digest) (write_digests s.digest) from_end
        nc ne

  size-Avoids :
      (tag : ℕ)
      → PropertyId.size ≢ tag
      → PropertyId.crc ≢ tag
      → PropertyId.end ≢ tag
      → Avoids tag from_size
  unfolding from_size
  size-Avoids tag ns nc ne =
      Avoids-write_section tag PropertyId.size (nonempty s.size && has_size s.streams)
        (write_sub_sizes s.streams s.size) from_crc ns (crc-Avoids tag nc ne)

  streams-Avoids : Avoids PropertyId.dummy from_streams
  unfolding from_streams
  streams-Avoids =
      Avoids-write_section PropertyId.dummy PropertyId.num_unpack_stream _ (write_sizes s.streams)
        from_size (λ e. omega (arith, e))
        (size-Avoids PropertyId.dummy (λ e. omega (arith, e)) (λ e. omega (arith, e))
          (λ e. omega (arith, e)))

  written_sections : write_sub_streams_info s ++ rest ≡ from_streams
  unfolding write_sub_streams_info from_streams from_size from_crc from_end
  written_sections = simp append_assoc

  module _ (folders : List Folder) (h : IsSubStreamsInfo folders s) where
    streams_part :
        section PropertyId.num_unpack_stream
          (replicate (length folders) 1)
          (read_numbers (length folders))
          (first from_streams)
          (others from_streams)
        ≡ ok ((s.streams, first from_size), others from_size)
    unfolding from_streams
    streams_part =
        section-write_section PropertyId.num_unpack_stream
          (nonempty s.streams && not (all_one s.streams)) (write_sizes s.streams) from_size
          (replicate (length folders) 1) s.streams (read_numbers (length folders))
          (size-Avoids _ (λ e. omega (arith, e)) (λ e. omega (arith, e)) (λ e. omega (arith, e)))
          (λ _.
            rw h.streams_counted at (read_numbers-write_sizes s.streams from_size h.streams_fit))
          (counts_default s.streams (length folders) h.streams_counted)

    files_total : total_from 0 s.streams ≡ sum s.streams
    files_total = total_from-sum 0 s.streams (omega (arith, h.files_fit)) ∙ omega arith

    size_part :
        section PropertyId.size []
          (fill_sizes folders s.streams (sum s.streams))
          (first from_size)
          (others from_size)
        ≡ ok ((read_back_size s, first from_crc), others from_crc)
    unfolding from_size read_back_size
    size_part =
        section-write_section PropertyId.size (nonempty s.size && has_size s.streams)
          (write_sub_sizes s.streams s.size) from_crc []
          (if nonempty s.size && has_size s.streams then s.size else [])
          (fill_sizes folders s.streams (sum s.streams))
          (crc-Avoids _ (λ e. omega (arith, e)) (λ e. omega (arith, e)))
          (λ e.
            let splits = h.sizes_split (present_size s e) in
            rw e (
              fill_sizes-write_sub_sizes folders s.streams s.size (sum s.streams) from_crc splits
                (length-Splits folders s.streams s.size splits)))
          (λ e. rw e)

    crc_part :
        section PropertyId.crc [] (read_crc (sum s.streams)) (first from_crc) (others from_crc)
        ≡ ok ((s.digest, PropertyId.end), rest)
    unfolding from_crc from_end
    crc_part =
        section-write_section PropertyId.crc (nonempty s.digest) (write_digests s.digest) from_end
          [] s.digest (read_crc (sum s.streams)) (λ e. omega (arith, e))
          (λ e.
            let counted = length-Counted _ _ h.digest_counted e in
            read_crc-write_digests (sum s.streams) s.digest from_end
              (omega (arith, counted, nonempty-length s.digest e), h.files_fit) h.digest_fits
              counted)
          (nonempty-false s.digest)

-- readSubStreamsInfo gives back the counts, the digests and, where some folder has two files or more,
-- the sizes that writeSubStreamsInfo was given, the last size of each folder included. Where no folder
-- has two files no size is written, and none comes back.
pub read_sub_streams_info-write_sub_streams_info :
    (folders : List Folder) (s : SubStreamsInfo) (rest : Bytes)
    → IsSubStreamsInfo folders s
    → read_sub_streams_info folders (write_sub_streams_info s ++ rest)
      ≡ ok (record s { size = read_back_size s }, rest)
unfolding read_sub_streams_info finish
read_sub_streams_info-write_sub_streams_info folders s rest h = rw (written_sections s rest) (
    simp (
      read_byte-Avoids PropertyId.dummy (from_streams s rest) (streams-Avoids s rest),
      streams_part s rest folders h,
      files_total s rest folders h,
      check_uint64-le (sum s.streams) (others (from_size s rest)) h.files_fit,
      size_part s rest folders h,
      crc_part s rest folders h,
    ))
