-- ===== src/Pack/RoundTrip.antt =====
-- The round trip of readPackInfo (types.go) and writePackInfo (write_struct.go).
use sevenzip.Prelude.{ℕ, ◌≡◌, ◌⊎◌, true, List, [], ◌∷◌, ◌++◌, append_assoc, arith, length, All}
use sevenzip.PropertyId
use sevenzip.Stream.{Bytes, ok, err, uint64_non_zero}
use sevenzip.Number.{IsU64, read_uint64_bounded, check_uint64, write_uint64}
use sevenzip.Number.RoundTrip.{read_uint64-write_uint64}
use sevenzip.Vectors.{IsCount, read_sizes, read_crc, write_sizes}
use sevenzip.Vectors.RoundTrip.{
  check_uint64-IsCount, FitsWidth, read_sizes-write_sizes, read_crc-write_defined,
}
use sevenzip.Sections.{
  Avoids, Avoids-write_section, read_byte-Avoids, section-write_section, write_section, nonempty,
  nonempty-false, finish,
}
use sevenzip.Pack.{PackInfo, read_pack_info, write_pack_info, write_digests}

pub read_uint64_bounded-write_uint64 :
    (v : ℕ) (rest : Bytes)
    → IsCount v
    → read_uint64_bounded true (write_uint64 v ++ rest) ≡ ok (v, rest)
unfolding read_uint64_bounded
read_uint64_bounded-write_uint64 v rest h =
    rw (read_uint64-write_uint64 v rest (omega arith), check_uint64-IsCount v rest h)

-- A packInfo that counts no stream, which the Writer produces for an archive of directories only,
-- is refused by readPackInfo.
read_pack_info_no_streams :
    (p : PackInfo) (rest : Bytes)
    → IsU64 p.position
    → p.streams ≡ 0
    → read_pack_info (write_pack_info p ++ rest) ≡ err uint64_non_zero
unfolding read_pack_info write_pack_info read_uint64_bounded check_uint64
read_pack_info_no_streams p rest hp hs = simp (
  append_assoc,
  read_uint64-write_uint64 p.position _ hp,
  hs,
  read_uint64-write_uint64 0 _ (omega arith),
)

-- A vector that is there only if it has entries, and then as many as counted.
abbrev pub Counted : ℕ → List ℕ → Type 0
Counted count xs = (xs ≡ []) ⊎ (length xs ≡ count)

pub record IsPackInfo (p : PackInfo) : Type 0 where
  pub position_fits : IsU64 p.position
  pub streams_count : IsCount p.streams
  pub size_counted : Counted p.streams p.size
  pub size_fits : All IsU64 p.size
  pub digest_counted : Counted p.streams p.digest
  pub digest_fits : All (FitsWidth 4) p.digest

pub length-Counted :
    (count : ℕ) (xs : List ℕ) → Counted count xs → nonempty xs ≡ true → length xs ≡ count
length-Counted count [] c h = cc
length-Counted count (x ∷ xs) c h = ground arith

pub read_sizes-Counted :
    (count : ℕ) (xs : List ℕ) (rest : Bytes)
    → IsCount count
    → All IsU64 xs
    → length xs ≡ count
    → read_sizes count (write_sizes xs ++ rest) ≡ ok (xs, rest)
read_sizes-Counted count xs rest c h e = rw (← e) (read_sizes-write_sizes xs rest (rw e c) h)

pub read_crc-write_digests :
    (count : ℕ) (xs : List ℕ) (rest : Bytes)
    → IsCount count
    → All (FitsWidth 4) xs
    → length xs ≡ count
    → read_crc count (write_digests xs ++ rest) ≡ ok (xs, rest)
unfolding write_digests
read_crc-write_digests count xs rest c h e = rw (← e) (read_crc-write_defined xs rest (rw e c) h)

-- readPackInfo gives back the packInfo that writePackInfo wrote.
pub read_pack_info-write_pack_info :
    (p : PackInfo) (rest : Bytes)
    → IsPackInfo p
    → read_pack_info (write_pack_info p ++ rest) ≡ ok (p, rest)
unfolding read_pack_info write_pack_info finish
read_pack_info-write_pack_info p rest h = simp (
  append_assoc,
  read_uint64-write_uint64 p.position _ h.position_fits,
  read_uint64_bounded-write_uint64 p.streams _ h.streams_count,
  read_byte-Avoids PropertyId.dummy from_size some_id,
  section-write_section PropertyId.size (nonempty p.size) (write_sizes p.size) from_crc [] p.size
      (read_sizes p.streams) no_size
      (λ e.
        read_sizes-Counted p.streams p.size from_crc h.streams_count h.size_fits
          (length-Counted _ _ h.size_counted e))
      (nonempty-false p.size),
  section-write_section PropertyId.crc (nonempty p.digest) (write_digests p.digest) from_end []
      p.digest (read_crc p.streams) (λ e. omega (arith, e))
      (λ e.
        read_crc-write_digests p.streams p.digest from_end h.streams_count h.digest_fits
          (length-Counted _ _ h.digest_counted e))
      (nonempty-false p.digest),
)
  where
    from_end : Bytes
    from_end = PropertyId.end ∷ rest

    from_crc : Bytes
    from_crc = write_section PropertyId.crc (nonempty p.digest) (write_digests p.digest) ++ from_end

    from_size : Bytes
    from_size = write_section PropertyId.size (nonempty p.size) (write_sizes p.size) ++ from_crc

    no_size : Avoids PropertyId.size from_crc
    no_size =
        Avoids-write_section PropertyId.size PropertyId.crc (nonempty p.digest) _ from_end
          (λ e. omega (arith, e)) (λ e. omega (arith, e))

    some_id : Avoids PropertyId.dummy from_size
    some_id =
        Avoids-write_section PropertyId.dummy PropertyId.size (nonempty p.size) _ from_crc
          (λ e. omega (arith, e))
          (Avoids-write_section PropertyId.dummy PropertyId.crc (nonempty p.digest) _ from_end
            (λ e. omega (arith, e)) (λ e. omega (arith, e)))
