-- ===== src/Unpack/RoundTrip.antt =====
-- The round trip of readUnpackInfo (types.go) and writeUnpackInfo (write_struct.go).
use sevenzip.Prelude.{◌≡◌, refl, List, [], ◌∷◌, ◌++◌, append_assoc, arith, length, All}
use sevenzip.PropertyId
use sevenzip.Stream.{Bytes, Grant, FillsBuffer, ok, read_byte}
use sevenzip.Number.{IsU64}
use sevenzip.Vectors.{IsCount, read_crc, read_numbers, write_sizes}
use sevenzip.Vectors.RoundTrip.{check_uint64-IsCount, read_numbers-write_sizes, FitsWidth}
use sevenzip.Sections.{
  Avoids, Avoids-write_section, read_byte-Avoids, section-write_section, write_section, nonempty,
  nonempty-false, finish,
}
use sevenzip.Pack.{write_digests}
use sevenzip.Pack.RoundTrip.{
  read_uint64_bounded-write_uint64, Counted, length-Counted, read_crc-write_digests,
}
use sevenzip.Folder.{Folder}
use sevenzip.Folder.RoundTrip.{IsFolder, read_folder-write_folder}
use sevenzip.Unpack.{
  UnpackInfo, read_folders, read_folder_sizes, read_unpack_info, write_folders, write_folder_sizes,
  write_unpack_info,
}

-- A folder with one size for each output of its coders.
abbrev pub IsSized : Folder → Type 0
IsSized f = IsFolder f × (length f.size ≡ f.out_streams) × All IsU64 f.size

pub record IsUnpackInfo (u : UnpackInfo) : Type 0 where
  pub folder_count : IsCount (length u.folder)
  pub folder_fits : All IsSized u.folder
  pub digest_counted : Counted (length u.folder) u.digest
  pub digest_fits : All (FitsWidth 4) u.digest

abbrev unsized : List Folder → List Folder
unsized [] = []
unsized (f ∷ fs) = record f { size = [] } ∷ unsized fs

read_folders-write_folders :
    (grant : Grant) (folders : List Folder) (rest : Bytes)
    → FillsBuffer grant
    → All IsSized folders
    → read_folders grant (length folders) (write_folders folders ++ rest)
      ≡ ok (unsized folders, rest)
unfolding read_folders write_folders
read_folders-write_folders grant [] rest fills h = refl
read_folders-write_folders grant (f ∷ fs) rest fills ((hf, counted, fits), h) = simp (
  append_assoc,
  read_folder-write_folder grant f _ fills hf,
  read_folders-write_folders grant fs rest fills h,
)

read_folder_sizes-write_folder_sizes :
    (folders : List Folder) (rest : Bytes)
    → All IsSized folders
    → read_folder_sizes (unsized folders) (write_folder_sizes folders ++ rest) ≡ ok (folders, rest)
unfolding read_folder_sizes write_folder_sizes
read_folder_sizes-write_folder_sizes [] rest h = refl
read_folder_sizes-write_folder_sizes (f ∷ fs) rest ((hf, counted, fits), h) =
    let own : read_numbers f.out_streams (write_sizes f.size ++ (write_folder_sizes fs ++ rest))
        ≡ ok (f.size, write_folder_sizes fs ++ rest) =
      rw counted at (read_numbers-write_sizes f.size (write_folder_sizes fs ++ rest) fits) in
    simp (
      append_assoc,
      hf.out_total,
      check_uint64-IsCount f.out_streams _ hf.out_count,
      own,
      read_folder_sizes-write_folder_sizes fs rest h,
    )

pub read_unpack_info-write_unpack_info :
    (grant : Grant) (u : UnpackInfo) (rest : Bytes)
    → FillsBuffer grant
    → IsUnpackInfo u
    → read_unpack_info grant (write_unpack_info u ++ rest) ≡ ok (u, rest)
unfolding read_unpack_info write_unpack_info finish read_byte
read_unpack_info-write_unpack_info grant u rest fills h = simp (
  append_assoc,
  read_uint64_bounded-write_uint64 (length u.folder) _ h.folder_count,
  read_folders-write_folders grant u.folder _ fills h.folder_fits,
  read_folder_sizes-write_folder_sizes u.folder from_crc h.folder_fits,
  read_byte-Avoids PropertyId.dummy from_crc some_id,
  section-write_section PropertyId.crc (nonempty u.digest) (write_digests u.digest) from_end []
      u.digest (read_crc (length u.folder)) (λ e. omega (arith, e))
      (λ e.
        read_crc-write_digests (length u.folder) u.digest from_end h.folder_count h.digest_fits
          (length-Counted _ _ h.digest_counted e))
      (nonempty-false u.digest),
)
  where
    from_end : Bytes
    from_end = PropertyId.end ∷ rest

    from_crc : Bytes
    from_crc = write_section PropertyId.crc (nonempty u.digest) (write_digests u.digest) ++ from_end

    some_id : Avoids PropertyId.dummy from_crc
    some_id =
        Avoids-write_section PropertyId.dummy PropertyId.crc (nonempty u.digest) _ from_end
          (λ e. omega (arith, e)) (λ e. omega (arith, e))
