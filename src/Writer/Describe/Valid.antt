-- ===== src/Writer/Describe/Valid.antt =====
-- The streamsInfo that Writer.Close (writer.go) builds, as readStreamsInfo wants it.
use sevenzip.Prelude.{
  ℕ, zero, suc, ◌+◌, ◌^◌, ◌≤◌, ◌<◌, ◌≡◌, refl, ap, ◌∙◌, sym, List, [], ◌∷◌, ◌++◌, append_assoc,
  arith, length, length-append, length-map, map, All, inl, inr,
}
use sevenzip.Stream.{Bytes, Grant, FillsBuffer, ok}
use sevenzip.Number.{IsU64, max_uint32}
use sevenzip.Vectors.{IsCount}
use sevenzip.Vectors.RoundTrip.{FitsWidth}
use sevenzip.Folder.{Folder, unpack_size}
use sevenzip.Unpack.RoundTrip.{IsSized}
use sevenzip.SubStreams.Sizes.{sum, Splits}
use sevenzip.Streams.{read_streams_info, write_streams_info}
use sevenzip.Streams.RoundTrip.{IsStreamsInfo, read_back, read_streams_info-write_streams_info}
use sevenzip.Writer.State.{ArchiveFile, FolderWriter}
use sevenzip.Writer.Describe.{files_of, describe_folder, gather, describe_streams}
use sevenzip.Writer.Describe.Sized.{
  sizes_of, IsDescribable, file_counts, unpack_size-describe_folder, describe_folder-IsSized,
}

-- The sizes of the files of a folder: those that are written, and the last one, which is not.
split_last :
    (xs : List ℕ) (n : ℕ)
    → length xs ≡ suc n
    → (parts : List ℕ) × (last : ℕ) × (xs ≡ parts ++ (last ∷ []))
      × (length parts ≡ n)
      × (sum parts + last ≡ sum xs)
split_last [] n h = absurd (omega (arith, h))
split_last (x ∷ []) n h = ([], x, refl, omega (arith, h), omega arith)
split_last (x ∷ y ∷ xs) zero h = absurd (omega (arith, h))
split_last (x ∷ y ∷ xs) (suc n) h =
    let (parts, last, split, counted, adds) = split_last (y ∷ xs) n (omega (arith, h)) in
    (x ∷ parts, last, ap (λ t. x ∷ t) split, ap suc counted, omega (arith, adds))

All-IsU64-sum : (xs : List ℕ) → sum xs < 2 ^ 64 → All IsU64 xs
All-IsU64-sum [] h = tt
All-IsU64-sum (x ∷ xs) h = (omega arith, All-IsU64-sum xs (omega arith))

Splits-append :
    (f : Folder) (fs : List Folder) (streams xs later : List ℕ)
    → 0 < length xs
    → sum xs < 2 ^ 64
    → unpack_size f ≡ sum xs
    → Splits fs streams later
    → Splits (f ∷ fs) (length xs ∷ streams) (xs ++ later)
Splits-append f fs streams [] later has fits adds h = absurd (omega arith)
Splits-append f fs streams (x ∷ xs) later has fits adds h =
    let (parts, last, split, counted, total) = split_last (x ∷ xs) (length xs) refl in
    (
      parts,
      last,
      later,
      ap (λ t. t ++ later) split ∙ append_assoc parts (last ∷ []) later,
      counted,
      All-IsU64-sum parts (omega (arith, total)),
      total ∙ sym adds,
      omega (arith, adds),
      h,
    )

All-append {ℓ κ} :
    {A : Type ℓ} (P : A → Type κ) (xs ys : List A) → All P xs → All P ys → All P (xs ++ ys)
All-append P [] ys hx hy = hy
All-append P (x ∷ xs) ys (h, hx) hy = (h, All-append P xs ys hx hy)

All-map :
    (P : ℕ → Type 0) (entry : ArchiveFile → ℕ) (xs : List ArchiveFile)
    → All (λ fi. P (entry fi)) xs
    → All P (map entry xs)
All-map P entry [] h = tt
All-map P entry (x ∷ xs) (h, hs) = (h, All-map P entry xs hs)

module _ (files : List ArchiveFile) where
  Splits-gather :
      (folders : List FolderWriter)
      → All (IsDescribable files) folders
      → Splits
          (map (describe_folder files) folders)
          (file_counts folders)
          (gather (λ fi. fi.uncomp_size) files folders)
  unfolding gather
  Splits-gather [] h = refl
  Splits-gather (f ∷ folders) (valid, h) =
      let sizes : List ℕ = sizes_of (files_of files f.files) in
      let counted : length sizes ≡ length f.files =
        length-map (files_of files f.files) (λ fi. fi.uncomp_size) ∙ valid.pointers in
      rw (← counted) (
        Splits-append (describe_folder files f) (map (describe_folder files) folders)
          (file_counts folders) sizes (gather (λ fi. fi.uncomp_size) files folders)
          (omega (arith, counted, valid.has_file)) valid.fits.unpacked_fits
          (unpack_size-describe_folder files f valid) (Splits-gather folders h))

  pub length-gather :
      (entry : ArchiveFile → ℕ) (folders : List FolderWriter)
      → All (IsDescribable files) folders
      → length (gather entry files folders) ≡ sum (file_counts folders)
  unfolding gather
  length-gather entry [] h = refl
  length-gather entry (f ∷ folders) (valid, h) = omega (
    arith,
    length-append (map entry (files_of files f.files)) (gather entry files folders),
    length-map (files_of files f.files) entry,
    valid.pointers,
    length-gather entry folders h,
  )

  gather_checksums-FitsWidth :
      (folders : List FolderWriter)
      → All (IsDescribable files) folders
      → All (FitsWidth 4) (gather (λ fi. fi.crc) files folders)
  unfolding gather
  gather_checksums-FitsWidth [] h = tt
  gather_checksums-FitsWidth (f ∷ folders) (valid, h) =
      All-append (FitsWidth 4) (map (λ fi. fi.crc) (files_of files f.files)) _
        (All-map (FitsWidth 4) (λ fi. fi.crc) (files_of files f.files) valid.fits.checksums_fit)
        (gather_checksums-FitsWidth folders h)

  folders-IsSized :
      (folders : List FolderWriter)
      → All (IsDescribable files) folders
      → All IsSized (map (describe_folder files) folders)
  folders-IsSized [] h = tt
  folders-IsSized (f ∷ folders) (valid, h) =
      (describe_folder-IsSized files f valid, folders-IsSized folders h)

  packed-IsU64 :
      (folders : List FolderWriter)
      → All (IsDescribable files) folders
      → All IsU64 (map (λ f. f.comp_count) folders)
  packed-IsU64 [] h = tt
  packed-IsU64 (f ∷ folders) (valid, h) = (valid.fits.packed_fits, packed-IsU64 folders h)

  counts-IsU64 :
      (folders : List FolderWriter)
      → sum (file_counts folders) ≤ max_uint32
      → All IsU64 (file_counts folders)
  counts-IsU64 [] h = tt
  counts-IsU64 (f ∷ folders) h = (omega arith, counts-IsU64 folders (omega arith))

  pub describe_streams-IsStreamsInfo :
      (folders : List FolderWriter)
      → All (IsDescribable files) folders
      → IsCount (length folders)
      → sum (file_counts folders) ≤ max_uint32
      → IsStreamsInfo (describe_streams files folders)
  unfolding describe_streams
  describe_streams-IsStreamsInfo folders h counted few =
      let same : length (map (describe_folder files) folders) ≡ length folders =
        length-map folders (describe_folder files) in
      record {
        pack_fits = record {
          position_fits = omega arith;
          streams_count = counted;
          size_counted = inr (length-map folders (λ f. f.comp_count));
          size_fits = packed-IsU64 folders h;
          digest_counted = inl refl;
          digest_fits = tt;
        };
        unpack_fits = record {
          folder_count = rw same counted;
          folder_fits = folders-IsSized folders h;
          digest_counted = inl refl;
          digest_fits = tt;
        };
        sub_fits = record {
          streams_counted = length-map folders (λ f. length f.files) ∙ sym same;
          streams_fit = counts-IsU64 folders few;
          files_fit = few;
          sizes_split = λ e. Splits-gather folders h;
          digest_counted = inr (length-gather (λ fi. fi.crc) folders h);
          digest_fits = gather_checksums-FitsWidth folders h;
        };
      }

-- readStreamsInfo gives back what Writer.Close writes of its folders and files, from a reader that fills
-- its buffers, where each folder has a file and the sizes, counts and checksums fit their fields. The
-- sizes of the files come back where some folder has two files or more; where every folder has one, the
-- writer leaves them out.
pub read_streams_info-describe_streams :
    (grant : Grant) (files : List ArchiveFile) (folders : List FolderWriter) (rest : Bytes)
    → FillsBuffer grant
    → All (IsDescribable files) folders
    → IsCount (length folders)
    → sum (file_counts folders) ≤ max_uint32
    → read_streams_info grant (write_streams_info (describe_streams files folders) ++ rest)
      ≡ ok (read_back (describe_streams files folders), rest)
read_streams_info-describe_streams grant files folders rest fills h counted few =
    read_streams_info-write_streams_info grant (describe_streams files folders) rest fills
      (describe_streams-IsStreamsInfo files folders h counted few)
