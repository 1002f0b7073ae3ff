-- ===== src/Writer/Describe/Lookup.antt =====
-- FileFolderAndSize (struct.go) in a header that Writer.Close (writer.go) wrote: the reader's way back
-- from the number of a file to its folder, its size and its checksum.
use sevenzip.Prelude.{
  get_elem?_append_left, get_elem?_append_right, get_elem?-map, get_elem?-length, ℕ, zero, suc, ◌+◌,
  ◌-◌, ◌%◌, ◌^◌, ◌≤◌, ◌<◌, ◌≡◌, refl, ap, ◌∙◌, true, false, some, List, [], ◌∷◌, arith, length,
  length-map, map, All, get_elem?, take, inl, inr, Bool-cases, ltb, lt→ltb, dec_lt, ◌==◌,
}
use sevenzip.Stream.{ok}
use sevenzip.Number.{max_uint32}
use sevenzip.Sections.{nonempty, length-nonempty}
use sevenzip.SubStreams.{SubStreamsInfo, has_size}
use sevenzip.SubStreams.Sizes.{sum}
use sevenzip.SubStreams.RoundTrip.{read_back_size}
use sevenzip.Streams.RoundTrip.{read_back, sub_back}
use sevenzip.Lookup.{at, locate, sub_stream_of, whole_folder, file_folder_and_size}
use sevenzip.Writer.State.{ArchiveFile, FolderWriter}
use sevenzip.Writer.Describe.{files_of, total_size, describe_folder, gather, describe_streams}
use sevenzip.Writer.Describe.Sized.{IsDescribable, file_counts, sizes_of, unpacked-sum}

-- The loop of FileFolderAndSize on the number of the r-th file of folder i.
locate_entry :
    (streams : List ℕ) (start total file i r n : ℕ) (found : ℕ × ℕ)
    → total + sum streams < 2 ^ 64
    → get_elem? streams i ≡ some n
    → r < n
    → file ≡ total + sum (take i streams) + r
    → locate streams start total file found ≡ (start + i, n)
unfolding locate
locate_entry [] start total file i r n found fits e lt number = cc
locate_entry (m ∷ streams) start total file zero r n found fits e lt number =
    let same : m ≡ n = cc in
    let sum_fits : (total + m) % 2 ^ 64 ≡ total + m = omega arith in
    rw (sum_fits, lt→ltb file (total + m) (omega arith), same) (ap (λ k. (k, n)) (omega arith))
locate_entry (m ∷ streams) start total file (suc i) r n found fits e lt number =
    let sum_fits : (total + m) % 2 ^ 64 ≡ total + m = omega arith in
    let further : ltb file (total + m) ≡ false = ground arith in
    rw (sum_fits, further)
      (locate_entry streams (start + 1) (total + m) file i r n (start, m) (omega arith) e lt
          (omega arith)
        ∙ ap (λ k. (k, n)) (omega arith))

module _ (files : List ArchiveFile) where
  pub gather_entry :
      (entry : ArchiveFile → ℕ) (folders : List FolderWriter) (i r file : ℕ) (f : FolderWriter)
      (fi : ArchiveFile)
      → All (IsDescribable files) folders
      → get_elem? folders i ≡ some f
      → get_elem? (files_of files f.files) r ≡ some fi
      → file ≡ sum (take i (file_counts folders)) + r
      → get_elem? (gather entry files folders) file ≡ some (entry fi)
  unfolding gather
  gather_entry entry [] i r file f fi h e in_folder number = cc
  gather_entry entry (g ∷ folders) zero r file f fi h e in_folder number =
      let same : g ≡ f = cc in
      let number_here : file ≡ r = omega (arith, number) in
      let here : get_elem? (files_of files g.files) file ≡ some fi =
        rw (same, number_here) in_folder in
      get_elem?_append_left (map entry (files_of files g.files)) _ file (entry fi)
        (get_elem?-map entry (files_of files g.files) file fi here)
  gather_entry entry (g ∷ folders) (suc i) r file f fi (valid, h) e in_folder number =
      get_elem?_append_right (map entry (files_of files g.files)) _
        (sum (take i (file_counts folders)) + r) file
        (omega (arith, number, length-map (files_of files g.files) entry, valid.pointers))
      ∙ gather_entry entry folders i r _ f fi h e in_folder refl

  pub folder_entry :
      (folders : List FolderWriter) (i : ℕ) (f : FolderWriter)
      → get_elem? folders i ≡ some f
      → All (IsDescribable files) folders
      → IsDescribable files f
  folder_entry [] i f e h = cc
  folder_entry (g ∷ folders) zero f e (valid, h) = let same : g ≡ f = cc in rw (← same) valid
  folder_entry (g ∷ folders) (suc i) f e (valid, h) = folder_entry folders i f e h

  counts_entry :
      (folders : List FolderWriter) (i : ℕ) (f : FolderWriter)
      → get_elem? folders i ≡ some f
      → get_elem? (file_counts folders) i ≡ some (length f.files)
  counts_entry folders i f e = get_elem?-map (λ g. length g.files) folders i f e

  -- A folder with more than one file makes writeSubStreamsInfo write the sizes.
  has_size-count :
      (streams : List ℕ) (i n : ℕ) → get_elem? streams i ≡ some n → 1 < n → has_size streams ≡ true
  unfolding has_size
  has_size-count [] i n e lt = cc
  has_size-count (m ∷ streams) zero n e lt = let same : m ≡ n = cc in rw (same, lt→ltb 1 n lt) refl
  has_size-count (m ∷ streams) (suc i) n e lt =
      let rest : has_size streams ≡ true = has_size-count streams i n e lt in ground arith

module _ (files : List ArchiveFile) (f : FolderWriter) (fi : ArchiveFile) where
  -- The last coder of a folder of one file unpacks to that file.
  last_size :
      IsDescribable files f
      → files_of files f.files ≡ fi ∷ []
      → at (describe_folder files f).size (length (describe_folder files f).coder - 1)
        ≡ ok fi.uncomp_size
  unfolding describe_folder
  last_size valid one =
      let size : total_size 0 (files_of files f.files) ≡ fi.uncomp_size =
        unpacked-sum files f valid ∙ ap (λ t. sum (sizes_of t)) one ∙ omega arith in
      elim (Bool-cases f.is_encrypted) [ inl e ↦ rw (e, size) refl | inr e ↦ rw (e, size) refl ]

only_entry {ℓ} :
    {A : Type ℓ} (xs : List A) (i : ℕ) (a : A)
    → length xs ≡ 1
    → get_elem? xs i ≡ some a
    → xs ≡ a ∷ []
only_entry [] i a one e = cc
only_entry (x ∷ []) zero a one e = let same : x ≡ a = cc in rw same refl
only_entry (x ∷ []) (suc i) a one e = cc
only_entry (x ∷ y ∷ xs) i a one e = absurd (omega (arith, one))

at_entry {ℓ} : {A : Type ℓ} (xs : List A) (i : ℕ) (a : A) → get_elem? xs i ≡ some a → at xs i ≡ ok a
at_entry xs i a e = rw (at, e) refl

module _ (files : List ArchiveFile) (folders : List FolderWriter) (i r : ℕ) (f : FolderWriter)
    (fi : ArchiveFile) (valid : All (IsDescribable files) folders)
    (few : sum (file_counts folders) ≤ max_uint32) (in_archive : get_elem? folders i ≡ some f)
    (in_folder : get_elem? (files_of files f.files) r ≡ some fi) where
  abbrev number : ℕ
  number = sum (take i (file_counts folders)) + r

  folder_IsDescribable : IsDescribable files f
  folder_IsDescribable = folder_entry files folders i f in_archive valid

  located : locate (file_counts folders) 0 0 number (0, 1) ≡ (i, length f.files)
  located =
      locate_entry (file_counts folders) 0 0 number i r (length f.files) (0, 1) (omega arith)
        (counts_entry files folders i f in_archive)
        (omega (
          arith,
          get_elem?-length (files_of files f.files) r fi in_folder,
          folder_IsDescribable.pointers,
        ))
        (omega arith)
      ∙ ap (λ k. (k, length f.files)) (omega arith)

  file_entry :
      (entry : ArchiveFile → ℕ) → get_elem? (gather entry files folders) number ≡ some (entry fi)
  file_entry entry =
      gather_entry files entry folders i r number f fi valid in_archive in_folder refl

  entries : (entry : ArchiveFile → ℕ) → nonempty (gather entry files folders) ≡ true
  entries entry =
      length-nonempty _ (omega (arith, get_elem?-length _ number (entry fi) (file_entry entry)))

  checksum : at (gather (λ fi. fi.crc) files folders) number ≡ ok fi.crc
  checksum = at_entry _ number fi.crc (file_entry (λ fi. fi.crc))

  size : at (gather (λ fi. fi.uncomp_size) files folders) number ≡ ok fi.uncomp_size
  size = at_entry _ number fi.uncomp_size (file_entry (λ fi. fi.uncomp_size))

  abbrev sub : SubStreamsInfo
  sub = record {
    streams = file_counts folders;
    size = gather (λ fi. fi.uncomp_size) files folders;
    digest = gather (λ fi. fi.crc) files folders;
  }

  sizes_written : 1 < length f.files → at (read_back_size sub) number ≡ ok fi.uncomp_size
  unfolding read_back_size
  sizes_written many =
      rw
        (
          entries (λ fi. fi.uncomp_size),
          has_size-count files (file_counts folders) i (length f.files)
              (counts_entry files folders i f in_archive) many,
        )
        size

  whole :
      length (files_of files f.files) ≡ 1
      → whole_folder
          (some (record { folder = map (describe_folder files) folders; digest = [] }))
          i
          fi.crc
        ≡ ok (i, fi.uncomp_size, fi.crc)
  unfolding whole_folder
  whole one =
      let here : at (map (describe_folder files) folders) i ≡ ok (describe_folder files f) =
        at_entry _ i _ (get_elem?-map (describe_folder files) folders i f in_archive) in
      rw (here, last_size files f fi folder_IsDescribable (only_entry _ r fi one in_folder)) refl

  -- In the header of an archive that Writer.Close wrote, FileFolderAndSize takes the number of the
  -- r-th file of folder i to that folder, and to the size and the CRC32 that the writer kept for that
  -- file, where each folder has a file and the sizes, counts and checksums fit their fields.
  pub file_folder_and_size-describe_streams :
      file_folder_and_size (read_back (describe_streams files folders)) number
      ≡ ok (i, fi.uncomp_size, fi.crc)
  unfolding file_folder_and_size sub_stream_of describe_streams sub_back
  file_folder_and_size-describe_streams =
      rw (located, entries (λ fi. fi.crc), checksum)
        (elim (dec_lt 1 (length f.files)) [
          | yes many ↦
              let test : (length f.files == 1) ≡ false = ground arith in
              rw (test, sizes_written many) refl
          | no few_files ↦
              let one : length f.files ≡ 1 = omega (arith, folder_IsDescribable.has_file) in
              rw one (whole (omega (arith, one, folder_IsDescribable.pointers)))
        ])
