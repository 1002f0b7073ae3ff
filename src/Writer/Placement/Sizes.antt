-- ===== src/Writer/Placement/Sizes.antt =====
-- The loop at the end of readHeader (types.go) on the header that Writer.Close (writer.go) writes.
use sevenzip.Prelude.{
  get_elem?_middle, not, subst, ℕ, suc, ◌+◌, ◌≤◌, ◌≡◌, refl, ap, ◌∙◌, sym, Bool, true, false, List,
  [], ◌∷◌, ◌++◌, append_assoc, arith, length, length-append, All, map, get_elem?, if◌then◌else◌,
  some, if_split,
}
use sevenzip.Stream.{Result, ok, bind}
use sevenzip.Number.{max_uint32}
use sevenzip.Files.{FileHeader}
use sevenzip.SubStreams.Sizes.{sum}
use sevenzip.Streams.{StreamsInfo}
use sevenzip.Streams.RoundTrip.{read_back}
use sevenzip.Lookup.{file_folder_and_size}
use sevenzip.Header.{size_files}
use sevenzip.Writer.State.{Environment, ArchiveFile, Writer, new_writer}
use sevenzip.Writer.Describe.{describe_streams}
use sevenzip.Writer.Describe.Sized.{FitsHeader, file_counts}
use sevenzip.Writer.Close.{close_streams}
use sevenzip.Writer.Placement.Steps.{Reach}
use sevenzip.Writer.Placement.Pointers.{with_stream}
use sevenzip.Writer.Placement.Header.{file_folder_and_size_finished}

-- The FileHeader that the reader is to give for a file.
abbrev pub sized : ArchiveFile → FileHeader
sized fi =
    if fi.fh.is_empty_stream
    then fi.fh
    else record fi.fh { uncompressed_size = fi.uncomp_size; crc32 = fi.crc }

with_stream-append :
    (xs ys : List ArchiveFile) → with_stream (xs ++ ys) ≡ with_stream xs ++ with_stream ys
with_stream-append [] ys = refl
with_stream-append (x ∷ xs) ys = ground (arith, with_stream-append xs ys)

with_stream_none :
    (fi : ArchiveFile) (files : List ArchiveFile)
    → fi.fh.is_empty_stream ≡ true
    → with_stream (fi ∷ files) ≡ with_stream files
with_stream_none fi files e =
    ap (λ b. if not b then fi ∷ with_stream files else with_stream files) e

with_stream_some :
    (fi : ArchiveFile) (files : List ArchiveFile)
    → fi.fh.is_empty_stream ≡ false
    → with_stream (fi ∷ files) ≡ fi ∷ with_stream files
with_stream_some fi files e =
    ap (λ b. if not b then fi ∷ with_stream files else with_stream files) e

sized_empty : (fi : ArchiveFile) → fi.fh.is_empty_stream ≡ true → sized fi ≡ fi.fh
sized_empty fi e =
    ap
      (λ b.
        if b then fi.fh else record fi.fh { uncompressed_size = fi.uncomp_size; crc32 = fi.crc })
      e

sized_stream :
    (fi : ArchiveFile)
    → fi.fh.is_empty_stream ≡ false
    → sized fi ≡ record fi.fh { uncompressed_size = fi.uncomp_size; crc32 = fi.crc }
sized_stream fi e =
    ap
      (λ b.
        if b then fi.fh else record fi.fh { uncompressed_size = fi.uncomp_size; crc32 = fi.crc })
      e

-- The streams describe the k-th of these files.
abbrev Describes : StreamsInfo → List ArchiveFile → Type 0
Describes si files =
    (k : ℕ) (fi : ArchiveFile)
    → get_elem? (with_stream files) k ≡ some fi
    → (i : ℕ) × (file_folder_and_size si k ≡ ok (i, fi.uncomp_size, fi.crc))

size_files-Describes :
    (si : StreamsInfo) (before after : List ArchiveFile) (j : ℕ)
    → j ≡ length (with_stream before)
    → Describes si (before ++ after)
    → size_files si j (map (λ fi. fi.fh) after) ≡ ok (map sized after)
unfolding size_files
size_files-Describes si before [] j e h = refl
size_files-Describes si before (fi ∷ after) j e h =
    let shift : (before ++ (fi ∷ [])) ++ after ≡ before ++ (fi ∷ after) =
      append_assoc before (fi ∷ []) after in
    let shifted : Describes si ((before ++ (fi ∷ [])) ++ after) =
      subst (Describes si) (sym shift) h in
    let total : length (with_stream (before ++ (fi ∷ [])))
        ≡ length (with_stream before) + length (with_stream (fi ∷ [])) =
      ap length (with_stream-append before (fi ∷ []))
      ∙ length-append (with_stream before) (with_stream (fi ∷ [])) in
    if_split (λ (r : Result (List FileHeader)). r ≡ ok (sized fi ∷ map sized after))
      fi.fh.is_empty_stream _ _
      (λ empty.
        let counted : length (with_stream (fi ∷ [])) ≡ 0 =
          ap length (with_stream_none fi [] empty) in
        let later : size_files si j (map (λ fi. fi.fh) after) ≡ ok (map sized after) =
          size_files-Describes si (before ++ (fi ∷ [])) after j (omega (arith, e, total, counted))
            shifted in
        ap (λ r. bind r (λ fs. ok (fi.fh ∷ fs))) later
        ∙ ap (λ f. ok (f ∷ map sized after)) (sym (sized_empty fi empty)))
      (λ has.
        let counted : length (with_stream (fi ∷ [])) ≡ 1 = ap length (with_stream_some fi [] has) in
        let later : size_files si (suc j) (map (λ fi. fi.fh) after) ≡ ok (map sized after) =
          size_files-Describes si (before ++ (fi ∷ [])) after (suc j)
            (omega (arith, e, total, counted)) shifted in
        let here : get_elem? (with_stream (before ++ (fi ∷ after))) j ≡ some fi =
          ap (λ (t : List ArchiveFile). get_elem? t j)
            (with_stream-append before (fi ∷ after)
              ∙ ap (λ t. with_stream before ++ t) (with_stream_some fi after has))
          ∙ (ap (get_elem? (with_stream before ++ (fi ∷ with_stream after))) e
              ∙ get_elem?_middle (with_stream before) fi (with_stream after)) in
        let (i, found) = h j fi here in
        ap
          (λ r. bind r (λ (x : ℕ × ℕ × ℕ).
            bind (size_files si (suc j) (map (λ fi. fi.fh) after))
              (λ fs. ok (record fi.fh { uncompressed_size = x.1; crc32 = x.2 } ∷ fs))))
          found
        ∙ (ap
              (λ r. bind r (λ fs.
                ok (record fi.fh { uncompressed_size = fi.uncomp_size; crc32 = fi.crc } ∷ fs)))
              later
            ∙ ap (λ f. ok (f ∷ map sized after)) (sym (sized_stream fi has))))

-- After any sequence of CreateHeader, Write and Close of files on a new Writer, and Close of the
-- Writer, readHeader's last loop over the streamsInfo that Close writes, as it is read back, fills in
-- each file's size and CRC32 as the Writer entered them, and leaves the files without a stream as they
-- are; where the sizes, counts and checksums fit their fields.
pub size_files_finished :
    (env : Environment) (solid encrypted : Bool) (concurrency : ℕ) {u w : Writer}
    → Reach env (new_writer solid encrypted concurrency) u
    → close_streams env u ≡ ok w
    → All (FitsHeader w.files) w.folders
    → sum (file_counts w.folders) ≤ max_uint32
    → size_files (read_back (describe_streams w.files w.folders)) 0 (map (λ fi. fi.fh) w.files)
      ≡ ok (map sized w.files)
size_files_finished env solid encrypted concurrency {u} {w} r e fits few =
    size_files-Describes (read_back (describe_streams w.files w.folders)) [] w.files 0 refl
      λ k fi has.
        file_folder_and_size_finished env solid encrypted concurrency k fi r e fits few has
