-- ===== src/Writer/Placement/Header.antt =====
-- The header that Writer.Close (writer.go) writes after a sequence of calls, and where the reader's
-- FileFolderAndSize (struct.go) finds the files in it.
use sevenzip.Prelude.{
  ℕ, zero, suc, ◌+◌, ◌-◌, ◌≤◌, ◌<◌, ◌≡◌, refl, ap, ◌∙◌, sym, subst, Bool, none, some, List, [], ◌∷◌,
  arith, length, length-map, map, All, get_elem?, get_elem?_within, get_elem?-map, get_elem?-length,
  take, if◌then◌else◌, if_split, option_split, dec_lt,
}
use sevenzip.Stream.{Result, ok, err, bind}
use sevenzip.Number.{max_uint32}
use sevenzip.SubStreams.Sizes.{sum}
use sevenzip.Streams.RoundTrip.{read_back}
use sevenzip.Lookup.{file_folder_and_size}
use sevenzip.Writer.State.{
  Environment, ArchiveFile, FolderWriter, Writer, new_writer, is_concurrent,
}
use sevenzip.Writer.Create.{close_folder}
use sevenzip.Writer.Describe.{files_of, gather, describe_streams}
use sevenzip.Writer.Describe.Sized.{FitsHeader, IsDescribable, file_counts}
use sevenzip.Writer.Describe.Valid.{length-gather}
use sevenzip.Writer.Describe.Lookup.{
  file_folder_and_size-describe_streams, gather_entry, folder_entry,
}
use sevenzip.Writer.Close.{close_solid, await_coordinator, close_streams}
use sevenzip.Writer.Layout.{
  layout, has_stream, streams, SameLayout, same, close_folder-SameLayout, close_file-Keeps, Keeps,
}
use sevenzip.Writer.Placement.{numbers_in, stream_numbers, IsPlaced}
use sevenzip.Writer.Placement.Steps.{Reach, Reach-IsPlaced}
use sevenzip.Writer.Placement.Pointers.{
  Below, with_stream, gather-files_of, folders-IsDescribable, stream_numbers-Below,
  files_of-stream_numbers,
}

-- What Writer.Close keeps of the places of files.
pub record IsStored (w : Writer) : Type 0 where
  pub none_empty : All (λ (xs : List ℕ). 0 < length xs) (layout w.folders)
  pub in_order : numbers_in (layout w.folders) ≡ stream_numbers 0 (streams w.files)

IsStored-SameLayout : {v w : Writer} → SameLayout v w → IsStored v → IsStored w
IsStored-SameLayout h p = record {
  none_empty = rw (h.same_layout) p.none_empty;
  in_order = rw (h.same_layout, h.same_streams) p.in_order;
}

abbrev KeepsStored : Result Writer → Type 0
KeepsStored (ok w) = IsStored w
KeepsStored (err e) = Unit {0}

KeepsStored-bind :
    (u : Writer) (r : Result Writer) (f : Writer → Result Writer)
    → IsStored u
    → Keeps u r
    → ((w : Writer) → IsStored w → KeepsStored (f w))
    → KeepsStored (bind r f)
KeepsStored-bind u (ok w) f p k h = h w (IsStored-SameLayout k p)
KeepsStored-bind u (err e) f p k h = tt

KeepsStored-ok : (r : Result Writer) (w : Writer) → r ≡ ok w → KeepsStored r → IsStored w
KeepsStored-ok (ok v) w e p = let same : v ≡ w = cc in subst IsStored same p
KeepsStored-ok (err x) w e p = cc

module _ (env : Environment) where
  close_solid-IsStored : (w : Writer) → IsStored w → IsStored (close_solid env w)
  unfolding close_solid
  close_solid-IsStored w p =
      option_split IsStored w.active_fold w
        (λ i. if w.solid then record (close_folder env i w) { active_fold = none } else w) (λ e. p)
        λ i e.
          let closed : IsStored (close_folder env i w) =
            IsStored-SameLayout (close_folder-SameLayout env i w) p in
          if_split IsStored w.solid (record (close_folder env i w) { active_fold = none }) w
            (λ s. record { none_empty = closed.none_empty; in_order = closed.in_order }) (λ s. p)

  await_coordinator-IsStored : (w : Writer) → IsStored w → IsStored (await_coordinator env w)
  unfolding await_coordinator
  await_coordinator-IsStored w p =
      if_split IsStored (is_concurrent w) _ w
        (λ c. record { none_empty = p.none_empty; in_order = p.in_order }) (λ c. p)

  close_streams-KeepsStored : (w : Writer) → IsStored w → KeepsStored (close_streams env w)
  unfolding close_streams
  close_streams-KeepsStored w p =
      KeepsStored-bind w _ _ p
        (option_split (Keeps w) w.current _ _ (λ e. same w) (λ h e. close_file-Keeps env h w))
        λ w1 q. await_coordinator-IsStored (close_solid env w1) (close_solid-IsStored w1 q)

  -- The folders of an archive that Close ends, after any sequence of calls.
  pub finished-IsStored :
      (solid encrypted : Bool) (concurrency : ℕ) {u w : Writer}
      → Reach env (new_writer solid encrypted concurrency) u
      → close_streams env u ≡ ok w
      → IsStored w
  finished-IsStored solid encrypted concurrency {u} {w} r e =
      let p : IsPlaced u = Reach-IsPlaced env solid encrypted concurrency r in
      KeepsStored-ok _ w e (
        close_streams-KeepsStored u
          (record { none_empty = p.arranged.none_empty; in_order = p.in_order }))

numbers-Below : (w : Writer) → IsStored w → Below w.files (numbers_in (layout w.folders))
numbers-Below w p = rw (p.in_order) (
    stream_numbers-Below w.files 0 (streams w.files) (omega (arith, length-map w.files has_stream)))

gather-with_stream :
    (w : Writer) (entry : ArchiveFile → ℕ)
    → IsStored w
    → gather entry w.files w.folders ≡ map entry (with_stream w.files)
gather-with_stream w entry p =
    gather-files_of w.files entry w.folders
    ∙ (ap (λ is. map entry (files_of w.files is)) p.in_order
        ∙ ap (map entry) (files_of-stream_numbers [] w.files))

-- The folder of a number, and its place there.
find_count :
    (counts : List ℕ) (k : ℕ)
    → k < sum counts
    → (i : ℕ) × (n : ℕ) × (r : ℕ) × (get_elem? counts i ≡ some n)
      × (r < n)
      × (sum (take i counts) + r ≡ k)
find_count [] k h = absurd (omega arith)
find_count (n ∷ counts) k h = elim (dec_lt k n) [
  | yes inside ↦ (0, n, k, refl, inside, omega arith)
  | no outside ↦
      let (i, m, r, e, lt, number) = find_count counts (k - n) (omega arith) in
      (suc i, m, r, e, lt, omega (arith, number))
]

find_map {ℓ κ} :
    {A : Type ℓ} {B : Type κ} (f : A → B) (xs : List A) (i : ℕ) (b : B)
    → get_elem? (map f xs) i ≡ some b
    → (a : A) × (get_elem? xs i ≡ some a) × (f a ≡ b)
find_map f [] i b e = cc
find_map f (x ∷ xs) zero b e = (x, refl, cc)
find_map f (x ∷ xs) (suc i) b e = find_map f xs i b e

module _ (w : Writer) (p : IsStored w) (fits : All (FitsHeader w.files) w.folders)
    (few : sum (file_counts w.folders) ≤ max_uint32) (k : ℕ) (fi : ArchiveFile)
    (is_file : get_elem? (with_stream w.files) k ≡ some fi) where
  folders_valid : All (IsDescribable w.files) w.folders
  folders_valid = folders-IsDescribable w.files w.folders p.none_empty (numbers-Below w p) fits

  entry_k :
      (entry : ArchiveFile → ℕ) → get_elem? (gather entry w.files w.folders) k ≡ some (entry fi)
  entry_k entry =
      ap (λ (t : List ℕ). get_elem? t k) (gather-with_stream w entry p)
      ∙ get_elem?-map entry (with_stream w.files) k fi is_file

  in_some_folder : k < sum (file_counts w.folders)
  in_some_folder = omega (
    arith,
    length-gather w.files (λ fi. fi.crc) w.folders folders_valid,
    get_elem?-length (gather (λ fi. fi.crc) w.files w.folders) k fi.crc (entry_k (λ fi. fi.crc)),
  )

  same_entry :
      (entry : ArchiveFile → ℕ) (i r : ℕ) (f : FolderWriter) (found : ArchiveFile)
      → get_elem? w.folders i ≡ some f
      → get_elem? (files_of w.files f.files) r ≡ some found
      → sum (take i (file_counts w.folders)) + r ≡ k
      → entry found ≡ entry fi
  same_entry entry i r f found in_archive in_folder number =
      let e : get_elem? (gather entry w.files w.folders) k ≡ some (entry found) =
        gather_entry w.files entry w.folders i r k f found folders_valid in_archive in_folder
          (sym number) in
      let e' : get_elem? (gather entry w.files w.folders) k ≡ some (entry fi) = entry_k entry in cc

  found_in_folder :
      (i : ℕ) × (file_folder_and_size (read_back (describe_streams w.files w.folders)) k
        ≡ ok (i, fi.uncomp_size, fi.crc))
  found_in_folder =
      let (i, n, r, counted, lt, number) = find_count (file_counts w.folders) k in_some_folder in
      let (f, in_archive, size) =
        find_map (λ (f : FolderWriter). length f.files) w.folders i n counted in
      let valid : IsDescribable w.files f =
        folder_entry w.files w.folders i f in_archive folders_valid in
      let (found, in_folder) =
        get_elem?_within (files_of w.files f.files) r (omega (arith, valid.pointers, size, lt)) in
      let same_size : found.uncomp_size ≡ fi.uncomp_size =
        same_entry (λ fi. fi.uncomp_size) i r f found in_archive in_folder number in
      let same_crc : found.crc ≡ fi.crc =
        same_entry (λ fi. fi.crc) i r f found in_archive in_folder number in
      (
        i,
        ap (λ j. file_folder_and_size (read_back (describe_streams w.files w.folders)) j)
              (sym number)
            ∙ (file_folder_and_size-describe_streams w.files w.folders i r f found folders_valid few
                  in_archive in_folder
                ∙ (ap (λ s. ok (i, s, found.crc)) same_size
                    ∙ ap (λ c. ok (i, fi.uncomp_size, c)) same_crc)),
      )

-- After any sequence of CreateHeader, Write and Close of files on a new Writer, and Close of the
-- Writer up to its header: the subStreamsInfo of the header has an entry for each file with a stream,
-- in the order of the files, whatever the folders are.
pub gather_finished :
    (env : Environment) (solid encrypted : Bool) (concurrency : ℕ) {u w : Writer}
    (entry : ArchiveFile → ℕ)
    → Reach env (new_writer solid encrypted concurrency) u
    → close_streams env u ≡ ok w
    → gather entry w.files w.folders ≡ map entry (with_stream w.files)
gather_finished env solid encrypted concurrency {u} {w} entry r e =
    gather-with_stream w entry (finished-IsStored env solid encrypted concurrency r e)

-- In that header FileFolderAndSize gives for the k-th file with a stream a folder, and the size and
-- the CRC32 that the Writer entered for that very file, where the sizes, counts and checksums fit
-- their fields.
pub file_folder_and_size_finished :
    (env : Environment) (solid encrypted : Bool) (concurrency : ℕ) {u w : Writer} (k : ℕ)
    (fi : ArchiveFile)
    → Reach env (new_writer solid encrypted concurrency) u
    → close_streams env u ≡ ok w
    → All (FitsHeader w.files) w.folders
    → sum (file_counts w.folders) ≤ max_uint32
    → get_elem? (with_stream w.files) k ≡ some fi
    → (i : ℕ) × (file_folder_and_size (read_back (describe_streams w.files w.folders)) k
        ≡ ok (i, fi.uncomp_size, fi.crc))
file_folder_and_size_finished env solid encrypted concurrency {u} {w} k fi r e fits few is_file =
    found_in_folder w (finished-IsStored env solid encrypted concurrency r e) fits few k fi is_file
