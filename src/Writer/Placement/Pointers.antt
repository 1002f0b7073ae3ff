-- ===== src/Writer/Placement/Pointers.antt =====
-- The numbers in the folders of a Writer (writer.go), as pointers to its files.
use sevenzip.Prelude.{
  get_elem?_middle, Option-cases, ℕ, suc, ◌+◌, ◌≤◌, ◌<◌, ◌≡◌, refl, ap, ◌∙◌, sym, Bool, true, false,
  none, some, List, [], ◌∷◌, ◌++◌, append_assoc, arith, length, length-append, map, All, get_elem?,
  get_elem?_within, if◌then◌else◌, inl, inr,
}
use sevenzip.Writer.State.{ArchiveFile, FolderWriter}
use sevenzip.Writer.Describe.{files_of, gather}
use sevenzip.Writer.Describe.Sized.{FitsHeader, IsDescribable}
use sevenzip.Writer.Layout.{layout, has_stream, streams}
use sevenzip.Writer.Placement.{numbers_in, stream_numbers, map-append}

abbrev pub with_stream : List ArchiveFile → List ArchiveFile
with_stream [] = []
with_stream (fi ∷ files) = let rest = with_stream files in if has_stream fi then fi ∷ rest else rest

module _ (files : List ArchiveFile) where
  files_of-some :
      (i : ℕ) (is : List ℕ) (fi : ArchiveFile)
      → get_elem? files i ≡ some fi
      → files_of files (i ∷ is) ≡ fi ∷ files_of files is
  unfolding files_of
  files_of-some i is fi e = rw (files_of, e) refl

  files_of-none :
      (i : ℕ) (is : List ℕ) → get_elem? files i ≡ none → files_of files (i ∷ is) ≡ files_of files is
  unfolding files_of
  files_of-none i is e = rw (files_of, e) refl

  files_of-append :
      (xs ys : List ℕ) → files_of files (xs ++ ys) ≡ files_of files xs ++ files_of files ys
  unfolding files_of
  files_of-append [] ys = refl
  files_of-append (i ∷ xs) ys = elim (Option-cases (get_elem? files i)) [
    | inl e ↦
        files_of-none i (xs ++ ys) e
        ∙ (files_of-append xs ys ∙ ap (λ t. t ++ files_of files ys) (sym (files_of-none i xs e)))
    | inr (fi, e) ↦
        files_of-some i (xs ++ ys) fi e
        ∙ (ap (λ t. fi ∷ t) (files_of-append xs ys)
            ∙ ap (λ t. t ++ files_of files ys) (sym (files_of-some i xs fi e)))
  ]

  pub gather-files_of :
      (entry : ArchiveFile → ℕ) (folders : List FolderWriter)
      → gather entry files folders ≡ map entry (files_of files (numbers_in (layout folders)))
  unfolding gather files_of
  gather-files_of entry [] = refl
  gather-files_of entry (f ∷ folders) =
      ap (λ t. map entry (files_of files f.files) ++ t) (gather-files_of entry folders)
      ∙ (sym (
            map-append entry (files_of files f.files)
              (files_of files (numbers_in (layout folders))))
          ∙ ap (map entry) (sym (files_of-append f.files (numbers_in (layout folders)))))

  -- Numbers that are good pointers.
  abbrev pub Below : List ℕ → Type 0
  Below is = All (λ i. i < length files) is

  length-files_of : (is : List ℕ) → Below is → length (files_of files is) ≡ length is
  unfolding files_of
  length-files_of [] h = refl
  length-files_of (i ∷ is) (hi, h) =
      let (a, e) = get_elem?_within files i hi in
      ap length (files_of-some i is a e) ∙ ap suc (length-files_of is h)

  Below-split : (xs ys : List ℕ) → Below (xs ++ ys) → Below xs × Below ys
  Below-split [] ys h = (tt, h)
  Below-split (x ∷ xs) ys (hx, h) = let (a, b) = Below-split xs ys h in ((hx, a), b)

  pub folders-IsDescribable :
      (folders : List FolderWriter)
      → All (λ (xs : List ℕ). 0 < length xs) (layout folders)
      → Below (numbers_in (layout folders))
      → All (FitsHeader files) folders
      → All (IsDescribable files) folders
  folders-IsDescribable [] none_empty good fits = tt
  folders-IsDescribable (f ∷ folders) (has, none_empty) good (fits_f, fits) =
      let (good_f, later) = Below-split f.files (numbers_in (layout folders)) good in
      (
        record { has_file = has; pointers = length-files_of f.files good_f; fits = fits_f },
        folders-IsDescribable folders none_empty later fits,
      )

pub stream_numbers-Below :
    (files : List ArchiveFile) (i : ℕ) (bs : List Bool)
    → i + length bs ≤ length files
    → Below files (stream_numbers i bs)
stream_numbers-Below files i [] h = tt
stream_numbers-Below files i (true ∷ bs) h =
    (omega arith, stream_numbers-Below files (suc i) bs (omega arith))
stream_numbers-Below files i (false ∷ bs) h = stream_numbers-Below files (suc i) bs (omega arith)

-- A property of a test, from both its values.
choose {κ} : (b : Bool) (P : Bool → Type κ) → P true → P false → P b
choose true P t f = t
choose false P t f = f

pub files_of-stream_numbers :
    (before after : List ArchiveFile)
    → files_of (before ++ after) (stream_numbers (length before) (streams after))
      ≡ with_stream after
unfolding files_of
files_of-stream_numbers before [] = refl
files_of-stream_numbers before (fi ∷ after) =
    let shift : (before ++ (fi ∷ [])) ++ after ≡ before ++ (fi ∷ after) =
      append_assoc before (fi ∷ []) after in
    let later : files_of (before ++ (fi ∷ after))
          (stream_numbers (suc (length before)) (streams after))
        ≡ with_stream after =
      ap (λ k. files_of (before ++ (fi ∷ after)) (stream_numbers k (streams after)))
        (omega (arith, length-append before (fi ∷ [])))
      ∙ (ap (λ fs. files_of fs (stream_numbers (length (before ++ (fi ∷ []))) (streams after)))
            (sym shift)
          ∙ files_of-stream_numbers (before ++ (fi ∷ [])) after) in
    -- The number of fi is the count of the files before it.
    let first : files_of (before ++ (fi ∷ after))
          (length before ∷ stream_numbers (suc (length before)) (streams after))
        ≡ fi ∷ with_stream after =
      files_of-some (before ++ (fi ∷ after)) (length before) _ fi (get_elem?_middle before fi after)
      ∙ ap (λ t. fi ∷ t) later in
    choose (has_stream fi)
      (λ b.
        files_of (before ++ (fi ∷ after)) (
          if b
          then length before ∷ stream_numbers (suc (length before)) (streams after)
          else stream_numbers (suc (length before)) (streams after))
        ≡ (if b then fi ∷ with_stream after else with_stream after))
      first later
