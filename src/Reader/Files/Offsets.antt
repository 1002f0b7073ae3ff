-- ===== src/Reader/Files/Offsets.antt =====
-- The offsets that Reader.init (reader.go) gives the files.
use sevenzip.Prelude.{
  dec_lt, ==_iff, ℕ, zero, suc, ◌+◌, ◌%◌, ◌^◌, ◌≤◌, ◌<◌, ◌≡◌, refl, ap, ◌∙◌, sym, subst, true,
  false, ◌&&◌, Option, some, List, [], ◌∷◌, ◌++◌, append_assoc, append-nil, arith, get_elem?, take,
  ◌==◌, if◌then◌else◌, if_split,
}
use sevenzip.Stream.{Result, ok, err, bind}
use sevenzip.Files.{FileHeader}
use sevenzip.Streams.{StreamsInfo}
use sevenzip.Reader.Files.{File, locate_file, with_slash, has_data, place_files}

-- The sizes of the files of a folder.
abbrev pub size_in : ℕ → List File → ℕ
size_in folder [] = 0
size_in folder (f ∷ files) =
    let rest = size_in folder files in
    if has_data f.header && f.folder == folder then f.header.uncompressed_size + rest else rest

abbrev pub size_of : List FileHeader → ℕ
size_of [] = 0
size_of (fh ∷ fhs) = fh.uncompressed_size + size_of fhs

-- The folders of the files with a stream do not descend, from `folder` on.
abbrev pub IsAscending : ℕ → List File → Type 0
IsAscending folder [] = Unit {0}
IsAscending folder (f ∷ files) =
    if has_data f.header
    then (folder ≤ f.folder) × IsAscending f.folder files
    else IsAscending folder files

size_in-append :
    (folder : ℕ) (xs ys : List File)
    → size_in folder (xs ++ ys) ≡ size_in folder xs + size_in folder ys
size_in-append folder [] ys = omega arith
size_in-append folder (x ∷ xs) ys = ground (arith, size_in-append folder xs ys)

-- Each file with a stream begins behind those of its folder that stand before it.
abbrev Begins : List File → List File → Type 0
Begins before [] = Unit {0}
Begins before (f ∷ files) =
    (has_data f.header ≡ true → f.offset ≡ size_in f.folder before)
    × Begins (before ++ (f ∷ [])) files

-- Where the loop is: the files of the last folder end at the offset, and no later folder has any.
abbrev Behind : (folder offset : ℕ) → List File → Type 0
Behind folder offset before =
    (size_in folder before ≡ offset) × ((later : ℕ) → folder < later → size_in later before ≡ 0)

abbrev BeginsOk : List File → ℕ → Result (List File) → Type 0
BeginsOk before folder (ok files) = IsAscending folder files → Begins before files
BeginsOk before folder (err e) = Unit {0}

IsAscending-data :
    (folder : ℕ) (f : File) (files : List File)
    → has_data f.header ≡ true
    → IsAscending folder (f ∷ files)
    → (folder ≤ f.folder) × IsAscending f.folder files
IsAscending-data folder f files e h =
    subst
      (λ b.
        if b then (folder ≤ f.folder) × IsAscending f.folder files else IsAscending folder files)
      e h

IsAscending-none :
    (folder : ℕ) (f : File) (files : List File)
    → has_data f.header ≡ false
    → IsAscending folder (f ∷ files)
    → IsAscending folder files
IsAscending-none folder f files e h =
    subst
      (λ b.
        if b then (folder ≤ f.folder) × IsAscending f.folder files else IsAscending folder files)
      e h

size_in_none :
    (folder : ℕ) (before : List File) (f : File)
    → has_data f.header ≡ false
    → size_in folder (before ++ (f ∷ [])) ≡ size_in folder before
size_in_none folder before f e =
    let one : size_in folder (f ∷ []) ≡ 0 = ground arith in
    omega (arith, size_in-append folder before (f ∷ []), one)

size_in_other :
    (folder : ℕ) (before : List File) (f : File)
    → f.folder < folder
    → size_in folder (before ++ (f ∷ [])) ≡ size_in folder before
size_in_other folder before f lt =
    let one : size_in folder (f ∷ []) ≡ 0 = ground arith in
    omega (arith, size_in-append folder before (f ∷ []), one)

size_in_own :
    (before : List File) (f : File)
    → has_data f.header ≡ true
    → size_in f.folder (before ++ (f ∷ [])) ≡ size_in f.folder before + f.header.uncompressed_size
size_in_own before f e =
    let one : size_in f.folder (f ∷ []) ≡ f.header.uncompressed_size = ground arith in
    omega (arith, size_in-append f.folder before (f ∷ []), one)

has_data-with_slash : (fh : FileHeader) → has_data (with_slash fh) ≡ has_data fh
unfolding with_slash
has_data-with_slash fh =
    if_split (λ (g : FileHeader). has_data g ≡ has_data fh) _ _ _ (λ e. refl) (λ e. refl)

size-with_slash : (fh : FileHeader) → (with_slash fh).uncompressed_size ≡ fh.uncompressed_size
unfolding with_slash
size-with_slash fh =
    if_split (λ (g : FileHeader). g.uncompressed_size ≡ fh.uncompressed_size) _ _ _ (λ e. refl)
      (λ e. refl)

bind_split {ℓ κ μ} :
    {A : Type ℓ} {B : Type κ} (P : Result B → Type μ) (r : Result A) (f : A → Result B)
    → ((e : _) → P (err e))
    → ((a : A) → r ≡ ok a → P (f a))
    → P (bind r f)
bind_split P (ok a) f he ha = ha a refl
bind_split P (err e) f he ha = he e

true-false : true ≡ false → ⊥
true-false e = cc

-- The file after those before, in its own folder or a later one.
Behind-next :
    (folder offset : ℕ) (before : List File) (f : File)
    → Behind folder offset before
    → has_data f.header ≡ true
    → folder ≤ f.folder
    → f.offset ≡ (if f.folder == folder then offset else 0)
    → (f.offset ≡ size_in f.folder before)
      × Behind f.folder (f.offset + f.header.uncompressed_size) (before ++ (f ∷ []))
Behind-next folder offset before f (here, later) e le placed =
    let begins : f.offset ≡ size_in f.folder before = elim (dec_lt folder f.folder) [
      | yes lt ↦
          let other : (f.folder == folder) ≡ false = ground arith in
          placed ∙ (ap (λ b. if b then offset else 0) other ∙ sym (later f.folder lt))
      | no le' ↦
          let same : f.folder ≡ folder = omega arith in
          let test : (f.folder == folder) ≡ true = (==_iff f.folder folder).1 same in
          placed
          ∙ (ap (λ b. if b then offset else 0) test
              ∙ (sym here ∙ ap (λ n. size_in n before) (sym same)))
    ] in
    (
      begins,
      (
        size_in_own before f e ∙ ap (λ n. n + f.header.uncompressed_size) (sym begins),
        λ n lt. size_in_other n before f lt ∙ later n (omega arith),
      ),
    )

place_files-BeginsOk :
    (si : Option StreamsInfo) (before : List File) (folder offset j : ℕ) (fhs : List FileHeader)
    → Behind folder offset before
    → offset + size_of fhs < 2 ^ 64
    → BeginsOk before folder (place_files si folder offset j fhs)
unfolding place_files
place_files-BeginsOk si before folder offset j [] behind fits = λ h. tt
place_files-BeginsOk si before folder offset j (fh ∷ fhs) behind fits =
    if_split (BeginsOk before folder) (has_data fh) _ _
      (λ has.
        bind_split (BeginsOk before folder) (locate_file si j) _ (λ e. tt)
          λ found located.
            let (g, size, crc) = found in
            let first : ℕ = if g == folder then offset else 0 in
            let x : File = record {
              header = record (with_slash fh) { stream = g };
              folder = g;
              offset = first;
            } in
            bind_split (BeginsOk before folder)
              (place_files si g ((first + fh.uncompressed_size) % 2 ^ 64) (suc j) fhs) _ (λ e. tt)
              λ files placed ascending.
                let has_x : has_data x.header ≡ true = has_data-with_slash fh ∙ has in
                let (le, rest) = IsAscending-data folder x files has_x ascending in
                let (begins, next) = Behind-next folder offset before x behind has_x le refl in
                let small : first ≤ offset =
                  if_split (λ n. n ≤ offset) (g == folder) _ _ (λ e. omega arith)
                    (λ e. omega arith) in
                let kept : (first + fh.uncompressed_size) % 2 ^ 64
                    ≡ first + (with_slash fh).uncompressed_size =
                  omega (arith, size-with_slash fh) in
                let later : BeginsOk (before ++ (x ∷ [])) g (ok files) =
                  subst (BeginsOk (before ++ (x ∷ [])) g) placed (
                    place_files-BeginsOk si (before ++ (x ∷ [])) g
                      ((first + fh.uncompressed_size) % 2 ^ 64) (suc j) fhs
                      (next.0 ∙ sym kept, next.1) (omega (arith, kept, size-with_slash fh))) in
                (λ e. begins, later rest))
      (λ none.
        bind_split (BeginsOk before folder) (place_files si folder offset j fhs) _ (λ e. tt)
          λ files placed ascending.
            let x : File = record { header = with_slash fh; folder = 0; offset = 0 } in
            let has_x : has_data x.header ≡ false = has_data-with_slash fh ∙ none in
            let later : BeginsOk (before ++ (x ∷ [])) folder (ok files) =
              subst (BeginsOk (before ++ (x ∷ [])) folder) placed (
                place_files-BeginsOk si (before ++ (x ∷ [])) folder offset j fhs
                  (
                    size_in_none folder before x has_x ∙ behind.0,
                    λ n lt. size_in_none n before x has_x ∙ behind.1 n lt,
                  )
                  (omega arith)) in
            (
              λ e. absurd (true-false (sym e ∙ has_x)),
              later (IsAscending-none folder x files has_x ascending),
            ))

Begins-entry :
    (before files : List File) (k : ℕ) (f : File)
    → Begins before files
    → get_elem? files k ≡ some f
    → has_data f.header ≡ true
    → f.offset ≡ size_in f.folder (before ++ take k files)
Begins-entry before [] k f h e has = cc
Begins-entry before (g ∷ files) zero f (here, later) e has =
    let same : g ≡ f = cc in
    subst (λ (x : File). has_data x.header ≡ true → x.offset ≡ size_in x.folder before) same here
      has
    ∙ ap (size_in f.folder) (sym (append-nil before))
Begins-entry before (g ∷ files) (suc k) f (here, later) e has =
    Begins-entry (before ++ (g ∷ [])) files k f later e has
    ∙ ap (size_in f.folder) (append_assoc before (g ∷ []) (take k files))

-- Where the folders of the files with a stream do not descend, and all sizes together are below 2^64,
-- the offset of a file is the sum of the sizes of those files before it that are in its folder.
pub place_files-size_in :
    (si : Option StreamsInfo) (fhs : List FileHeader) (files : List File) (k : ℕ) (f : File)
    → size_of fhs < 2 ^ 64
    → place_files si 0 0 0 fhs ≡ ok files
    → IsAscending 0 files
    → get_elem? files k ≡ some f
    → has_data f.header ≡ true
    → f.offset ≡ size_in f.folder (take k files)
place_files-size_in si fhs files k f fits e ascending is_file has =
    let begins : BeginsOk [] 0 (ok files) =
      subst (BeginsOk [] 0) e
        (place_files-BeginsOk si [] 0 0 0 fhs (refl, λ n lt. refl) (omega arith)) in
    Begins-entry [] files k f (begins ascending) is_file has
