-- ===== src/Reader/Listing/Pages.antt =====
-- openDir.ReadDir (reader.go): a directory handed out in pages. A count of 0 stands for one that is
-- not positive.
use sevenzip.Prelude.{
  ℕ, zero, suc, ◌+◌, ◌-◌, ◌<◌, ◌≤◌, ◌≡◌, refl, ◌∙◌, ap, true, false, ◌&&◌, Option, none, some, List,
  [], ◌∷◌, ◌++◌, length, take, drop, All, ltb, ◌==◌, ==_iff, Bool-cases, inl, inr, arith,
  if◌then◌else◌,
}
use sevenzip.Prelude.Slices.{drop-drop, drop_all, take-drop-append}
use sevenzip.Reader.Listing.{FileListEntry}

pub record OpenDir : Type 0 where
  pub files : List FileListEntry
  pub offset : ℕ

pub data Listed : Type 0 where
  listed : List FileListEntry → Listed
  end_of_dir duplicate : Listed

-- stat of each entry, the first error first.
unfoldable pub stat_all : List FileListEntry → Option (List FileListEntry)
stat_all [] = some []
stat_all (e ∷ es) =
    let rest : Option (List FileListEntry) = elim (stat_all es) [
      | none ↦ none
      | some l ↦ some (e ∷ l)
    ] in
    if e.is_dup then none else rest

-- How many entries the next page has.
unfoldable pub page_size : ℕ → OpenDir → ℕ
page_size count d =
    let n = length d.files - d.offset in if ltb 0 count && ltb count n then count else n

-- From `list := make` on.
unfoldable pub page : OpenDir → ℕ → Option (List FileListEntry) → Listed × OpenDir
page d n none = (duplicate, d)
page d n (some l) = (listed l, record d { offset = d.offset + n })

unfoldable pub read_dir : ℕ → OpenDir → Listed × OpenDir
read_dir count d =
    let n = page_size count d in
    if n == 0
    then if count == 0 then (listed [], d) else (end_of_dir, d)
    else page d n (stat_all (take n (drop d.offset d.files)))

-- What a call lists goes before what the next calls list.
unfoldable pub after_page : List FileListEntry × Listed → Listed → List FileListEntry × Listed
after_page rest (listed l) = (l ++ rest.0, rest.1)
after_page rest end_of_dir = ([], end_of_dir)
after_page rest duplicate = ([], duplicate)

-- Calls with one count until a call does not list, with so many allowed.
unfoldable pub read_pages : (calls count : ℕ) → OpenDir → List FileListEntry × Listed
read_pages zero count d = ([], listed [])
read_pages (suc calls) count d =
    let r = read_dir count d in after_page (read_pages calls count r.1) r.0

stat_all_lem : (es : List FileListEntry) → All (λ e. e.is_dup ≡ false) es → stat_all es ≡ some es
unfolding stat_all
stat_all_lem [] h = refl
stat_all_lem (e ∷ es) h = simp (h.0, stat_all_lem es h.1)

All-drop :
    (P : FileListEntry → Type 0) (n : ℕ) (es : List FileListEntry) → All P es → All P (drop n es)
All-drop P zero es h = h
All-drop P (suc n) [] h = h
All-drop P (suc n) (e ∷ es) h = All-drop P n es h.1

All-take :
    (P : FileListEntry → Type 0) (n : ℕ) (es : List FileListEntry) → All P es → All P (take n es)
All-take P zero es h = tt
All-take P (suc n) [] h = h
All-take P (suc n) (e ∷ es) h = (h.0, All-take P n es h.1)

page_size_bounds :
    (count : ℕ) (d : OpenDir)
    → (page_size count d ≤ length d.files - d.offset)
      × (0 < count → page_size count d ≡ 0 → length d.files ≤ d.offset)
unfolding page_size
page_size_bounds count d = (ground arith, (λ h e. ground arith))

read_dir_last :
    (count : ℕ) (d : OpenDir)
    → 0 < count
    → (page_size count d == 0) ≡ true
    → read_dir count d ≡ (end_of_dir, d)
unfolding read_dir
read_dir_last count d h e =
    let positive : (count == 0) ≡ false = ground arith in rw (e, positive) refl

read_dir_page :
    (count : ℕ) (d : OpenDir)
    → All (λ e. e.is_dup ≡ false) d.files
    → (page_size count d == 0) ≡ false
    → read_dir count d ≡ (
      listed (take (page_size count d) (drop d.offset d.files)),
      record d { offset = d.offset + page_size count d },
    )
unfolding read_dir page
read_dir_page count d single e =
    let shown =
      All-take (λ x. x.is_dup ≡ false) (page_size count d) (drop d.offset d.files)
        (All-drop (λ x. x.is_dup ≡ false) d.offset d.files single) in
    rw (e, stat_all_lem (take (page_size count d) (drop d.offset d.files)) shown) refl

-- Pages of any size that is not 0 give the rest of the directory, every entry once and in order, and
-- then io.EOF, if no entry is a duplicate. A call more than there are entries left is enough.
pub read_pages-drop :
    (calls count : ℕ) (d : OpenDir)
    → All (λ e. e.is_dup ≡ false) d.files
    → d.offset ≤ length d.files
    → 0 < count
    → length d.files < d.offset + calls
    → read_pages calls count d ≡ (drop d.offset d.files, end_of_dir)
unfolding read_pages after_page
read_pages-drop zero count d single within some_count enough = absurd (omega arith)
read_pages-drop (suc calls) count d single within some_count enough =
    let n = page_size count d in
    let bounds = page_size_bounds count d in
    elim (Bool-cases (n == 0)) [
      | inl e ↦
          let done : drop d.offset d.files ≡ [] =
            drop_all d.offset d.files (bounds.1 some_count ((==_iff n 0).0 e)) in
          ap (λ (r : Listed × OpenDir). after_page (read_pages calls count r.1) r.0)
            (read_dir_last count d some_count e)
          ∙ (rw done refl)
      | inr e ↦
          let d' : OpenDir = record d { offset = d.offset + n } in
          let positive : 0 < n = ground arith in
          let rest = read_pages-drop calls count d' single (omega arith) some_count (omega arith) in
          let split = take-drop-append n (drop d.offset d.files) in
          ap (λ (r : Listed × OpenDir). after_page (read_pages calls count r.1) r.0)
            (read_dir_page count d single e)
          ∙ (rw (rest, ← drop-drop d.offset n d.files, split) refl)
    ]
