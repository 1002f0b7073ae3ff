-- ===== src/Writer/Placement.antt =====
-- Where CreateHeader (writer.go) places files: the numbers in the folders and the files with a stream.
pub mod Open
pub mod Enter
pub mod Steps
pub mod Pointers
pub mod Header
pub mod NoStream
pub mod Sizes
use sevenzip.Prelude.{
  subst, if_split, option_split, ℕ, zero, suc, ◌+◌, ◌≤◌, ◌<◌, ◌≡◌, refl, ap, ◌∙◌, sym, Bool, true,
  false, not, Option, none, some, List, [], ◌∷◌, ◌++◌, append_assoc, append-nil, arith, length,
  length-append, length-map, map, All, get_elem?, modify, if◌then◌else◌, Bool-cases, Option-cases,
  inl, inr,
}
use sevenzip.Stream.{Bytes, Result, ok, err, bind}
use sevenzip.Files.{FileHeader}
use sevenzip.Writer.State.{Environment, ArchiveFile, FolderWriter, FileWriter, Writer, new_writer}
use sevenzip.Writer.Create.{
  close_active, close_current, modify_folder, new_folder, open_folder, add_to_folder, add_writer,
  place_file, close_file, write_file, create_header,
}
use sevenzip.Writer.Layout.{
  layout, has_stream, streams, SameLayout, same, then_same, Keeps, close_file-Keeps,
  write_file-Keeps, close_current-Keeps, close_active-SameLayout,
}

-- The file numbers of all folders.
abbrev pub numbers_in : List (List ℕ) → List ℕ
numbers_in [] = []
numbers_in (xs ∷ xss) = xs ++ numbers_in xss

-- The numbers of the files with a stream, from number i on.
abbrev pub stream_numbers : ℕ → List Bool → List ℕ
stream_numbers i [] = []
stream_numbers i (b ∷ bs) = let rest = stream_numbers (suc i) bs in if b then i ∷ rest else rest

-- The active folder is the last one, if there is one.
abbrev pub IsLast : Option ℕ → List (List ℕ) → Type 0
IsLast none xss = xss ≡ []
IsLast (some i) xss = suc i ≡ length xss

-- A solid archive has one folder; in another each folder has one file.
abbrev pub IsGrouped : Bool → List (List ℕ) → Type 0
IsGrouped true xss = length xss ≤ 1
IsGrouped false xss = All (λ (xs : List ℕ). length xs ≡ 1) xss

pub record IsArranged (w : Writer) : Type 0 where
  pub none_empty : All (λ (xs : List ℕ). 0 < length xs) (layout w.folders)
  pub grouped : IsGrouped w.solid (layout w.folders)
  pub active_last : IsLast w.active_fold (layout w.folders)

-- The folders hold the files with a stream, each once and in order.
pub record IsPlaced (w : Writer) : Type 0 where
  pub arranged : IsArranged w
  pub in_order : numbers_in (layout w.folders) ≡ stream_numbers 0 (streams w.files)

pub numbers_in-append :
    (xss : List (List ℕ)) (xs : List ℕ) → numbers_in (xss ++ (xs ∷ [])) ≡ numbers_in xss ++ xs
numbers_in-append [] xs = append-nil xs
numbers_in-append (ys ∷ xss) xs =
    ap (λ t. ys ++ t) (numbers_in-append xss xs) ∙ sym (append_assoc ys (numbers_in xss) xs)

pub stream_numbers-append :
    (i : ℕ) (bs : List Bool) (b : Bool)
    → stream_numbers i (bs ++ (b ∷ []))
      ≡ stream_numbers i bs ++ (if b then (i + length bs) ∷ [] else [])
stream_numbers-append i [] true = ap (λ k. k ∷ []) (omega arith)
stream_numbers-append i [] false = refl
stream_numbers-append i (true ∷ bs) b =
    ap (λ t. i ∷ t)
      (stream_numbers-append (suc i) bs b
        ∙ ap (λ k. stream_numbers (suc i) bs ++ (if b then k ∷ [] else [])) (omega arith))
stream_numbers-append i (false ∷ bs) b =
    stream_numbers-append (suc i) bs b
    ∙ ap (λ k. stream_numbers (suc i) bs ++ (if b then k ∷ [] else [])) (omega arith)

pub modify-append {ℓ} :
    {A : Type ℓ} (g : A → A) (xs : List A) (x : A)
    → modify g (xs ++ (x ∷ [])) (length xs) ≡ xs ++ (g x ∷ [])
modify-append g [] x = refl
modify-append g (y ∷ xs) x = ap (λ t. y ∷ t) (modify-append g xs x)

pub map-append {ℓ κ} :
    {A : Type ℓ} {B : Type κ} (f : A → B) (xs ys : List A) → map f (xs ++ ys) ≡ map f xs ++ map f ys
map-append f [] ys = refl
map-append f (x ∷ xs) ys = ap (λ t. f x ∷ t) (map-append f xs ys)

pub All-snoc {ℓ κ} :
    {A : Type ℓ} (P : A → Type κ) (xs : List A) (x : A) → All P xs → P x → All P (xs ++ (x ∷ []))
All-snoc P [] x h hx = (hx, tt)
All-snoc P (y ∷ xs) x (hy, h) hx = (hy, All-snoc P xs x h hx)

pub All-init {ℓ κ} :
    {A : Type ℓ} (P : A → Type κ) (xs : List A) (x : A) → All P (xs ++ (x ∷ [])) → All P xs
All-init P [] x h = tt
All-init P (y ∷ xs) x (hy, h) = (hy, All-init P xs x h)

pub last_entry {ℓ} :
    {A : Type ℓ} (xs : List A) (i : ℕ)
    → suc i ≡ length xs
    → (before : List A) × (last : A) × (xs ≡ before ++ (last ∷ [])) × (length before ≡ i)
last_entry [] i e = absurd (omega (arith, e))
last_entry (x ∷ []) i e = ([], x, refl, omega (arith, e))
last_entry (x ∷ y ∷ xs) zero e = absurd (omega (arith, e))
last_entry (x ∷ y ∷ xs) (suc i) e =
    let (before, last, split, counted) = last_entry (y ∷ xs) i (omega (arith, e)) in
    (x ∷ before, last, ap (λ t. x ∷ t) split, ap suc counted)

pub IsArranged-SameLayout : {v w : Writer} → SameLayout v w → IsArranged v → IsArranged w
IsArranged-SameLayout h p = record {
  none_empty = rw (h.same_layout) p.none_empty;
  grouped = rw (h.same_layout, h.same_solid) p.grouped;
  active_last = rw (h.same_layout, h.same_active) p.active_last;
}

pub IsPlaced-SameLayout : {v w : Writer} → SameLayout v w → IsPlaced v → IsPlaced w
IsPlaced-SameLayout h p = record {
  arranged = IsArranged-SameLayout h p.arranged;
  in_order = rw (h.same_layout, h.same_streams) p.in_order;
}
