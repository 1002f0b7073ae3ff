-- ===== src/Reader/Listing.antt =====
-- reader.go: the sorted list of files as a file system, with split, fileEntryLess, openLookup,
-- openReadDir and openDir.ReadDir. A name is the bytes of a string; sort.Search is the binary search
-- of the package sort.
pub mod Order
pub mod Search
pub mod Lookup
pub mod Directory
pub mod Pages
use sevenzip.Prelude.{
  ℕ, zero, suc, ◌+◌, ◌-◌, ◌/◌, Bool, true, false, not, ◌&&◌, ◌||◌, Option, none, some, List, [],
  ◌∷◌, ◌++◌, length, take, drop, get_elem?, ltb, leb, ◌==◌, if◌then◌else◌,
}
use sevenzip.Stream.{Bytes}

-- `<` and `==` on strings.
unfoldable pub bytes_lt : Bytes → Bytes → Bool
bytes_lt xs [] = false
bytes_lt [] (y ∷ ys) = true
bytes_lt (x ∷ xs) (y ∷ ys) = ltb x y || x == y && bytes_lt xs ys

unfoldable pub bytes_eq : Bytes → Bytes → Bool
bytes_eq [] [] = true
bytes_eq [] (y ∷ ys) = false
bytes_eq (x ∷ xs) [] = false
bytes_eq (x ∷ xs) (y ∷ ys) = x == y && bytes_eq xs ys

abbrev pub slash : ℕ
slash = b'/'

abbrev pub dot_name : Bytes
dot_name = b'.' ∷ []

-- The name without the slash at its end.
unfoldable pub trim_slash : Bytes → Bytes
trim_slash [] = []
trim_slash (c ∷ []) = if c == slash then [] else c ∷ []
trim_slash (c ∷ d ∷ cs) = c ∷ trim_slash (d ∷ cs)

-- What stands before the last slash and behind it.
unfoldable pub cut_last : Bytes → Option (Bytes × Bytes)
cut_last [] = none
cut_last (c ∷ cs) = elim (cut_last cs) [
  | none ↦ if c == slash then some ([], cs) else none
  | some (dir, elem) ↦ some (c ∷ dir, elem)
]

unfoldable pub split_name : Bytes → Bytes × Bytes
split_name name = elim (cut_last (trim_slash name)) [
  | none ↦ (dot_name, trim_slash name)
  | some parts ↦ parts
]

-- fileListEntry, whose file is a number in z.File.
pub record FileListEntry : Type 0 where
  pub name : Bytes
  pub file : Option ℕ
  pub entry_is_dir : Bool
  pub is_dup : Bool

abbrev pub key_less : Bytes × Bytes → Bytes × Bytes → Bool
key_less x y = bytes_lt x.0 y.0 || bytes_eq x.0 y.0 && bytes_lt x.1 y.1

unfoldable pub file_entry_less : Bytes → Bytes → Bool
file_entry_less x y = key_less (split_name x) (split_name y)

-- sort.Search between i and j, with so many rounds allowed.
unfoldable pub search_between : (rounds : ℕ) → (ℕ → Bool) → (i j : ℕ) → ℕ
search_between zero f i j = i
search_between (suc rounds) f i j =
    let h = (i + j) / 2 in
    let above = search_between rounds f (h + 1) j in
    let below = search_between rounds f i h in if ltb i j then if f h then below else above else i

-- sort.Search(n, f): each round makes the range shorter.
unfoldable pub sort_search : ℕ → (ℕ → Bool) → ℕ
sort_search n f = search_between n f 0 n

-- `f` on the i-th entry; the searches ask for no other.
abbrev pub on_entry : (FileListEntry → Bool) → List FileListEntry → ℕ → Bool
on_entry f files i = elim (get_elem? files i) [ none ↦ false | some e ↦ f e ]

-- The tests of openLookup and openReadDir.
unfoldable pub not_before : Bytes × Bytes → FileListEntry → Bool
not_before (dir, elem) e =
    let (idir, ielem) = split_name e.name in
    bytes_lt dir idir || bytes_eq idir dir && not (bytes_lt ielem elem)

unfoldable pub in_or_after : Bytes → FileListEntry → Bool
in_or_after dir e = not (bytes_lt (split_name e.name).0 dir)

unfoldable pub after_dir : Bytes → FileListEntry → Bool
after_dir dir e = bytes_lt dir (split_name e.name).0

abbrev pub dot_file : FileListEntry
dot_file = record { name = b'.' ∷ b'/' ∷ []; file = none; entry_is_dir = true; is_dup = false }

-- `fname == name || len(fname) == len(name)+1 && fname[len(name)] == '/' && fname[:len(name)] == name`
unfoldable pub names_entry : Bytes → Bytes → Bool
names_entry fname name = bytes_eq fname name || bytes_eq fname (name ++ (slash ∷ []))

-- From `if i < len(files)` on.
unfoldable pub check_name : Bytes → Option FileListEntry → Option FileListEntry
check_name name none = none
check_name name (some e) = if names_entry e.name name then some e else none

unfoldable pub open_lookup : List FileListEntry → Bytes → Option FileListEntry
open_lookup files name =
    let i = sort_search (length files) (on_entry (not_before (split_name name)) files) in
    if bytes_eq name dot_name then some dot_file else check_name name (get_elem? files i)

unfoldable pub open_read_dir : List FileListEntry → Bytes → List FileListEntry
open_read_dir files dir =
    let i = sort_search (length files) (on_entry (in_or_after dir) files) in
    let j = sort_search (length files) (on_entry (after_dir dir) files) in
    take (j - i) (drop i files)
