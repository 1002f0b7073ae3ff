-- ===== src/Tests/Listing.antt =====
-- The list of files of reader.go on three names.
use sevenzip.Prelude.{◌≡◌, refl, Bool, true, false, none, some, List, [], ◌∷◌, arith}
use sevenzip.Reader.Listing.Directory.{entries_in, open_read_dir-entries_in}
use sevenzip.Reader.Listing.Lookup.{IsSorted}
use sevenzip.Reader.Listing.Pages.{OpenDir, end_of_dir, read_pages, read_pages-drop}
use sevenzip.Reader.Listing.{
  bytes_lt, bytes_eq, trim_slash, cut_last, split_name, FileListEntry, file_entry_less,
  search_between, sort_search, not_before, in_or_after, after_dir, names_entry, check_name,
  open_lookup, open_read_dir,
}
use sevenzip.Stream.{Bytes}

abbrev entry : Bytes → Bool → FileListEntry
entry name dir = record { name = name; file = none; entry_is_dir = dir; is_dup = false }

-- "a", "b" and "b/c".
abbrev three_files : List FileListEntry
three_files = entry (97 ∷ []) false ∷ entry (98 ∷ []) true ∷ entry (98 ∷ 47 ∷ 99 ∷ []) false ∷ []

IsSorted-files : IsSorted three_files
unfolding file_entry_less split_name cut_last trim_slash bytes_lt bytes_eq
IsSorted-files = ((refl, (refl, tt)), ((refl, tt), (tt, tt)))

lookup_c : open_lookup three_files (98 ∷ 47 ∷ 99 ∷ []) ≡ some (entry (98 ∷ 47 ∷ 99 ∷ []) false)
unfolding open_lookup check_name names_entry sort_search search_between not_before split_name
    cut_last trim_slash bytes_lt bytes_eq
lookup_c = refl

directory_b : open_read_dir three_files (98 ∷ []) ≡ entry (98 ∷ 47 ∷ 99 ∷ []) false ∷ []
unfolding open_read_dir sort_search search_between in_or_after after_dir split_name cut_last
    trim_slash bytes_lt bytes_eq
directory_b = refl

open_read_dir-entries_in_example :
    open_read_dir three_files (98 ∷ []) ≡ entries_in (98 ∷ []) three_files
open_read_dir-entries_in_example = open_read_dir-entries_in three_files (98 ∷ []) IsSorted-files

abbrev whole_dir : OpenDir
whole_dir = record { files = three_files; offset = 0 }

read_pages-drop_example : read_pages 5 2 whole_dir ≡ (three_files, end_of_dir)
read_pages-drop_example =
    read_pages-drop 5 2 whole_dir (refl, (refl, (refl, tt))) (omega arith) (omega arith)
      (omega arith)
