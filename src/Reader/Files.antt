-- ===== src/Reader/Files.antt =====
-- reader.go (Reader.init) behind the header: the files, each with its folder and its place in what the
-- folder unpacks to.
pub mod Offsets
pub mod Panic
use sevenzip.Prelude.{
  ℕ, zero, suc, ◌+◌, ◌%◌, ◌^◌, Bool, true, false, not, ◌&&◌, Option, none, some, List, [], ◌∷◌,
  ◌++◌, ltb, ◌==◌, if◌then◌else◌,
}
use sevenzip.Stream.{Result, ok, err, bind, panic}
use sevenzip.Files.{FileHeader}
use sevenzip.Files.Mode.{file_mode, is_dir, ends_in_slash}
use sevenzip.Streams.{StreamsInfo}
use sevenzip.Lookup.{file_folder_and_size}

pub record File : Type 0 where
  pub header : FileHeader
  pub folder : ℕ
  pub offset : ℕ

-- header.streamsInfo.FileFolderAndSize, which reads a field of a nil pointer where there is none.
unfoldable pub locate_file : Option StreamsInfo → ℕ → Result (ℕ × ℕ × ℕ)
locate_file none j = err panic
locate_file (some si) j = file_folder_and_size si j

-- The name of a directory ends in a slash.
unfoldable pub with_slash : FileHeader → FileHeader
with_slash fh =
    if is_dir (file_mode fh) && not (ends_in_slash fh.name)
    then record fh { name = fh.name ++ (b'/' ∷ []) }
    else fh

abbrev pub has_data : FileHeader → Bool
has_data fh = not fh.is_empty_stream && not fh.is_empty_file

-- The loop over the files, with the folder and the offset behind the last file, and j files with a
-- stream before. An offset is an int64, as a word.
unfoldable pub place_files :
    Option StreamsInfo → (folder offset j : ℕ) → List FileHeader → Result (List File)
place_files si folder offset j [] = ok []
place_files si folder offset j (fh ∷ fhs) =
    let named = with_slash fh in
    let kept = place_files si folder offset j fhs in
    if has_data fh
    then bind (locate_file si j) (λ (f, size, crc).
      let first = if f == folder then offset else 0 in
      bind (place_files si f ((first + fh.uncompressed_size) % 2 ^ 64) (suc j) fhs) (λ files.
        ok (record { header = record named { stream = f }; folder = f; offset = first } ∷ files)))
    else bind kept λ files. ok (record { header = named; folder = 0; offset = 0 } ∷ files)

-- filesPerStream
unfoldable pub files_per_stream : List File → ℕ → ℕ
files_per_stream [] folder = 0
files_per_stream (f ∷ files) folder =
    let rest = files_per_stream files folder in
    if has_data f.header && f.folder == folder then suc rest else rest

-- The folders whose readers are kept in a pool: those of more than one file.
unfoldable pub keeps_readers : List File → ℕ → Bool
keeps_readers files folder = ltb 1 (files_per_stream files folder)
