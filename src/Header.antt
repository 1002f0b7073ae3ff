-- ===== src/Header.antt =====
-- struct.go (header), types.go (readHeader, readEncodedHeader) and write_struct.go (writeHeader).
pub mod Panic
use sevenzip.Prelude.{ℕ, suc, Option, none, some, List, [], ◌∷◌, ◌++◌, ◌==◌, not, if◌then◌else◌}
use sevenzip.PropertyId
use sevenzip.Stream.{
  Parser, Bytes, Grant, Result, ok, bind, ◌>>=◌, ◌>>◌, guard, read_byte, unexpected_id, todo,
}
use sevenzip.Sections.{section, write_section}
use sevenzip.Streams.{
  StreamsInfo, present, is_present, written, read_streams_info, write_streams_info,
}
use sevenzip.Files.{Libraries, FileHeader}
use sevenzip.Files.Read.{read_files_info}
use sevenzip.Files.Write.{write_files_info}
use sevenzip.Lookup.{file_folder_and_size}

-- The files are those of filesInfo, nil where the section is missing.
pub record Header : Type 0 where
  pub streams_info : Option StreamsInfo
  pub files_info : Option (List FileHeader)

-- The loop at the end of readHeader: the sizes and the checksums of the files with a stream, with j
-- of them before.
unfoldable pub size_files : StreamsInfo → (j : ℕ) → List FileHeader → Result (List FileHeader)
size_files si j [] = ok []
size_files si j (f ∷ files) =
    let kept = size_files si j files in
    let later = size_files si (suc j) files in
    if f.is_empty_stream
    then bind kept (λ fs. ok (f ∷ fs))
    else bind (file_folder_and_size si j) λ (folder, size, crc).
      bind later (λ fs. ok (record f { uncompressed_size = size; crc32 = crc } ∷ fs))

unfoldable pub complete : Header → Result Header
complete h = elim h.streams_info [
  | none ↦ ok h
  | some si ↦ elim h.files_info [
    | none ↦ ok h
    | some files ↦ bind (size_files si 0 files) (λ fs. ok (record h { files_info = some fs }))
  ]
]

unfoldable pub read_header : Libraries → Grant → Parser Header
read_header lib grant = do
  id ← read_byte
  guard (not (id == PropertyId.archive_properties)) todo
  guard (not (id == PropertyId.additional_streams_info)) todo
  (streams, id_after_streams) ←
      section PropertyId.main_streams_info none (present (read_streams_info grant)) id
  (files, id_after_files) ←
      section PropertyId.files_info none (present (read_files_info lib)) id_after_streams
  guard (id_after_files == PropertyId.end) unexpected_id
  λ s. bind (complete (record { streams_info = streams; files_info = files })) λ h. ok (h, s)

unfoldable pub read_encoded_header : Libraries → Grant → Parser Header
read_encoded_header lib grant = do
  id ← read_byte
  guard (id == PropertyId.header) unexpected_id
  read_header lib grant

unfoldable pub write_header : Header → Bytes
write_header h =
    write_section PropertyId.main_streams_info (is_present h.streams_info)
      (written write_streams_info h.streams_info)
    ++ (write_section PropertyId.files_info (is_present h.files_info)
          (written write_files_info h.files_info)
        ++ (PropertyId.end ∷ []))
