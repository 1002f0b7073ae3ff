-- ===== src/Unpack.antt =====
-- struct.go (unpackInfo), types.go (readUnpackInfo) and write_struct.go (writeUnpackInfo): the folders
-- of an archive, the sizes that their coders unpack to, and the folders' checksums.
pub mod RoundTrip
use sevenzip.Prelude.{
  ℕ, zero, suc, true, false, List, [], ◌∷◌, ◌++◌, length, ltb, ◌==◌, if◌then◌else◌,
}
use sevenzip.PropertyId
use sevenzip.Stream.{Parser, Bytes, Grant, ◌>>=◌, ◌>>◌, pure, guard, read_byte, unexpected_id, todo}
use sevenzip.Number.{check_uint64, read_uint64_bounded, write_uint64}
use sevenzip.Vectors.{read_numbers, read_crc, write_sizes}
use sevenzip.Sections.{section, finish, write_section, nonempty}
use sevenzip.Pack.{write_digests}
use sevenzip.Folder.{Folder, total_from, out_counts, read_folder, write_folder}

pub record UnpackInfo : Type 0 where
  pub folder : List Folder
  pub digest : List ℕ

unfoldable pub read_folders : Grant → ℕ → Parser (List Folder)
read_folders grant zero = pure []
read_folders grant (suc n) = do f ← read_folder grant; fs ← read_folders grant n; pure (f ∷ fs)

-- The sizes of each folder's coders, as many as the coders have outputs.
unfoldable pub read_folder_sizes : List Folder → Parser (List Folder)
read_folder_sizes [] = pure []
read_folder_sizes (f ∷ fs) = do
  let total = total_from 0 (out_counts f.coder)
  check_uint64 total true
  size ← read_numbers total
  sized ← read_folder_sizes fs
  pure (record f { size = size } ∷ sized)

unfoldable pub read_unpack_info : Grant → Parser UnpackInfo
read_unpack_info grant = do
  id ← read_byte
  guard (id == PropertyId.folder) unexpected_id
  folders ← read_uint64_bounded true
  external ← read_byte
  guard (if ltb 0 external then false else true) todo
  folder ← read_folders grant folders
  sizes_id ← read_byte
  guard (sizes_id == PropertyId.coders_unpack_size) unexpected_id
  sized ← read_folder_sizes folder
  id_after_sizes ← read_byte
  (digest, id_after_crc) ← section PropertyId.crc [] (read_crc folders) id_after_sizes
  finish id_after_crc (record { folder = sized; digest = digest })

unfoldable pub write_folders : List Folder → Bytes
write_folders [] = []
write_folders (f ∷ fs) = write_folder f ++ write_folders fs

unfoldable pub write_folder_sizes : List Folder → Bytes
write_folder_sizes [] = []
write_folder_sizes (f ∷ fs) = write_sizes f.size ++ write_folder_sizes fs

unfoldable pub write_unpack_info : UnpackInfo → Bytes
write_unpack_info u =
    PropertyId.folder
    ∷ (write_uint64 (length u.folder)
        ++ (0
            ∷ (write_folders u.folder
                ++ (PropertyId.coders_unpack_size
                    ∷ (write_folder_sizes u.folder
                        ++ (write_section PropertyId.crc (nonempty u.digest)
                              (write_digests u.digest)
                            ++ (PropertyId.end ∷ [])))))))
