-- ===== src/Writer/Describe.antt =====
-- writer.go (Writer.Close): the header that describes the folders and the files of an archive.
pub mod Sized
pub mod Valid
pub mod Lookup
use sevenzip.Prelude.{
  ℕ, zero, suc, ◌+◌, ◌-◌, ◌%◌, ◌^◌, Bool, true, false, Option, none, some, List, [], ◌∷◌, ◌++◌, map,
  length, get_elem?, if◌then◌else◌,
}
use sevenzip.Stream.{Bytes}
use sevenzip.Pack.{PackInfo}
use sevenzip.Coder.{Coder}
use sevenzip.Folder.{BindPair, Folder}
use sevenzip.Unpack.{UnpackInfo}
use sevenzip.SubStreams.{SubStreamsInfo}
use sevenzip.Streams.{StreamsInfo}
use sevenzip.Header.{Header}
use sevenzip.Writer.State.{ArchiveFile, FolderWriter, Writer}

abbrev pub aes_coder : (properties : Bytes) → Coder
aes_coder properties = record {
  id = 0x06 ∷ 0xf1 ∷ 0x07 ∷ 0x01 ∷ [];
  in_streams = 1;
  out_streams = 1;
  properties = properties;
}

abbrev pub lzma2_coder : (prop_byte : ℕ) → Coder
lzma2_coder prop_byte = record {
  id = 0x21 ∷ [];
  in_streams = 1;
  out_streams = 1;
  properties = prop_byte ∷ [];
}

-- The properties of the AES coder: 19 rounds as a power of two, the salt and the initial vector.
abbrev pub aes_properties : (salt iv : Bytes) → Bytes
aes_properties salt iv = 0xd3 ∷ 0x7f ∷ (salt ++ iv)

-- A folder of one coder.
abbrev pub plain_folder : (prop_byte size : ℕ) → Folder
plain_folder prop_byte size = record {
  in_streams = 1;
  out_streams = 1;
  packed_streams = 1;
  coder = lzma2_coder prop_byte ∷ [];
  bind_pair = [];
  size = size ∷ [];
  packed = 0 ∷ [];
}

-- A folder whose compressed stream is encrypted: the AES coder unpacks to `compressed` bytes.
abbrev pub encrypted_folder : (salt iv : Bytes) → (prop_byte compressed size : ℕ) → Folder
encrypted_folder salt iv prop_byte compressed size = record {
  in_streams = 2;
  out_streams = 2;
  packed_streams = 1;
  coder = aes_coder (aes_properties salt iv) ∷ lzma2_coder prop_byte ∷ [];
  bind_pair = record { in_index = 1; out_index = 0 } ∷ [];
  size = compressed ∷ size ∷ [];
  packed = 0 ∷ [];
}

-- The files of a folder: `fold.files`, with the pointers followed.
unfoldable pub files_of : List ArchiveFile → List ℕ → List ArchiveFile
files_of files [] = []
files_of files (i ∷ is) =
    let rest = files_of files is in elim (get_elem? files i) [ none ↦ rest | some fi ↦ fi ∷ rest ]

unfoldable pub total_size : ℕ → List ArchiveFile → ℕ
total_size total [] = total
total_size total (fi ∷ files) = total_size ((total + fi.uncomp_size) % 2 ^ 64) files

unfoldable pub describe_folder : List ArchiveFile → FolderWriter → Folder
describe_folder files f =
    let size = total_size 0 (files_of files f.files) in
    if f.is_encrypted
    then encrypted_folder f.salt f.iv f.prop_byte f.unenc_comp size
    else plain_folder f.prop_byte size

-- The loop that fills the subStreamsInfo, over the folders and the files of each: one entry for each
-- file.
unfoldable pub gather : (ArchiveFile → ℕ) → List ArchiveFile → List FolderWriter → List ℕ
gather entry files [] = []
gather entry files (f ∷ folders) = map entry (files_of files f.files) ++ gather entry files folders

unfoldable pub describe_streams : List ArchiveFile → List FolderWriter → StreamsInfo
describe_streams files folders = record {
  pack_info = some (record {
    position = 0;
    streams = length folders;
    size = map (λ f. f.comp_count) folders;
    digest = [];
  });
  unpack_info = some (record { folder = map (describe_folder files) folders; digest = [] });
  sub_streams_info = some (record {
    streams = map (λ f. length f.files) folders;
    size = gather (λ fi. fi.uncomp_size) files folders;
    digest = gather (λ fi. fi.crc) files folders;
  });
}

-- An archive without files has an empty header.
unfoldable pub describe : Writer → Header
describe w = elim w.files [
  | [] ↦ record { streams_info = none; files_info = none }
  | fi ∷ files ↦ record {
    streams_info = some (describe_streams w.files w.folders);
    files_info = some (map (λ fi. fi.fh) w.files);
  }
]
