-- ===== src/Writer/State.antt =====
-- writer.go (Writer, folderWriter, fileWriter, fileInfo): the state of a Writer. A pointer to a
-- fileInfo, a folderWriter or a fileWriter is its number in the Writer's list of them.
use sevenzip.Prelude.{ℕ, Bool, true, false, not, ◌&&◌, Option, none, List, [], ltb}
use sevenzip.Stream.{Bytes}
use sevenzip.Files.{FileHeader}

-- What the Writer calls: lzma.Writer2, as the bytes that it has written after Close for all that was
-- written to it; the dictionary sizes of github.com/unxed/xz/lzma; the cipher of crypto/aes in CBC
-- mode under the key of a password and a salt; crypto/rand, call by call; runtime.NumCPU.
pub record Environment : Type 1 where
  pub compress : (dict_cap concurrency : ℕ) → Bytes → Bytes
  pub encode_dict_cap : ℕ → ℕ
  pub decode_dict_cap : ℕ → ℕ
  pub min_dict_cap : ℕ
  pub Mode : Type 0
  pub cbc : (salt iv : Bytes) → Mode
  pub crypt : Mode → Bytes → Bytes × Mode
  pub random : (call size : ℕ) → Bytes
  pub num_cpu : ℕ

pub record ArchiveFile : Type 0 where
  pub fh : FileHeader
  pub prop_byte : ℕ
  pub uncomp_size : ℕ
  pub crc : ℕ

-- `input` is what was written to the compressor, and `output` what has reached the writer below
-- compCount: the spool of a concurrent folder, the archive otherwise. comp_count is set when the folder
-- is closed.
pub record FolderWriter : Type 0 where
  pub files : List ℕ
  pub file_count : ℕ
  pub uncomp_size : ℕ
  pub input : Bytes
  pub dict_cap : ℕ
  pub concurrency : ℕ
  pub comp_count : ℕ
  pub unenc_comp : ℕ
  pub prop_byte : ℕ
  pub is_encrypted : Bool
  pub salt : Bytes
  pub iv : Bytes
  pub seq : ℕ
  pub output : Bytes
  pub closed : Bool

-- `hashed` is what was written to the checksum.
pub record FileWriter : Type 0 where
  pub file : ℕ
  pub fold : Option ℕ
  pub hashed : Bytes
  pub uncomp_size : ℕ
  pub closed : Bool

-- `sink` is what the archive holds behind the 32 bytes that NewWriter reserves, `arrived` what was
-- sent on the channel to the coordinator, in order, and `spools_open` says that the channel is not
-- closed. `calls` counts the calls of crypto/rand.
pub record Writer : Type 0 where
  pub solid : Bool
  pub encrypted : Bool
  pub concurrency : ℕ
  pub files : List ArchiveFile
  pub folders : List FolderWriter
  pub writers : List FileWriter
  pub current : Option ℕ
  pub active_fold : Option ℕ
  pub closed : Bool
  pub sink : Bytes
  pub arrived : List (ℕ × Bytes)
  pub spools_open : Bool
  pub calls : ℕ

-- The options of NewWriter.
unfoldable pub new_writer : (solid encrypted : Bool) → (concurrency : ℕ) → Writer
new_writer solid encrypted concurrency = record {
  solid = solid;
  encrypted = encrypted;
  concurrency = concurrency;
  files = [];
  folders = [];
  writers = [];
  current = none;
  active_fold = none;
  closed = false;
  sink = [];
  arrived = [];
  spools_open = true;
  calls = 0;
}

-- `w.concurrency > 1 && !w.solid`
abbrev pub is_concurrent : Writer → Bool
is_concurrent w = ltb 1 w.concurrency && not w.solid
