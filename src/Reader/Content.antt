-- ===== src/Reader/Content.antt =====
-- reader.go (File.Open, fileReader.Read) and struct.go (folderReadCloser): the content of a file, read
-- from what its folder unpacks to. An int64 is a word, negative from 2^63 on.
pub mod Whole
use sevenzip.Prelude.{
  ℕ, zero, suc, ◌+◌, ◌-◌, ◌%◌, ◌^◌, Bool, true, false, not, ◌&&◌, ◌||◌, List, [], ◌∷◌, ◌++◌, length,
  take, drop, ltb, leb, ◌==◌, if◌then◌else◌,
}
use sevenzip.Stream.{Bytes}

-- The reader of a folder: what it is still to deliver, the bytes that the counter and the checksum
-- have seen, and the size.
pub record FolderReader : Type 0 where
  pub rest : Bytes
  pub count : ℕ
  pub hashed : Bytes
  pub size : ℕ

unfoldable pub new_folder_reader : (content : Bytes) (size : ℕ) → FolderReader
new_folder_reader content size = record { rest = content; count = 0; hashed = []; size = size }

-- The first k bytes are read, through the tee.
unfoldable pub advance : ℕ → FolderReader → FolderReader
advance k rc = record rc {
  rest = drop k rc.rest;
  count = rc.count + k;
  hashed = rc.hashed ++ take k rc.rest;
}

pub data Whence : Type 0 where
  seek_start seek_current seek_end : Whence

abbrev pub is_negative : ℕ → Bool
is_negative w = leb (2 ^ 63) w

pub data SeekError : Type 0 where
  negative_seek seek_backwards seek_eof seek_read : SeekError

pub data Sought : Type 0 where
  at_place : ℕ → FolderReader → Sought
  seek_failed : SeekError → FolderReader → Sought

abbrev pub new_place : FolderReader → ℕ → Whence → ℕ
new_place rc offset seek_start = offset
new_place rc offset seek_current = (rc.count + offset) % 2 ^ 64
new_place rc offset seek_end = (rc.size + offset) % 2 ^ 64

-- Seek goes forward only, by reading: io.CopyN to io.Discard fails at the end of the content.
unfoldable pub seek : FolderReader → (offset : ℕ) → Whence → Sought
seek rc offset whence =
    let place = new_place rc offset whence in
    let skipped = place - rc.count in
    if is_negative place
    then seek_failed negative_seek rc
    else if ltb place rc.count
    then seek_failed seek_backwards rc
    else if is_negative rc.size || ltb rc.size place
    then seek_failed seek_eof rc
    else if ltb (length rc.rest) skipped
    then seek_failed seek_read (advance (length rc.rest) rc)
    else at_place place (advance skipped rc)

-- How the decoder below delivers: the bytes that a call for n of them gets at most, and whether io.EOF
-- comes with the last ones.
pub record Delivery : Type 0 where
  pub amount : ℕ → Bytes → ℕ
  pub eager : ℕ → Bytes → Bool

abbrev pub least : ℕ → ℕ → ℕ
least a b = if ltb a b then a else b

pub data Status : Type 0 where
  more ended unexpected_end : Status

pub record FileReader : Type 0 where
  pub rc : FolderReader
  pub n : ℕ

module _ (delivery : Delivery) where
  abbrev pub delivered : ℕ → Bytes → ℕ
  delivered size rest = least (least (delivery.amount size rest) size) (length rest)

  -- Read of the folder's reader has io.EOF where nothing is left, with the last bytes or after them.
  abbrev pub has_ended : ℕ → Bytes → Bool
  has_ended size rest =
      let k = delivered size rest in k == length rest && (k == 0 || delivery.eager size rest)

  -- fileReader.Read into a buffer of `size` bytes.
  unfoldable pub read_file : (size : ℕ) → FileReader → Bytes × Status × FileReader
  read_file size fr =
      let wanted = least fr.n size in
      let k = delivered wanted fr.rc.rest in
      let fr' : FileReader = record { rc = advance k fr.rc; n = fr.n - k } in
      if size == 0
      then ([], more, fr)
      else if fr.n == 0 || is_negative fr.n
      then ([], ended, fr)
      else (
        take k fr.rc.rest,
        (if has_ended wanted fr.rc.rest
            then if fr.n - k == 0 then ended else unexpected_end
            else more),
        fr',
      )

  -- What a read gives, with what the reads after it give where it says that there is more.
  abbrev pub go_on : Bytes → Status → Bytes × Status → Bytes × Status
  go_on p more (later, last) = (p ++ later, last)
  go_on p ended (later, last) = (p, ended)
  go_on p unexpected_end (later, last) = (p, unexpected_end)

  -- Reads into buffers of these sizes, one after another.
  unfoldable pub read_files : List ℕ → FileReader → Bytes × Status
  read_files [] fr = ([], more)
  read_files (size ∷ sizes) fr = let r = read_file size fr in go_on r.0 r.1 (read_files sizes r.2)
