-- ===== src/Files.antt =====
-- struct.go (FileHeader, filesInfo), types.go (readTimes, splitNull, readNames, readAttributes) and
-- write_struct.go (timeToFiletime): the files of an archive and the vectors of their properties. A
-- time.Time is the nanoseconds since the start of year 1, so that the zero Time is 0. A name is the
-- runes of a string of valid UTF-8.
pub mod Read
pub mod Write
pub mod Times
pub mod Names
pub mod Utf16
pub mod Props
pub mod Mode
use sevenzip.Prelude.{
  ℕ, zero, suc, ◌+◌, ◌-◌, ◌*◌, ◌/◌, ◌%◌, ◌^◌, Bool, true, false, Option, none, some, List, [], ◌∷◌,
  ◌++◌, length, take, drop, ltb, leb, ◌==◌, if◌then◌else◌,
}
use sevenzip.Stream.{
  Parser, Bytes, Result, ok, err, bind, ◌>>=◌, ◌>>◌, pure, guard, read_byte, read_le,
  wrong_number_of_filenames, token_too_long, todo,
}
use sevenzip.Number.{check_uint64}
use sevenzip.Vectors.{read_optional_bool, read_defined}

-- What the code calls of golang.org/x/text and of github.com/bodgit/windows: the decoder of UTF-16,
-- and the nanoseconds of a Filetime, an int64 as its word.
pub record Libraries : Type 0 where
  pub decode : Bytes → List ℕ
  pub nanoseconds : (low high : ℕ) → ℕ

pub record FileHeader : Type 0 where
  pub name : List ℕ
  pub created : ℕ
  pub accessed : ℕ
  pub modified : ℕ
  pub attributes : ℕ
  pub crc32 : ℕ
  pub uncompressed_size : ℕ
  pub stream : ℕ
  pub is_empty_stream : Bool
  pub is_empty_file : Bool

-- The zero value that make fills f.file with.
abbrev pub no_file : FileHeader
no_file = record {
  name = [];
  created = 0;
  accessed = 0;
  modified = 0;
  attributes = 0;
  crc32 = 0;
  uncompressed_size = 0;
  stream = 0;
  is_empty_stream = false;
  is_empty_file = false;
}

-- The seconds from year 1 to 1970.
abbrev pub epoch : ℕ
epoch = 62135596800

-- t.Unix(), an int64 as its word.
unfoldable pub unix_seconds : ℕ → ℕ
unix_seconds t = (t / 10 ^ 9 + (2 ^ 64 - epoch)) % 2 ^ 64

-- time.Unix(0, ns) for an int64 given as its word
unfoldable pub unix_time : ℕ → ℕ
unix_time ns = epoch * 10 ^ 9 + ns - (if leb (2 ^ 63) ns then 2 ^ 64 else 0)

unfoldable pub time_to_filetime : ℕ → ℕ
time_to_filetime t =
    if t == 0
    then 0
    else (unix_seconds t * 10000000 % 2 ^ 64 + t % 10 ^ 9 / 100 + 116444736000000000) % 2 ^ 64

-- binary.Read of a Filetime, its low half first
unfoldable pub read_time : Libraries → Parser ℕ
read_time lib = do low ← read_le 4; high ← read_le 4; pure (unix_time (lib.nanoseconds low high))

-- The loop of readTimes: a time that is not defined stays the zero Time.
unfoldable pub read_defined_times : Libraries → List Bool → Parser (List ℕ)
read_defined_times lib [] = pure []
read_defined_times lib (true ∷ defined) = do
  t ← read_time lib
  ts ← read_defined_times lib defined
  pure (t ∷ ts)
read_defined_times lib (false ∷ defined) = do ts ← read_defined_times lib defined; pure (0 ∷ ts)

unfoldable pub read_times : Libraries → ℕ → Parser (List ℕ)
read_times lib count = do
  check_uint64 count true
  defined ← read_optional_bool count
  external ← read_byte
  guard (external == 0) todo
  read_defined_times lib defined

unfoldable pub read_attributes : ℕ → Parser (List ℕ)
read_attributes count = do
  check_uint64 count true
  defined ← read_optional_bool count
  external ← read_byte
  guard (external == 0) todo
  read_defined 4 defined

-- bytes.IndexRune of the rune 0, as what stands before it and behind it.
unfoldable pub index_null : List ℕ → Option (List ℕ × List ℕ)
index_null [] = none
index_null (r ∷ text) =
    let later = index_null text in
    if r == 0
    then some ([], text)
    else elim later [ none ↦ none | some (token, rest) ↦ some (r ∷ token, rest) ]

-- splitNull: the token, if any, and the data behind the advance.
unfoldable pub split_null : List ℕ → (at_eof : Bool) → Option (List ℕ) × List ℕ
split_null [] at_eof = (none, [])
split_null (r ∷ text) at_eof = elim (index_null (r ∷ text)) [
  | some (token, rest) ↦ (some token, rest)
  | none ↦ if at_eof then (some (r ∷ text), []) else (none, r ∷ text)
]

-- The bytes of a rune in UTF-8.
abbrev pub rune_length : ℕ → ℕ
rune_length r = if ltb r 0x80 then 1 else if ltb r 0x800 then 2 else if ltb r 0x10000 then 3 else 4

abbrev pub string_length : List ℕ → ℕ
string_length [] = 0
string_length (r ∷ text) = rune_length r + string_length text

-- The tokens of a bufio.Scanner, whose buffer of 64 kB holds no longer token than one byte less. It
-- calls splitNull on more and more of the data, which finds the tokens that it finds in all of it.
-- A token uses up a rune at least, so that there are no more rounds than runes.
unfoldable pub scan : (rounds : ℕ) → List ℕ → Result (List (List ℕ))
scan zero text = ok []
scan (suc rounds) text =
    let (token, rest) = split_null text true in
    let later = scan rounds rest in
    elim token [
      | none ↦ ok []
      | some t ↦
          if ltb (string_length t) 65536 then bind later (λ ts. ok (t ∷ ts)) else err token_too_long
    ]

-- `int64(length-1)` as the bytes that the LimitReader lets through: none where it is negative.
abbrev pub limit : ℕ → ℕ
limit length = if ltb (length - 1) (2 ^ 63) then length - 1 else 0

unfoldable pub read_names : Libraries → (count length : ℕ) → Parser (List (List ℕ))
read_names lib count size = do
  check_uint64 count true
  external ← read_byte
  guard (external == 0) todo
  names ← λ s.
      let text = lib.decode (take (limit size) s) in
      bind (scan (length text) text) (λ ts. ok (ts, drop (limit size) s))
  guard (length names == count) wrong_number_of_filenames
  pure names
