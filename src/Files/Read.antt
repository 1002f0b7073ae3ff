-- ===== src/Files/Read.antt =====
-- types.go (readFilesInfo): the loop over the properties of the files.
pub mod Rounds
use sevenzip.Prelude.{
  ℕ, zero, suc, ◌+◌, ◌%◌, ◌^◌, Bool, true, false, List, [], ◌∷◌, length, drop, replicate, ltb, ◌==◌,
  if◌then◌else◌,
}
use sevenzip.PropertyId
use sevenzip.Stream.{
  Parser, Bytes, Result, ok, err, bind, ◌>>=◌, pure, fail, read_byte, read, unexpected_id, todo,
  panic,
}
use sevenzip.Number.{read_uint64, read_uint64_bounded}
use sevenzip.Vectors.{read_bool}
use sevenzip.Files.{Libraries, FileHeader, no_file, read_times, read_names, read_attributes}

-- The variables of readFilesInfo.
pub record FilesState : Type 0 where
  pub file : List FileHeader
  pub empty_streams : ℕ

module _ {ℓ} {A : Type ℓ} where
  -- `for i, x := range xs { f.file[i].Field = x }`
  unfoldable pub assign :
      (A → FileHeader → FileHeader) → List A → List FileHeader → Result (List FileHeader)
  assign set [] files = ok files
  assign set (x ∷ xs) [] = err panic
  assign set (x ∷ xs) (f ∷ files) = bind (assign set xs files) λ fs. ok (set x f ∷ fs)

-- The loop over f.file that sets isEmptyStream.
unfoldable pub set_empty_streams : List FileHeader → List Bool → Result (List FileHeader)
set_empty_streams [] empty = ok []
set_empty_streams (f ∷ files) [] = err panic
set_empty_streams (f ∷ files) (e ∷ empty) =
    bind (set_empty_streams files empty) λ fs. ok (record f { is_empty_stream = e } ∷ fs)

abbrev pub count_empty : List FileHeader → ℕ
count_empty [] = 0
count_empty (f ∷ files) = (if f.is_empty_stream then 1 else 0) + count_empty files

-- The loop over f.file that sets isEmptyFile, with `empty[j]` the next of the list.
unfoldable pub set_empty_files : List FileHeader → List Bool → Result (List FileHeader)
set_empty_files [] empty = ok []
set_empty_files (f ∷ files) empty =
    let (next, left) : Result Bool × List Bool = elim empty [
      | [] ↦ (err panic, [])
      | e ∷ es ↦ (ok e, es)
    ] in
    let skipped = set_empty_files files empty in
    let taken = set_empty_files files left in
    if f.is_empty_stream
    then bind next (λ e. bind taken (λ fs. ok (record f { is_empty_file = e } ∷ fs)))
    else bind skipped (λ fs. ok (f ∷ fs))

-- The outcome of a loop over the files, which reads nothing.
abbrev pub with_files : FilesState → Result (List FileHeader) → Parser FilesState
with_files st files s = bind files λ fs. ok (record st { file = fs }, s)

-- The cases of the switch.
module _ (lib : Libraries) (files : ℕ) where
  unfoldable pub read_empty_streams : FilesState → Parser FilesState
  read_empty_streams st = do
    empty ← read_bool files
    λ s. bind (set_empty_streams st.file empty) λ fs.
        ok (record { file = fs; empty_streams = (st.empty_streams + count_empty fs) % 2 ^ 64 }, s)

  unfoldable pub read_empty_files : FilesState → Parser FilesState
  read_empty_files st = do
    empty ← read_bool st.empty_streams
    with_files st (set_empty_files st.file empty)

  unfoldable pub read_time_property : (ℕ → FileHeader → FileHeader) → FilesState → Parser FilesState
  read_time_property set st = do
    times ← read_times lib files
    with_files st (assign set times st.file)

  unfoldable pub read_names_property : ℕ → FilesState → Parser FilesState
  read_names_property size st = do
    names ← read_names lib files size
    with_files st (assign (λ n f. record f { name = n }) names st.file)

  unfoldable pub read_attributes_property : FilesState → Parser FilesState
  read_attributes_property st = do
    attributes ← read_attributes files
    with_files st (assign (λ a f. record f { attributes = a }) attributes st.file)

-- io.CopyN of `int64(length)` bytes: none where that is negative, and an error where there are fewer.
unfoldable pub skip : ℕ → Parser (Unit {0})
skip size s =
    if ltb size (2 ^ 63)
    then if ltb (length s) size then err read else ok (tt, drop size s)
    else ok (tt, s)

unfoldable pub read_property :
    Libraries → (files property size : ℕ) → FilesState → Parser FilesState
read_property lib files property size st =
    if property == PropertyId.empty_stream
    then read_empty_streams lib files st
    else if property == PropertyId.empty_file
    then read_empty_files lib files st
    else if property == PropertyId.ctime
    then read_time_property lib files (λ t f. record f { created = t }) st
    else if property == PropertyId.atime
    then read_time_property lib files (λ t f. record f { accessed = t }) st
    else if property == PropertyId.mtime
    then read_time_property lib files (λ t f. record f { modified = t }) st
    else if property == PropertyId.name
    then read_names_property lib files size st
    else if property == PropertyId.win_attributes
    then read_attributes_property lib files st
    else if property == PropertyId.start_pos
    then fail todo
    else if property == PropertyId.dummy
    then (do _ ← skip size; pure st)
    else fail unexpected_id

-- One round, and `more` for the rounds after it.
abbrev pub read_round :
    Libraries → ℕ → FilesState → (FilesState → Parser (List FileHeader)) → Parser (List FileHeader)
read_round lib files st more = do
  property ← read_byte
  (if property == PropertyId.end
      then pure st.file
      else (do size ← read_uint64; st' ← read_property lib files property size st; more st'))

-- The loop, for at most `rounds` rounds, each of which reads a byte at least.
unfoldable pub read_all_properties :
    Libraries → (files rounds : ℕ) → FilesState → Parser (List FileHeader)
read_all_properties lib files zero st = fail read
read_all_properties lib files (suc rounds) st =
    read_round lib files st (λ st'. read_all_properties lib files rounds st')

-- The files of a filesInfo. A source of n bytes has bytes for n rounds, and the next one finds its
-- end.
unfoldable pub read_files_info : Libraries → Parser (List FileHeader)
read_files_info lib = do
  files ← read_uint64_bounded true
  λ s.
      read_all_properties lib files (length s)
        (record { file = replicate files no_file; empty_streams = 0 }) s
