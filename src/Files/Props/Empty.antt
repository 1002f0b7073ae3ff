-- ===== src/Files/Props/Empty.antt =====
-- The empty streams and the empty files as writeFilesInfo writes them (write_struct.go), and the rounds
-- of readFilesInfo (types.go) that read them.
use sevenzip.Prelude.{
  append-nil, ℕ, ◌+◌, ◌/◌, ◌%◌, ◌^◌, ◌≤◌, ◌<◌, ◌≡◌, refl, ap, Bool, true, ◌&&◌, List, [], ◌∷◌, ◌++◌,
  append_assoc, map, length, length-map, replicate, inl, inr, arith, sym, ◌∙◌, subst, Bool-cases,
}
use sevenzip.PropertyId
use sevenzip.Stream.{Bytes, ok, bind}
use sevenzip.Vectors.{IsCount, read_bool, write_bool}
use sevenzip.Vectors.RoundTrip.{read_bool-write_bool}
use sevenzip.Files.{Libraries, FileHeader, no_file}
use sevenzip.Files.Props.{state, looped, then_ok, map_unset, property_round}
use sevenzip.Files.Read.{
  set_empty_streams, set_empty_files, count_empty, read_empty_streams, read_empty_files,
  read_property,
}
use sevenzip.Files.Write.{any, empty_files, write_bits_property, write_empty}

abbrev marked : FileHeader → FileHeader
marked f = record no_file { is_empty_stream = f.is_empty_stream }

-- A file that says whether it is empty: one with a stream is none.
abbrev pub emptied : FileHeader → FileHeader
emptied f = record no_file {
  is_empty_stream = f.is_empty_stream;
  is_empty_file = f.is_empty_stream && f.is_empty_file;
}

abbrev streams_of : List FileHeader → List Bool
streams_of files = map (λ f. f.is_empty_stream) files

pub replicate-map :
    (files : List FileHeader) → replicate (length files) no_file ≡ map (λ f. no_file) files
replicate-map [] = refl
replicate-map (f ∷ files) = ap (λ fs. no_file ∷ fs) (replicate-map files)

set_empty_streams-map :
    (files : List FileHeader)
    → set_empty_streams (map (λ f. no_file) files) (streams_of files) ≡ ok (map marked files)
unfolding set_empty_streams
set_empty_streams-map [] = refl
set_empty_streams-map (f ∷ files) = rw (set_empty_streams-map files) refl

count_empty-map :
    (files : List FileHeader) → count_empty (map marked files) ≡ length (empty_files files)
unfolding empty_files
count_empty-map [] = refl
count_empty-map (f ∷ files) = elim (Bool-cases f.is_empty_stream) [
  | inl e ↦ rw (e, count_empty-map files) (omega arith)
  | inr e ↦ rw (e, count_empty-map files) (omega arith)
]

length-empty_files : (files : List FileHeader) → length (empty_files files) ≤ length files
unfolding empty_files
length-empty_files [] = omega arith
length-empty_files (f ∷ files) =
    let later = length-empty_files files in
    elim (Bool-cases f.is_empty_stream) [ inl e ↦ rw e (omega arith) | inr e ↦ rw e (omega arith) ]

set_empty_files-map :
    (files : List FileHeader)
    → set_empty_files (map marked files) (empty_files files) ≡ ok (map emptied files)
unfolding set_empty_files empty_files
set_empty_files-map [] = refl
set_empty_files-map (f ∷ files) = elim (Bool-cases f.is_empty_stream) [
  | inl e ↦ rw (e, set_empty_files-map files) refl
  | inr e ↦ rw (e, set_empty_files-map files) refl
]

abbrev is_empty : FileHeader → Bool
is_empty f = f.is_empty_stream && f.is_empty_file

any-empty_files : (files : List FileHeader) → any (empty_files files) ≡ any (map is_empty files)
unfolding empty_files
any-empty_files [] = refl
any-empty_files (f ∷ files) = elim (Bool-cases f.is_empty_stream) [
  | inl e ↦ rw (e, any-empty_files files) refl
  | inr e ↦ rw (e, any-empty_files files) refl
]

any-some : (bits : List Bool) → any bits ≡ true → 0 < length bits
any-some [] h = absurd (cc)
any-some (b ∷ bits) h = omega arith

module _ (lib : Libraries) (files : List FileHeader) (counted : IsCount (length files)) where
  streams_round :
      (rest : Bytes)
      → looped lib
          (length files)
          (state files (λ f. no_file) 0)
          (write_bits_property PropertyId.empty_stream (streams_of files) ++ rest)
        ≡ looped lib (length files) (state files marked (length (empty_files files))) rest
  unfolding read_property read_empty_streams
  streams_round rest =
      let bits = streams_of files in
      let as_many : length bits ≡ length files = length-map files _ in
      let size = (length bits + 7) / 8 in
      let count = length (empty_files files) in
      let few = length-empty_files files in
      let read : read_bool (length files) (write_bool bits ++ rest) ≡ ok (bits, rest) =
        subst (λ k. read_bool k (write_bool bits ++ rest) ≡ ok (bits, rest)) as_many
          (read_bool-write_bool bits rest (rw as_many counted)) in
      let total : (0 + count_empty (map marked files)) % 2 ^ 64 ≡ count =
        omega (arith, count_empty-map files) in
      rw append_assoc (
        property_round lib (length files) PropertyId.empty_stream size (write_bool bits) rest
          (state files (λ f. no_file) 0) (state files marked count) refl (omega arith)
          (then_ok (read_bool (length files)) _ _ read
            ∙ (ap
                  (λ r. bind r (λ fs.
                    ok (record { file = fs; empty_streams = (0 + count_empty fs) % 2 ^ 64 }, rest)))
                  (set_empty_streams-map files)
                ∙ ap (λ k. ok (record { file = map marked files; empty_streams = k }, rest))
                    total)))

  files_round :
      (rest : Bytes)
      → any (empty_files files) ≡ true
      → looped lib
          (length files)
          (state files marked (length (empty_files files)))
          (write_bits_property PropertyId.empty_file (empty_files files) ++ rest)
        ≡ looped lib (length files) (state files emptied (length (empty_files files))) rest
  unfolding read_property read_empty_files
  files_round rest some_empty =
      let bits = empty_files files in
      let count = length bits in
      let few = length-empty_files files in
      let read : read_bool count (write_bool bits ++ rest) ≡ ok (bits, rest) =
        read_bool-write_bool bits rest (any-some bits some_empty, omega arith) in
      rw append_assoc (
        property_round lib (length files) PropertyId.empty_file ((count + 7) / 8) (write_bool bits)
          rest (state files marked count) (state files emptied count) refl (omega arith)
          (then_ok (read_bool count) _ _ read
            ∙ ap (λ r. bind r (λ fs. ok (record { file = fs; empty_streams = count }, rest)))
                (set_empty_files-map files)))

  -- Where no file is without a stream, or none of those is an empty file, the property is left out.
  pub empty_round :
      (rest : Bytes)
      → (k : ℕ) × (looped lib
            (length files)
            (state files (λ f. no_file) 0)
            (write_empty files ++ rest)
          ≡ looped lib (length files) (state files emptied k) rest)
  unfolding write_empty
  empty_round rest =
      let go = λ (h : FileHeader → FileHeader) (k : ℕ) (e : map h files ≡ map emptied files).
        ap (λ fs. looped lib (length files) (record { file = fs; empty_streams = k }) rest) e in
      elim (Bool-cases (any (streams_of files))) [
        | inr none ↦ (
          0,
          rw none (
              go (λ f. no_file) 0
                (map_unset (λ f. f.is_empty_stream) (λ f. no_file) emptied files none
                  λ f e. rw e refl)),
        )
        | inl some_streams ↦ elim (Bool-cases (any (empty_files files))) [
          | inl some_empty ↦ (
            length (empty_files files),
            rw (some_streams, some_empty, append_assoc)
                (streams_round
                    (write_bits_property PropertyId.empty_file (empty_files files) ++ rest)
                  ∙ files_round rest some_empty),
          )
          | inr none ↦ (
            length (empty_files files),
            rw (some_streams, none, append-nil)
                (streams_round rest
                  ∙ go marked (length (empty_files files)) (
                      map_unset is_empty marked emptied files (sym (any-empty_files files) ∙ none)
                        λ f e. rw e refl)),
          )
        ]
      ]
