-- ===== src/Files/Props/Values.antt =====
-- The names and the attributes of the files as writeFilesInfo writes them (write_struct.go), and the
-- rounds of readFilesInfo (types.go) that read them.
use sevenzip.Prelude.{
  ℕ, suc, ◌^◌, ◌<◌, ◌≡◌, refl, ap, Bool, not, List, [], ◌∷◌, ◌++◌, append_assoc, map, length,
  length-map, All, inl, inr, arith, ◌==◌, sym, ◌∙◌, subst, Bool-cases,
}
use sevenzip.PropertyId
use sevenzip.Stream.{Bytes, ok, bind, read_byte}
use sevenzip.Vectors.{IsCount, write_optional_bool, read_optional_bool, write_defined, read_defined}
use sevenzip.Vectors.RoundTrip.{
  FitsWidth, kept, check_uint64-IsCount, read_optional_bool-write_optional_bool,
  read_defined-write_defined,
}
use sevenzip.Files.{Libraries, FileHeader, read_names, read_attributes}
use sevenzip.Files.Names.{IsName, DecodesUtf16, read_names-write_names}
use sevenzip.Files.Props.{state, looped, then_ok, assign-map, map_unset, property_round}
use sevenzip.Files.Read.{read_names_property, read_attributes_property, read_property}
use sevenzip.Files.Utf16.{IsScalar}
use sevenzip.Files.Write.{any, write_names, write_property, write_attributes}

abbrev pub names_of : List FileHeader → List (List ℕ)
names_of files = map (λ f. f.name) files

module _ (lib : Libraries) (files : List FileHeader) (h : FileHeader → FileHeader)
    (streams : ℕ) where
  abbrev pub named : FileHeader → FileHeader
  named f = record (h f) { name = f.name }

  pub names_round :
      (rest : Bytes)
      → DecodesUtf16 lib
      → IsCount (length files)
      → All IsName (names_of files)
      → All (All IsScalar) (names_of files)
      → suc (length (write_names (names_of files))) < 2 ^ 63
      → looped lib
          (length files)
          (state files h streams)
          (write_property PropertyId.name (0 ∷ write_names (names_of files)) ++ rest)
        ≡ looped lib (length files) (state files named streams) rest
  unfolding read_property read_names_property
  names_round rest decodes counted valid scalars small =
      let names = names_of files in
      let body = 0 ∷ write_names names in
      let as_many : length names ≡ length files = length-map files _ in
      let read : read_names lib (length files) (length body) (body ++ rest) ≡ ok (names, rest) =
        subst (λ k. read_names lib k (length body) (body ++ rest) ≡ ok (names, rest)) as_many
          (read_names-write_names lib names rest (rw as_many counted) (omega arith) valid scalars
            decodes) in
      rw append_assoc (
        property_round lib (length files) PropertyId.name (length body) body rest
          (state files h streams) (state files named streams) refl (omega arith)
          (then_ok (read_names lib (length files) (length body)) _ _ read
            ∙ ap (λ r. bind r (λ fs. ok (record { file = fs; empty_streams = streams }, rest)))
                (assign-map (λ n f. record f { name = n }) (λ f. f.name) h files)))

kept_set :
    (files : List FileHeader)
    → kept (map (λ f. f.attributes) files) (map (λ f. not (f.attributes == 0)) files)
      ≡ map (λ f. f.attributes) files
kept_set [] = refl
kept_set (f ∷ files) = elim (Bool-cases (f.attributes == 0)) [
  | inl e ↦ let none : f.attributes ≡ 0 = ground arith in rw (e, kept_set files, none) refl
  | inr e ↦ rw (e, kept_set files) refl
]

abbrev pub attributes_of : List FileHeader → List ℕ
attributes_of files = map (λ f. f.attributes) files

abbrev with_attributes : List FileHeader → List Bool
with_attributes files = map (λ f. not (f.attributes == 0)) files

abbrev pub attributes_body : List FileHeader → Bytes
attributes_body files =
    write_optional_bool (with_attributes files)
    ++ (0 ∷ write_defined 4 (attributes_of files) (with_attributes files))

read_attributes-attributes_body :
    (files : List FileHeader) (rest : Bytes)
    → IsCount (length files)
    → All (FitsWidth 4) (attributes_of files)
    → read_attributes (length files) (attributes_body files ++ rest)
      ≡ ok (attributes_of files, rest)
unfolding read_attributes read_byte
read_attributes-attributes_body files rest counted fits =
    let flags = with_attributes files in
    let values = attributes_of files in
    let flagged : length flags ≡ length files = length-map files _ in
    let valued : length values ≡ length files = length-map files _ in
    let more = write_defined 4 values flags ++ rest in
    let defined : read_optional_bool (length files) (write_optional_bool flags ++ (0 ∷ more))
        ≡ ok (flags, 0 ∷ more) =
      subst
        (λ k. read_optional_bool k (write_optional_bool flags ++ (0 ∷ more)) ≡ ok (flags, 0 ∷ more))
        flagged (read_optional_bool-write_optional_bool flags (0 ∷ more) (rw flagged counted)) in
    let read : read_defined 4 flags more ≡ ok (values, rest) =
      read_defined-write_defined 4 values flags rest fits (valued ∙ sym flagged)
      ∙ ap (λ vs. ok (vs, rest)) (kept_set files) in
    simp (append_assoc, check_uint64-IsCount (length files) _ counted, defined, read) refl

module _ (lib : Libraries) (files : List FileHeader) (h : FileHeader → FileHeader)
    (streams : ℕ) where
  abbrev pub attributed : FileHeader → FileHeader
  attributed f = record (h f) { attributes = f.attributes }

  pub attributes_round :
      (rest : Bytes)
      → IsCount (length files)
      → All (FitsWidth 4) (attributes_of files)
      → length (attributes_body files) < 2 ^ 64
      → ((f : FileHeader) → record (h f) { attributes = 0 } ≡ h f)
      → looped lib (length files) (state files h streams) (write_attributes files ++ rest)
        ≡ looped lib (length files) (state files attributed streams) rest
  unfolding write_attributes read_property read_attributes_property
  attributes_round rest counted fits small unset =
      let body = attributes_body files in
      elim (Bool-cases (any (with_attributes files))) [
        | inl e ↦
            rw (e, append_assoc)
              (property_round lib (length files) PropertyId.win_attributes (length body) body rest
                (state files h streams) (state files attributed streams) refl small
                (then_ok (read_attributes (length files)) _ _
                    (read_attributes-attributes_body files rest counted fits)
                  ∙ ap
                      (λ r. bind r (λ fs. ok (record { file = fs; empty_streams = streams }, rest)))
                      (assign-map (λ a f. record f { attributes = a }) (λ f. f.attributes) h
                        files)))
        | inr e ↦ rw e (
            ap
              (λ fs. looped lib (length files) (record { file = fs; empty_streams = streams }) rest)
              (map_unset (λ f. not (f.attributes == 0)) h attributed files e
                λ f no.
                  let none : f.attributes ≡ 0 = ground arith in
                  ap (λ a. record (h f) { attributes = a }) none ∙ unset f))
      ]
