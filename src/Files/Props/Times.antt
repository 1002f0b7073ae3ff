-- ===== src/Files/Props/Times.antt =====
-- A property of times as writeTimeProp writes it (write_struct.go), and the round of readFilesInfo
-- (types.go) that reads it.
use sevenzip.Prelude.{
  ℕ, ◌*◌, ◌/◌, ◌^◌, ◌≤◌, ◌<◌, ◌≡◌, refl, ap, Bool, true, false, not, List, [], ◌∷◌, ◌++◌,
  append_assoc, map, length, length-map, All, ◌⊎◌, inl, inr, arith, ◌==◌, sym, ◌∙◌, subst,
  Bool-cases,
}
use sevenzip.PropertyId
use sevenzip.Stream.{Bytes, ok, bind, read_byte, le_bytes}
use sevenzip.Vectors.{read_optional_bool, IsCount, write_optional_bool}
use sevenzip.Vectors.RoundTrip.{check_uint64-IsCount, read_optional_bool-write_optional_bool}
use sevenzip.Files.{
  Libraries, FileHeader, time_to_filetime, read_time, read_times, read_defined_times,
}
use sevenzip.Files.Props.{state, looped, then_ok, assign-map, map_unset, property_round}
use sevenzip.Files.Read.{FilesState, read_time_property, read_property}
use sevenzip.Files.Times.{ConvertsFiletimes, earliest, latest, read_time-time_to_filetime}
use sevenzip.Files.Write.{any, write_times, write_time_prop, write_optional_time, has_time}

-- The three times of a file.
pub data TimeField : Type 0 where
  created accessed modified : TimeField

abbrev pub field_id : TimeField → ℕ
field_id created = PropertyId.ctime
field_id accessed = PropertyId.atime
field_id modified = PropertyId.mtime

abbrev pub field_of : TimeField → FileHeader → ℕ
field_of created f = f.created
field_of accessed f = f.accessed
field_of modified f = f.modified

abbrev pub set_field : TimeField → ℕ → FileHeader → FileHeader
set_field created t f = record f { created = t }
set_field accessed t f = record f { accessed = t }
set_field modified t f = record f { modified = t }

-- No time, or one that is read back rounded down.
abbrev pub FitsTime : ℕ → Type 0
FitsTime t = (t ≡ 0) ⊎ ((earliest ≤ t / 100 * 100) × (t ≤ latest))

abbrev pub rounded : ℕ → ℕ
rounded t = t / 100 * 100

time_then :
    (lib : Libraries) (t : ℕ) (times : List ℕ) (rest : Bytes)
    → read_time lib (le_bytes 8 (time_to_filetime t) ++ (write_times times ++ rest))
      ≡ ok (rounded t, write_times times ++ rest)
    → read_defined_times lib (map (λ t. not (t == 0)) times) (write_times times ++ rest)
      ≡ ok (map rounded times, rest)
    → read_defined_times lib
        (true ∷ map (λ t. not (t == 0)) times)
        ((le_bytes 8 (time_to_filetime t) ++ write_times times) ++ rest)
      ≡ ok (map rounded (t ∷ times), rest)
unfolding read_defined_times
time_then lib t times rest first later =
    then_ok (read_time lib) _ _ (
      ap (read_time lib) (append_assoc (le_bytes 8 (time_to_filetime t)) (write_times times) rest)
      ∙ first)
    ∙ then_ok (read_defined_times lib (map (λ t. not (t == 0)) times)) _ _ later

read_defined_times-write_times :
    (lib : Libraries) (times : List ℕ) (rest : Bytes)
    → ConvertsFiletimes lib
    → All FitsTime times
    → read_defined_times lib (map (λ t. not (t == 0)) times) (write_times times ++ rest)
      ≡ ok (map rounded times, rest)
unfolding read_defined_times write_times
read_defined_times-write_times lib [] rest converts fits = refl
read_defined_times-write_times lib (t ∷ times) rest converts (h, fits) =
    let later = read_defined_times-write_times lib times rest converts fits in
    elim (Bool-cases (t == 0)) [
      | inl e ↦ let none : rounded t ≡ 0 = ground arith in rw (e, later, none) refl
      | inr e ↦
          let bounds : (earliest ≤ t / 100 * 100) × (t ≤ latest) = elim h [
            | inl z ↦ absurd (ground arith)
            | inr b ↦ b
          ] in
          rw e (
            time_then lib t times rest
              (read_time-time_to_filetime lib t (write_times times ++ rest) converts bounds.0
                bounds.1)
              later)
    ]

-- The bytes of a property of times.
abbrev pub time_body : (FileHeader → ℕ) → List FileHeader → Bytes
time_body get files =
    write_optional_bool (map (λ f. not (get f == 0)) files) ++ (0 ∷ write_times (map get files))

defined_values :
    (get : FileHeader → ℕ) (files : List FileHeader)
    → map (λ t. not (t == 0)) (map get files) ≡ map (λ f. not (get f == 0)) files
defined_values get [] = refl
defined_values get (f ∷ files) = ap (λ r. not (get f == 0) ∷ r) (defined_values get files)

rounded_values :
    (get : FileHeader → ℕ) (files : List FileHeader)
    → map rounded (map get files) ≡ map (λ f. rounded (get f)) files
rounded_values get [] = refl
rounded_values get (f ∷ files) = ap (λ r. rounded (get f) ∷ r) (rounded_values get files)

read_times-time_body :
    (lib : Libraries) (get : FileHeader → ℕ) (files : List FileHeader) (rest : Bytes)
    → ConvertsFiletimes lib
    → IsCount (length files)
    → All FitsTime (map get files)
    → read_times lib (length files) (time_body get files ++ rest)
      ≡ ok (map (λ f. rounded (get f)) files, rest)
unfolding read_times read_byte
read_times-time_body lib get files rest converts counted fits =
    let flags = map (λ f. not (get f == 0)) files in
    let times = map get files in
    let flagged : length flags ≡ length files = length-map files _ in
    let defined : read_optional_bool (length files)
          (write_optional_bool flags ++ (0 ∷ (write_times times ++ rest)))
        ≡ ok (flags, 0 ∷ (write_times times ++ rest)) =
      subst
        (λ k.
          read_optional_bool k (write_optional_bool flags ++ (0 ∷ (write_times times ++ rest)))
          ≡ ok (flags, 0 ∷ (write_times times ++ rest)))
        flagged
        (read_optional_bool-write_optional_bool flags (0 ∷ (write_times times ++ rest))
          (rw flagged counted)) in
    let read : read_defined_times lib flags (write_times times ++ rest)
        ≡ ok (map (λ f. rounded (get f)) files, rest) =
      ap (λ d. read_defined_times lib d (write_times times ++ rest))
        (sym (defined_values get files))
      ∙ (read_defined_times-write_times lib times rest converts fits
          ∙ ap (λ ts. ok (ts, rest)) (rounded_values get files)) in
    simp (append_assoc, check_uint64-IsCount (length files) _ counted, defined, read) refl

field_not_end : (field : TimeField) → (field_id field == PropertyId.end) ≡ false
field_not_end created = refl
field_not_end accessed = refl
field_not_end modified = refl

-- The case of the switch for each of the three.
field_property :
    (lib : Libraries) (n size : ℕ) (field : TimeField) (st : FilesState)
    → read_property lib n (field_id field) size st ≡ read_time_property lib n (set_field field) st
unfolding read_property
field_property lib n size created st = refl
field_property lib n size accessed st = refl
field_property lib n size modified st = refl

module _ (lib : Libraries) (field : TimeField) (files : List FileHeader)
    (h : FileHeader → FileHeader) (streams : ℕ) where
  abbrev pub timed : FileHeader → FileHeader
  timed f = set_field field (rounded (field_of field f)) (h f)

  read_property-time_body :
      (size : ℕ) (rest : Bytes)
      → ConvertsFiletimes lib
      → IsCount (length files)
      → All FitsTime (map (field_of field) files)
      → read_property lib
          (length files)
          (field_id field)
          size
          (state files h streams)
          (time_body (field_of field) files ++ rest)
        ≡ ok (state files timed streams, rest)
  unfolding read_time_property
  read_property-time_body size rest converts counted fits =
      let step : read_time_property lib (length files) (set_field field) (state files h streams)
            (time_body (field_of field) files ++ rest)
          ≡ ok (state files timed streams, rest) =
        then_ok (read_times lib (length files)) _ _
          (read_times-time_body lib (field_of field) files rest converts counted fits)
        ∙ ap (λ r. bind r (λ fs. ok (record { file = fs; empty_streams = streams }, rest)))
            (assign-map (set_field field) (λ f. rounded (field_of field f)) h files) in
      ap (λ p. p (time_body (field_of field) files ++ rest))
        (field_property lib (length files) size field (state files h streams))
      ∙ step

  -- The property is there where a file has the time, and where none has it nothing changes.
  pub time_round :
      (rest : Bytes)
      → ConvertsFiletimes lib
      → IsCount (length files)
      → All FitsTime (map (field_of field) files)
      → length (time_body (field_of field) files) < 2 ^ 64
      → ((f : FileHeader) → set_field field 0 (h f) ≡ h f)
      → looped lib
          (length files)
          (state files h streams)
          (write_optional_time (field_id field) (field_of field) files ++ rest)
        ≡ looped lib (length files) (state files timed streams) rest
  unfolding write_optional_time has_time write_time_prop
  time_round rest converts counted fits small unset =
      let test : FileHeader → Bool = λ f. not (field_of field f == 0) in
      elim (Bool-cases (any (map test files))) [
        | inl e ↦
            rw (e, append_assoc)
              (property_round lib (length files) (field_id field)
                (length (time_body (field_of field) files)) (time_body (field_of field) files) rest
                (state files h streams) (state files timed streams) (field_not_end field) small
                (read_property-time_body (length (time_body (field_of field) files)) rest converts
                  counted fits))
        | inr e ↦ rw e (
            ap
              (λ fs. looped lib (length files) (record { file = fs; empty_streams = streams }) rest)
              (map_unset test h timed files e λ f no.
                let zero_time : field_of field f ≡ 0 = ground arith in
                ap (λ t. set_field field (rounded t) (h f)) zero_time ∙ unset f))
      ]
