-- ===== src/Tests/Files.antt =====
-- The files of a small archive (types.go, write_struct.go), with a decoder of UTF-16.
use sevenzip.Prelude.{
  ℕ, ◌+◌, ◌-◌, ◌*◌, ◌/◌, ◌%◌, ◌^◌, ◌≡◌, refl, List, [], ◌∷◌, ◌++◌, arith, length, Option, none,
  some, Bool, true, false, ◌||◌, ◌⊎◌, ◌<◌, ◌≤◌, ap, ◌∙◌, ltb, leb, subst, All, inl, inr,
}
use sevenzip.Stream.{Bytes, ok, le_bytes}
use sevenzip.Files.{Libraries, time_to_filetime, read_time, read_names, unix_seconds}
use sevenzip.Files.Write.{write_names, write_units, utf16_encode, encode_rune}
use sevenzip.Files.Times.{ConvertsFiletimes, read_time-time_to_filetime}
use sevenzip.Files.Names.{read_names-write_names, DecodesUtf16}
use sevenzip.Files.Utf16.{end_of_text, one_unit, two_units, IsScalar}

-- The value of two bytes is a unit, or waits as the first of a pair.
abbrev decode_units : Option ℕ → Bytes → List ℕ
decode_units none [] = []
decode_units (some first) [] = 0xfffd ∷ []
decode_units waiting (low ∷ []) = 0xfffd ∷ []
decode_units none (low ∷ high ∷ s) =
    let unit = low + 256 * high in
    elim (ltb unit 0xd800 || leb 0xe000 unit) [
      | true ↦ unit ∷ decode_units none s
      | false ↦ decode_units (some unit) s
    ]
decode_units (some first) (low ∷ high ∷ s) =
    (0x10000 + (first - 0xd800) * 0x400 + (low + 256 * high - 0xdc00)) ∷ decode_units none s

abbrev pub libraries : Libraries
libraries = record {
  decode = decode_units none;
  nanoseconds = λ low high.
      ((low + 2 ^ 32 * high) * 100 + (2 ^ 64 - 116444736000000000 * 100 % 2 ^ 64)) % 2 ^ 64;
}

pub libraries-ConvertsFiletimes : ConvertsFiletimes libraries
libraries-ConvertsFiletimes low high hl hh = refl

-- The start of 2024.
abbrev pub new_year : ℕ
new_year = 63839664000 * 10 ^ 9

read_time-time_to_filetime_example :
    read_time libraries (le_bytes 8 (time_to_filetime (new_year + 123)) ++ (7 ∷ []))
    ≡ ok ((new_year + 123) / 100 * 100, 7 ∷ [])
read_time-time_to_filetime_example =
    read_time-time_to_filetime libraries (new_year + 123) (7 ∷ []) libraries-ConvertsFiletimes
      (omega arith) (omega arith)

-- The FILETIME of the Unix epoch.
epoch_filetime : time_to_filetime (62135596800 * 10 ^ 9) ≡ 116444736000000000
unfolding time_to_filetime unix_seconds
epoch_filetime = refl

one_decoded :
    (low high : ℕ) (s : Bytes)
    → (low + 256 * high < 0xd800) ⊎ (0xe000 ≤ low + 256 * high)
    → decode_units none (low ∷ high ∷ s) ≡ (low + 256 * high) ∷ decode_units none s
one_decoded low high s outside =
    let u = low + 256 * high in
    let single : (ltb u 0xd800 || leb 0xe000 u) ≡ true = ground arith in
    ap (λ (b : Bool). elim b [ true ↦ u ∷ decode_units none s | false ↦ decode_units (some u) s ])
      single

two_decoded :
    (low high : ℕ) (s : Bytes)
    → (0xd800 ≤ low + 256 * high) × (low + 256 * high < 0xdc00)
    → decode_units none (low ∷ high ∷ s) ≡ decode_units (some (low + 256 * high)) s
two_decoded low high s first =
    let u = low + 256 * high in
    let paired : (ltb u 0xd800 || leb 0xe000 u) ≡ false = ground arith in
    ap (λ (b : Bool). elim b [ true ↦ u ∷ decode_units none s | false ↦ decode_units (some u) s ])
      paired

pub libraries-DecodesUtf16 : DecodesUtf16 libraries
libraries-DecodesUtf16 _ _ end_of_text = refl
libraries-DecodesUtf16 _ _ (one_unit low high r {s} {text} hl hh e outside rest) =
    let outside' : (low + 256 * high < 0xd800) ⊎ (0xe000 ≤ low + 256 * high) =
      subst (λ x. (x < 0xd800) ⊎ (0xe000 ≤ x)) e outside in
    one_decoded low high s outside' ∙ rw (libraries-DecodesUtf16 s text rest, e) refl
libraries-DecodesUtf16 _ _ (two_units low high low' high' r {s} {text} first second e rest) =
    two_decoded low high (low' ∷ high' ∷ s) first ∙ rw (libraries-DecodesUtf16 s text rest, e) refl

-- A letter, and a name of three characters of which the second is a pair of surrogates.
abbrev two_names : List (List ℕ)
two_names = (97 ∷ []) ∷ (0x20ac ∷ 0x1f600 ∷ 98 ∷ []) ∷ []

two_names_written :
    write_names two_names
    ≡ 97 ∷ 0 ∷ 0 ∷ 0 ∷ 0xac ∷ 0x20 ∷ 0x3d ∷ 0xd8 ∷ 0 ∷ 0xde ∷ 98 ∷ 0 ∷ 0 ∷ 0 ∷ []
unfolding write_names write_units utf16_encode encode_rune
two_names_written = refl

length-two_names : length (write_names two_names) ≡ 14
unfolding write_names write_units utf16_encode encode_rune
length-two_names = refl

scalars : All (All IsScalar) two_names
scalars = (
  (inl (omega arith), tt),
  ((inl (omega arith), (inr (omega arith, omega arith), (inl (omega arith), tt))), tt),
)

read_names-write_names_example :
    read_names libraries 2
      (length (0 ∷ write_names two_names))
      (0 ∷ (write_names two_names ++ (21 ∷ [])))
    ≡ ok (two_names, 21 ∷ [])
read_names-write_names_example =
    read_names-write_names libraries two_names (21 ∷ []) (omega arith, omega arith)
      (omega (arith, length-two_names))
      ((omega arith, omega arith), ((omega arith, omega arith), tt)) scalars libraries-DecodesUtf16
