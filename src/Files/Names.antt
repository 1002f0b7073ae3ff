-- ===== src/Files/Names.antt =====
-- The names of the files: writeFilesInfo's encoding (write_struct.go) and readNames (types.go).
use sevenzip.Prelude.{
  ℕ, zero, suc, ◌-◌, ◌^◌, ◌≤◌, ◌<◌, ◌≡◌, ◌≢◌, refl, true, false, some, List, [], ◌∷◌, ◌++◌, All,
  arith, ◌==◌, ==_iff, lt→ltb, length, length-append, take-length-append, drop-length-append,
}
use sevenzip.Stream.{Bytes, ok, read_byte}
use sevenzip.Vectors.{IsCount}
use sevenzip.Vectors.RoundTrip.{check_uint64-IsCount}
use sevenzip.Files.{Libraries, index_null, split_null, string_length, scan, read_names}
use sevenzip.Files.Utf16.{Utf16, IsScalar, joined, Utf16-write_names}
use sevenzip.Files.Write.{write_names}

-- A name that the scanner gives back: without the rune 0, and shorter than its buffer.
abbrev pub IsName : List ℕ → Type 0
IsName name = All (λ r. r ≢ 0) name × (string_length name < 65536)

-- The decoder of golang.org/x/text gives the characters of every well-formed text.
abbrev pub DecodesUtf16 : Libraries → Type 0
DecodesUtf16 lib = (s : Bytes) (text : List ℕ) → Utf16 s text → lib.decode s ≡ text

index_null_token :
    (name rest : List ℕ)
    → All (λ r. r ≢ 0) name
    → index_null (name ++ (0 ∷ rest)) ≡ some (name, rest)
unfolding index_null
index_null_token [] rest h = refl
index_null_token (r ∷ name) rest (ne, h) =
    let other : (r == 0) ≡ false = ground arith in rw (other, index_null_token name rest h) refl

split_null_token :
    (name rest : List ℕ)
    → All (λ r. r ≢ 0) name
    → split_null (name ++ (0 ∷ rest)) true ≡ (some name, rest)
unfolding split_null index_null
split_null_token [] rest h = refl
split_null_token (r ∷ name) rest h = rw (index_null_token (r ∷ name) rest h, split_null) refl

length-joined : (names : List (List ℕ)) → length names ≤ length (joined names)
length-joined [] = omega arith
length-joined (name ∷ names) =
    omega (arith, length-append name (0 ∷ joined names), length-joined names)

scan-joined :
    (rounds : ℕ) (names : List (List ℕ))
    → length names ≤ rounds
    → All IsName names
    → scan rounds (joined names) ≡ ok names
unfolding scan split_null
scan-joined zero [] h valid = refl
scan-joined zero (name ∷ names) h valid = absurd (omega arith)
scan-joined (suc rounds) [] h valid = refl
scan-joined (suc rounds) (name ∷ names) h ((no_null, short), valid) =
    simp
      (
        scan,
        split_null_token name (joined names) no_null,
        lt→ltb (string_length name) 65536 short,
        scan-joined rounds names (omega arith) valid,
      )
      refl

-- readNames inverts the encoding of writeFilesInfo on names without a null, each shorter than the
-- scanner's buffer, whatever their characters are, with a decoder that follows the definition of
-- UTF-16.
pub read_names-write_names :
    (lib : Libraries) (names : List (List ℕ)) (rest : Bytes)
    → IsCount (length names)
    → length (write_names names) < 2 ^ 63
    → All IsName names
    → All (All IsScalar) names
    → DecodesUtf16 lib
    → read_names lib
        (length names)
        (length (0 ∷ write_names names))
        (0 ∷ (write_names names ++ rest))
      ≡ ok (names, rest)
unfolding read_names read_byte
read_names-write_names lib names rest counted short valid scalars decodes =
    let body = write_names names in
    let before : suc (length body) - 1 ≡ length body = omega arith in
    simp
      (
        check_uint64-IsCount (length names) _ counted,
        before,
        lt→ltb (length body) (2 ^ 63) short,
        take-length-append body rest,
        drop-length-append body rest,
        decodes (write_names names) (joined names) (Utf16-write_names names scalars),
        scan-joined (length (joined names)) names (length-joined names) valid,
        (==_iff (length names) (length names)).1 refl,
      )
      refl
