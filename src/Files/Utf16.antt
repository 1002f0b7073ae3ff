-- ===== src/Files/Utf16.antt =====
-- UTF-16 in little-endian order by its definition (RFC 2781), which golang.org/x/text follows, and what
-- writeFilesInfo (write_struct.go) makes of a name.
use sevenzip.Prelude.{
  ℕ, ◌+◌, ◌-◌, ◌*◌, ◌/◌, ◌%◌, ◌^◌, ◌≤◌, ◌<◌, ◌≡◌, true, ◌&&◌, ◌||◌, List, [], ◌∷◌, ◌++◌, All, ◌⊎◌,
  inl, inr, arith, ltb, leb, Bool-cases,
}
use sevenzip.Stream.{Bytes, IsByte}
use sevenzip.Files.Write.{encode_rune, utf16_encode, write_units, write_names}

-- The bytes of a text and its characters: one unit outside the surrogates, or a pair of them.
pub data Utf16 : Bytes → List ℕ → Type 0 where
  end_of_text : Utf16 [] []
  one_unit :
      (low high r : ℕ) {s : Bytes} {text : List ℕ}
      → IsByte low
      → IsByte high
      → r ≡ low + 256 * high
      → (r < 0xd800) ⊎ (0xe000 ≤ r)
      → Utf16 s text
      → Utf16 (low ∷ high ∷ s) (r ∷ text)
  two_units :
      (low high low' high' r : ℕ) {s : Bytes} {text : List ℕ}
      → (0xd800 ≤ low + 256 * high) × (low + 256 * high < 0xdc00)
      → (0xdc00 ≤ low' + 256 * high') × (low' + 256 * high' < 0xe000)
      → r ≡ 0x10000 + (low + 256 * high - 0xd800) * 0x400 + (low' + 256 * high' - 0xdc00)
      → Utf16 s text
      → Utf16 (low ∷ high ∷ low' ∷ high' ∷ s) (r ∷ text)

-- A character of Unicode that is no surrogate, as []rune(s) gives for every string.
abbrev pub IsScalar : ℕ → Type 0
IsScalar r = (r < 0xd800) ⊎ ((0xe000 ≤ r) × (r < 0x110000))

Utf16-encode_rune :
    (r : ℕ) (units : List ℕ) (s : Bytes) (text : List ℕ)
    → IsScalar r
    → Utf16 (write_units units ++ s) text
    → Utf16 (write_units (encode_rune r ++ units) ++ s) (r ∷ text)
unfolding encode_rune write_units
Utf16-encode_rune r units s text scalar rest =
    elim (Bool-cases (ltb r 0xd800 || (leb 0xe000 r && ltb r 0x10000))) [
      | inl e ↦ rw e (
          one_unit (r % 256) (r / 2 ^ 8 % 256) r (omega arith) (omega arith) (ground arith)
            (ground arith) rest)
      | inr e ↦
          let pair : (leb 0x10000 r && leb r 0x10ffff) ≡ true = ground arith in
          let above : 0x10000 ≤ r = ground arith in
          let below : r < 0x110000 = ground arith in
          let h = 0xd800 + (r - 0x10000) / 2 ^ 10 in
          let l = 0xdc00 + (r - 0x10000) % 2 ^ 10 in
          rw (e, pair)
            (two_units (h % 256) (h / 2 ^ 8 % 256) (l % 256) (l / 2 ^ 8 % 256) r
              (omega arith, omega arith) (omega arith, omega arith) (omega arith) rest)
    ]

Utf16-utf16_encode :
    (name : List ℕ) (s : Bytes) (text : List ℕ)
    → All IsScalar name
    → Utf16 s text
    → Utf16 (write_units (utf16_encode name) ++ s) (name ++ text)
unfolding utf16_encode write_units
Utf16-utf16_encode [] s text h rest = rest
Utf16-utf16_encode (r ∷ name) s text (scalar, h) rest =
    Utf16-encode_rune r (utf16_encode name) s (name ++ text) scalar
      (Utf16-utf16_encode name s text h rest)

-- Each name and a null behind it.
abbrev pub joined : List (List ℕ) → List ℕ
joined [] = []
joined (name ∷ names) = name ++ (0 ∷ joined names)

-- What writeFilesInfo writes is UTF-16 of the names.
pub Utf16-write_names :
    (names : List (List ℕ)) → All (All IsScalar) names → Utf16 (write_names names) (joined names)
unfolding write_names
Utf16-write_names [] h = end_of_text
Utf16-write_names (name ∷ names) (scalars, h) =
    Utf16-utf16_encode name (0 ∷ 0 ∷ write_names names) (0 ∷ joined names) scalars (
      one_unit 0 0 0 (omega arith) (omega arith) (omega arith) (inl (omega arith))
        (Utf16-write_names names h))
