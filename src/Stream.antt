-- ===== src/Stream.antt =====
-- internal/util/reader.go (`Reader`) as the parsers of types.go use it, and the errors that they
-- return. A source is the list of the bytes that it still holds; it fails with nothing but EOF.
-- `Grant` says how many bytes one call of Read delivers, since an io.Reader may deliver fewer than
-- asked: `grant n s` for a buffer of n bytes on a source that holds s.
use native.Mathlib.Numerals.{towards_suc}
use sevenzip.Prelude.{
  ℕ, zero, suc, ◌+◌, ◌*◌, ◌/◌, ◌%◌, ◌^◌, ◌≤◌, ◌<◌, ◌≡◌, refl, ap, Bool, true, false, ◌&&◌, List, [],
  ◌∷◌, ◌++◌, arith, leb, le→leb, length, length-append, take, drop, take-length-append,
  drop-length-append, if◌then◌else◌,
}

-- The errors of types.go, reader.go and writer.go. `read` wraps the source's EOF; `todo` stands for the parts of
-- the format that the code refuses; `panic` is a run-time panic of Go (an index out of range, a send
-- on a closed channel).
pub data Error : Type 0 where
  read incomplete_read unexpected_id missing_unpack_info wrong_number_of_filenames : Error
  uint64_non_zero uint64_too_large invalid_bind_pair token_too_long todo panic : Error
  writer_closed file_writer_closed : Error
  bad_format bad_checksum too_much bad_offset : Error

pub data Result {ℓ} (A : Type ℓ) : Type ℓ where
  ok : A → Result A
  err : Error → Result A

module _ {ℓ κ} {A : Type ℓ} {B : Type κ} where
  abbrev pub bind : Result A → (A → Result B) → Result B
  bind (ok a) f = f a
  bind (err e) f = err e

abbrev pub Bytes : Type 0
Bytes = List ℕ

abbrev pub IsByte : ℕ → Type 0
IsByte b = b < 256

-- A parser takes what the source holds, and leaves the rest of it.
abbrev pub Parser {ℓ} : Type ℓ → Type ℓ
Parser A = Bytes → Result (A × Bytes)

module _ {ℓ} {A : Type ℓ} where
  abbrev pub pure : A → Parser A
  pure a s = ok (a, s)

  abbrev pub fail : Error → Parser A
  fail e s = err e

module _ {ℓ κ} {A : Type ℓ} {B : Type κ} where
  infixl 1 ◌>>=◌ ◌>>◌
  abbrev pub ◌>>=◌ : Parser A → (A → Parser B) → Parser B
  p >>= f = λ s. bind (p s) λ (a, rest). f a rest

  abbrev pub ◌>>◌ : Parser A → Parser B → Parser B
  p >> q = p >>= λ _. q

-- `if err := check(...); err != nil { return nil, err }`
abbrev pub guard : Bool → Error → Parser (Unit {0})
guard true e = pure tt
guard false e = fail e

abbrev pub Grant : Type 0
Grant = ℕ → Bytes → ℕ

-- A reader that fills the buffer whenever the source holds enough.
abbrev pub FillsBuffer : Grant → Type 0
FillsBuffer grant = (n : ℕ) (s : Bytes) → n ≤ length s → n ≤ grant n s

-- ReadByte
unfoldable pub read_byte : Parser ℕ
read_byte [] = err read
read_byte (b ∷ s) = ok (b, s)

-- The first n bytes, all of them or an error: io.ReadFull, which binary.Read uses.
unfoldable pub read_full : ℕ → Parser Bytes
read_full zero s = ok ([], s)
read_full (suc n) [] = err read
read_full (suc n) (b ∷ s) = bind (read_full n s) λ (bs, rest). ok (b ∷ bs, rest)

-- One call of Read for n bytes, which the callers follow by the test `n != size`: what the call
-- delivers is bounded by what the source holds.
unfoldable pub read_once : Grant → ℕ → Parser Bytes
read_once grant zero s = ok ([], s)
read_once grant (suc n) [] = err read
read_once grant (suc n) (b ∷ s) =
    let all = b ∷ s in
    if leb (suc n) (grant (suc n) all) && leb (suc n) (length all)
    then ok (take (suc n) all, drop (suc n) all)
    else err incomplete_read

-- encoding/binary, little endian: the low n bytes of w, and the number of some bytes.
unfoldable pub le_bytes : ℕ → ℕ → Bytes
le_bytes zero w = []
le_bytes (suc n) w = w % 256 ∷ le_bytes n (w / 256)

unfoldable pub le_number : Bytes → ℕ
le_number [] = 0
le_number (b ∷ bs) = b + 256 * le_number bs

-- binary.Read of an unsigned integer of n bytes.
unfoldable pub read_le : ℕ → Parser ℕ
read_le n = do bs ← read_full n; pure (le_number bs)

pub read_full-append : (xs rest : Bytes) → read_full (length xs) (xs ++ rest) ≡ ok (xs, rest)
unfolding read_full
read_full-append [] rest = refl
read_full-append (x ∷ xs) rest = rw (read_full-append xs rest)

pub read_once-append :
    (grant : Grant) (xs rest : Bytes)
    → FillsBuffer grant
    → read_once grant (length xs) (xs ++ rest) ≡ ok (xs, rest)
unfolding read_once
read_once-append grant [] rest fills = refl
read_once-append grant (x ∷ xs) rest fills = rw (
  le→leb _ _ (fills (suc (length xs)) (x ∷ (xs ++ rest)) enough),
  le→leb _ _ enough,
  take-length-append xs rest,
  drop-length-append xs rest,
)
  where
    enough : suc (length xs) ≤ length (x ∷ (xs ++ rest))
    enough = omega (arith, length-append xs rest)

pub read_once_short :
    (grant : Grant) (xs rest : Bytes)
    → 0 < length xs
    → ((s : Bytes) → grant (length xs) s < length xs)
    → read_once grant (length xs) (xs ++ rest) ≡ err incomplete_read
unfolding read_once
read_once_short grant [] rest h few = absurd (omega arith)
read_once_short grant (x ∷ xs) rest h few = ground (arith, few (x ∷ (xs ++ rest)))

pub length-le_bytes : (n w : ℕ) → length (le_bytes n w) ≡ n
unfolding le_bytes
length-le_bytes zero w = refl
length-le_bytes (suc n) w = ap suc (length-le_bytes n (w / 256))

weight_suc : (n : ℕ) → 2 ^ (8 * suc n) ≡ 256 * 2 ^ (8 * n)
weight_suc n = let e : 8 * suc n ≡ 8 * n + 8 = omega arith in rw e (simp towards_suc (omega arith))

le_number-le_bytes : (n w : ℕ) → w < 2 ^ (8 * n) → le_number (le_bytes n w) ≡ w
unfolding le_number le_bytes
le_number-le_bytes zero w h = omega arith
le_number-le_bytes (suc n) w h =
    omega (arith, weight_suc n, le_number-le_bytes n (w / 256) (omega (arith, weight_suc n)))

pub read_le-le_bytes :
    (n w : ℕ) (rest : Bytes) → w < 2 ^ (8 * n) → read_le n (le_bytes n w ++ rest) ≡ ok (w, rest)
unfolding read_le
read_le-le_bytes n w rest h =
    let filled = rw (length-le_bytes n w) at (read_full-append (le_bytes n w) rest) in
    rw (filled, le_number-le_bytes n w h)
