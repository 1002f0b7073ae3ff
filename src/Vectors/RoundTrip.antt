-- ===== src/Vectors/RoundTrip.antt =====
-- The round trips of the vectors of types.go and write_types.go.
use sevenzip.Prelude.{
  ℕ, ◌*◌, ◌^◌, ◌≤◌, ◌<◌, ◌≡◌, refl, sym, Bool, true, false, List, [], ◌∷◌, ◌++◌, append_assoc,
  arith, length, replicate, length-replicate, All, Bool-cases, inl, inr,
}
use sevenzip.Stream.{Bytes, ok, read_byte, le_bytes, read_le-le_bytes}
use sevenzip.Number.{check_uint64, write_uint64, IsU64, max_uint32}
use sevenzip.Number.RoundTrip.{read_uint64-write_uint64}
use sevenzip.Vectors.{
  IsCount, read_bool, read_optional_bool, read_numbers, read_sizes, read_defined, read_crc,
  write_bits, write_bool, all_true, write_optional_bool, write_sizes, write_defined, write_crc,
}
use sevenzip.Vectors.Bools.{read_bits-write_bits}

pub check_uint64-IsCount : (n : ℕ) (s : Bytes) → IsCount n → check_uint64 n true s ≡ ok (tt, s)
unfolding check_uint64
check_uint64-IsCount n s h = ground arith

pub check_uint64-le : (n : ℕ) (s : Bytes) → n ≤ max_uint32 → check_uint64 n false s ≡ ok (tt, s)
unfolding check_uint64
check_uint64-le n s h = ground arith

-- readBool reads back the bits that writeBool packed.
pub read_bool-write_bool :
    (defined : List Bool) (rest : Bytes)
    → IsCount (length defined)
    → read_bool (length defined) (write_bool defined ++ rest) ≡ ok (defined, rest)
unfolding read_bool write_bool
read_bool-write_bool defined rest h =
    rw (check_uint64-IsCount (length defined) (write_bits defined 0 0x80 ++ rest) h)
      (read_bits-write_bits defined 0 rest)

all_true-replicate :
    (defined : List Bool) → all_true defined ≡ true → replicate (length defined) true ≡ defined
unfolding all_true
all_true-replicate [] h = refl
all_true-replicate (true ∷ defined) h = rw (all_true-replicate defined h)
all_true-replicate (false ∷ defined) h = cc

pub read_optional_bool-write_optional_bool :
    (defined : List Bool) (rest : Bytes)
    → IsCount (length defined)
    → read_optional_bool (length defined) (write_optional_bool defined ++ rest) ≡ ok (defined, rest)
unfolding read_optional_bool write_optional_bool read_byte
read_optional_bool-write_optional_bool defined rest h = elim (Bool-cases (all_true defined)) [
  | inl all ↦ rw (all, check_uint64-IsCount _ (1 ∷ rest) h, all_true-replicate defined all)
  | inr some_false ↦
      rw (some_false, check_uint64-IsCount _ (0 ∷ (write_bool defined ++ rest)) h)
        (read_bool-write_bool defined rest h)
]

pub read_numbers-write_sizes :
    (sizes : List ℕ) (rest : Bytes)
    → All IsU64 sizes
    → read_numbers (length sizes) (write_sizes sizes ++ rest) ≡ ok (sizes, rest)
unfolding read_numbers write_sizes
read_numbers-write_sizes [] rest h = refl
read_numbers-write_sizes (s ∷ sizes) rest (hs, h) = rw (
  append_assoc (write_uint64 s) (write_sizes sizes) rest,
  read_uint64-write_uint64 s (write_sizes sizes ++ rest) hs,
  read_numbers-write_sizes sizes rest h,
)

pub read_sizes-write_sizes :
    (sizes : List ℕ) (rest : Bytes)
    → IsCount (length sizes)
    → All IsU64 sizes
    → read_sizes (length sizes) (write_sizes sizes ++ rest) ≡ ok (sizes, rest)
unfolding read_sizes
read_sizes-write_sizes sizes rest c h =
    rw (check_uint64-IsCount _ (write_sizes sizes ++ rest) c)
      (read_numbers-write_sizes sizes rest h)

-- The values that a reader has after the undefined ones are dropped: 0 in their place.
abbrev pub kept : List ℕ → List Bool → List ℕ
kept (c ∷ crcs) (true ∷ defined) = c ∷ kept crcs defined
kept (c ∷ crcs) (false ∷ defined) = 0 ∷ kept crcs defined
kept _ _ = []

abbrev pub FitsWidth : ℕ → ℕ → Type 0
FitsWidth width c = c < 2 ^ (8 * width)

pub read_defined-write_defined :
    (width : ℕ) (crcs : List ℕ) (defined : List Bool) (rest : Bytes)
    → All (FitsWidth width) crcs
    → length crcs ≡ length defined
    → read_defined width defined (write_defined width crcs defined ++ rest)
      ≡ ok (kept crcs defined, rest)
unfolding read_defined write_defined
read_defined-write_defined width [] [] rest h e = refl
read_defined-write_defined width [] (d ∷ defined) rest h e = absurd (omega arith)
read_defined-write_defined width (c ∷ crcs) [] rest h e = absurd (omega arith)
read_defined-write_defined width (c ∷ crcs) (true ∷ defined) rest (hc, h) e = rw (
  append_assoc (le_bytes width c) (write_defined width crcs defined) rest,
  read_le-le_bytes width c (write_defined width crcs defined ++ rest) hc,
  read_defined-write_defined width crcs defined rest h (omega arith),
)
read_defined-write_defined width (c ∷ crcs) (false ∷ defined) rest (hc, h) e =
    rw (read_defined-write_defined width crcs defined rest h (omega arith))

-- readCRC gives each checksum that is defined, and 0 for the others.
pub read_crc-write_crc :
    (crcs : List ℕ) (defined : List Bool) (rest : Bytes)
    → IsCount (length defined)
    → length crcs ≡ length defined
    → All (FitsWidth 4) crcs
    → read_crc (length defined) (write_crc crcs defined ++ rest) ≡ ok (kept crcs defined, rest)
unfolding read_crc write_crc
read_crc-write_crc crcs defined rest c e h =
    rw
      (
        append_assoc (write_optional_bool defined) (write_defined 4 crcs defined) rest,
        check_uint64-IsCount _
            (write_optional_bool defined ++ (write_defined 4 crcs defined ++ rest)) c,
        read_optional_bool-write_optional_bool defined (write_defined 4 crcs defined ++ rest) c,
      )
      (read_defined-write_defined 4 crcs defined rest h e)

kept_all : (crcs : List ℕ) → kept crcs (replicate (length crcs) true) ≡ crcs
kept_all [] = refl
kept_all (c ∷ crcs) = rw (kept_all crcs)

-- With every checksum defined, as the header writers have it, all are read back.
pub read_crc-write_defined :
    (crcs : List ℕ) (rest : Bytes)
    → IsCount (length crcs)
    → All (FitsWidth 4) crcs
    → read_crc (length crcs) (write_crc crcs (replicate (length crcs) true) ++ rest)
      ≡ ok (crcs, rest)
read_crc-write_defined crcs rest c h =
    let count = length-replicate (length crcs) true in
    let whole =
      read_crc-write_crc crcs (replicate (length crcs) true) rest (rw count c) (sym count) h in
    rw (count, kept_all crcs) at whole
