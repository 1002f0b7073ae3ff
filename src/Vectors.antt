-- ===== src/Vectors.antt =====
-- types.go (readBool, readOptionalBool, readSizes, readCRC) and write_types.go (writeBool,
-- writeOptionalBool, writeSizes, writeCRC): vectors of bits, numbers and checksums.
pub mod Bools
pub mod Shrinks
pub mod RoundTrip
use sevenzip.Prelude.{
  ℕ, zero, suc, ◌/◌, ◌≤◌, ◌<◌, bit_and, bit_or, Bool, true, false, not, ◌&&◌, List, [], ◌∷◌, ◌++◌,
  ◌==◌, replicate, length, if◌then◌else◌,
}
use sevenzip.Stream.{Parser, Bytes, ◌>>=◌, ◌>>◌, pure, read_byte, le_bytes, read_le}
use sevenzip.Number.{check_uint64, read_uint64, write_uint64, max_uint32}

-- A count that checkUint64 lets pass where it must not be zero.
abbrev pub IsCount : ℕ → Type 0
IsCount n = (0 < n) × (n ≤ max_uint32)

-- The loop of readBool with `count` rounds left.
unfoldable pub read_bits : (count b mask : ℕ) → Parser (List Bool)
read_bits zero b mask = pure []
read_bits (suc count) b mask = do
  (b', mask') ←
      λ s. (if mask == 0 then (do fresh ← read_byte; pure (fresh, 0x80)) else pure (b, mask)) s
  defined ← read_bits count b' (mask' / 2)
  pure (not (bit_and b' mask' == 0) ∷ defined)

unfoldable pub read_bool : ℕ → Parser (List Bool)
read_bool count = do check_uint64 count true; read_bits count 0 0

unfoldable pub read_optional_bool : ℕ → Parser (List Bool)
read_optional_bool count = do
  check_uint64 count true
  all ← read_byte
  if all == 0 then read_bool count else pure (replicate count true)

unfoldable pub read_numbers : ℕ → Parser (List ℕ)
read_numbers zero = pure []
read_numbers (suc count) = do n ← read_uint64; ns ← read_numbers count; pure (n ∷ ns)

unfoldable pub read_sizes : ℕ → Parser (List ℕ)
read_sizes count = do check_uint64 count true; read_numbers count

-- The loop of readCRC, and of the other optional vectors: an entry that is not defined stays 0.
unfoldable pub read_defined : ℕ → List Bool → Parser (List ℕ)
read_defined width [] = pure []
read_defined width (true ∷ defined) = do
  c ← read_le width
  cs ← read_defined width defined
  pure (c ∷ cs)
read_defined width (false ∷ defined) = do cs ← read_defined width defined; pure (0 ∷ cs)

unfoldable pub read_crc : ℕ → Parser (List ℕ)
read_crc count = do
  check_uint64 count true
  defined ← read_optional_bool count
  read_defined 4 defined

-- The loop of writeBool: b and mask are its variables.
unfoldable pub write_bits : List Bool → (b mask : ℕ) → Bytes
write_bits [] b mask = if mask == 0x80 then [] else b ∷ []
write_bits (def ∷ defined) b mask =
    let b' = if def then bit_or b mask else b in
    let mask' = mask / 2 in
    let flushed = b' ∷ write_bits defined 0 0x80 in
    let more = write_bits defined b' mask' in if mask' == 0 then flushed else more

unfoldable pub write_bool : List Bool → Bytes
write_bool defined = write_bits defined 0 0x80

unfoldable pub all_true : List Bool → Bool
all_true [] = true
all_true (d ∷ defined) = d && all_true defined

unfoldable pub write_optional_bool : List Bool → Bytes
write_optional_bool defined = if all_true defined then 1 ∷ [] else 0 ∷ write_bool defined

unfoldable pub write_sizes : List ℕ → Bytes
write_sizes [] = []
write_sizes (s ∷ sizes) = write_uint64 s ++ write_sizes sizes

-- The loop of writeCRC. Each caller passes a `defined` as long as the checksums.
unfoldable pub write_defined : ℕ → List ℕ → List Bool → Bytes
write_defined width (c ∷ crcs) (true ∷ defined) =
    le_bytes width c ++ write_defined width crcs defined
write_defined width (c ∷ crcs) (false ∷ defined) = write_defined width crcs defined
write_defined width _ _ = []

unfoldable pub write_crc : List ℕ → List Bool → Bytes
write_crc crcs defined = write_optional_bool defined ++ write_defined 4 crcs defined
