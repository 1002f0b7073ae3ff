-- ===== src/Number.antt =====
-- types.go (checkUint64, readUint64, readUint64Bounded) and write_types.go (writeUint64): the
-- variable-length numbers of the 7z header. A uint64 is a number below 2 ^ 64.
pub mod Encode
pub mod RoundTrip
use sevenzip.Prelude.{
  ℕ, zero, suc, ◌+◌, ◌-◌, ◌*◌, ◌/◌, ◌%◌, ◌^◌, ◌<◌, bit_and, bit_or, Bool, ◌&&◌, ◌||◌, List, [], ◌∷◌,
  ltb, ◌==◌, if◌then◌else◌,
}
use sevenzip.Stream.{
  Parser, Bytes, ◌>>=◌, ◌>>◌, pure, fail, read_byte, uint64_non_zero, uint64_too_large,
}

abbrev pub IsU64 : ℕ → Type 0
IsU64 v = v < 2 ^ 64

-- `byte(v)`
abbrev pub byte : ℕ → ℕ
byte v = v % 256

-- math.MaxInt where int has 64 bits, and math.MaxUint32.
abbrev pub max_int : ℕ
max_int = 2 ^ 63 - 1

abbrev pub max_uint32 : ℕ
max_uint32 = 2 ^ 32 - 1

-- checkUint64, with what follows its success left to the caller.
unfoldable pub check_uint64 : ℕ → Bool → Parser (Unit {0})
check_uint64 v non_zero =
    if non_zero && v == 0
    then fail uint64_non_zero
    else if ltb max_int v || ltb max_uint32 v
    then fail uint64_too_large
    else pure tt

-- bits.LeadingZeros8
unfoldable pub leading_zeros8 : ℕ → ℕ
leading_zeros8 x =
    if ltb x 1
    then 8
    else if ltb x 2
    then 7
    else if ltb x 4
    then 6
    else if ltb x 8
    then 5
    else if ltb x 16
    then 4
    else if ltb x 32
    then 3
    else if ltb x 64
    then 2
    else if ltb x 128
    then 1
    else 0

-- `(1 << (8 - l)) - 1` at type byte.
unfoldable pub low_mask : ℕ → ℕ
low_mask l = (2 ^ (8 - l) % 256 + 255) % 256

-- The loop of readUint64 with `rounds` of its l rounds left, at round i.
unfoldable pub read_low : (rounds i v : ℕ) → Parser ℕ
read_low zero i v = pure v
read_low (suc rounds) i v = do
  b ← read_byte
  read_low rounds (i + 1) (bit_or v (b * 2 ^ (8 * i) % 2 ^ 64))

-- `^b` is 255 - b.
unfoldable pub read_uint64 : Parser ℕ
read_uint64 = do
  b ← read_byte
  let l = leading_zeros8 (255 - b)
  read_low l 0 (if ltb l 7 then bit_and b (low_mask l) * 2 ^ (8 * l) % 2 ^ 64 else 0)

unfoldable pub read_uint64_bounded : Bool → Parser ℕ
read_uint64_bounded non_zero = do v ← read_uint64; check_uint64 v non_zero; pure v

-- A writer is the bytes that it appends: the code writes headers into a bytes.Buffer only.
unfoldable pub write_uint64 : ℕ → Bytes
write_uint64 v =
    if ltb v 0x80
    then byte v ∷ []
    else if ltb v 0x4000
    then bit_or (byte (v / 2 ^ 8)) 0x80 ∷ byte v ∷ []
    else if ltb v 0x200000
    then bit_or (byte (v / 2 ^ 16)) 0xc0 ∷ byte v ∷ byte (v / 2 ^ 8) ∷ []
    else if ltb v 0x10000000
    then bit_or (byte (v / 2 ^ 24)) 0xe0 ∷ byte v ∷ byte (v / 2 ^ 8) ∷ byte (v / 2 ^ 16) ∷ []
    else if ltb v 0x800000000
    then bit_or (byte (v / 2 ^ 32)) 0xf0
      ∷ byte v
      ∷ byte (v / 2 ^ 8)
      ∷ byte (v / 2 ^ 16)
      ∷ byte (v / 2 ^ 24)
      ∷ []
    else if ltb v 0x40000000000
    then bit_or (byte (v / 2 ^ 40)) 0xf8
      ∷ byte v
      ∷ byte (v / 2 ^ 8)
      ∷ byte (v / 2 ^ 16)
      ∷ byte (v / 2 ^ 24)
      ∷ byte (v / 2 ^ 32)
      ∷ []
    else if ltb v 0x2000000000000
    then bit_or (byte (v / 2 ^ 48)) 0xfc
      ∷ byte v
      ∷ byte (v / 2 ^ 8)
      ∷ byte (v / 2 ^ 16)
      ∷ byte (v / 2 ^ 24)
      ∷ byte (v / 2 ^ 32)
      ∷ byte (v / 2 ^ 40)
      ∷ []
    else if ltb v 0x100000000000000
    then bit_or (byte (v / 2 ^ 56)) 0xfe
      ∷ byte v
      ∷ byte (v / 2 ^ 8)
      ∷ byte (v / 2 ^ 16)
      ∷ byte (v / 2 ^ 24)
      ∷ byte (v / 2 ^ 32)
      ∷ byte (v / 2 ^ 40)
      ∷ byte (v / 2 ^ 48)
      ∷ []
    else 0xff
      ∷ byte v
      ∷ byte (v / 2 ^ 8)
      ∷ byte (v / 2 ^ 16)
      ∷ byte (v / 2 ^ 24)
      ∷ byte (v / 2 ^ 32)
      ∷ byte (v / 2 ^ 40)
      ∷ byte (v / 2 ^ 48)
      ∷ byte (v / 2 ^ 56)
      ∷ []
