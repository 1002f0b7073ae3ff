-- ===== src/Crc.antt =====
-- hash/crc32 with the IEEE polynomial, as writer.go and reader.go use it, and internal/util/checksum.go
-- (CRC32Equal).
use Prim.Native.Nat.{bit_xor}
use sevenzip.Prelude.{
  ℕ, zero, suc, ◌/◌, ◌%◌, ◌^◌, ◌<◌, ◌≡◌, refl, arith, Bool, true, false, ◌&&◌, [], ◌∷◌, ◌==◌,
  if◌then◌else◌,
}
use sevenzip.Stream.{Bytes}

-- The bits of a byte, lowest first, shifted out of the register.
unfoldable pub crc_bits : (rounds c : ℕ) → ℕ
crc_bits zero c = c
crc_bits (suc rounds) c = crc_bits rounds (if c % 2 == 1 then bit_xor (c / 2) 0xedb88320 else c / 2)

unfoldable pub crc_update : ℕ → Bytes → ℕ
crc_update c [] = c
crc_update c (b ∷ s) = crc_update (crc_bits 8 (bit_xor c b)) s

-- The register is a uint32.
unfoldable pub crc32 : Bytes → ℕ
crc32 s = bit_xor (crc_update 0xffffffff s) 0xffffffff % 2 ^ 32

abbrev pub same_bytes : Bytes → Bytes → Bool
same_bytes [] [] = true
same_bytes (a ∷ as') (b ∷ bs) = a == b && same_bytes as' bs
same_bytes _ _ = false

-- h.Sum(nil) is the checksum with its highest byte first.
abbrev pub be_bytes4 : ℕ → Bytes
be_bytes4 c = c / 2 ^ 24 % 256 ∷ c / 2 ^ 16 % 256 ∷ c / 2 ^ 8 % 256 ∷ c % 256 ∷ []

unfoldable pub crc32_equal : Bytes → ℕ → Bool
crc32_equal b c = same_bytes b (be_bytes4 c)

pub crc32-IsU32 : (s : Bytes) → crc32 s < 2 ^ 32
unfolding crc32
crc32-IsU32 s = omega arith

same_bytes_refl : (s : Bytes) → same_bytes s s ≡ true
same_bytes_refl [] = refl
same_bytes_refl (b ∷ s) = ground (arith, same_bytes_refl s)

-- A checksum is equal to itself, as h.Sum(nil) and as a number.
pub crc32_equal-be_bytes4 : (c : ℕ) → crc32_equal (be_bytes4 c) c ≡ true
unfolding crc32_equal
crc32_equal-be_bytes4 c = same_bytes_refl (be_bytes4 c)
