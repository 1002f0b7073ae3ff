-- ===== src/Tests/Codec.antt =====
-- Numbers and vectors (types.go, write_types.go) on concrete inputs.
use sevenzip.Prelude.{◌≡◌, refl, Bool, true, false, List, [], ◌∷◌, ◌++◌, arith}
use sevenzip.Stream.{ok, err, read, uint64_too_large, read_byte}
use sevenzip.Number.{
  check_uint64, leading_zeros8, low_mask, read_low, read_uint64, read_uint64_bounded, write_uint64,
}
use sevenzip.Number.RoundTrip.{read_uint64-write_uint64}
use sevenzip.Vectors.{write_bool, write_bits}

write_300 : write_uint64 300 ≡ 0x81 ∷ 0x2c ∷ []
unfolding write_uint64
write_300 = refl

read_300 : read_uint64 (0x81 ∷ 0x2c ∷ 7 ∷ []) ≡ ok (300, 7 ∷ [])
unfolding read_uint64 read_byte leading_zeros8 low_mask read_low
read_300 = refl

-- A padded form, which writeUint64 never writes, is accepted.
read_padded : read_uint64 (0xc0 ∷ 5 ∷ 0 ∷ []) ≡ ok (5, [])
unfolding read_uint64 read_byte leading_zeros8 low_mask read_low
read_padded = refl

read_cut : read_uint64 (0xff ∷ 1 ∷ []) ≡ err read
unfolding read_uint64 read_byte leading_zeros8 low_mask read_low
read_cut = refl

read_max : read_uint64 (write_uint64 0xffff_ffff_ffff_ffff) ≡ ok (0xffff_ffff_ffff_ffff, [])
unfolding read_uint64 write_uint64 read_byte leading_zeros8 low_mask read_low
read_max = refl

bounded_refuses : read_uint64_bounded true (write_uint64 0x1_0000_0000) ≡ err uint64_too_large
unfolding read_uint64_bounded check_uint64 read_uint64 write_uint64 read_byte leading_zeros8
    low_mask read_low
bounded_refuses = refl

abbrev nine_bits : List Bool
nine_bits = true ∷ false ∷ true ∷ true ∷ false ∷ false ∷ true ∷ false ∷ true ∷ []

write_nine : write_bool nine_bits ≡ 0xb2 ∷ 0x80 ∷ []
unfolding write_bool write_bits
write_nine = refl

read_uint64-write_uint64_example :
    read_uint64 (write_uint64 0x1234_5678_9abc ++ (7 ∷ [])) ≡ ok (0x1234_5678_9abc, 7 ∷ [])
read_uint64-write_uint64_example = read_uint64-write_uint64 0x1234_5678_9abc (7 ∷ []) (omega arith)
