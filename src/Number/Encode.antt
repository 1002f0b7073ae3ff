-- ===== src/Number/Encode.antt =====
-- The form of what writeUint64 writes: a lead byte with the length in unary, then the low bytes,
-- lowest first.
use sevenzip.Prelude.{
  ℕ, ◌+◌, ◌-◌, ◌*◌, ◌/◌, ◌%◌, ◌^◌, ◌≤◌, ◌<◌, bit_or, ◌≡◌, refl, ◌⊎◌, true, ◌∷◌, arith, ==_iff, ◌==◌,
  dec_lt,
}
use sevenzip.Stream.{le_bytes}
use sevenzip.Bits.{holds_below, holds_below→}
use sevenzip.Number.{write_uint64, IsU64}

-- The lead byte before l low bytes: l ones, a zero and the high bits of the number.
abbrev pub lead : ℕ → ℕ → ℕ
lead l x = 256 - 2 ^ (8 - l) + x

-- A prefix p of ones on a byte whose p bits are clear.
or_prefix :
    (n p t : ℕ) → holds_below n (λ x. bit_or x p == x + p) ≡ true → t < n → bit_or t p ≡ t + p
or_prefix n p t table lt = (==_iff _ _).0 (holds_below→ n _ t table lt)

abbrev Form : ℕ → ℕ → Type 0
Form l v = write_uint64 v ≡ lead l (v / 2 ^ (8 * l)) ∷ le_bytes l (v % 2 ^ (8 * l))

Form-zero : (v : ℕ) → v < 0x80 → Form 0 v
unfolding write_uint64 le_bytes
Form-zero v hi = ground arith

Form-one : (v : ℕ) → 0x80 ≤ v → v < 0x4000 → Form 1 v
unfolding write_uint64 le_bytes holds_below
Form-one v lo hi = ground (arith, or_prefix 64 0x80 (v / 2 ^ 8 % 256) refl (omega arith))

Form-two : (v : ℕ) → 0x4000 ≤ v → v < 0x200000 → Form 2 v
unfolding write_uint64 le_bytes holds_below
Form-two v lo hi = ground (arith, or_prefix 32 0xc0 (v / 2 ^ 16 % 256) refl (omega arith))

Form-three : (v : ℕ) → 0x200000 ≤ v → v < 0x10000000 → Form 3 v
unfolding write_uint64 le_bytes holds_below
Form-three v lo hi = ground (arith, or_prefix 16 0xe0 (v / 2 ^ 24 % 256) refl (omega arith))

Form-four : (v : ℕ) → 0x10000000 ≤ v → v < 0x800000000 → Form 4 v
unfolding write_uint64 le_bytes holds_below
Form-four v lo hi = ground (arith, or_prefix 8 0xf0 (v / 2 ^ 32 % 256) refl (omega arith))

Form-five : (v : ℕ) → 0x800000000 ≤ v → v < 0x40000000000 → Form 5 v
unfolding write_uint64 le_bytes holds_below
Form-five v lo hi = ground (arith, or_prefix 4 0xf8 (v / 2 ^ 40 % 256) refl (omega arith))

Form-six : (v : ℕ) → 0x40000000000 ≤ v → v < 0x2000000000000 → Form 6 v
unfolding write_uint64 le_bytes holds_below
Form-six v lo hi = ground (arith, or_prefix 2 0xfc (v / 2 ^ 48 % 256) refl (omega arith))

Form-seven : (v : ℕ) → 0x2000000000000 ≤ v → v < 0x100000000000000 → Form 7 v
unfolding write_uint64 le_bytes holds_below
Form-seven v lo hi = ground (arith, or_prefix 1 0xfe (v / 2 ^ 56 % 256) refl (omega arith))

Form-eight : (v : ℕ) → 0x100000000000000 ≤ v → v < 2 ^ 64 → Form 8 v
unfolding write_uint64 le_bytes
Form-eight v lo hi = ground arith

-- The lead byte of l low bytes holds x beside its prefix.
abbrev pub Fits : ℕ → ℕ → Type 0
Fits l x = ((l ≤ 7) × (x < 2 ^ (7 - l))) ⊎ ((l ≡ 8) × (x ≡ 0))

abbrev pub HasForm : ℕ → Type 0
HasForm v = (l : ℕ) × Fits l (v / 2 ^ (8 * l)) × Form l v

pub write_uint64-form : (v : ℕ) → IsU64 v → HasForm v
write_uint64-form v h = elim (dec_lt v 0x80) [
  | yes p ↦ (0, omega arith, Form-zero v p)
  | no n0 ↦ elim (dec_lt v 0x4000) [
    | yes p ↦ (1, omega arith, Form-one v (omega arith) p)
    | no n1 ↦ elim (dec_lt v 0x200000) [
      | yes p ↦ (2, omega arith, Form-two v (omega arith) p)
      | no n2 ↦ elim (dec_lt v 0x10000000) [
        | yes p ↦ (3, omega arith, Form-three v (omega arith) p)
        | no n3 ↦ elim (dec_lt v 0x800000000) [
          | yes p ↦ (4, omega arith, Form-four v (omega arith) p)
          | no n4 ↦ elim (dec_lt v 0x40000000000) [
            | yes p ↦ (5, omega arith, Form-five v (omega arith) p)
            | no n5 ↦ elim (dec_lt v 0x2000000000000) [
              | yes p ↦ (6, omega arith, Form-six v (omega arith) p)
              | no n6 ↦ elim (dec_lt v 0x100000000000000) [
                | yes p ↦ (7, omega arith, Form-seven v (omega arith) p)
                | no n7 ↦ (8, omega arith, Form-eight v (omega arith) h)
              ]
            ]
          ]
        ]
      ]
    ]
  ]
]
