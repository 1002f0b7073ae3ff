-- ===== src/Number/RoundTrip.antt =====
-- The round trip of readUint64 (types.go) and writeUint64 (write_types.go).
use native.Mathlib.Numerals.{towards_suc}
use native.Mathlib.Nat.{div-add-mod, div-add-mod', mod-lt, one-le-pow}
use sevenzip.Prelude.{
  ℕ, zero, suc, ◌+◌, ◌-◌, ◌*◌, ◌/◌, ◌%◌, ◌^◌, ◌≤◌, ◌<◌, bit_and, bit_or, ◌≡◌, refl, ap, ◌∙◌, inl,
  inr, Bool, true, ◌&&◌, ◌∷◌, ◌++◌, arith, ◌==◌, leb, leb→le, lt→ltb, dec_lt,
}
use sevenzip.Stream.{Bytes, ok, read_byte, le_bytes}
use sevenzip.Bits.{holds_below, holds_below→, bit_or_byte}
use sevenzip.Number.{write_uint64, IsU64, leading_zeros8, low_mask, read_low, read_uint64}
use sevenzip.Number.Encode.{lead, Fits, write_uint64-form}

-- The shifted byte keeps its value: no bit leaves the 64.
shift_fits : (i b : ℕ) → i < 8 → b < 256 → b * 2 ^ (8 * i) % 2 ^ 64 ≡ b * 2 ^ (8 * i)
unfolding holds_below
shift_fits i b lt hb =
    grind (arith, leb→le _ _ (holds_below→ 8 (λ k. leb (2 ^ (8 * k)) (2 ^ 56)) i refl lt))

next_weight : (i : ℕ) → 2 ^ (8 * (i + 1)) ≡ 256 * 2 ^ (8 * i)
next_weight i =
    let e : 8 * (i + 1) ≡ 8 * i + 8 = omega arith in rw e (simp towards_suc (omega arith))

weight_suc : (i : ℕ) → 2 ^ (8 * suc i) ≡ 256 * 2 ^ (8 * i)
weight_suc i = let e : 8 * suc i ≡ 8 * (i + 1) = omega arith in rw e (next_weight i)

weight_pos : (i : ℕ) → 0 < 2 ^ (8 * i)
weight_pos i = one-le-pow (8 * i) 2 (omega arith)

-- The low byte of w and the rest of it, at bit 8 * i.
split_byte : (w i : ℕ) → w / 256 * 2 ^ (8 * (i + 1)) + w % 256 * 2 ^ (8 * i) ≡ w * 2 ^ (8 * i)
split_byte w i = omega (
  arith,
  ap (λ (t : ℕ). w / 256 * t) (next_weight i),
  ap (λ (t : ℕ). t * 2 ^ (8 * i)) (div-add-mod w 256),
)

byte_below : (b i lo : ℕ) → b < 256 → lo < 2 ^ (8 * i) → b * 2 ^ (8 * i) + lo < 2 ^ (8 * (i + 1))
byte_below b i lo hb hlo = grind (arith, next_weight i)

-- The number h at the bits that `rounds` further bytes leave above them.
abbrev above : ℕ → ℕ → ℕ → ℕ
above zero i h = h * 2 ^ (8 * i)
above (suc rounds) i h = above rounds (i + 1) h

above-multiple : (n i h : ℕ) → (q : ℕ) × (above (suc n) i h ≡ q * 256 * 2 ^ (8 * i))
above-multiple zero i h = (h, omega (arith, ap (λ (t : ℕ). h * t) (next_weight i)))
above-multiple (suc n) i h =
    let (q, e) = above-multiple n (i + 1) h in
    (q * 256, omega (arith, e, ap (λ (t : ℕ). q * 256 * t) (next_weight i)))

-- One round: the byte goes under h and above lo.
or_round :
    (n i h lo b : ℕ)
    → i < 8
    → lo < 2 ^ (8 * i)
    → b < 256
    → bit_or (above (suc n) i h + lo) (b * 2 ^ (8 * i) % 2 ^ 64)
      ≡ above n (i + 1) h + (b * 2 ^ (8 * i) + lo)
or_round n i h lo b hi hlo hb =
    let (q, e) = above-multiple n i h in
    rw (shift_fits i b hi hb, e, bit_or_byte (8 * i) q lo b hlo hb) (omega (arith, e))

-- The loop adds the low bytes of w at bit 8 * i, under the high part h.
read_low-le_bytes :
    (rounds i h w lo : ℕ) (rest : Bytes)
    → i + rounds ≤ 8
    → w < 2 ^ (8 * rounds)
    → lo < 2 ^ (8 * i)
    → read_low rounds i (above rounds i h + lo) (le_bytes rounds w ++ rest)
      ≡ ok (above rounds i h + (w * 2 ^ (8 * i) + lo), rest)
unfolding read_low le_bytes read_byte
read_low-le_bytes zero i h w lo rest hi hw hlo =
    let e : w ≡ 0 = omega arith in rw e (ap (λ t. ok (t, rest)) (omega arith))
read_low-le_bytes (suc n) i h w lo rest hi hw hlo =
    let low = w % 256 * 2 ^ (8 * i) + lo in
    rw (or_round n i h lo (w % 256) (omega arith) hlo (omega arith)) (
      read_low-le_bytes n (i + 1) h (w / 256) low rest (omega arith) (omega (arith, weight_suc n))
        (byte_below (w % 256) i lo (omega arith) hlo)
      ∙ ap (λ t. ok (above n (i + 1) h + t, rest)) (omega (arith, split_byte w i)))

-- A lead byte: its unary length, and its high bits under the mask.
lead_check : ℕ → ℕ → Bool
lead_check l x = leading_zeros8 (255 - lead l x) == l && bit_and (lead l x) (low_mask l) == x

lead_table : holds_below 7 (λ l. holds_below (2 ^ (7 - l)) (lead_check l)) ≡ true
unfolding holds_below lead_check leading_zeros8 low_mask
lead_table = refl

lead_reads :
    (l x : ℕ)
    → l < 7
    → x < 2 ^ (7 - l)
    → (leading_zeros8 (255 - lead l x) ≡ l) × (bit_and (lead l x) (low_mask l) ≡ x)
unfolding lead_check
lead_reads l x hl hx =
    let row = holds_below→ 7 (λ l. holds_below (2 ^ (7 - l)) (lead_check l)) l lead_table hl in
    let cell = holds_below→ (2 ^ (7 - l)) (lead_check l) x row hx in ground (arith, cell)

above_closed : (n i h : ℕ) → above n i h ≡ h * 2 ^ (8 * (i + n))
above_closed zero i h = let e : i + 0 ≡ i = omega arith in rw e
above_closed (suc n) i h =
    let e : i + suc n ≡ i + 1 + n = omega arith in rw e (above_closed n (i + 1) h)

read_low-lead :
    (l x w : ℕ) (rest : Bytes)
    → l ≤ 8
    → w < 2 ^ (8 * l)
    → read_low l 0 (x * 2 ^ (8 * l)) (le_bytes l w ++ rest) ≡ ok (x * 2 ^ (8 * l) + w, rest)
read_low-lead l x w rest hl hw =
    let from_zero : 0 + l ≡ l = omega arith in
    let e : x * 2 ^ (8 * l) ≡ above l 0 x + 0 = rw (above_closed l 0 x, from_zero) (omega arith) in
    rw e (
      read_low-le_bytes l 0 x w 0 rest (omega arith) hw (omega arith)
      ∙ ap (λ t. ok (t, rest)) (omega arith))

high_bits_small : (l x : ℕ) → l < 7 → x < 2 ^ (7 - l) → x < 256
unfolding holds_below
high_bits_small l x hl hx =
    omega (arith, leb→le _ _ (holds_below→ 7 (λ k. leb (2 ^ (7 - k)) 256) l refl hl))

read_uint64-lead :
    (l x w : ℕ) (rest : Bytes)
    → Fits l x
    → w < 2 ^ (8 * l)
    → read_uint64 (lead l x ∷ (le_bytes l w ++ rest)) ≡ ok (x * 2 ^ (8 * l) + w, rest)
unfolding read_uint64 read_byte leading_zeros8
read_uint64-lead l x w rest (inr (hl, hx)) hw =
    let whole : read_low 8 0 0 (le_bytes 8 w ++ rest) ≡ ok (w, rest) =
      read_low-lead 8 0 w rest (omega arith) (rw hl at hw) ∙ ap (λ t. ok (t, rest)) (omega arith) in
    rw (hx, hl) (whole ∙ ap (λ t. ok (t, rest)) (omega arith))
read_uint64-lead l x w rest (inl (hl, hx)) hw = elim (dec_lt l 7) [
  | yes p ↦
      let (count, mask) = lead_reads l x p hx in
      rw (count, mask, lt→ltb l 7 p, shift_fits l x (omega arith) (high_bits_small l x p hx))
        (read_low-lead l x w rest (omega arith) hw)
  | no n ↦
      let e : l ≡ 7 = omega arith in
      let z : x ≡ 0 = omega (arith, rw e at hx) in
      rw (z, e) (read_low-lead 7 0 w rest (omega arith) (rw e at hw))
]

-- readUint64 reads back the uint64 that writeUint64 wrote, and leaves whatever follows it.
pub read_uint64-write_uint64 :
    (v : ℕ) (rest : Bytes) → IsU64 v → read_uint64 (write_uint64 v ++ rest) ≡ ok (v, rest)
read_uint64-write_uint64 v rest h =
    let (l, fits, form) = write_uint64-form v h in
    rw form (
      read_uint64-lead l (v / 2 ^ (8 * l)) (v % 2 ^ (8 * l)) rest fits (mod-lt v (weight_pos l))
      ∙ ap (λ t. ok (t, rest)) (div-add-mod' v (2 ^ (8 * l))))
