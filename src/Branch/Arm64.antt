-- ===== src/Branch/Arm64.antt =====
-- internal/bra/arm64.go: the calls (BL) and the page addresses (ADRP) of the ARM64, whose words are
-- little-endian.
pub mod Undone
use sevenzip.Bits.{bit_or_low, bit_or-zero, holds_below, holds_below→}
use sevenzip.Bits.Fields.{
  bit_and_low, bit_and_high, bit_and_fields, bit_and_comm, bit_or_above, bit_or_fields,
}
use sevenzip.Branch.Laws.{get_le-put_le, put_le-get_le, put_le-IsFour, get_le-lt}
use sevenzip.Branch.{Four, IsFour, Rewrite, word, get_le, put_le, shift_by, add32, sub32}
use sevenzip.Prelude.{
  ap, ap, ℕ, ◌+◌, ◌-◌, ◌*◌, ◌/◌, ◌%◌, ◌^◌, ◌<◌, ◌≤◌, ◌≡◌, refl, Bool, true, false, bit_and, bit_or,
  ◌==◌, ==_iff, ltb, ◌⊎◌, Bool-cases, inl, inr, arith, if◌then◌else◌,
}

abbrev pub page_flag : ℕ
page_flag = 2 ^ 20

abbrev pub mask : ℕ
mask = 2 ^ 24 - page_flag * 2

-- `(v-0x94000000)&0xfc000000 == 0`
unfoldable pub is_call : ℕ → Bool
is_call v = bit_and (sub32 v 0x94000000) 0xfc000000 == 0

-- `v & 0x9f000000 == 0`, of the word less 0x90000000.
unfoldable pub is_page : ℕ → Bool
is_page v = bit_and v 0x9f000000 == 0

unfoldable pub bl_word : ℕ → ℕ
bl_word v = bit_or (bit_and v 0x03ffffff) 0x94000000

-- `z := v&0xffffffe0 | v>>26`
unfoldable pub page_of : ℕ → ℕ
page_of v = bit_or (bit_and v 0xffffffe0) (v / 2 ^ 26)

-- The word from `v &= 0x1f` on, for the page z.
unfoldable pub page_word : (v z : ℕ) → ℕ
page_word v z =
    let register = bit_or (bit_and v 0x1f) 0x90000000 in
    bit_or (bit_or register (z * 2 ^ 26 % word))
      (bit_and 0x00ffffe0 (sub32 (bit_and z (page_flag * 2 - 1)) page_flag))

unfoldable pub arm64_word : Rewrite
unfolding is_call is_page bl_word page_of page_word
arm64_word encoding ip w =
    let v = get_le w in
    if is_call v
    then put_le (bl_word (shift_by encoding v (ip / 4)))
    else let v1 = sub32 v 0x90000000 in
      let v2 = add32 v1 page_flag in
      let pages = bit_and (ip / 2 ^ 9) (word - 1 - 7) in
      if is_page v1
      then if ltb 0 (bit_and v2 mask)
        then w
        else put_le (page_word v2 (shift_by encoding (page_of v2) pages))
      else w

pub is_call_lem : (v : ℕ) → v < word → is_call v ≡ (v / 2 ^ 26 == 37)
unfolding is_call
is_call_lem v h = ground (arith, bit_and_high 6 26 (sub32 v 0x94000000))

pub call_word_lem : (v : ℕ) → bl_word v ≡ 37 * 2 ^ 26 + v % 2 ^ 26
unfolding bl_word
call_word_lem v =
    let joined : bit_or (v % 2 ^ 26) 0x94000000 ≡ 37 * 2 ^ 26 + v % 2 ^ 26 =
      bit_or_above 26 (v % 2 ^ 26) 37 (omega arith) in
    rw (bit_and_low 26 v) joined

pub page_mask :
    (x : ℕ) → x < word → bit_and x 0x9f000000 ≡ x / 2 ^ 31 * 2 ^ 31 + x / 2 ^ 24 % 32 * 2 ^ 24
page_mask x h =
    let fields : bit_and (x / 2 ^ 31 * 2 ^ 31 + x % 2 ^ 31) (1 * 2 ^ 31 + 31 * 2 ^ 24)
        ≡ bit_and (x / 2 ^ 31) 1 * 2 ^ 31 + bit_and (x % 2 ^ 31) (31 * 2 ^ 24) =
      bit_and_fields 31 (x / 2 ^ 31) 1 (x % 2 ^ 31) (31 * 2 ^ 24) (omega arith) (omega arith) in
    let parts : x ≡ x / 2 ^ 31 * 2 ^ 31 + x % 2 ^ 31 = omega arith in
    let top : bit_and (x / 2 ^ 31) 1 ≡ x / 2 ^ 31 % 2 = bit_and_low 1 (x / 2 ^ 31) in
    let low : bit_and (x % 2 ^ 31) (31 * 2 ^ 24) ≡ x % 2 ^ 31 / 2 ^ 24 % 32 * 2 ^ 24 =
      bit_and_high 5 24 (x % 2 ^ 31) in
    let all : bit_and x 0x9f000000
        ≡ bit_and (x / 2 ^ 31 * 2 ^ 31 + x % 2 ^ 31) (1 * 2 ^ 31 + 31 * 2 ^ 24) =
      ap (λ (t : ℕ). bit_and t 0x9f000000) parts in
    omega (arith, all, fields, top, low)

-- The address of a page as the fields of the word: two low bits above, the rest with its sign below.
abbrev pub fields_of : (v z : ℕ) → ℕ
fields_of v z =
    (9 + 2 * (z / 8 % 4)) * 2 ^ 28 + sub32 (z % 2 ^ 21) page_flag / 32 % 2 ^ 19 * 32 + v % 32

pub page_of_lem : (v : ℕ) → v < 2 ^ 31 → v / 2 ^ 26 % 8 ≡ 0 → page_of v ≡ v / 32 * 32 + v / 2 ^ 26
unfolding page_of
page_of_lem v h e =
    let high : bit_and v 0xffffffe0 ≡ v / 2 ^ 5 % 2 ^ 27 * 2 ^ 5 = bit_and_high 27 5 v in
    rw high (omega (arith, bit_or_low 5 (v / 2 ^ 5 % 2 ^ 27) (v / 2 ^ 26) (omega arith)))

top_table : holds_below 8 (λ c. bit_or 9 (2 * c) == 9 + 2 * (c % 4)) ≡ true
unfolding holds_below
top_table = refl

top_bits : (c : ℕ) → c < 8 → bit_or 9 (2 * c) ≡ 9 + 2 * (c % 4)
top_bits c h = (==_iff _ (9 + 2 * (c % 4))).0 (holds_below→ 8 _ c top_table h)

register_and_top :
    (r z : ℕ)
    → r < 32
    → z % 8 ≡ 0
    → bit_or (bit_or r 0x90000000) (z * 2 ^ 26 % word) ≡ (9 + 2 * (z / 8 % 4)) * 2 ^ 28 + r
register_and_top r z small even =
    let c = z / 8 % 8 in
    let first : bit_or r 0x90000000 ≡ 9 * 2 ^ 28 + r = bit_or_above 28 r 9 (omega arith) in
    let shifted : z * 2 ^ 26 % word ≡ 2 * c * 2 ^ 28 + 0 = omega arith in
    rw (first, shifted)
      (omega (
        arith,
        bit_or_fields 28 9 (2 * c) r 0 (omega arith) (omega arith),
        top_bits c (omega arith),
        bit_or-zero r,
      ))

pub page_word_lem : (v z : ℕ) → z % 8 ≡ 0 → page_word v z ≡ fields_of v z
unfolding page_word
page_word_lem v z even =
    let y = sub32 (z % 2 ^ 21) page_flag in
    let e = y / 32 % 2 ^ 19 in
    let top = 9 + 2 * (z / 8 % 4) in
    let low : bit_and v 0x1f ≡ v % 32 = bit_and_low 5 v in
    let cut : bit_and z (2 ^ 21 - 1) ≡ z % 2 ^ 21 = bit_and_low 21 z in
    let masked : bit_and y 0x00ffffe0 ≡ e * 2 ^ 5 = bit_and_high 19 5 y in
    let above : top * 2 ^ 28 + v % 32 ≡ top * 2 ^ 23 * 2 ^ 5 + v % 32 = omega arith in
    let below : e * 2 ^ 5 ≡ e * 2 ^ 5 + 0 = omega arith in
    rw
      (low, cut, register_and_top (v % 32) z (omega arith) even, bit_and_comm, masked, above, below)
      (omega (
        arith,
        bit_or_fields 5 (top * 2 ^ 23) e (v % 32) 0 (omega arith) (omega arith),
        bit_or-zero (v % 32),
        bit_or_low 23 top e (omega arith),
      ))
