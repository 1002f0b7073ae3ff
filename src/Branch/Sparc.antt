-- ===== src/Branch/Sparc.antt =====
-- internal/bra/sparc.go: calls of the SPARC, whose words are big-endian.
use Prim.Native.Nat.{bit_xor}
use sevenzip.Bits.Fields.{bit_and_low, bit_and_high, bit_or_above, bit_xor_fields, bit_xor-zero}
use sevenzip.Branch.Laws.{get_be-put_be, put_be-get_be, put_be-IsFour}
use sevenzip.Branch.{Four, IsFour, Rewrite, word, get_be, put_be, shift_by, add32, sub32}
use sevenzip.Prelude.{
  ℕ, ◌+◌, ◌-◌, ◌*◌, ◌/◌, ◌%◌, ◌^◌, ◌<◌, ◌≤◌, ◌≡◌, refl, Bool, true, false, bit_and, bit_or, ◌==◌,
  ◌&&◌, ◌||◌, leb, ltb, Bool-cases, ltb→lt, ◌⊎◌, inl, inr, arith, if◌then◌else◌,
}

unfoldable pub is_sparc_call : Four → Bool
is_sparc_call w = w.b0 == 0x40 && bit_and w.b1 0xc0 == 0 || w.b0 == 0x7f && leb 0xc0 w.b1

abbrev sparc_flag : ℕ
sparc_flag = 2 ^ 24

-- From `v &= 0x01ffffff` on, once the address has been moved.
unfoldable pub sparc_target : ℕ → ℕ
sparc_target v =
    bit_or (bit_xor (sub32 (bit_and v 0x01ffffff) sparc_flag) 0xff000000 / 4) 0x40000000

unfoldable pub sparc_word : Rewrite
unfolding is_sparc_call sparc_target
sparc_word encoding ip w =
    let v = get_be w in
    put_be (if is_sparc_call w then sparc_target (shift_by encoding (v * 4 % word) ip) else v)

-- The calls as a range of words: the displacement has its sign in the eight bits below the top.
abbrev InRange : ℕ → Type 0
InRange v = ((0x40000000 ≤ v) × (v < 0x40400000)) ⊎ ((0x7fc00000 ≤ v) × (v < 0x80000000))

call-InRange : (w : Four) → IsFour w → is_sparc_call w ≡ true → InRange (get_be w)
unfolding is_sparc_call get_be
call-InRange w h e = ground (arith, bit_and_high 2 6 w.b1)

InRange-call : (w : Four) → IsFour w → InRange (get_be w) → is_sparc_call w ≡ true
unfolding is_sparc_call get_be
InRange-call w h r = ground (arith, bit_and_high 2 6 w.b1)

-- The target as a number.
abbrev target : ℕ → ℕ
target u = if ltb u sparc_flag then 0x40000000 + u / 4 else 0x7fc00000 + (u - sparc_flag) / 4

flip_top :
    (top x : ℕ) → x < 2 ^ 24 → bit_xor (top * 2 ^ 24 + x) 0xff000000 ≡ bit_xor top 255 * 2 ^ 24 + x
flip_top top x small =
    let fields : bit_xor (top * 2 ^ 24 + x) (255 * 2 ^ 24 + 0)
        ≡ bit_xor top 255 * 2 ^ 24 + bit_xor x 0 =
      bit_xor_fields 24 top 255 x 0 small (omega arith) in
    omega (arith, fields, bit_xor-zero x)

flipped :
    (u : ℕ)
    → u < 2 ^ 25
    → bit_xor (sub32 u sparc_flag) 0xff000000
      ≡ (if ltb u sparc_flag then u else 0xff000000 + (u - sparc_flag))
flipped u small = elim (Bool-cases (ltb u sparc_flag)) [
  | inl e ↦
      let below = ltb→lt u sparc_flag e in
      let x : sub32 u sparc_flag ≡ 255 * 2 ^ 24 + u = omega arith in
      rw (e, x) (omega (arith, flip_top 255 u below))
  | inr e ↦
      let above : sparc_flag ≤ u = ground arith in
      let x : sub32 u sparc_flag ≡ 0 * 2 ^ 24 + (u - sparc_flag) = omega arith in
      rw (e, x) (omega (arith, flip_top 0 (u - sparc_flag) (omega arith)))
]

sparc_target_lem : (v : ℕ) → sparc_target v ≡ target (v % 2 ^ 25)
unfolding sparc_target
sparc_target_lem v =
    let u = v % 2 ^ 25 in
    let x = (if ltb u sparc_flag then u else 0xff000000 + (u - sparc_flag)) / 4 in
    let joined : bit_or x 0x40000000 ≡ 2 ^ 30 + x = bit_or_above 30 x 1 (ground arith) in
    rw (bit_and_low 25 v, flipped u (omega arith), joined) (ground arith)

sparc_word_call :
    (encoding : Bool) (ip : ℕ) (w : Four)
    → is_sparc_call w ≡ true
    → sparc_word encoding ip w
      ≡ put_be (target (shift_by encoding (get_be w * 4 % word) ip % 2 ^ 25))
unfolding sparc_word
sparc_word_call encoding ip w e = rw (e, sparc_target_lem) refl

sparc_word_other :
    (encoding : Bool) (ip : ℕ) (w : Four)
    → IsFour w
    → is_sparc_call w ≡ false
    → sparc_word encoding ip w ≡ w
unfolding sparc_word
sparc_word_other encoding ip w h e = rw e (put_be-get_be w h)

target-InRange : (u : ℕ) → u < 2 ^ 25 → InRange (target u)
target-InRange u small = ground arith

target-lt : (u : ℕ) → u < 2 ^ 25 → target u < 2 ^ 32
target-lt u small = ground arith

moved_call : (u : ℕ) → u < 2 ^ 25 → is_sparc_call (put_be (target u)) ≡ true
moved_call u small =
    InRange-call _ (put_be-IsFour _)
      (rw (get_be-put_be (target u) (target-lt u small)) (target-InRange u small))

moved_back :
    (ip v : ℕ)
    → InRange v
    → ip < 2 ^ 32
    → ip % 4 ≡ 0
    → target (sub32 (target (add32 (v * 4 % word) ip % 2 ^ 25) * 4 % word) ip % 2 ^ 25) ≡ v
moved_back ip v r fits aligned = ground arith

-- Decoding a word undoes its encoding at the same address.
pub sparc_word_undone :
    (ip : ℕ) (w : Four)
    → IsFour w
    → ip < 2 ^ 32
    → ip % 4 ≡ 0
    → sparc_word false ip (sparc_word true ip w) ≡ w
sparc_word_undone ip w h fits aligned = elim (Bool-cases (is_sparc_call w)) [
  | inr e ↦ let same = sparc_word_other true ip w h e in rw (same, sparc_word_other false ip w h e)
  | inl e ↦
      let u = add32 (get_be w * 4 % word) ip % 2 ^ 25 in
      rw
        (
          sparc_word_call true ip w e,
          sparc_word_call false ip (put_be (target u)) (moved_call u (omega arith)),
          get_be-put_be (target u) (target-lt u (omega arith)),
          moved_back ip (get_be w) (call-InRange w h e) fits aligned,
        )
        (put_be-get_be w h)
]
