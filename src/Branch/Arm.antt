-- ===== src/Branch/Arm.antt =====
-- internal/bra/arm.go: calls of the ARM, whose words are little-endian. The filter counts `ip` up
-- before it uses it, and starts at 4.
pub mod Wraps
use sevenzip.Bits.Fields.{bit_and_low, bit_or_above}
use sevenzip.Branch.Laws.{get_le-put_le, put_le-get_le, put_le-IsFour}
use sevenzip.Branch.{
  Four, IsFour, Rewrite, Converted, word, get_le, put_le, shift_by, add32, sub32, word_loop,
}
use sevenzip.Prelude.{
  ℕ, ◌+◌, ◌-◌, ◌*◌, ◌/◌, ◌%◌, ◌^◌, ◌<◌, ◌≡◌, refl, Bool, true, false, bit_and, bit_or, ◌==◌, length,
  ltb, Bool-cases, ==_iff, inl, inr, arith, if◌then◌else◌,
}
use sevenzip.Stream.{Bytes}

-- The loop's body, at the address before `c.ip += armAlignment`.
unfoldable pub arm_word : Rewrite
arm_word encoding before w =
    let v = get_le w in
    let ip = (before + 4) % word in
    put_le (
      if w.b3 == 0xeb
      then bit_or (bit_and (shift_by encoding v (ip / 4)) 0x00ffffff) 0xeb000000
      else v)

unfoldable pub arm_convert : Bool → ℕ → Bytes → Converted
arm_convert encoding ip b =
    if ltb (length b) 4
    then record { bytes = b; count = 0; ip = ip }
    else word_loop arm_word encoding (if ip == 0 then 4 else ip) b

abbrev call_word : ℕ → Four
call_word address = put_le (235 * 2 ^ 24 + address % 2 ^ 24)

call_to : (v : ℕ) → bit_or (bit_and v 0x00ffffff) 0xeb000000 ≡ 235 * 2 ^ 24 + v % 2 ^ 24
call_to v =
    let joined : bit_or (v % 2 ^ 24) 0xeb000000 ≡ 235 * 2 ^ 24 + v % 2 ^ 24 =
      bit_or_above 24 (v % 2 ^ 24) 235 (omega arith) in
    rw (bit_and_low 24 v) joined

-- What is added to an address: a quarter of the next `ip`.
abbrev quarter : ℕ → ℕ
quarter before = (before + 4) % word / 4

arm_word_call :
    (encoding : Bool) (ip : ℕ) (w : Four)
    → (w.b3 == 0xeb) ≡ true
    → arm_word encoding ip w ≡ call_word (shift_by encoding (get_le w) (quarter ip))
unfolding arm_word
arm_word_call encoding ip w e = rw (e, call_to) refl

arm_word_other :
    (encoding : Bool) (ip : ℕ) (w : Four)
    → IsFour w
    → (w.b3 == 0xeb) ≡ false
    → arm_word encoding ip w ≡ w
unfolding arm_word
arm_word_other encoding ip w h e = rw e (put_le-get_le w h)

moved_call : (address : ℕ) → ((call_word address).b3 == 0xeb) ≡ true
unfolding put_le
moved_call address = ground arith

moved_back :
    (ip : ℕ) (w : Four)
    → IsFour w
    → (w.b3 == 0xeb) ≡ true
    → 235 * 2 ^ 24
        + sub32 (235 * 2 ^ 24 + add32 (get_le w) (quarter ip) % 2 ^ 24) (quarter ip) % 2 ^ 24
      ≡ get_le w
unfolding get_le
moved_back ip w h e = omega (arith, (==_iff w.b3 0xeb).0 e)

-- Decoding a word undoes its encoding at the same address.
pub arm_word_undone : (ip : ℕ) (w : Four) → IsFour w → arm_word false ip (arm_word true ip w) ≡ w
arm_word_undone ip w h = elim (Bool-cases (w.b3 == 0xeb)) [
  | inr e ↦ let same = arm_word_other true ip w h e in rw (same, arm_word_other false ip w h e)
  | inl e ↦
      rw
        (
          arm_word_call true ip w e,
          arm_word_call false ip (call_word (add32 (get_le w) (quarter ip)))
              (moved_call (add32 (get_le w) (quarter ip))),
          get_le-put_le (235 * 2 ^ 24 + add32 (get_le w) (quarter ip) % 2 ^ 24) (omega arith),
          moved_back ip w h e,
        )
        (put_le-get_le w h)
]
