-- ===== src/Branch/Ppc.antt =====
-- internal/bra/ppc.go: branches of the PowerPC, whose words are big-endian.
use sevenzip.Bits.Fields.{bit_and_low, bit_and_high, bit_or_above}
use sevenzip.Branch.{Four, IsFour, Rewrite, get_be, put_be, shift_by, add32, sub32}
use sevenzip.Branch.Laws.{get_be-put_be, put_be-get_be, put_be-IsFour}
use sevenzip.Prelude.{
  ℕ, ◌+◌, ◌*◌, ◌/◌, ◌%◌, ◌^◌, ◌<◌, ◌≡◌, refl, Bool, true, false, bit_and, bit_or, ◌&&◌, ◌==◌,
  Bool-cases, inl, inr, arith, if◌then◌else◌,
}

-- `b[i+0]&0xfc == 0x48 && b[i+3]&3 == 1`
unfoldable pub is_ppc_branch : Four → Bool
is_ppc_branch w = bit_and w.b0 0xfc == 0x48 && bit_and w.b3 3 == 1

unfoldable pub ppc_word : Rewrite
unfolding is_ppc_branch
ppc_word encoding ip w =
    let v = get_be w in
    put_be (
      if is_ppc_branch w
      then bit_or (bit_and (shift_by encoding v ip) 0x03ffffff) 0x48000000
      else v)

branch_opcode : (w : Four) → IsFour w → is_ppc_branch w ≡ true → (w.b0 / 4 ≡ 18) × (w.b3 % 4 ≡ 1)
unfolding is_ppc_branch
branch_opcode w h e = ground (arith, bit_and_high 6 2 w.b0, bit_and_low 2 w.b3)

is_branch : (w : Four) → IsFour w → w.b0 / 4 ≡ 18 → w.b3 % 4 ≡ 1 → is_ppc_branch w ≡ true
unfolding is_ppc_branch
is_branch w h e f = ground (arith, bit_and_high 6 2 w.b0, bit_and_low 2 w.b3)

-- The instruction with another address.
branch_to : (v : ℕ) → bit_or (bit_and v 0x03ffffff) 0x48000000 ≡ 18 * 2 ^ 26 + v % 2 ^ 26
branch_to v =
    let joined : bit_or (v % 2 ^ 26) 0x48000000 ≡ 18 * 2 ^ 26 + v % 2 ^ 26 =
      bit_or_above 26 (v % 2 ^ 26) 18 (omega arith) in
    rw (bit_and_low 26 v) joined

-- The word of a branch that is moved, and what the filter makes of a branch.
abbrev branch_word : ℕ → Four
branch_word address = put_be (18 * 2 ^ 26 + address % 2 ^ 26)

ppc_word_branch :
    (encoding : Bool) (ip : ℕ) (w : Four)
    → is_ppc_branch w ≡ true
    → ppc_word encoding ip w ≡ branch_word (shift_by encoding (get_be w) ip)
unfolding ppc_word
ppc_word_branch encoding ip w e = rw (e, branch_to) refl

ppc_word_other :
    (encoding : Bool) (ip : ℕ) (w : Four)
    → IsFour w
    → is_ppc_branch w ≡ false
    → ppc_word encoding ip w ≡ w
unfolding ppc_word
ppc_word_other encoding ip w h e = rw e (put_be-get_be w h)

moved_branch :
    (ip : ℕ) (w : Four)
    → IsFour w
    → ip % 4 ≡ 0
    → is_ppc_branch w ≡ true
    → is_ppc_branch (branch_word (add32 (get_be w) ip)) ≡ true
unfolding put_be get_be
moved_branch ip w h aligned e =
    is_branch _ (put_be-IsFour _) (omega arith) (omega (arith, branch_opcode w h e))

moved_back :
    (ip : ℕ) (w : Four)
    → IsFour w
    → ip < 2 ^ 32
    → is_ppc_branch w ≡ true
    → 18 * 2 ^ 26 + sub32 (18 * 2 ^ 26 + add32 (get_be w) ip % 2 ^ 26) ip % 2 ^ 26 ≡ get_be w
unfolding get_be
moved_back ip w h fits e = omega (arith, branch_opcode w h e)

-- Decoding a word undoes its encoding at the same address.
pub ppc_word_undone :
    (ip : ℕ) (w : Four)
    → IsFour w
    → ip < 2 ^ 32
    → ip % 4 ≡ 0
    → ppc_word false ip (ppc_word true ip w) ≡ w
ppc_word_undone ip w h fits aligned = elim (Bool-cases (is_ppc_branch w)) [
  | inr e ↦ let same = ppc_word_other true ip w h e in rw (same, ppc_word_other false ip w h e)
  | inl e ↦
      rw
        (
          ppc_word_branch true ip w e,
          ppc_word_branch false ip (branch_word (add32 (get_be w) ip))
              (moved_branch ip w h aligned e),
          get_be-put_be (18 * 2 ^ 26 + add32 (get_be w) ip % 2 ^ 26) (omega arith),
          moved_back ip w h fits e,
        )
        (put_be-get_be w h)
]
