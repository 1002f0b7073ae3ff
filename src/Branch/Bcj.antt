-- ===== src/Branch/Bcj.antt =====
-- internal/bra/bcj.go: calls and jumps of the x86, whose instructions may stand at any byte. `mask` tells
-- which of the last bytes looked like an opcode.
pub mod Bounds
use Prim.Native.Nat.{bit_xor}
use sevenzip.Branch.{word, shift_by, add32, sub32, Four, get_le, put_le}
use sevenzip.Prelude.{
  ℕ, zero, suc, ◌+◌, ◌-◌, ◌*◌, ◌/◌, ◌%◌, ◌^◌, ◌<◌, ◌≡◌, Bool, true, false, ◌||◌, ◌&&◌, not, Option,
  none, some, List, [], ◌∷◌, length, ltb, leb, ◌==◌, bit_and, bit_or, get_elem?, modify,
  if◌then◌else◌,
}
use sevenzip.Stream.{Bytes}

abbrev pub look_ahead : ℕ
look_ahead = 4

-- bcj
pub record Bcj : Type 0 where
  pub ip : ℕ
  pub state : ℕ

-- `(b+1)&0xfe == 0`, on a byte.
unfoldable pub test86_ms_byte : ℕ → Bool
test86_ms_byte b = bit_and ((b + 1) % 256) 0xfe == 0

-- How a run of the loop ends, or one round of it: `panicked` is an index out of range.
pub record Left : Type 0 where
  pub bytes : Bytes
  pub count : ℕ
  pub conv : Bcj

pub data Run : Type 0 where
  returned : Left → Run
  again : (b : Bytes) (pos mask : ℕ) → Run
  panicked : Run

-- `x := b[i]`, and what follows.
abbrev pub with_byte : Bytes → ℕ → (ℕ → Run) → Run
with_byte b i k = elim (get_elem? b i) [ none ↦ panicked | some x ↦ k x ]

-- The inner loop: the next byte that may be an opcode, with so many places left to look at.
unfoldable pub next_opcode : (left : ℕ) → Bytes → ℕ → (ℕ → Run) → Run
next_opcode zero b p k = k p
next_opcode (suc left) b p k =
    with_byte b p
      λ x. let rest = next_opcode left b (p + 1) k in if bit_and x 0xfe == 0xe8 then k p else rest

-- `mask >>= d`, with nothing left of it past two places.
unfoldable pub mask_after : ℕ → ℕ → ℕ
mask_after d mask = if ltb 2 d then 0 else mask / 2 ^ d

-- `mask = (mask >> 1) | 4`
abbrev pub mask_next : ℕ → ℕ
mask_next mask = bit_or (mask / 2) 4

-- The address that is put at the operand v.
unfoldable pub operand : Bool → ℕ → ℕ → ℕ → ℕ
operand encoding cur mask v =
    let v' = shift_by encoding v cur in
    let sh = bit_and mask 6 * 4 in
    if not (mask == 0) && test86_ms_byte (v' / 2 ^ sh % 256)
    then shift_by encoding (bit_xor v' (sub32 (2 ^ (8 + sh) % word) 1)) cur
    else v'

-- PutUint32(b[p+1:], v), and `b[p+4] = 0 - b[p+4]&1`.
unfoldable pub put_operand : Bytes → ℕ → ℕ → Bytes
put_operand b p v =
    let w = put_le v in
    let first = modify (λ _. w.b0) b (p + 1) in
    let second = modify (λ _. w.b1) first (p + 2) in
    let third = modify (λ _. w.b2) second (p + 3) in
    modify (λ _. (256 - bit_and w.b3 1) % 256) third (p + 4)

-- From `if test86MSByte(b[p+4])` on.
unfoldable pub rewrite_at : Bool → Bcj → Bytes → (p mask : ℕ) → Run
rewrite_at encoding c b p mask =
    let cur = (c.ip + 5 + p) % word in
    let rewritten = with_byte b (p + 1) λ b0. with_byte b (p + 2) λ b1. with_byte b (p + 3) λ b2.
      with_byte b (p + 4) λ b3.
        let v = get_le (record { b0 = b0; b1 = b1; b2 = b2; b3 = b3 }) in
        again (put_operand b p (operand encoding cur mask v)) (p + 5) 0 in
    with_byte b (p + 4)
      λ b3. if test86_ms_byte b3 then rewritten else again b (p + 1) (mask_next mask)

-- What follows the inner loop, which went from pos to p.
unfoldable pub at_opcode : Bool → Bcj → Bytes → (pos mask p : ℕ) → Run
at_opcode encoding c b pos mask p =
    let d = p - pos in
    let mask' = mask_after d mask in
    let skip = again b (p + 1) (mask_next mask') in
    if leb (length b - look_ahead) p
    then returned
        (record { bytes = b; count = p; conv = record { ip = (c.ip + p) % word; state = mask' } })
    else if mask' == 0
    then rewrite_at encoding c b p mask'
    else if ltb 4 mask' || mask' == 3
    then skip
    else with_byte b (p + mask' / 2 + 1)
        λ x. if test86_ms_byte x then skip else rewrite_at encoding c b p mask'

-- One round of the outer loop.
unfoldable pub round : Bool → Bcj → Bytes → (pos mask : ℕ) → Run
round encoding c b pos mask =
    next_opcode (length b - look_ahead - pos) b pos (at_opcode encoding c b pos mask)

-- The outer loop, with so many rounds allowed.
unfoldable pub rounds : (fuel : ℕ) → Bool → Bcj → Run → Run
rounds zero encoding c run = run
rounds (suc fuel) encoding c (again b pos mask) =
    rounds fuel encoding c (round encoding c b pos mask)
rounds (suc fuel) encoding c (returned l) = returned l
rounds (suc fuel) encoding c panicked = panicked

-- Convert: each round goes a byte further at least.
unfoldable pub bcj_convert : Bool → Bcj → Bytes → Run
bcj_convert encoding c b =
    if ltb (length b) (look_ahead + 1)
    then returned (record { bytes = b; count = 0; conv = c })
    else rounds (length b) encoding c (again b 0 (bit_and c.state 7))
