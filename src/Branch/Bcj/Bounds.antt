-- ===== src/Branch/Bcj/Bounds.antt =====
-- Where internal/bra/bcj.go stops, and that it stays within its buffer.
use sevenzip.Bits.Fields.{bit_or_above, bit_and_low}
use sevenzip.Branch.Bcj.{
  look_ahead, Bcj, test86_ms_byte, Run, returned, again, panicked, with_byte, next_opcode,
  mask_after, mask_next, put_operand, operand, rewrite_at, at_opcode, round, rounds, bcj_convert,
}
use sevenzip.Branch.{word, get_le}
use sevenzip.Delta.Queue.{length-modify}
use sevenzip.Prelude.{
  ℕ, zero, suc, ◌+◌, ◌-◌, ◌/◌, ◌%◌, ◌<◌, ◌≤◌, ◌≡◌, refl, Bool, ◌||◌, none, some, [], ◌∷◌, length,
  ltb, leb, leb→le, ◌==◌, bit_and, bit_or, get_elem?_within, if_split, arith, dec_lt, lt→ltb, subst,
  sym,
}
use sevenzip.Stream.{Bytes}

module _ {κ} (P : Run → Type κ) where
  with_byte_within :
      (b : Bytes) (i : ℕ) (k : ℕ → Run) → i < length b → ((x : ℕ) → P (k x)) → P (with_byte b i k)
  with_byte_within b i k h each =
      let found = get_elem?_within b i h in
      subst (λ o. P (elim o [ none ↦ panicked | some x ↦ k x ])) (sym found.1) (each found.0)

  scan_within :
      (left : ℕ) (b : Bytes) (p : ℕ) (k : ℕ → Run)
      → p + left ≤ length b
      → ((q : ℕ) → p ≤ q → q ≤ p + left → P (k q))
      → P (next_opcode left b p k)
  unfolding next_opcode
  scan_within zero b p k h each = each p (omega arith) (omega arith)
  scan_within (suc left) b p k h each =
      let rest =
        scan_within left b (p + 1) k (omega arith) (λ q l u. each q (omega arith) (omega arith)) in
      with_byte_within b p _ (omega arith) λ x.
        if_split P (bit_and x 0xfe == 0xe8) (k p) (next_opcode left b (p + 1) k)
          (λ _. each p (omega arith) (omega arith)) (λ _. rest)

-- What a round that started at `pos` of a buffer of n bytes may come to.
abbrev Goes : (n pos : ℕ) → Run → Type 0
Goes n pos (returned l) =
    (length l.bytes ≡ n) × (n ≤ l.count + 4) × (l.count ≤ n) × (l.conv.state ≤ 7)
Goes n pos (again b pos' mask) =
    (length b ≡ n) × (pos < pos') × (pos + 4 < n) × (pos' ≤ n) × (mask ≤ 7)
Goes n pos panicked = ⊥

mask_after-le : (d mask : ℕ) → mask ≤ 7 → mask_after d mask ≤ 7
unfolding mask_after
mask_after-le zero mask h = omega arith
mask_after-le (suc zero) mask h = omega arith
mask_after-le (suc (suc zero)) mask h = omega arith
mask_after-le (suc (suc (suc d))) mask h = ground arith

mask_next-le : (mask : ℕ) → mask ≤ 7 → mask_next mask ≤ 7
mask_next-le mask h =
    let joined : bit_or (mask / 2) 4 ≡ 4 + mask / 2 = bit_or_above 2 (mask / 2) 1 (omega arith) in
    omega (arith, joined)

length-put_operand : (b : Bytes) (p v : ℕ) → length (put_operand b p v) ≡ length b
unfolding put_operand
length-put_operand b p v =
    rw length-modify (rw length-modify (rw length-modify (length-modify _ b (p + 1))))

module _ (encoding : Bool) (c : Bcj) (b : Bytes) (pos : ℕ) where
  module _ (p mask : ℕ) (from : pos ≤ p) (room : p + 4 < length b) (small : mask ≤ 7) where
    skip-Goes : Goes (length b) pos (again b (p + 1) (mask_next mask))
    skip-Goes = (refl, omega arith, omega arith, omega arith, mask_next-le mask small)

    rewrite_at-Goes : Goes (length b) pos (rewrite_at encoding c b p mask)
    unfolding rewrite_at
    rewrite_at-Goes =
        let cur = (c.ip + 5 + p) % word in
        with_byte_within (Goes (length b) pos) b (p + 4) _ (omega arith) λ x.
          if_split (Goes (length b) pos) (test86_ms_byte x) _ _
            (λ _. with_byte_within (Goes (length b) pos) b (p + 1) _ (omega arith) λ b0.
              with_byte_within (Goes (length b) pos) b (p + 2) _ (omega arith) λ b1.
                with_byte_within (Goes (length b) pos) b (p + 3) _ (omega arith) λ b2.
                  with_byte_within (Goes (length b) pos) b (p + 4) _ (omega arith) λ b3.
                    let v = get_le (record { b0 = b0; b1 = b1; b2 = b2; b3 = b3 }) in
                    (
                      length-put_operand b p (operand encoding cur mask v),
                      omega arith,
                      omega arith,
                      omega arith,
                      omega arith,
                    ))
            (λ _. skip-Goes)

  at_opcode-Goes :
      (mask p : ℕ)
      → mask ≤ 7
      → pos ≤ p
      → p ≤ length b
      → Goes (length b) pos (at_opcode encoding c b pos mask p)
  unfolding at_opcode
  at_opcode-Goes mask p small from within =
      let mask' = mask_after (p - pos) mask in
      let small' = mask_after-le (p - pos) mask small in
      let G = Goes (length b) pos in
      if_split G (leb (length b - look_ahead) p) _ _
        (λ e. (refl, omega (arith, leb→le _ _ e), within, small'))
        (λ e.
          let room : p + 4 < length b = ground arith in
          let skip = skip-Goes p mask' from room small' in
          let go = rewrite_at-Goes p mask' from room small' in
          if_split G (mask' == 0) _ _ (λ _. go)
            (λ nz.
              if_split G (ltb 4 mask' || mask' == 3) _ _ (λ _. skip)
                (λ f.
                  let index : p + mask' / 2 + 1 < length b = ground arith in
                  with_byte_within G b (p + mask' / 2 + 1) _ index
                    λ x. if_split G (test86_ms_byte x) _ _ (λ _. skip) (λ _. go))))

  round-Goes :
      (mask : ℕ)
      → mask ≤ 7
      → pos ≤ length b
      → 4 ≤ length b
      → Goes (length b) pos (round encoding c b pos mask)
  unfolding round
  round-Goes mask small within enough =
      scan_within (Goes (length b) pos) (length b - look_ahead - pos) b pos _ (omega arith)
        λ p from upto. at_opcode-Goes mask p small from (omega arith)

-- Convert has returned, with a buffer of n bytes.
abbrev pub Stops : (n : ℕ) → Run → Type 0
Stops n (returned l) = (length l.bytes ≡ n) × (n ≤ l.count + 4) × (l.count ≤ n) × (l.conv.state ≤ 7)
Stops n (again b pos mask) = ⊥
Stops n panicked = ⊥

module _ (encoding : Bool) (c : Bcj) (n : ℕ) (enough : 4 ≤ n) where
  rounds-Stops :
      (fuel pos : ℕ) (run : Run)
      → Goes n pos run
      → n ≤ fuel + pos + 4
      → Stops n (rounds fuel encoding c run)
  unfolding rounds
  rounds-Stops zero pos (returned l) goes left = goes
  rounds-Stops zero pos (again b pos' mask) goes left = absurd (omega arith)
  rounds-Stops zero pos panicked goes left = goes
  rounds-Stops (suc fuel) pos (returned l) goes left = goes
  rounds-Stops (suc fuel) pos panicked goes left = goes
  rounds-Stops (suc fuel) pos (again b pos' mask) goes left =
      let size = goes.0 in
      let next = round-Goes encoding c b pos' mask goes.4 (omega arith) (omega arith) in
      rounds-Stops fuel pos' (round encoding c b pos' mask)
        (subst (λ k. Goes k pos' (round encoding c b pos' mask)) size next) (omega arith)

enough_bytes :
    (encoding : Bool) (c : Bcj) (b : Bytes)
    → 5 ≤ length b
    → Stops (length b) (bcj_convert encoding c b)
unfolding bcj_convert rounds
enough_bytes encoding c (x ∷ b) enough =
    let n = length (x ∷ b) in
    let bits : bit_and c.state 7 ≡ c.state % 8 = bit_and_low 3 c.state in
    let next =
      round-Goes encoding c (x ∷ b) 0 (bit_and c.state 7) (omega arith) (omega arith)
        (omega arith) in
    let stops =
      rounds-Stops encoding c n (omega arith) (length b) 0
        (round encoding c (x ∷ b) 0 (bit_and c.state 7)) next (omega arith) in
    if_split (Stops n) (ltb n (look_ahead + 1)) _ _ (λ e. absurd (ground arith)) (λ _. stops)
enough_bytes encoding c [] enough = absurd (omega arith)

too_few :
    (encoding : Bool) (c : Bcj) (b : Bytes)
    → length b < 5
    → bcj_convert encoding c b ≡ returned (record { bytes = b; count = 0; conv = c })
unfolding bcj_convert
too_few encoding c b few = rw (lt→ltb (length b) (look_ahead + 1) few) refl

-- Convert of the x86 filter returns on every buffer, whatever it holds and however short it is, where
-- the mask that is kept has three bits: no index is out of range, the buffer keeps its length, all of
-- it but the last four bytes is final, and the mask has three bits again. A buffer of fewer than five
-- bytes is left as it is, with no byte final, and so is the filter.
pub bcj_convert-Stops :
    (encoding : Bool) (c : Bcj) (b : Bytes)
    → c.state ≤ 7
    → Stops (length b) (bcj_convert encoding c b)
      × (length b < 5
          → bcj_convert encoding c b ≡ returned (record { bytes = b; count = 0; conv = c }))
bcj_convert-Stops encoding c b small = (
  elim (dec_lt (length b) 5) [
    | yes few ↦ rw (too_few encoding c b few) (refl, omega arith, omega arith, small)
    | no many ↦ enough_bytes encoding c b (omega arith)
  ],
  too_few encoding c b,
)
