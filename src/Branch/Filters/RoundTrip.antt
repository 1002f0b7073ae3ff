-- ===== src/Branch/Filters/RoundTrip.antt =====
-- Decoding after encoding, for each filter of internal/bra whose instructions are words.
use sevenzip.Branch.Arm.{arm_word, arm_convert, arm_word_undone}
use sevenzip.Branch.Arm64.{arm64_word}
use sevenzip.Branch.Arm64.Undone.{arm64_word_undone}
use sevenzip.Branch.Filters.{Filter, arm, arm64, ppc, sparc, convert_with}
use sevenzip.Branch.Ppc.{ppc_word, ppc_word_undone}
use sevenzip.Branch.Sparc.{sparc_word, sparc_word_undone}
use sevenzip.Branch.{Four, IsFour, Rewrite, word, word_loop, word_convert}
use sevenzip.Prelude.{
  ℕ, ◌+◌, ◌%◌, ◌^◌, ◌<◌, ◌≡◌, refl, Bool, true, false, [], ◌∷◌, length, All, ltb, ◌==◌, Bool-cases,
  inl, inr, arith, if◌then◌else◌,
}
use sevenzip.Stream.{Bytes, IsByte}

abbrev pub IsAligned : ℕ → Type 0
IsAligned ip = (ip < 2 ^ 32) × (ip % 4 ≡ 0)

pub next-IsAligned : (ip : ℕ) → IsAligned ip → IsAligned ((ip + 4) % word)
next-IsAligned ip h = omega arith

module _ (rewrite : Rewrite)
    (undone : (ip : ℕ) (w : Four)
      → IsFour w
      → IsAligned ip
      → rewrite false ip (rewrite true ip w) ≡ w) where
  word_loop_undone :
      (ip : ℕ) (b : Bytes)
      → All IsByte b
      → IsAligned ip
      → let encoded = word_loop rewrite true ip b in
        word_loop rewrite false ip encoded.bytes ≡ record encoded { bytes = b }
  unfolding word_loop
  word_loop_undone ip [] h aligned = refl
  word_loop_undone ip (a ∷ []) h aligned = refl
  word_loop_undone ip (a ∷ b ∷ []) h aligned = refl
  word_loop_undone ip (a ∷ b ∷ c ∷ []) h aligned = refl
  word_loop_undone ip (a ∷ b ∷ c ∷ d ∷ rest) (ha, (hb, (hc, (hd, h)))) aligned =
      let w : Four = record { b0 = a; b1 = b; b2 = c; b3 = d } in
      rw
        (
          undone ip w (ha, hb, hc, hd) aligned,
          word_loop_undone ((ip + 4) % word) rest h (next-IsAligned ip aligned),
        )
        refl

pub length-word_loop :
    (rewrite : Rewrite) (encoding : Bool) (ip : ℕ) (b : Bytes)
    → length (word_loop rewrite encoding ip b).bytes ≡ length b
unfolding word_loop
length-word_loop rewrite encoding ip [] = refl
length-word_loop rewrite encoding ip (a ∷ []) = refl
length-word_loop rewrite encoding ip (a ∷ b ∷ []) = refl
length-word_loop rewrite encoding ip (a ∷ b ∷ c ∷ []) = refl
length-word_loop rewrite encoding ip (a ∷ b ∷ c ∷ d ∷ rest) =
    omega (arith, length-word_loop rewrite encoding ((ip + 4) % word) rest)

module _ (rewrite : Rewrite)
    (undone : (ip : ℕ) (w : Four)
      → IsFour w
      → IsAligned ip
      → rewrite false ip (rewrite true ip w) ≡ w)
    (b : Bytes) (h : All IsByte b) (ip : ℕ) (aligned : IsAligned ip) where
  convert_undone :
      let encoded = word_convert rewrite true ip b in
      word_convert rewrite false ip encoded.bytes ≡ record encoded { bytes = b }
  unfolding word_convert
  convert_undone = elim (Bool-cases (ltb (length b) 4)) [
    | inl short ↦ rw (short, short) refl
    | inr long ↦
        rw (long, length-word_loop rewrite true ip b, long)
          (word_loop_undone rewrite undone ip b h aligned)
  ]

arm_convert_undone :
    (b : Bytes)
    → All IsByte b
    → (ip : ℕ) → IsAligned ip
    → let encoded = arm_convert true ip b in
      arm_convert false ip encoded.bytes ≡ record encoded { bytes = b }
unfolding arm_convert
arm_convert_undone b h ip aligned =
    let start = if ip == 0 then 4 else ip in
    elim (Bool-cases (ltb (length b) 4)) [
      | inl short ↦ rw (short, short) refl
      | inr long ↦
          rw (long, length-word_loop arm_word true start b, long)
            (word_loop_undone arm_word (λ a w hw _. arm_word_undone a w hw) start b h
              (ground arith))
    ]

-- Convert without `encoding` undoes Convert with it, on every buffer of bytes and at every address
-- that four divides: the bytes come back, and both count the same bytes and end at the same address.
pub convert_with_undone :
    (f : Filter) (b : Bytes)
    → All IsByte b
    → (ip : ℕ) → IsAligned ip
    → let encoded = convert_with f true ip b in
      convert_with f false ip encoded.bytes ≡ record encoded { bytes = b }
unfolding convert_with
convert_with_undone arm b h ip aligned = arm_convert_undone b h ip aligned
convert_with_undone arm64 b h ip aligned =
    convert_undone arm64_word (λ a w hw fits. arm64_word_undone a w hw fits.0) b h ip aligned
convert_with_undone ppc b h ip aligned =
    convert_undone ppc_word (λ a w hw fits. ppc_word_undone a w hw fits.0 fits.1) b h ip aligned
convert_with_undone sparc b h ip aligned =
    convert_undone sparc_word (λ a w hw fits. sparc_word_undone a w hw fits.0 fits.1) b h ip aligned
