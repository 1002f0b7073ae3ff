-- ===== src/Branch/Filters/Parts.antt =====
-- The filters of internal/bra on a stream that comes in pieces: what Convert leaves of a buffer goes
-- before what follows it, and the address goes on.
pub mod Instance
use sevenzip.Branch.Arm.{arm_word, arm_convert}
use sevenzip.Branch.{Rewrite, Converted, word, word_loop, word_convert}
use sevenzip.Prelude.{
  ℕ, zero, suc, ◌+◌, ◌-◌, ◌%◌, ◌^◌, ◌≤◌, ◌<◌, ◌≡◌, ◌≢◌, refl, ap, sym, ◌∙◌, Bool, true, false, [],
  ◌∷◌, ◌++◌, length, take, drop, ltb, ltb→lt, ◌==◌, ==_iff, Bool-cases, inl, inr, arith,
  if◌then◌else◌,
}
use sevenzip.Stream.{Bytes}

module _ (rewrite : Rewrite) (encoding : Bool) where
  -- A buffer of less than a word stays as it is.
  pub word_loop_short :
      (ip : ℕ) (b : Bytes)
      → length b < 4
      → word_loop rewrite encoding ip b ≡ record { bytes = b; count = 0; ip = ip }
  unfolding word_loop
  word_loop_short ip [] h = refl
  word_loop_short ip (a ∷ []) h = refl
  word_loop_short ip (a ∷ b ∷ []) h = refl
  word_loop_short ip (a ∷ b ∷ c ∷ []) h = refl
  word_loop_short ip (a ∷ b ∷ c ∷ d ∷ rest) h = absurd (omega arith)

  pub word_convert-word_loop :
      (ip : ℕ) (b : Bytes) → word_convert rewrite encoding ip b ≡ word_loop rewrite encoding ip b
  unfolding word_convert
  word_convert-word_loop ip b = elim (Bool-cases (ltb (length b) 4)) [
    | inl short ↦ rw (short, word_loop_short ip b (ltb→lt _ _ short)) refl
    | inr long ↦ rw long refl
  ]

  -- What is converted is whole words, less than a word is left, and the address counts the bytes.
  pub word_loop_bounds :
      (ip : ℕ) (b : Bytes)
      → let c = word_loop rewrite encoding ip b in
        (length c.bytes ≡ length b)
        × (c.count ≤ length b)
        × (length b < c.count + 4)
        × (c.count % 4 ≡ 0)
  unfolding word_loop
  word_loop_bounds ip [] = omega arith
  word_loop_bounds ip (a ∷ []) = omega arith
  word_loop_bounds ip (a ∷ b ∷ []) = omega arith
  word_loop_bounds ip (a ∷ b ∷ c ∷ []) = omega arith
  word_loop_bounds ip (a ∷ b ∷ c ∷ d ∷ rest) =
      omega (arith, word_loop_bounds ((ip + 4) % word) rest)

  pub word_loop_ip :
      (ip : ℕ) (b : Bytes)
      → ip < word
      → let c = word_loop rewrite encoding ip b in c.ip ≡ (ip + c.count) % word
  unfolding word_loop
  word_loop_ip ip [] h = omega arith
  word_loop_ip ip (a ∷ []) h = omega arith
  word_loop_ip ip (a ∷ b ∷ []) h = omega arith
  word_loop_ip ip (a ∷ b ∷ c ∷ []) h = omega arith
  word_loop_ip ip (a ∷ b ∷ c ∷ d ∷ rest) h =
      omega (arith, word_loop_ip ((ip + 4) % word) rest (omega arith))

  pub word_loop_parts :
      (ip : ℕ) (b rest : Bytes)
      → let c = word_loop rewrite encoding ip b in
        (word_loop rewrite encoding ip (b ++ rest)).bytes
        ≡ take c.count c.bytes
          ++ (word_loop rewrite encoding c.ip (drop c.count c.bytes ++ rest)).bytes
  unfolding word_loop
  word_loop_parts ip [] rest = refl
  word_loop_parts ip (a ∷ []) rest = refl
  word_loop_parts ip (a ∷ b ∷ []) rest = refl
  word_loop_parts ip (a ∷ b ∷ c ∷ []) rest = refl
  word_loop_parts ip (a ∷ b ∷ c ∷ d ∷ more) rest =
      let r = word_loop rewrite encoding ((ip + 4) % word) more in
      let four : 4 + r.count ≡ suc (suc (suc (suc r.count))) = omega arith in
      rw (four, word_loop_parts ((ip + 4) % word) more rest) refl

-- `if c.ip == 0 { c.ip = armAlignment }`
abbrev pub arm_start : ℕ → ℕ
arm_start ip = if ip == 0 then 4 else ip

pub arm_convert-bytes :
    (encoding : Bool) (ip : ℕ) (b : Bytes)
    → (arm_convert encoding ip b).bytes ≡ (word_loop arm_word encoding (arm_start ip) b).bytes
unfolding arm_convert
arm_convert-bytes encoding ip b = elim (Bool-cases (ltb (length b) 4)) [
  | inl short ↦
      rw (short, word_loop_short arm_word encoding (arm_start ip) b (ltb→lt _ _ short)) refl
  | inr long ↦ rw long refl
]

-- The address of the ARM filter as it will be used: the buffer is converted from `arm_start ip` on.
pub arm_convert_loop :
    (encoding : Bool) (ip : ℕ) (b : Bytes)
    → let c = arm_convert encoding ip b in
      let w = word_loop arm_word encoding (arm_start ip) b in
      (c.bytes ≡ w.bytes)
      × (c.count ≡ w.count)
      × (4 ≤ length b → c.ip ≡ w.ip)
      × (length b < 4 → c.ip ≡ ip)
unfolding arm_convert
arm_convert_loop encoding ip b = elim (Bool-cases (ltb (length b) 4)) [
  | inl short ↦
      rw (short, word_loop_short arm_word encoding (arm_start ip) b (ltb→lt _ _ short))
        (refl, refl, (λ h. absurd (ground arith)), (λ h. refl))
  | inr long ↦ rw long (refl, refl, (λ h. refl), (λ h. absurd (ground arith)))
]
