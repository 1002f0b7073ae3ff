-- ===== src/Bcj2/Range.antt =====
-- The range decoder of internal/bcj2/reader.go: decode and update.
use sevenzip.Bcj2.{
  bit_model_total, top_value, add64, sub64, mul64, shift_in, RangeDecoder, update, decode_bit,
}
use sevenzip.Bits.{bit_or_low}
use sevenzip.Delta.Queue.{length-modify}
use native.Mathlib.Nat.{mul-le-mul_left}
use sevenzip.Prelude.{
  ℕ, zero, suc, ◌+◌, ◌*◌, ◌/◌, ◌^◌, ◌<◌, ◌≤◌, ◌≡◌, refl, Bool, true, false, some, List, [], ◌∷◌,
  length, drop, All, ltb, ltb→lt, get_elem?, get_elem?_within, modify, Bool-cases, inl, inr, ◌∙◌,
  if_split, if◌then◌else◌, arith, ap,
}
use sevenzip.Stream.{Bytes, IsByte}

-- A probability that stays away from both ends.
abbrev pub IsProbability : ℕ → Type 0
IsProbability p = (31 ≤ p) × (p ≤ 2017)

-- The bytes to come are bytes, the range is normalised and holds the code, and the model is one.
pub record IsRange (r : RangeDecoder) : Type 0 where
  pub bytes : All IsByte r.rd
  pub range_low : top_value ≤ r.nrange
  pub range_high : r.nrange < 2 ^ 32
  pub code_within : r.code < r.nrange
  pub model : All IsProbability r.sd

All-modify :
    (P : ℕ → Type 0) (xs : List ℕ) (i v : ℕ) → All P xs → P v → All P (modify (λ _. v) xs i)
All-modify P [] i v h hv = h
All-modify P (x ∷ xs) zero v h hv = (hv, h.1)
All-modify P (x ∷ xs) (suc i) v h hv = (h.0, All-modify P xs i v h.1 hv)

All-get : (P : ℕ → Type 0) (xs : List ℕ) (i v : ℕ) → All P xs → get_elem? xs i ≡ some v → P v
All-get P [] i v h e = cc
All-get P (x ∷ xs) zero v h e = let same : x ≡ v = cc in rw (← same) h.0
All-get P (x ∷ xs) (suc i) v h e = All-get P xs i v h.1 e

-- Before `update`, the range may have lost eight bits at most.
abbrev IsShort : RangeDecoder → Type 0
IsShort r =
    (2 ^ 16 ≤ r.nrange)
    × (r.nrange < 2 ^ 32)
    × (r.code < r.nrange)
    × All IsProbability r.sd
    × All IsByte r.rd

shift_in-lt : (code b : ℕ) → code < 2 ^ 32 → b < 256 → shift_in code b ≡ code * 256 + b
shift_in-lt code b h hb =
    let whole : mul64 code 256 ≡ code * 2 ^ 8 = omega arith in rw whole (bit_or_low 8 code b hb)

next_byte : Bytes → ℕ
next_byte rd = elim rd [ [] ↦ 0 | b ∷ rest ↦ b ]

next_byte-IsByte : (rd : Bytes) → All IsByte rd → IsByte (next_byte rd) × All IsByte (drop 1 rd)
unfolding next_byte
next_byte-IsByte [] h = (omega arith, h)
next_byte-IsByte (b ∷ rd) h = h

update-IsRange : (r : RangeDecoder) → IsShort r → IsRange (update r)
unfolding update next_byte
update-IsRange r (low, high, code, model, bytes) =
    let b = next_byte r.rd in
    let next = next_byte-IsByte r.rd bytes in
    if_split IsRange (ltb r.nrange top_value)
      (record r { rd = drop 1 r.rd; code = shift_in r.code b; nrange = mul64 r.nrange 256 }) r
      (λ e.
        let small = ltb→lt r.nrange top_value e in
        let code' = shift_in-lt r.code b (omega arith) next.0 in
        record {
          bytes = next.1;
          range_low = omega arith;
          range_high = omega arith;
          code_within = omega (arith, code', next.0);
          model = model;
        })
      (λ e. record {
        bytes = bytes;
        range_low = ground arith;
        range_high = high;
        code_within = code;
        model = model;
      })

-- The bound lies inside the range, with room on both sides.
bound_within :
    (nrange p : ℕ)
    → top_value ≤ nrange
    → nrange < 2 ^ 32
    → IsProbability p
    → let bound = mul64 (nrange / bit_model_total) p in (2 ^ 16 ≤ bound) × (bound + 2 ^ 16 ≤ nrange)
bound_within nrange p low high h =
    let q = nrange / bit_model_total in
    let least : q * 31 ≤ q * p = mul-le-mul_left q h.0 in
    let most : q * p ≤ q * 2017 = mul-le-mul_left q h.1 in
    let size : q * p < 2 ^ 64 = omega arith in omega arith

update-sd : (r : RangeDecoder) → (update r).sd ≡ r.sd
unfolding update
update-sd r = if_split (λ x. x.sd ≡ r.sd) (ltb r.nrange top_value) _ r (λ _. refl) (λ _. refl)

-- The state before `update`, where the bit is 0 or 1.
bound_of : ℕ → RangeDecoder → ℕ
bound_of p r = mul64 (r.nrange / bit_model_total) p

lower : ℕ → ℕ → RangeDecoder → RangeDecoder
lower i p r = record r {
  nrange = bound_of p r;
  sd = modify (λ _. add64 p (sub64 bit_model_total p / 2 ^ 5)) r.sd i;
}

upper : ℕ → ℕ → RangeDecoder → RangeDecoder
upper i p r = record r {
  nrange = sub64 r.nrange (bound_of p r);
  code = sub64 r.code (bound_of p r);
  sd = modify (λ _. sub64 p (p / 2 ^ 5)) r.sd i;
}

decode_lem :
    (i p : ℕ) (r : RangeDecoder)
    → get_elem? r.sd i ≡ some p
    → decode_bit i r ≡ (
        if ltb r.code (bound_of p r)
        then some (false, update (lower i p r))
        else some (true, update (upper i p r)))
unfolding decode_bit bound_of lower upper
decode_lem i p r e = rw (e, decode_bit) refl

module _ (i p : ℕ) (r : RangeDecoder) (ok : IsRange r) (probability : IsProbability p) where
  lower-IsShort : r.code < bound_of p r → IsShort (lower i p r)
  unfolding lower bound_of
  lower-IsShort h =
      let bound = bound_within r.nrange p ok.range_low ok.range_high probability in
      (bound.0, omega arith, h, All-modify IsProbability r.sd i _ ok.model (omega arith), ok.bytes)

  upper-IsShort : bound_of p r ≤ r.code → IsShort (upper i p r)
  unfolding upper bound_of
  upper-IsShort h =
      let bound = bound_within r.nrange p ok.range_low ok.range_high probability in
      let within = ok.code_within in
      let high = ok.range_high in
      (
        omega arith,
        omega arith,
        omega arith,
        All-modify IsProbability r.sd i _ ok.model (omega arith),
        ok.bytes,
      )

-- A step of the range decoder keeps its range normalised, its code within the range and its model
-- away from both ends, and it reads no index out of the model's range.
pub decode_bit-IsRange :
    (i : ℕ) (r : RangeDecoder)
    → i < length r.sd
    → IsRange r
    → (bit : Bool) × (r' : RangeDecoder) × (decode_bit i r ≡ some (bit, r'))
      × IsRange r'
      × (length r'.sd ≡ length r.sd)
decode_bit-IsRange i r inside ok =
    let found = get_elem?_within r.sd i inside in
    let p = found.0 in
    let probability = All-get IsProbability r.sd i p ok.model found.1 in
    let step = decode_lem i p r found.1 in
    elim (Bool-cases (ltb r.code (bound_of p r))) [
      | inl e ↦ (
        false,
        update (lower i p r),
        step ∙ (rw e refl),
        update-IsRange (lower i p r) (lower-IsShort i p r ok probability (ltb→lt _ _ e)),
        ap length (update-sd (lower i p r)) ∙ (unfold lower in length-modify _ r.sd i),
      )
      | inr e ↦ (
        true,
        update (upper i p r),
        step ∙ (rw e refl),
        update-IsRange (upper i p r) (upper-IsShort i p r ok probability (ground arith)),
        ap length (update-sd (upper i p r)) ∙ (unfold upper in length-modify _ r.sd i),
      )
    ]

-- A step reads within the model, whatever the range and the code are.
pub decode_within :
    (i : ℕ) (r : RangeDecoder)
    → i < length r.sd
    → (bit : Bool) × (r' : RangeDecoder) × (decode_bit i r ≡ some (bit, r'))
      × (length r'.sd ≡ length r.sd)
decode_within i r inside =
    let found = get_elem?_within r.sd i inside in
    let p = found.0 in
    let step = decode_lem i p r found.1 in
    elim (Bool-cases (ltb r.code (bound_of p r))) [
      | inl e ↦ (
        false,
        update (lower i p r),
        step ∙ (rw e refl),
        ap length (update-sd (lower i p r)) ∙ (unfold lower in length-modify _ r.sd i),
      )
      | inr e ↦ (
        true,
        update (upper i p r),
        step ∙ (rw e refl),
        ap length (update-sd (upper i p r)) ∙ (unfold upper in length-modify _ r.sd i),
      )
    ]
