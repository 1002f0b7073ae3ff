-- ===== src/Bcj2/Whole.antt =====
-- The stream that internal/bcj2/reader.go stands for, without its buffer, and that it can be decoded.
use sevenzip.Bcj2.Range.{decode_within}
use sevenzip.Bcj2.{
  is_j, model_index, RangeDecoder, Decoder, decode_bit, Outcome, nil, eof, cut, panicked, Written,
  Address, address, at_end, too_short, read_address, put_address, take_address, after_bit,
  after_opcode,
}
use sevenzip.Prelude.{
  ℕ, ◌+◌, ◌%◌, ◌^◌, ◌<◌, ◌≡◌, ◌≢◌, refl, ◌∙◌, Bool, true, false, some, [], ◌∷◌, ◌++◌, length, All,
  ◌==◌, if◌then◌else◌, if_split, arith,
}
use sevenzip.Stream.{Bytes, IsByte}

-- A byte of main that has been written.
abbrev pub consumed : Decoder → Bytes → Decoder
consumed d main = record d { main = main; written = (d.written + 1) % 2 ^ 32 }

-- What follows a byte that may be an opcode.
abbrev pub after_step : ℕ → Bytes → Outcome → Bytes × Outcome → Bytes × Outcome
after_step b out nil rest = (b ∷ (out ++ rest.0), rest.1)
after_step b out eof rest = (b ∷ (out ++ rest.0), rest.1)
after_step b out cut rest = (b ∷ [], cut)
after_step b out panicked rest = (b ∷ [], panicked)

-- The decoded stream, over the bytes of main, and how it ends.
unfoldable pub decoded : Decoder → Bytes → Bytes × Outcome
decoded d [] = ([], eof)
decoded d (b ∷ main) =
    let s = after_opcode (consumed d main) b in
    let after = decoded s.after main in
    let plain = decoded (record (consumed d main) { previous = b }) main in
    if is_j d.previous b then after_step b s.out s.outcome after else (b ∷ plain.0, plain.1)

-- The model has its 258 probabilities, and the last byte is one.
pub record IsSafe (d : Decoder) : Type 0 where
  pub probabilities : length d.range.sd ≡ 258
  pub last_byte : d.previous < 256

-- A step kept what the next one needs, and did not run out of an index.
pub record StepIsSafe (main : Bytes) (s : Written) : Type 0 where
  pub safe_after : IsSafe s.after
  pub same_main : s.after.main ≡ main
  pub no_panic : s.outcome ≢ panicked

model_index-lt : (b0 b1 : ℕ) → b0 < 256 → model_index b0 b1 < 258
unfolding model_index
model_index-lt b0 b1 h = ground arith

put_address-IsSafe :
    (d : Decoder) (number : ℕ)
    → IsSafe d
    → IsSafe (put_address d number).1 × ((put_address d number).1.main ≡ d.main)
unfolding put_address
put_address-IsSafe d number h =
    (record { probabilities = h.probabilities; last_byte = omega arith }, refl)

after_opcode_lem :
    (d : Decoder) (b : ℕ) (bit : Bool) (range : RangeDecoder)
    → decode_bit (model_index d.previous b) d.range ≡ some (bit, range)
    → after_opcode d b ≡ after_bit (record d { range = range }) b bit
unfolding after_opcode
after_opcode_lem d b bit range e = rw (e, after_opcode) refl

module _ (d : Decoder) (b : ℕ) (safe : IsSafe d) (byte : IsByte b) where
  either_stream :
      (rest : Bytes)
      → IsSafe (if b == 0xe8 then record d { call = rest } else record d { jump = rest })
        × ((if b == 0xe8 then record d { call = rest } else record d { jump = rest }).main ≡ d.main)
  either_stream rest =
      if_split (λ x. IsSafe x × (x.main ≡ d.main)) (b == 0xe8) _ _
        (λ _. (record { probabilities = safe.probabilities; last_byte = safe.last_byte }, refl))
        (λ _. (record { probabilities = safe.probabilities; last_byte = safe.last_byte }, refl))

  take_address-safe : (a : Address) → StepIsSafe d.main (take_address d b a)
  unfolding take_address
  take_address-safe at_end = record { safe_after = safe; same_main = refl; no_panic = λ e. cc }
  take_address-safe too_short =
      let kept = either_stream [] in
      record { safe_after = kept.0; same_main = kept.1; no_panic = λ e. cc }
  take_address-safe (address number rest) =
      let kept = either_stream rest in
      let moved = put_address-IsSafe _ number kept.0 in
      record { safe_after = moved.0; same_main = moved.1 ∙ kept.1; no_panic = λ e. cc }

  after_bit-safe : (bit : Bool) → StepIsSafe d.main (after_bit d b bit)
  unfolding after_bit
  after_bit-safe true = take_address-safe (read_address (if b == 0xe8 then d.call else d.jump))
  after_bit-safe false = record {
    safe_after = record { probabilities = safe.probabilities; last_byte = byte };
    same_main = refl;
    no_panic = λ e. cc;
  }

pub after_opcode-safe :
    (d : Decoder) (b : ℕ) → IsSafe d → IsByte b → StepIsSafe d.main (after_opcode d b)
after_opcode-safe d b safe byte =
    let step =
      decode_within (model_index d.previous b) d.range
        (omega (arith, safe.probabilities, model_index-lt d.previous b safe.last_byte)) in
    let d' : Decoder = record d { range = step.1 } in
    let safe' : IsSafe d' = record {
      probabilities = step.3 ∙ safe.probabilities;
      last_byte = safe.last_byte;
    } in
    rw (after_opcode_lem d b step.0 step.1 step.2) (after_bit-safe d' b safe' byte step.0)

step_no_panic :
    (b : ℕ) (out : Bytes) (rest : Bytes × Outcome) (o : Outcome)
    → o ≢ panicked
    → rest.1 ≢ panicked
    → (after_step b out o rest).1 ≢ panicked
step_no_panic b out rest nil h later = later
step_no_panic b out rest eof h later = later
step_no_panic b out rest cut h later = h
step_no_panic b out rest panicked h later = h

-- The decoded stream never comes to an index out of range.
pub decoded_no_panic :
    (d : Decoder) (main : Bytes) → IsSafe d → All IsByte main → (decoded d main).1 ≢ panicked
unfolding decoded
decoded_no_panic d [] safe bytes = λ e. cc
decoded_no_panic d (b ∷ main) safe bytes =
    let d' = consumed d main in
    let s = after_opcode d' b in
    let safe' : IsSafe d' = record {
      probabilities = safe.probabilities;
      last_byte = safe.last_byte;
    } in
    let step = after_opcode-safe d' b safe' bytes.0 in
    let plain : Decoder = record d' { previous = b } in
    let plain_safe : IsSafe plain = record {
      probabilities = safe.probabilities;
      last_byte = bytes.0;
    } in
    if_split (λ (w : Bytes × Outcome). w.1 ≢ panicked) (is_j d.previous b) _ _
      (λ _.
        step_no_panic b s.out (decoded s.after main) s.outcome step.no_panic
          (decoded_no_panic s.after main step.safe_after bytes.1))
      (λ _. decoded_no_panic plain main plain_safe bytes.1)
