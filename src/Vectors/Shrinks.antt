-- ===== src/Vectors/Shrinks.antt =====
-- How many bytes the parsers of types.go leave.
use sevenzip.Prelude.{
  ℕ, zero, suc, ◌≤◌, Bool, true, false, List, [], ◌∷◌, length, arith, ◌==◌, ltb, ◌&&◌, ◌||◌,
  if◌then◌else◌,
}
use sevenzip.Stream.{
  Parser, Bytes, Result, Error, ok, err, bind, ◌>>=◌, pure, fail, guard, read_byte, read_full,
  read_le, uint64_non_zero, uint64_too_large,
}
use sevenzip.Number.{read_uint64, check_uint64, read_low, max_int, max_uint32}
use sevenzip.Vectors.{read_bool, read_bits, read_optional_bool, read_defined}

module _ {ℓ} {A : Type ℓ} where
  -- A result that leaves no more than n bytes.
  abbrev pub LeavesAtMost : ℕ → Result (A × Bytes) → Type 0
  LeavesAtMost n (err e) = Unit
  LeavesAtMost n (ok (a, rest)) = length rest ≤ n

  pub LeavesAtMost-weaken :
      (m n : ℕ) (r : Result (A × Bytes)) → m ≤ n → LeavesAtMost m r → LeavesAtMost n r
  LeavesAtMost-weaken m n (err e) le h = tt
  LeavesAtMost-weaken m n (ok (a, rest)) le h = omega arith

  -- A parser that leaves no more than it is given.
  pub record Shrinks (p : Parser A) : Type 0 where
    pub leaves : (s : Bytes) → LeavesAtMost (length s) (p s)

  pub Shrinks-pure : (a : A) → Shrinks (pure a)
  Shrinks-pure a = record { leaves = λ s. omega arith }

  pub Shrinks-fail : (e : Error) → Shrinks (fail e)
  Shrinks-fail e = record { leaves = λ s. tt }

  pub Shrinks-if :
      (b : Bool) (p q : Parser A) → Shrinks p → Shrinks q → Shrinks (if b then p else q)
  Shrinks-if true p q hp hq = hp
  Shrinks-if false p q hp hq = hq

module _ {ℓ κ} {A : Type ℓ} {B : Type κ} where
  pub LeavesAtMost-bind :
      (n : ℕ) (r : Result (A × Bytes)) (f : A → Parser B)
      → LeavesAtMost n r
      → ((a : A) → Shrinks (f a))
      → LeavesAtMost n (bind r λ (a, rest). f a rest)
  LeavesAtMost-bind n (err e) f h hf = tt
  LeavesAtMost-bind n (ok (a, rest)) f h hf =
      LeavesAtMost-weaken (length rest) n (f a rest) h ((hf a).leaves rest)

  pub Shrinks->>= :
      (p : Parser A) (f : A → Parser B) → Shrinks p → ((a : A) → Shrinks (f a)) → Shrinks (p >>= f)
  Shrinks->>= p f hp hf = record {
    leaves = λ s. LeavesAtMost-bind (length s) (p s) f (hp.leaves s) hf;
  }

  pub Shrinks-with_result : (r : Result A) (f : A → B) → Shrinks (λ s. bind r λ a. ok (f a, s))
  Shrinks-with_result (ok a) f = record { leaves = λ s. omega arith }
  Shrinks-with_result (err e) f = record { leaves = λ s. tt }

-- Reading a byte leaves less.
pub read_byte_leaves : (s : Bytes) → LeavesAtMost (length s) (read_byte s)
unfolding read_byte
read_byte_leaves [] = tt
read_byte_leaves (b ∷ s) = omega arith

pub Shrinks-read_byte : Shrinks read_byte
Shrinks-read_byte = record { leaves = read_byte_leaves }

pub read_full_leaves : (n : ℕ) (s : Bytes) → LeavesAtMost (length s) (read_full n s)
unfolding read_full
read_full_leaves zero s = omega arith
read_full_leaves (suc n) [] = tt
read_full_leaves (suc n) (b ∷ s) = LeavesAtMost-weaken (length s) (length (b ∷ s)) _ (omega arith) (
    LeavesAtMost-bind (length s) (read_full n s) (λ bs. pure (b ∷ bs)) (read_full_leaves n s)
      (λ bs. Shrinks-pure (b ∷ bs)))

pub Shrinks-read_full : (n : ℕ) → Shrinks (read_full n)
Shrinks-read_full n = record { leaves = read_full_leaves n }

pub Shrinks-read_le : (n : ℕ) → Shrinks (read_le n)
unfolding read_le
Shrinks-read_le n = Shrinks->>= (read_full n) _ (Shrinks-read_full n) (λ bs. Shrinks-pure _)

pub Shrinks-guard : (b : Bool) (e : Error) → Shrinks (guard b e)
Shrinks-guard true e = Shrinks-pure tt
Shrinks-guard false e = Shrinks-fail e

pub Shrinks-check_uint64 : (v : ℕ) (b : Bool) → Shrinks (check_uint64 v b)
unfolding check_uint64
Shrinks-check_uint64 v b = Shrinks-if (b && v == 0) _ _ (Shrinks-fail uint64_non_zero) (
    Shrinks-if (ltb max_int v || ltb max_uint32 v) _ _ (Shrinks-fail uint64_too_large)
      (Shrinks-pure tt))

pub Shrinks-read_low : (rounds i v : ℕ) → Shrinks (read_low rounds i v)
unfolding read_low
Shrinks-read_low zero i v = Shrinks-pure v
Shrinks-read_low (suc rounds) i v =
    Shrinks->>= read_byte _ Shrinks-read_byte (λ b. Shrinks-read_low rounds _ _)

pub Shrinks-read_uint64 : Shrinks read_uint64
unfolding read_uint64
Shrinks-read_uint64 = Shrinks->>= read_byte _ Shrinks-read_byte (λ b. Shrinks-read_low _ _ _)

pub Shrinks-read_bits : (count b mask : ℕ) → Shrinks (read_bits count b mask)
unfolding read_bits
Shrinks-read_bits zero b mask = Shrinks-pure []
Shrinks-read_bits (suc count) b mask =
    Shrinks->>= _ _
      (Shrinks-if (mask == 0) _ _
        (Shrinks->>= read_byte _ Shrinks-read_byte (λ fresh. Shrinks-pure _))
        (Shrinks-pure (b, mask)))
      (λ r. Shrinks->>= _ _ (Shrinks-read_bits count _ _) (λ defined. Shrinks-pure _))

pub Shrinks-read_bool : (count : ℕ) → Shrinks (read_bool count)
unfolding read_bool
Shrinks-read_bool count =
    Shrinks->>= _ _ (Shrinks-check_uint64 count true) (λ u. Shrinks-read_bits count 0 0)

pub Shrinks-read_optional_bool : (count : ℕ) → Shrinks (read_optional_bool count)
unfolding read_optional_bool
Shrinks-read_optional_bool count = Shrinks->>= _ _ (Shrinks-check_uint64 count true) λ u.
    Shrinks->>= read_byte _ Shrinks-read_byte
      λ all. Shrinks-if _ _ _ (Shrinks-read_bool count) (Shrinks-pure _)

pub Shrinks-read_defined : (width : ℕ) (defined : List Bool) → Shrinks (read_defined width defined)
unfolding read_defined
Shrinks-read_defined width [] = Shrinks-pure []
Shrinks-read_defined width (true ∷ defined) =
    Shrinks->>= _ _ (Shrinks-read_le width)
      λ c. Shrinks->>= _ _ (Shrinks-read_defined width defined) λ cs. Shrinks-pure _
Shrinks-read_defined width (false ∷ defined) =
    Shrinks->>= _ _ (Shrinks-read_defined width defined) λ cs. Shrinks-pure _
