-- ===== src/Vectors/Bools.antt =====
-- The packed bits of writeBool (write_types.go) and readBool (types.go).
use native.Mathlib.Nat.{
  pow-suc, one-le-pow, pow-le-pow_right, mul-div_cancel, le-div_iff_mul-le, div-div-eq-div-mul,
}
use sevenzip.Prelude.{
  ℕ, zero, suc, ◌+◌, ◌*◌, ◌/◌, ◌%◌, ◌^◌, ◌<◌, bit_and, bit_or, ◌≡◌, refl, sym, ap, ◌∙◌, Bool, true,
  false, not, List, [], ◌∷◌, ◌++◌, arith, ◌==◌, length, if◌then◌else◌,
}
use sevenzip.Stream.{Bytes, ok, read_byte}
use sevenzip.Bits.{holds_below, holds_below→, bit_or_low}
use sevenzip.Vectors.{read_bits, write_bits}

abbrev bit_value : Bool → ℕ
bit_value true = 1
bit_value false = 0

bit_check : ℕ → ℕ → Bool
bit_check k f = bit_value (not (bit_and f (2 ^ k) == 0)) == f / 2 ^ k % 2

bit_table : holds_below 8 (λ k. holds_below 256 (bit_check k)) ≡ true
unfolding holds_below bit_check
bit_table = refl

-- The bit that readBool tests is the bit of the quotient.
tested_bit :
    (k f q : ℕ) (d : Bool)
    → k < 8
    → f < 256
    → f / 2 ^ k ≡ 2 * q + bit_value d
    → not (bit_and f (2 ^ k) == 0) ≡ d
unfolding bit_check
tested_bit k f q d hk hf e =
    let row = holds_below→ 8 (λ k. holds_below 256 (bit_check k)) k bit_table hk in
    let cell = holds_below→ 256 (bit_check k) f row hf in ground (arith, cell)

double : (c k : ℕ) → c * 2 ^ suc k ≡ 2 * c * 2 ^ k
double c k = omega (arith, ap (λ (t : ℕ). c * t) (pow-suc 2 k))

pow_pos : (k : ℕ) → 0 < 2 ^ k
pow_pos k = one-le-pow k 2 (omega arith)

pow_lt : (k : ℕ) → 2 ^ k < 2 ^ suc k
pow_lt k = omega (arith, pow-suc 2 k, pow_pos k)

pow_half : (k : ℕ) → 2 ^ suc k / 2 ≡ 2 ^ k
pow_half k = omega (arith, pow-suc 2 k)

-- The bit that writeBool sets.
set_bit :
    (d : Bool) (k c : ℕ)
    → (if d then bit_or (c * 2 ^ suc k) (2 ^ k) else c * 2 ^ suc k) ≡ (2 * c + bit_value d) * 2 ^ k
set_bit true k c = bit_or_low (suc k) c (2 ^ k) (pow_lt k) ∙ omega (arith, double c k)
set_bit false k c = omega (arith, double c k)

-- A byte being filled: its high bits are c, and bit k comes next. What is written then starts with
-- a byte that keeps c, and gives back `defined` when it is read from bit k on.
abbrev Filling : List Bool → Type 0
Filling defined =
    (k c : ℕ)
    → k < 7
    → c < 256 / 2 ^ suc k
    → (f : ℕ) × (tail : Bytes) × (write_bits defined (c * 2 ^ suc k) (2 ^ k) ≡ f ∷ tail)
      × (f < 256)
      × (f / 2 ^ suc k ≡ c)
      × ((rest : Bytes) → read_bits (length defined) f (2 ^ k) (tail ++ rest) ≡ ok (defined, rest))

abbrev Aligned : List Bool → Type 0
Aligned defined =
    (b : ℕ) (rest : Bytes)
    → read_bits (length defined) b 0 (write_bits defined 0 0x80 ++ rest) ≡ ok (defined, rest)

-- One round of each loop inside a byte.
read_round :
    (n f m : ℕ) (rest : Bytes) (defined : List Bool) (left : Bytes)
    → 0 < m
    → read_bits n f (m / 2) rest ≡ ok (defined, left)
    → read_bits (suc n) f m rest ≡ ok (not (bit_and f m == 0) ∷ defined, left)
unfolding read_bits
read_round n f m rest defined left hm e =
    let open_byte : (m == 0) ≡ false = ground arith in rw (open_byte, e)

write_round :
    (d : Bool) (defined : List Bool) (b m : ℕ)
    → 0 < m / 2
    → write_bits (d ∷ defined) b m ≡ write_bits defined (if d then bit_or b m else b) (m / 2)
unfolding write_bits
write_round d defined b m hm = let more : (m / 2 == 0) ≡ false = ground arith in rw more

below : (k c : ℕ) → c < 256 / 2 ^ suc k → c * 2 ^ suc k < 256
below k c h = omega (
  arith,
  pow_pos (suc k),
  (le-div_iff_mul-le {k = 2 ^ suc k} {x = suc c} {y = 256} (pow_pos (suc k))).0 h,
)

-- With one more bit the high part still fits.
next_fits : (d : Bool) (k c : ℕ) → c < 256 / 2 ^ suc (suc k) → 2 * c + bit_value d < 256 / 2 ^ suc k
next_fits d k c h =
    let e : 256 / 2 ^ suc (suc k) ≡ 256 / 2 ^ suc k / 2 =
      rw (pow-suc 2 (suc k)) (sym (div-div-eq-div-mul 256 (2 ^ suc k) 2)) in
    ground (arith, e)

shifted : (d : Bool) (k c f : ℕ) → f / 2 ^ suc k ≡ 2 * c + bit_value d → f / 2 ^ suc (suc k) ≡ c
shifted d k c f q =
    rw (pow-suc 2 (suc k)) (sym (div-div-eq-div-mul f (2 ^ suc k) 2) ∙ rw q (ground arith))

filling_end : Filling []
unfolding write_bits read_bits
filling_end k c hk hc =
    (c * 2 ^ suc k, [], rw short, below k c hc, mul-div_cancel c (pow_pos (suc k)), λ rest. refl)
  where
    short : (2 ^ k == 0x80) ≡ false
    short =
        ground (
          arith,
          pow_lt k,
          pow-le-pow_right {n = 2} (omega arith) {i = suc k} {j = 7} (omega arith),
        )

filling_last :
    (d : Bool) (defined : List Bool)
    → Aligned defined
    → (c : ℕ) → c < 128
    → (f : ℕ) × (tail : Bytes) × (write_bits (d ∷ defined) (c * 2) 1 ≡ f ∷ tail)
      × (f < 256)
      × (f / 2 ≡ c)
      × ((rest : Bytes)
          → read_bits (suc (length defined)) f 1 (tail ++ rest) ≡ ok (d ∷ defined, rest))
unfolding write_bits read_bits
filling_last d defined align c hc = (
  2 * c + bit_value d,
  write_bits defined 0 0x80,
  ap (λ f. f ∷ write_bits defined 0 0x80) (set_bit d 0 c ∙ omega arith),
  small d,
  quotient d,
  λ rest. rw (
    align (2 * c + bit_value d) rest,
    tested_bit 0 (2 * c + bit_value d) c d (omega arith) (small d) (omega arith),
  ),
)
  where
    small : (d : Bool) → 2 * c + bit_value d < 256
    small d = ground arith

    quotient : (d : Bool) → (2 * c + bit_value d) / 2 ≡ c
    quotient d = ground arith

filling_next :
    (d : Bool) (defined : List Bool) → Filling defined → Aligned defined → Filling (d ∷ defined)
filling_next d defined fill align zero c hk hc = filling_last d defined align c hc
filling_next d defined fill align (suc k) c hk hc =
    let c' = 2 * c + bit_value d in
    let (f, tail, e, hf, q, reads) = fill k c' (omega arith) (next_fits d k c hc) in
    (
      f,
      tail,
      write_round d defined (c * 2 ^ suc (suc k)) (2 ^ suc k) (rw (pow_half k) (pow_pos k))
          ∙ rw (set_bit d (suc k) c, pow_half k) e,
      hf,
      shifted d k c f q,
      λ rest.
          read_round (length defined) f (2 ^ suc k) (tail ++ rest) defined rest (pow_pos (suc k))
            (rw (pow_half k) (reads rest))
          ∙ rw (tested_bit (suc k) f c d (omega arith) hf q),
    )

aligned_next : (d : Bool) (defined : List Bool) → Filling defined → Aligned (d ∷ defined)
unfolding write_bits read_bits read_byte
aligned_next d defined fill b rest =
    let (f, tail, e, hf, q, reads) = fill 6 (bit_value d) (omega arith) (first_fits d) in
    let start : (if d then 128 else 0) ≡ bit_value d * 2 ^ 7 = ground arith in
    rw (start, e, reads rest, tested_bit 7 f 0 d (omega arith) hf (q ∙ omega arith))
  where
    first_fits : (d : Bool) → bit_value d < 2
    first_fits d = ground arith

packed : (defined : List Bool) → Filling defined × Aligned defined
packed [] = (filling_end, λ b rest. unfold read_bits write_bits in refl)
packed (d ∷ defined) =
    let (fill, align) = packed defined in
    (filling_next d defined fill align, aligned_next d defined fill)

pub read_bits-write_bits : (defined : List Bool) → Aligned defined
read_bits-write_bits defined = (packed defined).1
