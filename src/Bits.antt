-- ===== src/Bits.antt =====
-- Facts about `|` and `&` at variables: fields that do not overlap add up.
pub mod Fields
use Prim.Native.Nat.{max, digits, bit_or-bitwise}
use native.Mathlib.Nat.{pow-suc}
use sevenzip.Prelude.{
  if◌then◌else◌, Bool-cases, inl, inr, false, dec_lt, ℕ, zero, suc, ◌+◌, ◌*◌, ◌/◌, ◌%◌, ◌^◌, ◌≤◌,
  ◌<◌, bit_or, ◌≡◌, refl, sym, ap, Bool, true, arith,
}

-- A test of every number below n, run by evaluation.
unfoldable pub holds_below : (n : ℕ) → (ℕ → Bool) → Bool
holds_below zero test = true
holds_below (suc n) test = if test n then holds_below n test else false

pub holds_below→ :
    (n : ℕ) (test : ℕ → Bool) (x : ℕ) → holds_below n test ≡ true → x < n → test x ≡ true
unfolding holds_below
holds_below→ zero test x passed small = elim small [ ]
holds_below→ (suc n) test x passed small = elim (Bool-cases (test n)) [
  | inr bad ↦ cc (rw bad at passed)
  | inl good ↦ elim (dec_lt x n) [
    | yes below ↦ holds_below→ n test x (rw good at passed) below
    | no top ↦ let e : x ≡ n = omega arith in rw e good
  ]
]

pub zero-bit_or : (b : ℕ) → bit_or 0 b ≡ b
zero-bit_or b = bit_or-bitwise 0 b

-- The recursion that stands behind `|` gives the same at every count that covers its first number.
or_settles : (n m a b : ℕ) → m ≤ n → a ≤ m → digits (λ c. c) max m a b ≡ bit_or a b
or_settles n zero zero b within covers = sym (zero-bit_or b)
or_settles n (suc m) zero b within covers = sym (zero-bit_or b)
or_settles n zero (suc a) b within covers = elim covers [ ]
or_settles zero (suc m) (suc a) b within covers = elim within [ ]
or_settles (suc n) (suc m) (suc a) b within covers =
    let half = suc a / 2 in
    omega (
      arith,
      bit_or-bitwise (suc a) b,
      or_settles n a half (b / 2) (omega arith) (omega arith),
      or_settles n m half (b / 2) (omega arith) (omega arith),
    )

-- One digit of `|`, and the rest of it.
pub bit_or_digit : (a b : ℕ) → bit_or a b ≡ bit_or (a / 2) (b / 2) * 2 + max (a % 2) (b % 2)
bit_or_digit zero b = omega (arith, zero-bit_or b, zero-bit_or (b / 2))
bit_or_digit (suc a) b =
    let settled = or_settles a a (suc a / 2) (b / 2) (omega arith) (omega arith) in
    omega (arith, settled, bit_or-bitwise (suc a) b)

bit_or-zero_within : (n a : ℕ) → a < 2 ^ n → bit_or a 0 ≡ a
bit_or-zero_within zero a h = let e : a ≡ 0 = omega arith in rw e (zero-bit_or 0)
bit_or-zero_within (suc n) a h =
    let rest = bit_or-zero_within n (a / 2) (omega (arith, pow-suc 2 n)) in
    omega (arith, rest, bit_or_digit a 0)

pub lt-pow : (n : ℕ) → n < 2 ^ n
lt-pow zero = omega arith
lt-pow (suc n) = omega (arith, lt-pow n, pow-suc 2 n)

pub bit_or-zero : (a : ℕ) → bit_or a 0 ≡ a
bit_or-zero a = bit_or-zero_within a a (lt-pow a)

pub double_pow : (h k : ℕ) → h * 2 ^ suc k ≡ h * 2 ^ k * 2
double_pow h k = omega (arith, ap (λ (t : ℕ). h * t) (pow-suc 2 k))

bit_or_halves :
    (a b x y : ℕ) → a / 2 ≡ x → b / 2 ≡ y → bit_or a b ≡ bit_or x y * 2 + max (a % 2) (b % 2)
bit_or_halves a b x y p q = rw (← p, ← q) (bit_or_digit a b)

-- A number that fills `k` low bits, joined to one whose low `k` bits are clear.
pub bit_or_low : (k h b : ℕ) → b < 2 ^ k → bit_or (h * 2 ^ k) b ≡ h * 2 ^ k + b
bit_or_low zero h b lt =
    let e : b ≡ 0 = omega arith in
    let m : h * 2 ^ 0 ≡ h = omega arith in rw (e, m, bit_or-zero) (omega arith)
bit_or_low (suc k) h b lt = omega (
  arith,
  double_pow h k,
  double_pow 1 k,
  bit_or_halves (h * 2 ^ suc k) b (h * 2 ^ k) (b / 2) (omega (arith, double_pow h k)) refl,
  bit_or_low k h (b / 2) (omega (arith, double_pow 1 k)),
)

-- A byte put at bit `n`, where the low `n` bits are taken and the eight above them are clear.
pub bit_or_byte :
    (n h lo b : ℕ)
    → lo < 2 ^ n
    → b < 256
    → bit_or (h * 256 * 2 ^ n + lo) (b * 2 ^ n) ≡ h * 256 * 2 ^ n + b * 2 ^ n + lo
bit_or_byte zero h lo b lt hb =
    let e : h * 256 * 2 ^ 0 + lo ≡ h * 2 ^ 8 = omega arith in
    let m : b * 2 ^ 0 ≡ b = omega arith in rw (e, m, bit_or_low 8 h b hb) (omega arith)
bit_or_byte (suc n) h lo b lt hb = omega (
  arith,
  double_pow 1 n,
  double_pow (h * 256) n,
  double_pow b n,
  bit_or_halves (h * 256 * 2 ^ suc n + lo) (b * 2 ^ suc n) (h * 256 * 2 ^ n + lo / 2) (b * 2 ^ n)
      (omega (arith, double_pow (h * 256) n)) (omega (arith, double_pow b n)),
  bit_or_byte n h (lo / 2) b (omega (arith, double_pow 1 n)) hb,
)
