-- ===== src/Bits/Fields.antt =====
-- `&`, `|` and `^` field by field, for masks that are written as numerals.
use Prim.Native.Nat.{min, max, differ, digits, bit_xor, bit_and-bitwise, bit_xor-bitwise}
use native.Mathlib.Nat.{one-le-pow, pow-suc}
use sevenzip.Bits.{lt-pow, bit_or_digit, double_pow, zero-bit_or, bit_or-zero}
use mathlib.Core.Path.{◌≡⟨◌⟩◌, ◌∎}
use sevenzip.Prelude.{
  ℕ, zero, suc, ◌+◌, ◌-◌, ◌*◌, ◌/◌, ◌%◌, ◌^◌, ◌≤◌, ◌<◌, bit_and, bit_or, ◌≡◌, refl, arith,
}

module _ (last : ℕ → ℕ) (f : ℕ → ℕ → ℕ) where
  -- Any count that covers the first number gives the same.
  settles : (bound m a b : ℕ) → m ≤ bound → a ≤ m → digits last f m a b ≡ digits last f a a b
  settles bound zero zero b within covers = refl
  settles bound (suc m) zero b within covers = refl
  settles bound zero (suc a) b within covers = elim covers [ ]
  settles zero (suc m) (suc a) b within covers = elim within [ ]
  settles (suc bound) (suc m) (suc a) b within covers =
      let half = suc a / 2 in
      omega (
        arith,
        settles bound m half (b / 2) (omega arith) (omega arith),
        settles bound a half (b / 2) (omega arith) (omega arith),
      )

  first_digit :
      (a b : ℕ)
      → digits last f (suc a) (suc a) b
        ≡ digits last f (suc a / 2) (suc a / 2) (b / 2) * 2 + f (suc a % 2) (b % 2)
  first_digit a b = omega (arith, settles a a (suc a / 2) (b / 2) (omega arith) (omega arith))

bit_and_digit : (a b : ℕ) → bit_and a b ≡ bit_and (a / 2) (b / 2) * 2 + min (a % 2) (b % 2)
bit_and_digit zero b = omega (arith, bit_and-bitwise 0 b, bit_and-bitwise 0 (b / 2))
bit_and_digit (suc a) b = omega (
  arith,
  bit_and-bitwise (suc a) b,
  bit_and-bitwise (suc a / 2) (b / 2),
  first_digit (λ c. 0) min a b,
)

bit_xor_digit : (a b : ℕ) → bit_xor a b ≡ bit_xor (a / 2) (b / 2) * 2 + differ (a % 2) (b % 2)
bit_xor_digit zero b = simp bit_xor-bitwise (omega arith)
bit_xor_digit (suc a) b = simp bit_xor-bitwise (first_digit (λ c. c) differ a b)

module _ (op f : ℕ → ℕ → ℕ)
    (digit : (a b : ℕ) → op a b ≡ op (a / 2) (b / 2) * 2 + f (a % 2) (b % 2))
    (nothing : op 0 0 ≡ 0) where
  op_halves : (a b x y : ℕ) → a / 2 ≡ x → b / 2 ≡ y → op a b ≡ op x y * 2 + f (a % 2) (b % 2)
  op_halves a b x y p q = rw (← p, ← q) (digit a b)

  op_fields :
      (k p q x y : ℕ)
      → x < 2 ^ k
      → y < 2 ^ k
      → op (p * 2 ^ k + x) (q * 2 ^ k + y) ≡ op p q * 2 ^ k + op x y
  op_fields zero p q x y hx hy =
      let ex : x ≡ 0 = omega arith in
      let ey : y ≡ 0 = omega arith in
      let ep : p * 2 ^ 0 + 0 ≡ p = omega arith in
      let eq : q * 2 ^ 0 + 0 ≡ q = omega arith in rw (ex, ey, ep, eq, nothing) (omega arith)
  op_fields (suc k) p q x y hx hy =
      let px : (p * 2 ^ suc k + x) / 2 ≡ p * 2 ^ k + x / 2 = omega (arith, double_pow p k) in
      let qy : (q * 2 ^ suc k + y) / 2 ≡ q * 2 ^ k + y / 2 = omega (arith, double_pow q k) in
      let mx : (p * 2 ^ suc k + x) % 2 ≡ x % 2 = omega (arith, double_pow p k) in
      let my : (q * 2 ^ suc k + y) % 2 ≡ y % 2 = omega (arith, double_pow q k) in
      let inner =
        op_fields k p q (x / 2) (y / 2) (omega (arith, double_pow 1 k))
          (omega (arith, double_pow 1 k)) in
      let whole = op_halves (p * 2 ^ suc k + x) (q * 2 ^ suc k + y) _ _ px qy in
      let low : f ((p * 2 ^ suc k + x) % 2) ((q * 2 ^ suc k + y) % 2) ≡ f (x % 2) (y % 2) =
        rw (mx, my) in
      omega (arith, whole, low, inner, digit x y, double_pow (op p q) k)

pub bit_and_fields :
    (k p q x y : ℕ)
    → x < 2 ^ k
    → y < 2 ^ k
    → bit_and (p * 2 ^ k + x) (q * 2 ^ k + y) ≡ bit_and p q * 2 ^ k + bit_and x y
bit_and_fields = op_fields bit_and min bit_and_digit refl

pub bit_xor_fields :
    (k p q x y : ℕ)
    → x < 2 ^ k
    → y < 2 ^ k
    → bit_xor (p * 2 ^ k + x) (q * 2 ^ k + y) ≡ bit_xor p q * 2 ^ k + bit_xor x y
bit_xor_fields = op_fields bit_xor differ bit_xor_digit refl

pub bit_or_fields :
    (k p q x y : ℕ)
    → x < 2 ^ k
    → y < 2 ^ k
    → bit_or (p * 2 ^ k + x) (q * 2 ^ k + y) ≡ bit_or p q * 2 ^ k + bit_or x y
bit_or_fields = op_fields bit_or max bit_or_digit refl

pub zero-bit_and : (a : ℕ) → bit_and 0 a ≡ 0
zero-bit_and a = bit_and-bitwise 0 a

-- What an operation makes of a number and 0, from what it makes of a digit and 0.
zero_within :
    (op f : ℕ → ℕ → ℕ) (kept : ℕ → ℕ)
    → ((a b : ℕ) → op a b ≡ op (a / 2) (b / 2) * 2 + f (a % 2) (b % 2))
    → ((a : ℕ) → kept a ≡ kept (a / 2) * 2 + f (a % 2) 0)
    → op 0 0 ≡ kept 0
    → (n a : ℕ) → a < 2 ^ n
    → op a 0 ≡ kept a
zero_within op f kept digit digit_kept start zero a small =
    let e : a ≡ 0 = omega arith in rw e start
zero_within op f kept digit digit_kept start (suc n) a small =
    let half =
      zero_within op f kept digit digit_kept start n (a / 2) (omega (arith, pow-suc 2 n)) in
    omega (arith, half, digit a 0, digit_kept a)

pub bit_and-zero : (a : ℕ) → bit_and a 0 ≡ 0
bit_and-zero a =
    zero_within bit_and min (λ c. 0) bit_and_digit (λ c. omega arith) refl a a (lt-pow a)

bit_and_low_fields : (k q r : ℕ) → r < 2 ^ k → bit_and (q * 2 ^ k + r) (2 ^ k - 1) ≡ r
bit_and_low_fields zero q r fits = rw bit_and-zero (omega arith)
bit_and_low_fields (suc k) q r fits = ground (
  arith,
  bit_and_digit (q * 2 ^ suc k + r) (2 ^ suc k - 1),
  double_pow q k,
  pow-suc 2 k,
  bit_and_low_fields k q (r / 2) (omega (arith, pow-suc 2 k)),
)

-- A mask of `k` low bits.
pub bit_and_low : (k a : ℕ) → bit_and a (2 ^ k - 1) ≡ a % 2 ^ k
bit_and_low k a = ground (arith, one-le-pow k 2, bit_and_low_fields k (a / 2 ^ k) (a % 2 ^ k))

-- A mask of `m` bits above `k` clear ones.
pub bit_and_high : (m k a : ℕ) → bit_and a ((2 ^ m - 1) * 2 ^ k) ≡ a / 2 ^ k % 2 ^ m * 2 ^ k
bit_and_high m k a =
    let parts : a ≡ a / 2 ^ k * 2 ^ k + a % 2 ^ k = ground (arith, one-le-pow k 2) in
    let positive : 0 < 2 ^ k = one-le-pow k 2 (omega arith) in
    let small : a % 2 ^ k < 2 ^ k = ground (arith, one-le-pow k 2) in
    ground (
      arith,
      bit_and_fields k (a / 2 ^ k) (2 ^ m - 1) (a % 2 ^ k) 0 small positive,
      bit_and_low m (a / 2 ^ k),
      bit_and-zero (a % 2 ^ k),
      parts,
    )

-- A number of `k` bits, joined to one whose low `k` bits are clear.
pub bit_or_above : (k a b : ℕ) → a < 2 ^ k → bit_or a (b * 2 ^ k) ≡ b * 2 ^ k + a
bit_or_above k a b small =
    let left : 0 * 2 ^ k + a ≡ a = omega arith in
    let right : b * 2 ^ k + 0 ≡ b * 2 ^ k = omega arith in
    bit_or a (b * 2 ^ k)
    ≡⟨ (rw (left, right)) ⟩ bit_or (0 * 2 ^ k + a) (b * 2 ^ k + 0)
    ≡⟨ bit_or_fields k 0 b a 0 small (one-le-pow k 2 (omega arith)) ⟩
      bit_or 0 b * 2 ^ k + bit_or a 0
    ≡⟨ (rw (zero-bit_or, bit_or-zero)) ⟩ b * 2 ^ k + a ∎

differ-zero : (x : ℕ) → differ x 0 ≡ x
differ-zero zero = refl
differ-zero (suc x) = refl

pub bit_xor-zero : (a : ℕ) → bit_xor a 0 ≡ a
bit_xor-zero a =
    zero_within bit_xor differ (λ c. c) bit_xor_digit (λ c. omega (arith, differ-zero (c % 2))) refl
      a a (lt-pow a)

min_comm : (x y : ℕ) → min x y ≡ min y x
min_comm x y = omega arith

comm_within : (n a b : ℕ) → a < 2 ^ n → bit_and a b ≡ bit_and b a
comm_within zero a b small = let e : a ≡ 0 = omega arith in rw (e, zero-bit_and, bit_and-zero) refl
comm_within (suc n) a b small = omega (
  arith,
  bit_and_digit a b,
  bit_and_digit b a,
  min_comm (a % 2) (b % 2),
  comm_within n (a / 2) (b / 2) (omega (arith, pow-suc 2 n)),
)

pub bit_and_comm : (a b : ℕ) → bit_and a b ≡ bit_and b a
bit_and_comm a b = comm_within a a b (lt-pow a)
