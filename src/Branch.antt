-- ===== src/Branch.antt =====
-- internal/bra: the branch filters, which make the addresses in branch instructions absolute or
-- relative again. Here are the words of four bytes, and the loop that the four filters share whose
-- instructions are words. An io.Reader's bytes are numbers below 256, and `ip` is a uint32.
pub mod Arm
pub mod Arm64
pub mod Bcj
pub mod Ppc
pub mod Sparc
pub mod Laws
pub mod Filters
pub mod Reader
use sevenzip.Prelude.{
  ℕ, suc, ◌+◌, ◌-◌, ◌*◌, ◌/◌, ◌%◌, ◌^◌, ◌<◌, Bool, true, false, List, [], ◌∷◌, length, ltb,
  if◌then◌else◌,
}
use sevenzip.Stream.{Bytes, IsByte}

abbrev pub word : ℕ
word = 2 ^ 32

-- `v += x` and `v -= x` on uint32.
abbrev pub add32 : ℕ → ℕ → ℕ
add32 v x = (v + x) % word

abbrev pub sub32 : ℕ → ℕ → ℕ
sub32 v x = (v + word - x) % word

-- `if encoding { v += x } else { v -= x }`
abbrev pub shift_by : Bool → ℕ → ℕ → ℕ
shift_by encoding v x = if encoding then add32 v x else sub32 v x

-- Four bytes of a buffer.
pub record Four : Type 0 where
  pub b0 : ℕ
  pub b1 : ℕ
  pub b2 : ℕ
  pub b3 : ℕ

abbrev pub IsFour : Four → Type 0
IsFour w = IsByte w.b0 × IsByte w.b1 × IsByte w.b2 × IsByte w.b3

-- encoding/binary: Uint32 and PutUint32 in both orders.
unfoldable pub get_be : Four → ℕ
get_be w = w.b0 * 2 ^ 24 + w.b1 * 2 ^ 16 + w.b2 * 2 ^ 8 + w.b3

unfoldable pub put_be : ℕ → Four
put_be v = record {
  b0 = v / 2 ^ 24 % 256;
  b1 = v / 2 ^ 16 % 256;
  b2 = v / 2 ^ 8 % 256;
  b3 = v % 256;
}

unfoldable pub get_le : Four → ℕ
get_le w = w.b3 * 2 ^ 24 + w.b2 * 2 ^ 16 + w.b1 * 2 ^ 8 + w.b0

unfoldable pub put_le : ℕ → Four
put_le v = record {
  b0 = v % 256;
  b1 = v / 2 ^ 8 % 256;
  b2 = v / 2 ^ 16 % 256;
  b3 = v / 2 ^ 24 % 256;
}

-- What Convert leaves: the buffer, how many bytes of it are final, and the next ip.
pub record Converted : Type 0 where
  pub bytes : Bytes
  pub count : ℕ
  pub ip : ℕ

-- The body of a filter's loop: what it makes of the four bytes at `ip`.
abbrev pub Rewrite : Type 0
Rewrite = Bool → ℕ → Four → Four

-- The loop over the whole words of the buffer.
unfoldable pub word_loop : Rewrite → Bool → ℕ → Bytes → Converted
word_loop rewrite encoding ip (a ∷ b ∷ c ∷ d ∷ rest) =
    let w = rewrite encoding ip (record { b0 = a; b1 = b; b2 = c; b3 = d }) in
    let r = word_loop rewrite encoding ((ip + 4) % word) rest in
    record { bytes = w.b0 ∷ w.b1 ∷ w.b2 ∷ w.b3 ∷ r.bytes; count = 4 + r.count; ip = r.ip }
word_loop rewrite encoding ip b = record { bytes = b; count = 0; ip = ip }

-- Convert of arm64, ppc and sparc.
unfoldable pub word_convert : Rewrite → Bool → ℕ → Bytes → Converted
word_convert rewrite encoding ip b =
    if ltb (length b) 4
    then record { bytes = b; count = 0; ip = ip }
    else word_loop rewrite encoding ip b
