-- ===== src/Branch/Laws.antt =====
-- encoding/binary on the four bytes of a word, and the loop of internal/bra over a buffer.
use sevenzip.Branch.{Four, IsFour, get_be, put_be, get_le, put_le}
use sevenzip.Prelude.{ℕ, ◌^◌, ◌<◌, ◌≡◌, arith}

pub get_be-put_be : (v : ℕ) → v < 2 ^ 32 → get_be (put_be v) ≡ v
unfolding get_be put_be
get_be-put_be v h = omega arith

pub put_be-get_be : (w : Four) → IsFour w → put_be (get_be w) ≡ w
unfolding get_be put_be
put_be-get_be w h = ground arith

pub put_be-IsFour : (v : ℕ) → IsFour (put_be v)
unfolding put_be
put_be-IsFour v = omega arith

pub get_be-lt : (w : Four) → IsFour w → get_be w < 2 ^ 32
unfolding get_be
get_be-lt w h = omega arith

pub get_le-put_le : (v : ℕ) → v < 2 ^ 32 → get_le (put_le v) ≡ v
unfolding get_le put_le
get_le-put_le v h = omega arith

pub put_le-get_le : (w : Four) → IsFour w → put_le (get_le w) ≡ w
unfolding get_le put_le
put_le-get_le w h = ground arith

pub put_le-IsFour : (v : ℕ) → IsFour (put_le v)
unfolding put_le
put_le-IsFour v = omega arith

pub get_le-lt : (w : Four) → IsFour w → get_le w < 2 ^ 32
unfolding get_le
get_le-lt w h = omega arith
