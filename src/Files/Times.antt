-- ===== src/Files/Times.antt =====
-- timeToFiletime (write_struct.go) and what readTimes (types.go) makes of its result.
use sevenzip.Prelude.{
  ℕ, ◌+◌, ◌-◌, ◌*◌, ◌/◌, ◌%◌, ◌^◌, ◌≤◌, ◌<◌, ◌≡◌, ap, ◌∙◌, false, [], ◌∷◌, ◌++◌, arith, leb, ◌==◌,
  Bool-cases, inl, inr, append_assoc,
}
use sevenzip.Stream.{Bytes, ok, le_bytes, read_le-le_bytes}
use sevenzip.Files.{Libraries, epoch, unix_seconds, unix_time, time_to_filetime, read_time}

-- Filetime.Nanoseconds: the nanoseconds since 1970 of a Filetime, which counts hundreds of them from
-- 1601 on.
abbrev pub ConvertsFiletimes : Libraries → Type 0
ConvertsFiletimes lib =
    (low high : ℕ)
    → low < 2 ^ 32
    → high < 2 ^ 32
    → lib.nanoseconds low high
      ≡ ((low + 2 ^ 32 * high) * 100 + (2 ^ 64 - 116444736000000000 * 100 % 2 ^ 64)) % 2 ^ 64

-- The first and the last instant that an int64 of nanoseconds from 1970 on reaches.
abbrev pub earliest : ℕ
earliest = epoch * 10 ^ 9 - 2 ^ 63

abbrev pub latest : ℕ
latest = epoch * 10 ^ 9 + (2 ^ 63 - 1)

time_to_filetime-value :
    (t : ℕ)
    → earliest ≤ t
    → t ≤ latest
    → time_to_filetime t + (epoch * 10 ^ 7 - 116444736000000000) ≡ t / 100
unfolding time_to_filetime unix_seconds
time_to_filetime-value t lo hi =
    let some_time : (t == 0) ≡ false = ground arith in rw (some_time) (omega arith)

four_bytes :
    (a b c d a' b' c' d' : ℕ) (s : Bytes)
    → a ≡ a'
    → b ≡ b'
    → c ≡ c'
    → d ≡ d'
    → a ∷ b ∷ c ∷ d ∷ s ≡ a' ∷ b' ∷ c' ∷ d' ∷ s
four_bytes a b c d a' b' c' d' s ea eb ec ed = cc

-- A word of eight bytes as its halves.
le_bytes_halves : (w : ℕ) → le_bytes 8 w ≡ le_bytes 4 (w % 2 ^ 32) ++ le_bytes 4 (w / 2 ^ 32)
unfolding le_bytes
le_bytes_halves w =
    four_bytes _ _ _ _ _ _ _ _ _ (omega arith) (omega arith) (omega arith) (omega arith)
    ∙ ap (λ s. le_bytes 4 (w % 2 ^ 32) ++ s)
        (four_bytes _ _ _ _ _ _ _ _ [] (omega arith) (omega arith) (omega arith) (omega arith))

-- The nanoseconds of a Filetime w between the two instants, taken as a time.
unix_time-value :
    (w q : ℕ)
    → w + (epoch * 10 ^ 7 - 116444736000000000) ≡ q
    → earliest ≤ q * 100
    → q * 100 ≤ latest
    → unix_time (
        ((w % 2 ^ 32 + 2 ^ 32 * (w / 2 ^ 32)) * 100 + (2 ^ 64 - 116444736000000000 * 100 % 2 ^ 64))
        % 2 ^ 64)
      ≡ q * 100
unfolding unix_time
unix_time-value w q e lo hi =
    let halves : w % 2 ^ 32 + 2 ^ 32 * (w / 2 ^ 32) ≡ w = omega arith in
    let ns = (w * 100 + (2 ^ 64 - 116444736000000000 * 100 % 2 ^ 64)) % 2 ^ 64 in
    rw (halves) (elim (Bool-cases (leb (2 ^ 63) ns)) [
      | inl h ↦ rw (h) (let le : 2 ^ 63 ≤ ns = ground arith in omega arith)
      | inr h ↦ rw (h) (let lt : ns < 2 ^ 63 = ground arith in omega arith)
    ])

-- Where Nanoseconds converts Filetimes: what timeToFiletime makes of a time is read back as that time
-- rounded down to hundreds of nanoseconds, if an int64 of nanoseconds from 1970 on reaches both.
pub read_time-time_to_filetime :
    (lib : Libraries) (t : ℕ) (rest : Bytes)
    → ConvertsFiletimes lib
    → earliest ≤ t / 100 * 100
    → t ≤ latest
    → read_time lib (le_bytes 8 (time_to_filetime t) ++ rest) ≡ ok (t / 100 * 100, rest)
unfolding read_time
read_time-time_to_filetime lib t rest converts lo hi =
    let w = time_to_filetime t in
    let value : w + (epoch * 10 ^ 7 - 116444736000000000) ≡ t / 100 =
      time_to_filetime-value t (omega arith) hi in
    let low : w % 2 ^ 32 < 2 ^ 32 = omega arith in
    let high : w / 2 ^ 32 < 2 ^ 32 = omega arith in
    simp
      (
        le_bytes_halves w,
        append_assoc,
        read_le-le_bytes 4 (w % 2 ^ 32) _ low,
        read_le-le_bytes 4 (w / 2 ^ 32) _ high,
        converts (w % 2 ^ 32) (w / 2 ^ 32) low high,
      )
      (ap (λ n. ok (n, rest)) (unix_time-value w (t / 100) value (omega arith) (omega arith)))
