-- ===== src/Delta.antt =====
-- internal/delta/reader.go: the Delta filter, which adds to each byte the one that stands `delta` places
-- before it in the output. The decoder below delivers some bytes at each call.
pub mod Queue
pub mod Rounds
pub mod Reference
pub mod Stuck
use sevenzip.Prelude.{
  ℕ, zero, suc, ◌+◌, ◌-◌, ◌%◌, Bool, true, false, Option, none, some, List, [], ◌∷◌, ◌++◌, length,
  take, drop, replicate, modify, get_elem?, ltb, ◌==◌, if◌then◌else◌,
}
use sevenzip.Stream.{Bytes}

abbrev pub state_size : ℕ
state_size = 256

-- readCloser, without the reader below.
pub record DeltaReader : Type 0 where
  pub state : Bytes
  pub delta : ℕ

-- NewReader with the one byte of properties: `p[0] + 1` is a byte.
unfoldable pub new_delta_reader : (property : ℕ) → DeltaReader
new_delta_reader property = record { state = replicate state_size 0; delta = (property + 1) % 256 }

abbrev pub byte_at : Bytes → ℕ → ℕ
byte_at buffer j = elim (get_elem? buffer j) [ none ↦ 0 | some b ↦ b ]

-- The variables of the loops: the buffer, j, what p holds of the output, and what is left of p.
pub record Progress : Type 0 where
  pub buffer : Bytes
  pub j : ℕ
  pub done : Bytes
  pub left : Bytes

-- The inner loop, over the bytes of p that are left.
unfoldable pub inner_loop : (delta : ℕ) (buffer : Bytes) (j : ℕ) (done : Bytes) → Bytes → Progress
inner_loop delta buffer j done [] = record { buffer = buffer; j = j; done = done; left = [] }
inner_loop delta buffer j done (b ∷ p) =
    let b' = (byte_at buffer j + b) % 256 in
    let further = inner_loop delta (modify (λ _. b') buffer j) (suc j) (done ++ (b' ∷ [])) p in
    if ltb j delta then further else record { buffer = buffer; j = j; done = done; left = b ∷ p }

-- The outer loop, with so many rounds allowed.
unfoldable pub outer_loop : (rounds delta : ℕ) → Progress → Progress
outer_loop zero delta s = s
outer_loop (suc rounds) delta s = elim s.left [
  | [] ↦ s
  | b ∷ p ↦ outer_loop rounds delta (inner_loop delta s.buffer 0 s.done (b ∷ p))
]

-- The state for the next call: the last `delta` bytes, the oldest first.
unfoldable pub next_state : DeltaReader → (buffer : Bytes) (j : ℕ) → DeltaReader
next_state rc buffer j =
    let j' = if j == rc.delta then 0 else j in
    record rc { state = drop j' buffer ++ (take j' buffer ++ drop rc.delta rc.state) }

-- Read, of the bytes p that the reader below has delivered: the loop takes a byte at least in each
-- round, unless delta is 0. The buffer is the part of it that is used.
unfoldable pub delta_read : DeltaReader → Bytes → Bytes × DeltaReader
delta_read rc p =
    let s =
      outer_loop (length p) rc.delta
        (record { buffer = take rc.delta rc.state; j = 0; done = []; left = p }) in
    (s.done, next_state rc s.buffer s.j)
