-- ===== src/Reader/Signature.antt =====
-- reader.go (findSignature): the places where an archive may begin. ReadAt delivers what the file holds,
-- with io.EOF where that is less than was asked for.
use sevenzip.Prelude.{
  ℕ, zero, suc, ◌+◌, ◌^◌, ◌≡◌, refl, Bool, true, false, ◌&&◌, Option, none, some, List, [], ◌∷◌,
  ◌++◌, length, take, drop, ltb, ◌==◌, if◌then◌else◌,
}
use sevenzip.Stream.{Bytes}
use sevenzip.Start.{signature}

abbrev pub chunk_size : ℕ
chunk_size = 4096

abbrev pub search_limit : ℕ
search_limit = 2 ^ 20

abbrev pub starts_with : Bytes → Bytes → Bool
starts_with [] s = true
starts_with (a ∷ target) [] = false
starts_with (a ∷ target) (b ∷ s) = a == b && starts_with target s

abbrev one_further : Option ℕ → Option ℕ
one_further none = none
one_further (some i) = some (suc i)

-- bytes.Index
unfoldable pub index : (target s : Bytes) → Option ℕ
index target [] = if starts_with target [] then some 0 else none
index target (b ∷ s) =
    let further = one_further (index target s) in
    if starts_with target (b ∷ s) then some 0 else further

abbrev pub begins_at_zero : List ℕ → Bool
begins_at_zero [] = false
begins_at_zero (o ∷ offsets) = o == 0

-- The inner loop, from place i of the chunk at `offset` on, and whether the function returns at once.
-- Each round goes past a byte.
unfoldable pub scan_chunk :
    (target : Bytes) (rounds i offset : ℕ) (rest : Bytes) (offsets : List ℕ) → List ℕ × Bool
scan_chunk target zero i offset rest offsets = (offsets, false)
scan_chunk target (suc rounds) i offset rest offsets = elim (index target rest) [
  | none ↦ (offsets, false)
  | some idx ↦
      let offsets' = offsets ++ ((offset + (i + idx)) ∷ []) in
      let more = scan_chunk target rounds (i + (idx + 1)) offset (drop (idx + 1) rest) offsets' in
      if begins_at_zero offsets' then (offsets', true) else more
]

-- The outer loop, with `rounds` chunks left.
unfoldable pub scan_chunks :
    (target : Bytes) (rounds offset : ℕ) (file : Bytes) (offsets : List ℕ) → List ℕ
scan_chunks target zero offset file offsets = offsets
scan_chunks target (suc rounds) offset file offsets =
    let size = chunk_size + length target in
    let chunk = take size (drop offset file) in
    let (found, done) = scan_chunk target (suc (length chunk)) 0 offset chunk offsets in
    let more = scan_chunks target rounds (offset + chunk_size) file found in
    if done then found else if ltb (length chunk) size then found else more

-- searchLimit / chunkSize chunks.
unfoldable pub find_signature : Bytes → List ℕ
find_signature file = scan_chunks signature 256 0 file []

index_first : (target s : Bytes) → starts_with target s ≡ true → index target s ≡ some 0
unfolding index
index_first target [] h = rw h refl
index_first target (b ∷ s) h = rw h refl

scan_chunk_first :
    (target chunk : Bytes) (rounds : ℕ)
    → starts_with target chunk ≡ true
    → scan_chunk target (suc rounds) 0 0 chunk [] ≡ (0 ∷ [], true)
unfolding scan_chunk
scan_chunk_first target chunk rounds h = rw (scan_chunk, index_first target chunk h) refl

-- In a regular archive the signature is found at the beginning only.
pub find_signature-signature : (rest : Bytes) → find_signature (signature ++ rest) ≡ 0 ∷ []
unfolding find_signature scan_chunks
find_signature-signature rest =
    let chunk = take 4102 (signature ++ rest) in
    rw (scan_chunk_first signature chunk (length chunk) refl) refl
