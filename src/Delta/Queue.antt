-- ===== src/Delta/Queue.antt =====
-- The queue of the last bytes, and how the buffer of internal/delta/reader.go holds it.
use sevenzip.Prelude.{
  take-length, ℕ, zero, suc, ◌+◌, ◌%◌, ◌<◌, ◌≡◌, refl, ap, ◌∙◌, sym, [], ◌∷◌, ◌++◌, append_assoc,
  append-nil, arith, length, take, drop, modify,
}
use sevenzip.Stream.{Bytes}
use sevenzip.Delta.{byte_at}

-- Each byte is added to the one at the front of the queue, and goes to its back.
abbrev pub undelta : (queue : Bytes) → Bytes → Bytes × Bytes
undelta queue [] = ([], queue)
undelta [] (b ∷ p) = (b ∷ p, [])
undelta (q ∷ queue) (b ∷ p) =
    let b' = (q + b) % 256 in
    let (later, last) = undelta (queue ++ (b' ∷ [])) p in (b' ∷ later, last)

-- The queue of a buffer that is filled up to j.
abbrev pub queue_of : Bytes → ℕ → Bytes
queue_of buffer j = drop j buffer ++ take j buffer

drop_entry :
    (buffer : Bytes) (j : ℕ)
    → j < length buffer
    → drop j buffer ≡ byte_at buffer j ∷ drop (suc j) buffer
drop_entry [] j h = absurd (omega arith)
drop_entry (b ∷ buffer) zero h = refl
drop_entry (b ∷ buffer) (suc j) h = drop_entry buffer j (omega arith)

drop-modify :
    (f : ℕ → ℕ) (buffer : Bytes) (j : ℕ) → drop (suc j) (modify f buffer j) ≡ drop (suc j) buffer
drop-modify f [] j = refl
drop-modify f (b ∷ buffer) zero = refl
drop-modify f (b ∷ buffer) (suc j) = drop-modify f buffer j

take-modify :
    (v : ℕ) (buffer : Bytes) (j : ℕ)
    → j < length buffer
    → take (suc j) (modify (λ _. v) buffer j) ≡ take j buffer ++ (v ∷ [])
take-modify v [] j h = absurd (omega arith)
take-modify v (b ∷ []) zero h = refl
take-modify v (b ∷ c ∷ buffer) zero h = refl
take-modify v (b ∷ buffer) (suc j) h = ap (λ t. b ∷ t) (take-modify v buffer j (omega arith))

pub length-modify :
    (f : ℕ → ℕ) (buffer : Bytes) (j : ℕ) → length (modify f buffer j) ≡ length buffer
length-modify f [] j = refl
length-modify f (b ∷ buffer) zero = refl
length-modify f (b ∷ buffer) (suc j) = ap suc (length-modify f buffer j)

-- One byte, where there is room in the buffer.
pub queue_step :
    (buffer : Bytes) (j b : ℕ) (p : Bytes)
    → j < length buffer
    → let b' = (byte_at buffer j + b) % 256 in
      undelta (queue_of buffer j) (b ∷ p) ≡ (
        b' ∷ (undelta (queue_of (modify (λ _. b') buffer j) (suc j)) p).0,
        (undelta (queue_of (modify (λ _. b') buffer j) (suc j)) p).1,
      )
queue_step buffer j b p h =
    let b' : ℕ = (byte_at buffer j + b) % 256 in
    let queue : Bytes = drop (suc j) buffer ++ take j buffer in
    let front : queue_of buffer j ≡ byte_at buffer j ∷ queue =
      ap (λ t. t ++ take j buffer) (drop_entry buffer j h) in
    let back : queue ++ (b' ∷ []) ≡ queue_of (modify (λ _. b') buffer j) (suc j) =
      append_assoc (drop (suc j) buffer) (take j buffer) (b' ∷ [])
      ∙ (ap (λ t. drop (suc j) buffer ++ t) (sym (take-modify b' buffer j h))
          ∙ ap (λ t. t ++ take (suc j) (modify (λ _. b') buffer j))
              (sym (drop-modify (λ _. b') buffer j))) in
    ap (λ q. undelta q (b ∷ p)) front ∙ ap (λ q. (b' ∷ (undelta q p).0, (undelta q p).1)) back

drop_whole : (xs : Bytes) → drop (length xs) xs ≡ []
drop_whole [] = refl
drop_whole (x ∷ xs) = drop_whole xs

-- A buffer that is full begins again.
pub queue_of_full :
    (buffer : Bytes) (j : ℕ) → j ≡ length buffer → queue_of buffer j ≡ queue_of buffer 0
queue_of_full buffer j e =
    ap (queue_of buffer) e
    ∙ (ap (λ t. t ++ take (length buffer) buffer) (drop_whole buffer)
        ∙ (take-length buffer ∙ sym (append-nil buffer)))

pub undelta-append :
    (q xs ys : Bytes)
    → undelta q (xs ++ ys)
      ≡ ((undelta q xs).0 ++ (undelta (undelta q xs).1 ys).0, (undelta (undelta q xs).1 ys).1)
undelta-append q [] ys = refl
undelta-append [] (x ∷ xs) [] = ap (λ t. (x ∷ t, [])) refl
undelta-append [] (x ∷ xs) (y ∷ ys) = refl
undelta-append (q ∷ queue') (x ∷ xs) ys =
    let b' : ℕ = (q + x) % 256 in
    ap (λ (r : Bytes × Bytes). (b' ∷ r.0, r.1)) (undelta-append (queue' ++ (b' ∷ [])) xs ys)
