-- ===== src/Pool/Closest.antt =====
-- The search of Get over the sorted keys (internal/pool/pool.go) against a choice that does not sort.
use sevenzip.Prelude.{
  ℕ, ◌≤◌, ◌<◌, ◌≡◌, refl, ap, ◌∙◌, Option, none, some, List, [], ◌∷◌, ◌++◌, map, arith, ltb,
  if◌then◌else◌, Bool-cases, inl, inr, All, tests, ◌&&◌,
}
use mathlib.Core.List.{map-append}
use sevenzip.Pool.{Entry, from_back, insert_key, sort_keys, first_below}

-- The greater of a key below the offset and what was chosen before.
abbrev pub better : (offset k : ℕ) → Option ℕ → Option ℕ
better offset k none = if ltb k offset then some k else none
better offset k (some m) = if ltb k offset && ltb m k then some k else some m

-- The greatest key below the offset.
abbrev pub closest : List ℕ → ℕ → Option ℕ
closest [] offset = none
closest (k ∷ ks) offset = better offset k (closest ks offset)

first_below-insert_key :
    (offset k : ℕ) (ks : List ℕ)
    → first_below (insert_key k ks) offset ≡ better offset k (first_below ks offset)
unfolding first_below insert_key
first_below-insert_key offset k [] = refl
first_below-insert_key offset k (j ∷ ks) =
    let rest = first_below-insert_key offset k ks in ground arith

pub first_below-sort_keys :
    (offset : ℕ) (ks : List ℕ) → first_below (sort_keys ks) offset ≡ closest ks offset
unfolding sort_keys first_below
first_below-sort_keys offset [] = refl
first_below-sort_keys offset (k ∷ ks) =
    first_below-insert_key offset k (sort_keys ks)
    ∙ ap (better offset k) (first_below-sort_keys offset ks)

better_comm :
    (offset j k : ℕ) (o : Option ℕ)
    → better offset j (better offset k o) ≡ better offset k (better offset j o)
better_comm offset j k none = ground arith
better_comm offset j k (some m) = ground arith

closest-append :
    (offset k : ℕ) (ks : List ℕ)
    → closest (ks ++ (k ∷ [])) offset ≡ better offset k (closest ks offset)
closest-append offset k [] = refl
closest-append offset k (j ∷ ks) =
    ap (better offset j) (closest-append offset k ks) ∙ better_comm offset j k (closest ks offset)

-- Taking the keys from the back chooses the same.
pub closest-from_back {ℓ} :
    {V : Type ℓ} (offset : ℕ) (es : List (Entry V))
    → closest (map (λ e. e.key) (from_back es)) offset ≡ closest (map (λ e. e.key) es) offset
unfolding from_back
closest-from_back offset [] = refl
closest-from_back offset (e ∷ es) = rw (map-append (λ e. e.key) (from_back es) (e ∷ [])) (
    closest-append offset e.key (map (λ e. e.key) (from_back es))
    ∙ ap (better offset e.key) (closest-from_back offset es))

All-weaken : {P Q : ℕ → Type 0} (ks : List ℕ) → ((k : ℕ) → P k → Q k) → All P ks → All Q ks
All-weaken [] f h = tt
All-weaken (k ∷ ks) f (h, hs) = (f k h, All-weaken ks f hs)

-- No key is below the offset, or the chosen one is, and no other that is below is greater.
abbrev pub IsClosest : List ℕ → ℕ → Option ℕ → Type 0
IsClosest ks offset none = All (λ k. offset ≤ k) ks
IsClosest ks offset (some m) = (m < offset) × All (λ k. k < offset → k ≤ m) ks

better-IsClosest :
    (offset k : ℕ) (ks : List ℕ) (o : Option ℕ)
    → IsClosest ks offset o
    → IsClosest (k ∷ ks) offset (better offset k o)
better-IsClosest offset k ks none h = elim (Bool-cases (ltb k offset)) [
  | inl e ↦
      rw (e) (omega tests, (λ lt. omega arith, All-weaken ks (λ j le lt. absurd (omega arith)) h))
  | inr e ↦ rw (e) (ground arith, h)
]
better-IsClosest offset k ks (some m) (below, h) = elim (Bool-cases (ltb k offset && ltb m k)) [
  | inl e ↦
      let (lt, gt) : (k < offset) × (m < k) = ground arith in
      rw (e) (lt, (λ z. omega arith, All-weaken ks (λ j le z. omega (arith, le z)) h))
  | inr e ↦ rw (e) (below, (λ z. ground arith, h))
]

pub closest-IsClosest : (ks : List ℕ) (offset : ℕ) → IsClosest ks offset (closest ks offset)
closest-IsClosest [] offset = tt
closest-IsClosest (k ∷ ks) offset =
    better-IsClosest offset k ks (closest ks offset) (closest-IsClosest ks offset)

-- Get's search: where no key is below the offset it finds none, and otherwise a key below it that no
-- other key below it exceeds.
pub first_below-IsClosest :
    (ks : List ℕ) (offset : ℕ) → IsClosest ks offset (first_below (sort_keys ks) offset)
first_below-IsClosest ks offset = rw (first_below-sort_keys offset ks) (closest-IsClosest ks offset)
