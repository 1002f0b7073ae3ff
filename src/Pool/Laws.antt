-- ===== src/Pool/Laws.antt =====
-- The pool of internal/pool/pool.go against a list of entries with distinct keys.
pub mod Get
pub mod Put
use sevenzip.Prelude.{
  ℕ, zero, suc, ◌+◌, ◌≤◌, ◌<◌, ◌≡◌, ◌≢◌, refl, ap, ◌∙◌, sym, Bool, true, false, Option, none, some,
  List, [], ◌∷◌, ◌++◌, map, arith, ltb, ◌==◌, ==_iff, if◌then◌else◌, Bool-cases, Option-cases, inl,
  inr, All, length, length-map, tests,
}
use sevenzip.Stream.{Result, ok, err, bind, panic}
use sevenzip.Pool.{
  new_pool, Entry, Pool, without, delete, lookup, back, from_back, remove_element, remove_oldest,
  keys, take_key, get, sort_keys, first_below, push_front, put, close_loop, close,
}
use sevenzip.Pool.Closest.{
  closest, closest-from_back, first_below-sort_keys, closest-IsClosest, IsClosest,
}

module _ {ℓ} {V : Type ℓ} where
  -- The entry of a key.
  abbrev pub find : ℕ → List (Entry V) → Option (Entry V)
  find k [] = none
  find k (e ∷ es) = let rest = find k es in if e.key == k then some e else rest

  abbrev pub keyed : List (Entry V) → List (ℕ × Entry V)
  keyed [] = []
  keyed (e ∷ es) = (e.key, e) ∷ keyed es

  abbrev pub Distinct : List (Entry V) → Type ℓ
  Distinct [] = Unit
  Distinct (e ∷ es) = (find e.key es ≡ none) × Distinct es

  -- The map holds the elements of the list, no key twice, and no more than the pool's size.
  pub record IsPool (p : Pool V) : Type ℓ where
    pub in_step : p.items ≡ keyed p.evict_list
    pub distinct : Distinct p.evict_list
    pub bounded : length p.evict_list ≤ p.size

  pub delete-keyed : (k : ℕ) (es : List (Entry V)) → delete k (keyed es) ≡ keyed (without k es)
  unfolding delete without
  delete-keyed k [] = refl
  delete-keyed k (e ∷ es) = let rest = delete-keyed k es in ground arith

  pub lookup-keyed : (k : ℕ) (es : List (Entry V)) → lookup k (keyed es) ≡ find k es
  unfolding lookup
  lookup-keyed k [] = refl
  lookup-keyed k (e ∷ es) = let rest = lookup-keyed k es in ground arith

  pub length-keyed : (es : List (Entry V)) → length (keyed es) ≡ length es
  length-keyed [] = refl
  length-keyed (e ∷ es) = ap suc (length-keyed es)

  pub without_absent : (k : ℕ) (es : List (Entry V)) → find k es ≡ none → without k es ≡ es
  unfolding without
  without_absent k [] h = refl
  without_absent k (e ∷ es) h = let rest = without_absent k es in ground arith

  pub find-without :
      (j k : ℕ) (es : List (Entry V)) → find j es ≡ none → find j (without k es) ≡ none
  unfolding without
  find-without j k [] h = refl
  find-without j k (e ∷ es) h = let rest = find-without j k es in ground arith

  pub length-without : (k : ℕ) (es : List (Entry V)) → length (without k es) ≤ length es
  unfolding without
  length-without k [] = omega arith
  length-without k (e ∷ es) = let rest = length-without k es in ground arith

  pub Distinct-without : (k : ℕ) (es : List (Entry V)) → Distinct es → Distinct (without k es)
  unfolding without
  Distinct-without k [] h = tt
  Distinct-without k (e ∷ es) (new, h) = elim (Bool-cases (e.key == k)) [
    | inl same ↦ rw (same) (Distinct-without k es h)
    | inr other ↦ rw (other) (find-without e.key k es new, Distinct-without k es h)
  ]

  pub key-find : (k : ℕ) (es : List (Entry V)) (e : Entry V) → find k es ≡ some e → e.key ≡ k
  key-find k [] e h = cc
  key-find k (f ∷ es) e h = let rest = key-find k es e in ground arith

  module _ (p : Pool V) (valid : IsPool p) where
    pub lookup_in_step : (k : ℕ) → lookup k p.items ≡ find k p.evict_list
    lookup_in_step k = rw (valid.in_step) (lookup-keyed k p.evict_list)

    pub delete_in_step : (k : ℕ) → delete k p.items ≡ keyed (without k p.evict_list)
    delete_in_step k = rw (valid.in_step) (delete-keyed k p.evict_list)

  pub new_pool-IsPool : (num_cpu : ℕ) → IsPool (new_pool num_cpu)
  unfolding new_pool
  new_pool-IsPool num_cpu = record { in_step = refl; distinct = tt; bounded = omega arith }
