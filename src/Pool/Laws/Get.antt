-- ===== src/Pool/Laws/Get.antt =====
-- Get of internal/pool/pool.go on a list of entries with distinct keys.
use sevenzip.Prelude.{
  ℕ, suc, ◌-◌, ◌≡◌, ◌⊎◌, refl, ap, ◌∙◌, false, Option, none, some, List, [], ◌∷◌, map, arith, ltb,
  ◌==◌, Bool-cases, Option-cases, inl, inr, length, append-nil,
}
use sevenzip.Stream.{ok}
use sevenzip.Pool.{Entry, Pool, without, from_back, remove_element, keys, take_key, get}
use sevenzip.Pool.Closest.{
  better, closest, IsClosest, closest-IsClosest, closest-from_back, first_below-sort_keys,
}
use sevenzip.Pool.Laws.{
  lookup_in_step, delete_in_step, find, keyed, IsPool, length-keyed, length-without,
  Distinct-without,
}

better_present :
    (k j : ℕ) (ks : List ℕ) (o : Option ℕ)
    → IsClosest ks (suc k) o
    → (j ≡ k) ⊎ (o ≡ some k)
    → better (suc k) j o ≡ some k
better_present k j ks none h (inl e) = ground arith
better_present k j ks none h (inr e) = cc
better_present k j ks (some m) (below, h) (inl e) = ground arith
better_present k j ks (some m) (below, h) (inr e) = ground arith

better_absent : (k j : ℕ) (o : Option ℕ) → (j == k) ≡ false → better (suc k) j o ≡ better k j o
better_absent k j none h = ground arith
better_absent k j (some m) h = ground arith

better_either :
    (offset k j : ℕ) (o : Option ℕ) → better offset j o ≡ some k → (j == k) ≡ false → o ≡ some k
better_either offset k j none h other = ground arith
better_either offset k j (some m) h other = ground arith

module _ {ℓ} {V : Type ℓ} where
  abbrev pub keys_of : List (Entry V) → List ℕ
  keys_of es = map (λ e. e.key) es

  abbrev pub of_entries : Pool V → List (Entry V) → Pool V
  of_entries p es = record p { evict_list = es; items = keyed es }

  -- The entry of the greatest key up to the offset, and the pool without it.
  abbrev pub taken : Pool V → Option (Entry V) → Option V × Pool V
  taken p none = (none, p)
  taken p (some e) = (some e.value, of_entries p (without e.key p.evict_list))

  abbrev pub entry_of : List (Entry V) → Option ℕ → Option (Entry V)
  entry_of es none = none
  entry_of es (some k) = find k es

  closest_present :
      (k : ℕ) (es : List (Entry V)) (e : Entry V)
      → find k es ≡ some e
      → closest (keys_of es) (suc k) ≡ some k
  closest_present k [] e h = cc
  closest_present k (f ∷ es) e h =
      better_present k f.key (keys_of es) (closest (keys_of es) (suc k))
        (closest-IsClosest (keys_of es) (suc k))
        (elim (Bool-cases (f.key == k)) [
          | inl same ↦ inl (ground arith)
          | inr other ↦ inr (closest_present k es e (ground arith))
        ])

  closest_absent :
      (k : ℕ) (es : List (Entry V))
      → find k es ≡ none
      → closest (keys_of es) (suc k) ≡ closest (keys_of es) k
  closest_absent k [] h = refl
  closest_absent k (f ∷ es) h =
      let rest = closest_absent k es (ground arith) in
      better_absent k f.key (closest (keys_of es) (suc k)) (ground arith) ∙ ap (better k f.key) rest

  closest-find :
      (offset : ℕ) (es : List (Entry V)) (k : ℕ)
      → closest (keys_of es) offset ≡ some k
      → (e : Entry V) × (find k es ≡ some e)
  closest-find offset [] k h = cc
  closest-find offset (f ∷ es) k h = elim (Bool-cases (f.key == k)) [
    | inl same ↦ rw (same) (f, refl)
    | inr other ↦ rw (other) (
        closest-find offset es k
          (better_either offset k f.key (closest (keys_of es) offset) h other))
  ]

  take_key-taken :
      (p : Pool V) (offset : ℕ)
      → IsPool p
      → take_key p (closest (keys_of p.evict_list) offset)
        ≡ ok (taken p (entry_of p.evict_list (closest (keys_of p.evict_list) offset)))
  unfolding take_key remove_element
  take_key-taken p offset valid = elim (Option-cases (closest (keys_of p.evict_list) offset)) [
    | inl e ↦ rw (e) refl
    | inr (k, e) ↦
        let (f, found) = closest-find offset p.evict_list k e in
        simp (e, take_key, lookup_in_step p valid k, found, delete_in_step p valid f.key) refl
  ]

  keys-from_back : (p : Pool V) → IsPool p → keys p ≡ ok (keys_of (from_back p.evict_list))
  unfolding keys
  keys-from_back p valid =
      let same = length-keyed p.evict_list in
      let none_left : length p.evict_list - length p.evict_list ≡ 0 = omega arith in
      let in_range : ltb (length p.evict_list) (length p.evict_list) ≡ false = ground arith in
      rw (valid.in_step, same, none_left, in_range)
        (ap ok (append-nil (keys_of (from_back p.evict_list))))

  -- On a valid pool Get does not panic, and takes the entry whose key is the greatest up to the
  -- offset: that reader is returned and leaves the pool, and where there is none the pool stays.
  pub get-taken :
      (p : Pool V) (offset : ℕ)
      → IsPool p
      → get p offset
        ≡ ok (taken p (entry_of p.evict_list (closest (keys_of p.evict_list) (suc offset))))
  unfolding get remove_element
  get-taken p offset valid = elim (Option-cases (find offset p.evict_list)) [
    | inl absent ↦
        simp
          (
            get,
            lookup_in_step p valid offset,
            absent,
            keys-from_back p valid,
            first_below-sort_keys offset (keys_of (from_back p.evict_list)),
            closest-from_back offset p.evict_list,
            closest_absent offset p.evict_list absent,
          )
          (take_key-taken p offset valid)
    | inr (e, found) ↦
        simp
          (
            get,
            lookup_in_step p valid offset,
            closest_present offset p.evict_list e found,
            found,
            delete_in_step p valid e.key,
          )
          refl
  ]

  taken-IsPool : (p : Pool V) (o : Option (Entry V)) → IsPool p → IsPool (taken p o).1
  taken-IsPool p none valid = valid
  taken-IsPool p (some e) valid = record {
    in_step = refl;
    distinct = Distinct-without e.key p.evict_list valid.distinct;
    bounded = omega (arith, length-without e.key p.evict_list, valid.bounded);
  }

  -- On a valid pool Get gives a result, and the pool it leaves is valid.
  pub get-IsPool :
      (p : Pool V) (offset : ℕ)
      → IsPool p
      → (r : Option V × Pool V) × (get p offset ≡ ok r) × IsPool r.1
  get-IsPool p offset valid =
      let o = entry_of p.evict_list (closest (keys_of p.evict_list) (suc offset)) in
      (taken p o, get-taken p offset valid, taken-IsPool p o valid)
