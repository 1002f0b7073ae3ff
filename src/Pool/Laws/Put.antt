-- ===== src/Pool/Laws/Put.antt =====
-- Put and Close of internal/pool/pool.go on a list of entries with distinct keys.
use sevenzip.Prelude.{
  ℕ, zero, suc, ◌≡◌, refl, ap, ◌∙◌, sym, Bool, true, false, none, some, List, [], ◌∷◌, ◌++◌, map,
  arith, ltb, ◌==◌, if◌then◌else◌, Bool-cases, Option-cases, inl, inr, length,
}
use sevenzip.Pool.{
  Entry, Pool, without, back, from_back, remove_element, remove_oldest, push_front, put, close_loop,
  close,
}
use sevenzip.Pool.Laws.{
  find, Distinct, IsPool, delete-keyed, Distinct-without, lookup_in_step, delete_in_step,
  without_absent,
}
use sevenzip.Pool.Laws.Get.{of_entries}

module _ {ℓ} {V : Type ℓ} where
  -- All but the back of the list.
  abbrev pub init : List (Entry V) → List (Entry V)
  init [] = []
  init (e ∷ []) = []
  init (e ∷ f ∷ es) = e ∷ init (f ∷ es)

  -- The back of a list whose front is e.
  abbrev pub last : Entry V → List (Entry V) → Entry V
  last e [] = e
  last e (f ∷ es) = last f es

  back-last : (e : Entry V) (es : List (Entry V)) → back (e ∷ es) ≡ some (last e es)
  unfolding back
  back-last e [] = refl
  back-last e (f ∷ es) = back-last f es

  absent_last :
      (k : ℕ) (e : Entry V) (es : List (Entry V))
      → find k (e ∷ es) ≡ none
      → (k == (last e es).key) ≡ false
  absent_last k e [] h = ground arith
  absent_last k e (f ∷ es) h = absent_last k f es (ground arith)

  without-last :
      (e : Entry V) (es : List (Entry V))
      → Distinct (e ∷ es)
      → without (last e es).key (e ∷ es) ≡ init (e ∷ es)
  unfolding without
  without-last e [] (new, h) = ground arith
  without-last e (f ∷ es) (new, h) =
      rw (absent_last e.key f es new) (ap (λ r. e ∷ r) (without-last f es h))

  length-init : (e : Entry V) (es : List (Entry V)) → length (init (e ∷ es)) ≡ length es
  length-init e [] = refl
  length-init e (f ∷ es) = ap suc (length-init f es)

  from_back-last :
      (e : Entry V) (es : List (Entry V))
      → from_back (e ∷ es) ≡ last e es ∷ from_back (init (e ∷ es))
  unfolding from_back
  from_back-last e [] = refl
  from_back-last e (f ∷ es) = ap (λ r. r ++ (e ∷ [])) (from_back-last f es)

  Distinct-init : (e : Entry V) (es : List (Entry V)) → Distinct (e ∷ es) → Distinct (init (e ∷ es))
  Distinct-init e es h = rw⁻¹ (without-last e es h) (Distinct-without (last e es).key (e ∷ es) h)

  remove_element-last :
      (p : Pool V) (e : Entry V) (es : List (Entry V))
      → Distinct (e ∷ es)
      → remove_element (of_entries p (e ∷ es)) (last e es) true
        ≡ (of_entries p (init (e ∷ es)), (last e es).value ∷ [])
  unfolding remove_element
  remove_element-last p e es h =
      simp (remove_element, delete-keyed (last e es).key (e ∷ es), without-last e es h) refl

  remove_oldest-last :
      (p : Pool V) (e : Entry V) (es : List (Entry V))
      → Distinct (e ∷ es)
      → remove_oldest (of_entries p (e ∷ es))
        ≡ (of_entries p (init (e ∷ es)), (last e es).value ∷ [])
  unfolding remove_oldest
  remove_oldest-last p e es h =
      simp (remove_oldest, back-last e es, remove_element-last p e es h) refl

  abbrev pub new_entry : ℕ → V → Entry V
  new_entry offset rc = record { key = offset; value = rc }

  -- What Put leaves where the key is new.
  abbrev pub pushed : Pool V → ℕ → V → Bool × Pool V × List V
  pushed p offset rc =
      let e = new_entry offset rc in
      let es = p.evict_list in
      if ltb p.size (suc (length es))
      then (true, of_entries p (init (e ∷ es)), (last e es).value ∷ [])
      else (false, of_entries p (e ∷ es), [])

  put_present :
      (p : Pool V) (offset : ℕ) (rc : V) (e : Entry V)
      → IsPool p
      → find offset p.evict_list ≡ some e
      → put p offset rc ≡ (false, p, [])
  unfolding put
  put_present p offset rc e valid found = simp (put, lookup_in_step p valid offset, found) refl

  push_front_new :
      (p : Pool V) (offset : ℕ) (rc : V)
      → IsPool p
      → find offset p.evict_list ≡ none
      → push_front p (new_entry offset rc) ≡ of_entries p (new_entry offset rc ∷ p.evict_list)
  unfolding push_front
  push_front_new p offset rc valid absent =
      simp (push_front, delete_in_step p valid offset, without_absent offset p.evict_list absent)
        refl

  put_absent :
      (p : Pool V) (offset : ℕ) (rc : V)
      → IsPool p
      → find offset p.evict_list ≡ none
      → put p offset rc ≡ pushed p offset rc
  unfolding put
  put_absent p offset rc valid absent =
      simp
        (
          put,
          lookup_in_step p valid offset,
          absent,
          push_front_new p offset rc valid absent,
          remove_oldest-last p (new_entry offset rc) p.evict_list (absent, valid.distinct),
        )
        refl

  -- Put on the list of entries: nothing for a key that is there. Otherwise the entry in front, and
  -- where that is more than the size, without the back, whose reader is closed.
  abbrev pub put_entries : Pool V → ℕ → V → Bool × Pool V × List V
  put_entries p offset rc = elim (find offset p.evict_list) [
    | some e ↦ (false, p, [])
    | none ↦ pushed p offset rc
  ]

  -- On a valid pool, Put is Put on the list of entries: the least recently used reader alone is closed,
  -- and only where the pool would grow over its size.
  pub put-put_entries :
      (p : Pool V) (offset : ℕ) (rc : V) → IsPool p → put p offset rc ≡ put_entries p offset rc
  put-put_entries p offset rc valid = elim (Option-cases (find offset p.evict_list)) [
    | inl absent ↦ simp (put_entries, absent, put_absent p offset rc valid absent) refl
    | inr (e, found) ↦ simp (put_entries, found, put_present p offset rc e valid found) refl
  ]

  -- Put keeps the pool valid: the map and the list hold the same elements, no key twice, and no more
  -- than the size.
  pub put-IsPool : (p : Pool V) (offset : ℕ) (rc : V) → IsPool p → IsPool (put p offset rc).1
  put-IsPool p offset rc valid = elim (Option-cases (find offset p.evict_list)) [
    | inr (e, found) ↦ rw (put_present p offset rc e valid found) valid
    | inl absent ↦
        let e = new_entry offset rc in
        let distinct : Distinct (e ∷ p.evict_list) = (absent, valid.distinct) in
        elim (Bool-cases (ltb p.size (suc (length p.evict_list)))) [
          | inl full ↦
              rw (put_absent p offset rc valid absent, full)
                (record {
                  in_step = refl;
                  distinct = Distinct-init e p.evict_list distinct;
                  bounded = omega (arith, length-init e p.evict_list, valid.bounded);
                })
          | inr space ↦
              rw (put_absent p offset rc valid absent, space)
                (record { in_step = refl; distinct = distinct; bounded = ground arith })
        ]
  ]

  close_loop_all :
      (n : ℕ) (p : Pool V) (es : List (Entry V))
      → length es ≡ n
      → Distinct es
      → close_loop n (of_entries p es) ≡ (of_entries p [], map (λ e. e.value) (from_back es))
  unfolding close_loop from_back back
  close_loop_all zero p [] h distinct = refl
  close_loop_all zero p (e ∷ es) h distinct = absurd (omega arith)
  close_loop_all (suc n) p [] h distinct = absurd (omega arith)
  close_loop_all (suc n) p (e ∷ es) h distinct =
      let rest =
        close_loop_all n p (init (e ∷ es)) (omega (arith, length-init e es))
          (Distinct-init e es distinct) in
      simp (back-last e es, remove_element-last p e es distinct, rest)
        (ap (λ r. (of_entries p [], map (λ e. e.value) r)) (sym (from_back-last e es)))

  -- Close on a valid pool closes every reader of it, from the least recently used on, and leaves it
  -- empty.
  pub close_all :
      (p : Pool V)
      → IsPool p
      → close p ≡ (of_entries p [], map (λ e. e.value) (from_back p.evict_list))
  unfolding close
  close_all p valid =
      let same : p ≡ of_entries p p.evict_list = ap (λ i. record p { items = i }) valid.in_step in
      ap (close_loop (length p.evict_list)) same
      ∙ close_loop_all (length p.evict_list) p p.evict_list refl valid.distinct
