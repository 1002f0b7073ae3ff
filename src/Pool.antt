-- ===== src/Pool.antt =====
-- internal/pool/pool.go (pool): the readers kept for reuse, least recently used last. A reader is any
-- type V; which readers a call closes is part of its result, and the call's error is what their Close
-- gives. The keys are stream offsets, which are
-- not negative. An element of the list is known by its key, and the map from keys to elements is an
-- association list. The mutex makes each call one step.
pub mod Closest
pub mod Laws
use sevenzip.Prelude.{
  ℕ, zero, suc, ◌-◌, Bool, true, false, Option, none, some, List, [], ◌∷◌, ◌++◌, map, length,
  replicate, ltb, ◌==◌, if◌then◌else◌,
}
use sevenzip.Stream.{Result, ok, err, bind, panic}

pub record Entry {ℓ} (V : Type ℓ) : Type ℓ where
  pub key : ℕ
  pub value : V

pub record Pool {ℓ} (V : Type ℓ) : Type ℓ where
  pub size : ℕ
  pub evict_list : List (Entry V)
  pub items : List (ℕ × Entry V)

module _ {ℓ} {V : Type ℓ} where
  -- evictList.Remove, and delete on the map
  unfoldable pub without : ℕ → List (Entry V) → List (Entry V)
  without k [] = []
  without k (e ∷ es) = let rest = without k es in if e.key == k then rest else e ∷ rest

  unfoldable pub delete : ℕ → List (ℕ × Entry V) → List (ℕ × Entry V)
  delete k [] = []
  delete k ((j, e) ∷ items) = let rest = delete k items in if j == k then rest else (j, e) ∷ rest

  unfoldable pub lookup : ℕ → List (ℕ × Entry V) → Option (Entry V)
  lookup k [] = none
  lookup k ((j, e) ∷ items) = let rest = lookup k items in if j == k then some e else rest

  -- evictList.Back
  unfoldable pub back : List (Entry V) → Option (Entry V)
  back [] = none
  back (e ∷ []) = some e
  back (e ∷ f ∷ es) = back (f ∷ es)

  -- The elements from the back of the list on.
  unfoldable pub from_back : List (Entry V) → List (Entry V)
  from_back [] = []
  from_back (e ∷ es) = from_back es ++ (e ∷ [])

  -- removeElement, and the readers it closes
  unfoldable pub remove_element : Pool V → Entry V → (cb : Bool) → Pool V × List V
  remove_element p e cb = (
    record p { evict_list = without e.key p.evict_list; items = delete e.key p.items },
    if cb then e.value ∷ [] else [],
  )

  unfoldable pub remove_oldest : Pool V → Pool V × List V
  remove_oldest p = elim (back p.evict_list) [ none ↦ (p, []) | some e ↦ remove_element p e true ]

  -- A slice as long as the map, filled from the list: a longer list is out of its range.
  unfoldable pub keys : Pool V → Result (List ℕ)
  keys p =
      if ltb (length p.items) (length p.evict_list)
      then err panic
      else ok (
          map (λ e. e.key) (from_back p.evict_list)
          ++ replicate (length p.items - length p.evict_list) 0)

-- sort.Slice in descending order
unfoldable pub insert_key : ℕ → List ℕ → List ℕ
insert_key k [] = k ∷ []
insert_key k (j ∷ ks) = let rest = insert_key k ks in if ltb j k then k ∷ j ∷ ks else j ∷ rest

unfoldable pub sort_keys : List ℕ → List ℕ
sort_keys [] = []
sort_keys (k ∷ ks) = insert_key k (sort_keys ks)

unfoldable pub first_below : List ℕ → ℕ → Option ℕ
first_below [] offset = none
first_below (k ∷ ks) offset =
    let rest = first_below ks offset in if ltb k offset then some k else rest

module _ {ℓ} {V : Type ℓ} where
  -- The reader of the key that Get's loop stops at. `removeElement(nil)` panics.
  unfoldable pub take_key : Pool V → Option ℕ → Result (Option V × Pool V)
  take_key p none = ok (none, p)
  take_key p (some k) = elim (lookup k p.items) [
    | none ↦ err panic
    | some e ↦ ok (some e.value, (remove_element p e false).0)
  ]

  unfoldable pub get : Pool V → ℕ → Result (Option V × Pool V)
  get p offset = elim (lookup offset p.items) [
    | some e ↦ ok (some e.value, (remove_element p e false).0)
    | none ↦ bind (keys p) (λ ks. take_key p (first_below (sort_keys ks) offset))
  ]

  unfoldable pub push_front : Pool V → Entry V → Pool V
  push_front p e = record p {
    evict_list = e ∷ p.evict_list;
    items = (e.key, e) ∷ delete e.key p.items;
  }

  -- Whether a reader was evicted, the pool, and the readers closed. A key that is there already leaves
  -- the pool as it is.
  unfoldable pub put : Pool V → ℕ → V → Bool × Pool V × List V
  put p offset rc = elim (lookup offset p.items) [
    | some e ↦ (false, p, [])
    | none ↦
        let p' = push_front p (record { key = offset; value = rc }) in
        let (p'', closed) = remove_oldest p' in
        if ltb p'.size (length p'.evict_list) then (true, p'', closed) else (false, p', [])
  ]

  -- The loop of Close, for at most `rounds` elements.
  unfoldable pub close_loop : ℕ → Pool V → Pool V × List V
  close_loop zero p = (p, [])
  close_loop (suc rounds) p = elim (back p.evict_list) [
    | none ↦ (p, [])
    | some e ↦
        let (p', closed) = remove_element p e true in
        let (p'', later) = close_loop rounds p' in (p'', closed ++ later)
  ]

  unfoldable pub close : Pool V → Pool V × List V
  close p = close_loop (length p.evict_list) p

  unfoldable pub new_pool : (num_cpu : ℕ) → Pool V
  new_pool num_cpu = record { size = num_cpu; evict_list = []; items = [] }
