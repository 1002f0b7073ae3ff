-- ===== src/Reader/Listing/Search.antt =====
-- sort.Search on a test that stays true once it is (reader.go uses it on the sorted list).
use sevenzip.Prelude.{
  ℕ, zero, suc, ◌+◌, ◌/◌, ◌<◌, ◌≤◌, ◌≡◌, Bool, true, false, List, [], ◌∷◌, length, All, ltb, ltb→lt,
  Bool-cases, inl, inr, arith, if◌then◌else◌, dec_lt,
}
use sevenzip.Reader.Listing.{FileListEntry, search_between, sort_search, on_entry}

-- The first of n indices at which the test is true, or n.
pub record IsLeast (f : ℕ → Bool) (n r : ℕ) : Type 0 where
  pub within : r ≤ n
  pub before : (k : ℕ) → k < r → f k ≡ false
  pub at_last : r < n → f r ≡ true

pub least_unique : (f : ℕ → Bool) (n r s : ℕ) → IsLeast f n r → IsLeast f n s → r ≡ s
least_unique f n r s a b = elim (dec_lt r s) [
  | yes h ↦ let e = b.before r h in let g = a.at_last (omega (arith, b.within)) in cc
  | no h ↦ elim (dec_lt s r) [
    | yes k ↦ let e = a.before s k in let g = b.at_last (omega (arith, a.within)) in cc
    | no k ↦ omega arith
  ]
]

module _ (f : ℕ → Bool) (n : ℕ) (rises : (i k : ℕ) → i ≤ k → k < n → f i ≡ true → f k ≡ true) where
  false_below : (h k : ℕ) → h < n → f h ≡ false → k ≤ h → f k ≡ false
  false_below h k small e within = elim (Bool-cases (f k)) [
    | inl g ↦ let up = rises k h within small g in cc
    | inr g ↦ g
  ]

  search_between-IsLeast :
      (rounds i j : ℕ)
      → i ≤ j
      → j ≤ n
      → j ≤ i + rounds
      → ((k : ℕ) → k < i → f k ≡ false)
      → (j < n → f j ≡ true)
      → IsLeast f n (search_between rounds f i j)
  unfolding search_between
  search_between-IsLeast zero i j order within enough before after =
      let same : i ≡ j = omega arith in
      record { within = omega arith; before = before; at_last = λ h. rw same (after (omega arith)) }
  search_between-IsLeast (suc rounds) i j order within enough before after =
      let h = (i + j) / 2 in
      elim (Bool-cases (ltb i j)) [
        | inr e ↦
            let same : i ≡ j = ground arith in
            rw e (record {
              within = omega arith;
              before = before;
              at_last = λ k. rw same (after (omega arith));
            })
        | inl e ↦
            let less = ltb→lt i j e in
            elim (Bool-cases (f h)) [
              | inl g ↦
                  rw (e, g)
                    (search_between-IsLeast rounds i h (omega arith) (omega arith) (omega arith)
                      before (λ _. g))
              | inr g ↦
                  rw (e, g)
                    (search_between-IsLeast rounds (h + 1) j (omega arith) within (omega arith)
                      (λ k small. false_below h k (omega arith) g (omega arith)) after)
            ]
      ]

  pub sort_search-IsLeast : IsLeast f n (sort_search n f)
  unfolding sort_search
  sort_search-IsLeast =
      search_between-IsLeast n 0 n (omega arith) (omega arith) (omega arith)
        (λ k h. absurd (omega arith)) (λ h. absurd (omega arith))

-- A test that stays true along the list.
abbrev pub Rising : (FileListEntry → Bool) → List FileListEntry → Type 0
Rising p [] = Unit
Rising p (x ∷ xs) = (p x ≡ true → All (λ y. p y ≡ true) xs) × Rising p xs

abbrev pub first_index : (FileListEntry → Bool) → List FileListEntry → ℕ
first_index p [] = 0
first_index p (x ∷ xs) = if p x then 0 else suc (first_index p xs)

on_entry-All :
    (p : FileListEntry → Bool) (xs : List FileListEntry) (k : ℕ)
    → All (λ y. p y ≡ true) xs
    → k < length xs
    → on_entry p xs k ≡ true
on_entry-All p [] k h small = absurd (omega arith)
on_entry-All p (x ∷ xs) zero h small = h.0
on_entry-All p (x ∷ xs) (suc k) h small = on_entry-All p xs k h.1 (omega arith)

on_entry_rises :
    (p : FileListEntry → Bool) (xs : List FileListEntry)
    → Rising p xs
    → (i k : ℕ) → i ≤ k
    → k < length xs
    → on_entry p xs i ≡ true
    → on_entry p xs k ≡ true
on_entry_rises p [] rising i k order small e = absurd (omega arith)
on_entry_rises p (x ∷ xs) rising zero zero order small e = e
on_entry_rises p (x ∷ xs) rising zero (suc k) order small e =
    on_entry-All p xs k (rising.0 e) (omega arith)
on_entry_rises p (x ∷ xs) rising (suc i) zero order small e = absurd (omega arith)
on_entry_rises p (x ∷ xs) rising (suc i) (suc k) order small e =
    on_entry_rises p xs rising.1 i k (omega arith) (omega arith) e

before_first :
    (p : FileListEntry → Bool) (x : FileListEntry) (xs : List FileListEntry) (m k : ℕ)
    → p x ≡ false
    → ((i : ℕ) → i < m → on_entry p xs i ≡ false)
    → k < suc m
    → on_entry p (x ∷ xs) k ≡ false
before_first p x xs m zero e rest h = e
before_first p x xs m (suc k) e rest h = rest k (omega arith)

first_index-IsLeast :
    (p : FileListEntry → Bool) (xs : List FileListEntry)
    → IsLeast (on_entry p xs) (length xs) (first_index p xs)
first_index-IsLeast p [] = record {
  within = omega arith;
  before = λ k h. absurd (omega arith);
  at_last = λ h. absurd (omega arith);
}
first_index-IsLeast p (x ∷ xs) = elim (Bool-cases (p x)) [
  | inl e ↦
      rw e (record { within = omega arith; before = λ k h. absurd (omega arith); at_last = λ _. e })
  | inr e ↦
      let rest = first_index-IsLeast p xs in
      rw e (record {
        within = omega (arith, rest.within);
        before = λ k h. before_first p x xs (first_index p xs) k e rest.before h;
        at_last = λ h. rest.at_last (omega arith);
      })
]

pub on_entry-IsLeast :
    (p : FileListEntry → Bool) (xs : List FileListEntry)
    → Rising p xs
    → IsLeast (on_entry p xs) (length xs) (sort_search (length xs) (on_entry p xs))
on_entry-IsLeast p xs rising =
    sort_search-IsLeast (on_entry p xs) (length xs) (on_entry_rises p xs rising)

-- On a sorted list sort.Search finds what a search from the front finds.
pub sort_search-first_index :
    (p : FileListEntry → Bool) (xs : List FileListEntry)
    → Rising p xs
    → sort_search (length xs) (on_entry p xs) ≡ first_index p xs
sort_search-first_index p xs rising =
    least_unique (on_entry p xs) (length xs) _ _ (on_entry-IsLeast p xs rising)
      (first_index-IsLeast p xs)
