-- ===== src/Reader/Listing/Directory.antt =====
-- openReadDir (reader.go) on a sorted list.
use sevenzip.Prelude.{
  ℕ, suc, ◌-◌, ◌≡◌, refl, sym, ◌∙◌, ap, subst, Bool, true, false, not, ◌&&◌, List, [], ◌∷◌, take,
  drop, All, Bool-cases, inl, inr, arith, if◌then◌else◌,
}
use sevenzip.Reader.Listing.Lookup.{IsSorted, sorted-Rising}
use sevenzip.Reader.Listing.Order.{bytes_eq_refl, bytes_eq→, bytes_lt-IsStrict, bytes_lt_asymmetric}
use sevenzip.Reader.Listing.Search.{Rising, first_index, sort_search-first_index}
use sevenzip.Reader.Listing.{
  bytes_lt, bytes_eq, split_name, FileListEntry, file_entry_less, in_or_after, after_dir,
  open_read_dir,
}
use sevenzip.Stream.{Bytes}

-- The entries that lie directly in a directory, one by one.
abbrev pub entries_in : Bytes → List FileListEntry → List FileListEntry
entries_in dir [] = []
entries_in dir (x ∷ xs) =
    if bytes_eq (split_name x.name).0 dir then x ∷ entries_in dir xs else entries_in dir xs

module _ (dir : Bytes) where
  -- Going on in the list, a directory does not come back.
  not_less_dir :
      (x y : FileListEntry)
      → file_entry_less x.name y.name ≡ true
      → bytes_lt (split_name y.name).0 (split_name x.name).0 ≡ false
  unfolding file_entry_less
  not_less_dir x y less =
      let a = (split_name x.name).0 in
      let b = (split_name y.name).0 in
      ground (arith, bytes_lt_asymmetric a b, bytes_eq→ a b, bytes_lt-IsStrict.irreflexive a)

  stays_in_or_after :
      (x y : FileListEntry)
      → file_entry_less x.name y.name ≡ true
      → in_or_after dir x ≡ true
      → in_or_after dir y ≡ true
  unfolding file_entry_less in_or_after
  stays_in_or_after x y less h =
      let a = (split_name x.name).0 in
      let b = (split_name y.name).0 in
      ground (arith, bytes_eq→ a b, bytes_lt-IsStrict.transitive a b dir)

  stays_after_dir :
      (x y : FileListEntry)
      → file_entry_less x.name y.name ≡ true
      → after_dir dir x ≡ true
      → after_dir dir y ≡ true
  unfolding file_entry_less after_dir
  stays_after_dir x y less h =
      let a = (split_name x.name).0 in
      let b = (split_name y.name).0 in
      ground (arith, bytes_eq→ a b, bytes_lt-IsStrict.transitive dir a b)

  -- The three places that an entry can have.
  in_dir_lem :
      (x : FileListEntry)
      → bytes_eq (split_name x.name).0 dir ≡ (in_or_after dir x && not (after_dir dir x))
  unfolding in_or_after after_dir
  in_dir_lem x =
      let a = (split_name x.name).0 in
      ground (
        arith,
        bytes_eq→ a dir,
        bytes_eq_refl a,
        bytes_lt-IsStrict.irreflexive a,
        bytes_lt-IsStrict.connected a dir,
      )

  after_in : (x : FileListEntry) → after_dir dir x ≡ true → in_or_after dir x ≡ true
  unfolding in_or_after after_dir
  after_in x h = ground (arith, bytes_lt_asymmetric dir (split_name x.name).0)

first_index-All :
    (p : FileListEntry → Bool) (xs : List FileListEntry)
    → All (λ y. p y ≡ true) xs
    → first_index p xs ≡ 0
first_index-All p [] h = refl
first_index-All p (x ∷ xs) h = rw h.0 refl

entries_in_none :
    (dir : Bytes) (xs : List FileListEntry)
    → All (λ y. after_dir dir y ≡ true) xs
    → entries_in dir xs ≡ []
entries_in_none dir [] h = refl
entries_in_none dir (x ∷ xs) h =
    let skip : bytes_eq (split_name x.name).0 dir ≡ false =
      in_dir_lem dir x ∙ (rw (h.0, after_in dir x h.0) refl) in
    rw skip (entries_in_none dir xs h.1)

between-entries_in :
    (dir : Bytes) (xs : List FileListEntry)
    → Rising (in_or_after dir) xs
    → Rising (after_dir dir) xs
    → let i = first_index (in_or_after dir) xs in
      take (first_index (after_dir dir) xs - i) (drop i xs) ≡ entries_in dir xs
between-entries_in dir [] lower upper = refl
between-entries_in dir (x ∷ xs) lower upper =
    let i = first_index (in_or_after dir) xs in
    let j = first_index (after_dir dir) xs in
    let rest = between-entries_in dir xs lower.1 upper.1 in
    elim (Bool-cases (after_dir dir x)) [
      | inl a ↦
          let skip : bytes_eq (split_name x.name).0 dir ≡ false =
            in_dir_lem dir x ∙ (rw (a, after_in dir x a) refl) in
          rw (a, after_in dir x a, skip) (sym (entries_in_none dir xs (upper.0 a)))
      | inr a ↦ elim (Bool-cases (in_or_after dir x)) [
        | inl b ↦
            let take_it : bytes_eq (split_name x.name).0 dir ≡ true =
              in_dir_lem dir x ∙ (rw (a, b) refl) in
            let first = first_index-All (in_or_after dir) xs (lower.0 b) in
            let whole : suc j - 0 ≡ suc j = omega arith in
            let none_skipped : j - 0 ≡ j = omega arith in
            rw (a, b, take_it, whole)
              (ap (λ t. x ∷ t)
                (ap (λ (k : ℕ). take k xs) (sym none_skipped)
                  ∙ subst (λ (k : ℕ). take (j - k) (drop k xs) ≡ entries_in dir xs) first rest))
        | inr b ↦
            let skip : bytes_eq (split_name x.name).0 dir ≡ false =
              in_dir_lem dir x ∙ (rw (a, b) refl) in
            let less : suc j - suc i ≡ j - i = omega arith in rw (a, b, skip, less) rest
      ]
    ]

-- In a sorted list, openReadDir gives the entries that split puts into the directory, all of them and
-- in their order.
pub open_read_dir-entries_in :
    (files : List FileListEntry) (dir : Bytes)
    → IsSorted files
    → open_read_dir files dir ≡ entries_in dir files
unfolding open_read_dir
open_read_dir-entries_in files dir sorted =
    let lower = sorted-Rising (in_or_after dir) (stays_in_or_after dir) files sorted in
    let upper = sorted-Rising (after_dir dir) (stays_after_dir dir) files sorted in
    rw
      (
        sort_search-first_index (in_or_after dir) files lower,
        sort_search-first_index (after_dir dir) files upper,
      )
      (between-entries_in dir files lower upper)
