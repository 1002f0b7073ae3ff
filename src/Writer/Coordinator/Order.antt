-- ===== src/Writer/Coordinator/Order.antt =====
-- The folders that the coordinator has copied (writer.go), whatever the order in which they arrived.
use sevenzip.Prelude.{
  ℕ, zero, suc, ◌≤◌, ◌<◌, ◌≡◌, refl, ap, ◌∙◌, Bool, true, false, ◌||◌, none, some, List, [], ◌∷◌,
  ◌++◌, arith, length, map, ltb, ◌==◌, if◌then◌else◌, Bool-cases, dec_lt, inl, inr,
}
use sevenzip.Prelude.Maps.{
  map_get, map_delete, map_set, map_get-map_set, map_get-map_delete, length-map_delete_lt,
}
use sevenzip.Stream.{Bytes}
use sevenzip.Writer.Coordinator.{
  Coordinator, Copy, write_next, write_ready, receive, coordinate, start,
}

-- A sink that takes all it is given.
abbrev pub copy_all : Copy
copy_all seq spool = (spool, true)

abbrev pub has : ℕ → List ℕ → Bool
has s [] = false
has s (k ∷ ks) = k == s || has s ks

map_get_empty : (k : ℕ) (m : List (ℕ × Bytes)) → length m ≤ 0 → map_get k m ≡ none
unfolding map_get
map_get_empty k [] h = refl
map_get_empty k (e ∷ m) h = absurd (omega arith)

length-write_next :
    (c : Coordinator) (spool : Bytes)
    → length (write_next copy_all c spool).folder_map ≡ length (map_delete c.write_seq c.folder_map)
unfolding write_next
length-write_next c spool = ground arith

module _ (sink : Bytes) (content : ℕ → Bytes) where
  -- What the sink holds with the first n folders.
  abbrev pub first_folders : ℕ → Bytes
  first_folders zero = sink
  first_folders (suc n) = first_folders n ++ content n

  -- The folders below the next number are copied, and have arrived. Those that wait are the others
  -- that have arrived.
  record Copied (arrived : List ℕ) (c : Coordinator) : Type 0 where
    copied : c.sink ≡ first_folders c.write_seq
    no_error : c.failed ≡ false
    below : (s : ℕ) → s < c.write_seq → has s arrived ≡ true
    waiting :
        (s : ℕ)
        → map_get s c.folder_map
          ≡ (if ltb s c.write_seq then none else if has s arrived then some (content s) else none)

  write_next-Copied :
      (arrived : List ℕ) (c : Coordinator)
      → Copied arrived c
      → has c.write_seq arrived ≡ true
      → Copied arrived (write_next copy_all c (content c.write_seq))
  unfolding write_next
  write_next-Copied arrived c inv here =
      simp (write_next, inv.no_error)
        (record {
          copied = ap (λ r. r ++ content c.write_seq) inv.copied;
          no_error = refl;
          below = λ s lt. below_next s lt;
          waiting =
              λ s. ground (arith, map_get-map_delete s c.write_seq c.folder_map, inv.waiting s);
        })
    where
      below_next : (s : ℕ) → s < suc c.write_seq → has s arrived ≡ true
      below_next s lt = elim (Bool-cases (s == c.write_seq)) [
        | inl e ↦ let same : s ≡ c.write_seq = ground arith in rw (same) here
        | inr e ↦ inv.below s (ground arith)
      ]

  -- The inner loop leaves no folder whose turn it is.
  write_ready-Copied :
      (rounds : ℕ) (arrived : List ℕ) (c : Coordinator)
      → length c.folder_map ≤ rounds
      → Copied arrived c
      → let c' = write_ready copy_all rounds c in
        Copied arrived c' × (has c'.write_seq arrived ≡ false)
  unfolding write_ready
  write_ready-Copied zero arrived c enough inv =
      let none_waits = map_get_empty c.write_seq c.folder_map enough in
      (inv, ground (arith, inv.waiting c.write_seq))
  write_ready-Copied (suc rounds) arrived c enough inv =
      elim (Bool-cases (has c.write_seq arrived)) [
        | inr gone ↦
            let empty : map_get c.write_seq c.folder_map ≡ none =
              ground (arith, inv.waiting c.write_seq) in
            simp (write_ready, empty) (inv, gone)
        | inl here ↦
            let found : map_get c.write_seq c.folder_map ≡ some (content c.write_seq) =
              ground (arith, inv.waiting c.write_seq) in
            let less = length-map_delete_lt c.write_seq c.folder_map (content c.write_seq) found in
            simp (write_ready, found)
              (write_ready-Copied rounds arrived (write_next copy_all c (content c.write_seq))
                (omega (arith, length-write_next c (content c.write_seq)))
                (write_next-Copied arrived c inv here))
      ]

  receive-Copied :
      (arrived : List ℕ) (c : Coordinator) (seq : ℕ)
      → Copied arrived c
      → has c.write_seq arrived ≡ false
      → has seq arrived ≡ false
      → let c' = receive copy_all c (seq, content seq) in
        Copied (seq ∷ arrived) c' × (has c'.write_seq (seq ∷ arrived) ≡ false)
  unfolding receive
  receive-Copied arrived c seq inv gone new =
      write_ready-Copied _ (seq ∷ arrived)
        (record c { folder_map = map_set seq (content seq) c.folder_map }) (omega arith)
        (record {
          copied = inv.copied;
          no_error = inv.no_error;
          below = λ s lt. ground (arith, inv.below s lt);
          waiting = λ s. waits s;
        })
    where
      waits :
          (s : ℕ)
          → map_get s (map_set seq (content seq) c.folder_map) ≡ (
              if ltb s c.write_seq
              then none
              else if has s (seq ∷ arrived)
              then some (content s)
              else none)
      waits s = elim (Bool-cases (seq == s)) [
        | inl e ↦
            let same : s ≡ seq = ground arith in
            rw (same)
              (ground (arith, map_get-map_set seq seq (content seq) c.folder_map, inv.below seq))
        | inr e ↦ ground (arith, map_get-map_set s seq (content seq) c.folder_map, inv.waiting s)
      ]

  -- The folders arrive with different numbers.
  abbrev pub Distinct : (arrived order : List ℕ) → Type 0
  Distinct arrived [] = Unit
  Distinct arrived (seq ∷ order) = (has seq arrived ≡ false) × Distinct (seq ∷ arrived) order

  abbrev all_arrived : (arrived order : List ℕ) → List ℕ
  all_arrived arrived [] = arrived
  all_arrived arrived (seq ∷ order) = all_arrived (seq ∷ arrived) order

  coordinate-Copied :
      (arrived order : List ℕ) (c : Coordinator)
      → Copied arrived c
      → has c.write_seq arrived ≡ false
      → Distinct arrived order
      → let c' = coordinate copy_all c (map (λ s. (s, content s)) order) in
        Copied (all_arrived arrived order) c'
        × (has c'.write_seq (all_arrived arrived order) ≡ false)
  unfolding coordinate
  coordinate-Copied arrived [] c inv gone distinct = (inv, gone)
  coordinate-Copied arrived (seq ∷ order) c inv gone (new, distinct) =
      let (inv', gone') = receive-Copied arrived c seq inv gone new in
      coordinate-Copied (seq ∷ arrived) order (receive copy_all c (seq, content seq)) inv' gone'
        distinct

  has-all_arrived :
      (s : ℕ) (arrived order : List ℕ)
      → has s (all_arrived arrived order) ≡ (has s order || has s arrived)
  has-all_arrived s arrived [] = refl
  has-all_arrived s arrived (seq ∷ order) =
      let rest = has-all_arrived s (seq ∷ arrived) order in ground arith

  start-Copied : Copied [] (start sink)
  unfolding map_get
  start-Copied = record {
    copied = refl;
    no_error = refl;
    below = λ s lt. absurd (omega arith);
    waiting = λ s. ground arith;
  }

  -- The folders with the numbers below n arrive, each once and in any order, and number n does not:
  -- then, where every copy succeeds, the sink holds those n folders in the order of their numbers, and no
  -- other, without an error.
  -- So all folders are written if all arrive, and one that does not holds back all that follow it.
  pub coordinate_first :
      (order : List ℕ) (n : ℕ)
      → Distinct [] order
      → ((s : ℕ) → s < n → has s order ≡ true)
      → has n order ≡ false
      → let c = coordinate copy_all (start sink) (map (λ s. (s, content s)) order) in
        (c.sink ≡ first_folders n) × (c.failed ≡ false) × (c.write_seq ≡ n)
  coordinate_first order n distinct before last =
      let folds = map (λ s. (s, content s)) order in
      let c = coordinate copy_all (start sink) folds in
      let (inv, gone) = coordinate-Copied [] order (start sink) start-Copied refl distinct in
      let here = has-all_arrived c.write_seq [] order in
      let there = has-all_arrived n [] order in
      let reached : c.write_seq ≡ n = elim (dec_lt c.write_seq n) [
        | yes early ↦ absurd (clash (before c.write_seq early) (ground arith))
        | no late ↦ elim (dec_lt n c.write_seq) [
          | yes beyond ↦ absurd (clash (inv.below n beyond) (ground arith))
          | no same ↦ omega arith
        ]
      ] in
      (inv.copied ∙ ap first_folders reached, inv.no_error, reached)
    where
      clash : {b : Bool} → b ≡ true → b ≡ false → ⊥
      clash h k = cc
