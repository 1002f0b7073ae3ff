-- ===== src/Lookup/Offset.antt =====
-- folderOffset (struct.go) and the sums of the sizes of packed streams.
use sevenzip.Prelude.{
  ℕ, zero, suc, ◌+◌, ◌-◌, ◌%◌, ◌^◌, ◌≤◌, ◌<◌, ◌≡◌, refl, ap, sym, some, List, [], ◌∷◌, arith,
  length, take,
}
use sevenzip.Stream.{ok}
use sevenzip.Pack.{PackInfo}
use sevenzip.Folder.{Folder}
use sevenzip.Unpack.{UnpackInfo}
use sevenzip.SubStreams.Sizes.{sum}
use sevenzip.Streams.{StreamsInfo}
use sevenzip.Lookup.{at, add_sizes, add_folders, folder_offset}

-- The packed streams of the first folders.
abbrev pub packed_before : ℕ → List Folder → ℕ
packed_before zero fs = 0
packed_before (suc n) [] = 0
packed_before (suc n) (f ∷ fs) = f.packed_streams + packed_before n fs

suc_add : (i n : ℕ) → suc i + n ≡ suc (i + n)
suc_add i n = omega arith

add_suc : (i n : ℕ) → i + suc n ≡ suc i + n
add_suc i n = omega arith

add_zero : (i : ℕ) → i + 0 ≡ i
add_zero i = omega arith

zero_add : (i : ℕ) → 0 + i ≡ i
zero_add i = omega arith

sum-take : (n : ℕ) (xs : List ℕ) → sum (take n xs) ≤ sum xs
sum-take zero xs = omega arith
sum-take (suc n) [] = omega arith
sum-take (suc n) (x ∷ xs) = omega (arith, sum-take n xs)

sum-take_next :
    (k : ℕ) (xs : List ℕ)
    → k < length xs
    → (x : ℕ) × (at xs k ≡ ok x) × (sum (take (suc k) xs) ≡ sum (take k xs) + x)
sum-take_next k [] h = absurd (omega arith)
sum-take_next zero (x ∷ xs) h = (x, refl, omega arith)
sum-take_next (suc k) (y ∷ xs) h =
    let (x, e, next) = sum-take_next k xs (omega arith) in (x, e, omega (arith, next))

packed_before_next :
    (i : ℕ) (fs : List Folder)
    → i < length fs
    → (f : Folder) × (at fs i ≡ ok f)
      × (packed_before (suc i) fs ≡ packed_before i fs + f.packed_streams)
packed_before_next i [] h = absurd (omega arith)
packed_before_next zero (f ∷ fs) h = (f, refl, omega arith)
packed_before_next (suc i) (g ∷ fs) h =
    let (f, e, next) = packed_before_next i fs (omega arith) in (f, e, omega (arith, next))

packed_before_monotone :
    (i n : ℕ) (fs : List Folder) → packed_before i fs ≤ packed_before (i + n) fs
packed_before_monotone zero n fs = omega arith
packed_before_monotone (suc i) n [] = omega arith
packed_before_monotone (suc i) n (f ∷ fs) =
    rw (suc_add i n) (omega (arith, packed_before_monotone i n fs))

add_sizes-sum :
    (xs : List ℕ) (n k : ℕ)
    → k + n ≤ length xs
    → sum xs < 2 ^ 64
    → add_sizes xs n k (sum (take k xs)) ≡ ok (sum (take (k + n) xs))
unfolding add_sizes
add_sizes-sum xs zero k h fits = rw (add_zero k) refl
add_sizes-sum xs (suc n) k h fits =
    let (x, e, next) = sum-take_next k xs (omega arith) in
    let low = sum-take (suc k) xs in
    let word : (sum (take k xs) + x) % 2 ^ 64 ≡ sum (take (suc k) xs) = omega arith in
    rw (e, word, add_suc k n) (add_sizes-sum xs n (suc k) (omega arith) fits)

add_folders-sum :
    (fs : List Folder) (xs : List ℕ) (n i : ℕ)
    → i + n ≤ length fs
    → packed_before (i + n) fs ≤ length xs
    → length xs < 2 ^ 64
    → sum xs < 2 ^ 64
    → add_folders fs xs n i (packed_before i fs) (sum (take (packed_before i fs) xs))
      ≡ ok (sum (take (packed_before (i + n) fs) xs))
unfolding add_folders
add_folders-sum fs xs zero i inside enough short fits = rw (add_zero i) refl
add_folders-sum fs xs (suc n) i inside enough short fits =
    let (f, e, next) = packed_before_next i fs (omega arith) in
    let upto = packed_before_monotone (suc i) n fs in
    let same = ap (λ m. packed_before m fs) (add_suc i n) in
    let word : (packed_before i fs + f.packed_streams) % 2 ^ 64 ≡ packed_before (suc i) fs =
      omega arith in
    let rounds : packed_before (suc i) fs - packed_before i fs ≡ f.packed_streams = omega arith in
    let inner = add_sizes-sum xs f.packed_streams (packed_before i fs) (omega arith) fits in
    rw (e, word, rounds, inner, sym next, add_suc i n)
      (add_folders-sum fs xs n (suc i) (omega arith) (omega arith) short fits)

-- Where the sizes of the packed streams and their position add up to less than 2 ^ 64 and there are
-- sizes for all the packed streams of the folders before a folder, folderOffset gives the position
-- of the packed streams plus the sizes of exactly those that the folders before it use.
pub folder_offset-sum :
    (si : StreamsInfo) (u : UnpackInfo) (p : PackInfo) (folder : ℕ)
    → si.unpack_info ≡ some u
    → si.pack_info ≡ some p
    → folder ≤ length u.folder
    → packed_before folder u.folder ≤ length p.size
    → length p.size < 2 ^ 64
    → p.position + sum p.size < 2 ^ 64
    → folder_offset si folder ≡ ok (p.position + sum (take (packed_before folder u.folder) p.size))
unfolding folder_offset
folder_offset-sum si u p zero eu ep inside enough short fits = rw (ep) (ap ok (omega arith))
folder_offset-sum si u p (suc folder) eu ep inside enough short fits =
    let low = sum-take (packed_before (suc folder) u.folder) p.size in
    let same = ap (λ m. packed_before m u.folder) (zero_add (suc folder)) in
    let all =
      add_folders-sum u.folder p.size (suc folder) 0 (omega arith) (omega (arith, same)) short
        (omega arith) in
    rw (ep, eu, all, same) (ap ok (omega arith))
