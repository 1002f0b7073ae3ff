-- ===== src/SubStreams/Sizes.antt =====
-- The loops over the sizes of the files in readSubStreamsInfo and writeSubStreamsInfo.
use sevenzip.Prelude.{
  ℕ, zero, suc, ◌+◌, ◌-◌, ◌%◌, ◌^◌, ◌≤◌, ◌<◌, ◌≡◌, refl, ap, ◌∙◌, List, [], ◌∷◌, ◌++◌, append_assoc,
  arith, length, length-append, All,
}
use sevenzip.Stream.{Bytes, ok}
use sevenzip.Number.{IsU64}
use sevenzip.Number.RoundTrip.{read_uint64-write_uint64}
use sevenzip.Folder.{Folder, total_from, unpack_size}
use sevenzip.SubStreams.{read_parts, last_part, fill_sizes, write_parts, write_sub_sizes}

abbrev pub sum : List ℕ → ℕ
sum [] = 0
sum (x ∷ xs) = x + sum xs

pub total_from-sum :
    (acc : ℕ) (xs : List ℕ) → acc + sum xs < 2 ^ 64 → total_from acc xs ≡ acc + sum xs
unfolding total_from
total_from-sum acc [] h = omega arith
total_from-sum acc (x ∷ xs) h =
    let e : (acc + x) % 2 ^ 64 ≡ acc + x = omega arith in
    rw e (total_from-sum (acc + x) xs (omega arith) ∙ omega arith)

-- The sizes list the files folder by folder, and those of a folder add up to what it unpacks to.
abbrev pub Splits : List Folder → List ℕ → List ℕ → Type 0
Splits [] [] sizes = sizes ≡ []
Splits (f ∷ fs) (zero ∷ streams) sizes = Splits fs streams sizes
Splits (f ∷ fs) (suc n ∷ streams) sizes =
    (parts : List ℕ) × (last : ℕ) × (later : List ℕ) × (sizes ≡ parts ++ (last ∷ later))
    × (length parts ≡ n)
    × All IsU64 parts
    × (sum parts + last ≡ unpack_size f)
    × IsU64 (unpack_size f)
    × Splits fs streams later
Splits _ _ sizes = ⊥

read_parts-write_parts :
    (parts : List ℕ) (last : ℕ) (more : List ℕ) (later : List ℕ → Bytes) (room total : ℕ)
    (rest : Bytes)
    → All IsU64 parts
    → length parts ≤ room
    → total + sum parts < 2 ^ 64
    → read_parts
        (length parts)
        room
        total
        (write_parts (length parts) later (parts ++ (last ∷ more)) ++ rest)
      ≡ ok ((parts, total + sum parts), later more ++ rest)
unfolding read_parts write_parts
read_parts-write_parts [] last more later room total rest h hr ht =
    ap (λ t. ok (([], t), later more ++ rest)) (omega arith)
read_parts-write_parts (x ∷ parts) last more later zero total rest (hx, h) hr ht =
    absurd (omega arith)
read_parts-write_parts (x ∷ parts) last more later (suc room) total rest (hx, h) hr ht =
    let e : (total + x) % 2 ^ 64 ≡ total + x = omega arith in
    simp
      (
        append_assoc,
        read_uint64-write_uint64 x _ hx,
        e,
        read_parts-write_parts parts last more later room (total + x) rest h (omega arith)
            (omega arith),
      )
      (ap (λ t. ok ((x ∷ parts, t), later more ++ rest)) (omega arith))

-- One folder with files, and the folders after it.
fill_folder :
    (f : Folder) (fs : List Folder) (parts : List ℕ) (last : ℕ) (streams later : List ℕ) (room : ℕ)
    (rest : Bytes)
    → All IsU64 parts
    → sum parts + last ≡ unpack_size f
    → IsU64 (unpack_size f)
    → length parts + suc (length later) ≡ room
    → fill_sizes fs streams (length later) (write_sub_sizes streams later ++ rest)
      ≡ ok (later, rest)
    → fill_sizes
        (f ∷ fs)
        (suc (length parts) ∷ streams)
        room
        (write_sub_sizes (suc (length parts) ∷ streams) (parts ++ (last ∷ later)) ++ rest)
      ≡ ok (parts ++ (last ∷ later), rest)
unfolding fill_sizes write_sub_sizes last_part
fill_folder f fs parts last streams later room rest fits adds unpacks counted ih =
    let left : room - length parts ≡ suc (length later) = omega arith in
    let rem : (unpack_size f + 2 ^ 64 - (0 + sum parts)) % 2 ^ 64 ≡ last = omega arith in
    simp (
      read_parts-write_parts parts last later (write_sub_sizes streams) room 0 rest fits
          (omega arith) (omega arith),
      left,
      rem,
      ih,
    )

pub fill_sizes-write_sub_sizes :
    (folders : List Folder) (streams sizes : List ℕ) (room : ℕ) (rest : Bytes)
    → Splits folders streams sizes
    → length sizes ≡ room
    → fill_sizes folders streams room (write_sub_sizes streams sizes ++ rest) ≡ ok (sizes, rest)
unfolding fill_sizes write_sub_sizes last_part
fill_sizes-write_sub_sizes [] [] sizes room rest h e =
    let z : room ≡ 0 = omega (arith, e, ap length h) in rw (h, z)
fill_sizes-write_sub_sizes [] (n ∷ streams) sizes room rest h e = absurd h
fill_sizes-write_sub_sizes (f ∷ fs) [] sizes room rest h e = absurd h
fill_sizes-write_sub_sizes (f ∷ fs) (zero ∷ streams) sizes room rest h e =
    fill_sizes-write_sub_sizes fs streams sizes room rest h e
fill_sizes-write_sub_sizes (f ∷ fs) (suc n ∷ streams) sizes room rest h e =
    let (parts, last, later, split, counted, fits, adds, unpacks, more) = h in
    let size : length parts + suc (length later) ≡ room =
      omega (arith, length-append parts (last ∷ later), ap length split) in
    rw (split, ← counted)
      (fill_folder f fs parts last streams later room rest fits adds unpacks size
        (fill_sizes-write_sub_sizes fs streams later (length later) rest more refl))

pub length-Splits :
    (folders : List Folder) (streams sizes : List ℕ)
    → Splits folders streams sizes
    → length sizes ≡ sum streams
length-Splits [] [] sizes h = ap length h
length-Splits [] (n ∷ streams) sizes h = absurd h
length-Splits (f ∷ fs) [] sizes h = absurd h
length-Splits (f ∷ fs) (zero ∷ streams) sizes h = omega (arith, length-Splits fs streams sizes h)
length-Splits (f ∷ fs) (suc n ∷ streams) sizes
      (parts, last, later, split, counted, fits, adds, unpacks, more) =
    omega (
      arith,
      ap length split,
      length-append parts (last ∷ later),
      length-Splits fs streams later more,
    )
