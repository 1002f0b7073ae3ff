-- ===== src/Folder.antt =====
-- struct.go (bindPair, folder, findInBindPair, findOutBindPair, unpackSize), types.go (readFolder) and
-- write_struct.go (writeFolder): the coders of one packed block and the wiring between them.
pub mod RoundTrip
use sevenzip.Prelude.{
  ℕ, zero, suc, ◌+◌, ◌-◌, ◌%◌, ◌^◌, Bool, true, false, Option, none, some, List, [], ◌∷◌, ◌++◌,
  length, map, ltb, ◌==◌, if◌then◌else◌, get_elem?,
}
use sevenzip.Stream.{Parser, Bytes, Grant, ◌>>=◌, ◌>>◌, pure, guard, invalid_bind_pair}
use sevenzip.Number.{check_uint64, read_uint64_bounded, write_uint64}
use sevenzip.Vectors.{read_numbers, write_sizes}
use sevenzip.Coder.{Coder, read_coder, write_coder}

pub record BindPair : Type 0 where
  pub in_index : ℕ
  pub out_index : ℕ

pub record Folder : Type 0 where
  pub in_streams : ℕ
  pub out_streams : ℕ
  pub packed_streams : ℕ
  pub coder : List Coder
  pub bind_pair : List BindPair
  pub size : List ℕ
  pub packed : List ℕ

unfoldable pub find_in_bind_pair : List BindPair → ℕ → Option BindPair
find_in_bind_pair [] i = none
find_in_bind_pair (v ∷ pairs) i = if v.in_index == i then some v else find_in_bind_pair pairs i

unfoldable pub find_out_bind_pair : List BindPair → ℕ → Option BindPair
find_out_bind_pair [] i = none
find_out_bind_pair (v ∷ pairs) i = if v.out_index == i then some v else find_out_bind_pair pairs i

abbrev pub is_nil {ℓ} : {A : Type ℓ} → Option A → Bool
is_nil none = true
is_nil (some a) = false

-- The loop of unpackSize, over the first n sizes from the last of them down. `last` is what the
-- code returns after the loop.
unfoldable pub last_unbound : List BindPair → List ℕ → (n last : ℕ) → ℕ
last_unbound pairs sizes zero last = last
last_unbound pairs sizes (suc i) last =
    let below = last_unbound pairs sizes i last in
    elim (get_elem? sizes i) [
      | none ↦ last
      | some s ↦ if is_nil (find_out_bind_pair pairs i) then s else below
    ]

unfoldable pub unpack_size : Folder → ℕ
unpack_size f = elim (get_elem? f.size (length f.size - 1)) [
  | none ↦ 0
  | some last ↦ last_unbound f.bind_pair f.size (length f.size) last
]

-- A running total of uint64s.
unfoldable pub total_from : ℕ → List ℕ → ℕ
total_from acc [] = acc
total_from acc (x ∷ xs) = total_from ((acc + x) % 2 ^ 64) xs

abbrev pub in_counts : List Coder → List ℕ
in_counts coders = map (λ c. c.in_streams) coders

abbrev pub out_counts : List Coder → List ℕ
out_counts coders = map (λ c. c.out_streams) coders

unfoldable pub read_coders : Grant → ℕ → Parser (List Coder)
read_coders grant zero = pure []
read_coders grant (suc n) = do c ← read_coder grant; cs ← read_coders grant n; pure (c ∷ cs)

unfoldable pub read_bind_pairs : ℕ → Parser (List BindPair)
read_bind_pairs zero = pure []
read_bind_pairs (suc n) = do
  in_index ← read_uint64_bounded false
  out_index ← read_uint64_bounded false
  pairs ← read_bind_pairs n
  pure (record { in_index = in_index; out_index = out_index } ∷ pairs)

-- The inputs that no bind pair feeds, of the n inputs from i on.
unfoldable pub unbound_inputs : List BindPair → (n i : ℕ) → List ℕ
unbound_inputs pairs zero i = []
unbound_inputs pairs (suc n) i =
    let later = unbound_inputs pairs n (i + 1) in
    if is_nil (find_in_bind_pair pairs i) then i ∷ later else later

unfoldable pub read_packed : (packed_streams in_streams : ℕ) → List BindPair → Parser (List ℕ)
read_packed packed_streams in_streams pairs =
    if packed_streams == 1
    then pure (unbound_inputs pairs in_streams 0)
    else read_numbers packed_streams

unfoldable pub read_folder : Grant → Parser Folder
read_folder grant = do
  coders ← read_uint64_bounded true
  coder ← read_coders grant coders
  let in_streams = total_from 0 (in_counts coder)
  let out_streams = total_from 0 (out_counts coder)
  check_uint64 in_streams true
  check_uint64 out_streams true
  guard (if ltb in_streams out_streams then false else true) invalid_bind_pair
  let bind_pairs = out_streams - 1
  pairs ← read_bind_pairs bind_pairs
  let packed_streams = in_streams - bind_pairs
  packed ← read_packed packed_streams in_streams pairs
  pure (record {
    in_streams = in_streams;
    out_streams = out_streams;
    packed_streams = packed_streams;
    coder = coder;
    bind_pair = pairs;
    size = [];
    packed = packed;
  })

unfoldable pub write_coders : List Coder → Bytes
write_coders [] = []
write_coders (c ∷ cs) = write_coder c ++ write_coders cs

unfoldable pub write_bind_pairs : List BindPair → Bytes
write_bind_pairs [] = []
write_bind_pairs (bp ∷ pairs) =
    write_uint64 bp.in_index ++ (write_uint64 bp.out_index ++ write_bind_pairs pairs)

unfoldable pub write_folder : Folder → Bytes
write_folder f =
    write_uint64 (length f.coder)
    ++ (write_coders f.coder
        ++ (write_bind_pairs f.bind_pair
            ++ (if ltb 1 f.packed_streams then write_sizes f.packed else [])))
