-- ===== src/Folder/RoundTrip.antt =====
-- The round trip of readFolder (types.go) and writeFolder (write_struct.go).
use sevenzip.Prelude.{
  ℕ, ◌-◌, ◌≤◌, ◌<◌, ◌≡◌, refl, sym, ap, false, List, [], ◌∷◌, ◌++◌, append_assoc, arith, length,
  All, inl, inr, ◌==◌, ltb, lt→ltb, if◌then◌else◌, Bool-cases,
}
use sevenzip.Stream.{Bytes, Grant, FillsBuffer, ok}
use sevenzip.Number.{IsU64, max_uint32, read_uint64_bounded, write_uint64}
use sevenzip.Number.RoundTrip.{read_uint64-write_uint64}
use sevenzip.Vectors.{IsCount, write_sizes}
use sevenzip.Vectors.RoundTrip.{check_uint64-IsCount, check_uint64-le, read_numbers-write_sizes}
use sevenzip.Pack.RoundTrip.{read_uint64_bounded-write_uint64}
use sevenzip.Coder.{Coder}
use sevenzip.Coder.RoundTrip.{IsCoder, read_coder-write_coder}
use sevenzip.Folder.{
  BindPair, Folder, in_counts, out_counts, total_from, read_coders, read_bind_pairs, unbound_inputs,
  read_packed, read_folder, write_coders, write_bind_pairs, write_folder,
}

abbrev pub IsBindPair : BindPair → Type 0
IsBindPair bp = (bp.in_index ≤ max_uint32) × (bp.out_index ≤ max_uint32)

-- The folder's counts agree with its coders, pairs and packed inputs, as the reader makes them.
pub record IsFolder (f : Folder) : Type 0 where
  pub coder_count : IsCount (length f.coder)
  pub coder_fits : All IsCoder f.coder
  pub in_total : total_from 0 (in_counts f.coder) ≡ f.in_streams
  pub out_total : total_from 0 (out_counts f.coder) ≡ f.out_streams
  pub in_count : IsCount f.in_streams
  pub out_count : IsCount f.out_streams
  pub enough_inputs : f.out_streams ≤ f.in_streams
  pub pair_count : length f.bind_pair ≡ f.out_streams - 1
  pub pair_fits : All IsBindPair f.bind_pair
  pub packed_total : f.packed_streams ≡ f.in_streams - (f.out_streams - 1)
  pub packed_one : f.packed_streams ≡ 1 → f.packed ≡ unbound_inputs f.bind_pair f.in_streams 0
  pub packed_many : 1 < f.packed_streams → length f.packed ≡ f.packed_streams
  pub packed_fits : All IsU64 f.packed

read_coders-write_coders :
    (grant : Grant) (coders : List Coder) (rest : Bytes)
    → FillsBuffer grant
    → All IsCoder coders
    → read_coders grant (length coders) (write_coders coders ++ rest) ≡ ok (coders, rest)
unfolding read_coders write_coders
read_coders-write_coders grant [] rest fills h = refl
read_coders-write_coders grant (c ∷ cs) rest fills (hc, h) = simp (
  append_assoc,
  read_coder-write_coder grant c _ fills hc,
  read_coders-write_coders grant cs rest fills h,
)

read_index :
    (v : ℕ) (rest : Bytes)
    → v ≤ max_uint32
    → read_uint64_bounded false (write_uint64 v ++ rest) ≡ ok (v, rest)
unfolding read_uint64_bounded
read_index v rest h = rw (read_uint64-write_uint64 v rest (omega arith), check_uint64-le v rest h)

read_bind_pairs-write_bind_pairs :
    (pairs : List BindPair) (rest : Bytes)
    → All IsBindPair pairs
    → read_bind_pairs (length pairs) (write_bind_pairs pairs ++ rest) ≡ ok (pairs, rest)
unfolding read_bind_pairs write_bind_pairs
read_bind_pairs-write_bind_pairs [] rest h = refl
read_bind_pairs-write_bind_pairs (bp ∷ pairs) rest ((hi, ho), h) = simp (
  append_assoc,
  read_index bp.in_index _ hi,
  read_index bp.out_index _ ho,
  read_bind_pairs-write_bind_pairs pairs rest h,
)

packed_part :
    (f : Folder) (rest : Bytes)
    → IsFolder f
    → read_packed f.packed_streams f.in_streams f.bind_pair
        ((if ltb 1 f.packed_streams then write_sizes f.packed else []) ++ rest)
      ≡ ok (f.packed, rest)
unfolding read_packed
packed_part f rest h = elim (Bool-cases (f.packed_streams == 1)) [
  | inl one ↦
      let e : f.packed_streams ≡ 1 = ground arith in
      let short : ltb 1 f.packed_streams ≡ false = ground arith in
      rw (one, short) (ap (λ p. ok (p, rest)) (sym (h.packed_one e)))
  | inr many ↦
      let e : 1 < f.packed_streams = ground (arith, h.packed_total, h.out_count, h.enough_inputs) in
      rw (many, lt→ltb 1 f.packed_streams e)
        (rw (h.packed_many e) at (read_numbers-write_sizes f.packed rest h.packed_fits))
]

pairs_part :
    (f : Folder) (rest : Bytes)
    → IsFolder f
    → read_bind_pairs (f.out_streams - 1) (write_bind_pairs f.bind_pair ++ rest)
      ≡ ok (f.bind_pair, rest)
pairs_part f rest h =
    rw h.pair_count at (read_bind_pairs-write_bind_pairs f.bind_pair rest h.pair_fits)

-- readFolder gives back the folder that writeFolder wrote, but for its sizes, which stand later in
-- the header.
pub read_folder-write_folder :
    (grant : Grant) (f : Folder) (rest : Bytes)
    → FillsBuffer grant
    → IsFolder f
    → read_folder grant (write_folder f ++ rest) ≡ ok (record f { size = [] }, rest)
unfolding read_folder write_folder
read_folder-write_folder grant f rest fills h =
    let inputs : ltb f.in_streams f.out_streams ≡ false = ground (arith, h.enough_inputs) in
    simp (
      append_assoc,
      read_uint64_bounded-write_uint64 (length f.coder) _ h.coder_count,
      read_coders-write_coders grant f.coder _ fills h.coder_fits,
      h.in_total,
      h.out_total,
      check_uint64-IsCount f.in_streams _ h.in_count,
      check_uint64-IsCount f.out_streams _ h.out_count,
      inputs,
      pairs_part f _ h,
      ← h.packed_total,
      packed_part f rest h,
    )
