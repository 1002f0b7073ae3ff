-- ===== src/Lookup/Laws.antt =====
-- FileFolderAndSize (struct.go): the folder of a file, and a file number out of range.
use sevenzip.Prelude.{
  get_elem?_beyond, ℕ, suc, ◌+◌, ◌%◌, ◌^◌, ◌≤◌, ◌<◌, ◌≡◌, refl, some, List, [], ◌∷◌, arith, length,
  get_elem?, take, ltb, dec_lt, lt→ltb, false,
}
use sevenzip.Stream.{err, panic}
use sevenzip.Sections.{length-nonempty}
use sevenzip.Number.{max_uint32}
use sevenzip.SubStreams.{SubStreamsInfo}
use sevenzip.SubStreams.Sizes.{sum}
use sevenzip.Streams.{StreamsInfo}
use sevenzip.Lookup.{at, locate, sub_stream_of, file_folder_and_size}

-- The files before the folder i, and those of the folder itself.
abbrev pub Contains : List ℕ → ℕ → ℕ × ℕ → Type 0
Contains streams file (i, n) =
    (get_elem? streams i ≡ some n)
    × (sum (take i streams) ≤ file)
    × (file < sum (take i streams) + n)

-- The loop from folder `start` on, with `total` files before it.
Located : List ℕ → (start total file : ℕ) → ℕ × ℕ → Type 0
Located streams start total file (i, n) =
    (k : ℕ) × (i ≡ start + k)
    × (get_elem? streams k ≡ some n)
    × (total + sum (take k streams) ≤ file)
    × (file < total + sum (take k streams) + n)

locate-Located :
    (streams : List ℕ) (start total file : ℕ) (found : ℕ × ℕ)
    → total + sum streams < 2 ^ 64
    → total ≤ file
    → file < total + sum streams
    → Located streams start total file (locate streams start total file found)
unfolding Located locate
locate-Located [] start total file found fits le lt = absurd (omega arith)
locate-Located (n ∷ streams) start total file found fits le lt =
    let e : (total + n) % 2 ^ 64 ≡ total + n = omega arith in
    elim (dec_lt file (total + n)) [
      | yes inside ↦
          rw (e, lt→ltb file (total + n) inside) (0, omega arith, refl, omega arith, omega arith)
      | no outside ↦
          let further : ltb file (total + n) ≡ false = ground arith in
          let (k, at_k, entry, lo, hi) =
            locate-Located streams (start + 1) (total + n) file (start, n) (omega arith)
              (omega arith) (omega arith) in
          rw (e, further) (suc k, omega arith, entry, omega arith, omega arith)
    ]

-- The folder that FileFolderAndSize finds for a file of the archive is the one that holds it: the
-- files of the folders before it are at most the file's number, and with the folder's own they exceed
-- it.
pub locate-Contains :
    (streams : List ℕ) (file : ℕ)
    → sum streams ≤ max_uint32
    → file < sum streams
    → Contains streams file (locate streams 0 0 file (0, 1))
unfolding Located
locate-Contains streams file fits lt =
    let (k, at_k, entry, lo, hi) =
      locate-Located streams 0 0 file (0, 1) (omega arith) (omega arith) (omega arith) in
    let here : (locate streams 0 0 file (0, 1)).0 ≡ k = omega (arith, at_k) in
    rw (here) (entry, omega arith, omega arith)

at_beyond {ℓ} : {A : Type ℓ} (xs : List A) (i : ℕ) → length xs ≤ i → at xs i ≡ err panic
at_beyond xs i h = rw (get_elem?_beyond xs i h, at) refl

-- A number beyond the checksums makes FileFolderAndSize panic, where there are checksums.
pub file_folder_and_size_panic :
    (si : StreamsInfo) (sub : SubStreamsInfo) (file : ℕ)
    → si.sub_streams_info ≡ some sub
    → 0 < length sub.digest
    → length sub.digest ≤ file
    → file_folder_and_size si file ≡ err panic
unfolding file_folder_and_size sub_stream_of
file_folder_and_size_panic si sub file e some_digest beyond =
    rw (e, length-nonempty sub.digest some_digest, at_beyond sub.digest file beyond) refl
