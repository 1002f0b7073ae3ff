-- ===== src/Files/Read/Rounds.antt =====
-- The rounds of the loop of readFilesInfo (types.go).
use sevenzip.Prelude.{
  ◌+◌, ◌%◌, ◌^◌, ℕ, zero, suc, ◌≤◌, ◌<◌, ◌≡◌, refl, Bool, true, false, List, [], ◌∷◌, length, take,
  drop, arith, ◌==◌, ltb, Bool-cases, inl, inr,
}
use sevenzip.PropertyId
use sevenzip.Stream.{
  Parser, Bytes, Result, ok, err, bind, read_byte, unexpected_id, todo, wrong_number_of_filenames,
}
use sevenzip.Number.{read_uint64}
use sevenzip.Vectors.Shrinks.{
  LeavesAtMost, Shrinks, Shrinks-pure, Shrinks-fail, Shrinks-if, Shrinks->>=, Shrinks-with_result,
  Shrinks-read_byte, Shrinks-read_le, Shrinks-guard, Shrinks-check_uint64, Shrinks-read_uint64,
  Shrinks-read_bool, Shrinks-read_optional_bool, Shrinks-read_defined,
}
use sevenzip.Files.{
  Libraries, FileHeader, read_time, read_times, read_defined_times, read_names, read_attributes,
  scan, limit,
}
use sevenzip.Files.Read.{
  FilesState, read_property, read_round, read_all_properties, with_files, skip, read_empty_files,
  read_empty_streams, read_time_property, read_names_property, read_attributes_property,
  set_empty_streams, count_empty,
}

length-drop : (n : ℕ) (s : Bytes) → length (drop n s) ≤ length s
length-drop zero s = omega arith
length-drop (suc n) [] = omega arith
length-drop (suc n) (b ∷ s) = omega (arith, length-drop n s)

LeavesAtMost-result {ℓ} :
    {A : Type ℓ} (n : ℕ) (r : Result A) (rest : Bytes)
    → length rest ≤ n
    → LeavesAtMost n (bind r (λ a. ok (a, rest)))
LeavesAtMost-result n (ok a) rest h = h
LeavesAtMost-result n (err e) rest h = tt

module _ (lib : Libraries) where
  Shrinks-read_defined_times : (defined : List Bool) → Shrinks (read_defined_times lib defined)
  unfolding read_defined_times read_time
  Shrinks-read_defined_times [] = Shrinks-pure []
  Shrinks-read_defined_times (true ∷ defined) =
      Shrinks->>= (read_time lib) _
        (Shrinks->>= _ _ (Shrinks-read_le 4)
          λ low. Shrinks->>= _ _ (Shrinks-read_le 4) λ high. Shrinks-pure _)
        λ t. Shrinks->>= _ _ (Shrinks-read_defined_times defined) λ ts. Shrinks-pure _
  Shrinks-read_defined_times (false ∷ defined) =
      Shrinks->>= _ _ (Shrinks-read_defined_times defined) λ ts. Shrinks-pure _

  Shrinks-read_times : (count : ℕ) → Shrinks (read_times lib count)
  unfolding read_times
  Shrinks-read_times count = Shrinks->>= _ _ (Shrinks-check_uint64 count true) λ u.
      Shrinks->>= _ _ (Shrinks-read_optional_bool count) λ defined.
        Shrinks->>= _ _ Shrinks-read_byte λ external.
          Shrinks->>= _ _ (Shrinks-guard (external == 0) todo)
            λ v. Shrinks-read_defined_times defined

  Shrinks-read_names : (count size : ℕ) → Shrinks (read_names lib count size)
  unfolding read_names
  Shrinks-read_names count size = Shrinks->>= _ _ (Shrinks-check_uint64 count true) λ u.
      Shrinks->>= _ _ Shrinks-read_byte λ external.
        Shrinks->>= _ _ (Shrinks-guard (external == 0) todo) λ v. Shrinks->>= _ _ names λ ts.
          Shrinks->>= _ _ (Shrinks-guard (length ts == count) wrong_number_of_filenames)
            λ w. Shrinks-pure ts
    where
      names : Shrinks (λ s.
          let text = lib.decode (take (limit size) s) in
          bind (scan (length text) text) (λ ts. ok (ts, drop (limit size) s)))
      names = record {
        leaves = λ s.
            LeavesAtMost-result (length s) (scan _ (lib.decode (take (limit size) s)))
              (drop (limit size) s) (length-drop (limit size) s);
      }

Shrinks-read_attributes : (count : ℕ) → Shrinks (read_attributes count)
unfolding read_attributes
Shrinks-read_attributes count = Shrinks->>= _ _ (Shrinks-check_uint64 count true) λ u.
    Shrinks->>= _ _ (Shrinks-read_optional_bool count) λ defined.
      Shrinks->>= _ _ Shrinks-read_byte λ external.
        Shrinks->>= _ _ (Shrinks-guard (external == 0) todo) λ v. Shrinks-read_defined 4 defined

Shrinks-with_files :
    (st : FilesState) (files : Result (List FileHeader)) → Shrinks (with_files st files)
Shrinks-with_files st files = Shrinks-with_result files (λ fs. record st { file = fs })

Shrinks-skip : (size : ℕ) → Shrinks (skip size)
unfolding skip
Shrinks-skip size = record {
  leaves = λ s. elim (Bool-cases (ltb size (2 ^ 63))) [
    | inr e ↦ rw (e) (omega arith)
    | inl e ↦ elim (Bool-cases (ltb (length s) size)) [
      | inl f ↦ rw (e, f) tt
      | inr f ↦ rw (e, f) (length-drop size s)
    ]
  ];
}

module _ (lib : Libraries) (files : ℕ) where
  Shrinks-read_empty_streams : (st : FilesState) → Shrinks (read_empty_streams lib files st)
  unfolding read_empty_streams
  Shrinks-read_empty_streams st = Shrinks->>= _ _ (Shrinks-read_bool files) λ empty.
      Shrinks-with_result (set_empty_streams st.file empty)
        λ fs. record { file = fs; empty_streams = (st.empty_streams + count_empty fs) % 2 ^ 64 }

  Shrinks-read_empty_files : (st : FilesState) → Shrinks (read_empty_files lib files st)
  unfolding read_empty_files
  Shrinks-read_empty_files st =
      Shrinks->>= _ _ (Shrinks-read_bool st.empty_streams) λ empty. Shrinks-with_files st _

  Shrinks-read_time_property :
      (set : ℕ → FileHeader → FileHeader) (st : FilesState)
      → Shrinks (read_time_property lib files set st)
  unfolding read_time_property
  Shrinks-read_time_property set st =
      Shrinks->>= _ _ (Shrinks-read_times lib files) λ times. Shrinks-with_files st _

  Shrinks-read_names_property :
      (size : ℕ) (st : FilesState) → Shrinks (read_names_property lib files size st)
  unfolding read_names_property
  Shrinks-read_names_property size st =
      Shrinks->>= _ _ (Shrinks-read_names lib files size) λ names. Shrinks-with_files st _

  Shrinks-read_attributes_property :
      (st : FilesState) → Shrinks (read_attributes_property lib files st)
  unfolding read_attributes_property
  Shrinks-read_attributes_property st =
      Shrinks->>= _ _ (Shrinks-read_attributes files) λ attributes. Shrinks-with_files st _

  Shrinks-read_property :
      (property size : ℕ) (st : FilesState) → Shrinks (read_property lib files property size st)
  unfolding read_property
  Shrinks-read_property property size st =
      Shrinks-if (property == PropertyId.empty_stream) _ _ (Shrinks-read_empty_streams st) (
        Shrinks-if (property == PropertyId.empty_file) _ _ (Shrinks-read_empty_files st) (
          Shrinks-if (property == PropertyId.ctime) _ _ (Shrinks-read_time_property _ st) (
            Shrinks-if (property == PropertyId.atime) _ _ (Shrinks-read_time_property _ st) (
              Shrinks-if (property == PropertyId.mtime) _ _ (Shrinks-read_time_property _ st) (
                Shrinks-if (property == PropertyId.name) _ _ (Shrinks-read_names_property size st) (
                  Shrinks-if (property == PropertyId.win_attributes) _ _
                    (Shrinks-read_attributes_property st)
                    (Shrinks-if (property == PropertyId.start_pos) _ _ (Shrinks-fail todo) (
                      Shrinks-if (property == PropertyId.dummy) _ _
                        (Shrinks->>= _ _ (Shrinks-skip size) λ u. Shrinks-pure st)
                        (Shrinks-fail unexpected_id)))))))))

bind_ext {ℓ κ} :
    {A : Type ℓ} {B : Type κ} (n : ℕ) (r : Result (A × Bytes)) (f g : A × Bytes → Result B)
    → LeavesAtMost n r
    → ((a : A) (rest : Bytes) → length rest ≤ n → f (a, rest) ≡ g (a, rest))
    → bind r f ≡ bind r g
bind_ext n (ok (a, rest)) f g h same = same a rest h
bind_ext n (err e) f g h same = refl

module _ (lib : Libraries) (files : ℕ) where
  -- Two continuations that agree on what is shorter than the source.
  read_round_ext :
      (st : FilesState) (more other : FilesState → Parser (List FileHeader)) (s : Bytes)
      → ((st' : FilesState) (rest : Bytes)
          → length rest < length s
          → more st' rest ≡ other st' rest)
      → read_round lib files st more s ≡ read_round lib files st other s
  unfolding read_byte
  read_round_ext st more other [] same = refl
  read_round_ext st more other (property ∷ s) same =
      elim (Bool-cases (property == PropertyId.end)) [
        | inl e ↦ rw (e) refl
        | inr e ↦ rw (e) (
            bind_ext (length s) (read_uint64 s) _ _ (Shrinks-read_uint64.leaves s) λ size left le.
              bind_ext (length left) (read_property lib files property size st left) _ _
                ((Shrinks-read_property lib files property size st).leaves left)
                λ st' rest le'. same st' rest (omega arith))
      ]

  read_properties_more :
      (n m : ℕ) (st : FilesState) (s : Bytes)
      → length s ≤ n
      → length s ≤ m
      → read_all_properties lib files n st s ≡ read_all_properties lib files m st s
  unfolding read_all_properties read_byte
  read_properties_more zero zero st s hn hm = refl
  read_properties_more zero (suc m) st [] hn hm = refl
  read_properties_more zero (suc m) st (b ∷ s) hn hm = absurd (omega arith)
  read_properties_more (suc n) zero st [] hn hm = refl
  read_properties_more (suc n) zero st (b ∷ s) hn hm = absurd (omega arith)
  read_properties_more (suc n) (suc m) st s hn hm =
      read_round_ext st _ _ s
        λ st' rest lt. read_properties_more n m st' rest (omega arith) (omega arith)

  -- The bound on the rounds is none: with a round for each byte that is left, the loop is one round
  -- of readFilesInfo and then the loop on what that round leaves, bounded by what is left then.
  pub read_all_properties-read_round :
      (st : FilesState) (s : Bytes)
      → read_all_properties lib files (length s) st s
        ≡ read_round lib files st
            (λ st' rest. read_all_properties lib files (length rest) st' rest)
            s
  unfolding read_all_properties read_byte
  read_all_properties-read_round st [] = refl
  read_all_properties-read_round st (b ∷ s) = read_round_ext st _ _ (b ∷ s) λ st' rest lt.
      read_properties_more (length s) (length rest) st' rest (omega arith) (omega arith)
