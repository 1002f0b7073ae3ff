-- ===== src/Reader/Content/Whole.antt =====
-- The content of a file as File.Open and fileReader.Read (reader.go) deliver it.
use sevenzip.Prelude.{
  length-drop, ◌⊎◌, ℕ, zero, suc, ◌+◌, ◌-◌, ◌^◌, ◌≤◌, ◌<◌, ◌≡◌, refl, ap, ◌∙◌, sym, true, false,
  ◌||◌, List, [], ◌∷◌, ◌++◌, arith, length, All, take, drop, ltb, ◌==◌, dec_lt, Bool-cases, inl,
  inr,
}
use sevenzip.Prelude.Slices.{drop-drop}
use sevenzip.Stream.{Bytes}
use sevenzip.Reader.Content.{
  FolderReader, advance, seek_start, seek, at_place, is_negative, Delivery, least, Status, more,
  ended, FileReader, delivered, has_ended, read_file, read_files, go_on,
}

-- The reader stands behind the first `count` bytes of the content.
pub record IsAt (content : Bytes) (rc : FolderReader) : Type 0 where
  pub rest_of : rc.rest ≡ drop rc.count content
  pub hashed_of : rc.hashed ≡ take rc.count content
  pub inside : rc.count ≤ length content

drop_nil {ℓ} : {A : Type ℓ} (n : ℕ) → drop {A = A} n [] ≡ []
drop_nil zero = refl
drop_nil (suc n) = refl

take_nil {ℓ} : {A : Type ℓ} (n : ℕ) → take {A = A} n [] ≡ []
take_nil zero = refl
take_nil (suc n) = refl

take-take-drop {ℓ} :
    {A : Type ℓ} (m n : ℕ) (xs : List A) → take m xs ++ take n (drop m xs) ≡ take (m + n) xs
take-take-drop zero n xs = ap (λ k. take k xs) (omega arith)
take-take-drop (suc m) n [] = take_nil n ∙ sym (take_nil (suc m + n))
take-take-drop (suc m) n (x ∷ xs) =
    let e : suc (m + n) ≡ suc m + n = omega arith in
    ap (λ t. x ∷ t) (take-take-drop m n xs) ∙ ap (λ k. take k (x ∷ xs)) e

advance-IsAt :
    (content : Bytes) (k : ℕ) (rc : FolderReader)
    → IsAt content rc
    → k ≤ length rc.rest
    → IsAt content (advance k rc)
unfolding advance
advance-IsAt content k rc h le =
    let left : rc.count + length rc.rest ≡ length content =
      ap (λ t. rc.count + length t) h.rest_of ∙ length-drop rc.count content h.inside in
    record {
      rest_of = ap (drop k) h.rest_of ∙ drop-drop rc.count k content;
      hashed_of =
          ap (λ t. t ++ take k rc.rest) h.hashed_of
          ∙ (ap (λ t. take rc.count content ++ take k t) h.rest_of
              ∙ take-take-drop rc.count k content);
      inside = omega (arith, left);
    }

-- Seek forward within the content succeeds, and the counter and the checksum have seen what it passed.
pub seek-IsAt :
    (content : Bytes) (rc : FolderReader) (offset : ℕ)
    → IsAt content rc
    → rc.count ≤ offset
    → offset ≤ length content
    → length content ≤ rc.size
    → rc.size < 2 ^ 63
    → (rc' : FolderReader) × (seek rc offset seek_start ≡ at_place offset rc')
      × IsAt content rc'
      × (rc'.count ≡ offset)
unfolding seek advance
seek-IsAt content rc offset h forward inside sized small =
    let left : rc.count + length rc.rest ≡ length content =
      ap (λ t. rc.count + length t) h.rest_of ∙ length-drop rc.count content h.inside in
    let skipped : ℕ = offset - rc.count in
    let a : is_negative offset ≡ false = ground arith in
    let b : ltb offset rc.count ≡ false = ground arith in
    let c : (is_negative rc.size || ltb rc.size offset) ≡ false = ground arith in
    let d : ltb (length rc.rest) skipped ≡ false = ground arith in
    (
      advance skipped rc,
      rw (a, b, c, d) refl,
      advance-IsAt content skipped rc h (omega (arith, left)),
      omega arith,
    )

-- A decoder that delivers something wherever something is left and asked for.
abbrev pub Progresses : Delivery → Type 0
Progresses delivery =
    (size : ℕ) (rest : Bytes) → 0 < size → 0 < length rest → 0 < delivery.amount size rest

module _ (delivery : Delivery) (progress : Progresses delivery) where
  delivered_some :
      (size : ℕ) (rest : Bytes)
      → 0 < size
      → 0 < length rest
      → (0 < delivered delivery size rest)
        × (delivered delivery size rest ≤ size)
        × (delivered delivery size rest ≤ length rest)
  delivered_some size rest hs hr =
      let some_amount : 0 < delivery.amount size rest = progress size rest hs hr in
      (ground arith, ground arith, ground arith)

  -- While the file has bytes and the folder has as many, a read delivers some of them.
  read_file_more :
      (size : ℕ) (fr : FileReader)
      → 0 < size
      → 0 < fr.n
      → fr.n < 2 ^ 63
      → fr.n ≤ length fr.rc.rest
      → (k : ℕ) × (0 < k)
        × (k ≤ fr.n)
        × ((read_file delivery size fr
              ≡ (take k fr.rc.rest, more, record { rc = advance k fr.rc; n = fr.n - k }))
            ⊎ ((k ≡ fr.n)
                × (read_file delivery size fr
                    ≡ (take k fr.rc.rest, ended, record { rc = advance k fr.rc; n = fr.n - k }))))
  unfolding read_file
  read_file_more size fr hs hn small enough =
      let wanted : ℕ = least fr.n size in
      let wanted_some : 0 < wanted = ground arith in
      let wanted_le : wanted ≤ fr.n = ground arith in
      let (some, le, inside) = delivered_some wanted fr.rc.rest wanted_some (omega arith) in
      let k : ℕ = delivered delivery wanted fr.rc.rest in
      let a : (size == 0) ≡ false = ground arith in
      let b : (fr.n == 0 || is_negative fr.n) ≡ false = ground arith in
      (
        k,
        some,
        omega arith,
        elim (Bool-cases (has_ended delivery wanted fr.rc.rest)) [
          | inl e ↦
              let all : k ≡ length fr.rc.rest = ground arith in
              let last : (fr.n - k == 0) ≡ true = ground arith in
              inr (omega arith, rw (a, b, e, last) refl)
          | inr e ↦ inl (rw (a, b, e) refl)
        ],
      )

  read_files_more :
      (size : ℕ) (sizes : List ℕ) (fr fr' : FileReader) (p q : Bytes)
      → read_file delivery size fr ≡ (p, more, fr')
      → read_files delivery sizes fr' ≡ (q, ended)
      → read_files delivery (size ∷ sizes) fr ≡ (p ++ q, ended)
  unfolding read_files
  read_files_more size sizes fr fr' p q e later =
      ap
        (λ (r : Bytes × Status × FileReader).
          go_on delivery r.0 r.1 (read_files delivery sizes r.2))
        e
      ∙ ap (go_on delivery p more) later

  read_files_ended :
      (size : ℕ) (sizes : List ℕ) (fr fr' : FileReader) (p : Bytes)
      → read_file delivery size fr ≡ (p, ended, fr')
      → read_files delivery (size ∷ sizes) fr ≡ (p, ended)
  unfolding read_files
  read_files_ended size sizes fr fr' p e =
      ap
        (λ (r : Bytes × Status × FileReader).
          go_on delivery r.0 r.1 (read_files delivery sizes r.2))
        e

  read_file_none :
      (size : ℕ) (fr : FileReader)
      → 0 < size
      → fr.n ≡ 0
      → read_file delivery size fr ≡ ([], ended, fr)
  unfolding read_file
  read_file_none size fr hs e =
      let a : (size == 0) ≡ false = ground arith in
      let b : (fr.n == 0 || is_negative fr.n) ≡ true = ground arith in rw (a, b) refl

  -- Reading until the end gives the next n bytes of the folder, in whatever pieces they come.
  read_files_rest :
      (sizes : List ℕ) (fr : FileReader)
      → All (λ size. 0 < size) sizes
      → fr.n < length sizes
      → fr.n < 2 ^ 63
      → fr.n ≤ length fr.rc.rest
      → read_files delivery sizes fr ≡ (take fr.n fr.rc.rest, ended)
  unfolding advance
  read_files_rest [] fr hs long small enough = absurd (omega arith)
  read_files_rest (size ∷ sizes) fr (hs, later) long small enough = elim (dec_lt 0 fr.n) [
    | no none ↦
        let zero_left : fr.n ≡ 0 = omega arith in
        read_files_ended size sizes fr fr [] (read_file_none size fr hs zero_left)
        ∙ ap (λ n. (take n fr.rc.rest, ended)) (sym zero_left)
    | yes some ↦
        let (k, has_k, le, step) = read_file_more size fr hs some small enough in
        elim step [
          | inl e ↦
              let rest : read_files delivery sizes (record { rc = advance k fr.rc; n = fr.n - k })
                  ≡ (take (fr.n - k) (drop k fr.rc.rest), ended) =
                read_files_rest sizes (record { rc = advance k fr.rc; n = fr.n - k }) later
                  (omega arith) (omega arith)
                  (omega (arith, length-drop k fr.rc.rest (omega arith))) in
              let whole : k + (fr.n - k) ≡ fr.n = omega arith in
              read_files_more size sizes fr _ (take k fr.rc.rest) _ e rest
              ∙ ap (λ t. (t, ended))
                  (take-take-drop k (fr.n - k) fr.rc.rest ∙ ap (λ n. take n fr.rc.rest) whole)
          | inr (last, e) ↦
              read_files_ended size sizes fr _ (take k fr.rc.rest) e
              ∙ ap (λ n. (take n fr.rc.rest, ended)) last
        ]
  ]

-- A file that lies in the content of its folder is delivered whole: from a reader of the folder that
-- does not stand behind the file's offset, Seek to the offset succeeds, and reads into buffers that are
-- not empty, more of them than the file has bytes, give the file's bytes and then the end, however the
-- decoder below cuts what it delivers.
pub read_files-seek :
    (delivery : Delivery) (content : Bytes) (rc : FolderReader) (offset n : ℕ) (sizes : List ℕ)
    → Progresses delivery
    → IsAt content rc
    → rc.count ≤ offset
    → offset + n ≤ length content
    → length content ≤ rc.size
    → rc.size < 2 ^ 63
    → All (λ size. 0 < size) sizes
    → n < length sizes
    → (rc' : FolderReader) × (seek rc offset seek_start ≡ at_place offset rc')
      × (read_files delivery sizes (record { rc = rc'; n = n })
          ≡ (take n (drop offset content), ended))
read_files-seek delivery content rc offset n sizes progress here forward inside sized small hs
      long =
    let (rc', sought, there, counted) =
      seek-IsAt content rc offset here forward (omega arith) sized small in
    let rest : rc'.rest ≡ drop offset content = there.rest_of ∙ ap (λ k. drop k content) counted in
    (
      rc',
      sought,
      read_files_rest delivery progress sizes (record { rc = rc'; n = n }) hs long (omega arith)
            (omega (arith, ap length rest, length-drop offset content (omega arith)))
          ∙ ap (λ t. (take n t, ended)) rest,
    )
