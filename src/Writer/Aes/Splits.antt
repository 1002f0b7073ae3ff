-- ===== src/Writer/Aes/Splits.antt =====
-- The output of aesWriter (writer.go) and the calls of Write that its input comes in.
use sevenzip.Prelude.{
  ℕ, zero, suc, ◌+◌, ◌-◌, ◌/◌, ◌%◌, ◌≤◌, ◌<◌, ◌≡◌, refl, ap, ◌∙◌, sym, true, false, List, [], ◌∷◌,
  ◌++◌, append_assoc, append-nil, arith, length, length-append, take, drop, replicate,
  length-replicate, ltb, dec_lt,
}
use sevenzip.Stream.{Bytes}
use sevenzip.Writer.Aes.{AesWriter, aes_block, aes_blocks, aes_write, aes_close, new_aes_writer}

module _ {ℓ} {Mode : Type ℓ} (crypt : Mode → Bytes → Bytes × Mode) where
  abbrev pub write_all : AesWriter Mode → List Bytes → AesWriter Mode
  write_all aw [] = aw
  write_all aw (p ∷ ps) = write_all (aes_write crypt aw p) ps

  abbrev pub joined : List Bytes → Bytes
  joined [] = []
  joined (p ∷ ps) = p ++ joined ps

take_some : (n : ℕ) (s q : Bytes) → n ≤ length s → take n (s ++ q) ≡ take n s
take_some zero s q h = refl
take_some (suc n) [] q h = absurd (omega arith)
take_some (suc n) (b ∷ s) q h = ap (λ r. b ∷ r) (take_some n s q (omega arith))

drop_some : (n : ℕ) (s q : Bytes) → n ≤ length s → drop n (s ++ q) ≡ drop n s ++ q
drop_some zero s q h = refl
drop_some (suc n) [] q h = absurd (omega arith)
drop_some (suc n) (b ∷ s) q h = drop_some n s q (omega arith)

take_all : (n : ℕ) (s : Bytes) → length s ≡ n → take n s ≡ s
take_all zero [] h = refl
take_all zero (b ∷ s) h = absurd (omega arith)
take_all (suc n) [] h = refl
take_all (suc n) (b ∷ s) h = ap (λ r. b ∷ r) (take_all n s (omega arith))

drop_all : (n : ℕ) (s : Bytes) → length s ≡ n → drop n s ≡ []
drop_all zero [] h = refl
drop_all zero (b ∷ s) h = absurd (omega arith)
drop_all (suc n) [] h = refl
drop_all (suc n) (b ∷ s) h = drop_all n s (omega arith)

length-drop : (n : ℕ) (s : Bytes) → length (drop n s) ≡ length s - n
length-drop zero s = omega arith
length-drop (suc n) [] = omega arith
length-drop (suc n) (b ∷ s) = omega (arith, length-drop n s)

module _ {ℓ} {Mode : Type ℓ} (crypt : Mode → Bytes → Bytes × Mode) where
  aes_blocks_more :
      (n m : ℕ) (aw : AesWriter Mode)
      → length aw.buf ≤ n
      → length aw.buf ≤ m
      → aes_blocks crypt n aw ≡ aes_blocks crypt m aw
  unfolding aes_blocks aes_block
  aes_blocks_more zero zero aw hn hm = refl
  aes_blocks_more zero (suc m) aw hn hm = ground arith
  aes_blocks_more (suc n) zero aw hn hm = ground arith
  aes_blocks_more (suc n) (suc m) aw hn hm =
      let left = length-drop 16 aw.buf in
      let rest = aes_blocks_more n m (aes_block crypt aw (take 16 aw.buf) (drop 16 aw.buf)) in
      ground (arith, rest)

  -- A block of a buffer that goes on.
  aes_block-append :
      (aw : AesWriter Mode) (q : Bytes)
      → 16 ≤ length aw.buf
      → let aw' = record aw { buf = aw.buf ++ q } in
        aes_block crypt aw' (take 16 aw'.buf) (drop 16 aw'.buf)
        ≡ record (aes_block crypt aw (take 16 aw.buf) (drop 16 aw.buf)) {
          buf = drop 16 aw.buf ++ q;
        }
  unfolding aes_block
  aes_block-append aw q h = simp (take_some 16 aw.buf q h, drop_some 16 aw.buf q h) refl

  blocks_end : (n : ℕ) (aw : AesWriter Mode) → length aw.buf < 16 → aes_blocks crypt n aw ≡ aw
  unfolding aes_blocks
  blocks_end zero aw h = refl
  blocks_end (suc n) aw h = ground arith

  blocks_next :
      (n : ℕ) (aw : AesWriter Mode)
      → 16 ≤ length aw.buf
      → aes_blocks crypt (suc n) aw
        ≡ aes_blocks crypt n (aes_block crypt aw (take 16 aw.buf) (drop 16 aw.buf))
  unfolding aes_blocks
  blocks_next n aw h = ground arith

  -- What comes later does not change the blocks that are complete.
  aes_blocks-append :
      (n m : ℕ) (aw : AesWriter Mode) (q : Bytes)
      → length aw.buf ≤ n
      → length aw.buf + length q ≤ m
      → aes_blocks crypt m (record aw { buf = aw.buf ++ q })
        ≡ aes_write crypt (aes_blocks crypt n aw) q
  unfolding aes_write aes_block aes_blocks
  aes_blocks-append zero m aw q hn hm =
      aes_blocks_more m _ (record aw { buf = aw.buf ++ q }) (omega (arith, length-append aw.buf q))
        (omega arith)
  aes_blocks-append (suc n) zero aw q hn hm = elim (dec_lt (length aw.buf) 16) [
    | yes few ↦ simp (blocks_end (suc n) aw few) (
        aes_blocks_more zero _ (record aw { buf = aw.buf ++ q })
          (omega (arith, length-append aw.buf q)) (omega arith))
    | no many ↦ absurd (omega arith)
  ]
  aes_blocks-append (suc n) (suc m) aw q hn hm = elim (dec_lt (length aw.buf) 16) [
    | yes few ↦ simp (blocks_end (suc n) aw few) (
        aes_blocks_more (suc m) _ (record aw { buf = aw.buf ++ q })
          (omega (arith, length-append aw.buf q)) (omega arith))
    | no many ↦
        let block = aes_block crypt aw (take 16 aw.buf) (drop 16 aw.buf) in
        let left = length-drop 16 aw.buf in
        blocks_next m (record aw { buf = aw.buf ++ q }) (omega (arith, length-append aw.buf q))
        ∙ (ap (aes_blocks crypt m) (aes_block-append aw q (omega arith))
            ∙ (aes_blocks-append n m block q (omega arith) (omega arith)
                ∙ ap (λ w. aes_write crypt w q) (sym (blocks_next n aw (omega arith)))))
  ]

  aes_write-aes_write :
      (aw : AesWriter Mode) (p q : Bytes)
      → aes_write crypt (aes_write crypt aw p) q ≡ aes_write crypt aw (p ++ q)
  unfolding aes_write
  aes_write-aes_write aw p q =
      let whole = length (aw.buf ++ (p ++ q)) in
      sym (
        ap (λ b. aes_blocks crypt whole (record aw { buf = b })) (sym (append_assoc aw.buf p q))
        ∙ aes_blocks-append (length (aw.buf ++ p)) whole (record aw { buf = aw.buf ++ p }) q
            (omega arith)
            (omega
              (arith, length-append aw.buf p, length-append aw.buf (p ++ q), length-append p q)))

  write_all-aes_write :
      (aw : AesWriter Mode) (p : Bytes) (ps : List Bytes)
      → write_all crypt (aes_write crypt aw p) ps ≡ aes_write crypt aw (p ++ joined crypt ps)
  write_all-aes_write aw p [] = ap (aes_write crypt aw) (sym (append-nil p))
  write_all-aes_write aw p (q ∷ ps) =
      write_all-aes_write (aes_write crypt aw p) q ps
      ∙ aes_write-aes_write aw p (q ++ joined crypt ps)

  write_all_new :
      (cbc : Mode) (ps : List Bytes)
      → write_all crypt (new_aes_writer crypt cbc) ps
        ≡ aes_write crypt (new_aes_writer crypt cbc) (joined crypt ps)
  unfolding aes_write new_aes_writer aes_blocks
  write_all_new cbc [] = refl
  write_all_new cbc (p ∷ ps) = write_all-aes_write (new_aes_writer crypt cbc) p ps

  length-buf :
      (n : ℕ) (aw : AesWriter Mode)
      → length aw.buf ≤ n
      → length (aes_blocks crypt n aw).buf ≡ length aw.buf % 16
  unfolding aes_blocks aes_block
  length-buf zero aw h = omega arith
  length-buf (suc n) aw h = elim (dec_lt (length aw.buf) 16) [
    | yes few ↦ simp (blocks_end (suc n) aw few) (omega arith)
    | no many ↦
        let block = aes_block crypt aw (take 16 aw.buf) (drop 16 aw.buf) in
        let left = length-drop 16 aw.buf in
        let rest = length-buf n block (omega arith) in
        simp (blocks_next n aw (omega arith)) (omega arith)
  ]

  -- Zeros up to the next multiple of 16.
  abbrev pub padded : Bytes → Bytes
  padded s = s ++ replicate ((16 - length s % 16) % 16) 0

  -- A buffer of exactly one block.
  one_block :
      (aw : AesWriter Mode) (n : ℕ)
      → length aw.buf ≡ 16
      → 16 ≤ n
      → (aes_blocks crypt n aw).sink ≡ (aes_block crypt aw aw.buf []).sink
  unfolding aes_block
  one_block aw zero h hn = absurd (omega arith)
  one_block aw (suc n) h hn =
      simp
        (
          blocks_next n aw (omega arith),
          take_all 16 aw.buf h,
          drop_all 16 aw.buf h,
          blocks_end n (aes_block crypt aw aw.buf []) (omega arith),
        )
        refl

  close_pads :
      (aw : AesWriter Mode)
      → length aw.buf < 16
      → (aes_close crypt aw).sink
        ≡ (aes_write crypt aw (replicate ((16 - length aw.buf) % 16) 0)).sink
  unfolding aes_close aes_write aes_block
  close_pads aw h = elim (dec_lt 0 (length aw.buf)) [
    | no empty ↦
        let zeros : (16 - length aw.buf) % 16 ≡ 0 = omega arith in
        let shut : ltb 0 (length aw.buf) ≡ false = ground arith in
        simp (zeros, shut, append-nil) (ap (λ w. w.sink) (sym (blocks_end (length aw.buf) aw h)))
    | yes some_bytes ↦
        let zeros : (16 - length aw.buf) % 16 ≡ 16 - length aw.buf = omega arith in
        let open_buf : ltb 0 (length aw.buf) ≡ true = ground arith in
        let block = aw.buf ++ replicate (16 - length aw.buf) 0 in
        let full : length block ≡ 16 = omega (
          arith,
          length-append aw.buf (replicate (16 - length aw.buf) 0),
          length-replicate {A = ℕ} (16 - length aw.buf) 0,
        ) in
        simp (zeros, open_buf)
          (sym (one_block (record aw { buf = block }) (length block) full (omega arith)))
  ]

  -- The first `blocks` blocks of 16 bytes, each under the mode that the one before leaves.
  abbrev pub encrypted : (blocks : ℕ) → Mode → Bytes → Bytes
  encrypted zero cbc s = []
  encrypted (suc blocks) cbc s =
      let first = crypt cbc (take 16 s) in first.0 ++ encrypted blocks first.1 (drop 16 s)

  aes_blocks-encrypted :
      (n : ℕ) (aw : AesWriter Mode)
      → length aw.buf ≤ n
      → (aes_blocks crypt n aw).sink ≡ aw.sink ++ encrypted (length aw.buf / 16) aw.cbc aw.buf
  unfolding aes_blocks aes_block
  aes_blocks-encrypted zero aw h =
      let none : length aw.buf / 16 ≡ 0 = omega arith in rw none (sym (append-nil aw.sink))
  aes_blocks-encrypted (suc n) aw h = elim (dec_lt (length aw.buf) 16) [
    | yes few ↦
        let none : length aw.buf / 16 ≡ 0 = omega arith in
        rw (blocks_end (suc n) aw few, none) (sym (append-nil aw.sink))
    | no many ↦
        let left = length-drop 16 aw.buf in
        let block = aes_block crypt aw (take 16 aw.buf) (drop 16 aw.buf) in
        let more : length aw.buf / 16 ≡ suc (length (drop 16 aw.buf) / 16) = omega arith in
        let first = crypt aw.cbc (take 16 aw.buf) in
        rw (blocks_next n aw (omega arith), more)
          (aes_blocks-encrypted n block (omega arith)
            ∙ append_assoc aw.sink first.0
                (encrypted (length (drop 16 aw.buf) / 16) first.1 (drop 16 aw.buf)))
  ]

  aes_write-encrypted :
      (cbc : Mode) (s : Bytes)
      → (aes_write crypt (new_aes_writer crypt cbc) s).sink ≡ encrypted (length s / 16) cbc s
  unfolding aes_write new_aes_writer
  aes_write-encrypted cbc s =
      aes_blocks-encrypted (length s) (record { sink = []; cbc = cbc; buf = s; count = 0 })
        (omega arith)

  buffered_bytes :
      (cbc : Mode) (s : Bytes)
      → length (aes_write crypt (new_aes_writer crypt cbc) s).buf ≡ length s % 16
  unfolding aes_write new_aes_writer
  buffered_bytes cbc s =
      length-buf (length s) (record { sink = []; cbc = cbc; buf = s; count = 0 }) (omega arith)

  -- However the input is split over the calls of Write, Close leaves below the writer the whole input,
  -- padded with zeros to a multiple of 16, encrypted block by block: each block goes once through the
  -- block mode, in order, and under the mode that the block before it has left.
  pub aes_close-padded :
      (cbc : Mode) (ps : List Bytes)
      → (aes_close crypt (write_all crypt (new_aes_writer crypt cbc) ps)).sink
        ≡ encrypted (length (padded (joined crypt ps)) / 16) cbc (padded (joined crypt ps))
  aes_close-padded cbc ps =
      let whole = joined crypt ps in
      let new = new_aes_writer crypt cbc in
      let buffered = buffered_bytes cbc whole in
      simp (write_all_new cbc ps) (
        close_pads (aes_write crypt new whole) (omega arith)
        ∙ (ap
              (λ n.
                (aes_write crypt (aes_write crypt new whole) (replicate ((16 - n) % 16) 0)).sink)
              buffered
            ∙ (ap (λ w. w.sink) (aes_write-aes_write new whole _)
                ∙ aes_write-encrypted cbc (padded whole))))
