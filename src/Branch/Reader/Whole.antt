-- ===== src/Branch/Reader/Whole.antt =====
-- What is still to come out of the reader of internal/bra/reader.go, and what one conversion takes of it.
use sevenzip.Branch.Reader.{Converter, min, ReadCloser, deliver}
use sevenzip.Prelude.{
  ℕ, ◌+◌, ◌-◌, ◌≤◌, ◌<◌, ◌≡◌, ap, sym, ◌∙◌, ◌++◌, append_assoc, length, take, drop, dec_lt, arith,
  length-append, length-drop,
}
use sevenzip.Prelude.Slices.{take_past, drop_past, take_rest, drop-drop, length-take}
use sevenzip.Stream.{Bytes}

-- What a converter makes of a whole stream, `whole s b`, and how its pieces fit together. `Fits s k`
-- says that the converter may be given k bytes more.
pub record IsWhole {ℓ} {S : Type ℓ} (conv : Converter S) (Fits : S → ℕ → Type 0)
    (whole : S → Bytes → Bytes) : Type ℓ where
  pub some_bytes : 0 < conv.size
  pub short : (s : S) (b : Bytes) → length b < conv.size → whole s b ≡ b
  pub keeps : (s : S) (b : Bytes) → length (conv.convert s b).bytes ≡ length b
  pub within : (s : S) (b : Bytes) → (conv.convert s b).count ≤ length b
  pub progress : (s : S) (b : Bytes) → conv.size ≤ length b → 0 < (conv.convert s b).count
  pub part :
      (s : S) (b rest : Bytes)
      → Fits s (length b + length rest)
      → let c = conv.convert s b in
        whole s (b ++ rest) ≡ take c.count c.bytes ++ whole c.state (drop c.count c.bytes ++ rest)
  pub fewer : (s : S) (j k : ℕ) → j ≤ k → Fits s k → Fits s j
  pub onward :
      (s : S) (b : Bytes) (k : ℕ)
      → Fits s (length b + k)
      → let c = conv.convert s b in Fits c.state (length (drop c.count c.bytes) + k)

-- What is handed out of a converted part leaves the rest of it before what is not converted.
cut_out :
    (j d : ℕ) (buf below : Bytes) (rest : Bytes → Bytes)
    → take (j + d) buf ++ rest (drop (j + d) buf ++ below)
      ≡ take j buf ++ (take d (drop j buf) ++ rest (drop d (drop j buf) ++ below))
cut_out j d buf below rest =
    rw (take_rest j d buf, drop-drop j d buf) (append_assoc (take j buf) (take d (drop j buf)) _)

cut_out_below :
    (m n : ℕ) (buf below : Bytes) (rest : Bytes → Bytes)
    → m ≤ n
    → take n buf ++ rest (drop n buf ++ below)
      ≡ take m buf ++ (take (n - m) (drop m buf) ++ rest (drop (n - m) (drop m buf) ++ below))
cut_out_below m n buf below rest h =
    let e : n ≡ m + (n - m) = omega arith in
    ap (λ (k : ℕ). take k buf ++ rest (drop k buf ++ below)) e ∙ cut_out m (n - m) buf below rest

min_le : (a b : ℕ) → min a b ≤ a
min_le a b = ground arith

module _ {ℓ} {S : Type ℓ} (conv : Converter S) (Fits : S → ℕ → Type 0)
    (whole : S → Bytes → Bytes) where
  -- What is still to come, if the reader below ends with io.EOF.
  unfoldable pub remaining : ReadCloser S → Bytes
  remaining rc = take rc.n rc.buf ++ whole rc.state (drop rc.n rc.buf ++ rc.below)

  -- The part that is converted lies within the buffer, and the converter may go on.
  pub record IsReady (rc : ReadCloser S) : Type 0 where
    pub within_buffer : rc.n ≤ length rc.buf
    pub fits : Fits rc.state (length (drop rc.n rc.buf) + length rc.below)

  module _ (laws : IsWhole conv Fits whole) where
    module _ (size : ℕ) (rc : ReadCloser S) (ready : IsReady rc) where
      -- What is converted lies within the buffer again.
      converted_within :
          let c = conv.convert rc.state (drop rc.n rc.buf) in
          rc.n + c.count ≤ length (take rc.n rc.buf ++ c.bytes)
      converted_within =
          let behind = drop rc.n rc.buf in
          omega (
            arith,
            length-drop rc.n rc.buf ready.within_buffer,
            length-take rc.n rc.buf ready.within_buffer,
            length-append (take rc.n rc.buf) (conv.convert rc.state behind).bytes,
            laws.keeps rc.state behind,
            laws.within rc.state behind,
          )

      pub deliver-remaining :
          let r = deliver conv size rc in remaining rc ≡ r.out ++ remaining r.reader
      unfolding remaining deliver
      deliver-remaining =
          let behind = drop rc.n rc.buf in
          let c = conv.convert rc.state behind in
          let apart =
            append_assoc (take rc.n rc.buf) (take c.count c.bytes)
              (whole c.state (drop c.count c.bytes ++ rc.below)) in
          let joined =
            cut_out_below (min (rc.n + c.count) size) (rc.n + c.count) (take rc.n rc.buf ++ c.bytes)
              rc.below (whole c.state) (min_le (rc.n + c.count) size) in
          ap (λ (t : Bytes). take rc.n rc.buf ++ t) (laws.part rc.state behind rc.below ready.fits)
          ∙ sym apart
          ∙ (rw
              (
                ← take_past rc.n c.count rc.buf c.bytes ready.within_buffer,
                ← drop_past rc.n c.count rc.buf c.bytes ready.within_buffer,
              )
              joined)

      pub deliver-IsReady : IsReady (deliver conv size rc).reader
      unfolding deliver
      deliver-IsReady =
          let behind = drop rc.n rc.buf in
          let c = conv.convert rc.state behind in
          let n = rc.n + c.count in
          let m = min n size in
          let buf = take rc.n rc.buf ++ c.bytes in
          let all = converted_within in
          let handed : m ≤ n = min_le n size in
          let past : drop (n - m) (drop m buf) ≡ drop c.count c.bytes =
            drop-drop m (n - m) buf
            ∙ ap (λ (k : ℕ). drop k buf) (omega arith)
            ∙ drop_past rc.n c.count rc.buf c.bytes ready.within_buffer in
          record {
            within_buffer = omega (arith, length-drop m buf (omega arith));
            fits = rw past (laws.onward rc.state behind (length rc.below) ready.fits);
          }

      -- With something to hand out, the call hands out a byte at least.
      pub deliver-out :
          (rc.n ≡ 0 → conv.size ≤ length rc.buf) → 0 < size → 0 < length (deliver conv size rc).out
      unfolding deliver
      deliver-out enough room =
          let behind = drop rc.n rc.buf in
          let c = conv.convert rc.state behind in
          let buf = take rc.n rc.buf ++ c.bytes in
          let n = rc.n + c.count in
          let total = length-drop rc.n rc.buf ready.within_buffer in
          let some_count : 0 < n = elim (dec_lt 0 rc.n) [
            | yes h ↦ omega arith
            | no h ↦
                let none_left : rc.n ≡ 0 = omega arith in
                omega (arith, laws.progress rc.state behind (omega (arith, enough none_left)))
          ] in
          let out = length-take (min n size) buf (omega (arith, min_le n size, converted_within)) in
          rw out (ground arith)
