-- ===== src/Bcj2/Reads/Calls.antt =====
-- internal/bcj2/reader.go: Read, call by call, against the decoded stream.
use sevenzip.Bcj2.Reads.{Agrees, Agreed, read_loop-Agreed}
use sevenzip.Bcj2.Whole.{decoded, decoded_no_panic, IsSafe}
use sevenzip.Bcj2.{
  Decoder, Outcome, nil, eof, cut, panicked, Written, first_decoder, new_decoder, read_loop,
}
use sevenzip.Bcj2.Reader.{Bcj2Reader, Bcj2Reply, read_buffer, after_read, bcj2_read, bcj2_read_all}
use sevenzip.Prelude.{
  ltb, some, length-replicate, ℕ, zero, suc, ◌+◌, ◌<◌, ◌≡◌, ◌≢◌, refl, ap, sym, ◌∙◌, Bool, false,
  [], ◌∷◌, ◌++◌, append_assoc, length, length-append, take, drop, All, ◌==◌, ==_iff, Bool-cases,
  inl, inr, arith, subst,
}
use sevenzip.Prelude.Slices.{take-drop-append, take_all}
use sevenzip.Stream.{Bytes, IsByte}

-- What is still to come out of a reader, and how it will end.
abbrev pub to_come : Bcj2Reader → Bytes × Outcome
to_come rc = let whole = decoded rc.decoder rc.decoder.main in (rc.buf ++ whole.0, whole.1)

pub record IsReadable (rc : Bcj2Reader) : Type 0 where
  pub safe : IsSafe rc.decoder
  pub bytes : All IsByte rc.decoder.main

-- How a call may return: with a byte or more, at the end, or with the stream's failure.
abbrev Returned : Bcj2Reader → Bcj2Reply → Outcome → Type 0
Returned rc r nil =
    (0 < length r.out)
    × ((to_come rc).0 ≡ r.out ++ (to_come r.reader).0)
    × ((to_come rc).1 ≡ (to_come r.reader).1)
Returned rc r eof = (r.out ≡ []) × (to_come rc ≡ ([], eof))
Returned rc r cut = (to_come rc).1 ≡ cut
Returned rc r panicked = ⊥

record Handed (rc : Bcj2Reader) (r : Bcj2Reply) : Type 0 where
  readable : IsReadable r.reader
  returned : Returned rc r r.status

take_some : (size : ℕ) (xs : Bytes) → 0 < size → 0 < length xs → 0 < length (take size xs)
take_some zero xs h k = absurd (omega arith)
take_some (suc size) [] h k = k
take_some (suc size) (x ∷ xs) h k = omega arith

module _ (size : ℕ) (room : 0 < size) (rc filled : Bcj2Reader) (readable : IsReadable filled)
    (same : to_come rc ≡ to_come filled) (more : filled.buf ≡ [] → to_come rc ≡ ([], eof)) where
  read_buffer-Handed : Handed rc (read_buffer size filled)
  unfolding read_buffer
  read_buffer-Handed =
      let whole = decoded filled.decoder filled.decoder.main in
      elim (Bool-cases (length filled.buf == 0)) [
        | inl e ↦
            let empty : filled.buf ≡ [] =
              sym (take_all 0 filled.buf (omega (arith, (==_iff (length filled.buf) 0).0 e))) in
            let some_size : (size == 0) ≡ false = ground arith in
            simp (e, some_size) (record { readable = readable; returned = (refl, more empty) })
        | inr e ↦ rw e (record {
          readable = record { safe = readable.safe; bytes = readable.bytes };
          returned = (
            take_some size filled.buf room (ground arith),
            ap (λ (t : Bytes × Outcome). t.0) same
                ∙ ap (λ (t : Bytes). t ++ whole.0) (sym (take-drop-append size filled.buf))
                ∙ append_assoc (take size filled.buf) (drop size filled.buf) whole.0,
            ap (λ (t : Bytes × Outcome). t.1) same,
          );
        })
      ]

module _ (size : ℕ) (room : 0 < size) (rc : Bcj2Reader) (s : Written)
    (agreed : Agreed [] rc.decoder.main (decoded rc.decoder rc.decoder.main) s) where
  abbrev filled : Bcj2Reader
  filled = record { decoder = s.after; buf = rc.buf ++ s.out }

  filled-IsReadable : IsReadable filled
  filled-IsReadable = record { safe = agreed.safe; bytes = agreed.bytes }

  nothing_more : filled.buf ≡ [] → to_come rc ≡ ([], eof)
  nothing_more e =
      let parts = length-append rc.buf s.out in
      let none : length rc.buf + length s.out ≡ 0 = sym parts ∙ ap length e in
      let empty : rc.buf ≡ [] = sym (take_all 0 rc.buf (omega arith)) in
      elim agreed.moves [
        | inl m ↦ absurd (omega arith)
        | inr m ↦
            let whole : decoded rc.decoder rc.decoder.main ≡ ([], eof) =
              subst
                (λ (main : Bytes). ◌≡◌ {A = Bytes × Outcome} (decoded rc.decoder main) ([], eof))
                (sym m.0) (unfold decoded in refl) in
            ground (
              arith,
              empty,
              ap (λ (t : Bytes × Outcome). t.0) whole,
              ap (λ (t : Bytes × Outcome). t.1) whole,
            )
      ]

  filled-same :
      (let rest = decoded s.after s.after.main in
        ((decoded rc.decoder rc.decoder.main).0 ≡ s.out ++ rest.0)
        × ((decoded rc.decoder rc.decoder.main).1 ≡ rest.1))
      → to_come rc ≡ to_come filled
  filled-same h =
      let rest = decoded s.after s.after.main in
      let first : rc.buf ++ (decoded rc.decoder rc.decoder.main).0 ≡ (rc.buf ++ s.out) ++ rest.0 =
        ap (λ (t : Bytes). rc.buf ++ t) h.0 ∙ sym (append_assoc rc.buf s.out rest.0) in
      ground (arith, first, h.1)

  after_read-Handed :
      (o : Outcome)
      → Agrees [] (decoded rc.decoder rc.decoder.main) s o
      → Handed rc (after_read size filled o)
  unfolding after_read
  after_read-Handed nil h =
      read_buffer-Handed size room rc filled filled-IsReadable (filled-same h) nothing_more
  after_read-Handed eof h =
      read_buffer-Handed size room rc filled filled-IsReadable (filled-same h) nothing_more
  after_read-Handed cut h = record { readable = filled-IsReadable; returned = h }
  after_read-Handed panicked h = absurd h

-- Read gives a byte at least of the stream that is to come, or says that it is at its end, or fails
-- as the stream does.
read-Handed :
    (full : Bytes → Bool) (size : ℕ) (rc : Bcj2Reader)
    → 0 < size
    → IsReadable rc
    → Handed rc (bcj2_read full size rc)
unfolding bcj2_read
read-Handed full size rc room ok =
    let agreed = read_loop-Agreed full [] rc.decoder rc.decoder.main ok.safe ok.bytes in
    let s = read_loop full [] rc.decoder rc.decoder.main in
    after_read-Handed size room rc s agreed s.outcome agreed.agrees

-- What all the calls have given: they end as the stream does, and they give all of it unless it fails.
abbrev pub GivesAll : Bytes × Outcome → Bytes × Outcome → Type 0
GivesAll whole all = (all.1 ≡ whole.1) × (all.1 ≡ eof → all.0 ≡ whole.0)

next_call :
    (rc : Bcj2Reader) (r : Bcj2Reply) (rest : Bytes × Outcome) (o : Outcome)
    → Returned rc r o
    → (o ≡ nil → GivesAll (to_come r.reader) rest)
    → GivesAll (to_come rc) (elim o [ nil ↦ (r.out ++ rest.0, rest.1) | other ↦ (r.out, other) ])
next_call rc r rest nil h all =
    let given = all refl in
    (given.0 ∙ sym h.2, (λ e. ap (λ (t : Bytes). r.out ++ t) (given.1 e) ∙ sym h.1))
next_call rc r rest eof h all =
    let whole = h.1 in
    (
      sym (ap (λ (t : Bytes × Outcome). t.1) whole),
      (λ e. h.0 ∙ sym (ap (λ (t : Bytes × Outcome). t.0) whole)),
    )
next_call rc r rest cut h all = (sym h, (λ e. cc))
next_call rc r rest panicked h all = absurd h

fewer_left :
    (rc : Bcj2Reader) (r : Bcj2Reply) (o : Outcome)
    → Returned rc r o
    → o ≡ nil
    → length (to_come r.reader).0 < length (to_come rc).0
fewer_left rc r nil h e =
    omega (arith, h.0, ap length h.1, length-append r.out (to_come r.reader).0)
fewer_left rc r eof h e = cc
fewer_left rc r cut h e = cc
fewer_left rc r panicked h e = absurd h

-- Calls of Read end as the decoded stream does, and if it does not fail they give all of it, wherever
-- the buffer makes each of them stop: a call more than there are bytes is enough.
pub bcj2_read_all-to_come :
    (calls : ℕ) (full : ℕ → Bytes → Bool) (size : ℕ) (rc : Bcj2Reader)
    → 0 < size
    → IsReadable rc
    → length (to_come rc).0 < calls
    → GivesAll (to_come rc) (bcj2_read_all calls full size rc)
unfolding bcj2_read_all
bcj2_read_all-to_come zero full size rc room ok enough = absurd (omega arith)
bcj2_read_all-to_come (suc calls) full size rc room ok enough =
    let r = bcj2_read (full calls) size rc in
    let h = read-Handed (full calls) size rc room ok in
    let rest = bcj2_read_all calls full size r.reader in
    let later : r.status ≡ nil → GivesAll (to_come r.reader) rest = λ e.
      bcj2_read_all-to_come calls full size r.reader room h.readable
        (omega (arith, fewer_left rc r r.status h.returned e)) in
    next_call rc r rest r.status h.returned later

-- The reader of NewReader, and what it is to give.
abbrev pub started : Decoder → Bcj2Reader
started d = record { decoder = d; buf = [] }

first_decoder-IsSafe : (main call jump rd : Bytes) → IsSafe (first_decoder main call jump rd)
unfolding first_decoder
first_decoder-IsSafe main call jump rd = record {
  probabilities = length-replicate {A = ℕ} 258 1024;
  last_byte = omega arith;
}

-- Whatever four streams NewReader accepts, the calls of Read end as the decoding of their whole does,
-- at the end of main or where an address is cut off, and never by an index out of range. At the end
-- they have given all that is decoded, for every size of p that is not 0 and wherever the buffer
-- makes a call stop. A call more than there are decoded bytes is enough.
pub bcj2_read_all-decoded :
    (main call jump rd : Bytes) (d : Decoder) (calls : ℕ) (full : ℕ → Bytes → Bool) (size : ℕ)
    → All IsByte main
    → new_decoder main call jump rd ≡ some d
    → 0 < size
    → length (decoded d main).0 < calls
    → let all = bcj2_read_all calls full size (started d) in
      (all.1 ≡ (decoded d main).1) × (all.1 ≢ panicked) × (all.1 ≡ eof → all.0 ≡ (decoded d main).0)
unfolding new_decoder
bcj2_read_all-decoded main call jump rd d calls full size bytes accepted room enough =
    elim (Bool-cases (ltb (length rd) 5)) [
      | inl short ↦ cc (rw short at accepted)
      | inr long ↦
          let first : first_decoder main call jump rd ≡ d = cc (rw long at accepted) in
          let safe : IsSafe d = subst IsSafe first (first_decoder-IsSafe main call jump rd) in
          let stream : d.main ≡ main =
            sym (ap (λ (x : Decoder). x.main) first) ∙ (unfold first_decoder in refl) in
          let readable : IsReadable (started d) = record {
            safe = safe;
            bytes = subst (All IsByte) (sym stream) bytes;
          } in
          let given =
            bcj2_read_all-to_come calls full size (started d) room readable
              (subst (λ (m : Bytes). length (decoded d m).0 < calls) (sym stream) enough) in
          let all = bcj2_read_all calls full size (started d) in
          let whole : GivesAll (decoded d main) all =
            subst (λ (m : Bytes). GivesAll (decoded d m) all) stream given in
          (whole.0, (λ e. decoded_no_panic d main safe bytes (sym whole.0 ∙ e)), whole.1)
    ]
