-- ===== src/Branch/Reader/Delivers.antt =====
-- What internal/bra/reader.go hands out, call by call and in all.
use sevenzip.Branch.Reader.{
  Converter, end_of_file, nil, eof, max, ReadCloser, Reply, already_closed, at_source_end, deliver,
  bra_read, bra_read_all,
}
use sevenzip.Prelude.{
  ℕ, zero, suc, ◌-◌, ◌≤◌, ◌<◌, ◌≡◌, refl, ap, sym, ◌∙◌, true, [], ◌++◌, append_assoc, append-nil,
  length, take, drop, ltb, leb, leb→le, ltb→lt, take-length, subst, ◌==◌, ==_iff, Bool-cases, ◌⊎◌,
  inl, inr, arith, if◌then◌else◌, length-append, length-drop,
}
use sevenzip.Prelude.Slices.{
  length-take, take-drop-append, take_append_within, drop_append_within, drop_all, take_all,
}
use sevenzip.Branch.Reader.Whole.{
  IsWhole, remaining, IsReady, deliver-remaining, deliver-IsReady, deliver-out,
}
use sevenzip.Stream.{Bytes}

module _ {ℓ} {S : Type ℓ} (conv : Converter S) (Fits : S → ℕ → Type 0)
    (whole : S → Bytes → Bytes) where
  module _ (laws : IsWhole conv Fits whole) where
    -- The buffer filled up from the reader below.
    abbrev filled : ℕ → ReadCloser S → ReadCloser S
    filled wanted rc = record rc {
      buf = rc.buf ++ take wanted rc.below;
      below = drop wanted rc.below;
    }

    module _ (k : ℕ) (rc : ReadCloser S) (ready : IsReady conv Fits whole rc) where
      filled-drop : drop rc.n (filled k rc).buf ++ drop k rc.below ≡ drop rc.n rc.buf ++ rc.below
      filled-drop = rw (drop_append_within rc.n rc.buf (take k rc.below) ready.within_buffer) (
          append_assoc (drop rc.n rc.buf) (take k rc.below) (drop k rc.below)
          ∙ ap (λ (t : Bytes). drop rc.n rc.buf ++ t) (take-drop-append k rc.below))

      filled-remaining : remaining conv Fits whole (filled k rc) ≡ remaining conv Fits whole rc
      unfolding remaining
      filled-remaining =
          rw (take_append_within rc.n rc.buf (take k rc.below) ready.within_buffer, filled-drop)
            refl

      filled-IsReady : IsReady conv Fits whole (filled k rc)
      filled-IsReady =
          let size = length-append (drop rc.n (filled k rc).buf) (drop k rc.below) in
          let size' = length-append (drop rc.n rc.buf) rc.below in
          record {
            within_buffer =
                omega (arith, ready.within_buffer, length-append rc.buf (take k rc.below));
            fits =
                laws.fewer rc.state _ _ (omega (arith, size, size', ap length filled-drop))
                  ready.fits;
          }

    -- The end of the stream, where what is too short to be converted is handed out as it is.
    abbrev last_part : ReadCloser S → ReadCloser S
    last_part rc = record rc { n = if ltb (length rc.buf) conv.size then length rc.buf else rc.n }

    module _ (rc : ReadCloser S) (ready : IsReady conv Fits whole rc)
        (nothing : rc.below ≡ []) where
      last_part-remaining : remaining conv Fits whole (last_part rc) ≡ remaining conv Fits whole rc
      unfolding remaining
      last_part-remaining = elim (Bool-cases (ltb (length rc.buf) conv.size)) [
        | inr e ↦ rw e refl
        | inl e ↦
            let small = ltb→lt _ _ e in
            let tail = length-drop rc.n rc.buf ready.within_buffer in
            rw
              (
                e,
                nothing,
                append-nil,
                append-nil,
                take-length rc.buf,
                drop_all (length rc.buf) rc.buf (omega arith),
                laws.short rc.state [] laws.some_bytes,
                laws.short rc.state (drop rc.n rc.buf) (omega arith),
                append-nil,
              )
              (sym (take-drop-append rc.n rc.buf))
      ]

      last_part-IsReady : IsReady conv Fits whole (last_part rc)
      last_part-IsReady = elim (Bool-cases (ltb (length rc.buf) conv.size)) [
        | inr e ↦ rw e ready
        | inl e ↦ rw e (record {
          within_buffer = omega arith;
          fits =
              laws.fewer rc.state _ _
                (omega (arith, ap length (drop_all (length rc.buf) rc.buf (omega arith))))
                ready.fits;
        })
      ]

    -- What one call leaves: the bytes that it hands out come first of those that were to come, and
    -- it hands out one at least unless none is left.
    pub record Handed (rc : ReadCloser S) (r : Reply S) : Type 0 where
      pub first : remaining conv Fits whole rc ≡ r.out ++ remaining conv Fits whole r.reader
      pub ready_again : IsReady conv Fits whole r.reader
      pub open_again : r.reader.open_below ≡ true
      pub ends_again : r.reader.end ≡ end_of_file
      pub outcome :
          ((r.status ≡ nil) × (0 < length r.out))
          ⊎ ((r.status ≡ eof) × (r.out ≡ []) × (remaining conv Fits whole r.reader ≡ []))

    module _ (size : ℕ) (rc : ReadCloser S) (ready : IsReady conv Fits whole rc)
        (is_open : rc.open_below ≡ true) (ends : rc.end ≡ end_of_file) (room : 0 < size) where
      deliver-Handed : (rc.n ≡ 0 → conv.size ≤ length rc.buf) → Handed rc (deliver conv size rc)
      deliver-Handed enough = record {
        first = deliver-remaining conv Fits whole laws size rc ready;
        ready_again = deliver-IsReady conv Fits whole laws size rc ready;
        open_again = unfold deliver in is_open;
        ends_again = unfold deliver in ends;
        outcome =
            inl (
              (unfold deliver in refl),
              deliver-out conv Fits whole laws size rc ready enough room,
            );
      }

    -- The call went on from a state with the same bytes to come.
    Handed-from :
        (rc rc' : ReadCloser S) (r : Reply S)
        → remaining conv Fits whole rc' ≡ remaining conv Fits whole rc
        → Handed rc' r
        → Handed rc r
    Handed-from rc rc' r same h = record {
      first = sym same ∙ h.first;
      ready_again = h.ready_again;
      open_again = h.open_again;
      ends_again = h.ends_again;
      outcome = h.outcome;
    }

    nothing_left :
        (rc : ReadCloser S) → rc.buf ≡ [] → rc.below ≡ [] → remaining conv Fits whole rc ≡ []
    unfolding remaining
    nothing_left rc e f =
        rw (e, f, take_all {A = ℕ} rc.n [] (omega arith), drop_all {A = ℕ} rc.n [] (omega arith))
          (laws.short rc.state [] laws.some_bytes)

    module _ (size : ℕ) (rc : ReadCloser S) (ready : IsReady conv Fits whole rc)
        (is_open : rc.open_below ≡ true) (ends : rc.end ≡ end_of_file) (room : 0 < size) where
      at_source_end-Handed : rc.below ≡ [] → Handed rc (at_source_end conv size end_of_file rc)
      unfolding at_source_end
      at_source_end-Handed nothing = elim (Bool-cases (length rc.buf == 0)) [
        | inl f ↦
            let empty : rc.buf ≡ [] =
              sym (take_all 0 rc.buf (omega (arith, (==_iff (length rc.buf) 0).0 f))) in
            simp f (record {
              first = refl;
              ready_again = ready;
              open_again = is_open;
              ends_again = ends;
              outcome = inr (refl, refl, nothing_left rc empty nothing);
            })
        | inr f ↦
            let enough : (last_part rc).n ≡ 0 → conv.size ≤ length rc.buf = λ z. ground arith in
            simp f (
              Handed-from rc (last_part rc) (deliver conv size (last_part rc))
                (last_part-remaining rc ready nothing)
                (deliver-Handed size (last_part rc) (last_part-IsReady rc ready nothing) is_open
                  ends room enough))
      ]

    module _ (size : ℕ) (rc : ReadCloser S) (ready : IsReady conv Fits whole rc)
        (is_open : rc.open_below ≡ true) (ends : rc.end ≡ end_of_file) (room : 0 < size) where
      -- The bytes that a call of Read hands out come first of those that were to come. It hands out
      -- one at least, unless it returns io.EOF and none is to come.
      pub bra_read-Handed : Handed rc (bra_read conv size rc)
      unfolding bra_read
      bra_read-Handed =
          let wanted = max size conv.size - length rc.buf in
          let rc' = filled wanted rc in
          let same = filled-remaining wanted rc ready in
          let ready' = filled-IsReady wanted rc ready in
          let go : Handed rc (
              if leb wanted (length rc.below)
              then deliver conv size rc'
              else at_source_end conv size rc.end rc') =
            elim (Bool-cases (leb wanted (length rc.below))) [
              | inl e ↦
                  let enough : conv.size ≤ length rc'.buf = ground (
                    arith,
                    length-append rc.buf (take wanted rc.below),
                    length-take wanted rc.below,
                    leb→le wanted (length rc.below),
                  ) in
                  simp e (
                    Handed-from rc rc' (deliver conv size rc') same
                      (deliver-Handed size rc' ready' is_open ends room (λ _. enough)))
              | inr e ↦
                  let nothing : drop wanted rc.below ≡ [] =
                    drop_all wanted rc.below (ground arith) in
                  let last_part = at_source_end-Handed size rc' ready' is_open ends room nothing in
                  simp e (
                    Handed-from rc rc' _ same (
                      subst (λ end. Handed rc' (at_source_end conv size end rc')) (sym ends)
                        last_part))
            ] in
          subst
            (λ b. Handed rc (
              if b
              then (if leb wanted (length rc.below)
                  then deliver conv size rc'
                  else at_source_end conv size rc.end rc')
              else record { out = []; reader = rc; status = already_closed }))
            (sym is_open) go

    -- Calls of Read with a buffer that is not empty hand out the whole stream, and then io.EOF: a call
    -- more than there are bytes is enough.
    pub bra_read_all-remaining :
        (size calls : ℕ) (rc : ReadCloser S)
        → IsReady conv Fits whole rc
        → rc.open_below ≡ true
        → rc.end ≡ end_of_file
        → 0 < size
        → length (remaining conv Fits whole rc) < calls
        → bra_read_all conv size calls rc ≡ (remaining conv Fits whole rc, eof)
    unfolding bra_read_all
    bra_read_all-remaining size zero rc ready is_open ends room enough = absurd (omega arith)
    bra_read_all-remaining size (suc calls) rc ready is_open ends room enough =
        let r = bra_read conv size rc in
        let h = bra_read-Handed size rc ready is_open ends room in
        elim h.outcome [
          | inl some_out ↦
              let less = length-append r.out (remaining conv Fits whole r.reader) in
              let rest =
                bra_read_all-remaining size calls r.reader h.ready_again h.open_again h.ends_again
                  room (omega (arith, less, ap length h.first, some_out.1)) in
              rw (some_out.0, bra_read_all) (rw (rest, h.first) refl)
          | inr done ↦ rw (done.0, bra_read_all) (rw (h.first, done.1, done.2) refl)
        ]
