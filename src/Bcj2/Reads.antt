-- ===== src/Bcj2/Reads.antt =====
-- internal/bcj2/reader.go: what the calls of Read hand out of the decoded stream.
pub mod Calls
use sevenzip.Bcj2.Whole.{consumed, after_step, decoded, IsSafe, StepIsSafe, after_opcode-safe}
use sevenzip.Bcj2.{
  is_j, Decoder, Outcome, nil, eof, cut, panicked, Written, after_opcode, read_loop,
}
use sevenzip.Bcj2.Reader.{Bcj2Reader, Bcj2Reply, read_buffer, after_read, bcj2_read, bcj2_read_all}
use sevenzip.Prelude.{
  ℕ, zero, suc, ◌+◌, ◌%◌, ◌^◌, ◌<◌, ◌≡◌, ◌≢◌, refl, ap, sym, ◌∙◌, Bool, true, false, List, [], ◌∷◌,
  ◌++◌, append_assoc, append-nil, length, length-append, take, drop, All, ◌==◌, ==_iff, Bool-cases,
  ◌⊎◌, inl, inr, if◌then◌else◌, if_split, arith, subst,
}
use sevenzip.Prelude.Slices.{take-drop-append, take_all}
use sevenzip.Stream.{Bytes, IsByte}

-- What a run of the loop makes of a stream `whole` of which `out` went before: a part of it, with the
-- rest to come, or its failure.
abbrev pub Agrees : (out : Bytes) → Bytes × Outcome → Written → Outcome → Type 0
Agrees out whole s nil =
    let rest = decoded s.after s.after.main in
    (out ++ whole.0 ≡ s.out ++ rest.0) × (whole.1 ≡ rest.1)
Agrees out whole s eof =
    let rest = decoded s.after s.after.main in
    (out ++ whole.0 ≡ s.out ++ rest.0) × (whole.1 ≡ rest.1)
Agrees out whole s cut = whole.1 ≡ cut
Agrees out whole s panicked = ⊥

pub record Agreed (out main : Bytes) (whole : Bytes × Outcome) (s : Written) : Type 0 where
  pub agrees : Agrees out whole s s.outcome
  pub safe : IsSafe s.after
  pub bytes : All IsByte s.after.main
  -- The run has written a byte, or main was at its end.
  pub moves : (length out < length s.out) ⊎ ((main ≡ []) × (s.out ≡ out))

regroup :
    (out : Bytes) (b : ℕ) (more rest : Bytes)
    → out ++ (b ∷ (more ++ rest)) ≡ ((out ++ (b ∷ [])) ++ more) ++ rest
regroup out b more rest = simp (append_assoc)

module _ (out : Bytes) (b : ℕ) (main : Bytes) (s : Written) (same : s.after.main ≡ main) where
  again :
      let rest = decoded s.after s.after.main in
      (out ++ (b ∷ (s.out ++ (decoded s.after main).0)) ≡ ((out ++ (b ∷ [])) ++ s.out) ++ rest.0)
      × ((decoded s.after main).1 ≡ rest.1)
  again = (
    regroup out b s.out (decoded s.after main).0
        ∙ ap (λ (m : Bytes). ((out ++ (b ∷ [])) ++ s.out) ++ (decoded s.after m).0) (sym same),
    ap (λ (m : Bytes). (decoded s.after m).1) (sym same),
  )

  opcode-Agrees :
      (o : Outcome)
      → o ≢ panicked
      → Agrees out
          (after_step b s.out o (decoded s.after main))
          (record s { out = (out ++ (b ∷ [])) ++ s.out })
          o
  opcode-Agrees nil h = again
  opcode-Agrees eof h = again
  opcode-Agrees cut h = refl
  opcode-Agrees panicked h = h refl

  opcode-Agreed :
      StepIsSafe main s
      → All IsByte main
      → Agreed out
          (b ∷ main)
          (after_step b s.out s.outcome (decoded s.after main))
          (record s { out = (out ++ (b ∷ [])) ++ s.out })
  opcode-Agreed safe bytes = record {
    agrees = opcode-Agrees s.outcome safe.no_panic;
    safe = safe.safe_after;
    bytes = rw same bytes;
    moves = inl (omega (arith, length-append (out ++ (b ∷ [])) s.out, length-append out (b ∷ [])));
  }

-- The byte that was written first counts among those that went before.
shift-Agrees :
    (out : Bytes) (b : ℕ) (w : Bytes × Outcome) (s : Written) (o : Outcome)
    → Agrees (out ++ (b ∷ [])) w s o
    → Agrees out (b ∷ w.0, w.1) s o
shift-Agrees out b w s nil h = (sym (append_assoc out (b ∷ []) w.0) ∙ h.0, h.1)
shift-Agrees out b w s eof h = (sym (append_assoc out (b ∷ []) w.0) ∙ h.0, h.1)
shift-Agrees out b w s cut h = h
shift-Agrees out b w s panicked h = h

shift_Agreed :
    (out : Bytes) (b : ℕ) (main : Bytes) (w : Bytes × Outcome) (s : Written)
    → Agreed (out ++ (b ∷ [])) main w s
    → Agreed out (b ∷ main) (b ∷ w.0, w.1) s
shift_Agreed out b main w s h = record {
  agrees = shift-Agrees out b w s s.outcome h.agrees;
  safe = h.safe;
  bytes = h.bytes;
  moves =
      let one = length-append out (b ∷ []) in
      elim h.moves [ inl m ↦ inl (omega arith) | inr m ↦ inl (omega (arith, ap length m.1)) ];
}

-- The loop writes a part of the decoded stream, wherever the buffer makes it stop.
pub read_loop-Agreed :
    (full : Bytes → Bool) (out : Bytes) (d : Decoder) (main : Bytes)
    → IsSafe d
    → All IsByte main
    → Agreed out main (decoded d main) (read_loop full out d main)
unfolding read_loop decoded
read_loop-Agreed full out d [] safe bytes = record {
  agrees = (refl, refl);
  safe = record { probabilities = safe.probabilities; last_byte = safe.last_byte };
  bytes = tt;
  moves = inr (refl, refl);
}
read_loop-Agreed full out d (b ∷ main) safe bytes =
    let d' = consumed d main in
    let plain : Decoder = record d' { previous = b } in
    let out' = out ++ (b ∷ []) in
    let s = after_opcode d' b in
    let safe' : IsSafe d' = record {
      probabilities = safe.probabilities;
      last_byte = safe.last_byte;
    } in
    let step = after_opcode-safe d' b safe' bytes.0 in
    let plain_safe : IsSafe plain = record {
      probabilities = safe.probabilities;
      last_byte = bytes.0;
    } in
    let next = read_loop-Agreed full out' plain main plain_safe bytes.1 in
    elim (Bool-cases (is_j d.previous b)) [
      | inl e ↦ rw e (opcode-Agreed out b main s step.same_main step bytes.1)
      | inr e ↦ elim (Bool-cases (full out')) [
        | inl f ↦
            rw (e, f)
              (record {
                agrees = (sym (append_assoc out (b ∷ []) (decoded plain main).0), refl);
                safe = plain_safe;
                bytes = bytes.1;
                moves = inl (omega (arith, length-append out (b ∷ [])));
              })
        | inr f ↦
            rw (e, f)
              (shift_Agreed out b main (decoded plain main) (read_loop full out' plain main) next)
      ]
    ]
