-- ===== src/Delta/Reference.antt =====
-- The Delta filter (internal/delta/reader.go) against the definition by a queue of the last bytes.
use sevenzip.Prelude.{
  replicate, length-replicate, take-length-append, ==_iff, if_split, ℕ, zero, suc, ◌+◌, ◌%◌, ◌≤◌,
  ◌<◌, ◌≡◌, refl, ap, ◌∙◌, sym, List, [], ◌∷◌, ◌++◌, append_assoc, append-nil, arith, length,
  length-append, take, drop, ◌==◌, if◌then◌else◌,
}
use sevenzip.Prelude.Slices.{length-take}
use sevenzip.Stream.{Bytes}
use sevenzip.Delta.{DeltaReader, Progress, outer_loop, next_state, delta_read, new_delta_reader}
use sevenzip.Delta.Queue.{undelta, queue_of, queue_of_full, undelta-append}
use sevenzip.Delta.Rounds.{Finishes, Finishes-outer_loop}

take_all_append : (xs ys : Bytes) (n : ℕ) → length xs ≡ n → take n (xs ++ ys) ≡ xs
take_all_append xs ys n e = ap (λ k. take k (xs ++ ys)) (sym e) ∙ take-length-append xs ys

length-take-drop :
    (j : ℕ) (xs : Bytes) → j ≤ length xs → length (drop j xs ++ take j xs) ≡ length xs
length-take-drop zero xs h = ap length (append-nil xs)
length-take-drop (suc j) [] h = absurd (omega arith)
length-take-drop (suc j) (x ∷ xs) h = omega (
  arith,
  length-append (drop j xs) (x ∷ take j xs),
  length-append (drop j xs) (take j xs),
  length-take-drop j xs (omega arith),
)

-- The state that is kept begins with the queue.
queue-next_state :
    (rc : DeltaReader) (buffer : Bytes) (j : ℕ)
    → length buffer ≡ rc.delta
    → j ≤ rc.delta
    → take rc.delta (next_state rc buffer j).state ≡ queue_of buffer j
unfolding next_state
queue-next_state rc buffer j w h =
    let j' : ℕ = if j == rc.delta then 0 else j in
    let same : queue_of buffer j' ≡ queue_of buffer j =
      if_split (λ k. queue_of buffer k ≡ queue_of buffer j) (j == rc.delta) _ _
        (λ e. sym (queue_of_full buffer j ((==_iff j rc.delta).0 e ∙ sym w))) (λ e. refl) in
    let small : j' ≤ rc.delta =
      if_split (λ k. k ≤ rc.delta) (j == rc.delta) _ _ (λ e. omega arith) (λ e. h) in
    let counted : length (queue_of buffer j') ≡ rc.delta =
      length-take-drop j' buffer (omega (arith, w)) ∙ w in
    ap (take rc.delta)
      (sym (append_assoc (drop j' buffer) (take j' buffer) (drop rc.delta rc.state)))
    ∙ (take_all_append (queue_of buffer j') (drop rc.delta rc.state) rc.delta counted ∙ same)

length-next_state :
    (rc : DeltaReader) (buffer : Bytes) (j : ℕ)
    → length buffer ≡ rc.delta
    → j ≤ rc.delta
    → rc.delta ≤ length (next_state rc buffer j).state
unfolding next_state
length-next_state rc buffer j w h =
    let j' : ℕ = if j == rc.delta then 0 else j in
    let small : j' ≤ rc.delta =
      if_split (λ k. k ≤ rc.delta) (j == rc.delta) _ _ (λ e. omega arith) (λ e. h) in
    omega (
      arith,
      length-append (drop j' buffer) (take j' buffer ++ drop rc.delta rc.state),
      length-append (take j' buffer) (drop rc.delta rc.state),
      length-append (drop j' buffer) (take j' buffer),
      length-take-drop j' buffer (omega (arith, w)),
      w,
    )

abbrev queue : DeltaReader → Bytes
queue rc = take rc.delta rc.state

-- What one Read does to a reader whose state holds delta bytes.
record Reads (rc : DeltaReader) (p : Bytes) (r : Bytes × DeltaReader) : Type 0 where
  reads_output : r.0 ≡ (undelta (queue rc) p).0
  reads_queue : queue r.1 ≡ (undelta (queue rc) p).1
  same_delta : r.1.delta ≡ rc.delta
  wide : rc.delta ≤ length r.1.state

delta_read-Reads :
    (rc : DeltaReader) (p : Bytes)
    → 0 < rc.delta
    → rc.delta ≤ length rc.state
    → Reads rc p (delta_read rc p)
unfolding delta_read next_state
delta_read-Reads rc p hd wide =
    let w : length (queue rc) ≡ rc.delta = length-take rc.delta rc.state wide in
    let s : Progress =
      outer_loop (length p) rc.delta (record { buffer = queue rc; j = 0; done = []; left = p }) in
    let f : Finishes rc.delta (record { buffer = queue rc; j = 0; done = []; left = p }) s =
      Finishes-outer_loop (length p) rc.delta (queue rc) 0 [] p hd w (omega arith) (omega arith)
        (λ lt. refl) in
    let start : queue_of (queue rc) 0 ≡ queue rc = append-nil (queue rc) in
    record {
      reads_output =
          sym (append-nil s.done)
          ∙ (ap (λ t. s.done ++ (undelta (queue_of s.buffer s.j) t).0) (sym f.finished)
              ∙ (f.same_output ∙ ap (λ q. (undelta q p).0) start));
      reads_queue =
          queue-next_state rc s.buffer s.j f.width f.within
          ∙ (ap (λ t. (undelta (queue_of s.buffer s.j) t).1) (sym f.finished)
              ∙ (f.same_queue ∙ ap (λ q. (undelta q p).1) start));
      same_delta = refl;
      wide = length-next_state rc s.buffer s.j f.width f.within;
    }

-- Read after Read, of the pieces that the reader below delivers.
abbrev pub delta_reads : DeltaReader → List Bytes → Bytes
delta_reads rc [] = []
delta_reads rc (p ∷ ps) = (delta_read rc p).0 ++ delta_reads (delta_read rc p).1 ps

abbrev pub all_pieces : List Bytes → Bytes
all_pieces [] = []
all_pieces (p ∷ ps) = p ++ all_pieces ps

delta_reads_from :
    (rc : DeltaReader) (ps : List Bytes)
    → 0 < rc.delta
    → rc.delta ≤ length rc.state
    → delta_reads rc ps ≡ (undelta (queue rc) (all_pieces ps)).0
delta_reads_from rc [] hd wide = refl
delta_reads_from rc (p ∷ ps) hd wide =
    let r : Bytes × DeltaReader = delta_read rc p in
    let one : Reads rc p r = delta_read-Reads rc p hd wide in
    let later : delta_reads r.1 ps ≡ (undelta (queue r.1) (all_pieces ps)).0 =
      delta_reads_from r.1 ps (omega (arith, one.same_delta))
        (omega (arith, one.same_delta, one.wide)) in
    ap (λ t. t ++ delta_reads r.1 ps) one.reads_output
    ∙ (ap (λ t. (undelta (queue rc) p).0 ++ t)
          (later ∙ ap (λ q. (undelta q (all_pieces ps)).0) one.reads_queue)
        ∙ ap (λ (t : Bytes × Bytes). t.0) (sym (undelta-append (queue rc) p (all_pieces ps))))

-- For every distance up to 255, however the reader below cuts what it delivers, the Delta filter gives
-- what the queue of the last bytes gives for the whole, beginning with zeros.
pub delta_reads-undelta :
    (property : ℕ) (ps : List Bytes)
    → property < 255
    → delta_reads (new_delta_reader property) ps
      ≡ (undelta (take (property + 1) (replicate 256 0)) (all_pieces ps)).0
unfolding new_delta_reader
delta_reads-undelta property ps small =
    let distance : (property + 1) % 256 ≡ property + 1 = omega arith in
    delta_reads_from (new_delta_reader property) ps (omega (arith, distance))
      (omega (arith, distance, length-replicate {A = ℕ} 256 0))
    ∙ ap (λ n. (undelta (take n (replicate 256 0)) (all_pieces ps)).0) distance
