-- ===== src/Delta/Rounds.antt =====
-- The loops of Read (internal/delta/reader.go), in terms of the queue.
use sevenzip.Prelude.{
  if_split, ltb→lt, ℕ, zero, suc, ◌+◌, ◌%◌, ◌≤◌, ◌<◌, ◌≡◌, refl, ap, ◌∙◌, sym, [], ◌∷◌, ◌++◌,
  append_assoc, arith, length, modify, ltb,
}
use sevenzip.Stream.{Bytes}
use sevenzip.Delta.{byte_at, Progress, inner_loop, outer_loop}
use sevenzip.Delta.Queue.{undelta, queue_of, queue_step, length-modify, queue_of_full}

-- What has been and is to be output, and the queue in the end.
abbrev pub output : Progress → Bytes
output s = s.done ++ (undelta (queue_of s.buffer s.j) s.left).0

abbrev pub last_queue : Progress → Bytes
last_queue s = (undelta (queue_of s.buffer s.j) s.left).1

-- A buffer of delta bytes, filled up to j.
record Follows (delta : ℕ) (start s : Progress) : Type 0 where
  same_output : output s ≡ output start
  same_queue : last_queue s ≡ last_queue start
  width : length s.buffer ≡ delta
  within : s.j ≤ delta
  full : 0 < length s.left → s.j ≡ delta

Follows-inner_loop :
    (delta : ℕ) (buffer : Bytes) (j : ℕ) (done p : Bytes)
    → length buffer ≡ delta
    → j ≤ delta
    → Follows delta
        (record { buffer = buffer; j = j; done = done; left = p })
        (inner_loop delta buffer j done p)
unfolding inner_loop
Follows-inner_loop delta buffer j done [] w h = record {
  same_output = refl;
  same_queue = refl;
  width = w;
  within = h;
  full = λ lt. absurd (omega (arith, lt));
}
Follows-inner_loop delta buffer j done (b ∷ p) w h =
    let b' : ℕ = (byte_at buffer j + b) % 256 in
    let start : Progress = record { buffer = buffer; j = j; done = done; left = b ∷ p } in
    if_split (Follows delta start) (ltb j delta) _ _
      (λ room.
        let lt : j < delta = ltb→lt j delta room in
        let buffer' : Bytes = modify (λ _. b') buffer j in
        let next : Follows delta
            (record { buffer = buffer'; j = suc j; done = done ++ (b' ∷ []); left = p })
            (inner_loop delta buffer' (suc j) (done ++ (b' ∷ [])) p) =
          Follows-inner_loop delta buffer' (suc j) (done ++ (b' ∷ [])) p
            (length-modify (λ _. b') buffer j ∙ w) (omega arith) in
        let step = queue_step buffer j b p (omega (arith, w)) in
        record {
          same_output =
              next.same_output
              ∙ (append_assoc done (b' ∷ []) (undelta (queue_of buffer' (suc j)) p).0
                  ∙ ap (λ (r : Bytes × Bytes). done ++ r.0) (sym step));
          same_queue = next.same_queue ∙ ap (λ (r : Bytes × Bytes). r.1) (sym step);
          width = next.width;
          within = next.within;
          full = next.full;
        })
      (λ filled. record {
        same_output = refl;
        same_queue = refl;
        width = w;
        within = h;
        full = λ lt. ground arith;
      })

-- A round takes a byte at least.
left-inner_loop :
    (delta : ℕ) (buffer : Bytes) (j : ℕ) (done p : Bytes)
    → length (inner_loop delta buffer j done p).left ≤ length p
unfolding inner_loop
left-inner_loop delta buffer j done [] = omega arith
left-inner_loop delta buffer j done (b ∷ p) =
    if_split (λ (s : Progress). length s.left ≤ suc (length p)) (ltb j delta) _ _
      (λ room. omega (
        arith,
        left-inner_loop delta (modify (λ _. (byte_at buffer j + b) % 256) buffer j) (suc j)
            (done ++ ((byte_at buffer j + b) % 256 ∷ [])) p,
      ))
      (λ filled. omega arith)

fewer_left :
    (delta : ℕ) (buffer : Bytes) (done p : Bytes) (b : ℕ)
    → 0 < delta
    → length (inner_loop delta buffer 0 done (b ∷ p)).left ≤ length p
unfolding inner_loop
fewer_left delta buffer done p b h =
    if_split (λ (s : Progress). length s.left ≤ length p) (ltb 0 delta) _ _
      (λ room.
        left-inner_loop delta (modify (λ _. (byte_at buffer 0 + b) % 256) buffer 0) 1
          (done ++ ((byte_at buffer 0 + b) % 256 ∷ [])) p)
      (λ filled. absurd (ground arith))

-- All of p is taken, in as many rounds as it has bytes.
pub record Finishes (delta : ℕ) (start s : Progress) : Type 0 where
  pub same_output : output s ≡ output start
  pub same_queue : last_queue s ≡ last_queue start
  pub width : length s.buffer ≡ delta
  pub within : s.j ≤ delta
  pub finished : s.left ≡ []

pub Finishes-outer_loop :
    (rounds delta : ℕ) (buffer : Bytes) (j : ℕ) (done p : Bytes)
    → 0 < delta
    → length buffer ≡ delta
    → j ≤ delta
    → length p ≤ rounds
    → (0 < length p → queue_of buffer j ≡ queue_of buffer 0)
    → Finishes delta
        (record { buffer = buffer; j = j; done = done; left = p })
        (outer_loop rounds delta (record { buffer = buffer; j = j; done = done; left = p }))
unfolding outer_loop
Finishes-outer_loop zero delta buffer j done [] hd w h few ready = record {
  same_output = refl;
  same_queue = refl;
  width = w;
  within = h;
  finished = refl;
}
Finishes-outer_loop zero delta buffer j done (b ∷ p) hd w h few ready = absurd (omega arith)
Finishes-outer_loop (suc rounds) delta buffer j done [] hd w h few ready = record {
  same_output = refl;
  same_queue = refl;
  width = w;
  within = h;
  finished = refl;
}
Finishes-outer_loop (suc rounds) delta buffer j done (b ∷ p) hd w h few ready =
    let s : Progress = inner_loop delta buffer 0 done (b ∷ p) in
    let round : Follows delta (record { buffer = buffer; j = 0; done = done; left = b ∷ p }) s =
      Follows-inner_loop delta buffer 0 done (b ∷ p) w (omega arith) in
    let later : Finishes delta s (outer_loop rounds delta s) =
      Finishes-outer_loop rounds delta s.buffer s.j s.done s.left hd round.width round.within
        (omega (arith, fewer_left delta buffer done p b hd))
        (λ lt. queue_of_full s.buffer s.j (round.full lt ∙ sym round.width)) in
    let again : queue_of buffer 0 ≡ queue_of buffer j = sym (ready (omega arith)) in
    record {
      same_output =
          later.same_output ∙ (round.same_output ∙ ap (λ q. done ++ (undelta q (b ∷ p)).0) again);
      same_queue = later.same_queue ∙ (round.same_queue ∙ ap (λ q. (undelta q (b ∷ p)).1) again);
      width = later.width;
      within = later.within;
      finished = later.finished;
    }
