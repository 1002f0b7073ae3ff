-- ===== src/Delta/Stuck.antt =====
-- The Delta filter (internal/delta/reader.go) with the property byte 255, which asks for a distance of
-- 256.
use sevenzip.Prelude.{ℕ, zero, suc, ◌≡◌, refl, ◌∷◌}
use sevenzip.Stream.{Bytes}
use sevenzip.Delta.{Progress, new_delta_reader, inner_loop, outer_loop}

stuck_round :
    (rounds : ℕ) (buffer done p : Bytes) (b : ℕ)
    → (outer_loop rounds 0 (record { buffer = buffer; j = 0; done = done; left = b ∷ p })).left
      ≡ b ∷ p
unfolding outer_loop inner_loop
stuck_round zero buffer done p b = refl
stuck_round (suc rounds) buffer done p b = stuck_round rounds buffer done p b

-- With that byte delta is 0, and the loop of Read over a byte or more does not end: after any number
-- of rounds all of them are left.
pub outer_loop_stuck :
    (rounds b : ℕ) (buffer done p : Bytes)
    → let s : Progress = record { buffer = buffer; j = 0; done = done; left = b ∷ p } in
      (outer_loop rounds (new_delta_reader 255).delta s).left ≡ b ∷ p
unfolding new_delta_reader
outer_loop_stuck rounds b buffer done p = stuck_round rounds buffer done p b
