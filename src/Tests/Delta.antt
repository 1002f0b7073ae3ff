-- ===== src/Tests/Delta.antt =====
-- The Delta filter of internal/delta/reader.go on a few bytes.
use sevenzip.Prelude.{◌≡◌, [], ◌∷◌, arith}
use sevenzip.Delta.{new_delta_reader, outer_loop}
use sevenzip.Delta.Reference.{delta_reads, delta_reads-undelta}
use sevenzip.Delta.Stuck.{outer_loop_stuck}

-- A distance of 2, and the pieces of 3 bytes and of 2.
delta_reads-undelta_example :
    delta_reads (new_delta_reader 1) ((1 ∷ 2 ∷ 3 ∷ []) ∷ (4 ∷ 255 ∷ []) ∷ [])
    ≡ 1 ∷ 2 ∷ 4 ∷ 6 ∷ 3 ∷ []
delta_reads-undelta_example =
    delta_reads-undelta 1 ((1 ∷ 2 ∷ 3 ∷ []) ∷ (4 ∷ 255 ∷ []) ∷ []) (omega arith)

outer_loop_stuck_example :
    (outer_loop 1000
      (new_delta_reader 255).delta
      (record { buffer = []; j = 0; done = []; left = 7 ∷ [] })).left
    ≡ 7 ∷ []
outer_loop_stuck_example = outer_loop_stuck 1000 7 [] [] []
