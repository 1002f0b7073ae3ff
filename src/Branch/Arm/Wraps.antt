-- ===== src/Branch/Arm/Wraps.antt =====
-- The address of internal/bra/arm.go at the end of 4 GiB.
use sevenzip.Branch.Arm.{arm_word, arm_convert}
use sevenzip.Branch.Filters.Parts.{
  word_loop_bounds, word_loop_ip, word_loop_parts, arm_start, arm_convert-bytes, arm_convert_loop,
}
use sevenzip.Branch.{word_loop}
use sevenzip.Prelude.{ℕ, ◌+◌, ◌%◌, ◌^◌, ◌<◌, ◌≤◌, ◌≡◌, refl, Bool, ◌++◌, length, arith, ap, ◌∙◌}
use sevenzip.Prelude.Slices.{take_all, drop_all}
use sevenzip.Stream.{Bytes}

module _ (encoding : Bool) (ip : ℕ) (xs ys : Bytes) (started : 0 < ip) (some_words : 4 ≤ length xs)
    (whole_words : length xs % 4 ≡ 0) (comes_round : ip + length xs ≡ 2 ^ 32) where
  -- Where a call ends just as the address comes round to 0, Convert in two calls goes on from 4 with
  -- what follows; in one call it goes on from 0.
  pub arm_convert_wraps :
      let c = arm_convert encoding ip xs in
      ((arm_convert encoding c.ip ys).bytes ≡ (word_loop arm_word encoding 4 ys).bytes)
      × ((arm_convert encoding ip (xs ++ ys)).bytes
          ≡ c.bytes ++ (word_loop arm_word encoding 0 ys).bytes)
  arm_convert_wraps =
      let w = word_loop arm_word encoding ip xs in
      let at : arm_start ip ≡ ip = ground arith in
      let l = arm_convert_loop encoding ip xs in
      let bounds = word_loop_bounds arm_word encoding ip xs in
      let zero_again : w.ip ≡ 0 =
        omega (arith, word_loop_ip arm_word encoding ip xs (omega arith), bounds) in
      let all : w.count ≡ length w.bytes = omega (arith, bounds) in
      let next : (arm_convert encoding ip xs).ip ≡ 0 =
        l.2 some_words ∙ ap (λ a. (word_loop arm_word encoding a xs).ip) at ∙ zero_again in
      let same : (arm_convert encoding ip xs).bytes ≡ w.bytes =
        l.0 ∙ ap (λ a. (word_loop arm_word encoding a xs).bytes) at in
      (
        ap (λ a. (arm_convert encoding a ys).bytes) next ∙ arm_convert-bytes encoding 0 ys,
        rw
            (
              arm_convert-bytes encoding ip (xs ++ ys),
              at,
              word_loop_parts arm_word encoding ip xs ys,
              zero_again,
              take_all w.count w.bytes (omega arith),
              drop_all w.count w.bytes (omega arith),
              same,
            )
            refl,
      )
