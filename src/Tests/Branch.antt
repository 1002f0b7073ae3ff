-- ===== src/Tests/Branch.antt =====
-- The branch filters of internal/bra on a few instructions.
use sevenzip.Branch.Arm.Wraps.{arm_convert_wraps}
use sevenzip.Branch.Arm.{arm_word, arm_convert}
use sevenzip.Branch.Bcj.Bounds.{Stops, bcj_convert-Stops}
use sevenzip.Branch.Bcj.{
  bcj_convert, next_opcode, mask_after, operand, put_operand, rewrite_at, at_opcode, round, rounds,
  test86_ms_byte, returned,
}
use sevenzip.Branch.Filters.Parts.Instance.{
  converter_of, decoded, bra_read_all-decoded, bra_read_all-encoded,
}
use sevenzip.Branch.Filters.RoundTrip.{convert_with_undone}
use sevenzip.Branch.Filters.{arm, ppc, sparc, convert_with}
use sevenzip.Branch.Reader.{new_reader, end_of_file, eof, bra_read_all}
use sevenzip.Branch.{get_le, put_le, word_loop}
use sevenzip.Prelude.{◌<◌, ◌-◌, ◌^◌, ◌≡◌, refl, true, false, [], ◌∷◌, ◌++◌, arith}
use sevenzip.Stream.{Bytes}

-- Two branches of the PowerPC to themselves, relative to their own address, and a byte more.
abbrev ppc_code : Bytes
ppc_code = 72 ∷ 0 ∷ 0 ∷ 1 ∷ 72 ∷ 0 ∷ 0 ∷ 1 ∷ 7 ∷ []

convert_with_undone_example :
    let encoded = convert_with ppc true 0 ppc_code in
    convert_with ppc false 0 encoded.bytes ≡ record encoded { bytes = ppc_code }
convert_with_undone_example = convert_with_undone ppc ppc_code (omega arith) 0 (omega arith)

-- The call `e8 fb ff ff ff` of the x86 at address 0 is to address 0.
bcj_call :
    bcj_convert true (record { ip = 0; state = 0 }) (232 ∷ 251 ∷ 255 ∷ 255 ∷ 255 ∷ 144 ∷ [])
    ≡ returned (record {
      bytes = 232 ∷ 0 ∷ 0 ∷ 0 ∷ 0 ∷ 144 ∷ [];
      count = 5;
      conv = record { ip = 5; state = 0 };
    })
unfolding bcj_convert rounds round next_opcode at_opcode rewrite_at mask_after operand put_operand
    test86_ms_byte get_le put_le
bcj_call = refl

bcj_convert-Stops_example :
    Stops 4 (bcj_convert false (record { ip = 0; state = 3 }) (232 ∷ 0 ∷ 0 ∷ 0 ∷ []))
    × (4 < 5
        → bcj_convert false (record { ip = 0; state = 3 }) (232 ∷ 0 ∷ 0 ∷ 0 ∷ [])
          ≡ returned (record {
            bytes = 232 ∷ 0 ∷ 0 ∷ 0 ∷ [];
            count = 0;
            conv = record { ip = 0; state = 3 };
          }))
bcj_convert-Stops_example =
    bcj_convert-Stops false (record { ip = 0; state = 3 }) (232 ∷ 0 ∷ 0 ∷ 0 ∷ []) (omega arith)

bra_read_all-decoded_example :
    bra_read_all (converter_of arm) 3 20 (new_reader 0 (2 ∷ 0 ∷ 0 ∷ 235 ∷ 1 ∷ []) end_of_file)
    ≡ (decoded arm 0 (2 ∷ 0 ∷ 0 ∷ 235 ∷ 1 ∷ []), eof)
bra_read_all-decoded_example =
    bra_read_all-decoded arm (2 ∷ 0 ∷ 0 ∷ 235 ∷ 1 ∷ []) 3 20 (omega arith) (omega arith)
      (omega arith)

bra_read_all-encoded_example :
    bra_read_all
      (converter_of sparc)
      3
      20
      (new_reader 0 (convert_with sparc true 0 (64 ∷ 0 ∷ 0 ∷ 2 ∷ 1 ∷ [])).bytes end_of_file)
    ≡ (64 ∷ 0 ∷ 0 ∷ 2 ∷ 1 ∷ [], eof)
bra_read_all-encoded_example =
    bra_read_all-encoded sparc (64 ∷ 0 ∷ 0 ∷ 2 ∷ 1 ∷ []) 3 20 (omega arith) tt (omega arith)
      (omega arith)

arm_convert_wraps_example :
    let c = arm_convert false (2 ^ 32 - 4) (0 ∷ 0 ∷ 0 ∷ 0 ∷ []) in
    ((arm_convert false c.ip (2 ∷ 0 ∷ 0 ∷ 235 ∷ [])).bytes
      ≡ (word_loop arm_word false 4 (2 ∷ 0 ∷ 0 ∷ 235 ∷ [])).bytes)
    × ((arm_convert false (2 ^ 32 - 4) ((0 ∷ 0 ∷ 0 ∷ 0 ∷ []) ++ (2 ∷ 0 ∷ 0 ∷ 235 ∷ []))).bytes
        ≡ c.bytes ++ (word_loop arm_word false 0 (2 ∷ 0 ∷ 0 ∷ 235 ∷ [])).bytes)
arm_convert_wraps_example =
    arm_convert_wraps false (2 ^ 32 - 4) (0 ∷ 0 ∷ 0 ∷ 0 ∷ []) (2 ∷ 0 ∷ 0 ∷ 235 ∷ []) (omega arith)
      (omega arith) (omega arith) (omega arith)
