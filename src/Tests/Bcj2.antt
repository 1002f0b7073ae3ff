-- ===== src/Tests/Bcj2.antt =====
-- The BCJ2 filter of internal/bcj2/reader.go on a call.
use sevenzip.Bcj2.Range.{IsRange, decode_bit-IsRange}
use sevenzip.Bcj2.Reads.Calls.{started, bcj2_read_all-decoded}
use sevenzip.Bcj2.Whole.{decoded}
use sevenzip.Bcj2.{
  first_decoder, new_decoder, update, decode_bit, is_j, is_jcc, model_index, read_address,
  put_address, take_address, after_bit, after_opcode, read_loop, Decoder, RangeDecoder, eof,
  panicked,
}
use sevenzip.Bcj2.Reader.{read_buffer, after_read, bcj2_read, bcj2_read_all}
use sevenzip.Branch.{get_be, put_le}
use sevenzip.Prelude.{◌^◌, ◌<◌, ◌≡◌, ◌≢◌, refl, Bool, false, some, [], ◌∷◌, length, arith}
use sevenzip.Stream.{Bytes}

-- `e8` with its address in the call stream, and `90` after it; the range stream says that the address
-- was taken out.
abbrev main_bytes : Bytes
main_bytes = 232 ∷ 144 ∷ []

abbrev call_bytes : Bytes
call_bytes = 0 ∷ 0 ∷ 0 ∷ 5 ∷ []

abbrev range_bytes : Bytes
range_bytes = 0 ∷ 255 ∷ 255 ∷ 255 ∷ 254 ∷ []

abbrev call_decoder : Decoder
call_decoder = first_decoder main_bytes call_bytes [] range_bytes

call_is_moved :
    bcj2_read_all 9 (λ _ _. false) 4 (started call_decoder) ≡ (232 ∷ 0 ∷ 0 ∷ 0 ∷ 0 ∷ 144 ∷ [], eof)
unfolding bcj2_read_all bcj2_read after_read read_buffer read_loop after_opcode after_bit
    take_address put_address read_address model_index is_j is_jcc decode_bit update first_decoder
    get_be put_le
call_is_moved = refl

accepted : new_decoder main_bytes call_bytes [] range_bytes ≡ some call_decoder
unfolding new_decoder
accepted = refl

short : length (decoded call_decoder main_bytes).0 < 9
unfolding decoded after_opcode after_bit take_address put_address read_address model_index is_j
    is_jcc decode_bit update first_decoder get_be put_le
short = omega arith

bcj2_read_all-decoded_example :
    let all = bcj2_read_all 9 (λ _ _. false) 4 (started call_decoder) in
    (all.1 ≡ (decoded call_decoder main_bytes).1)
    × (all.1 ≢ panicked)
    × (all.1 ≡ eof → all.0 ≡ (decoded call_decoder main_bytes).0)
bcj2_read_all-decoded_example =
    bcj2_read_all-decoded main_bytes call_bytes [] range_bytes call_decoder 9 (λ _ _. false) 4
      (omega arith) accepted (omega arith) short

abbrev fresh_range : RangeDecoder
fresh_range = record { rd = 7 ∷ []; nrange = 2 ^ 24; code = 5; sd = 1024 ∷ 31 ∷ [] }

decode_bit-IsRange_example :
    (bit : Bool) × (r' : RangeDecoder) × (decode_bit 1 fresh_range ≡ some (bit, r'))
    × IsRange r'
    × (length r'.sd ≡ length fresh_range.sd)
decode_bit-IsRange_example = decode_bit-IsRange 1 fresh_range (omega arith) (omega arith)
