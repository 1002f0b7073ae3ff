-- ===== src/Branch/Filters/Parts/Instance.antt =====
-- The filters of internal/bra as converters behind the reader of internal/bra/reader.go: NewARMReader,
-- NewARM64Reader, NewPPCReader and NewSPARCReader start them at address 0.
use sevenzip.Branch.Arm.{arm_word, arm_convert}
use sevenzip.Branch.Arm64.{arm64_word}
use sevenzip.Branch.Filters.{Filter, arm, arm64, ppc, sparc, convert_with}
use sevenzip.Branch.Filters.Parts.{
  word_loop_short, word_convert-word_loop, word_loop_bounds, word_loop_ip, word_loop_parts,
  arm_start, arm_convert-bytes, arm_convert_loop,
}
use sevenzip.Branch.Filters.RoundTrip.{convert_with_undone}
use sevenzip.Branch.Ppc.{ppc_word}
use sevenzip.Branch.Reader.{Converter, Piece, end_of_file, eof, new_reader, bra_read_all}
use sevenzip.Branch.Reader.Delivers.{bra_read_all-remaining}
use sevenzip.Branch.Reader.Whole.{IsWhole, remaining}
use sevenzip.Branch.Sparc.{sparc_word}
use sevenzip.Branch.{Rewrite, Converted, word_loop, word_convert}
use sevenzip.Prelude.{
  ℕ, ◌+◌, ◌^◌, ◌<◌, ◌≡◌, refl, ap, ◌∙◌, Bool, true, false, ◌++◌, length, drop, arith, All, dec_lt,
  length-drop,
}
use sevenzip.Stream.{Bytes, IsByte}

abbrev pub piece : Converted → Piece ℕ
piece c = record { bytes = c.bytes; count = c.count; state = c.ip }

-- Size and Convert(b, false) of a filter.
abbrev pub converter_of : Filter → Converter ℕ
converter_of f = record { size = 4; convert = λ ip b. piece (convert_with f false ip b) }

-- A stream decoded in one piece.
abbrev pub decoded : Filter → ℕ → Bytes → Bytes
decoded f ip b = (convert_with f false ip b).bytes

-- The address of the ARM filter does not come round to 0.
abbrev pub FitsAddress : Filter → ℕ → ℕ → Type 0
FitsAddress arm ip k = arm_start ip + k < 2 ^ 32
FitsAddress arm64 ip k = Unit
FitsAddress ppc ip k = Unit
FitsAddress sparc ip k = Unit

convert-IsWhole :
    (rewrite : Rewrite)
    → IsWhole
        (record { size = 4; convert = λ ip b. piece (word_convert rewrite false ip b) })
        (λ _ _. Unit)
        (λ ip b. (word_convert rewrite false ip b).bytes)
convert-IsWhole rewrite = record {
  some_bytes = omega arith;
  short = λ s b h.
      rw (word_convert-word_loop rewrite false s b, word_loop_short rewrite false s b h) refl;
  keeps =
      λ s b. rw (word_convert-word_loop rewrite false s b) (word_loop_bounds rewrite false s b).0;
  within =
      λ s b. rw (word_convert-word_loop rewrite false s b) (word_loop_bounds rewrite false s b).1;
  progress = λ s b h.
      rw (word_convert-word_loop rewrite false s b)
        (omega (arith, word_loop_bounds rewrite false s b));
  part = λ s b rest _. simp (word_convert-word_loop) (word_loop_parts rewrite false s b rest);
  fewer = λ s j k h fits. tt;
  onward = λ s b k fits. tt;
}

-- Without a wrap of the address, the next piece goes on where this one ends.
arm_goes_on :
    (ip : ℕ) (b : Bytes)
    → arm_start ip + length b < 2 ^ 32
    → arm_start (arm_convert false ip b).ip ≡ (word_loop arm_word false (arm_start ip) b).ip
arm_goes_on ip b fits =
    let w = word_loop arm_word false (arm_start ip) b in
    let l = arm_convert_loop false ip b in
    let bounds = word_loop_bounds arm_word false (arm_start ip) b in
    let at : w.ip ≡ arm_start ip + w.count =
      omega (arith, word_loop_ip arm_word false (arm_start ip) b (omega arith), bounds) in
    elim (dec_lt (length b) 4) [
      | yes h ↦ rw (l.3 h, word_loop_short arm_word false (arm_start ip) b h) refl
      | no h ↦ rw (l.2 (omega arith), at) (ground arith)
    ]

arm-IsWhole : IsWhole (converter_of arm) (FitsAddress arm) (decoded arm)
unfolding convert_with
arm-IsWhole = record {
  some_bytes = omega arith;
  short = λ s b h.
      arm_convert-bytes false s b
      ∙ ap (λ c. c.bytes) (word_loop_short arm_word false (arm_start s) b h);
  keeps =
      λ s b. rw (arm_convert_loop false s b).0 (word_loop_bounds arm_word false (arm_start s) b).0;
  within =
      λ s b. rw (arm_convert_loop false s b).1 (word_loop_bounds arm_word false (arm_start s) b).1;
  progress = λ s b h.
      rw (arm_convert_loop false s b).1
        (omega (arith, word_loop_bounds arm_word false (arm_start s) b));
  part = λ s b rest fits.
      let l = arm_convert_loop false s b in
      let c = arm_convert false s b in
      rw
        (
          arm_convert-bytes false s (b ++ rest),
          arm_convert-bytes false c.ip (drop c.count c.bytes ++ rest),
          arm_goes_on s b (omega arith),
          l.0,
          l.1,
        )
        (word_loop_parts arm_word false (arm_start s) b rest);
  fewer = λ s j k h fits. omega arith;
  onward = λ s b k fits.
      let w = word_loop arm_word false (arm_start s) b in
      let bounds = word_loop_bounds arm_word false (arm_start s) b in
      let l = arm_convert_loop false s b in
      rw (arm_goes_on s b (omega arith), l.0, l.1)
        (omega (
          arith,
          bounds,
          word_loop_ip arm_word false (arm_start s) b (omega arith),
          length-drop w.count w.bytes (omega (arith, bounds)),
        ));
}

filter-IsWhole : (f : Filter) → IsWhole (converter_of f) (FitsAddress f) (decoded f)
unfolding convert_with
filter-IsWhole arm = arm-IsWhole
filter-IsWhole arm64 = convert-IsWhole arm64_word
filter-IsWhole ppc = convert-IsWhole ppc_word
filter-IsWhole sparc = convert-IsWhole sparc_word

pub length-convert_with :
    (f : Filter) (encoding : Bool) (ip : ℕ) (b : Bytes)
    → length (convert_with f encoding ip b).bytes ≡ length b
unfolding convert_with
length-convert_with arm e ip b =
    rw (arm_convert_loop e ip b).0 (word_loop_bounds arm_word e (arm_start ip) b).0
length-convert_with arm64 e ip b =
    rw (word_convert-word_loop arm64_word e ip b) (word_loop_bounds arm64_word e ip b).0
length-convert_with ppc e ip b =
    rw (word_convert-word_loop ppc_word e ip b) (word_loop_bounds ppc_word e ip b).0
length-convert_with sparc e ip b =
    rw (word_convert-word_loop sparc_word e ip b) (word_loop_bounds sparc_word e ip b).0

-- Whatever the size of the buffer that each call of Read is given, the calls hand out what Convert
-- makes of the whole stream, and then io.EOF, within a call more than there are bytes. The stream of
-- the ARM filter is below 4 GiB.
pub bra_read_all-decoded :
    (f : Filter) (b : Bytes) (size calls : ℕ)
    → FitsAddress f 0 (length b)
    → 0 < size
    → length b < calls
    → bra_read_all (converter_of f) size calls (new_reader 0 b end_of_file) ≡ (decoded f 0 b, eof)
unfolding remaining
bra_read_all-decoded f b size calls fits room enough =
    let sum : 0 + length b ≡ length b = omega arith in
    bra_read_all-remaining (converter_of f) (FitsAddress f) (decoded f) (filter-IsWhole f) size
      calls (new_reader 0 b end_of_file)
      (record { within_buffer = omega arith; fits = rw sum fits }) refl refl room
      (rw (length-convert_with f false 0 b) enough)

-- Read from a stream that Convert has encoded, by calls of any size but 0, the calls hand out the stream
-- before it was encoded, and then io.EOF, within a call more than there are bytes: for ARM, ARM64,
-- PowerPC and SPARC. The stream of the ARM filter is below 4 GiB.
pub bra_read_all-encoded :
    (f : Filter) (b : Bytes) (size calls : ℕ)
    → All IsByte b
    → FitsAddress f 0 (length b)
    → 0 < size
    → length b < calls
    → bra_read_all
        (converter_of f)
        size
        calls
        (new_reader 0 (convert_with f true 0 b).bytes end_of_file)
      ≡ (b, eof)
bra_read_all-encoded f b size calls bytes fits room enough =
    let same = length-convert_with f true 0 b in
    bra_read_all-decoded f (convert_with f true 0 b).bytes size calls (rw same fits) room
      (rw same enough)
    ∙ ap (λ t. (t, eof)) (ap (λ c. c.bytes) (convert_with_undone f b bytes 0 (omega arith)))
