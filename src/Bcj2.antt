-- ===== src/Bcj2.antt =====
-- internal/bcj2/reader.go: the BCJ2 filter, which takes the addresses of calls and jumps out of two
-- streams of their own where a range decoder says so. The four readers below end with io.EOF only.
-- `uint` has 64 bits.
pub mod Reader
pub mod Range
pub mod Whole
pub mod Reads
use sevenzip.Branch.{Four, get_be, put_le}
use sevenzip.Prelude.{
  ℕ, zero, suc, ◌+◌, ◌-◌, ◌*◌, ◌/◌, ◌%◌, ◌^◌, Bool, true, false, ◌&&◌, ◌||◌, Option, none, some,
  List, [], ◌∷◌, ◌++◌, length, take, drop, ltb, ◌==◌, bit_and, bit_or, get_elem?, modify, replicate,
  if◌then◌else◌,
}
use sevenzip.Stream.{Bytes}

abbrev pub bit_model_total : ℕ
bit_model_total = 2 ^ 11

abbrev pub top_value : ℕ
top_value = 2 ^ 24

abbrev pub add64 : ℕ → ℕ → ℕ
add64 a b = (a + b) % 2 ^ 64

abbrev pub sub64 : ℕ → ℕ → ℕ
sub64 a b = (a + 2 ^ 64 - b) % 2 ^ 64

abbrev pub mul64 : ℕ → ℕ → ℕ
mul64 a b = a * b % 2 ^ 64

unfoldable pub is_jcc : ℕ → ℕ → Bool
is_jcc b0 b1 = b0 == 0x0f && bit_and b1 0xf0 == 0x80

unfoldable pub is_j : ℕ → ℕ → Bool
unfolding is_jcc
is_j b0 b1 = bit_and b1 0xfe == 0xe8 || is_jcc b0 b1

unfoldable pub model_index : ℕ → ℕ → ℕ
model_index b0 b1 = if b1 == 0xe8 then b0 else if b1 == 0xe9 then 256 else 257

-- What the range decoder keeps: the readCloser's rd, nrange, code and sd.
pub record RangeDecoder : Type 0 where
  pub rd : Bytes
  pub nrange : ℕ
  pub code : ℕ
  pub sd : List ℕ

-- readCloser without buf.
pub record Decoder : Type 0 where
  pub main : Bytes
  pub call : Bytes
  pub jump : Bytes
  pub range : RangeDecoder
  pub previous : ℕ
  pub written : ℕ

-- `(rc.code << 8) | uint(b)`
abbrev pub shift_in : ℕ → ℕ → ℕ
shift_in code b = bit_or (mul64 code 256) b

abbrev pub initial_code : ℕ → Bytes → ℕ
initial_code code [] = code
initial_code code (b ∷ bs) = initial_code (shift_in code b) bs

-- The readCloser that NewReader returns.
unfoldable pub first_decoder : (main call jump rd : Bytes) → Decoder
first_decoder main call jump rd = record {
  main = main;
  call = call;
  jump = jump;
  range = record {
    rd = drop 5 rd;
    nrange = 0xffffffff;
    code = initial_code 0 (take 5 rd);
    sd = replicate (256 + 2) (bit_model_total / 2);
  };
  previous = 0;
  written = 0;
}

-- NewReader, of four readers; `none` is the error of a range stream of less than five bytes.
unfoldable pub new_decoder : (main call jump rd : Bytes) → Option Decoder
new_decoder main call jump rd =
    if ltb (length rd) 5 then none else some (first_decoder main call jump rd)

-- update: at the end of rd the byte is 0.
unfoldable pub update : RangeDecoder → RangeDecoder
update r =
    let b : ℕ = elim r.rd [ [] ↦ 0 | b ∷ rest ↦ b ] in
    if ltb r.nrange top_value
    then record r { rd = drop 1 r.rd; code = shift_in r.code b; nrange = mul64 r.nrange 256 }
    else r

-- decode; `none` is an index out of the range of sd.
unfoldable pub decode_bit : ℕ → RangeDecoder → Option (Bool × RangeDecoder)
unfolding update
decode_bit i r = elim (get_elem? r.sd i) [
  | none ↦ none
  | some p ↦
      let new_bound = mul64 (r.nrange / bit_model_total) p in
      if ltb r.code new_bound
      then some (
        false,
        update (record r {
          nrange = new_bound;
          sd = modify (λ _. add64 p (sub64 bit_model_total p / 2 ^ 5)) r.sd i;
        }),
      )
      else some (
        true,
        update (record r {
          nrange = sub64 r.nrange new_bound;
          code = sub64 r.code new_bound;
          sd = modify (λ _. sub64 p (p / 2 ^ 5)) r.sd i;
        }),
      )
]

-- How a call of read ends: `eof` is io.EOF of one of the readers, `cut` an address of which only a
-- part is there, `panicked` an index out of range.
pub data Outcome : Type 0 where
  nil eof cut panicked : Outcome

-- What read has written to buf, and what is left.
pub record Written : Type 0 where
  pub out : Bytes
  pub after : Decoder
  pub outcome : Outcome

-- binary.Read of the address.
pub data Address : Type 0 where
  address : ℕ → Bytes → Address
  at_end too_short : Address

unfoldable pub read_address : Bytes → Address
read_address [] = at_end
read_address (a ∷ b ∷ c ∷ d ∷ rest) =
    address (get_be (record { b0 = a; b1 = b; b2 = c; b3 = d })) rest
read_address bs = too_short

-- `dest -= rc.written + 4` on uint32, and what follows, with the streams that are left.
unfoldable pub put_address : Decoder → ℕ → Bytes × Decoder
put_address d number =
    let dest = (number + 2 ^ 32 - (d.written + 4) % 2 ^ 32) % 2 ^ 32 in
    let w = put_le dest in
    (
      w.b0 ∷ w.b1 ∷ w.b2 ∷ w.b3 ∷ [],
      record d { previous = dest / 2 ^ 24 % 256; written = (d.written + 4) % 2 ^ 32 },
    )

-- Where the bit is 1: the address comes from the stream of its opcode. binary.Read takes the bytes of
-- an address that is cut off.
unfoldable pub take_address : Decoder → ℕ → Address → Written
take_address d b at_end = record { out = []; after = d; outcome = eof }
take_address d b too_short = record {
  out = [];
  after = if b == 0xe8 then record d { call = [] } else record d { jump = [] };
  outcome = cut;
}
take_address d b (address number rest) =
    let read = if b == 0xe8 then record d { call = rest } else record d { jump = rest } in
    let moved = put_address read number in record { out = moved.0; after = moved.1; outcome = nil }

-- The part of read from `if bit` on.
unfoldable pub after_bit : Decoder → ℕ → Bool → Written
after_bit d b bit =
    if bit
    then take_address d b (read_address (if b == 0xe8 then d.call else d.jump))
    else record { out = []; after = record d { previous = b }; outcome = nil }

-- The part of read from `rc.decode` on, for the byte b that has been written.
unfoldable pub after_opcode : Decoder → ℕ → Written
after_opcode d b = elim (decode_bit (model_index d.previous b) d.range) [
  | none ↦ record { out = []; after = d; outcome = panicked }
  | some (bit, range) ↦ after_bit (record d { range = range }) b bit
]

-- read, over what is left of main. `full out` says that the buffer is full once it holds `out` beside
-- what it held: that is the matter of bytes.Buffer.
unfoldable pub read_loop : (full : Bytes → Bool) → (out : Bytes) → Decoder → Bytes → Written
read_loop full out d [] = record { out = out; after = record d { main = [] }; outcome = eof }
read_loop full out d (b ∷ main) =
    let out' = out ++ (b ∷ []) in
    let d' = record d { main = main; written = (d.written + 1) % 2 ^ 32 } in
    let s = after_opcode d' b in
    let further = read_loop full out' (record d' { previous = b }) main in
    if is_j d.previous b
    then record s { out = out' ++ s.out }
    else if full out'
    then record { out = out'; after = record d' { previous = b }; outcome = nil }
    else further
