-- ===== src/Coder/RoundTrip.antt =====
-- The round trip of readCoder (types.go) and writeCoder (write_struct.go).
use sevenzip.Prelude.{
  ℕ, ◌≤◌, ◌<◌, bit_and, ◌≡◌, refl, sym, ap, Bool, true, false, not, ◌&&◌, [], ◌++◌, append_assoc,
  arith, length, ◌==◌, Bool-cases, inl, inr, if◌then◌else◌,
}
use sevenzip.Bits.{holds_below, holds_below→}
use sevenzip.Stream.{
  Bytes, Grant, FillsBuffer, ok, read_byte, read_once-append, read_once_short, err, incomplete_read,
  pure,
}
use sevenzip.Number.{write_uint64, max_uint32}
use sevenzip.Vectors.{IsCount}
use sevenzip.Pack.RoundTrip.{read_uint64_bounded-write_uint64}
use sevenzip.Sections.{nonempty, nonempty-false, nonempty-length}
use sevenzip.Coder.{
  Coder, read_coder, read_stream_counts, read_properties, is_complex, coder_flags, write_coder,
}

-- What the writer keeps: an identifier of at most 15 bytes, counts that are not zero, and
-- properties that a uint32 counts.
pub record IsCoder (c : Coder) : Type 0 where
  pub id_short : length c.id ≤ 15
  pub in_count : IsCount c.in_streams
  pub out_count : IsCount c.out_streams
  pub properties_short : length c.properties ≤ max_uint32

flags_check : (n : ℕ) (complex props : Bool) → Bool
flags_check n complex props =
    let flags = coder_flags n complex props in
    (bit_and flags 0xf == n)
    && (bit_and flags 0x10 == (if complex then 0x10 else 0))
    && (bit_and flags 0x20 == (if props then 0x20 else 0))

flags_table :
    holds_below 16 (λ n.
      flags_check n true true
      && flags_check n true false
      && flags_check n false true
      && flags_check n false false)
    ≡ true
unfolding holds_below flags_check coder_flags
flags_table = refl

flags_checked : (n : ℕ) (complex props : Bool) → n ≤ 15 → flags_check n complex props ≡ true
flags_checked n complex props h = ground (arith, holds_below→ 16 _ n flags_table (omega arith))

abbrev FlagsHold : ℕ → Bool → Bool → Type 0
FlagsHold n complex props =
    let flags = coder_flags n complex props in
    (bit_and flags 0xf ≡ n)
    × ((bit_and flags 0x10 == 0) ≡ not complex)
    × ((bit_and flags 0x20 == 0) ≡ not props)

flags_hold : (n : ℕ) (complex props : Bool) → n ≤ 15 → FlagsHold n complex props
unfolding flags_check
flags_hold n true true h = ground (arith, flags_checked n true true h)
flags_hold n true false h = ground (arith, flags_checked n true false h)
flags_hold n false true h = ground (arith, flags_checked n false true h)
flags_hold n false false h = ground (arith, flags_checked n false false h)

counts_part :
    (c : Coder) (rest : Bytes)
    → IsCoder c
    → (if not (is_complex c) then pure (1, 1) else read_stream_counts) (
        (if is_complex c then write_uint64 c.in_streams ++ write_uint64 c.out_streams else [])
        ++ rest)
      ≡ ok ((c.in_streams, c.out_streams), rest)
unfolding read_stream_counts is_complex
counts_part c rest h = elim (Bool-cases (is_complex c)) [
  | inl complex ↦ rw complex (
      simp (
        append_assoc,
        read_uint64_bounded-write_uint64 c.in_streams _ h.in_count,
        read_uint64_bounded-write_uint64 c.out_streams _ h.out_count,
      ))
  | inr simple ↦ rw simple (ap (λ p. ok (p, rest)) (ground arith))
]

properties_part :
    (grant : Grant) (c : Coder) (rest : Bytes)
    → FillsBuffer grant
    → IsCoder c
    → (if not (nonempty c.properties) then pure [] else read_properties grant) (
        (if nonempty c.properties then write_uint64 (length c.properties) ++ c.properties else [])
        ++ rest)
      ≡ ok (c.properties, rest)
unfolding read_properties
properties_part grant c rest fills h = elim (Bool-cases (nonempty c.properties)) [
  | inl present ↦ rw present (
      simp (
        append_assoc,
        read_uint64_bounded-write_uint64 (length c.properties) _
            (nonempty-length c.properties present, h.properties_short),
        read_once-append grant c.properties rest fills,
      ))
  | inr absent ↦ rw absent (ap (λ p. ok (p, rest)) (sym (nonempty-false c.properties absent)))
]

-- readCoder gives back the coder that writeCoder wrote, from a reader that fills its buffers.
pub read_coder-write_coder :
    (grant : Grant) (c : Coder) (rest : Bytes)
    → FillsBuffer grant
    → IsCoder c
    → read_coder grant (write_coder c ++ rest) ≡ ok (c, rest)
unfolding read_coder write_coder read_byte
read_coder-write_coder grant c rest fills h =
    let (low, complex, props) =
      flags_hold (length c.id) (is_complex c) (nonempty c.properties) h.id_short in
    simp (
      append_assoc,
      low,
      complex,
      props,
      read_once-append grant c.id _ fills,
      counts_part c _ h,
      properties_part grant c rest fills h,
    )

-- A reader that delivers less than the identifier in one call makes readCoder fail, although the
-- source holds the whole coder.
pub read_coder_short_read :
    (grant : Grant) (c : Coder) (rest : Bytes)
    → 0 < length c.id
    → length c.id ≤ 15
    → ((s : Bytes) → grant (length c.id) s < length c.id)
    → read_coder grant (write_coder c ++ rest) ≡ err incomplete_read
unfolding read_coder write_coder read_byte
read_coder_short_read grant c rest some_id short few =
    let (low, complex, props) =
      flags_hold (length c.id) (is_complex c) (nonempty c.properties) short in
    simp (append_assoc, low, read_once_short grant c.id _ some_id few)
