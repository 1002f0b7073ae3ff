-- ===== src/Coder.antt =====
-- struct.go (coder), types.go (readCoder) and write_struct.go (writeCoder): one compression method of
-- a folder, with its identifier, its numbers of streams and its properties.
pub mod RoundTrip
use sevenzip.Prelude.{
  ℕ, zero, suc, ◌%◌, ◌≤◌, bit_and, bit_or, Bool, true, false, not, ◌||◌, List, [], ◌∷◌, ◌++◌,
  length, ◌==◌, if◌then◌else◌,
}
use sevenzip.Stream.{Parser, Bytes, Grant, ◌>>=◌, pure, read_byte, read_once}
use sevenzip.Number.{read_uint64_bounded, write_uint64}
use sevenzip.Sections.{nonempty}

pub record Coder : Type 0 where
  pub id : Bytes
  pub in_streams : ℕ
  pub out_streams : ℕ
  pub properties : Bytes

unfoldable pub read_stream_counts : Parser (ℕ × ℕ)
read_stream_counts = do
  in_streams ← read_uint64_bounded true
  out_streams ← read_uint64_bounded true
  pure (in_streams, out_streams)

unfoldable pub read_properties : Grant → Parser Bytes
read_properties grant = do size ← read_uint64_bounded true; read_once grant size

unfoldable pub read_coder : Grant → Parser Coder
read_coder grant = do
  v ← read_byte
  id ← read_once grant (bit_and v 0xf)
  (in_streams, out_streams) ←
      λ s. (if bit_and v 0x10 == 0 then pure (1, 1) else read_stream_counts) s
  properties ← λ s. (if bit_and v 0x20 == 0 then pure [] else read_properties grant) s
  pure (record {
    id = id;
    in_streams = in_streams;
    out_streams = out_streams;
    properties = properties;
  })

unfoldable pub is_complex : Coder → Bool
is_complex c = not (c.in_streams == 1) || not (c.out_streams == 1)

-- `byte(len(c.id) & 0xf)`, with 0x10 for stream counts and 0x20 for properties.
unfoldable pub coder_flags : (id_length : ℕ) (complex has_properties : Bool) → ℕ
coder_flags id_length complex has_properties =
    let flags = bit_and id_length 0xf % 256 in
    let flags' = if complex then bit_or flags 0x10 else flags in
    if has_properties then bit_or flags' 0x20 else flags'

unfoldable pub write_coder : Coder → Bytes
write_coder c =
    coder_flags (length c.id) (is_complex c) (nonempty c.properties)
    ∷ (c.id
        ++ ((if is_complex c then write_uint64 c.in_streams ++ write_uint64 c.out_streams else [])
            ++ (if nonempty c.properties
                then write_uint64 (length c.properties) ++ c.properties
                else [])))
