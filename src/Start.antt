-- ===== src/Start.antt =====
-- struct.go (signatureHeader, startHeader): the first 32 bytes of an archive, as writer.go (Writer.Close)
-- writes them and reader.go (Reader.init) reads them.
pub mod RoundTrip
use sevenzip.Prelude.{ℕ, List, [], ◌∷◌, ◌++◌}
use sevenzip.Stream.{Bytes, Parser, ◌>>=◌, pure, read_byte, read_full, read_le, le_bytes}
use sevenzip.Crc.{crc32}

-- What the start of an archive says of its end.
pub record StartHeader : Type 0 where
  pub offset : ℕ
  pub size : ℕ
  pub crc : ℕ

unfoldable pub write_start_header : StartHeader → Bytes
write_start_header h = le_bytes 8 h.offset ++ (le_bytes 8 h.size ++ le_bytes 4 h.crc)

abbrev pub signature : Bytes
signature = b'7' ∷ b'z' ∷ 0xbc ∷ 0xaf ∷ 0x27 ∷ 0x1c ∷ []

-- The signatureHeader: version 0.4 and the checksum of the startHeader.
unfoldable pub write_signature_header : StartHeader → Bytes
write_signature_header h = signature ++ (0 ∷ 4 ∷ le_bytes 4 (crc32 (write_start_header h)))

pub record SignatureHeader : Type 0 where
  pub signature : Bytes
  pub major : ℕ
  pub minor : ℕ
  pub crc : ℕ

-- binary.Read of a structure: its fields one after another.
unfoldable pub read_signature_header : Parser SignatureHeader
read_signature_header = do
  s ← read_full 6
  major ← read_byte
  minor ← read_byte
  crc ← read_le 4
  pure (record { signature = s; major = major; minor = minor; crc = crc })

unfoldable pub read_start_header : Parser StartHeader
read_start_header = do
  offset ← read_le 8
  size ← read_le 8
  crc ← read_le 4
  pure (record { offset = offset; size = size; crc = crc })
