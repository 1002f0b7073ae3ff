-- ===== src/Start/RoundTrip.antt =====
-- The first 32 bytes of an archive read back.
use sevenzip.Prelude.{◌^◌, ◌<◌, ◌≡◌, ◌++◌, append_assoc, arith, length, length-append}
use sevenzip.Stream.{Bytes, ok, le_bytes, length-le_bytes, read_byte, read_full, read_le-le_bytes}
use sevenzip.Crc.{crc32, crc32-IsU32}
use sevenzip.Start.{
  StartHeader, SignatureHeader, signature, write_start_header, write_signature_header,
  read_signature_header, read_start_header,
}

pub length-write_start_header : (h : StartHeader) → length (write_start_header h) ≡ 20
unfolding write_start_header
length-write_start_header h = omega (
  arith,
  length-append (le_bytes 8 h.offset) (le_bytes 8 h.size ++ le_bytes 4 h.crc),
  length-append (le_bytes 8 h.size) (le_bytes 4 h.crc),
  length-le_bytes 8 h.offset,
  length-le_bytes 8 h.size,
  length-le_bytes 4 h.crc,
)

pub length-write_signature_header : (h : StartHeader) → length (write_signature_header h) ≡ 12
unfolding write_signature_header
length-write_signature_header h = omega (arith, length-le_bytes 4 (crc32 (write_start_header h)))

pub read_start_header-write_start_header :
    (h : StartHeader) (rest : Bytes)
    → h.offset < 2 ^ 64
    → h.size < 2 ^ 64
    → h.crc < 2 ^ 32
    → read_start_header (write_start_header h ++ rest) ≡ ok (h, rest)
unfolding read_start_header write_start_header
read_start_header-write_start_header h rest ho hs hc = simp (
  append_assoc,
  read_le-le_bytes 8 h.offset (le_bytes 8 h.size ++ (le_bytes 4 h.crc ++ rest)) ho,
  read_le-le_bytes 8 h.size (le_bytes 4 h.crc ++ rest) hs,
  read_le-le_bytes 4 h.crc rest hc,
)

abbrev pub signature_header_of : StartHeader → SignatureHeader
signature_header_of h = record {
  signature = signature;
  major = 0;
  minor = 4;
  crc = crc32 (write_start_header h);
}

pub read_signature_header-write_signature_header :
    (h : StartHeader) (rest : Bytes)
    → read_signature_header (write_signature_header h ++ rest) ≡ ok (signature_header_of h, rest)
unfolding read_signature_header write_signature_header read_full read_byte
read_signature_header-write_signature_header h rest =
    rw (read_le-le_bytes 4 (crc32 (write_start_header h)) rest (crc32-IsU32 (write_start_header h)))
