-- ===== src/Pack.antt =====
-- struct.go (packInfo), types.go (readPackInfo) and write_struct.go (writePackInfo): where the packed
-- streams lie in the archive, and how long they are.
pub mod RoundTrip
use sevenzip.Prelude.{ℕ, true, List, [], ◌∷◌, ◌++◌, length, replicate}
use sevenzip.PropertyId
use sevenzip.Stream.{Parser, Bytes, ◌>>=◌, read_byte}
use sevenzip.Number.{read_uint64, read_uint64_bounded, write_uint64}
use sevenzip.Vectors.{read_sizes, read_crc, write_sizes, write_crc}
use sevenzip.Sections.{section, finish, write_section, nonempty}

-- A slice that was never made is an empty list: the code only asks for its length.
pub record PackInfo : Type 0 where
  pub position : ℕ
  pub streams : ℕ
  pub size : List ℕ
  pub digest : List ℕ

unfoldable pub read_pack_info : Parser PackInfo
read_pack_info = do
  position ← read_uint64
  streams ← read_uint64_bounded true
  id ← read_byte
  (size, id_after_size) ← section PropertyId.size [] (read_sizes streams) id
  (digest, id_after_crc) ← section PropertyId.crc [] (read_crc streams) id_after_size
  finish id_after_crc
      (record { position = position; streams = streams; size = size; digest = digest })

-- The digests of a structure, each of them defined.
unfoldable pub write_digests : List ℕ → Bytes
write_digests digest = write_crc digest (replicate (length digest) true)

unfoldable pub write_pack_info : PackInfo → Bytes
write_pack_info p =
    write_uint64 p.position
    ++ (write_uint64 p.streams
        ++ (write_section PropertyId.size (nonempty p.size) (write_sizes p.size)
            ++ (write_section PropertyId.crc (nonempty p.digest) (write_digests p.digest)
                ++ (PropertyId.end ∷ []))))
