-- ===== src/Streams.antt =====
-- struct.go (streamsInfo), types.go (readStreamsInfo) and write_struct.go (writeStreamsInfo): the
-- description of all packed streams of an archive or of an encoded header.
pub mod RoundTrip
use sevenzip.Prelude.{ℕ, Bool, true, false, Option, none, some, List, [], ◌∷◌, ◌++◌}
use sevenzip.PropertyId
use sevenzip.Stream.{Parser, Bytes, Grant, ◌>>=◌, pure, fail, read_byte, missing_unpack_info}
use sevenzip.Sections.{section, finish, write_section}
use sevenzip.Pack.{PackInfo, read_pack_info, write_pack_info}
use sevenzip.Unpack.{UnpackInfo, read_unpack_info, write_unpack_info}
use sevenzip.SubStreams.{SubStreamsInfo, read_sub_streams_info, write_sub_streams_info}

-- The pointers of a streamsInfo, nil where the section is missing.
pub record StreamsInfo : Type 0 where
  pub pack_info : Option PackInfo
  pub unpack_info : Option UnpackInfo
  pub sub_streams_info : Option SubStreamsInfo

abbrev pub present {ℓ} : {A : Type ℓ} → Parser A → Parser (Option A)
present p = do a ← p; pure (some a)

-- The section of the files in the folders, which stands only behind a section of folders.
unfoldable pub read_sub_streams_section : Option UnpackInfo → Parser (Option SubStreamsInfo)
read_sub_streams_section none = fail missing_unpack_info
read_sub_streams_section (some u) = present (read_sub_streams_info u.folder)

unfoldable pub read_streams_info : Grant → Parser StreamsInfo
read_streams_info grant = do
  id ← read_byte
  (pack, id_after_pack) ← section PropertyId.pack_info none (present read_pack_info) id
  (unpack, id_after_unpack) ←
      section PropertyId.unpack_info none (present (read_unpack_info grant)) id_after_pack
  (sub, id_after_sub) ←
      section PropertyId.sub_streams_info none (read_sub_streams_section unpack) id_after_unpack
  finish id_after_sub (record { pack_info = pack; unpack_info = unpack; sub_streams_info = sub })

abbrev pub is_present {ℓ} : {A : Type ℓ} → Option A → Bool
is_present none = false
is_present (some a) = true

abbrev pub written {ℓ} : {A : Type ℓ} → (A → Bytes) → Option A → Bytes
written w none = []
written w (some a) = w a

-- The code passes the folders of unpackInfo to writeSubStreamsInfo, which does not use them.
unfoldable pub write_streams_info : StreamsInfo → Bytes
write_streams_info s =
    write_section PropertyId.pack_info (is_present s.pack_info)
      (written write_pack_info s.pack_info)
    ++ (write_section PropertyId.unpack_info (is_present s.unpack_info)
          (written write_unpack_info s.unpack_info)
        ++ (write_section PropertyId.sub_streams_info (is_present s.sub_streams_info)
              (written write_sub_streams_info s.sub_streams_info)
            ++ (PropertyId.end ∷ [])))
