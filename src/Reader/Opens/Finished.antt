-- ===== src/Reader/Opens/Finished.antt =====
-- Reader.init (reader.go) on an archive that Writer.Close (writer.go) wrote.
use sevenzip.Prelude.{
  suc, ℕ, ◌+◌, ◌^◌, ◌<◌, ◌≡◌, refl, ap, ◌∙◌, sym, Bool, true, false, ◌∷◌, ◌++◌, append_assoc, arith,
  length, length-append, take-length-append, inl, inr, lt→ltb,
}
use sevenzip.PropertyId
use sevenzip.Stream.{Bytes, Grant, FillsBuffer, ok}
use sevenzip.Crc.{crc32, crc32-IsU32}
use sevenzip.Start.{StartHeader, write_start_header, write_signature_header}
use sevenzip.Start.RoundTrip.{length-write_start_header, length-write_signature_header}
use sevenzip.Files.{Libraries}
use sevenzip.Streams.{StreamsInfo, write_streams_info}
use sevenzip.Streams.RoundTrip.{IsStreamsInfo, read_back, sub_back}
use sevenzip.Folder.{Folder}
use sevenzip.Unpack.RoundTrip.{IsSized}
use sevenzip.Reader.Front.{encoded, section_of, read_front}
use sevenzip.Writer.State.{Environment, Writer}
use sevenzip.Header.{write_header}
use sevenzip.Writer.Describe.{describe}
use sevenzip.Writer.Describe.Sized.{plain_folder-IsSized, encrypted_folder-IsSized}
use sevenzip.Writer.Close.{encoded_streams, encode_header, compress_header, finish_archive}
use sevenzip.Reader.Opens.{file, Says, dropped, read_front_file}

-- The header that Close compresses, and the sizes that keep an archive in an int64.
abbrev pub header_bytes : Writer → Bytes
header_bytes w = PropertyId.header ∷ write_header (describe w)

pub record FitsFile (env : Environment) (w : Writer) : Type 0 where
  pub file_small : length (finish_archive env w) < 2 ^ 63
  pub header_small : length (header_bytes w) < 2 ^ 63
  pub compressed_small : length (compress_header env (header_bytes w)).1 < 2 ^ 63

encoded_streams-IsStreamsInfo :
    (before packed : ℕ) (f : Folder) (digest : ℕ)
    → before < 2 ^ 64
    → packed < 2 ^ 64
    → IsSized f
    → digest < 2 ^ 32
    → IsStreamsInfo (encoded_streams before packed f digest)
unfolding encoded_streams
encoded_streams-IsStreamsInfo before packed f digest hb hp hf hd = record {
  pack_fits = record {
    position_fits = hb;
    streams_count = omega arith;
    size_counted = inr refl;
    size_fits = (hp, tt);
    digest_counted = inl refl;
    digest_fits = tt;
  };
  unpack_fits = record {
    folder_count = omega arith;
    folder_fits = (hf, tt);
    digest_counted = inr refl;
    digest_fits = (hd, tt);
  };
  sub_fits = tt;
}

module _ (env : Environment) (full : (call size : ℕ) → length (env.random call size) ≡ size)
    (calls before : ℕ) (s : Bytes) (before_fits : before < 2 ^ 64) (header_fits : length s < 2 ^ 64)
    (compressed_fits : length (compress_header env s).1 < 2 ^ 64) where
  encode_header-IsStreamsInfo :
      (encrypted : Bool)
      → length (encode_header env encrypted calls before s).0 < 2 ^ 64
      → IsStreamsInfo (encode_header env encrypted calls before s).1
  unfolding encode_header
  encode_header-IsStreamsInfo true small =
      encoded_streams-IsStreamsInfo before _ _ (crc32 s) before_fits small
        (encrypted_folder-IsSized (env.random calls 8) (env.random (suc calls) 16) _ _ (length s)
          (omega (arith, full calls 8, full (suc calls) 16)) compressed_fits header_fits)
        (crc32-IsU32 s)
  encode_header-IsStreamsInfo false small =
      encoded_streams-IsStreamsInfo before _ _ (crc32 s) before_fits small
        (plain_folder-IsSized _ (length s) header_fits) (crc32-IsU32 s)

  -- Nothing of it is left out when it is read back.
  read_back-encode_header :
      (encrypted : Bool)
      → read_back (encode_header env encrypted calls before s).1
        ≡ (encode_header env encrypted calls before s).1
  unfolding encode_header encoded_streams sub_back
  read_back-encode_header true = refl
  read_back-encode_header false = refl

-- What Close writes of the header, and what describes it.
abbrev pub packed_header : Environment → Writer → Bytes
packed_header env w = (encode_header env w.encrypted w.calls (length w.sink) (header_bytes w)).0

abbrev pub header_streams : Environment → Writer → StreamsInfo
header_streams env w = (encode_header env w.encrypted w.calls (length w.sink) (header_bytes w)).1

module _ (env : Environment) (lib : Libraries) (grant : Grant) (w : Writer)
    (fills : FillsBuffer grant) (full : (call size : ℕ) → length (env.random call size) ≡ size)
    (fits : FitsFile env w) where
  abbrev metadata_of : Bytes
  metadata_of = PropertyId.encoded_header ∷ write_streams_info (header_streams env w)

  abbrev start_of : StartHeader
  start_of = record {
    offset = length w.sink + length (packed_header env w);
    size = length metadata_of;
    crc = crc32 metadata_of;
  }

  is_file : finish_archive env w ≡ file start_of (w.sink ++ (packed_header env w)) metadata_of
  unfolding finish_archive
  is_file =
      ap (λ t. write_signature_header start_of ++ (write_start_header start_of ++ t))
        (sym (append_assoc w.sink (packed_header env w) metadata_of))

  length-file :
      length (finish_archive env w)
      ≡ 32 + (length w.sink + length (packed_header env w)) + length metadata_of
  length-file = omega (
    arith,
    ap length is_file,
    length-append (write_signature_header start_of)
        (write_start_header start_of ++ ((w.sink ++ (packed_header env w)) ++ metadata_of)),
    length-append (write_start_header start_of) ((w.sink ++ (packed_header env w)) ++ metadata_of),
    length-append (w.sink ++ (packed_header env w)) metadata_of,
    length-append w.sink (packed_header env w),
    length-write_signature_header start_of,
    length-write_start_header start_of,
  )

  start_Says : Says start_of (w.sink ++ (packed_header env w)) metadata_of
  start_Says = (
    sym (length-append w.sink (packed_header env w)),
    refl,
    refl,
    omega (arith, length-file, fits.file_small, length-append w.sink (packed_header env w)),
  )

  packed_section :
      section_of (finish_archive env w) (32 + length w.sink) (length (packed_header env w))
      ≡ (packed_header env w)
  unfolding section_of finish_archive
  packed_section =
      rw
        (
          dropped start_of w.sink ((packed_header env w) ++ metadata_of),
          lt→ltb (length (packed_header env w)) (2 ^ 63)
              (omega (arith, length-file, fits.file_small)),
        )
        (take-length-append (packed_header env w) metadata_of)

  -- The Reader finds the end of an archive that Writer.Close wrote: behind the first 32 bytes and the
  -- streams it reads the streamsInfo of the encoded header, every part of it, the checksums agree, and
  -- the place and the size that the streamsInfo gives are those of the packed header. The sizes of the
  -- archive and of its header are int64s, the random bytes are as many as asked for, and the buffered
  -- reader fills its buffers.
  pub read_front-finish_archive :
      (read_front lib grant (finish_archive env w)
        ≡ ok (record {
          start = 32;
          end_of_streams = 32 + (length w.sink + length (packed_header env w));
          found = encoded (header_streams env w);
        }))
      × (section_of (finish_archive env w) (32 + length w.sink) (length (packed_header env w))
          ≡ (packed_header env w))
  read_front-finish_archive =
      let valid : IsStreamsInfo (header_streams env w) =
        encode_header-IsStreamsInfo env full w.calls (length w.sink) (header_bytes w)
          (omega (arith, length-file, fits.file_small)) (omega (arith, fits.header_small))
          (omega (arith, fits.compressed_small)) w.encrypted
          (omega (arith, length-file, fits.file_small)) in
      let back : read_back (header_streams env w) ≡ (header_streams env w) =
        read_back-encode_header env full w.calls (length w.sink) (header_bytes w)
          (omega (arith, length-file, fits.file_small)) (omega (arith, fits.header_small))
          (omega (arith, fits.compressed_small)) w.encrypted in
      (
        ap (read_front lib grant) is_file
            ∙ (read_front_file start_of (w.sink ++ (packed_header env w)) metadata_of lib grant
                  (header_streams env w) start_Says fills refl valid
                ∙ (ap
                      (λ n. ok (record {
                        start = 32;
                        end_of_streams = 32 + n;
                        found = encoded (read_back (header_streams env w));
                      }))
                      (length-append w.sink (packed_header env w))
                    ∙ ap
                        (λ i. ok (record {
                          start = 32;
                          end_of_streams = 32 + (length w.sink + length (packed_header env w));
                          found = encoded i;
                        }))
                        back)),
        packed_section,
      )
