-- ===== src/Reader/Opens.antt =====
-- Reader.init (reader.go) on a file with a startHeader that says where its metadata is.
pub mod Finished
use sevenzip.Prelude.{
  take-length, suc, ℕ, ◌+◌, ◌%◌, ◌^◌, ◌≤◌, ◌<◌, ◌≡◌, refl, ap, ◌∙◌, sym, Bool, true, false, List,
  [], ◌∷◌, ◌++◌, append_assoc, append-nil, arith, length, length-append, take, drop,
  take-length-append, drop-length-append, Bool-cases, inl, inr, ltb, leb, lt→ltb,
}
use sevenzip.PropertyId
use sevenzip.Stream.{Bytes, Grant, FillsBuffer, ok, bind, read_byte}
use sevenzip.Crc.{crc32, crc32_equal, be_bytes4, crc32-IsU32, crc32_equal-be_bytes4}
use sevenzip.Start.{StartHeader, write_start_header, write_signature_header}
use sevenzip.Start.RoundTrip.{
  length-write_start_header, length-write_signature_header, read_start_header-write_start_header,
  read_signature_header-write_signature_header, signature_header_of,
}
use sevenzip.Files.{Libraries}
use sevenzip.Streams.{StreamsInfo, read_streams_info, write_streams_info}
use sevenzip.Streams.RoundTrip.{
  IsStreamsInfo, read_back, sub_back, read_streams_info-write_streams_info,
}
use sevenzip.Folder.{Folder}
use sevenzip.Unpack.RoundTrip.{IsSized}
use sevenzip.Reader.Signature.{find_signature, find_signature-signature}
use sevenzip.Reader.Front.{
  Front, Found, plain, encoded, find_start, seek_over, section_of, read_found, read_front_at,
  read_front,
}
use sevenzip.Writer.State.{Environment, Writer}
use sevenzip.Header.{write_header}
use sevenzip.Writer.Describe.{describe}
use sevenzip.Writer.Describe.Sized.{plain_folder-IsSized, encrypted_folder-IsSized}
use sevenzip.Writer.Close.{encoded_streams, encode_header, compress_header, finish_archive}

found_streams :
    (lib : Libraries) (grant : Grant) (info : StreamsInfo)
    → FillsBuffer grant
    → IsStreamsInfo info
    → read_found lib grant (PropertyId.encoded_header ∷ write_streams_info info)
      ≡ ok (encoded (read_back info))
unfolding read_found read_byte
found_streams lib grant info fills valid =
    let whole : read_streams_info grant (write_streams_info info) ≡ ok (read_back info, []) =
      ap (read_streams_info grant) (sym (append-nil (write_streams_info info)))
      ∙ read_streams_info-write_streams_info grant info [] fills valid in
    rw whole refl

-- An archive: 32 bytes that say where the metadata is, the streams, and the metadata.
module _ (h : StartHeader) (streams metadata : Bytes) where
  abbrev pub file : Bytes
  file = write_signature_header h ++ (write_start_header h ++ (streams ++ metadata))

  abbrev pub Says : Type 0
  Says =
      (h.offset ≡ length streams)
      × (h.size ≡ length metadata)
      × (h.crc ≡ crc32 metadata)
      × (32 + length streams + length metadata < 2 ^ 63)

  first_20 : take 20 (write_start_header h ++ (streams ++ metadata)) ≡ write_start_header h
  first_20 =
      rw (length-write_start_header h) at
        (take-length-append (write_start_header h) (streams ++ metadata))

  offsets_file : find_signature file ≡ 0 ∷ []
  unfolding write_signature_header
  offsets_file = find_signature-signature _

  find_start_file : Says → find_start file (0 ∷ []) ≡ ok (0, h)
  unfolding find_start
  find_start_file (ho, hs, hc, small) =
      rw
        (
          read_signature_header-write_signature_header h
              (write_start_header h ++ (streams ++ metadata)),
          read_start_header-write_start_header h (streams ++ metadata) (omega arith) (omega arith)
              (omega (arith, hc, crc32-IsU32 metadata)),
          first_20,
          crc32_equal-be_bytes4 (crc32 (write_start_header h)),
        )
        refl

  seek_over_file : Says → seek_over 0 h.offset ≡ ok (32 + length streams)
  unfolding seek_over
  seek_over_file (ho, hs, hc, small) =
      let e : (0 + 32 + h.offset) % 2 ^ 64 ≡ 32 + length streams = omega arith in
      let low : leb (2 ^ 63) (32 + length streams) ≡ false = ground arith in
      let high : ltb (32 + length streams) 0 ≡ false = ground arith in rw (e, low, high) refl

  pub dropped : drop (32 + length streams) file ≡ metadata
  dropped =
      let before : Bytes = write_signature_header h ++ (write_start_header h ++ streams) in
      let split : file ≡ before ++ metadata =
        ap (λ t. write_signature_header h ++ t)
          (sym (append_assoc (write_start_header h) streams metadata))
        ∙ sym
            (append_assoc (write_signature_header h) (write_start_header h ++ streams) metadata) in
      let counted : 32 + length streams ≡ length before = omega (
        arith,
        length-append (write_signature_header h) (write_start_header h ++ streams),
        length-append (write_start_header h) streams,
        length-write_signature_header h,
        length-write_start_header h,
      ) in
      ap (λ n. drop n file) counted
      ∙ (ap (drop (length before)) split ∙ drop-length-append before metadata)

  section_of_file : Says → section_of file (32 + length streams) h.size ≡ metadata
  unfolding section_of
  section_of_file (ho, hs, hc, small) =
      rw (dropped, hs, lt→ltb (length metadata) (2 ^ 63) (omega arith)) (take-length metadata)

  read_front_at_file :
      (lib : Libraries) (grant : Grant) (info : StreamsInfo)
      → Says
      → FillsBuffer grant
      → metadata ≡ PropertyId.encoded_header ∷ write_streams_info info
      → IsStreamsInfo info
      → read_front_at lib grant file (0, h)
        ≡ ok (record {
          start = 32;
          end_of_streams = 32 + length streams;
          found = encoded (read_back info);
        })
  unfolding read_front_at
  read_front_at_file lib grant info says fills e valid =
      let found : read_found lib grant metadata ≡ ok (encoded (read_back info)) =
        ap (read_found lib grant) e ∙ found_streams lib grant info fills valid in
      let same : crc32_equal (be_bytes4 (crc32 metadata)) h.crc ≡ true =
        ap (crc32_equal (be_bytes4 (crc32 metadata))) says.2
        ∙ crc32_equal-be_bytes4 (crc32 metadata) in
      rw (seek_over_file says, section_of_file says, found, same) refl

  pub read_front_file :
      (lib : Libraries) (grant : Grant) (info : StreamsInfo)
      → Says
      → FillsBuffer grant
      → metadata ≡ PropertyId.encoded_header ∷ write_streams_info info
      → IsStreamsInfo info
      → read_front lib grant file
        ≡ ok (record {
          start = 32;
          end_of_streams = 32 + length streams;
          found = encoded (read_back info);
        })
  unfolding read_front
  read_front_file lib grant info says fills e valid =
      rw (read_front, offsets_file, find_start_file says)
        (read_front_at_file lib grant info says fills e valid)
