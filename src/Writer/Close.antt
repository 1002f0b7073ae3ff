-- ===== src/Writer/Close.antt =====
-- writer.go (Writer.Close, compressHeaderLZMA2): the end of an archive. The header is compressed, and
-- encrypted if there is a password; what describes it, the encoded header, is found through the 32
-- bytes at the start.
use sevenzip.Prelude.{
  ℕ, suc, ◌+◌, Bool, true, false, Option, none, some, [], ◌∷◌, ◌++◌, length, ltb, if◌then◌else◌,
}
use sevenzip.PropertyId
use sevenzip.Stream.{Bytes, Result, ok, bind}
use sevenzip.Crc.{crc32}
use sevenzip.Start.{StartHeader, write_start_header, write_signature_header}
use sevenzip.Folder.{Folder}
use sevenzip.Streams.{StreamsInfo, write_streams_info}
use sevenzip.Header.{write_header}
use sevenzip.Writer.State.{Environment, Writer, is_concurrent}
use sevenzip.Writer.Coordinator.{coordinate, start}
use sevenzip.Writer.Coordinator.Order.{copy_all}
use sevenzip.Writer.Create.{close_file, close_folder, encrypt}
use sevenzip.Writer.Describe.{plain_folder, encrypted_folder, describe}

-- The one packed stream of an encoded header, `before` bytes behind the first 32, and its folder.
unfoldable pub encoded_streams : (before packed : ℕ) → Folder → (digest : ℕ) → StreamsInfo
encoded_streams before packed folder digest = record {
  pack_info = some (record { position = before; streams = 1; size = packed ∷ []; digest = [] });
  unpack_info = some (record { folder = folder ∷ []; digest = digest ∷ [] });
  sub_streams_info = none;
}

module _ (env : Environment) where
  abbrev pub header_dict_code : Bytes → ℕ
  header_dict_code s =
      env.encode_dict_cap (if ltb (length s) env.min_dict_cap then env.min_dict_cap else length s)

  -- compressHeaderLZMA2
  unfoldable pub compress_header : Bytes → ℕ × Bytes
  compress_header s =
      let code = header_dict_code s in (code, env.compress (env.decode_dict_cap code) 1 s)

  -- The packed stream of the header, and the streamsInfo that describes it.
  unfoldable pub encode_header :
      (encrypted : Bool) → (calls before : ℕ) → Bytes → Bytes × StreamsInfo
  encode_header encrypted calls before s =
      let (code, compressed) = compress_header s in
      let salt = env.random calls 8 in
      let iv = env.random (suc calls) 16 in
      let sealed = encrypt env salt iv compressed in
      if encrypted
      then (
        sealed,
        encoded_streams before (length sealed)
            (encrypted_folder salt iv code (length compressed) (length s)) (crc32 s),
      )
      else (
        compressed,
        encoded_streams before (length compressed) (plain_folder code (length s)) (crc32 s),
      )

  -- The archive, from its signature to its end.
  unfoldable pub finish_archive : Writer → Bytes
  finish_archive w =
      let plain = PropertyId.header ∷ write_header (describe w) in
      let (packed, streams) = encode_header w.encrypted w.calls (length w.sink) plain in
      let metadata = PropertyId.encoded_header ∷ write_streams_info streams in
      let start_header : StartHeader = record {
        offset = length w.sink + length packed;
        size = length metadata;
        crc = crc32 metadata;
      } in
      write_signature_header start_header
      ++ (write_start_header start_header ++ (w.sink ++ (packed ++ metadata)))

  -- The folder of a solid archive.
  unfoldable pub close_solid : Writer → Writer
  close_solid w = elim w.active_fold [
    | none ↦ w
    | some i ↦ if w.solid then record (close_folder env i w) { active_fold = none } else w
  ]

  -- `close(w.spools)`, and what the coordinator then has written.
  unfoldable pub await_coordinator : Writer → Writer
  await_coordinator w =
      if is_concurrent w
      then record w {
        spools_open = false;
        sink = (coordinate copy_all (start w.sink) w.arrived).sink;
      }
      else w

  -- The file and the folder that are still open, and the coordinator.
  unfoldable pub close_streams : Writer → Result Writer
  close_streams w =
      bind (elim w.current [ none ↦ ok w | some h ↦ close_file env h w ])
        λ w'. ok (await_coordinator (close_solid w'))

  -- Close: nothing where it is closed already, and otherwise the archive.
  unfoldable pub close_writer : Writer → Result (Writer × Option Bytes)
  close_writer w =
      if w.closed
      then ok (w, none)
      else bind (close_streams (record w { closed = true })) λ w'. ok (w', some (finish_archive w'))
