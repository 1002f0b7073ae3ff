-- ===== src/Writer/Placement/NoStream.antt =====
-- An archive whose files have no stream, as of directories alone: what Writer.Close (writer.go) writes
-- for it, and what readPackInfo (types.go) says of it.
use sevenzip.Prelude.{
  ℕ, suc, ◌<◌, ◌≡◌, refl, ap, ◌∙◌, Bool, List, [], ◌∷◌, ◌++◌, arith, length, All, length-append,
}
use sevenzip.Stream.{read_byte, Bytes, Grant, ok, err, uint64_non_zero}
use sevenzip.Number.{
  read_uint64_bounded, read_uint64, check_uint64, write_uint64, leading_zeros8, read_low, low_mask,
}
use sevenzip.Sections.{section, write_section}
use sevenzip.Pack.{read_pack_info, write_pack_info}
use sevenzip.Streams.{read_streams_info, write_streams_info}
use sevenzip.Writer.State.{Environment, ArchiveFile, FolderWriter, Writer, new_writer}
use sevenzip.Writer.Describe.{gather, describe_streams}
use sevenzip.Writer.Close.{close_streams}
use sevenzip.Writer.Layout.{layout, streams}
use sevenzip.Writer.Placement.{numbers_in, stream_numbers}
use sevenzip.Writer.Placement.Steps.{Reach}
use sevenzip.Writer.Placement.Pointers.{with_stream}
use sevenzip.Writer.Placement.Header.{IsStored, finished-IsStored}

no_folder :
    (folders : List FolderWriter)
    → All (λ (xs : List ℕ). 0 < length xs) (layout folders)
    → numbers_in (layout folders) ≡ []
    → folders ≡ []
no_folder [] h e = refl
no_folder (f ∷ folders) (has, h) e =
    absurd (omega (arith, has, ap length e, length-append f.files (numbers_in (layout folders))))

no_numbers :
    (files : List ArchiveFile) (i : ℕ)
    → with_stream files ≡ []
    → stream_numbers i (streams files) ≡ []
no_numbers [] i e = refl
no_numbers (fi ∷ files) i e = ground (arith, no_numbers files (suc i))

empty_refused :
    (grant : Grant) (files : List ArchiveFile) (rest : Bytes)
    → read_streams_info grant (write_streams_info (describe_streams files []) ++ rest)
      ≡ err uint64_non_zero
unfolding read_streams_info write_streams_info describe_streams gather section write_section
    read_byte read_pack_info write_pack_info read_uint64_bounded read_uint64 check_uint64
    write_uint64 leading_zeros8 read_low low_mask
empty_refused grant files rest = refl

-- After any sequence of CreateHeader, Write and Close of files on a new Writer, and Close of the
-- Writer: where no file has a stream, readStreamsInfo refuses the streamsInfo that Close writes, with
-- the error of a count that is zero.
pub read_streams_info_no_stream :
    (env : Environment) (solid encrypted : Bool) (concurrency : ℕ) {u w : Writer} (grant : Grant)
    (rest : Bytes)
    → Reach env (new_writer solid encrypted concurrency) u
    → close_streams env u ≡ ok w
    → with_stream w.files ≡ []
    → read_streams_info grant (write_streams_info (describe_streams w.files w.folders) ++ rest)
      ≡ err uint64_non_zero
read_streams_info_no_stream env solid encrypted concurrency {u} {w} grant rest r e none_has =
    let p : IsStored w = finished-IsStored env solid encrypted concurrency r e in
    let no_folders : w.folders ≡ [] =
      no_folder w.folders p.none_empty (p.in_order ∙ no_numbers w.files 0 none_has) in
    ap (λ fs. read_streams_info grant (write_streams_info (describe_streams w.files fs) ++ rest))
      no_folders
    ∙ empty_refused grant w.files rest
