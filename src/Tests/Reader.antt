-- ===== src/Tests/Reader.antt =====
-- The Reader of reader.go: the archive that the Writer's test ends, and two files in one folder.
use sevenzip.Prelude.{
  ℕ, ◌+◌, ◌≡◌, refl, false, none, some, List, [], ◌∷◌, arith, length, length-replicate, take,
}
use sevenzip.Stream.{Bytes, ok, err, panic, le_bytes}
use sevenzip.Files.{FileHeader, no_file, time_to_filetime, unix_seconds}
use sevenzip.Streams.{write_streams_info}
use sevenzip.Writer.State.{new_writer}
use sevenzip.Reader.Front.{read_front, section_of, encoded}
use sevenzip.Reader.Opens.Finished.{
  FitsFile, packed_header, header_streams, read_front-finish_archive,
}
use sevenzip.Reader.Files.{File, place_files, locate_file, with_slash}
use sevenzip.Reader.Files.Offsets.{size_in, place_files-size_in}
use sevenzip.Reader.Files.Panic.{place_files_panic}
use sevenzip.Reader.Content.{
  Delivery, FolderReader, new_folder_reader, seek, seek_start, at_place, read_files, ended,
}
use sevenzip.Reader.Content.Whole.{IsAt, read_files-seek}
use sevenzip.Files.Mode.{file_mode, is_dir, msdos_mode_to_file_mode}
use sevenzip.Crc.{crc32, crc_update, crc_bits}
use sevenzip.Writer.Create.{
  close_folder_writer, close_folder, send, close_own_folder, enter_sizes, close_file, write_file,
  choose_dict_cap, new_folder, close_current, close_active, open_folder, add_writer, place_file,
  create_header,
}
use sevenzip.Writer.Close.{
  close_streams, close_solid, await_coordinator, finish_archive, encode_header, compress_header,
  encoded_streams,
}
use sevenzip.Writer.Describe.{
  gather, describe_streams, files_of, describe, describe_folder, total_size,
}
use sevenzip.Start.{write_signature_header, write_start_header}
use sevenzip.Header.{write_header}
use sevenzip.Sections.{write_section}
use sevenzip.Tests.Archive.{archive}
use sevenzip.Lookup.{file_folder_and_size, sub_stream_of, locate, whole_folder}
use sevenzip.Tests.Header.{streams, whole, whole_fills}
use sevenzip.Tests.Files.{libraries}
use sevenzip.Tests.Writer.{still}
use sevenzip.Vectors.{
  write_bits, write_bool, write_optional_bool, write_sizes, write_defined, write_crc, all_true,
}
use sevenzip.SubStreams.{write_parts, write_sub_sizes, write_sub_streams_info, all_one, has_size}
use sevenzip.Pack.{write_digests, write_pack_info}
use sevenzip.Unpack.{write_folders, write_folder_sizes, write_unpack_info}
use sevenzip.Folder.{write_coders, write_bind_pairs, write_folder}
use sevenzip.Coder.{write_coder, coder_flags, is_complex}
use sevenzip.Number.{write_uint64}
use sevenzip.Files.Write.{
  write_times, write_time_prop, write_units, write_names, write_empty, write_attributes,
  write_optional_time, write_files_info, encode_rune, utf16_encode, has_time, empty_files,
}

-- A decoder that delivers a byte at a time.
abbrev dripping : Delivery
dripping = record { amount = λ size rest. 1; eager = λ size rest. false }

abbrev content : Bytes
content = 1 ∷ 2 ∷ 3 ∷ 4 ∷ 5 ∷ []

content-IsAt : IsAt content (new_folder_reader content 5)
unfolding new_folder_reader
content-IsAt = record { rest_of = refl; hashed_of = refl; inside = omega arith }

read_files-seek_example :
    (rc : FolderReader) × (seek (new_folder_reader content 5) 1 seek_start ≡ at_place 1 rc)
    × (read_files dripping (2 ∷ 2 ∷ 2 ∷ 2 ∷ []) (record { rc = rc; n = 3 })
        ≡ (2 ∷ 3 ∷ 4 ∷ [], ended))
unfolding new_folder_reader
read_files-seek_example =
    read_files-seek dripping content (new_folder_reader content 5) 1 3 (2 ∷ 2 ∷ 2 ∷ 2 ∷ [])
      (λ size rest hs hr. omega arith) content-IsAt (omega arith) (omega arith) (omega arith)
      (omega arith) (omega arith, (omega arith, (omega arith, (omega arith, tt)))) (omega arith)

abbrev file_of : ℕ → FileHeader
file_of size = record no_file { name = 97 ∷ []; attributes = 32; uncompressed_size = size }

place_files_panic_example : place_files none 0 0 0 (file_of 3 ∷ []) ≡ err panic
place_files_panic_example = place_files_panic 0 0 0 (file_of 3 ∷ []) refl

abbrev two_headers : List FileHeader
two_headers = file_of 3 ∷ file_of 4 ∷ []

abbrev two_placed : List File
two_placed =
    record { header = file_of 3; folder = 0; offset = 0 }
    ∷ record { header = file_of 4; folder = 0; offset = 3 }
    ∷ []

two_files_placed : place_files (some streams) 0 0 0 two_headers ≡ ok two_placed
unfolding place_files locate_file with_slash file_mode is_dir msdos_mode_to_file_mode
    file_folder_and_size sub_stream_of locate whole_folder
two_files_placed = refl

-- The second file begins behind the 3 bytes of the first.
place_files-size_in_example : 3 ≡ size_in 0 (take 1 two_placed)
place_files-size_in_example =
    place_files-size_in (some streams) two_headers two_placed 1
      (record { header = file_of 4; folder = 0; offset = 3 }) (omega arith) two_files_placed
      (omega arith, (omega arith, tt)) refl refl

archive-FitsFile : FitsFile still archive
unfolding new_writer encoded_streams create_header choose_dict_cap close_current place_file
    add_writer file_mode is_dir msdos_mode_to_file_mode open_folder close_active new_folder
    write_file close_file close_own_folder close_folder close_folder_writer send enter_sizes crc32
    crc_update crc_bits close_streams close_solid await_coordinator finish_archive encode_header
    compress_header write_signature_header write_start_header le_bytes describe describe_streams
    describe_folder gather files_of total_size write_header write_section write_streams_info
    write_bits write_bool write_optional_bool write_sizes write_defined write_crc all_true
    write_parts write_sub_sizes write_sub_streams_info all_one has_size write_digests
    write_pack_info write_folders write_folder_sizes write_unpack_info write_coders write_bind_pairs
    write_folder time_to_filetime unix_seconds write_coder coder_flags is_complex write_uint64
    write_times write_time_prop write_units write_names write_empty write_attributes
    write_optional_time write_files_info encode_rune utf16_encode has_time empty_files
archive-FitsFile = record {
  file_small = omega arith;
  header_small = omega arith;
  compressed_small = omega arith;
}

read_front-finish_archive_example :
    (read_front libraries whole (finish_archive still archive)
      ≡ ok (record {
        start = 32;
        end_of_streams = 32 + (length archive.sink + length (packed_header still archive));
        found = encoded (header_streams still archive);
      }))
    × (section_of
          (finish_archive still archive)
          (32 + length archive.sink)
          (length (packed_header still archive))
        ≡ packed_header still archive)
read_front-finish_archive_example =
    read_front-finish_archive still libraries whole archive whole_fills
      (λ call size. length-replicate size call) archive-FitsFile
