-- ===== src/Tests/Archive.antt =====
-- An archive of a directory and two files, from NewWriter to the header that Close writes (writer.go).
use sevenzip.Prelude.{ℕ, ◌≤◌, ◌≡◌, refl, false, [], ◌∷◌, ◌++◌, arith, map, length, All}
use sevenzip.Stream.{Result, ok, err, uint64_non_zero}
use sevenzip.Files.{FileHeader, no_file}
use sevenzip.Files.Mode.{file_mode, is_dir, msdos_mode_to_file_mode}
use sevenzip.Crc.{crc32, crc_update, crc_bits}
use sevenzip.Writer.State.{Writer, new_writer}
use sevenzip.Writer.Create.{
  close_folder_writer, close_folder, send, close_own_folder, enter_sizes, close_file, write_file,
  choose_dict_cap, new_folder, close_current, close_active, open_folder, add_writer, place_file,
  create_header,
}
use sevenzip.Writer.Close.{close_streams, close_solid, await_coordinator}
use sevenzip.Writer.Placement.Steps.{creates, writes, Reach, here, next}
use sevenzip.Writer.Describe.{describe_streams, files_of}
use sevenzip.Writer.Describe.Sized.{FitsHeader, IsDescribable, file_counts}
use sevenzip.Writer.Describe.Valid.{read_streams_info-describe_streams}
use sevenzip.Writer.Placement.{IsPlaced}
use sevenzip.Writer.Placement.Steps.{Reach-IsPlaced}
use sevenzip.Writer.Placement.Pointers.{with_stream}
use sevenzip.Writer.Placement.Header.{file_folder_and_size_finished}
use sevenzip.Writer.Placement.NoStream.{read_streams_info_no_stream}
use sevenzip.Writer.Placement.Sizes.{sized, size_files_finished}
use sevenzip.Streams.{read_streams_info, write_streams_info}
use sevenzip.Streams.RoundTrip.{read_back}
use sevenzip.SubStreams.Sizes.{sum}
use sevenzip.Vectors.{IsCount}
use sevenzip.Number.{max_uint32}
use sevenzip.Header.{size_files}
use sevenzip.Lookup.{file_folder_and_size}
use sevenzip.Tests.Header.{whole, whole_fills}
use sevenzip.Tests.Writer.{still}

abbrev result : Result Writer → Writer
result (ok w) = w
result (err e) = new_writer false false 0

abbrev directory : FileHeader
directory = record no_file { name = 100 ∷ 47 ∷ [] }

abbrev plain_file : FileHeader
plain_file = record no_file { name = 97 ∷ []; attributes = 32 }

abbrev new : Writer
new = new_writer false false 1

abbrev with_directory : Writer
with_directory = result (create_header still directory new)

abbrev with_file : Writer
with_file = result (create_header still plain_file with_directory)

abbrev written_file : Writer
written_file = result (write_file still 1 (1 ∷ 2 ∷ 3 ∷ []) with_file)

abbrev two_files : Writer
two_files = result (create_header still plain_file written_file)

abbrev pub archive : Writer
archive = result (close_streams still two_files)

reached_archive : Reach still new two_files
unfolding new_writer create_header choose_dict_cap close_current place_file add_writer file_mode
    is_dir msdos_mode_to_file_mode open_folder close_active new_folder write_file close_file
    close_own_folder close_folder close_folder_writer send enter_sizes crc32 crc_update crc_bits
    close_streams close_solid await_coordinator
reached_archive =
    next
      (next
        (next (next here with_directory (creates directory refl)) with_file
          (creates plain_file refl))
        written_file (writes 1 (1 ∷ 2 ∷ 3 ∷ []) refl))
      two_files (creates plain_file refl)

closed_archive : close_streams still two_files ≡ ok archive
unfolding new_writer create_header choose_dict_cap close_current place_file add_writer file_mode
    is_dir msdos_mode_to_file_mode open_folder close_active new_folder write_file close_file
    close_own_folder close_folder close_folder_writer send enter_sizes crc32 crc_update crc_bits
    close_streams close_solid await_coordinator
closed_archive = refl

archive_fits : All (FitsHeader archive.files) archive.folders
unfolding new_writer create_header choose_dict_cap close_current place_file add_writer file_mode
    is_dir msdos_mode_to_file_mode open_folder close_active new_folder write_file close_file
    close_own_folder close_folder close_folder_writer send enter_sizes crc32 crc_update crc_bits
    close_streams close_solid await_coordinator files_of
archive_fits = (
  record {
    packed_fits = omega arith;
    compressed_fits = omega arith;
    properties_fit = omega arith;
    unpacked_fits = omega arith;
    checksums_fit = (omega arith, tt);
  },
  (
    record {
      packed_fits = omega arith;
      compressed_fits = omega arith;
      properties_fit = omega arith;
      unpacked_fits = omega arith;
      checksums_fit = (omega arith, tt);
    },
    tt,
  ),
)

archive_valid : All (IsDescribable archive.files) archive.folders
unfolding new_writer create_header choose_dict_cap close_current place_file add_writer file_mode
    is_dir msdos_mode_to_file_mode open_folder close_active new_folder write_file close_file
    close_own_folder close_folder close_folder_writer send enter_sizes crc32 crc_update crc_bits
    close_streams close_solid await_coordinator files_of
archive_valid =
    let (first, (second, end)) = archive_fits in
    (
      record { has_file = omega arith; pointers = refl; fits = first },
      (record { has_file = omega arith; pointers = refl; fits = second }, tt),
    )

two_folders : IsCount (length archive.folders)
unfolding new_writer create_header choose_dict_cap close_current place_file add_writer file_mode
    is_dir msdos_mode_to_file_mode open_folder close_active new_folder write_file close_file
    close_own_folder close_folder close_folder_writer send enter_sizes crc32 crc_update crc_bits
    close_streams close_solid await_coordinator files_of
two_folders = omega arith

few_files : sum (file_counts archive.folders) ≤ max_uint32
unfolding new_writer create_header choose_dict_cap close_current place_file add_writer file_mode
    is_dir msdos_mode_to_file_mode open_folder close_active new_folder write_file close_file
    close_own_folder close_folder close_folder_writer send enter_sizes crc32 crc_update crc_bits
    close_streams close_solid await_coordinator
few_files = omega arith

-- The directory keeps its sizes.
size_files_finished_example :
    size_files
      (read_back (describe_streams archive.files archive.folders))
      0
      (map (λ fi. fi.fh) archive.files)
    ≡ ok (map sized archive.files)
size_files_finished_example =
    size_files_finished still false false 1 reached_archive closed_archive archive_fits few_files

Reach-IsPlaced_example : IsPlaced two_files
Reach-IsPlaced_example = Reach-IsPlaced still false false 1 reached_archive

file_folder_and_size_finished_example :
    (i : ℕ) × (file_folder_and_size (read_back (describe_streams archive.files archive.folders)) 0
      ≡ ok (i, 3, crc32 (1 ∷ 2 ∷ 3 ∷ [])))
unfolding new_writer create_header choose_dict_cap close_current place_file add_writer file_mode
    is_dir msdos_mode_to_file_mode open_folder close_active new_folder write_file close_file
    close_own_folder close_folder close_folder_writer send enter_sizes crc32 crc_update crc_bits
    close_streams close_solid await_coordinator
file_folder_and_size_finished_example =
    file_folder_and_size_finished still false false 1 0 _ reached_archive closed_archive
      archive_fits few_files refl

read_streams_info-describe_streams_example :
    read_streams_info whole
      (write_streams_info (describe_streams archive.files archive.folders) ++ (7 ∷ []))
    ≡ ok (read_back (describe_streams archive.files archive.folders), 7 ∷ [])
read_streams_info-describe_streams_example =
    read_streams_info-describe_streams whole archive.files archive.folders (7 ∷ []) whole_fills
      archive_valid two_folders few_files

-- The same without the files.
abbrev directories : Writer
directories = result (close_streams still with_directory)

reached_directories : Reach still new with_directory
unfolding new_writer create_header choose_dict_cap close_current place_file add_writer file_mode
    is_dir msdos_mode_to_file_mode open_folder close_active new_folder write_file close_file
    close_own_folder close_folder close_folder_writer send enter_sizes crc32 crc_update crc_bits
    close_streams close_solid await_coordinator
reached_directories = next here with_directory (creates directory refl)

closed_directories : close_streams still with_directory ≡ ok directories
unfolding new_writer create_header choose_dict_cap close_current place_file add_writer file_mode
    is_dir msdos_mode_to_file_mode open_folder close_active new_folder write_file close_file
    close_own_folder close_folder close_folder_writer send enter_sizes crc32 crc_update crc_bits
    close_streams close_solid await_coordinator
closed_directories = refl

no_stream : with_stream directories.files ≡ []
unfolding new_writer create_header choose_dict_cap close_current place_file add_writer file_mode
    is_dir msdos_mode_to_file_mode open_folder close_active new_folder write_file close_file
    close_own_folder close_folder close_folder_writer send enter_sizes crc32 crc_update crc_bits
    close_streams close_solid await_coordinator
no_stream = refl

read_streams_info_no_stream_example :
    read_streams_info whole
      (write_streams_info (describe_streams directories.files directories.folders) ++ [])
    ≡ err uint64_non_zero
read_streams_info_no_stream_example =
    read_streams_info_no_stream still false false 1 whole [] reached_directories closed_directories
      no_stream
