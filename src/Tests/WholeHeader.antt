-- ===== src/Tests/WholeHeader.antt =====
-- A whole header without streams is written and read back (types.go, write_struct.go).
use sevenzip.Prelude.{inl, inr, ◌++◌, arith, ◌≡◌, refl, some, none, List, [], ◌∷◌, true}
use sevenzip.Stream.{err, panic, ok, read_byte, read_full, read_le, le_number, le_bytes}
use sevenzip.Number.{
  check_uint64, read_uint64, read_uint64_bounded, read_low, low_mask, leading_zeros8, write_uint64,
}
use sevenzip.Vectors.{
  read_bool, read_bits, read_optional_bool, read_defined, write_bool, write_bits,
  write_optional_bool, all_true, write_defined,
}
use sevenzip.Sections.{section, write_section}
use sevenzip.Files.{
  FileHeader, no_file, time_to_filetime, read_time, read_times, read_defined_times, read_attributes,
  read_names, scan, split_null, index_null, unix_seconds, unix_time,
}
use sevenzip.Files.Read.{
  read_all_properties, read_files_info, read_property, read_empty_streams, read_empty_files,
  read_time_property, read_names_property, read_attributes_property, assign, set_empty_streams,
  set_empty_files, skip,
}
use sevenzip.Files.Write.{
  has_time, write_times, write_time_prop, encode_rune, utf16_encode, write_units, write_names,
  empty_files, write_empty, write_attributes, write_optional_time, write_files_info,
}
use sevenzip.Header.{Header, read_header, read_encoded_header, complete, size_files, write_header}
use sevenzip.Files.Props.Whole.{IsFiles, read_files_info-write_files_info}
use sevenzip.Tests.Files.{libraries-DecodesUtf16, libraries-ConvertsFiletimes, libraries, new_year}
use sevenzip.Header.Panic.{size_files_panic}
use sevenzip.Tests.Header.{whole, streams, sub}

abbrev three_files : List FileHeader
three_files =
    record no_file { name = 97 ∷ []; modified = new_year; attributes = 32 }
    ∷ record no_file { name = 98 ∷ 99 ∷ []; is_empty_stream = true; attributes = 16 }
    ∷ record no_file { name = 0x20ac ∷ []; is_empty_stream = true; is_empty_file = true }
    ∷ []

three_files-IsFiles : IsFiles three_files
unfolding write_names write_units utf16_encode encode_rune write_optional_bool write_bool write_bits
    all_true write_times write_defined le_bytes
three_files-IsFiles = record {
  counted = omega arith;
  names_valid = omega arith;
  names_scalar = (
    (inl (omega arith), tt),
    ((inl (omega arith), (inl (omega arith), tt)), ((inl (omega arith), tt), tt)),
  );
  names_small = omega arith;
  created_times = record { fit = (inl refl, (inl refl, (inl refl, tt))); small = omega arith };
  accessed_times = record { fit = (inl refl, (inl refl, (inl refl, tt))); small = omega arith };
  modified_times = record {
    fit = (inr (omega arith, omega arith), (inl refl, (inl refl, tt)));
    small = omega arith;
  };
  attributes_fit = omega arith;
  attributes_small = omega arith;
}

-- Three files come back as they were written: a file, a directory and an empty file.
read_files_info-write_files_info_example :
    read_files_info libraries (write_files_info three_files ++ (7 ∷ [])) ≡ ok (three_files, 7 ∷ [])
read_files_info-write_files_info_example =
    read_files_info-write_files_info libraries three_files (7 ∷ []) libraries-DecodesUtf16
      libraries-ConvertsFiletimes three_files-IsFiles

no_streams : Header
no_streams = record { streams_info = none; files_info = some three_files }

header_back :
    read_encoded_header libraries whole (1 ∷ write_header no_streams) ≡ ok (no_streams, [])
unfolding no_streams read_byte read_full read_le le_number le_bytes check_uint64 read_uint64
    read_uint64_bounded read_low low_mask leading_zeros8 write_uint64 read_bool read_bits
    read_optional_bool read_defined write_bool write_bits write_optional_bool all_true write_defined
    section write_section time_to_filetime read_time read_times read_defined_times read_attributes
    read_names scan split_null index_null unix_seconds unix_time read_all_properties read_files_info
    read_property read_empty_streams read_empty_files read_time_property read_names_property
    read_attributes_property assign set_empty_streams set_empty_files skip has_time write_times
    write_time_prop encode_rune utf16_encode write_units write_names empty_files write_empty
    write_attributes write_optional_time write_files_info read_header read_encoded_header complete
    size_files write_header
header_back = refl

-- Three files with a stream, and two checksums.
size_files_panic_example : size_files streams 0 (no_file ∷ no_file ∷ no_file ∷ []) ≡ err panic
size_files_panic_example =
    size_files_panic streams sub 0 (no_file ∷ no_file ∷ no_file ∷ []) refl (omega arith)
      (omega arith) (omega arith)
