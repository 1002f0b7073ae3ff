-- ===== src/Files/Write.antt =====
-- write_struct.go (hasTime, writeTimeProp, writeFilesInfo): the properties of the files as they are
-- written. The list of anti-files that writeFilesInfo gathers is not used there.
use sevenzip.Prelude.{
  ℕ, ◌+◌, ◌-◌, ◌/◌, ◌%◌, ◌^◌, Bool, false, not, ◌&&◌, ◌||◌, List, [], ◌∷◌, ◌++◌, map, length, ltb,
  leb, ◌==◌, if◌then◌else◌,
}
use sevenzip.PropertyId
use sevenzip.Stream.{Bytes, le_bytes}
use sevenzip.Number.{byte, write_uint64}
use sevenzip.Vectors.{write_bool, write_optional_bool, write_defined}
use sevenzip.Files.{FileHeader, time_to_filetime}

-- The identifier, the length and the bytes of a property that is gathered in a buffer.
abbrev pub write_property : ℕ → Bytes → Bytes
write_property id body = id ∷ (write_uint64 (length body) ++ body)

abbrev pub any : List Bool → Bool
any [] = false
any (b ∷ bs) = b || any bs

unfoldable pub has_time : (FileHeader → ℕ) → List FileHeader → Bool
has_time get files = any (map (λ f. not (get f == 0)) files)

unfoldable pub write_times : List ℕ → Bytes
write_times [] = []
write_times (t ∷ times) =
    let later = write_times times in
    if t == 0 then later else le_bytes 8 (time_to_filetime t) ++ later

unfoldable pub write_time_prop : ℕ → (FileHeader → ℕ) → List FileHeader → Bytes
write_time_prop id get files =
    write_property id
      (write_optional_bool (map (λ f. not (get f == 0)) files) ++ (0 ∷ write_times (map get files)))

-- utf16.Encode of a rune: a pair of surrogates above 0xffff, and U+FFFD for what is no character.
unfoldable pub encode_rune : ℕ → List ℕ
encode_rune r =
    if ltb r 0xd800 || (leb 0xe000 r && ltb r 0x10000)
    then r ∷ []
    else if leb 0x10000 r && leb r 0x10ffff
    then (0xd800 + (r - 0x10000) / 2 ^ 10) ∷ (0xdc00 + (r - 0x10000) % 2 ^ 10) ∷ []
    else 0xfffd ∷ []

unfoldable pub utf16_encode : List ℕ → List ℕ
utf16_encode [] = []
utf16_encode (r ∷ name) = encode_rune r ++ utf16_encode name

unfoldable pub write_units : List ℕ → Bytes
write_units [] = []
write_units (u ∷ units) = byte u ∷ byte (u / 2 ^ 8) ∷ write_units units

unfoldable pub write_names : List (List ℕ) → Bytes
write_names [] = []
write_names (name ∷ names) = write_units (utf16_encode name) ++ (0 ∷ 0 ∷ write_names names)

unfoldable pub empty_files : List FileHeader → List Bool
empty_files [] = []
empty_files (f ∷ files) =
    let rest = empty_files files in if f.is_empty_stream then f.is_empty_file ∷ rest else rest

-- The vector of bits of a property, with its length computed beforehand.
abbrev pub write_bits_property : ℕ → List Bool → Bytes
write_bits_property id bits = id ∷ (write_uint64 ((length bits + 7) / 8) ++ write_bool bits)

unfoldable pub write_empty : List FileHeader → Bytes
write_empty files =
    let streams = map (λ f. f.is_empty_stream) files in
    let empty = empty_files files in
    if any streams
    then write_bits_property PropertyId.empty_stream streams
      ++ (if any empty then write_bits_property PropertyId.empty_file empty else [])
    else []

unfoldable pub write_attributes : List FileHeader → Bytes
write_attributes files =
    let attributes = map (λ f. f.attributes) files in
    let defined = map (λ f. not (f.attributes == 0)) files in
    if any defined
    then write_property PropertyId.win_attributes
        (write_optional_bool defined ++ (0 ∷ write_defined 4 attributes defined))
    else []

unfoldable pub write_optional_time : ℕ → (FileHeader → ℕ) → List FileHeader → Bytes
write_optional_time id get files = if has_time get files then write_time_prop id get files else []

unfoldable pub write_files_info : List FileHeader → Bytes
write_files_info files =
    write_uint64 (length files)
    ++ (write_empty files
        ++ (write_optional_time PropertyId.ctime (λ f. f.created) files
            ++ (write_optional_time PropertyId.atime (λ f. f.accessed) files
                ++ (write_optional_time PropertyId.mtime (λ f. f.modified) files
                    ++ (write_property PropertyId.name (0 ∷ write_names (map (λ f. f.name) files))
                        ++ (write_attributes files ++ (PropertyId.end ∷ [])))))))
