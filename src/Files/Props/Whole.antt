-- ===== src/Files/Props/Whole.antt =====
-- readFilesInfo (types.go) on all that writeFilesInfo (write_struct.go) writes.
use sevenzip.Prelude.{
  true, ℕ, suc, ◌^◌, ◌<◌, ◌≡◌, refl, ap, List, ◌∷◌, ◌++◌, append_assoc, map, length, All, ◌&&◌, ◌∙◌,
  replicate,
}
use sevenzip.PropertyId
use sevenzip.Stream.{Bytes, ok, read_byte}
use sevenzip.Number.{write_uint64, read_uint64_bounded}
use sevenzip.Pack.RoundTrip.{read_uint64_bounded-write_uint64}
use sevenzip.Vectors.{IsCount}
use sevenzip.Vectors.RoundTrip.{FitsWidth}
use sevenzip.Files.{Libraries, FileHeader, no_file}
use sevenzip.Files.Names.{IsName, DecodesUtf16}
use sevenzip.Files.Props.{state, looped, then_ok}
use sevenzip.Files.Props.Empty.{emptied, empty_round, replicate-map}
use sevenzip.Files.Props.Times.{
  created, accessed, modified, FitsTime, rounded, time_body, timed, time_round,
}
use sevenzip.Files.Props.Values.{
  names_of, named, names_round, attributes_of, attributes_body, attributed, attributes_round,
}
use sevenzip.Files.Read.{FilesState, read_all_properties, read_files_info}
use sevenzip.Files.Times.{ConvertsFiletimes}
use sevenzip.Files.Utf16.{IsScalar}
use sevenzip.Files.Write.{
  write_names, write_empty, write_optional_time, write_attributes, write_property, write_files_info,
}

-- The times of the files, and the length of their property.
pub record AreTimes (get : FileHeader → ℕ) (files : List FileHeader) : Type 0 where
  pub fit : All FitsTime (map get files)
  pub small : length (time_body get files) < 2 ^ 64

-- Files that the header can hold: a file at least, names that can be read back, and times, attributes
-- and properties that fit their fields.
pub record IsFiles (files : List FileHeader) : Type 0 where
  pub counted : IsCount (length files)
  pub names_valid : All IsName (names_of files)
  pub names_scalar : All (All IsScalar) (names_of files)
  pub names_small : suc (length (write_names (names_of files))) < 2 ^ 63
  pub created_times : AreTimes (λ f. f.created) files
  pub accessed_times : AreTimes (λ f. f.accessed) files
  pub modified_times : AreTimes (λ f. f.modified) files
  pub attributes_fit : All (FitsWidth 4) (attributes_of files)
  pub attributes_small : length (attributes_body files) < 2 ^ 64

-- What comes back of a file: its times are rounded down to hundreds of nanoseconds, a file with a
-- stream is no empty file, and the fields that do not stand in this section are at zero.
abbrev pub read_back_file : FileHeader → FileHeader
read_back_file f = record no_file {
  name = f.name;
  created = rounded f.created;
  accessed = rounded f.accessed;
  modified = rounded f.modified;
  attributes = f.attributes;
  is_empty_stream = f.is_empty_stream;
  is_empty_file = f.is_empty_stream && f.is_empty_file;
}

module _ (lib : Libraries) (files : List FileHeader) (rest : Bytes) where
  -- All that follows the number of the files, with each property apart.
  abbrev after_names : Bytes
  after_names = write_attributes files ++ (PropertyId.end ∷ rest)

  abbrev after_times : Bytes
  after_times = write_property PropertyId.name (0 ∷ write_names (names_of files)) ++ after_names

  abbrev optional_times : Bytes
  optional_times =
      write_optional_time PropertyId.ctime (λ f. f.created) files
      ++ (write_optional_time PropertyId.atime (λ f. f.accessed) files
          ++ (write_optional_time PropertyId.mtime (λ f. f.modified) files ++ after_times))

  end_round :
      (st : FilesState) → looped lib (length files) st (PropertyId.end ∷ rest) ≡ ok (st.file, rest)
  unfolding read_all_properties read_byte
  end_round st = refl

  all_rounds :
      DecodesUtf16 lib
      → ConvertsFiletimes lib
      → IsFiles files
      → looped lib
          (length files)
          (state files (λ f. no_file) 0)
          (write_empty files ++ optional_times)
        ≡ ok (map read_back_file files, rest)
  all_rounds decodes converts valid =
      let (k, first) = empty_round lib files valid.counted optional_times in
      let h1 = timed lib created files emptied k in
      let h2 = timed lib accessed files h1 k in
      let h3 = timed lib modified files h2 k in
      let h4 = named lib files h3 k in
      first
      ∙ (time_round lib created files emptied k _ converts valid.counted valid.created_times.fit
            valid.created_times.small (λ f. refl)
          ∙ (time_round lib accessed files h1 k _ converts valid.counted valid.accessed_times.fit
                valid.accessed_times.small (λ f. refl)
              ∙ (time_round lib modified files h2 k _ converts valid.counted
                    valid.modified_times.fit valid.modified_times.small (λ f. refl)
                  ∙ (names_round lib files h3 k after_names decodes valid.counted valid.names_valid
                        valid.names_scalar valid.names_small
                      ∙ (attributes_round lib files h4 k (PropertyId.end ∷ rest) valid.counted
                            valid.attributes_fit valid.attributes_small (λ f. refl)
                          ∙ end_round (state files (attributed lib files h4 k) k))))))

  written :
      write_files_info files ++ rest
      ≡ write_uint64 (length files) ++ (write_empty files ++ optional_times)
  unfolding write_files_info
  written = simp (append_assoc) refl

  -- readFilesInfo gives back the files that writeFilesInfo wrote, each with its own name, times,
  -- attributes and marks: the times rounded down to hundreds of nanoseconds, a file with a stream as no
  -- empty file. The files fit their fields, the decoder follows the definition of UTF-16 and
  -- Filetime.Nanoseconds converts.
  pub read_files_info-write_files_info :
      DecodesUtf16 lib
      → ConvertsFiletimes lib
      → IsFiles files
      → read_files_info lib (write_files_info files ++ rest) ≡ ok (map read_back_file files, rest)
  unfolding read_files_info
  read_files_info-write_files_info decodes converts valid =
      let body = write_empty files ++ optional_times in
      ap (read_files_info lib) written
      ∙ (then_ok (read_uint64_bounded true)
            (λ n s.
              read_all_properties lib n (length s)
                (record { file = replicate n no_file; empty_streams = 0 }) s)
            (write_uint64 (length files) ++ body)
            (read_uint64_bounded-write_uint64 (length files) body valid.counted)
          ∙ (ap (λ fs. looped lib (length files) (record { file = fs; empty_streams = 0 }) body)
                (replicate-map files)
              ∙ all_rounds decodes converts valid))
