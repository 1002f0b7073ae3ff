-- ===== src/Writer/Describe/Sized.antt =====
-- The folders that Writer.Close (writer.go) describes, with sizes that fit their fields.
use sevenzip.Prelude.{
  ℕ, ◌+◌, ◌%◌, ◌^◌, ◌≤◌, ◌<◌, ◌≡◌, refl, ◌∙◌, List, [], ◌∷◌, arith, length, length-append, map, All,
  inl, inr, Bool-cases,
}
use sevenzip.Stream.{Bytes}
use sevenzip.Number.{IsU64}
use sevenzip.Folder.{
  unpack_size, last_unbound, find_out_bind_pair, find_in_bind_pair, total_from, unbound_inputs,
}
use sevenzip.Unpack.RoundTrip.{IsSized}
use sevenzip.SubStreams.Sizes.{sum}
use sevenzip.Writer.State.{ArchiveFile, FolderWriter}
use sevenzip.Writer.Describe.{plain_folder, encrypted_folder, files_of, total_size, describe_folder}

abbrev pub sizes_of : List ArchiveFile → List ℕ
sizes_of files = map (λ fi. fi.uncomp_size) files

-- What a folder's entries in the header have room for.
pub record FitsHeader (files : List ArchiveFile) (f : FolderWriter) : Type 0 where
  pub packed_fits : IsU64 f.comp_count
  pub compressed_fits : IsU64 f.unenc_comp
  pub properties_fit : length f.salt + length f.iv ≤ 32
  pub unpacked_fits : sum (sizes_of (files_of files f.files)) < 2 ^ 64
  pub checksums_fit : All (λ fi. fi.crc < 2 ^ 32) (files_of files f.files)

-- A folder that can be described: it has a file, its pointers are good, and its entries fit.
pub record IsDescribable (files : List ArchiveFile) (f : FolderWriter) : Type 0 where
  pub has_file : 0 < length f.files
  pub pointers : length (files_of files f.files) ≡ length f.files
  pub fits : FitsHeader files f

abbrev pub file_counts : List FolderWriter → List ℕ
file_counts folders = map (λ f. length f.files) folders

total_size-sum :
    (total : ℕ) (files : List ArchiveFile)
    → total + sum (sizes_of files) < 2 ^ 64
    → total_size total files ≡ total + sum (sizes_of files)
unfolding total_size
total_size-sum total [] h = omega arith
total_size-sum total (fi ∷ files) h =
    let e : (total + fi.uncomp_size) % 2 ^ 64 ≡ total + fi.uncomp_size = omega arith in
    rw (e) (total_size-sum (total + fi.uncomp_size) files (omega arith) ∙ omega arith)

pub plain_folder-IsSized : (prop_byte size : ℕ) → IsU64 size → IsSized (plain_folder prop_byte size)
unfolding total_from unbound_inputs find_in_bind_pair
plain_folder-IsSized prop_byte size h = (
  record {
    coder_count = omega arith;
    coder_fits = (
      record {
        id_short = omega arith;
        in_count = omega arith;
        out_count = omega arith;
        properties_short = omega arith;
      },
      tt,
    );
    in_total = refl;
    out_total = refl;
    in_count = omega arith;
    out_count = omega arith;
    enough_inputs = omega arith;
    pair_count = refl;
    pair_fits = tt;
    packed_total = refl;
    packed_one = λ h. refl;
    packed_many = λ h. absurd (omega (arith, h));
    packed_fits = (omega arith, tt);
  },
  refl,
  (h, tt),
)

pub encrypted_folder-IsSized :
    (salt iv : Bytes) (prop_byte compressed size : ℕ)
    → length salt + length iv ≤ 32
    → IsU64 compressed
    → IsU64 size
    → IsSized (encrypted_folder salt iv prop_byte compressed size)
unfolding total_from unbound_inputs find_in_bind_pair
encrypted_folder-IsSized salt iv prop_byte compressed size short hc h = (
  record {
    coder_count = omega arith;
    coder_fits = (
      record {
        id_short = omega arith;
        in_count = omega arith;
        out_count = omega arith;
        properties_short = omega (arith, short, length-append salt iv);
      },
      (
        record {
          id_short = omega arith;
          in_count = omega arith;
          out_count = omega arith;
          properties_short = omega arith;
        },
        tt,
      ),
    );
    in_total = refl;
    out_total = refl;
    in_count = omega arith;
    out_count = omega arith;
    enough_inputs = omega arith;
    pair_count = refl;
    pair_fits = ((omega arith, omega arith), tt);
    packed_total = refl;
    packed_one = λ h. refl;
    packed_many = λ h. absurd (omega (arith, h));
    packed_fits = (omega arith, tt);
  },
  refl,
  (hc, (h, tt)),
)

module _ (files : List ArchiveFile) (f : FolderWriter) (valid : IsDescribable files f) where
  pub unpacked-sum : total_size 0 (files_of files f.files) ≡ sum (sizes_of (files_of files f.files))
  unpacked-sum =
      total_size-sum 0 (files_of files f.files) (omega (arith, valid.fits.unpacked_fits))
      ∙ omega arith

  unpacked-IsU64 : IsU64 (total_size 0 (files_of files f.files))
  unpacked-IsU64 = omega (arith, unpacked-sum, valid.fits.unpacked_fits)

  pub unpack_size-describe_folder :
      unpack_size (describe_folder files f) ≡ sum (sizes_of (files_of files f.files))
  unfolding describe_folder unpack_size last_unbound find_out_bind_pair
  unpack_size-describe_folder = elim (Bool-cases f.is_encrypted) [
    | inl e ↦ simp (e) unpacked-sum
    | inr e ↦ simp (e) unpacked-sum
  ]

  pub describe_folder-IsSized : IsSized (describe_folder files f)
  unfolding describe_folder
  describe_folder-IsSized = elim (Bool-cases f.is_encrypted) [
    | inl e ↦ rw e (
        encrypted_folder-IsSized f.salt f.iv f.prop_byte f.unenc_comp
          (total_size 0 (files_of files f.files)) valid.fits.properties_fit
          valid.fits.compressed_fits unpacked-IsU64)
    | inr e ↦
        rw e
          (plain_folder-IsSized f.prop_byte (total_size 0 (files_of files f.files)) unpacked-IsU64)
  ]
