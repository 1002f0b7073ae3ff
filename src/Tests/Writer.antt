-- ===== src/Tests/Writer.antt =====
-- The Writer of writer.go on a small archive, with a compressor and a cipher that change nothing.
use sevenzip.Prelude.{
  ◌%◌, ◌+◌, ◌++◌, ℕ, zero, suc, ◌*◌, ◌/◌, ◌^◌, ◌<◌, ◌≡◌, refl, true, false, [], ◌∷◌, replicate,
  arith, map, ◌||◌,
}
use sevenzip.Stream.{Bytes}
use sevenzip.Files.{FileHeader, no_file}
use sevenzip.Files.Mode.{file_mode, is_dir, ends_in_slash}
use sevenzip.Files.Mode.IsDir.{directory_attributes, is_dir-file_mode}
use sevenzip.Writer.State.{Environment}
use sevenzip.Writer.Spool.{new_spool, spool_reader, write_all, spool_reader_writes}
use sevenzip.Writer.Coordinator.{coordinate, start}
use sevenzip.Writer.Coordinator.Order.{copy_all, coordinate_first, has}
use sevenzip.Writer.Aes.{aes_close, new_aes_writer}
use sevenzip.Writer.Aes.Splits
use sevenzip.Writer.Aes.Splits.{aes_close-padded, padded}

abbrev pub still : Environment
still = record {
  compress = λ dict_cap concurrency s. s;
  encode_dict_cap = λ n. n / 2 ^ 20;
  decode_dict_cap = λ n. n * 2 ^ 20;
  min_dict_cap = 4096;
  Mode = Unit;
  cbc = λ salt iv. tt;
  crypt = λ mode block. (block, mode);
  random = λ call size. replicate size call;
  num_cpu = 4;
}

abbrev folder_of_files : FileHeader
folder_of_files = record no_file { name = 100 ∷ 47 ∷ []; attributes = 0 }

is_dir-file_mode_example :
    is_dir (file_mode folder_of_files)
    ≡ (ends_in_slash folder_of_files.name || directory_attributes folder_of_files.attributes)
is_dir-file_mode_example = is_dir-file_mode folder_of_files (omega arith)

spool_reader_writes_example :
    spool_reader (write_all new_spool ((1 ∷ 2 ∷ []) ∷ (3 ∷ []) ∷ [])) ≡ 1 ∷ 2 ∷ 3 ∷ []
spool_reader_writes_example = spool_reader_writes ((1 ∷ 2 ∷ []) ∷ (3 ∷ []) ∷ [])

both_arrive : (s : ℕ) → s < 2 → has s (1 ∷ 3 ∷ 0 ∷ []) ≡ true
both_arrive zero h = refl
both_arrive (suc zero) h = refl
both_arrive (suc (suc s)) h = absurd (omega arith)

-- Folder 2 does not arrive, and holds back folder 3.
coordinate_first_example :
    let c = coordinate copy_all (start (9 ∷ [])) (map (λ s. (s, s ∷ s ∷ [])) (1 ∷ 3 ∷ 0 ∷ [])) in
    (c.sink ≡ 9 ∷ 0 ∷ 0 ∷ 1 ∷ 1 ∷ []) × (c.failed ≡ false) × (c.write_seq ≡ 2)
coordinate_first_example =
    coordinate_first (9 ∷ []) (λ s. s ∷ s ∷ []) (1 ∷ 3 ∷ 0 ∷ []) 2 (refl, (refl, (refl, tt)))
      both_arrive refl

-- A cipher that adds to each byte of a block, and to the mode, which is what it adds.
abbrev counting : ℕ → Bytes → Bytes × ℕ
counting mode block = (map (λ b. (b + 100 + mode) % 256) block, suc mode)

aes_close-padded_example :
    (aes_close counting (
      Splits.write_all counting
        (new_aes_writer counting 0)
        (replicate 10 7 ∷ replicate 10 8 ∷ []))).sink
    ≡ replicate 10 107 ++ (replicate 6 108 ++ (replicate 4 109 ++ replicate 12 101))
aes_close-padded_example = aes_close-padded counting 0 (replicate 10 7 ∷ replicate 10 8 ∷ [])
