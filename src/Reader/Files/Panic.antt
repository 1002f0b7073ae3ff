-- ===== src/Reader/Files/Panic.antt =====
-- Reader.init (reader.go) on a header without a streamsInfo.
use sevenzip.Prelude.{
  arith, ◌≡◌, refl, ap, Bool, true, false, none, ℕ, List, [], ◌∷◌, ◌||◌, if_split,
}
use sevenzip.Stream.{Result, ok, err, bind, panic}
use sevenzip.Files.{FileHeader}
use sevenzip.Reader.Files.{File, has_data, locate_file, with_slash, place_files}

abbrev pub some_data : List FileHeader → Bool
some_data [] = false
some_data (fh ∷ fhs) = has_data fh || some_data fhs

or_false : (b c : Bool) → (b || c) ≡ true → b ≡ false → c ≡ true
or_false b c h e = ground arith

-- Where there is no streamsInfo but a file with a stream, the loop over the files panics.
pub place_files_panic :
    (folder offset j : ℕ) (fhs : List FileHeader)
    → some_data fhs ≡ true
    → place_files none folder offset j fhs ≡ err panic
unfolding place_files locate_file
place_files_panic folder offset j [] h = cc
place_files_panic folder offset j (fh ∷ fhs) h =
    if_split (λ (r : Result (List File)). r ≡ err panic) (has_data fh) _ _ (λ has. refl)
      λ none'.
        ap
          (λ r.
            bind r
              (λ files. ok (record { header = with_slash fh; folder = 0; offset = 0 } ∷ files)))
          (place_files_panic folder offset j fhs (or_false (has_data fh) (some_data fhs) h none'))
