-- ===== src/Writer/Placement/Enter.antt =====
-- The file that CreateHeader (writer.go) enters, in the list of files and in a folder.
use sevenzip.Prelude.{
  if_split, ℕ, zero, suc, ◌<◌, ◌≡◌, refl, ap, ◌∙◌, sym, Bool, not, Option, none, List, [], ◌∷◌,
  ◌++◌, append_assoc, append-nil, arith, length, length-append, modify, if◌then◌else◌,
}
use sevenzip.Files.{FileHeader}
use sevenzip.Writer.State.{Environment, FolderWriter, Writer}
use sevenzip.Writer.Create.{modify_folder, open_folder, add_to_folder, add_writer, place_file}
use sevenzip.Writer.Layout.{layout, streams, SameLayout}
use sevenzip.Writer.Placement.{
  modify-append, All-snoc, IsArranged, IsPlaced, IsPlaced-SameLayout, numbers_in, numbers_in-append,
  stream_numbers, stream_numbers-append,
}
use sevenzip.Writer.Placement.Open.{IsOpen, open_folder-IsOpen}

snoc_nonempty : (xs : List ℕ) (x : ℕ) → 0 < length (xs ++ (x ∷ []))
snoc_nonempty xs x = omega (arith, length-append xs (x ∷ []))

layout-modify :
    (env : Environment) (size file : ℕ) (folders : List FolderWriter) (i : ℕ)
    → layout (modify (add_to_folder env size file) folders i)
      ≡ modify (λ xs. xs ++ (file ∷ [])) (layout folders) i
layout-modify env size file [] i = refl
layout-modify env size file (f ∷ folders) zero = refl
layout-modify env size file (f ∷ folders) (suc i) =
    ap (λ t. f.files ∷ t) (layout-modify env size file folders i)

module _ (env : Environment) (size file : ℕ) {v : Writer} (w : Writer) (o : IsOpen v w) where
  abbrev added : Writer
  added = record w {
    folders = modify_folder env (add_to_folder env size file) w.active_fold w.folders;
  }

  layout-added : layout added.folders ≡ o.before ++ ((o.last ++ (file ∷ [])) ∷ [])
  layout-added =
      ap (λ a. layout (modify_folder env (add_to_folder env size file) a w.folders)) o.active
      ∙ (layout-modify env size file w.folders (length o.before)
          ∙ (ap (λ t. modify (λ xs. xs ++ (file ∷ [])) t (length o.before)) o.split
              ∙ modify-append (λ xs. xs ++ (file ∷ [])) o.before o.last))

  added-IsArranged : IsArranged added
  added-IsArranged = record {
    none_empty = rw (layout-added) (
        All-snoc (λ (xs : List ℕ). 0 < length xs) o.before (o.last ++ (file ∷ [])) o.none_empty
          (snoc_nonempty o.last file));
    grouped = rw (layout-added, o.same_solid) (o.room file);
    active_last =
        rw (layout-added, o.active)
          (omega (arith, length-append o.before ((o.last ++ (file ∷ [])) ∷ [])));
  }

  numbers_in-added :
      numbers_in (layout added.folders) ≡ numbers_in (layout v.folders) ++ (file ∷ [])
  numbers_in-added =
      ap numbers_in layout-added
      ∙ (numbers_in-append o.before (o.last ++ (file ∷ []))
          ∙ (sym (append_assoc (numbers_in o.before) o.last (file ∷ []))
              ∙ ap (λ t. t ++ (file ∷ [])) o.numbers))

module _ (env : Environment) (file : ℕ) where
  add_writer-SameLayout : (fold : Option ℕ) (w : Writer) → SameLayout w (add_writer env file fold w)
  unfolding add_writer
  add_writer-SameLayout fold w = record {
    same_layout = refl;
    same_streams = refl;
    same_active = refl;
    same_solid = refl;
  }

  add_writer-IsPlaced :
      (fold : Option ℕ) (w : Writer)
      → IsArranged w
      → numbers_in (layout w.folders) ≡ stream_numbers 0 (streams w.files)
      → IsPlaced (add_writer env file fold w)
  add_writer-IsPlaced fold w p order =
      IsPlaced-SameLayout (add_writer-SameLayout fold w) (record { arranged = p; in_order = order })

-- The file takes the next number, and if it has a stream the end of the last folder.
pub place_file-IsPlaced :
    (env : Environment) (fh : FileHeader) (prop_byte dict_cap file : ℕ) (w : Writer)
    (bs : List Bool)
    → IsArranged w
    → numbers_in (layout w.folders) ≡ stream_numbers 0 bs
    → streams w.files ≡ bs ++ (not fh.is_empty_stream ∷ [])
    → file ≡ length bs
    → IsPlaced (place_file env fh prop_byte dict_cap file w)
unfolding place_file
place_file-IsPlaced env fh prop_byte dict_cap file w bs p order entered number =
    let after : stream_numbers 0 (streams w.files)
        ≡ stream_numbers 0 bs ++ (if not fh.is_empty_stream then file ∷ [] else []) =
      ap (stream_numbers 0) entered
      ∙ (stream_numbers-append 0 bs (not fh.is_empty_stream)
          ∙ ap (λ k. stream_numbers 0 bs ++ (if not fh.is_empty_stream then k ∷ [] else []))
              (omega (arith, number))) in
    let w' : Writer = open_folder env fh prop_byte dict_cap w in
    let o : IsOpen w w' = open_folder-IsOpen env fh prop_byte dict_cap w p in
    let placed : Writer = added env fh.uncompressed_size file w' o in
    if_split IsPlaced fh.is_empty_stream (add_writer env file none w)
      (add_writer env file w'.active_fold placed)
      (λ e. add_writer-IsPlaced env file none w p (
        order
        ∙ sym (
            after
            ∙ (ap (λ b. stream_numbers 0 bs ++ (if not b then file ∷ [] else [])) e
                ∙ append-nil (stream_numbers 0 bs)))))
      (λ e.
        add_writer-IsPlaced env file w'.active_fold placed
          (added-IsArranged env fh.uncompressed_size file w' o)
          (numbers_in-added env fh.uncompressed_size file w' o
            ∙ (ap (λ t. t ++ (file ∷ [])) order
                ∙ sym (
                    ap (stream_numbers 0) o.same_files
                    ∙ (after
                        ∙ ap (λ b. stream_numbers 0 bs ++ (if not b then file ∷ [] else [])) e)))))
