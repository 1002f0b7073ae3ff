-- ===== src/Writer/Placement/Open.antt =====
-- The folder that CreateHeader (writer.go) opens, or finds open, for a file.
use sevenzip.Prelude.{
  subst, if_split, option_split, ℕ, suc, ◌+◌, ◌<◌, ◌≡◌, refl, ap, ◌∙◌, sym, Bool, true, false, some,
  List, [], ◌∷◌, ◌++◌, append-nil, arith, length, length-append, length-map, All, if◌then◌else◌,
}
use sevenzip.Files.{FileHeader}
use sevenzip.Writer.State.{Environment, Writer}
use sevenzip.Writer.Create.{close_active, new_folder, open_folder}
use sevenzip.Writer.Layout.{layout, streams, SameLayout, close_active-SameLayout}
use sevenzip.Writer.Placement.{
  All-init, All-snoc, IsArranged, IsGrouped, IsLast, last_entry, map-append, numbers_in,
  numbers_in-append,
}

-- The folder that open_folder leaves for the next file: the last one.
pub record IsOpen (v w : Writer) : Type 0 where
  pub before : List (List ℕ)
  pub last : List ℕ
  pub split : layout w.folders ≡ before ++ (last ∷ [])
  pub active : w.active_fold ≡ some (length before)
  pub numbers : numbers_in before ++ last ≡ numbers_in (layout v.folders)
  pub none_empty : All (λ (xs : List ℕ). 0 < length xs) before
  pub room : (file : ℕ) → IsGrouped v.solid (before ++ ((last ++ (file ∷ [])) ∷ []))
  pub same_files : streams w.files ≡ streams v.files
  pub same_solid : w.solid ≡ v.solid

pub IsGrouped-snoc :
    (solid : Bool) (xss : List (List ℕ)) (file : ℕ)
    → IsGrouped solid xss
    → (solid ≡ true → xss ≡ [])
    → IsGrouped solid (xss ++ ((file ∷ []) ∷ []))
IsGrouped-snoc true xss file g e = rw (e refl) (omega arith)
IsGrouped-snoc false xss file g e = All-snoc (λ (xs : List ℕ). length xs ≡ 1) xss (file ∷ []) g refl

pub IsGrouped-again :
    (solid : Bool) (xss : List (List ℕ)) (last : List ℕ) (file : ℕ)
    → solid ≡ true
    → IsGrouped solid (xss ++ (last ∷ []))
    → IsGrouped solid (xss ++ ((last ++ (file ∷ [])) ∷ []))
IsGrouped-again true xss last file e g =
    omega (arith, g, length-append xss (last ∷ []), length-append xss ((last ++ (file ∷ [])) ∷ []))
IsGrouped-again false xss last file e g = cc

module _ (env : Environment) (fh : FileHeader) (prop_byte dict_cap : ℕ) where
  -- A new folder is opened.
  opened-IsOpen :
      (v w : Writer) (calls : ℕ)
      → IsArranged v
      → SameLayout v w
      → (v.solid ≡ true → layout v.folders ≡ [])
      → IsOpen v (record w {
        folders = w.folders ++ (new_folder env fh prop_byte dict_cap w ∷ []);
        active_fold = some (length w.folders);
        calls = calls;
      })
  unfolding new_folder
  opened-IsOpen v w calls p h e = record {
    before = layout v.folders;
    last = [];
    split =
        map-append (λ f. f.files) w.folders (new_folder env fh prop_byte dict_cap w ∷ [])
        ∙ ap (λ t. t ++ ([] ∷ [])) h.same_layout;
    active = ap some (sym (length-map w.folders (λ f. f.files)) ∙ ap length h.same_layout);
    numbers = append-nil (numbers_in (layout v.folders));
    none_empty = p.none_empty;
    room = λ file. IsGrouped-snoc v.solid (layout v.folders) file p.grouped e;
    same_files = h.same_streams;
    same_solid = h.same_solid;
  }

  -- A solid archive has a folder already.
  again-IsOpen :
      (w : Writer) (i : ℕ) → IsArranged w → w.active_fold ≡ some i → w.solid ≡ true → IsOpen w w
  again-IsOpen w i p e solid =
      let is_last : suc i ≡ length (layout w.folders) =
        subst (λ o. IsLast o (layout w.folders)) e p.active_last in
      let (before, last, split, counted) = last_entry (layout w.folders) i is_last in
      record {
        before = before;
        last = last;
        split = split;
        active = rw (counted) e;
        numbers = sym (numbers_in-append before last) ∙ ap numbers_in (sym split);
        none_empty =
            All-init (λ (xs : List ℕ). 0 < length xs) before last (rw (← split) p.none_empty);
        room = λ file. IsGrouped-again w.solid before last file solid (rw (← split) p.grouped);
        same_files = refl;
        same_solid = refl;
      }

  pub open_folder-IsOpen :
      (w : Writer) → IsArranged w → IsOpen w (open_folder env fh prop_byte dict_cap w)
  unfolding open_folder
  open_folder-IsOpen w p =
      let w' : Writer = close_active env w in
      let opens : (w.solid ≡ true → layout w.folders ≡ [])
          → IsOpen w (record w' {
            folders = w'.folders ++ (new_folder env fh prop_byte dict_cap w' ∷ []);
            active_fold = some (length w'.folders);
            calls = (if w.encrypted then w'.calls + 2 else w'.calls);
          }) =
        opened-IsOpen w w' _ p (close_active-SameLayout env w) in
      option_split (IsOpen w) w.active_fold _ _
        (λ e. opens (λ solid. subst (λ o. IsLast o (layout w.folders)) e p.active_last))
        (λ i e.
          if_split (IsOpen w) w.solid _ _ (again-IsOpen w i p e) (λ each. opens (λ solid. cc)))
