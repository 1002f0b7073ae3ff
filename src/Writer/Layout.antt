-- ===== src/Writer/Layout.antt =====
-- What a Writer (writer.go) keeps of the places of files: the file numbers of each folder, and which
-- files have a stream. The calls that only write or close leave it as it is.
use sevenzip.Prelude.{
  if_split, option_split, ℕ, zero, suc, ◌≡◌, refl, ap, ◌∙◌, Bool, not, Option, none, some, List, [],
  ◌∷◌, ◌++◌, map, get_elem?, modify, if◌then◌else◌, ltb, leb, ◌||◌,
}
use sevenzip.Stream.{Bytes, Result, ok, err, bind}
use sevenzip.Writer.State.{Environment, ArchiveFile, FolderWriter, FileWriter, Writer}
use sevenzip.Writer.Create.{
  close_folder_writer, close_folder, send, close_own_folder, enter_sizes, close_file,
  write_folder_input, write_file, close_current, close_active,
}

-- The file numbers of each folder.
abbrev pub layout : List FolderWriter → List (List ℕ)
layout folders = map (λ f. f.files) folders

-- For each file, that it has a stream.
abbrev pub has_stream : ArchiveFile → Bool
has_stream fi = not fi.fh.is_empty_stream

abbrev pub streams : List ArchiveFile → List Bool
streams files = map has_stream files

pub record SameLayout (v w : Writer) : Type 0 where
  pub same_layout : layout w.folders ≡ layout v.folders
  pub same_streams : streams w.files ≡ streams v.files
  pub same_active : w.active_fold ≡ v.active_fold
  pub same_solid : w.solid ≡ v.solid

pub same : (w : Writer) → SameLayout w w
same w = record { same_layout = refl; same_streams = refl; same_active = refl; same_solid = refl }

pub then_same : {u v w : Writer} → SameLayout u v → SameLayout v w → SameLayout u w
then_same h k = record {
  same_layout = k.same_layout ∙ h.same_layout;
  same_streams = k.same_streams ∙ h.same_streams;
  same_active = k.same_active ∙ h.same_active;
  same_solid = k.same_solid ∙ h.same_solid;
}

-- A change of one entry that the map does not see.
map-modify {ℓ κ} :
    {A : Type ℓ} {B : Type κ} (f : A → B) (g : A → A) (xs : List A) (i : ℕ)
    → ((a : A) → f (g a) ≡ f a)
    → map f (modify g xs i) ≡ map f xs
map-modify f g [] i h = refl
map-modify f g (x ∷ xs) zero h = ap (λ t. t ∷ map f xs) (h x)
map-modify f g (x ∷ xs) (suc i) h = ap (λ t. f x ∷ t) (map-modify f g xs i h)

-- A successful call keeps the layout.
abbrev pub Keeps : Writer → Result Writer → Type 0
Keeps v (ok w) = SameLayout v w
Keeps v (err e) = Unit {0}

Keeps-bind :
    (u : Writer) (r : Result Writer) (f : Writer → Result Writer)
    → Keeps u r
    → ((v : Writer) → SameLayout u v → Keeps u (f v))
    → Keeps u (bind r f)
Keeps-bind u (ok v) f h k = k v h
Keeps-bind u (err e) f h k = tt

if_both {ℓ κ} :
    {A : Type ℓ} (P : A → Type κ) (b : Bool) (x y : A) → P x → P y → P (if b then x else y)
if_both P b x y hx hy = if_split P b x y (λ e. hx) (λ e. hy)

option_both {ℓ κ μ} :
    {A : Type ℓ} {B : Type κ} (P : B → Type μ) (o : Option A) (x : B) (f : A → B)
    → P x
    → ((a : A) → P (f a))
    → P (elim o [ none ↦ x | some a ↦ f a ])
option_both P o x f hx hf = option_split P o x f (λ e. hx) (λ a e. hf a)

module _ (env : Environment) where
  files-close_folder_writer : (f : FolderWriter) → (close_folder_writer env f).files ≡ f.files
  unfolding close_folder_writer
  files-close_folder_writer f =
      if_both (λ (g : FolderWriter). g.files ≡ f.files) f.closed _ _ refl refl

  pub close_folder-SameLayout : (i : ℕ) (w : Writer) → SameLayout w (close_folder env i w)
  unfolding close_folder
  close_folder-SameLayout i w = option_both (SameLayout w) (get_elem? w.folders i) _ _ (same w) λ f.
      if_both (SameLayout w) f.closed _ _ (same w) (record {
        same_layout =
            map-modify (λ f. f.files) (close_folder_writer env) w.folders i
              files-close_folder_writer;
        same_streams = refl;
        same_active = refl;
        same_solid = refl;
      })

  send-Keeps : (i : ℕ) (u w : Writer) → SameLayout u w → Keeps u (send env i w)
  unfolding send
  send-Keeps i u w h = option_both (Keeps u) (get_elem? w.folders i) _ _ h λ f.
      if_both (Keeps u) w.spools_open _ _
        (then_same h (record {
          same_layout = refl;
          same_streams = refl;
          same_active = refl;
          same_solid = refl;
        }))
        tt

  close_own_folder-Keeps :
      (fold : Option ℕ) (u w : Writer) → SameLayout u w → Keeps u (close_own_folder env fold w)
  unfolding close_own_folder
  close_own_folder-Keeps none u w h = h
  close_own_folder-Keeps (some i) u w h =
      let closed : SameLayout u (close_folder env i w) =
        then_same h (close_folder-SameLayout i w) in
      if_both (Keeps u) w.solid _ _ h (
        if_both (Keeps u) (ltb 1 w.concurrency) _ _ (send-Keeps i u (close_folder env i w) closed)
          closed)

  has_stream-enter_sizes :
      (fw : FileWriter) (fi : ArchiveFile) → has_stream (enter_sizes env fw fi) ≡ has_stream fi
  unfolding enter_sizes
  has_stream-enter_sizes fw fi = refl

  pub close_file-Keeps : (h : ℕ) (w : Writer) → Keeps w (close_file env h w)
  unfolding close_file
  close_file-Keeps h w = option_both (Keeps w) (get_elem? w.writers h) _ _ (same w) λ fw.
      if_both (Keeps w) fw.closed _ _ (same w) (
        Keeps-bind w _ _
          (close_own_folder-Keeps fw.fold w _ (record {
            same_layout = refl;
            same_streams = refl;
            same_active = refl;
            same_solid = refl;
          }))
          (λ v k. then_same k (record {
            same_layout = refl;
            same_streams =
                map-modify has_stream (enter_sizes env fw) v.files fw.file
                  (has_stream-enter_sizes fw);
            same_active = refl;
            same_solid = refl;
          })))

  layout-write_folder_input :
      (p : Bytes) (fold : Option ℕ) (folders : List FolderWriter)
      → layout (write_folder_input env p fold folders) ≡ layout folders
  layout-write_folder_input p none folders = refl
  layout-write_folder_input p (some i) folders =
      map-modify (λ f. f.files) (λ f. record f { input = f.input ++ p }) folders i (λ f. refl)

  pub write_file-Keeps : (h : ℕ) (p : Bytes) (w : Writer) → Keeps w (write_file env h p w)
  unfolding write_file
  write_file-Keeps h p w = option_both (Keeps w) (get_elem? w.writers h) _ _ (same w) λ fw.
      if_both (Keeps w) fw.closed _ _ tt (record {
        same_layout = layout-write_folder_input p fw.fold w.folders;
        same_streams = refl;
        same_active = refl;
        same_solid = refl;
      })

  pub close_current-Keeps : (w : Writer) → Keeps w (close_current env w)
  unfolding close_current
  close_current-Keeps w =
      option_both (Keeps w) w.current _ _ (same w)
        λ h. if_both (Keeps w) (w.solid || leb w.concurrency 1) _ _ (close_file-Keeps h w) (same w)

  pub close_active-SameLayout : (w : Writer) → SameLayout w (close_active env w)
  unfolding close_active
  close_active-SameLayout w = option_both (SameLayout w) w.active_fold _ _ (same w) λ i.
      if_both (SameLayout w) (w.solid || leb w.concurrency 1) _ _ (close_folder-SameLayout i w)
        (same w)
