-- ===== src/Writer/Placement/Steps.antt =====
-- Sequences of calls on a Writer (writer.go): CreateHeader, and Write and Close of its file writers.
use sevenzip.Prelude.{
  subst, if_split, ℕ, ◌≡◌, refl, sym, Bool, true, false, arith, length, length-map,
}
use sevenzip.Stream.{Bytes, Result, ok, err, bind}
use sevenzip.Files.{FileHeader}
use sevenzip.Writer.State.{Environment, Writer, new_writer}
use sevenzip.Writer.Create.{close_current, close_file, write_file, create_header}
use sevenzip.Writer.Layout.{
  has_stream, streams, Keeps, close_file-Keeps, write_file-Keeps, close_current-Keeps,
}
use sevenzip.Writer.Placement.{IsPlaced, IsPlaced-SameLayout, map-append}
use sevenzip.Writer.Placement.Enter.{place_file-IsPlaced}

-- One call on a Writer or on a file writer it has returned.
pub data Step (env : Environment) (v w : Writer) : Type 0 where
  creates : (fh : FileHeader) → create_header env fh v ≡ ok w → Step env v w
  writes : (h : ℕ) (p : Bytes) → write_file env h p v ≡ ok w → Step env v w
  closes : (h : ℕ) → close_file env h v ≡ ok w → Step env v w

pub data Reach (env : Environment) (u : Writer) : Writer → Type 1 where
  here : Reach env u u
  next : {v : Writer} → Reach env u v → (w : Writer) → Step env v w → Reach env u w

-- A successful call keeps the invariant.
abbrev KeepsPlaced : Result Writer → Type 0
KeepsPlaced (ok w) = IsPlaced w
KeepsPlaced (err e) = Unit {0}

KeepsPlaced-Keeps : (v : Writer) (r : Result Writer) → IsPlaced v → Keeps v r → KeepsPlaced r
KeepsPlaced-Keeps v (ok w) p h = IsPlaced-SameLayout h p
KeepsPlaced-Keeps v (err e) p h = tt

KeepsPlaced-bind :
    (r : Result Writer) (f : Writer → Result Writer)
    → KeepsPlaced r
    → ((w : Writer) → IsPlaced w → KeepsPlaced (f w))
    → KeepsPlaced (bind r f)
KeepsPlaced-bind (ok w) f p h = h w p
KeepsPlaced-bind (err e) f p h = tt

KeepsPlaced-ok : (r : Result Writer) (w : Writer) → r ≡ ok w → KeepsPlaced r → IsPlaced w
KeepsPlaced-ok (ok v) w e p = let same : v ≡ w = cc in subst IsPlaced same p
KeepsPlaced-ok (err x) w e p = cc

module _ (env : Environment) where
  create_header-KeepsPlaced :
      (fh : FileHeader) (w : Writer) → IsPlaced w → KeepsPlaced (create_header env fh w)
  unfolding create_header
  create_header-KeepsPlaced fh w p =
      if_split KeepsPlaced w.closed _ _ (λ e. tt)
        λ e.
          KeepsPlaced-bind (close_current env w) _
            (KeepsPlaced-Keeps w (close_current env w) p (close_current-Keeps env w))
            λ v q.
              place_file-IsPlaced env _ _ _ (length v.files) _ (streams v.files)
                (record {
                  none_empty = q.arranged.none_empty;
                  grouped = q.arranged.grouped;
                  active_last = q.arranged.active_last;
                })
                q.in_order (map-append has_stream v.files _) (sym (length-map v.files has_stream))

  Step-IsPlaced : {v w : Writer} → Step env v w → IsPlaced v → IsPlaced w
  Step-IsPlaced {v} {w} (creates fh e) p = KeepsPlaced-ok _ w e (create_header-KeepsPlaced fh v p)
  Step-IsPlaced {v} {w} (writes h s e) p =
      KeepsPlaced-ok _ w e (KeepsPlaced-Keeps v _ p (write_file-Keeps env h s v))
  Step-IsPlaced {v} {w} (closes h e) p =
      KeepsPlaced-ok _ w e (KeepsPlaced-Keeps v _ p (close_file-Keeps env h v))

  new_writer-IsPlaced :
      (solid encrypted : Bool) (concurrency : ℕ) → IsPlaced (new_writer solid encrypted concurrency)
  unfolding new_writer
  new_writer-IsPlaced true encrypted concurrency = record {
    arranged = record { none_empty = tt; grouped = omega arith; active_last = refl };
    in_order = refl;
  }
  new_writer-IsPlaced false encrypted concurrency = record {
    arranged = record { none_empty = tt; grouped = tt; active_last = refl };
    in_order = refl;
  }

  -- After any sequence of CreateHeader, Write and Close of files on a new Writer, the folders hold the
  -- numbers of the files that have a stream, each once and in order; no folder is empty; a solid
  -- archive has at most one folder, and in another each folder has one file; and the active folder is
  -- the last one.
  pub Reach-IsPlaced :
      (solid encrypted : Bool) (concurrency : ℕ) {w : Writer}
      → Reach env (new_writer solid encrypted concurrency) w
      → IsPlaced w
  Reach-IsPlaced solid encrypted concurrency here = new_writer-IsPlaced solid encrypted concurrency
  Reach-IsPlaced solid encrypted concurrency (next r w step) =
      Step-IsPlaced step (Reach-IsPlaced solid encrypted concurrency r)
