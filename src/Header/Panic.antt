-- ===== src/Header/Panic.antt =====
-- The sizes that readHeader (types.go) looks up for more files than there are checksums.
use sevenzip.Prelude.{
  Bool, ℕ, zero, suc, ◌+◌, ◌-◌, ◌≤◌, ◌<◌, ◌≡◌, refl, ap, true, false, Option, none, some, List, [],
  ◌∷◌, arith, length, inl, inr, ◌==◌, if◌then◌else◌, Bool-cases, dec_lt,
}
use sevenzip.Stream.{Result, ok, err, bind, panic}
use sevenzip.Sections.{nonempty}
use sevenzip.Unpack.{UnpackInfo}
use sevenzip.SubStreams.{SubStreamsInfo}
use sevenzip.Streams.{StreamsInfo}
use sevenzip.Files.{FileHeader}
use sevenzip.Lookup.{at, deref, sub_stream_of, whole_folder, file_folder_and_size}
use sevenzip.Lookup.Laws.{file_folder_and_size_panic}
use sevenzip.Header.{size_files}

-- A result that is no error but a panic.
abbrev OnlyPanics {ℓ} : {A : Type ℓ} → Result A → Type 0
OnlyPanics (ok a) = Unit
OnlyPanics (err e) = e ≡ panic

OnlyPanics-bind {ℓ κ} :
    {A : Type ℓ} {B : Type κ} (r : Result A) (f : A → Result B)
    → OnlyPanics r
    → ((a : A) → OnlyPanics (f a))
    → OnlyPanics (bind r f)
OnlyPanics-bind (ok a) f h hf = hf a
OnlyPanics-bind (err e) f h hf = h

OnlyPanics-at {ℓ} : {A : Type ℓ} (xs : List A) (i : ℕ) → OnlyPanics (at xs i)
OnlyPanics-at [] i = refl
OnlyPanics-at (x ∷ xs) zero = tt
OnlyPanics-at (x ∷ xs) (suc i) = OnlyPanics-at xs i

OnlyPanics-deref {ℓ} : {A : Type ℓ} (o : Option A) → OnlyPanics (deref o)
OnlyPanics-deref none = refl
OnlyPanics-deref (some a) = tt

OnlyPanics-if {ℓ} :
    {A : Type ℓ} (b : Bool) (r q : Result A)
    → OnlyPanics r
    → OnlyPanics q
    → OnlyPanics (if b then r else q)
OnlyPanics-if true r q hr hq = hr
OnlyPanics-if false r q hr hq = hq

OnlyPanics-sub_stream_of :
    (sub : Option SubStreamsInfo) (file : ℕ) → OnlyPanics (sub_stream_of sub file)
unfolding sub_stream_of
OnlyPanics-sub_stream_of none file = tt
OnlyPanics-sub_stream_of (some sub) file =
    OnlyPanics-if (nonempty sub.digest) _ _
      (OnlyPanics-bind (at sub.digest file) _ (OnlyPanics-at sub.digest file) λ crc. tt) tt

OnlyPanics-whole_folder :
    (unpack : Option UnpackInfo) (folder crc : ℕ) → OnlyPanics (whole_folder unpack folder crc)
unfolding whole_folder
OnlyPanics-whole_folder unpack folder crc =
    OnlyPanics-bind (deref unpack) _ (OnlyPanics-deref unpack) λ u.
      OnlyPanics-bind (if nonempty u.digest then at u.digest folder else ok crc) _
        (OnlyPanics-if (nonempty u.digest) _ _ (OnlyPanics-at u.digest folder) tt)
        λ crc'. OnlyPanics-bind (at u.folder folder) _ (OnlyPanics-at u.folder folder) λ f.
          OnlyPanics-bind (at f.size (length f.coder - 1)) _ (OnlyPanics-at f.size _) λ size. tt

OnlyPanics-file_folder_and_size :
    (si : StreamsInfo) (file : ℕ) → OnlyPanics (file_folder_and_size si file)
unfolding file_folder_and_size
OnlyPanics-file_folder_and_size si file =
    OnlyPanics-bind (sub_stream_of si.sub_streams_info file) _
      (OnlyPanics-sub_stream_of si.sub_streams_info file)
      λ (folder, streams, crc).
        OnlyPanics-if (streams == 1) _ _ (OnlyPanics-whole_folder si.unpack_info folder crc) (
          OnlyPanics-bind (deref si.sub_streams_info) _ (OnlyPanics-deref si.sub_streams_info)
            λ sub. OnlyPanics-bind (at sub.size file) _ (OnlyPanics-at sub.size file) λ size. tt)

bind_panic {ℓ κ} :
    {A : Type ℓ} {B : Type κ} (r : Result A) (f : A → Result B)
    → OnlyPanics r
    → ((a : A) → f a ≡ err panic)
    → bind r f ≡ err panic
bind_panic (ok a) f h hf = hf a
bind_panic (err e) f h hf = ap err h

-- The files with a stream.
abbrev pub with_stream : List FileHeader → ℕ
with_stream [] = 0
with_stream (f ∷ files) = (if f.is_empty_stream then 0 else 1) + with_stream files

-- Where there are checksums, but fewer than files with a stream from number j on, the loop at the end
-- of readHeader panics.
pub size_files_panic :
    (si : StreamsInfo) (sub : SubStreamsInfo) (j : ℕ) (files : List FileHeader)
    → si.sub_streams_info ≡ some sub
    → 0 < length sub.digest
    → j ≤ length sub.digest
    → length sub.digest < j + with_stream files
    → size_files si j files ≡ err panic
unfolding size_files
size_files_panic si sub j [] e some_digest inside beyond = absurd (omega arith)
size_files_panic si sub j (f ∷ files) e some_digest inside beyond =
    elim (Bool-cases f.is_empty_stream) [
      | inl empty ↦
          let left : with_stream (f ∷ files) ≡ with_stream files = rw (empty) (omega arith) in
          rw (empty, size_files_panic si sub j files e some_digest inside (omega arith)) refl
      | inr stream ↦
          let left : with_stream (f ∷ files) ≡ suc (with_stream files) =
            rw (stream) (omega arith) in
          elim (dec_lt j (length sub.digest)) [
            | no last ↦
                rw (stream, file_folder_and_size_panic si sub j e some_digest (omega arith)) refl
            | yes more ↦
                let rest =
                  size_files_panic si sub (suc j) files e some_digest (omega arith) (omega arith) in
                rw (stream, rest)
                  (bind_panic (file_folder_and_size si j) _ (OnlyPanics-file_folder_and_size si j)
                    λ r. refl)
          ]
    ]
