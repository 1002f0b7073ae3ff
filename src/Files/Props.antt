-- ===== src/Files/Props.antt =====
-- The properties of the files (types.go, readFilesInfo) behind each other, as writeFilesInfo
-- (write_struct.go) writes them: a round of the loop for each.
pub mod Times
pub mod Values
pub mod Empty
pub mod Whole
use sevenzip.Prelude.{
  ℕ, ◌^◌, ◌<◌, ◌≡◌, refl, ap, ◌∙◌, sym, Bool, true, false, not, List, [], ◌∷◌, ◌++◌, append_assoc,
  map, length, arith, ◌==◌, if◌then◌else◌, Bool-cases, inl, inr,
}
use sevenzip.PropertyId
use sevenzip.Stream.{Parser, Bytes, Result, ok, bind, ◌>>=◌, read_byte}
use sevenzip.Number.{write_uint64}
use sevenzip.Number.RoundTrip.{read_uint64-write_uint64}
use sevenzip.Files.{Libraries, FileHeader}
use sevenzip.Files.Read.{FilesState, assign, read_property, read_round, read_all_properties}
use sevenzip.Files.Read.Rounds.{read_all_properties-read_round}
use sevenzip.Files.Write.{any}

pub then_ok {ℓ κ} :
    {A : Type ℓ} {B : Type κ} (p : Parser A) (f : A → Parser B) (s : Bytes) {a : A} {rest : Bytes}
    → p s ≡ ok (a, rest)
    → (p >>= f) s ≡ f a rest
then_ok p f s e = ap (λ r. bind r (λ (a, rest). f a rest)) e

pub assign-map {ℓ} :
    {A : Type ℓ} (set : A → FileHeader → FileHeader) (get : FileHeader → A)
    (h : FileHeader → FileHeader) (files : List FileHeader)
    → assign set (map get files) (map h files) ≡ ok (map (λ f. set (get f) (h f)) files)
unfolding assign
assign-map set get h [] = refl
assign-map set get h (f ∷ files) = rw (assign-map set get h files) refl

-- Where no file has what a property is for, leaving it out changes nothing.
pub map_unset :
    (test : FileHeader → Bool) (h g : FileHeader → FileHeader) (files : List FileHeader)
    → any (map test files) ≡ false
    → ((f : FileHeader) → test f ≡ false → g f ≡ h f)
    → map h files ≡ map g files
map_unset test h g [] none same = refl
map_unset test h g (f ∷ files) none same = elim (Bool-cases (test f)) [
  | inl e ↦ absurd (cc (rw e at none))
  | inr e ↦
      let later : any (map test files) ≡ false = rw e at none in
      rw (map_unset test h g files later same, same f e) refl
]

-- The files so far, each made of the one that was written.
abbrev pub state : List FileHeader → (FileHeader → FileHeader) → ℕ → FilesState
state files h streams = record { file = map h files; empty_streams = streams }

module _ (lib : Libraries) (n : ℕ) where
  -- The loop of readFilesInfo on what is left.
  abbrev pub looped : FilesState → Bytes → Result (List FileHeader × Bytes)
  looped st s = read_all_properties lib n (length s) st s

  -- A property of which the switch reads all bytes is a round of the loop.
  pub property_round :
      (id size : ℕ) (body rest : Bytes) (st st' : FilesState)
      → (id == PropertyId.end) ≡ false
      → size < 2 ^ 64
      → read_property lib n id size st (body ++ rest) ≡ ok (st', rest)
      → looped st (id ∷ (write_uint64 size ++ (body ++ rest))) ≡ looped st' rest
  unfolding read_byte
  property_round id size body rest st st' other fits read =
      let s = id ∷ (write_uint64 size ++ (body ++ rest)) in
      read_all_properties-read_round lib n st s
      ∙ rw (other, read_uint64-write_uint64 size (body ++ rest) fits, read) refl
