-- ===== src/Sections.antt =====
-- The tagged sections of the header (types.go, write_struct.go): each part of a structure begins
-- with an identifier, an optional part is missing when the next identifier is another one, and
-- the identifier that ends a section is read ahead.
use sevenzip.Prelude.{
  ℕ, ◌<◌, length, ◌≡◌, ◌≢◌, refl, Bool, true, false, List, [], ◌∷◌, ◌++◌, ◌==◌, ==_iff, arith,
  if◌then◌else◌,
}
use sevenzip.PropertyId
use sevenzip.Stream.{Parser, Bytes, ok, ◌>>=◌, pure, fail, read_byte, unexpected_id}

-- `if id == tag { x, err = p(r); ...; id, err = r.ReadByte() }`: the section and the identifier
-- after it. Without the section, x keeps its zero value.
unfoldable pub section {ℓ} : {A : Type ℓ} → ℕ → A → Parser A → ℕ → Parser (A × ℕ)
section tag default p id =
    if id == tag then (do a ← p; next ← read_byte; pure (a, next)) else pure (default, id)

-- `if id != idEnd { return nil, errUnexpectedID }`
unfoldable pub finish {ℓ} : {A : Type ℓ} → ℕ → A → Parser A
finish id a = if id == PropertyId.end then pure a else fail unexpected_id

unfoldable pub write_section : ℕ → Bool → Bytes → Bytes
write_section tag present body = if present then tag ∷ body else []

-- `len(x) > 0`
abbrev pub nonempty {ℓ} : {A : Type ℓ} → List A → Bool
nonempty [] = false
nonempty (x ∷ xs) = true

pub nonempty-false {ℓ} : {A : Type ℓ} (xs : List A) → nonempty xs ≡ false → xs ≡ []
nonempty-false [] h = refl
nonempty-false (x ∷ xs) h = cc

pub nonempty-length {ℓ} : {A : Type ℓ} (xs : List A) → nonempty xs ≡ true → 0 < length xs
nonempty-length [] h = cc
nonempty-length (x ∷ xs) h = omega arith

pub length-nonempty {ℓ} : {A : Type ℓ} (xs : List A) → 0 < length xs → nonempty xs ≡ true
length-nonempty [] h = absurd (omega arith)
length-nonempty (x ∷ xs) h = refl

abbrev pub first : Bytes → ℕ
first [] = 0
first (b ∷ s) = b

abbrev pub others : Bytes → Bytes
others [] = []
others (b ∷ s) = s

-- There is a byte, and it is not the tag.
abbrev pub Avoids : ℕ → Bytes → Type 0
Avoids tag [] = ⊥
Avoids tag (b ∷ s) = b ≢ tag

pub read_byte-Avoids : (tag : ℕ) (s : Bytes) → Avoids tag s → read_byte s ≡ ok (first s, others s)
unfolding read_byte
read_byte-Avoids tag [] h = absurd h
read_byte-Avoids tag (b ∷ s) h = refl

pub Avoids-write_section :
    (tag other : ℕ) (present : Bool) (body s : Bytes)
    → other ≢ tag
    → Avoids tag s
    → Avoids tag (write_section other present body ++ s)
unfolding write_section
Avoids-write_section tag other true body s ne h = ne
Avoids-write_section tag other false body s ne h = h

-- A written section is read, or passed over if it was not written.
pub section-write_section {ℓ} :
    {A : Type ℓ} (tag : ℕ) (present : Bool) (body s : Bytes) (default a : A) (p : Parser A)
    → Avoids tag s
    → (present ≡ true → p (body ++ s) ≡ ok (a, s))
    → (present ≡ false → a ≡ default)
    → let written = write_section tag present body ++ s in
      section tag default p (first written) (others written) ≡ ok ((a, first s), others s)
unfolding section write_section
section-write_section tag true body s default a p h reads skips =
    rw ((==_iff tag tag).1 refl, reads refl, read_byte-Avoids tag s h)
section-write_section tag false body [] default a p h reads skips = absurd h
section-write_section tag false body (b ∷ s) default a p h reads skips =
    let other : (b == tag) ≡ false = ground arith in rw (other, skips refl)
