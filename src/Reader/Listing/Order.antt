-- ===== src/Reader/Listing/Order.antt =====
-- The order of strings, and that of fileEntryLess (reader.go).
use sevenzip.Prelude.{◌≡◌, refl, Bool, true, false, [], ◌∷◌, Bool-cases, inl, inr, arith}
use sevenzip.Reader.Listing.{bytes_lt, bytes_eq, key_less}
use sevenzip.Stream.{Bytes}

-- A strict linear order, as a test.
pub record IsStrict {ℓ} {A : Type ℓ} (less : A → A → Bool) : Type ℓ where
  pub irreflexive : (a : A) → less a a ≡ false
  pub transitive : (a b c : A) → less a b ≡ true → less b c ≡ true → less a c ≡ true
  pub connected : (a b : A) → less a b ≡ false → less b a ≡ false → a ≡ b

pub bytes_eq_refl : (xs : Bytes) → bytes_eq xs xs ≡ true
unfolding bytes_eq
bytes_eq_refl [] = refl
bytes_eq_refl (x ∷ xs) = ground (arith, bytes_eq_refl xs)

pub bytes_eq→ : (xs ys : Bytes) → bytes_eq xs ys ≡ true → xs ≡ ys
unfolding bytes_eq
bytes_eq→ [] [] h = refl
bytes_eq→ [] (y ∷ ys) h = cc
bytes_eq→ (x ∷ xs) [] h = cc
bytes_eq→ (x ∷ xs) (y ∷ ys) h = ground (arith, bytes_eq→ xs ys)

bytes_lt_irreflexive : (xs : Bytes) → bytes_lt xs xs ≡ false
unfolding bytes_lt
bytes_lt_irreflexive [] = refl
bytes_lt_irreflexive (x ∷ xs) = ground (arith, bytes_lt_irreflexive xs)

bytes_lt_transitive :
    (xs ys zs : Bytes) → bytes_lt xs ys ≡ true → bytes_lt ys zs ≡ true → bytes_lt xs zs ≡ true
unfolding bytes_lt
bytes_lt_transitive xs ys [] h k = k
bytes_lt_transitive [] ys (z ∷ zs) h k = refl
bytes_lt_transitive (x ∷ xs) [] (z ∷ zs) h k = cc
bytes_lt_transitive (x ∷ xs) (y ∷ ys) (z ∷ zs) h k = ground (arith, bytes_lt_transitive xs ys zs)

bytes_lt_connected : (xs ys : Bytes) → bytes_lt xs ys ≡ false → bytes_lt ys xs ≡ false → xs ≡ ys
unfolding bytes_lt
bytes_lt_connected [] [] h k = refl
bytes_lt_connected [] (y ∷ ys) h k = cc
bytes_lt_connected (x ∷ xs) [] h k = cc
bytes_lt_connected (x ∷ xs) (y ∷ ys) h k = ground (arith, bytes_lt_connected xs ys)

pub bytes_lt-IsStrict : IsStrict bytes_lt
bytes_lt-IsStrict = record {
  irreflexive = bytes_lt_irreflexive;
  transitive = bytes_lt_transitive;
  connected = bytes_lt_connected;
}

pub bytes_lt_before :
    (xs ys zs : Bytes) → bytes_lt xs ys ≡ true → bytes_lt zs ys ≡ false → bytes_lt xs zs ≡ true
bytes_lt_before xs ys zs h k = elim (Bool-cases (bytes_lt xs zs)) [
  | inl e ↦ e
  | inr e ↦ elim (Bool-cases (bytes_lt zs xs)) [
    | inl f ↦ let g = bytes_lt_transitive zs xs ys f h in cc
    | inr f ↦ let same = bytes_lt_connected xs zs e f in cc (rw same at h)
  ]
]

pub bytes_lt_asymmetric : (xs ys : Bytes) → bytes_lt xs ys ≡ true → bytes_lt ys xs ≡ false
bytes_lt_asymmetric xs ys h = elim (Bool-cases (bytes_lt ys xs)) [
  | inr e ↦ e
  | inl e ↦
      let around = bytes_lt_transitive xs ys xs h e in let never = bytes_lt_irreflexive xs in cc
]

key_less_transitive :
    (x y z : Bytes × Bytes) → key_less x y ≡ true → key_less y z ≡ true → key_less x z ≡ true
key_less_transitive (a, b) (c, d) (e, f) h k = ground (
  arith,
  bytes_eq→ a c,
  bytes_eq→ c e,
  bytes_eq_refl a,
  bytes_lt_transitive a c e,
  bytes_lt_transitive b d f,
)

key_less_irreflexive : (x : Bytes × Bytes) → key_less x x ≡ false
key_less_irreflexive (a, b) = ground (arith, bytes_lt_irreflexive a, bytes_lt_irreflexive b)

key_less_connected : (x y : Bytes × Bytes) → key_less x y ≡ false → key_less y x ≡ false → x ≡ y
key_less_connected (a, b) (c, d) h k =
    ground (arith, bytes_lt_connected a c, bytes_lt_connected b d, bytes_eq_refl a, bytes_eq_refl c)

pub key_less-IsStrict : IsStrict key_less
key_less-IsStrict = record {
  irreflexive = key_less_irreflexive;
  transitive = key_less_transitive;
  connected = key_less_connected;
}
