-- ===== src/Prelude/Slices.antt =====
-- Parts of a list that lie side by side.
use native.Mathlib.Nat.{zero-add, suc-add}
use sevenzip.Prelude.{
  ℕ, zero, suc, ◌+◌, ◌≤◌, ◌≡◌, refl, ap, sym, List, [], ◌∷◌, ◌++◌, length, take, drop, arith,
}

module _ {ℓ} {A : Type ℓ} where
  take_nil : (k : ℕ) → take {A = A} k [] ≡ []
  take_nil zero = refl
  take_nil (suc k) = refl

  pub take_past :
      (n m : ℕ) (xs ys : List A)
      → n ≤ length xs
      → take (n + m) (take n xs ++ ys) ≡ take n xs ++ take m ys
  take_past zero m xs ys h = rw zero-add refl
  take_past (suc n) m [] ys h = absurd (omega arith)
  take_past (suc n) m (x ∷ xs) ys h =
      rw suc-add (ap (λ t. x ∷ t) (take_past n m xs ys (omega arith)))

  pub drop_past :
      (n m : ℕ) (xs ys : List A) → n ≤ length xs → drop (n + m) (take n xs ++ ys) ≡ drop m ys
  drop_past zero m xs ys h = rw zero-add refl
  drop_past (suc n) m [] ys h = absurd (omega arith)
  drop_past (suc n) m (x ∷ xs) ys h = rw suc-add (drop_past n m xs ys (omega arith))

  pub take_rest : (j k : ℕ) (xs : List A) → take (j + k) xs ≡ take j xs ++ take k (drop j xs)
  take_rest zero k xs = rw zero-add refl
  take_rest (suc j) k [] = rw suc-add (sym (take_nil k))
  take_rest (suc j) k (x ∷ xs) = rw suc-add (ap (λ t. x ∷ t) (take_rest j k xs))

  pub drop-drop : (j k : ℕ) (xs : List A) → drop k (drop j xs) ≡ drop (j + k) xs
  drop-drop zero k xs = rw zero-add refl
  drop-drop (suc j) zero [] = rw suc-add refl
  drop-drop (suc j) (suc k) [] = rw suc-add refl
  drop-drop (suc j) k (x ∷ xs) = rw suc-add (drop-drop j k xs)

  pub take-drop-append : (n : ℕ) (xs : List A) → take n xs ++ drop n xs ≡ xs
  take-drop-append zero xs = refl
  take-drop-append (suc n) [] = refl
  take-drop-append (suc n) (x ∷ xs) = ap (λ t. x ∷ t) (take-drop-append n xs)

  pub take_append_within : (n : ℕ) (xs ys : List A) → n ≤ length xs → take n (xs ++ ys) ≡ take n xs
  take_append_within zero xs ys h = refl
  take_append_within (suc n) [] ys h = absurd (omega arith)
  take_append_within (suc n) (x ∷ xs) ys h =
      ap (λ t. x ∷ t) (take_append_within n xs ys (omega arith))

  pub drop_append_within :
      (n : ℕ) (xs ys : List A) → n ≤ length xs → drop n (xs ++ ys) ≡ drop n xs ++ ys
  drop_append_within zero xs ys h = refl
  drop_append_within (suc n) [] ys h = absurd (omega arith)
  drop_append_within (suc n) (x ∷ xs) ys h = drop_append_within n xs ys (omega arith)

  pub length-take : (n : ℕ) (xs : List A) → n ≤ length xs → length (take n xs) ≡ n
  length-take zero xs h = refl
  length-take (suc n) [] h = absurd (omega arith)
  length-take (suc n) (x ∷ xs) h = ap suc (length-take n xs (omega arith))

  pub drop_all : (n : ℕ) (xs : List A) → length xs ≤ n → drop n xs ≡ []
  drop_all zero [] h = refl
  drop_all (suc n) [] h = refl
  drop_all zero (x ∷ xs) h = absurd (omega arith)
  drop_all (suc n) (x ∷ xs) h = drop_all n xs (omega arith)

  pub take_all : (n : ℕ) (xs : List A) → length xs ≤ n → take n xs ≡ xs
  take_all zero [] h = refl
  take_all (suc n) [] h = refl
  take_all zero (x ∷ xs) h = absurd (omega arith)
  take_all (suc n) (x ∷ xs) h = ap (λ t. x ∷ t) (take_all n xs (omega arith))
