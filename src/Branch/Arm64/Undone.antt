-- ===== src/Branch/Arm64/Undone.antt =====
-- The words of internal/bra/arm64.go there and back.
use sevenzip.Bits.Fields.{bit_and_high}
use sevenzip.Branch.Arm64.{
  page_flag, mask, is_call, is_page, page_of, arm64_word, is_call_lem, call_word_lem, page_mask,
  fields_of, page_of_lem, page_word_lem,
}
use sevenzip.Branch.Laws.{get_le-put_le, put_le-get_le, put_le-IsFour, get_le-lt}
use sevenzip.Branch.{Four, IsFour, word, get_le, put_le, shift_by, add32, sub32}
use sevenzip.Prelude.{
  ◌∙◌, sym, ℕ, ◌+◌, ◌-◌, ◌*◌, ◌/◌, ◌%◌, ◌^◌, ◌<◌, ◌≡◌, refl, Bool, true, false, bit_and, ◌==◌,
  ==_iff, ltb, Bool-cases, inl, inr, arith,
}

-- The word as the filter looks at it for a page: less the opcode, moved by the sign.
abbrev moved : ℕ → ℕ
moved v = add32 (sub32 v 0x90000000) page_flag

-- What a word is that holds the address of a page within reach.
abbrev IsPage : ℕ → Type 0
IsPage v =
    (sub32 v 0x90000000 < 2 ^ 31)
    × (sub32 v 0x90000000 / 2 ^ 24 % 32 ≡ 0)
    × (moved v / 2 ^ 21 % 8 ≡ 0)

mask_lem : (v : ℕ) → bit_and v mask ≡ v / 2 ^ 21 % 8 * 2 ^ 21
mask_lem v = bit_and_high 3 21 v

IsPage-from :
    (v : ℕ)
    → v < word
    → is_page (sub32 v 0x90000000) ≡ true
    → ltb 0 (bit_and (moved v) mask) ≡ false
    → IsPage v
unfolding is_page
IsPage-from v h e f =
    ground (arith, page_mask (sub32 v 0x90000000) (omega arith), mask_lem (moved v))

is_page_at : (v : ℕ) → v < word → IsPage v → is_page (sub32 v 0x90000000) ≡ true
unfolding is_page
is_page_at v h p = ground (arith, page_mask (sub32 v 0x90000000) (omega arith))

reach_at : (v : ℕ) → v < word → IsPage v → ltb 0 (bit_and (moved v) mask) ≡ false
reach_at v h p = ground (arith, mask_lem (moved v))

module _ (v z : ℕ) (even : z % 8 ≡ 0) where
  fields_of-lt : fields_of v z < word
  fields_of-lt = omega arith

  fields_of-IsPage : IsPage (fields_of v z)
  fields_of-IsPage = omega arith

  moved-fields_of : moved (fields_of v z) % 2 ^ 21 ≡ z % 2 ^ 21 / 32 * 32 + v % 32
  moved-fields_of = omega arith

  moved_top : moved (fields_of v z) / 2 ^ 29 ≡ z / 8 % 4
  moved_top = omega arith

  page_of-fields_of : page_of (moved (fields_of v z)) % 2 ^ 21 ≡ z % 2 ^ 21
  page_of-fields_of = omega (
    arith,
    page_of_lem (moved (fields_of v z)) (omega (arith, fields_of-IsPage))
        (omega (arith, fields_of-IsPage)),
    moved-fields_of,
    moved_top,
  )

-- A page is where its word says, and only the low bits of the page count.
fields_of-page_of : (v : ℕ) → v < word → IsPage v → fields_of (moved v) (page_of (moved v)) ≡ v
fields_of-page_of v h p = omega (arith, page_of_lem (moved v) (omega (arith, p)) (omega (arith, p)))

fields_of_register : (u v z : ℕ) → u % 32 ≡ v % 32 → fields_of u z ≡ fields_of v z
fields_of_register u v z same = omega arith

fields_of_near : (v y z : ℕ) → y % 2 ^ 21 ≡ z % 2 ^ 21 → fields_of v y ≡ fields_of v z
fields_of_near v y z near = omega arith

page_of_even : (v : ℕ) → v < word → IsPage v → page_of (moved v) % 8 ≡ 0
page_of_even v h p = omega (arith, page_of_lem (moved v) (omega (arith, p)) (omega (arith, p)))

not_call : (v : ℕ) → v < word → IsPage v → is_call v ≡ false
not_call v h p = ground (arith, is_call_lem v h)

pages_of : ℕ → ℕ
pages_of ip = bit_and (ip / 2 ^ 9) (word - 1 - 7)

pages_of_even : (ip : ℕ) → ip < word → (pages_of ip % 8 ≡ 0) × (pages_of ip < word)
unfolding pages_of
pages_of_even ip h =
    let cut : bit_and (ip / 2 ^ 9) (word - 1 - 7) ≡ ip / 2 ^ 9 / 2 ^ 3 % 2 ^ 29 * 2 ^ 3 =
      bit_and_high 29 3 (ip / 2 ^ 9) in
    omega (arith, cut)

shift_by_even :
    (encoding : Bool) (y x : ℕ)
    → y % 8 ≡ 0
    → (x % 8 ≡ 0) × (x < word)
    → shift_by encoding y x % 8 ≡ 0
shift_by_even true y x even h = omega arith
shift_by_even false y x even h = omega arith

module _ (encoding : Bool) (ip : ℕ) (w : Four) (bytes : IsFour w) where
  arm64_word_call :
      is_call (get_le w) ≡ true
      → arm64_word encoding ip w
        ≡ put_le (37 * 2 ^ 26 + shift_by encoding (get_le w) (ip / 4) % 2 ^ 26)
  unfolding arm64_word
  arm64_word_call e = rw (e, call_word_lem) refl

  arm64_word_other :
      is_call (get_le w) ≡ false
      → is_page (sub32 (get_le w) 0x90000000) ≡ false
      → arm64_word encoding ip w ≡ w
  unfolding arm64_word
  arm64_word_other e f = rw (e, f) refl

  arm64_word_far :
      is_call (get_le w) ≡ false
      → ltb 0 (bit_and (moved (get_le w)) mask) ≡ true
      → arm64_word encoding ip w ≡ w
  unfolding arm64_word
  arm64_word_far e f = elim (Bool-cases (is_page (sub32 (get_le w) 0x90000000))) [
    | inl g ↦ rw (e, g, f) refl
    | inr g ↦ arm64_word_other e g
  ]

  arm64_word_page :
      ip < word
      → IsPage (get_le w)
      → arm64_word encoding ip w
        ≡ put_le (
            fields_of
              (moved (get_le w))
              (shift_by encoding (page_of (moved (get_le w))) (pages_of ip)))
  unfolding arm64_word pages_of
  arm64_word_page fits p =
      let small = get_le-lt w bytes in
      rw
        (
          not_call (get_le w) small p,
          is_page_at (get_le w) small p,
          reach_at (get_le w) small p,
          page_word_lem (moved (get_le w))
              (shift_by encoding (page_of (moved (get_le w))) (pages_of ip))
              (shift_by_even encoding _ _ (page_of_even (get_le w) small p)
                (pages_of_even ip fits)),
        )
        refl

call_undone :
    (ip : ℕ) (w : Four)
    → IsFour w
    → ip < word
    → is_call (get_le w) ≡ true
    → arm64_word false ip (arm64_word true ip w) ≡ w
call_undone ip w bytes fits e =
    let v = get_le w in
    let small = get_le-lt w bytes in
    let target = 37 * 2 ^ 26 + add32 v (ip / 4) % 2 ^ 26 in
    let back = get_le-put_le target (omega arith) in
    let again : is_call target ≡ true = rw (is_call_lem target (omega arith)) (ground arith) in
    let first : (v / 2 ^ 26 == 37) ≡ true = sym (is_call_lem v small) ∙ e in
    let opcode = (==_iff (v / 2 ^ 26) 37).0 first in
    let home : 37 * 2 ^ 26 + sub32 target (ip / 4) % 2 ^ 26 ≡ v = omega (arith, opcode) in
    rw
      (
        arm64_word_call true ip w bytes e,
        arm64_word_call false ip (put_le target) (put_le-IsFour target) (rw back again),
        back,
        home,
      )
      (put_le-get_le w bytes)

page_undone :
    (ip : ℕ) (w : Four)
    → IsFour w
    → ip < word
    → IsPage (get_le w)
    → arm64_word false ip (arm64_word true ip w) ≡ w
page_undone ip w bytes fits p =
    let v = get_le w in
    let small = get_le-lt w bytes in
    let z = page_of (moved v) in
    let z' = add32 z (pages_of ip) in
    let evens = pages_of_even ip fits in
    let even = shift_by_even true z (pages_of ip) (page_of_even v small p) evens in
    let sent = fields_of (moved v) z' in
    let back = get_le-put_le sent (fields_of-lt (moved v) z' even) in
    let near =
      fields_of_near (moved v) (sub32 (page_of (moved sent)) (pages_of ip)) z
        (omega (arith, page_of-fields_of (moved v) z' even, evens)) in
    let register =
      fields_of_register (moved sent) (moved v) (sub32 (page_of (moved sent)) (pages_of ip))
        (omega (arith, moved-fields_of (moved v) z' even)) in
    rw
      (
        arm64_word_page true ip w bytes fits p,
        arm64_word_page false ip (put_le sent) (put_le-IsFour sent) fits
            (rw back (fields_of-IsPage (moved v) z' even)),
        back,
        register,
        near,
        fields_of-page_of v small p,
      )
      (put_le-get_le w bytes)

-- Decoding a word undoes its encoding at the same address.
pub arm64_word_undone :
    (ip : ℕ) (w : Four) → IsFour w → ip < word → arm64_word false ip (arm64_word true ip w) ≡ w
arm64_word_undone ip w bytes fits =
    let v = get_le w in
    elim (Bool-cases (is_call v)) [
      | inl e ↦ call_undone ip w bytes fits e
      | inr e ↦ elim (Bool-cases (is_page (sub32 v 0x90000000))) [
        | inr f ↦
            let same = λ (encoding : Bool). arm64_word_other encoding ip w bytes e f in
            rw (same true) (same false)
        | inl f ↦ elim (Bool-cases (ltb 0 (bit_and (moved v) mask))) [
          | inl g ↦
              let same = λ (encoding : Bool). arm64_word_far encoding ip w bytes e g in
              rw (same true) (same false)
          | inr g ↦ page_undone ip w bytes fits (IsPage-from v (get_le-lt w bytes) f g)
        ]
      ]
    ]
