-- ===== src/Files/Mode/IsDir.antt =====
-- Which files are directories (struct.go).
use sevenzip.Prelude.{
  ℕ, ◌*◌, ◌+◌, ◌/◌, ◌%◌, ◌^◌, ◌<◌, ◌≡◌, refl, bit_and, bit_or, Bool, true, false, not, ◌&&◌, ◌||◌,
  ◌==◌, if◌then◌else◌, arith, Bool-cases, inl, inr,
}
use sevenzip.Bits.{holds_below, holds_below→}
use sevenzip.Files.{FileHeader}
use sevenzip.Files.Mode.{
  mode_dir, has_flag, msdos_mode_to_file_mode, unix_mode_to_file_mode, file_type, file_mode, is_dir,
  ends_in_slash,
}

-- Both tests on the mode of one number, with a slash at the end of the name and without.
same_test : Bool → Bool → Bool
same_test true b = b
same_test false b = not b

dir_check : ℕ → ℕ → Bool
unfolding is_dir unix_mode_to_file_mode file_type same_test
dir_check high low =
    let m = 256 * high + low in
    same_test (bit_and m 0xf000 == 0x4000) (is_dir (unix_mode_to_file_mode m))
    && is_dir (bit_or (unix_mode_to_file_mode m) mode_dir)

dir_table : holds_below 256 (λ high. holds_below 256 (dir_check high)) ≡ true
unfolding holds_below dir_check
dir_table = refl

module _ (m : ℕ) (small : m < 2 ^ 16) where
  checked : dir_check (m / 256) (m % 256) ≡ true
  checked =
      let row =
        holds_below→ 256 (λ high. holds_below 256 (dir_check high)) (m / 256) dir_table
          (omega arith) in
      holds_below→ 256 (dir_check (m / 256)) (m % 256) row (omega arith)

  whole : 256 * (m / 256) + m % 256 ≡ m
  whole = omega arith

  is_dir-unix_mode :
      (is_dir (unix_mode_to_file_mode m) ≡ (bit_and m 0xf000 == 0x4000))
      × (is_dir (bit_or (unix_mode_to_file_mode m) mode_dir) ≡ true)
  unfolding dir_check same_test
  is_dir-unix_mode = ground (arith, rw whole at checked)

is_dir-msdos_mode :
    (m : ℕ)
    → (is_dir (msdos_mode_to_file_mode m) ≡ has_flag m 0x10)
      × (is_dir (bit_or (msdos_mode_to_file_mode m) mode_dir) ≡ true)
unfolding is_dir msdos_mode_to_file_mode
is_dir-msdos_mode m = elim (Bool-cases (has_flag m 0x10)) [
  | inl dir ↦ elim (Bool-cases (has_flag m 0x01)) [
    | inl ro ↦ rw (dir, ro) (refl, refl)
    | inr rw' ↦ rw (dir, rw') (refl, refl)
  ]
  | inr file ↦ elim (Bool-cases (has_flag m 0x01)) [
    | inl ro ↦ rw (file, ro) (refl, refl)
    | inr rw' ↦ rw (file, rw') (refl, refl)
  ]
]

-- What the attributes alone say: the file type of the POSIX mode, where there is one, and otherwise
-- the bit of MS-DOS.
abbrev pub directory_attributes : ℕ → Bool
directory_attributes a =
    if has_flag a 0xf0000000 then bit_and (a / 2 ^ 16) 0xf000 == 0x4000 else has_flag a 0x10

-- A file is a directory exactly when its name ends in a slash or its attributes say so.
pub is_dir-file_mode :
    (h : FileHeader)
    → h.attributes < 2 ^ 32
    → is_dir (file_mode h) ≡ (ends_in_slash h.name || directory_attributes h.attributes)
unfolding file_mode
is_dir-file_mode h small =
    let unix = is_dir-unix_mode (h.attributes / 2 ^ 16) (omega arith) in
    let msdos = is_dir-msdos_mode h.attributes in
    elim (Bool-cases (ends_in_slash h.name)) [
      | inl slash ↦ elim (Bool-cases (has_flag h.attributes 0xf0000000)) [
        | inl posix ↦ ground (arith, unix, slash, posix)
        | inr dos ↦ ground (arith, msdos)
      ]
      | inr plain ↦ elim (Bool-cases (has_flag h.attributes 0xf0000000)) [
        | inl posix ↦ ground (arith, unix)
        | inr dos ↦ ground (arith, msdos)
      ]
    ]
