-- ===== src/Files/Mode.antt =====
-- struct.go (FileHeader.Mode, msdosModeToFileMode, unixModeToFileMode): the mode bits of a file, of
-- io/fs, from the attributes that the archive holds.
pub mod IsDir
use sevenzip.Prelude.{
  ℕ, ◌-◌, ◌/◌, ◌^◌, bit_and, bit_or, Bool, true, false, not, List, [], ◌∷◌, ◌==◌, if◌then◌else◌,
}
use sevenzip.Files.{FileHeader}

-- The bits of fs.FileMode.
abbrev pub mode_dir : ℕ
mode_dir = 2 ^ 31

abbrev pub mode_symlink : ℕ
mode_symlink = 2 ^ 27

abbrev pub mode_device : ℕ
mode_device = 2 ^ 26

abbrev pub mode_named_pipe : ℕ
mode_named_pipe = 2 ^ 25

abbrev pub mode_socket : ℕ
mode_socket = 2 ^ 24

abbrev pub mode_setuid : ℕ
mode_setuid = 2 ^ 23

abbrev pub mode_setgid : ℕ
mode_setgid = 2 ^ 22

abbrev pub mode_char_device : ℕ
mode_char_device = 2 ^ 21

abbrev pub mode_sticky : ℕ
mode_sticky = 2 ^ 20

-- `m&flag != 0`
abbrev pub has_flag : ℕ → ℕ → Bool
has_flag m flag = not (bit_and m flag == 0)

-- `mode |= flag` under a condition.
abbrev pub or_when : Bool → ℕ → ℕ → ℕ
or_when b flag mode = if b then bit_or mode flag else mode

unfoldable pub msdos_mode_to_file_mode : ℕ → ℕ
msdos_mode_to_file_mode m =
    let mode = if has_flag m 0x10 then bit_or mode_dir 0x1ff else 0x1b6 in
    if has_flag m 0x01 then bit_and mode (2 ^ 32 - 1 - 0x92) else mode

-- The switch on `m & sIFMT`.
unfoldable pub file_type : ℕ → ℕ
file_type format =
    if format == 0x6000
    then mode_device
    else if format == 0x2000
    then bit_or mode_device mode_char_device
    else if format == 0x4000
    then mode_dir
    else if format == 0x1000
    then mode_named_pipe
    else if format == 0xa000
    then mode_symlink
    else if format == 0xc000
    then mode_socket
    else 0

unfoldable pub unix_mode_to_file_mode : ℕ → ℕ
unix_mode_to_file_mode m = or_when (has_flag m 0x200) mode_sticky (
    or_when (has_flag m 0x800) mode_setuid (
      or_when (has_flag m 0x400) mode_setgid
        (bit_or (bit_and m 0x1ff) (file_type (bit_and m 0xf000)))))

abbrev pub ends_in_slash : List ℕ → Bool
ends_in_slash [] = false
ends_in_slash (r ∷ []) = r == b'/'
ends_in_slash (r ∷ s ∷ name) = ends_in_slash (s ∷ name)

unfoldable pub file_mode : FileHeader → ℕ
file_mode h = or_when (ends_in_slash h.name) mode_dir (
    if has_flag h.attributes 0xf0000000
    then unix_mode_to_file_mode (h.attributes / 2 ^ 16)
    else msdos_mode_to_file_mode h.attributes)

-- fs.FileMode.IsDir
unfoldable pub is_dir : ℕ → Bool
is_dir mode = has_flag mode mode_dir
