-- ===== src/Lookup.antt =====
-- struct.go (Folders, FileFolderAndSize, folderOffset): where a file lies in the archive. An index out
-- of range and a nil pointer are Go's panics.
pub mod Laws
pub mod Offset
use sevenzip.Prelude.{
  ℕ, zero, suc, ◌+◌, ◌-◌, ◌%◌, ◌^◌, Option, none, some, List, [], ◌∷◌, length, get_elem?, ltb, ◌==◌,
  if◌then◌else◌,
}
use sevenzip.Stream.{Result, ok, err, bind, panic}
use sevenzip.Sections.{nonempty}
use sevenzip.Pack.{PackInfo}
use sevenzip.Folder.{Folder}
use sevenzip.Unpack.{UnpackInfo}
use sevenzip.SubStreams.{SubStreamsInfo}
use sevenzip.Streams.{StreamsInfo}

-- `xs[i]`
abbrev pub at {ℓ} : {A : Type ℓ} → List A → ℕ → Result A
at xs i = elim (get_elem? xs i) [ none ↦ err panic | some a ↦ ok a ]

-- `*p`
abbrev pub deref {ℓ} : {A : Type ℓ} → Option A → Result A
deref none = err panic
deref (some a) = ok a

unfoldable pub folders : Option StreamsInfo → ℕ
folders none = 0
folders (some si) = elim si.unpack_info [ none ↦ 0 | some u ↦ length u.folder ]

-- The loop over the counts of files: the folder i and its count at the break, or the last folder's
-- where no total exceeds the file. `found` is what folder and streams hold before.
unfoldable pub locate : List ℕ → (i total file : ℕ) → (found : ℕ × ℕ) → ℕ × ℕ
locate [] i total file found = found
locate (n ∷ streams) i total file found =
    let total' = (total + n) % 2 ^ 64 in
    let further = locate streams (i + 1) total' file (i, n) in
    if ltb file total' then (i, n) else further

-- The folder, its count of files and the checksum that subStreamsInfo gives.
unfoldable pub sub_stream_of : Option SubStreamsInfo → ℕ → Result (ℕ × ℕ × ℕ)
sub_stream_of none file = ok (0, 1, 0)
sub_stream_of (some sub) file =
    let (folder, streams) = locate sub.streams 0 0 file (0, 1) in
    if nonempty sub.digest
    then bind (at sub.digest file) (λ crc. ok (folder, streams, crc))
    else ok (folder, streams, 0)

-- A folder with one file: the folder's checksum, if there is one, and its last coder's size.
unfoldable pub whole_folder : Option UnpackInfo → (folder crc : ℕ) → Result (ℕ × ℕ × ℕ)
whole_folder unpack folder crc = bind (deref unpack) λ u.
    bind (if nonempty u.digest then at u.digest folder else ok crc) λ crc'.
      bind (at u.folder folder)
        λ f. bind (at f.size (length f.coder - 1)) λ size. ok (folder, size, crc')

-- The folder, the size and the CRC32 of a file. `len(coder) - 1` is at least 0 in what readFolder
-- accepts.
unfoldable pub file_folder_and_size : StreamsInfo → ℕ → Result (ℕ × ℕ × ℕ)
file_folder_and_size si file =
    bind (sub_stream_of si.sub_streams_info file) λ (folder, streams, crc).
      if streams == 1
      then whole_folder si.unpack_info folder crc
      else bind (deref si.sub_streams_info)
          λ sub. bind (at sub.size file) λ size. ok (folder, size, crc)

-- The inner loop of folderOffset: the sizes of `rounds` packed streams from number k on.
unfoldable pub add_sizes : List ℕ → (rounds k offset : ℕ) → Result ℕ
add_sizes sizes zero k offset = ok offset
add_sizes sizes (suc rounds) k offset =
    bind (at sizes k) λ size. add_sizes sizes rounds (suc k) ((offset + size) % 2 ^ 64)

-- Its outer loop, over `rounds` folders from number i on, whose packed streams begin at number k. The
-- test `j < k+packedStreams` reads a sum of words.
unfoldable pub add_folders :
    (folder : List Folder) (sizes : List ℕ) (rounds i k offset : ℕ) → Result ℕ
add_folders folder sizes zero i k offset = ok offset
add_folders folder sizes (suc rounds) i k offset = bind (at folder i) λ f.
    let next = (k + f.packed_streams) % 2 ^ 64 in
    bind (add_sizes sizes (next - k) k offset)
      λ offset'. add_folders folder sizes rounds (suc i) next offset'

-- Where the packed streams of a folder begin, as the word that is converted to int64. The pointers
-- are read in the first round, and packInfo for its position in any case.
unfoldable pub folder_offset : StreamsInfo → ℕ → Result ℕ
folder_offset si zero = bind (deref si.pack_info) λ p. ok p.position
folder_offset si (suc folder) = bind (deref si.unpack_info) λ u. bind (deref si.pack_info) λ p.
    bind (add_folders u.folder p.size (suc folder) 0 0 0)
      λ offset. ok ((p.position + offset) % 2 ^ 64)
