-- ===== src/Writer/Spool.antt =====
-- spool.go (spoolWriter): a buffer in memory that moves to a temporary file when it grows.
use sevenzip.Prelude.{
  ℕ, ◌+◌, ◌*◌, ◌≡◌, ap, ◌∙◌, sym, Bool, true, false, Option, none, some, List, [], ◌∷◌, ◌++◌,
  append_assoc, append-nil, arith, length, ltb, if◌then◌else◌,
}
use sevenzip.Stream.{Bytes}

-- The buffer, nil once its contents have moved, the bytes of the temporary file, nil before, and the
-- size.
pub record Spool : Type 0 where
  pub buf : Option Bytes
  pub file : Option Bytes
  pub size : ℕ

abbrev pub threshold : ℕ
threshold = 4 * 1024 * 1024

unfoldable pub new_spool : Spool
new_spool = record { buf = some []; file = none; size = 0 }

abbrev bytes_of : Option Bytes → Bytes
bytes_of none = []
bytes_of (some s) = s

-- Write, where `created` says whether os.CreateTemp succeeds, if it is called. Writing to the file
-- does not fail. The state is what the failed call leaves: f stays nil.
unfoldable pub spool_write : (created : Bool) → Spool → Bytes → Spool × Bool
spool_write created s p = elim s.file [
  | some content ↦ (record s { file = some (content ++ p); size = s.size + length p }, true)
  | none ↦
      if ltb threshold (s.size + length p)
      then if created
        then (
          record { buf = none; file = some (bytes_of s.buf ++ p); size = s.size + length p },
          true,
        )
        else (s, false)
      else (record s { buf = some (bytes_of s.buf ++ p); size = s.size + length p }, true)
]

-- What Reader delivers.
unfoldable pub spool_reader : Spool → Bytes
spool_reader s = elim s.file [ some content ↦ content | none ↦ bytes_of s.buf ]

unfoldable pub spool_close : Spool → Spool
spool_close s = record s { buf = none; file = none }

-- Writes one after another, whose temporary file can be created.
abbrev pub write_all : Spool → List Bytes → Spool
write_all s [] = s
write_all s (p ∷ ps) = write_all (spool_write true s p).0 ps

abbrev pub joined : List Bytes → Bytes
joined [] = []
joined (p ∷ ps) = p ++ joined ps

spool_reader-spool_write :
    (s : Spool) (p : Bytes) → spool_reader (spool_write true s p).0 ≡ spool_reader s ++ p
unfolding spool_reader spool_write
spool_reader-spool_write s p = ground arith

spool_reader-write_all :
    (s : Spool) (ps : List Bytes) → spool_reader (write_all s ps) ≡ spool_reader s ++ joined ps
spool_reader-write_all s [] = sym (append-nil (spool_reader s))
spool_reader-write_all s (p ∷ ps) =
    spool_reader-write_all (spool_write true s p).0 ps
    ∙ (ap (λ r. r ++ joined ps) (spool_reader-spool_write s p)
        ∙ append_assoc (spool_reader s) p (joined ps))

-- Wherever the writes cross the threshold, the spool delivers what was written, in order.
pub spool_reader_writes : (ps : List Bytes) → spool_reader (write_all new_spool ps) ≡ joined ps
unfolding new_spool spool_reader
spool_reader_writes ps = spool_reader-write_all new_spool ps
