-- ===== src/Writer/Coordinator.antt =====
-- writer.go (Writer.coordinator): the folders that were compressed concurrently arrive in any order,
-- and are copied to the archive in the order of their numbers.
pub mod Order
use sevenzip.Prelude.{
  ℕ, zero, suc, Bool, true, false, Option, none, some, List, [], ◌∷◌, ◌++◌, length, ◌||◌,
  if◌then◌else◌,
}
use sevenzip.Prelude.Maps.{map_get, map_delete, map_set}
use sevenzip.Stream.{Bytes}

-- The variables of the coordinator: the folders that wait, by number, the next number to write,
-- whether a copy has failed, and what w.w holds.
pub record Coordinator : Type 0 where
  pub folder_map : List (ℕ × Bytes)
  pub write_seq : ℕ
  pub failed : Bool
  pub sink : Bytes

-- io.Copy of a spool to w.w: the bytes that get there, and whether it succeeds.
abbrev pub Copy : Type 0
Copy = ℕ → Bytes → Bytes × Bool

-- One round of the inner loop, for the folder whose turn it is. Once a copy has failed, no other is
-- made. The spool is closed in any case.
unfoldable pub write_next : Copy → Coordinator → Bytes → Coordinator
write_next copy c spool =
    let (written, done) = copy c.write_seq spool in
    let copied = record c {
      folder_map = map_delete c.write_seq c.folder_map;
      write_seq = suc c.write_seq;
      failed = if done then false else true;
      sink = c.sink ++ written;
    } in
    let skipped = record c {
      folder_map = map_delete c.write_seq c.folder_map;
      write_seq = suc c.write_seq;
    } in
    if c.failed then skipped else copied

-- The inner loop. Each round deletes an entry of the map, so that there are no more rounds than
-- entries.
unfoldable pub write_ready : Copy → (rounds : ℕ) → Coordinator → Coordinator
write_ready copy zero c = c
write_ready copy (suc rounds) c = elim (map_get c.write_seq c.folder_map) [
  | none ↦ c
  | some spool ↦ write_ready copy rounds (write_next copy c spool)
]

-- A folder arrives: its number and its spool.
unfoldable pub receive : Copy → Coordinator → ℕ × Bytes → Coordinator
receive copy c (seq, spool) =
    let c' = record c { folder_map = map_set seq spool c.folder_map } in
    write_ready copy (length c'.folder_map) c'

-- The outer loop, over the folders in the order in which they arrive.
unfoldable pub coordinate : Copy → Coordinator → List (ℕ × Bytes) → Coordinator
coordinate copy c [] = c
coordinate copy c (fold ∷ folds) = coordinate copy (receive copy c fold) folds

abbrev pub start : Bytes → Coordinator
start sink = record { folder_map = []; write_seq = 0; failed = false; sink = sink }
