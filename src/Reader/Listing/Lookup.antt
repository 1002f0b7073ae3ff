-- ===== src/Reader/Listing/Lookup.antt =====
-- openLookup (reader.go) on a sorted list.
use sevenzip.Prelude.{◌≡◌, Bool, true, List, [], ◌∷◌, All}
use sevenzip.Reader.Listing.Search.{Rising}
use sevenzip.Reader.Listing.{FileListEntry, file_entry_less}

-- What sort.Slice leaves, if no two entries have the same place.
abbrev pub IsSorted : List FileListEntry → Type 0
IsSorted [] = Unit
IsSorted (x ∷ xs) = All (λ y. file_entry_less x.name y.name ≡ true) xs × IsSorted xs

-- What holds of all entries behind one that is before them.
All-map :
    (P Q : FileListEntry → Type 0) (xs : List FileListEntry)
    → ((y : FileListEntry) → P y → Q y)
    → All P xs
    → All Q xs
All-map P Q [] f h = h
All-map P Q (x ∷ xs) f h = (f x h.0, All-map P Q xs f h.1)

-- A test that goes on from an entry to those behind it.
pub sorted-Rising :
    (p : FileListEntry → Bool)
    → ((x y : FileListEntry) → file_entry_less x.name y.name ≡ true → p x ≡ true → p y ≡ true)
    → (xs : List FileListEntry) → IsSorted xs
    → Rising p xs
sorted-Rising p stays [] sorted = tt
sorted-Rising p stays (x ∷ xs) sorted =
    ((λ h. All-map _ _ xs (λ y less. stays x y less h) sorted.0), sorted-Rising p stays xs sorted.1)
