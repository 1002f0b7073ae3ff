-- ===== src/Tests/Pool.antt =====
-- A pool of two readers, named by numbers (internal/pool/pool.go).
use sevenzip.Prelude.{ℕ, suc, ◌≡◌, refl, Option, some, [], ◌∷◌, map, arith}
use sevenzip.Stream.{ok}
use sevenzip.Pool.{new_pool, push_front, Pool, get, put, close, from_back, lookup, delete}
use sevenzip.Pool.Closest.{closest}
use sevenzip.Pool.Laws.{IsPool, new_pool-IsPool}
use sevenzip.Pool.Laws.Get.{taken, entry_of, keys_of, get-taken, get-IsPool, of_entries}
use sevenzip.Pool.Laws.Put.{put_entries, put-put_entries, put-IsPool, close_all}

abbrev two_readers : Pool ℕ
two_readers =
    of_entries (record { size = 2; evict_list = []; items = [] })
      (record { key = 50; value = 8 } ∷ record { key = 10; value = 7 } ∷ [])

two_readers-IsPool : IsPool two_readers
two_readers-IsPool = record { in_step = refl; distinct = (refl, (refl, tt)); bounded = omega arith }

fresh-IsPool : IsPool (put (new_pool {V = ℕ} 2) 10 7).1
fresh-IsPool = put-IsPool (new_pool 2) 10 7 (new_pool-IsPool 2)

put_twice : (put (put (new_pool {V = ℕ} 2) 10 7).1 50 8).1 ≡ two_readers
unfolding put new_pool push_front lookup delete
put_twice = refl

-- The nearest reader before 40 is the one at 10.
nearest : closest (keys_of two_readers.evict_list) (suc 40) ≡ some 10
nearest = refl

get-taken_example :
    get two_readers 40
    ≡ ok (
        taken two_readers
          (entry_of two_readers.evict_list (closest (keys_of two_readers.evict_list) (suc 40))))
get-taken_example = get-taken two_readers 40 two_readers-IsPool

get-IsPool_example : (r : Option ℕ × Pool ℕ) × (get two_readers 40 ≡ ok r) × IsPool r.1
get-IsPool_example = get-IsPool two_readers 40 two_readers-IsPool

-- A third reader evicts the one at 10.
put-put_entries_example : put two_readers 60 9 ≡ put_entries two_readers 60 9
put-put_entries_example = put-put_entries two_readers 60 9 two_readers-IsPool

evicted : (put_entries two_readers 60 9).2 ≡ 7 ∷ []
evicted = refl

put-IsPool_example : IsPool (put two_readers 60 9).1
put-IsPool_example = put-IsPool two_readers 60 9 two_readers-IsPool

close_all_example :
    close two_readers
    ≡ (of_entries two_readers [], map (λ e. e.value) (from_back two_readers.evict_list))
close_all_example = close_all two_readers two_readers-IsPool
