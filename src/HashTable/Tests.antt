-- ===== src/HashTable/Tests.antt =====
-- Stores, removals and accesses at concrete tables of both kinds.
use kira_rust.Prelude.{ℕ, ◌≡◌, refl, true, ◌&&◌, ◌||◌, none, some, List, [], ◌∷◌, ◌==◌, ok, err}
use kira_rust.HashMap
use kira_rust.HashTable.{Entry, created, not_found_err, gives, same_bytes, updated}
use kira_rust.HashTable.SingleValue
use kira_rust.HashTable.Complex
use kira_rust.HashTable.SingleValue.{store_overwrites}
use kira_rust.HashTable.Complex.{gives-store_iff, fetched, ComplexHashTable}
use kira_rust.HashTable.Access.{accesses, accesses_latest}
use kira_rust.HashTable.Client.{stores, removes, run, run-gives, run-removed}

abbrev one_value : Entry (List ℕ)
one_value = record { value = 1 ∷ []; accessed = none; republished = none }

-- Values 1 and 2 of key 5.
abbrev table : ComplexHashTable
table = (5, record { value = (1 ∷ []) ∷ (2 ∷ []) ∷ []; accessed = none; republished = none }) ∷ []

run-gives_example :
    gives (7 ∷ []) (
      Complex.local_hash_table.fetch
        (run Complex.local_hash_table table
          (stores 5 (7 ∷ []) ∷ removes 6 ∷ stores 7 (8 ∷ []) ∷ []))
        5)
    ≡ true
run-gives_example =
    run-gives Complex.local_hash_table table 5 (7 ∷ []) (removes 6 ∷ stores 7 (8 ∷ []) ∷ []) refl

run-removed_example :
    (SingleValue.local_hash_table.fetch
        (run SingleValue.local_hash_table [] (removes 5 ∷ stores 6 (8 ∷ []) ∷ []))
        5
      ≡ err not_found_err)
    × ((SingleValue.local_hash_table.store
          (run SingleValue.local_hash_table [] (removes 5 ∷ stores 6 (8 ∷ []) ∷ []))
          5
          (9 ∷ [])).1
        ≡ created)
run-removed_example =
    run-removed SingleValue.local_hash_table [] 5 (9 ∷ []) (stores 6 (8 ∷ []) ∷ []) refl

gives-store_iff_example :
    gives (2 ∷ []) (fetched (Complex.fetch (Complex.store table 5 (3 ∷ [])).0 5))
    ≡ (5 == 5 && same_bytes (3 ∷ []) (2 ∷ []) || gives (2 ∷ []) (fetched (Complex.fetch table 5)))
gives-store_iff_example = gives-store_iff table 5 5 (3 ∷ []) (2 ∷ [])

accesses_latest_example :
    ((accesses one_value (3 ∷ 9 ∷ 4 ∷ [])).accessed ≡ some 9)
    × ((accesses one_value (3 ∷ 9 ∷ 4 ∷ [])).value ≡ 1 ∷ [])
    × ((accesses one_value (3 ∷ 9 ∷ 4 ∷ [])).republished ≡ none)
accesses_latest_example = accesses_latest one_value (3 ∷ 9 ∷ 4 ∷ [])

store_overwrites_example :
    (SingleValue.status (SingleValue.store ((5, one_value) ∷ []) 5 (2 ∷ [])).1 ≡ updated)
    × (SingleValue.fetch (SingleValue.store ((5, one_value) ∷ []) 5 (2 ∷ [])).0 5
        ≡ ok ((2 ∷ []) ∷ []))
    × (gives (1 ∷ []) (
          SingleValue.fetched
            (SingleValue.fetch (SingleValue.store ((5, one_value) ∷ []) 5 (2 ∷ [])).0 5))
        ≡ same_bytes (2 ∷ []) (1 ∷ []))
unfolding SingleValue.fetch HashMap.get
store_overwrites_example = store_overwrites ((5, one_value) ∷ []) 5 (1 ∷ []) (2 ∷ []) refl
