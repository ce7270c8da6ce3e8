-- ===== src/HashTable/SingleValue.antt =====
-- kira-r2kad/src/domain/dht/hash_table/single_value_hash_table.rs: a table of one value per key.
use kira_rust.Prelude.{
  ℕ, ◌≡◌, refl, ◌≢◌, ◌↔◌, inl, inr, Bool, true, Option, none, some, List, [], ◌∷◌, arith, ◌==◌,
  if◌then◌else◌, is_some, Option-cases, Result, ok, err,
}
use kira_rust.HashMap.{HashMap, get-insert, get-remove}
use kira_rust.HashMap
use kira_rust.HashTable.{
  StoreOk, created, updated, FetchErr, not_found_err, Entry, new_entry, same_bytes, same_bytes_refl,
  gives, is_ok, LocalHashTable,
}

abbrev pub SingleValueHashTable : Type 0
SingleValueHashTable = HashMap (Entry (List ℕ))

pub data SingleStoreOk : Type 0 where
  new_entry_created entry_updated : SingleStoreOk

pub data HashTableErr : Type 0 where
  entry_not_found : ℕ → HashTableErr

unfoldable pub store : SingleValueHashTable → ℕ → List ℕ → SingleValueHashTable × SingleStoreOk
store t key value = elim (HashMap.get t key) [
  | some entry ↦ (HashMap.insert t key (record entry { value = value }), entry_updated)
  | none ↦ (HashMap.insert t key (new_entry value), new_entry_created)
]

unfoldable pub fetch : SingleValueHashTable → ℕ → Result (List (List ℕ)) HashTableErr
fetch t key = elim (HashMap.get t key) [
  | none ↦ err (entry_not_found key)
  | some entry ↦ ok (entry.value ∷ [])
]

unfoldable pub remove : SingleValueHashTable → ℕ → SingleValueHashTable × Bool
remove t key = (HashMap.remove t key, is_some (HashMap.get t key))

unfoldable pub meta : SingleValueHashTable → ℕ → Option (Entry (List ℕ))
meta t key = HashMap.get t key

-- A write of the caller through `meta_mut`.
unfoldable pub meta_mut :
    SingleValueHashTable → ℕ → (Entry (List ℕ) → Entry (List ℕ)) → SingleValueHashTable
meta_mut t key f = HashMap.modify t key f

-- The conversions to what goes on the wire.
unfoldable pub status : SingleStoreOk → StoreOk
status new_entry_created = created
status entry_updated = updated

unfoldable pub fetched : Result (List (List ℕ)) HashTableErr → Result (List (List ℕ)) FetchErr
fetched (ok values) = ok values
fetched (err e) = err not_found_err

-- The store overwrites the value of the key, whatever it was, and keeps the entry's metadata.
pub fetch-store :
    (t : SingleValueHashTable) (key other : ℕ) (value : List ℕ)
    → fetch (store t key value).0 other ≡ (if key == other then ok (value ∷ []) else fetch t other)
unfolding store fetch new_entry
fetch-store t key other value = elim (Option-cases (HashMap.get t key)) [
  | inl e ↦ ground (arith, e, get-insert t key other (new_entry value))
  | inr (entry, e) ↦ ground (arith, e, get-insert t key other (record entry { value = value }))
]

-- A store for a known key reports an update, and the new value is the only one fetched then: the old one
-- is found only if it is the same.
pub store_overwrites :
    (t : SingleValueHashTable) (key : ℕ) (old value : List ℕ)
    → fetch t key ≡ ok (old ∷ [])
    → (status (store t key value).1 ≡ updated)
      × (fetch (store t key value).0 key ≡ ok (value ∷ []))
      × (gives old (fetched (fetch (store t key value).0 key)) ≡ same_bytes value old)
unfolding fetch store status fetched
store_overwrites t key old value h =
    let now : fetch (store t key value).0 key ≡ ok (value ∷ []) =
      ground (arith, fetch-store t key key value) in
    (ground arith, now, ground (arith, now))

pub fetch-default_lem : (key : ℕ) → fetched (fetch [] key) ≡ err not_found_err
unfolding fetch fetched HashMap.get
fetch-default_lem key = refl

pub gives-store_lem :
    (t : SingleValueHashTable) (key : ℕ) (value : List ℕ)
    → gives value (fetched (fetch (store t key value).0 key)) ≡ true
unfolding fetched
gives-store_lem t key value = ground (arith, fetch-store t key key value, same_bytes_refl value)

pub store-other_lem :
    (t : SingleValueHashTable) (key other : ℕ) (value : List ℕ)
    → key ≢ other
    → fetched (fetch (store t key value).0 other) ≡ fetched (fetch t other)
store-other_lem t key other value h = ground (arith, fetch-store t key other value, h)

pub store-created_lem :
    (t : SingleValueHashTable) (key : ℕ) (value : List ℕ)
    → (status (store t key value).1 ≡ created) ↔ (fetched (fetch t key) ≡ err not_found_err)
unfolding store fetch status fetched
store-created_lem t key value = elim (Option-cases (HashMap.get t key)) [
  | inl e ↦ (λ h. ground arith, λ h. ground arith)
  | inr (entry, e) ↦ (λ h. ground arith, λ h. ground arith)
]

pub fetch-remove_lem :
    (t : SingleValueHashTable) (key other : ℕ)
    → fetched (fetch (remove t key).0 other)
      ≡ (if key == other then err not_found_err else fetched (fetch t other))
unfolding fetch remove fetched
fetch-remove_lem t key other = ground (arith, get-remove t key other)

pub remove_known :
    (t : SingleValueHashTable) (key : ℕ) → (remove t key).1 ≡ is_ok (fetched (fetch t key))
unfolding fetch remove fetched
remove_known t key = ground arith

-- The table as an implementation of the interface, with all its laws.
abbrev pub local_hash_table : LocalHashTable
local_hash_table = record {
  Table = SingleValueHashTable;
  default = [];
  store = λ t key value. ((store t key value).0, status (store t key value).1);
  fetch = λ t key. fetched (fetch t key);
  remove = remove;
  fetch-default = fetch-default_lem;
  gives-store = gives-store_lem;
  store-other = store-other_lem;
  store-created = store-created_lem;
  fetch-remove = fetch-remove_lem;
  remove-known = remove_known;
}
