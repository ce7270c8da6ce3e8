-- ===== src/HashTable/Complex.antt =====
-- kira-r2kad/src/domain/dht/hash_table/complex_hash_table.rs: a table of a set of values per key.
use kira_rust.Prelude.{
  ℕ, ◌≡◌, refl, subst, ◌≢◌, ◌↔◌, inl, inr, Bool, true, false, ◌&&◌, ◌||◌, Option, none, some, List,
  [], ◌∷◌, arith, ◌==◌, if◌then◌else◌, is_some, ==→eq, Bool-cases, Option-cases, Result, ok, err,
}
use kira_rust.HashMap.{HashMap, get-insert, get-remove}
use kira_rust.HashMap
use kira_rust.HashTable.{
  StoreOk, created, inserted, updated, FetchErr, not_found_err, Entry, new_entry, same_bytes,
  same_bytes_refl, same_bytes-eq, has_value, gives, is_ok, LocalHashTable,
}

-- `HashSet<Arc<[u8]>>`: the order of the list stands for the iteration.
abbrev pub Values : Type 0
Values = List (List ℕ)

abbrev pub ComplexHashTable : Type 0
ComplexHashTable = HashMap (Entry Values)

pub data ComplexStoreOk : Type 0 where
  new_entry_created entry_unmodified entry_appended : ℕ → ComplexStoreOk

pub data ComplexFetchErr : Type 0 where
  entry_not_found : ℕ → ComplexFetchErr

-- `HashSet::insert`, and whether the value is new.
unfoldable pub insert_value : Values → List ℕ → Values × Bool
insert_value values value =
    if has_value value values then (values, false) else (value ∷ values, true)

unfoldable pub store : ComplexHashTable → ℕ → List ℕ → ComplexHashTable × ComplexStoreOk
unfolding insert_value new_entry
store t key value = elim (HashMap.get t key) [
  | some entry ↦
      let (values, new_value) = insert_value entry.value value in
      (
        HashMap.insert t key (record entry { value = values }),
        if new_value then entry_appended key else entry_unmodified key,
      )
  | none ↦ (HashMap.insert t key (new_entry (value ∷ [])), new_entry_created key)
]

unfoldable pub fetch : ComplexHashTable → ℕ → Result Values ComplexFetchErr
fetch t key = elim (HashMap.get t key) [
  | none ↦ err (entry_not_found key)
  | some entry ↦ ok entry.value
]

unfoldable pub remove : ComplexHashTable → ℕ → ComplexHashTable × Bool
remove t key = (HashMap.remove t key, is_some (HashMap.get t key))

unfoldable pub meta : ComplexHashTable → ℕ → Option (Entry Values)
meta t key = HashMap.get t key

-- A write of the caller through `meta_mut`.
unfoldable pub meta_mut : ComplexHashTable → ℕ → (Entry Values → Entry Values) → ComplexHashTable
meta_mut t key f = HashMap.modify t key f

-- The conversions to what goes on the wire.
unfoldable pub status : ComplexStoreOk → StoreOk
status (new_entry_created key) = created
status (entry_unmodified key) = updated
status (entry_appended key) = inserted

unfoldable pub fetched : Result (List (List ℕ)) ComplexFetchErr → Result (List (List ℕ)) FetchErr
fetched (ok values) = ok values
fetched (err e) = err not_found_err

abbrev values_of : Option (Entry Values) → Values
values_of none = []
values_of (some entry) = entry.value

fetch-store :
    (t : ComplexHashTable) (key other : ℕ) (value : List ℕ)
    → fetch (store t key value).0 other ≡ (
        if key == other
        then ok (insert_value (values_of (HashMap.get t key)) value).0
        else fetch t other)
unfolding store fetch new_entry insert_value
fetch-store t key other value = elim (Option-cases (HashMap.get t key)) [
  | inl e ↦ ground (arith, e, get-insert t key other (new_entry (value ∷ [])))
  | inr (entry, e) ↦
      let changed : Entry Values = record entry { value = (insert_value entry.value value).0 } in
      ground (arith, e, get-insert t key other changed)
]

has_value-insert_value :
    (w value : List ℕ) (values : Values)
    → has_value w (insert_value values value).0 ≡ (same_bytes value w || has_value w values)
unfolding insert_value
has_value-insert_value w value values = elim (Bool-cases (same_bytes value w)) [
  | inr e ↦ ground (arith, e)
  | inl e ↦
      subst
        (λ u.
          has_value u (insert_value values value).0 ≡ (same_bytes value u || has_value u values))
        (same_bytes-eq value w e) (ground (arith, same_bytes_refl value))
]

-- A store adds the value to those of the key and takes none away; other keys keep theirs.
pub gives-store_iff :
    (t : ComplexHashTable) (key other : ℕ) (value w : List ℕ)
    → gives w (fetched (fetch (store t key value).0 other))
      ≡ (key == other && same_bytes value w || gives w (fetched (fetch t other)))
unfolding fetch fetched
gives-store_iff t key other value w = ground (
  arith,
  fetch-store t key other value,
  has_value-insert_value w value (values_of (HashMap.get t key)),
  ==→eq key other,
)

pub fetch-default_lem : (key : ℕ) → fetched (fetch [] key) ≡ err not_found_err
unfolding fetch fetched HashMap.get
fetch-default_lem key = refl

pub gives-store_lem :
    (t : ComplexHashTable) (key : ℕ) (value : List ℕ)
    → gives value (fetched (fetch (store t key value).0 key)) ≡ true
gives-store_lem t key value =
    ground (arith, gives-store_iff t key key value value, same_bytes_refl value)

pub store-other_lem :
    (t : ComplexHashTable) (key other : ℕ) (value : List ℕ)
    → key ≢ other
    → fetched (fetch (store t key value).0 other) ≡ fetched (fetch t other)
store-other_lem t key other value h = ground (arith, fetch-store t key other value, h)

pub store-created_lem :
    (t : ComplexHashTable) (key : ℕ) (value : List ℕ)
    → (status (store t key value).1 ≡ created) ↔ (fetched (fetch t key) ≡ err not_found_err)
unfolding store fetch status fetched insert_value
store-created_lem t key value = elim (Option-cases (HashMap.get t key)) [
  | inl e ↦ (λ h. ground arith, λ h. ground arith)
  | inr (entry, e) ↦ (λ h. ground arith, λ h. ground arith)
]

pub fetch-remove_lem :
    (t : ComplexHashTable) (key other : ℕ)
    → fetched (fetch (remove t key).0 other)
      ≡ (if key == other then err not_found_err else fetched (fetch t other))
unfolding fetch remove fetched
fetch-remove_lem t key other = ground (arith, get-remove t key other)

pub remove_known :
    (t : ComplexHashTable) (key : ℕ) → (remove t key).1 ≡ is_ok (fetched (fetch t key))
unfolding fetch remove fetched
remove_known t key = ground arith

-- The table as an implementation of the interface, with all its laws.
abbrev pub local_hash_table : LocalHashTable
local_hash_table = record {
  Table = ComplexHashTable;
  default = [];
  store = λ t key value. ((store t key value).0, status (store t key value).1);
  fetch = λ t key. fetched (fetch t key);
  remove = remove;
  fetch-default = fetch-default_lem;
  gives-store = gives-store_lem;
  store-other = store-other_lem;
  store-created = store-created_lem;
  fetch-remove = fetch-remove_lem;
  remove-known = remove_known;
}
