-- ===== src/HashTable.antt =====
-- kira-r2kad/src/domain/dht/hash_table.rs and hash_table/: the local hash table of a node with its two
-- implementations. Times are readings of the clock, and a value is the list of its bytes.
pub mod Client
mod Tests
pub mod Access
pub mod Complex
pub mod SingleValue
use kira_rust.Prelude.{
  ℕ, zero, suc, ◌+◌, ◌-◌, ◌*◌, ◌/◌, ◌%◌, ◌^◌, ◌≤◌, ◌<◌, min, max, dec_lt, dec_le, ℕ_discrete, ◌≡◌,
  refl, sym, ap, ◌∙◌, subst, ◌≢◌, ◌↔◌, ◌⊎◌, inl, inr, Bool, true, false, ◌&&◌, ◌||◌, not, Option,
  none, some, List, [], ◌∷◌, ◌++◌, map, arith, ltb, leb, ◌==◌, if◌then◌else◌, is_some, ltb→lt,
  lt→ltb, ==→eq, ==_self, ==_ne, Bool-cases, Option-cases, length, get_elem?, take, drop,
  length-append, length-drop-le, take-length_append, drop-length_append, contains, contains-append,
  length-take, length-drop, take-append-drop, get_elem?-inside, get_elem?-outside, Outcome, returns,
  panics, Result, ok, err, ◌>>=◌, ◌>>◌, assert, expect,
}
use kira_rust.HashMap.{HashMap}
use kira_rust.HashMap

-- What a store reports on the wire.
pub data StoreOk : Type 0 where
  created inserted updated : StoreOk

pub data FetchErr : Type 0 where
  not_found_err : FetchErr

-- Both tables keep entries of a value with its metadata; the value is the bytes or a set of them.
pub record Entry {ℓ} (V : Type ℓ) : Type ℓ where
  pub value : V
  pub accessed : Option ℕ
  pub republished : Option ℕ

unfoldable pub new_entry {ℓ} : {V : Type ℓ} → V → Entry V
new_entry v = record { value = v; accessed = none; republished = none }

-- `is_none_or(|last| last < now)`.
abbrev pub is_later : Option ℕ → ℕ → Bool
is_later none now = true
is_later (some last) now = ltb last now

unfoldable pub access {ℓ} : {V : Type ℓ} → Entry V → ℕ → Entry V × Bool
access e now =
    if is_later e.accessed now then (record e { accessed = some now }, true) else (e, false)

unfoldable pub republish {ℓ} : {V : Type ℓ} → Entry V → ℕ → Entry V × Bool
republish e now =
    if is_later e.republished now then (record e { republished = some now }, true) else (e, false)

-- What the table's users are told of an entry's metadata.
abbrev pub accessed_at {ℓ} : {V : Type ℓ} → Option (Entry V) → Option (Option ℕ)
accessed_at none = none
accessed_at (some e) = some e.accessed

abbrev pub is_ok {ℓ κ} : {A : Type ℓ} {E : Type κ} → Result A E → Bool
is_ok (ok a) = true
is_ok (err e) = false

-- `==` on byte slices.
abbrev pub same_bytes : List ℕ → List ℕ → Bool
same_bytes [] [] = true
same_bytes [] (b ∷ bs) = false
same_bytes (a ∷ as') [] = false
same_bytes (a ∷ as') (b ∷ bs) = a == b && same_bytes as' bs

pub same_bytes_refl : (v : List ℕ) → same_bytes v v ≡ true
same_bytes_refl [] = refl
same_bytes_refl (b ∷ bs) = ground (arith, same_bytes_refl bs)

pub same_bytes-eq : (v w : List ℕ) → same_bytes v w ≡ true → v ≡ w
same_bytes-eq [] [] h = refl
same_bytes-eq [] (b ∷ bs) h = cc
same_bytes-eq (a ∷ as') [] h = cc
same_bytes-eq (a ∷ as') (b ∷ bs) h = ground (arith, same_bytes-eq as' bs)

-- `HashSet::contains` on a set of byte strings.
abbrev pub has_value : List ℕ → List (List ℕ) → Bool
has_value v [] = false
has_value v (w ∷ ws) = same_bytes w v || has_value v ws

-- Whether a fetch gives the value.
abbrev pub gives : List ℕ → Result (List (List ℕ)) FetchErr → Bool
gives v (ok values) = has_value v values
gives v (err e) = false

-- The trait `LocalHashTable`, with the results as they go on the wire, and what its users rely on.
pub record LocalHashTable : Type 1 where
  pub Table : Type 0
  pub default : Table
  pub store : Table → ℕ → List ℕ → Table × StoreOk
  pub fetch : Table → ℕ → Result (List (List ℕ)) FetchErr
  pub remove : Table → ℕ → Table × Bool
  pub fetch-default : (key : ℕ) → fetch default key ≡ err not_found_err
  pub gives-store :
      (t : Table) (key : ℕ) (value : List ℕ) → gives value (fetch (store t key value).0 key) ≡ true
  pub store-other :
      (t : Table) (key other : ℕ) (value : List ℕ)
      → key ≢ other
      → fetch (store t key value).0 other ≡ fetch t other
  pub store-created :
      (t : Table) (key : ℕ) (value : List ℕ)
      → ((store t key value).1 ≡ created) ↔ (fetch t key ≡ err not_found_err)
  pub fetch-remove :
      (t : Table) (key other : ℕ)
      → fetch (remove t key).0 other ≡ (if key == other then err not_found_err else fetch t other)
  pub remove-known : (t : Table) (key : ℕ) → (remove t key).1 ≡ is_ok (fetch t key)
