-- ===== src/Bucket.antt =====
-- kira-r2kad/src/domain/bucket.rs: a bucket of the routing table, a fixed number of slots for contacts.
pub mod Writes
pub mod Slots
pub mod Changes
pub mod Split
mod Tests
use kira_rust.Prelude.{
  ℕ, zero, suc, ◌+◌, ◌-◌, ◌*◌, ◌/◌, ◌%◌, ◌^◌, ◌≤◌, ◌<◌, min, max, dec_lt, dec_le, ℕ_discrete, ◌≡◌,
  refl, sym, ap, ◌∙◌, subst, ◌≢◌, ◌↔◌, ◌⊎◌, inl, inr, Bool, true, false, ◌&&◌, ◌||◌, not, Option,
  none, some, List, [], ◌∷◌, ◌++◌, map, arith, ltb, leb, ◌==◌, if◌then◌else◌, is_some, ltb→lt,
  lt→ltb, ==→eq, ==_self, ==_ne, Bool-cases, Option-cases, length, get_elem?, take, drop,
  length-append, length-drop-le, take-length_append, drop-length_append, contains, contains-append,
  length-take, length-drop, take-append-drop, get_elem?-inside, get_elem?-outside, Outcome, returns,
  panics, Result, ok, err, ◌>>=◌, ◌>>◌, assert, expect,
}
use kira_rust.Path.{is_notvalidated}
use kira_rust.Contact.{Contact}

pub data BucketInsertionError : Type 0 where
  duplicate_id : ℕ → BucketInsertionError
  full needs_validation : BucketInsertionError

pub data ReplacementError : Type 0 where
  not_found duplicate_replacement : ℕ → ReplacementError

-- The number of slots is the const parameter `SIZE`.
pub record Bucket : Type 0 where
  pub contacts : List (Option Contact)

abbrev pub default_bucket_size : ℕ
default_bucket_size = 20

abbrev pub repeat_none : ℕ → List (Option Contact)
repeat_none zero = []
repeat_none (suc size) = none ∷ repeat_none size

unfoldable pub new : ℕ → Bucket
new size = record { contacts = repeat_none size }

unfoldable pub any_some : List (Option Contact) → Bool
any_some [] = false
any_some (entry ∷ entries) = is_some entry || any_some entries

unfoldable pub any_none : List (Option Contact) → Bool
any_none [] = false
any_none (entry ∷ entries) = not (is_some entry) || any_none entries

unfoldable pub is_empty : Bucket → Bool
unfolding any_some
is_empty b = not (any_some b.contacts)

unfoldable pub is_full : Bucket → Bool
unfolding any_none
is_full b = not (any_none b.contacts)

-- `iter().flatten().find(|contact| contact.id() == id)`.
unfoldable pub find_id : ℕ → List (Option Contact) → Option Contact
find_id id [] = none
find_id id (none ∷ entries) = find_id id entries
find_id id (some contact ∷ entries) =
    if contact.dest_id == id then some contact else find_id id entries

unfoldable pub get : Bucket → ℕ → Option Contact
get b id = find_id id b.contacts

-- `iter().flatten().count()`.
unfoldable pub count_some : List (Option Contact) → ℕ
count_some [] = 0
count_some (none ∷ entries) = count_some entries
count_some (some contact ∷ entries) = suc (count_some entries)

unfoldable pub len : Bucket → ℕ
unfolding count_some
len b = count_some b.contacts

-- `iter().flatten().any(|contact| contact.id() == id)`.
unfoldable pub any_id : ℕ → List (Option Contact) → Bool
any_id id [] = false
any_id id (none ∷ entries) = any_id id entries
any_id id (some contact ∷ entries) = contact.dest_id == id || any_id id entries

unfoldable pub contains_contact : Bucket → ℕ → Bool
contains_contact b id = any_id id b.contacts

-- A write of the caller through the reference to the first contact with the id.
unfoldable pub modify_id : ℕ → (Contact → Contact) → List (Option Contact) → List (Option Contact)
modify_id id f [] = []
modify_id id f (none ∷ entries) = none ∷ modify_id id f entries
modify_id id f (some contact ∷ entries) =
    let rest = modify_id id f entries in
    if contact.dest_id == id then some (f contact) ∷ entries else some contact ∷ rest

unfoldable pub get_mut : Bucket → ℕ → (Contact → Contact) → Bucket
get_mut b id f = record { contacts = modify_id id f b.contacts }

-- A write through `empty_entry_mut`, if there is an empty entry.
unfoldable pub fill_entry : Contact → List (Option Contact) → Option (List (Option Contact))
fill_entry contact [] = none
fill_entry contact (none ∷ entries) = some (some contact ∷ entries)
fill_entry contact (some other ∷ entries) = elim (fill_entry contact entries) [
  | none ↦ none
  | some filled ↦ some (some other ∷ filled)
]

unfoldable pub insert : Bucket → Contact → Outcome (Bucket × Result (Unit {0}) BucketInsertionError)
unfolding contains_contact fill_entry
insert b contact =
    if contains_contact b contact.dest_id
    then returns (b, err (duplicate_id contact.dest_id))
    else do
      path ← expect contact.path_collection.active_path
      if is_notvalidated path
          then returns (b, err needs_validation)
          else elim (fill_entry contact b.contacts) [
            | some filled ↦ returns (record { contacts = filled }, ok tt)
            | none ↦ returns (b, err full)
          ]

-- Both errors carry the id that is to be replaced.
unfoldable pub replace : Bucket → ℕ → Contact → Outcome (Bucket × Result Contact ReplacementError)
unfolding contains_contact get get_mut
replace b replace_id contact =
    if not (contains_contact b replace_id)
    then returns (b, err (not_found replace_id))
    else if contains_contact b contact.dest_id
    then returns (b, err (duplicate_replacement replace_id))
    else do
      old_contact ← expect (get b replace_id)
      returns (get_mut b replace_id (λ _. contact), ok old_contact)

-- `iter_mut().find_map(..)` with the `take` of the first match.
unfoldable pub take_id : ℕ → List (Option Contact) → List (Option Contact) × Option Contact
take_id id [] = ([], none)
take_id id (none ∷ entries) = let (rest, taken) = take_id id entries in (none ∷ rest, taken)
take_id id (some contact ∷ entries) =
    let (rest, taken) = take_id id entries in
    if contact.dest_id == id then (none ∷ entries, some contact) else (some contact ∷ rest, taken)

unfoldable pub remove : Bucket → ℕ → Bucket × Option Contact
unfolding take_id
remove b id = let (rest, taken) = take_id id b.contacts in (record { contacts = rest }, taken)

-- The loop of `split` over the slots; an error leaves the loop, with the contact out of its slot.
unfoldable pub split_entries :
    (Contact → Bool)
    → List (Option Contact)
    → Bucket
    → Outcome (List (Option Contact) × Bucket × Result (Unit {0}) BucketInsertionError)
split_entries predicate [] other = returns ([], other, ok tt)
split_entries predicate (none ∷ entries) other = do
  (rest, other', result) ← split_entries predicate entries other
  returns (none ∷ rest, other', result)
split_entries predicate (some contact ∷ entries) other = elim (predicate contact) [
  | false ↦ do
    (rest, other', result) ← split_entries predicate entries other
    returns (some contact ∷ rest, other', result)
  | true ↦ do
    (other', inserted) ← insert other contact
    elim inserted [
      | err e ↦ returns (none ∷ entries, other', err e)
      | ok u ↦ do
        (rest, other'', result) ← split_entries predicate entries other'
        returns (none ∷ rest, other'', result)
    ]
]

unfoldable pub split :
    Bucket
    → Bucket
    → (Contact → Bool)
    → Outcome (Bucket × Bucket × Result (Unit {0}) BucketInsertionError)
unfolding split_entries
split b other predicate = do
  (rest, other', result) ← split_entries predicate b.contacts other
  returns (record { contacts = rest }, other', result)

-- `iter`, and the three `into_iter`s, which reverse the contacts and pop from the end: the contacts in the
-- order of their slots.
unfoldable pub flatten : List (Option Contact) → List Contact
flatten [] = []
flatten (none ∷ entries) = flatten entries
flatten (some contact ∷ entries) = contact ∷ flatten entries

unfoldable pub iter : Bucket → List Contact
unfolding flatten
iter b = flatten b.contacts

-- `from([Contact; SIZE])`.
unfoldable pub from_contacts : List Contact → Bucket
from_contacts array = record { contacts = map some array }
