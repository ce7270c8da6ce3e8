-- ===== src/Bucket/Split.antt =====
-- The split of a bucket, contact by contact.
use kira_rust.Prelude.{
  ℕ, ◌≡◌, ◌⊎◌, Bool, true, Option, none, some, List, [], ◌∷◌, if◌then◌else◌, returns, Result, ok,
  err,
}
use kira_rust.Path.{NodePath}
use kira_rust.Contact.{Contact}
use kira_rust.Bucket.{Bucket, BucketInsertionError, find_id, get, split_entries}
use kira_rust.Bucket.Slots.{IsDistinct}
use kira_rust.Bucket.Changes.{IsBucket}

module _ (predicate : Contact → Bool) where
  abbrev pub moved : Option Contact → Option Contact
  moved none = none
  moved (some c) = if predicate c then some c else none

  abbrev pub stays : Option Contact → Option Contact
  stays none = none
  stays (some c) = if predicate c then none else some c

abbrev pub or_else : Option Contact → Option Contact → Option Contact
or_else none d = d
or_else (some c) d = some c

-- Every contact has an active path, without which an insertion panics.
abbrev pub HasPaths : List (Option Contact) → Type 0
HasPaths [] = Unit
HasPaths (none ∷ entries) = HasPaths entries
HasPaths (some c ∷ entries) =
    ((p : NodePath) × (c.path_collection.active_path ≡ some p)) × HasPaths entries

-- No node is in both buckets.
abbrev pub IsApart : List (Option Contact) → Bucket → Type 0
IsApart entries other = (id : ℕ) → (find_id id entries ≡ none) ⊎ (get other id ≡ none)

-- What a split can do: it moves exactly the contacts of the predicate, or it stops at a contact that the
-- other bucket refuses, and that is in neither bucket then.
pub data Parts (size : ℕ) (predicate : Contact → Bool) (entries : List (Option Contact))
    (other : Bucket)
    : List (Option Contact) → Bucket → Result (Unit {0}) BucketInsertionError → Type 0 where
  moves_all :
      {rest : List (Option Contact)} {other' : Bucket}
      → IsDistinct rest
      → IsBucket size other'
      → ((id : ℕ) → find_id id rest ≡ stays predicate (find_id id entries))
      → ((id : ℕ) → get other' id ≡ or_else (moved predicate (find_id id entries)) (get other id))
      → Parts size predicate entries other rest other' (ok tt)
  loses :
      {rest : List (Option Contact)} {other' : Bucket} {e : BucketInsertionError}
      → (c : Contact) → find_id c.dest_id entries ≡ some c
      → predicate c ≡ true
      → find_id c.dest_id rest ≡ none
      → get other' c.dest_id ≡ none
      → Parts size predicate entries other rest other' (err e)

abbrev Splits : ℕ → (Contact → Bool) → List (Option Contact) → Bucket → Type 0
Splits size predicate entries other =
    (rest : List (Option Contact)) × (other' : Bucket) × (r : Result (Unit {0})
      BucketInsertionError)
    × (split_entries predicate entries other ≡ returns (rest, other', r))
    × Parts size predicate entries other rest other' r
