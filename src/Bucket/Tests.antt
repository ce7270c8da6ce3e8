-- ===== src/Bucket/Tests.antt =====
-- Insertions, replacements, removals and splits at concrete buckets.
use kira_rust.Prelude.{
  ℕ, ◌≡◌, refl, true, none, some, [], ◌∷◌, ◌==◌, if◌then◌else◌, returns, Result, err,
}
use kira_rust.Path.{NodePath, valid, not_validated, is_notvalidated}
use kira_rust.Contact.{Contact}
use kira_rust.Contact
use kira_rust.Bucket.{
  Bucket, BucketInsertionError, ReplacementError, get, insert, replace, remove, split, find_id,
  any_id, needs_validation,
}
use kira_rust.Bucket.Changes.{IsBucket, Insertion, Replacement, insert_lem, remove_lem, replace_lem}

abbrev path_to : ℕ → NodePath
path_to id = record {
  ids = id ∷ [];
  path_state = valid;
  last_validated = none;
  last_path_refresh = none;
}

abbrev contact : ℕ → Contact
contact id = record {
  dest_id = id;
  state = Contact.valid;
  last_seen = 0;
  path_collection = record {
    active_path = some (path_to id);
    proposed_path = none;
    alternative_paths = none ∷ none ∷ none ∷ [];
  };
  state_seq_nr = record { ssn = 1 };
}

-- Three slots, of which the second is free.
abbrev two : Bucket
two = record { contacts = some (contact 1) ∷ none ∷ some (contact 2) ∷ [] }

two-IsBucket : IsBucket 3 two
unfolding find_id
two-IsBucket = record { sized = refl; distinct = (refl, (refl, tt)) }

abbrev free : Bucket
free = record { contacts = none ∷ none ∷ [] }

insert_example :
    (b' : Bucket) × (r : Result (Unit {0}) BucketInsertionError) × (insert two (contact 3)
      ≡ returns (b', r))
    × Insertion 3 two (contact 3) (path_to 3) b' r
insert_example = insert_lem 3 two (contact 3) (path_to 3) two-IsBucket refl

remove_example :
    ((remove two 2).1 ≡ get two 2)
    × IsBucket 3 (remove two 2).0
    × ((id' : ℕ) → get (remove two 2).0 id' ≡ (if 2 == id' then none else get two id'))
remove_example = remove_lem 3 two 2 two-IsBucket

replace_example :
    (b' : Bucket) × (r : Result Contact ReplacementError) × (replace two 1 (contact 3)
      ≡ returns (b', r))
    × Replacement 3 two 1 (contact 3) b' r
replace_example = replace_lem 3 two 1 (contact 3) two-IsBucket

-- A contact whose path is not validated is refused by the other bucket and lost.
abbrev unvalidated : Contact
unvalidated = record (contact 5) {
  path_collection = record (contact 5).path_collection {
    active_path = some (record (path_to 5) { path_state = not_validated });
  };
}

split_loses :
    split (record { contacts = some unvalidated ∷ [] }) free (λ c. true)
    ≡ returns (record { contacts = none ∷ [] }, free, err needs_validation)
unfolding split insert any_id is_notvalidated
split_loses = refl
