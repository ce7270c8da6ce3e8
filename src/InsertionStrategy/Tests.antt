-- ===== src/InsertionStrategy/Tests.antt =====
-- The replacement in a full bucket of two contacts.
use kira_rust.Prelude.{ℕ, ◌≡◌, refl, none, some, List, [], ◌∷◌, returns, panics}
use kira_rust.Path.{NodePath, valid, size}
use kira_rust.Contact.{Contact}
use kira_rust.Contact
use kira_rust.Bucket.{Bucket}
use kira_rust.Bucket
use kira_rust.RoutingTable.{RoutingTable}
use kira_rust.InsertionStrategy.{Readings, InsertionStrategyResult, replace_in_full_bucket}
use kira_rust.InsertionStrategy.Replacement.{Replacement, replace_in_full_bucket_lem}

abbrev path_of : List ℕ → NodePath
path_of ids = record {
  ids = ids;
  path_state = valid;
  last_validated = none;
  last_path_refresh = none;
}

abbrev contact_by : ℕ → List ℕ → Contact
contact_by id ids = record {
  dest_id = id;
  state = Contact.valid;
  last_seen = 0;
  path_collection = record {
    active_path = some (path_of ids);
    proposed_path = none;
    alternative_paths = [];
  };
  state_seq_nr = record { ssn = 1 };
}

-- A table with one bucket.
abbrev one_bucket : RoutingTable Bucket
one_bucket = record {
  root = λ b. 1;
  add = λ b c. panics;
  contact = λ b id. returns (Bucket.get b id);
  contact_mut = λ b id f. returns (Bucket.get_mut b id f);
  contains = λ b id. returns (Bucket.contains_contact b id);
  split_bucket = λ b id. panics;
  bucket = λ b id. returns b;
}

abbrev full_bucket : Bucket
full_bucket = record {
  contacts = some (contact_by 3 (7 ∷ 3 ∷ [])) ∷ some (contact_by 4 (7 ∷ 3 ∷ 4 ∷ [])) ∷ [];
}

replace_in_full_bucket_example :
    (b' : Bucket) × (r : InsertionStrategyResult) × (replace_in_full_bucket one_bucket full_bucket
        (contact_by 9 (9 ∷ []))
      ≡ returns (b', r))
    × Replacement one_bucket full_bucket full_bucket
        (contact_by 9 (9 ∷ []))
        (path_of (9 ∷ []))
        1
        b'
        r
unfolding Bucket.is_empty Bucket.is_full Bucket.contains_contact Bucket.iter Bucket.flatten size
    Bucket.any_id Contact.is_valid_contact
replace_in_full_bucket_example =
    replace_in_full_bucket_lem one_bucket full_bucket full_bucket (contact_by 9 (9 ∷ []))
      (path_of (9 ∷ [])) 1 refl refl refl refl refl refl refl ((2, refl), ((3, refl), tt))
      (λ old i h. (Bucket.get_mut full_bucket old.dest_id (λ _. contact_by 9 (9 ∷ [])), refl))

abbrev readings : Readings
readings = record { own_age = 7; other_age = 8; validated = 9 }
