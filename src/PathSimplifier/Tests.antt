-- ===== src/PathSimplifier/Tests.antt =====
-- The simplification of a path with a table that knows a shorter one.
use kira_rust.Prelude.{
  ℕ, ◌≡◌, refl, ap, subst, inl, inr, none, some, List, [], ◌∷◌, arith, ◌==◌, ==→eq, Bool-cases,
  returns, panics, ok,
}
use kira_rust.HashMap
use kira_rust.HashMap.{HashMap}
use kira_rust.Path.{NodePath, valid, last?}
use kira_rust.Contact.{Contact, is_valid_contact}
use kira_rust.Contact
use kira_rust.RoutingTable.{RoutingTable}
use kira_rust.UlnTable.Counting.{uln_table}
use kira_rust.UlnTable.InMemory.{InMemoryUlnTable}
use kira_rust.PathSimplifier.{simplify}
use kira_rust.PathSimplifier.Shorter.{IsShorter, IsKnowing, simplify_lem}

abbrev path_of : List ℕ → NodePath
path_of ids = record {
  ids = ids;
  path_state = valid;
  last_validated = none;
  last_path_refresh = none;
}

abbrev known : Contact
known = record {
  dest_id = 3;
  state = Contact.valid;
  last_seen = 0;
  path_collection = record {
    active_path = some (path_of (7 ∷ 3 ∷ []));
    proposed_path = none;
    alternative_paths = [];
  };
  state_seq_nr = record { ssn = 1 };
}

-- A table that is a map without buckets.
abbrev map_table : RoutingTable (HashMap Contact)
map_table = record {
  root = λ t. 1;
  add = λ t c. returns (HashMap.insert t c.dest_id c, ok tt);
  contact = λ t id. returns (HashMap.get t id);
  contact_mut = λ t id f. returns (HashMap.modify t id f);
  contains = λ t id. returns (HashMap.contains_key t id);
  split_bucket = λ t id. panics;
  bucket = λ t id. panics;
}

abbrev contacts : HashMap Contact
contacts = (3, known) ∷ []

abbrev neighbors : InMemoryUlnTable
neighbors = record { state_seq_nr = record { ssn = 1 }; map = [] }

contacts-IsKnowing : IsKnowing map_table contacts uln_table neighbors
unfolding HashMap.get
contacts-IsKnowing id = (
  HashMap.get contacts id,
  refl,
  λ c h is_valid. elim (Bool-cases (3 == id)) [
    | inl e ↦
        let same : known ≡ c = ground (arith, e, h) in
        subst
          (λ (d : Contact).
            (path : NodePath) × (d.path_collection.active_path ≡ some path)
            × (last? path.ids ≡ some id))
          same (path_of (7 ∷ 3 ∷ []), refl, ap some (==→eq 3 id e))
    | inr e ↦ absurd (ground (arith, e, h))
  ],
)

simplify_example :
    (path' : NodePath) × (simplify map_table contacts uln_table neighbors (path_of (5 ∷ 6 ∷ 3 ∷ []))
      ≡ returns path')
    × IsShorter (path_of (5 ∷ 6 ∷ 3 ∷ [])) path'
simplify_example =
    simplify_lem map_table contacts uln_table neighbors (path_of (5 ∷ 6 ∷ 3 ∷ [])) 3
      contacts-IsKnowing refl
