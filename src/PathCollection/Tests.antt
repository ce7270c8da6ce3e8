-- ===== src/PathCollection/Tests.antt =====
-- Promotions at concrete collections.
use kira_rust.Prelude.{◌≡◌, refl, none, some, [], ◌∷◌, returns}
use kira_rust.Path.{NodePath, valid, not_validated}
use kira_rust.PathCollection.{PathCollection, set_proposed_to_active}
use kira_rust.PathCollection.Promotion.{IsSized, IsPromoted, Kept, set_proposed_to_active_lem}

abbrev short : NodePath
short = record {
  ids = 2 ∷ 9 ∷ [];
  path_state = not_validated;
  last_validated = none;
  last_path_refresh = none;
}

abbrev long : NodePath
long = record {
  ids = 3 ∷ 4 ∷ 9 ∷ [];
  path_state = valid;
  last_validated = some 1;
  last_path_refresh = none;
}

abbrev both : PathCollection
both = record {
  active_path = some long;
  proposed_path = some short;
  alternative_paths = none ∷ none ∷ none ∷ [];
}

set_proposed_to_active_example :
    (c' : PathCollection) × (set_proposed_to_active both 7 ≡ returns c')
    × IsPromoted short 7 c'
    × IsSized c'
    × Kept (some long) short c'
set_proposed_to_active_example = set_proposed_to_active_lem both short 7 refl refl
