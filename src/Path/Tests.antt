-- ===== src/Path/Tests.antt =====
-- Edits and comparisons at concrete paths.
use kira_rust.Prelude.{
  ℕ, ◌≡◌, refl, ◌↔◌, ◌⊎◌, true, false, none, List, [], ◌∷◌, ◌++◌, arith, returns,
}
use kira_rust.Link.{Link}
use kira_rust.Link
use kira_rust.Path.{
  NodePath, valid, remove_in, replace_interval, starts_with, contains_link, is_better_than,
}
use kira_rust.Path.Edits.{
  remove_in_lem, replace_interval_lem, starts_with_iff, is_better_than_order,
}
use kira_rust.Path.Links.{Hop, contains_link_iff}

abbrev path_of : List ℕ → NodePath
path_of ids = record {
  ids = ids;
  path_state = valid;
  last_validated = none;
  last_path_refresh = none;
}

replace_interval_example :
    replace_interval (path_of (1 ∷ 2 ∷ 3 ∷ 4 ∷ [])) 0 2 (3 ∷ []) ≡ returns (path_of (3 ∷ 4 ∷ []))
replace_interval_example =
    replace_interval_lem (path_of (1 ∷ 2 ∷ 3 ∷ 4 ∷ [])) [] (1 ∷ 2 ∷ 3 ∷ []) (4 ∷ []) (3 ∷ []) 0 2
      refl refl refl (omega arith)

remove_in_example : remove_in (path_of (1 ∷ 2 ∷ 3 ∷ 4 ∷ [])) 1 3 ≡ returns (path_of (1 ∷ 4 ∷ []))
remove_in_example =
    remove_in_lem (path_of (1 ∷ 2 ∷ 3 ∷ 4 ∷ [])) (1 ∷ []) (2 ∷ 3 ∷ []) (4 ∷ []) refl (λ e. cc)

starts_with_iff_example :
    (starts_with (path_of (1 ∷ 2 ∷ 3 ∷ [])) (1 ∷ 2 ∷ []) ≡ true)
    ↔ ((rest : List ℕ) × (1 ∷ 2 ∷ 3 ∷ [] ≡ (1 ∷ 2 ∷ []) ++ rest))
starts_with_iff_example = starts_with_iff (path_of (1 ∷ 2 ∷ 3 ∷ [])) (1 ∷ 2 ∷ [])

contains_link_iff_example :
    (contains_link (path_of (1 ∷ 2 ∷ 3 ∷ [])) (Link.new 3 2) ≡ true)
    ↔ (Hop (1 ∷ 2 ∷ 3 ∷ []) 3 2 ⊎ Hop (1 ∷ 2 ∷ 3 ∷ []) 2 3)
contains_link_iff_example = contains_link_iff (path_of (1 ∷ 2 ∷ 3 ∷ [])) 3 2

is_better_than_order_example :
    (is_better_than (λ _. 0) (path_of (1 ∷ 4 ∷ [])) (path_of (4 ∷ [])) ≡ returns false)
    × (is_better_than (λ _. 0) (path_of (4 ∷ [])) (path_of (1 ∷ 2 ∷ 4 ∷ [])) ≡ returns true)
unfolding is_better_than
is_better_than_order_example =
    is_better_than_order (λ _. 0) (path_of (4 ∷ [])) (path_of (1 ∷ 4 ∷ []))
      (path_of (1 ∷ 2 ∷ 4 ∷ [])) refl refl
