-- ===== src/PathCollection.antt =====
-- kira-r2kad/src/domain/path/pathcollection.rs: the active, the proposed and the alternative paths of a
-- contact.
pub mod Promotion
mod Tests
use kira_rust.Prelude.{
  ℕ, Option, none, some, List, [], ◌∷◌, if◌then◌else◌, Outcome, returns, panics, ◌>>=◌, expect,
}
use kira_rust.Path.{NodePath, is_valid, is_same_path_as, set_valid, update_last_validated}

-- The alternatives are `MAX_ALTERNATIVE_PATHS` places.
pub record PathCollection : Type 0 where
  pub active_path : Option NodePath
  pub proposed_path : Option NodePath
  pub alternative_paths : List (Option NodePath)

abbrev pub max_alternative_paths : ℕ
max_alternative_paths = 3

unfoldable pub new : PathCollection
new = record {
  active_path = none;
  proposed_path = none;
  alternative_paths = none ∷ none ∷ none ∷ [];
}

unfoldable pub new_with_active_path : NodePath → PathCollection
unfolding new
new_with_active_path p = record new { active_path = some p }

unfoldable pub set_active_path : PathCollection → NodePath → PathCollection
set_active_path c p = record c { active_path = some p }

unfoldable pub set_proposed_path : PathCollection → NodePath → PathCollection
set_proposed_path c p = record c { proposed_path = some p }

unfoldable pub clear_proposed_path : PathCollection → PathCollection
clear_proposed_path c = record c { proposed_path = none }

-- The first `Some`, flattened.
unfoldable pub first_some : List (Option NodePath) → Option NodePath
first_some [] = none
first_some (none ∷ paths) = first_some paths
first_some (some p ∷ paths) = some p

unfoldable pub first_alternative_path : PathCollection → Option NodePath
unfolding first_some
first_alternative_path c = first_some c.alternative_paths

-- `alternative_paths[replaceable] = new` at the first free place; `none` if there is none.
unfoldable pub fill_free :
    Option NodePath → List (Option NodePath) → Option (List (Option NodePath))
fill_free place [] = none
fill_free place (none ∷ paths) = some (place ∷ paths)
fill_free place (some p ∷ paths) = elim (fill_free place paths) [
  | none ↦ none
  | some filled ↦ some (some p ∷ filled)
]

-- `*last_mut().expect(..) = new`.
unfoldable pub replace_last :
    Option NodePath → List (Option NodePath) → Outcome (List (Option NodePath))
replace_last place [] = panics
replace_last place (p ∷ []) = returns (place ∷ [])
replace_last place (p ∷ q ∷ paths) = do rest ← replace_last place (q ∷ paths); returns (p ∷ rest)

unfoldable pub move_active_to_alternative : PathCollection → Outcome PathCollection
unfolding fill_free replace_last
move_active_to_alternative c = elim (fill_free c.active_path c.alternative_paths) [
  | some paths ↦ returns (record c { active_path = none; alternative_paths = paths })
  | none ↦ do
    paths ← replace_last c.active_path c.alternative_paths
    returns (record c { active_path = none; alternative_paths = paths })
]

-- The last two lines of `set_proposed_to_active`.
unfoldable pub activate : PathCollection → ℕ → Outcome PathCollection
activate c now = do
  proposed ← expect c.proposed_path
  validated ← set_valid proposed now
  returns (record c { active_path = some validated; proposed_path = none })

-- `now` is the clock.
unfoldable pub set_proposed_to_active : PathCollection → ℕ → Outcome PathCollection
unfolding activate move_active_to_alternative
set_proposed_to_active c now = elim c.active_path [
  | none ↦ activate c now
  | some active_path ↦
      if is_valid active_path
      then (do
        proposed ← expect c.proposed_path
        if is_same_path_as active_path proposed
            then returns (record c {
              active_path = some (update_last_validated active_path now);
              proposed_path = none;
            })
            else (do c' ← move_active_to_alternative c; activate c' now))
      else activate c now
]
