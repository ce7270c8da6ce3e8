-- ===== src/CycleRemover/Tests.antt =====
-- The paths of the unit tests of kira-r2kad/src/domain/path/in_order_cycle_remover.rs.
use kira_rust.Prelude.{ℕ, ◌≡◌, refl, inl, false, ◌&&◌, not, none, List, [], ◌∷◌, returns}
use kira_rust.Link.{Link}
use kira_rust.Vec
use kira_rust.Path.{NodePath, size, first, last, contains_link, valid, remove_in, remove_times}
use kira_rust.CycleRemover.{remove_cycles_in_place}
use kira_rust.CycleRemover.Shortcut.{IsSimple}
use kira_rust.CycleRemover.Loop.{simplified, remove_cycles_in_place_lem}
use kira_rust.CycleRemover.Correct.{remove_cycles_in_place_simple, remove_cycles_correct}

abbrev path_of : List ℕ → NodePath
path_of ids = record {
  ids = ids;
  path_state = valid;
  last_validated = none;
  last_path_refresh = none;
}

one_cycle :
    remove_cycles_in_place (path_of (1 ∷ 2 ∷ 3 ∷ 2 ∷ 5 ∷ [])) ≡ returns (path_of (1 ∷ 2 ∷ 5 ∷ []))
unfolding remove_cycles_in_place size remove_in remove_times Vec.remove
one_cycle = refl

back_to_start :
    remove_cycles_in_place (path_of (1 ∷ 2 ∷ 1 ∷ 3 ∷ 1 ∷ [])) ≡ returns (path_of (1 ∷ []))
unfolding remove_cycles_in_place size remove_in remove_times Vec.remove
back_to_start = refl

remove_cycles_correct_example :
    (p' : NodePath) × (remove_cycles_in_place (path_of (1 ∷ 2 ∷ 3 ∷ 2 ∷ 5 ∷ [])) ≡ returns p')
    × IsSimple p'.ids
    × (first p' ≡ first (path_of (1 ∷ 2 ∷ 3 ∷ 2 ∷ 5 ∷ [])))
    × (last p' ≡ last (path_of (1 ∷ 2 ∷ 3 ∷ 2 ∷ 5 ∷ [])))
    × ((l : Link)
        → (contains_link p' l && not (contains_link (path_of (1 ∷ 2 ∷ 3 ∷ 2 ∷ 5 ∷ [])) l)) ≡ false)
remove_cycles_correct_example =
    remove_cycles_correct (path_of (1 ∷ 2 ∷ 3 ∷ 2 ∷ 5 ∷ [])) (inl (λ e. cc))

remove_cycles_in_place_simple_example :
    remove_cycles_in_place (path_of (1 ∷ 2 ∷ 5 ∷ [])) ≡ returns (path_of (1 ∷ 2 ∷ 5 ∷ []))
remove_cycles_in_place_simple_example =
    remove_cycles_in_place_simple (path_of (1 ∷ 2 ∷ 5 ∷ [])) (inl (λ e. cc))
      (refl, (refl, (refl, tt)))

remove_cycles_in_place_example :
    remove_cycles_in_place (path_of (1 ∷ 2 ∷ 3 ∷ 2 ∷ 5 ∷ []))
    ≡ returns (path_of (simplified (1 ∷ 2 ∷ 3 ∷ 2 ∷ 5 ∷ [])))
remove_cycles_in_place_example =
    remove_cycles_in_place_lem (path_of (1 ∷ 2 ∷ 3 ∷ 2 ∷ 5 ∷ [])) (inl (λ e. cc))
