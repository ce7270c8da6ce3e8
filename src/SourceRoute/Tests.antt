-- ===== src/SourceRoute/Tests.antt =====
-- Source routes at concrete nodes.
use kira_rust.Prelude.{
  suc, take, ℕ, ◌≤◌, ◌<◌, ◌≡◌, refl, ◌⊎◌, true, false, none, some, List, [], ◌∷◌, ◌++◌, arith,
  length, returns, panics, ok,
}
use kira_rust.Path.{NodePath, valid}
use kira_rust.SourceRoute.{
  SourceRoute, IsRoute, new, from_reversed, next_hop, prev_hop, current_hop, advance, is_finished,
  source, destination, traveled_path, remaining_path, traveled_hop_count, try_from,
}
use kira_rust.SourceRoute.Travel.{
  new-IsRoute, advance-IsRoute, traveled_remaining, advance_times, advance_arrives,
  try_from_outcomes,
}
use mathlib.Core.List.{reverse}
use kira_rust.SourceRoute.Reversal.{from_reversed_lem}

abbrev path_of : List ℕ → NodePath
path_of ids = record {
  ids = ids;
  path_state = valid;
  last_validated = none;
  last_path_refresh = none;
}

-- From node 1 over 2 and 3 to 4, at node 2.
abbrev route : SourceRoute
route = record { ids = 1 ∷ 2 ∷ 3 ∷ 4 ∷ []; progress = 1 }

route-IsRoute : IsRoute route
route-IsRoute = record { long = omega arith; started = omega arith; inside = omega arith }

new-IsRoute_example :
    IsRoute (new 1 (path_of (2 ∷ 3 ∷ [])))
    × (source (new 1 (path_of (2 ∷ 3 ∷ []))) ≡ returns 1)
    × (prev_hop (new 1 (path_of (2 ∷ 3 ∷ []))) ≡ returns 1)
    × (current_hop (new 1 (path_of (2 ∷ 3 ∷ []))) ≡ returns 2)
new-IsRoute_example = new-IsRoute 1 (path_of (2 ∷ 3 ∷ [])) 2 (3 ∷ []) refl

advance-IsRoute_example :
    (r' : SourceRoute) × (advance route ≡ returns r')
    × IsRoute r'
    × (((a : ℕ) × (next_hop route ≡ some a)
          × (current_hop r' ≡ returns a)
          × (prev_hop r' ≡ current_hop route))
        ⊎ ((next_hop route ≡ none) × (r' ≡ route)))
advance-IsRoute_example = advance-IsRoute route-IsRoute

traveled_remaining_example :
    (p q : NodePath) × (traveled_path route ≡ returns p)
    × (remaining_path route ≡ returns q)
    × (p.ids ++ q.ids ≡ 1 ∷ 2 ∷ 3 ∷ 4 ∷ [])
    × (traveled_hop_count route ≡ returns (length p.ids))
traveled_remaining_example = traveled_remaining route-IsRoute

advance_arrives_example :
    (r' : SourceRoute) × (advance_times 2 route ≡ returns r')
    × (current_hop r' ≡ destination route)
    × (is_finished r' ≡ returns true)
    × ((k : ℕ)
        → (2 ≤ k)
          ⊎ ((q : SourceRoute) × (advance_times k route ≡ returns q)
              × (is_finished q ≡ returns false)))
advance_arrives_example = advance_arrives route 2 route-IsRoute refl

from_reversed_example :
    (r' : SourceRoute) × (from_reversed route ≡ returns r')
    × IsRoute r'
    × (source r' ≡ current_hop route)
    × (destination r' ≡ source route)
    × (r'.progress ≡ 1)
    × (reverse r'.ids ≡ take (suc route.progress) route.ids)
from_reversed_example = from_reversed_lem route route-IsRoute

try_from_outcomes_example :
    ((1 < 2) × (try_from (path_of (7 ∷ [])) ≡ panics))
    ⊎ ((2 ≤ 1)
        × ((r : SourceRoute) × (try_from (path_of (7 ∷ [])) ≡ returns (ok r))
            × IsRoute r
            × (r.ids ≡ 7 ∷ [])))
try_from_outcomes_example = try_from_outcomes (path_of (7 ∷ []))
