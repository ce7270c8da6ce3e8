-- ===== src/SourceRoute.antt =====
-- kira-r2kad/src/domain/source_route.rs: the route of a message, with the position that it reached.
-- A `usize` subtraction below zero panics, as in the development profile.
pub mod Travel
pub mod Reversal
mod Tests
use kira_rust.Prelude.{
  ℕ, zero, suc, ◌+◌, ◌-◌, ◌*◌, ◌/◌, ◌%◌, ◌^◌, ◌≤◌, ◌<◌, min, max, dec_lt, dec_le, ℕ_discrete, ◌≡◌,
  refl, sym, ap, ◌∙◌, subst, ◌≢◌, ◌↔◌, ◌⊎◌, inl, inr, Bool, true, false, ◌&&◌, ◌||◌, not, Option,
  none, some, List, [], ◌∷◌, ◌++◌, map, arith, ltb, leb, ◌==◌, if◌then◌else◌, is_some, ltb→lt,
  lt→ltb, ==→eq, ==_self, ==_ne, Bool-cases, Option-cases, length, get_elem?, take, drop,
  length-append, length-drop-le, take-length_append, drop-length_append, contains, contains-append,
  length-take, length-drop, take-append-drop, get_elem?-inside, get_elem?-outside, Outcome, returns,
  panics, Result, ok, err, ◌>>=◌, ◌>>◌, assert, expect,
}
use mathlib.Core.List.{reverse}
use kira_rust.Path.{NodePath, collect, last?}

pub record SourceRoute : Type 0 where
  pub ids : List ℕ
  pub progress : ℕ

-- `a - b` on `usize`.
abbrev pub checked_sub : ℕ → ℕ → Outcome ℕ
checked_sub a b = if ltb a b then panics else returns (a - b)

unfoldable pub new : ℕ → NodePath → SourceRoute
new source path = record { ids = source ∷ path.ids; progress = 1 }

unfoldable pub from_reversed : SourceRoute → Outcome SourceRoute
from_reversed route =
    let ids = reverse (take (route.progress + 1) route.ids) in
    do assert (ltb 1 (length ids)); returns (record { ids = ids; progress = 1 })

unfoldable pub push_front : SourceRoute → ℕ → SourceRoute
push_front r id = record r { ids = id ∷ r.ids }

unfoldable pub prev_hop : SourceRoute → Outcome ℕ
prev_hop r = do i ← checked_sub r.progress 1; expect (get_elem? r.ids i)

unfoldable pub next_hop : SourceRoute → Option ℕ
next_hop r = get_elem? r.ids (r.progress + 1)

unfoldable pub current_hop : SourceRoute → Outcome ℕ
current_hop r = expect (get_elem? r.ids r.progress)

unfoldable pub advance : SourceRoute → Outcome SourceRoute
advance r = do
  final ← checked_sub (length r.ids) 1
  returns (if ltb r.progress final then record r { progress = r.progress + 1 } else r)

unfoldable pub size : SourceRoute → Outcome ℕ
size r = do assert (leb 2 (length r.ids)); returns (length r.ids)

unfoldable pub is_finished : SourceRoute → Outcome Bool
is_finished r = do final ← checked_sub (length r.ids) 1; returns (leb final r.progress)

unfoldable pub source : SourceRoute → Outcome ℕ
source r = expect (get_elem? r.ids 0)

unfoldable pub destination : SourceRoute → Outcome ℕ
destination r = expect (last? r.ids)

unfoldable pub route_contains : SourceRoute → ℕ → Bool
route_contains r id = contains id r.ids

unfoldable pub advanced : SourceRoute → Outcome SourceRoute
unfolding advance
advanced r = advance r

-- `assert!(self.progress > 0 && self.progress < self.size())`.
unfoldable pub assert_progress : SourceRoute → Outcome (Unit {0})
unfolding size
assert_progress r = if ltb 0 r.progress then (do n ← size r; assert (ltb r.progress n)) else panics

abbrev path_or_panic : List ℕ → Outcome NodePath
path_or_panic ids = elim (collect ids) [ ok path ↦ returns path | err e ↦ panics ]

unfoldable pub traveled_path : SourceRoute → Outcome NodePath
unfolding assert_progress collect
traveled_path r = do assert_progress r; path_or_panic (take r.progress r.ids)

unfoldable pub traveled_hop_count : SourceRoute → Outcome ℕ
unfolding assert_progress
traveled_hop_count r = do assert_progress r; returns r.progress

unfoldable pub remaining_path : SourceRoute → Outcome NodePath
unfolding assert_progress collect
remaining_path r = do assert_progress r; path_or_panic (drop r.progress r.ids)

-- `Path::from(SourceRoute)`.
unfoldable pub into_path : SourceRoute → Outcome NodePath
unfolding collect
into_path r = path_or_panic r.ids

unfoldable pub extend : SourceRoute → List ℕ → SourceRoute
extend r iter = record r { ids = r.ids ++ iter }

-- The error of `SourceRoute::try_from(Path)`.
pub data TooShort : Type 0 where
  too_short : TooShort

unfoldable pub try_from : NodePath → Outcome (Result SourceRoute TooShort)
unfolding size
try_from path =
    let sr : SourceRoute = record { ids = path.ids; progress = 1 } in
    do n ← size sr; returns (if leb n 1 then err too_short else ok sr)

-- The invariants that the source states: two nodes at least, and progress in [1, len - 1].
pub record IsRoute (r : SourceRoute) : Type 0 where
  pub long : 2 ≤ length r.ids
  pub started : 0 < r.progress
  pub inside : r.progress < length r.ids
