-- ===== src/CycleRemover.antt =====
-- kira-r2kad/src/domain/path/in_order_cycle_remover.rs: the removal of cycles from a path.
-- The loop takes fuel; running out of it would count as a panic. Every round consumes a node of the
-- iterator, so the number of nodes is enough.
pub mod Shortcut
pub mod Loop
pub mod Correct
mod Tests
use kira_rust.Prelude.{
  ℕ, zero, suc, ◌+◌, ◌-◌, ◌*◌, ◌/◌, ◌%◌, ◌^◌, ◌≤◌, ◌<◌, min, max, dec_lt, dec_le, ℕ_discrete, ◌≡◌,
  refl, sym, ap, ◌∙◌, subst, ◌≢◌, ◌↔◌, ◌⊎◌, inl, inr, Bool, true, false, ◌&&◌, ◌||◌, not, Option,
  none, some, List, [], ◌∷◌, ◌++◌, map, arith, ltb, leb, ◌==◌, if◌then◌else◌, is_some, ltb→lt,
  lt→ltb, ==→eq, ==_self, ==_ne, Bool-cases, Option-cases, length, get_elem?, take, drop,
  length-append, length-drop-le, take-length_append, drop-length_append, contains, contains-append,
  Outcome, returns, panics, Result, ok, err, ◌>>=◌, ◌>>◌, assert, expect,
}
use kira_rust.Path.{NodePath, size, remove_in}

-- `iter().enumerate().rev().find_map(..)`: the last position of a node.
unfoldable pub last_position : ℕ → List ℕ → Option ℕ
last_position id [] = none
last_position id (x ∷ xs) = elim (last_position id xs) [
  | some index ↦ some (suc index)
  | none ↦ if x == id then some 0 else none
]

-- The slice `ids[from..]` panics beyond the end.
abbrev pub slice_from : ℕ → List ℕ → Outcome (List ℕ)
slice_from from ids = if leb from (length ids) then returns (drop from ids) else panics

-- One round for the node `id`; `next_round` goes on with the rest of the iterator.
unfoldable pub remove_round :
    (List ℕ → NodePath → Outcome NodePath) → ℕ → List ℕ → NodePath → ℕ → Outcome NodePath
unfolding last_position
remove_round next_round id iter p index = if index == length p.ids then returns p else do
  remaining_ids ← slice_from (index + 1) p.ids
  elim (last_position id remaining_ids) [
    | none ↦ next_round iter p
    | some found ↦
        let end = index + 1 + found in
        do p' ← remove_in p index end; next_round (drop (end - index - 1 + 1) iter) p'
  ]

unfoldable pub remove_loop : ℕ → List ℕ → NodePath → ℕ → Outcome NodePath
unfolding remove_round
remove_loop zero iter p index = panics
remove_loop (suc fuel) [] p index = returns p
remove_loop (suc fuel) (id ∷ iter) p index =
    remove_round (λ iter' p'. remove_loop fuel iter' p' (index + 1)) id iter p index

unfoldable pub remove_cycles_in_place : NodePath → Outcome NodePath
unfolding remove_loop
remove_cycles_in_place p = do
  n ← size p
  if ltb n 2 then returns p else remove_loop (length p.ids + 1) p.ids p 0

-- The path is copied, so the given one stays as it is.
unfoldable pub with_cycles_removed : NodePath → Outcome NodePath
unfolding remove_cycles_in_place
with_cycles_removed p = remove_cycles_in_place p
