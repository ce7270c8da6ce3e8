-- ===== src/PathSimplifier.antt =====
-- kira-r2kad/src/domain/path/shortest_first_path_simplifier.rs: a path is shortened by what a routing table
-- and a table of underlay neighbors know.
pub mod Shorter
mod Tests
use kira_rust.Prelude.{
  ℕ, zero, suc, ◌+◌, ◌-◌, ◌*◌, ◌/◌, ◌%◌, ◌^◌, ◌≤◌, ◌<◌, min, max, dec_lt, dec_le, ℕ_discrete, ◌≡◌,
  refl, sym, ap, ◌∙◌, subst, ◌≢◌, ◌↔◌, ◌⊎◌, inl, inr, Bool, true, false, ◌&&◌, ◌||◌, not, Option,
  none, some, List, [], ◌∷◌, ◌++◌, map, arith, ltb, leb, ◌==◌, if◌then◌else◌, is_some, ltb→lt,
  lt→ltb, ==→eq, ==_self, ==_ne, Bool-cases, Option-cases, length, get_elem?, take, drop,
  length-append, length-drop-le, take-length_append, drop-length_append, contains, contains-append,
  length-take, length-drop, take-append-drop, get_elem?-inside, get_elem?-outside, set, set_self,
  length-set, get_elem?-set, get_elem?-some_lt, get_elem?-append, replicate, length-replicate,
  get_elem?-replicate, Result-cases, unwrap, Outcome, Outcome-cases, returns, panics, Result, ok,
  err, ◌>>=◌, ◌>>◌, assert, expect, Ordering, less, equal, greater, cmp, flip,
}
use kira_rust.Path.{NodePath, size, replace_interval}
use kira_rust.Contact.{Contact, is_valid_contact}
use kira_rust.RoutingTable.{RoutingTable}
use kira_rust.UlnTable.{UlnTable}

module _ {T : Type 0} (table : RoutingTable T) (t : T) (un : UlnTable) (u : un.Table) where
  -- The loop over the indices from the back for the underlay neighbors, down to 1.
  unfoldable pub neighbor_loop : ℕ → NodePath → Outcome NodePath
  neighbor_loop zero path = returns path
  neighbor_loop (suc i) path = do
    dest_id ← expect (get_elem? path.ids (suc i))
    elim (un.contains_id u dest_id) [
      | true ↦ replace_interval path 0 (suc i) (dest_id ∷ [])
      | false ↦ neighbor_loop i path
    ]

  -- The path of a valid contact that is shorter than `part_len`.
  unfoldable pub shorter_path : ℕ → ℕ → Outcome (Option NodePath)
  shorter_path part_len dest_id = do
    known ← table.contact t dest_id
    elim known [
      | none ↦ returns none
      | some known_contact ↦
          if is_valid_contact known_contact
          then (do
            known_path ← expect known_contact.path_collection.active_path
            known_size ← size known_path
            returns (if ltb known_size part_len then some known_path else none))
          else returns none
    ]

  -- The loop for all other nodes.
  unfoldable pub known_loop : ℕ → NodePath → Outcome NodePath
  known_loop zero path = returns path
  known_loop (suc i) path = do
    dest_id ← expect (get_elem? path.ids (suc i))
    shorter ← shorter_path (suc i + 1) dest_id
    elim shorter [
      | some known_path ↦ replace_interval path 0 (suc i) known_path.ids
      | none ↦ known_loop i path
    ]

  unfoldable pub simplify : NodePath → Outcome NodePath
  unfolding neighbor_loop known_loop shorter_path
  simplify path = do
    len ← size path
    if leb len 1
        then returns path
        else do path' ← neighbor_loop (len - 1) path; len' ← size path'; known_loop (len' - 1) path'
