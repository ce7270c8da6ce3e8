-- ===== src/InsertionStrategy.antt =====
-- kira-r2kad/src/domain/insertion_strategy.rs: how a contact that was learned gets into a routing table, over
-- any table. The readings of the clock are arguments, in the order of the calls; `rank` is the hash of
-- the comparison of paths.
pub mod Existing
pub mod Replacement
pub mod Effects
pub mod Members
pub mod Outcomes
mod Tests
use kira_rust.Prelude.{
  ℕ, zero, suc, ◌+◌, ◌-◌, ◌*◌, ◌/◌, ◌%◌, ◌^◌, ◌≤◌, ◌<◌, min, max, dec_lt, dec_le, ℕ_discrete, ◌≡◌,
  refl, sym, ap, ◌∙◌, subst, ◌≢◌, ◌↔◌, ◌⊎◌, inl, inr, Bool, true, false, ◌&&◌, ◌||◌, not, Option,
  none, some, List, [], ◌∷◌, ◌++◌, map, arith, ltb, leb, ◌==◌, if◌then◌else◌, is_some, ltb→lt,
  lt→ltb, ==→eq, ==_self, ==_ne, Bool-cases, Option-cases, length, get_elem?, take, drop,
  length-append, length-drop-le, take-length_append, drop-length_append, contains, contains-append,
  length-take, length-drop, take-append-drop, get_elem?-inside, get_elem?-outside, set, set_self,
  length-set, get_elem?-set, get_elem?-some_lt, get_elem?-append, replicate, length-replicate,
  get_elem?-replicate, Result-cases, unwrap, Outcome, Outcome-cases, returns, panics, Result, ok,
  err, ◌>>=◌, ◌>>◌, assert, expect, Ordering, less, equal, greater, cmp, flip,
}
use kira_rust.Path.{NodePath, size, first, path_contains, set_valid, is_notvalidated}
use kira_rust.CycleRemover.{remove_cycles_in_place}
use kira_rust.PathSimplifier.{simplify}
use kira_rust.Contact.{
  Contact, ContactState, unknown, valid, invalid, rediscovering, dead, is_valid_contact,
  is_older_than, assess_path_candidate_and_update,
}
use kira_rust.Bucket
use kira_rust.RoutingTable.{
  RoutingTable, AddError, InsertionError, bucket_split, already_exists, not_added, insert,
}
use kira_rust.UlnTable.{UlnTable}

pub data InsertionStrategyResult : Type 0 where
  dropped inserted updated needs_validation : InsertionStrategyResult
  replaced : ℕ → InsertionStrategyResult

pub record Readings : Type 0 where
  pub own_age : ℕ
  pub other_age : ℕ
  pub validated : ℕ

abbrev pub is_unknown : ContactState → Bool
is_unknown unknown = true
is_unknown valid = false
is_unknown (invalid list) = false
is_unknown (rediscovering rds) = false
is_unknown dead = false

-- `filter` on longer paths and `max_by_key` on their size, of which the last maximum is taken.
unfoldable pub longest : ℕ → List Contact → Outcome (Option (Contact × ℕ))
longest limit [] = returns none
longest limit (c ∷ contacts) = do
  path ← expect c.path_collection.active_path
  n ← size path
  rest ← longest limit contacts
  returns (elim rest [
    | none ↦ if ltb limit n then some (c, n) else none
    | some (d, m) ↦ if ltb limit n && ltb m n then some (c, n) else some (d, m)
  ])

module _ {T : Type 0} (table : RoutingTable T) where
  unfoldable pub replace_in_full_bucket : T → Contact → Outcome (T × InsertionStrategyResult)
  unfolding longest
  replace_in_full_bucket t c = do
    bucket ← table.bucket t c.dest_id
    assert (not (Bucket.is_empty bucket))
    assert (Bucket.is_full bucket)
    assert (not (Bucket.contains_contact bucket c.dest_id))
    assert (is_valid_contact c)
    path ← expect c.path_collection.active_path
    len ← size path
    replaceable ← longest len (Bucket.iter bucket)
    elim replaceable [
      | none ↦ returns (t, dropped)
      | some (old, n) ↦
          if is_notvalidated path
          then returns (t, needs_validation)
          else do t' ← table.contact_mut t old.dest_id (λ _. c); returns (t', replaced old.dest_id)
    ]

  -- The sanity checks before the insertion.
  unfoldable pub acceptable : (un : UlnTable) → un.Table → T → Contact → Outcome Bool
  acceptable un u t c =
      if not (is_valid_contact c || is_unknown c.state)
      then returns false
      else if c.dest_id == table.root t
      then returns false
      else do
        path ← expect c.path_collection.active_path
        if path_contains path (table.root t) then returns false else do
          len ← size path
          next ← first path
          returns (not (ltb 1 len && not (un.contains_id u next)))

module _ {T : Type 0} (table : RoutingTable T) (rank : List ℕ → ℕ) (now : Readings) where
  unfoldable pub update_existing : T → Contact → Outcome (T × InsertionStrategyResult)
  update_existing t c = do
    known ← table.contact t c.dest_id
    existing ← expect known
    assert (existing.dest_id == c.dest_id)
    older ← is_older_than c existing now.own_age now.other_age
    if older
        then returns (t, dropped)
        else if leb existing.state_seq_nr.ssn c.state_seq_nr.ssn
        then (do
          path ← expect c.path_collection.active_path
          (existing', changed) ← assess_path_candidate_and_update rank existing path now.validated
          t' ← table.contact_mut t c.dest_id (λ _. existing')
          returns (t', if changed then updated else dropped))
        else returns (t, dropped)

  -- The contact with its path without cycles and simplified; one of a neighbor is valid.
  unfoldable pub shortened : (un : UlnTable) → un.Table → T → Contact → Outcome Contact
  shortened un u t c = do
    path ← expect c.path_collection.active_path
    path' ← remove_cycles_in_place path
    path'' ← simplify table t un u path'
    len ← size path''
    final ← if len == 1 then set_valid path'' now.validated else returns path''
    returns (record c { path_collection = record c.path_collection { active_path = some final } })

  -- A contact whose state is unknown only offers a path to one that is there.
  unfoldable pub offer : T → Contact → Outcome (T × InsertionStrategyResult)
  unfolding update_existing
  offer t c = do
    known ← table.contains t c.dest_id
    if known then update_existing t c else returns (t, needs_validation)

  -- What follows a refused insertion.
  unfoldable pub on_error : T → Contact → InsertionError → Outcome (T × InsertionStrategyResult)
  unfolding update_existing replace_in_full_bucket
  on_error t c (bucket_split e) = replace_in_full_bucket table t c
  on_error t c (InsertionError.add not_added) = replace_in_full_bucket table t c
  on_error t c (InsertionError.add (already_exists id)) = update_existing t c
  on_error t c (InsertionError.add AddError.needs_validation) = returns (t, needs_validation)

  -- The insertion of the modified contact, and what follows when it is refused; `none` is the end of the
  -- fuel of the insertion by splits.
  unfoldable pub insert_or_change : ℕ → T → Contact → Option (Outcome (T × InsertionStrategyResult))
  unfolding on_error
  insert_or_change fuel t c = elim (insert table fuel t c) [
    | none ↦ none
    | some panics ↦ some panics
    | some (returns (t', ok done)) ↦ some (returns (t', inserted))
    | some (returns (t', err e)) ↦ some (on_error t' c e)
  ]

  unfoldable pub insert_contact :
      (un : UlnTable) → un.Table → ℕ → T → Contact → Option (Outcome (T × InsertionStrategyResult))
  unfolding acceptable shortened offer insert_or_change
  insert_contact un u fuel t c = elim (acceptable table un u t c) [
    | panics ↦ some panics
    | returns accepted ↦ elim accepted [
      | false ↦ some (returns (t, dropped))
      | true ↦ elim (shortened un u t c) [
        | panics ↦ some panics
        | returns c' ↦ elim (is_unknown c'.state) [
          | true ↦ some (offer t c')
          | false ↦ insert_or_change fuel t c'
        ]
      ]
    ]
  ]
