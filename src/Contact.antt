-- ===== src/Contact.antt =====
-- kira-r2kad/src/domain/contact.rs: a contact of the routing table with its state, its paths and its
-- state sequence number. Times are nanoseconds of the clock, whose readings are arguments.
pub mod Actuality
pub mod Assessment
pub mod Suitability
pub mod Failures
mod Tests
use kira_rust.Prelude.{
  ℕ, zero, suc, ◌+◌, ◌-◌, ◌*◌, ◌/◌, ◌%◌, ◌^◌, ◌≤◌, ◌<◌, min, max, dec_lt, dec_le, ℕ_discrete, ◌≡◌,
  refl, sym, ap, ◌∙◌, subst, ◌≢◌, ◌↔◌, ◌⊎◌, inl, inr, Bool, true, false, ◌&&◌, ◌||◌, not, Option,
  none, some, List, [], ◌∷◌, ◌++◌, map, arith, ltb, leb, ◌==◌, if◌then◌else◌, is_some, ltb→lt,
  lt→ltb, ==→eq, ==_self, ==_ne, Bool-cases, Option-cases, length, get_elem?, take, drop,
  length-append, length-drop-le, take-length_append, drop-length_append, contains, contains-append,
  length-take, length-drop, take-append-drop, get_elem?-inside, get_elem?-outside, Outcome,
  Outcome-cases, returns, panics, Result, ok, err, ◌>>=◌, ◌>>◌, assert, expect, Ordering, less,
  equal, greater, cmp, flip,
}
use kira_rust.Path.{
  NodePath, size, first, last, is_valid, is_same_path_as, is_better_than, invalidate, last?,
}
use kira_rust.StateSeqNr.{SafeStateSeqNr}
use kira_rust.Link.{has_end}
use kira_rust.NotVia.{
  NotViaState, NotViaStateList, RediscoveryState, insert_all, new_rediscovery, add_notvia,
}
use kira_rust.PathCollection.{
  PathCollection, new_with_active_path, set_active_path, set_proposed_path, set_proposed_to_active,
}

pub data ContactState : Type 0 where
  unknown valid : ContactState
  invalid : NotViaStateList → ContactState
  rediscovering : RediscoveryState → ContactState
  dead : ContactState

pub record Contact : Type 0 where
  pub dest_id : ℕ
  pub state : ContactState
  pub last_seen : ℕ
  pub path_collection : PathCollection
  pub state_seq_nr : SafeStateSeqNr

unfoldable pub new : NodePath → SafeStateSeqNr → ℕ → Outcome Contact
unfolding new_with_active_path
new path state_seq_nr now = do
  id ← last path
  returns (record {
    dest_id = id;
    state = valid;
    last_seen = now;
    path_collection = new_with_active_path path;
    state_seq_nr = state_seq_nr;
  })

unfoldable pub start_rediscovering : Contact → NotViaStateList → List ℕ → ℕ → ℕ → Contact
unfolding new_rediscovery
start_rediscovering c notviastate_list via_contact_list max_retries start_duration = record c {
  state =
      rediscovering (new_rediscovery notviastate_list via_contact_list max_retries start_duration);
}

unfoldable pub is_uln : Contact → Outcome Bool
is_uln c = elim c.path_collection.active_path [
  | none ↦ returns false
  | some path ↦ do n ← size path; returns (n == 1)
]

-- `iter().find(..).is_some()` for the first node of the path.
unfoldable pub some_link_at : NodePath → List NotViaState → Outcome Bool
some_link_at path [] = returns false
some_link_at path (nvs ∷ nvs_list) = do
  id ← first path
  rest ← some_link_at path nvs_list
  returns (has_end nvs.link id || rest)

unfoldable pub broken_in : Option NodePath → List NotViaState → Outcome Bool
unfolding some_link_at
broken_in none nvs_list = returns false
broken_in (some path) nvs_list = some_link_at path nvs_list

unfoldable pub has_broken_first_hop : Contact → Outcome Bool
unfolding broken_in
has_broken_first_hop c = elim c.state [
  | invalid list ↦ broken_in c.path_collection.active_path list.nvs_list
  | rediscovering rds ↦ broken_in c.path_collection.active_path rds.notviastate_list.nvs_list
  | unknown ↦ returns false
  | valid ↦ returns false
  | dead ↦ returns false
]

-- `u64::try_from(elapsed().as_millis()).expect(..)`: the elapsed time stops at 0.
unfoldable pub age : Contact → ℕ → Outcome ℕ
age c now =
    let millis = (now - c.last_seen) / 1_000_000 in
    if ltb millis (2 ^ 64) then returns millis else panics

-- The two ages are read one after the other, at `now` and `later`.
unfoldable pub cmp_actuality : Contact → Contact → ℕ → ℕ → Outcome Ordering
unfolding age
cmp_actuality c other now later = do
  own_age ← age c now
  other_age ← age other later
  returns (elim (cmp c.state_seq_nr.ssn other.state_seq_nr.ssn) [
    | greater ↦ greater
    | less ↦ less
    | equal ↦ flip (cmp own_age other_age)
  ])

unfoldable pub is_older_than : Contact → Contact → ℕ → ℕ → Outcome Bool
unfolding cmp_actuality
is_older_than c other now later = do
  order ← cmp_actuality c other now later
  returns (elim order [ less ↦ true | _ ↦ false ])

unfoldable pub is_dead : Contact → Bool
is_dead c = elim c.state [ dead ↦ true | _ ↦ false ]

unfoldable pub is_valid_contact : Contact → Bool
is_valid_contact c = elim c.state [ valid ↦ true | _ ↦ false ]

unfoldable pub is_invalid : Contact → Bool
is_invalid c = elim c.state [ invalid list ↦ true | _ ↦ false ]

-- The loop of `set_invalid` over the failed links; `aged` is what an age of a time makes of it.
unfoldable pub add_notvias : (ℕ → ℕ) → RediscoveryState → List NotViaState → RediscoveryState
add_notvias aged rds [] = rds
add_notvias aged rds (nvs ∷ nvs_list) = add_notvias aged (add_notvia aged rds nvs).0 nvs_list

unfoldable pub with_notvia : (ℕ → ℕ) → ContactState → NotViaStateList → ContactState
unfolding add_notvias
with_notvia aged (invalid existing) list =
    invalid (record { nvs_list = insert_all list.nvs_list existing.nvs_list })
with_notvia aged (rediscovering rds) list = rediscovering (add_notvias aged rds list.nvs_list)
with_notvia aged unknown list = invalid list
with_notvia aged valid list = invalid list
with_notvia aged dead list = invalid list

-- `iter().map(|nvs| &nvs.timestamp).max()`.
unfoldable pub latest : List NotViaState → Option ℕ
latest [] = none
latest (nvs ∷ nvs_list) = elim (latest nvs_list) [
  | none ↦ some nvs.timestamp
  | some time ↦ some (max nvs.timestamp time)
]

-- The latest time of a failure, or else the clock.
unfoldable pub seen_at : List NotViaState → ℕ → ℕ
unfolding latest
seen_at nvs_list now = elim (latest nvs_list) [ none ↦ now | some time ↦ time ]

unfoldable pub set_invalid : (ℕ → ℕ) → Contact → NotViaStateList → ℕ → Outcome Contact
unfolding with_notvia seen_at
set_invalid aged c notviastate_list now =
    let c' : Contact = record c {
      state = with_notvia aged c.state notviastate_list;
      last_seen = seen_at notviastate_list.nvs_list now;
    } in
    elim c.path_collection.active_path [
      | none ↦ returns c'
      | some active_path ↦ do
        faulty_path ← invalidate active_path now
        returns (record c' {
          path_collection = record c.path_collection { active_path = some faulty_path };
        })
    ]

unfoldable pub set_last_seen_now : Contact → ℕ → Contact
set_last_seen_now c now = record c { last_seen = now }

-- Whether a candidate may replace the active path.
unfoldable pub path_suitable : (List ℕ → ℕ) → Contact → NodePath → Outcome Bool
path_suitable rank c path_candidate = elim c.state [
  | unknown ↦ returns true
  | invalid list ↦ returns true
  | valid ↦ do
    active_path ← expect c.path_collection.active_path
    is_better_than rank path_candidate active_path
  | rediscovering rds ↦ returns true
  | dead ↦ returns false
]

-- A validated candidate becomes the active path.
unfoldable pub accept_validated : Contact → NodePath → ℕ → Outcome (Contact × Bool)
accept_validated c path_candidate now =
    let is_proposed : Bool = elim c.path_collection.proposed_path [
      | none ↦ false
      | some proposed_path ↦ is_same_path_as path_candidate proposed_path
    ] in
    do
      path_collection ←
          if is_proposed
          then set_proposed_to_active c.path_collection now
          else returns (set_active_path c.path_collection path_candidate)
      returns (record c { path_collection = path_collection; state = valid }, true)

-- Any other candidate may become the proposed path.
unfoldable pub propose : (List ℕ → ℕ) → Contact → NodePath → Outcome (Contact × Bool)
propose rank c path_candidate = do
  should_set ← elim c.path_collection.proposed_path [
    | none ↦ returns true
    | some current ↦ is_better_than rank path_candidate current
  ]
  returns (
      if should_set
      then (record c { path_collection = set_proposed_path c.path_collection path_candidate }, true)
      else (c, false))

unfoldable pub assess_path_candidate_and_update :
    (List ℕ → ℕ) → Contact → NodePath → ℕ → Outcome (Contact × Bool)
unfolding path_suitable accept_validated propose
assess_path_candidate_and_update rank c path_candidate now = do
  suitable ← path_suitable rank c path_candidate
  if suitable
      then if is_valid path_candidate
        then accept_validated c path_candidate now
        else propose rank c path_candidate
      else returns (c, false)

unfoldable pub set_path : Contact → NodePath → Contact
set_path c new_path = record c { path_collection = set_active_path c.path_collection new_path }
