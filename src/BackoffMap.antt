-- ===== src/BackoffMap.antt =====
-- kira-r2kad/src/utils/backoff_map.rs: the backoff of each contact, found by node, timer or nonce.
-- Node identifiers, timers and nonces are compared only, and are numbers here.
pub mod Removal
pub mod Tracked
pub mod Runs
mod Tests
use kira_rust.Prelude.{
  ℕ, ◌≡◌, Bool, true, false, Option, none, some, List, [], ◌∷◌, ◌++◌, ◌==◌, if◌then◌else◌, is_some,
  Outcome, returns, panics, Result, ok, err, ◌>>=◌, expect,
}
use kira_rust.Backoff.{ExponentialBackoff}
use kira_rust.HashMap.{HashMap, contains_key, find_entry}
use kira_rust.HashMap
use mathlib.Core.Option

pub record BackoffMap : Type 0 where
  pub node_to_state : HashMap ExponentialBackoff
  pub timer_to_node : HashMap ℕ
  pub nonce_to_id : HashMap ℕ

pub data InsertionError : Type 0 where
  duplicate_timer duplicate_nonce : InsertionError

pub data DuplicateTimerError : Type 0 where
  duplicate_timer_error : DuplicateTimerError

pub data AddNonceError : Type 0 where
  unknown_node add_duplicate_nonce : AddNonceError

-- What a removal returns: the backoff, the timer and the nonces.
abbrev pub Removed : Type 0
Removed = ExponentialBackoff × ℕ × List ℕ

unfoldable pub default : BackoffMap
default = record { node_to_state = []; timer_to_node = []; nonce_to_id = [] }

unfoldable pub insert :
    BackoffMap
    → ℕ
    → ℕ
    → ℕ
    → ExponentialBackoff
    → BackoffMap × Result (Option ExponentialBackoff) InsertionError
insert m node_id timer_id nonce value =
    if contains_key m.timer_to_node timer_id
    then (m, err duplicate_timer)
    else if contains_key m.nonce_to_id nonce
    then (m, err duplicate_nonce)
    else (
      record {
        node_to_state = HashMap.insert m.node_to_state node_id value;
        timer_to_node = HashMap.insert m.timer_to_node timer_id node_id;
        nonce_to_id = HashMap.insert m.nonce_to_id nonce node_id;
      },
      ok (HashMap.get m.node_to_state node_id),
    )

unfoldable pub get : BackoffMap → ℕ → Option ExponentialBackoff
get m id = HashMap.get m.node_to_state id

-- A write of the caller through the reference that `get_mut` returns.
unfoldable pub get_mut : BackoffMap → ℕ → (ExponentialBackoff → ExponentialBackoff) → BackoffMap
get_mut m id f = record m { node_to_state = HashMap.modify m.node_to_state id f }

-- `Option::filter` by whether the node is tracked.
abbrev tracked_only : HashMap ExponentialBackoff → Option ℕ → Option ℕ
tracked_only states none = none
tracked_only states (some id) = if contains_key states id then some id else none

unfoldable pub get_node_for_nonce : BackoffMap → ℕ → Option ℕ
get_node_for_nonce m nonce = tracked_only m.node_to_state (HashMap.get m.nonce_to_id nonce)

unfoldable pub get_node_for_timer : BackoffMap → ℕ → Option ℕ
get_node_for_timer m timer = tracked_only m.node_to_state (HashMap.get m.timer_to_node timer)

unfoldable pub add_nonce_for_node :
    BackoffMap → ℕ → ℕ → BackoffMap × Result (Unit {0}) AddNonceError
add_nonce_for_node m node nonce =
    if contains_key m.node_to_state node
    then if contains_key m.nonce_to_id nonce
      then (m, err add_duplicate_nonce)
      else (record m { nonce_to_id = HashMap.insert m.nonce_to_id nonce node }, ok tt)
    else (m, err unknown_node)

unfoldable pub remove_nonce : BackoffMap → ℕ → BackoffMap × Bool
remove_nonce m nonce = (
  record m { nonce_to_id = HashMap.remove m.nonce_to_id nonce },
  contains_key m.nonce_to_id nonce,
)

unfoldable pub remove_timer_for : BackoffMap → ℕ → BackoffMap × Option ℕ
remove_timer_for m id = elim (find_entry (λ _ value. value == id) m.timer_to_node) [
  | none ↦ (m, none)
  | some (timer_id, value) ↦
      (record m { timer_to_node = HashMap.remove m.timer_to_node timer_id }, some timer_id)
]

-- The nonces of a node, in the order of iteration.
unfoldable pub nonces_of : ℕ → HashMap ℕ → List ℕ
nonces_of id [] = []
nonces_of id ((nonce, entry_id) ∷ m) =
    let rest = nonces_of id m in if entry_id == id then nonce ∷ rest else rest

unfoldable pub remove_all : HashMap ℕ → List ℕ → HashMap ℕ
remove_all m [] = m
remove_all m (nonce ∷ nonces) = remove_all (HashMap.remove m nonce) nonces

unfoldable pub remove_nonces_for : BackoffMap → ℕ → BackoffMap × List ℕ
unfolding nonces_of remove_all
remove_nonces_for m id =
    let nonces = nonces_of id m.nonce_to_id in
    (record m { nonce_to_id = remove_all m.nonce_to_id nonces }, nonces)

-- The `unwrap` panics on a tracked node with no timer.
unfoldable pub remove : BackoffMap → ℕ → Outcome (BackoffMap × Option Removed)
remove m id = elim (HashMap.get m.node_to_state id) [
  | none ↦ returns (m, none)
  | some state ↦
      let m1 = record m { node_to_state = HashMap.remove m.node_to_state id } in
      let (m2, timer) = remove_timer_for m1 id in
      do
        timer_id ← expect timer
        let (m3, nonces) = remove_nonces_for m2 id
        returns (m3, some (state, timer_id, nonces))
]

unfoldable pub remove_by_nonce : BackoffMap → ℕ → BackoffMap × Option Removed
remove_by_nonce m nonce = elim (HashMap.get m.nonce_to_id nonce) [
  | none ↦ (m, none)
  | some node_id ↦
      let m1 = record m { nonce_to_id = HashMap.remove m.nonce_to_id nonce } in
      let (m2, timer) = remove_timer_for m1 node_id in
      elim timer [
        | none ↦ (m2, none)
        | some removed_timer ↦
            let (m3, removed_nonces) = remove_nonces_for m2 node_id in
            (
              record m3 { node_to_state = HashMap.remove m3.node_to_state node_id },
              Option.map (λ state. (state, removed_timer, removed_nonces ++ nonce ∷ []))
                  (HashMap.get m3.node_to_state node_id),
            )
      ]
]

unfoldable pub remove_by_timer : BackoffMap → ℕ → BackoffMap × Option Removed
remove_by_timer m timer_id = elim (HashMap.get m.timer_to_node timer_id) [
  | none ↦ (m, none)
  | some node_id ↦
      let m1 = record m { timer_to_node = HashMap.remove m.timer_to_node timer_id } in
      let (m2, removed_nonces) = remove_nonces_for m1 node_id in
      (
        record m2 { node_to_state = HashMap.remove m2.node_to_state node_id },
        Option.map (λ state. (state, timer_id, removed_nonces))
            (HashMap.get m2.node_to_state node_id),
      )
]

unfoldable pub replace_timer_for :
    BackoffMap → ℕ → ℕ → BackoffMap × Result (Option ℕ) DuplicateTimerError
replace_timer_for m id timer_id =
    if contains_key m.timer_to_node timer_id
    then (m, err duplicate_timer_error)
    else let (m1, removed) = remove_timer_for m id in
      (record m1 { timer_to_node = HashMap.insert m1.timer_to_node timer_id id }, ok removed)
