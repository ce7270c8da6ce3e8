-- ===== src/InflightReqMap.antt =====
-- kira-r2kad/src/utils/inflight_req_map.rs: the requests in flight, by timer and by nonce.
-- Node identifiers, timers and nonces are compared only, and are numbers here.
pub mod Sync
pub mod Replacement
pub mod Runs
mod Tests
use kira_rust.Prelude.{
  ℕ, Bool, true, false, not, Option, none, some, [], ◌==◌, if◌then◌else◌, is_some, Outcome, returns,
  panics, Result, ok, err, ◌>>=◌, ◌>>◌, assert, expect,
}
use kira_rust.HashMap.{HashMap, contains_key, find_entry}
use kira_rust.HashMap

pub record InflightReqMap : Type 0 where
  pub timer_to_node : HashMap (ℕ × ℕ)
  pub nonce_to_id : HashMap (ℕ × ℕ)

pub data InsertionError : Type 0 where
  duplicate_timer duplicate_nonce : InsertionError

pub data ModificationError : Type 0 where
  duplicate_timer_error nonce_does_not_exist_error : ModificationError

unfoldable pub default : InflightReqMap
default = record { timer_to_node = []; nonce_to_id = [] }

unfoldable pub insert :
    InflightReqMap → ℕ → ℕ → ℕ → InflightReqMap × Result (Unit {0}) InsertionError
insert m node_id timer_id nonce =
    if contains_key m.timer_to_node timer_id
    then (m, err duplicate_timer)
    else if contains_key m.nonce_to_id nonce
    then (m, err duplicate_nonce)
    else (
      record {
        timer_to_node = HashMap.insert m.timer_to_node timer_id (node_id, nonce);
        nonce_to_id = HashMap.insert m.nonce_to_id nonce (node_id, timer_id);
      },
      ok tt,
    )

unfoldable pub nonce_exists : InflightReqMap → ℕ → Bool
nonce_exists m nonce = contains_key m.nonce_to_id nonce

unfoldable pub timer_exists : InflightReqMap → ℕ → Bool
timer_exists m timer_id = contains_key m.timer_to_node timer_id

unfoldable pub get_value_for_nonce : InflightReqMap → ℕ → Option (ℕ × ℕ)
get_value_for_nonce m nonce = HashMap.get m.nonce_to_id nonce

unfoldable pub get_value_for_timer : InflightReqMap → ℕ → Option (ℕ × ℕ)
get_value_for_timer m timer = HashMap.get m.timer_to_node timer

unfoldable pub exists : InflightReqMap → ℕ → Bool
exists m node_id = is_some (find_entry (λ _ v. v.0 == node_id) m.nonce_to_id)

-- After the first `?` the nonce is gone, whatever follows.
unfoldable pub remove_by_nonce : InflightReqMap → ℕ → Outcome (InflightReqMap × Option (ℕ × ℕ))
remove_by_nonce m nonce = elim (HashMap.get m.nonce_to_id nonce) [
  | none ↦ returns (m, none)
  | some (node_id, timer_id) ↦
      let m1 = record m { nonce_to_id = HashMap.remove m.nonce_to_id nonce } in
      elim (HashMap.get m1.timer_to_node timer_id) [
        | none ↦ returns (m1, none)
        | some (node_id_t, nonce_t) ↦
            let m2 = record m1 { timer_to_node = HashMap.remove m1.timer_to_node timer_id } in
            do
              assert (node_id == node_id_t)
              assert (nonce == nonce_t)
              returns (m2, some (node_id, timer_id))
      ]
]

unfoldable pub remove_by_timer : InflightReqMap → ℕ → Outcome (InflightReqMap × Option (ℕ × ℕ))
remove_by_timer m timer_id = elim (HashMap.get m.timer_to_node timer_id) [
  | none ↦ returns (m, none)
  | some (node_id_t, nonce) ↦
      let m1 = record m { timer_to_node = HashMap.remove m.timer_to_node timer_id } in
      elim (HashMap.get m1.nonce_to_id nonce) [
        | none ↦ returns (m1, none)
        | some (node_id, timer_id_n) ↦
            let m2 = record m1 { nonce_to_id = HashMap.remove m1.nonce_to_id nonce } in
            do
              assert (node_id == node_id_t)
              assert (timer_id == timer_id_n)
              returns (m2, some (node_id, nonce))
      ]
]

unfoldable pub remove_by_id : InflightReqMap → ℕ → InflightReqMap
remove_by_id m node_id = record {
  timer_to_node = HashMap.retain (λ _ v. not (v.0 == node_id)) m.timer_to_node;
  nonce_to_id = HashMap.retain (λ _ v. not (v.0 == node_id)) m.nonce_to_id;
}

unfoldable pub replace_timer_for_nonce :
    InflightReqMap → ℕ → ℕ → Outcome (InflightReqMap × Result (Option ℕ) ModificationError)
replace_timer_for_nonce m nonce new_timer_id =
    if contains_key m.timer_to_node new_timer_id
    then returns (m, err duplicate_timer_error)
    else elim (HashMap.get m.nonce_to_id nonce) [
      | none ↦ returns (m, err nonce_does_not_exist_error)
      | some (node, old_timer_id) ↦ do
        (node_id, mapped_nonce) ← expect (HashMap.get m.timer_to_node old_timer_id)
        assert (mapped_nonce == nonce)
        returns (
          record {
            timer_to_node =
                HashMap.insert (HashMap.remove m.timer_to_node old_timer_id) new_timer_id
                  (node_id, nonce);
            nonce_to_id = HashMap.insert m.nonce_to_id nonce (node, new_timer_id);
          },
          ok (some old_timer_id),
        )
    ]
