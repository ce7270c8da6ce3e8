-- ===== src/InflightReqMap/Tests.antt =====
-- Runs of `InflightReqMap` at concrete requests, among them the cases of the unit tests of
-- kira-r2kad/src/utils/inflight_req_map.rs.
use kira_rust.Prelude.{
  ℕ, ◌≡◌, refl, ◌↔◌, ◌⊎◌, true, false, not, none, some, [], ◌∷◌, ◌==◌, if◌then◌else◌, returns, ok,
  err,
}
use kira_rust.HashMap.{get, keep}
use kira_rust.HashMap
use kira_rust.InflightReqMap.{
  timer_exists, nonce_exists, InflightReqMap, duplicate_timer, duplicate_nonce, default, insert,
  remove_by_nonce, remove_by_id, replace_timer_for_nonce, get_value_for_nonce, get_value_for_timer,
  exists,
}
use kira_rust.InflightReqMap.Sync.{
  IsSync, default-IsSync, insert-IsSync, remove_by_nonce_lem, remove_by_id_lem, exists_iff,
}
use kira_rust.InflightReqMap.Replacement.{replace_timer_for_nonce_moves}
use kira_rust.InflightReqMap.Runs.{
  inserts, removes_id, replaces_timer, run, insert_accepts, run-default_total,
}

-- Node 1 by timer 10 and nonce 100, and node 2 by timer 20 and nonce 200.
abbrev two : InflightReqMap
two = record {
  timer_to_node = (20, (2, 200)) ∷ (10, (1, 100)) ∷ [];
  nonce_to_id = (200, (2, 20)) ∷ (100, (1, 10)) ∷ [];
}

two_lem : (insert (insert default 1 10 100).0 2 20 200).0 ≡ two
unfolding insert default HashMap.insert HashMap.remove get
two_lem = refl

two-IsSync : IsSync two
unfolding two_lem insert default HashMap.insert HashMap.remove get
two-IsSync = insert-IsSync (insert-IsSync default-IsSync 1 10 100) 2 20 200

duplicate_timer_refused : (insert two 3 10 300).1 ≡ err duplicate_timer
unfolding insert get
duplicate_timer_refused = refl

duplicate_nonce_refused : (insert two 3 30 100).1 ≡ err duplicate_nonce
unfolding insert get
duplicate_nonce_refused = refl

insert_accepts_example :
    ((timer_exists two 30 ≡ true) × (insert two 3 30 300 ≡ (two, err duplicate_timer)))
    ⊎ ((nonce_exists two 300 ≡ true) × (insert two 3 30 300 ≡ (two, err duplicate_nonce)))
    ⊎ ((timer_exists two 30 ≡ false)
        × (nonce_exists two 300 ≡ false)
        × ((insert two 3 30 300).1 ≡ ok tt)
        × (get_value_for_nonce (insert two 3 30 300).0 300
            ≡ (if 300 == 300 then some (3, 30) else get_value_for_nonce two 300)))
insert_accepts_example = insert_accepts two 3 30 300 300

remove_by_nonce_example :
    (m' : InflightReqMap) × (remove_by_nonce two 100 ≡ returns (m', get_value_for_nonce two 100))
    × IsSync m'
    × ((c' : ℕ)
        → get_value_for_nonce m' c' ≡ (if 100 == c' then none else get_value_for_nonce two c'))
remove_by_nonce_example = remove_by_nonce_lem two-IsSync 100

remove_by_id_example :
    (get_value_for_nonce (remove_by_id two 1) 100
      ≡ keep (λ _ v. not (v.0 == 1)) 100 (get_value_for_nonce two 100))
    × (exists (remove_by_id two 1) 2 ≡ (if 1 == 2 then false else exists two 2))
remove_by_id_example = remove_by_id_lem two-IsSync 1 100 2

exists_iff_example : (exists two 2 ≡ true) ↔ ((c t : ℕ) × (get_value_for_nonce two c ≡ some (2, t)))
exists_iff_example = exists_iff two-IsSync 2

replace_timer_for_nonce_example :
    (m' : InflightReqMap) × (replace_timer_for_nonce two 100 11 ≡ returns (m', ok (some 10)))
    × IsSync m'
    × ((c' : ℕ)
        → get_value_for_nonce m' c'
          ≡ (if 100 == c' then some (1, 11) else get_value_for_nonce two c'))
unfolding get_value_for_timer get_value_for_nonce get
replace_timer_for_nonce_example = replace_timer_for_nonce_moves two-IsSync 100 11 1 10 refl refl

run-default_example :
    (m' : InflightReqMap) × (run default
        (inserts 1 10 100 ∷ replaces_timer 100 11 ∷ removes_id 1 ∷ [])
      ≡ returns m')
    × IsSync m'
run-default_example =
    run-default_total (inserts 1 10 100 ∷ replaces_timer 100 11 ∷ removes_id 1 ∷ [])
