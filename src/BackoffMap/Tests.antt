-- ===== src/BackoffMap/Tests.antt =====
-- Runs of `BackoffMap` at concrete contacts.
use kira_rust.Prelude.{
  ℕ, ◌≡◌, refl, ◌≢◌, ◌↔◌, ◌⊎◌, true, false, none, some, List, [], ◌∷◌, ◌==◌, if◌then◌else◌,
  contains, returns, ok, err,
}
use kira_rust.Backoff.{ExponentialBackoff}
use kira_rust.HashMap
use kira_rust.BackoffMap.{
  duplicate_timer, duplicate_nonce, BackoffMap, default, insert, get, get_node_for_nonce,
  get_node_for_timer, remove, remove_by_nonce,
}
use kira_rust.BackoffMap.Tracked.{IsTracked, default-IsTracked, insert-IsTracked, remove_known}
use kira_rust.BackoffMap.Removal.{without}
use kira_rust.BackoffMap.Runs.{
  inserts, removes, removes_by_timer, run, insert_backoff, insert_second_timer,
  remove_by_nonce_known, run_total,
}
use kira_rust.HashMap.{contains_key}

abbrev three : ExponentialBackoff
three = record {
  base = 2;
  max_retries = 3;
  current_retries = 0;
  start_duration = 1_000_000_000;
  randomize = false;
  limit = false;
}

-- Node 1 by timer 10 and nonce 100, and node 2 by timer 20 and nonce 200.
abbrev two : BackoffMap
two = record {
  node_to_state = (2, three) ∷ (1, three) ∷ [];
  timer_to_node = (20, 2) ∷ (10, 1) ∷ [];
  nonce_to_id = (200, 2) ∷ (100, 1) ∷ [];
}

two-IsTracked : IsTracked two
unfolding insert default HashMap.insert HashMap.remove HashMap.get
two-IsTracked = insert-IsTracked (insert-IsTracked default-IsTracked 1 10 100 three) 2 20 200 three

insert_backoff_example :
    ((contains_key two.timer_to_node 30 ≡ true)
      × (insert two 3 30 300 three ≡ (two, err duplicate_timer)))
    ⊎ ((contains_key two.nonce_to_id 300 ≡ true)
        × (insert two 3 30 300 three ≡ (two, err duplicate_nonce)))
    ⊎ ((contains_key two.timer_to_node 30 ≡ false)
        × (contains_key two.nonce_to_id 300 ≡ false)
        × ((insert two 3 30 300 three).1 ≡ ok (get two 3))
        × (get (insert two 3 30 300 three).0 3 ≡ some three)
        × (get_node_for_timer (insert two 3 30 300 three).0 30 ≡ some 3)
        × (get_node_for_nonce (insert two 3 30 300 three).0 300 ≡ some 3))
insert_backoff_example = insert_backoff two 3 30 300 three

insert_second_timer_example :
    (◌≢◌ {A = ℕ} 10 11)
    × (get_node_for_timer (insert two 1 11 101 three).0 10 ≡ some 1)
    × (get_node_for_timer (insert two 1 11 101 three).0 11 ≡ some 1)
unfolding get_node_for_timer HashMap.get
insert_second_timer_example = insert_second_timer two 1 10 11 101 three refl refl refl

remove_known_example :
    (m' : BackoffMap) × (t : ℕ) × (ns : List ℕ) × (remove two 1 ≡ returns (m', some (three, t, ns)))
    × IsTracked m'
    × (get_node_for_timer two t ≡ some 1)
    × ((c : ℕ) → (contains c ns ≡ true) ↔ (get_node_for_nonce two c ≡ some 1))
    × ((n' : ℕ) → get m' n' ≡ (if 1 == n' then none else get two n'))
    × ((c : ℕ) → get_node_for_nonce m' c ≡ without 1 (get_node_for_nonce two c))
    × ((k : ℕ) → get_node_for_timer m' k ≡ without 1 (get_node_for_timer two k))
unfolding get HashMap.get
remove_known_example = remove_known two-IsTracked 1 three refl

remove_by_nonce_known_example :
    (m' : BackoffMap) × (t : ℕ) × (ns : List ℕ) × (remove_by_nonce two 100
      ≡ (m', some (three, t, ns)))
    × (get_node_for_timer two t ≡ some 1)
    × ((c' : ℕ) → (contains c' ns ≡ true) ↔ (get_node_for_nonce two c' ≡ some 1))
    × ((n' : ℕ) → get m' n' ≡ (if 1 == n' then none else get two n'))
    × ((c' : ℕ) → get_node_for_nonce m' c' ≡ without 1 (get_node_for_nonce two c'))
unfolding get get_node_for_nonce HashMap.get
remove_by_nonce_known_example = remove_by_nonce_known two-IsTracked 1 100 three refl refl

run_total_example :
    (m' : BackoffMap) × (run default (inserts 1 10 100 three ∷ removes_by_timer 10 ∷ removes 1 ∷ [])
      ≡ returns m')
    × IsTracked m'
run_total_example = run_total (inserts 1 10 100 three ∷ removes_by_timer 10 ∷ removes 1 ∷ [])
