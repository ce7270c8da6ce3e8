-- ===== src/InflightReqMap/Runs.antt =====
-- Whole histories of an `InflightReqMap`: sequences of the calls that change it.
use kira_rust.Prelude.{
  ℕ, ◌≡◌, refl, ◌⊎◌, inl, inr, true, false, some, List, [], ◌∷◌, arith, ◌==◌, if◌then◌else◌,
  Bool-cases, Option-cases, Outcome, returns, ok, err, ◌>>=◌,
}
use kira_rust.HashMap.{contains_key, get-insert}
use kira_rust.InflightReqMap.{
  timer_exists, nonce_exists, duplicate_timer, duplicate_nonce, InflightReqMap, default, insert,
  remove_by_nonce, remove_by_timer, remove_by_id, replace_timer_for_nonce, get_value_for_nonce,
  get_value_for_timer,
}
use kira_rust.InflightReqMap.Sync.{
  IsSync, default-IsSync, insert-IsSync, remove_by_nonce_lem, remove_by_timer_lem,
  remove_by_id-IsSync,
}
use kira_rust.InflightReqMap.Replacement.{
  replace_timer_for_nonce_moves, replace_timer_for_nonce_refused,
}

-- A request is accepted exactly if its timer and its nonce are new. A refusal changes nothing, and
-- an accepted request is found by its nonce beside all those of before.
pub insert_accepts :
    (m : InflightReqMap) (n t c c' : ℕ)
    → ((timer_exists m t ≡ true) × (insert m n t c ≡ (m, err duplicate_timer)))
      ⊎ ((nonce_exists m c ≡ true) × (insert m n t c ≡ (m, err duplicate_nonce)))
      ⊎ ((timer_exists m t ≡ false)
          × (nonce_exists m c ≡ false)
          × ((insert m n t c).1 ≡ ok tt)
          × (get_value_for_nonce (insert m n t c).0 c'
              ≡ (if c == c' then some (n, t) else get_value_for_nonce m c')))
unfolding insert get_value_for_nonce timer_exists nonce_exists
insert_accepts m n t c c' = elim (Bool-cases (contains_key m.timer_to_node t)) [
  | inl e ↦ inl (e, rw e)
  | inr e ↦ elim (Bool-cases (contains_key m.nonce_to_id c)) [
    | inl f ↦ inr (inl (f, rw (e, f)))
    | inr f ↦ inr (inr (e, f, rw (e, f), rw (e, f) (get-insert m.nonce_to_id c c' (n, t))))
  ]
]

pub data Call : Type 0 where
  inserts : ℕ → ℕ → ℕ → Call
  removes_nonce : ℕ → Call
  removes_timer : ℕ → Call
  removes_id : ℕ → Call
  replaces_timer : ℕ → ℕ → Call

-- The state that a call leaves, if it does not panic.
unfoldable pub step : InflightReqMap → Call → Outcome InflightReqMap
step m (inserts n t c) = returns (insert m n t c).0
step m (removes_nonce c) = do (m', r) ← remove_by_nonce m c; returns m'
step m (removes_timer t) = do (m', r) ← remove_by_timer m t; returns m'
step m (removes_id n) = returns (remove_by_id m n)
step m (replaces_timer c t) = do (m', r) ← replace_timer_for_nonce m c t; returns m'

unfoldable pub run : InflightReqMap → List Call → Outcome InflightReqMap
run m [] = returns m
run m (call ∷ calls) = step m call >>= λ m'. run m' calls

abbrev Survives : Outcome InflightReqMap → Type 0
Survives o = (m' : InflightReqMap) × (o ≡ returns m') × IsSync m'

replace_timer_for_nonce-Survives :
    (m : InflightReqMap) (c t : ℕ) → IsSync m → Survives (step m (replaces_timer c t))
unfolding step get_value_for_nonce get_value_for_timer
replace_timer_for_nonce-Survives m c t s = elim (Option-cases (get_value_for_timer m t)) [
  | inr (v, e) ↦ (m, rw ((replace_timer_for_nonce_refused s c t).0 (ground arith)), s)
  | inl e ↦ elim (Option-cases (get_value_for_nonce m c)) [
    | inl f ↦ (m, rw ((replace_timer_for_nonce_refused s c t).1 e f), s)
    | inr (v, f) ↦ let r = replace_timer_for_nonce_moves s c t v.0 v.1 e f in (r.0, rw (r.1), r.2)
  ]
]

step-Survives : (m : InflightReqMap) (call : Call) → IsSync m → Survives (step m call)
unfolding step
step-Survives m (inserts n t c) s = (_, refl, insert-IsSync s n t c)
step-Survives m (removes_nonce c) s = let r = remove_by_nonce_lem s c in (r.0, rw (r.1), r.2)
step-Survives m (removes_timer t) s = let r = remove_by_timer_lem s t in (r.0, rw (r.1), r.2)
step-Survives m (removes_id n) s = (_, refl, remove_by_id-IsSync s n)
step-Survives m (replaces_timer c t) s = replace_timer_for_nonce-Survives m c t s

run-Survives : (m : InflightReqMap) (calls : List Call) → IsSync m → Survives (run m calls)
unfolding run
run-Survives m [] s = (m, refl, s)
run-Survives m (call ∷ calls) s =
    let r = step-Survives m call s in
    let q = run-Survives r.0 calls r.2 in (q.0, rw (r.1) (q.1), q.2)

-- No sequence of calls on a new map panics, and its two maps stay inverse to one another.
pub run-default_total : (calls : List Call) → Survives (run default calls)
run-default_total calls = run-Survives default calls default-IsSync
