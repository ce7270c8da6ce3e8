-- ===== src/BackoffMap/Runs.antt =====
-- Insertion into a `BackoffMap`, removal by a nonce, and whole histories of calls.
use kira_rust.Prelude.{
  ℕ, ◌≡◌, refl, ◌∙◌, ◌≢◌, ◌↔◌, ◌⊎◌, inl, inr, true, false, none, some, List, [], ◌∷◌, ◌++◌, arith,
  ◌==◌, if◌then◌else◌, Bool-cases, Option-cases, contains, contains-append, Outcome, returns, ok,
  err, ◌>>=◌,
}
use kira_rust.Backoff.{ExponentialBackoff}
use kira_rust.HashMap.{contains_key, get-insert, get-remove, remove-IsUnique}
use kira_rust.HashMap
use kira_rust.BackoffMap.{
  duplicate_timer, duplicate_nonce, BackoffMap, default, insert, get_mut, add_nonce_for_node,
  remove_nonce, replace_timer_for, remove_nonces_for, nonces_of, remove, remove_by_nonce,
  remove_by_timer, get, get_node_for_nonce, get_node_for_timer,
}
use kira_rust.BackoffMap.Tracked.{
  IsTracked, default-IsTracked, insert-IsTracked, get_mut-IsTracked, add_nonce_for_node-IsTracked,
  remove_nonce-IsTracked, remove_known, remove_unknown, remove_by_nonce-IsTracked,
  remove_by_timer-IsTracked, replace_timer_for-IsTracked, untracked, untracked-nonce,
}
use kira_rust.BackoffMap.Removal.{without, contains-nonces_of, remove_timer_for_search}

-- An insertion is refused exactly if the timer or the nonce is known, and then changes nothing. An
-- accepted one makes the node's backoff found by node, timer and nonce, and returns the former one.
pub insert_backoff :
    (m : BackoffMap) (n t c : ℕ) (b : ExponentialBackoff)
    → ((contains_key m.timer_to_node t ≡ true) × (insert m n t c b ≡ (m, err duplicate_timer)))
      ⊎ ((contains_key m.nonce_to_id c ≡ true) × (insert m n t c b ≡ (m, err duplicate_nonce)))
      ⊎ ((contains_key m.timer_to_node t ≡ false)
          × (contains_key m.nonce_to_id c ≡ false)
          × ((insert m n t c b).1 ≡ ok (get m n))
          × (get (insert m n t c b).0 n ≡ some b)
          × (get_node_for_timer (insert m n t c b).0 t ≡ some n)
          × (get_node_for_nonce (insert m n t c b).0 c ≡ some n))
unfolding insert get get_node_for_timer get_node_for_nonce
insert_backoff m n t c b =
    let p = get-insert m.node_to_state n n b in
    let q = get-insert m.timer_to_node t t n in
    let r = get-insert m.nonce_to_id c c n in
    elim (Bool-cases (contains_key m.timer_to_node t)) [
      | inl e ↦ inl (e, rw e)
      | inr e ↦ elim (Bool-cases (contains_key m.nonce_to_id c)) [
        | inl f ↦ inr (inl (f, rw (e, f)))
        | inr f ↦
            inr
              (inr (e, f, rw (e, f), ground (arith, p), ground (arith, p, q), ground (arith, p, r)))
      ]
    ]

-- A second insertion for a node, under a timer and a nonce that are new, gives the node two timers.
pub insert_second_timer :
    (m : BackoffMap) (n t t' c : ℕ) (b : ExponentialBackoff)
    → get_node_for_timer m t ≡ some n
    → HashMap.get m.timer_to_node t' ≡ none
    → HashMap.get m.nonce_to_id c ≡ none
    → (t ≢ t')
      × (get_node_for_timer (insert m n t' c b).0 t ≡ some n)
      × (get_node_for_timer (insert m n t' c b).0 t' ≡ some n)
unfolding insert get_node_for_timer
insert_second_timer m n t t' c b h fresh new =
    let p = get-insert m.node_to_state n n b in
    let q = get-insert m.timer_to_node t' t n in
    let r = get-insert m.timer_to_node t' t' n in
    (λ e. ground arith, ground (arith, p, q, r), ground (arith, p, q, r))

-- A dropped nonce is the only one that changes.
pub get_node_for_nonce-remove_nonce :
    (m : BackoffMap) (c c' : ℕ)
    → get_node_for_nonce (remove_nonce m c).0 c'
      ≡ (if c == c' then none else get_node_for_nonce m c')
unfolding get_node_for_nonce remove_nonce
get_node_for_nonce-remove_nonce m c c' = ground (arith, get-remove m.nonce_to_id c c')

get_node_for_nonce_inv :
    (m : BackoffMap) (c n : ℕ)
    → get_node_for_nonce m c ≡ some n
    → HashMap.get m.nonce_to_id c ≡ some n
unfolding get_node_for_nonce
get_node_for_nonce_inv m c n h = ground arith

get_node_for_nonce_tracked :
    (m : BackoffMap) (c n : ℕ) (b : ExponentialBackoff)
    → get m n ≡ some b
    → HashMap.get m.nonce_to_id c ≡ some n
    → get_node_for_nonce m c ≡ some n
unfolding get_node_for_nonce get
get_node_for_nonce_tracked m c n b g h = ground arith

get_node_for_timer_tracked :
    (m : BackoffMap) (t n : ℕ) (b : ExponentialBackoff)
    → get m n ≡ some b
    → HashMap.get m.timer_to_node t ≡ some n
    → get_node_for_timer m t ≡ some n
unfolding get_node_for_timer get
get_node_for_timer_tracked m t n b g h = ground arith

module _ {m : BackoffMap} (s : IsTracked m) where
  removed_nonces_iff :
      (n c c' : ℕ) (b : ExponentialBackoff)
      → HashMap.get m.nonce_to_id c ≡ some n
      → get m n ≡ some b
      → (contains c' (nonces_of n (HashMap.remove m.nonce_to_id c) ++ c ∷ []) ≡ true)
        ↔ (get_node_for_nonce m c' ≡ some n)
  removed_nonces_iff n c c' b hc g =
      let ns = nonces_of n (HashMap.remove m.nonce_to_id c) in
      let (f, f') =
        contains-nonces_of n (HashMap.remove m.nonce_to_id c) c'
          (remove-IsUnique m.nonce_to_id c s.unique_nonces) in
      (
        λ q.
            get_node_for_nonce_tracked m c' n b g
              (ground (arith, f, contains-append c' ns (c ∷ []), get-remove m.nonce_to_id c c')),
        λ q. ground (
          arith,
          f',
          get_node_for_nonce_inv m c' n q,
          contains-append c' ns (c ∷ []),
          get-remove m.nonce_to_id c c',
        ),
      )

  removed_view :
      (n c c' : ℕ)
      → get_node_for_nonce m c ≡ some n
      → without n (get_node_for_nonce (remove_nonce m c).0 c') ≡ without n (get_node_for_nonce m c')
  removed_view n c c' h = ground (arith, get_node_for_nonce-remove_nonce m c c')

  -- Removal by a nonce of a tracked node returns the node's backoff, a timer of it and its nonces,
  -- the given one among them, and then no lookup gives the node any more; others stay.
  pub remove_by_nonce_known :
      (n c : ℕ) (b : ExponentialBackoff)
      → get_node_for_nonce m c ≡ some n
      → get m n ≡ some b
      → (m' : BackoffMap) × (t : ℕ) × (ns : List ℕ) × (remove_by_nonce m c ≡ (m', some (b, t, ns)))
        × (get_node_for_timer m t ≡ some n)
        × ((c' : ℕ) → (contains c' ns ≡ true) ↔ (get_node_for_nonce m c' ≡ some n))
        × ((n' : ℕ) → get m' n' ≡ (if n == n' then none else get m n'))
        × ((c' : ℕ) → get_node_for_nonce m' c' ≡ without n (get_node_for_nonce m c'))
  unfolding remove_by_nonce remove_nonces_for remove_nonce get
  remove_by_nonce_known n c b h g =
      let s1 = remove_nonce-IsTracked s c in
      let hc = get_node_for_nonce_inv m c n h in
      elim (remove_timer_for_search (remove_nonce m c).0 n s1.unique_timers) [
        | inl (e, missing) ↦ let (t, k) = s.timed n b g in absurd (missing t k)
        | inr (t, e, k) ↦ (
          untracked (remove_nonce m c).0 n t,
          t,
          nonces_of n (HashMap.remove m.nonce_to_id c) ++ c ∷ [],
          rw (hc, remove_by_nonce) (rw (e, remove_by_nonce) (rw (e, g))),
          get_node_for_timer_tracked m t n b g k,
          λ c'. removed_nonces_iff n c c' b hc g,
          λ n'. get-remove m.node_to_state n n',
          λ c'. untracked-nonce s1 n t c' ∙ removed_view n c c' h,
        )
      ]

pub data Call : Type 0 where
  inserts : ℕ → ℕ → ℕ → ExponentialBackoff → Call
  updates : ℕ → (ExponentialBackoff → ExponentialBackoff) → Call
  adds_nonce : ℕ → ℕ → Call
  removes_nonce : ℕ → Call
  removes : ℕ → Call
  removes_by_nonce : ℕ → Call
  removes_by_timer : ℕ → Call
  replaces_timer : ℕ → ℕ → Call

-- The state that a call leaves, if it does not panic.
unfoldable pub step : BackoffMap → Call → Outcome BackoffMap
step m (inserts n t c b) = returns (insert m n t c b).0
step m (updates n f) = returns (get_mut m n f)
step m (adds_nonce n c) = returns (add_nonce_for_node m n c).0
step m (removes_nonce c) = returns (remove_nonce m c).0
step m (removes n) = do (m', r) ← remove m n; returns m'
step m (removes_by_nonce c) = returns (remove_by_nonce m c).0
step m (removes_by_timer t) = returns (remove_by_timer m t).0
step m (replaces_timer n t) = returns (replace_timer_for m n t).0

unfoldable pub run : BackoffMap → List Call → Outcome BackoffMap
run m [] = returns m
run m (call ∷ calls) = step m call >>= λ m'. run m' calls

abbrev Survives : Outcome BackoffMap → Type 0
Survives o = (m' : BackoffMap) × (o ≡ returns m') × IsTracked m'

step-Survives : (m : BackoffMap) (call : Call) → IsTracked m → Survives (step m call)
unfolding step
step-Survives m (inserts n t c b) s = (_, refl, insert-IsTracked s n t c b)
step-Survives m (updates n f) s = (_, refl, get_mut-IsTracked s n f)
step-Survives m (adds_nonce n c) s = (_, refl, add_nonce_for_node-IsTracked s n c)
step-Survives m (removes_nonce c) s = (_, refl, remove_nonce-IsTracked s c)
step-Survives m (removes n) s = elim (Option-cases (get m n)) [
  | inl e ↦ (m, rw (remove_unknown s n e), s)
  | inr (b, e) ↦ let r = remove_known s n b e in (r.0, rw (r.3), r.4)
]
step-Survives m (removes_by_nonce c) s = (_, refl, remove_by_nonce-IsTracked s c)
step-Survives m (removes_by_timer t) s = (_, refl, remove_by_timer-IsTracked s t)
step-Survives m (replaces_timer n t) s = (_, refl, replace_timer_for-IsTracked s n t)

run-Survives : (m : BackoffMap) (calls : List Call) → IsTracked m → Survives (run m calls)
unfolding run
run-Survives m [] s = (m, refl, s)
run-Survives m (call ∷ calls) s =
    let r = step-Survives m call s in
    let q = run-Survives r.0 calls r.2 in (q.0, rw (r.1) (q.1), q.2)

-- No sequence of calls on a new map panics, and every node that is tracked afterwards has a timer.
pub run_total : (calls : List Call) → Survives (run default calls)
run_total calls = run-Survives default calls default-IsTracked
