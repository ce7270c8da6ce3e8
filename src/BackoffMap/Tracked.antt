-- ===== src/BackoffMap/Tracked.antt =====
-- The invariant of a `BackoffMap`, and the calls on it.
use kira_rust.Prelude.{
  ℕ, ℕ_discrete, ◌≡◌, ◌≢◌, ◌↔◌, inl, inr, true, none, some, List, arith, ◌==◌, if◌then◌else◌,
  Option-cases, contains, returns,
}
use kira_rust.Backoff.{ExponentialBackoff}
use kira_rust.HashMap.{
  HashMap, IsUnique, find_entry, get-remove, get-insert, remove-IsUnique, insert-IsUnique,
  get-modify, modify-IsUnique, find_entry-eq_some, find_entry-eq_none,
}
use kira_rust.HashMap
use kira_rust.BackoffMap.{
  BackoffMap, default, insert, get_mut, add_nonce_for_node, remove_nonce, replace_timer_for,
  remove_nonces_for, nonces_of, remove, remove_by_nonce, remove_by_timer, get, get_node_for_nonce,
  get_node_for_timer,
}
use kira_rust.BackoffMap.Removal.{
  without, remove_all-IsUnique, contains-nonces_of, get-remove_nonces_for, remove_timer_for_search,
}

-- Keys are unique, and a tracked node has a timer.
pub record IsTracked (m : BackoffMap) : Type 0 where
  pub unique_states : IsUnique m.node_to_state
  pub unique_timers : IsUnique m.timer_to_node
  pub unique_nonces : IsUnique m.nonce_to_id
  pub timed :
      (n : ℕ) (b : ExponentialBackoff)
      → HashMap.get m.node_to_state n ≡ some b
      → (t : ℕ) × (HashMap.get m.timer_to_node t ≡ some n)

pub default-IsTracked : IsTracked default
unfolding default HashMap.get
default-IsTracked = record {
  unique_states = tt;
  unique_timers = tt;
  unique_nonces = tt;
  timed = λ n b h. cc;
}

-- The effect of removing a node with its timer and nonces.
abbrev pub untracked : BackoffMap → ℕ → ℕ → BackoffMap
untracked m n t = record {
  node_to_state = HashMap.remove m.node_to_state n;
  timer_to_node = HashMap.remove m.timer_to_node t;
  nonce_to_id = (remove_nonces_for m n).0.nonce_to_id;
}

module _ {m : BackoffMap} (s : IsTracked m) where
  pub insert-IsTracked : (n t c : ℕ) (b : ExponentialBackoff) → IsTracked (insert m n t c b).0
  unfolding insert
  insert-IsTracked n t c b = elim (Option-cases (HashMap.get m.timer_to_node t)) [
    | inr (v, e) ↦ rw (e, insert) s
    | inl e ↦ elim (Option-cases (HashMap.get m.nonce_to_id c)) [
      | inr (v, f) ↦ rw (e, f, insert) s
      | inl f ↦
          rw (e, f, insert)
            (record {
              unique_states = insert-IsUnique m.node_to_state n b s.unique_states;
              unique_timers = insert-IsUnique m.timer_to_node t n s.unique_timers;
              unique_nonces = insert-IsUnique m.nonce_to_id c n s.unique_nonces;
              timed = λ n' b' h. elim (ℕ_discrete n n') [
                | yes p ↦ (t, ground (arith, get-insert m.timer_to_node t t n))
                | no p ↦
                    let (t', k) =
                      s.timed n' b' (ground (arith, get-insert m.node_to_state n n' b)) in
                    (t', ground (arith, get-insert m.timer_to_node t t' n))
              ];
            })
    ]
  ]

  pub get_mut-IsTracked :
      (n : ℕ) (f : ExponentialBackoff → ExponentialBackoff) → IsTracked (get_mut m n f)
  unfolding get_mut
  get_mut-IsTracked n f = record {
    unique_states = modify-IsUnique m.node_to_state n f s.unique_states;
    unique_timers = s.unique_timers;
    unique_nonces = s.unique_nonces;
    timed = λ n' b h. elim (Option-cases (HashMap.get m.node_to_state n')) [
      | inl e ↦ absurd (ground (arith, get-modify m.node_to_state n n' f))
      | inr (b', e) ↦ s.timed n' b' e
    ];
  }

  pub add_nonce_for_node-IsTracked : (n c : ℕ) → IsTracked (add_nonce_for_node m n c).0
  unfolding add_nonce_for_node
  add_nonce_for_node-IsTracked n c =
      ground (arith, insert-IsUnique m.nonce_to_id c n s.unique_nonces)

  pub remove_nonce-IsTracked : (c : ℕ) → IsTracked (remove_nonce m c).0
  unfolding remove_nonce
  remove_nonce-IsTracked c = record {
    unique_states = s.unique_states;
    unique_timers = s.unique_timers;
    unique_nonces = remove-IsUnique m.nonce_to_id c s.unique_nonces;
    timed = s.timed;
  }

  remove_nonces_for-IsUnique : (n : ℕ) → IsUnique (remove_nonces_for m n).0.nonce_to_id
  unfolding remove_nonces_for
  remove_nonces_for-IsUnique n =
      remove_all-IsUnique m.nonce_to_id (nonces_of n m.nonce_to_id) s.unique_nonces

  untracked-IsTracked :
      (n t : ℕ) → HashMap.get m.timer_to_node t ≡ some n → IsTracked (untracked m n t)
  untracked-IsTracked n t e = record {
    unique_states = remove-IsUnique m.node_to_state n s.unique_states;
    unique_timers = remove-IsUnique m.timer_to_node t s.unique_timers;
    unique_nonces = remove_nonces_for-IsUnique n;
    timed = λ n' b h.
        let (t', k) = s.timed n' b (ground (arith, get-remove m.node_to_state n n')) in
        (t', ground (arith, get-remove m.timer_to_node t t', get-remove m.node_to_state n n'));
  }

  pub untracked-nonce :
      (n t c : ℕ) → get_node_for_nonce (untracked m n t) c ≡ without n (get_node_for_nonce m c)
  unfolding get_node_for_nonce
  untracked-nonce n t c = elim (Option-cases (HashMap.get m.nonce_to_id c)) [
    | inl e ↦ ground (arith, get-remove_nonces_for m n c s.unique_nonces)
    | inr (j, e) ↦
        ground (arith, get-remove_nonces_for m n c s.unique_nonces, get-remove m.node_to_state n j)
  ]

  untracked-timer :
      (n t k : ℕ)
      → HashMap.get m.timer_to_node t ≡ some n
      → get_node_for_timer (untracked m n t) k ≡ without n (get_node_for_timer m k)
  unfolding get_node_for_timer
  untracked-timer n t k e = elim (Option-cases (HashMap.get m.timer_to_node k)) [
    | inl f ↦ ground (arith, get-remove m.timer_to_node t k)
    | inr (j, f) ↦
        ground (arith, get-remove m.timer_to_node t k, get-remove m.node_to_state n j, e, f)
  ]

  nonces_of_iff :
      (n c : ℕ) (b : ExponentialBackoff)
      → get m n ≡ some b
      → (contains c (nonces_of n m.nonce_to_id) ≡ true) ↔ (get_node_for_nonce m c ≡ some n)
  unfolding get get_node_for_nonce
  nonces_of_iff n c b h =
      let (f, g) = contains-nonces_of n m.nonce_to_id c s.unique_nonces in
      (λ q. ground (arith, f q), λ q. g (ground arith))

  -- Removing a tracked node never panics. It returns the node's backoff, a timer of it and its
  -- nonces. Afterwards no lookup of a node, a timer or a nonce gives it, not even that of another timer
  -- that it had, and all lookups that give other nodes stay.
  pub remove_known :
      (n : ℕ) (b : ExponentialBackoff)
      → get m n ≡ some b
      → (m' : BackoffMap) × (t : ℕ) × (ns : List ℕ) × (remove m n ≡ returns (m', some (b, t, ns)))
        × IsTracked m'
        × (get_node_for_timer m t ≡ some n)
        × ((c : ℕ) → (contains c ns ≡ true) ↔ (get_node_for_nonce m c ≡ some n))
        × ((n' : ℕ) → get m' n' ≡ (if n == n' then none else get m n'))
        × ((c : ℕ) → get_node_for_nonce m' c ≡ without n (get_node_for_nonce m c))
        × ((k : ℕ) → get_node_for_timer m' k ≡ without n (get_node_for_timer m k))
  unfolding remove get get_node_for_nonce get_node_for_timer remove_nonces_for
  remove_known n b h =
      elim (remove_timer_for_search (record m { node_to_state = HashMap.remove m.node_to_state n })
        n s.unique_timers) [
          | inl (e, missing) ↦ let (t, k) = s.timed n b h in absurd (missing t k)
          | inr (t, e, k) ↦ (
            untracked m n t,
            t,
            nonces_of n m.nonce_to_id,
            rw (h, e, remove),
            untracked-IsTracked n t k,
            ground arith,
            λ c. nonces_of_iff n c b h,
            λ n'. get-remove m.node_to_state n n',
            untracked-nonce n t,
            λ k'. untracked-timer n t k' k,
          )
        ]

  -- Removing an unknown node changes nothing.
  pub remove_unknown : (n : ℕ) → get m n ≡ none → remove m n ≡ returns (m, none)
  unfolding remove get
  remove_unknown n h = rw (h, remove)

  replaced-IsTracked :
      (n t : ℕ) (timers : HashMap ℕ)
      → IsUnique timers
      → ((n' t' : ℕ)
          → n ≢ n'
          → HashMap.get m.timer_to_node t' ≡ some n'
          → HashMap.get timers t' ≡ some n')
      → HashMap.get m.timer_to_node t ≡ none
      → IsTracked (record m { timer_to_node = HashMap.insert timers t n })
  replaced-IsTracked n t timers u same fresh = record {
    unique_states = s.unique_states;
    unique_timers = insert-IsUnique timers t n u;
    unique_nonces = s.unique_nonces;
    timed = λ n' b h. elim (ℕ_discrete n n') [
      | yes p ↦ (t, ground (arith, get-insert timers t t n))
      | no p ↦
          let (t', k) = s.timed n' b h in
          (t', ground (arith, get-insert timers t t' n, same n' t' p k))
    ];
  }

module _ {m : BackoffMap} (s : IsTracked m) where
  pub remove_by_nonce-IsTracked : (c : ℕ) → IsTracked (remove_by_nonce m c).0
  unfolding remove_by_nonce remove_nonce remove_nonces_for
  remove_by_nonce-IsTracked c = elim (Option-cases (HashMap.get m.nonce_to_id c)) [
    | inl e ↦ rw (e, remove_by_nonce) s
    | inr (n, e) ↦
        let s1 = remove_nonce-IsTracked s c in
        elim (remove_timer_for_search (remove_nonce m c).0 n s1.unique_timers) [
          | inl (f, missing) ↦ rw (e, remove_by_nonce) (rw (f, remove_by_nonce) (rw f s1))
          | inr (t, f, k) ↦
              rw (e, remove_by_nonce)
                (rw (f, remove_by_nonce) (rw f (untracked-IsTracked s1 n t k)))
        ]
  ]

  pub remove_by_timer-IsTracked : (t : ℕ) → IsTracked (remove_by_timer m t).0
  unfolding remove_by_timer remove_nonces_for
  remove_by_timer-IsTracked t = elim (Option-cases (HashMap.get m.timer_to_node t)) [
    | inl e ↦ rw (e, remove_by_timer) s
    | inr (n, e) ↦ rw (e, remove_by_timer) (untracked-IsTracked s n t e)
  ]

  pub replace_timer_for-IsTracked : (n t : ℕ) → IsTracked (replace_timer_for m n t).0
  unfolding replace_timer_for
  replace_timer_for-IsTracked n t = elim (Option-cases (HashMap.get m.timer_to_node t)) [
    | inr (v, e) ↦ rw (e, replace_timer_for) s
    | inl e ↦ elim (remove_timer_for_search m n s.unique_timers) [
      | inl (f, missing) ↦
          rw (e, replace_timer_for)
            (rw f (replaced-IsTracked s n t m.timer_to_node s.unique_timers (λ n' t' p k. k) e))
      | inr (old, f, k) ↦
          rw (e, replace_timer_for)
            (rw f (
              replaced-IsTracked s n t (HashMap.remove m.timer_to_node old)
                (remove-IsUnique m.timer_to_node old s.unique_timers)
                (λ n' t' p q. ground (arith, get-remove m.timer_to_node old t')) e))
    ]
  ]
