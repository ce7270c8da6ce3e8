-- ===== src/InflightReqMap/Sync.antt =====
-- The invariant that joins the two maps of an `InflightReqMap`, and the calls on it.
use kira_rust.Prelude.{
  ℕ, ◌≡◌, true, false, not, none, some, ◌==◌, if◌then◌else◌, returns, arith, Option-cases, inl, inr,
  ap, ==→eq, ==_self, Bool-cases, is_some, ◌↔◌,
}
use kira_rust.HashMap.{
  get, keep, IsUnique, remove, get-remove, get-insert, get-retain, remove-IsUnique, insert-IsUnique,
  retain-IsUnique, find_entry-retain-not, find_entry-retain_imp, find_entry, find_entry-eq_some,
  find_entry-eq_none,
}
use kira_rust.InflightReqMap.{
  InflightReqMap, default, insert, remove_by_nonce, remove_by_timer, remove_by_id,
  get_value_for_nonce, get_value_for_timer, exists,
}

pub record IsSync (m : InflightReqMap) : Type 0 where
  pub unique_timers : IsUnique m.timer_to_node
  pub unique_nonces : IsUnique m.nonce_to_id
  pub by_timer :
      (t n c : ℕ) → get m.timer_to_node t ≡ some (n, c) → get m.nonce_to_id c ≡ some (n, t)
  pub by_nonce :
      (c n t : ℕ) → get m.nonce_to_id c ≡ some (n, t) → get m.timer_to_node t ≡ some (n, c)

pub default-IsSync : IsSync default
unfolding default get
default-IsSync = record {
  unique_timers = tt;
  unique_nonces = tt;
  by_timer = λ t n c e. cc;
  by_nonce = λ c n t e. cc;
}

module _ {m : InflightReqMap} (s : IsSync m) where
  pub insert-IsSync : (n t c : ℕ) → IsSync (insert m n t c).0
  unfolding insert
  insert-IsSync n t c = elim (Option-cases (get m.timer_to_node t)) [
    | inr (v, e) ↦ rw (e, insert) s
    | inl e ↦ elim (Option-cases (get m.nonce_to_id c)) [
      | inr (v, f) ↦ rw (e, f, insert) s
      | inl f ↦
          rw (e, f, insert)
            (record {
              unique_timers = insert-IsUnique m.timer_to_node t (n, c) s.unique_timers;
              unique_nonces = insert-IsUnique m.nonce_to_id c (n, t) s.unique_nonces;
              by_timer = λ t' n' c' h. ground (
                arith,
                get-insert m.timer_to_node t t' (n, c),
                get-insert m.nonce_to_id c c' (n, t),
                s.by_timer t' n' c',
              );
              by_nonce = λ c' n' t' h. ground (
                arith,
                get-insert m.timer_to_node t t' (n, c),
                get-insert m.nonce_to_id c c' (n, t),
                s.by_nonce c' n' t',
              );
            })
    ]
  ]

  remove_both-IsSync :
      (n t c : ℕ)
      → get m.timer_to_node t ≡ some (n, c)
      → IsSync (record {
        timer_to_node = remove m.timer_to_node t;
        nonce_to_id = remove m.nonce_to_id c;
      })
  remove_both-IsSync n t c e = record {
    unique_timers = remove-IsUnique m.timer_to_node t s.unique_timers;
    unique_nonces = remove-IsUnique m.nonce_to_id c s.unique_nonces;
    by_timer = λ t' n' c' h. ground (
      arith,
      get-remove m.timer_to_node t t',
      get-remove m.nonce_to_id c c',
      s.by_timer t n c,
      s.by_timer t' n' c',
    );
    by_nonce = λ c' n' t' h. ground (
      arith,
      get-remove m.timer_to_node t t',
      get-remove m.nonce_to_id c c',
      s.by_timer t n c,
      s.by_nonce c' n' t',
    );
  }

  -- Removal by a nonce never fails an assertion, returns what was tracked, and untracks just that.
  pub remove_by_nonce_lem :
      (c : ℕ)
      → (m' : InflightReqMap) × (remove_by_nonce m c ≡ returns (m', get_value_for_nonce m c))
        × IsSync m'
        × ((c' : ℕ)
            → get_value_for_nonce m' c' ≡ (if c == c' then none else get_value_for_nonce m c'))
  unfolding remove_by_nonce get_value_for_nonce
  remove_by_nonce_lem c = elim (Option-cases (get m.nonce_to_id c)) [
    | inl e ↦ (m, ground arith, s, λ c'. ground arith)
    | inr (v, e) ↦
        let f = s.by_nonce c v.0 v.1 e in
        (
          record {
            timer_to_node = remove m.timer_to_node v.1;
            nonce_to_id = remove m.nonce_to_id c;
          },
          ground arith,
          remove_both-IsSync v.0 v.1 c f,
          λ c'. get-remove m.nonce_to_id c c',
        )
  ]

  -- The same, by a timer.
  pub remove_by_timer_lem :
      (t : ℕ)
      → (m' : InflightReqMap) × (remove_by_timer m t ≡ returns (m', get_value_for_timer m t))
        × IsSync m'
        × ((t' : ℕ)
            → get_value_for_timer m' t' ≡ (if t == t' then none else get_value_for_timer m t'))
  unfolding remove_by_timer get_value_for_timer
  remove_by_timer_lem t = elim (Option-cases (get m.timer_to_node t)) [
    | inl e ↦ (m, ground arith, s, λ t'. ground arith)
    | inr (v, e) ↦
        let f = s.by_timer t v.0 v.1 e in
        (
          record {
            timer_to_node = remove m.timer_to_node t;
            nonce_to_id = remove m.nonce_to_id v.1;
          },
          ground arith,
          remove_both-IsSync v.0 t v.1 e,
          λ t'. get-remove m.timer_to_node t t',
        )
  ]

  -- Removal by a node keeps the maps inverse to one another.
  pub remove_by_id-IsSync : (n : ℕ) → IsSync (remove_by_id m n)
  unfolding remove_by_id
  remove_by_id-IsSync n = record {
    unique_timers = retain-IsUnique _ m.timer_to_node s.unique_timers;
    unique_nonces = retain-IsUnique _ m.nonce_to_id s.unique_nonces;
    by_timer = λ t n' c h. ground (
      arith,
      get-retain (λ _ v. not (v.0 == n)) m.timer_to_node t s.unique_timers,
      get-retain (λ _ v. not (v.0 == n)) m.nonce_to_id c s.unique_nonces,
      s.by_timer t n' c,
    );
    by_nonce = λ c n' t h. ground (
      arith,
      get-retain (λ _ v. not (v.0 == n)) m.timer_to_node t s.unique_timers,
      get-retain (λ _ v. not (v.0 == n)) m.nonce_to_id c s.unique_nonces,
      s.by_nonce c n' t,
    );
  }

  -- Removal by a node untracks the node, and keeps every other request and node as it was.
  pub remove_by_id_lem :
      (n c n' : ℕ)
      → (get_value_for_nonce (remove_by_id m n) c
          ≡ keep (λ _ v. not (v.0 == n)) c (get_value_for_nonce m c))
        × (exists (remove_by_id m n) n' ≡ (if n == n' then false else exists m n'))
  unfolding remove_by_id get_value_for_nonce exists
  remove_by_id_lem n c n' = (
    get-retain _ m.nonce_to_id c s.unique_nonces,
    elim (Bool-cases (n == n')) [
      | inl e ↦
          let f = ==→eq n n' e in
          rw (f, ==_self n') (ap is_some (find_entry-retain-not (λ _ v. v.0 == n') m.nonce_to_id))
      | inr e ↦ rw e (ap is_some (find_entry-retain_imp _ _ m.nonce_to_id (λ k v h. ground arith)))
    ],
  )

  -- `exists` says whether some request to the node is tracked.
  pub exists_iff :
      (n : ℕ) → (exists m n ≡ true) ↔ ((c t : ℕ) × (get_value_for_nonce m c ≡ some (n, t)))
  unfolding exists get_value_for_nonce
  exists_iff n = (
    λ h. elim (Option-cases (find_entry (λ _ v. v.0 == n) m.nonce_to_id)) [
      | inl e ↦ cc
      | inr (p, e) ↦
          let (found, same) = find_entry-eq_some _ m.nonce_to_id p.0 p.1 s.unique_nonces e in
          (p.0, p.1.1, ground (arith, ==→eq p.1.0 n))
    ],
    λ w. elim (Option-cases (find_entry (λ _ v. v.0 == n) m.nonce_to_id)) [
      | inl e ↦ ground (arith, find_entry-eq_none _ m.nonce_to_id w.0 (n, w.1) e)
      | inr (p, e) ↦ rw e
    ],
  )
