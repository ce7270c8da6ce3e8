-- ===== src/InflightReqMap/Replacement.antt =====
-- What the replacement of a timer does to a synchronised `InflightReqMap`.
use kira_rust.Prelude.{ℕ, ◌≡◌, ◌≢◌, none, some, ◌==◌, if◌then◌else◌, returns, ok, err, arith}
use kira_rust.HashMap.{
  get, keep, IsUnique, remove, get-remove, get-insert, get-retain, remove-IsUnique, insert-IsUnique,
  retain-IsUnique, find_entry-retain-not, find_entry-retain_imp, find_entry, find_entry-eq_some,
  find_entry-eq_none,
}
use kira_rust.HashMap
use kira_rust.InflightReqMap.{
  InflightReqMap, duplicate_timer_error, nonce_does_not_exist_error, replace_timer_for_nonce,
  get_value_for_nonce, get_value_for_timer,
}
use kira_rust.InflightReqMap.Sync.{IsSync}

module _ {m : InflightReqMap} (s : IsSync m) where
  -- A successful replacement moves the request to the new timer and returns the old one.
  pub replace_timer_for_nonce_moves :
      (c t n old : ℕ)
      → get_value_for_timer m t ≡ none
      → get_value_for_nonce m c ≡ some (n, old)
      → (m' : InflightReqMap) × (replace_timer_for_nonce m c t ≡ returns (m', ok (some old)))
        × IsSync m'
        × ((c' : ℕ)
            → get_value_for_nonce m' c'
              ≡ (if c == c' then some (n, t) else get_value_for_nonce m c'))
  unfolding replace_timer_for_nonce get_value_for_nonce get_value_for_timer
  replace_timer_for_nonce_moves c t n old fresh tracked = (
    record {
      timer_to_node = HashMap.insert (remove m.timer_to_node old) t (n, c);
      nonce_to_id = HashMap.insert m.nonce_to_id c (n, t);
    },
    ground (arith, s.by_nonce c n old),
    record {
      unique_timers =
          insert-IsUnique _ t (n, c) (remove-IsUnique m.timer_to_node old s.unique_timers);
      unique_nonces = insert-IsUnique m.nonce_to_id c (n, t) s.unique_nonces;
      by_timer = λ t' n' c' h. ground (
        arith,
        get-insert (remove m.timer_to_node old) t t' (n, c),
        get-remove m.timer_to_node old t',
        get-insert m.nonce_to_id c c' (n, t),
        s.by_nonce c n old,
        s.by_timer t' n' c',
      );
      by_nonce = λ c' n' t' h. ground (
        arith,
        get-insert (remove m.timer_to_node old) t t' (n, c),
        get-remove m.timer_to_node old t',
        get-insert m.nonce_to_id c c' (n, t),
        s.by_nonce c n old,
        s.by_nonce c' n' t',
      );
    },
    λ c'. get-insert m.nonce_to_id c c' (n, t),
  )

  -- A refused replacement changes nothing, and says why; the timer is tested first.
  pub replace_timer_for_nonce_refused :
      (c t : ℕ)
      → (get_value_for_timer m t ≢ none
          → replace_timer_for_nonce m c t ≡ returns (m, err duplicate_timer_error))
        × (get_value_for_timer m t ≡ none
            → get_value_for_nonce m c ≡ none
            → replace_timer_for_nonce m c t ≡ returns (m, err nonce_does_not_exist_error))
  unfolding replace_timer_for_nonce get_value_for_nonce get_value_for_timer
  replace_timer_for_nonce_refused c t = (λ h. ground arith, λ h k. ground arith)
