-- ===== src/BackoffMap/Removal.antt =====
-- The searches of a `BackoffMap` for the timer and the nonces of a node, and what their removals leave.
use kira_rust.Prelude.{
  ℕ, ◌≡◌, refl, ◌≢◌, ◌↔◌, ◌⊎◌, inl, inr, true, Option, none, some, List, [], ◌∷◌, arith, ◌==◌,
  if◌then◌else◌, Option-cases, contains,
}
use kira_rust.HashMap.{
  HashMap, IsUnique, find_entry, get-remove, get-insert, remove-IsUnique, insert-IsUnique,
  get-modify, modify-IsUnique, find_entry-eq_some, find_entry-eq_none,
}
use kira_rust.HashMap
use kira_rust.BackoffMap.{BackoffMap, remove_timer_for, remove_nonces_for, nonces_of, remove_all}

-- An entry, unless it points to the node.
abbrev pub without : ℕ → Option ℕ → Option ℕ
without n none = none
without n (some j) = if n == j then none else some j

pub get-remove_all :
    (m : HashMap ℕ) (ks : List ℕ) (k : ℕ)
    → HashMap.get (remove_all m ks) k ≡ (if contains k ks then none else HashMap.get m k)
unfolding remove_all
get-remove_all m [] k = refl
get-remove_all m (j ∷ ks) k =
    ground (arith, get-remove_all (HashMap.remove m j) ks k, get-remove m j k)

pub remove_all-IsUnique : (m : HashMap ℕ) (ks : List ℕ) → IsUnique m → IsUnique (remove_all m ks)
unfolding remove_all
remove_all-IsUnique m [] u = u
remove_all-IsUnique m (j ∷ ks) u =
    remove_all-IsUnique (HashMap.remove m j) ks (remove-IsUnique m j u)

-- The nonces of a node are those that the map sends to it.
pub contains-nonces_of :
    (n : ℕ) (m : HashMap ℕ) (c : ℕ)
    → IsUnique m
    → (contains c (nonces_of n m) ≡ true) ↔ (HashMap.get m c ≡ some n)
unfolding nonces_of HashMap.get
contains-nonces_of n [] c u = (λ h. cc, λ h. cc)
contains-nonces_of n ((i, j) ∷ m) c u =
    let (f, g) = contains-nonces_of n m c u.1 in
    (λ h. ground (arith, f, g), λ h. ground (arith, f, g))

pub get-remove_nonces_for :
    (m : BackoffMap) (n c : ℕ)
    → IsUnique m.nonce_to_id
    → HashMap.get (remove_nonces_for m n).0.nonce_to_id c ≡ without n (HashMap.get m.nonce_to_id c)
unfolding remove_nonces_for
get-remove_nonces_for m n c u =
    let (f, g) = contains-nonces_of n m.nonce_to_id c u in
    ground (arith, get-remove_all m.nonce_to_id (nonces_of n m.nonce_to_id) c, f, g)

abbrev pub TimerSearch : BackoffMap → ℕ → Type 0
TimerSearch m n =
    ((remove_timer_for m n ≡ (m, none)) × ((t : ℕ) → HashMap.get m.timer_to_node t ≢ some n))
    ⊎ ((t : ℕ) × (remove_timer_for m n
          ≡ (record m { timer_to_node = HashMap.remove m.timer_to_node t }, some t))
        × (HashMap.get m.timer_to_node t ≡ some n))

pub remove_timer_for_search : (m : BackoffMap) (n : ℕ) → IsUnique m.timer_to_node → TimerSearch m n
unfolding remove_timer_for
remove_timer_for_search m n u = elim (Option-cases (find_entry (λ _ v. v == n) m.timer_to_node)) [
  | inl e ↦
      inl (
        rw (e, remove_timer_for),
        λ t h. ground (arith, find_entry-eq_none _ m.timer_to_node t n e),
      )
  | inr (p, e) ↦
      let (found, same) = find_entry-eq_some _ m.timer_to_node p.0 p.1 u e in
      inr (p.0, rw (e, remove_timer_for), ground (arith))
]
