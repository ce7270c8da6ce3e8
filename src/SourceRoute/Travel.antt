-- ===== src/SourceRoute/Travel.antt =====
-- Travelling along a source route: its hops, its advances and its parts.
use kira_rust.Prelude.{
  ℕ, zero, suc, ◌+◌, ◌-◌, ◌≤◌, ◌<◌, dec_lt, dec_le, ◌≡◌, refl, ap, ◌∙◌, ◌↔◌, ◌⊎◌, inl, inr, true,
  false, none, some, List, [], ◌∷◌, ◌++◌, arith, length, get_elem?, take, drop, length-take,
  length-drop, take-append-drop, get_elem?-inside, get_elem?-outside, Outcome, returns, panics, ok,
  ◌>>=◌, expect,
}
use native.Mathlib.Nat.{add-zero}
use kira_rust.Path.{NodePath, collect, last?, valid}
use kira_rust.SourceRoute.{
  SourceRoute, IsRoute, new, prev_hop, next_hop, current_hop, advance, is_finished, source,
  destination, traveled_path, remaining_path, traveled_hop_count, try_from,
}

abbrev path_of : List ℕ → NodePath
path_of ids = record {
  ids = ids;
  path_state = valid;
  last_validated = none;
  last_path_refresh = none;
}

collect-nonempty : (xs : List ℕ) → 0 < length xs → collect xs ≡ ok (path_of xs)
unfolding collect
collect-nonempty [] h = absurd (omega arith)
collect-nonempty (x ∷ xs) h = refl

-- A new route over a path with a node satisfies the invariants, starts at the source and has the first
-- node of the path as its current hop.
pub new-IsRoute :
    (s : ℕ) (p : NodePath) (a : ℕ) (ids : List ℕ)
    → p.ids ≡ a ∷ ids
    → IsRoute (new s p)
      × (source (new s p) ≡ returns s)
      × (prev_hop (new s p) ≡ returns s)
      × (current_hop (new s p) ≡ returns a)
unfolding new source prev_hop current_hop
new-IsRoute s p a ids e = (
  record {
    long = omega (arith, ap length e);
    started = omega arith;
    inside = omega (arith, ap length e);
  },
  refl,
  refl,
  rw e,
)

module _ {r : SourceRoute} (v : IsRoute r) where
  -- On a route the previous and the current hop exist, and the next hop exists exactly if the route is not finished.
  pub hops :
      ((a : ℕ) × (prev_hop r ≡ returns a))
      × ((a : ℕ) × (current_hop r ≡ returns a))
      × ((is_finished r ≡ returns true) ↔ (next_hop r ≡ none))
  unfolding prev_hop current_hop next_hop is_finished
  hops = (
    let (a, e) = get_elem?-inside r.ids (r.progress - 1) (omega arith) in (a, ground arith),
    let (a, e) = get_elem?-inside r.ids r.progress (omega arith) in (a, rw e),
    (
      λ h. get_elem?-outside r.ids (r.progress + 1) (ground arith),
      λ h. elim (dec_lt (r.progress + 1) (length r.ids)) [
        | yes k ↦ let (a, e) = get_elem?-inside r.ids (r.progress + 1) k in absurd (ground arith)
        | no k ↦ ground arith
      ],
    ),
  )

  -- Advancing keeps the invariants and makes the next hop, if there is one, the current hop and the
  -- current hop the previous one; a finished route stays as it is.
  pub advance-IsRoute :
      (r' : SourceRoute) × (advance r ≡ returns r')
      × IsRoute r'
      × (((a : ℕ) × (next_hop r ≡ some a)
            × (current_hop r' ≡ returns a)
            × (prev_hop r' ≡ current_hop r))
          ⊎ ((next_hop r ≡ none) × (r' ≡ r)))
  unfolding advance next_hop current_hop prev_hop
  advance-IsRoute = elim (dec_lt (r.progress + 1) (length r.ids)) [
    | yes k ↦
        let (a, e) = get_elem?-inside r.ids (r.progress + 1) k in
        (
          record r { progress = r.progress + 1 },
          ground arith,
          record { long = v.long; started = omega arith; inside = k },
          inl (a, e, rw e, ground arith),
        )
    | no k ↦
        (r, ground arith, v, inr (get_elem?-outside r.ids (r.progress + 1) (omega arith), refl))
  ]

  -- The traveled and the remaining path exist, have as many nodes as the progress and the rest, and together are the route.
  pub traveled_remaining :
      (p q : NodePath) × (traveled_path r ≡ returns p)
      × (remaining_path r ≡ returns q)
      × (p.ids ++ q.ids ≡ r.ids)
      × (traveled_hop_count r ≡ returns (length p.ids))
  unfolding traveled_path remaining_path traveled_hop_count
  traveled_remaining =
      let p =
        collect-nonempty (take r.progress r.ids) (omega (arith, length-take r.progress r.ids)) in
      let q =
        collect-nonempty (drop r.progress r.ids) (omega (arith, length-drop r.progress r.ids)) in
      (
        path_of (take r.progress r.ids),
        path_of (drop r.progress r.ids),
        ground (arith, p),
        ground (arith, q),
        take-append-drop r.progress r.ids,
        ground (arith, length-take r.progress r.ids),
      )

-- `count` calls of `advance`.
unfoldable pub advance_times : ℕ → SourceRoute → Outcome SourceRoute
advance_times zero r = returns r
advance_times (suc count) r = do r' ← advance r; advance_times count r'

last?-get_elem? : (xs : List ℕ) (n : ℕ) → length xs ≡ suc n → get_elem? xs n ≡ last? xs
last?-get_elem? [] n e = absurd (omega arith)
last?-get_elem? (x ∷ []) zero e = refl
last?-get_elem? (x ∷ []) (suc n) e = absurd (omega arith)
last?-get_elem? (x ∷ y ∷ xs) zero e = absurd (omega arith)
last?-get_elem? (x ∷ y ∷ xs) (suc n) e = last?-get_elem? (y ∷ xs) n (omega arith)

advance_step :
    (r : SourceRoute)
    → r.progress + 1 < length r.ids
    → advance r ≡ returns (record r { progress = r.progress + 1 })
unfolding advance
advance_step r h = ground arith

advance_times_lem :
    (n : ℕ) (r : SourceRoute)
    → r.progress + n < length r.ids
    → advance_times n r ≡ returns (record r { progress = r.progress + n })
unfolding advance_times
advance_times_lem zero r h = rw add-zero
advance_times_lem (suc n) r h = rw (advance_step r (omega arith)) (
    advance_times_lem n (record r { progress = r.progress + 1 }) (omega arith)
    ∙ ap (λ i. returns (record r { progress = i })) (omega arith))

-- A message arrives: as many advances as nodes are left behind the current hop make the destination
-- the current hop, and the route is finished then and not before.
pub advance_arrives :
    (r : SourceRoute) (n : ℕ)
    → IsRoute r
    → r.progress + n + 1 ≡ length r.ids
    → (r' : SourceRoute) × (advance_times n r ≡ returns r')
      × (current_hop r' ≡ destination r)
      × (is_finished r' ≡ returns true)
      × ((k : ℕ)
          → (n ≤ k)
            ⊎ ((q : SourceRoute) × (advance_times k r ≡ returns q)
                × (is_finished q ≡ returns false)))
unfolding current_hop destination is_finished
advance_arrives r n v e = (
  record r { progress = r.progress + n },
  advance_times_lem n r (omega arith),
  ap expect (last?-get_elem? r.ids (r.progress + n) (omega arith)),
  ground arith,
  λ k. elim (dec_le n k) [
    | yes h ↦ inl h
    | no h ↦
        let q : SourceRoute = record r { progress = r.progress + k } in
        inr (q, advance_times_lem k r (omega arith), ground arith)
  ],
)

-- A path with a single node is not refused with the error, but panics; any longer one is accepted.
pub try_from_outcomes :
    (p : NodePath)
    → ((length p.ids < 2) × (try_from p ≡ panics))
      ⊎ ((2 ≤ length p.ids)
          × ((r : SourceRoute) × (try_from p ≡ returns (ok r)) × IsRoute r × (r.ids ≡ p.ids)))
unfolding try_from
try_from_outcomes p = elim (dec_lt (length p.ids) 2) [
  | yes h ↦ inl (h, ground arith)
  | no h ↦ inr (
    omega arith,
    (
      record { ids = p.ids; progress = 1 },
      ground arith,
      record { long = omega arith; started = omega arith; inside = omega arith },
      refl,
    ),
  )
]
