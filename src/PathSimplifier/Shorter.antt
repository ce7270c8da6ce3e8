-- ===== src/PathSimplifier/Shorter.antt =====
-- A simplified path leads to the same node and is not longer.
use kira_rust.Prelude.{
  ℕ, zero, suc, ◌+◌, ◌-◌, ◌≤◌, ◌<◌, ◌≡◌, refl, sym, ap, ◌∙◌, subst, inl, inr, true, false, Option,
  none, some, List, [], ◌∷◌, ◌++◌, arith, ltb, leb, ltb→lt, Bool-cases, Option-cases, length,
  get_elem?, take, drop, length-append, length-take, length-drop, take-append-drop,
  get_elem?-inside, get_elem?-some_lt, Outcome, returns,
}
use mathlib.Core.List.{append-nil}
use kira_rust.Path.{NodePath, size, replace_interval, last?, is_empty}
use kira_rust.Path.Edits.{replace_interval_lem}
use kira_rust.Contact.{Contact, is_valid_contact}
use kira_rust.RoutingTable.{RoutingTable}
use kira_rust.UlnTable.{UlnTable}
use kira_rust.PathSimplifier.{neighbor_loop, shorter_path, known_loop, simplify}

-- Another way to the same node, which is not longer.
pub record IsShorter (path path' : NodePath) : Type 0 where
  pub same_destination : last? path'.ids ≡ last? path.ids
  pub no_longer : length path'.ids ≤ length path.ids
  pub same_state : path'.path_state ≡ path.path_state

last?-append : (xs : List ℕ) (y : ℕ) (ys : List ℕ) → last? (xs ++ y ∷ ys) ≡ last? (y ∷ ys)
last?-append [] y ys = refl
last?-append (x ∷ []) y ys = refl
last?-append (x ∷ x' ∷ xs) y ys = last?-append (x' ∷ xs) y ys

last?-length : (xs : List ℕ) (a : ℕ) → last? xs ≡ some a → 0 < length xs
last?-length [] a h = absurd (ground arith)
last?-length (x ∷ xs) a h = omega arith

last?-some : (xs : List ℕ) → 0 < length xs → (a : ℕ) × (last? xs ≡ some a)
last?-some [] h = absurd (omega arith)
last?-some (x ∷ []) h = (x, refl)
last?-some (x ∷ y ∷ xs) h = last?-some (y ∷ xs) (omega arith)

-- The last of a list that ends at an index.
last?-take :
    (i : ℕ) (xs : List ℕ) (a : ℕ) → get_elem? xs i ≡ some a → last? (take (suc i) xs) ≡ some a
last?-take i [] a h = absurd (ground arith)
last?-take zero (x ∷ xs) a h = h
last?-take (suc i) (x ∷ []) a h = absurd (ground arith)
last?-take (suc i) (x ∷ y ∷ xs) a h = last?-take i (y ∷ xs) a h

last?-replaced :
    (front front' rest : List ℕ)
    → last? front ≡ last? front'
    → last? (front ++ rest) ≡ last? (front' ++ rest)
last?-replaced front front' [] h = rw (append-nil front, append-nil front') h
last?-replaced front front' (y ∷ rest) h =
    last?-append front y rest ∙ sym (last?-append front' y rest)

-- A part up to an index is replaced by one that ends at the same node.
replaced :
    (path : NodePath) (i a : ℕ) (part : List ℕ)
    → get_elem? path.ids i ≡ some a
    → last? part ≡ some a
    → length part ≤ i + 1
    → (path' : NodePath) × (replace_interval path 0 i part ≡ returns path') × IsShorter path path'
replaced path i a part h e short =
    let front = take (suc i) path.ids in
    let rest = drop (suc i) path.ids in
    let inside = get_elem?-some_lt path.ids i a h in
    let count : length front ≡ i + 1 = omega (arith, length-take {0} (suc i) path.ids) in
    let whole : front ++ rest ≡ path.ids = take-append-drop (suc i) path.ids in
    let same : last? (part ++ rest) ≡ last? (front ++ rest) =
      last?-replaced part front rest (e ∙ sym (last?-take i path.ids a h)) in
    (
      record path { ids = part ++ rest },
      replace_interval_lem path [] front rest part 0 i (sym whole) (omega arith)
          (omega (arith, count)) (omega arith),
      record {
        same_destination = same ∙ ap last? whole;
        no_longer = omega (arith, length-append {0} part rest, length-drop {0} (suc i) path.ids);
        same_state = refl;
      },
    )

IsShorter-self : (path : NodePath) → IsShorter path path
IsShorter-self path = record { same_destination = refl; no_longer = omega arith; same_state = refl }

IsShorter-chain : (p q r : NodePath) → IsShorter p q → IsShorter q r → IsShorter p r
IsShorter-chain p q r v w = record {
  same_destination = w.same_destination ∙ v.same_destination;
  no_longer = omega (arith, v.no_longer, w.no_longer);
  same_state = w.same_state ∙ v.same_state;
}

-- A path with nodes has a size, whatever its state is.
pub size_lem :
    (path : NodePath) (a : ℕ) → last? path.ids ≡ some a → size path ≡ returns (length path.ids)
unfolding size
size_lem path a h = ground (arith, filled path.ids h)
  where
    filled : (ids : List ℕ) → last? ids ≡ some a → is_empty ids ≡ false
    filled [] k = absurd (ground arith)
    filled (x ∷ ids) k = refl

module _ {T : Type 0} (table : RoutingTable T) (t : T) (un : UlnTable) (u : un.Table) where
  -- What the tables promise: a lookup returns, and a valid contact has a path that leads to it.
  abbrev pub IsKnowing : Type 0
  IsKnowing =
      (id : ℕ)
      → (found : Option Contact) × (table.contact t id ≡ returns found)
        × ((c : Contact)
            → found ≡ some c
            → is_valid_contact c ≡ true
            → (path : NodePath) × (c.path_collection.active_path ≡ some path)
              × (last? path.ids ≡ some id))

  Shortens : (NodePath → Outcome NodePath) → NodePath → Type 0
  Shortens f path = (path' : NodePath) × (f path ≡ returns path') × IsShorter path path'

  neighbor_loop_lem :
      (i : ℕ) (path : NodePath) → i < length path.ids → Shortens (neighbor_loop table t un u i) path
  unfolding neighbor_loop Shortens
  neighbor_loop_lem zero path h = (path, refl, IsShorter-self path)
  neighbor_loop_lem (suc i) path h =
      let (dest_id, e) = get_elem?-inside path.ids (suc i) h in
      elim (Bool-cases (un.contains_id u dest_id)) [
        | inl f ↦
            let (path', g, v) = replaced path (suc i) dest_id (dest_id ∷ []) e refl (omega arith) in
            (path', ground (arith, e, f, g), v)
        | inr f ↦
            let (path', g, v) = neighbor_loop_lem i path (omega arith) in
            (path', ground (arith, e, f, g), v)
      ]

  shorter_path_lem :
      (part_len dest_id : ℕ)
      → IsKnowing
      → (found : Option NodePath) × (shorter_path table t un u part_len dest_id ≡ returns found)
        × ((path : NodePath)
            → found ≡ some path
            → (last? path.ids ≡ some dest_id) × (length path.ids < part_len))
  unfolding shorter_path
  shorter_path_lem part_len dest_id knows =
      let (found, e, good) = knows dest_id in
      elim (Option-cases found) [
        | inl f ↦ (none, ground (arith, e, f), λ path g. absurd (ground (arith, g)))
        | inr (c, f) ↦ elim (Bool-cases (is_valid_contact c)) [
          | inr k ↦ (none, ground (arith, e, f, k), λ path g. absurd (ground (arith, g)))
          | inl k ↦
              let (path, l, ends) = good c f k in
              elim (Bool-cases (ltb (length path.ids) part_len)) [
                | inl m ↦ (
                  some path,
                  ground (arith, e, f, k, l, size_lem path dest_id ends, m),
                  λ path' g.
                      let same : path ≡ path' = ground (arith, g) in
                      subst (λ p. (last? p.ids ≡ some dest_id) × (length p.ids < part_len)) same
                        (ends, ltb→lt _ _ m),
                )
                | inr m ↦ (
                  none,
                  ground (arith, e, f, k, l, size_lem path dest_id ends, m),
                  λ path' g. absurd (ground (arith, g)),
                )
              ]
        ]
      ]

  known_loop_lem :
      (i : ℕ) (path : NodePath)
      → IsKnowing
      → i < length path.ids
      → Shortens (known_loop table t un u i) path
  unfolding known_loop Shortens
  known_loop_lem zero path knows h = (path, refl, IsShorter-self path)
  known_loop_lem (suc i) path knows h =
      let (dest_id, e) = get_elem?-inside path.ids (suc i) h in
      let (found, f, good) = shorter_path_lem (suc i + 1) dest_id knows in
      elim (Option-cases found) [
        | inl k ↦
            let (path', g, v) = known_loop_lem i path knows (omega arith) in
            (path', ground (arith, e, f, k, g), v)
        | inr (known, k) ↦
            let (ends, short) = good known k in
            let (path', g, v) =
              replaced path (suc i) dest_id known.ids e ends (omega (arith, short)) in
            (path', ground (arith, e, f, k, g), v)
      ]

-- The simplification of a path with nodes returns a path in the same state to the same node that is not
-- longer, whatever the tables know: it panics nowhere if the table has a path that leads to
-- the contact for every valid contact.
pub simplify_lem :
    {T : Type 0} (table : RoutingTable T) (t : T) (un : UlnTable) (u : un.Table) (path : NodePath)
    (a : ℕ)
    → IsKnowing table t un u
    → last? path.ids ≡ some a
    → (path' : NodePath) × (simplify table t un u path ≡ returns path') × IsShorter path path'
unfolding simplify Shortens
simplify_lem table t un u path a knows ends = elim (Bool-cases (leb (length path.ids) 1)) [
  | inl e ↦ (path, ground (arith, size_lem path a ends, e), IsShorter-self path)
  | inr e ↦
      let (path', f, v) =
        neighbor_loop_lem table t un u (length path.ids - 1) path (ground arith) in
      let ends' : last? path'.ids ≡ some a = v.same_destination ∙ ends in
      let inside = last?-length path'.ids a ends' in
      let (path'', k, w) =
        known_loop_lem table t un u (length path'.ids - 1) path' knows (omega arith) in
      (
        path'',
        ground (arith, size_lem path a ends, e, f, size_lem path' a ends', k),
        IsShorter-chain path path' path'' v w,
      )
]
