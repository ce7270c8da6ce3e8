-- ===== src/PathCollection/Promotion.antt =====
-- What the promotion of a proposed path leaves, and where the former active path goes.
use kira_rust.Prelude.{
  ℕ, suc, ◌≡◌, refl, sym, ap, ◌∙◌, ◌≢◌, ◌⊎◌, inl, inr, true, false, Option, none, some, List, [],
  ◌∷◌, arith, Bool-cases, Option-cases, length, get_elem?, returns,
}
use kira_rust.Path.{
  NodePath, valid, is_valid, is_same_path_as, same_ids, set_valid, set_state, update_last_validated,
}
use kira_rust.PathCollection.{
  PathCollection, max_alternative_paths, fill_free, replace_last, move_active_to_alternative,
  activate, set_proposed_to_active,
}

-- The array of the alternatives has its fixed length.
abbrev pub IsSized : PathCollection → Type 0
IsSized c = length c.alternative_paths ≡ max_alternative_paths

-- A place of the alternatives holds the path.
abbrev pub Holds : List (Option NodePath) → Option NodePath → Type 0
Holds paths p = (i : ℕ) × (get_elem? paths i ≡ some p)

-- The former paths that are still there: all if a place was free, else all but the last.
fill_free_lem :
    (place : Option NodePath) (paths filled : List (Option NodePath))
    → fill_free place paths ≡ some filled
    → (length filled ≡ length paths) × Holds filled place
unfolding fill_free
fill_free_lem place [] filled e = absurd (ground arith)
fill_free_lem place (none ∷ paths) [] e = absurd (ground arith)
fill_free_lem place (none ∷ paths) (q ∷ filled) e = (ground arith, (0, ground arith))
fill_free_lem place (some p ∷ paths) filled e = elim (Option-cases (fill_free place paths)) [
  | inl f ↦ absurd (ground arith)
  | inr (rest, f) ↦
      let (n, (i, h)) = fill_free_lem place paths rest f in
      let g : filled ≡ some p ∷ rest = ground arith in (rw g (omega (arith, n)), (suc i, rw g h))
]

replace_last_lem :
    (place : Option NodePath) (paths : List (Option NodePath))
    → paths ≢ []
    → (replaced : List (Option NodePath)) × (replace_last place paths ≡ returns replaced)
      × (length replaced ≡ length paths)
      × Holds replaced place
unfolding replace_last
replace_last_lem place [] h = absurd (h refl)
replace_last_lem place (p ∷ []) h = (place ∷ [], refl, refl, (0, refl))
replace_last_lem place (p ∷ q ∷ paths) h =
    let (rest, e, n, (i, k)) = replace_last_lem place (q ∷ paths) (λ f. cc) in
    (p ∷ rest, rw e, omega (arith, n), (suc i, k))

-- The active path is put among the alternatives; there is always a place for it.
pub move_active_to_alternative_lem :
    (c : PathCollection)
    → IsSized c
    → (paths : List (Option NodePath)) × (move_active_to_alternative c
        ≡ returns (record c { active_path = none; alternative_paths = paths }))
      × (length paths ≡ max_alternative_paths)
      × Holds paths c.active_path
unfolding move_active_to_alternative
move_active_to_alternative_lem c s =
    elim (Option-cases (fill_free c.active_path c.alternative_paths)) [
      | inr (paths, e) ↦
          let (n, k) = fill_free_lem c.active_path c.alternative_paths paths e in
          (paths, ground (arith, e), n ∙ s, k)
      | inl e ↦
          let (paths, f, n, k) =
            replace_last_lem c.active_path c.alternative_paths (λ g. ground arith) in
          (paths, ground (arith, e, f), n ∙ s, k)
    ]

pub same_ids-eq : (as' bs : List ℕ) → same_ids as' bs ≡ true → as' ≡ bs
same_ids-eq [] [] h = refl
same_ids-eq [] (b ∷ bs) h = cc
same_ids-eq (a ∷ as') [] h = cc
same_ids-eq (a ∷ as') (b ∷ bs) h = ground (arith, same_ids-eq as' bs)

pub is_same_path_as-eq : (p q : NodePath) → is_same_path_as p q ≡ true → p.ids ≡ q.ids
unfolding is_same_path_as
is_same_path_as-eq p q h = same_ids-eq p.ids q.ids h

is_valid_touched :
    (p : NodePath) (time : Option ℕ) → is_valid (record p { last_validated = time }) ≡ is_valid p
unfolding is_valid
is_valid_touched p time = refl

-- The active path that the promotion of `p` leaves.
pub record IsPromoted (p : NodePath) (now : ℕ) (c : PathCollection) : Type 0 where
  pub path : NodePath
  pub active : c.active_path ≡ some path
  pub same : path.ids ≡ p.ids
  pub validated : is_valid path ≡ true
  pub seen : path.last_validated ≡ some now
  pub taken : c.proposed_path ≡ none

activate_lem :
    (c : PathCollection) (p : NodePath) (now : ℕ)
    → c.proposed_path ≡ some p
    → (c' : PathCollection) × (activate c now ≡ returns c')
      × IsPromoted p now c'
      × (c'.alternative_paths ≡ c.alternative_paths)
unfolding activate set_valid set_state update_last_validated is_valid
activate_lem c p now e =
    let q : NodePath = record p { path_state = valid; last_validated = some now } in
    (
      record c { active_path = some q; proposed_path = none },
      rw e,
      record { path = q; active = refl; same = refl; validated = refl; seen = refl; taken = refl },
      refl,
    )

-- What became of a former active path: it was not valid, or it has the nodes of the promoted one, or it
-- is one of the alternatives.
abbrev pub Kept : Option NodePath → NodePath → PathCollection → Type 0
Kept none p c' = Unit
Kept (some old) p c' =
    (is_valid old ≡ false) ⊎ (is_same_path_as old p ≡ true) ⊎ Holds c'.alternative_paths (some old)

abbrev Promotes : PathCollection → NodePath → ℕ → Option NodePath → Type 0
Promotes c p now old =
    (c' : PathCollection) × (set_proposed_to_active c now ≡ returns c')
    × IsPromoted p now c'
    × IsSized c'
    × Kept old p c'

module _ (c : PathCollection) (p : NodePath) (now : ℕ) (s : IsSized c)
    (e : c.proposed_path ≡ some p) where
  promote_first : c.active_path ≡ none → Promotes c p now none
  unfolding set_proposed_to_active
  promote_first f =
      let (c', g, promoted, k) = activate_lem c p now e in
      (c', ground (arith, f, g), promoted, ap length k ∙ s, tt)

  promote_over_invalid :
      (old : NodePath)
      → c.active_path ≡ some old
      → is_valid old ≡ false
      → Promotes c p now (some old)
  unfolding set_proposed_to_active
  promote_over_invalid old f v =
      let (c', g, promoted, k) = activate_lem c p now e in
      (c', ground (arith, f, g, v), promoted, ap length k ∙ s, inl v)

  promote_same :
      (old : NodePath)
      → c.active_path ≡ some old
      → is_valid old ≡ true
      → is_same_path_as old p ≡ true
      → Promotes c p now (some old)
  unfolding set_proposed_to_active update_last_validated
  promote_same old f v d =
      let q : NodePath = record old { last_validated = some now } in
      (
        record c { active_path = some q; proposed_path = none },
        ground (arith, f, v, d, e),
        record {
          path = q;
          active = refl;
          same = is_same_path_as-eq old p d;
          validated = is_valid_touched old (some now) ∙ v;
          seen = refl;
          taken = refl;
        },
        s,
        inr (inl d),
      )

  promote_other :
      (old : NodePath)
      → c.active_path ≡ some old
      → is_valid old ≡ true
      → is_same_path_as old p ≡ false
      → Promotes c p now (some old)
  unfolding set_proposed_to_active
  promote_other old f v d =
      let (paths, g, n, held) = move_active_to_alternative_lem c s in
      let moved : PathCollection = record c { active_path = none; alternative_paths = paths } in
      let (c', h, promoted, k) = activate_lem moved p now e in
      (
        c',
        ground (arith, f, v, d, e, g, h),
        promoted,
        ap length k ∙ n,
        inr (inr (rw (k, sym f) held)),
      )

-- A proposed path is promoted without a panic: the active path then has its nodes, is valid and was just
-- validated, no path is proposed any more, and a different valid path that was active before is kept
-- among the alternatives.
pub set_proposed_to_active_lem :
    (c : PathCollection) (p : NodePath) (now : ℕ)
    → IsSized c
    → c.proposed_path ≡ some p
    → (c' : PathCollection) × (set_proposed_to_active c now ≡ returns c')
      × IsPromoted p now c'
      × IsSized c'
      × Kept c.active_path p c'
set_proposed_to_active_lem c p now s e = promote c.active_path refl
  where
    promote : (old : Option NodePath) → c.active_path ≡ old → Promotes c p now old
    promote none f = promote_first c p now s e f
    promote (some old) f = elim (Bool-cases (is_valid old)) [
      | inr v ↦ promote_over_invalid c p now s e old f v
      | inl v ↦ elim (Bool-cases (is_same_path_as old p)) [
        | inl d ↦ promote_same c p now s e old f v d
        | inr d ↦ promote_other c p now s e old f v d
      ]
    ]
