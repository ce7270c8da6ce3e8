-- ===== src/Contact/Assessment.antt =====
-- Which paths a contact holds, and what a candidate for its path changes.
use kira_rust.Prelude.{
  ℕ, ◌≡◌, refl, sym, ap, ◌∙◌, subst, ◌↔◌, ◌⊎◌, inl, inr, Bool, true, false, Option, none, some,
  List, arith, if◌then◌else◌, Bool-cases, Option-cases, returns,
}
use kira_rust.Path.{NodePath, is_valid, is_same_path_as, is_better_than, last?}
use kira_rust.PathCollection.{set_active_path, set_proposed_path}
use kira_rust.PathCollection.Promotion.{IsSized, is_same_path_as-eq, set_proposed_to_active_lem}
use kira_rust.Contact.{
  Contact, valid, dead, path_suitable, accept_validated, propose, assess_path_candidate_and_update,
}
use kira_rust.Contact.Suitability.{
  is_better_than_total, path_suitable_of, LeadsTo, HasActive, IsBetter, Suits,
}

pub record IsContact (c : Contact) : Type 0 where
  pub sized : IsSized c.path_collection
  pub active : LeadsTo c.dest_id c.path_collection.active_path
  pub proposed : LeadsTo c.dest_id c.path_collection.proposed_path
  pub usable : HasActive c.state c.path_collection.active_path

-- A path that is not validated has to be better than the proposed one, if there is one.
abbrev pub Improves : (List ℕ → ℕ) → NodePath → Option NodePath → Type 0
Improves rank p none = Unit
Improves rank p (some q) = IsBetter rank p q

-- The candidates that change a contact.
abbrev pub IsTaken : (List ℕ → ℕ) → Contact → NodePath → Type 0
IsTaken rank c p =
    Suits rank p c.state c.path_collection.active_path
    × ((is_valid p ≡ true) ⊎ Improves rank p c.path_collection.proposed_path)

-- The contact has become valid over the nodes of the candidate.
pub record IsActivated (p : NodePath) (c : Contact) : Type 0 where
  pub is_valid_now : c.state ≡ valid
  pub path : NodePath
  pub active : c.path_collection.active_path ≡ some path
  pub same : path.ids ≡ p.ids
  pub validated : is_valid path ≡ true

abbrev Accepts : Contact → NodePath → ℕ → Type 0
Accepts c p now =
    (c' : Contact) × (accept_validated c p now ≡ returns (c', true))
    × IsContact c'
    × IsActivated p c'

module _ (c : Contact) (p : NodePath) (now : ℕ) (v : IsContact c) (h : last? p.ids ≡ some c.dest_id)
    (valid_path : is_valid p ≡ true) where
  accept_new :
      accept_validated c p now
        ≡ returns (
          record c { path_collection = set_active_path c.path_collection p; state = valid },
          true,
        )
      → Accepts c p now
  unfolding set_active_path
  accept_new e = (
    record c { path_collection = record c.path_collection { active_path = some p }; state = valid },
    e,
    record { sized = v.sized; active = h; proposed = v.proposed; usable = tt },
    record { is_valid_now = refl; path = p; active = refl; same = refl; validated = valid_path },
  )

  accept_proposed :
      (q : NodePath)
      → c.path_collection.proposed_path ≡ some q
      → is_same_path_as p q ≡ true
      → Accepts c p now
  unfolding accept_validated
  accept_proposed q e d =
      let (paths, f, promoted, sized, kept) =
        set_proposed_to_active_lem c.path_collection q now v.sized e in
      let same : promoted.path.ids ≡ p.ids = promoted.same ∙ sym (is_same_path_as-eq p q d) in
      (
        record c { path_collection = paths; state = valid },
        ground (arith, e, d, f),
        record {
          sized = sized;
          active = subst (LeadsTo c.dest_id) (sym promoted.active) (ap last? same ∙ h);
          proposed = subst (LeadsTo c.dest_id) (sym promoted.taken) tt;
          usable = subst (HasActive valid) (sym promoted.active) tt;
        },
        record {
          is_valid_now = refl;
          path = promoted.path;
          active = promoted.active;
          same = same;
          validated = promoted.validated;
        },
      )

  accept_validated_lem : Accepts c p now
  unfolding accept_validated
  accept_validated_lem = elim (Option-cases c.path_collection.proposed_path) [
    | inl e ↦ accept_new (ground (arith, e))
    | inr (q, e) ↦ elim (Bool-cases (is_same_path_as p q)) [
      | inl d ↦ accept_proposed q e d
      | inr d ↦ accept_new (ground (arith, e, d))
    ]
  ]

-- What a candidate can change: a validated one becomes the active path, another one the proposed path,
-- or nothing changes.
abbrev pub Assessed : Contact → NodePath → Contact → Bool → Type 0
Assessed c p c' b =
    ((b ≡ true) × (is_valid p ≡ true) × IsActivated p c')
    ⊎ ((b ≡ true)
        × (is_valid p ≡ false)
        × (c' ≡ record c { path_collection = set_proposed_path c.path_collection p }))
    ⊎ ((b ≡ false) × (c' ≡ c))

module _ (rank : List ℕ → ℕ) (c : Contact) (p : NodePath) (now : ℕ) (v : IsContact c)
    (h : last? p.ids ≡ some c.dest_id) where
  should_set_total :
      (b : Bool) × (propose rank c p
        ≡ returns (
            if b
            then (record c { path_collection = set_proposed_path c.path_collection p }, true)
            else (c, false)))
      × ((b ≡ true) ↔ Improves rank p c.path_collection.proposed_path)
  unfolding propose
  should_set_total = go c.path_collection.proposed_path refl v.proposed
    where
      go :
          (proposed : Option NodePath)
          → c.path_collection.proposed_path ≡ proposed
          → LeadsTo c.dest_id proposed
          → (b : Bool) × (propose rank c p
              ≡ returns (
                  if b
                  then (record c { path_collection = set_proposed_path c.path_collection p }, true)
                  else (c, false)))
            × ((b ≡ true) ↔ Improves rank p c.path_collection.proposed_path)
      go none e l = (true, ground (arith, e), (λ g. rw e tt, λ g. refl))
      go (some q) e l =
          let (b, f, better) = is_better_than_total rank p q c.dest_id h l in
          (b, ground (arith, e, f), subst (λ x. (b ≡ true) ↔ Improves rank p x) (sym e) better)

  propose_lem :
      is_valid p ≡ false
      → (c' : Contact) × (b : Bool) × (propose rank c p ≡ returns (c', b))
        × IsContact c'
        × Assessed c p c' b
        × ((b ≡ true) ↔ Improves rank p c.path_collection.proposed_path)
  unfolding set_proposed_path
  propose_lem not_valid = let (b, e, better) = should_set_total in go b e better
    where
      go :
          (b : Bool)
          → propose rank c p
            ≡ returns (
                if b
                then (record c { path_collection = set_proposed_path c.path_collection p }, true)
                else (c, false))
          → ((b ≡ true) ↔ Improves rank p c.path_collection.proposed_path)
          → (c' : Contact) × (b' : Bool) × (propose rank c p ≡ returns (c', b'))
            × IsContact c'
            × Assessed c p c' b'
            × ((b' ≡ true) ↔ Improves rank p c.path_collection.proposed_path)
      go true e better = (
        record c { path_collection = set_proposed_path c.path_collection p },
        true,
        e,
        record { sized = v.sized; active = v.active; proposed = h; usable = v.usable },
        inr (inl (refl, not_valid, refl)),
        better,
      )
      go false e better = (c, false, e, v, inr (inr (refl, refl)), better)

-- The assessment of a candidate that leads to the contact never panics, keeps the contact's
-- invariants, and either makes a validated candidate the active path of a now valid contact, or makes
-- another one the proposed path, or leaves the contact as it is; it tells which. It takes exactly the
-- candidates that suit the state of the contact, if they are validated or improve the proposed path:
-- those of a contact that is neither valid nor dead, and those of a valid one that are better than its
-- active path, where a path is better if it is shorter, or as long and ranked before.
pub assess_path_candidate_and_update_lem :
    (rank : List ℕ → ℕ) (c : Contact) (p : NodePath) (now : ℕ)
    → IsContact c
    → last? p.ids ≡ some c.dest_id
    → (c' : Contact) × (b : Bool) × (assess_path_candidate_and_update rank c p now
        ≡ returns (c', b))
      × IsContact c'
      × Assessed c p c' b
      × ((b ≡ true) ↔ IsTaken rank c p)
unfolding assess_path_candidate_and_update
assess_path_candidate_and_update_lem rank c p now v h =
    let (suits, e, suits_iff) =
      path_suitable_of rank c p h c.state c.path_collection.active_path refl refl v.usable
        v.active in
    elim (Bool-cases suits) [
      | inr f ↦ (
        c,
        false,
        ground (arith, e, f),
        v,
        inr (inr (refl, refl)),
        (
          λ g. ground (arith, g),
          λ taken. let clash : suits ≡ true = suits_iff.1 taken.0 in ground (arith, clash, f),
        ),
      )
      | inl f ↦ elim (Bool-cases (is_valid p)) [
        | inl g ↦
            let (c', k, w, activated) = accept_validated_lem c p now v h g in
            (
              c',
              true,
              ground (arith, e, f, g, k),
              w,
              inl (refl, g, activated),
              (λ _. (suits_iff.0 f, inl g), λ _. refl),
            )
        | inr g ↦
            let (c', b, k, w, assessed, improves) = propose_lem rank c p now v h g in
            (
              c',
              b,
              ground (arith, e, f, g, k),
              w,
              assessed,
              (
                λ l. (suits_iff.0 f, inr (improves.0 l)),
                λ taken. elim (taken.1) [
                  | inl is_valid_p ↦ absurd (ground (arith, g, is_valid_p))
                  | inr better ↦ improves.1 better
                ],
              ),
            )
      ]
    ]

-- A dead contact takes no candidate.
pub assess_path_candidate_and_update_dead :
    (rank : List ℕ → ℕ) (c : Contact) (p : NodePath) (now : ℕ)
    → c.state ≡ dead
    → assess_path_candidate_and_update rank c p now ≡ returns (c, false)
unfolding assess_path_candidate_and_update path_suitable
assess_path_candidate_and_update_dead rank c p now e = ground (arith, e)

-- A valid contact refuses a candidate that is not better than its active path, and stays as it is.
pub assess_path_candidate_and_update_worse :
    (rank : List ℕ → ℕ) (c : Contact) (p active : NodePath) (now : ℕ)
    → c.state ≡ valid
    → c.path_collection.active_path ≡ some active
    → is_better_than rank p active ≡ returns false
    → assess_path_candidate_and_update rank c p now ≡ returns (c, false)
unfolding assess_path_candidate_and_update path_suitable
assess_path_candidate_and_update_worse rank c p active now e f g = ground (arith, e, f, g)
