-- ===== src/PathProbing/Considered.antt =====
-- What the filter keeps of the contacts of a bucket, and how many these are.
use kira_rust.Prelude.{
  ℕ, suc, ◌-◌, ◌≤◌, ◌≡◌, refl, sym, subst, ◌↔◌, inl, inr, Bool, true, false, ◌&&◌, Option, none,
  some, List, [], ◌∷◌, ◌++◌, arith, leb, ◌==◌, Bool-cases, length, get_elem?, returns,
}
use mathlib.Core.List.{reverse, reverse-cons}
use kira_rust.Path.{NodePath}
use kira_rust.Contact.{Contact, is_valid_contact, is_uln}
use kira_rust.Contact.Assessment.{IsContact}
use kira_rust.Contact.Suitability.{LeadsTo}
use kira_rust.PathSimplifier.Shorter.{size_lem}
use kira_rust.PathProbing.{is_considered, considered_contacts, insert_sorted, sort_by_last_seen}
use kira_rust.PathProbing.Order.{NoneLater}

-- A contact that is old enough, valid and no underlay neighbor.
abbrev pub Eligible : ℕ → ℕ → Contact → Type 0
Eligible probe_age now c =
    (probe_age ≤ now - c.last_seen) × (is_valid_contact c ≡ true) × (is_uln c ≡ returns false)

abbrev pub All : (Contact → Type 0) → List Contact → Type 0
All P [] = Unit
All P (c ∷ contacts) = P c × All P contacts

All-weaker :
    (P Q : Contact → Type 0) (contacts : List Contact)
    → ((c : Contact) → P c → Q c)
    → All P contacts
    → All Q contacts
All-weaker P Q [] f v = tt
All-weaker P Q (c ∷ contacts) f (h, v) = (f c h, All-weaker P Q contacts f v)

All-append : (P : Contact → Type 0) (xs ys : List Contact) → All P xs → All P ys → All P (xs ++ ys)
All-append P [] ys v w = w
All-append P (x ∷ xs) ys (h, v) w = (h, All-append P xs ys v w)

pub All-reverse : (P : Contact → Type 0) (xs : List Contact) → All P xs → All P (reverse xs)
All-reverse P [] v = tt
All-reverse P (x ∷ xs) (h, v) =
    subst (All P) (sym (reverse-cons x xs))
      (All-append P (reverse xs) (x ∷ []) (All-reverse P xs v) (h, tt))

All-inserted :
    (P : Contact → Type 0) (c : Contact) (contacts : List Contact)
    → P c
    → All P contacts
    → All P (insert_sorted c contacts)
unfolding insert_sorted
All-inserted P c [] h v = (h, tt)
All-inserted P c (d ∷ contacts) h (k, v) = elim (Bool-cases (leb c.last_seen d.last_seen)) [
  | inl e ↦
      let here : c ∷ d ∷ contacts ≡ insert_sorted c (d ∷ contacts) = ground (arith, e) in
      subst (All P) here (h, (k, v))
  | inr e ↦
      let here : d ∷ insert_sorted c contacts ≡ insert_sorted c (d ∷ contacts) =
        ground (arith, e) in
      subst (All P) here (k, All-inserted P c contacts h v)
]

pub All-sorted :
    (P : Contact → Type 0) (contacts : List Contact)
    → All P contacts
    → All P (sort_by_last_seen contacts)
unfolding sort_by_last_seen
All-sorted P [] v = tt
All-sorted P (c ∷ contacts) (h, v) =
    All-inserted P c (sort_by_last_seen contacts) h (All-sorted P contacts v)

-- At an index of the bucket, and eligible.
abbrev pub IsChosen : ℕ → ℕ → List Contact → Contact → Type 0
IsChosen probe_age now contacts d =
    ((i : ℕ) × (get_elem? contacts i ≡ some d)) × Eligible probe_age now d

module _ (probe_age now : ℕ) where
  is_considered_lem :
      (c : Contact)
      → IsContact c
      → (b : Bool) × (is_considered probe_age now c ≡ returns b)
        × ((b ≡ true) ↔ Eligible probe_age now c)
  unfolding is_considered is_uln
  is_considered_lem c v =
      elim (Bool-cases (leb probe_age (now - c.last_seen) && is_valid_contact c)) [
        | inr e ↦
            (false, ground (arith, e), (λ h. ground (arith, h), λ h. ground (arith, e, h.0, h.1)))
        | inl e ↦ neighbor c.path_collection.active_path refl v.active e
      ]
    where
      neighbor :
          (active : Option NodePath)
          → c.path_collection.active_path ≡ active
          → LeadsTo c.dest_id active
          → (leb probe_age (now - c.last_seen) && is_valid_contact c) ≡ true
          → (b : Bool) × (is_considered probe_age now c ≡ returns b)
            × ((b ≡ true) ↔ Eligible probe_age now c)
      neighbor none f l e = (
        true,
        ground (arith, e, f),
        (λ h. (ground (arith, e), ground (arith, e), ground (arith, f)), λ h. refl),
      )
      neighbor (some q) f l e =
          let n = size_lem q c.dest_id l in
          elim (Bool-cases (length q.ids == 1)) [
            | inl g ↦ (
              false,
              ground (arith, e, f, n, g),
              (λ h. ground (arith, h), λ h. ground (arith, f, n, g, h.2)),
            )
            | inr g ↦ (
              true,
              ground (arith, e, f, n, g),
              (λ h. (ground (arith, e), ground (arith, e), ground (arith, f, n, g)), λ h. refl),
            )
          ]

  -- The filter returns: what it keeps is eligible, and what is eligible is kept.
  pub considered_lem :
      (contacts : List Contact)
      → All IsContact contacts
      → (cs : List Contact) × (considered_contacts probe_age now contacts ≡ returns cs)
        × All (IsChosen probe_age now contacts) cs
        × ((time : ℕ)
            → NoneLater time cs
            → All (λ c. Eligible probe_age now c → c.last_seen ≤ time) contacts)
        × (cs ≡ [] → All (λ c. ¬ Eligible probe_age now c) contacts)
  unfolding considered_contacts
  considered_lem [] v = ([], refl, tt, (λ time w. tt), (λ e. tt))
  considered_lem (c ∷ contacts) (h, v) =
      let (b, e, eligible) = is_considered_lem c h in
      let (cs, f, chosen, none_later, empty) = considered_lem contacts v in
      let chosen' =
        All-weaker (IsChosen probe_age now contacts) (IsChosen probe_age now (c ∷ contacts)) cs
          (λ d k. ((suc (k.0.0), k.0.1), k.1)) chosen in
      elim (Bool-cases b) [
        | inl k ↦ (
          c ∷ cs,
          ground (arith, e, f, k),
          (((0, refl), eligible.0 k), chosen'),
          (λ time w. ((λ g. w.0), none_later time w.1)),
          (λ g. absurd (ground (arith, g))),
        )
        | inr k ↦ (
          cs,
          ground (arith, e, f, k),
          chosen',
          (λ time w. (
            (λ g. let clash : b ≡ true = eligible.1 g in absurd (ground (arith, clash, k))),
            none_later time w,
          )),
          (λ g. ((λ q. let clash : b ≡ true = eligible.1 q in ground (arith, clash, k)), empty g)),
        )
      ]

-- What a choice can be.
-- How many contacts of a bucket are eligible.
pub data Counts (probe_age now : ℕ) : List Contact → ℕ → Type 0 where
  counts_none : Counts probe_age now [] 0
  counts :
      {c : Contact} {contacts : List Contact} {n : ℕ}
      → Eligible probe_age now c
      → Counts probe_age now contacts n
      → Counts probe_age now (c ∷ contacts) (suc n)
  skips :
      {c : Contact} {contacts : List Contact} {n : ℕ}
      → ¬ Eligible probe_age now c
      → Counts probe_age now contacts n
      → Counts probe_age now (c ∷ contacts) n

pub considered_contacts-Counts :
    (probe_age now : ℕ) (contacts : List Contact)
    → All IsContact contacts
    → (cs : List Contact) × (considered_contacts probe_age now contacts ≡ returns cs)
      × Counts probe_age now contacts (length cs)
unfolding considered_contacts
considered_contacts-Counts probe_age now [] v = ([], refl, counts_none)
considered_contacts-Counts probe_age now (c ∷ contacts) (h, v) =
    let (b, e, (fw, bw)) = is_considered_lem probe_age now c h in
    let (cs, f, n) = considered_contacts-Counts probe_age now contacts v in
    elim (Bool-cases b) [
      | inl g ↦ (c ∷ cs, ground (arith, e, f, g), counts (fw g) n)
      | inr g ↦ (cs, ground (arith, e, f, g), skips (λ k. ground (arith, bw k, g)) n)
    ]
