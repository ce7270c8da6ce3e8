-- ===== src/PathProbing/Order.antt =====
-- The order of the contacts of a bucket by the time when they were last seen.
use kira_rust.Prelude.{
  ℕ, suc, min, length, take, length-take, length-append, ◌≤◌, dec_le, ◌≡◌, refl, ap, ◌∙◌, subst,
  inl, inr, List, [], ◌∷◌, ◌++◌, arith, leb, Bool-cases,
}
use mathlib.Core.List.{reverse, reverse-cons}
use kira_rust.Contact.{Contact}
use kira_rust.PathProbing.{insert_sorted, sort_by_last_seen}

-- No contact was seen later.
abbrev pub NoneLater : ℕ → List Contact → Type 0
NoneLater time [] = Unit
NoneLater time (c ∷ contacts) = (c.last_seen ≤ time) × NoneLater time contacts

abbrev NoneEarlier : ℕ → List Contact → Type 0
NoneEarlier time [] = Unit
NoneEarlier time (c ∷ contacts) = (time ≤ c.last_seen) × NoneEarlier time contacts

abbrev pub IsSorted : List Contact → Type 0
IsSorted [] = Unit
IsSorted (c ∷ contacts) = NoneEarlier c.last_seen contacts × IsSorted contacts

abbrev HasHead : List Contact → Type 0
HasHead contacts = (c : Contact) × (rest : List Contact) × (contacts ≡ c ∷ rest)

NoneEarlier-weaker :
    (m n : ℕ) (contacts : List Contact) → m ≤ n → NoneEarlier n contacts → NoneEarlier m contacts
NoneEarlier-weaker m n [] h v = tt
NoneEarlier-weaker m n (c ∷ contacts) h (e, v) =
    (omega (arith, h, e), NoneEarlier-weaker m n contacts h v)

NoneEarlier-inserted :
    (time : ℕ) (c : Contact) (contacts : List Contact)
    → time ≤ c.last_seen
    → NoneEarlier time contacts
    → NoneEarlier time (insert_sorted c contacts)
unfolding insert_sorted
NoneEarlier-inserted time c [] h v = (h, tt)
NoneEarlier-inserted time c (d ∷ contacts) h (e, v) =
    elim (Bool-cases (leb c.last_seen d.last_seen)) [
      | inl f ↦
          let here : c ∷ d ∷ contacts ≡ insert_sorted c (d ∷ contacts) = ground (arith, f) in
          subst (NoneEarlier time) here (h, (e, v))
      | inr f ↦
          let here : d ∷ insert_sorted c contacts ≡ insert_sorted c (d ∷ contacts) =
            ground (arith, f) in
          subst (NoneEarlier time) here (e, NoneEarlier-inserted time c contacts h v)
    ]

insert_sorted-IsSorted :
    (c : Contact) (contacts : List Contact)
    → IsSorted contacts
    → IsSorted (insert_sorted c contacts)
unfolding insert_sorted
insert_sorted-IsSorted c [] v = (tt, tt)
insert_sorted-IsSorted c (d ∷ contacts) (e, v) = elim (dec_le c.last_seen d.last_seen) [
  | yes f ↦
      let here : c ∷ d ∷ contacts ≡ insert_sorted c (d ∷ contacts) = ground (arith, f) in
      subst IsSorted here ((f, NoneEarlier-weaker c.last_seen d.last_seen contacts f e), (e, v))
  | no f ↦
      let here : d ∷ insert_sorted c contacts ≡ insert_sorted c (d ∷ contacts) =
        ground (arith, f) in
      subst IsSorted here (
        NoneEarlier-inserted d.last_seen c contacts (omega (arith, f)) e,
        insert_sorted-IsSorted c contacts v,
      )
]

pub sort_by_last_seen-IsSorted : (contacts : List Contact) → IsSorted (sort_by_last_seen contacts)
unfolding sort_by_last_seen
sort_by_last_seen-IsSorted [] = tt
sort_by_last_seen-IsSorted (c ∷ contacts) =
    insert_sorted-IsSorted c (sort_by_last_seen contacts) (sort_by_last_seen-IsSorted contacts)

NoneLater-inserted :
    (time : ℕ) (c : Contact) (contacts : List Contact)
    → NoneLater time (insert_sorted c contacts)
    → (c.last_seen ≤ time) × NoneLater time contacts
unfolding insert_sorted
NoneLater-inserted time c [] v = v
NoneLater-inserted time c (d ∷ contacts) v = elim (Bool-cases (leb c.last_seen d.last_seen)) [
  | inl e ↦
      let here : insert_sorted c (d ∷ contacts) ≡ c ∷ d ∷ contacts = ground (arith, e) in
      subst (NoneLater time) here v
  | inr e ↦
      let here : insert_sorted c (d ∷ contacts) ≡ d ∷ insert_sorted c contacts =
        ground (arith, e) in
      let (first, w) = subst (NoneLater time) here v in
      let (h, rest) = NoneLater-inserted time c contacts w in (h, (first, rest))
]

pub NoneLater-sorted :
    (time : ℕ) (contacts : List Contact)
    → NoneLater time (sort_by_last_seen contacts)
    → NoneLater time contacts
unfolding sort_by_last_seen
NoneLater-sorted time [] v = tt
NoneLater-sorted time (c ∷ contacts) v =
    let (h, w) = NoneLater-inserted time c (sort_by_last_seen contacts) v in
    (h, NoneLater-sorted time contacts w)

-- The head of a sorted list that is reversed.
pub newest_lem :
    (c : Contact) (contacts : List Contact)
    → IsSorted (c ∷ contacts)
    → (d : Contact) × (rest : List Contact) × (reverse (c ∷ contacts) ≡ d ∷ rest)
      × NoneLater d.last_seen (c ∷ contacts)
newest_lem c [] v = (c, [], refl, (omega arith, tt))
newest_lem c (e ∷ contacts) (h, v) =
    let (d, rest, same, w) = newest_lem e contacts v in
    (
      d,
      rest ++ c ∷ [],
      reverse-cons c (e ∷ contacts) ∙ ap (λ (xs : List Contact). xs ++ c ∷ []) same,
      (omega (arith, h.0, w.0), w),
    )

pub inserted_head : (c : Contact) (contacts : List Contact) → HasHead (insert_sorted c contacts)
unfolding insert_sorted
inserted_head c [] = (c, [], refl)
inserted_head c (d ∷ contacts) = elim (Bool-cases (leb c.last_seen d.last_seen)) [
  | inl e ↦ (c, d ∷ contacts, ground (arith, e))
  | inr e ↦ (d, insert_sorted c contacts, ground (arith, e))
]

length-insert_sorted :
    (c : Contact) (contacts : List Contact)
    → length (insert_sorted c contacts) ≡ suc (length contacts)
unfolding insert_sorted
length-insert_sorted c [] = refl
length-insert_sorted c (d ∷ contacts) = ground (arith, length-insert_sorted c contacts)

length-sort_by_last_seen :
    (contacts : List Contact) → length (sort_by_last_seen contacts) ≡ length contacts
unfolding sort_by_last_seen
length-sort_by_last_seen [] = refl
length-sort_by_last_seen (c ∷ contacts) =
    length-insert_sorted c (sort_by_last_seen contacts) ∙ ap suc (length-sort_by_last_seen contacts)

length-reverse : (contacts : List Contact) → length (reverse contacts) ≡ length contacts
length-reverse [] = refl
length-reverse (c ∷ contacts) = omega (
  arith,
  ap length (reverse-cons c contacts),
  length-append (reverse contacts) (c ∷ []),
  length-reverse contacts,
)

pub length-first :
    (contacts : List Contact)
    → length (take 2 (reverse (sort_by_last_seen contacts))) ≡ min 2 (length contacts)
length-first contacts =
    length-take 2 (reverse (sort_by_last_seen contacts))
    ∙ ap (min 2) (length-reverse (sort_by_last_seen contacts) ∙ length-sort_by_last_seen contacts)
