-- ===== src/PathProbing/Choice.antt =====
-- Which contacts of a bucket are probed.
use kira_rust.Prelude.{
  ℕ, ◌≤◌, ◌≡◌, refl, sym, ap, ◌∙◌, subst, List, [], ◌∷◌, arith, length, min, take, Outcome, returns,
  ◌>>=◌,
}
use mathlib.Core.List.{reverse}
use kira_rust.Contact.{Contact}
use kira_rust.Contact.Assessment.{IsContact}
use kira_rust.PathProbing.{considered_contacts, insert_sorted, sort_by_last_seen, probed}
use kira_rust.PathProbing.Armed.{returns_inv}
use kira_rust.PathProbing.Order.{
  length-first, IsSorted, sort_by_last_seen-IsSorted, NoneLater-sorted, newest_lem, inserted_head,
  NoneLater,
}
use kira_rust.PathProbing.Considered.{
  All-reverse, All-sorted, considered_lem, considered_contacts-Counts, Eligible, All, IsChosen,
  Counts,
}

pub data Choice (probe_age now : ℕ) (contacts : List Contact) : List Contact → Type 0 where
  nothing : All (λ c. ¬ Eligible probe_age now c) contacts → Choice probe_age now contacts []
  newest :
      (d : Contact) (rest : List Contact)
      → length rest ≤ 1
      → All (IsChosen probe_age now contacts) (d ∷ rest)
      → All (λ c. Eligible probe_age now c → c.last_seen ≤ d.last_seen) contacts
      → Choice probe_age now contacts (d ∷ rest)

take_one :
    (P : Contact → Type 0) (xs : List Contact)
    → All P xs
    → (length (take 1 xs) ≤ 1) × All P (take 1 xs)
take_one P [] v = (omega arith, tt)
take_one P (x ∷ xs) (h, v) = (omega arith, (h, tt))

first_newest :
    (probe_age now : ℕ) (contacts : List Contact)
    → All IsContact contacts
    → (ds : List Contact) × (probed probe_age now contacts ≡ returns ds)
      × Choice probe_age now contacts ds
unfolding probed sort_by_last_seen
first_newest probe_age now contacts v =
    let (cs, f, chosen, none_later, empty) = considered_lem probe_age now contacts v in
    go cs f chosen none_later empty
  where
    go :
        (cs : List Contact)
        → considered_contacts probe_age now contacts ≡ returns cs
        → All (IsChosen probe_age now contacts) cs
        → ((time : ℕ)
            → NoneLater time cs
            → All (λ c. Eligible probe_age now c → c.last_seen ≤ time) contacts)
        → (cs ≡ [] → All (λ c. ¬ Eligible probe_age now c) contacts)
        → (ds : List Contact) × (probed probe_age now contacts ≡ returns ds)
          × Choice probe_age now contacts ds
    go [] f chosen none_later empty = ([], rw f refl, nothing (empty refl))
    go (c ∷ considered) f chosen none_later empty =
        let sorted = sort_by_last_seen considered in
        let (b, more, e) = inserted_head c sorted in
        let w : IsSorted (b ∷ more) =
          subst IsSorted e (sort_by_last_seen-IsSorted (c ∷ considered)) in
        let (d, rest, same, late) = newest_lem b more w in
        let all : NoneLater d.last_seen (insert_sorted c sorted) =
          subst (NoneLater d.last_seen) (sym e) late in
        let P = IsChosen probe_age now contacts in
        let kept : All P (d ∷ rest) =
          subst (All P) (ap (λ (xs : List Contact). reverse xs) e ∙ same)
            (All-reverse P (insert_sorted c sorted) (All-sorted P (c ∷ considered) chosen)) in
        let (short, kept') = take_one P rest kept.1 in
        (
          d ∷ take 1 rest,
          rw f (
              ap (λ (xs : List Contact). returns (take 2 (reverse xs))) e
              ∙ ap (λ (xs : List Contact). returns (take 2 xs)) same),
          newest d (take 1 rest) short (kept.0, kept')
              (none_later d.last_seen (NoneLater-sorted d.last_seen (c ∷ considered) all)),
        )

-- Of the contacts of a bucket, which satisfy their invariant, two are probed that are old enough, valid and
-- no underlay neighbors, or all of these if there are fewer than two, and the first of them is the
-- one of all these that was seen last.
pub probed_newest :
    (probe_age now : ℕ) (contacts : List Contact)
    → All IsContact contacts
    → (ds : List Contact) × (n : ℕ) × (probed probe_age now contacts ≡ returns ds)
      × Choice probe_age now contacts ds
      × Counts probe_age now contacts n
      × (length ds ≡ min 2 n)
unfolding probed
probed_newest probe_age now contacts v =
    let (ds, e, choice) = first_newest probe_age now contacts v in
    let (cs, f, count) = considered_contacts-Counts probe_age now contacts v in
    let same : returns (take 2 (reverse (sort_by_last_seen cs))) ≡ returns ds =
      sym (
        ap
          (λ (o : Outcome (List Contact)).
            o >>= λ ks. returns (take 2 (reverse (sort_by_last_seen ks))))
          f)
      ∙ e in
    (ds, length cs, e, choice, count, ap length (sym (returns_inv _ _ same)) ∙ length-first cs)
