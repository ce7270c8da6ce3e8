-- ===== src/Bucket/Slots.antt =====
-- The invariant of the slots of a bucket, and lookups after a write.
use kira_rust.Prelude.{
  ℕ, suc, ◌≡◌, refl, sym, subst, ◌≢◌, inl, inr, true, false, Option, none, some, List, [], ◌∷◌,
  arith, ◌==◌, if◌then◌else◌, is_some, ==→eq, ==_self, Bool-cases, Option-cases, length, ◌≤◌, zero,
  ◌∙◌,
}
use kira_rust.Contact.{Contact}
use kira_rust.Bucket.{
  any_none, find_id, any_id, count_some, modify_id, fill_entry, take_id, flatten, repeat_none,
}

-- No two slots hold contacts of one node.
abbrev pub IsDistinct : List (Option Contact) → Type 0
IsDistinct [] = Unit
IsDistinct (none ∷ entries) = IsDistinct entries
IsDistinct (some c ∷ entries) = (find_id c.dest_id entries ≡ none) × IsDistinct entries

pub any_id-find_id :
    (id : ℕ) (entries : List (Option Contact)) → any_id id entries ≡ is_some (find_id id entries)
unfolding any_id find_id
any_id-find_id id [] = refl
any_id-find_id id (none ∷ entries) = any_id-find_id id entries
any_id-find_id id (some c ∷ entries) = ground (arith, any_id-find_id id entries)

pub dest_id-find_id :
    (id : ℕ) (entries : List (Option Contact)) (c : Contact)
    → find_id id entries ≡ some c
    → c.dest_id ≡ id
unfolding find_id
dest_id-find_id id [] c h = absurd (ground arith)
dest_id-find_id id (none ∷ entries) c h = dest_id-find_id id entries c h
dest_id-find_id id (some d ∷ entries) c h = ground (arith, dest_id-find_id id entries c)

-- What the free slot's write does: it is refused exactly without a free slot.
pub fill_entry-none :
    (c : Contact) (entries : List (Option Contact))
    → fill_entry c entries ≡ none
    → any_none entries ≡ false
unfolding fill_entry any_none
fill_entry-none c [] h = refl
fill_entry-none c (none ∷ entries) h = absurd (ground arith)
fill_entry-none c (some d ∷ entries) h = ground (arith, fill_entry-none c entries)

abbrev pub IsFilled : Contact → List (Option Contact) → List (Option Contact) → Type 0
IsFilled c entries filled =
    IsDistinct filled
    × (length filled ≡ length entries)
    × (count_some filled ≡ suc (count_some entries))
    × ((id : ℕ) → find_id id filled ≡ (if c.dest_id == id then some c else find_id id entries))

pub fill_entry_lem :
    (c : Contact) (entries filled : List (Option Contact))
    → IsDistinct entries
    → find_id c.dest_id entries ≡ none
    → fill_entry c entries ≡ some filled
    → IsFilled c entries filled
unfolding fill_entry find_id count_some
fill_entry_lem c [] filled v h e = absurd (ground arith)
fill_entry_lem c (none ∷ entries) filled v h e =
    let g : some c ∷ entries ≡ filled = ground arith in
    subst (IsFilled c (none ∷ entries)) g ((h, v), refl, refl, λ id. refl)
fill_entry_lem c (some d ∷ entries) filled v h e = elim (Option-cases (fill_entry c entries)) [
  | inl f ↦ absurd (ground arith)
  | inr (rest, f) ↦
      let g : some d ∷ rest ≡ filled = ground arith in
      let apart : c.dest_id ≢ d.dest_id = λ k. ground (arith, ==_self d.dest_id) in
      let (w, n, m, look) = fill_entry_lem c entries rest v.1 (ground arith) f in
      subst (IsFilled c (some d ∷ entries)) g (
        (ground (arith, look d.dest_id, v.0), w),
        omega (arith, n),
        omega (arith, m),
        λ id. ground (arith, look id),
      )
]

-- What is left and taken.
abbrev pub IsTaken : ℕ → List (Option Contact) → List (Option Contact) × Option Contact → Type 0
IsTaken id entries (rest, taken) =
    (taken ≡ find_id id entries)
    × IsDistinct rest
    × (length rest ≡ length entries)
    × ((id' : ℕ) → find_id id' rest ≡ (if id == id' then none else find_id id' entries))

take_id-hit :
    (id : ℕ) (c : Contact) (entries : List (Option Contact))
    → (c.dest_id == id) ≡ true
    → take_id id (some c ∷ entries) ≡ (none ∷ entries, some c)
unfolding take_id
take_id-hit id c entries k = ground (arith, k)

take_id-miss :
    (id : ℕ) (c : Contact) (entries : List (Option Contact))
    → (c.dest_id == id) ≡ false
    → take_id id (some c ∷ entries) ≡ (some c ∷ (take_id id entries).0, (take_id id entries).1)
unfolding take_id
take_id-miss id c entries k = ground (arith, k)

pub take_id_lem :
    (id : ℕ) (entries : List (Option Contact))
    → IsDistinct entries
    → IsTaken id entries (take_id id entries)
unfolding take_id find_id
take_id_lem id [] v = (refl, tt, refl, λ id'. ground arith)
take_id_lem id (none ∷ entries) v =
    let (e, w, n, look) = take_id_lem id entries v in (e, w, omega (arith, n), look)
take_id_lem id (some c ∷ entries) v = elim (Bool-cases (c.dest_id == id)) [
  | inl k ↦
      subst (IsTaken id (some c ∷ entries)) (sym (take_id-hit id c entries k))
        (ground (arith, k), v.1, refl, λ id'. ground (arith, ==→eq c.dest_id id k, v.0))
  | inr k ↦
      let (e, w, n, look) = take_id_lem id entries v.1 in
      subst (IsTaken id (some c ∷ entries)) (sym (take_id-miss id c entries k)) (
        ground (arith, e, k),
        (ground (arith, look c.dest_id, v.0), w),
        omega (arith, n),
        λ id'. ground (arith, look id', k),
      )
]

-- What a write over the contact of a node leaves, if the new contact's node is not there.
abbrev pub IsReplaced : ℕ → Contact → List (Option Contact) → List (Option Contact) → Type 0
IsReplaced id c entries replaced =
    IsDistinct replaced
    × (length replaced ≡ length entries)
    × ((id' : ℕ)
        → find_id id' replaced
          ≡ (if c.dest_id == id' then some c else if id == id' then none else find_id id' entries))

pub modify_id-hit :
    (id : ℕ) (f : Contact → Contact) (d : Contact) (entries : List (Option Contact))
    → (d.dest_id == id) ≡ true
    → modify_id id f (some d ∷ entries) ≡ some (f d) ∷ entries
unfolding modify_id
modify_id-hit id f d entries k = ground (arith, k)

pub modify_id-miss :
    (id : ℕ) (f : Contact → Contact) (d : Contact) (entries : List (Option Contact))
    → (d.dest_id == id) ≡ false
    → modify_id id f (some d ∷ entries) ≡ some d ∷ modify_id id f entries
unfolding modify_id
modify_id-miss id f d entries k = ground (arith, k)

pub modify_id_replaces :
    (id : ℕ) (c old : Contact) (entries : List (Option Contact))
    → IsDistinct entries
    → find_id id entries ≡ some old
    → find_id c.dest_id entries ≡ none
    → IsReplaced id c entries (modify_id id (λ _. c) entries)
unfolding modify_id find_id
modify_id_replaces id c old [] v h fresh = absurd (ground arith)
modify_id_replaces id c old (none ∷ entries) v h fresh =
    let (w, n, look) = modify_id_replaces id c old entries v h fresh in (w, omega (arith, n), look)
modify_id_replaces id c old (some d ∷ entries) v h fresh = elim (Bool-cases (d.dest_id == id)) [
  | inl k ↦
      subst (IsReplaced id c (some d ∷ entries)) (sym (modify_id-hit id (λ _. c) d entries k))
        ((ground (arith, fresh), v.1), refl, λ id'. ground (arith, ==→eq d.dest_id id k, v.0))
  | inr k ↦
      let (w, n, look) =
        modify_id_replaces id c old entries v.1 (ground (arith, k, h)) (ground (arith, fresh)) in
      let apart : c.dest_id ≢ d.dest_id = λ g. ground (arith, ==_self d.dest_id, fresh) in
      subst (IsReplaced id c (some d ∷ entries)) (sym (modify_id-miss id (λ _. c) d entries k)) (
        (ground (arith, look d.dest_id, v.0), w),
        omega (arith, n),
        λ id'. ground (arith, look id', k, fresh),
      )
]

-- Among the contacts of an iterator.
abbrev pub find_contact : ℕ → List Contact → Option Contact
find_contact id [] = none
find_contact id (c ∷ contacts) = if c.dest_id == id then some c else find_contact id contacts

abbrev pub AreDistinct : List Contact → Type 0
AreDistinct [] = Unit
AreDistinct (c ∷ contacts) = (find_contact c.dest_id contacts ≡ none) × AreDistinct contacts

pub find_contact-flatten :
    (id : ℕ) (entries : List (Option Contact))
    → find_contact id (flatten entries) ≡ find_id id entries
unfolding flatten find_id
find_contact-flatten id [] = refl
find_contact-flatten id (none ∷ entries) = find_contact-flatten id entries
find_contact-flatten id (some c ∷ entries) = ground (arith, find_contact-flatten id entries)

pub flatten-AreDistinct :
    (entries : List (Option Contact)) → IsDistinct entries → AreDistinct (flatten entries)
unfolding flatten
flatten-AreDistinct [] v = tt
flatten-AreDistinct (none ∷ entries) v = flatten-AreDistinct entries v
flatten-AreDistinct (some c ∷ entries) v =
    (find_contact-flatten c.dest_id entries ∙ v.0, flatten-AreDistinct entries v.1)

pub length-flatten-le :
    (entries : List (Option Contact)) → length (flatten entries) ≤ length entries
unfolding flatten
length-flatten-le [] = omega arith
length-flatten-le (none ∷ entries) = omega (arith, length-flatten-le entries)
length-flatten-le (some c ∷ entries) = omega (arith, length-flatten-le entries)

-- No empty slot is left.
pub count_some-full :
    (entries : List (Option Contact))
    → any_none entries ≡ false
    → count_some entries ≡ length entries
unfolding any_none count_some
count_some-full [] h = refl
count_some-full (none ∷ entries) h = absurd (ground arith)
count_some-full (some c ∷ entries) h = omega (arith, count_some-full entries h)

pub repeat_none_lem :
    (size : ℕ)
    → IsDistinct (repeat_none size)
      × (length (repeat_none size) ≡ size)
      × (count_some (repeat_none size) ≡ 0)
      × ((id : ℕ) → find_id id (repeat_none size) ≡ none)
unfolding count_some find_id
repeat_none_lem zero = (tt, refl, refl, λ id. refl)
repeat_none_lem (suc size) =
    let (w, n, m, look) = repeat_none_lem size in (w, omega (arith, n), m, look)
