-- ===== src/Bucket/Changes.antt =====
-- The outcomes of the operations on a bucket and what lookups see afterwards.
use kira_rust.Prelude.{
  ℕ, ◌+◌, ◌≡◌, ◌∙◌, inl, inr, true, false, none, some, arith, ◌==◌, if◌then◌else◌, is_some,
  Bool-cases, Option-cases, length, returns, Result, ok, err,
}
use kira_rust.Path.{NodePath, is_notvalidated}
use kira_rust.Contact.{Contact}
use kira_rust.Bucket.{
  Bucket, BucketInsertionError, duplicate_id, full, needs_validation, ReplacementError, not_found,
  duplicate_replacement, find_id, fill_entry, modify_id, is_full, get, len, contains_contact,
  get_mut, insert, replace, remove,
}
use kira_rust.Bucket.Slots.{
  IsDistinct, any_id-find_id, fill_entry-none, fill_entry_lem, take_id_lem, modify_id_replaces,
}

pub record IsBucket (size : ℕ) (b : Bucket) : Type 0 where
  pub sized : length b.contacts ≡ size
  pub distinct : IsDistinct b.contacts

pub contains_contact-get : (b : Bucket) (id : ℕ) → contains_contact b id ≡ is_some (get b id)
unfolding contains_contact get
contains_contact-get b id = any_id-find_id id b.contacts

-- What an insertion can do.
pub data Insertion (size : ℕ) (b : Bucket) (c : Contact) (p : NodePath)
    : Bucket → Result (Unit {0}) BucketInsertionError → Type 0 where
  refuses_duplicate :
      contains_contact b c.dest_id ≡ true → Insertion size b c p b (err (duplicate_id c.dest_id))
  refuses_unvalidated :
      contains_contact b c.dest_id ≡ false
      → is_notvalidated p ≡ true
      → Insertion size b c p b (err needs_validation)
  refuses_full :
      contains_contact b c.dest_id ≡ false
      → is_notvalidated p ≡ false
      → is_full b ≡ true
      → Insertion size b c p b (err full)
  inserts :
      {b' : Bucket}
      → contains_contact b c.dest_id ≡ false
      → is_notvalidated p ≡ false
      → IsBucket size b'
      → len b' ≡ len b + 1
      → ((id : ℕ) → get b' id ≡ (if c.dest_id == id then some c else get b id))
      → Insertion size b c p b' (ok tt)

-- The insertion of a contact with an active path returns: it refuses a contact that is there, a path that
-- is not validated and a full bucket, in this order and without a change; else the contact is found
-- beside those of before, and the bucket has one more.
pub insert_lem :
    (size : ℕ) (b : Bucket) (c : Contact) (p : NodePath)
    → IsBucket size b
    → c.path_collection.active_path ≡ some p
    → (b' : Bucket) × (r : Result (Unit {0}) BucketInsertionError) × (insert b c ≡ returns (b', r))
      × Insertion size b c p b' r
unfolding insert get len is_full
insert_lem size b c p v e = elim (Bool-cases (contains_contact b c.dest_id)) [
  | inl f ↦ (b, err (duplicate_id c.dest_id), ground (arith, f), refuses_duplicate f)
  | inr f ↦ elim (Bool-cases (is_notvalidated p)) [
    | inl g ↦ (b, err needs_validation, ground (arith, e, f, g), refuses_unvalidated f g)
    | inr g ↦ elim (Option-cases (fill_entry c b.contacts)) [
      | inl h ↦ (
        b,
        err full,
        ground (arith, e, f, g, h),
        refuses_full f g (rw (fill_entry-none c b.contacts h)),
      )
      | inr (filled, h) ↦
          let fresh : find_id c.dest_id b.contacts ≡ none =
            ground (arith, contains_contact-get b c.dest_id, f) in
          let (w, n, m, look) = fill_entry_lem c b.contacts filled v.distinct fresh h in
          (
            record { contacts = filled },
            ok tt,
            ground (arith, e, f, g, h),
            inserts f g (record { sized = n ∙ v.sized; distinct = w }) (omega (arith, m)) look,
          )
    ]
  ]
]

-- A removal returns the contact of the node, if there is one, and takes exactly that out of the bucket.
pub remove_lem :
    (size : ℕ) (b : Bucket) (id : ℕ)
    → IsBucket size b
    → ((remove b id).1 ≡ get b id)
      × IsBucket size (remove b id).0
      × ((id' : ℕ) → get (remove b id).0 id' ≡ (if id == id' then none else get b id'))
unfolding remove get
remove_lem size b id v =
    let (e, w, n, look) = take_id_lem id b.contacts v.distinct in
    (e, record { sized = n ∙ v.sized; distinct = w }, look)

-- What a replacement can do.
pub data Replacement (size : ℕ) (b : Bucket) (id : ℕ) (c : Contact)
    : Bucket → Result Contact ReplacementError → Type 0 where
  misses : get b id ≡ none → Replacement size b id c b (err (not_found id))
  refuses_replacement :
      contains_contact b c.dest_id ≡ true
      → Replacement size b id c b (err (duplicate_replacement id))
  replaces :
      {b' : Bucket} {old : Contact}
      → get b id ≡ some old
      → get b c.dest_id ≡ none
      → IsBucket size b'
      → ((id' : ℕ)
          → get b' id'
            ≡ (if c.dest_id == id' then some c else if id == id' then none else get b id'))
      → Replacement size b id c b' (ok old)

-- A replacement returns, so its assertion and its `unwrap` hold: it refuses an id that is not there and a
-- new contact that is there, without a change; else the new contact stands for the old one, which it
-- returns.
pub replace_lem :
    (size : ℕ) (b : Bucket) (id : ℕ) (c : Contact)
    → IsBucket size b
    → (b' : Bucket) × (r : Result Contact ReplacementError) × (replace b id c ≡ returns (b', r))
      × Replacement size b id c b' r
unfolding replace get get_mut
replace_lem size b id c v = elim (Option-cases (find_id id b.contacts)) [
  | inl e ↦ (b, err (not_found id), ground (arith, contains_contact-get b id, e), misses e)
  | inr (old, e) ↦ elim (Bool-cases (contains_contact b c.dest_id)) [
    | inl f ↦ (
      b,
      err (duplicate_replacement id),
      ground (arith, contains_contact-get b id, e, f),
      refuses_replacement f,
    )
    | inr f ↦
        let fresh : find_id c.dest_id b.contacts ≡ none =
          ground (arith, contains_contact-get b c.dest_id, f) in
        let (w, n, look) = modify_id_replaces id c old b.contacts v.distinct e fresh in
        (
          record { contacts = modify_id id (λ _. c) b.contacts },
          ok old,
          ground (arith, contains_contact-get b id, e, f),
          replaces e fresh (record { sized = n ∙ v.sized; distinct = w }) look,
        )
  ]
]
