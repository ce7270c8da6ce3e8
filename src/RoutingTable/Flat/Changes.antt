-- ===== src/RoutingTable/Flat/Changes.antt =====
-- What an addition and a removal do to the flat routing table, seen through its lookups.
use kira_rust.Prelude.{
  ℕ, ◌≡◌, refl, sym, ap, ◌∙◌, subst, inl, inr, true, false, Option, none, some, arith, ◌==◌,
  if◌then◌else◌, ==→eq, ==_self, ==_ne, Bool-cases, Option-cases, get_elem?, set_self, length-set,
  Outcome-cases, returns, panics, Result, ok, err,
}
use kira_rust.Path.{NodePath, is_notvalidated}
use kira_rust.Contact.{Contact}
use kira_rust.Bucket.{
  Bucket, BucketInsertionError, ReplacementError, not_found, duplicate_replacement, is_full,
  contains_contact,
}
use kira_rust.Bucket
use kira_rust.Bucket.Changes.{
  Insertion, refuses_duplicate, refuses_unvalidated, refuses_full, inserts, insert_lem, remove_lem,
  contains_contact-get,
}
use kira_rust.RoutingTable.{AddError, already_exists, not_added, needs_validation}
use kira_rust.RoutingTable.Flat.{
  FlatRoutingTable, num_buckets, get_bucket_index, bucket, contact, add, add_result, remove,
}
use kira_rust.RoutingTable.Flat.Placement.{
  IsTable, IsSettled, IsAcceptable, updated, get_bucket_index-lt, get_bucket_index-updated,
  contact_at, contact_nowhere, bucket_mut_lem, bucket_found, contact-updated, IsTable-updated,
}

-- The lookups after the entry of one node is set in its bucket.
pub contact-set :
    (acc : ℕ) (t : FlatRoutingTable) (i key : ℕ) (b b' : Bucket) (value : Option Contact)
    → get_bucket_index acc t key ≡ returns i
    → get_elem? t.buckets i ≡ some b
    → ((id : ℕ) → Bucket.get b' id ≡ (if key == id then value else Bucket.get b id))
    → (id : ℕ)
    → contact acc (updated t i b') id ≡ (if key == id then returns value else contact acc t id)
contact-set acc t i key b b' value h k look id = elim (Outcome-cases (get_bucket_index acc t id)) [
  | inl e ↦
      let apart : (key == id) ≡ false =
        ==_ne key id (λ g. let clash : panics ≡ returns i = sym e ∙ rw (← g) h in cc clash) in
      rw apart (
        contact_nowhere acc (updated t i b') id (get_bucket_index-updated acc t i id b' ∙ e)
        ∙ sym (contact_nowhere acc t id e))
  | inr (j, e) ↦
      contact-updated acc t i j id b' (get_bucket_index-lt acc t key i h) e
      ∙ (elim (Bool-cases (i == j)) [
        | inl f ↦
            let at : get_bucket_index acc t id ≡ returns i = rw (==→eq i j f) e in
            ground (arith, look id, f, contact_at acc t id i b at k)
        | inr f ↦
            let apart : (key == id) ≡ false = ==_ne key id λ g.
              let same : returns i ≡ returns j = sym h ∙ rw g e in
              ground (arith, same, ==_self j, f) in
            rw (f, apart) refl
      ])
]

-- The index of a node whose lookup finds something is that of its bucket.
pub contact-found :
    (acc : ℕ) (t : FlatRoutingTable) (id i : ℕ) (b : Bucket) (found : Option Contact)
    → get_bucket_index acc t id ≡ returns i
    → get_elem? t.buckets i ≡ some b
    → Bucket.get b id ≡ found
    → contact acc t id ≡ returns found
contact-found acc t id i b found h k e = contact_at acc t id i b h k ∙ ap returns e

module _ (size acc : ℕ) (t : FlatRoutingTable) (c : Contact) (p : NodePath) where
  -- What an addition can do.
  pub data Addition : FlatRoutingTable → Result (Unit {0}) AddError → Type 0 where
    refuses_known :
        (old : Contact)
        → contact acc t c.dest_id ≡ returns (some old)
        → Addition t (err (already_exists c.dest_id))
    refuses_path :
        contact acc t c.dest_id ≡ returns none
        → is_notvalidated p ≡ true
        → Addition t (err needs_validation)
    refuses_more :
        (b : Bucket)
        → contact acc t c.dest_id ≡ returns none
        → is_notvalidated p ≡ false
        → bucket acc t c.dest_id ≡ returns b
        → is_full b ≡ true
        → Addition t (err not_added)
    adds :
        {t' : FlatRoutingTable}
        → contact acc t c.dest_id ≡ returns none
        → is_notvalidated p ≡ false
        → IsTable size acc t'
        → num_buckets t' ≡ num_buckets t
        → ((id : ℕ)
            → contact acc t' id ≡ (if c.dest_id == id then returns (some c) else contact acc t id))
        → Addition t' (ok tt)

  module _ (i : ℕ) (v : IsTable size acc t) (path : c.path_collection.active_path ≡ some p)
      (h : get_bucket_index acc t c.dest_id ≡ returns i) where
    pub IsSettled-inserted :
        (b b' : Bucket)
        → get_elem? t.buckets i ≡ some b
        → is_notvalidated p ≡ false
        → ((id : ℕ) → Bucket.get b' id ≡ (if c.dest_id == id then some c else Bucket.get b id))
        → IsSettled acc t i b'
    IsSettled-inserted b b' k g look id d e = elim (Bool-cases (c.dest_id == id)) [
      | inl f ↦
          let same : c ≡ d = ground (arith, look id, f, e) in
          (rw (← ==→eq _ _ f) h, subst IsAcceptable same (p, path, g))
      | inr f ↦ v.settled i b k id d (ground (arith, look id, f, e))
    ]

    Addition-step :
        (b b' : Bucket) (r : Result (Unit {0}) BucketInsertionError)
        → get_elem? t.buckets i ≡ some b
        → Insertion size b c p b' r
        → Addition (updated t i b') (add_result r)
    unfolding num_buckets bucket
    Addition-step b _ _ k (refuses_duplicate f) = elim (Option-cases (Bucket.get b c.dest_id)) [
      | inl e ↦ absurd (ground (arith, contains_contact-get b c.dest_id, f, e))
      | inr (old, e) ↦
          rw (set_self t.buckets i b k)
            (refuses_known old (contact-found acc t c.dest_id i b (some old) h k e))
    ]
    Addition-step b _ _ k (refuses_unvalidated f g) =
        let fresh : Bucket.get b c.dest_id ≡ none =
          ground (arith, contains_contact-get b c.dest_id, f) in
        rw (set_self t.buckets i b k)
          (refuses_path (contact-found acc t c.dest_id i b none h k fresh) g)
    Addition-step b _ _ k (refuses_full f g l) =
        let fresh : Bucket.get b c.dest_id ≡ none =
          ground (arith, contains_contact-get b c.dest_id, f) in
        rw (set_self t.buckets i b k)
          (refuses_more b (contact-found acc t c.dest_id i b none h k fresh) g (rw (h, k) refl) l)
    Addition-step b b' _ k (inserts f g w n look) =
        let fresh : Bucket.get b c.dest_id ≡ none =
          ground (arith, contains_contact-get b c.dest_id, f) in
        adds (contact-found acc t c.dest_id i b none h k fresh) g
          (IsTable-updated size acc t i b' (get_bucket_index-lt acc t c.dest_id i h) v w
            (IsSettled-inserted b b' k g look))
          (length-set t.buckets i b') (contact-set acc t i c.dest_id b b' (some c) h k look)

    -- The addition as a write of one bucket.
    pub add_step :
        (b : Bucket)
        → get_elem? t.buckets i ≡ some b
        → (b' : Bucket) × (r : Result (Unit {0}) BucketInsertionError) × (add acc t c
            ≡ returns (updated t i b', add_result r))
          × Insertion size b c p b' r
    unfolding add
    add_step b k =
        let (b', r, e, insertion) = insert_lem size b c p (v.buckets_valid i b k) path in
        (b', r, bucket_mut_lem acc t c.dest_id i b b' (add_result r) _ h k (rw e refl), insertion)

    -- An addition to a table that satisfies the invariant returns: it refuses a node that is in the table, a
    -- path that is not validated and a full bucket, in this order and without a change; else the
    -- contact is found and all other lookups are as before, and the invariant is kept.
    pub add_lem :
        (t' : FlatRoutingTable) × (r : Result (Unit {0}) AddError) × (add acc t c ≡ returns (t', r))
        × Addition t' r
    add_lem =
        let (b, k) = bucket_found acc t c.dest_id i h in
        let (b', r, e, insertion) = add_step b k in
        (updated t i b', add_result r, e, Addition-step b b' r k insertion)

module _ (size acc : ℕ) (t : FlatRoutingTable) where
  -- A removal returns what the lookup finds, takes exactly that out of the table and keeps the invariant.
  pub remove_table_lem :
      (id i : ℕ)
      → IsTable size acc t
      → get_bucket_index acc t id ≡ returns i
      → (t' : FlatRoutingTable) × (taken : Option Contact) × (remove acc t id ≡ returns (t', taken))
        × (contact acc t id ≡ returns taken)
        × IsTable size acc t'
        × ((id' : ℕ) → contact acc t' id' ≡ (if id == id' then returns none else contact acc t id'))
  unfolding remove
  remove_table_lem id i v h =
      let (b, k) = bucket_found acc t id i h in
      let b' = (Bucket.remove b id).0 in
      let (e, w, look) = remove_lem size b id (v.buckets_valid i b k) in
      (
        updated t i b',
        (Bucket.remove b id).1,
        bucket_mut_lem acc t id i b b' (Bucket.remove b id).1 (λ x. returns (Bucket.remove x id)) h
            k refl,
        contact_at acc t id i b h k ∙ ap returns (sym e),
        IsTable-updated size acc t i b' (get_bucket_index-lt acc t id i h) v w (λ id' d g.
            elim (Bool-cases (id == id')) [
              | inl f ↦ absurd (ground (arith, look id', f, g))
              | inr f ↦ v.settled i b k id' d (ground (arith, look id', f, g))
            ]),
        contact-set acc t i id b b' none h k look,
      )
