-- ===== src/RoutingTable/Flat/Writes.antt =====
-- Writes to a contact of the flat routing table.
use kira_rust.Prelude.{
  ℕ, ◌≡◌, refl, sym, ◌∙◌, subst, inl, inr, false, Option, none, some, arith, ◌==◌, if◌then◌else◌,
  ==→eq, ==_self, ==_ne, Bool-cases, get_elem?, Outcome-cases, returns, panics,
}
use kira_rust.Contact.{Contact}
use kira_rust.Bucket.{Bucket, find_id}
use kira_rust.Bucket
use kira_rust.Bucket.Slots.{modify_id_replaces}
use kira_rust.Bucket.Writes.{modify_id_rewrites}
use kira_rust.RoutingTable.Flat.{FlatRoutingTable, get_bucket_index, contact, contact_mut}
use kira_rust.RoutingTable.Flat.Placement.{
  IsTable, IsSettled, IsAcceptable, updated, get_bucket_index-lt, contact_at, bucket_mut_lem,
  bucket_found, contact_nowhere, get_bucket_index-updated, contact-updated, IsTable-updated,
}
use kira_rust.RoutingTable.Flat.Changes.{contact-set}
use kira_rust.RoutingTable.Flat.Insertion.{index_of_lookup}

-- A node has the bucket of its index only.
apart_nowhere :
    (acc : ℕ) (t : FlatRoutingTable) (key id i : ℕ)
    → get_bucket_index acc t key ≡ returns i
    → get_bucket_index acc t id ≡ panics
    → (key == id) ≡ false
apart_nowhere acc t key id i h e =
    ==_ne key id (λ g. let clash : panics ≡ returns i = sym e ∙ rw (← g) h in cc clash)

apart_elsewhere :
    (acc : ℕ) (t : FlatRoutingTable) (key id i j : ℕ)
    → get_bucket_index acc t key ≡ returns i
    → get_bucket_index acc t id ≡ returns j
    → (i == j) ≡ false
    → (key == id) ≡ false
apart_elsewhere acc t key id i j h e f =
    ==_ne key id
      λ g. let same : returns i ≡ returns j = sym h ∙ rw g e in ground (arith, same, ==_self j, f)

-- The lookups after the entry of a node takes the place of another one in their bucket.
contact-moved :
    (acc : ℕ) (t : FlatRoutingTable) (i key old : ℕ) (b b' : Bucket) (value : Option Contact)
    → get_bucket_index acc t key ≡ returns i
    → get_bucket_index acc t old ≡ returns i
    → get_elem? t.buckets i ≡ some b
    → ((id : ℕ)
        → Bucket.get b' id
          ≡ (if key == id then value else if old == id then none else Bucket.get b id))
    → (id : ℕ)
    → contact acc (updated t i b') id
      ≡ (if key == id then returns value else if old == id then returns none else contact acc t id)
contact-moved acc t i key old b b' value h at k look id =
    elim (Outcome-cases (get_bucket_index acc t id)) [
      | inl e ↦
          rw (apart_nowhere acc t key id i h e, apart_nowhere acc t old id i at e)
            (contact_nowhere acc (updated t i b') id (get_bucket_index-updated acc t i id b' ∙ e)
              ∙ sym (contact_nowhere acc t id e))
      | inr (j, e) ↦
          contact-updated acc t i j id b' (get_bucket_index-lt acc t key i h) e
          ∙ (elim (Bool-cases (i == j)) [
            | inl f ↦
                let here : get_bucket_index acc t id ≡ returns i = rw (==→eq i j f) e in
                ground (arith, look id, f, contact_at acc t id i b here k)
            | inr f ↦
                rw
                  (
                    f,
                    apart_elsewhere acc t key id i j h e f,
                    apart_elsewhere acc t old id i j at e f,
                  )
                  refl
          ])
    ]

module _ (size acc : ℕ) (t : FlatRoutingTable) where
  -- A write that keeps the node of the contact.
  pub contact_mut_lem :
      (id : ℕ) (old e : Contact)
      → IsTable size acc t
      → contact acc t id ≡ returns (some old)
      → e.dest_id ≡ id
      → IsAcceptable e
      → (t' : FlatRoutingTable) × (contact_mut acc t id (λ _. e) ≡ returns t')
        × IsTable size acc t'
        × ((id' : ℕ)
            → contact acc t' id' ≡ (if id == id' then returns (some e) else contact acc t id'))
  unfolding contact_mut Bucket.get_mut Bucket.get
  contact_mut_lem id old e v known same good =
      let (i, h) = index_of_lookup acc t id (some old) known in
      let (b, k) = bucket_found acc t id i h in
      let found : Bucket.get b id ≡ some old = ground (arith, contact_at acc t id i b h k, known) in
      let w = v.buckets_valid i b k in
      let (distinct, n, look) = modify_id_rewrites id e old b.contacts w.distinct found same in
      let b' = Bucket.get_mut b id (λ _. e) in
      let settled : IsSettled acc t i b' = λ id' d f. elim (Bool-cases (id == id')) [
        | inl g ↦
            let here : e ≡ d = ground (arith, look id', g, f) in
            (
              subst (λ j. get_bucket_index acc t j ≡ returns i) (==→eq id id' g) h,
              subst IsAcceptable here good,
            )
        | inr g ↦ v.settled i b k id' d (ground (arith, look id', g, f))
      ] in
      (
        updated t i b',
        ground (
          arith,
          bucket_mut_lem acc t id i b b' tt
              (λ x. returns (Bucket.get_mut x id (λ _. e), let u : Unit {0} = tt in u)) h k refl,
        ),
        IsTable-updated size acc t i b' (get_bucket_index-lt acc t id i h) v
            (record { sized = n ∙ w.sized; distinct = distinct }) settled,
        contact-set acc t i id b b' (some e) h k look,
      )

  -- A write of a contact of another node of the same bucket, which is not there.
  pub contact_mut_replaces :
      (i : ℕ) (b : Bucket) (old c : Contact)
      → IsTable size acc t
      → get_elem? t.buckets i ≡ some b
      → get_bucket_index acc t c.dest_id ≡ returns i
      → Bucket.get b old.dest_id ≡ some old
      → Bucket.get b c.dest_id ≡ none
      → IsAcceptable c
      → (t' : FlatRoutingTable) × (contact_mut acc t old.dest_id (λ _. c) ≡ returns t')
        × IsTable size acc t'
        × ((id : ℕ)
            → contact acc t' id ≡ (
                if c.dest_id == id
                then returns (some c)
                else if old.dest_id == id
                then returns none
                else contact acc t id))
  unfolding contact_mut Bucket.get_mut Bucket.get
  contact_mut_replaces i b old c v k h found fresh good =
      let w = v.buckets_valid i b k in
      let at = (v.settled i b k old.dest_id old found).0 in
      let (distinct, n, look) =
        modify_id_replaces old.dest_id c old b.contacts w.distinct found fresh in
      let b' = Bucket.get_mut b old.dest_id (λ _. c) in
      let settled : IsSettled acc t i b' = λ id' d f. elim (Bool-cases (c.dest_id == id')) [
        | inl g ↦
            let here : c ≡ d = ground (arith, look id', g, f) in
            (
              subst (λ j. get_bucket_index acc t j ≡ returns i) (==→eq c.dest_id id' g) h,
              subst IsAcceptable here good,
            )
        | inr g ↦ elim (Bool-cases (old.dest_id == id')) [
          | inl l ↦ absurd (ground (arith, look id', g, l, f))
          | inr l ↦ v.settled i b k id' d (ground (arith, look id', g, l, f))
        ]
      ] in
      (
        updated t i b',
        ground (
          arith,
          bucket_mut_lem acc t old.dest_id i b b' tt
              (λ x. returns (Bucket.get_mut x old.dest_id (λ _. c), let u : Unit {0} = tt in u)) at
              k refl,
        ),
        IsTable-updated size acc t i b' (get_bucket_index-lt acc t c.dest_id i h) v
            (record { sized = n ∙ w.sized; distinct = distinct }) settled,
        contact-moved acc t i c.dest_id old.dest_id b b' (some c) h at k look,
      )
