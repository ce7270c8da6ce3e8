-- ===== src/InsertionStrategy/Members.antt =====
-- The contacts of a full bucket of the flat routing table.
use kira_rust.Prelude.{
  ℕ, zero, suc, ◌<◌, ◌≡◌, refl, sym, ap, ◌∙◌, subst, true, false, not, Option, none, some, List, [],
  ◌∷◌, arith, ◌==◌, ==_self, ==_ne, length, get_elem?, returns,
}
use kira_rust.Path.{last?}
use kira_rust.Contact.{Contact}
use kira_rust.Contact.Suitability.{LeadsTo}
use kira_rust.PathSimplifier.Shorter.{size_lem}
use kira_rust.Bucket.{Bucket}
use kira_rust.Bucket
use kira_rust.Bucket.Slots.{AreDistinct, find_contact, find_contact-flatten, flatten-AreDistinct}
use kira_rust.RoutingTable.Flat.{FlatRoutingTable, contact, bucket, get_bucket_index}
use kira_rust.RoutingTable.Flat.Placement.{IsTable, bucket_found, contact_at}
use kira_rust.RoutingTable.Flat.Insertion.{index_of_lookup}
use kira_rust.InsertionStrategy.Replacement.{size_of, AllSized}
use kira_rust.InsertionStrategy.Effects.{HasContacts}

-- The contacts of a bucket are found, by the iterator and by the lookup.
find_contact-get_elem? :
    (contacts : List Contact) (i : ℕ) (old : Contact)
    → AreDistinct contacts
    → get_elem? contacts i ≡ some old
    → find_contact old.dest_id contacts ≡ some old
find_contact-get_elem? [] i old v h = absurd (ground arith)
find_contact-get_elem? (c ∷ contacts) zero old v h =
    let same : c ≡ old = ground (arith, h) in
    subst (λ (d : Contact). find_contact d.dest_id (c ∷ contacts) ≡ some d) same
      (ground (arith, ==_self c.dest_id))
find_contact-get_elem? (c ∷ contacts) (suc i) old (fresh, v) h =
    let rest = find_contact-get_elem? contacts i old v h in
    let apart : (c.dest_id == old.dest_id) ≡ false = ==_ne c.dest_id old.dest_id (λ g.
      let clash : find_contact old.dest_id contacts ≡ none = rw (← g) fresh in
      ground (arith, clash, rest)) in
    ground (arith, apart, rest)

pub all_sized :
    (contacts : List Contact)
    → ((i : ℕ) (c : Contact) → get_elem? contacts i ≡ some c → (n : ℕ) × (size_of c ≡ returns n))
    → AllSized contacts
all_sized [] h = tt
all_sized (c ∷ contacts) h = (h 0 c refl, all_sized contacts (λ i. h (suc i)))

pub full-filled :
    (b : Bucket) → 0 < length b.contacts → Bucket.is_full b ≡ true → Bucket.is_empty b ≡ false
unfolding Bucket.is_full Bucket.is_empty Bucket.any_none Bucket.any_some
full-filled b h k = go b.contacts h k
  where
    go :
        (entries : List (Option Contact))
        → 0 < length entries
        → not (Bucket.any_none entries) ≡ true
        → not (Bucket.any_some entries) ≡ false
    go [] l m = absurd (omega (arith, l))
    go (none ∷ entries) l m = absurd (ground (arith, m))
    go (some c ∷ entries) l m = refl

module _ (size acc : ℕ) (t : FlatRoutingTable) (v : IsTable size acc t) where
  pub bucket_at :
      (id : ℕ) (b : Bucket) (found : Option Contact)
      → contact acc t id ≡ returns found
      → bucket acc t id ≡ returns b
      → (i : ℕ) × (get_bucket_index acc t id ≡ returns i) × (get_elem? t.buckets i ≡ some b)
  unfolding bucket
  bucket_at id b found look at =
      let (i, h) = index_of_lookup acc t id found look in
      let (d, k) = bucket_found acc t id i h in (i, h, ground (arith, at, h, k))

  -- A contact of the iterator of a bucket.
  pub member_lem :
      (i j : ℕ) (b : Bucket) (old : Contact)
      → HasContacts acc t
      → get_elem? t.buckets i ≡ some b
      → get_elem? (Bucket.iter b) j ≡ some old
      → (Bucket.get b old.dest_id ≡ some old)
        × (contact acc t old.dest_id ≡ returns (some old))
        × (n : ℕ) × (size_of old ≡ returns n)
  unfolding Bucket.iter Bucket.get
  member_lem i j b old all k member =
      let w = v.buckets_valid i b k in
      let found : Bucket.get b old.dest_id ≡ some old =
        sym (find_contact-flatten old.dest_id b.contacts)
        ∙ find_contact-get_elem? (Bucket.iter b) j old (flatten-AreDistinct b.contacts w.distinct)
            member in
      let (at, (q, active, fine)) = v.settled i b k old.dest_id old found in
      let look : contact acc t old.dest_id ≡ returns (some old) =
        contact_at acc t old.dest_id i b at k ∙ ap returns found in
      let leads : last? q.ids ≡ some old.dest_id =
        subst (LeadsTo old.dest_id) active (all old.dest_id old look).active in
      (found, look, length q.ids, ground (arith, active, size_lem q old.dest_id leads))
