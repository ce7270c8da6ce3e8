-- ===== src/RoutingTable/UnlimitedUln/Changes.antt =====
-- Additions and replacements in the table with underlay neighbors, seen through its lookups.
use kira_rust.Prelude.{
  ℕ, ◌≡◌, ◌⊎◌, inl, inr, Bool, true, false, Option, none, some, arith, ◌==◌, if◌then◌else◌, ==→eq,
  ==_self, Bool-cases, Option-cases, returns, Result, ok, err,
}
use kira_rust.HashMap
use kira_rust.HashMap.{HashMap}
use kira_rust.Path.{NodePath}
use kira_rust.Contact.{Contact, is_uln, is_valid_contact}
use kira_rust.Bucket.{Bucket, ReplacementError, not_found}
use kira_rust.Bucket
use kira_rust.Bucket.Changes.{contains_contact-get}
use kira_rust.RoutingTable.{AddError, already_exists, needs_validation, not_added}
use kira_rust.RoutingTable.Flat
use kira_rust.RoutingTable.Flat.{FlatRoutingTable, get_bucket_index}
use kira_rust.RoutingTable.Flat.Placement.{
  IsTable, bucket_found, bucket_mut_lem, updated, contact_at,
}
use kira_rust.RoutingTable.Flat.Changes.{
  Addition, refuses_known, refuses_path, refuses_more, adds, add_lem, remove_table_lem,
}
use kira_rust.RoutingTable.UnlimitedUln.{UnlimitedUlnRoutingTable, add, replace, contact}
use kira_rust.RoutingTable.UnlimitedUln.Apart.{IsUlnTable, added_apart, removed_old, neighbor_apart}

module _ (size acc : ℕ) (c : Contact) (p : NodePath) (t : UnlimitedUlnRoutingTable) where
  abbrev pub SetsOnly : Option Contact → UnlimitedUlnRoutingTable → Type 0
  SetsOnly value t' =
      (id : ℕ) → contact acc t' id ≡ (if c.dest_id == id then returns value else contact acc t id)

  -- What an addition can do: what the inner table accepts or refuses, and why, is its own addition's part.
  pub data UlnAddition : UnlimitedUlnRoutingTable → Result (Unit {0}) AddError → Type 0 where
    known_neighbor :
        (e : Contact)
        → HashMap.get t.un_contacts c.dest_id ≡ some e
        → (is_uln c ≡ returns true) ⊎ (is_valid_contact e ≡ true)
        → UlnAddition t (err (already_exists c.dest_id))
    new_neighbor :
        {t' : UnlimitedUlnRoutingTable}
        → HashMap.get t.un_contacts c.dest_id ≡ none
        → is_uln c ≡ returns true
        → HashMap.get t'.un_contacts c.dest_id ≡ some c
        → SetsOnly (some c) t'
        → UlnAddition t' (ok tt)
    former_neighbor :
        {t' : UnlimitedUlnRoutingTable}
        → (e : Contact) → HashMap.get t.un_contacts c.dest_id ≡ some e
        → is_uln c ≡ returns false
        → is_valid_contact e ≡ false
        → Addition size acc t.inner c p t'.inner (ok tt)
        → SetsOnly (some c) t'
        → UlnAddition t' (ok tt)
    forgets_neighbor :
        {t' : UnlimitedUlnRoutingTable} {r : AddError}
        → (e : Contact) → HashMap.get t.un_contacts c.dest_id ≡ some e
        → is_uln c ≡ returns false
        → is_valid_contact e ≡ false
        → Addition size acc t.inner c p t.inner (err r)
        → SetsOnly none t'
        → UlnAddition t' (err r)
    regular :
        {t' : UnlimitedUlnRoutingTable}
        → HashMap.get t.un_contacts c.dest_id ≡ none
        → is_uln c ≡ returns false
        → Addition size acc t.inner c p t'.inner (ok tt)
        → SetsOnly (some c) t'
        → UlnAddition t' (ok tt)
    refuses :
        (r : AddError)
        → HashMap.get t.un_contacts c.dest_id ≡ none
        → is_uln c ≡ returns false
        → Addition size acc t.inner c p t.inner (err r)
        → UlnAddition t (err r)

module _ (size acc : ℕ) (c : Contact) (p : NodePath) (t : UnlimitedUlnRoutingTable)
    (v : IsUlnTable size acc t) where
  -- The regular addition, for a node that is not a neighbor.
  regular_step :
      (inner' : FlatRoutingTable) (r : Result (Unit {0}) AddError)
      → HashMap.get t.un_contacts c.dest_id ≡ none
      → is_uln c ≡ returns false
      → Addition size acc t.inner c p inner' r
      → UlnAddition size acc c p t (record t { inner = inner' }) r
  unfolding contact
  regular_step _ _ h k (refuses_known old g) =
      refuses (already_exists c.dest_id) h k (refuses_known old g)
  regular_step _ _ h k (refuses_path g l) = refuses needs_validation h k (refuses_path g l)
  regular_step _ _ h k (refuses_more b g l m n) = refuses not_added h k (refuses_more b g l m n)
  regular_step inner' _ h k (adds g l w n look) =
      regular h k (adds g l w n look) (λ id. ground (arith, look id, h, ==→eq c.dest_id id))

  -- A neighbor that is only taken out of the map is found nowhere.
  forgotten :
      Flat.contact acc t.inner c.dest_id ≡ returns none
      → SetsOnly size acc c p t none
          (record t { un_contacts = HashMap.remove t.un_contacts c.dest_id })
  unfolding contact
  forgotten absent id = elim (Bool-cases (c.dest_id == id)) [
    | inl e ↦
        let here : Flat.contact acc t.inner id ≡ returns none = rw (← ==→eq _ _ e) absent in
        ground (arith, HashMap.get-remove t.un_contacts c.dest_id id, e, here)
    | inr e ↦ ground (arith, HashMap.get-remove t.un_contacts c.dest_id id, e)
  ]

  -- The addition of a former neighbor, which is taken out of the map.
  former_step :
      (e : Contact) (inner' : FlatRoutingTable) (r : Result (Unit {0}) AddError)
      → HashMap.get t.un_contacts c.dest_id ≡ some e
      → is_uln c ≡ returns false
      → is_valid_contact e ≡ false
      → Flat.contact acc t.inner c.dest_id ≡ returns none
      → Addition size acc t.inner c p inner' r
      → UlnAddition size acc c p t
          (record { un_contacts = HashMap.remove t.un_contacts c.dest_id; inner = inner' })
          r
  unfolding contact
  former_step e _ _ h k l absent (refuses_known old g) = absurd (ground (arith, absent, g))
  former_step e _ _ h k l absent (refuses_path g m) =
      forgets_neighbor e h k l (refuses_path g m) (forgotten absent)
  former_step e _ _ h k l absent (refuses_more b g m n o) =
      forgets_neighbor e h k l (refuses_more b g m n o) (forgotten absent)
  former_step e inner' _ h k l absent (adds g m w n look) =
      former_neighbor e h k l (adds g m w n look)
        (λ id. ground (arith, HashMap.get-remove t.un_contacts c.dest_id id, look id))

module _ (size acc : ℕ) (c : Contact) (p : NodePath) where
  -- An addition to a table whose neighbors are not in the inner table returns, and keeps it so. A known
  -- neighbor refuses a contact that is one, and any contact while its own is valid; a new
  -- neighbor is always taken, out of the inner table into the map. Any other contact goes to the inner table,
  -- whose addition accepts it or refuses it for its own reason: it is found if that accepts it, and all other
  -- lookups are as before. But if that refuses it, a former neighbor is gone, and its lookup finds
  -- nothing.
  pub uln_add_lem :
      (t : UnlimitedUlnRoutingTable) (i : ℕ) (neighbor : Bool)
      → IsUlnTable size acc t
      → c.path_collection.active_path ≡ some p
      → is_uln c ≡ returns neighbor
      → get_bucket_index acc t.inner c.dest_id ≡ returns i
      → (t' : UnlimitedUlnRoutingTable) × (r : Result (Unit {0}) AddError) × (add acc t c
          ≡ returns (t', r))
        × UlnAddition size acc c p t t' r
        × IsUlnTable size acc t'
  unfolding add contact
  uln_add_lem t i true v path k h = elim (Option-cases (HashMap.get t.un_contacts c.dest_id)) [
    | inr (e, g) ↦
        (t, err (already_exists c.dest_id), ground (arith, g, k), known_neighbor e g (inl k), v)
    | inl g ↦
        let (inner', taken, f, found, w, look) =
          remove_table_lem size acc t.inner c.dest_id i v.inner_valid h in
        (
          record { un_contacts = HashMap.insert t.un_contacts c.dest_id c; inner = inner' },
          ok tt,
          ground (arith, g, k, f),
          new_neighbor g k
              (ground
                (arith, HashMap.get-insert t.un_contacts c.dest_id c.dest_id c, ==_self c.dest_id))
              (λ id. ground (arith, HashMap.get-insert t.un_contacts c.dest_id id c, look id)),
          neighbor_apart size acc c p t v inner' w look,
        )
  ]
  uln_add_lem t i false v path k h =
      let (inner', r, f, addition) = add_lem size acc t.inner c p i v.inner_valid path h in
      elim (Option-cases (HashMap.get t.un_contacts c.dest_id)) [
        | inl g ↦ (
          record t { inner = inner' },
          r,
          ground (arith, g, k, f),
          regular_step size acc c p t v inner' r g k addition,
          added_apart size acc c p t v t.un_contacts inner' r g (λ id d q. (d, q)) addition,
        )
        | inr (e, g) ↦ elim (Bool-cases (is_valid_contact e)) [
          | inl l ↦ (
            t,
            err (already_exists c.dest_id),
            ground (arith, g, k, l),
            known_neighbor e g (inr l),
            v,
          )
          | inr l ↦ (
            record { un_contacts = HashMap.remove t.un_contacts c.dest_id; inner = inner' },
            r,
            ground (arith, g, k, l, f),
            former_step size acc c p t v e inner' r g k l (v.apart c.dest_id e g i h) addition,
            added_apart size acc c p t v (HashMap.remove t.un_contacts c.dest_id) inner' r
                (ground
                  (arith, HashMap.get-remove t.un_contacts c.dest_id c.dest_id, ==_self c.dest_id))
                (removed_old size acc c p t v) addition,
          )
        ]
      ]

unknown_bucket :
    (b : Bucket) (id : ℕ) (c : Contact)
    → Bucket.get b id ≡ none
    → Bucket.replace b id c ≡ returns (b, err (not_found id))
unfolding Bucket.replace
unknown_bucket b id c h = ground (arith, contains_contact-get b id, h)

-- A replacement for an unknown node reports the error, but leaves the new contact in the map under the
-- identifier of the unknown node, where lookups then find it.
pub replace_unknown :
    (size acc : ℕ) (t : UnlimitedUlnRoutingTable) (id i : ℕ) (c : Contact)
    → IsTable size acc t.inner
    → get_bucket_index acc t.inner id ≡ returns i
    → contact acc t id ≡ returns none
    → (t' : UnlimitedUlnRoutingTable) × (replace acc t id c ≡ returns (t', err (not_found id)))
      × (contact acc t' id ≡ returns (some c))
unfolding replace contact Flat.replace
replace_unknown size acc t id i c v h absent = elim (Option-cases (HashMap.get t.un_contacts id)) [
  | inr (e, f) ↦ absurd (ground (arith, absent, f))
  | inl f ↦
      let (b, k) = bucket_found acc t.inner id i h in
      let gone : Bucket.get b id ≡ none =
        ground (arith, contact_at acc t.inner id i b h k, absent, f) in
      let refused =
        bucket_mut_lem acc t.inner id i b b (err (not_found id)) (λ x. Bucket.replace x id c) h k
          (unknown_bucket b id c gone) in
      (
        record { un_contacts = HashMap.insert t.un_contacts id c; inner = updated t.inner i b },
        ground (arith, f, refused),
        ground (arith, HashMap.get-insert t.un_contacts id id c, ==_self id),
      )
]
