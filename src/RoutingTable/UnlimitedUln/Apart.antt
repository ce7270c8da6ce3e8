-- ===== src/RoutingTable/UnlimitedUln/Apart.antt =====
-- The underlay neighbors are not in the inner table.
use kira_rust.Prelude.{
  ℕ, ◌≡◌, refl, sym, ◌∙◌, ◌⊎◌, inl, inr, false, none, some, arith, ◌==◌, if◌then◌else◌, ==_ne,
  Bool-cases, returns, Result,
}
use kira_rust.HashMap
use kira_rust.HashMap.{HashMap}
use kira_rust.Path.{NodePath}
use kira_rust.Contact.{Contact}
use kira_rust.Bucket.{Bucket, ReplacementError, not_found}
use kira_rust.Bucket
use kira_rust.RoutingTable.{AddError}
use kira_rust.RoutingTable.Flat
use kira_rust.RoutingTable.Flat.{FlatRoutingTable, get_bucket_index}
use kira_rust.RoutingTable.Flat.Placement.{IsTable, bucket_found, contact_at}
use kira_rust.RoutingTable.Flat.Changes.{Addition, refuses_known, refuses_path, refuses_more, adds}
use kira_rust.RoutingTable.Flat.Insertion.{index_of_lookup}
use kira_rust.RoutingTable.UnlimitedUln.{UnlimitedUlnRoutingTable}

-- The neighbors are not in the inner table.
pub record IsUlnTable (size acc : ℕ) (t : UnlimitedUlnRoutingTable) : Type 0 where
  pub inner_valid : IsTable size acc t.inner
  pub apart :
      (id : ℕ) (c : Contact)
      → HashMap.get t.un_contacts id ≡ some c
      → (i : ℕ) → get_bucket_index acc t.inner id ≡ returns i
      → Flat.contact acc t.inner id ≡ returns none

module _ (size acc : ℕ) (t : UnlimitedUlnRoutingTable) (v : IsUlnTable size acc t) where
  -- Every neighbor of the new table was one of the old table, or is not in the new inner table.
  abbrev StaysApart : HashMap Contact → FlatRoutingTable → Type 0
  StaysApart un inner =
      (id : ℕ) (d : Contact)
      → HashMap.get un id ≡ some d
      → (Flat.contact acc inner id ≡ returns none)
        ⊎ ((e : Contact) × (HashMap.get t.un_contacts id ≡ some e)
            × (Flat.contact acc inner id ≡ Flat.contact acc t.inner id))

  IsUlnTable-changed :
      (un : HashMap Contact) (inner : FlatRoutingTable)
      → IsTable size acc inner
      → StaysApart un inner
      → IsUlnTable size acc (record { un_contacts = un; inner = inner })
  IsUlnTable-changed un inner w stays = record {
    inner_valid = w;
    apart = λ id d h i k. elim (stays id d h) [
      | inl absent ↦ absent
      | inr (e, f, same) ↦
          let (b, at) = bucket_found acc inner id i k in
          let look = contact_at acc inner id i b k at in
          let (j, l) = index_of_lookup acc t.inner id (Bucket.get b id) (sym same ∙ look) in
          same ∙ v.apart id e f j l
    ];
  }

module _ (size acc : ℕ) (c : Contact) (p : NodePath) (t : UnlimitedUlnRoutingTable)
    (v : IsUlnTable size acc t) where
  -- An addition to the inner table of a node that is not among the neighbors.
  pub added_apart :
      (un : HashMap Contact) (inner' : FlatRoutingTable) (r : Result (Unit {0}) AddError)
      → HashMap.get un c.dest_id ≡ none
      → ((id : ℕ) (d : Contact)
          → HashMap.get un id ≡ some d
          → (e : Contact) × (HashMap.get t.un_contacts id ≡ some e))
      → Addition size acc t.inner c p inner' r
      → IsUlnTable size acc (record { un_contacts = un; inner = inner' })
  added_apart un _ _ fresh old (refuses_known e h) =
      IsUlnTable-changed size acc t v un t.inner v.inner_valid
        (λ id d k. let (e, f) = old id d k in inr (e, f, refl))
  added_apart un _ _ fresh old (refuses_path h k) =
      IsUlnTable-changed size acc t v un t.inner v.inner_valid
        (λ id d k. let (e, f) = old id d k in inr (e, f, refl))
  added_apart un _ _ fresh old (refuses_more b h k at l) =
      IsUlnTable-changed size acc t v un t.inner v.inner_valid
        (λ id d k. let (e, f) = old id d k in inr (e, f, refl))
  added_apart un inner' _ fresh old (adds h k w count look) =
      IsUlnTable-changed size acc t v un inner' w (λ id d g.
        let (e, f) = old id d g in
        let other : (c.dest_id == id) ≡ false = ==_ne c.dest_id id (λ same.
          let none_there : HashMap.get un id ≡ none = rw (← same) fresh in
          ground (arith, none_there, g)) in
        inr (e, f, look id ∙ rw other refl))

  -- A removal from the map only.
  pub removed_old :
      (id : ℕ) (d : Contact)
      → HashMap.get (HashMap.remove t.un_contacts c.dest_id) id ≡ some d
      → (e : Contact) × (HashMap.get t.un_contacts id ≡ some e)
  removed_old id d h = elim (Bool-cases (c.dest_id == id)) [
    | inl e ↦ absurd (ground (arith, HashMap.get-remove t.un_contacts c.dest_id id, e, h))
    | inr e ↦ (d, ground (arith, HashMap.get-remove t.un_contacts c.dest_id id, e, h))
  ]

  -- A new neighbor, which is taken out of the inner table.
  pub neighbor_apart :
      (inner' : FlatRoutingTable)
      → IsTable size acc inner'
      → ((id : ℕ)
          → Flat.contact acc inner' id
            ≡ (if c.dest_id == id then returns none else Flat.contact acc t.inner id))
      → IsUlnTable size acc
          (record { un_contacts = HashMap.insert t.un_contacts c.dest_id c; inner = inner' })
  neighbor_apart inner' w look =
      IsUlnTable-changed size acc t v (HashMap.insert t.un_contacts c.dest_id c) inner' w (λ id d h.
        elim (Bool-cases (c.dest_id == id)) [
          | inl e ↦ inl (look id ∙ rw e refl)
          | inr e ↦ inr (
            d,
            ground (arith, HashMap.get-insert t.un_contacts c.dest_id id c, e, h),
            look id ∙ rw e refl,
          )
        ])
