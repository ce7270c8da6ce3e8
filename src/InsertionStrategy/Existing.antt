-- ===== src/InsertionStrategy/Existing.antt =====
-- What a learned contact does to the one that the flat routing table has.
use kira_rust.Prelude.{
  ℕ, ◌-◌, ◌*◌, ◌/◌, ◌^◌, ◌<◌, dec_le, ◌≡◌, sym, ap, ◌∙◌, subst, ◌⊎◌, inl, inr, Bool, true, ◌&&◌,
  ◌||◌, some, List, arith, ltb, ◌==◌, if◌then◌else◌, ==_self, Bool-cases, returns,
}
use kira_rust.Path.{NodePath, last?, is_valid, is_notvalidated}
use kira_rust.Contact.{Contact, is_older_than, cmp_actuality, age}
use kira_rust.PathCollection.{set_proposed_path}
use kira_rust.Bucket
use kira_rust.Bucket.Slots.{dest_id-find_id}
use kira_rust.Contact.Assessment.{IsContact, Assessed, assess_path_candidate_and_update_lem}
use kira_rust.Contact.Suitability.{LeadsTo}
use kira_rust.RoutingTable.Flat.{FlatRoutingTable, contact, routing_table}
use kira_rust.RoutingTable.Flat.Placement.{IsTable, IsAcceptable, bucket_found, contact_at}
use kira_rust.RoutingTable.Flat.Insertion.{index_of_lookup}
use kira_rust.RoutingTable.Flat.Writes.{contact_mut_lem}
use kira_rust.InsertionStrategy.{
  InsertionStrategyResult, dropped, updated, Readings, update_existing,
}

-- The clock has not run for half a billion years.
abbrev pub IsReading : Readings → Type 0
IsReading now = (now.own_age < 2 ^ 64 * 1_000_000) × (now.other_age < 2 ^ 64 * 1_000_000)

is_older_than_total :
    (c d : Contact) (now : Readings)
    → IsReading now
    → (b : Bool) × (is_older_than c d now.own_age now.other_age ≡ returns b)
unfolding is_older_than cmp_actuality age
is_older_than_total c d now (h, k) = (
  ltb c.state_seq_nr.ssn d.state_seq_nr.ssn
      || c.state_seq_nr.ssn == d.state_seq_nr.ssn
        && ltb ((now.other_age - d.last_seen) / 1_000_000)
            ((now.own_age - c.last_seen) / 1_000_000),
  ground arith,
)

found_in :
    (size acc : ℕ) (t : FlatRoutingTable) (id : ℕ) (old : Contact)
    → IsTable size acc t
    → contact acc t id ≡ returns (some old)
    → (old.dest_id ≡ id) × IsAcceptable old
unfolding Bucket.get
found_in size acc t id old v known =
    let (i, h) = index_of_lookup acc t id (some old) known in
    let (b, k) = bucket_found acc t id i h in
    let found : Bucket.get b id ≡ some old = ground (arith, contact_at acc t id i b h k, known) in
    (dest_id-find_id id b.contacts old found, (v.settled i b k id old found).1)

valid-IsAcceptable :
    (c : Contact) (p : NodePath)
    → c.path_collection.active_path ≡ some p
    → is_valid p ≡ true
    → IsAcceptable c
unfolding is_valid is_notvalidated
valid-IsAcceptable c p h k = (p, h, ground arith)

-- The assessment is about the same node, whose path stays acceptable.
Assessed-same :
    (c : Contact) (p : NodePath) (e : Contact) (b : Bool)
    → last? p.ids ≡ some c.dest_id
    → IsContact e
    → Assessed c p e b
    → IsAcceptable c
    → (e.dest_id ≡ c.dest_id) × IsAcceptable e
unfolding set_proposed_path
Assessed-same c p e b h v (inl (f, g, a)) good =
    let leads = subst (LeadsTo e.dest_id) a.active v.active in
    (ground (arith, leads, a.same, h), valid-IsAcceptable e a.path a.active a.validated)
Assessed-same c p e b h v (inr (inl (f, g, k))) (q, active, l) = (
  ap (λ (d : Contact). d.dest_id) k,
  (q, ap (λ (d : Contact). d.path_collection.active_path) k ∙ active, l),
)
Assessed-same c p e b h v (inr (inr (f, k))) good =
    (ap (λ (d : Contact). d.dest_id) k, subst IsAcceptable (sym k) good)

module _ (size acc : ℕ) (c old : Contact) (p : NodePath) (now : Readings)
    (t : FlatRoutingTable) where
  -- What becomes of the contact that is there.
  pub data Update : FlatRoutingTable → InsertionStrategyResult → Type 0 where
    outdated :
        (is_older_than c old now.own_age now.other_age ≡ returns true)
          ⊎ (c.state_seq_nr.ssn < old.state_seq_nr.ssn)
        → Update t dropped
    assesses :
        {t' : FlatRoutingTable} (e : Contact) (b : Bool)
        → IsContact e
        → Assessed old p e b
        → IsTable size acc t'
        → ((id : ℕ)
            → contact acc t' id ≡ (if c.dest_id == id then returns (some e) else contact acc t id))
        → Update t' (if b then updated else dropped)

  -- An update of a contact that is in the table returns. It drops an outdated one, without a change; else
  -- it assesses the path that was learned, and the table then has the assessed contact and is as before
  -- for all other nodes.
  pub update_existing_total :
      (rank : List ℕ → ℕ)
      → IsTable size acc t
      → contact acc t c.dest_id ≡ returns (some old)
      → IsContact old
      → c.path_collection.active_path ≡ some p
      → last? p.ids ≡ some c.dest_id
      → IsReading now
      → (t' : FlatRoutingTable) × (r : InsertionStrategyResult) × (update_existing
            (routing_table size acc)
            rank
            now
            t
            c
          ≡ returns (t', r))
        × Update t' r
  unfolding update_existing
  update_existing_total rank v known w path leads reading =
      let (same, good) = found_in size acc t c.dest_id old v known in
      let (older, e) = is_older_than_total c old now reading in
      let leads' : last? p.ids ≡ some old.dest_id = rw same leads in
      let (d, b, f, valid_d, assessed, taken) =
        assess_path_candidate_and_update_lem rank old p now.validated w leads' in
      let (kept, fine) = Assessed-same old p d b leads' valid_d assessed good in
      let (t', g, valid_t, look) =
        contact_mut_lem size acc t c.dest_id old d v known (kept ∙ same) fine in
      elim (Bool-cases older) [
        | inl k ↦ (
          t,
          dropped,
          ground (arith, known, same, ==_self c.dest_id, e, k),
          outdated (inl (e ∙ ap returns k)),
        )
        | inr k ↦ elim (dec_le old.state_seq_nr.ssn c.state_seq_nr.ssn) [
          | yes l ↦ (
            t',
            (if b then updated else dropped),
            ground (arith, known, same, ==_self c.dest_id, e, k, path, f, g),
            assesses d b valid_d assessed valid_t look,
          )
          | no l ↦ (
            t,
            dropped,
            ground (arith, known, same, ==_self c.dest_id, e, k),
            outdated (inr (omega (arith, l))),
          )
        ]
      ]
