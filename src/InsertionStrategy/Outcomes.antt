-- ===== src/InsertionStrategy/Outcomes.antt =====
-- The insertion of a learned contact into the flat routing table, with what follows a refusal.
use kira_rust.Prelude.{ℕ, ◌<◌, ◌≡◌, true, some, List, returns}
use kira_rust.Path.{NodePath, size, last?}
use kira_rust.Contact.{Contact, is_valid_contact}
use kira_rust.Bucket.{Bucket}
use kira_rust.Bucket
use kira_rust.RoutingTable.Flat.{FlatRoutingTable, routing_table}
use kira_rust.RoutingTable.Flat.Placement.{IsTable}
use kira_rust.RoutingTable.Flat.Insertion.{Insertion}
use kira_rust.InsertionStrategy.{
  InsertionStrategyResult, dropped, replaced, Readings, insert_or_change,
}
use kira_rust.InsertionStrategy
use kira_rust.InsertionStrategy.Existing.{IsReading}
use kira_rust.InsertionStrategy.Replacement.{Replacement}
use kira_rust.InsertionStrategy.Effects.{HasContacts, Effect}

module _ (size acc : ℕ) (c : Contact) (p : NodePath) (now : Readings) (t : FlatRoutingTable)
    (rank : List ℕ → ℕ) (room : 0 < size) (all : HasContacts acc t)
    (valid_c : is_valid_contact c ≡ true) (path : c.path_collection.active_path ≡ some p)
    (leads : last? p.ids ≡ some c.dest_id) (reading : IsReading now) where
  abbrev Changes : ℕ → Type 0
  Changes fuel =
      (t' : FlatRoutingTable) × (r : InsertionStrategyResult) × (insert_or_change
          (routing_table size acc) rank now fuel t c
        ≡ some (returns (t', r)))
      × Effect size acc c p now t t' r
      × IsTable size acc t'
