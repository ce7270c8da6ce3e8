-- ===== src/InsertionStrategy/Effects.antt =====
-- The effects of an insertion into the flat routing table, seen through its lookups.
use kira_rust.Prelude.{
  ℕ, ◌<◌, ◌≡◌, ◌⊎◌, sym, ◌∙◌, subst, inl, inr, Bool, true, false, none, some, arith, ◌==◌,
  if◌then◌else◌, Bool-cases, length, returns,
}
use kira_rust.Path.{NodePath, size, is_notvalidated}
use kira_rust.Contact.{Contact, is_older_than}
use kira_rust.Bucket.{Bucket}
use kira_rust.Bucket
use kira_rust.Contact.Assessment.{IsContact, Assessed}
use kira_rust.RoutingTable.Flat.{FlatRoutingTable, contact, bucket}
use kira_rust.RoutingTable.Flat.Insertion.{SameLookups}
use kira_rust.InsertionStrategy.{
  InsertionStrategyResult, dropped, inserted, replaced, Readings, on_error, insert_or_change,
  replace_in_full_bucket,
}
use kira_rust.InsertionStrategy
use kira_rust.InsertionStrategy.Replacement.{size_of, NoneLonger}

-- Every contact of the table satisfies the invariant of contacts.
abbrev pub HasContacts : ℕ → FlatRoutingTable → Type 0
HasContacts acc t = (id : ℕ) (c : Contact) → contact acc t id ≡ returns (some c) → IsContact c

module _ (size acc : ℕ) (c : Contact) (p : NodePath) (now : Readings) (t : FlatRoutingTable) where
  -- What the insertion can do, seen through the lookups.
  pub data Effect : FlatRoutingTable → InsertionStrategyResult → Type 0 where
    is_inserted :
        {t' : FlatRoutingTable}
        → contact acc t c.dest_id ≡ returns none
        → ((id : ℕ)
            → contact acc t' id ≡ (if c.dest_id == id then returns (some c) else contact acc t id))
        → Effect t' inserted
    is_waiting :
        {t' : FlatRoutingTable}
        → is_notvalidated p ≡ true
        → SameLookups acc t t'
        → Effect t' InsertionStrategy.needs_validation
    is_outdated :
        {t' : FlatRoutingTable} (old : Contact)
        → contact acc t c.dest_id ≡ returns (some old)
        → (is_older_than c old now.own_age now.other_age ≡ returns true)
          ⊎ (c.state_seq_nr.ssn < old.state_seq_nr.ssn)
        → SameLookups acc t t'
        → Effect t' dropped
    is_no_better :
        {t' : FlatRoutingTable} (b : Bucket)
        → contact acc t c.dest_id ≡ returns none
        → bucket acc t' c.dest_id ≡ returns b
        → Bucket.is_full b ≡ true
        → NoneLonger (length p.ids) (Bucket.iter b)
        → SameLookups acc t t'
        → Effect t' dropped
    is_assessed :
        {t' : FlatRoutingTable} (old e : Contact) (b : Bool)
        → contact acc t c.dest_id ≡ returns (some old)
        → Assessed old p e b
        → IsContact e
        → ((id : ℕ)
            → contact acc t' id ≡ (if c.dest_id == id then returns (some e) else contact acc t id))
        → Effect t' (if b then InsertionStrategy.updated else dropped)
    takes_place :
        {t' : FlatRoutingTable} (old : Contact) (n : ℕ)
        → contact acc t c.dest_id ≡ returns none
        → contact acc t old.dest_id ≡ returns (some old)
        → size_of old ≡ returns n
        → length p.ids < n
        → is_notvalidated p ≡ false
        → ((id : ℕ)
            → contact acc t' id ≡ (
                if c.dest_id == id
                then returns (some c)
                else if old.dest_id == id
                then returns none
                else contact acc t id))
        → Effect t' (replaced old.dest_id)

-- The table after an effect has only contacts that satisfy the invariant.
HasContacts-set :
    (acc : ℕ) (t : FlatRoutingTable) (c : Contact) (id : ℕ) (d : Contact)
    → HasContacts acc t
    → IsContact c
    → (if c.dest_id == id then returns (some c) else contact acc t id) ≡ returns (some d)
    → IsContact d
HasContacts-set acc t c id d all w h = elim (Bool-cases (c.dest_id == id)) [
  | inl e ↦ let same : c ≡ d = ground (arith, e, h) in subst IsContact same w
  | inr e ↦ all id d (ground (arith, e, h))
]

pub Effect-HasContacts :
    (size acc : ℕ) (c : Contact) (p : NodePath) (now : Readings) (t t' : FlatRoutingTable)
    (r : InsertionStrategyResult)
    → HasContacts acc t
    → IsContact c
    → Effect size acc c p now t t' r
    → HasContacts acc t'
Effect-HasContacts size acc c p now t t' _ all w (is_inserted absent look) id d h =
    HasContacts-set acc t c id d all w (sym (look id) ∙ h)
Effect-HasContacts size acc c p now t t' _ all w (is_waiting g same) id d h =
    all id d (sym (same id) ∙ h)
Effect-HasContacts size acc c p now t t' _ all w (is_outdated old g h' same) id d h =
    all id d (sym (same id) ∙ h)
Effect-HasContacts size acc c p now t t' _ all w (is_no_better b g at full longer same) id d h =
    all id d (sym (same id) ∙ h)
Effect-HasContacts size acc c p now t t' _ all w (is_assessed old e b g a v look) id d h =
    elim (Bool-cases (c.dest_id == id)) [
      | inl k ↦ let same : e ≡ d = ground (arith, look id, k, h) in subst IsContact same v
      | inr k ↦ all id d (ground (arith, look id, k, h))
    ]
Effect-HasContacts size acc c p now t t' _ all w (takes_place old n g f k l m look) id d h =
    elim (Bool-cases (c.dest_id == id)) [
      | inl e ↦ let same : c ≡ d = ground (arith, look id, e, h) in subst IsContact same w
      | inr e ↦ elim (Bool-cases (old.dest_id == id)) [
        | inl o ↦ absurd (ground (arith, look id, e, o, h))
        | inr o ↦ all id d (ground (arith, look id, e, o, h))
      ]
    ]
