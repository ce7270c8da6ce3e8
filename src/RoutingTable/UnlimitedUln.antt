-- ===== src/RoutingTable/UnlimitedUln.antt =====
-- kira-r2kad/src/domain/routing_table/unlimited_uln_routing_table.rs: a flat routing table beside a map of
-- the underlay neighbors, of which it takes any number.
pub mod Apart
pub mod Changes
use kira_rust.Prelude.{
  ℕ, zero, suc, ◌+◌, ◌-◌, ◌*◌, ◌/◌, ◌%◌, ◌^◌, ◌≤◌, ◌<◌, min, max, dec_lt, dec_le, ℕ_discrete, ◌≡◌,
  refl, sym, ap, ◌∙◌, subst, ◌≢◌, ◌↔◌, ◌⊎◌, inl, inr, Bool, true, false, ◌&&◌, ◌||◌, not, Option,
  none, some, List, [], ◌∷◌, ◌++◌, map, arith, ltb, leb, ◌==◌, if◌then◌else◌, is_some, ltb→lt,
  lt→ltb, ==→eq, ==_self, ==_ne, Bool-cases, Option-cases, length, get_elem?, take, drop,
  length-append, length-drop-le, take-length_append, drop-length_append, contains, contains-append,
  length-take, length-drop, take-append-drop, get_elem?-inside, get_elem?-outside, set, set_self,
  length-set, get_elem?-set, get_elem?-some_lt, get_elem?-append, replicate, length-replicate,
  get_elem?-replicate, Result-cases, unwrap, Outcome, Outcome-cases, returns, panics, Result, ok,
  err, ◌>>=◌, ◌>>◌, assert, expect, Ordering, less, equal, greater, cmp, flip,
}
use kira_rust.HashMap
use kira_rust.HashMap.{HashMap}
use kira_rust.Contact.{Contact, is_uln, is_valid_contact}
use kira_rust.Bucket.{Bucket, ReplacementError}
use kira_rust.RoutingTable.{RoutingTable, AddError, already_exists, BucketSplitError}
use kira_rust.RoutingTable.Flat
use kira_rust.RoutingTable.Flat.{FlatRoutingTable}

pub record UnlimitedUlnRoutingTable : Type 0 where
  pub un_contacts : HashMap Contact
  pub inner : FlatRoutingTable

-- `From<FlatRoutingTable>`.
unfoldable pub from_flat : FlatRoutingTable → Outcome UnlimitedUlnRoutingTable
from_flat routing_table = do
  assert (Flat.is_empty routing_table)
  returns (record { un_contacts = []; inner = routing_table })

unfoldable pub len : UnlimitedUlnRoutingTable → ℕ
len t = length t.un_contacts + Flat.num_contacts t.inner

unfoldable pub is_empty : UnlimitedUlnRoutingTable → Bool
is_empty t = length t.un_contacts == 0 && Flat.is_empty t.inner

-- The regular addition, to the inner table.
unfoldable pub add_inner :
    ℕ
    → UnlimitedUlnRoutingTable
    → Contact
    → Outcome (UnlimitedUlnRoutingTable × Result (Unit {0}) AddError)
add_inner acc t c = do
  (inner', result) ← Flat.add acc t.inner c
  returns (record t { inner = inner' }, result)

unfoldable pub add :
    ℕ
    → UnlimitedUlnRoutingTable
    → Contact
    → Outcome (UnlimitedUlnRoutingTable × Result (Unit {0}) AddError)
unfolding add_inner
add acc t c = elim (HashMap.get t.un_contacts c.dest_id) [
  | some uln_entry ↦ do
    neighbor ← is_uln c
    if neighbor
        then returns (t, err (already_exists c.dest_id))
        else if is_valid_contact uln_entry
        then returns (t, err (already_exists c.dest_id))
        else add_inner acc (record t { un_contacts = HashMap.remove t.un_contacts c.dest_id }) c
  | none ↦ do
    neighbor ← is_uln c
    if neighbor
        then (do
          (inner', removed) ← Flat.remove acc t.inner c.dest_id
          returns (
            record { un_contacts = HashMap.insert t.un_contacts c.dest_id c; inner = inner' },
            ok tt,
          ))
        else add_inner acc t c
]

unfoldable pub remove :
    ℕ → UnlimitedUlnRoutingTable → ℕ → Outcome (UnlimitedUlnRoutingTable × Option Contact)
remove acc t id = elim (HashMap.get t.un_contacts id) [
  | some c ↦ returns (record t { un_contacts = HashMap.remove t.un_contacts id }, some c)
  | none ↦ do
    (inner', removed) ← Flat.remove acc t.inner id
    returns (record t { inner = inner' }, removed)
]

-- The insertion into the map comes first, whether or not the node is there.
unfoldable pub replace :
    ℕ
    → UnlimitedUlnRoutingTable
    → ℕ
    → Contact
    → Outcome (UnlimitedUlnRoutingTable × Result Contact ReplacementError)
replace acc t id c =
    let t' : UnlimitedUlnRoutingTable = record t {
      un_contacts = HashMap.insert t.un_contacts id c;
    } in
    elim (HashMap.get t.un_contacts id) [
      | some old ↦ returns (t', ok old)
      | none ↦ do
        (inner', result) ← Flat.replace acc t'.inner id c
        returns (record t' { inner = inner' }, result)
    ]

unfoldable pub contact : ℕ → UnlimitedUlnRoutingTable → ℕ → Outcome (Option Contact)
contact acc t id = elim (HashMap.get t.un_contacts id) [
  | some c ↦ returns (some c)
  | none ↦ Flat.contact acc t.inner id
]

unfoldable pub contact_mut :
    ℕ → UnlimitedUlnRoutingTable → ℕ → (Contact → Contact) → Outcome UnlimitedUlnRoutingTable
contact_mut acc t id f =
    if HashMap.contains_key t.un_contacts id
    then returns (record t { un_contacts = HashMap.modify t.un_contacts id f })
    else do inner' ← Flat.contact_mut acc t.inner id f; returns (record t { inner = inner' })

unfoldable pub contains_id : ℕ → UnlimitedUlnRoutingTable → ℕ → Outcome Bool
contains_id acc t id =
    if HashMap.contains_key t.un_contacts id then returns true else Flat.contains_id acc t.inner id

unfoldable pub contains_with : ℕ → UnlimitedUlnRoutingTable → ℕ → (Contact → Bool) → Outcome Bool
contains_with acc t id f = elim (HashMap.get t.un_contacts id) [
  | some c ↦ returns (f c)
  | none ↦ Flat.contains_with acc t.inner id f
]

unfoldable pub split_bucket :
    ℕ
    → ℕ
    → UnlimitedUlnRoutingTable
    → ℕ
    → Outcome (UnlimitedUlnRoutingTable × Result ℕ BucketSplitError)
split_bucket size acc t id = do
  (inner', result) ← Flat.split_bucket size acc t.inner id
  returns (record t { inner = inner' }, result)

abbrev pub routing_table : ℕ → ℕ → RoutingTable UnlimitedUlnRoutingTable
routing_table size acc = record {
  root = λ t. t.inner.root;
  add = add acc;
  contact = contact acc;
  contact_mut = contact_mut acc;
  contains = contains_id acc;
  split_bucket = split_bucket size acc;
  bucket = λ t. Flat.bucket acc t.inner;
}
