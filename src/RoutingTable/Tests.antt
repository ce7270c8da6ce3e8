-- ===== src/RoutingTable/Tests.antt =====
-- Insertions, splits and the next hop at a small table.
use kira_rust.Prelude.{
  ℕ, zero, suc, get_elem?, ◌==◌, ==→eq, Bool-cases, inl, inr, subst, ◌≡◌, refl, Option, some, none,
  List, [], ◌∷◌, arith, returns, Result, ok, err, false,
}
use kira_rust.Path.{NodePath, valid, size, is_notvalidated}
use kira_rust.Contact.{Contact, is_uln}
use kira_rust.Contact
use kira_rust.Bucket.{Bucket, ReplacementError, not_found}
use kira_rust.Bucket
use kira_rust.Bucket.Changes.{IsBucket}
use kira_rust.NodeId.{
  bits, bits_mask, leading_zeros, u128_leading_zeros, bit_length, shared_prefix_len,
}
use kira_rust.HashMap
use kira_rust.RoutingTable.{AddError, BucketSplitError, InsertionError, insert, PrefixContact}
use kira_rust.RoutingTable.Flat.{
  position, index_of_distance, num_buckets, FlatRoutingTable, split_bucket, routing_table,
  get_bucket_index,
}
use kira_rust.RoutingTable.Flat.Placement.{IsTable, IsAcceptable}
use kira_rust.RoutingTable.Flat.Growth.{Split, split_bucket_total}
use kira_rust.RoutingTable.Flat.Insertion.{Insertion, insert_total}
use kira_rust.RoutingTable.Flat.{contact}
use kira_rust.RoutingTable.Flat
use kira_rust.RoutingTable.UnlimitedUln.{UnlimitedUlnRoutingTable, add, replace}
use kira_rust.RoutingTable.UnlimitedUln
use kira_rust.RoutingTable.UnlimitedUln.Apart.{IsUlnTable}
use kira_rust.RoutingTable.UnlimitedUln.Changes.{UlnAddition, uln_add_lem, replace_unknown}
use kira_rust.RoutingTable.NextHop.{next_hop}
use kira_rust.RoutingTable.NextHop.Progress.{IsNextHop}
use kira_rust.RoutingTable.NextHop.Choice.{next_hop_progress}

abbrev pub path_to : ℕ → NodePath
path_to id = record {
  ids = id ∷ [];
  path_state = valid;
  last_validated = none;
  last_path_refresh = none;
}

abbrev pub contact_of : ℕ → Contact
contact_of id = record {
  dest_id = id;
  state = Contact.valid;
  last_seen = 0;
  path_collection = record {
    active_path = some (path_to id);
    proposed_path = none;
    alternative_paths = none ∷ none ∷ none ∷ [];
  };
  state_seq_nr = record { ssn = 1 };
}

-- A bucket of one slot, which is taken.
abbrev pub table : FlatRoutingTable
table = record { buckets = record { contacts = some (contact_of 2) ∷ [] } ∷ []; root = 1 }

abbrev pub slot : Bucket
slot = record { contacts = some (contact_of 2) ∷ [] }

pub slot_at : (i : ℕ) (b : Bucket) → get_elem? table.buckets i ≡ some b → slot ≡ b
slot_at zero b h = ground arith
slot_at (suc i) b h = absurd (ground arith)

index_at :
    (i : ℕ) (b : Bucket)
    → get_elem? table.buckets i ≡ some b
    → get_bucket_index 1 table 2 ≡ returns i
unfolding get_bucket_index position shared_prefix_len leading_zeros u128_leading_zeros bit_length
    index_of_distance bits bits_mask num_buckets
index_at zero b h = refl
index_at (suc i) b h = absurd (ground arith)

pub slot_found :
    (id : ℕ) (c : Contact) → Bucket.get slot id ≡ some c → (2 ≡ id) × (contact_of 2 ≡ c)
unfolding Bucket.get Bucket.find_id
slot_found id c h = elim (Bool-cases (2 == id)) [
  | inl e ↦ (==→eq 2 id e, ground (arith, e, h))
  | inr e ↦ absurd (ground (arith, e, h))
]

slot-IsBucket : IsBucket 1 slot
unfolding Bucket.find_id
slot-IsBucket = record { sized = refl; distinct = (refl, tt) }

pub table-IsTable : IsTable 1 1 table
unfolding num_buckets is_notvalidated
table-IsTable = record {
  filled = omega arith;
  buckets_valid = λ i b h. subst (IsBucket 1) (slot_at i b h) slot-IsBucket;
  settled = λ i b h id c e.
      let found : Bucket.get slot id ≡ some c = rw (slot_at i b h) e in
      let (same_id, same) = slot_found id c found in
      (
        subst (λ k. get_bucket_index 1 table k ≡ returns i) same_id (index_at i b h),
        subst IsAcceptable same (path_to 2, refl, refl),
      );
}

insert_total_example :
    (t' : FlatRoutingTable) × (r : Result (Unit {0}) InsertionError) × (insert
        (routing_table 1 1)
        113
        table
        (contact_of 9)
      ≡ some (returns (t', r)))
    × Insertion 1 1 (contact_of 9) (path_to 9) table t' r
insert_total_example =
    insert_total 1 1 (contact_of 9) (path_to 9) table 112 (omega arith) (omega arith) (omega arith)
      (omega arith) (omega arith) refl table-IsTable

split_bucket_total_example :
    (t' : FlatRoutingTable) × (r : Result ℕ BucketSplitError) × (split_bucket 1 1 table 9
      ≡ returns (t', r))
    × Split 1 1 table 9 t' r
split_bucket_total_example =
    split_bucket_total 1 1 table 9 (omega arith) (omega arith) (omega arith) (omega arith)
      table-IsTable

abbrev nearest : List PrefixContact
nearest = (record { xor = 1; length_in_groups = 111 }, contact_of 8) ∷ []

next_hop_progress_example :
    (hop : Option Contact) × (next_hop
        (λ target n grouping. returns (ok nearest))
        (λ c. false)
        1
        9
        1
      ≡ returns (ok hop))
    × IsNextHop 1 9 1 nearest hop
unfolding size shared_prefix_len leading_zeros u128_leading_zeros bit_length
next_hop_progress_example =
    next_hop_progress 1 9 1 (λ target n grouping. returns (ok nearest)) (λ c. false) nearest
      (omega arith) (omega arith) (omega arith) (omega arith) refl
      ((refl, omega arith, omega arith, (path_to 8, 1, refl, refl)), tt) tt

-- A former neighbor, which now is only reached over another node.
abbrev far_path : NodePath
far_path = record (path_to 9) { ids = 2 ∷ 9 ∷ [] }

abbrev far : Contact
far = record (contact_of 9) {
  path_collection = record (contact_of 9).path_collection { active_path = some far_path };
}

abbrev former : Contact
former = record (contact_of 9) { state = Contact.dead }

abbrev uln_table : UnlimitedUlnRoutingTable
uln_table = record { un_contacts = (9, former) ∷ []; inner = table }

index_of_9 : get_bucket_index 1 table 9 ≡ returns 0
unfolding get_bucket_index position shared_prefix_len leading_zeros u128_leading_zeros bit_length
    index_of_distance bits bits_mask num_buckets
index_of_9 = refl

absent_9 : contact 1 table 9 ≡ returns none
unfolding contact Flat.bucket Bucket.get Bucket.find_id get_bucket_index position shared_prefix_len
    leading_zeros u128_leading_zeros bit_length index_of_distance bits bits_mask num_buckets
absent_9 = refl

uln_table-IsUlnTable : IsUlnTable 1 1 uln_table
unfolding HashMap.get
uln_table-IsUlnTable = record {
  inner_valid = table-IsTable;
  apart = λ id c h i k. elim (Bool-cases (9 == id)) [
    | inl e ↦ subst (λ j. contact 1 table j ≡ returns none) (==→eq 9 id e) absent_9
    | inr e ↦ absurd (ground (arith, e, h))
  ];
}

uln_add_example :
    (t' : UnlimitedUlnRoutingTable) × (r : Result (Unit {0}) AddError) × (add 1 uln_table far
      ≡ returns (t', r))
    × UlnAddition 1 1 far far_path uln_table t' r
    × IsUlnTable 1 1 t'
unfolding is_uln size
uln_add_example =
    uln_add_lem 1 1 far far_path uln_table 0 false uln_table-IsUlnTable refl refl index_of_9

abbrev no_neighbors : UnlimitedUlnRoutingTable
no_neighbors = record { un_contacts = []; inner = table }

replace_unknown_example :
    (t' : UnlimitedUlnRoutingTable) × (replace 1 no_neighbors 9 (contact_of 9)
      ≡ returns (t', err (not_found 9)))
    × (UnlimitedUln.contact 1 t' 9 ≡ returns (some (contact_of 9)))
unfolding UnlimitedUln.contact HashMap.get
replace_unknown_example =
    replace_unknown 1 1 no_neighbors 9 0 (contact_of 9) table-IsTable index_of_9 absent_9
