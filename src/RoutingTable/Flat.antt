-- ===== src/RoutingTable/Flat.antt =====
-- kira-r2kad/src/domain/routing_table/flat_routing_table.rs: a routing table as a list of buckets. The
-- bucket of a node comes from the prefix that it shares with the root; the last bucket holds all
-- nodes that share more, and only it can be split. `size` and `acc` are the const parameters
-- BUCKET_SIZE and ACC; an ACC of 64 or more, at which `1 << ACC` overflows, is left out.
pub mod Writes
pub mod Index
pub mod Placement
pub mod Changes
pub mod Refill
pub mod Splitting
pub mod Growth
pub mod Insertion
use kira_rust.Prelude.{
  ℕ, zero, suc, ◌+◌, ◌-◌, ◌*◌, ◌/◌, ◌%◌, ◌^◌, ◌≤◌, ◌<◌, min, max, dec_lt, dec_le, ℕ_discrete, ◌≡◌,
  refl, sym, ap, ◌∙◌, subst, ◌≢◌, ◌↔◌, ◌⊎◌, inl, inr, Bool, true, false, ◌&&◌, ◌||◌, not, Option,
  none, some, List, [], ◌∷◌, ◌++◌, map, arith, ltb, leb, ◌==◌, if◌then◌else◌, is_some, ltb→lt,
  lt→ltb, ==→eq, ==_self, ==_ne, Bool-cases, Option-cases, length, get_elem?, take, drop,
  length-append, length-drop-le, take-length_append, drop-length_append, contains, contains-append,
  length-take, length-drop, take-append-drop, get_elem?-inside, get_elem?-outside, set, length-set,
  get_elem?-set, get_elem?-some_lt, get_elem?-append, replicate, length-replicate,
  get_elem?-replicate, Result-cases, unwrap, Outcome, Outcome-cases, returns, panics, Result, ok,
  err, ◌>>=◌, ◌>>◌, assert, expect, Ordering, less, equal, greater, cmp, flip,
}
use kira_rust.NodeId.{
  node_bits, SharedPrefix, GroupingError, invalid_grouping, shared_prefix_len, bits,
}
use kira_rust.Vec
use kira_rust.Contact.{Contact}
use kira_rust.Bucket.{Bucket, BucketInsertionError, ReplacementError, duplicate_id, full}
use kira_rust.Bucket
use kira_rust.RoutingTable.{
  RoutingTable, AddError, already_exists, not_added, needs_validation, BucketSplitError,
  unsplittable, max_buckets_reached,
}

pub record FlatRoutingTable : Type 0 where
  pub buckets : List Bucket
  pub root : ℕ

abbrev pub level_width : ℕ → ℕ
level_width acc = 2 ^ acc - 1

unfoldable pub first_bucket_on_level : ℕ → ℕ → ℕ
first_bucket_on_level acc index = index - index % level_width acc

abbrev pub max_buckets : ℕ → ℕ
max_buckets acc = node_bits / acc * level_width acc

unfoldable pub with_buckets : ℕ → ℕ → List Bucket → Result FlatRoutingTable GroupingError
with_buckets acc root buckets =
    if ltb node_bits acc || acc == 0
    then err (invalid_grouping (if acc == 0 then 255 else acc))
    else ok (record { buckets = buckets; root = root })

unfoldable pub new : ℕ → ℕ → ℕ → Result FlatRoutingTable GroupingError
unfolding with_buckets
new size acc root = with_buckets acc root (Bucket.new size ∷ [])

unfoldable pub num_buckets : FlatRoutingTable → ℕ
num_buckets t = length t.buckets

-- `buckets.iter().flat_map(|bucket| bucket.iter())`.
unfoldable pub all_contacts : List Bucket → List Contact
all_contacts [] = []
all_contacts (b ∷ buckets) = Bucket.iter b ++ all_contacts buckets

unfoldable pub iter : FlatRoutingTable → List Contact
unfolding all_contacts
iter t = all_contacts t.buckets

unfoldable pub num_contacts : FlatRoutingTable → ℕ
unfolding iter
num_contacts t = length (iter t)

unfoldable pub is_empty : FlatRoutingTable → Bool
is_empty t = elim t.buckets [ [] ↦ false | b ∷ others ↦ length others == 0 && Bucket.is_empty b ]

-- `random` is the value of the generator for the range up to the number of contacts, which panics if empty.
unfoldable pub random_id : (ℕ → ℕ) → FlatRoutingTable → Outcome (Option ℕ)
unfolding iter num_contacts
random_id random t =
    if num_contacts t == 0
    then panics
    else returns (elim (get_elem? (iter t) (random (num_contacts t))) [
      | none ↦ none
      | some c ↦ some c.dest_id
    ])

-- The index of a node that is not the root, from its distance; the arithmetic is that of `u8` and `usize`,
-- and the assertions are those of the source.
unfoldable pub index_of_distance : ℕ → SharedPrefix → Outcome (Option ℕ)
index_of_distance acc prefix =
    let groups = (prefix.length_in_groups + 1) * acc in
    if ltb 255 groups
    then panics
    else if ltb node_bits groups
    then returns none
    else let bit_index = node_bits - groups in
      do
        assert (leb (bit_index + acc) node_bits)
        found ← bits prefix.xor bit_index acc
        digit ← unwrap found
        assert (not (digit == 0))
        above ←
            if leb node_bits (bit_index + acc)
            then returns (ok 0)
            else bits prefix.xor (bit_index + acc) acc
        assert (elim above [ ok b ↦ b == 0 | err e ↦ false ])
        assert (leb digit (level_width acc))
        let index = prefix.length_in_groups * level_width acc + (level_width acc - digit)
        assert (leb index (max_buckets acc))
        returns (some index)

-- `none` is the root key.
unfoldable pub position : ℕ → ℕ → ℕ → Outcome (Option ℕ)
unfolding index_of_distance
position acc root of_id = do
  result ← shared_prefix_len root of_id acc
  prefix ← unwrap result
  index_of_distance acc prefix

abbrev pub capped : Option ℕ → ℕ → ℕ
capped none last = last
capped (some index) last = min index last

unfoldable pub get_bucket_index : ℕ → FlatRoutingTable → ℕ → Outcome ℕ
unfolding position num_buckets
get_bucket_index acc t of_id = do
  place ← position acc t.root of_id
  assert (ltb 0 (num_buckets t))
  returns (capped place (num_buckets t - 1))

-- The index is a `u8` in the product.
unfoldable pub get_bucket_prefix_length : ℕ → ℕ → ℕ
get_bucket_prefix_length acc bucket_index =
    (acc + acc * (bucket_index / level_width acc % 256)) % 256

unfoldable pub bucket : ℕ → FlatRoutingTable → ℕ → Outcome Bucket
unfolding get_bucket_index
bucket acc t of_id = do index ← get_bucket_index acc t of_id; expect (get_elem? t.buckets index)

-- What an operation through `bucket_mut` leaves and returns.
unfoldable pub bucket_mut :
    {R : Type 0}
    → ℕ
    → FlatRoutingTable
    → ℕ
    → (Bucket → Outcome (Bucket × R))
    → Outcome (FlatRoutingTable × R)
unfolding get_bucket_index
bucket_mut acc t of_id operation = do
  index ← get_bucket_index acc t of_id
  b ← expect (get_elem? t.buckets index)
  (b', result) ← operation b
  returns (record t { buckets = set t.buckets index b' }, result)

-- The errors of a bucket as those of a table.
abbrev pub add_result : Result (Unit {0}) BucketInsertionError → Result (Unit {0}) AddError
add_result (ok u) = ok u
add_result (err full) = err not_added
add_result (err (duplicate_id id)) = err (already_exists id)
add_result (err BucketInsertionError.needs_validation) = err needs_validation

unfoldable pub add :
    ℕ → FlatRoutingTable → Contact → Outcome (FlatRoutingTable × Result (Unit {0}) AddError)
unfolding bucket_mut
add acc t c =
    bucket_mut acc t c.dest_id
      λ b. do (b', inserted) ← Bucket.insert b c; returns (b', add_result inserted)

unfoldable pub remove : ℕ → FlatRoutingTable → ℕ → Outcome (FlatRoutingTable × Option Contact)
unfolding bucket_mut
remove acc t id = bucket_mut acc t id λ b. returns (Bucket.remove b id)

unfoldable pub replace :
    ℕ
    → FlatRoutingTable
    → ℕ
    → Contact
    → Outcome (FlatRoutingTable × Result Contact ReplacementError)
unfolding bucket_mut
replace acc t id c = bucket_mut acc t id λ b. Bucket.replace b id c

unfoldable pub contact : ℕ → FlatRoutingTable → ℕ → Outcome (Option Contact)
unfolding bucket
contact acc t id = do b ← bucket acc t id; returns (Bucket.get b id)

unfoldable pub contact_mut :
    ℕ → FlatRoutingTable → ℕ → (Contact → Contact) → Outcome FlatRoutingTable
unfolding bucket_mut
contact_mut acc t id f = do
  (t', u) ← bucket_mut acc t id λ b. returns (Bucket.get_mut b id f, let u : Unit {0} = tt in u)
  returns t'

unfoldable pub contains_id : ℕ → FlatRoutingTable → ℕ → Outcome Bool
unfolding bucket
contains_id acc t id = do b ← bucket acc t id; returns (Bucket.contains_contact b id)

unfoldable pub contains_with : ℕ → FlatRoutingTable → ℕ → (Contact → Bool) → Outcome Bool
unfolding bucket
contains_with acc t id f = do
  b ← bucket acc t id
  returns (elim (Bucket.get b id) [ none ↦ false | some c ↦ f c ])

unfoldable pub is_close_contact : ℕ → FlatRoutingTable → ℕ → Outcome Bool
unfolding get_bucket_index num_buckets
is_close_contact acc t id = do
  bucket_index ← get_bucket_index acc t id
  returns (bucket_index + 1 == num_buckets t || bucket_index + 2 == num_buckets t)

-- The loop that adds the contacts of the old last bucket again; an error is unreachable in the source.
unfoldable pub add_again : ℕ → FlatRoutingTable → List Contact → Outcome FlatRoutingTable
add_again acc t [] = returns t
add_again acc t (c ∷ contacts) = do
  (t', added) ← add acc t c
  elim added [ ok u ↦ add_again acc t' contacts | err e ↦ panics ]

unfoldable pub split_bucket :
    ℕ → ℕ → FlatRoutingTable → ℕ → Outcome (FlatRoutingTable × Result ℕ BucketSplitError)
unfolding get_bucket_index num_buckets add_again
split_bucket size acc t id =
    if leb (max_buckets acc) (num_buckets t) then returns (t, err max_buckets_reached) else do
      bucket_index ← get_bucket_index acc t id
      if not (bucket_index == num_buckets t - 1) then returns (t, err unsplittable) else do
        old ← expect (get_elem? t.buckets bucket_index)
        others ← Vec.remove t.buckets bucket_index
        let level = replicate (level_width acc) (Bucket.new size)
        let fresh : FlatRoutingTable = record t {
          buckets = (others ++ level) ++ Bucket.new size ∷ [];
        }
        t' ← add_again acc fresh (Bucket.iter old)
        returns (t', ok bucket_index)

-- The implementation of the trait.
abbrev pub routing_table : ℕ → ℕ → RoutingTable FlatRoutingTable
routing_table size acc = record {
  root = λ t. t.root;
  add = add acc;
  contact = contact acc;
  contact_mut = contact_mut acc;
  contains = contains_id acc;
  split_bucket = split_bucket size acc;
  bucket = bucket acc;
}
