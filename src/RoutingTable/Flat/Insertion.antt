-- ===== src/RoutingTable/Flat/Insertion.antt =====
-- The insertion by splits into the flat routing table ends, and what it does on every branch.
use kira_rust.Prelude.{
  ℕ, zero, suc, ◌+◌, ◌≤◌, ◌<◌, ◌≡◌, refl, sym, ap, ◌∙◌, inl, inr, true, false, Option, none, some,
  arith, ◌==◌, if◌then◌else◌, Outcome, Outcome-cases, returns, Result, ok, err,
}
use native.Mathlib.Nat.{pow-suc, one-le-pow}
use kira_rust.Path.{NodePath, is_notvalidated}
use kira_rust.NodeId.Prefixes.{IsId}
use kira_rust.Contact.{Contact}
use kira_rust.Bucket.{Bucket, is_full}
use kira_rust.RoutingTable.{
  AddError, already_exists, not_added, needs_validation, BucketSplitError, max_buckets_reached,
  unsplittable, InsertionError, bucket_split, insert,
}
use kira_rust.RoutingTable.Flat.{
  FlatRoutingTable, num_buckets, level_width, max_buckets, get_bucket_index, contact, bucket, add,
  split_bucket, routing_table,
}
use kira_rust.RoutingTable.Flat.Placement.{IsTable, get_bucket_index-total}
use kira_rust.RoutingTable.Flat.Changes.{
  Addition, refuses_known, refuses_path, refuses_more, adds, add_lem,
}
use kira_rust.RoutingTable.Flat.Growth.{
  Split, refuses_deeper, refuses_inner, splits, split_bucket_lem,
}

level_width-pos : (acc : ℕ) → 0 < acc → 0 < level_width acc
level_width-pos zero h = absurd (omega arith)
level_width-pos (suc acc) h = omega (arith, pow-suc 2 acc, one-le-pow acc 2)

-- A lookup that returns has found a bucket.
pub index_of_lookup :
    (acc : ℕ) (t : FlatRoutingTable) (id : ℕ) (found : Option Contact)
    → contact acc t id ≡ returns found
    → (i : ℕ) × (get_bucket_index acc t id ≡ returns i)
unfolding contact bucket
index_of_lookup acc t id found h = elim (Outcome-cases (get_bucket_index acc t id)) [
  | inl e ↦ absurd (ground (arith, e))
  | inr e ↦ e
]

abbrev pub SameLookups : ℕ → FlatRoutingTable → FlatRoutingTable → Type 0
SameLookups acc t t' = (id : ℕ) → contact acc t' id ≡ contact acc t id

module _ (size acc : ℕ) (c : Contact) (p : NodePath) (t : FlatRoutingTable) where
  -- What an insertion can do.
  pub data Insertion : FlatRoutingTable → Result (Unit {0}) InsertionError → Type 0 where
    known :
        {t' : FlatRoutingTable}
        → (old : Contact) → contact acc t c.dest_id ≡ returns (some old)
        → IsTable size acc t'
        → SameLookups acc t t'
        → Insertion t' (err (InsertionError.add (already_exists c.dest_id)))
    unvalidated :
        {t' : FlatRoutingTable}
        → contact acc t c.dest_id ≡ returns none
        → is_notvalidated p ≡ true
        → IsTable size acc t'
        → SameLookups acc t t'
        → Insertion t' (err (InsertionError.add needs_validation))
    no_room :
        {t' : FlatRoutingTable}
        → (b : Bucket) (e : BucketSplitError) → contact acc t c.dest_id ≡ returns none
        → is_notvalidated p ≡ false
        → bucket acc t' c.dest_id ≡ returns b
        → is_full b ≡ true
        → Split size acc t' c.dest_id t' (err e)
        → IsTable size acc t'
        → SameLookups acc t t'
        → Insertion t' (err (bucket_split e))
    inserts :
        {t' : FlatRoutingTable}
        → contact acc t c.dest_id ≡ returns none
        → is_notvalidated p ≡ false
        → IsTable size acc t'
        → ((id : ℕ)
            → contact acc t' id ≡ (if c.dest_id == id then returns (some c) else contact acc t id))
        → Insertion t' (ok tt)

-- An insertion after splits is one into the table of before.
Insertion-after :
    (size acc : ℕ) (c : Contact) (p : NodePath) (t s t' : FlatRoutingTable)
    (r : Result (Unit {0}) InsertionError)
    → SameLookups acc t s
    → Insertion size acc c p s t' r
    → Insertion size acc c p t t' r
Insertion-after size acc c p t s t' _ same (known old h v look) =
    known old (sym (same c.dest_id) ∙ h) v (λ id. look id ∙ same id)
Insertion-after size acc c p t s t' _ same (unvalidated h k v look) =
    unvalidated (sym (same c.dest_id) ∙ h) k v (λ id. look id ∙ same id)
Insertion-after size acc c p t s t' _ same (no_room b e h k at l refusal v look) =
    no_room b e (sym (same c.dest_id) ∙ h) k at l refusal v (λ id. look id ∙ same id)
Insertion-after size acc c p t s t' _ same (inserts h k v look) =
    inserts (sym (same c.dest_id) ∙ h) k v (λ id.
      look id
      ∙ ap (λ (x : Outcome (Option Contact)). if c.dest_id == id then returns (some c) else x)
          (same id))

module _ (size acc : ℕ) (c : Contact) (p : NodePath) where
  abbrev Inserts : ℕ → FlatRoutingTable → Type 0
  Inserts fuel t =
      (t' : FlatRoutingTable) × (r : Result (Unit {0}) InsertionError) × (insert
          (routing_table size acc) fuel t c
        ≡ some (returns (t', r)))
      × Insertion size acc c p t t' r

  -- The rounds after a refusal for want of room.
  Inserts-step :
      (fuel : ℕ) (t s : FlatRoutingTable) (b : Bucket) (split : Result ℕ BucketSplitError)
      → IsTable size acc t
      → add acc t c ≡ returns (t, err not_added)
      → contact acc t c.dest_id ≡ returns none
      → is_notvalidated p ≡ false
      → bucket acc t c.dest_id ≡ returns b
      → is_full b ≡ true
      → split_bucket size acc t c.dest_id ≡ returns (s, split)
      → Split size acc t c.dest_id s split
      → ((i : ℕ)
          → num_buckets t < max_buckets acc
          → num_buckets s ≡ num_buckets t + level_width acc
          → IsTable size acc s
          → SameLookups acc t s
          → Inserts fuel s)
      → Inserts (suc fuel) t
  unfolding insert
  Inserts-step fuel t _ b _ v e h k at l g (refuses_deeper m) next = (
    t,
    err (bucket_split max_buckets_reached),
    ground (arith, e, g),
    no_room b max_buckets_reached h k at l (refuses_deeper m) v (λ id. refl),
  )
  Inserts-step fuel t _ b _ v e h k at l g (refuses_inner i m n) next = (
    t,
    err (bucket_split unsplittable),
    ground (arith, e, g),
    no_room b unsplittable h k at l (refuses_inner i m n) v (λ id. refl),
  )
  Inserts-step fuel t s b _ v e h k at l g (splits i m n o w count same) next =
      let (t', r, f, insertion) = next i m count w same in
      (t', r, ground (arith, e, g, f), Insertion-after size acc c p t s t' r same insertion)

  Inserts-added :
      (fuel : ℕ) (t t' : FlatRoutingTable) (r : Result (Unit {0}) AddError)
      → IsTable size acc t
      → add acc t c ≡ returns (t', r)
      → Addition size acc t c p t' r
      → ((b : Bucket)
          → add acc t c ≡ returns (t, err not_added)
          → contact acc t c.dest_id ≡ returns none
          → is_notvalidated p ≡ false
          → bucket acc t c.dest_id ≡ returns b
          → is_full b ≡ true
          → Inserts (suc fuel) t)
      → Inserts (suc fuel) t
  unfolding insert
  Inserts-added fuel t _ _ v e (refuses_known old h) next = (
    t,
    err (InsertionError.add (already_exists c.dest_id)),
    ground (arith, e),
    known old h v (λ id. refl),
  )
  Inserts-added fuel t _ _ v e (refuses_path h k) next = (
    t,
    err (InsertionError.add needs_validation),
    ground (arith, e),
    unvalidated h k v (λ id. refl),
  )
  Inserts-added fuel t _ _ v e (refuses_more b h k at l) next = next b e h k at l
  Inserts-added fuel t t' _ v e (adds h k w count look) next =
      (t', ok tt, ground (arith, e), inserts h k w look)

  insert_rounds :
      (fuel : ℕ) (t : FlatRoutingTable) (i : ℕ)
      → 0 < acc
      → max_buckets acc ≤ num_buckets t + fuel
      → c.path_collection.active_path ≡ some p
      → IsTable size acc t
      → get_bucket_index acc t c.dest_id ≡ returns i
      → Inserts (suc fuel) t
  insert_rounds zero t i pos enough path v h =
      let (t', r, e, addition) = add_lem size acc t c p i v path h in
      Inserts-added zero t t' r v e addition (λ b f g k at l.
        let (s, split, d, parts) = split_bucket_lem size acc t c.dest_id i v h in
        Inserts-step zero t s b split v f g k at l d parts
          (λ j room count w same. absurd (omega arith)))
  insert_rounds (suc fuel) t i pos enough path v h =
      let (t', r, e, addition) = add_lem size acc t c p i v path h in
      Inserts-added (suc fuel) t t' r v e addition (λ b f g k at l.
        let (s, split, d, parts) = split_bucket_lem size acc t c.dest_id i v h in
        Inserts-step (suc fuel) t s b split v f g k at l d parts (λ j room count w same.
          let (i', h') = index_of_lookup acc s c.dest_id none (same c.dest_id ∙ g) in
          insert_rounds fuel s i' pos (omega (arith, enough, count, level_width-pos acc pos)) path w
            h'))

-- The insertion by splits ends: in a table of node identifiers that satisfies the invariant, with more fuel
-- than the table can get buckets, it returns and panics nowhere. It refuses a known node, then a
-- path that is not validated, then a node whose bucket is full at the end and cannot be split any more,
-- because the table has all its buckets or it is not the last one, as the error says, and no lookup
-- changes then; else the contact is found and all other lookups are as before. The
-- invariant is kept, whatever the number of splits.
pub insert_total :
    (size acc : ℕ) (c : Contact) (p : NodePath) (t : FlatRoutingTable) (fuel : ℕ)
    → 0 < acc
    → acc ≤ 112
    → IsId t.root
    → IsId c.dest_id
    → max_buckets acc ≤ num_buckets t + fuel
    → c.path_collection.active_path ≡ some p
    → IsTable size acc t
    → (t' : FlatRoutingTable) × (r : Result (Unit {0}) InsertionError) × (insert
          (routing_table size acc)
          (suc fuel)
          t
          c
        ≡ some (returns (t', r)))
      × Insertion size acc c p t t' r
insert_total size acc c p t fuel pos small root is_id enough path v =
    let (i, h) = get_bucket_index-total size acc t c.dest_id v root is_id pos small in
    insert_rounds size acc c p fuel t i pos enough path v h
