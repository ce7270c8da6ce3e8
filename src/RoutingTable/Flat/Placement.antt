-- ===== src/RoutingTable/Flat/Placement.antt =====
-- The invariant of the flat routing table: every contact is in the bucket of its identifier. What an
-- operation through the bucket of a node changes.
use kira_rust.Prelude.{
  ℕ, ◌-◌, ◌≤◌, ◌<◌, ◌≡◌, ◌∙◌, subst, inl, inr, false, Option, none, some, arith, ltb, ◌==◌,
  if◌then◌else◌, ltb→lt, lt→ltb, ==→eq, Bool-cases, length, get_elem?, get_elem?-inside, set,
  length-set, get_elem?-set, Outcome, Outcome-cases, returns, panics,
}
use kira_rust.Path.{NodePath, is_notvalidated}
use kira_rust.Contact.{Contact}
use kira_rust.Bucket.{Bucket}
use kira_rust.Bucket
use kira_rust.Bucket.Changes.{IsBucket}
use kira_rust.NodeId.Prefixes.{IsId}
use kira_rust.RoutingTable.Flat.Index.{position_total}
use kira_rust.RoutingTable.Flat.{
  FlatRoutingTable, num_buckets, position, capped, get_bucket_index, bucket, bucket_mut, contact,
}

-- A contact that a bucket takes: its active path is validated.
abbrev pub IsAcceptable : Contact → Type 0
IsAcceptable c =
    (p : NodePath) × (c.path_collection.active_path ≡ some p) × (is_notvalidated p ≡ false)

abbrev pub IsSettled : ℕ → FlatRoutingTable → ℕ → Bucket → Type 0
IsSettled acc t i b =
    (id : ℕ) (c : Contact)
    → Bucket.get b id ≡ some c
    → (get_bucket_index acc t id ≡ returns i) × IsAcceptable c

pub record IsTable (size acc : ℕ) (t : FlatRoutingTable) : Type 0 where
  pub filled : 0 < num_buckets t
  pub buckets_valid : (i : ℕ) (b : Bucket) → get_elem? t.buckets i ≡ some b → IsBucket size b
  pub settled : (i : ℕ) (b : Bucket) → get_elem? t.buckets i ≡ some b → IsSettled acc t i b

abbrev pub updated : FlatRoutingTable → ℕ → Bucket → FlatRoutingTable
updated t i b = record t { buckets = set t.buckets i b }

pub capped-le : (place : Option ℕ) (last : ℕ) → capped place last ≤ last
capped-le none last = omega arith
capped-le (some index) last = omega arith

-- The index of a node, from its position.
pub get_bucket_index_lem :
    (acc : ℕ) (t : FlatRoutingTable) (id : ℕ) (place : Option ℕ)
    → position acc t.root id ≡ returns place
    → 0 < num_buckets t
    → get_bucket_index acc t id ≡ returns (capped place (num_buckets t - 1))
unfolding get_bucket_index
get_bucket_index_lem acc t id place h k = rw (h, lt→ltb _ _ k)

-- Every node has a bucket.
pub get_bucket_index-total :
    (size acc : ℕ) (t : FlatRoutingTable) (id : ℕ)
    → IsTable size acc t
    → IsId t.root
    → IsId id
    → 0 < acc
    → acc ≤ 112
    → (i : ℕ) × (get_bucket_index acc t id ≡ returns i)
get_bucket_index-total size acc t id v root is_id pos small =
    let (place, e) = position_total acc t.root id root is_id pos small in
    (capped place (num_buckets t - 1), get_bucket_index_lem acc t id place e v.filled)

pub get_bucket_index-inv :
    (acc : ℕ) (t : FlatRoutingTable) (id i : ℕ)
    → get_bucket_index acc t id ≡ returns i
    → (place : Option ℕ) × (position acc t.root id ≡ returns place)
      × (0 < num_buckets t)
      × (i ≡ capped place (num_buckets t - 1))
unfolding get_bucket_index
get_bucket_index-inv acc t id i h = elim (Outcome-cases (position acc t.root id)) [
  | inl e ↦ absurd (ground (arith, e))
  | inr (place, e) ↦ elim (Bool-cases (ltb 0 (num_buckets t))) [
    | inr f ↦ absurd (ground (arith, e, f))
    | inl f ↦ (place, e, ltb→lt _ _ f, ground (arith, e, f))
  ]
]

pub get_bucket_index-lt :
    (acc : ℕ) (t : FlatRoutingTable) (id i : ℕ)
    → get_bucket_index acc t id ≡ returns i
    → i < length t.buckets
unfolding num_buckets
get_bucket_index-lt acc t id i h =
    let (place, e, k, f) = get_bucket_index-inv acc t id i h in
    omega (arith, f, k, capped-le place (num_buckets t - 1))

pub get_bucket_index-updated :
    (acc : ℕ) (t : FlatRoutingTable) (i id : ℕ) (b : Bucket)
    → get_bucket_index acc (updated t i b) id ≡ get_bucket_index acc t id
unfolding get_bucket_index num_buckets
get_bucket_index-updated acc t i id b = rw (length-set t.buckets i b)

pub contact_at :
    (acc : ℕ) (t : FlatRoutingTable) (id i : ℕ) (b : Bucket)
    → get_bucket_index acc t id ≡ returns i
    → get_elem? t.buckets i ≡ some b
    → contact acc t id ≡ returns (Bucket.get b id)
unfolding contact bucket
contact_at acc t id i b h k = rw (h, k)

pub contact_nowhere :
    (acc : ℕ) (t : FlatRoutingTable) (id : ℕ)
    → get_bucket_index acc t id ≡ panics
    → contact acc t id ≡ panics
unfolding contact bucket
contact_nowhere acc t id h = rw h

pub bucket_mut_lem :
    {R : Type 0} (acc : ℕ) (t : FlatRoutingTable) (id i : ℕ) (b b' : Bucket) (r : R)
    (operation : Bucket → Outcome (Bucket × R))
    → get_bucket_index acc t id ≡ returns i
    → get_elem? t.buckets i ≡ some b
    → operation b ≡ returns (b', r)
    → bucket_mut acc t id operation ≡ returns (updated t i b', r)
unfolding bucket_mut
bucket_mut_lem acc t id i b b' r operation h k e = rw (h, k, e)

module _ (acc : ℕ) (t : FlatRoutingTable) where
  pub bucket_found :
      (id i : ℕ)
      → get_bucket_index acc t id ≡ returns i
      → (b : Bucket) × (get_elem? t.buckets i ≡ some b)
  bucket_found id i h = get_elem?-inside t.buckets i (get_bucket_index-lt acc t id i h)

  -- A lookup after a change of one bucket.
  pub contact-updated :
      (i j id : ℕ) (b' : Bucket)
      → i < length t.buckets
      → get_bucket_index acc t id ≡ returns j
      → contact acc (updated t i b') id
        ≡ (if i == j then returns (Bucket.get b' id) else contact acc t id)
  unfolding contact bucket
  contact-updated i j id b' k h =
      rw (get_bucket_index-updated acc t i id b', h, get_elem?-set t.buckets i j b' k)
        (elim (Bool-cases (i == j)) [ inl e ↦ rw e | inr e ↦ rw e ])

module _ (size acc : ℕ) (t : FlatRoutingTable) where
  pub IsTable-updated :
      (i : ℕ) (b' : Bucket)
      → i < length t.buckets
      → IsTable size acc t
      → IsBucket size b'
      → IsSettled acc t i b'
      → IsTable size acc (updated t i b')
  unfolding num_buckets
  IsTable-updated i b' k v w s = record {
    filled = omega (arith, v.filled, length-set t.buckets i b');
    buckets_valid = λ j b h. elim (Bool-cases (i == j)) [
      | inl e ↦ subst (IsBucket size) (ground (arith, get_elem?-set t.buckets i j b' k, e, h)) w
      | inr e ↦ v.buckets_valid j b (ground (arith, get_elem?-set t.buckets i j b' k, e, h))
    ];
    settled = λ j b h id c g.
        let (at, good) : (get_bucket_index acc t id ≡ returns j) × IsAcceptable c =
          elim (Bool-cases (i == j)) [
            | inl e ↦
                let same : b' ≡ b = ground (arith, get_elem?-set t.buckets i j b' k, e, h) in
                let found : Bucket.get b' id ≡ some c = rw same g in
                let (at, good) = s id c found in (rw (← ==→eq i j e) at, good)
            | inr e ↦ v.settled j b (ground (arith, get_elem?-set t.buckets i j b' k, e, h)) id c g
          ] in
        (get_bucket_index-updated acc t i id b' ∙ at, good);
  }
