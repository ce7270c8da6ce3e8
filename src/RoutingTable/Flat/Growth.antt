-- ===== src/RoutingTable/Flat/Growth.antt =====
-- The split of a bucket and the insertion by splits, on every branch.
use kira_rust.Prelude.{
  ℕ, zero, suc, ◌+◌, ◌-◌, ◌≤◌, ◌<◌, ◌≡◌, refl, ◌∙◌, inl, inr, false, some, List, [], ◌∷◌, ◌++◌,
  arith, ltb, leb, ◌==◌, lt→ltb, Bool-cases, length, get_elem?, length-append, get_elem?-inside,
  get_elem?-append, replicate, length-replicate, get_elem?-replicate, returns, Result, ok, err,
}
use kira_rust.Vec
use kira_rust.NodeId.Prefixes.{IsId}
use kira_rust.Bucket.{Bucket, is_full}
use kira_rust.Bucket
use kira_rust.RoutingTable.{BucketSplitError, unsplittable, max_buckets_reached}
use kira_rust.RoutingTable.Flat.{
  FlatRoutingTable, num_buckets, level_width, max_buckets, get_bucket_index, contact, split_bucket,
}
use kira_rust.RoutingTable.Flat.Placement.{IsTable, get_bucket_index-total, get_bucket_index-lt}
use kira_rust.RoutingTable.Flat.Splitting.{IsWidened, refilled}

module _ (size acc : ℕ) (t : FlatRoutingTable) where
  -- What a split can do.
  pub data Split (id : ℕ) : FlatRoutingTable → Result ℕ BucketSplitError → Type 0 where
    refuses_deeper : max_buckets acc ≤ num_buckets t → Split id t (err max_buckets_reached)
    refuses_inner :
        (i : ℕ)
        → get_bucket_index acc t id ≡ returns i
        → i + 1 < num_buckets t
        → Split id t (err unsplittable)
    splits :
        {t' : FlatRoutingTable}
        → (i : ℕ) → num_buckets t < max_buckets acc
        → get_bucket_index acc t id ≡ returns i
        → i + 1 ≡ num_buckets t
        → IsTable size acc t'
        → num_buckets t' ≡ num_buckets t + level_width acc
        → ((id' : ℕ) → contact acc t' id' ≡ contact acc t id')
        → Split id t' (ok i)

  abbrev fresh_table : List Bucket → FlatRoutingTable
  fresh_table others = record t {
    buckets = (others ++ replicate (level_width acc) (Bucket.new size)) ++ Bucket.new size ∷ [];
  }

  length-fresh :
      (others : List Bucket)
      → length (fresh_table others).buckets ≡ length others + level_width acc + 1
  length-fresh others = omega (
    arith,
    length-append {0} (others ++ replicate (level_width acc) (Bucket.new size))
        (Bucket.new size ∷ []),
    length-append {0} others (replicate (level_width acc) (Bucket.new size)),
    length-replicate {0} (level_width acc) (Bucket.new size),
  )

  get_elem?-fresh_lower :
      (others : List Bucket) (i : ℕ)
      → i < length others
      → get_elem? (fresh_table others).buckets i ≡ get_elem? others i
  get_elem?-fresh_lower others i h =
      let level = replicate (level_width acc) (Bucket.new size) in
      get_elem?-append (others ++ level) (Bucket.new size ∷ []) i
      ∙ rw (lt→ltb i (length (others ++ level)) (omega (arith, length-append {0} others level)))
          (get_elem?-append others level i ∙ rw (lt→ltb i (length others) h) refl)

  -- All the new buckets are empty.
  get_elem?-fresh_upper :
      (others : List Bucket) (i : ℕ) (b : Bucket)
      → length others ≤ i
      → get_elem? (fresh_table others).buckets i ≡ some b
      → b ≡ Bucket.new size
  get_elem?-fresh_upper others i b h e =
      let level = replicate (level_width acc) (Bucket.new size) in
      let all = get_elem?-append (others ++ level) (Bucket.new size ∷ []) i in
      elim (Bool-cases (ltb i (length (others ++ level)))) [
        | inl k ↦
            let low : ltb i (length others) ≡ false = ground arith in
            ground (
              arith,
              all,
              e,
              k,
              low,
              get_elem?-append others level i,
              get_elem?-replicate (level_width acc) (Bucket.new size) (i - length others),
            )
        | inr k ↦ last_one (i - length (others ++ level)) (ground (arith, all, e, k))
      ]
    where
      last_one : (j : ℕ) → get_elem? (Bucket.new size ∷ []) j ≡ some b → b ≡ Bucket.new size
      last_one zero g = ground arith
      last_one (suc j) g = absurd (ground arith)

  fresh-IsWidened :
      (n : ℕ) (others : List Bucket)
      → num_buckets t ≡ suc n
      → length others ≡ n
      → ((i : ℕ) → i < n → get_elem? others i ≡ get_elem? t.buckets i)
      → IsWidened size n t (fresh_table others)
  unfolding num_buckets
  fresh-IsWidened n others count m same = record {
    same_root = refl;
    old_count = count;
    grown = omega (arith, length-fresh others, m);
    lower = λ i h. get_elem?-fresh_lower others i (omega (arith, m)) ∙ same i h;
    upper = λ i b h e. get_elem?-fresh_upper others i b (omega (arith, m)) e;
  }

  -- A split, from the index of its node.
  pub split_bucket_lem :
      (id i : ℕ)
      → IsTable size acc t
      → get_bucket_index acc t id ≡ returns i
      → (t' : FlatRoutingTable) × (r : Result ℕ BucketSplitError) × (split_bucket size acc t id
          ≡ returns (t', r))
        × Split id t' r
  unfolding split_bucket num_buckets
  split_bucket_lem id i v h = elim (Bool-cases (leb (max_buckets acc) (length t.buckets))) [
    | inl k ↦ (t, err max_buckets_reached, rw k refl, refuses_deeper (ground arith))
    | inr k ↦ elim (Bool-cases (i == length t.buckets - 1)) [
      | inr f ↦ (
        t,
        err unsplittable,
        rw (k, h, f) refl,
        refuses_inner i h (ground (arith, get_bucket_index-lt acc t id i h, f)),
      )
      | inl f ↦
          let last : length t.buckets ≡ suc i =
            ground (arith, get_bucket_index-lt acc t id i h, f) in
          let (old, at) = get_elem?-inside t.buckets i (omega (arith, last)) in
          let (others, e, m, same) = Vec.remove_last t.buckets i last in
          let (t', g, done, count, look) =
            refilled size acc i t (fresh_table others) (fresh-IsWidened i others last m same) v old
              at in
          (
            t',
            ok i,
            rw (k, h, f, at, e, g)
                (refl {a = returns (t', let r : Result ℕ BucketSplitError = ok i in r)}),
            splits {t' = t'} i (ground arith) h (omega (arith, last)) done
                (count ∙ omega (arith, length-fresh others, m, last)) look,
          )
    ]
  ]

-- The error in the loop of a split is unreachable: in a table of node identifiers that satisfies the
-- invariant a split returns. It refuses a table with all its buckets and a node that is not of the
-- last bucket, without a change; else the table has another level of buckets, keeps the
-- invariant, and no lookup changes.
pub split_bucket_total :
    (size acc : ℕ) (t : FlatRoutingTable) (id : ℕ)
    → 0 < acc
    → acc ≤ 112
    → IsId t.root
    → IsId id
    → IsTable size acc t
    → (t' : FlatRoutingTable) × (r : Result ℕ BucketSplitError) × (split_bucket size acc t id
        ≡ returns (t', r))
      × Split size acc t id t' r
split_bucket_total size acc t id pos small root is_id v =
    let (i, h) = get_bucket_index-total size acc t id v root is_id pos small in
    split_bucket_lem size acc t id i v h
