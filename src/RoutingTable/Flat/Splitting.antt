-- ===== src/RoutingTable/Flat/Splitting.antt =====
-- The split of the last bucket of the flat routing table.
use kira_rust.Prelude.{
  ℕ, suc, ◌-◌, ◌≤◌, ◌<◌, dec_lt, ◌≡◌, refl, sym, ap, ◌∙◌, ◌≢◌, inl, inr, Option, none, some, List,
  [], ◌∷◌, arith, ◌==◌, lt→ltb, ==→eq, ==_self, Bool-cases, Option-cases, length, get_elem?,
  Outcome-cases, returns, panics,
}
use kira_rust.Contact.{Contact}
use kira_rust.Bucket.{Bucket}
use kira_rust.Bucket
use kira_rust.Bucket.Slots.{
  IsDistinct, find_contact, AreDistinct, find_contact-flatten, flatten-AreDistinct,
  length-flatten-le, repeat_none_lem,
}
use kira_rust.Bucket.Changes.{IsBucket}
use kira_rust.RoutingTable.Flat.{
  FlatRoutingTable, num_buckets, position, capped, get_bucket_index, contact, add_again,
}
use kira_rust.RoutingTable.Flat.Placement.{
  IsTable, IsAcceptable, get_bucket_index_lem, get_bucket_index-inv, get_bucket_index-lt,
  contact_at, contact_nowhere, bucket_found,
}
use kira_rust.RoutingTable.Flat.Refill.{AreWaiting, HasRoom, or_found, add_again_lem}

-- The bucket of a table before its last one stays, and new ones follow.
pub record IsWidened (size n : ℕ) (t fresh : FlatRoutingTable) : Type 0 where
  pub same_root : fresh.root ≡ t.root
  pub old_count : num_buckets t ≡ suc n
  pub grown : suc n ≤ num_buckets fresh
  pub lower : (i : ℕ) → i < n → get_elem? fresh.buckets i ≡ get_elem? t.buckets i
  pub upper :
      (i : ℕ) (b : Bucket) → n ≤ i → get_elem? fresh.buckets i ≡ some b → b ≡ Bucket.new size

new_lem :
    (size : ℕ)
    → IsBucket size (Bucket.new size)
      × (Bucket.len (Bucket.new size) ≡ 0)
      × ((id : ℕ) → Bucket.get (Bucket.new size) id ≡ none)
unfolding Bucket.new Bucket.len Bucket.get
new_lem size =
    let (w, n, m, look) = repeat_none_lem size in (record { sized = n; distinct = w }, m, look)

iter-AreDistinct : (b : Bucket) → IsDistinct b.contacts → AreDistinct (Bucket.iter b)
unfolding Bucket.iter
iter-AreDistinct b d = flatten-AreDistinct b.contacts d

length-iter-le : (b : Bucket) → length (Bucket.iter b) ≤ length b.contacts
unfolding Bucket.iter
length-iter-le b = length-flatten-le b.contacts

module _ (size acc n : ℕ) (t fresh : FlatRoutingTable) (w : IsWidened size n t fresh) where
  index_kept :
      (id i : ℕ)
      → get_bucket_index acc t id ≡ returns i
      → i < n
      → get_bucket_index acc fresh id ≡ returns i
  index_kept id i h k =
      let (place, e, f, g) = get_bucket_index-inv acc t id i h in
      get_bucket_index_lem acc fresh id place (rw w.same_root e) (omega (arith, w.grown))
      ∙ ap returns (below place g)
    where
      below :
          (place : Option ℕ)
          → i ≡ capped place (num_buckets t - 1)
          → capped place (num_buckets fresh - 1) ≡ i
      below none g = absurd (omega (arith, g, w.old_count))
      below (some index) g = omega (arith, g, w.old_count, w.grown)

  index_moved :
      (id i : ℕ)
      → get_bucket_index acc t id ≡ returns i
      → n ≤ i
      → (j : ℕ) × (get_bucket_index acc fresh id ≡ returns j) × (n ≤ j)
  index_moved id i h k =
      let (place, e, f, g) = get_bucket_index-inv acc t id i h in
      (
        capped place (num_buckets fresh - 1),
        get_bucket_index_lem acc fresh id place (rw w.same_root e) (omega (arith, w.grown)),
        above place g,
      )
    where
      above :
          (place : Option ℕ)
          → i ≡ capped place (num_buckets t - 1)
          → n ≤ capped place (num_buckets fresh - 1)
      above none g = omega (arith, w.grown)
      above (some index) g = omega (arith, g, w.old_count, w.grown)

  index_nowhere :
      (id : ℕ)
      → 0 < num_buckets t
      → get_bucket_index acc t id ≡ panics
      → get_bucket_index acc fresh id ≡ panics
  unfolding get_bucket_index
  index_nowhere id k h = elim (Outcome-cases (position acc t.root id)) [
    | inl e ↦ rw (w.same_root, e) refl
    | inr (place, e) ↦ absurd (ground (arith, e, lt→ltb _ _ k, h))
  ]

  upper_empty :
      (i id : ℕ) (b : Bucket) (c : Contact)
      → n ≤ i
      → get_elem? fresh.buckets i ≡ some b
      → Bucket.get b id ≢ some c
  upper_empty i id b c k e f =
      let empty : Bucket.get b id ≡ none = rw (w.upper i b k e) ((new_lem size).2 id) in
      ground (arith, empty, f)

  widened-IsTable : IsTable size acc t → IsTable size acc fresh
  widened-IsTable v = record {
    filled = omega (arith, w.grown);
    buckets_valid = λ i b h. elim (dec_lt i n) [
      | yes k ↦ v.buckets_valid i b (sym (w.lower i k) ∙ h)
      | no k ↦ rw (w.upper i b (omega arith) h) (new_lem size).0
    ];
    settled = λ i b h id c e. elim (dec_lt i n) [
      | yes k ↦
          let (at, good) = v.settled i b (sym (w.lower i k) ∙ h) id c e in
          (index_kept id i at k, good)
      | no k ↦ absurd (upper_empty i id b c (omega arith) h e)
    ];
  }

  widened_room : (count : ℕ) → count ≤ size → HasRoom size n fresh count
  widened_room count h i b k e = rw (w.upper i b k e) (omega (arith, (new_lem size).1, h))

  -- A node of the last bucket is found nowhere in the wider table.
  contact_upper :
      (id i : ℕ)
      → get_bucket_index acc t id ≡ returns i
      → n ≤ i
      → contact acc fresh id ≡ returns none
  contact_upper id i h k =
      let (j, at, le) = index_moved id i h k in
      let (b, e) = bucket_found acc fresh id j at in
      contact_at acc fresh id j b at e ∙ ap returns (rw (w.upper j b le e) ((new_lem size).2 id))

  contact_lower :
      (id i : ℕ)
      → get_bucket_index acc t id ≡ returns i
      → i < n
      → contact acc fresh id ≡ contact acc t id
  contact_lower id i h k =
      let (b, e) = bucket_found acc t id i h in
      contact_at acc fresh id i b (index_kept id i h k) (w.lower i k ∙ e)
      ∙ sym (contact_at acc t id i b h e)

  module _ (v : IsTable size acc t) (old : Bucket) (at : get_elem? t.buckets n ≡ some old) where
    waiting :
        (contacts : List Contact)
        → ((id : ℕ) (c : Contact)
            → find_contact id contacts ≡ some c
            → (get_bucket_index acc t id ≡ returns n) × IsAcceptable c)
        → AreDistinct contacts
        → AreWaiting acc n fresh contacts
    waiting [] h d = tt
    waiting (c ∷ contacts) h d =
        let (here, good) = h c.dest_id c (rw (==_self c.dest_id) refl) in
        (
          (
            good,
            index_moved c.dest_id n here (omega arith),
            contact_upper c.dest_id n here (omega arith),
          ),
          waiting contacts
              (λ id e k. elim (Bool-cases (c.dest_id == id)) [
                | inl f ↦ absurd (ground (arith, ==→eq c.dest_id id f, d.0, k))
                | inr f ↦ h id e (rw f k)
              ])
              d.1,
        )

    found_old : (id : ℕ) → find_contact id (Bucket.iter old) ≡ Bucket.get old id
    unfolding Bucket.iter Bucket.get
    found_old id = find_contact-flatten id old.contacts

    -- The lookups in the wider table with the contacts of the old bucket are those of before.
    same_lookup :
        (id : ℕ)
        → or_found (find_contact id (Bucket.iter old)) (contact acc fresh id) ≡ contact acc t id
    unfolding num_buckets
    same_lookup id = rw (found_old id) (elim (Outcome-cases (get_bucket_index acc t id)) [
      | inl e ↦ elim (Option-cases (Bucket.get old id)) [
        | inl f ↦ rw f (
            contact_nowhere acc fresh id (index_nowhere id v.filled e)
            ∙ sym (contact_nowhere acc t id e))
        | inr (c, f) ↦
            let clash : panics ≡ returns n = sym e ∙ (v.settled n old at id c f).0 in cc clash
      ]
      | inr (i, e) ↦ elim (dec_lt i n) [
        | yes k ↦ elim (Option-cases (Bucket.get old id)) [
          | inl f ↦ rw f (contact_lower id i e k)
          | inr (c, f) ↦
              let clash : returns i ≡ returns n = sym e ∙ (v.settled n old at id c f).0 in
              absurd (ground (arith, clash, k))
        ]
        | no k ↦
            let last : i ≡ n = omega (arith, get_bucket_index-lt acc t id i e, last_index) in
            let here : contact acc t id ≡ returns (Bucket.get old id) =
              contact_at acc t id n old (e ∙ ap returns last) at in
            rw here (elim (Option-cases (Bucket.get old id)) [
              | inl f ↦ rw f (contact_upper id i e (omega (arith, last)))
              | inr (c, f) ↦ rw f refl
            ])
      ]
    ])
      where
        last_index : length t.buckets ≡ suc n
        last_index = w.old_count

    pub refilled :
        (t' : FlatRoutingTable) × (add_again acc fresh (Bucket.iter old) ≡ returns t')
        × IsTable size acc t'
        × (num_buckets t' ≡ num_buckets fresh)
        × ((id : ℕ) → contact acc t' id ≡ contact acc t id)
    refilled =
        let valid = v.buckets_valid n old at in
        let (t', e, (done, same, look)) =
          add_again_lem size acc n (Bucket.iter old) fresh (widened-IsTable v)
            (iter-AreDistinct old valid.distinct)
            (waiting (Bucket.iter old) (λ id c f. v.settled n old at id c (sym (found_old id) ∙ f))
              (iter-AreDistinct old valid.distinct))
            (widened_room (length (Bucket.iter old))
              (omega (arith, length-iter-le old, valid.sized))) in
        (t', e, done, same, λ id. look id ∙ same_lookup id)
