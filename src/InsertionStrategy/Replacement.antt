-- ===== src/InsertionStrategy/Replacement.antt =====
-- The replacement of a contact in a full bucket: which contact gives way.
use kira_rust.Prelude.{
  ℕ, suc, ◌≤◌, ◌<◌, dec_lt, ◌≡◌, refl, inl, inr, true, false, Option, none, some, List, [], ◌∷◌,
  arith, ltb, ltb→lt, lt→ltb, Bool-cases, get_elem?, Outcome, returns, ◌>>=◌, expect,
}
use kira_rust.Path.{NodePath, size, is_notvalidated}
use kira_rust.Contact.{Contact, is_valid_contact}
use kira_rust.Bucket.{Bucket}
use kira_rust.Bucket
use kira_rust.RoutingTable.{RoutingTable}
use kira_rust.InsertionStrategy.{
  InsertionStrategyResult, dropped, needs_validation, replaced, longest, replace_in_full_bucket,
}

abbrev pub size_of : Contact → Outcome ℕ
size_of c = do path ← expect c.path_collection.active_path; size path

abbrev pub AllSized : List Contact → Type 0
AllSized [] = Unit
AllSized (c ∷ contacts) = ((n : ℕ) × (size_of c ≡ returns n)) × AllSized contacts

-- No contact has a path longer than the limit.
abbrev pub NoneLonger : ℕ → List Contact → Type 0
NoneLonger limit [] = Unit
NoneLonger limit (c ∷ contacts) =
    ((n : ℕ) × (size_of c ≡ returns n) × (n ≤ limit)) × NoneLonger limit contacts

-- The contact at an index, whose path is longer than the limit and the longest of all.
pub record IsLongest (limit : ℕ) (contacts : List Contact) (c : Contact) (n : ℕ) : Type 0 where
  pub index : ℕ
  pub at_index : get_elem? contacts index ≡ some c
  pub its_size : size_of c ≡ returns n
  pub longer : limit < n
  pub maximal : NoneLonger n contacts

pub data Longest (limit : ℕ) (contacts : List Contact) : Option (Contact × ℕ) → Type 0 where
  no_longer : NoneLonger limit contacts → Longest limit contacts none
  found_longest :
      {c : Contact} {n : ℕ} → IsLongest limit contacts c n → Longest limit contacts (some (c, n))

NoneLonger-weaker :
    (m n : ℕ) (contacts : List Contact) → m ≤ n → NoneLonger m contacts → NoneLonger n contacts
NoneLonger-weaker m n [] h v = tt
NoneLonger-weaker m n (c ∷ contacts) h ((k, e, f), v) =
    ((k, e, omega (arith, f)), NoneLonger-weaker m n contacts h v)

-- The step of the search at one more contact.
longest_step :
    (limit : ℕ) (c : Contact) (n : ℕ) (contacts : List Contact) (rest : Option (Contact × ℕ))
    → size_of c ≡ returns n
    → longest limit contacts ≡ returns rest
    → Longest limit contacts rest
    → (r : Option (Contact × ℕ)) × (longest limit (c ∷ contacts) ≡ returns r)
      × Longest limit (c ∷ contacts) r
unfolding longest
longest_step limit c n contacts _ e f (no_longer v) = elim (Bool-cases (ltb limit n)) [
  | inl g ↦ (
    some (c, n),
    ground (arith, e, f, g),
    found_longest (record {
      index = 0;
      at_index = refl;
      its_size = e;
      longer = ltb→lt limit n g;
      maximal = (
        (n, e, omega arith),
        NoneLonger-weaker limit n contacts (omega (arith, ltb→lt limit n g)) v,
      );
    }),
  )
  | inr g ↦ (none, ground (arith, e, f, g), no_longer ((n, e, ground (arith, g)), v))
]
longest_step limit c n contacts _ e f (found_longest {c = d} {n = m} v) = elim (dec_lt m n) [
  | yes g ↦ (
    some (c, n),
    ground (arith, e, f, lt→ltb m n g, lt→ltb limit n (omega (arith, v.longer))),
    found_longest (record {
      index = 0;
      at_index = refl;
      its_size = e;
      longer = omega (arith, v.longer);
      maximal = ((n, e, omega arith), NoneLonger-weaker m n contacts (omega arith) v.maximal);
    }),
  )
  | no g ↦ (
    some (d, m),
    ground (arith, e, f, g),
    found_longest (record {
      index = suc v.index;
      at_index = v.at_index;
      its_size = v.its_size;
      longer = v.longer;
      maximal = ((n, e, omega (arith, g)), v.maximal);
    }),
  )
]

pub longest_lem :
    (limit : ℕ) (contacts : List Contact)
    → AllSized contacts
    → (r : Option (Contact × ℕ)) × (longest limit contacts ≡ returns r) × Longest limit contacts r
unfolding longest
longest_lem limit [] v = (none, refl, no_longer tt)
longest_lem limit (c ∷ contacts) ((n, e), v) =
    let (rest, f, w) = longest_lem limit contacts v in longest_step limit c n contacts rest e f w

module _ {T : Type 0} (table : RoutingTable T) (t : T) (b : Bucket) (c : Contact)
    (p : NodePath) where
  -- What becomes of a contact whose bucket is full.
  pub data Replacement (len : ℕ) : T → InsertionStrategyResult → Type 0 where
    keeps : NoneLonger len (Bucket.iter b) → Replacement len t dropped
    waits :
        (old : Contact) (n : ℕ)
        → IsLongest len (Bucket.iter b) old n
        → is_notvalidated p ≡ true
        → Replacement len t needs_validation
    gives_way :
        {t' : T} {old : Contact} (n : ℕ)
        → IsLongest len (Bucket.iter b) old n
        → is_notvalidated p ≡ false
        → table.contact_mut t old.dest_id (λ _. c) ≡ returns t'
        → Replacement len t' (replaced old.dest_id)

  -- For a valid contact whose bucket is full and does not have it, and whose contacts have
  -- paths of known size, the replacement returns if the table can write to all of them. The contact is
  -- dropped if no path is longer than its own, and needs validation if one is but its own is not
  -- validated. Else it takes the place of a contact whose path is the longest. The table changes in
  -- the last case only.
  pub replace_in_full_bucket_lem :
      (len : ℕ)
      → table.bucket t c.dest_id ≡ returns b
      → Bucket.is_empty b ≡ false
      → Bucket.is_full b ≡ true
      → Bucket.contains_contact b c.dest_id ≡ false
      → is_valid_contact c ≡ true
      → c.path_collection.active_path ≡ some p
      → size p ≡ returns len
      → AllSized (Bucket.iter b)
      → ((old : Contact) (i : ℕ)
          → get_elem? (Bucket.iter b) i ≡ some old
          → (t' : T) × (table.contact_mut t old.dest_id (λ _. c) ≡ returns t'))
      → (t' : T) × (r : InsertionStrategyResult) × (replace_in_full_bucket table t c
          ≡ returns (t', r))
        × Replacement len t' r
  unfolding replace_in_full_bucket
  replace_in_full_bucket_lem len e filled full absent ok_contact path sized all writes =
      let (found, f, v) = longest_lem len (Bucket.iter b) all in finish found f v
    where
      finish :
          (found : Option (Contact × ℕ))
          → longest len (Bucket.iter b) ≡ returns found
          → Longest len (Bucket.iter b) found
          → (t' : T) × (r : InsertionStrategyResult) × (replace_in_full_bucket table t c
              ≡ returns (t', r))
            × Replacement len t' r
      finish _ f (no_longer v) =
          (t, dropped, ground (arith, e, filled, full, absent, ok_contact, path, sized, f), keeps v)
      finish _ f (found_longest {c = old} {n = n} v) = elim (Bool-cases (is_notvalidated p)) [
        | inl g ↦ (
          t,
          needs_validation,
          ground (arith, e, filled, full, absent, ok_contact, path, sized, f, g),
          waits old n v g,
        )
        | inr g ↦
            let (t', h) = writes old v.index v.at_index in
            (
              t',
              replaced old.dest_id,
              ground (arith, e, filled, full, absent, ok_contact, path, sized, f, g, h),
              gives_way n v g h,
            )
      ]
