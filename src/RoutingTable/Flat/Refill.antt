-- ===== src/RoutingTable/Flat/Refill.antt =====
-- The contacts of a split bucket are added again: none is refused.
use kira_rust.Prelude.{
  ℕ, suc, ◌+◌, ◌≤◌, ◌≡◌, refl, ap, ◌∙◌, inl, inr, false, Option, none, some, List, [], ◌∷◌, arith,
  ◌==◌, if◌then◌else◌, ==→eq, Bool-cases, length, get_elem?, length-set, get_elem?-set,
  get_elem?-some_lt, Outcome, returns, Result, ok,
}
use kira_rust.Path.{NodePath, is_notvalidated}
use kira_rust.Contact.{Contact}
use kira_rust.Bucket.{Bucket, BucketInsertionError, is_full, contains_contact}
use kira_rust.Bucket
use kira_rust.Bucket.Slots.{find_contact, AreDistinct, count_some-full}
use kira_rust.Bucket.Changes.{
  IsBucket, Insertion, refuses_duplicate, refuses_unvalidated, refuses_full, inserts,
  contains_contact-get,
}
use kira_rust.RoutingTable.Flat.{
  FlatRoutingTable, num_buckets, get_bucket_index, contact, add, add_again, add_result,
}
use kira_rust.RoutingTable.Flat.Placement.{
  IsTable, IsAcceptable, updated, get_bucket_index-lt, get_bucket_index-updated, contact_at,
  bucket_found, IsTable-updated,
}
use kira_rust.RoutingTable.Flat.Changes.{contact-set, IsSettled-inserted, add_step}

module _ (acc n : ℕ) (t : FlatRoutingTable) where
  -- A contact that may be added: it is acceptable, it belongs into one of the new buckets, and it is not there.
  abbrev pub IsWaiting : Contact → Type 0
  IsWaiting c =
      IsAcceptable c
      × ((i : ℕ) × (get_bucket_index acc t c.dest_id ≡ returns i) × (n ≤ i))
      × (contact acc t c.dest_id ≡ returns none)

  abbrev pub AreWaiting : List Contact → Type 0
  AreWaiting [] = Unit
  AreWaiting (c ∷ contacts) = IsWaiting c × AreWaiting contacts

-- The new buckets have room for so many contacts.
abbrev pub HasRoom : ℕ → ℕ → FlatRoutingTable → ℕ → Type 0
HasRoom size n t count =
    (i : ℕ) (b : Bucket) → n ≤ i → get_elem? t.buckets i ≡ some b → Bucket.len b + count ≤ size

abbrev pub or_found : Option Contact → Outcome (Option Contact) → Outcome (Option Contact)
or_found none before = before
or_found (some c) before = returns (some c)

-- What the additions lead to.
abbrev pub IsRefilled : ℕ → ℕ → FlatRoutingTable → List Contact → FlatRoutingTable → Type 0
IsRefilled size acc t contacts t' =
    IsTable size acc t'
    × (num_buckets t' ≡ num_buckets t)
    × ((id : ℕ) → contact acc t' id ≡ or_found (find_contact id contacts) (contact acc t id))

AreWaiting-next :
    (acc n : ℕ) (t : FlatRoutingTable) (i : ℕ) (b' : Bucket) (c : Contact)
    → ((id : ℕ)
        → contact acc (updated t i b') id
          ≡ (if c.dest_id == id then returns (some c) else contact acc t id))
    → (contacts : List Contact) → find_contact c.dest_id contacts ≡ none
    → AreWaiting acc n t contacts
    → AreWaiting acc n (updated t i b') contacts
AreWaiting-next acc n t i b' c look [] fresh w = tt
AreWaiting-next acc n t i b' c look (d ∷ contacts) fresh (((good, (j, h, k), absent), w)) =
    let apart : (c.dest_id == d.dest_id) ≡ false = elim (Bool-cases (d.dest_id == c.dest_id)) [
      | inl e ↦ absurd (ground (arith, e, fresh))
      | inr e ↦ ground (arith, e)
    ] in
    (
      (
        good,
        (j, get_bucket_index-updated acc t i d.dest_id b' ∙ h, k),
        look d.dest_id ∙ rw apart absent,
      ),
      AreWaiting-next acc n t i b' c look contacts (ground (arith, fresh)) w,
    )

module _ (size acc n : ℕ) where
  -- The insertion of a waiting contact into a bucket with room is not refused.
  accepted :
      (b b' : Bucket) (c : Contact) (p : NodePath) (r : Result (Unit {0}) BucketInsertionError)
      → IsBucket size b
      → Bucket.get b c.dest_id ≡ none
      → is_notvalidated p ≡ false
      → Bucket.len b + 1 ≤ size
      → Insertion size b c p b' r
      → (r ≡ ok tt)
        × IsBucket size b'
        × (Bucket.len b' ≡ Bucket.len b + 1)
        × ((id : ℕ) → Bucket.get b' id ≡ (if c.dest_id == id then some c else Bucket.get b id))
  unfolding Bucket.len is_full
  accepted b _ c p _ v fresh good room (refuses_duplicate f) =
      absurd (ground (arith, contains_contact-get b c.dest_id, f, fresh))
  accepted b _ c p _ v fresh good room (refuses_unvalidated f g) = absurd (ground (arith, g, good))
  accepted b _ c p _ v fresh good room (refuses_full f g l) =
      absurd (omega (arith, count_some-full b.contacts (ground (arith, l)), v.sized, room))
  accepted b b' c p _ v fresh good room (inserts f g w m look) = (refl, w, m, look)

  room_left :
      (t : FlatRoutingTable) (i count : ℕ) (b b' : Bucket)
      → get_elem? t.buckets i ≡ some b
      → n ≤ i
      → Bucket.len b' ≡ Bucket.len b + 1
      → HasRoom size n t (suc count)
      → HasRoom size n (updated t i b') count
  room_left t i count b b' k le more room j d h e = elim (Bool-cases (i == j)) [
    | inl f ↦
        let same : b' ≡ d =
          ground
            (arith, get_elem?-set t.buckets i j b' (get_elem?-some_lt t.buckets i b k), f, e) in
        rw (← same) (omega (arith, room i b le k, more))
    | inr f ↦ omega (
      arith,
      room j d h (
          ground (arith, get_elem?-set t.buckets i j b' (get_elem?-some_lt t.buckets i b k), f, e)),
    )
  ]

  pub add_again_lem :
      (contacts : List Contact) (t : FlatRoutingTable)
      → IsTable size acc t
      → AreDistinct contacts
      → AreWaiting acc n t contacts
      → HasRoom size n t (length contacts)
      → (t' : FlatRoutingTable) × (add_again acc t contacts ≡ returns t')
        × IsRefilled size acc t contacts t'
  unfolding add_again num_buckets
  add_again_lem [] t v d w room = (t, refl, (v, refl, λ id. refl))
  add_again_lem (c ∷ contacts) t v d ((((p, path, good), (i, h, le), absent), w)) room =
      let (b, k) = bucket_found acc t c.dest_id i h in
      let fresh : Bucket.get b c.dest_id ≡ none =
        ground (arith, contact_at acc t c.dest_id i b h k, absent) in
      let (b', r, e, insertion) = add_step size acc t c p i v path h b k in
      let (fine, u, more, look) =
        accepted b b' c p r (v.buckets_valid i b k) fresh good (omega (arith, room i b le k))
          insertion in
      let look' = contact-set acc t i c.dest_id b b' (some c) h k look in
      let v' : IsTable size acc (updated t i b') =
        IsTable-updated size acc t i b' (get_bucket_index-lt acc t c.dest_id i h) v u
          (IsSettled-inserted size acc t c p i v path h b b' k good look) in
      let (t', f, (done, same, found)) =
        add_again_lem contacts (updated t i b') v' d.1
          (AreWaiting-next acc n t i b' c look' contacts d.0 w)
          (room_left t i (length contacts) b b' k le more room) in
      let added : add acc t c ≡ returns (updated t i b', ok tt) =
        e
        ∙ ap
            (λ (x : Result (Unit {0}) BucketInsertionError). returns (updated t i b', add_result x))
            fine in
      (
        t',
        rw added f,
        (
          done,
          same ∙ length-set t.buckets i b',
          λ id. elim (Bool-cases (c.dest_id == id)) [
            | inl g ↦
                let none_left : find_contact id contacts ≡ none = rw (← ==→eq _ _ g) (d.0) in
                rw g (found id ∙ rw none_left (look' id ∙ rw g refl))
            | inr g ↦
                rw g (found id ∙ ap (or_found (find_contact id contacts)) (look' id ∙ rw g refl))
          ],
        ),
      )
