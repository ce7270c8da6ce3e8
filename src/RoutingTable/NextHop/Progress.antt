-- ===== src/RoutingTable/NextHop/Progress.antt =====
-- The minimum of the candidates for the next hop, by their distances and by their paths.
use kira_rust.Prelude.{
  ℕ, ◌≤◌, ◌<◌, dec_lt, ℕ_discrete, ◌≡◌, refl, sym, ◌∙◌, ◌≢◌, ◌⊎◌, Bool, true, Option, none, some,
  List, [], ◌∷◌, arith, ==_self, Outcome, returns, ok, Ordering, less, equal, greater, cmp,
}
use Prim.Native.Nat.{bit_xor}
use kira_rust.Path.{NodePath, size}
use kira_rust.NodeId.{shared_prefix_len}
use kira_rust.NodeId.Prefixes.{IsId}
use kira_rust.Contact.{Contact}
use kira_rust.RoutingTable.{PrefixContact}
use kira_rust.RoutingTable.NextHop.{
  min_from, strict_xor_metric, proximity_neighbor_selection, lesser,
}

abbrev pub All : (PrefixContact → Type 0) → List PrefixContact → Type 0
All P [] = Unit
All P (x ∷ xs) = P x × All P xs

abbrev pub Among : Contact → List PrefixContact → Type 0
Among c [] = ⊥
Among c ((prefix, d) ∷ contacts) = (d ≡ c) ⊎ Among c contacts

-- The path of a contact has a size, which its state decides.
abbrev pub HasSize : Contact → Type 0
HasSize c =
    (path : NodePath) × (n : ℕ) × (c.path_collection.active_path ≡ some path)
    × (size path ≡ returns n)

module _ (root target grouping : ℕ) where
  -- What `closest` promises of its pairs: another node than the root, with its prefix with the target.
  abbrev pub IsListed : PrefixContact → Type 0
  IsListed (prefix, c) =
      (shared_prefix_len target c.dest_id grouping ≡ returns (ok prefix))
      × IsId c.dest_id
      × (c.dest_id ≢ root)
      × HasSize c

  -- The choice, by the distances of the nodes to the target.
  abbrev pub IsNextHop : List PrefixContact → Option Contact → Type 0
  IsNextHop closest (some c) = Among c closest × (bit_xor target c.dest_id < bit_xor target root)
  IsNextHop [] none = Unit
  IsNextHop ((prefix, nearest) ∷ others) none = bit_xor target root < bit_xor target nearest.dest_id

-- The debug assertion on the last bucket: its contacts come with no other of their prefix.
abbrev pub IsSingleInLast : (Contact → Bool) → List PrefixContact → Type 0
IsSingleInLast in_last_bucket [] = Unit
IsSingleInLast in_last_bucket (first ∷ []) = Unit
IsSingleInLast in_last_bucket (first ∷ second ∷ rest) =
    in_last_bucket first.1 ≡ true → second.0.length_in_groups < first.0.length_in_groups

module _ (root target grouping : ℕ) (closest : List PrefixContact) (len : ℕ) where
  -- A candidate of the selection.
  abbrev pub IsCandidate : PrefixContact → Type 0
  IsCandidate (prefix, c) =
      IsListed root target grouping (prefix, c) × Among c closest × (prefix.length_in_groups ≡ len)

  abbrev Candidate : Type 0
  Candidate = (x : PrefixContact) × IsCandidate x

  -- `compare` decides on candidates for one that is at most both.
  abbrev pub Compares :
      (PrefixContact → PrefixContact → Outcome Ordering)
      → (PrefixContact → PrefixContact → Type 0)
      → Type 0
  Compares compare AtMost =
      (x y : PrefixContact)
      → IsCandidate x
      → IsCandidate y
      → (order : Ordering) × (compare x y ≡ returns order)
        × AtMost (lesser order x y) x
        × AtMost (lesser order x y) y

  IsCandidate-lesser :
      (order : Ordering) (x y : PrefixContact)
      → IsCandidate x
      → IsCandidate y
      → IsCandidate (lesser order x y)
  IsCandidate-lesser less x y v w = v
  IsCandidate-lesser equal x y v w = v
  IsCandidate-lesser greater x y v w = w

  module _ (compare : PrefixContact → PrefixContact → Outcome Ordering)
      (AtMost : PrefixContact → PrefixContact → Type 0) (same : (x : PrefixContact) → AtMost x x)
      (chain : (x y z : PrefixContact) → AtMost x y → AtMost y z → AtMost x z)
      (compares : Compares compare AtMost) where
    pub min_from_lem :
        (x : PrefixContact) (xs : List PrefixContact)
        → IsCandidate x
        → All IsCandidate xs
        → (r : PrefixContact) × (min_from compare x xs ≡ returns r)
          × IsCandidate r
          × AtMost r x
          × All (AtMost r) xs
    unfolding min_from
    min_from_lem x [] v w = (x, refl, v, same x, tt)
    min_from_lem x (y ∷ xs) v (u, w) =
        let (order, e, left, right) = compares x y v u in
        let z = lesser order x y in
        let (r, f, k, l, all) = min_from_lem z xs (IsCandidate-lesser order x y v u) w in
        (r, rw e f, k, chain r z x l left, (chain r z y l right, all))

  abbrev pub AtMostXor : PrefixContact → PrefixContact → Type 0
  AtMostXor x y = x.0.xor ≤ y.0.xor

  pub strict_compares : Compares strict_xor_metric AtMostXor
  unfolding strict_xor_metric
  strict_compares (p, c) (q, d) v w = elim (dec_lt q.xor p.xor) [
    | yes h ↦ (greater, ground (arith, v.2, w.2, ==_self len), omega arith, omega arith)
    | no h ↦ elim (ℕ_discrete p.xor q.xor) [
      | yes e ↦ (equal, ground (arith, v.2, w.2, ==_self len), omega arith, omega arith)
      | no e ↦ (less, ground (arith, v.2, w.2, ==_self len), omega arith, omega arith)
    ]
  ]

  -- The size of the active path.
  pub AtMostSize : PrefixContact → PrefixContact → Type 0
  AtMostSize x y =
      (q : NodePath) (m : ℕ)
      → y.1.path_collection.active_path ≡ some q
      → size q ≡ returns m
      → (p : NodePath) × (n : ℕ) × (x.1.path_collection.active_path ≡ some p)
        × (size p ≡ returns n)
        × (n ≤ m)

  pub AtMostSize-same : (x : PrefixContact) → AtMostSize x x
  unfolding AtMostSize
  AtMostSize-same x q m e f = (q, m, e, f, omega arith)

  pub AtMostSize-chain : (x y z : PrefixContact) → AtMostSize x y → AtMostSize y z → AtMostSize x z
  unfolding AtMostSize
  AtMostSize-chain x y z h k q m e f =
      let (p, n, g, l, small) = k q m e f in
      let (p', n', g', l', small') = h p n g l in (p', n', g', l', omega arith)

  -- Contacts with known sizes.
  AtMostSize-of :
      (x y : PrefixContact) (p q : NodePath) (n m : ℕ)
      → x.1.path_collection.active_path ≡ some p
      → size p ≡ returns n
      → y.1.path_collection.active_path ≡ some q
      → size q ≡ returns m
      → n ≤ m
      → AtMostSize x y
  unfolding AtMostSize
  AtMostSize-of x y p q n m e f g h k q' m' g' h' =
      let one_path : q ≡ q' = ground (arith, g, g') in
      let one_size : returns m ≡ returns m' = sym h ∙ rw one_path h' in
      (p, n, e, f, ground (arith, one_size))

  pub proximity_compares : Compares proximity_neighbor_selection AtMostSize
  unfolding proximity_neighbor_selection
  proximity_compares (a, c) (b, d) v w =
      let (p, n, e, f) = v.0.3 in
      let (q, m, g, h) = w.0.3 in
      let self = AtMostSize-same in
      elim (dec_lt m n) [
        | yes k ↦ (
          greater,
          ground (arith, v.2, w.2, ==_self len, e, f, g, h),
          AtMostSize-of (b, d) (a, c) q p m n g h e f (omega arith),
          self (b, d),
        )
        | no k ↦ elim (ℕ_discrete n m) [
          | no l ↦ (
            less,
            ground (arith, v.2, w.2, ==_self len, e, f, g, h),
            self (a, c),
            AtMostSize-of (a, c) (b, d) p q n m e f g h (omega arith),
          )
          | yes l ↦ (
            cmp a.xor b.xor,
            ground (arith, v.2, w.2, ==_self len, e, f, g, h),
            either (cmp a.xor b.xor) (a, c) (b, d) (a, c) (self (a, c))
                (AtMostSize-of (b, d) (a, c) q p m n g h e f (omega arith)),
            either (cmp a.xor b.xor) (a, c) (b, d) (b, d)
                (AtMostSize-of (a, c) (b, d) p q n m e f g h (omega arith)) (self (b, d)),
          )
        ]
      ]
    where
      either :
          (order : Ordering) (x y z : PrefixContact)
          → AtMostSize x z
          → AtMostSize y z
          → AtMostSize (lesser order x y) z
      either less x y z h k = h
      either equal x y z h k = h
      either greater x y z h k = k
