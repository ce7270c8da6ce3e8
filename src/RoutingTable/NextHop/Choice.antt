-- ===== src/RoutingTable/NextHop/Choice.antt =====
-- The next hop is nearer to the target than the root.
use kira_rust.Prelude.{
  ℕ, ◌-◌, ◌/◌, ◌≤◌, ◌<◌, dec_lt, ◌≡◌, refl, ap, ◌≢◌, inl, inr, Bool, true, ◌||◌, not, Option, none,
  some, List, [], ◌∷◌, arith, ltb, ◌==◌, ltb→lt, lt→ltb, ==→eq, ==_self, Bool-cases, Outcome,
  returns, Result, ok, Ordering,
}
use Prim.Native.Nat.{bit_xor}
use kira_rust.NodeId.{SharedPrefix, GroupingError, bit_length}
use kira_rust.NodeId.Prefixes.{IsId, prefix_of, shared_prefix_len_lem, longer_if_closer}
use kira_rust.NodeId.Distance.{bit_xor_comm, bit_xor_cancel}
use kira_rust.Contact.{Contact}
use kira_rust.RoutingTable.{PrefixContact}
use kira_rust.RoutingTable.NextHop.{
  min_from, min_by, take_length, strict_xor_metric, proximity_neighbor_selection, select, next_hop,
}
use kira_rust.RoutingTable.NextHop.Progress.{
  All, Among, IsListed, IsNextHop, IsSingleInLast, IsCandidate, AtMostXor, AtMostSize, min_from_lem,
  strict_compares, proximity_compares, AtMostSize-same, AtMostSize-chain,
}

-- Longer prefixes are those of smaller distances.
closer_if_longer :
    (group x y : ℕ)
    → 0 < group
    → (112 - bit_length 128 y) / group < (112 - bit_length 128 x) / group
    → x < y
closer_if_longer group x y pos h = elim (dec_lt x y) [
  | yes k ↦ k
  | no k ↦ absurd (omega (arith, longer_if_closer group y x pos (omega arith)))
]

module _ (root target grouping : ℕ) (v : IsId root) (w : IsId target) (pos : 0 < grouping)
    (small : grouping ≤ 112) where
  -- The prefix of a listed contact.
  listed_prefix :
      (p : SharedPrefix) (c : Contact)
      → IsListed root target grouping (p, c)
      → p ≡ prefix_of target c.dest_id grouping
  listed_prefix p c (e, is_id, other, sized) =
      ground (arith, e, shared_prefix_len_lem target c.dest_id grouping w is_id small)

  candidates :
      (closest contacts : List PrefixContact) (len : ℕ)
      → ((c : Contact) → Among c contacts → Among c closest)
      → All (IsListed root target grouping) contacts
      → All (IsCandidate root target grouping closest len) (take_length len contacts)
  unfolding take_length
  candidates closest [] len inside listed = tt
  candidates closest ((p, c) ∷ contacts) len inside (here, listed) =
      elim (Bool-cases (p.length_in_groups == len)) [
        | inl e ↦ rw e (
          (here, inside c (inl refl), ==→eq _ _ e),
          candidates closest contacts len (λ d m. inside d (inr m)) listed,
        )
        | inr e ↦ rw e tt
      ]

  -- A contact at most as far as the root is nearer, since it is another node.
  strictly :
      (p : SharedPrefix) (c : Contact)
      → IsListed root target grouping (p, c)
      → p.xor ≤ bit_xor root target
      → bit_xor target c.dest_id < bit_xor target root
  strictly p c listed h =
      let same : p.xor ≡ bit_xor target c.dest_id =
        ap (λ (q : SharedPrefix). q.xor) (listed_prefix p c listed) in
      let apart : bit_xor target c.dest_id ≢ bit_xor target root =
        λ e. absurd (listed.2 (bit_xor_cancel target c.dest_id root e)) in
      omega (arith, same, bit_xor_comm root target, apart)

  longer :
      (p : SharedPrefix) (c : Contact)
      → IsListed root target grouping (p, c)
      → (prefix_of root target grouping).length_in_groups < p.length_in_groups
      → bit_xor target c.dest_id < bit_xor target root
  longer p c listed h =
      closer_if_longer grouping (bit_xor target c.dest_id) (bit_xor target root) pos (
        rw (bit_xor_comm target root) (
          omega
            (arith, h, ap (λ (q : SharedPrefix). q.length_in_groups) (listed_prefix p c listed))))

  shorter :
      (p : SharedPrefix) (c : Contact)
      → IsListed root target grouping (p, c)
      → p.length_in_groups < (prefix_of root target grouping).length_in_groups
      → bit_xor target root < bit_xor target c.dest_id
  shorter p c listed h =
      closer_if_longer grouping (bit_xor target root) (bit_xor target c.dest_id) pos (
        rw (bit_xor_comm target root) (
          omega
            (arith, h, ap (λ (q : SharedPrefix). q.length_in_groups) (listed_prefix p c listed))))

  module _ (in_last_bucket : Contact → Bool) (p : SharedPrefix) (c : Contact)
      (others : List PrefixContact)
      (listed : All (IsListed root target grouping) ((p, c) ∷ others)) where
    abbrev closest : List PrefixContact
    closest = (p, c) ∷ others

    abbrev len : ℕ
    len = p.length_in_groups

    min_by_lem :
        (compare : PrefixContact → PrefixContact → Outcome Ordering) (x : PrefixContact)
        → min_from compare (p, c) (take_length len others) ≡ returns x
        → min_by compare (take_length len closest) ≡ returns (some x)
    unfolding min_by take_length
    min_by_lem compare x h = rw (==_self len, h) refl

    first-IsCandidate : IsCandidate root target grouping closest len (p, c)
    first-IsCandidate = (listed.0, inl refl, refl)

    others-IsCandidate : All (IsCandidate root target grouping closest len) (take_length len others)
    others-IsCandidate = candidates closest others len (λ d m. inr m) listed.1

    -- The nearest by the distance, and the one with the shortest path.
    strict_choice :
        (x : PrefixContact) × (min_by strict_xor_metric (take_length len closest)
          ≡ returns (some x))
        × IsCandidate root target grouping closest len x
        × (x.0.xor ≤ p.xor)
    strict_choice =
        let (x, e, good, nearer, all) =
          min_from_lem root target grouping closest len strict_xor_metric
            (AtMostXor root target grouping closest len) (λ y. omega arith)
            (λ y z u h k. omega arith) (strict_compares root target grouping closest len) (p, c)
            (take_length len others) first-IsCandidate others-IsCandidate in
        (x, min_by_lem strict_xor_metric x e, good, nearer)

    path_choice :
        (x : PrefixContact) × (min_by proximity_neighbor_selection (take_length len closest)
          ≡ returns (some x))
        × IsCandidate root target grouping closest len x
    path_choice =
        let (x, e, good, nearer, all) =
          min_from_lem root target grouping closest len proximity_neighbor_selection
            (AtMostSize root target grouping closest len)
            (AtMostSize-same root target grouping closest len)
            (AtMostSize-chain root target grouping closest len)
            (proximity_compares root target grouping closest len) (p, c) (take_length len others)
            first-IsCandidate others-IsCandidate in
        (x, min_by_lem proximity_neighbor_selection x e, good)

    select_lem :
        (r : SharedPrefix)
        → r ≡ prefix_of root target grouping
        → (not (in_last_bucket c)
            || elim others [ [] ↦ true | second ∷ rest ↦ ltb second.0.length_in_groups len ])
          ≡ true
        → (hop : Option Contact) × (select in_last_bucket r closest ≡ returns hop)
          × IsNextHop root target grouping closest hop
    unfolding select
    select_lem r e single =
        let same_length = ap (λ (q : SharedPrefix). q.length_in_groups) e in
        let same_xor = ap (λ (q : SharedPrefix). q.xor) e in
        elim (Bool-cases (ltb len r.length_in_groups)) [
          | inl h ↦
              (none, rw h refl, shorter p c listed.0 (omega (arith, ltb→lt _ _ h, same_length)))
          | inr h ↦ elim (Bool-cases (len == r.length_in_groups)) [
            | inl k ↦ elim (Bool-cases (ltb r.xor p.xor)) [
              | inl l ↦ (
                none,
                rw (h, k, l) refl,
                omega (
                  arith,
                  ltb→lt _ _ l,
                  same_xor,
                  bit_xor_comm root target,
                  ap (λ (q : SharedPrefix). q.xor) (listed_prefix p c listed.0),
                ),
              )
              | inr l ↦
                  let ((q, d), f, good, nearer) = strict_choice in
                  (
                    some d,
                    rw (h, k, l, f) refl,
                    (good.1, strictly q d good.0 (ground (arith, nearer, l, same_xor))),
                  )
            ]
            | inr k ↦
                let ((q, d), f, good) = path_choice in
                (
                  some d,
                  rw (h, k, single, f) refl,
                  (good.1, longer q d good.0 (ground (arith, good.2, h, k, same_length))),
                )
          ]
        ]

single_holds :
    (in_last_bucket : Contact → Bool) (p : SharedPrefix) (c : Contact) (others : List PrefixContact)
    → IsSingleInLast in_last_bucket ((p, c) ∷ others)
    → (not (in_last_bucket c) || elim others [
      | [] ↦ true
      | second ∷ rest ↦ ltb second.0.length_in_groups p.length_in_groups
    ])
      ≡ true
single_holds in_last_bucket p c [] h = ground arith
single_holds in_last_bucket p c (second ∷ rest) h = elim (Bool-cases (in_last_bucket c)) [
  | inl e ↦ ground (arith, e, lt→ltb _ _ (h e))
  | inr e ↦ ground (arith, e)
]

-- Greedy routing makes progress. If `closest` returns other nodes than the root, each with its prefix with
-- the target and a path of known size, and a contact of the last bucket comes without another of its
-- prefix length, then next_hop returns: the hop is one of these contacts and strictly nearer to the
-- target than the root is. Without a hop there is no contact, or the first one, hence
-- the nearest of a sorted list, is farther away than the root.
pub next_hop_progress :
    (root target grouping : ℕ)
    (closest : ℕ → ℕ → ℕ → Outcome (Result (List PrefixContact) GroupingError))
    (in_last_bucket : Contact → Bool) (contacts : List PrefixContact)
    → IsId root
    → IsId target
    → 0 < grouping
    → grouping ≤ 112
    → closest target 1 grouping ≡ returns (ok contacts)
    → All (IsListed root target grouping) contacts
    → IsSingleInLast in_last_bucket contacts
    → (hop : Option Contact) × (next_hop closest in_last_bucket root target grouping
        ≡ returns (ok hop))
      × IsNextHop root target grouping contacts hop
unfolding next_hop
next_hop_progress root target grouping closest in_last_bucket [] v w pos small e listed single =
    (none, rw e refl, tt)
next_hop_progress root target grouping closest in_last_bucket ((p, c) ∷ others) v w pos small e
      listed single =
    let (hop, f, good) =
      select_lem root target grouping v w pos small in_last_bucket p c others listed
        (prefix_of root target grouping) refl (single_holds in_last_bucket p c others single) in
    (hop, rw (e, shared_prefix_len_lem root target grouping v w small, f) refl, good)
