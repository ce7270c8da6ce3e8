-- ===== src/RoutingTable/NextHop.antt =====
-- kira-r2kad/src/domain/routing_table.rs: the next overlay hop to a node, from the contacts that `closest`
-- of a table returns. Greedy routing by shared prefixes, with the length of the path as a second criterion.
pub mod Progress
pub mod Choice
use kira_rust.Prelude.{
  ℕ, zero, suc, ◌+◌, ◌-◌, ◌*◌, ◌/◌, ◌%◌, ◌^◌, ◌≤◌, ◌<◌, min, max, dec_lt, dec_le, ℕ_discrete, ◌≡◌,
  refl, sym, ap, ◌∙◌, subst, ◌≢◌, ◌↔◌, ◌⊎◌, inl, inr, Bool, true, false, ◌&&◌, ◌||◌, not, Option,
  none, some, List, [], ◌∷◌, ◌++◌, map, arith, ltb, leb, ◌==◌, if◌then◌else◌, is_some, ltb→lt,
  lt→ltb, ==→eq, ==_self, ==_ne, Bool-cases, Option-cases, length, get_elem?, take, drop,
  length-append, length-drop-le, take-length_append, drop-length_append, contains, contains-append,
  length-take, length-drop, take-append-drop, get_elem?-inside, get_elem?-outside, set, set_self,
  length-set, get_elem?-set, get_elem?-some_lt, get_elem?-append, replicate, length-replicate,
  get_elem?-replicate, Result-cases, unwrap, Outcome, Outcome-cases, returns, panics, Result, ok,
  err, ◌>>=◌, ◌>>◌, assert, expect, Ordering, less, equal, greater, cmp, flip,
}
use kira_rust.Path.{size}
use kira_rust.NodeId.{SharedPrefix, GroupingError, shared_prefix_len}
use kira_rust.Contact.{Contact}
use kira_rust.RoutingTable.{PrefixContact}

abbrev pub lesser : Ordering → PrefixContact → PrefixContact → PrefixContact
lesser greater x y = y
lesser equal x y = x
lesser less x y = x

-- The fold of `min_by`: an earlier element stays unless it is greater.
unfoldable pub min_from :
    (PrefixContact → PrefixContact → Outcome Ordering)
    → PrefixContact
    → List PrefixContact
    → Outcome PrefixContact
min_from compare best [] = returns best
min_from compare best (x ∷ xs) = do
  order ← compare best x
  min_from compare (lesser order best x) xs

-- `Iterator::min_by` of the standard library.
unfoldable pub min_by :
    (PrefixContact → PrefixContact → Outcome Ordering)
    → List PrefixContact
    → Outcome (Option PrefixContact)
unfolding min_from
min_by compare [] = returns none
min_by compare (x ∷ xs) = do best ← min_from compare x xs; returns (some best)

-- `take_while` on the length of the prefix.
unfoldable pub take_length : ℕ → List PrefixContact → List PrefixContact
take_length len [] = []
take_length len ((prefix, c) ∷ contacts) =
    let rest = take_length len contacts in
    if prefix.length_in_groups == len then (prefix, c) ∷ rest else []

unfoldable pub strict_xor_metric : PrefixContact → PrefixContact → Outcome Ordering
strict_xor_metric (a, c) (b, d) = do
  assert (a.length_in_groups == b.length_in_groups)
  returns (cmp a.xor b.xor)

unfoldable pub proximity_neighbor_selection : PrefixContact → PrefixContact → Outcome Ordering
proximity_neighbor_selection (a, c) (b, d) = do
  assert (a.length_in_groups == b.length_in_groups)
  left ← expect c.path_collection.active_path
  right ← expect d.path_collection.active_path
  left_size ← size left
  right_size ← size right
  returns (elim (cmp left_size right_size) [
    | equal ↦ cmp a.xor b.xor
    | less ↦ less
    | greater ↦ greater
  ])

abbrev pub chosen : Option PrefixContact → Option Contact
chosen none = none
chosen (some (prefix, c)) = some c

-- The selection among the contacts that `closest` returned for one contact, by the prefix of the root;
-- `in_last_bucket` tells the debug assertion whether the nearest contact is in the bucket of the root.
unfoldable pub select :
    (Contact → Bool) → SharedPrefix → List PrefixContact → Outcome (Option Contact)
unfolding min_by take_length strict_xor_metric proximity_neighbor_selection
select in_last_bucket root_prefix [] = returns none
select in_last_bucket root_prefix ((nearest_prefix, nearest) ∷ others) =
    let closest = (nearest_prefix, nearest) ∷ others in
    let len = nearest_prefix.length_in_groups in
    if ltb len root_prefix.length_in_groups
    then returns none
    else if len == root_prefix.length_in_groups
    then if ltb root_prefix.xor nearest_prefix.xor
      then returns none
      else (do best ← min_by strict_xor_metric (take_length len closest); returns (chosen best))
    else do
      assert (
          not (in_last_bucket nearest)
          || elim others [ [] ↦ true | second ∷ rest ↦ ltb second.0.length_in_groups len ])
      best ← min_by proximity_neighbor_selection (take_length len closest)
      returns (chosen best)

-- `closest` is the method of the table at its present state.
unfoldable pub next_hop :
    (ℕ → ℕ → ℕ → Outcome (Result (List PrefixContact) GroupingError))
    → (Contact → Bool)
    → ℕ
    → ℕ
    → ℕ
    → Outcome (Result (Option Contact) GroupingError)
unfolding select
next_hop closest in_last_bucket root target grouping = do
  found ← closest target 1 grouping
  elim found [
    | err e ↦ returns (err e)
    | ok [] ↦ returns (ok none)
    | ok (first ∷ others) ↦ do
      prefix ← shared_prefix_len root target grouping
      elim prefix [
        | err e ↦ returns (err e)
        | ok root_prefix ↦ do
          hop ← select in_last_bucket root_prefix (first ∷ others)
          returns (ok hop)
      ]
  ]
