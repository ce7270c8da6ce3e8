-- ===== src/RoutingTable.antt =====
-- kira-r2kad/src/domain/routing_table.rs: the interface of the routing tables, and the operations that it
-- defines for all of them. A call of a reference to a contact takes the write that the caller makes.
pub mod Flat
pub mod NextHop
pub mod UnlimitedUln
pub mod Tests
use kira_rust.Prelude.{
  ℕ, zero, suc, ◌+◌, ◌-◌, ◌*◌, ◌/◌, ◌%◌, ◌^◌, ◌≤◌, ◌<◌, min, max, dec_lt, dec_le, ℕ_discrete, ◌≡◌,
  refl, sym, ap, ◌∙◌, subst, ◌≢◌, ◌↔◌, ◌⊎◌, inl, inr, Bool, true, false, ◌&&◌, ◌||◌, not, Option,
  none, some, List, [], ◌∷◌, ◌++◌, map, arith, ltb, leb, ◌==◌, if◌then◌else◌, is_some, ltb→lt,
  lt→ltb, ==→eq, ==_self, ==_ne, Bool-cases, Option-cases, length, get_elem?, take, drop,
  length-append, length-drop-le, take-length_append, drop-length_append, contains, contains-append,
  length-take, length-drop, take-append-drop, get_elem?-inside, get_elem?-outside, set, length-set,
  get_elem?-set, get_elem?-some_lt, get_elem?-append, replicate, length-replicate,
  get_elem?-replicate, Result-cases, unwrap, Outcome, Outcome-cases, returns, panics, Result, ok,
  err, ◌>>=◌, ◌>>◌, assert, expect, Ordering, less, equal, greater, cmp, flip,
}
use kira_rust.NodeId.{SharedPrefix, GroupingError}
use kira_rust.Contact.{Contact}
use kira_rust.Bucket.{Bucket}

pub data AddError : Type 0 where
  already_exists : ℕ → AddError
  not_added needs_validation : AddError

pub data BucketSplitError : Type 0 where
  unsplittable max_buckets_reached : BucketSplitError

pub data InsertionError : Type 0 where
  add : AddError → InsertionError
  bucket_split : BucketSplitError → InsertionError

abbrev pub PrefixContact : Type 0
PrefixContact = SharedPrefix × Contact

-- The methods of the trait that the insertion and its strategies use.
pub record RoutingTable (T : Type 0) : Type 0 where
  pub root : T → ℕ
  pub add : T → Contact → Outcome (T × Result (Unit {0}) AddError)
  pub contact : T → ℕ → Outcome (Option Contact)
  pub contact_mut : T → ℕ → (Contact → Contact) → Outcome T
  pub contains : T → ℕ → Outcome Bool
  pub split_bucket : T → ℕ → Outcome (T × Result ℕ BucketSplitError)
  pub bucket : T → ℕ → Outcome Bucket

module _ {T : Type 0} (table : RoutingTable T) where
  -- The recursion of `insert`, split by split; `none` is the end of the fuel.
  unfoldable pub insert : ℕ → T → Contact → Option (Outcome (T × Result (Unit {0}) InsertionError))
  insert zero t c = none
  insert (suc fuel) t c = elim (table.add t c) [
    | panics ↦ some panics
    | returns (t', added) ↦ elim added [
      | ok u ↦ some (returns (t', ok u))
      | err (already_exists id) ↦ some (returns (t', err (InsertionError.add (already_exists id))))
      | err needs_validation ↦ some (returns (t', err (InsertionError.add needs_validation)))
      | err not_added ↦ elim (table.split_bucket t' c.dest_id) [
        | panics ↦ some panics
        | returns (t'', split) ↦ elim split [
          | ok index ↦ insert fuel t'' c
          | err e ↦ some (returns (t'', err (bucket_split e)))
        ]
      ]
    ]
  ]

  -- The loop of `extend`: an error is ignored or ends it.
  unfoldable pub extend :
      ℕ → Bool → T → List Contact → Option (Outcome (T × Result (Unit {0}) InsertionError))
  extend fuel drop_on_error t [] = some (returns (t, ok tt))
  extend fuel drop_on_error t (c ∷ contacts) = elim (insert fuel t c) [
    | none ↦ none
    | some panics ↦ some panics
    | some (returns (t', ok u)) ↦ extend fuel drop_on_error t' contacts
    | some (returns (t', err e)) ↦ elim drop_on_error [
      | true ↦ extend fuel drop_on_error t' contacts
      | false ↦ some (returns (t', err e))
    ]
  ]
