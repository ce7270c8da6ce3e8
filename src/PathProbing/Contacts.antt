-- ===== src/PathProbing/Contacts.antt =====
-- What timeouts, errors and responses do to a contact of the routing table.
use kira_rust.Prelude.{
  ℕ, Bool, false, ◌&&◌, Option, none, some, [], ◌∷◌, ltb, if◌then◌else◌, get_elem?, Outcome,
  returns, panics, ok, err, ◌>>=◌, ◌>>◌, assert, expect,
}
use kira_rust.HashMap
use kira_rust.HashMap.{HashMap}
use kira_rust.Link.{Link}
use kira_rust.Path.{
  NodePath, collect, is_valid, is_same_path_as, contains_link, set_valid, reverse_path,
}
use kira_rust.PathCollection.{clear_proposed_path}
use kira_rust.Contact.{Contact, set_invalid}
use kira_rust.SourceRoute.{SourceRoute}
use kira_rust.RoutingTable.{RoutingTable}
use kira_rust.PathProbing.{
  Request, Running, PathProbingState, initialized, error, running, forget,
  remove_from_tracked_messages, equals,
}

-- The write of a contact through the guard that `contact_mut` returns, if the node is there.
unfoldable pub change_contact :
    {T : Type 0} → RoutingTable T → T → ℕ → (Contact → Outcome Contact) → Outcome T
change_contact table t id change = do
  found ← table.contact t id
  elim found [ none ↦ returns t | some c ↦ do c' ← change c; table.contact_mut t id (λ _. c') ]

-- The path is the probed one, and its last validation is later than the probe.
unfoldable pub timed_out : Contact → Request → Bool
timed_out c request = elim c.path_collection.active_path [
  | none ↦ false
  | some current_path ↦
      is_same_path_as current_path request.path && elim current_path.last_validated [
        | none ↦ false
        | some last_validated ↦ ltb request.sent last_validated
      ]
]

unfoldable pub on_timeout : (ℕ → ℕ) → ℕ → Request → Contact → Outcome Contact
unfolding timed_out
on_timeout aged now request c =
    if timed_out c request then set_invalid aged c (record { nvs_list = [] }) now else returns c

unfoldable pub on_failed_link : (ℕ → ℕ) → ℕ → Link → Contact → Outcome Contact
on_failed_link aged now failed_link c =
    if elim c.path_collection.active_path [
      | none ↦ false
      | some active_path ↦ contains_link active_path failed_link
    ]
    then set_invalid aged c
        (record { nvs_list = record { link = failed_link; timestamp = now } ∷ [] }) now
    else if elim c.path_collection.proposed_path [
      | none ↦ false
      | some proposed_path ↦ contains_link proposed_path failed_link
    ]
    then returns (record c { path_collection = clear_proposed_path c.path_collection })
    else returns c

-- The response to a probe confirms the active or the proposed path that it came along.
abbrev pub equals_some : Option NodePath → NodePath → Bool
equals_some none rev_source_route = false
equals_some (some path) rev_source_route = equals path rev_source_route

unfoldable pub confirm_proposed : ℕ → NodePath → Contact → Outcome Contact
confirm_proposed now rev_source_route c = elim c.path_collection.proposed_path [
  | none ↦ returns c
  | some proposed_path ↦
      if equals proposed_path rev_source_route
      then (do
        confirmed ← set_valid proposed_path now
        returns (record c {
          path_collection = record c.path_collection { proposed_path = some confirmed };
        }))
      else returns c
]

unfoldable pub confirm : ℕ → NodePath → Contact → Outcome Contact
unfolding confirm_proposed
confirm now rev_source_route c = elim c.path_collection.active_path [
  | none ↦ confirm_proposed now rev_source_route c
  | some active_path ↦
      if equals active_path rev_source_route
      then (do
        assert (is_valid active_path)
        confirmed ← set_valid active_path now
        let c' : Contact = record c {
          path_collection = record c.path_collection { active_path = some confirmed };
        }
        returns (
            if equals_some c'.path_collection.proposed_path rev_source_route
            then record c' { path_collection = clear_proposed_path c'.path_collection }
            else c'))
      else confirm_proposed now rev_source_route c
]

-- `Path::from(SourceRoute)` and `reverse`: all nodes of the route, also the one where it ends.
unfoldable pub rev_source_route_of : SourceRoute → Outcome NodePath
rev_source_route_of route = elim (collect route.ids) [
  | err e ↦ panics
  | ok path ↦ returns (reverse_path path)
]

module _ {T : Type 0} (table : RoutingTable T) (aged : ℕ → ℕ) (now : ℕ) where
  unfoldable pub invalidate_contact_for_timer :
      T → PathProbingState → ℕ → Outcome (T × PathProbingState)
  unfolding change_contact on_timeout
  invalidate_contact_for_timer t initialized timer_id = returns (t, initialized)
  invalidate_contact_for_timer t error timer_id = returns (t, error)
  invalidate_contact_for_timer t (running r) timer_id = do
    nonce ← expect (HashMap.get r.probe_timers timer_id)
    let r' : Running = record r {
      probe_timers = HashMap.remove r.probe_timers timer_id;
      requests_in_flight = HashMap.remove r.requests_in_flight nonce;
    }
    elim (HashMap.get r.requests_in_flight nonce) [
      | none ↦ returns (t, running r')
      | some request ↦ do
        t' ← change_contact table t request.contact_id (on_timeout aged now request)
        returns (t', running r')
    ]

  unfoldable pub invalidate_contact_for_message :
      T → PathProbingState → ℕ → Link → Outcome (T × PathProbingState)
  unfolding change_contact on_failed_link forget
  invalidate_contact_for_message t initialized nonce failed_link = returns (t, initialized)
  invalidate_contact_for_message t error nonce failed_link = returns (t, error)
  invalidate_contact_for_message t (running r) nonce failed_link = do
    request ← expect (HashMap.get r.requests_in_flight nonce)
    t' ← change_contact table t request.contact_id (on_failed_link aged now failed_link)
    returns (t', running (forget r nonce))

module _ {T : Type 0} (table : RoutingTable T) (now : ℕ) where
  -- A response to a tracked message.
  unfoldable pub handle_probe_rsp :
      T → PathProbingState → ℕ → SourceRoute → Outcome (T × PathProbingState)
  unfolding change_contact confirm rev_source_route_of remove_from_tracked_messages
  handle_probe_rsp t s nonce source_route = do
    source ← expect (get_elem? source_route.ids 0)
    rev_source_route ← rev_source_route_of source_route
    t' ← change_contact table t source (confirm now rev_source_route)
    returns (t', remove_from_tracked_messages s nonce)
