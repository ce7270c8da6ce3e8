-- ===== src/PathProbing.antt =====
-- kira-r2kad/src/use_cases/path_probing.rs: the requests that probe the paths of contacts and their
-- timers. Contacts has what timeouts, errors and responses do to a contact of the routing table,
-- Events the loops and the handler. The clock, the identifiers of timers and the nonces are
-- arguments: a nonce is what the loop ends with that draws one until it is unused.
pub mod Contacts
pub mod Events
pub mod Armed
pub mod Loops
pub mod Firing
pub mod Schedule
pub mod Verdicts
pub mod Order
pub mod Considered
pub mod Choice
pub mod Errors
mod Tests
use kira_rust.Prelude.{
  ℕ, zero, suc, ◌+◌, ◌-◌, ◌*◌, ◌/◌, ◌%◌, ◌^◌, ◌≤◌, ◌<◌, min, max, dec_lt, dec_le, ℕ_discrete, ◌≡◌,
  refl, sym, ap, ◌∙◌, subst, ◌≢◌, ◌↔◌, ◌⊎◌, inl, inr, Bool, true, false, ◌&&◌, ◌||◌, not, Option,
  none, some, List, [], ◌∷◌, ◌++◌, map, arith, ltb, leb, ◌==◌, if◌then◌else◌, is_some, ltb→lt,
  lt→ltb, ==→eq, ==_self, ==_ne, Bool-cases, Option-cases, length, get_elem?, take, drop,
  length-append, length-drop-le, take-length_append, drop-length_append, contains, contains-append,
  length-take, length-drop, take-append-drop, get_elem?-inside, get_elem?-outside, set, set_self,
  length-set, get_elem?-set, get_elem?-some_lt, get_elem?-append, replicate, length-replicate,
  get_elem?-replicate, Result-cases, unwrap, Outcome, Outcome-cases, returns, panics, Result, ok,
  err, ◌>>=◌, ◌>>◌, assert, expect, Ordering, less, equal, greater, cmp, flip,
}
use mathlib.Core.List.{reverse}
use kira_rust.HashMap
use kira_rust.HashMap.{HashMap}
use kira_rust.Link.{Link}
use kira_rust.NotVia.{NotViaStateList}
use kira_rust.Path.{
  PathState, undefined, valid, faulty, not_validated, NodePath, last, collect, is_valid,
  is_same_path_as, same_ids, contains_link, set_valid, reverse_path,
}
use kira_rust.PathCollection.{clear_proposed_path}
use kira_rust.Contact.{Contact, set_invalid, is_valid_contact, is_uln}
use kira_rust.SourceRoute.{SourceRoute}
use kira_rust.SourceRoute
use kira_rust.RoutingTable.{RoutingTable}

pub data PathProbeAction : Type 0 where
  contact_active_path contact_proposed_path : ℕ → PathProbeAction
  probe_path : NodePath → PathProbeAction

pub record Request : Type 0 where
  pub contact_id : ℕ
  pub path : NodePath
  pub sent : ℕ

pub record Running : Type 0 where
  pub probe_timer_id : ℕ
  pub probe_timers : HashMap ℕ
  pub requests_in_flight : HashMap Request
  pub scheduled_probe_requests : List (PathProbeAction × ℕ)
  pub scheduled_sending_timer : Option ℕ

pub data PathProbingState : Type 0 where
  initialized error : PathProbingState
  running : Running → PathProbingState

unfoldable pub start : ℕ → PathProbingState
start timer_id = running (record {
  probe_timer_id = timer_id;
  probe_timers = [];
  requests_in_flight = [];
  scheduled_probe_requests = [];
  scheduled_sending_timer = none;
})

unfoldable pub is_periodic_timer : PathProbingState → ℕ → Bool
is_periodic_timer initialized timer_id = false
is_periodic_timer error timer_id = false
is_periodic_timer (running r) timer_id = r.probe_timer_id == timer_id

unfoldable pub is_tracked_timer : PathProbingState → ℕ → Bool
is_tracked_timer initialized timer_id = false
is_tracked_timer error timer_id = false
is_tracked_timer (running r) timer_id = HashMap.contains_key r.probe_timers timer_id

unfoldable pub is_scheduled_probe_timer : PathProbingState → ℕ → Bool
is_scheduled_probe_timer initialized timer_id = false
is_scheduled_probe_timer error timer_id = false
is_scheduled_probe_timer (running r) timer_id = elim r.scheduled_sending_timer [
  | none ↦ false
  | some scheduled_sending_timer ↦ scheduled_sending_timer == timer_id
]

unfoldable pub is_tracked_message : PathProbingState → ℕ → Bool
is_tracked_message initialized nonce = false
is_tracked_message error nonce = false
is_tracked_message (running r) nonce = HashMap.contains_key r.requests_in_flight nonce

-- Both maps without a nonce.
unfoldable pub forget : Running → ℕ → Running
forget r nonce = record r {
  requests_in_flight = HashMap.remove r.requests_in_flight nonce;
  probe_timers = HashMap.retain (λ timer_id v. not (v == nonce)) r.probe_timers;
}

unfoldable pub remove_from_tracked_messages : PathProbingState → ℕ → PathProbingState
unfolding forget
remove_from_tracked_messages initialized nonce = initialized
remove_from_tracked_messages error nonce = error
remove_from_tracked_messages (running r) nonce = running (forget r nonce)

-- `retain` on the time since a request, which saturates at 0.
unfoldable pub garbage_collect_requests : ℕ → ℕ → PathProbingState → PathProbingState
garbage_collect_requests request_timeout now initialized = initialized
garbage_collect_requests request_timeout now error = error
garbage_collect_requests request_timeout now (running r) = running (record r {
  requests_in_flight =
      HashMap.retain (λ nonce v. leb (now - v.sent) request_timeout) r.requests_in_flight;
})

-- The derived equality of paths, with their states and times.
abbrev pub same_state : PathState → PathState → Bool
same_state undefined s = elim s [ undefined ↦ true | _ ↦ false ]
same_state valid s = elim s [ valid ↦ true | _ ↦ false ]
same_state faulty s = elim s [ faulty ↦ true | _ ↦ false ]
same_state not_validated s = elim s [ not_validated ↦ true | _ ↦ false ]

abbrev pub same_time : Option ℕ → Option ℕ → Bool
same_time none none = true
same_time none (some b) = false
same_time (some a) none = false
same_time (some a) (some b) = a == b

unfoldable pub equals : NodePath → NodePath → Bool
equals p q =
    same_ids p.ids q.ids
    && same_state p.path_state q.path_state
    && same_time p.last_validated q.last_validated
    && same_time p.last_path_refresh q.last_path_refresh

abbrev pub same_action : PathProbeAction → PathProbeAction → Bool
same_action (contact_active_path i) (contact_active_path j) = i == j
same_action (contact_active_path i) (contact_proposed_path j) = false
same_action (contact_active_path i) (probe_path q) = false
same_action (contact_proposed_path i) (contact_active_path j) = false
same_action (contact_proposed_path i) (contact_proposed_path j) = i == j
same_action (contact_proposed_path i) (probe_path q) = false
same_action (probe_path p) (contact_active_path j) = false
same_action (probe_path p) (contact_proposed_path j) = false
same_action (probe_path p) (probe_path q) = equals p q

abbrev pub is_scheduled : PathProbeAction → List (PathProbeAction × ℕ) → Bool
is_scheduled action [] = false
is_scheduled action ((other, time) ∷ scheduled) =
    same_action other action || is_scheduled action scheduled

-- The state afterwards and the timers that are registered.
unfoldable pub schedule_path_probe_req :
    ℕ → ℕ → PathProbingState → PathProbeAction → PathProbingState × List ℕ
schedule_path_probe_req new_timer now initialized action = (initialized, [])
schedule_path_probe_req new_timer now error action = (error, [])
schedule_path_probe_req new_timer now (running r) action = (
  running (record r {
    scheduled_sending_timer = elim r.scheduled_sending_timer [
      | none ↦ some new_timer
      | some timer_id ↦ some timer_id
    ];
    scheduled_probe_requests =
        if is_scheduled action r.scheduled_probe_requests
        then r.scheduled_probe_requests
        else (action, now) ∷ r.scheduled_probe_requests;
  }),
  elim r.scheduled_sending_timer [ none ↦ new_timer ∷ [] | some timer_id ↦ [] ],
)

-- What the request says: its nonce and its route; the header repeats these beside fields of the node.
abbrev pub ProbeReq : Type 0
ProbeReq = ℕ × SourceRoute

unfoldable pub send_single_probe_req_for_path :
    ℕ → ℕ → ℕ → PathProbingState → NodePath → Outcome (PathProbingState × ProbeReq)
send_single_probe_req_for_path root nonce now initialized path_to_probe = panics
send_single_probe_req_for_path root nonce now error path_to_probe = panics
send_single_probe_req_for_path root nonce now (running r) path_to_probe = do
  contact_id ← last path_to_probe
  let request : Request = record { contact_id = contact_id; path = path_to_probe; sent = now }
  returns (
    running (record r { requests_in_flight = HashMap.insert r.requests_in_flight nonce request }),
    (nonce, SourceRoute.new root path_to_probe),
  )

unfoldable pub send_probe_req :
    ℕ → ℕ → ℕ → ℕ → PathProbingState → Contact → Outcome (PathProbingState × ProbeReq)
send_probe_req root nonce timeout_timer now initialized c = panics
send_probe_req root nonce timeout_timer now error c = panics
send_probe_req root nonce timeout_timer now (running r) c = do
  path ← expect c.path_collection.active_path
  let request : Request = record { contact_id = c.dest_id; path = path; sent = now }
  returns (
    running (record r {
      probe_timers = HashMap.insert r.probe_timers timeout_timer nonce;
      requests_in_flight = HashMap.insert r.requests_in_flight nonce request;
    }),
    (nonce, SourceRoute.new root path),
  )

-- `filter`: a contact that is old enough, valid and no underlay neighbor, which is asked last.
unfoldable pub is_considered : ℕ → ℕ → Contact → Outcome Bool
is_considered probe_age now c = elim (leb probe_age (now - c.last_seen) && is_valid_contact c) [
  | false ↦ returns false
  | true ↦ do neighbor ← is_uln c; returns (not neighbor)
]

unfoldable pub considered_contacts : ℕ → ℕ → List Contact → Outcome (List Contact)
unfolding is_considered
considered_contacts probe_age now [] = returns []
considered_contacts probe_age now (c ∷ contacts) = do
  keep ← is_considered probe_age now c
  rest ← considered_contacts probe_age now contacts
  returns (if keep then c ∷ rest else rest)

-- `sort_unstable_by_key`, of which this is one order: the source leaves open how contacts that were seen
-- at the same time are ordered.
unfoldable pub insert_sorted : Contact → List Contact → List Contact
insert_sorted c [] = c ∷ []
insert_sorted c (d ∷ contacts) =
    let rest = insert_sorted c contacts in
    if leb c.last_seen d.last_seen then c ∷ d ∷ contacts else d ∷ rest

unfoldable pub sort_by_last_seen : List Contact → List Contact
unfolding insert_sorted
sort_by_last_seen [] = []
sort_by_last_seen (c ∷ contacts) = insert_sorted c (sort_by_last_seen contacts)

-- The contacts of a bucket that are probed.
unfoldable pub probed : ℕ → ℕ → List Contact → Outcome (List Contact)
unfolding considered_contacts sort_by_last_seen
probed probe_age now contacts = do
  considered ← considered_contacts probe_age now contacts
  returns (take 2 (reverse (sort_by_last_seen considered)))
