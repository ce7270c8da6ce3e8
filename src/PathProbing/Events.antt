-- ===== src/PathProbing/Events.antt =====
-- The events of the use case: the loops that send requests, and the handler. The table's buckets are
-- an argument, as are the nonce that is unused and the identifiers of new timers.
use kira_rust.Prelude.{
  ℕ, ◌-◌, ◌/◌, Bool, false, Option, none, some, List, [], ◌∷◌, ◌++◌, map, ltb, if◌then◌else◌,
  Outcome, returns, ◌>>=◌, ◌>>◌, assert, expect,
}
use kira_rust.Link.{Link}
use kira_rust.Path.{NodePath, size, first}
use kira_rust.Contact.{Contact}
use kira_rust.SourceRoute.{SourceRoute}
use kira_rust.SourceRoute
use kira_rust.RoutingTable.{RoutingTable}
use kira_rust.UlnTable.{UlnTable}
use kira_rust.PathProbing.{
  PathProbeAction, contact_active_path, contact_proposed_path, probe_path, PathProbingState,
  initialized, error, running, same_action, ProbeReq, is_periodic_timer, is_tracked_timer,
  is_scheduled_probe_timer, is_tracked_message, remove_from_tracked_messages,
  garbage_collect_requests, schedule_path_probe_req, send_single_probe_req_for_path, send_probe_req,
  probed,
}
use kira_rust.PathProbing.Contacts.{
  invalidate_contact_for_timer, invalidate_contact_for_message, handle_probe_rsp,
}

pub record PathProbingConfig : Type 0 where
  pub probe_age : ℕ
  pub request_timeout : ℕ
  pub scheduled_probe_delay : ℕ

-- What the runtime gives while an event is handled.
pub record Runtime : Type 0 where
  pub now : ℕ
  pub unused_nonce : PathProbingState → ℕ
  pub timeout_timer : PathProbingState → ℕ
  pub rand_timer : ℕ

pub data Event : Type 0 where
  timer other_error : ℕ → Event
  probe_rsp probe_req : ℕ → SourceRoute → Event
  segment_failure : ℕ → Link → Event
  proposed removed : Contact → Event
  updated : Contact → Contact → Event
  other : Event

-- The requests and the answers that are sent, and the timers that are registered for scheduled probes.
pub data Message : Type 0 where
  request : ProbeReq → Message
  response : ProbeReq → Message
  register_rand_timer : ℕ → Message

unfoldable pub is_due : ℕ → ℕ → ℕ → Bool
is_due scheduled_probe_delay now time = ltb (scheduled_probe_delay / 2) (now - time)

-- `extract_if`: the actions that are due, and what stays.
unfoldable pub extract_due :
    (ℕ → Bool) → List (PathProbeAction × ℕ) → List PathProbeAction × List (PathProbeAction × ℕ)
extract_due due [] = ([], [])
extract_due due ((action, time) ∷ scheduled) =
    let rest = extract_due due scheduled in
    if due time then (action ∷ rest.0, rest.1) else (rest.0, (action, time) ∷ rest.1)

unfoldable pub unschedule :
    PathProbeAction → List (PathProbeAction × ℕ) → List (PathProbeAction × ℕ)
unschedule action [] = []
unschedule action ((scheduled_action, time) ∷ scheduled) =
    let rest = unschedule action scheduled in
    if same_action scheduled_action action then rest else (scheduled_action, time) ∷ rest

-- The timer that is registered for what stays.
abbrev pub restart : List (PathProbeAction × ℕ) → ℕ → List Message
restart [] timer_id = []
restart (first ∷ more) timer_id = register_rand_timer timer_id ∷ []

module _ {T : Type 0} (table : RoutingTable T) (config : PathProbingConfig) (runtime : Runtime)
    (t : T) where
  -- The path that an action probes, if there is one.
  unfoldable pub path_to_probe : PathProbeAction → Outcome (Option NodePath)
  path_to_probe (contact_active_path node_id) = do
    found ← table.contact t node_id
    returns (elim found [ none ↦ none | some c ↦ c.path_collection.active_path ])
  path_to_probe (contact_proposed_path node_id) = do
    found ← table.contact t node_id
    returns (elim found [ none ↦ none | some c ↦ c.path_collection.proposed_path ])
  path_to_probe (probe_path path) = returns (some path)

  unfoldable pub send_actions :
      List PathProbeAction → PathProbingState → Outcome (PathProbingState × List Message)
  unfolding path_to_probe
  send_actions [] s = returns (s, [])
  send_actions (action ∷ actions) s = do
    path ← path_to_probe action
    elim path [
      | none ↦ send_actions actions s
      | some p ↦ do
        (s', req) ←
            send_single_probe_req_for_path (table.root t) (runtime.unused_nonce s) runtime.now s p
        (s'', more) ← send_actions actions s'
        returns (s'', request req ∷ more)
    ]

  unfoldable pub send_scheduled_probe_requests :
      PathProbingState → Outcome (PathProbingState × List Message)
  unfolding send_actions extract_due is_due
  send_scheduled_probe_requests initialized = returns (initialized, [])
  send_scheduled_probe_requests error = returns (error, [])
  send_scheduled_probe_requests (running r) =
      let due =
        extract_due (is_due config.scheduled_probe_delay runtime.now) r.scheduled_probe_requests in
      (do
        let restarted : PathProbingState = running (record r {
          scheduled_probe_requests = due.1;
          scheduled_sending_timer = elim due.1 [
            | [] ↦ none
            | first ∷ more ↦ some runtime.rand_timer
          ];
        })
        (s', sent) ← send_actions due.0 restarted
        returns (s', restart due.1 runtime.rand_timer ++ sent))

  unfoldable pub send_to :
      List Contact → PathProbingState → Outcome (PathProbingState × List Message)
  send_to [] s = returns (s, [])
  send_to (c ∷ contacts) s = do
    (s', req) ←
        send_probe_req (table.root t) (runtime.unused_nonce s) (runtime.timeout_timer s) runtime.now
          s c
    (s'', more) ← send_to contacts s'
    returns (s'', request req ∷ more)

  -- The loop over the buckets.
  unfoldable pub send_probe_reqs :
      List (List Contact) → PathProbingState → Outcome (PathProbingState × List Message)
  unfolding send_to
  send_probe_reqs [] s = returns (s, [])
  send_probe_reqs (bucket ∷ buckets) s = do
    considered_contacts ← probed config.probe_age runtime.now bucket
    (s', sent) ← send_to considered_contacts s
    (s'', more) ← send_probe_reqs buckets s'
    returns (s'', sent ++ more)

-- The actions of a contact that is removed from the table.
unfoldable pub unschedule_contact : PathProbingState → ℕ → PathProbingState
unfolding unschedule
unschedule_contact initialized id = initialized
unschedule_contact error id = error
unschedule_contact (running r) id = running (record r {
  scheduled_probe_requests =
      unschedule (contact_proposed_path id)
        (unschedule (contact_active_path id) r.scheduled_probe_requests);
})

-- A path that was not proposed before and is longer than one hop.
unfoldable pub newly_proposed : Contact → Contact → Outcome Bool
newly_proposed new old = elim old.path_collection.proposed_path [
  | some path ↦ returns false
  | none ↦ elim new.path_collection.proposed_path [
    | none ↦ returns false
    | some path ↦ do n ← size path; returns (ltb 1 n)
  ]
]

module _ {T : Type 0} (table : RoutingTable T) (buckets : T → List (List Contact)) (un : UlnTable)
    (u : un.Table) (aged : ℕ → ℕ) (config : PathProbingConfig) (runtime : Runtime) where
  -- What the periodic timer does.
  unfoldable pub on_periodic_timer :
      T → PathProbingState → Outcome (PathProbingState × List Message)
  unfolding send_probe_reqs
  on_periodic_timer t s = do
    (s', sent) ← send_probe_reqs table config runtime t (buckets t) s
    returns (garbage_collect_requests config.request_timeout runtime.now s', sent)

  -- The three guarded parts of a timer event.
  unfoldable pub when_periodic :
      T → PathProbingState → ℕ → Outcome (PathProbingState × List Message)
  unfolding on_periodic_timer
  when_periodic t s timer_id =
      if is_periodic_timer s timer_id then on_periodic_timer t s else returns (s, [])

  unfoldable pub when_tracked : T → PathProbingState → ℕ → Outcome (T × PathProbingState)
  when_tracked t s timer_id =
      if is_tracked_timer s timer_id
      then invalidate_contact_for_timer table aged runtime.now t s timer_id
      else returns (t, s)

  unfoldable pub when_scheduled :
      T → PathProbingState → ℕ → Outcome (PathProbingState × List Message)
  unfolding send_scheduled_probe_requests
  when_scheduled t s timer_id =
      if is_scheduled_probe_timer s timer_id
      then send_scheduled_probe_requests table config runtime t s
      else returns (s, [])

  unfoldable pub on_timer : T → PathProbingState → ℕ → Outcome (T × PathProbingState × List Message)
  unfolding when_periodic when_tracked when_scheduled
  on_timer t s timer_id = do
    (s1, sent) ← when_periodic t s timer_id
    (t', s2) ← when_tracked t s1 timer_id
    (s3, more) ← when_scheduled t' s2 timer_id
    returns (t', s3, sent ++ more)

  unfoldable pub handle_event :
      T → PathProbingState → Event → Outcome (T × PathProbingState × List Message)
  unfolding on_timer unschedule_contact newly_proposed
  handle_event t s (timer timer_id) = on_timer t s timer_id
  handle_event t s (probe_rsp nonce route) =
      if is_tracked_message s nonce
      then (do (t', s') ← handle_probe_rsp table runtime.now t s nonce route; returns (t', s', []))
      else returns (t, s, [])
  handle_event t s (segment_failure nonce failed_link) =
      if is_tracked_message s nonce
      then (do
        (t', s') ← invalidate_contact_for_message table aged runtime.now t s nonce failed_link
        returns (t', s', []))
      else returns (t, s, [])
  handle_event t s (other_error nonce) =
      returns
        (t, (if is_tracked_message s nonce then remove_from_tracked_messages s nonce else s), [])
  handle_event t s (probe_req nonce route) = do
    answer ← SourceRoute.from_reversed route
    returns (t, s, response (nonce, answer) ∷ [])
  handle_event t s (proposed c) = do
    path ← expect c.path_collection.active_path
    neighbor ← first path
    assert (un.contains_id u neighbor)
    let scheduled = schedule_path_probe_req runtime.rand_timer runtime.now s (probe_path path)
    returns (t, scheduled.0, map register_rand_timer scheduled.1)
  handle_event t s (updated new old) = do
    probe ← newly_proposed new old
    let scheduled =
        if probe
        then schedule_path_probe_req runtime.rand_timer runtime.now s
            (contact_proposed_path new.dest_id)
        else (s, [])
    returns (t, scheduled.0, map register_rand_timer scheduled.1)
  handle_event t s (removed c) = returns (t, unschedule_contact s c.dest_id, [])
  handle_event t s other = returns (t, s, [])
