-- ===== src/PathProbing/Verdicts.antt =====
-- What becomes of a probed contact after a timeout, an error or a response.
use kira_rust.Prelude.{
  ℕ, ◌<◌, ◌≡◌, refl, ap, ◌∙◌, ◌≢◌, inl, inr, true, false, Option, none, some, List, [], ◌∷◌, arith,
  ◌==◌, if◌then◌else◌, ltb→lt, lt→ltb, Bool-cases, Option-cases, get_elem?, returns, ok,
}
use kira_rust.HashMap
use kira_rust.HashMap.{HashMap, IsUnique}
use mathlib.Core.List.{reverse}
use kira_rust.Path.{NodePath, valid, is_same_path_as, same_ids, last?, collect, reverse_path}
use kira_rust.PathCollection.Promotion.{same_ids-eq}
use kira_rust.SourceRoute.{SourceRoute}
use kira_rust.SourceRoute.Reversal.{first-reverse}
use kira_rust.Contact.{Contact, is_valid_contact}
use kira_rust.Contact.Assessment.{IsContact}
use kira_rust.Contact.Failures.{set_invalid_lem}
use kira_rust.RoutingTable.{RoutingTable}
use kira_rust.PathProbing.{
  Request, Running, PathProbingState, running, remove_from_tracked_messages, equals,
}
use kira_rust.PathProbing.Contacts.{
  change_contact, timed_out, on_timeout, confirm, confirm_proposed, rev_source_route_of,
  invalidate_contact_for_timer, handle_probe_rsp,
}

-- The active path has the nodes of the probed one and was validated after the probe was sent.
pub record ValidatedSince (c : Contact) (request : Request) : Type 0 where
  pub path : NodePath
  pub active : c.path_collection.active_path ≡ some path
  pub same : same_ids path.ids request.path.ids ≡ true
  pub time : ℕ
  pub validated : path.last_validated ≡ some time
  pub later : request.sent < time

timed_out-ValidatedSince :
    (c : Contact) (request : Request) → timed_out c request ≡ true → ValidatedSince c request
unfolding timed_out is_same_path_as
timed_out-ValidatedSince c request h = elim (Option-cases c.path_collection.active_path) [
  | inl e ↦ absurd (ground (arith, e, h))
  | inr (p, e) ↦ elim (Option-cases p.last_validated) [
    | inl f ↦ absurd (ground (arith, e, f, h))
    | inr (v, f) ↦ record {
      path = p;
      active = e;
      same = ground (arith, e, f, h);
      time = v;
      validated = f;
      later = ltb→lt request.sent v (ground (arith, e, f, h));
    }
  ]
]

ValidatedSince-timed_out :
    (c : Contact) (request : Request) → ValidatedSince c request → timed_out c request ≡ true
unfolding timed_out is_same_path_as
ValidatedSince-timed_out c request v =
    rw (v.active, v.same, v.validated) (lt→ltb request.sent v.time v.later)

-- Two verdicts over a probe without an answer.
pub data TimeoutVerdict (c : Contact) (request : Request) : Contact → Type 0 where
  invalidated :
      {c' : Contact}
      → ValidatedSince c request
      → is_valid_contact c' ≡ false
      → TimeoutVerdict c request c'
  spared : ¬ ValidatedSince c request → TimeoutVerdict c request c

on_timeout_lem :
    (aged : ℕ → ℕ) (now : ℕ) (c : Contact) (request : Request)
    → IsContact c
    → (c' : Contact) × (on_timeout aged now request c ≡ returns c')
      × IsContact c'
      × TimeoutVerdict c request c'
unfolding on_timeout
on_timeout_lem aged now c request v = elim (Bool-cases (timed_out c request)) [
  | inl e ↦
      let (c', f, w, bad, is_faulty_now, links) =
        set_invalid_lem aged c (record { nvs_list = [] }) now v in
      (c', ground (arith, e, f), w, invalidated (timed_out-ValidatedSince c request e) bad)
  | inr e ↦ (
    c,
    ground (arith, e),
    v,
    spared (λ since. ground (arith, e, ValidatedSince-timed_out c request since)),
  )
]

-- What is not about a single request.
abbrev pub SameSchedule : Running → Running → Type 0
SameSchedule r r' =
    (r'.probe_timer_id ≡ r.probe_timer_id)
    × (r'.scheduled_probe_requests ≡ r.scheduled_probe_requests)
    × (r'.scheduled_sending_timer ≡ r.scheduled_sending_timer)

-- The maps without an entry, and the rest as it was.
abbrev pub Forgets : ℕ → ℕ → Running → Running → Type 0
Forgets timer_id nonce r r' =
    ((k : ℕ)
      → HashMap.get r'.probe_timers k
        ≡ (if timer_id == k then none else HashMap.get r.probe_timers k))
    × ((k : ℕ)
        → HashMap.get r'.requests_in_flight k
          ≡ (if nonce == k then none else HashMap.get r.requests_in_flight k))
    × SameSchedule r r'

module _ {T : Type 0} (table : RoutingTable T) (t : T) where
  -- The table can write to a node.
  abbrev pub CanWrite : ℕ → Type 0
  CanWrite id = (c : Contact) → (t' : T) × (table.contact_mut t id (λ _. c) ≡ returns t')

module _ {T : Type 0} (table : RoutingTable T) (aged : ℕ → ℕ) (now : ℕ) (t : T) where
  -- A timeout of a tracked request to a contact of the table panics nowhere and forgets its timer and its
  -- request only; the scheduled probes and their timer stay. The contact is invalidated exactly if its
  -- active path is the probed one and was validated after the probe was sent; else it is written back
  -- as it was.
  pub timeout_handled :
      (r : Running) (timer_id nonce : ℕ) (request : Request) (c : Contact)
      → HashMap.get r.probe_timers timer_id ≡ some nonce
      → HashMap.get r.requests_in_flight nonce ≡ some request
      → table.contact t request.contact_id ≡ returns (some c)
      → IsContact c
      → CanWrite table t request.contact_id
      → (t' : T) × (r' : Running) × (c' : Contact) × (invalidate_contact_for_timer table aged now t
            (running r)
            timer_id
          ≡ returns (t', running r'))
        × (table.contact_mut t request.contact_id (λ _. c') ≡ returns t')
        × IsContact c'
        × TimeoutVerdict c request c'
        × Forgets timer_id nonce r r'
  unfolding invalidate_contact_for_timer change_contact
  timeout_handled r timer_id nonce request c h k at v writes =
      let (c', e, w, verdict) = on_timeout_lem aged now c request v in
      let (t', f) = writes c' in
      (
        t',
        record r {
          probe_timers = HashMap.remove r.probe_timers timer_id;
          requests_in_flight = HashMap.remove r.requests_in_flight nonce;
        },
        c',
        ground (arith, h, k, at, e, f),
        f,
        w,
        verdict,
        (
          HashMap.get-remove r.probe_timers timer_id,
          HashMap.get-remove r.requests_in_flight nonce,
          (refl, refl, refl),
        ),
      )

-- The route of a response ends at the node itself, which is not the first node of a path.
no_match :
    (root : ℕ) (p : NodePath) (ids : List ℕ) (rev : NodePath)
    → rev.ids ≡ reverse ids
    → last? ids ≡ some root
    → (get_elem? p.ids 0 ≢ some root)
    → equals p rev ≡ false
unfolding equals
no_match root p ids rev e h apart = elim (Bool-cases (same_ids p.ids rev.ids)) [
  | inl f ↦
      let same : p.ids ≡ reverse ids = same_ids-eq p.ids rev.ids f ∙ e in
      absurd (apart (rw same (first-reverse ids root h)))
  | inr f ↦ ground (arith, f)
]

abbrev pub NotFrom : ℕ → Option NodePath → Type 0
NotFrom root path = (p : NodePath) → path ≡ some p → get_elem? p.ids 0 ≢ some root

confirm_nothing :
    (now root : ℕ) (c : Contact) (ids : List ℕ) (rev : NodePath)
    → rev.ids ≡ reverse ids
    → last? ids ≡ some root
    → NotFrom root c.path_collection.active_path
    → NotFrom root c.path_collection.proposed_path
    → confirm now rev c ≡ returns c
unfolding confirm confirm_proposed
confirm_nothing now root c ids rev e h not_active not_proposed =
    let spared : confirm_proposed now rev c ≡ returns c =
      elim (Option-cases c.path_collection.proposed_path) [
        | inl f ↦ ground (arith, f)
        | inr (q, f) ↦ ground (arith, f, no_match root q ids rev e h (not_proposed q f))
      ] in
    elim (Option-cases c.path_collection.active_path) [
      | inl f ↦ ground (arith, f, spared)
      | inr (p, f) ↦ ground (arith, f, no_match root p ids rev e h (not_active p f), spared)
    ]

collect_lem :
    (ids : List ℕ) (a : ℕ)
    → get_elem? ids 0 ≡ some a
    → (path : NodePath) × (collect ids ≡ ok path) × (path.ids ≡ ids)
unfolding collect
collect_lem [] a h = absurd (ground (arith, h))
collect_lem (id ∷ ids) a h = (
  record { ids = id ∷ ids; path_state = valid; last_validated = none; last_path_refresh = none },
  refl,
  refl,
)

-- A response confirms no path. Its route ends at the node itself, so the reversed route starts
-- there, while the paths of the contacts do not: the contact is written back as it was, and only the
-- request and its timer are forgotten.
pub response_confirms_nothing :
    {T : Type 0} (table : RoutingTable T) (now root source : ℕ) (t t' : T) (s : PathProbingState)
    (nonce : ℕ) (route : SourceRoute) (c : Contact)
    → get_elem? route.ids 0 ≡ some source
    → last? route.ids ≡ some root
    → table.contact t source ≡ returns (some c)
    → NotFrom root c.path_collection.active_path
    → NotFrom root c.path_collection.proposed_path
    → table.contact_mut t source (λ _. c) ≡ returns t'
    → handle_probe_rsp table now t s nonce route
      ≡ returns (t', remove_from_tracked_messages s nonce)
unfolding handle_probe_rsp change_contact rev_source_route_of reverse_path
response_confirms_nothing table now root source t t' s nonce route c h k at not_active not_proposed
      writes =
    let (path, e, same) = collect_lem route.ids source h in
    let spared =
      confirm_nothing now root c route.ids (reverse_path path) (ap reverse same) k not_active
        not_proposed in
    ground (arith, h, e, at, spared, writes)
