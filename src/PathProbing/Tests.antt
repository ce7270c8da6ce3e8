-- ===== src/PathProbing/Tests.antt =====
-- A probe that times out, fails and is answered.
use kira_rust.Prelude.{
  ◌≡◌, min, length, refl, sym, subst, ℕ, Bool, true, false, none, some, List, [], ◌∷◌, arith,
  get_elem?, returns, panics,
}
use kira_rust.HashMap
use kira_rust.HashMap.{HashMap}
use kira_rust.Link
use kira_rust.Path.{NodePath, valid}
use kira_rust.SourceRoute.{SourceRoute}
use kira_rust.Contact.{Contact}
use kira_rust.Contact
use kira_rust.Contact.Assessment.{IsContact}
use kira_rust.RoutingTable.{RoutingTable}
use kira_rust.PathProbing.{Request, Running, running, remove_from_tracked_messages}
use kira_rust.PathProbing.Contacts.{
  invalidate_contact_for_timer, invalidate_contact_for_message, handle_probe_rsp,
}
use kira_rust.PathProbing.Verdicts.{
  TimeoutVerdict, Forgets, NotFrom, timeout_handled, response_confirms_nothing,
}
use kira_rust.PathProbing.{probed}
use kira_rust.PathProbing.Considered.{Counts}
use kira_rust.PathProbing.Choice.{Choice, probed_newest}
use kira_rust.Contact.{is_uln, is_valid_contact}
use kira_rust.Path.{size}
use kira_rust.UlnTable.Counting.{uln_table}
use kira_rust.UlnTable.InMemory.{InMemoryUlnTable}
use kira_rust.PathProbing.{PathProbingState, start, schedule_path_probe_req, contact_proposed_path}
use kira_rust.PathProbing.Firing.{pending_after}
use kira_rust.PathProbing.Events.{
  PathProbingConfig, Runtime, Event, register_rand_timer, updated, newly_proposed, handle_event,
}
use kira_rust.PathProbing.Armed.{IsArmed}
use kira_rust.PathProbing.Schedule.{Reachable, started, handled, Reachable-IsArmed}
use kira_rust.PathProbing.Errors.{LinkVerdict, ForgetsNonce, failed_link_handled}

-- A path over a neighbor, validated at a time.
abbrev path : NodePath
path = record {
  ids = 5 ∷ 9 ∷ [];
  path_state = valid;
  last_validated = some 40;
  last_path_refresh = none;
}

abbrev contact : Contact
contact = record {
  dest_id = 9;
  state = Contact.valid;
  last_seen = 0;
  path_collection = record {
    active_path = some path;
    proposed_path = none;
    alternative_paths = none ∷ none ∷ none ∷ [];
  };
  state_seq_nr = record { ssn = 1 };
}

-- A table that has one contact.
abbrev one_contact : RoutingTable Contact
one_contact = record {
  root = λ t. 1;
  add = λ t c. panics;
  contact = λ t id. returns (some t);
  contact_mut = λ t id f. returns (f t);
  contains = λ t id. returns true;
  split_bucket = λ t id. panics;
  bucket = λ t id. panics;
}

abbrev request : Request
request = record { contact_id = 9; path = path; sent = 30 }

abbrev state : Running
state = record {
  probe_timer_id = 1;
  probe_timers = (2, 77) ∷ [];
  requests_in_flight = (77, request) ∷ [];
  scheduled_probe_requests = [];
  scheduled_sending_timer = none;
}

contact-IsContact : IsContact contact
contact-IsContact = record { sized = refl; active = refl; proposed = tt; usable = tt }

timeout_example :
    (t' : Contact) × (r' : Running) × (c' : Contact) × (invalidate_contact_for_timer one_contact
        (λ n. n)
        50
        contact
        (running state)
        2
      ≡ returns (t', running r'))
    × (one_contact.contact_mut contact 9 (λ _. c') ≡ returns t')
    × IsContact c'
    × TimeoutVerdict contact request c'
    × Forgets 2 77 state r'
unfolding HashMap.get
timeout_example =
    timeout_handled one_contact (λ n. n) 50 contact state 2 77 request contact refl refl refl
      contact-IsContact (λ c. (c, refl))

failed_link_example :
    (t' : Contact) × (r' : Running) × (c' : Contact) × (invalidate_contact_for_message one_contact
        (λ n. n)
        50
        contact
        (running state)
        77
        (Link.new 5 9)
      ≡ returns (t', running r'))
    × (one_contact.contact_mut contact 9 (λ _. c') ≡ returns t')
    × IsContact c'
    × LinkVerdict (λ n. n) 50 contact (Link.new 5 9) c'
    × ForgetsNonce 77 state r'
unfolding HashMap.get
failed_link_example =
    failed_link_handled one_contact (λ n. n) 50 contact state 77 (Link.new 5 9) request contact
      (refl, tt) refl refl contact-IsContact (λ c. (c, refl))

abbrev response : SourceRoute
response = record { ids = 9 ∷ 5 ∷ 1 ∷ []; progress = 2 }

active-NotFrom : NotFrom 1 (some path)
active-NotFrom p h e =
    let same : path ≡ p = ground (arith, h) in
    let at : get_elem? path.ids 0 ≡ some 1 =
      subst (λ (q : NodePath). get_elem? q.ids 0 ≡ some 1) (sym same) e in
    ground (arith, at)

proposed-NotFrom : NotFrom 1 none
proposed-NotFrom p h e = ground (arith, h)

response_example :
    handle_probe_rsp one_contact 50 contact (running state) 77 response
    ≡ returns (contact, remove_from_tracked_messages (running state) 77)
response_example =
    response_confirms_nothing one_contact 50 1 9 contact contact (running state) 77 response contact
      refl refl refl active-NotFrom proposed-NotFrom refl

abbrev later_contact : Contact
later_contact = record contact { last_seen = 7 }

later_contact-IsContact : IsContact later_contact
later_contact-IsContact = record { sized = refl; active = refl; proposed = tt; usable = tt }

probed_newest_example :
    (ds : List Contact) × (n : ℕ) × (probed 40 100 (contact ∷ later_contact ∷ []) ≡ returns ds)
    × Choice 40 100 (contact ∷ later_contact ∷ []) ds
    × Counts 40 100 (contact ∷ later_contact ∷ []) n
    × (length ds ≡ min 2 n)
probed_newest_example =
    probed_newest 40 100 (contact ∷ later_contact ∷ [])
      (contact-IsContact, (later_contact-IsContact, tt))

-- The proposal of a path is handled.
abbrev with_proposal : Contact
with_proposal = record contact {
  path_collection = record contact.path_collection { proposed_path = some path };
}

abbrev config : PathProbingConfig
config = record { probe_age = 40; request_timeout = 10; scheduled_probe_delay = 2 }

abbrev runtime : Runtime
runtime = record { now = 50; unused_nonce = λ s. 78; timeout_timer = λ s. 3; rand_timer = 4 }

abbrev no_neighbors : InMemoryUlnTable
no_neighbors = record { state_seq_nr = record { ssn = 1 }; map = [] }

abbrev scheduled : PathProbingState
scheduled = (schedule_path_probe_req 4 50 (start 1) (contact_proposed_path 9)).0

abbrev proposal : Event
proposal = updated with_proposal contact

abbrev pending : ℕ → Bool
pending = pending_after (λ id. false) proposal (register_rand_timer 4 ∷ [])

scheduled-Reachable :
    Reachable one_contact (λ t. []) uln_table no_neighbors (λ n. n) config contact scheduled pending
unfolding handle_event newly_proposed size schedule_path_probe_req start
scheduled-Reachable = handled runtime proposal (started contact 1) refl

Reachable-IsArmed_example : IsArmed (λ id. pending id ≡ true) scheduled
Reachable-IsArmed_example =
    Reachable-IsArmed one_contact (λ t. []) uln_table no_neighbors (λ n. n) config contact scheduled
      pending scheduled-Reachable
