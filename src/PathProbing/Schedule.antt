-- ===== src/PathProbing/Schedule.antt =====
-- Scheduled probes have a timer that is registered for them and has not fired yet.
use kira_rust.Prelude.{
  ℕ, ◌≡◌, refl, subst, inl, inr, Bool, true, false, ◌⊎◌, List, [], map, arith, if◌then◌else◌,
  Outcome, returns, assert, expect,
}
use kira_rust.Path.{first}
use kira_rust.Contact.{Contact}
use kira_rust.RoutingTable.{RoutingTable}
use kira_rust.UlnTable.{UlnTable}
use kira_rust.SourceRoute
use kira_rust.PathProbing.{
  PathProbeAction, probe_path, contact_proposed_path, PathProbingState, start, is_tracked_message,
  remove_from_tracked_messages, schedule_path_probe_req,
}
use kira_rust.SourceRoute.{SourceRoute}
use kira_rust.PathProbing.Events.{
  PathProbingConfig, Runtime, Event, timer, probe_rsp, probe_req, segment_failure, other_error,
  proposed, updated, removed, other, Message, register_rand_timer, newly_proposed, handle_event,
}
use kira_rust.PathProbing.Armed.{
  IsArmed, IsArmed-map, is_registered, returns_inv, bind_inv, forget-IsArmed, schedule-IsArmed,
  unschedule_contact-IsArmed,
}
use kira_rust.PathProbing.Firing.{
  fires, pending_after, on_timer-IsArmed, rsp-IsArmed, failure-IsArmed,
}

or_pending :
    (pending : ℕ → Bool) (event : Event) (sent : List Message)
    → ((id : ℕ) → fires event id ≡ false)
    → (k : ℕ) → (is_registered k sent ≡ true) ⊎ (pending k ≡ true)
    → pending_after pending event sent k ≡ true
or_pending pending event sent h k (inl e) = ground (arith, e)
or_pending pending event sent h k (inr e) = ground (arith, e, h k)

forget_if-IsArmed :
    (P : ℕ → Type 0) (b : Bool) (s : PathProbingState) (nonce : ℕ)
    → IsArmed P s
    → IsArmed P (if b then remove_from_tracked_messages s nonce else s)
forget_if-IsArmed P true s nonce v = forget-IsArmed P s nonce v
forget_if-IsArmed P false s nonce v = v

schedule_if-IsArmed :
    (P : ℕ → Type 0) (id now : ℕ) (b : Bool) (s : PathProbingState) (action : PathProbeAction)
    → IsArmed P s
    → let scheduled = if b then schedule_path_probe_req id now s action else (s, []) in
      IsArmed
        (λ k. (is_registered k (map register_rand_timer scheduled.1) ≡ true) ⊎ P k)
        scheduled.0
schedule_if-IsArmed P id now true s action v = schedule-IsArmed P id now s action v
schedule_if-IsArmed P id now false s action v = IsArmed-map P _ s (λ id p. inr p) v

module _ {T : Type 0} (table : RoutingTable T) (buckets : T → List (List Contact)) (un : UlnTable)
    (u : un.Table) (aged : ℕ → ℕ) (config : PathProbingConfig) (runtime : Runtime) (t t' : T) where
  -- What is left, with the timers that are registered, when no timer fired.
  after :
      (pending : ℕ → Bool) (s' : PathProbingState) (event : Event) (sent : List Message)
      (s1 : PathProbingState) (sent1 : List Message)
      → ((id : ℕ) → fires event id ≡ false)
      → ◌≡◌ {A = Outcome (T × PathProbingState × List Message)}
          (returns (t, s1, sent1))
          (returns (t', s', sent))
      → IsArmed (λ k. (is_registered k sent1 ≡ true) ⊎ (pending k ≡ true)) s1
      → IsArmed (λ k. pending_after pending event sent k ≡ true) s'
  after pending s' event sent s1 sent1 none_fires h v =
      subst
        (λ (y : T × PathProbingState × List Message).
          IsArmed (λ k. pending_after pending event y.2 k ≡ true) y.1)
        (returns_inv (t, s1, sent1) (t', s', sent) h)
        (IsArmed-map _ _ s1 (or_pending pending event sent1 none_fires) v)

  -- Every event that is handled keeps this.
  handle_event-IsArmed :
      (pending : ℕ → Bool) (s s' : PathProbingState) (event : Event) (sent : List Message)
      → handle_event table buckets un u aged config runtime t s event ≡ returns (t', s', sent)
      → IsArmed (λ k. pending k ≡ true) s
      → IsArmed (λ k. pending_after pending event sent k ≡ true) s'
  unfolding handle_event
  handle_event-IsArmed pending s s' (timer id) sent h v =
      on_timer-IsArmed table buckets un u aged config runtime t t' pending s s' id sent h v
  handle_event-IsArmed pending s s' (probe_rsp nonce route) sent h v =
      IsArmed-map _ _ s'
        (λ k p. or_pending pending (probe_rsp nonce route) sent (λ id. refl) k (inr p))
        (rsp-IsArmed _ table buckets un u aged config runtime t t' s s' nonce route sent h v)
  handle_event-IsArmed pending s s' (segment_failure nonce l) sent h v =
      IsArmed-map _ _ s'
        (λ k p. or_pending pending (segment_failure nonce l) sent (λ id. refl) k (inr p))
        (failure-IsArmed _ table buckets un u aged config runtime t t' s s' nonce l sent h v)
  handle_event-IsArmed pending s s' (other_error nonce) sent h v =
      after pending s' (other_error nonce) sent _ _ (λ id. refl) h
        (IsArmed-map _ _ _ (λ id p. inr p)
          (forget_if-IsArmed _ (is_tracked_message s nonce) s nonce v))
  handle_event-IsArmed pending s s' (probe_req nonce route) sent h v =
      let (answer, e, f) = bind_inv (SourceRoute.from_reversed route) _ (t', s', sent) h in
      after pending s' (probe_req nonce route) sent _ _ (λ id. refl) f
        (IsArmed-map _ _ s (λ id p. inr p) v)
  handle_event-IsArmed pending s s' (proposed c) sent h v =
      let (path, e, f) = bind_inv (expect c.path_collection.active_path) _ (t', s', sent) h in
      let (neighbor, g, k) = bind_inv (first path) _ (t', s', sent) f in
      let (done, l, m) = bind_inv (assert (un.contains_id u neighbor)) _ (t', s', sent) k in
      after pending s' (proposed c) sent _ _ (λ id. refl) m
        (schedule-IsArmed _ runtime.rand_timer runtime.now s (probe_path path) v)
  handle_event-IsArmed pending s s' (updated new old) sent h v =
      let (probe, e, f) = bind_inv (newly_proposed new old) _ (t', s', sent) h in
      after pending s' (updated new old) sent _ _ (λ id. refl) f
        (schedule_if-IsArmed _ runtime.rand_timer runtime.now probe s
          (contact_proposed_path new.dest_id) v)
  handle_event-IsArmed pending s s' (removed c) sent h v =
      after pending s' (removed c) sent _ _ (λ id. refl) h
        (IsArmed-map _ _ _ (λ id p. inr p) (unschedule_contact-IsArmed _ s c.dest_id v))
  handle_event-IsArmed pending s s' other sent h v =
      after pending s' other sent _ _ (λ id. refl) h (IsArmed-map _ _ s (λ id p. inr p) v)

-- The states that the use case can be in, with the timers for scheduled probes that are pending, while
-- the table also changes elsewhere.
module _ {T : Type 0} (table : RoutingTable T) (buckets : T → List (List Contact)) (un : UlnTable)
    (u : un.Table) (aged : ℕ → ℕ) (config : PathProbingConfig) where
  pub data Reachable : T → PathProbingState → (ℕ → Bool) → Type 0 where
    started : (t : T) (id : ℕ) → Reachable t (start id) (λ k. false)
    elsewhere :
        {t : T} {s : PathProbingState} {pending : ℕ → Bool}
        → Reachable t s pending
        → (t' : T) → Reachable t' s pending
    handled :
        {t t' : T} {s s' : PathProbingState} {pending : ℕ → Bool} {sent : List Message}
        (runtime : Runtime) (event : Event)
        → Reachable t s pending
        → handle_event table buckets un u aged config runtime t s event ≡ returns (t', s', sent)
        → Reachable t' s' (pending_after pending event sent)

  -- In every state that the use case reaches after its start, whatever events it handles, however the
  -- table changes in between and whatever the runtime gives: either no probe is scheduled and no timer
  -- is recorded for them, or the recorded timer has been registered for them and has not fired
  -- since. A timer counts as registered from the event in which the code registers it until the
  -- event that says that it has fired.
  pub Reachable-IsArmed :
      (t : T) (s : PathProbingState) (pending : ℕ → Bool)
      → Reachable t s pending
      → IsArmed (λ id. pending id ≡ true) s
  unfolding start
  Reachable-IsArmed t _ _ (started _ id) = inl (refl, refl)
  Reachable-IsArmed t s pending (elsewhere r _) = Reachable-IsArmed _ s pending r
  Reachable-IsArmed t' s' _
        (handled {t = t} {s = s} {pending = pending} {sent = sent} runtime event r h) =
      handle_event-IsArmed table buckets un u aged config runtime t t' pending s s' event sent h
        (Reachable-IsArmed t s pending r)
