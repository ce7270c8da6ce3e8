-- ===== src/PathProbing/Firing.antt =====
-- A timer that fires, and the messages that a tracked one answers: what they leave of the timer that is
-- registered for scheduled probes.
use kira_rust.Prelude.{
  ℕ, ◌≡◌, refl, subst, inl, inr, Bool, true, false, ◌&&◌, ◌||◌, not, ◌==◌, ==→eq, ◌⊎◌, List, [],
  ◌∷◌, ◌++◌, arith, Bool-cases, returns, ◌>>=◌,
}
use kira_rust.Path.{first}
use kira_rust.Contact.{Contact}
use kira_rust.RoutingTable.{RoutingTable}
use kira_rust.UlnTable.{UlnTable}
use kira_rust.Link.{Link}
use kira_rust.PathProbing.{
  PathProbingState, initialized, error, running, is_periodic_timer, is_tracked_timer,
  is_scheduled_probe_timer, is_tracked_message, garbage_collect_requests,
}
use kira_rust.SourceRoute.{SourceRoute}
use kira_rust.PathProbing.Contacts.{invalidate_contact_for_message, handle_probe_rsp}
use kira_rust.PathProbing.Events.{
  PathProbingConfig, Runtime, Event, timer, probe_rsp, probe_req, segment_failure, other_error,
  proposed, updated, removed, other, Message, request, response, register_rand_timer,
  send_probe_reqs, on_timer, on_periodic_timer, when_periodic, when_tracked, when_scheduled,
  handle_event,
}
use kira_rust.PathProbing.Armed.{
  IsArmed, IsArmed-map, is_registered, returns_inv, bind_inv, first_inv, second_inv, state_inv,
  garbage-IsArmed, timeout-IsArmed, failed_link-IsArmed, response-IsArmed,
}
use kira_rust.PathProbing.Loops.{send_probe_reqs-IsArmed, send_scheduled-IsArmed}

-- The timer that an event says has fired.
abbrev pub fires : Event → ℕ → Bool
fires (timer timer_id) id = timer_id == id
fires (other_error nonce) id = false
fires (probe_rsp nonce route) id = false
fires (probe_req nonce route) id = false
fires (segment_failure nonce l) id = false
fires (proposed c) id = false
fires (removed c) id = false
fires (updated new old) id = false
fires other id = false

-- Which timers are registered for scheduled probes and have not fired, after an event and what is done
-- then: a timer that is registered waits, and one that fires does not any more.
abbrev pub pending_after : (ℕ → Bool) → Event → List Message → ℕ → Bool
pending_after pending event sent id = is_registered id sent || (pending id && not (fires event id))

is_registered-append :
    (id : ℕ) (sent more : List Message)
    → is_registered id (sent ++ more) ≡ (is_registered id sent || is_registered id more)
is_registered-append id [] more = refl
is_registered-append id (request req ∷ sent) more = is_registered-append id sent more
is_registered-append id (response req ∷ sent) more = is_registered-append id sent more
is_registered-append id (register_rand_timer timer_id ∷ sent) more =
    ground (arith, is_registered-append id sent more)

module _ (P : ℕ → Type 0) {T : Type 0} (table : RoutingTable T) (buckets : T → List (List Contact))
    (un : UlnTable) (u : un.Table) (aged : ℕ → ℕ) (config : PathProbingConfig) (runtime : Runtime)
    (t t' : T) where
  periodic-IsArmed :
      (s s' : PathProbingState) (id : ℕ) (sent : List Message)
      → when_periodic table buckets un u aged config runtime t s id ≡ returns (s', sent)
      → IsArmed P s
      → IsArmed P s'
  unfolding when_periodic on_periodic_timer
  periodic-IsArmed s s' id sent h v = elim (Bool-cases (is_periodic_timer s id)) [
    | inr e ↦
        let k : returns (s, []) ≡ returns (s', sent) = ground (arith, h, e) in
        subst (IsArmed P) (first_inv (s, []) (s', sent) k) v
    | inl e ↦
        let x = send_probe_reqs table config runtime t (buckets t) s in
        let k : (x >>= λ y.
        returns (garbage_collect_requests config.request_timeout runtime.now y.0, y.1))
            ≡ returns (s', sent) =
          ground (arith, h, e) in
        let ((s1, first), f, g) = bind_inv x _ (s', sent) k in
        let armed = send_probe_reqs-IsArmed P table config runtime t (buckets t) s s1 first f v in
        subst (IsArmed P) (first_inv _ _ g)
          (garbage-IsArmed P config.request_timeout runtime.now s1 armed)
  ]

  tracked-IsArmed :
      (s s' : PathProbingState) (id : ℕ)
      → when_tracked table buckets un u aged config runtime t s id ≡ returns (t', s')
      → IsArmed P s
      → IsArmed P s'
  unfolding when_tracked
  tracked-IsArmed s s' id h v = elim (Bool-cases (is_tracked_timer s id)) [
    | inr e ↦
        let k : returns (t, s) ≡ returns (t', s') = ground (arith, h, e) in
        subst (IsArmed P) (second_inv (t, s) (t', s') k) v
    | inl e ↦ timeout-IsArmed P table aged runtime.now t t' s s' id (ground (arith, h, e)) v
  ]

module _ (P : ℕ → Type 0) {T : Type 0} (table : RoutingTable T) (buckets : T → List (List Contact))
    (un : UlnTable) (u : un.Table) (aged : ℕ → ℕ) (config : PathProbingConfig) (runtime : Runtime)
    (t t' : T) where
  -- The handlers that run for a tracked message only.
  pub rsp-IsArmed :
      (s s' : PathProbingState) (nonce : ℕ) (route : SourceRoute) (sent : List Message)
      → handle_event table buckets un u aged config runtime t s (probe_rsp nonce route)
        ≡ returns (t', s', sent)
      → IsArmed P s
      → IsArmed P s'
  unfolding handle_event
  rsp-IsArmed s s' nonce route sent h v = elim (Bool-cases (is_tracked_message s nonce)) [
    | inr e ↦
        let k : returns (t, s, []) ≡ returns (t', s', sent) = ground (arith, h, e) in
        subst (IsArmed P) {x = s} {y = s'} (state_inv (t, s, []) (t', s', sent) k) v
    | inl e ↦
        let x = handle_probe_rsp table runtime.now t s nonce route in
        let k : (x >>= λ y. returns (y.0, y.1, [])) ≡ returns (t', s', sent) =
          ground (arith, h, e) in
        let ((t2, s2), f, g) = bind_inv x _ (t', s', sent) k in
        let armed = response-IsArmed P table aged runtime.now t t2 s s2 nonce route f v in
        subst (IsArmed P) {x = s2} {y = s'} (state_inv (t2, s2, []) (t', s', sent) g) armed
  ]

  pub failure-IsArmed :
      (s s' : PathProbingState) (nonce : ℕ) (l : Link) (sent : List Message)
      → handle_event table buckets un u aged config runtime t s (segment_failure nonce l)
        ≡ returns (t', s', sent)
      → IsArmed P s
      → IsArmed P s'
  unfolding handle_event
  failure-IsArmed s s' nonce l sent h v = elim (Bool-cases (is_tracked_message s nonce)) [
    | inr e ↦
        let k : returns (t, s, []) ≡ returns (t', s', sent) = ground (arith, h, e) in
        subst (IsArmed P) {x = s} {y = s'} (state_inv (t, s, []) (t', s', sent) k) v
    | inl e ↦
        let x = invalidate_contact_for_message table aged runtime.now t s nonce l in
        let k : (x >>= λ y. returns (y.0, y.1, [])) ≡ returns (t', s', sent) =
          ground (arith, h, e) in
        let ((t2, s2), f, g) = bind_inv x _ (t', s', sent) k in
        let armed = failed_link-IsArmed P table aged runtime.now t t2 s s2 nonce l f v in
        subst (IsArmed P) {x = s2} {y = s'} (state_inv (t2, s2, []) (t', s', sent) g) armed
  ]

-- The timer that fires may be the recorded one until the scheduled probes are looked at.
abbrev OrFired : (ℕ → Type 0) → ℕ → ℕ → Type 0
OrFired P fired id = P id ⊎ (fired ≡ id)

not_fired :
    (P : ℕ → Type 0) (s : PathProbingState) (id : ℕ)
    → is_scheduled_probe_timer s id ≡ false
    → IsArmed (OrFired P id) s
    → IsArmed P s
unfolding is_scheduled_probe_timer
not_fired P initialized id h v = tt
not_fired P error id h v = tt
not_fired P (running r) id h (inl e) = inl e
not_fired P (running r) id h (inr (k, e, inl p)) = inr (k, e, p)
not_fired P (running r) id h (inr (k, e, inr same)) = absurd (ground (arith, h, e, same))

or_fired :
    (pending : ℕ → Bool) (id k : ℕ)
    → pending k ≡ true
    → OrFired (λ k. (pending k && not (id == k)) ≡ true) id k
or_fired pending id k h = elim (Bool-cases (id == k)) [
  | inl e ↦ inr (==→eq id k e)
  | inr e ↦ inl (ground (arith, h, e))
]

pending_append :
    (pending : ℕ → Bool) (id : ℕ) (first more : List Message) (k : ℕ)
    → (is_registered k more ≡ true) ⊎ ((pending k && not (id == k)) ≡ true)
    → pending_after pending (timer id) (first ++ more) k ≡ true
pending_append pending id first more k (inl e) =
    ground (arith, e, is_registered-append k first more)
pending_append pending id first more k (inr e) = ground (arith, e)

module _ {T : Type 0} (table : RoutingTable T) (buckets : T → List (List Contact)) (un : UlnTable)
    (u : un.Table) (aged : ℕ → ℕ) (config : PathProbingConfig) (runtime : Runtime) (t t' : T) where
  -- Either the timer that fired was not the recorded one, or it is replaced or cleared.
  scheduled-IsArmed :
      (P : ℕ → Type 0) (s s' : PathProbingState) (id : ℕ) (sent : List Message)
      → when_scheduled table buckets un u aged config runtime t s id ≡ returns (s', sent)
      → IsArmed (OrFired P id) s
      → IsArmed (λ k. (is_registered k sent ≡ true) ⊎ P k) s'
  unfolding when_scheduled
  scheduled-IsArmed P s s' id sent h v = elim (Bool-cases (is_scheduled_probe_timer s id)) [
    | inr e ↦
        let k : returns (s, []) ≡ returns (s', sent) = ground (arith, h, e) in
        subst (IsArmed _) (first_inv (s, []) (s', sent) k)
          (IsArmed-map P _ s (λ id p. inr p) (not_fired P s id e v))
    | inl e ↦
        IsArmed-map _ _ s' (λ id p. inl p)
          (send_scheduled-IsArmed table config runtime t s s' sent (ground (arith, h, e)))
  ]

module _ {T : Type 0} (table : RoutingTable T) (buckets : T → List (List Contact)) (un : UlnTable)
    (u : un.Table) (aged : ℕ → ℕ) (config : PathProbingConfig) (runtime : Runtime) (t t' : T) where
  pub on_timer-IsArmed :
      (pending : ℕ → Bool) (s s' : PathProbingState) (id : ℕ) (sent : List Message)
      → on_timer table buckets un u aged config runtime t s id ≡ returns (t', s', sent)
      → IsArmed (λ k. pending k ≡ true) s
      → IsArmed (λ k. pending_after pending (timer id) sent k ≡ true) s'
  unfolding on_timer
  on_timer-IsArmed pending s s' id sent h v =
      let waits : ℕ → Type 0 = λ k. (pending k && not (id == k)) ≡ true in
      let ((s1, first), e, f) =
        bind_inv (when_periodic table buckets un u aged config runtime t s id) _ (t', s', sent) h in
      let ((t2, s2), g, k) =
        bind_inv (when_tracked table buckets un u aged config runtime t s1 id) _ (t', s', sent) f in
      let ((s3, more), l, m) =
        bind_inv (when_scheduled table buckets un u aged config runtime t2 s2 id) _ (t', s', sent)
          k in
      let v0 = IsArmed-map _ (OrFired waits id) s (or_fired pending id) v in
      let v1 = periodic-IsArmed _ table buckets un u aged config runtime t t2 s s1 id first e v0 in
      let v2 = tracked-IsArmed _ table buckets un u aged config runtime t t2 s1 s2 id g v1 in
      let v3 =
        scheduled-IsArmed table buckets un u aged config runtime t2 t2 waits s2 s3 id more l v2 in
      subst
        (λ (y : T × PathProbingState × List Message).
          IsArmed (λ k. pending_after pending (timer id) y.2 k ≡ true) y.1)
        (returns_inv (t2, s3, first ++ more) (t', s', sent) m)
        (IsArmed-map _ _ s3 (pending_append pending id first more) v3)
