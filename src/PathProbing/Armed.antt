-- ===== src/PathProbing/Armed.antt =====
-- The operations keep the timer of the scheduled probes.
use kira_rust.Prelude.{
  ℕ, ◌≡◌, refl, ap, subst, ◌⊎◌, inl, inr, Bool, true, false, ◌||◌, ◌==◌, none, some, List, [], ◌∷◌,
  map, arith, Option-cases, get_elem?, Outcome, returns, panics, ◌>>=◌, expect,
}
use kira_rust.HashMap
use kira_rust.Path.{NodePath, last}
use kira_rust.Contact.{Contact}
use kira_rust.RoutingTable.{RoutingTable}
use kira_rust.Link.{Link}
use kira_rust.PathProbing.{
  PathProbeAction, Running, PathProbingState, initialized, error, running, ProbeReq, forget,
  remove_from_tracked_messages, garbage_collect_requests, schedule_path_probe_req,
  send_single_probe_req_for_path, send_probe_req,
}
use kira_rust.SourceRoute.{SourceRoute}
use kira_rust.PathProbing.Contacts.{
  confirm, rev_source_route_of, invalidate_contact_for_timer, invalidate_contact_for_message,
  handle_probe_rsp, change_contact, on_timeout, on_failed_link,
}
use kira_rust.PathProbing.Events.{
  Message, request, response, register_rand_timer, unschedule, unschedule_contact,
}

-- Either no probe is scheduled and no timer is recorded that sends them, or the one that is recorded has
-- the property.
abbrev pub IsArmed : (ℕ → Type 0) → PathProbingState → Type 0
IsArmed P initialized = Unit
IsArmed P error = Unit
IsArmed P (running r) =
    ((r.scheduled_probe_requests ≡ []) × (r.scheduled_sending_timer ≡ none))
    ⊎ ((id : ℕ) × (r.scheduled_sending_timer ≡ some id) × P id)

-- Whether the messages register a timer.
abbrev pub is_registered : ℕ → List Message → Bool
is_registered id [] = false
is_registered id (request req ∷ sent) = is_registered id sent
is_registered id (response req ∷ sent) = is_registered id sent
is_registered id (register_rand_timer timer_id ∷ sent) = timer_id == id || is_registered id sent

pub IsArmed-map :
    (P Q : ℕ → Type 0) (s : PathProbingState) → ((id : ℕ) → P id → Q id) → IsArmed P s → IsArmed Q s
IsArmed-map P Q initialized f v = tt
IsArmed-map P Q error f v = tt
IsArmed-map P Q (running r) f (inl e) = inl e
IsArmed-map P Q (running r) f (inr (id, e, p)) = inr (id, e, f id p)

pub bind_inv :
    {A B : Type 0} (x : Outcome A) (f : A → Outcome B) (b : B)
    → (x >>= f) ≡ returns b
    → (a : A) × (x ≡ returns a) × (f a ≡ returns b)
bind_inv panics f b h = absurd (ground (arith, h))
bind_inv (returns a) f b h = (a, refl, h)

pub returns_inv : {A : Type 0} (x y : A) → returns x ≡ returns y → x ≡ y
returns_inv x y h = ap (λ (o : Outcome _). elim o [ returns z ↦ z | panics ↦ x ]) h

pub first_inv : {A B : Type 0} (x y : A × B) → returns x ≡ returns y → x.0 ≡ y.0
first_inv x y h = ap (λ (o : Outcome (_ × _)). elim o [ returns z ↦ z.0 | panics ↦ x.0 ]) h

pub second_inv : {A B : Type 0} (x y : A × B) → returns x ≡ returns y → x.1 ≡ y.1
second_inv x y h = ap (λ (o : Outcome (_ × _)). elim o [ returns z ↦ z.1 | panics ↦ x.1 ]) h

pub state_inv : {A B : Type 0} (x y : A × PathProbingState × B) → returns x ≡ returns y → x.1 ≡ y.1
state_inv x y h =
    ap (λ (o : Outcome (_ × PathProbingState × _)). elim o [ returns z ↦ z.1 | panics ↦ x.1 ]) h

pub send_single-IsArmed :
    (P : ℕ → Type 0) (root nonce now : ℕ) (s s' : PathProbingState) (p : NodePath) (req : ProbeReq)
    → send_single_probe_req_for_path root nonce now s p ≡ returns (s', req)
    → IsArmed P s
    → IsArmed P s'
unfolding send_single_probe_req_for_path
send_single-IsArmed P root nonce now initialized s' p req h v = absurd (ground (arith, h))
send_single-IsArmed P root nonce now error s' p req h v = absurd (ground (arith, h))
send_single-IsArmed P root nonce now (running r) s' p req h v =
    let (id, e, f) = bind_inv (last p) _ (s', req) h in subst (IsArmed P) (first_inv _ _ f) v

pub send_probe_req-IsArmed :
    (P : ℕ → Type 0) (root nonce id now : ℕ) (s s' : PathProbingState) (c : Contact)
    (req : ProbeReq)
    → send_probe_req root nonce id now s c ≡ returns (s', req)
    → IsArmed P s
    → IsArmed P s'
unfolding send_probe_req
send_probe_req-IsArmed P root nonce id now initialized s' c req h v = absurd (ground (arith, h))
send_probe_req-IsArmed P root nonce id now error s' c req h v = absurd (ground (arith, h))
send_probe_req-IsArmed P root nonce id now (running r) s' c req h v =
    let (p, e, f) = bind_inv (expect c.path_collection.active_path) _ (s', req) h in
    subst (IsArmed P) (first_inv _ _ f) v

pub forget-IsArmed :
    (P : ℕ → Type 0) (s : PathProbingState) (nonce : ℕ)
    → IsArmed P s
    → IsArmed P (remove_from_tracked_messages s nonce)
unfolding remove_from_tracked_messages forget
forget-IsArmed P initialized nonce v = tt
forget-IsArmed P error nonce v = tt
forget-IsArmed P (running r) nonce v = v

pub garbage-IsArmed :
    (P : ℕ → Type 0) (timeout now : ℕ) (s : PathProbingState)
    → IsArmed P s
    → IsArmed P (garbage_collect_requests timeout now s)
unfolding garbage_collect_requests
garbage-IsArmed P timeout now initialized v = tt
garbage-IsArmed P timeout now error v = tt
garbage-IsArmed P timeout now (running r) v = v

pub schedule-IsArmed :
    (P : ℕ → Type 0) (id now : ℕ) (s : PathProbingState) (action : PathProbeAction)
    → IsArmed P s
    → let scheduled = schedule_path_probe_req id now s action in
      IsArmed
        (λ k. (is_registered k (map register_rand_timer scheduled.1) ≡ true) ⊎ P k)
        scheduled.0
unfolding schedule_path_probe_req
schedule-IsArmed P id now initialized action v = tt
schedule-IsArmed P id now error action v = tt
schedule-IsArmed P id now (running r) action (inr (k, e, p)) = inr (k, ground (arith, e), inr p)
schedule-IsArmed P id now (running r) action (inl (h, e)) =
    inr (id, ground (arith, e), inl (ground (arith, e)))

pub unschedule_contact-IsArmed :
    (P : ℕ → Type 0) (s : PathProbingState) (id : ℕ)
    → IsArmed P s
    → IsArmed P (unschedule_contact s id)
unfolding unschedule_contact unschedule
unschedule_contact-IsArmed P initialized id v = tt
unschedule_contact-IsArmed P error id v = tt
unschedule_contact-IsArmed P (running r) id (inl (e, k)) = inl (rw e refl, k)
unschedule_contact-IsArmed P (running r) id (inr h) = inr h

-- The state without a timer and a nonce.
abbrev forgotten : Running → ℕ → ℕ → PathProbingState
forgotten r id nonce = running (record r {
  probe_timers = HashMap.remove r.probe_timers id;
  requests_in_flight = HashMap.remove r.requests_in_flight nonce;
})

module _ (P : ℕ → Type 0) {T : Type 0} (table : RoutingTable T) (aged : ℕ → ℕ) (now : ℕ)
    (t t' : T) where
  pub timeout-IsArmed :
      (s s' : PathProbingState) (id : ℕ)
      → invalidate_contact_for_timer table aged now t s id ≡ returns (t', s')
      → IsArmed P s
      → IsArmed P s'
  unfolding invalidate_contact_for_timer
  timeout-IsArmed initialized s' id h v = subst (IsArmed P) (second_inv _ _ h) v
  timeout-IsArmed error s' id h v = subst (IsArmed P) (second_inv _ _ h) v
  timeout-IsArmed (running r) s' id h v =
      let (nonce, e, f) = bind_inv (expect (HashMap.get r.probe_timers id)) _ (t', s') h in
      elim (Option-cases (HashMap.get r.requests_in_flight nonce)) [
        | inl k ↦
            let g : returns (t, forgotten r id nonce) ≡ returns (t', s') = ground (arith, f, k) in
            subst (IsArmed P) (second_inv _ _ g) v
        | inr (found, k) ↦
            let x = change_contact table t found.contact_id (on_timeout aged now found) in
            let g : (x >>= λ t'. returns (t', forgotten r id nonce)) ≡ returns (t', s') =
              ground (arith, f, k) in
            let (u, m, n) = bind_inv x _ (t', s') g in subst (IsArmed P) (second_inv _ _ n) v
      ]

  pub failed_link-IsArmed :
      (s s' : PathProbingState) (nonce : ℕ) (l : Link)
      → invalidate_contact_for_message table aged now t s nonce l ≡ returns (t', s')
      → IsArmed P s
      → IsArmed P s'
  unfolding invalidate_contact_for_message remove_from_tracked_messages
  failed_link-IsArmed initialized s' nonce l h v = subst (IsArmed P) (second_inv _ _ h) v
  failed_link-IsArmed error s' nonce l h v = subst (IsArmed P) (second_inv _ _ h) v
  failed_link-IsArmed (running r) s' nonce l h v =
      let (found, e, f) = bind_inv (expect (HashMap.get r.requests_in_flight nonce)) _ (t', s') h in
      let (u, m, n) =
        bind_inv (change_contact table t found.contact_id (on_failed_link aged now l)) _ (t', s')
          f in
      subst (IsArmed P) (second_inv _ _ n) (forget-IsArmed P (running r) nonce v)

  pub response-IsArmed :
      (s s' : PathProbingState) (nonce : ℕ) (route : SourceRoute)
      → handle_probe_rsp table now t s nonce route ≡ returns (t', s')
      → IsArmed P s
      → IsArmed P s'
  unfolding handle_probe_rsp
  response-IsArmed s s' nonce route h v =
      let (source, e, f) = bind_inv (expect (get_elem? route.ids 0)) _ (t', s') h in
      let (rev, g, k) = bind_inv (rev_source_route_of route) _ (t', s') f in
      let (u, m, n) = bind_inv (change_contact table t source (confirm now rev)) _ (t', s') k in
      subst (IsArmed P) (second_inv _ _ n) (forget-IsArmed P s nonce v)
