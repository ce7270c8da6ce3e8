-- ===== src/PathProbing/Loops.antt =====
-- The loops that send requests keep the timer of the scheduled probes.
use kira_rust.Prelude.{
  ℕ, ◌≡◌, refl, subst, inl, inr, none, some, List, [], ◌∷◌, ◌++◌, true, arith, Option-cases,
  returns, ◌>>=◌,
}
use kira_rust.Path.{first}
use kira_rust.Contact.{Contact}
use kira_rust.RoutingTable.{RoutingTable}
use kira_rust.PathProbing.{
  PathProbeAction, Running, PathProbingState, initialized, error, running,
  send_single_probe_req_for_path, send_probe_req, probed,
}
use kira_rust.PathProbing.Events
use kira_rust.PathProbing.Events.{
  PathProbingConfig, Runtime, restart, Event, timer, probe_rsp, probe_req, segment_failure,
  other_error, proposed, updated, removed, other, Message, extract_due, is_due, unschedule,
  send_actions, send_scheduled_probe_requests, send_to, send_probe_reqs, unschedule_contact,
  newly_proposed, on_timer, on_periodic_timer, when_periodic, when_tracked, when_scheduled,
  handle_event, path_to_probe,
}
use kira_rust.PathProbing.Armed.{
  IsArmed, is_registered, returns_inv, bind_inv, first_inv, send_single-IsArmed,
  send_probe_req-IsArmed,
}

IsArmed-rest :
    (r : Running) (id : ℕ) (sent : List Message) (rest : List (PathProbeAction × ℕ))
    → IsArmed
        (λ k. is_registered k (restart rest id ++ sent) ≡ true)
        (running (record r {
          scheduled_probe_requests = rest;
          scheduled_sending_timer = elim rest [ [] ↦ none | first ∷ more ↦ some id ];
        }))
IsArmed-rest r id sent [] = inl (refl, refl)
IsArmed-rest r id sent (first ∷ more) = inr (id, refl, ground arith)

module _ (P : ℕ → Type 0) {T : Type 0} (table : RoutingTable T) (config : PathProbingConfig)
    (runtime : Runtime) (t : T) where
  pub send_actions-IsArmed :
      (actions : List PathProbeAction) (s s' : PathProbingState) (sent : List Message)
      → send_actions table config runtime t actions s ≡ returns (s', sent)
      → IsArmed P s
      → IsArmed P s'
  unfolding send_actions
  send_actions-IsArmed [] s s' sent h v = subst (IsArmed P) (first_inv _ _ h) v
  send_actions-IsArmed (action ∷ actions) s s' sent h v =
      let (path, e, f) = bind_inv (path_to_probe table config runtime t action) _ (s', sent) h in
      elim (Option-cases path) [
        | inl g ↦ send_actions-IsArmed actions s s' sent (ground (arith, f, g)) v
        | inr (p, g) ↦
            let x =
              send_single_probe_req_for_path (table.root t) (runtime.unused_nonce s) runtime.now s
                p in
            let k : (x >>= λ y.
            (send_actions table config runtime t actions y.0 >>= λ z.
            returns (z.0, Events.request y.1 ∷ z.1)))
                ≡ returns (s', sent) =
              ground (arith, f, g) in
            let ((s1, req), l, m) = bind_inv x _ (s', sent) k in
            let ((s2, more), n, o) =
              bind_inv (send_actions table config runtime t actions s1) _ (s', sent) m in
            let armed = send_single-IsArmed P _ _ _ s s1 p req l v in
            subst (IsArmed P) {x = s2} {y = s'} (first_inv _ _ o)
              (send_actions-IsArmed actions s1 s2 more n armed)
      ]

  pub send_to-IsArmed :
      (contacts : List Contact) (s s' : PathProbingState) (sent : List Message)
      → send_to table config runtime t contacts s ≡ returns (s', sent)
      → IsArmed P s
      → IsArmed P s'
  unfolding send_to
  send_to-IsArmed [] s s' sent h v = subst (IsArmed P) (first_inv _ _ h) v
  send_to-IsArmed (c ∷ contacts) s s' sent h v =
      let ((s1, req), e, f) =
        bind_inv
          (send_probe_req (table.root t) (runtime.unused_nonce s) (runtime.timeout_timer s)
            runtime.now s c)
          _ (s', sent) h in
      let ((s2, more), g, k) =
        bind_inv (send_to table config runtime t contacts s1) _ (s', sent) f in
      let armed = send_probe_req-IsArmed P _ _ _ _ s s1 c req e v in
      subst (IsArmed P) (first_inv _ _ k) (send_to-IsArmed contacts s1 s2 more g armed)

  pub send_probe_reqs-IsArmed :
      (buckets : List (List Contact)) (s s' : PathProbingState) (sent : List Message)
      → send_probe_reqs table config runtime t buckets s ≡ returns (s', sent)
      → IsArmed P s
      → IsArmed P s'
  unfolding send_probe_reqs
  send_probe_reqs-IsArmed [] s s' sent h v = subst (IsArmed P) (first_inv _ _ h) v
  send_probe_reqs-IsArmed (bucket ∷ buckets) s s' sent h v =
      let (contacts, e, f) = bind_inv (probed config.probe_age runtime.now bucket) _ (s', sent) h in
      let ((s1, first), g, k) =
        bind_inv (send_to table config runtime t contacts s) _ (s', sent) f in
      let ((s2, more), l, m) =
        bind_inv (send_probe_reqs table config runtime t buckets s1) _ (s', sent) k in
      subst (IsArmed P) (first_inv _ _ m)
        (send_probe_reqs-IsArmed buckets s1 s2 more l (send_to-IsArmed contacts s s1 first g v))

module _ {T : Type 0} (table : RoutingTable T) (config : PathProbingConfig) (runtime : Runtime)
    (t : T) where
  pub send_scheduled-IsArmed :
      (s s' : PathProbingState) (sent : List Message)
      → send_scheduled_probe_requests table config runtime t s ≡ returns (s', sent)
      → IsArmed (λ k. is_registered k sent ≡ true) s'
  unfolding send_scheduled_probe_requests
  send_scheduled-IsArmed initialized s' sent h = subst (IsArmed _) (first_inv _ _ h) tt
  send_scheduled-IsArmed error s' sent h = subst (IsArmed _) (first_inv _ _ h) tt
  send_scheduled-IsArmed (running r) s' sent h =
      let due =
        extract_due (is_due config.scheduled_probe_delay runtime.now) r.scheduled_probe_requests in
      let ((s1, more), e, f) =
        bind_inv (send_actions table config runtime t due.0 _) _ (s', sent) h in
      let armed =
        send_actions-IsArmed _ table config runtime t due.0 _ s1 more e
          (IsArmed-rest r runtime.rand_timer more due.1) in
      subst (λ (y : PathProbingState × List Message). IsArmed (λ k. is_registered k y.1 ≡ true) y.0)
        (returns_inv (s1, restart due.1 runtime.rand_timer ++ more) (s', sent) f) armed
