-- ===== src/PathProbing/Errors.antt =====
-- What becomes of a probed contact after the error message of a failed link.
use kira_rust.Prelude.{
  ℕ, ◌≡◌, refl, sym, ap, ◌∙◌, subst, ◌≢◌, ◌↔◌, ◌⊎◌, inl, inr, true, false, not, Option, none, some,
  [], ◌∷◌, arith, ◌==◌, if◌then◌else◌, ==→eq, ==_self, Bool-cases, returns,
}
use kira_rust.HashMap
use kira_rust.HashMap.{HashMap, IsUnique}
use kira_rust.Link.{Link}
use kira_rust.Path.{NodePath, contains_link}
use kira_rust.PathCollection.{clear_proposed_path}
use kira_rust.Contact.{Contact, set_invalid, is_valid_contact}
use kira_rust.Contact.Assessment.{IsContact}
use kira_rust.Contact.Failures.{set_invalid_lem, failed_in}
use kira_rust.RoutingTable.{RoutingTable}
use kira_rust.PathProbing.{Request, Running, running, forget}
use kira_rust.PathProbing.Contacts.{change_contact, on_failed_link, invalidate_contact_for_message}
use kira_rust.PathProbing.Verdicts.{CanWrite, SameSchedule}

abbrev pub Uses : Link → Option NodePath → Type 0
Uses l path = (p : NodePath) × (path ≡ some p) × (contains_link p l ≡ true)

abbrev pub Avoids : Link → Option NodePath → Type 0
Avoids l path = (p : NodePath) → path ≡ some p → contains_link p l ≡ false

-- Three verdicts over a failed link.
pub data LinkVerdict (aged : ℕ → ℕ) (now : ℕ) (c : Contact) (l : Link) : Contact → Type 0 where
  active_failed :
      {c' : Contact}
      → Uses l c.path_collection.active_path
      → set_invalid aged c (record { nvs_list = record { link = l; timestamp = now } ∷ [] }) now
        ≡ returns c'
      → is_valid_contact c' ≡ false
      → failed_in l c'.state ≡ true
      → LinkVerdict aged now c l c'
  proposed_failed :
      Avoids l c.path_collection.active_path
      → Uses l c.path_collection.proposed_path
      → LinkVerdict aged now c l
          (record c { path_collection = record c.path_collection { proposed_path = none } })
  unaffected :
      Avoids l c.path_collection.active_path
      → Avoids l c.path_collection.proposed_path
      → LinkVerdict aged now c l c

Uses-or_Avoids : (l : Link) (path : Option NodePath) → Uses l path ⊎ Avoids l path
Uses-or_Avoids l none = inr (λ p e. absurd (ground (arith, e)))
Uses-or_Avoids l (some p) = elim (Bool-cases (contains_link p l)) [
  | inl e ↦ inl (p, refl, e)
  | inr e ↦
      inr (λ q f.
        let same : p ≡ q = ground (arith, f) in subst (λ x. contains_link x l ≡ false) same e)
]

Uses-link :
    (l : Link) (path : Option NodePath)
    → Uses l path
    → elim path [ none ↦ false | some p ↦ contains_link p l ] ≡ true
Uses-link l path (p, e, f) = rw e f

Avoids-link :
    (l : Link) (path : Option NodePath)
    → Avoids l path
    → elim path [ none ↦ false | some p ↦ contains_link p l ] ≡ false
Avoids-link l none h = refl
Avoids-link l (some p) h = h p refl

module _ (aged : ℕ → ℕ) (now : ℕ) (l : Link) (c : Contact) (v : IsContact c) where
  on_failed_link_lem :
      (c' : Contact) × (on_failed_link aged now l c ≡ returns c')
      × IsContact c'
      × LinkVerdict aged now c l c'
  unfolding on_failed_link clear_proposed_path
  on_failed_link_lem = elim (Uses-or_Avoids l c.path_collection.active_path) [
    | inl u ↦
        let (c', f, w, bad, is_faulty_now, links) =
          set_invalid_lem aged c (record { nvs_list = record { link = l; timestamp = now } ∷ [] })
            now v in
        (
          c',
          rw (Uses-link l c.path_collection.active_path u) f,
          w,
          active_failed u f bad (ground (arith, links l, ==_self l.first, ==_self l.second)),
        )
    | inr a ↦ elim (Uses-or_Avoids l c.path_collection.proposed_path) [
      | inl u ↦ (
        record c { path_collection = clear_proposed_path c.path_collection },
        rw
            (
              Avoids-link l c.path_collection.active_path a,
              Uses-link l c.path_collection.proposed_path u,
            )
            refl,
        record { sized = v.sized; active = v.active; proposed = tt; usable = v.usable },
        proposed_failed a u,
      )
      | inr b ↦ (
        c,
        rw
            (
              Avoids-link l c.path_collection.active_path a,
              Avoids-link l c.path_collection.proposed_path b,
            )
            refl,
        v,
        unaffected a b,
      )
    ]
  ]

-- The maps without the entries of a nonce.
abbrev pub ForgetsNonce : ℕ → Running → Running → Type 0
ForgetsNonce nonce r r' =
    ((k : ℕ)
      → HashMap.get r'.requests_in_flight k
        ≡ (if nonce == k then none else HashMap.get r.requests_in_flight k))
    × ((k n : ℕ)
        → (HashMap.get r'.probe_timers k ≡ some n)
          ↔ (HashMap.get r.probe_timers k ≡ some n) × (n ≢ nonce))
    × SameSchedule r r'

kept_iff :
    (nonce k n : ℕ) (found : Option ℕ)
    → (HashMap.keep (λ timer_id v. not (v == nonce)) k found ≡ some n)
      ↔ (found ≡ some n) × (n ≢ nonce)
kept_iff nonce k n none = (λ h. absurd (ground (arith, h)), λ h. absurd (ground (arith, h.0)))
kept_iff nonce k n (some v) = elim (Bool-cases (v == nonce)) [
  | inl e ↦ (
    λ h. absurd (ground (arith, e, h)),
    λ h. let same : v ≡ n = ground (arith, h.0) in absurd (h.1 (sym same ∙ ==→eq v nonce e)),
  )
  | inr e ↦ (
    λ h.
        let same : v ≡ n = ground (arith, e, h) in
        (ap some same, λ g. ground (arith, e, same, g, ==_self nonce)),
    λ h. ground (arith, e, h.0),
  )
]

forget-ForgetsNonce :
    (r : Running) (nonce : ℕ) → IsUnique r.probe_timers → ForgetsNonce nonce r (forget r nonce)
unfolding forget
forget-ForgetsNonce r nonce u = (
  HashMap.get-remove r.requests_in_flight nonce,
  λ k n.
      let kept = HashMap.get-retain (λ timer_id v. not (v == nonce)) r.probe_timers k u in
      let (fw, bw) = kept_iff nonce k n (HashMap.get r.probe_timers k) in
      (λ h. fw (sym kept ∙ h), λ h. kept ∙ bw h),
  (refl, refl, refl),
)

-- The error message of a failed link panics nowhere for a tracked nonce whose contact is in the table. The
-- request and the timers of the nonce are forgotten, and nothing else of the state changes. A contact whose
-- active path uses the link is set to invalid by it, so that it is not valid and knows that the link
-- failed; else one whose proposed path uses it loses that path and nothing else; else it is written
-- back as it was.
pub failed_link_handled :
    {T : Type 0} (table : RoutingTable T) (aged : ℕ → ℕ) (now : ℕ) (t : T) (r : Running) (nonce : ℕ)
    (l : Link) (request : Request) (c : Contact)
    → IsUnique r.probe_timers
    → HashMap.get r.requests_in_flight nonce ≡ some request
    → table.contact t request.contact_id ≡ returns (some c)
    → IsContact c
    → CanWrite table t request.contact_id
    → (t' : T) × (r' : Running) × (c' : Contact) × (invalidate_contact_for_message table aged now t
          (running r)
          nonce
          l
        ≡ returns (t', running r'))
      × (table.contact_mut t request.contact_id (λ _. c') ≡ returns t')
      × IsContact c'
      × LinkVerdict aged now c l c'
      × ForgetsNonce nonce r r'
unfolding invalidate_contact_for_message change_contact
failed_link_handled table aged now t r nonce l request c u h at v writes =
    let (c', e, w, verdict) = on_failed_link_lem aged now l c v in
    let (t', f) = writes c' in
    (
      t',
      forget r nonce,
      c',
      ground (arith, h, at, e, f),
      f,
      w,
      verdict,
      forget-ForgetsNonce r nonce u,
    )
