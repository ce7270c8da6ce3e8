-- ===== src/Contact/Failures.antt =====
-- What a failure makes of a contact: its failed links, its state and its active path.
use kira_rust.Prelude.{
  ℕ, ◌≡◌, refl, sym, subst, Bool, true, false, ◌||◌, Option, none, some, List, [], ◌∷◌, arith,
  returns,
}
use kira_rust.Path.{
  NodePath, is_faulty, set_state, faulty, invalidate, update_last_validated, last?, last,
}
use kira_rust.Link.{Link}
use kira_rust.NotVia.{NotViaState, NotViaStateList, RediscoveryState, has_link, add_notvia}
use kira_rust.NotVia.Sets.{has_link-insert-all, has_link-insert}
use kira_rust.PathCollection
use kira_rust.PathCollection.{new_with_active_path}
use kira_rust.StateSeqNr.{SafeStateSeqNr}
use kira_rust.Contact.{
  Contact, ContactState, unknown, valid, invalid, rediscovering, dead, new, set_invalid,
  with_notvia, add_notvias, is_valid_contact, seen_at,
}
use kira_rust.Contact.Assessment.{IsContact}
use kira_rust.Contact.Suitability.{LeadsTo, HasActive}

-- A new contact is valid and holds the given path, whose last node it stands for.
pub new-IsContact :
    (p : NodePath) (ssn : SafeStateSeqNr) (now id : ℕ)
    → last p ≡ returns id
    → (c : Contact) × (new p ssn now ≡ returns c)
      × IsContact c
      × (c.dest_id ≡ id)
      × (is_valid_contact c ≡ true)
unfolding new last is_valid_contact new_with_active_path PathCollection.new
new-IsContact p ssn now id e =
    let f : last? p.ids ≡ some id = ground arith in
    (
      record {
        dest_id = id;
        state = valid;
        last_seen = now;
        path_collection = new_with_active_path p;
        state_seq_nr = ssn;
      },
      ground (arith, f),
      record { sized = refl; active = f; proposed = tt; usable = tt },
      refl,
      refl,
    )

-- The links that a state knows to have failed.
abbrev pub failed_in : Link → ContactState → Bool
failed_in l (invalid list) = has_link l list.nvs_list
failed_in l (rediscovering rds) = has_link l rds.notviastate_list.nvs_list
failed_in l unknown = false
failed_in l valid = false
failed_in l dead = false

has_link-add_notvias :
    (aged : ℕ → ℕ) (l : Link) (rds : RediscoveryState) (more : List NotViaState)
    → has_link l (add_notvias aged rds more).notviastate_list.nvs_list
      ≡ (has_link l more || has_link l rds.notviastate_list.nvs_list)
unfolding add_notvias add_notvia
has_link-add_notvias aged l rds [] = refl
has_link-add_notvias aged l rds (nvs ∷ more) =
    let entry : NotViaState = record nvs { timestamp = aged nvs.timestamp } in
    ground (
      arith,
      has_link-add_notvias aged l (add_notvia aged rds nvs).0 more,
      has_link-insert l entry rds.notviastate_list.nvs_list,
    )

failed_in-with_notvia :
    (aged : ℕ → ℕ) (l : Link) (s : ContactState) (list : NotViaStateList)
    → failed_in l (with_notvia aged s list) ≡ (has_link l list.nvs_list || failed_in l s)
unfolding with_notvia
failed_in-with_notvia aged l (invalid existing) list =
    has_link-insert-all l list.nvs_list existing.nvs_list
failed_in-with_notvia aged l (rediscovering rds) list =
    has_link-add_notvias aged l rds list.nvs_list
failed_in-with_notvia aged l unknown list = ground arith
failed_in-with_notvia aged l valid list = ground arith
failed_in-with_notvia aged l dead list = ground arith

HasActive-with_notvia :
    (aged : ℕ → ℕ) (s : ContactState) (list : NotViaStateList) (active : Option NodePath)
    → HasActive (with_notvia aged s list) active
unfolding with_notvia
HasActive-with_notvia aged (invalid existing) list active = tt
HasActive-with_notvia aged (rediscovering rds) list active = tt
HasActive-with_notvia aged unknown list active = tt
HasActive-with_notvia aged valid list active = tt
HasActive-with_notvia aged dead list active = tt

-- Whether the contact's path is to be used.
abbrev usable_state : ContactState → Bool
usable_state valid = true
usable_state unknown = false
usable_state (invalid list) = false
usable_state (rediscovering rds) = false
usable_state dead = false

usable_state-with_notvia :
    (aged : ℕ → ℕ) (s : ContactState) (list : NotViaStateList)
    → usable_state (with_notvia aged s list) ≡ false
unfolding with_notvia
usable_state-with_notvia aged (invalid existing) list = refl
usable_state-with_notvia aged (rediscovering rds) list = refl
usable_state-with_notvia aged unknown list = refl
usable_state-with_notvia aged valid list = refl
usable_state-with_notvia aged dead list = refl

-- The active path, if there is one, is faulty.
abbrev pub IsFaulty : Option NodePath → Type 0
IsFaulty none = Unit
IsFaulty (some p) = is_faulty p ≡ true

abbrev Fails : (ℕ → ℕ) → Contact → NotViaStateList → ℕ → Type 0
Fails aged c list now =
    (c' : Contact) × (set_invalid aged c list now ≡ returns c')
    × IsContact c'
    × (is_valid_contact c' ≡ false)
    × IsFaulty c'.path_collection.active_path
    × ((l : Link) → failed_in l c'.state ≡ (has_link l list.nvs_list || failed_in l c.state))

module _ (aged : ℕ → ℕ) (c : Contact) (list : NotViaStateList) (now : ℕ) (v : IsContact c) where
  unusable : (c' : Contact) → c'.state ≡ with_notvia aged c.state list → is_valid_contact c' ≡ false
  unfolding is_valid_contact
  unusable c' e = rw e (usable_state-with_notvia aged c.state list)

  abbrev failed_contact : Contact
  failed_contact = record c {
    state = with_notvia aged c.state list;
    last_seen = seen_at list.nvs_list now;
  }

  set_invalid_at :
      (active : Option NodePath) → c.path_collection.active_path ≡ active → Fails aged c list now
  unfolding set_invalid invalidate set_state update_last_validated is_faulty
  set_invalid_at none e = (
    failed_contact,
    ground (arith, e),
    record {
      sized = v.sized;
      active = v.active;
      proposed = v.proposed;
      usable = HasActive-with_notvia aged c.state list c.path_collection.active_path;
    },
    unusable failed_contact refl,
    subst IsFaulty (sym e) tt,
    λ l. failed_in-with_notvia aged l c.state list,
  )
  set_invalid_at (some p) e =
      let q : NodePath = record p { path_state = faulty; last_validated = some now } in
      let c' : Contact = record failed_contact {
        path_collection = record c.path_collection { active_path = some q };
      } in
      (
        c',
        ground (arith, e),
        record {
          sized = v.sized;
          active = subst (LeadsTo c.dest_id) e v.active;
          proposed = v.proposed;
          usable = HasActive-with_notvia aged c.state list (some q);
        },
        unusable c' refl,
        refl,
        λ l. failed_in-with_notvia aged l c.state list,
      )

-- A failure never panics and keeps the invariants; afterwards the contact is not valid, its active path
-- is faulty, and it knows exactly the links that it knew to have failed and the given ones.
pub set_invalid_lem :
    (aged : ℕ → ℕ) (c : Contact) (list : NotViaStateList) (now : ℕ)
    → IsContact c
    → (c' : Contact) × (set_invalid aged c list now ≡ returns c')
      × IsContact c'
      × (is_valid_contact c' ≡ false)
      × IsFaulty c'.path_collection.active_path
      × ((l : Link) → failed_in l c'.state ≡ (has_link l list.nvs_list || failed_in l c.state))
set_invalid_lem aged c list now v =
    set_invalid_at aged c list now v c.path_collection.active_path refl
