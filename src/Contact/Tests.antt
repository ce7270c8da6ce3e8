-- ===== src/Contact/Tests.antt =====
-- Comparisons, failures and candidates at a concrete contact.
use kira_rust.Prelude.{
  ℕ, ◌-◌, ◌*◌, ◌/◌, ◌≡◌, refl, Bool, true, false, ◌&&◌, ◌||◌, ◌↔◌, none, some, [], ◌∷◌, arith, ltb,
  ◌==◌, returns, less, greater,
}
use kira_rust.Path.{NodePath, valid, not_validated, is_better_than, last}
use kira_rust.Link.{Link}
use kira_rust.NotVia.{NotViaStateList, has_link}
use kira_rust.Contact.{
  Contact, new, is_valid_contact, dead, cmp_actuality, is_older_than, age, set_invalid,
  assess_path_candidate_and_update,
}
use kira_rust.Contact
use kira_rust.Contact.Actuality.{cmp_actuality-flip, is_older_than_order, is_older_than_lem}
use kira_rust.Contact.Assessment.{
  IsContact, Assessed, IsTaken, assess_path_candidate_and_update_lem,
  assess_path_candidate_and_update_worse,
}
use kira_rust.Contact.Failures.{new-IsContact, IsFaulty, failed_in, set_invalid_lem}

abbrev long : NodePath
long = record {
  ids = 1 ∷ 2 ∷ 9 ∷ [];
  path_state = valid;
  last_validated = some 1;
  last_path_refresh = none;
}

abbrev short : NodePath
short = record {
  ids = 3 ∷ 9 ∷ [];
  path_state = not_validated;
  last_validated = none;
  last_path_refresh = none;
}

-- Seen at second `time` with the sequence number `n`.
abbrev contact : ℕ → ℕ → Contact
contact n time = record {
  dest_id = 9;
  state = Contact.valid;
  last_seen = time * 1_000_000_000;
  path_collection = record {
    active_path = some long;
    proposed_path = none;
    alternative_paths = none ∷ none ∷ none ∷ [];
  };
  state_seq_nr = record { ssn = n };
}

contact-IsContact : (n time : ℕ) → IsContact (contact n time)
contact-IsContact n time = record { sized = refl; active = refl; proposed = tt; usable = tt }

new-IsContact_example :
    (c : Contact) × (new long (record { ssn = 4 }) 7 ≡ returns c)
    × IsContact c
    × (c.dest_id ≡ 9)
    × (is_valid_contact c ≡ true)
unfolding last
new-IsContact_example = new-IsContact long (record { ssn = 4 }) 7 9 refl

cmp_actuality-flip_example :
    cmp_actuality (contact 4 3) (contact 4 2) 5_000_000_000 5_000_000_000 ≡ returns greater
unfolding cmp_actuality age
cmp_actuality-flip_example = cmp_actuality-flip (contact 4 2) (contact 4 3) 5_000_000_000 less refl

is_older_than_order_example :
    (is_older_than (contact 4 2) (contact 3 4) 5_000_000_000 5_000_000_000 ≡ returns false)
    × (is_older_than (contact 3 4) (contact 4 3) 5_000_000_000 5_000_000_000 ≡ returns true)
unfolding is_older_than cmp_actuality age
is_older_than_order_example =
    is_older_than_order (contact 3 4) (contact 4 2) (contact 4 3) 5_000_000_000 refl refl

is_older_than_example :
    is_older_than (contact 4 2) (contact 4 3) 5_000_000_000 5_000_000_000
    ≡ returns (
        ltb 4 4
        || 4 == 4
          && ltb
              ((5_000_000_000 - 3 * 1_000_000_000) / 1_000_000)
              ((5_000_000_000 - 2 * 1_000_000_000) / 1_000_000))
is_older_than_example = is_older_than_lem (contact 4 2) (contact 4 3) 5_000_000_000 (omega arith)

abbrev one_link : NotViaStateList
one_link = record {
  nvs_list = record { link = record { first = 2; second = 9 }; timestamp = 3_000_000_000 } ∷ [];
}

set_invalid_example :
    (c' : Contact) × (set_invalid (λ t. t) (contact 4 2) one_link 5_000_000_000 ≡ returns c')
    × IsContact c'
    × (is_valid_contact c' ≡ false)
    × IsFaulty c'.path_collection.active_path
    × ((l : Link) → failed_in l c'.state ≡ (has_link l one_link.nvs_list || false))
set_invalid_example =
    set_invalid_lem (λ t. t) (contact 4 2) one_link 5_000_000_000 (contact-IsContact 4 2)

assess_path_candidate_and_update_example :
    (c' : Contact) × (b : Bool) × (assess_path_candidate_and_update (λ ids. 0) (contact 4 2) short 5
      ≡ returns (c', b))
    × IsContact c'
    × Assessed (contact 4 2) short c' b
    × ((b ≡ true) ↔ IsTaken (λ ids. 0) (contact 4 2) short)
assess_path_candidate_and_update_example =
    assess_path_candidate_and_update_lem (λ ids. 0) (contact 4 2) short 5 (contact-IsContact 4 2)
      refl

assess_path_candidate_and_update_worse_example :
    assess_path_candidate_and_update (λ ids. 0) (contact 4 2) long 5 ≡ returns (contact 4 2, false)
unfolding is_better_than
assess_path_candidate_and_update_worse_example =
    assess_path_candidate_and_update_worse (λ ids. 0) (contact 4 2) long long 5 refl refl refl
