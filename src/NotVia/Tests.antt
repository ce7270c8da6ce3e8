-- ===== src/NotVia/Tests.antt =====
-- A rediscovery over concrete contacts.
use kira_rust.Prelude.{◌≡◌, refl, some, [], ◌∷◌}
use kira_rust.NotVia.{
  RediscoveryState, new_rediscovery, get_via_contact_list, get_next_via_contact_id,
}
use kira_rust.NotVia.Sets.{next_via_contact}

abbrev rediscovery : RediscoveryState
rediscovery = new_rediscovery (record { nvs_list = [] }) (4 ∷ 5 ∷ 6 ∷ []) 3 1_000_000_000

next_via_contact_example :
    ((get_next_via_contact_id rediscovery).1 ≡ some 4)
    × (get_via_contact_list (get_next_via_contact_id rediscovery).0 ≡ 5 ∷ 6 ∷ [])
unfolding new_rediscovery get_via_contact_list
next_via_contact_example = next_via_contact rediscovery 4 (5 ∷ 6 ∷ []) refl
