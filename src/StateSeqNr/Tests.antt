-- ===== src/StateSeqNr/Tests.antt =====
-- The cases of the unit tests of kira-r2kad/src/domain/state_seq_nr.rs.
use kira_rust.Prelude.{
  ℕ, ◌+◌, ◌-◌, ◌^◌, ◌≤◌, ◌<◌, ◌≡◌, refl, ◌≢◌, ◌↔◌, ◌⊎◌, arith, returns, ok, err,
}
use kira_rust.StateSeqNr.{
  StateSeqNr, SafeStateSeqNr, reset, value_of, invalid_state_seq_nr, IsValid, u32_max,
  safe_try_from, from_u32, to_u32, add, add_assign,
}
use kira_rust.StateSeqNr.Conversions.{to_u32-from_u32, from_u32-to_u32, safe_try_from_iff}
use kira_rust.StateSeqNr.Addition.{add-IsValid, add_value, add_assoc}

abbrev five : SafeStateSeqNr
five = record { ssn = 5 }

abbrev near_max : SafeStateSeqNr
near_max = record { ssn = 2 ^ 32 - 2 }

overflow_resets : add (value_of near_max) 2 ≡ returns reset
unfolding add
overflow_resets = refl

reset_restarts : add_assign reset 5 ≡ returns (value_of five)
unfolding add_assign
reset_restarts = refl

to_u32-from_u32_example : (s : StateSeqNr) × (from_u32 5 ≡ returns s) × IsValid s × (to_u32 s ≡ 5)
to_u32-from_u32_example = to_u32-from_u32 5 (omega arith)

from_u32-to_u32_example :
    (to_u32 (value_of five) < 2 ^ 32)
    × (from_u32 (to_u32 (value_of five)) ≡ returns (value_of five))
from_u32-to_u32_example = from_u32-to_u32 (value_of five) (omega arith, omega arith)

safe_try_from_iff_example :
    ((safe_try_from 7 ≡ returns (ok (record { ssn = 7 }))) ↔ ((◌≢◌ {A = ℕ} 7 0) × (7 ≢ u32_max)))
    × ((◌≡◌ {A = ℕ} 7 0) ⊎ (7 ≡ u32_max) → safe_try_from 7 ≡ returns (err (invalid_state_seq_nr 7)))
safe_try_from_iff_example = safe_try_from_iff 7 (omega arith)

add-IsValid_example : (s' : StateSeqNr) × (add reset 5 ≡ returns s') × IsValid s'
add-IsValid_example = add-IsValid reset 5 tt (omega arith)

add_value_example :
    ((5 + 3 < u32_max) × (add (value_of five) 3 ≡ returns (value_of (record { ssn = 5 + 3 }))))
    ⊎ ((u32_max ≤ 5 + 3) × (add (value_of five) 3 ≡ returns reset))
add_value_example = add_value five 3 (omega arith, omega arith)

add_assoc_example : add (value_of (record { ssn = 8 })) 4 ≡ add (value_of five) (3 + 4)
unfolding add
add_assoc_example =
    add_assoc five 3 4 (value_of (record { ssn = 8 })) (omega arith, omega arith) (omega arith) refl
