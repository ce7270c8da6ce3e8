-- ===== src/StateSeqNr/Conversions.antt =====
-- The conversions between numbers and state sequence numbers.
use kira_rust.Prelude.{ℕ, ◌^◌, ◌<◌, ℕ_discrete, ◌≡◌, refl, ◌≢◌, ◌↔◌, ◌⊎◌, arith, returns, ok, err}
use kira_rust.StateSeqNr.{
  StateSeqNr, invalid, reset, value_of, invalid_state_seq_nr, IsValid, u32_max, safe_try_from,
  from_u32, to_u32, from_non_zero,
}

-- Every `u32` converts without a panic to a valid state sequence number, and back to itself.
pub to_u32-from_u32 :
    (n : ℕ) → n < 2 ^ 32 → (s : StateSeqNr) × (from_u32 n ≡ returns s) × IsValid s × (to_u32 s ≡ n)
unfolding from_u32 to_u32
to_u32-from_u32 n h = elim (ℕ_discrete n 0) [
  | yes p ↦ (invalid, ground arith, tt, ground arith)
  | no p ↦ elim (ℕ_discrete n u32_max) [
    | yes q ↦ (reset, ground arith, tt, ground arith)
    | no q ↦ (value_of (record { ssn = n }), ground arith, (omega arith, omega arith), refl)
  ]
]

-- A valid state sequence number converts to a `u32` and back to itself.
pub from_u32-to_u32 :
    (s : StateSeqNr) → IsValid s → (to_u32 s < 2 ^ 32) × (from_u32 (to_u32 s) ≡ returns s)
unfolding from_u32 to_u32
from_u32-to_u32 invalid v = (omega arith, refl)
from_u32-to_u32 reset v = (omega arith, refl)
from_u32-to_u32 (value_of s) v = (omega arith, ground arith)

-- The checked conversion accepts exactly the numbers that are no special value, never panics, and
-- names the rejected number.
pub safe_try_from_iff :
    (n : ℕ)
    → n < 2 ^ 32
    → ((safe_try_from n ≡ returns (ok (record { ssn = n }))) ↔ ((n ≢ 0) × (n ≢ u32_max)))
      × ((n ≡ 0) ⊎ (n ≡ u32_max) → safe_try_from n ≡ returns (err (invalid_state_seq_nr n)))
unfolding safe_try_from
safe_try_from_iff n h = ((λ e. ground arith, λ e. ground arith), λ e. ground arith)

-- On a number that is not zero the two conversions agree.
pub from_non_zero-from_u32 : (n : ℕ) → 0 < n → from_non_zero n ≡ from_u32 n
unfolding from_non_zero from_u32
from_non_zero-from_u32 n h = ground arith
