-- ===== src/StateSeqNr/Addition.antt =====
-- Addition on state sequence numbers.
use kira_rust.Prelude.{
  ℕ, ◌+◌, ◌^◌, ◌≤◌, ◌<◌, dec_lt, ℕ_discrete, ◌≡◌, refl, ◌⊎◌, inl, inr, arith, returns,
}
use kira_rust.StateSeqNr.{
  StateSeqNr, SafeStateSeqNr, invalid, reset, value_of, IsSafe, IsValid, u32_max, add, add_assign,
}

-- Addition of a `u32` never panics and keeps the invariant.
pub add-IsValid :
    (s : StateSeqNr) (r : ℕ)
    → IsValid s
    → r < 2 ^ 32
    → (s' : StateSeqNr) × (add s r ≡ returns s') × IsValid s'
unfolding add
add-IsValid invalid r v h = (invalid, refl, tt)
add-IsValid reset r v h = elim (ℕ_discrete r 0) [
  | yes p ↦ (invalid, ground arith, tt)
  | no p ↦ elim (ℕ_discrete r u32_max) [
    | yes q ↦ (reset, ground arith, tt)
    | no q ↦ (value_of (record { ssn = r }), ground arith, (omega arith, omega arith))
  ]
]
add-IsValid (value_of s) r v h = elim (dec_lt (s.ssn + r) u32_max) [
  | yes p ↦ (value_of (record { ssn = s.ssn + r }), ground arith, (omega arith, omega arith))
  | no p ↦ (reset, ground arith, tt)
]

-- A number that is counted up stays a larger number while it is below the reset marker, and becomes
-- the reset from there on: it never wraps around.
pub add_value :
    (s : SafeStateSeqNr) (r : ℕ)
    → IsSafe s
    → ((s.ssn + r < u32_max)
        × (add (value_of s) r ≡ returns (value_of (record { ssn = s.ssn + r }))))
      ⊎ ((u32_max ≤ s.ssn + r) × (add (value_of s) r ≡ returns reset))
unfolding add
add_value s r v = elim (dec_lt (s.ssn + r) u32_max) [
  | yes h ↦ inl (h, ground arith)
  | no h ↦ inr (omega arith, ground arith)
]

-- Adding in place gives what addition gives.
pub add_assign-add : (s : StateSeqNr) (r : ℕ) → add_assign s r ≡ add s r
unfolding add add_assign
add_assign-add invalid r = refl
add_assign-add reset r = refl
add_assign-add (value_of s) r = refl

-- Two additions count as one, if the first does not reach the reset.
pub add_assoc :
    (s : SafeStateSeqNr) (r t : ℕ) (s' : StateSeqNr)
    → IsSafe s
    → s.ssn + r < u32_max
    → add (value_of s) r ≡ returns s'
    → add s' t ≡ add (value_of s) (r + t)
unfolding add
add_assoc s r t invalid v h e = absurd (ground arith)
add_assoc s r t reset v h e = absurd (ground arith)
add_assoc s r t (value_of s') v h e = ground arith
