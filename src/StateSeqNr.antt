-- ===== src/StateSeqNr.antt =====
-- kira-r2kad/src/domain/state_seq_nr.rs: state sequence numbers with their two special values.
-- A `u32` or `NonZeroU32` is a number; which numbers it can be is stated where it matters.
pub mod Conversions
pub mod Addition
mod Tests
use kira_rust.Prelude.{
  ℕ, zero, suc, ◌+◌, ◌-◌, ◌*◌, ◌/◌, ◌%◌, ◌^◌, ◌≤◌, ◌<◌, min, max, dec_lt, dec_le, ℕ_discrete, ◌≡◌,
  refl, sym, ap, ◌∙◌, subst, ◌≢◌, ◌↔◌, ◌⊎◌, inl, inr, Bool, true, false, ◌&&◌, ◌||◌, not, Option,
  none, some, List, [], ◌∷◌, ◌++◌, map, arith, ltb, leb, ◌==◌, if◌then◌else◌, is_some, ltb→lt,
  lt→ltb, ==→eq, ==_self, ==_ne, Bool-cases, Option-cases, length, get_elem?, take, drop,
  length-append, length-drop-le, take-length_append, drop-length_append, contains, contains-append,
  Outcome, returns, panics, Result, ok, err, ◌>>=◌, ◌>>◌, assert, expect,
}

abbrev pub u32_max : ℕ
u32_max = 2 ^ 32 - 1

abbrev pub invalid_ssn : ℕ
invalid_ssn = 0

abbrev pub reset_ssn : ℕ
reset_ssn = u32_max

-- The newtype over `NonZeroU32`.
pub record SafeStateSeqNr : Type 0 where
  pub ssn : ℕ

pub data StateSeqNr : Type 0 where
  invalid reset : StateSeqNr
  value_of : SafeStateSeqNr → StateSeqNr

-- `SafeStateSeqNr::MIN`.
abbrev pub safe_min : SafeStateSeqNr
safe_min = record { ssn = 1 }

pub data InvalidStateSeqNrError : Type 0 where
  invalid_state_seq_nr : ℕ → InvalidStateSeqNrError

-- `NonZeroU32::new`, the standard library's check.
abbrev pub non_zero : ℕ → Option ℕ
non_zero n = if n == 0 then none else some n

-- `SafeStateSeqNr::try_from(u32)`.
unfoldable pub safe_try_from : ℕ → Outcome (Result SafeStateSeqNr InvalidStateSeqNrError)
safe_try_from n =
    if n == invalid_ssn
    then returns (err (invalid_state_seq_nr invalid_ssn))
    else if n == reset_ssn
    then returns (err (invalid_state_seq_nr reset_ssn))
    else do ssn ← expect (non_zero n); returns (ok (record { ssn = ssn }))

-- `Result::expect`.
abbrev expect_ok {ℓ κ} : {A : Type ℓ} {E : Type κ} → Result A E → Outcome A
expect_ok (ok a) = returns a
expect_ok (err e) = panics

-- `StateSeqNr::from(u32)`.
unfoldable pub from_u32 : ℕ → Outcome StateSeqNr
unfolding safe_try_from
from_u32 n =
    if n == invalid_ssn
    then returns invalid
    else if n == reset_ssn
    then returns reset
    else do tried ← safe_try_from n; ssn ← expect_ok tried; returns (value_of ssn)

-- `u32::from(StateSeqNr)`.
unfoldable pub to_u32 : StateSeqNr → ℕ
to_u32 invalid = invalid_ssn
to_u32 (value_of s) = s.ssn
to_u32 reset = reset_ssn

-- `SafeStateSeqNr::try_from(NonZeroU32)`.
unfoldable pub safe_try_from_non_zero : ℕ → Result SafeStateSeqNr InvalidStateSeqNrError
safe_try_from_non_zero n =
    if n == reset_ssn then err (invalid_state_seq_nr reset_ssn) else ok (record { ssn = n })

-- `u32::from(SafeStateSeqNr)`.
unfoldable pub safe_to_u32 : SafeStateSeqNr → ℕ
safe_to_u32 s = s.ssn

-- `StateSeqNr::from(NonZeroU32)`.
unfoldable pub from_non_zero : ℕ → Outcome StateSeqNr
unfolding safe_try_from_non_zero
from_non_zero n =
    if n == reset_ssn
    then returns reset
    else do ssn ← expect_ok (safe_try_from_non_zero n); returns (value_of ssn)

-- `NonZeroU32::saturating_add`, of the standard library.
abbrev pub saturating_add : ℕ → ℕ → ℕ
saturating_add a b = min (a + b) u32_max

-- `SafeStateSeqNr + u32`.
unfoldable pub safe_add : SafeStateSeqNr → ℕ → Outcome StateSeqNr
unfolding from_non_zero
safe_add s rhs = from_non_zero (saturating_add s.ssn rhs)

-- `StateSeqNr + u32`.
unfoldable pub add : StateSeqNr → ℕ → Outcome StateSeqNr
unfolding safe_add from_u32
add invalid rhs = returns invalid
add (value_of s) rhs = safe_add s rhs
add reset rhs = from_u32 rhs

-- `StateSeqNr += u32`: the new value of the left side.
unfoldable pub add_assign : StateSeqNr → ℕ → Outcome StateSeqNr
unfolding safe_add from_u32
add_assign invalid rhs = returns invalid
add_assign (value_of s) rhs = safe_add s rhs
add_assign reset rhs = from_u32 rhs

unfoldable pub value : StateSeqNr → Option SafeStateSeqNr
value invalid = none
value reset = none
value (value_of s) = some s

unfoldable pub is_reset : StateSeqNr → Bool
is_reset reset = true
is_reset invalid = false
is_reset (value_of s) = false

-- The invariant of the newtype: neither special value.
abbrev pub IsSafe : SafeStateSeqNr → Type 0
IsSafe s = (0 < s.ssn) × (s.ssn < u32_max)

abbrev pub IsValid : StateSeqNr → Type 0
IsValid invalid = Unit
IsValid reset = Unit
IsValid (value_of s) = IsSafe s
