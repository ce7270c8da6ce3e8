-- ===== src/Backoff.antt =====
-- kira-r2kad/src/utils/exponential_backoff.rs: `ExponentialBackoff` and its iterator.
-- A `Duration` is its number of nanoseconds. `u32::pow` is checked, as in the development profile,
-- and a product that a `Duration` cannot hold panics in every profile.
pub mod Schedule
mod Tests
use kira_rust.Prelude.{
  ℕ, ◌+◌, ◌-◌, ◌*◌, ◌/◌, ◌%◌, ◌^◌, Bool, true, false, not, ◌&&◌, Option, none, some, ◌==◌, leb, ltb,
  if◌then◌else◌, Outcome, returns, panics, ◌>>=◌,
}

-- `as_micros` counts whole microseconds.
abbrev pub nanos_per_micro : ℕ
nanos_per_micro = 1000

-- Durations end at 2 ^ 64 seconds.
abbrev pub duration_limit : ℕ
duration_limit = 2 ^ 64 * 1_000_000_000

pub record ExponentialBackoff : Type 0 where
  pub base : ℕ
  pub max_retries : ℕ
  pub current_retries : ℕ
  pub start_duration : ℕ
  pub randomize : Bool
  pub limit : Bool

unfoldable pub new : ℕ → ℕ → ℕ → ExponentialBackoff
new base max_retries start_duration = record {
  base = base;
  max_retries = max_retries;
  current_retries = 0;
  start_duration = start_duration;
  randomize = false;
  limit = false;
}

unfoldable pub new_random : ℕ → ℕ → ℕ → ExponentialBackoff
new_random base max_retries start_duration = record {
  base = base;
  max_retries = max_retries;
  current_retries = 0;
  start_duration = start_duration;
  randomize = true;
  limit = false;
}

unfoldable pub with_default_base : ℕ → ℕ → ExponentialBackoff
unfolding new
with_default_base max_retries start_duration = new 2 max_retries start_duration

unfoldable pub random_with_default_base : ℕ → ℕ → ExponentialBackoff
unfolding new_random
random_with_default_base max_retries start_duration = new_random 2 max_retries start_duration

unfoldable pub reset : ExponentialBackoff → ExponentialBackoff
reset b = record b { current_retries = 0 }

unfoldable pub set_limit : ExponentialBackoff → ExponentialBackoff
set_limit b = record b { limit = true }

unfoldable pub clear_limit : ExponentialBackoff → ExponentialBackoff
clear_limit b = record b { limit = false }

unfoldable pub is_started : ExponentialBackoff → Bool
is_started b = not (b.current_retries == 0)

-- `u32::pow`.
unfoldable pub checked_pow : ℕ → ℕ → Outcome ℕ
checked_pow base exp = if ltb (base ^ exp) (2 ^ 32) then returns (base ^ exp) else panics

-- `u32 * Duration`.
unfoldable pub scale : ℕ → ℕ → Outcome ℕ
scale factor duration =
    if ltb (factor * duration) duration_limit then returns (factor * duration) else panics

-- The random offset. `random_range` is the external generator; it panics on an empty range.
unfoldable pub spread : (ℕ → ℕ → ℕ) → ℕ → Outcome ℕ
spread random_range duration =
    let micros = duration / nanos_per_micro in
    let lower_bound = micros / 2 in
    let upper_bound = 3 * micros / 2 in
    if ltb lower_bound upper_bound
    then returns (random_range lower_bound upper_bound % 2 ^ 64 * nanos_per_micro)
    else panics

-- The state after a delay was handed out.
unfoldable pub advance : ExponentialBackoff → ExponentialBackoff
advance b =
    let current = b.current_retries + 1 in
    if b.limit && current == b.max_retries && ltb 0 b.max_retries
    then record b { current_retries = current - 1 }
    else record b { current_retries = current }

unfoldable pub next : (ℕ → ℕ → ℕ) → ExponentialBackoff → Outcome (ExponentialBackoff × Option ℕ)
next random_range b = if leb b.max_retries b.current_retries then returns (b, none) else do
  factor ← checked_pow b.base b.current_retries
  duration ← scale factor b.start_duration
  delay ← if b.randomize then spread random_range duration else returns duration
  returns (advance b, some delay)
