-- ===== src/Backoff/Tests.antt =====
-- The schedules of the unit tests of kira-r2kad/src/utils/exponential_backoff.rs.
use kira_rust.Prelude.{
  ℕ, zero, suc, ◌+◌, ◌*◌, ◌≤◌, ◌<◌, ◌≡◌, refl, false, none, some, [], ◌∷◌, arith, returns,
}
use kira_rust.Backoff.{
  ExponentialBackoff, advance, next, spread, scale, checked_pow, nanos_per_micro, set_limit, reset,
}
use kira_rust.Backoff.Schedule.{
  Fits, calls, series, capped, calls-series, calls-capped, spread_bounds,
}

-- Base 2, five retries, one microsecond.
abbrev five : ExponentialBackoff
five = record {
  base = 2;
  max_retries = 5;
  current_retries = 0;
  start_duration = 1000;
  randomize = false;
  limit = false;
}

abbrev lowest : ℕ → ℕ → ℕ
lowest lo hi = lo

five_delays :
    calls lowest 6 five
    ≡ returns (some 1000 ∷ some 2000 ∷ some 4000 ∷ some 8000 ∷ some 16000 ∷ none ∷ [])
unfolding calls next advance scale checked_pow
five_delays = refl

five-Fits : Fits five
five-Fits zero h = omega arith
five-Fits (suc zero) h = omega arith
five-Fits (suc (suc zero)) h = omega arith
five-Fits (suc (suc (suc zero))) h = omega arith
five-Fits (suc (suc (suc (suc zero)))) h = omega arith
five-Fits (suc (suc (suc (suc (suc i))))) h = absurd (omega arith)

calls-series_example : calls lowest 7 (reset five) ≡ returns (series five 0 7)
calls-series_example = calls-series lowest five 7 five-Fits refl refl

calls-capped_example : calls lowest 9 (set_limit (reset five)) ≡ returns (capped five 0 9)
calls-capped_example = calls-capped lowest five 9 five-Fits refl (omega arith)

spread_bounds_example :
    (r : ℕ) × (spread lowest 100_000_000 ≡ returns r)
    × (100_000_000 < 2 * r + 2 * nanos_per_micro)
    × (2 * r ≤ 3 * 100_000_000)
spread_bounds_example =
    spread_bounds lowest 100_000_000 (λ lo hi h. (omega arith, h)) (omega arith) (omega arith)
