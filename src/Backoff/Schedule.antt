-- ===== src/Backoff/Schedule.antt =====
-- Which delays an `ExponentialBackoff` hands out, and when it stops.
use kira_rust.Prelude.{
  ℕ, zero, suc, ◌+◌, ◌-◌, ◌*◌, ◌/◌, ◌%◌, ◌^◌, ◌≤◌, ◌<◌, min, dec_lt, ◌≡◌, refl, true, false, Option,
  none, some, List, [], ◌∷◌, arith, ltb, if◌then◌else◌, lt→ltb, Outcome, returns, ◌>>=◌,
}
use kira_rust.Backoff.{
  ExponentialBackoff, advance, next, spread, scale, checked_pow, duration_limit, nanos_per_micro,
  set_limit, reset,
}

-- The delay of the i-th retry.
abbrev pub delay : ExponentialBackoff → ℕ → ℕ
delay b i = b.base ^ i * b.start_duration

-- No retry's delay overflows.
abbrev pub Fits : ExponentialBackoff → Type 0
Fits b = (i : ℕ) → i < b.max_retries → (b.base ^ i < 2 ^ 32) × (delay b i < duration_limit)

-- With retries left and no random offset the next delay is the scheduled one.
pub next_scheduled :
    (random_range : ℕ → ℕ → ℕ) (b : ExponentialBackoff)
    → Fits b
    → b.randomize ≡ false
    → b.current_retries < b.max_retries
    → next random_range b ≡ returns (advance b, some (delay b b.current_retries))
unfolding next checked_pow scale
next_scheduled random_range b fits plain left =
    let (p, q) = fits b.current_retries left in ground (arith)

-- What `n` calls of `next` return.
unfoldable pub calls : (ℕ → ℕ → ℕ) → ℕ → ExponentialBackoff → Outcome (List (Option ℕ))
calls random_range zero b = returns []
calls random_range (suc n) b = do
  (b', delay) ← next random_range b
  rest ← calls random_range n b'
  returns (delay ∷ rest)

-- The schedule from retry `i` on: an exponential series up to `max_retries`, then nothing.
unfoldable pub series : ExponentialBackoff → ℕ → ℕ → List (Option ℕ)
series b i zero = []
series b i (suc n) = (if ltb i b.max_retries then some (delay b i) else none) ∷ series b (i + 1) n

-- The schedule under `set_limit`: the last delay is repeated.
unfoldable pub capped : ExponentialBackoff → ℕ → ℕ → List (Option ℕ)
capped b i zero = []
capped b i (suc n) = some (delay b (min i (b.max_retries - 1))) ∷ capped b (i + 1) n

abbrev at : ExponentialBackoff → ℕ → ExponentialBackoff
at b i = record b { current_retries = i }

advance_free : (b : ExponentialBackoff) (i : ℕ) → b.limit ≡ false → advance (at b i) ≡ at b (i + 1)
unfolding advance
advance_free b i free = ground arith

advance_bound :
    (b : ExponentialBackoff) (i j : ℕ)
    → b.limit ≡ true
    → i < b.max_retries
    → i ≡ min j (b.max_retries - 1)
    → advance (at b i) ≡ at b (min (j + 1) (b.max_retries - 1))
unfolding advance
advance_bound b i j bound h e = ground arith

calls_exhausted :
    (random_range : ℕ → ℕ → ℕ) (b : ExponentialBackoff) (i j n : ℕ)
    → b.max_retries ≤ i
    → b.max_retries ≤ j
    → calls random_range n (at b i) ≡ returns (series b j n)
unfolding calls next series
calls_exhausted random_range b i j zero h k = refl
calls_exhausted random_range b i j (suc n) h k =
    ground (arith, calls_exhausted random_range b i (j + 1) n)

calls-at :
    (random_range : ℕ → ℕ → ℕ) (b : ExponentialBackoff) (i n : ℕ)
    → Fits b
    → b.randomize ≡ false
    → b.limit ≡ false
    → i ≤ b.max_retries
    → calls random_range n (at b i) ≡ returns (series b i n)
unfolding calls series
calls-at random_range b i zero fits plain free h = refl
calls-at random_range b i (suc n) fits plain free h = elim (dec_lt i b.max_retries) [
  | yes p ↦ rw (next_scheduled random_range (at b i) fits plain p) (
      rw (advance_free b i free, calls-at random_range b (i + 1) n fits plain free (omega arith))
        (rw (lt→ltb i b.max_retries p)))
  | no p ↦ calls_exhausted random_range b i i (suc n) (omega arith) (omega arith)
]

-- Without a limit and a random offset, and if no power of the base up to the last retry reaches 2 ^ 32
-- and no delay the limit of a Duration, the iterator hands out the exponential series and then stops for
-- good.
pub calls-series :
    (random_range : ℕ → ℕ → ℕ) (b : ExponentialBackoff) (n : ℕ)
    → Fits b
    → b.randomize ≡ false
    → b.limit ≡ false
    → calls random_range n (reset b) ≡ returns (series b 0 n)
unfolding reset
calls-series random_range b n fits plain free =
    calls-at random_range b 0 n fits plain free (omega arith)

capped-at :
    (random_range : ℕ → ℕ → ℕ) (b : ExponentialBackoff) (i j n : ℕ)
    → Fits b
    → b.randomize ≡ false
    → b.limit ≡ true
    → i < b.max_retries
    → i ≡ min j (b.max_retries - 1)
    → calls random_range n (at b i) ≡ returns (capped b j n)
unfolding calls capped
capped-at random_range b i j zero fits plain bound h e = refl
capped-at random_range b i j (suc n) fits plain bound h e =
    rw (next_scheduled random_range (at b i) fits plain h) (
      rw
        (
          advance_bound b i j bound h e,
          capped-at random_range b (min (j + 1) (b.max_retries - 1)) (j + 1) n fits plain bound
              (omega arith) refl,
        )
        (rw (← e)))

-- Under a limit it never stops: the last delay is repeated.
pub calls-capped :
    (random_range : ℕ → ℕ → ℕ) (b : ExponentialBackoff) (n : ℕ)
    → Fits b
    → b.randomize ≡ false
    → 0 < b.max_retries
    → calls random_range n (set_limit (reset b)) ≡ returns (capped b 0 n)
unfolding reset set_limit capped
calls-capped random_range b n fits plain h =
    capped-at random_range (record b { limit = true }) 0 0 n fits plain refl h (omega arith)

-- A random offset keeps a delay of at least one microsecond and less than 2 ^ 64 times 500 nanoseconds
-- within half of the scheduled one, up to rounding to microseconds, and the generator is asked for a
-- range that is not empty.
pub spread_bounds :
    (random_range : ℕ → ℕ → ℕ) (d : ℕ)
    → ((lo hi : ℕ) → lo < hi → (lo ≤ random_range lo hi) × (random_range lo hi < hi))
    → nanos_per_micro ≤ d
    → d < 2 ^ 64 * 500
    → (r : ℕ) × (spread random_range d ≡ returns r)
      × (d < 2 * r + 2 * nanos_per_micro)
      × (2 * r ≤ 3 * d)
unfolding spread
spread_bounds random_range d law h k =
    let lo = d / 1000 / 2 in
    let hi = 3 * (d / 1000) / 2 in
    let (p, q) = law lo hi (omega arith) in
    (random_range lo hi % 2 ^ 64 * 1000, ground arith, omega arith, omega arith)
