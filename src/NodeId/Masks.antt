-- ===== src/NodeId/Masks.antt =====
-- The bits that a mask takes out of a node identifier.
use kira_rust.Prelude.{
  ℕ, zero, suc, ◌+◌, ◌-◌, ◌*◌, ◌/◌, ◌%◌, ◌^◌, ◌≤◌, ◌<◌, min, ◌≡◌, refl, ap, ◌∙◌, subst, Bool, true,
  ◌&&◌, ◌||◌, arith, ltb, ◌==◌, returns, ok,
}
use Prim.Native.Nat.{digits, bit_and, bit_and-bitwise}
use native.Mathlib.Nat.{
  pow-suc, one-le-pow, div-div-eq-div-mul, div-add-mod, mul_assoc, mul-div-mul_left,
}
use kira_rust.NodeId.{bits, bits_mask}

abbrev conjunction : ℕ → ℕ → ℕ → ℕ
conjunction rounds a b = digits (λ d. zero) min rounds a b

-- Rounds beyond the size of the number change nothing.
conjunction_rounds : (k l a b : ℕ) → a ≤ k → a ≤ l → conjunction k a b ≡ conjunction l a b
conjunction_rounds zero zero a b h g = refl
conjunction_rounds zero (suc l) zero b h g = refl
conjunction_rounds zero l (suc a) b h g = absurd (omega arith)
conjunction_rounds (suc k) zero zero b h g = refl
conjunction_rounds (suc k) zero (suc a) b h g = absurd (omega arith)
conjunction_rounds (suc k) (suc l) zero b h g = refl
conjunction_rounds (suc k) (suc l) (suc a) b h g =
    omega (arith, conjunction_rounds k l (suc a / 2) (b / 2) (omega arith) (omega arith))

-- The lowest digit of a conjunction, and the others.
pub bit_and-halves : (a b : ℕ) → bit_and a b ≡ 2 * bit_and (a / 2) (b / 2) + min (a % 2) (b % 2)
bit_and-halves zero b = omega (arith, bit_and-bitwise 0 b, bit_and-bitwise 0 (b / 2))
bit_and-halves (suc a) b = omega (
  arith,
  bit_and-bitwise (suc a) b,
  bit_and-bitwise (suc a / 2) (b / 2),
  conjunction_rounds a (suc a / 2) (suc a / 2) (b / 2) (omega arith) (omega arith),
)

double : (n : ℕ) → 2 * 2 ^ n ≡ 2 ^ suc n
double n = omega (arith, pow-suc 2 n)

mod_double : (a m : ℕ) → 0 < m → a % (2 * m) ≡ 2 * (a / 2 % m) + a % 2
mod_double a m h =
    let same : a / 2 / m ≡ a / (2 * m) = div-div-eq-div-mul a 2 m in
    let whole : 2 * m * (a / 2 / m) + a % (2 * m) ≡ a = rw same (div-add-mod a (2 * m)) in
    omega (arith, whole, div-add-mod (a / 2) m, mul_assoc 2 m (a / 2 / m))

-- A mask of ones is a remainder; the bound on the number is for the induction.
bit_and_ones_below : (bound n a : ℕ) → a < bound → bit_and a (2 ^ n - 1) ≡ a % 2 ^ n
bit_and_ones_below zero n a h = absurd (omega arith)
bit_and_ones_below (suc bound) n zero h =
    omega (arith, bit_and-bitwise 0 (2 ^ n - 1), one-le-pow n 2)
bit_and_ones_below (suc bound) zero (suc a) h =
    omega (arith, bit_and-halves (suc a) 0, bit_and_ones_below bound 0 (suc a / 2) (omega arith))
bit_and_ones_below (suc bound) (suc n) (suc a) h =
    let half : (2 ^ suc n - 1) / 2 ≡ 2 ^ n - 1 = omega (arith, pow-suc 2 n, one-le-pow n 2) in
    let low : bit_and (suc a / 2) ((2 ^ suc n - 1) / 2) ≡ suc a / 2 % 2 ^ n =
      rw half (bit_and_ones_below bound n (suc a / 2) (omega arith)) in
    omega (
      arith,
      low,
      half,
      bit_and-halves (suc a) (2 ^ suc n - 1),
      pow-suc 2 n,
      one-le-pow n 2,
      subst (λ m. suc a % m ≡ 2 * (suc a / 2 % 2 ^ n) + suc a % 2) (double n)
          (mod_double (suc a) (2 ^ n) (omega (arith, one-le-pow n 2))),
    )

pub bit_and_ones : (n a : ℕ) → bit_and a (2 ^ n - 1) ≡ a % 2 ^ n
bit_and_ones n a = bit_and_ones_below (suc a) n a (omega arith)

-- A mask of ones above the lowest bits.
pub bit_and_shifted :
    (from n a : ℕ) → bit_and a ((2 ^ n - 1) * 2 ^ from) / 2 ^ from ≡ a / 2 ^ from % 2 ^ n
bit_and_shifted zero n a = ground (arith, bit_and_ones n a)
bit_and_shifted (suc from) n a =
    let mask = (2 ^ n - 1) * 2 ^ from in
    let even : (2 ^ n - 1) * 2 ^ suc from ≡ 2 * mask = rw (← double from) (omega arith) in
    let next : bit_and a (2 * mask) ≡ 2 * bit_and (a / 2) mask =
      omega (arith, bit_and-halves a (2 * mask), ap (bit_and (a / 2)) (half mask)) in
    rw (even, next, ← double from, ← div-div-eq-div-mul a 2 (2 ^ from))
      (mul-div-mul_left {m = 2} (bit_and (a / 2) mask) (2 ^ from) (omega arith)
        ∙ bit_and_shifted from n (a / 2))
  where
    half : (m : ℕ) → 2 * m / 2 ≡ m
    half m = omega arith

all_under : ℕ → (ℕ → Bool) → Bool
all_under zero p = true
all_under (suc n) p = p n && all_under n p

all_under_lem : (n : ℕ) (p : ℕ → Bool) (x : ℕ) → all_under n p ≡ true → x < n → p x ≡ true
unfolding all_under
all_under_lem zero p x h k = absurd (omega arith)
all_under_lem (suc n) p x h k = ground (arith, all_under_lem n p x)

mask_fits : ℕ → ℕ → Bool
mask_fits from n = ltb 112 (from + n) || bits_mask from n == (2 ^ n - 1) * 2 ^ from

mask_table : all_under 113 (λ from. all_under 113 (mask_fits from)) ≡ true
unfolding all_under mask_fits bits_mask
mask_table = refl

mask_is :
    (from n : ℕ)
    → from + n ≤ 112
    → mask_fits from n ≡ true
    → bits_mask from n ≡ (2 ^ n - 1) * 2 ^ from
unfolding mask_fits
mask_is from n h fits = ground arith

-- Inside the identifier the bits are those of the quotient.
pub bits_lem :
    (id from n : ℕ) → from + n ≤ 112 → bits id from n ≡ returns (ok (id / 2 ^ from % 2 ^ n))
unfolding bits
bits_lem id from n h =
    let fits : mask_fits from n ≡ true =
      all_under_lem 113 (mask_fits from) n
        (all_under_lem 113 (λ f. all_under 113 (mask_fits f)) from mask_table (omega arith))
        (omega arith) in
    ground (arith, bit_and_shifted from n id, mask_is from n h fits)
