-- ===== src/NodeId/Bits.antt =====
-- Exclusive or and the lengths of binary numbers.
use kira_rust.Prelude.{ℕ, zero, suc, ◌+◌, ◌*◌, ◌/◌, ◌%◌, ◌^◌, ◌≤◌, ◌<◌, ◌≡◌, refl, arith}
use Prim.Native.Nat.{digits, differ, bit_xor, bit_xor-bitwise}
use native.Mathlib.Nat.{pow-suc, one-le-pow, mul_assoc, le-div_iff_mul-le, div-mul-le_self}
use kira_rust.NodeId.{bit_length}

differ_self : (x : ℕ) → differ x x ≡ 0
differ_self zero = refl
differ_self (suc x) = differ_self x

differ_bit : (x y : ℕ) → x < 2 → y < 2 → differ x y < 2
differ_bit zero y h k = k
differ_bit (suc x) zero h k = h
differ_bit (suc x) (suc y) h k = differ_bit x y (omega arith) (omega arith)

xor_digits_self : (n a : ℕ) → a ≤ n → digits (λ b. b) differ n a a ≡ 0
xor_digits_self zero zero h = refl
xor_digits_self zero (suc a) h = absurd (omega arith)
xor_digits_self (suc n) zero h = refl
xor_digits_self (suc n) (suc a) h =
    omega (arith, xor_digits_self n (suc a / 2) (omega arith), differ_self (suc a % 2))

-- Two equal numbers have no distance.
pub bit_xor_self : (a : ℕ) → bit_xor a a ≡ 0
bit_xor_self a = simp bit_xor-bitwise (xor_digits_self a a (omega arith))

xor_digits_bound : (n k a b : ℕ) → a < 2 ^ k → b < 2 ^ k → digits (λ y. y) differ n a b < 2 ^ k
xor_digits_bound zero k a b h g = g
xor_digits_bound (suc n) k zero b h g = g
xor_digits_bound (suc n) zero (suc a) b h g = absurd (omega arith)
xor_digits_bound (suc n) (suc k) (suc a) b h g = omega (
  arith,
  pow-suc 2 k,
  xor_digits_bound n k (suc a / 2) (b / 2) (omega (arith, pow-suc 2 k))
      (omega (arith, pow-suc 2 k)),
  differ_bit (suc a % 2) (b % 2) (omega arith) (omega arith),
)

-- The distance of two numbers has no more bits than they have.
pub bit_xor_bound : (k a b : ℕ) → a < 2 ^ k → b < 2 ^ k → bit_xor a b < 2 ^ k
bit_xor_bound k a b h g = simp bit_xor-bitwise (xor_digits_bound a k a b h g)

pub bit_length_mono : (n x y : ℕ) → x ≤ y → bit_length n x ≤ bit_length n y
unfolding bit_length
bit_length_mono zero x y h = omega arith
bit_length_mono (suc n) x y h = ground (arith, bit_length_mono n (x / 2) (y / 2) (omega arith))

pub bit_length_bound : (n k x : ℕ) → x < 2 ^ k → bit_length n x ≤ k
unfolding bit_length
bit_length_bound zero k x h = omega arith
bit_length_bound (suc n) zero x h = ground arith
bit_length_bound (suc n) (suc k) x h =
    ground (arith, bit_length_bound n k (x / 2) (omega (arith, pow-suc 2 k)))

pub div_mono : (g u v : ℕ) → 0 < g → u ≤ v → u / g ≤ v / g
div_mono g u v h k = (le-div_iff_mul-le h).1 (omega (arith, div-mul-le_self u g))

-- A number with at most so many digits is below the power.
pub bit_length-lt : (n k x : ℕ) → x < 2 ^ n → bit_length n x ≤ k → x < 2 ^ k
unfolding bit_length
bit_length-lt zero k x h g = omega (arith, one-le-pow k 2)
bit_length-lt (suc n) k zero h g = omega (arith, one-le-pow k 2)
bit_length-lt (suc n) zero (suc x) h g = absurd (ground arith)
bit_length-lt (suc n) (suc k) (suc x) h g =
    let low : bit_length n (suc x / 2) ≤ k = ground arith in
    omega (arith, pow-suc 2 k, bit_length-lt n k (suc x / 2) (omega (arith, pow-suc 2 n)) low)

pub pow-add : (k l : ℕ) → 2 ^ (k + l) ≡ 2 ^ l * 2 ^ k
pow-add zero l = let same : 0 + l ≡ l = omega arith in rw same (omega arith)
pow-add (suc k) l =
    let low : 2 ^ (k + l) ≡ 2 ^ l * 2 ^ k = pow-add k l in
    let top : 2 ^ suc (k + l) ≡ 2 ^ (k + l) * 2 = pow-suc 2 (k + l) in
    let same : suc k + l ≡ suc (k + l) = omega arith in
    rw (same, top, low, pow-suc 2 k) (mul_assoc (2 ^ l) (2 ^ k) 2)
