-- ===== src/NodeId/Distance.antt =====
-- The exclusive or as a distance: it is symmetric, and no two nodes have one distance to a third.
use kira_rust.Prelude.{ℕ, zero, suc, ◌+◌, ◌*◌, ◌/◌, ◌%◌, ◌≤◌, ◌<◌, ◌≡◌, refl, arith}
use Prim.Native.Nat.{digits, differ, bit_xor, bit_xor-bitwise}

abbrev difference : ℕ → ℕ → ℕ → ℕ
difference rounds a b = digits (λ d. d) differ rounds a b

difference_rounds : (k l a b : ℕ) → a ≤ k → a ≤ l → difference k a b ≡ difference l a b
difference_rounds zero zero a b h g = refl
difference_rounds zero (suc l) zero b h g = refl
difference_rounds zero l (suc a) b h g = absurd (omega arith)
difference_rounds (suc k) zero zero b h g = refl
difference_rounds (suc k) zero (suc a) b h g = absurd (omega arith)
difference_rounds (suc k) (suc l) zero b h g = refl
difference_rounds (suc k) (suc l) (suc a) b h g =
    omega (arith, difference_rounds k l (suc a / 2) (b / 2) (omega arith) (omega arith))

differ-zero : (b : ℕ) → differ 0 b ≡ b
differ-zero b = refl

-- The lowest digit of a distance, and the others.
pub bit_xor-halves : (a b : ℕ) → bit_xor a b ≡ 2 * bit_xor (a / 2) (b / 2) + differ (a % 2) (b % 2)
bit_xor-halves zero b =
    omega (arith, bit_xor-bitwise 0 b, bit_xor-bitwise 0 (b / 2), differ-zero (b % 2))
bit_xor-halves (suc a) b = omega (
  arith,
  bit_xor-bitwise (suc a) b,
  bit_xor-bitwise (suc a / 2) (b / 2),
  difference_rounds a (suc a / 2) (suc a / 2) (b / 2) (omega arith) (omega arith),
)

differ_comm : (x y : ℕ) → x < 2 → y < 2 → differ x y ≡ differ y x
differ_comm zero zero h k = refl
differ_comm zero (suc zero) h k = refl
differ_comm (suc zero) zero h k = refl
differ_comm (suc zero) (suc zero) h k = refl
differ_comm (suc (suc x)) y h k = absurd (omega arith)
differ_comm zero (suc (suc y)) h k = absurd (omega arith)
differ_comm (suc zero) (suc (suc y)) h k = absurd (omega arith)

differ_cancel : (x y z : ℕ) → x < 2 → y < 2 → z < 2 → differ x y ≡ differ x z → y ≡ z
differ_cancel zero y z h k l e = e
differ_cancel (suc zero) zero zero h k l e = refl
differ_cancel (suc zero) zero (suc zero) h k l e = absurd (omega arith)
differ_cancel (suc zero) (suc zero) zero h k l e = absurd (omega arith)
differ_cancel (suc zero) (suc zero) (suc zero) h k l e = refl
differ_cancel (suc (suc x)) y z h k l e = absurd (omega arith)
differ_cancel (suc zero) (suc (suc y)) z h k l e = absurd (omega arith)
differ_cancel (suc zero) zero (suc (suc z)) h k l e = absurd (omega arith)
differ_cancel (suc zero) (suc zero) (suc (suc z)) h k l e = absurd (omega arith)

differ_bit : (x y : ℕ) → x < 2 → y < 2 → differ x y < 2
differ_bit zero y h k = k
differ_bit (suc x) zero h k = h
differ_bit (suc x) (suc y) h k = differ_bit x y (omega arith) (omega arith)

xor_comm_below : (n a b : ℕ) → a < n → b < n → bit_xor a b ≡ bit_xor b a
xor_comm_below zero a b h k = absurd (omega arith)
xor_comm_below (suc zero) a b h k =
    let none_left : a ≡ 0 = omega arith in
    let none_right : b ≡ 0 = omega arith in rw (none_left, none_right) refl
xor_comm_below (suc (suc n)) a b h k = omega (
  arith,
  bit_xor-halves a b,
  bit_xor-halves b a,
  xor_comm_below (suc n) (a / 2) (b / 2) (omega arith) (omega arith),
  differ_comm (a % 2) (b % 2) (omega arith) (omega arith),
)

pub bit_xor_comm : (a b : ℕ) → bit_xor a b ≡ bit_xor b a
bit_xor_comm a b = xor_comm_below (suc (a + b)) a b (omega arith) (omega arith)

xor_cancel_below : (n a b c : ℕ) → b < n → c < n → bit_xor a b ≡ bit_xor a c → b ≡ c
xor_cancel_below zero a b c h k e = absurd (omega arith)
xor_cancel_below (suc zero) a b c h k e = omega arith
xor_cancel_below (suc (suc n)) a b c h k e =
    let left = differ_bit (a % 2) (b % 2) (omega arith) (omega arith) in
    let right = differ_bit (a % 2) (c % 2) (omega arith) (omega arith) in
    let high : bit_xor (a / 2) (b / 2) ≡ bit_xor (a / 2) (c / 2) =
      omega (arith, bit_xor-halves a b, bit_xor-halves a c, left, right) in
    let low : differ (a % 2) (b % 2) ≡ differ (a % 2) (c % 2) =
      omega (arith, bit_xor-halves a b, bit_xor-halves a c, left, right) in
    omega (
      arith,
      xor_cancel_below (suc n) (a / 2) (b / 2) (c / 2) (omega arith) (omega arith) high,
      differ_cancel (a % 2) (b % 2) (c % 2) (omega arith) (omega arith) (omega arith) low,
    )

-- Nodes of one distance are one node.
pub bit_xor_cancel : (a b c : ℕ) → bit_xor a b ≡ bit_xor a c → b ≡ c
bit_xor_cancel a b c e = xor_cancel_below (suc (b + c)) a b c (omega arith) (omega arith) e
