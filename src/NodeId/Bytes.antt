-- ===== src/NodeId/Bytes.antt =====
-- Identifiers as bytes and back.
use kira_rust.Prelude.{
  ℕ, zero, suc, ◌+◌, ◌-◌, ◌*◌, ◌/◌, ◌%◌, ◌^◌, ◌≤◌, ◌<◌, ◌≡◌, refl, ap, ◌∙◌, some, List, [], ◌∷◌,
  ◌++◌, arith, length, drop, length-append,
}
use native.Mathlib.Nat.{pow-suc, pow-le-pow_right}
use kira_rust.NodeId.{
  bit_length, u128_leading_zeros, be_bytes, from_be_bytes, to_be_bytes, from_bytes, serialize,
  zeros, visit_bytes,
}
use kira_rust.NodeId.Bits.{bit_length_bound}
use kira_rust.NodeId.Prefixes.{IsId}

length-be_bytes : (n x : ℕ) → length (be_bytes n x) ≡ n
unfolding be_bytes
length-be_bytes zero x = refl
length-be_bytes (suc n) x =
    omega (arith, length-append (be_bytes n (x / 256)) (x % 256 ∷ []), length-be_bytes n (x / 256))

drop-append : (k : ℕ) (xs ys : List ℕ) → k ≤ length xs → drop k (xs ++ ys) ≡ drop k xs ++ ys
drop-append zero xs ys h = refl
drop-append (suc k) [] ys h = absurd (omega arith)
drop-append (suc k) (x ∷ xs) ys h = drop-append k xs ys (omega arith)

drop-all : (xs : List ℕ) → drop (length xs) xs ≡ []
drop-all [] = refl
drop-all (x ∷ xs) = drop-all xs

-- Leaving out the high bytes leaves the low ones.
drop-be_bytes : (k n m x : ℕ) → m ≡ n + k → drop k (be_bytes m x) ≡ be_bytes n x
unfolding be_bytes
drop-be_bytes k zero m x e =
    ap (λ i. drop i (be_bytes m x)) (omega (arith, length-be_bytes m x)) ∙ drop-all (be_bytes m x)
drop-be_bytes k (suc n) zero x e = absurd (omega arith)
drop-be_bytes k (suc n) (suc m) x e =
    drop-append k (be_bytes m (x / 256)) (x % 256 ∷ []) (omega (arith, length-be_bytes m (x / 256)))
    ∙ ap (λ bytes. bytes ++ x % 256 ∷ []) (drop-be_bytes k n m (x / 256) (omega arith))

from_be_bytes-snoc :
    (high b : ℕ) (bytes : List ℕ)
    → from_be_bytes high (bytes ++ b ∷ []) ≡ from_be_bytes high bytes * 256 + b
unfolding from_be_bytes
from_be_bytes-snoc high b [] = refl
from_be_bytes-snoc high b (c ∷ bytes) = from_be_bytes-snoc (high * 256 + c) b bytes

from_be_bytes-be_bytes : (n x : ℕ) → x < 256 ^ n → from_be_bytes 0 (be_bytes n x) ≡ x
unfolding from_be_bytes be_bytes
from_be_bytes-be_bytes zero x h = omega arith
from_be_bytes-be_bytes (suc n) x h =
    from_be_bytes-snoc 0 (x % 256) (be_bytes n (x / 256))
    ∙ omega (arith, from_be_bytes-be_bytes n (x / 256) (omega (arith, pow-suc 256 n)))

-- The fourteen bytes of an identifier, in network order, give it back.
pub from_bytes-to_be_bytes :
    (id : ℕ) → IsId id → (length (to_be_bytes id) ≡ 14) × (from_bytes (to_be_bytes id) ≡ id)
unfolding from_bytes to_be_bytes from_be_bytes
from_bytes-to_be_bytes id v =
    let low : to_be_bytes id ≡ be_bytes 14 id = drop-be_bytes 2 14 16 id refl in
    (
      ap length low ∙ length-be_bytes 14 id,
      ap (from_be_bytes 0) low ∙ from_be_bytes-be_bytes 14 id (omega arith),
    )

from_be_bytes-zeros :
    (n : ℕ) (bytes : List ℕ) → from_be_bytes 0 (zeros n ++ bytes) ≡ from_be_bytes 0 bytes
unfolding from_be_bytes
from_be_bytes-zeros zero bytes = refl
from_be_bytes-zeros (suc n) bytes = from_be_bytes-zeros n bytes

bit_length_fits : (n x : ℕ) → x < 2 ^ n → x < 2 ^ bit_length n x
unfolding bit_length
bit_length_fits zero x h = h
bit_length_fits (suc n) x h = ground (
  arith,
  bit_length_fits n (x / 2) (omega (arith, pow-suc 2 n)),
  pow-suc 2 (bit_length n (x / 2)),
)

pow_byte : (m : ℕ) → 2 ^ (suc (suc (suc (suc (suc (suc (suc (suc m)))))))) ≡ 256 * 2 ^ m
pow_byte m = omega (
  arith,
  pow-suc 2 m,
  pow-suc 2 (suc m),
  pow-suc 2 (suc (suc m)),
  pow-suc 2 (suc (suc (suc m))),
  pow-suc 2 (suc (suc (suc (suc m)))),
  pow-suc 2 (suc (suc (suc (suc (suc m))))),
  pow-suc 2 (suc (suc (suc (suc (suc (suc m)))))),
  pow-suc 2 (suc (suc (suc (suc (suc (suc (suc m))))))),
)

pow_bytes : (k : ℕ) → 2 ^ (8 * k) ≡ 256 ^ k
pow_bytes zero = refl
pow_bytes (suc k) =
    ap (λ i. 2 ^ i) (eight_more (8 * k) k refl)
    ∙ omega (arith, pow_byte (8 * k), pow-suc 256 k, pow_bytes k)
  where
    eight_more : (m j : ℕ) → m ≡ 8 * j → 8 * suc j ≡ suc (suc (suc (suc (suc (suc (suc (suc m)))))))
    eight_more m j e = omega arith

visit_bytes-be_bytes : (n id : ℕ) → n ≤ 14 → id < 256 ^ n → visit_bytes (be_bytes n id) ≡ some id
unfolding visit_bytes
visit_bytes-be_bytes n id h k = ground (
  arith,
  length-be_bytes n id,
  from_be_bytes-zeros (16 - length (be_bytes n id)) (be_bytes n id),
  from_be_bytes-be_bytes n id k,
)

zeros_bound : (id : ℕ) → u128_leading_zeros id ≤ 128
unfolding u128_leading_zeros
zeros_bound id = omega arith

-- The digits of an identifier fit in the bytes that are left without the leading zero bytes.
serialized_fits : (id : ℕ) → IsId id → id < 256 ^ (16 - u128_leading_zeros id / 8)
unfolding u128_leading_zeros
serialized_fits id v =
    let width = bit_length 128 id in
    let left = 16 - (128 - width) / 8 in
    let narrow : id < 2 ^ width = bit_length_fits 128 id (omega arith) in
    let wide : 2 ^ width ≤ 2 ^ (8 * left) =
      pow-le-pow_right (omega arith) (omega (arith, bit_length_bound 128 112 id v)) in
    omega (arith, pow_bytes left, narrow, wide)

serialized_short : (id : ℕ) → IsId id → 16 - u128_leading_zeros id / 8 ≤ 14
unfolding u128_leading_zeros
serialized_short id v = omega (arith, bit_length_bound 128 112 id v)

-- What is read from the bytes that are written is the identifier: the leading zero bytes that are left out
-- are put back.
pub visit_bytes-serialize : (id : ℕ) → IsId id → visit_bytes (serialize id) ≡ some id
unfolding serialize
visit_bytes-serialize id v =
    let left = 16 - u128_leading_zeros id / 8 in
    ap visit_bytes
      (drop-be_bytes (u128_leading_zeros id / 8) left 16 id (omega (arith, zeros_bound id)))
    ∙ visit_bytes-be_bytes left id (serialized_short id v) (serialized_fits id v)
