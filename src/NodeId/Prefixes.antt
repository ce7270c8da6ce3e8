-- ===== src/NodeId/Prefixes.antt =====
-- Shared prefixes of node identifiers, and the order of the prefixes and the distances.
use kira_rust.Prelude.{
  ℕ, ◌-◌, ◌/◌, ◌^◌, ◌≤◌, ◌<◌, dec_le, ℕ_discrete, ◌≡◌, refl, ap, arith, returns, ok, err, cmp,
}
use Prim.Native.Nat.{bit_xor}
use kira_rust.NodeId.{
  bit_length, leading_zeros, u128_leading_zeros, SharedPrefix, invalid_grouping, shared_prefix_len,
  cmp_prefix,
}
use kira_rust.NodeId.Bits.{bit_xor_self, bit_xor_bound, bit_length_mono, bit_length_bound, div_mono}

abbrev pub IsId : ℕ → Type 0
IsId id = id < 2 ^ 112

leading_zeros_lem : (id : ℕ) → IsId id → leading_zeros id ≡ returns (112 - bit_length 128 id)
unfolding leading_zeros u128_leading_zeros
leading_zeros_lem id h = ground (arith, bit_length_bound 128 112 id h)

zeros_of_zero : bit_length 128 0 ≡ 0
unfolding bit_length
zeros_of_zero = refl

-- What a shared prefix is, also for equal identifiers.
abbrev pub prefix_of : ℕ → ℕ → ℕ → SharedPrefix
prefix_of id other group = record {
  xor = bit_xor id other;
  length_in_groups = (112 - bit_length 128 (bit_xor id other)) / group;
}

pub shared_prefix_len_lem :
    (id other group : ℕ)
    → IsId id
    → IsId other
    → group ≤ 112
    → shared_prefix_len id other group ≡ returns (ok (prefix_of id other group))
unfolding shared_prefix_len
shared_prefix_len_lem id other group v w h = elim (ℕ_discrete id other) [
  | yes e ↦ ground (arith, e, bit_xor_self id, zeros_of_zero, ap (bit_xor id) e)
  | no e ↦ ground (arith, leading_zeros_lem (bit_xor id other) (bit_xor_bound 112 id other v w))
]

-- Lengths that go down as the distances go up give the order of the distances.
cmp_prefix-antitone :
    (p q : SharedPrefix)
    → (p.xor ≤ q.xor → q.length_in_groups ≤ p.length_in_groups)
    → (q.xor ≤ p.xor → p.length_in_groups ≤ q.length_in_groups)
    → cmp_prefix p q ≡ cmp p.xor q.xor
unfolding cmp_prefix
cmp_prefix-antitone p q f g = elim (dec_le p.xor q.xor) [
  | yes h ↦ ground (arith, f h, g)
  | no h ↦ ground (arith, g (omega arith))
]

pub longer_if_closer :
    (group x y : ℕ)
    → 0 < group
    → x ≤ y
    → (112 - bit_length 128 y) / group ≤ (112 - bit_length 128 x) / group
longer_if_closer group x y h k =
    div_mono group (112 - bit_length 128 y) (112 - bit_length 128 x) h
      (omega (arith, bit_length_mono 128 x y k))

-- Whatever the size of the groups is, the order of the shared prefixes of a target with two other nodes is
-- the order of their exclusive-or distances to it: grouping changes no comparison. No call panics.
pub cmp_prefix-xor :
    (target id other group : ℕ)
    → IsId target
    → IsId id
    → IsId other
    → 0 < group
    → group ≤ 112
    → (p q : SharedPrefix) × (shared_prefix_len target id group ≡ returns (ok p))
      × (shared_prefix_len target other group ≡ returns (ok q))
      × (cmp_prefix p q ≡ cmp (bit_xor target id) (bit_xor target other))
cmp_prefix-xor target id other group u v w pos h = (
  prefix_of target id group,
  prefix_of target other group,
  shared_prefix_len_lem target id group u v h,
  shared_prefix_len_lem target other group u w h,
  cmp_prefix-antitone (prefix_of target id group) (prefix_of target other group)
      (longer_if_closer group (bit_xor target id) (bit_xor target other) pos)
      (longer_if_closer group (bit_xor target other) (bit_xor target id) pos),
)

-- An identifier shares all its groups with itself.
pub shared_prefix_len_self :
    (id group : ℕ)
    → IsId id
    → group ≤ 112
    → (p : SharedPrefix) × (shared_prefix_len id id group ≡ returns (ok p))
      × (p.xor ≡ 0)
      × (p.length_in_groups ≡ 112 / group)
shared_prefix_len_self id group v h = (
  prefix_of id id group,
  shared_prefix_len_lem id id group v v h,
  bit_xor_self id,
  rw (bit_xor_self id, zeros_of_zero) refl,
)

-- A group size beyond the identifier is refused.
pub shared_prefix_len_refused :
    (id other group : ℕ)
    → 112 < group
    → shared_prefix_len id other group ≡ returns (err (invalid_grouping group))
unfolding shared_prefix_len
shared_prefix_len_refused id other group h = ground arith
