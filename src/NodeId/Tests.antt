-- ===== src/NodeId/Tests.antt =====
-- Prefixes, bytes and generated identifiers at concrete numbers.
use kira_rust.Prelude.{◌^◌, ◌≡◌, refl, some, [], ◌∷◌, arith, length, returns, ok, cmp}
use Prim.Native.Nat.{bit_xor}
use kira_rust.NodeId.{
  SharedPrefix, shared_prefix_len, cmp_prefix, random, undefined_id, serialize, visit_bytes,
  to_be_bytes, from_bytes, be_bytes, u128_leading_zeros, bit_length,
}
use kira_rust.NodeId.Prefixes.{cmp_prefix-xor}
use kira_rust.NodeId.Bytes.{visit_bytes-serialize, from_bytes-to_be_bytes}

cmp_prefix-xor_example :
    (p q : SharedPrefix) × (shared_prefix_len 0xff00 0xff0f 4 ≡ returns (ok p))
    × (shared_prefix_len 0xff00 0xf000 4 ≡ returns (ok q))
    × (cmp_prefix p q ≡ cmp (bit_xor 0xff00 0xff0f) (bit_xor 0xff00 0xf000))
cmp_prefix-xor_example =
    cmp_prefix-xor 0xff00 0xff0f 0xf000 4 (omega arith) (omega arith) (omega arith) (omega arith)
      (omega arith)

visit_bytes-serialize_example : visit_bytes (serialize 0x0102ff) ≡ some 0x0102ff
visit_bytes-serialize_example = visit_bytes-serialize 0x0102ff (omega arith)

from_bytes-to_be_bytes_example :
    (length (to_be_bytes 0x0102ff) ≡ 14) × (from_bytes (to_be_bytes 0x0102ff) ≡ 0x0102ff)
from_bytes-to_be_bytes_example = from_bytes-to_be_bytes 0x0102ff (omega arith)

serialized : serialize 0x0102ff ≡ 0x01 ∷ 0x02 ∷ 0xff ∷ []
unfolding serialize be_bytes u128_leading_zeros bit_length
serialized = refl

-- A generated number whose low bits are all zero gives the undefined identifier.
random_undefined : random (2 ^ 112 ∷ []) ≡ some undefined_id
unfolding random
random_undefined = refl
