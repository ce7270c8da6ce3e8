-- ===== src/NodeId.antt =====
-- kira-r2kad/src/domain/node_id.rs: node identifiers, their distance and their shared prefixes.
-- A `NodeId` wraps a `u128`, of which it uses 112 bits; it is that number.
mod Tests
pub mod Bytes
pub mod Prefixes
pub mod Bits
pub mod Masks
pub mod Distance
use kira_rust.Prelude.{
  ℕ, zero, suc, ◌+◌, ◌-◌, ◌*◌, ◌/◌, ◌%◌, ◌^◌, ◌≤◌, ◌<◌, min, max, dec_lt, dec_le, ℕ_discrete, ◌≡◌,
  refl, sym, ap, ◌∙◌, subst, ◌≢◌, ◌↔◌, ◌⊎◌, inl, inr, Bool, true, false, ◌&&◌, ◌||◌, not, Option,
  none, some, List, [], ◌∷◌, ◌++◌, map, arith, ltb, leb, ◌==◌, if◌then◌else◌, is_some, ltb→lt,
  lt→ltb, ==→eq, ==_self, ==_ne, Bool-cases, Option-cases, length, get_elem?, take, drop,
  length-append, length-drop-le, take-length_append, drop-length_append, contains, contains-append,
  length-take, length-drop, take-append-drop, get_elem?-inside, get_elem?-outside, Outcome,
  Outcome-cases, returns, panics, Result, ok, err, ◌>>=◌, ◌>>◌, assert, expect, Ordering, less,
  equal, greater, cmp, flip,
}
use Prim.Native.Nat.{bit_xor, bit_and}

abbrev pub node_bits : ℕ
node_bits = 112

abbrev pub max_uval : ℕ
max_uval = 0x0000ffffffffffffffffffffffffffff

abbrev pub undefined_id : ℕ
undefined_id = 0

abbrev pub all_nodes : ℕ
all_nodes = max_uval

-- The loop of `random` over the generated 128-bit numbers, of which the generator gives a list here; the
-- mask comes after the test.
unfoldable pub random : List ℕ → Option ℕ
random [] = none
random (inner ∷ more) =
    let next = random more in
    if inner == undefined_id || inner == all_nodes then next else some (bit_and inner max_uval)

unfoldable pub with_lsb : ℕ → ℕ
with_lsb lsb = lsb

unfoldable pub with_msb : ℕ → ℕ
with_msb msb = msb * 2 ^ (node_bits - 8)

-- The number of digits of a binary number below `2 ^ fuel`.
unfoldable pub bit_length : ℕ → ℕ → ℕ
bit_length zero x = 0
bit_length (suc fuel) x = let rest = bit_length fuel (x / 2) in if x == 0 then 0 else suc rest

-- `u128::leading_zeros`, of the standard library.
unfoldable pub u128_leading_zeros : ℕ → ℕ
u128_leading_zeros x = 128 - bit_length 128 x

-- `ignore_bits` of the `u128` are not part of the identifier.
unfoldable pub leading_zeros : ℕ → Outcome ℕ
leading_zeros id =
    let lz = u128_leading_zeros id in
    let ignore_bits = 128 - node_bits in
    if leb ignore_bits lz then returns (lz - ignore_bits) else panics

pub data BitIndexOutOfBounds : Type 0 where
  bit_index_out_of_bounds : BitIndexOutOfBounds

unfoldable pub bit : ℕ → ℕ → Result ℕ BitIndexOutOfBounds
bit id bit_index =
    if leb node_bits bit_index
    then err bit_index_out_of_bounds
    else ok (if bit_and id (2 ^ bit_index) == 0 then 0 else 1)

-- The mask of `bits`: the shifts of a `u128` to the left drop the high bits.
unfoldable pub bits_mask : ℕ → ℕ → ℕ
bits_mask from_bit_index num_bits =
    let mask = max_uval / 2 ^ from_bit_index * 2 ^ from_bit_index % 2 ^ 128 in
    let unused = 128 - (from_bit_index + num_bits) in mask * 2 ^ unused % 2 ^ 128 / 2 ^ unused

-- The index and the number are a `u8`, whose sum is checked.
unfoldable pub bits : ℕ → ℕ → ℕ → Outcome (Result ℕ BitIndexOutOfBounds)
unfolding bits_mask
bits id from_bit_index num_bits =
    if ltb 255 (from_bit_index + num_bits)
    then panics
    else if ltb node_bits (from_bit_index + num_bits)
    then returns (err bit_index_out_of_bounds)
    else returns (ok (bit_and id (bits_mask from_bit_index num_bits) / 2 ^ from_bit_index))

-- The subtraction on `u8` is checked.
unfoldable pub prefix : ℕ → ℕ → Outcome ℕ
prefix id prefix_len =
    if ltb node_bits prefix_len
    then panics
    else let rest = node_bits - prefix_len in
      returns (bit_and id (max_uval / 2 ^ rest * 2 ^ rest % 2 ^ 128))

pub record SharedPrefix : Type 0 where
  pub xor : ℕ
  pub length_in_groups : ℕ

pub data GroupingError : Type 0 where
  invalid_grouping : ℕ → GroupingError

unfoldable pub shared_prefix_len : ℕ → ℕ → ℕ → Outcome (Result SharedPrefix GroupingError)
shared_prefix_len id other bits_per_group =
    if ltb node_bits bits_per_group
    then returns (err (invalid_grouping bits_per_group))
    else let xor = bit_xor id other in
      if id == other
      then returns (ok (record { xor = xor; length_in_groups = node_bits / bits_per_group }))
      else do
        lz ← leading_zeros xor
        returns (ok (record { xor = xor; length_in_groups = lz / bits_per_group }))

unfoldable pub shared_prefix_bits : ℕ → ℕ → Outcome SharedPrefix
unfolding shared_prefix_len
shared_prefix_bits id other = do
  result ← shared_prefix_len id other 1
  elim result [ ok prefix ↦ returns prefix | err e ↦ panics ]

-- `SharedPrefix::cmp`: a longer prefix is closer, that is, less.
unfoldable pub cmp_prefix : SharedPrefix → SharedPrefix → Ordering
cmp_prefix p q = elim (cmp p.length_in_groups q.length_in_groups) [
  | equal ↦ cmp p.xor q.xor
  | less ↦ greater
  | greater ↦ less
]

pub record NodeIdSubnet : Type 0 where
  pub node_id : ℕ
  pub prefix_length : ℕ

pub data PrefixLengthError : Type 0 where
  prefix_length_error : PrefixLengthError

unfoldable pub try_new_subnet : ℕ → ℕ → Result NodeIdSubnet PrefixLengthError
try_new_subnet node_id prefix_length =
    if leb prefix_length node_bits
    then ok (record { node_id = node_id; prefix_length = prefix_length })
    else err prefix_length_error

unfoldable pub new_subnet : ℕ → NodeIdSubnet
new_subnet node_id = record { node_id = node_id; prefix_length = 0 }

unfoldable pub ipv6_subnet_prefix_length : NodeIdSubnet → ℕ
ipv6_subnet_prefix_length s =
    if s.prefix_length == 0 then 128 else 128 - node_bits + s.prefix_length

-- `u128::to_be_bytes` for `count` bytes, and `u128::from_be_bytes`, of the standard library.
unfoldable pub be_bytes : ℕ → ℕ → List ℕ
be_bytes zero x = []
be_bytes (suc count) x = be_bytes count (x / 256) ++ x % 256 ∷ []

unfoldable pub from_be_bytes : ℕ → List ℕ → ℕ
from_be_bytes high [] = high
from_be_bytes high (b ∷ bytes) = from_be_bytes (high * 256 + b) bytes

unfoldable pub to_be_bytes : ℕ → List ℕ
to_be_bytes id = drop 2 (be_bytes 16 id)

-- `NodeId::from([u8; 14])`.
unfoldable pub from_bytes : List ℕ → ℕ
from_bytes bytearray = from_be_bytes 0 (0 ∷ 0 ∷ bytearray)

-- The bytes that `Serialize` writes: without leading zero bytes.
unfoldable pub serialize : ℕ → List ℕ
serialize id = drop (u128_leading_zeros id / 8) (be_bytes 16 id)

abbrev pub zeros : ℕ → List ℕ
zeros zero = []
zeros (suc count) = 0 ∷ zeros count

-- `none` is the error of too many bytes.
unfoldable pub visit_bytes : List ℕ → Option ℕ
visit_bytes v =
    if leb (length v) 14 then some (from_be_bytes 0 (zeros (16 - length v) ++ v)) else none
