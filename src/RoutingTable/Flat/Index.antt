-- ===== src/RoutingTable/Flat/Index.antt =====
-- The index of a bucket is found for all identifiers: no assertion on the digits of the distance fails.
use kira_rust.Prelude.{
  ℕ, zero, suc, ◌+◌, ◌-◌, ◌*◌, ◌/◌, ◌%◌, ◌^◌, ◌≤◌, ◌<◌, dec_lt, ◌≡◌, ap, ◌∙◌, Option, none, some,
  arith, returns, ok,
}
use Prim.Native.Nat.{bit_xor}
use native.Mathlib.Nat.{
  div-lt_iff_lt-mul, le-div_iff_mul-le, mod-eq_of_lt, div-eq_of_lt, div-mul-le_self, lt-div-mul-add,
  one-le-pow, mul-le-mul_right, zero-mod,
}
use kira_rust.NodeId.{bits, bit_length}
use kira_rust.NodeId.Bits.{bit_xor_bound, bit_length_bound, bit_length-lt, pow-add}
use kira_rust.NodeId.Masks.{bits_lem}
use kira_rust.NodeId.Prefixes.{IsId, shared_prefix_len_lem}
use kira_rust.RoutingTable.Flat.{position, index_of_distance, level_width, max_buckets}

one_group : (len acc : ℕ) → 0 < len * acc → acc ≤ len * acc
one_group zero acc h = absurd (omega arith)
one_group (suc len) acc h = omega arith

-- The digits of a distance with `len` leading groups of zeros, below the next one.
module _ (acc len x : ℕ) (pos : 0 < acc) (fits : (len + 1) * acc ≤ 112)
    (above : x < 2 ^ (112 - len * acc)) (below : 2 ^ (112 - (len + 1) * acc) ≤ x) where
  abbrev low : ℕ
  low = 112 - (len + 1) * acc

  groups : (len + 1) * acc ≡ len * acc + acc
  groups = omega arith

  top : low + acc ≡ 112 - len * acc
  top = omega (arith, groups, fits)

  digit_small : x / 2 ^ low < 2 ^ acc
  digit_small =
      (div-lt_iff_lt-mul (omega (arith, one-le-pow low 2))).1 (rw (← pow-add low acc, top) above)

  digit_is : x / 2 ^ low % 2 ^ acc ≡ x / 2 ^ low
  digit_is = mod-eq_of_lt digit_small

  digit-pos : 1 ≤ x / 2 ^ low
  digit-pos = (le-div_iff_mul-le (omega (arith, one-le-pow low 2))).1 (omega (arith, below))

  upper_bits : low + acc < 112 → bits x (low + acc) acc ≡ returns (ok 0)
  upper_bits h =
      let none_above : x / 2 ^ (low + acc) ≡ 0 = div-eq_of_lt (rw top above) in
      let room : low + acc + acc ≤ 112 =
        omega (arith, top, groups, one_group len acc (omega (arith, top))) in
      bits_lem x (low + acc) acc room
      ∙ rw none_above (ap (λ d. returns (ok d)) (zero-mod (2 ^ acc)))

  digit_bits : bits x low acc ≡ returns (ok (x / 2 ^ low))
  digit_bits = bits_lem x low acc (omega (arith, top)) ∙ ap (λ d. returns (ok d)) digit_is

  levels : (len + 1) * level_width acc ≤ max_buckets acc
  levels = mul-le-mul_right (level_width acc) ((le-div_iff_mul-le pos).1 fits)

  index_lem :
      (i : ℕ) × (index_of_distance acc (record { xor = x; length_in_groups = len })
        ≡ returns (some i))
      × (i < max_buckets acc)
  unfolding index_of_distance
  index_lem = (
    len * level_width acc + (level_width acc - x / 2 ^ low),
    ground (arith, digit_bits, upper_bits, levels, digit-pos, digit_small, groups, top),
    omega (arith, levels, digit-pos, digit_small),
  )

module _ (acc x : ℕ) (pos : 0 < acc) (small : acc ≤ 112) (id : x < 2 ^ 112) where
  abbrev zeros_ahead : ℕ
  zeros_ahead = 112 - bit_length 128 x

  abbrev leading : ℕ
  leading = zeros_ahead / acc

  leading-le : leading * acc ≤ zeros_ahead
  leading-le = div-mul-le_self zeros_ahead acc

  leading-lt : zeros_ahead < leading * acc + acc
  leading-lt = lt-div-mul-add pos

  next_group : (leading + 1) * acc ≡ leading * acc + acc
  next_group = omega arith

  found_index :
      (place : Option ℕ) × (index_of_distance acc (record { xor = x; length_in_groups = leading })
        ≡ returns place)
  unfolding index_of_distance
  found_index = elim (dec_lt 112 ((leading + 1) * acc)) [
    | yes h ↦ (none, ground (arith, leading-le, next_group))
    | no h ↦
        let bound : bit_length 128 x ≤ 112 = bit_length_bound 128 112 x id in
        let above : x < 2 ^ (112 - leading * acc) =
          bit_length-lt 128 (112 - leading * acc) x (omega arith) (omega (arith, leading-le)) in
        let below : 2 ^ (112 - (leading + 1) * acc) ≤ x =
          elim (dec_lt x (2 ^ (112 - (leading + 1) * acc))) [
            | no k ↦ omega arith
            | yes k ↦ absurd (
                omega (
                  arith,
                  bit_length_bound 128 (112 - (leading + 1) * acc) x k,
                  leading-lt,
                  next_group,
                ))
          ] in
        let (i, e, k) = index_lem acc leading x pos (omega arith) above below in (some i, e)
  ]

-- The position of every node is found: no assertion and no checked arithmetic of the index fails.
pub position_total :
    (acc root id : ℕ)
    → IsId root
    → IsId id
    → 0 < acc
    → acc ≤ 112
    → (place : Option ℕ) × (position acc root id ≡ returns place)
unfolding position
position_total acc root id v w pos h =
    rw (shared_prefix_len_lem root id acc v w h)
      (found_index acc (bit_xor root id) pos h (bit_xor_bound 112 root id v w))
