-- ===== src/Wire/Header.antt =====
-- kira-r2kad/src/domain/protocol_message/wire/common_header.rs: the header of every message.
use kira_rust.Prelude.{
  ℕ, ◌+◌, ◌-◌, ◌%◌, ◌^◌, ◌≤◌, ◌<◌, min, dec_le, ◌≡◌, refl, ap, ◌∙◌, ◌⊎◌, inl, inr, Bool, true, ◌&&◌,
  Option, none, some, List, [], ◌∷◌, arith, ltb, leb, if◌then◌else◌, Outcome, returns, panics,
  ◌>>=◌,
}
use kira_rust.StateSeqNr.{StateSeqNr}
use kira_rust.Wire.Kind.{ProtocolMessageKind}

abbrev pub u16_max : ℕ
u16_max = 2 ^ 16 - 1

-- The flags are their bits. A nonce is a 64-bit number.
pub record CommonHeader : Type 0 where
  pub version : ℕ
  pub msg_type : ProtocolMessageKind
  pub msg_flags : ℕ
  pub msg_length : ℕ
  pub dest_id : ℕ
  pub src_node_id : ℕ
  pub domain_id : ℕ
  pub msg_id : ℕ
  pub state_seq_num : StateSeqNr
  pub src_node_degree : ℕ

-- The generated nonce is an argument.
abbrev msg_id_or : ℕ → Option ℕ → ℕ
msg_id_or random none = random
msg_id_or random (some msg_id) = msg_id

unfoldable pub new : ℕ → ProtocolMessageKind → ℕ → ℕ → Option ℕ → StateSeqNr → ℕ → CommonHeader
new random msg_type src dst msgid state_seq_num src_node_degree = record {
  version = 0;
  msg_type = msg_type;
  msg_flags = 0;
  msg_length = 1 + 1 + 1 + 2 + 14 + 14 + 8 + 8 + 4 + 2;
  dest_id = dst;
  src_node_id = src;
  domain_id = 0;
  msg_id = msg_id_or random msgid;
  state_seq_num = state_seq_num;
  src_node_degree = if ltb src_node_degree u16_max then src_node_degree % 2 ^ 16 else u16_max;
}

unfoldable pub set_msg_length : CommonHeader → ℕ → CommonHeader
set_msg_length h msg_len = record h { msg_length = msg_len }

-- The subtraction cannot go below zero, since `msg_len` is a `u16`.
unfoldable pub add_to_msg_length : CommonHeader → ℕ → Outcome CommonHeader
add_to_msg_length h msg_len =
    if leb h.msg_length (u16_max - msg_len)
    then returns (record h { msg_length = h.msg_length + msg_len })
    else panics

-- The lengths of the objects of a message, added one by one.
unfoldable pub add_all : CommonHeader → List ℕ → Outcome CommonHeader
unfolding add_to_msg_length
add_all h [] = returns h
add_all h (len ∷ lens) = do h' ← add_to_msg_length h len; add_all h' lens

abbrev pub total : List ℕ → ℕ
total [] = 0
total (len ∷ lens) = len + total lens

abbrev pub all_u16 : List ℕ → Bool
all_u16 [] = true
all_u16 (len ∷ lens) = leb len u16_max && all_u16 lens

-- A header stores the number of its neighbors up to the largest `u16`, and its own length.
pub new_bounds :
    (random : ℕ) (kind : ProtocolMessageKind) (src dst : ℕ) (msgid : Option ℕ) (ssn : StateSeqNr)
    (degree : ℕ)
    → ((new random kind src dst msgid ssn degree).src_node_degree ≡ min degree u16_max)
      × ((new random kind src dst msgid ssn degree).msg_length ≡ 55)
unfolding new
new_bounds random kind src dst msgid ssn degree = (ground arith, refl)

add_fits :
    (h : CommonHeader) (len : ℕ)
    → len ≤ u16_max
    → h.msg_length + len ≤ u16_max
    → add_to_msg_length h len ≡ returns (record h { msg_length = h.msg_length + len })
unfolding add_to_msg_length
add_fits h len v w = ground arith

add_overflows :
    (h : CommonHeader) (len : ℕ)
    → len ≤ u16_max
    → u16_max < h.msg_length + len
    → add_to_msg_length h len ≡ panics
unfolding add_to_msg_length
add_overflows h len v w = ground arith

-- The length of a message with its objects never wraps: it is the sum of all lengths if that fits in a
-- `u16`, and else adding them panics.
pub add_all_lem :
    (h : CommonHeader) (lens : List ℕ)
    → h.msg_length ≤ u16_max
    → all_u16 lens ≡ true
    → ((h.msg_length + total lens ≤ u16_max)
        × (add_all h lens ≡ returns (record h { msg_length = h.msg_length + total lens })))
      ⊎ ((u16_max < h.msg_length + total lens) × (add_all h lens ≡ panics))
unfolding add_all
add_all_lem h [] v w =
    inl (omega arith, ap (λ n. returns (record h { msg_length = n })) (omega arith))
add_all_lem h (len ∷ lens) v w = elim (dec_le (h.msg_length + len) u16_max) [
  | no k ↦ inr (
    omega arith,
    ap (λ o. o >>= λ h'. add_all h' lens) (add_overflows h len (ground arith) (omega arith)),
  )
  | yes k ↦
      let next : CommonHeader = record h { msg_length = h.msg_length + len } in
      let first = ap (λ o. o >>= λ h'. add_all h' lens) (add_fits h len (ground arith) k) in
      elim (add_all_lem next lens k (ground arith)) [
        | inl (l, e) ↦
            inl (
              omega arith,
              first ∙ e ∙ ap (λ n. returns (record h { msg_length = n })) (omega arith),
            )
        | inr (l, e) ↦ inr (omega arith, first ∙ e)
      ]
]
