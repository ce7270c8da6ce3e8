-- ===== src/Wire/Kind.antt =====
-- kira-r2kad/src/domain/protocol_message/wire/protocol_message_kind.rs: the kind of a message and its byte.
use kira_rust.Prelude.{ℕ, ◌≡◌, refl, Bool, true, false, arith, ◌==◌, if◌then◌else◌}

pub data ProtocolMessageKind : Type 0 where
  uln_hello uln_disc_req uln_disc_rsp find_node_req : ProtocolMessageKind
  find_node_rsp query_route_req query_route_rsp update_route_req : ProtocolMessageKind
  probe_req probe_rsp error_msg path_setup_req : ProtocolMessageKind
  path_setup_rsp path_teardown_req store_req store_rsp : ProtocolMessageKind
  fetch_req fetch_rsp : ProtocolMessageKind
  other : ℕ → ProtocolMessageKind

unfoldable pub from_u8 : ℕ → ProtocolMessageKind
from_u8 raw_kind =
    if raw_kind == 0x1
    then uln_hello
    else if raw_kind == 0x3
    then uln_disc_req
    else if raw_kind == 0x4
    then uln_disc_rsp
    else if raw_kind == 0x9
    then find_node_req
    else if raw_kind == 0xa
    then find_node_rsp
    else if raw_kind == 0xb
    then query_route_req
    else if raw_kind == 0xc
    then query_route_rsp
    else if raw_kind == 0x11
    then update_route_req
    else if raw_kind == 0x21
    then probe_req
    else if raw_kind == 0x22
    then probe_rsp
    else if raw_kind == 0x70
    then error_msg
    else if raw_kind == 0x81
    then path_setup_req
    else if raw_kind == 0x82
    then path_setup_rsp
    else if raw_kind == 0x83
    then path_teardown_req
    else if raw_kind == 0xa1
    then store_req
    else if raw_kind == 0xa2
    then store_rsp
    else if raw_kind == 0xa3
    then fetch_req
    else if raw_kind == 0xa4
    then fetch_rsp
    else other raw_kind

unfoldable pub to_u8 : ProtocolMessageKind → ℕ
to_u8 uln_hello = 0x1
to_u8 uln_disc_req = 0x3
to_u8 uln_disc_rsp = 0x4
to_u8 find_node_req = 0x9
to_u8 find_node_rsp = 0xa
to_u8 query_route_req = 0xb
to_u8 query_route_rsp = 0xc
to_u8 update_route_req = 0x11
to_u8 probe_req = 0x21
to_u8 probe_rsp = 0x22
to_u8 error_msg = 0x70
to_u8 path_setup_req = 0x81
to_u8 path_setup_rsp = 0x82
to_u8 path_teardown_req = 0x83
to_u8 store_req = 0xa1
to_u8 store_rsp = 0xa2
to_u8 fetch_req = 0xa3
to_u8 fetch_rsp = 0xa4
to_u8 (other byte) = byte

-- Whether the kind has a byte of its own.
abbrev pub is_named : ProtocolMessageKind → Bool
is_named uln_hello = true
is_named uln_disc_req = true
is_named uln_disc_rsp = true
is_named find_node_req = true
is_named find_node_rsp = true
is_named query_route_req = true
is_named query_route_rsp = true
is_named update_route_req = true
is_named probe_req = true
is_named probe_rsp = true
is_named error_msg = true
is_named path_setup_req = true
is_named path_setup_rsp = true
is_named path_teardown_req = true
is_named store_req = true
is_named store_rsp = true
is_named fetch_req = true
is_named fetch_rsp = true
is_named (other byte) = false

from_u8_named : (kind : ProtocolMessageKind) → is_named kind ≡ true → from_u8 (to_u8 kind) ≡ kind
unfolding to_u8 from_u8
from_u8_named uln_hello h = refl
from_u8_named uln_disc_req h = refl
from_u8_named uln_disc_rsp h = refl
from_u8_named find_node_req h = refl
from_u8_named find_node_rsp h = refl
from_u8_named query_route_req h = refl
from_u8_named query_route_rsp h = refl
from_u8_named update_route_req h = refl
from_u8_named probe_req h = refl
from_u8_named probe_rsp h = refl
from_u8_named error_msg h = refl
from_u8_named path_setup_req h = refl
from_u8_named path_setup_rsp h = refl
from_u8_named path_teardown_req h = refl
from_u8_named store_req h = refl
from_u8_named store_rsp h = refl
from_u8_named fetch_req h = refl
from_u8_named fetch_rsp h = refl
from_u8_named (other byte) h = absurd (ground arith)

-- Every byte is the byte of the kind that is read from it, and a kind with a byte of its own is read from it.
pub to_u8-from_u8 :
    (n : ℕ) (kind : ProtocolMessageKind)
    → is_named kind ≡ true
    → (to_u8 (from_u8 n) ≡ n) × (from_u8 (to_u8 kind) ≡ kind)
unfolding to_u8 from_u8
to_u8-from_u8 n kind h = (ground arith, from_u8_named kind h)
