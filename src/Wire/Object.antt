-- ===== src/Wire/Object.antt =====
-- kira-r2kad/src/domain/protocol_message/wire/protocol_object.rs: the type of a payload object and its byte.
use kira_rust.Prelude.{ℕ, ◌≡◌, refl, Bool, true, false, arith, ◌==◌, if◌then◌else◌}

pub data ProtocolObjectType : Type 0 where
  source_route not_via_list contact_list rtable_request : ProtocolObjectType
  rtable rtable_update_info error_data store_req_data : ProtocolObjectType
  store_rsp_data fetch_req_data fetch_rsp_data : ProtocolObjectType
  other_type : ℕ → ProtocolObjectType

unfoldable pub from_u8 : ℕ → ProtocolObjectType
from_u8 value =
    if value == 0x1
    then source_route
    else if value == 0x2
    then not_via_list
    else if value == 0x3
    then contact_list
    else if value == 0x4
    then rtable_request
    else if value == 0x5
    then rtable
    else if value == 0x6
    then rtable_update_info
    else if value == 0x7
    then error_data
    else if value == 0x80
    then store_req_data
    else if value == 0x81
    then store_rsp_data
    else if value == 0x82
    then fetch_req_data
    else if value == 0x83
    then fetch_rsp_data
    else other_type value

unfoldable pub to_u8 : ProtocolObjectType → ℕ
to_u8 source_route = 0x1
to_u8 not_via_list = 0x2
to_u8 contact_list = 0x3
to_u8 rtable_request = 0x4
to_u8 rtable = 0x5
to_u8 rtable_update_info = 0x6
to_u8 error_data = 0x7
to_u8 store_req_data = 0x80
to_u8 store_rsp_data = 0x81
to_u8 fetch_req_data = 0x82
to_u8 fetch_rsp_data = 0x83
to_u8 (other_type byte) = byte

-- The header before a payload object.
pub record CommonObjectHeader : Type 0 where
  pub object_type : ProtocolObjectType
  pub object_length : ℕ

-- Whether the type has a byte of its own.
abbrev pub is_named : ProtocolObjectType → Bool
is_named source_route = true
is_named not_via_list = true
is_named contact_list = true
is_named rtable_request = true
is_named rtable = true
is_named rtable_update_info = true
is_named error_data = true
is_named store_req_data = true
is_named store_rsp_data = true
is_named fetch_req_data = true
is_named fetch_rsp_data = true
is_named (other_type byte) = false

from_u8_named :
    (object_type : ProtocolObjectType)
    → is_named object_type ≡ true
    → from_u8 (to_u8 object_type) ≡ object_type
unfolding to_u8 from_u8
from_u8_named source_route h = refl
from_u8_named not_via_list h = refl
from_u8_named contact_list h = refl
from_u8_named rtable_request h = refl
from_u8_named rtable h = refl
from_u8_named rtable_update_info h = refl
from_u8_named error_data h = refl
from_u8_named store_req_data h = refl
from_u8_named store_rsp_data h = refl
from_u8_named fetch_req_data h = refl
from_u8_named fetch_rsp_data h = refl
from_u8_named (other_type byte) h = absurd (ground arith)

-- Every byte is the byte of the type that is read from it, and a type with a byte of its own is read from it.
pub object_bytes :
    (n : ℕ) (object_type : ProtocolObjectType)
    → is_named object_type ≡ true
    → (to_u8 (from_u8 n) ≡ n) × (from_u8 (to_u8 object_type) ≡ object_type)
unfolding to_u8 from_u8
object_bytes n object_type h = (ground arith, from_u8_named object_type h)
