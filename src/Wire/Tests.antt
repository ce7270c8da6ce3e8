-- ===== src/Wire/Tests.antt =====
-- Kinds, object types and lengths at concrete messages.
use kira_rust.Prelude.{◌+◌, ◌≤◌, ◌<◌, ◌≡◌, refl, ◌⊎◌, none, [], ◌∷◌, arith, returns, panics}
use kira_rust.StateSeqNr.{invalid}
use kira_rust.Wire.Kind.{probe_req, from_u8, to_u8, to_u8-from_u8}
use kira_rust.Wire.Header.{CommonHeader, new, u16_max, add_all, add_all_lem}
use kira_rust.Wire.Object
use kira_rust.Wire.Object.{object_bytes}

to_u8-from_u8_example : (to_u8 (from_u8 0x70) ≡ 0x70) × (from_u8 (to_u8 probe_req) ≡ probe_req)
to_u8-from_u8_example = to_u8-from_u8 0x70 probe_req refl

object_bytes_example :
    (Object.to_u8 (Object.from_u8 0x99) ≡ 0x99)
    × (Object.from_u8 (Object.to_u8 Object.error_data) ≡ Object.error_data)
object_bytes_example = object_bytes 0x99 Object.error_data refl

abbrev header : CommonHeader
header = new 9 probe_req 1 2 none invalid 70_000

add_all_example :
    ((header.msg_length + 120 ≤ u16_max)
      × (add_all header (20 ∷ 100 ∷ [])
          ≡ returns (record header { msg_length = header.msg_length + 120 })))
    ⊎ ((u16_max < header.msg_length + 120) × (add_all header (20 ∷ 100 ∷ []) ≡ panics))
unfolding new
add_all_example = add_all_lem header (20 ∷ 100 ∷ []) (omega arith) refl
