-- ===== src/Protocol/Message.antt =====
-- Layers 2 and 3 of custom_components/nimly_manager/nimly_ble/protocol.py: `Command`, `Response`
-- and `CommandRefCounter`.
pub mod Laws
use nimly_manager.Base.{
  ℕ, zero, suc, ◌+◌, Bool, true, false, not, List, [], ◌∷◌, ◌++◌, ltb, leb, within, ◌==◌, Bytes,
  length, take, if◌then◌else◌, Option, none, some,
}
use nimly_manager.Base.Result.{Result, ok, err, ◌>>=◌, ◌>>◌, raise_if}
use nimly_manager.Protocol.Packet.{
  Error, bad_ref, command_too_long, response_without_header, response_too_short, to_bytes_or_raise,
}

abbrev pub event_ref : ℕ
event_ref = 0x80

-- CommandId
pub data CommandId : Type 0 where
  exchange_key_pub_m user_auth_begin user_auth_finalize user_auth_update : CommandId
  device_id_set device_id_get device_name_set device_name_get : CommandId
  current_time_get current_time_set server_key_update device_log_get : CommandId
  fingerprint_scan batt_info_get device_model_get : CommandId

unfoldable pub command_code : CommandId → ℕ
command_code exchange_key_pub_m = 0x01
command_code user_auth_begin = 0x22
command_code user_auth_finalize = 0x23
command_code user_auth_update = 0x24
command_code device_id_set = 0x30
command_code device_id_get = 0x31
command_code device_name_set = 0x32
command_code device_name_get = 0x33
command_code current_time_get = 0x40
command_code current_time_set = 0x41
command_code server_key_update = 0x42
command_code device_log_get = 0x44
command_code fingerprint_scan = 0x57
command_code batt_info_get = 0x5d
command_code device_model_get = 0x62

pub record Command : Type 0 where
  pub id : CommandId
  pub ref : ℕ
  pub payload : Bytes

-- Command.to_bytes
unfoldable pub to_bytes : Command → Result Error Bytes
to_bytes c = do
  raise_if (not (within 1 254 c.ref)) bad_ref
  raise_if (ltb 255 (length c.payload)) command_too_long
  header ← to_bytes_or_raise (command_code c.id ∷ length c.payload ∷ c.ref ∷ 0 ∷ [])
  ok (header ++ c.payload)

pub record Response : Type 0 where
  pub id : ℕ
  pub ref : ℕ
  pub status : ℕ
  pub payload : Bytes

-- Response.from_bytes
unfoldable pub from_bytes : Bytes → Result Error Response
from_bytes (id ∷ len ∷ ref ∷ status ∷ rest) =
    if ltb (length rest) len
    then err response_too_short
    else ok (record { id = id; ref = ref; status = status; payload = take len rest })
from_bytes _ = err response_without_header

-- Response.ok, against ResponseStatus.SUCCESS
unfoldable pub is_ok : Response → Bool
is_ok r = r.status == 0

-- Response.is_event
unfoldable pub is_event : Response → Bool
is_event r = r.ref == event_ref

-- CommandRefCounter
pub record CommandRefCounter : Type 0 where
  pub counting : Bool
  pub next_ref : ℕ

-- CommandRefCounter(counting=...)
unfoldable pub new_counter : Bool → CommandRefCounter
new_counter counting = record { counting = counting; next_ref = 1 }

-- CommandRefCounter.next
unfoldable pub next : CommandRefCounter → ℕ × CommandRefCounter
next c =
    if not c.counting
    then (16, c)
    else (c.next_ref, record c { next_ref = if leb 127 c.next_ref then 1 else c.next_ref + 1 })
