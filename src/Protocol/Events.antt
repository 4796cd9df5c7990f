-- ===== src/Protocol/Events.antt =====
-- `parse_event` and `Response.status_name` of
-- custom_components/nimly_manager/nimly_ble/protocol.py. A dictionary that the code returns is a
-- value of `Event`, with a constructor for each set of keys.
use nimly_manager.Base.{
  ℕ, Option, none, some, [], ◌∷◌, ◌++◌, ◌==◌, if◌then◌else◌, Bytes, from_little,
}
use nimly_manager.Text.{Text, text}
use nimly_manager.Text.Number.{show_ℕ}
use nimly_manager.Protocol.Message.{Response}

pub data Event : Type 0 where
  lock_status : ℕ → Text → Text → Event
  user_added : ℕ → Text → Event
  unknown : ℕ → Event

unfoldable pub lock_state_name : ℕ → Text
lock_state_name b =
    if b == 1 then text "locked" else if b == 2 then text "unlocked" else text "unknown"

unfoldable pub method_name : ℕ → Text
method_name b =
    if b == 0
    then text "key"
    else if b == 1
    then text "button"
    else if b == 2
    then text "panel"
    else if b == 3
    then text "fingerprint"
    else if b == 4
    then text "rfid"
    else if b == 5
    then text "other"
    else text "unknown"

unfoldable pub added_status_name : ℕ → Text
added_status_name b =
    if b == 0
    then text "not_added"
    else if b == 1
    then text "pin"
    else if b == 2
    then text "rfid"
    else if b == 3
    then text "fingerprint"
    else if b == 4
    then text "slot_occupied"
    else text "unknown"

parse_user_added : Response → Bytes → Event
parse_user_added r (l ∷ h ∷ status ∷ rest) =
    if r.id == 0x14
    then user_added (from_little (l ∷ h ∷ [])) (added_status_name status)
    else unknown r.id
parse_user_added r _ = unknown r.id

parse_lock_status : Response → Bytes → Event
parse_lock_status r (l ∷ h ∷ state ∷ method ∷ rest) =
    if r.id == 0x60
    then lock_status (from_little (l ∷ h ∷ [])) (lock_state_name state) (method_name method)
    else parse_user_added r (l ∷ h ∷ state ∷ method ∷ rest)
parse_lock_status r payload = parse_user_added r payload

unfoldable pub parse_event : Response → Event
unfolding parse_lock_status parse_user_added lock_state_name method_name added_status_name
parse_event r = parse_lock_status r r.payload

-- ResponseStatus(n).name; `none` where it raises ValueError
unfoldable pub response_status : ℕ → Option Text
response_status n =
    if n == 0
    then some (text "SUCCESS")
    else if n == 1
    then some (text "FAILED")
    else if n == 2
    then some (text "NOT_AVAILABLE")
    else if n == 3
    then some (text "INTERNAL_ERROR")
    else if n == 4
    then some (text "PARAMETER_ERROR")
    else if n == 5
    then some (text "LENGTH_ERROR")
    else if n == 6
    then some (text "NOT_FOUND")
    else if n == 7
    then some (text "NO_MATCH")
    else if n == 8
    then some (text "NOT_SUPPORTED")
    else if n == 9
    then some (text "NOT_VALID")
    else if n == 10
    then some (text "SECURITY_ERROR")
    else none

-- Response.status_name
unfoldable pub status_name : Response → Text
unfolding show_ℕ response_status
status_name r = elim (response_status r.status) [
  | some name ↦ name
  | none ↦ text "UNKNOWN_" ++ show_ℕ r.status
]
