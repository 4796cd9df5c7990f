-- ===== src/Owner.antt =====
-- custom_components/nimly_manager/nimly_ble/enrollment.py: the flows of an owner against a lock. Each
-- is an action on the session and the key store. What the flows draw from `secrets`, from the key
-- generator and from the clocks is an argument, in a record of `Draws`; a `name` is a text, and
-- `round(time.monotonic() - sent_at, 1)` is an argument `response_seconds`.
pub mod Flows
pub mod Scanning
pub mod Kept
pub mod Durable
pub mod Stranded
pub mod Gated
pub mod Opened
pub mod Prompt
use nimly_manager.Base.{
  ℕ, Bool, true, false, not, ◌||◌, Option, none, some, List, [], ◌∷◌, ◌++◌, ◌==◌, Bytes, replicate,
  if◌then◌else◌, ◌≡◌, arith,
}
use nimly_manager.Base.Int.{ℤ, pos}
use nimly_manager.Base.Result.{Result, ok, err, Exec, ◌>>=◌}
use nimly_manager.Text.{Text, text, text_eq}
use nimly_manager.Text.Number.{show_ℕ}
use nimly_manager.Text.Hex.{to_hex}
use nimly_manager.Value.{Float}
use nimly_manager.States
use nimly_manager.Crypto.{Cbc, Curve, default_owner_key, public_key_to_wire}
use nimly_manager.Firmware.{FirmwareVersion, at_least}
use nimly_manager.Protocol.Message.{
  CommandId, device_model_get, device_id_set, current_time_set, server_key_update, device_name_set,
  fingerprint_scan,
}
use nimly_manager.Protocol.Payloads.{
  device_id_payload, current_time_payload, server_key_payload, device_name_payload,
  fingerprint_slot_payload, parse_model, parse_fingerprint_scan,
}
use nimly_manager.KeyStore.{
  KeyStoreError, Disk, Stamp, clock, OwnerRecord, OwnerKeyStore, path_for, exists,
  preflight_passed_recently, save, load, owner_key, device_id,
}
use nimly_manager.Session
use nimly_manager.Session.{
  SessionError, Session, proto, crypt, send, handshake, owner_authenticate, owner_update,
}

-- The reasons of `EnrollmentRefused`.
pub data Refusal : Type 0 where
  record_exists : Text → Refusal
  preflight_missing not_enrolled : Refusal
  old_firmware : FirmwareVersion → Refusal
  unknown_model : ℕ → Refusal
  unreadable_firmware : Text → Refusal

-- What the flows raise: `EnrollmentRefused`, the `KeyStoreError` of `fingerprint_scan`, the
-- `ValueError` of `fromhex`, what `on_finger_prompt` raises, and what the session, the payloads and
-- the store raise.
pub data OwnerError : Type 0 where
  refused : Refusal → OwnerError
  no_enrolled_record bad_hex : OwnerError
  prompt_failed : States.Error → OwnerError
  session_error : SessionError → OwnerError
  store_error : KeyStoreError → OwnerError

abbrev pub asked : {A : Type 0} → Result SessionError A → Result OwnerError A
asked (ok a) = ok a
asked (err e) = err (session_error e)

abbrev pub stored : {A : Type 0} → Result KeyStoreError A → Result OwnerError A
stored (ok a) = ok a
stored (err e) = err (store_error e)

abbrev pub from_hex_or_raise : Option Bytes → Result OwnerError Bytes
from_hex_or_raise none = err bad_hex
from_hex_or_raise (some bytes) = ok bytes

-- ".".join(map(str, firmware))
unfoldable pub version_text : FirmwareVersion → Text
version_text v = show_ℕ v.major ++ b'.' ∷ show_ℕ v.minor ++ b'.' ∷ show_ℕ v.patch

-- f"{name} ({model_id})"
unfoldable pub model_text : Text → ℕ → Text
model_text name model = name ++ text " (" ++ show_ℕ model ++ text ")"

-- MODEL_QUERY_FIRMWARE
abbrev pub model_query_firmware : FirmwareVersion
model_query_firmware = record { major = 4; minor = 7; patch = 90 }

-- FINGERPRINT_SCAN_FIRMWARE
abbrev pub fingerprint_scan_firmware : FirmwareVersion
fingerprint_scan_firmware = record { major = 4; minor = 7; patch = 90 }

-- SCAN_STATUS_NAMES.get(status, f"unknown_{status}")
unfoldable pub scan_status_name : ℕ → Text
scan_status_name n =
    if n == 0
    then text "ok"
    else if n == 1
    then text "error"
    else if n == 2
    then text "unknown_command"
    else if n == 3
    then text "crc_error"
    else if n == 4
    then text "invalid_data"
    else if n == 5
    then text "no_space_left"
    else if n == 6
    then text "no_match"
    else text "unknown_" ++ show_ℕ n

-- The report of `preflight`.
pub record Report : Type 0 where
  pub lock_address : Text
  pub firmware : Text
  pub link_handshake : Bool
  pub model : Option Text
  pub fingerprint_capable : Option Bool
  pub default_owner_auth : Bool

-- What an enrollment draws: the private keys of the handshake, of the owner key and of the server,
-- the device id, the readings of the clock and what the disk does to the two writes.
pub record Draws : Type 0 where
  pub link_key : ℕ
  pub update_key : ℕ
  pub server_key : ℕ
  pub device_id : Bytes
  pub asked_at : ℕ
  pub created_at : ℕ
  pub updated_at : ℕ
  pub received_at : ℕ
  pub lock_time : ℤ
  pub enrolled_at : ℕ
  pub first_write : Disk
  pub last_write : Disk

-- The session and the store that `enroll` works on.
pub record Owner : Type 0 where
  pub session : Session
  pub store : OwnerKeyStore

abbrev pub on_session : {A : Type 0} → Exec SessionError Session A → Exec OwnerError Owner A
on_session m s = let (r, session) = m s.session in (asked r, record s { session = session })

abbrev pub on_store : {A : Type 0} → Exec KeyStoreError OwnerKeyStore A → Exec OwnerError Owner A
on_store m s = let (r, store) = m s.store in (stored r, record s { store = store })

-- The same on a session alone.
abbrev pub on_link : {A : Type 0} → Exec SessionError Session A → Exec OwnerError Session A
on_link m s = let (r, s') = m s in (asked r, s')

-- The payload of SERVER_KEY_UPDATE.
unfoldable pub server_wire : ℕ × ℕ → Result SessionError Bytes
server_wire point = do wire ← crypt (public_key_to_wire point); proto (server_key_payload wire)

pub stored-ok : {A : Type 0} (x : Result KeyStoreError A) (a : A) → stored x ≡ ok a → x ≡ ok a
stored-ok (ok b) a h = ground arith
stored-ok (err e) a h = absurd (ground arith)
