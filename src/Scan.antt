-- ===== src/Scan.antt =====
-- custom_components/nimly_manager/fingerprint_scan.py: `BleFingerprintScan`, one scan that was
-- started over BLE. Each method is an action on the scan; the text of `uuid4` is an argument of
-- `start`.
pub mod Lifecycle
pub mod Invariant
pub mod History
use nimly_manager.Base.{
  ℕ, Bool, true, false, not, ◌&&◌, Option, none, some, List, [], ◌∷◌, ◌++◌, if◌then◌else◌,
}
use nimly_manager.Base.Int.{ℤ, within_ℤ}
use nimly_manager.Base.Result.{Result, ok, err, Exec}
use nimly_manager.Base.Exec.{pure, lift, gets, modify, raise_when, ◌>>=◌, ◌>>◌}
use nimly_manager.Text.{Text, text, text_eq, strip}
use nimly_manager.Time.{DateTime, reached}
use nimly_manager.Time.Iso.{isoformat}
use nimly_manager.Value.{Float, Value, Fields, null, str, int, float}
use nimly_manager.Request.{check_request, require_timezone}
use nimly_manager.States.{
  ScanState, Error, ble_slot_out_of_range, cannot_start_scan, cannot_finish_scan,
  cannot_cancel_scan, cannot_verify_scan, is_active_scan, is_terminal_scan, is_connecting,
  is_scanning, is_armed, scan_state_name,
}

abbrev pub ble_slot_min : ℕ
ble_slot_min = 150

abbrev pub ble_slot_max : ℕ
ble_slot_max = 199

pub record BleFingerprintScan : Type 0 where
  pub session_id : Text
  pub person_id : Text
  pub person_name : Text
  pub ble_slot : ℤ
  pub started_at : DateTime
  pub expires_at : DateTime
  pub state : ScanState
  pub finger_prompt_at : Option DateTime
  pub scanned_at : Option DateTime
  pub scan_status : Option Text
  pub reported_slot : Option ℤ
  pub response_seconds : Option Float
  pub model : Option Text
  pub firmware : Option Text
  pub zigbee_slot : Option ℤ
  pub verified_at : Option DateTime
  pub enrollment_session_id : Option Text
  pub error : Option Text

-- BleFingerprintScan.start
unfoldable pub start : Text → Text → Text → ℤ → DateTime → ℤ → Result Error BleFingerprintScan
unfolding check_request
start uuid person_id person_name ble_slot now ttl =
    let id = strip person_id in
    let name = strip person_name in
    let slot_test : Result Error (Unit {0}) =
      if within_ℤ ble_slot_min ble_slot_max ble_slot then ok tt else err ble_slot_out_of_range in
    elim (check_request id name slot_test now ttl) [
      | err e ↦ err e
      | ok end ↦ ok (record {
        session_id = uuid;
        person_id = id;
        person_name = name;
        ble_slot = ble_slot;
        started_at = now;
        expires_at = end;
        state = ScanState.connecting;
        finger_prompt_at = none;
        scanned_at = none;
        scan_status = none;
        reported_slot = none;
        response_seconds = none;
        model = none;
        firmware = none;
        zigbee_slot = none;
        verified_at = none;
        enrollment_session_id = none;
        error = none;
      })
    ]

-- BleFingerprintScan.is_active
unfoldable pub is_active : BleFingerprintScan → Bool
unfolding is_active_scan
is_active s = is_active_scan s.state

-- BleFingerprintScan.armed_for_verification
unfoldable pub armed_for_verification : BleFingerprintScan → Bool
unfolding is_armed
armed_for_verification s = is_armed s.state

-- The assignment of `_expire`.
unfoldable pub expired_at : DateTime → BleFingerprintScan → BleFingerprintScan
unfolding is_active_scan reached
expired_at now s =
    if is_active_scan s.state && reached now s.expires_at
    then record s { state = ScanState.expired }
    else s

-- BleFingerprintScan._expire
unfoldable pub expire : DateTime → Exec Error BleFingerprintScan (Unit {0})
unfolding require_timezone expired_at
expire now = do lift (require_timezone now); modify (expired_at now)

-- BleFingerprintScan.mark_scanning
unfoldable pub mark_scanning : DateTime → Exec Error BleFingerprintScan (Unit {0})
unfolding expire is_connecting
mark_scanning now = do
  expire now
  raise_when (λ s. not (is_connecting s.state)) (λ s. cannot_start_scan s.state)
  modify (λ s. record s { state = ScanState.scanning; finger_prompt_at = some now })

-- What the lock answered, as `mark_scanned` takes it.
pub record Answer : Type 0 where
  pub scan_status : Text
  pub reported_slot : Option ℤ
  pub response_seconds : Option Float
  pub model : Option Text
  pub firmware : Option Text

abbrev pub recorded : DateTime → Answer → BleFingerprintScan → BleFingerprintScan
recorded now a s = record s {
  scanned_at = some now;
  scan_status = some a.scan_status;
  reported_slot = a.reported_slot;
  response_seconds = a.response_seconds;
  model = a.model;
  firmware = a.firmware;
}

abbrev pub concluded : Answer → BleFingerprintScan → BleFingerprintScan
concluded a s =
    if text_eq a.scan_status (text "ok")
    then record s { state = ScanState.awaiting_verification }
    else record s { state = ScanState.failed; error = some (text "låsen svarte " ++ a.scan_status) }

-- BleFingerprintScan.mark_scanned
unfoldable pub mark_scanned : DateTime → Answer → Exec Error BleFingerprintScan (Unit {0})
unfolding expire is_scanning
mark_scanned now a = do
  expire now
  raise_when (λ s. not (is_scanning s.state)) (λ s. cannot_finish_scan s.state)
  modify (λ s. concluded a (recorded now a s))

-- BleFingerprintScan.fail
unfoldable pub fail : DateTime → Text → Exec Error BleFingerprintScan (Unit {0})
unfolding expire is_terminal_scan
fail now error = do
  expire now
  modify (λ s.
      if is_terminal_scan s.state
      then s
      else record s { state = ScanState.failed; error = some error })

-- BleFingerprintScan.cancel
unfoldable pub cancel : DateTime → Exec Error BleFingerprintScan (Unit {0})
unfolding expire is_terminal_scan
cancel now = do
  expire now
  raise_when (λ s. is_terminal_scan s.state) (λ s. cannot_cancel_scan s.state)
  modify (λ s. record s { state = ScanState.cancelled })

-- BleFingerprintScan.observe_verified
unfoldable pub observe_verified : DateTime → ℤ → Text → Exec Error BleFingerprintScan (Unit {0})
unfolding expire is_armed
observe_verified now zigbee_slot enrollment_session_id = do
  expire now
  raise_when (λ s. not (is_armed s.state)) (λ s. cannot_verify_scan s.state)
  modify (λ s. record s {
    state = ScanState.verified;
    zigbee_slot = some zigbee_slot;
    verified_at = some now;
    enrollment_session_id = some enrollment_session_id;
  })

-- BleFingerprintScan.refresh
unfoldable pub refresh : DateTime → Exec Error BleFingerprintScan ScanState
unfolding expire
refresh now = do expire now; gets (λ s. s.state)

abbrev pub value_or_null {ℓ} : {A : Type ℓ} → (A → Value) → Option A → Value
value_or_null f none = null
value_or_null f (some a) = f a

-- _iso, as a JSON value
unfoldable pub iso_or_null : Option DateTime → Value
unfolding isoformat
iso_or_null t = value_or_null (λ d. str (isoformat d)) t

-- BleFingerprintScan.as_public_dict
unfoldable pub as_public_dict : BleFingerprintScan → Fields
unfolding iso_or_null scan_state_name isoformat
as_public_dict s =
    (text "session_id", str s.session_id)
    ∷ (text "person_id", str s.person_id)
    ∷ (text "person_name", str s.person_name)
    ∷ (text "ble_slot", int s.ble_slot)
    ∷ (text "state", str (scan_state_name s.state))
    ∷ (text "started_at", str (isoformat s.started_at))
    ∷ (text "expires_at", str (isoformat s.expires_at))
    ∷ (text "finger_prompt_at", iso_or_null s.finger_prompt_at)
    ∷ (text "scanned_at", iso_or_null s.scanned_at)
    ∷ (text "scan_status", value_or_null str s.scan_status)
    ∷ (text "reported_slot", value_or_null int s.reported_slot)
    ∷ (text "response_seconds", value_or_null float s.response_seconds)
    ∷ (text "model", value_or_null str s.model)
    ∷ (text "firmware", value_or_null str s.firmware)
    ∷ (text "zigbee_slot", value_or_null int s.zigbee_slot)
    ∷ (text "verified_at", iso_or_null s.verified_at)
    ∷ (text "enrollment_session_id", value_or_null str s.enrollment_session_id)
    ∷ (text "error", value_or_null str s.error)
    ∷ []
