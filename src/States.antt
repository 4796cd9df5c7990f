-- ===== src/States.antt =====
-- The states of the two workflows, `EnrollmentState` of
-- custom_components/nimly_manager/fingerprint_enrollment.py and `ScanState` of
-- custom_components/nimly_manager/fingerprint_scan.py, and what the workflows raise.
use nimly_manager.Base.{Bool, true, false}
use nimly_manager.Base.Int.{ℤ}
use nimly_manager.Text.{Text, text}

pub data EnrollmentState : Type 0 where
  local_programming awaiting_verification verified cancelled expired : EnrollmentState

pub data ScanState : Type 0 where
  connecting scanning awaiting_verification verified failed cancelled expired : ScanState

-- `OverflowError` of `now + ttl` is `date_overflow`; `slot_invalid` and `naive_timestamp` are the
-- `ValueError`s of slots.py; `assertion` is `AssertionError`; every other one is a `FingerprintEnrollmentError`, a `ValueError` too.
pub data Error : Type 0 where
  empty_person_id empty_person_name person_name_too_long : Error
  slot_out_of_range ble_slot_out_of_range naive_now bad_ttl date_overflow : Error
  cannot_confirm cannot_cancel : EnrollmentState → Error
  cannot_start_scan cannot_finish_scan cannot_cancel_scan cannot_verify_scan : ScanState → Error
  slot_invalid naive_timestamp : Error
  slot_occupied ble_slot_used : ℤ → Error
  enrollment_active scan_active unknown_session unknown_scan : Error
  assertion : Error

-- isinstance(error, ValueError)
unfoldable pub is_value_error : Error → Bool
is_value_error date_overflow = false
is_value_error assertion = false
is_value_error _ = true

-- state in TERMINAL_STATES
unfoldable pub is_terminal : EnrollmentState → Bool
is_terminal EnrollmentState.local_programming = false
is_terminal EnrollmentState.awaiting_verification = false
is_terminal EnrollmentState.verified = true
is_terminal EnrollmentState.cancelled = true
is_terminal EnrollmentState.expired = true

-- state in {LOCAL_PROGRAMMING, AWAITING_VERIFICATION}
unfoldable pub is_active : EnrollmentState → Bool
is_active EnrollmentState.local_programming = true
is_active EnrollmentState.awaiting_verification = true
is_active _ = false

unfoldable pub is_local_programming : EnrollmentState → Bool
is_local_programming EnrollmentState.local_programming = true
is_local_programming _ = false

unfoldable pub is_awaiting : EnrollmentState → Bool
is_awaiting EnrollmentState.awaiting_verification = true
is_awaiting _ = false

-- EnrollmentState.value
unfoldable pub state_name : EnrollmentState → Text
state_name EnrollmentState.local_programming = text "local_programming"
state_name EnrollmentState.awaiting_verification = text "awaiting_verification"
state_name EnrollmentState.verified = text "verified"
state_name EnrollmentState.cancelled = text "cancelled"
state_name EnrollmentState.expired = text "expired"

-- state in ACTIVE_SCAN_STATES
unfoldable pub is_active_scan : ScanState → Bool
is_active_scan ScanState.connecting = true
is_active_scan ScanState.scanning = true
is_active_scan ScanState.awaiting_verification = true
is_active_scan _ = false

-- state in TERMINAL_SCAN_STATES
unfoldable pub is_terminal_scan : ScanState → Bool
is_terminal_scan ScanState.verified = true
is_terminal_scan ScanState.failed = true
is_terminal_scan ScanState.cancelled = true
is_terminal_scan ScanState.expired = true
is_terminal_scan _ = false

unfoldable pub is_connecting : ScanState → Bool
is_connecting ScanState.connecting = true
is_connecting _ = false

unfoldable pub is_scanning : ScanState → Bool
is_scanning ScanState.scanning = true
is_scanning _ = false

unfoldable pub is_armed : ScanState → Bool
is_armed ScanState.awaiting_verification = true
is_armed _ = false

-- ScanState.value
unfoldable pub scan_state_name : ScanState → Text
scan_state_name ScanState.connecting = text "connecting"
scan_state_name ScanState.scanning = text "scanning"
scan_state_name ScanState.awaiting_verification = text "awaiting_verification"
scan_state_name ScanState.verified = text "verified"
scan_state_name ScanState.failed = text "failed"
scan_state_name ScanState.cancelled = text "cancelled"
scan_state_name ScanState.expired = text "expired"
