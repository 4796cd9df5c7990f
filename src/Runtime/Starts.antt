-- ===== src/Runtime/Starts.antt =====
-- Starting a workflow: `start_enrollment` and `start_fingerprint_scan` of
-- custom_components/nimly_manager/runtime.py.
use nimly_manager.Base.{◌≡◌, Bool, true, false, not, ◌&&◌, Option, none, some, arith}
use nimly_manager.Base.Int.{ℤ, within_ℤ}
use nimly_manager.Base.Result.{ok}
use nimly_manager.Text.{Text}
use nimly_manager.Time.{DateTime, reached}
use nimly_manager.States.{EnrollmentState, ScanState, is_active, is_active_scan}
use nimly_manager.Enrollment
use nimly_manager.Enrollment.{FingerprintEnrollment}
use nimly_manager.Scan
use nimly_manager.Scan.{BleFingerprintScan}
use nimly_manager.Slots.{get, is_occupied, used_ble_slots}
use nimly_manager.Runtime.{
  NimlyLockRuntime, is_scan_active, member_ℤ, refuse_if_busy, start_enrollment,
  start_fingerprint_scan,
}
use nimly_manager.Runtime.Workflow.{
  is_enrollment_active, refuse_if_busy_enrollment, refuse_if_busy_scan,
}

refuse_if_busy_slots :
    (now : DateTime) (rt : NimlyLockRuntime) → (refuse_if_busy now rt).1.slots ≡ rt.slots
unfolding refuse_if_busy
refuse_if_busy_slots now rt = ground arith

-- An enrollment that start_enrollment returns is the runtime's, waits for local programming, and
-- is for the slot asked for, from 3 to 199, which the registry does not know. No scan is active
-- beside it, and the registry is as before.
pub enrollment_started :
    (uuid id name : Text) (slot : ℤ) (now : DateTime) (rt : NimlyLockRuntime)
    (e : FingerprintEnrollment)
    → (start_enrollment uuid id name slot now rt).0 ≡ ok e
    → let rt' = (start_enrollment uuid id name slot now rt).1 in
      (rt'.enrollment ≡ some e)
      × (e.state ≡ EnrollmentState.local_programming)
      × (e.slot ≡ slot)
      × (within_ℤ 3 199 slot ≡ true)
      × (get slot rt.slots ≡ none)
      × (is_scan_active rt'.scan ≡ false)
      × (rt'.slots ≡ rt.slots)
unfolding start_enrollment Enrollment.start is_occupied get
enrollment_started uuid id name slot now rt e h =
    let idle = refuse_if_busy_scan now rt in
    let slots = refuse_if_busy_slots now rt in
    (
      ground arith,
      ground arith,
      ground arith,
      ground arith,
      ground arith,
      ground arith,
      ground arith,
    )

-- A scan that start_fingerprint_scan returns is the runtime's, is connecting, and is for the BLE
-- slot asked for, from 150 to 199, which used_ble_slots does not list. No enrollment is active
-- beside it, and the registry is as before.
pub scan_started :
    (uuid id name : Text) (ble_slot : ℤ) (now : DateTime) (rt : NimlyLockRuntime)
    (s : BleFingerprintScan)
    → (start_fingerprint_scan uuid id name ble_slot now rt).0 ≡ ok s
    → let rt' = (start_fingerprint_scan uuid id name ble_slot now rt).1 in
      (rt'.scan ≡ some s)
      × (s.state ≡ ScanState.connecting)
      × (s.ble_slot ≡ ble_slot)
      × (within_ℤ 150 199 ble_slot ≡ true)
      × (member_ℤ ble_slot (used_ble_slots rt.slots) ≡ false)
      × (is_enrollment_active rt'.enrollment ≡ false)
      × (rt'.slots ≡ rt.slots)
unfolding start_fingerprint_scan Scan.start
scan_started uuid id name ble_slot now rt s h =
    let idle = refuse_if_busy_enrollment now rt in
    let slots = refuse_if_busy_slots now rt in
    (
      ground arith,
      ground arith,
      ground arith,
      ground arith,
      ground arith,
      ground arith,
      ground arith,
    )

-- A session or a scan is active and has not expired.
abbrev pub is_enrollment_busy : DateTime → Option FingerprintEnrollment → Bool
is_enrollment_busy now none = false
is_enrollment_busy now (some e) = is_active e.state && not (reached now e.expires_at)

abbrev pub is_scan_busy : DateTime → Option BleFingerprintScan → Bool
is_scan_busy now none = false
is_scan_busy now (some s) = is_active_scan s.state && not (reached now s.expires_at)

-- No workflow of a lock runs.
abbrev pub IsFree : DateTime → NimlyLockRuntime → Type 0
IsFree now rt = (is_enrollment_busy now rt.enrollment ≡ false) × (is_scan_busy now rt.scan ≡ false)

refuse_if_busy-IsFree :
    (now : DateTime) (rt : NimlyLockRuntime) → (refuse_if_busy now rt).0 ≡ ok tt → IsFree now rt
unfolding refuse_if_busy Enrollment.refresh Scan.refresh Scan.is_active
refuse_if_busy-IsFree now rt h = (ground arith, ground arith)

-- A scan is started only while no workflow of the lock runs.
pub scan_started-IsFree :
    (uuid id name : Text) (ble_slot : ℤ) (now : DateTime) (rt : NimlyLockRuntime)
    (s : BleFingerprintScan)
    → (start_fingerprint_scan uuid id name ble_slot now rt).0 ≡ ok s
    → IsFree now rt
unfolding start_fingerprint_scan
scan_started-IsFree uuid id name ble_slot now rt s h = refuse_if_busy-IsFree now rt (ground arith)
