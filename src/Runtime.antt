-- ===== src/Runtime.antt =====
-- custom_components/nimly_manager/runtime.py: `NimlyLockRuntime`, the state of one lock, and its
-- methods as actions on it. The text of `uuid4` is an argument where a session is started.
pub mod Mqtt
pub mod Report
pub mod Workflow
pub mod Steps
pub mod Verification
pub mod Observed
pub mod Starts
use nimly_manager.Base.{
  ℕ, Bool, true, false, not, ◌&&◌, Option, none, some, List, [], ◌∷◌, if◌then◌else◌,
}
use nimly_manager.Base.Int.{ℤ, within_ℤ}
use nimly_manager.Base.Result.{Result, ok, err, Exec}
use nimly_manager.Base.Exec.{pure, lift, gets, modify, raise_when, ◌>>=◌, ◌>>◌}
use nimly_manager.Text.{Text, strip, text_eq}
use nimly_manager.Time.{DateTime}
use nimly_manager.Request.{default_ttl}
use nimly_manager.States.{
  EnrollmentState, ScanState, Error, slot_occupied, ble_slot_used, enrollment_active, scan_active,
  unknown_session, unknown_scan, is_terminal,
}
use nimly_manager.Enrollment
use nimly_manager.Enrollment.{FingerprintEnrollment}
use nimly_manager.Scan
use nimly_manager.Scan.{BleFingerprintScan}
use nimly_manager.Slots.{FingerprintSlotRegistry, is_occupied, used_ble_slots}
use nimly_manager.Base.Int.{◌==ℤ◌}

-- LOCKED and UNLOCKED
pub data LockState : Type 0 where
  locked unlocked : LockState

pub record NimlyLockRuntime : Type 0 where
  pub topic : Text
  pub lock_state : Option LockState
  pub last_mqtt_at : Option DateTime
  pub enrollment : Option FingerprintEnrollment
  pub scan : Option BleFingerprintScan
  pub slots : FingerprintSlotRegistry

-- NimlyLockRuntime(topic=..., slots=...)
abbrev pub new_runtime : Text → FingerprintSlotRegistry → NimlyLockRuntime
new_runtime topic slots = record {
  topic = topic;
  lock_state = none;
  last_mqtt_at = none;
  enrollment = none;
  scan = none;
  slots = slots;
}

-- A method of the session, of the scan or of the registry that the runtime holds: what it returns
-- or raises, and the runtime with the object as the method leaves it.
abbrev pub on_enrollment :
    {A : Type 0}
    → FingerprintEnrollment
    → Exec Error FingerprintEnrollment A
    → Exec Error NimlyLockRuntime A
on_enrollment e m rt = let (r, e') = m e in (r, record rt { enrollment = some e' })

abbrev pub on_scan :
    {A : Type 0}
    → BleFingerprintScan
    → Exec Error BleFingerprintScan A
    → Exec Error NimlyLockRuntime A
on_scan s m rt = let (r, s') = m s in (r, record rt { scan = some s' })

abbrev pub on_slots :
    {A : Type 0} → Exec Error FingerprintSlotRegistry A → Exec Error NimlyLockRuntime A
on_slots m rt = let (r, slots') = m rt.slots in (r, record rt { slots = slots' })

-- The two halves of `_refuse_if_busy`.
unfoldable pub refuse_enrollment :
    Option FingerprintEnrollment → DateTime → Exec Error NimlyLockRuntime (Unit {0})
unfolding is_terminal
refuse_enrollment none now = pure tt
refuse_enrollment (some e) now = do
  state ← on_enrollment e (Enrollment.refresh now)
  raise_when (λ rt. not (is_terminal state)) (λ rt. enrollment_active)

-- self.scan.is_active, where there is a scan
abbrev pub is_scan_active : Option BleFingerprintScan → Bool
is_scan_active none = false
is_scan_active (some s) = Scan.is_active s

unfoldable pub refuse_scan :
    Option BleFingerprintScan → DateTime → Exec Error NimlyLockRuntime (Unit {0})
unfolding Scan.is_active
refuse_scan none now = pure tt
refuse_scan (some s) now = do
  state ← on_scan s (Scan.refresh now)
  raise_when (λ rt. is_scan_active rt.scan) (λ rt. scan_active)

-- NimlyLockRuntime._refuse_if_busy
unfoldable pub refuse_if_busy : DateTime → Exec Error NimlyLockRuntime (Unit {0})
unfolding refuse_enrollment refuse_scan
refuse_if_busy now = do
  rt ← gets (λ rt. rt)
  refuse_enrollment rt.enrollment now
  refuse_scan rt.scan now

-- NimlyLockRuntime.start_enrollment
unfoldable pub start_enrollment :
    Text → Text → Text → ℤ → DateTime → Exec Error NimlyLockRuntime FingerprintEnrollment
start_enrollment uuid person_id person_name slot now = do
  refuse_if_busy now
  raise_when (λ rt. is_occupied slot rt.slots) (λ rt. slot_occupied slot)
  e ← lift (Enrollment.start uuid person_id person_name slot now default_ttl)
  modify (λ rt. record rt { enrollment = some e })
  pure e

abbrev pub member_ℤ : ℤ → List ℤ → Bool
member_ℤ n [] = false
member_ℤ n (m ∷ ms) = if m ==ℤ n then true else member_ℤ n ms

-- NimlyLockRuntime.start_fingerprint_scan
unfoldable pub start_fingerprint_scan :
    Text → Text → Text → ℤ → DateTime → Exec Error NimlyLockRuntime BleFingerprintScan
start_fingerprint_scan uuid person_id person_name ble_slot now = do
  refuse_if_busy now
  raise_when (λ rt. member_ℤ ble_slot (used_ble_slots rt.slots)) (λ rt. ble_slot_used ble_slot)
  s ← lift (Scan.start uuid person_id person_name ble_slot now default_ttl)
  modify (λ rt. record rt { scan = some s })
  pure s

-- NimlyLockRuntime._session
unfoldable pub find_session :
    Text → Option FingerprintEnrollment → Result Error FingerprintEnrollment
find_session session_id none = err unknown_session
find_session session_id (some e) =
    if text_eq e.session_id (strip session_id) then ok e else err unknown_session

-- NimlyLockRuntime._scan
unfoldable pub find_scan : Text → Option BleFingerprintScan → Result Error BleFingerprintScan
find_scan session_id none = err unknown_scan
find_scan session_id (some s) =
    if text_eq s.session_id (strip session_id) then ok s else err unknown_scan

-- NimlyLockRuntime.confirm_enrollment
unfoldable pub confirm_enrollment : Text → DateTime → Exec Error NimlyLockRuntime (Unit {0})
unfolding find_session
confirm_enrollment session_id now = do
  rt ← gets (λ rt. rt)
  e ← lift (find_session session_id rt.enrollment)
  on_enrollment e (Enrollment.confirm_local_programming now)

-- NimlyLockRuntime.cancel_enrollment
unfoldable pub cancel_enrollment : Text → DateTime → Exec Error NimlyLockRuntime (Unit {0})
unfolding find_session
cancel_enrollment session_id now = do
  rt ← gets (λ rt. rt)
  e ← lift (find_session session_id rt.enrollment)
  on_enrollment e (Enrollment.cancel now)

-- NimlyLockRuntime.cancel_fingerprint_scan
unfoldable pub cancel_fingerprint_scan : Text → DateTime → Exec Error NimlyLockRuntime (Unit {0})
unfolding find_scan
cancel_fingerprint_scan session_id now = do
  rt ← gets (λ rt. rt)
  s ← lift (find_scan session_id rt.scan)
  on_scan s (Scan.cancel now)
