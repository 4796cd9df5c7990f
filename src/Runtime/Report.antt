-- ===== src/Runtime/Report.antt =====
-- What the runtime shows: `diagnostics`, `public_state` and `service_response` of
-- custom_components/nimly_manager/runtime.py. A dictionary is a record with its keys as fields.
use nimly_manager.Base.{ℕ, Option, none, some, List, []}
use nimly_manager.Base.Int.{ℤ}
use nimly_manager.Base.Result.{Exec}
use nimly_manager.Base.Exec.{pure, gets, ◌>>=◌, ◌>>◌}
use nimly_manager.Text.{Text}
use nimly_manager.Time.{DateTime}
use nimly_manager.Value.{Value, Fields}
use nimly_manager.States.{Error}
use nimly_manager.Enrollment
use nimly_manager.Enrollment.{FingerprintEnrollment}
use nimly_manager.Scan
use nimly_manager.Scan.{BleFingerprintScan, iso_or_null}
use nimly_manager.Slots
use nimly_manager.Runtime.{LockState, NimlyLockRuntime, on_enrollment, on_scan}

-- self.enrollment.refresh(now=now) and self.scan.refresh(now=now), where they are there
unfoldable pub refresh_enrollment :
    Option FingerprintEnrollment → DateTime → Exec Error NimlyLockRuntime (Unit {0})
refresh_enrollment none now = pure tt
refresh_enrollment (some e) now = do state ← on_enrollment e (Enrollment.refresh now); pure tt

unfoldable pub refresh_scan :
    Option BleFingerprintScan → DateTime → Exec Error NimlyLockRuntime (Unit {0})
refresh_scan none now = pure tt
refresh_scan (some s) now = do state ← on_scan s (Scan.refresh now); pure tt

unfoldable pub refresh_all : DateTime → Exec Error NimlyLockRuntime NimlyLockRuntime
unfolding refresh_enrollment refresh_scan
refresh_all now = do
  rt ← gets (λ rt. rt)
  refresh_enrollment rt.enrollment now
  refresh_scan rt.scan now
  gets (λ rt. rt)

abbrev enrollment_dict : Option FingerprintEnrollment → Option Fields
enrollment_dict none = none
enrollment_dict (some e) = some (Enrollment.as_public_dict e)

abbrev enrollment_steps : Option FingerprintEnrollment → List Text
enrollment_steps none = []
enrollment_steps (some e) = Enrollment.instructions e

abbrev scan_dict : Option BleFingerprintScan → Option Fields
scan_dict none = none
scan_dict (some s) = some (Scan.as_public_dict s)

pub record Diagnostics : Type 0 where
  pub state_topic : Text
  pub lock_state : Option LockState
  pub last_mqtt_at : Value
  pub fingerprint_enrollment : Option Fields
  pub fingerprint_scan : Option Fields
  pub fingerprint_slot_counts : ℕ × ℕ

-- NimlyLockRuntime.diagnostics
unfoldable pub diagnostics : DateTime → Exec Error NimlyLockRuntime Diagnostics
unfolding refresh_all
diagnostics now = do
  rt ← refresh_all now
  pure (record {
    state_topic = rt.topic;
    lock_state = rt.lock_state;
    last_mqtt_at = iso_or_null rt.last_mqtt_at;
    fingerprint_enrollment = enrollment_dict rt.enrollment;
    fingerprint_scan = scan_dict rt.scan;
    fingerprint_slot_counts = Slots.diagnostics rt.slots;
  })

pub record PublicState : Type 0 where
  pub state_topic : Text
  pub lock_state : Option LockState
  pub last_mqtt_at : Value
  pub enrollment : Option Fields
  pub instructions : List Text
  pub scan : Option Fields
  pub used_ble_slots : List ℤ
  pub slots : List Fields

-- NimlyLockRuntime.public_state
unfoldable pub public_state : DateTime → Exec Error NimlyLockRuntime PublicState
unfolding refresh_all
public_state now = do
  rt ← refresh_all now
  pure (record {
    state_topic = rt.topic;
    lock_state = rt.lock_state;
    last_mqtt_at = iso_or_null rt.last_mqtt_at;
    enrollment = enrollment_dict rt.enrollment;
    instructions = enrollment_steps rt.enrollment;
    scan = scan_dict rt.scan;
    used_ble_slots = Slots.used_ble_slots rt.slots;
    slots = Slots.as_list rt.slots;
  })

-- service_response
unfoldable pub service_response : FingerprintEnrollment → Fields × List Text
service_response session = (Enrollment.as_public_dict session, Enrollment.instructions session)
