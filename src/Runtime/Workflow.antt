-- ===== src/Runtime/Workflow.antt =====
-- One workflow per lock: no method lets an enrollment and a scan be active together.
use nimly_manager.Base.{◌≡◌, refl, Bool, true, false, ◌&&◌, Option, none, some, arith}
use nimly_manager.Base.Int.{ℤ}
use nimly_manager.Base.Result.{Result, ok, err, Exec}
use nimly_manager.Text.{Text, text}
use nimly_manager.Time.{DateTime}
use nimly_manager.Value.{Fields, get_or_null}
use nimly_manager.States.{Error, is_active}
use nimly_manager.Slots.{is_occupied}
use nimly_manager.Enrollment
use nimly_manager.Enrollment.{FingerprintEnrollment}
use nimly_manager.Scan
use nimly_manager.Scan.{BleFingerprintScan}
use nimly_manager.Runtime.Report.{refresh_all}
use nimly_manager.Runtime.Mqtt.{
  settle_enrollment, text_of, slot_of, lock_state_of, scan_claims, record_unlock, verify_enrollment,
  scan_session, settle_scan, verify_scan, pair_scan, settle_unlock, observe_source, observe_unlock,
  observe_state, observe_mqtt_state,
}
use nimly_manager.Runtime.{
  LockState, NimlyLockRuntime, on_scan, is_scan_active, refuse_if_busy, start_enrollment,
  start_fingerprint_scan, confirm_enrollment, cancel_enrollment, cancel_fingerprint_scan,
}

abbrev pub is_enrollment_active : Option FingerprintEnrollment → Bool
is_enrollment_active none = false
is_enrollment_active (some e) = is_active e.state

-- No enrollment is active, or no scan is.
abbrev pub OneWorkflow : NimlyLockRuntime → Type 0
OneWorkflow rt = is_enrollment_active rt.enrollment && is_scan_active rt.scan ≡ false

-- What a call that does not start a workflow does: it makes neither of them active.
pub record Calms (rt rt' : NimlyLockRuntime) : Type 0 where
  pub enrollment :
      is_enrollment_active rt'.enrollment ≡ true → is_enrollment_active rt.enrollment ≡ true
  pub scan : is_scan_active rt'.scan ≡ true → is_scan_active rt.scan ≡ true

pub Calms-OneWorkflow :
    (rt rt' : NimlyLockRuntime) → Calms rt rt' → OneWorkflow rt → OneWorkflow rt'
Calms-OneWorkflow rt rt' c h = ground (arith, c.enrollment, c.scan)

pub Calms-trans : (a b c : NimlyLockRuntime) → Calms a b → Calms b c → Calms a c
Calms-trans a b c p q = record {
  enrollment = λ h. p.enrollment (q.enrollment h);
  scan = λ h. p.scan (q.scan h);
}

-- After a successful `_refuse_if_busy` nothing is active; after a refusal nothing more is.
module _ (now : DateTime) (rt : NimlyLockRuntime) where
  refuse_if_busy-Calms : Calms rt (refuse_if_busy now rt).1
  unfolding refuse_if_busy Enrollment.refresh Scan.refresh Scan.is_active
  refuse_if_busy-Calms = ground arith

  pub refuse_if_busy_enrollment :
      (refuse_if_busy now rt).0 ≡ ok tt
      → is_enrollment_active (refuse_if_busy now rt).1.enrollment ≡ false
  unfolding refuse_if_busy Enrollment.refresh Scan.refresh Scan.is_active
  refuse_if_busy_enrollment h = ground arith

  pub refuse_if_busy_scan :
      (refuse_if_busy now rt).0 ≡ ok tt → is_scan_active (refuse_if_busy now rt).1.scan ≡ false
  unfolding refuse_if_busy Enrollment.refresh Scan.refresh Scan.is_active
  refuse_if_busy_scan h = ground arith

-- Starting an enrollment keeps the rule, whether it succeeds or is refused.
pub start_enrollment-OneWorkflow :
    (uuid id name : Text) (slot : ℤ) (now : DateTime) (rt : NimlyLockRuntime)
    → OneWorkflow rt
    → OneWorkflow (start_enrollment uuid id name slot now rt).1
unfolding start_enrollment
start_enrollment-OneWorkflow uuid id name slot now rt h = ground (
  arith,
  refuse_if_busy_scan now rt,
  Calms-OneWorkflow rt (refuse_if_busy now rt).1 (refuse_if_busy-Calms now rt) h,
)

pub start_scan-OneWorkflow :
    (uuid id name : Text) (slot : ℤ) (now : DateTime) (rt : NimlyLockRuntime)
    → OneWorkflow rt
    → OneWorkflow (start_fingerprint_scan uuid id name slot now rt).1
unfolding start_fingerprint_scan
start_scan-OneWorkflow uuid id name slot now rt h = ground (
  arith,
  refuse_if_busy_enrollment now rt,
  Calms-OneWorkflow rt (refuse_if_busy now rt).1 (refuse_if_busy-Calms now rt) h,
)

pub confirm_enrollment-Calms :
    (session_id : Text) (now : DateTime) (rt : NimlyLockRuntime)
    → Calms rt (confirm_enrollment session_id now rt).1
unfolding confirm_enrollment Enrollment.confirm_local_programming
confirm_enrollment-Calms session_id now rt = ground arith

pub cancel_enrollment-Calms :
    (session_id : Text) (now : DateTime) (rt : NimlyLockRuntime)
    → Calms rt (cancel_enrollment session_id now rt).1
unfolding cancel_enrollment Enrollment.cancel
cancel_enrollment-Calms session_id now rt = ground arith

pub cancel_scan-Calms :
    (session_id : Text) (now : DateTime) (rt : NimlyLockRuntime)
    → Calms rt (cancel_fingerprint_scan session_id now rt).1
unfolding cancel_fingerprint_scan Scan.cancel Scan.is_active
cancel_scan-Calms session_id now rt = ground arith

-- The parts of `observe_mqtt_state`.
module _ (now : DateTime) (rt : NimlyLockRuntime) where
  scan_claims-Calms : (slot : ℤ) (known : Bool) → Calms rt (scan_claims rt.scan slot known now rt).1
  unfolding scan_claims Scan.refresh Scan.is_active
  scan_claims-Calms slot known = ground arith

  record_unlock-Calms : (slot : ℤ) → Calms rt (record_unlock slot now rt).1
  unfolding record_unlock
  record_unlock-Calms slot = ground arith

  verify_enrollment-Calms :
      (source : Text) (slot : ℤ) → Calms rt (verify_enrollment rt.enrollment source slot now rt).1
  unfolding verify_enrollment settle_enrollment Enrollment.observe_unlock
  verify_enrollment-Calms source slot = ground arith

-- The session that a scan's verification stores has taken the unlock, and so is over.
scan_session_over :
    (uuid : Text) (scan : BleFingerprintScan) (source : Text) (slot : ℤ) (now : DateTime)
    (session : FingerprintEnrollment)
    → scan_session uuid scan source slot now ≡ ok (true, session)
    → is_active session.state ≡ false
unfolding scan_session Enrollment.confirm_local_programming Enrollment.observe_unlock
scan_session_over uuid scan source slot now session h = ground arith

-- The session and the scan that a verification stores are both over.
pair_scan-Calms :
    (scan : BleFingerprintScan) (session : FingerprintEnrollment) (source : Text) (slot : ℤ)
    (now : DateTime) (rt : NimlyLockRuntime)
    → rt.scan ≡ some scan
    → is_active session.state ≡ false
    → Calms rt (pair_scan scan session source slot now rt).1
unfolding pair_scan Scan.observe_verified Scan.is_active
pair_scan-Calms scan session source slot now rt h over = ground arith

-- What `_verify_scan` does with its session, whether that took the unlock or not.
settled_scan-Calms :
    (scan : BleFingerprintScan) (source : Text) (slot : ℤ) (now : DateTime) (rt : NimlyLockRuntime)
    (r : Result Error (Bool × FingerprintEnrollment))
    → rt.scan ≡ some scan
    → ((session : FingerprintEnrollment) → r ≡ ok (true, session) → is_active session.state ≡ false)
    → Calms rt (settle_scan scan source slot now r rt).1
unfolding settle_scan
settled_scan-Calms scan source slot now rt (err x) h over = ground arith
settled_scan-Calms scan source slot now rt (ok (false, session)) h over = ground arith
settled_scan-Calms scan source slot now rt (ok (true, session)) h over =
    pair_scan-Calms scan session source slot now rt h (over session refl)

verify_scan-Calms :
    (uuid : Text) (scan : Option BleFingerprintScan) (source : Text) (slot : ℤ) (now : DateTime)
    (rt : NimlyLockRuntime)
    → rt.scan ≡ scan
    → Calms rt (verify_scan uuid scan source slot now rt).1
unfolding verify_scan
verify_scan-Calms uuid none source slot now rt h = ground arith
verify_scan-Calms uuid (some scan) source slot now rt h =
    settled_scan-Calms scan source slot now rt (scan_session uuid scan source slot now) h
      (scan_session_over uuid scan source slot now)

-- A scan is asked before an enrollment; either way no workflow is made active.
settle_unlock-Calms :
    (uuid source : Text) (slot : ℤ) (known : Bool) (now : DateTime) (rt : NimlyLockRuntime)
    → Calms rt (settle_unlock uuid source slot known now rt).1
unfolding settle_unlock
settle_unlock-Calms uuid source slot known now rt =
    let claimed = scan_claims rt.scan slot known now rt in
    let first = scan_claims-Calms now rt slot known in
    ground (
      arith,
      first,
      Calms-trans rt claimed.1 (verify_scan uuid claimed.1.scan source slot now claimed.1).1 first
          (verify_scan-Calms uuid claimed.1.scan source slot now claimed.1 refl),
      Calms-trans rt claimed.1 (verify_enrollment claimed.1.enrollment source slot now claimed.1).1
          first (verify_enrollment-Calms now claimed.1 source slot),
    )

observe_source-Calms :
    (uuid source : Text) (slot : ℤ) (now : DateTime) (rt : NimlyLockRuntime)
    → Calms rt (observe_source uuid source slot now rt).1
unfolding observe_source
observe_source-Calms uuid source slot now rt =
    let known = is_occupied slot rt.slots in
    let recorded = record_unlock slot now rt in
    ground (
      arith,
      verify_enrollment-Calms now rt source slot,
      record_unlock-Calms now rt slot,
      Calms-trans rt recorded.1 (settle_unlock uuid source slot known now recorded.1).1
          (record_unlock-Calms now rt slot)
          (settle_unlock-Calms uuid source slot known now recorded.1),
    )

observe_unlock-Calms :
    (uuid : Text) (source : Option Text) (slot : Option ℤ) (now : DateTime) (rt : NimlyLockRuntime)
    → Calms rt (observe_unlock uuid source slot now rt).1
unfolding observe_unlock
observe_unlock-Calms uuid (some source) (some slot) now rt =
    observe_source-Calms uuid source slot now rt
observe_unlock-Calms uuid (some source) none now rt = ground arith
observe_unlock-Calms uuid none slot now rt = ground arith

observe_state-Calms :
    (uuid : Text) (state : Option LockState) (payload : Fields) (now : DateTime)
    (rt : NimlyLockRuntime)
    → Calms rt (observe_state uuid state payload now rt).1
unfolding observe_state
observe_state-Calms uuid none payload now rt = ground arith
observe_state-Calms uuid (some current) payload now rt =
    let seen : NimlyLockRuntime = record rt {
      last_mqtt_at = some now;
      lock_state = some current;
    } in
    let source = text_of (get_or_null (text "last_unlock_source") payload) in
    let slot = slot_of (get_or_null (text "last_unlock_user") payload) in
    let first : Calms rt seen = record { enrollment = λ h. h; scan = λ h. h } in
    ground (
      arith,
      first,
      Calms-trans rt seen (observe_unlock uuid source slot now seen).1 first
          (observe_unlock-Calms uuid source slot now seen),
    )

pub observe_mqtt_state-Calms :
    (uuid : Text) (payload : Fields) (now : DateTime) (rt : NimlyLockRuntime)
    → Calms rt (observe_mqtt_state uuid payload now rt).1
unfolding observe_mqtt_state
observe_mqtt_state-Calms uuid payload now rt =
    observe_state-Calms uuid (lock_state_of payload) payload now rt

pub refresh_all-Calms : (now : DateTime) (rt : NimlyLockRuntime) → Calms rt (refresh_all now rt).1
unfolding refresh_all Enrollment.refresh Scan.refresh Scan.is_active
refresh_all-Calms now rt = ground arith

-- A method of the scan that the runtime holds, which makes no scan active that was not.
pub on_scan-Calms :
    {A : Type 0} (s : BleFingerprintScan) (m : Exec Error BleFingerprintScan A)
    (rt : NimlyLockRuntime)
    → rt.scan ≡ some s
    → (Scan.is_active (m s).1 ≡ true → Scan.is_active s ≡ true)
    → Calms rt (on_scan s m rt).1
on_scan-Calms s m rt h keeps = ground (arith, h, keeps)
