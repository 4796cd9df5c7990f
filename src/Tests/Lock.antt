-- ===== src/Tests/Lock.antt =====
-- The runtime of one lock, custom_components/nimly_manager/runtime.py.
use nimly_manager.Base.{◌≡◌, ◌≢◌, inl, refl, true, false, some, none, [], ◌∷◌}
use nimly_manager.Base.Int.{pos, within_ℤ, ◌==ℤ◌, leb_ℤ}
use nimly_manager.Base.Result.{ok}
use nimly_manager.Text.{text, text_eq, strip, strip_left, strip_right, is_space, lower, lower_point}
use nimly_manager.Value
use nimly_manager.Runtime.Mqtt
use nimly_manager.Enrollment
use nimly_manager.Slots
use nimly_manager.Time.{is_naive, reached}
use nimly_manager.Value.{Fields, str, int}
use nimly_manager.States.{EnrollmentState, ScanState}
use nimly_manager.Slots.{get, used_ble_slots}
use nimly_manager.Runtime.{
  NimlyLockRuntime, LockState, start_enrollment, start_fingerprint_scan, confirm_enrollment,
  is_scan_active, member_ℤ,
}
use nimly_manager.Runtime.Mqtt.{FingerprintVerification, observe_mqtt_state, lock_state_of}
use nimly_manager.Runtime.Workflow.{OneWorkflow, is_enrollment_active}
use nimly_manager.Runtime.Steps.{Step, Reach, one_workflow}
use nimly_manager.Runtime.Verification.{Vouches}
use nimly_manager.Runtime.Observed.{verification_sound, unlock_needed}
use nimly_manager.Runtime.Starts.{enrollment_started, scan_started}
use nimly_manager.Tests.Sample.{noon, soon, ada, session, awaiting_session, scan, idle}

abbrev enrolling : NimlyLockRuntime
enrolling = (start_enrollment (text "s1") (text "p1") ada (pos 5) noon idle).1

-- A scan is asked for while an enrollment waits.
workflow_example :
    OneWorkflow (start_fingerprint_scan (text "b1") (text "p2") ada (pos 150) soon enrolling).1
workflow_example = one_workflow {a = idle} refl (
    Reach.then_step
      (Reach.then_step Reach.start (Step.start_enrollment (text "s1") (text "p1") ada (pos 5) noon))
      (Step.start_scan (text "b1") (text "p2") ada (pos 150) soon))

enrollment_run : (start_enrollment (text "s1") (text "p1") ada (pos 5) noon idle).0 ≡ ok session
unfolding start_enrollment nimly_manager.Runtime.refuse_if_busy nimly_manager.Slots.is_occupied
    nimly_manager.Dict.lookup nimly_manager.Enrollment.start nimly_manager.Text.strip
    nimly_manager.Text.strip_right nimly_manager.Text.strip_left nimly_manager.Text.is_space
enrollment_run = refl

enrollment_example :
    (enrolling.enrollment ≡ some session)
    × (session.state ≡ EnrollmentState.local_programming)
    × (session.slot ≡ pos 5)
    × (within_ℤ 3 199 (pos 5) ≡ true)
    × (get (pos 5) idle.slots ≡ none)
    × (is_scan_active enrolling.scan ≡ false)
    × (enrolling.slots ≡ idle.slots)
enrollment_example =
    enrollment_started (text "s1") (text "p1") ada (pos 5) noon idle session enrollment_run

abbrev scanning : NimlyLockRuntime
scanning = (start_fingerprint_scan (text "b1") (text "p1") ada (pos 150) noon idle).1

scan_run : (start_fingerprint_scan (text "b1") (text "p1") ada (pos 150) noon idle).0 ≡ ok scan
unfolding start_fingerprint_scan nimly_manager.Runtime.refuse_if_busy used_ble_slots
    nimly_manager.Scan.start nimly_manager.Text.strip nimly_manager.Text.strip_right
    nimly_manager.Text.strip_left nimly_manager.Text.is_space
scan_run = refl

scan_start_example :
    (scanning.scan ≡ some scan)
    × (scan.state ≡ ScanState.connecting)
    × (scan.ble_slot ≡ pos 150)
    × (within_ℤ 150 199 (pos 150) ≡ true)
    × (member_ℤ (pos 150) (used_ble_slots idle.slots) ≡ false)
    × (is_enrollment_active scanning.enrollment ≡ false)
    × (scanning.slots ≡ idle.slots)
scan_start_example = scan_started (text "b1") (text "p1") ada (pos 150) noon idle scan scan_run

-- What Zigbee2MQTT says when finger 5 opens the lock.
abbrev opened : Fields
opened =
    (text "state", str (text "UNLOCK"))
    ∷ (text "last_unlock_source", str (text "Fingerprint"))
    ∷ (text "last_unlock_user", int (pos 5))
    ∷ []

-- A locked lock with a session that awaits its unlock.
abbrev waiting : NimlyLockRuntime
waiting = record idle { lock_state = some LockState.locked; enrollment = some awaiting_session }

abbrev expected : FingerprintVerification
expected = record {
  session = record awaiting_session { state = EnrollmentState.verified; verified_at = some soon };
  source = text "fingerprint";
  user_slot = pos 5;
  ble_slot = none;
}

opened_run : (observe_mqtt_state (text "s2") opened soon waiting).0 ≡ ok (some expected)
unfolding observe_mqtt_state Mqtt.observe_state Mqtt.lock_state_of Mqtt.lock_word Mqtt.text_of
    Mqtt.slot_of Mqtt.opens Mqtt.observe_unlock Mqtt.observe_source Mqtt.record_unlock
    Mqtt.settle_unlock Mqtt.scan_claims Mqtt.verify_enrollment Mqtt.settle_enrollment Value.get
    Value.get_or_null Enrollment.observe_unlock Enrollment.matches Enrollment.expire
    Enrollment.expired_at Slots.observe Slots.verify Slots.validate_slot Slots.timestamp
    Slots.is_occupied text_eq strip strip_left strip_right is_space lower lower_point ◌==ℤ◌ leb_ℤ
    is_naive reached
opened_run = refl

verification_example :
    (waiting.lock_state ≡ some LockState.locked)
    × (lock_state_of opened ≡ some LockState.unlocked)
    × Vouches expected (observe_mqtt_state (text "s2") opened soon waiting).1
verification_example = verification_sound (text "s2") opened soon waiting expected opened_run

-- The same message as the first one.
first_message : idle.lock_state ≢ some LockState.locked
first_message h = cc

quiet_example :
    ((observe_mqtt_state (text "s2") opened soon idle).0 ≡ ok none)
    × ((observe_mqtt_state (text "s2") opened soon idle).1.enrollment ≡ idle.enrollment)
    × ((observe_mqtt_state (text "s2") opened soon idle).1.scan ≡ idle.scan)
    × ((observe_mqtt_state (text "s2") opened soon idle).1.slots ≡ idle.slots)
    × ((observe_mqtt_state (text "s2") opened soon idle).1.last_mqtt_at ≡ some soon)
quiet_example = unlock_needed (text "s2") opened soon idle (inl first_message)
