-- ===== src/Runtime/Verification.antt =====
-- What a verification that `observe_mqtt_state` returns vouches for: the session and the slot
-- record that custom_components/nimly_manager/runtime.py leaves with it.
use nimly_manager.Base.{◌≡◌, refl, Bool, true, false, Option, none, some, arith, inl, inr}
use nimly_manager.Base.Int.{ℤ, within_ℤ, ==ℤ_iff}
use nimly_manager.Base.Result.{Result, ok, err}
use nimly_manager.Text.{Text, strip}
use nimly_manager.Text.Strip.{strip-strip}
use nimly_manager.Time.{DateTime, is_naive}
use nimly_manager.States.{Error, EnrollmentState}
use nimly_manager.Enrollment
use nimly_manager.Enrollment.{FingerprintEnrollment}
use nimly_manager.Scan
use nimly_manager.Scan.{BleFingerprintScan}
use nimly_manager.Slots.{SlotStatus, FingerprintSlot, get}
use nimly_manager.Slots.Effects.{verify_records, verify_cases}
use nimly_manager.Runtime.{NimlyLockRuntime}
use nimly_manager.Runtime.Mqtt.{
  FingerprintVerification, scan_session, pair_scan, settle_scan, verify_scan, settle_enrollment,
  verify_enrollment,
}

-- The runtime holds the session that was verified, and the record of its slot, which is VERIFIED
-- for the session's person.
pub record Vouches (v : FingerprintVerification) (rt : NimlyLockRuntime) : Type 0 where
  pub session : rt.enrollment ≡ some v.session
  pub state : v.session.state ≡ EnrollmentState.verified
  pub slot : v.session.slot ≡ v.user_slot
  pub record_status :
      (s : FingerprintSlot) × (get v.user_slot rt.slots ≡ some s)
      × (s.status ≡ SlotStatus.verified)
      × (s.person_id ≡ some (strip v.session.person_id))

scan_session_taken :
    (uuid : Text) (scan : BleFingerprintScan) (source : Text) (slot : ℤ) (now : DateTime)
    (session : FingerprintEnrollment)
    → scan_session uuid scan source slot now ≡ ok (true, session)
    → (session.state ≡ EnrollmentState.verified)
      × (session.slot ≡ slot)
      × (session.person_id ≡ strip scan.person_id)
      × (within_ℤ 3 199 slot ≡ true)
      × (is_naive now ≡ false)
unfolding scan_session Enrollment.start Enrollment.confirm_local_programming
    Enrollment.observe_unlock
scan_session_taken uuid scan source slot now session h = ground (arith, ==ℤ_iff slot session.slot)

pair_scan-Vouches :
    (scan : BleFingerprintScan) (session : FingerprintEnrollment) (source : Text) (slot : ℤ)
    (now : DateTime) (rt : NimlyLockRuntime) (v : FingerprintVerification)
    → (session.state ≡ EnrollmentState.verified)
    → (session.slot ≡ slot)
    → (session.person_id ≡ strip scan.person_id)
    → (within_ℤ 3 199 slot ≡ true)
    → (is_naive now ≡ false)
    → (pair_scan scan session source slot now rt).0 ≡ ok (some v)
    → Vouches v (pair_scan scan session source slot now rt).1
unfolding pair_scan Scan.observe_verified
pair_scan-Vouches scan session source slot now rt v state same person range aware h =
    let (s, returned, found, proves, _, _, _) =
      verify_records slot scan.person_id scan.person_name now (some scan.ble_slot) rt.slots range
        aware in
    let status = proves.status in
    let id = proves.person_id in
    let idem = strip-strip scan.person_id in
    record {
      session = ground arith;
      state = ground arith;
      slot = ground arith;
      record_status = (s, ground arith, status, ground arith);
    }

settle_scan-Vouches :
    (scan : BleFingerprintScan) (source : Text) (slot : ℤ) (now : DateTime)
    (r : Result Error (Bool × FingerprintEnrollment)) (rt : NimlyLockRuntime)
    (v : FingerprintVerification)
    → ((session : FingerprintEnrollment)
        → r ≡ ok (true, session)
        → (session.state ≡ EnrollmentState.verified)
          × (session.slot ≡ slot)
          × (session.person_id ≡ strip scan.person_id)
          × (within_ℤ 3 199 slot ≡ true)
          × (is_naive now ≡ false))
    → (settle_scan scan source slot now r rt).0 ≡ ok (some v)
    → Vouches v (settle_scan scan source slot now r rt).1
unfolding settle_scan
settle_scan-Vouches scan source slot now (err x) rt v taken h = ground arith
settle_scan-Vouches scan source slot now (ok (false, session)) rt v taken h = ground arith
settle_scan-Vouches scan source slot now (ok (true, session)) rt v taken h =
    let (state, same, person, range, aware) = taken session refl in
    pair_scan-Vouches scan session source slot now rt v state same person range aware h

pub verify_scan-Vouches :
    (uuid : Text) (scan : Option BleFingerprintScan) (source : Text) (slot : ℤ) (now : DateTime)
    (rt : NimlyLockRuntime) (v : FingerprintVerification)
    → (verify_scan uuid scan source slot now rt).0 ≡ ok (some v)
    → Vouches v (verify_scan uuid scan source slot now rt).1
unfolding verify_scan
verify_scan-Vouches uuid none source slot now rt v h = ground arith
verify_scan-Vouches uuid (some scan) source slot now rt v h =
    settle_scan-Vouches scan source slot now (scan_session uuid scan source slot now) rt v
      (scan_session_taken uuid scan source slot now) h

-- The session of a keypad enrollment that takes an unlock.
enrollment_taken :
    (source : Text) (slot : ℤ) (now : DateTime) (e : FingerprintEnrollment)
    → (Enrollment.observe_unlock source slot now e).0 ≡ ok true
    → ((Enrollment.observe_unlock source slot now e).1.state ≡ EnrollmentState.verified)
      × ((Enrollment.observe_unlock source slot now e).1.slot ≡ slot)
      × (is_naive now ≡ false)
unfolding Enrollment.observe_unlock
enrollment_taken source slot now e h =
    (ground (arith, ==ℤ_iff slot e.slot), ground (arith, ==ℤ_iff slot e.slot), ground arith)

-- What the end of `observe_mqtt_state` does with the session, whatever the session returned.
settled_enrollment-Vouches :
    (r : Result Error Bool) (session : FingerprintEnrollment) (source : Text) (slot : ℤ)
    (now : DateTime) (rt : NimlyLockRuntime) (v : FingerprintVerification)
    → (r ≡ ok true
        → (session.state ≡ EnrollmentState.verified)
          × (session.slot ≡ slot)
          × (is_naive now ≡ false))
    → (settle_enrollment r session source slot now rt).0 ≡ ok (some v)
    → Vouches v (settle_enrollment r session source slot now rt).1
unfolding settle_enrollment
settled_enrollment-Vouches (err x) session source slot now rt v taken h = ground arith
settled_enrollment-Vouches (ok false) session source slot now rt v taken h = ground arith
settled_enrollment-Vouches (ok true) session source slot now rt v taken h =
    let (state, same, aware) = taken refl in
    elim (verify_cases slot session.person_id session.person_name now none rt.slots) [
      | inr (x, e) ↦ ground arith
      | inl (range, _) ↦
          let (s, returned, found, proves, _, _, _) =
            verify_records slot session.person_id session.person_name now none rt.slots range
              aware in
          let status = proves.status in
          let id = proves.person_id in
          record {
            session = ground arith;
            state = ground arith;
            slot = ground arith;
            record_status = (s, ground arith, status, ground arith);
          }
    ]

pub verify_enrollment-Vouches :
    (enrollment : Option FingerprintEnrollment) (source : Text) (slot : ℤ) (now : DateTime)
    (rt : NimlyLockRuntime) (v : FingerprintVerification)
    → (verify_enrollment enrollment source slot now rt).0 ≡ ok (some v)
    → Vouches v (verify_enrollment enrollment source slot now rt).1
unfolding verify_enrollment
verify_enrollment-Vouches none source slot now rt v h = ground arith
verify_enrollment-Vouches (some e) source slot now rt v h =
    settled_enrollment-Vouches (Enrollment.observe_unlock source slot now e).0
      (Enrollment.observe_unlock source slot now e).1 source slot now rt v
      (enrollment_taken source slot now e) h
