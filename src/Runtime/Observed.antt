-- ===== src/Runtime/Observed.antt =====
-- `NimlyLockRuntime.observe_mqtt_state` of custom_components/nimly_manager/runtime.py as a whole:
-- when a message counts as an unlock, and what a returned verification says.
use nimly_manager.Base.{
  ◌≡◌, ◌≢◌, ◌⊎◌, refl, Bool, true, false, Option, none, some, arith, if◌then◌else◌,
}
use nimly_manager.Base.Int.{ℤ}
use nimly_manager.Base.Result.{Result, ok, err, Exec}
use nimly_manager.Base.Exec.{pure, gets, ◌>>=◌}
use nimly_manager.States.{Error}
use nimly_manager.Enrollment.{FingerprintEnrollment, fingerprint_sources}
use nimly_manager.Scan.{BleFingerprintScan}
use nimly_manager.Text.{Text, text, text_in, lower}
use nimly_manager.Time.{DateTime}
use nimly_manager.Value.{Fields, get_or_null}
use nimly_manager.Slots.{is_occupied}
use nimly_manager.Runtime.{LockState, locked, unlocked, NimlyLockRuntime}
use nimly_manager.Runtime.Verification.{Vouches, verify_scan-Vouches, verify_enrollment-Vouches}
use nimly_manager.Runtime.Mqtt.{
  FingerprintVerification, text_of, slot_of, lock_state_of, verify_scan, verify_enrollment,
  scan_claims, record_unlock, settle_unlock, observe_source, observe_unlock, opens, observe_state,
  observe_mqtt_state,
}

-- Whatever a method returns for a runtime, a verification that it returns vouches for its runtime.
Sound : Exec Error NimlyLockRuntime (Option FingerprintVerification) → NimlyLockRuntime → Type 0
Sound m rt = (v : FingerprintVerification) → (m rt).0 ≡ ok (some v) → Vouches v (m rt).1

-- A call whose result and runtime are known, and the rest after it.
after-Vouches :
    {A : Type 0} (r : Result Error A) (rt : NimlyLockRuntime)
    (f : A → Exec Error NimlyLockRuntime (Option FingerprintVerification))
    → ((a : A) → Sound (f a) rt)
    → (v : FingerprintVerification) → (((λ _. (r, rt)) >>= f) rt).0 ≡ ok (some v)
    → Vouches v (((λ _. (r, rt)) >>= f) rt).1
unfolding Sound
after-Vouches (ok a) rt f h v e = h a v e
after-Vouches (err x) rt f h v e = ground arith

bind-Sound :
    {A : Type 0} (m : Exec Error NimlyLockRuntime A)
    (f : A → Exec Error NimlyLockRuntime (Option FingerprintVerification)) (rt : NimlyLockRuntime)
    → ((a : A) → Sound (f a) (m rt).1)
    → Sound (m >>= f) rt
unfolding Sound
bind-Sound m f rt h v e = after-Vouches (m rt).0 (m rt).1 f h v e

if-Sound :
    (b : Bool) (m n : Exec Error NimlyLockRuntime (Option FingerprintVerification))
    (rt : NimlyLockRuntime)
    → Sound m rt
    → Sound n rt
    → Sound (if b then m else n) rt
if-Sound true m n rt h k = h
if-Sound false m n rt h k = k

none-Sound : (rt : NimlyLockRuntime) → Sound (pure none) rt
unfolding Sound
none-Sound rt v e = ground arith

module _ (uuid : Text) (now : DateTime) where
  verify_scan-Sound :
      (scan : Option BleFingerprintScan) (source : Text) (slot : ℤ) (rt : NimlyLockRuntime)
      → Sound (verify_scan uuid scan source slot now) rt
  unfolding Sound
  verify_scan-Sound scan source slot rt = verify_scan-Vouches uuid scan source slot now rt

  verify_enrollment-Sound :
      (e : Option FingerprintEnrollment) (source : Text) (slot : ℤ) (rt : NimlyLockRuntime)
      → Sound (verify_enrollment e source slot now) rt
  unfolding Sound
  verify_enrollment-Sound e source slot rt = verify_enrollment-Vouches e source slot now rt

  settle_unlock-Sound :
      (source : Text) (slot : ℤ) (known : Bool) (rt : NimlyLockRuntime)
      → Sound (settle_unlock uuid source slot known now) rt
  unfolding settle_unlock Sound
  settle_unlock-Sound source slot known rt =
      let after = (scan_claims rt.scan slot known now rt).1 in
      bind-Sound (scan_claims rt.scan slot known now)
        (λ claimed. gets (λ rt. rt) >>= λ rt'.
          if claimed
          then verify_scan uuid rt'.scan source slot now
          else verify_enrollment rt'.enrollment source slot now)
        rt
        (λ claimed.
          if-Sound claimed (verify_scan uuid after.scan source slot now)
            (verify_enrollment after.enrollment source slot now) after
            (verify_scan-Sound after.scan source slot after)
            (verify_enrollment-Sound after.enrollment source slot after))

  observe_source-Sound :
      (source : Text) (slot : ℤ) (rt : NimlyLockRuntime)
      → Sound (observe_source uuid source slot now) rt
  unfolding observe_source Sound
  observe_source-Sound source slot rt =
      let known = is_occupied slot rt.slots in
      let settle = settle_unlock uuid source slot known now in
      if-Sound (text_in (lower source) fingerprint_sources)
        (record_unlock slot now >>= λ recorded. if recorded then settle else pure none)
        (verify_enrollment rt.enrollment source slot now) rt
        (bind-Sound (record_unlock slot now) (λ recorded. if recorded then settle else pure none) rt
          (λ recorded.
            let after = (record_unlock slot now rt).1 in
            if-Sound recorded settle (pure none) after (settle_unlock-Sound source slot known after)
              (none-Sound after)))
        (verify_enrollment-Sound rt.enrollment source slot rt)

  observe_unlock-Sound :
      (source : Option Text) (slot : Option ℤ) (rt : NimlyLockRuntime)
      → Sound (observe_unlock uuid source slot now) rt
  unfolding observe_unlock
  observe_unlock-Sound (some source) (some slot) rt = observe_source-Sound source slot rt
  observe_unlock-Sound (some source) none rt = none-Sound rt
  observe_unlock-Sound none slot rt = none-Sound rt

  observe_state-Sound :
      (state : Option LockState) (payload : Fields) (rt : NimlyLockRuntime)
      → Sound (observe_state uuid state payload now) rt
  unfolding observe_state Sound
  observe_state-Sound none payload rt = none-Sound (record rt { last_mqtt_at = some now })
  observe_state-Sound (some current) payload rt =
      let source = text_of (get_or_null (text "last_unlock_source") payload) in
      let slot = slot_of (get_or_null (text "last_unlock_user") payload) in
      let after : NimlyLockRuntime = record rt {
        last_mqtt_at = some now;
        lock_state = some current;
      } in
      if-Sound (opens rt.lock_state current) (observe_unlock uuid source slot now) (pure none) after
        (observe_unlock-Sound source slot after) (none-Sound after)

  observe_state_opens :
      (state : Option LockState) (payload : Fields) (rt : NimlyLockRuntime)
      (v : FingerprintVerification)
      → (observe_state uuid state payload now rt).0 ≡ ok (some v)
      → (rt.lock_state ≡ some locked) × (state ≡ some unlocked)
  unfolding observe_state
  observe_state_opens none payload rt v h = ground arith
  observe_state_opens (some current) payload rt v h = (ground arith, ground arith)

-- A message for which observe_mqtt_state returns a verification says that the lock is unlocked,
-- and comes while the lock was known as locked. The runtime then holds the session of the
-- verification, verified and for the slot that the verification names, and a VERIFIED record of
-- that slot for the session's person.
pub verification_sound :
    (uuid : Text) (payload : Fields) (now : DateTime) (rt : NimlyLockRuntime)
    (v : FingerprintVerification)
    → (observe_mqtt_state uuid payload now rt).0 ≡ ok (some v)
    → (rt.lock_state ≡ some locked)
      × (lock_state_of payload ≡ some unlocked)
      × Vouches v (observe_mqtt_state uuid payload now rt).1
unfolding observe_mqtt_state Sound
verification_sound uuid payload now rt v h =
    let (before, after) = observe_state_opens uuid now (lock_state_of payload) payload rt v h in
    (before, after, observe_state-Sound uuid now (lock_state_of payload) payload rt v h)

quiet_state :
    (uuid : Text) (state : Option LockState) (payload : Fields) (now : DateTime)
    (rt : NimlyLockRuntime)
    → (rt.lock_state ≢ some locked) ⊎ (state ≢ some unlocked)
    → let (result, rt') = observe_state uuid state payload now rt in
      (result ≡ ok none)
      × (rt'.enrollment ≡ rt.enrollment)
      × (rt'.scan ≡ rt.scan)
      × (rt'.slots ≡ rt.slots)
      × (rt'.last_mqtt_at ≡ some now)
unfolding observe_state
quiet_state uuid none payload now rt h = (refl, refl, refl, refl, refl)
quiet_state uuid (some current) payload now rt h =
    (ground arith, ground arith, ground arith, ground arith, ground arith)

-- A message that is not a change from locked to unlocked, such as the first one after a start,
-- verifies nothing: the enrollment, the scan and the slots stay as they are, and the time of the
-- last message is set.
pub unlock_needed :
    (uuid : Text) (payload : Fields) (now : DateTime) (rt : NimlyLockRuntime)
    → (rt.lock_state ≢ some locked) ⊎ (lock_state_of payload ≢ some unlocked)
    → let (result, rt') = observe_mqtt_state uuid payload now rt in
      (result ≡ ok none)
      × (rt'.enrollment ≡ rt.enrollment)
      × (rt'.scan ≡ rt.scan)
      × (rt'.slots ≡ rt.slots)
      × (rt'.last_mqtt_at ≡ some now)
unfolding observe_mqtt_state
unlock_needed uuid payload now rt h = quiet_state uuid (lock_state_of payload) payload now rt h
