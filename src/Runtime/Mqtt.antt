-- ===== src/Runtime/Mqtt.antt =====
-- `NimlyLockRuntime.observe_mqtt_state` of custom_components/nimly_manager/runtime.py, and the
-- functions that it calls.
use nimly_manager.Base.{
  Bool, true, false, not, ◌&&◌, Option, none, some, [], ◌∷◌, ◌++◌, if◌then◌else◌,
}
use nimly_manager.Base.Int.{ℤ, within_ℤ}
use nimly_manager.Base.Result.{Result, ok, err, Exec}
use nimly_manager.Base.Exec.{pure, lift, gets, modify, ◌>>=◌, ◌>>◌}
use nimly_manager.Text.{Text, text, strip, lower, text_in}
use nimly_manager.Text.Number.{int_of_text}
use nimly_manager.Time.{DateTime}
use nimly_manager.Value
use nimly_manager.Value.{Value, Fields, str, int, null, get_or_null}
use nimly_manager.Request.{is_empty, default_ttl}
use nimly_manager.States.{Error, assertion, is_value_error}
use nimly_manager.Enrollment
use nimly_manager.Enrollment.{FingerprintEnrollment, fingerprint_sources}
use nimly_manager.Scan
use nimly_manager.Scan.{BleFingerprintScan, value_or_null}
use nimly_manager.Slots
use nimly_manager.Slots.{is_occupied}
use nimly_manager.Runtime.{
  LockState, locked, unlocked, NimlyLockRuntime, on_enrollment, on_scan, on_slots,
}

-- _text
unfoldable pub text_of : Value → Option Text
text_of (str s) = let t = strip s in if is_empty t then none else some t
text_of _ = none

-- _slot
unfoldable pub slot_of : Value → Option ℤ
unfolding int_of_text
slot_of (int n) = some n
slot_of (str s) = int_of_text (strip s)
slot_of _ = none

-- The dictionary of `_lock_state`.
unfoldable pub lock_word : Text → Option LockState
lock_word word =
    if text_in word (text "lock" ∷ text "locked" ∷ [])
    then some locked
    else if text_in word (text "unlock" ∷ text "unlocked" ∷ [])
    then some unlocked
    else none

-- _lock_state
unfoldable pub lock_state_of : Fields → Option LockState
unfolding text_of lock_word
lock_state_of payload =
    let raw : Value = elim (Value.get (text "state") payload) [
      | some v ↦ v
      | none ↦ get_or_null (text "lock_state") payload
    ] in
    elim (text_of raw) [ none ↦ none | some word ↦ lock_word (lower word) ]

pub record FingerprintVerification : Type 0 where
  pub session : FingerprintEnrollment
  pub source : Text
  pub user_slot : ℤ
  pub ble_slot : Option ℤ

-- FingerprintVerification.as_event_data; the keys of the session's dictionary are others
unfoldable pub as_event_data : FingerprintVerification → Fields
as_event_data v =
    Enrollment.as_public_dict v.session
    ++ ((text "source", str v.source)
        ∷ (text "user_id", int v.user_slot)
        ∷ (text "ble_slot", value_or_null int v.ble_slot)
        ∷ [])

-- scan.armed_for_verification, where there is a scan
abbrev pub is_armed_now : Option BleFingerprintScan → Bool
is_armed_now none = false
is_armed_now (some s) = Scan.armed_for_verification s

-- NimlyLockRuntime._scan_claims on the scan that the runtime holds
unfoldable pub scan_claims :
    Option BleFingerprintScan → ℤ → Bool → DateTime → Exec Error NimlyLockRuntime Bool
unfolding Scan.armed_for_verification
scan_claims none user_slot was_known now = pure false
scan_claims (some s) user_slot was_known now = do
  state ← on_scan s (Scan.refresh now)
  rt ← gets (λ rt. rt)
  pure (is_armed_now rt.scan && (not was_known && within_ℤ 3 199 user_slot))

-- The session that `_verify_scan` makes and runs, with what its `observe_unlock` returned.
unfoldable pub scan_session :
    Text → BleFingerprintScan → Text → ℤ → DateTime → Result Error (Bool × FingerprintEnrollment)
scan_session uuid scan source user_slot now =
    elim (Enrollment.start uuid scan.person_id scan.person_name user_slot now default_ttl) [
      | err x ↦ err x
      | ok opened ↦
          let (confirming, confirmed) = Enrollment.confirm_local_programming now opened in
          elim confirming [
            | err x ↦ err x
            | ok _ ↦
                let (observing, session) =
                  Enrollment.observe_unlock source user_slot now confirmed in
                elim observing [ err x ↦ err x | ok taken ↦ ok (taken, session) ]
          ]
    ]

-- The rest of `_verify_scan`, once its session has taken the unlock.
unfoldable pub pair_scan :
    BleFingerprintScan
    → FingerprintEnrollment
    → Text
    → ℤ
    → DateTime
    → Exec Error NimlyLockRuntime (Option FingerprintVerification)
pair_scan scan session source user_slot now = do
  seen ← on_slots (Slots.verify user_slot scan.person_id scan.person_name now (some scan.ble_slot))
  on_scan scan (Scan.observe_verified now user_slot session.session_id)
  modify (λ rt. record rt { enrollment = some session })
  pure (
      some (record {
        session = session;
        source = lower source;
        user_slot = user_slot;
        ble_slot = some scan.ble_slot;
      }))

-- The end of `_verify_scan`: what its session made of the unlock, or what it raised.
unfoldable pub settle_scan :
    BleFingerprintScan
    → Text
    → ℤ
    → DateTime
    → Result Error (Bool × FingerprintEnrollment)
    → Exec Error NimlyLockRuntime (Option FingerprintVerification)
settle_scan scan source user_slot now outcome = do
  (taken, session) ← lift outcome
  if taken then pair_scan scan session source user_slot now else pure none

-- NimlyLockRuntime._verify_scan on the scan that the runtime holds
unfoldable pub verify_scan :
    Text
    → Option BleFingerprintScan
    → Text
    → ℤ
    → DateTime
    → Exec Error NimlyLockRuntime (Option FingerprintVerification)
verify_scan uuid none source user_slot now = lift (err assertion)
verify_scan uuid (some scan) source user_slot now =
    settle_scan scan source user_slot now (scan_session uuid scan source user_slot now)

-- The rest of `observe_mqtt_state`, from what the session of a keypad enrollment returned and how
-- it was left.
unfoldable pub settle_enrollment :
    Result Error Bool
    → FingerprintEnrollment
    → Text
    → ℤ
    → DateTime
    → Exec Error NimlyLockRuntime (Option FingerprintVerification)
settle_enrollment outcome session source user_slot now = do
  taken ← on_enrollment session (lift outcome)
  if taken
      then (do
        seen ← on_slots (Slots.verify user_slot session.person_id session.person_name now none)
        pure (
            some (record {
              session = session;
              source = lower source;
              user_slot = user_slot;
              ble_slot = none;
            })))
      else pure none

-- The end of `observe_mqtt_state`: the session of a keypad enrollment, if it takes the unlock.
unfoldable pub verify_enrollment :
    Option FingerprintEnrollment
    → Text
    → ℤ
    → DateTime
    → Exec Error NimlyLockRuntime (Option FingerprintVerification)
verify_enrollment none source user_slot now = pure none
verify_enrollment (some e) source user_slot now =
    let (outcome, session) = Enrollment.observe_unlock source user_slot now e in
    settle_enrollment outcome session source user_slot now

-- The `try` around `observe`: whether to go on.
unfoldable pub record_unlock : ℤ → DateTime → Exec Error NimlyLockRuntime Bool
unfolding is_value_error
record_unlock user_slot now rt =
    let (result, rt') = on_slots (Slots.observe user_slot now) rt in
    elim result [
      | ok _ ↦ (ok true, rt')
      | err x ↦ (if is_value_error x then ok false else err x, rt')
    ]

-- What follows an observation that was recorded: the scan's claim goes before the enrollment.
unfoldable pub settle_unlock :
    Text → Text → ℤ → Bool → DateTime → Exec Error NimlyLockRuntime (Option FingerprintVerification)
settle_unlock uuid source user_slot was_known now = do
  rt ← gets (λ rt. rt)
  claimed ← scan_claims rt.scan user_slot was_known now
  rt' ← gets (λ rt. rt)
  if claimed
      then verify_scan uuid rt'.scan source user_slot now
      else verify_enrollment rt'.enrollment source user_slot now

-- `observe_mqtt_state` from the test of the source on.
unfoldable pub observe_source :
    Text → Text → ℤ → DateTime → Exec Error NimlyLockRuntime (Option FingerprintVerification)
observe_source uuid source user_slot now = do
  rt ← gets (λ rt. rt)
  let was_known = is_occupied user_slot rt.slots
  if text_in (lower source) fingerprint_sources
      then (do
        recorded ← record_unlock user_slot now
        if recorded then settle_unlock uuid source user_slot was_known now else pure none)
      else verify_enrollment rt.enrollment source user_slot now

-- The source and the slot of an unlock, which must both be there.
unfoldable pub observe_unlock :
    Text
    → Option Text
    → Option ℤ
    → DateTime
    → Exec Error NimlyLockRuntime (Option FingerprintVerification)
observe_unlock uuid (some source) (some user_slot) now = observe_source uuid source user_slot now
observe_unlock uuid _ _ now = pure none

-- previous_state == LOCKED and current_state == UNLOCKED
unfoldable pub opens : Option LockState → LockState → Bool
opens (some locked) unlocked = true
opens _ _ = false

-- NimlyLockRuntime.observe_mqtt_state, by what `_lock_state` says of the payload
unfoldable pub observe_state :
    Text
    → Option LockState
    → Fields
    → DateTime
    → Exec Error NimlyLockRuntime (Option FingerprintVerification)
unfolding opens text_of slot_of
observe_state uuid none payload now = do
  modify (λ rt. record rt { last_mqtt_at = some now })
  pure none
observe_state uuid (some current) payload now = do
  modify (λ rt. record rt { last_mqtt_at = some now })
  rt ← gets (λ rt. rt)
  modify (λ rt. record rt { lock_state = some current })
  if opens rt.lock_state current
      then observe_unlock uuid (text_of (get_or_null (text "last_unlock_source") payload))
          (slot_of (get_or_null (text "last_unlock_user") payload)) now
      else pure none

unfoldable pub observe_mqtt_state :
    Text → Fields → DateTime → Exec Error NimlyLockRuntime (Option FingerprintVerification)
unfolding observe_state lock_state_of
observe_mqtt_state uuid payload now = observe_state uuid (lock_state_of payload) payload now
