-- ===== src/Enrollment.antt =====
-- custom_components/nimly_manager/fingerprint_enrollment.py: `FingerprintEnrollment`, one guided
-- session. Each method is an action on the session; the text of `uuid4` is an argument of `start`.
pub mod Lifecycle
pub mod Invariant
pub mod History
use nimly_manager.Base.{
  ℕ, ◌+◌, ◌≡◌, Bool, true, false, not, ◌&&◌, Option, none, some, List, [], ◌∷◌, ◌++◌, ltb, within,
  length, if◌then◌else◌,
}
use nimly_manager.Base.Int.{ℤ, pos, within_ℤ, ◌==ℤ◌}
use nimly_manager.Base.Result.{Result, ok, err, Exec}
use nimly_manager.Base.Exec.{pure, lift, gets, modify, raise_when, ◌>>=◌, ◌>>◌}
use nimly_manager.Text.{Text, text, text_in, strip, lower}
use nimly_manager.Text.Number.{show_three}
use nimly_manager.Time.{DateTime, reached}
use nimly_manager.Request.{check_request, require_timezone}
use nimly_manager.Time.Iso.{isoformat}
use nimly_manager.Value.{Fields, null, str, int}
use nimly_manager.States.{
  EnrollmentState, Error, slot_out_of_range, cannot_confirm, cannot_cancel, is_terminal, is_active,
  is_local_programming, is_awaiting, state_name,
}

abbrev pub fingerprint_slot_min : ℕ
fingerprint_slot_min = 3

abbrev pub fingerprint_slot_max : ℕ
fingerprint_slot_max = 199

abbrev pub fingerprint_sources : List Text
fingerprint_sources = text "fingerprint" ∷ text "fingerprintsensor" ∷ []

pub record FingerprintEnrollment : Type 0 where
  pub session_id : Text
  pub person_id : Text
  pub person_name : Text
  pub slot : ℤ
  pub started_at : DateTime
  pub expires_at : DateTime
  pub state : EnrollmentState
  pub verified_at : Option DateTime

-- FingerprintEnrollment.start
unfoldable pub start : Text → Text → Text → ℤ → DateTime → ℤ → Result Error FingerprintEnrollment
unfolding check_request
start uuid person_id person_name slot now ttl =
    let id = strip person_id in
    let name = strip person_name in
    let slot_test : Result Error (Unit {0}) =
      if within_ℤ fingerprint_slot_min fingerprint_slot_max slot
      then ok tt
      else err slot_out_of_range in
    elim (check_request id name slot_test now ttl) [
      | err e ↦ err e
      | ok end ↦ ok (record {
        session_id = uuid;
        person_id = id;
        person_name = name;
        slot = slot;
        started_at = now;
        expires_at = end;
        state = EnrollmentState.local_programming;
        verified_at = none;
      })
    ]

-- FingerprintEnrollment.keypad_slot
unfoldable pub keypad_slot : FingerprintEnrollment → Text
unfolding show_three
keypad_slot e = show_three e.slot

-- The assignment of `_expire`.
unfoldable pub expired_at : DateTime → FingerprintEnrollment → FingerprintEnrollment
unfolding is_active reached
expired_at now e =
    if is_active e.state && reached now e.expires_at
    then record e { state = EnrollmentState.expired }
    else e

-- FingerprintEnrollment._expire
unfoldable pub expire : DateTime → Exec Error FingerprintEnrollment (Unit {0})
unfolding require_timezone expired_at
expire now = do lift (require_timezone now); modify (expired_at now)

-- FingerprintEnrollment.confirm_local_programming
unfoldable pub confirm_local_programming : DateTime → Exec Error FingerprintEnrollment (Unit {0})
unfolding expire is_local_programming
confirm_local_programming now = do
  expire now
  raise_when (λ e. not (is_local_programming e.state)) (λ e. cannot_confirm e.state)
  modify (λ e. record e { state = EnrollmentState.awaiting_verification })

-- The tests of `observe_unlock` after `_expire`.
unfoldable pub matches : Text → ℤ → FingerprintEnrollment → Bool
unfolding is_awaiting
matches source user_slot e =
    is_awaiting e.state
    && (text_in (lower (strip source)) fingerprint_sources && user_slot ==ℤ e.slot)

-- FingerprintEnrollment.observe_unlock
unfoldable pub observe_unlock : Text → ℤ → DateTime → Exec Error FingerprintEnrollment Bool
unfolding expire matches
observe_unlock source user_slot now = do
  expire now
  e ← gets (λ e. e)
  if matches source user_slot e
      then (do
        modify (λ e. record e { state = EnrollmentState.verified; verified_at = some now })
        pure true)
      else pure false

-- FingerprintEnrollment.cancel
unfoldable pub cancel : DateTime → Exec Error FingerprintEnrollment (Unit {0})
unfolding expire is_terminal
cancel now = do
  expire now
  raise_when (λ e. is_terminal e.state) (λ e. cannot_cancel e.state)
  modify (λ e. record e { state = EnrollmentState.cancelled })

-- FingerprintEnrollment.refresh
unfoldable pub refresh : DateTime → Exec Error FingerprintEnrollment EnrollmentState
unfolding expire
refresh now = do expire now; gets (λ e. e.state)

-- FingerprintEnrollment.as_public_dict
unfoldable pub as_public_dict : FingerprintEnrollment → Fields
unfolding keypad_slot state_name isoformat
as_public_dict e =
    (text "session_id", str e.session_id)
    ∷ (text "person_id", str e.person_id)
    ∷ (text "person_name", str e.person_name)
    ∷ (text "slot", int e.slot)
    ∷ (text "keypad_slot", str (keypad_slot e))
    ∷ (text "state", str (state_name e.state))
    ∷ (text "started_at", str (isoformat e.started_at))
    ∷ (text "expires_at", str (isoformat e.expires_at))
    ∷ (text "verified_at", elim e.verified_at [ none ↦ null | some t ↦ str (isoformat t) ])
    ∷ []

-- FingerprintEnrollment.instructions
unfoldable pub instructions : FingerprintEnrollment → List Text
unfolding keypad_slot
instructions e =
    text "Vekk låsens berøringspanel."
    ∷ text "Trykk ###."
    ∷ text "Legg masterfinger på fingeravtrykksleseren."
    ∷ (text "Tast " ++ (keypad_slot e ++ text "*."))
    ∷ text "Følg låsens pip: legg på fingeren og løft etter pipet, tre ganger."
    ∷ text "Bekreft lokal programmering i Nimly Manager."
    ∷ text "Lås låsen, og lås deretter opp med den nye fingeren for verifisering."
    ∷ []
