-- ===== src/Tests/Sessions.antt =====
-- Requests and sessions of custom_components/nimly_manager/fingerprint_enrollment.py.
use nimly_manager.Base.{◌+◌, ◌<◌, ◌≡◌, ◌≢◌, ◌↔◌, ◌≤◌, refl, true, false, some, none, arith, length}
use nimly_manager.Base.Int.{pos, within_ℤ}
use nimly_manager.Base.Result.{ok, err}
use nimly_manager.Text.{text, text_in, lower, strip}
use nimly_manager.Time.{is_naive, local_time, reached, plus}
use nimly_manager.Request.{check_request, default_ttl}
use nimly_manager.States.{
  EnrollmentState, naive_now, cannot_confirm, cannot_cancel, slot_out_of_range,
}
use nimly_manager.Enrollment.{
  FingerprintEnrollment, start, confirm_local_programming, observe_unlock, cancel, refresh,
}
use nimly_manager.Enrollment.Lifecycle.{expiry_enforced}
use nimly_manager.Enrollment.Invariant
use nimly_manager.Enrollment.Invariant.{
  Reach, IsSession, IsStamped, SameRequest, IsSession-invariant,
}
use nimly_manager.Enrollment.History.{VerifiedIn, verified_by_unlock}
use nimly_manager.Tests.Sample.{noon, soon, late, ada, finger, session, awaiting_session}

noon_aware : is_naive noon ≡ false
unfolding is_naive
noon_aware = refl

start_run : start (text "s1") (text " p1 ") (text "Ada ") (pos 5) noon default_ttl ≡ ok session
unfolding start strip check_request is_naive plus local_time nimly_manager.Text.strip_right
    nimly_manager.Text.strip_left nimly_manager.Text.is_space
start_run = refl

range_run : start (text "s1") (text "p1") ada (pos 2) noon default_ttl ≡ err slot_out_of_range
unfolding start strip check_request is_naive plus local_time nimly_manager.Text.strip_right
    nimly_manager.Text.strip_left nimly_manager.Text.is_space
range_run = refl

unlock_run : observe_unlock (text " Fingerprint ") (pos 5) soon awaiting_session ≡ (
  ok true,
  record awaiting_session { state = EnrollmentState.verified; verified_at = some soon },
)
unfolding observe_unlock strip lower is_naive reached nimly_manager.Text.text_eq
    nimly_manager.Text.strip_right nimly_manager.Text.strip_left nimly_manager.Text.is_space
    nimly_manager.Base.Int.◌==ℤ◌
unlock_run = refl

soon_aware : is_naive soon ≡ false
unfolding is_naive
soon_aware = refl

late_aware : is_naive late ≡ false
unfolding is_naive
late_aware = refl

abbrev expired_session : FingerprintEnrollment
expired_session = record session { state = EnrollmentState.expired }

expiry_example :
    (confirm_local_programming late awaiting_session
      ≡ (err (cannot_confirm EnrollmentState.expired), expired_session))
    × (cancel late awaiting_session
        ≡ (err (cannot_cancel EnrollmentState.expired), expired_session))
    × (observe_unlock finger (pos 5) late awaiting_session ≡ (ok false, expired_session))
    × (refresh late awaiting_session ≡ (ok EnrollmentState.expired, expired_session))
unfolding nimly_manager.States.is_active
expiry_example = expiry_enforced late awaiting_session finger (pos 5) late_aware refl (omega arith)

abbrev verified_session : FingerprintEnrollment
verified_session = record session { state = EnrollmentState.verified; verified_at = some soon }

confirm_run : confirm_local_programming noon session ≡ (ok tt, awaiting_session)
unfolding confirm_local_programming is_naive reached
confirm_run = refl

verified_Reach : Reach session verified_session
unfolding confirm_local_programming observe_unlock is_naive reached strip lower
    nimly_manager.Text.text_eq nimly_manager.Text.strip_right nimly_manager.Text.strip_left
    nimly_manager.Text.is_space nimly_manager.Base.Int.◌==ℤ◌
verified_Reach =
    Invariant.next
      (Invariant.next {v = awaiting_session} Invariant.here (Invariant.confirm noon refl))
      (Invariant.unlock finger (pos 5) soon refl)

session_example :
    SameRequest session verified_session × IsSession verified_session × IsStamped verified_session
session_example =
    IsSession-invariant (text "s1") (text " p1 ") (text "Ada ") (pos 5) noon default_ttl session
      verified_session start_run verified_Reach

programming-verified : EnrollmentState.local_programming ≢ EnrollmentState.verified
programming-verified h = cc

history_example : VerifiedIn session verified_session verified_Reach
history_example =
    verified_by_unlock session verified_session verified_Reach programming-verified refl
