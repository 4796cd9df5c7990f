-- ===== src/Enrollment/Lifecycle.antt =====
-- The life of a `FingerprintEnrollment`: the transitions of its methods, on every branch.
use nimly_manager.Base.{◌≤◌, ◌<◌, ◌≡◌, ◌↔◌, true, false, some, arith}
use nimly_manager.Base.Int.{ℤ, ==ℤ_iff}
use nimly_manager.Base.Result.{ok, err}
use nimly_manager.Text.{Text, text_in, strip, lower}
use nimly_manager.Time.{DateTime, is_naive}
use nimly_manager.States.{
  EnrollmentState, naive_now, is_terminal, is_active, cannot_confirm, cannot_cancel,
}
use nimly_manager.Enrollment.{
  FingerprintEnrollment, fingerprint_sources, confirm_local_programming, observe_unlock, cancel,
  refresh,
}

-- The session is in reach of its methods at `now`: the time is aware and before the expiry.
abbrev pub InTime : DateTime → FingerprintEnrollment → Type 0
InTime now e = (is_naive now ≡ false) × (now.instant < e.expires_at.instant)

-- observe_unlock answers true, with the session verified at that time, exactly if the time is
-- aware and before the expiry, the session awaits verification, the source is a fingerprint source
-- up to spaces and case, and the slot is the session's.
pub observe_unlock-true :
    (source : Text) (slot : ℤ) (now : DateTime) (e : FingerprintEnrollment)
    → (observe_unlock source slot now e
        ≡ (ok true, record e { state = EnrollmentState.verified; verified_at = some now }))
      ↔ (InTime now e
          × (e.state ≡ EnrollmentState.awaiting_verification)
          × (text_in (lower (strip source)) fingerprint_sources ≡ true)
          × (slot ≡ e.slot))
unfolding observe_unlock
observe_unlock-true source slot now e =
    (λ h. ground (arith, ==ℤ_iff slot e.slot), λ h. ground (arith, ==ℤ_iff slot e.slot))

-- Once the session is verified, cancelled or expired, no method at an aware time changes it:
-- confirm and cancel raise, an unlock is not taken, and refresh returns the state.
pub terminal_absorbing :
    (now : DateTime) (e : FingerprintEnrollment) (source : Text) (slot : ℤ)
    → is_naive now ≡ false
    → is_terminal e.state ≡ true
    → (confirm_local_programming now e ≡ (err (cannot_confirm e.state), e))
      × (cancel now e ≡ (err (cannot_cancel e.state), e))
      × (observe_unlock source slot now e ≡ (ok false, e))
      × (refresh now e ≡ (ok e.state, e))
unfolding confirm_local_programming cancel observe_unlock refresh
terminal_absorbing now e source slot h k = (ground arith, ground arith, ground arith, ground arith)

-- At or after the expiry an active session expires whatever method is called: confirm and cancel
-- raise, an unlock is not taken, and refresh returns the state EXPIRED.
pub expiry_enforced :
    (now : DateTime) (e : FingerprintEnrollment) (source : Text) (slot : ℤ)
    → is_naive now ≡ false
    → is_active e.state ≡ true
    → e.expires_at.instant ≤ now.instant
    → let gone = record e { state = EnrollmentState.expired } in
      (confirm_local_programming now e ≡ (err (cannot_confirm EnrollmentState.expired), gone))
      × (cancel now e ≡ (err (cannot_cancel EnrollmentState.expired), gone))
      × (observe_unlock source slot now e ≡ (ok false, gone))
      × (refresh now e ≡ (ok EnrollmentState.expired, gone))
unfolding confirm_local_programming cancel observe_unlock refresh
expiry_enforced now e source slot h k l = (ground arith, ground arith, ground arith, ground arith)

-- A naive time is refused by every method, and leaves the session as it was.
pub naive_refused :
    (now : DateTime) (e : FingerprintEnrollment) (source : Text) (slot : ℤ)
    → is_naive now ≡ true
    → (confirm_local_programming now e ≡ (err naive_now, e))
      × (cancel now e ≡ (err naive_now, e))
      × (observe_unlock source slot now e ≡ (err naive_now, e))
      × (refresh now e ≡ (err naive_now, e))
unfolding confirm_local_programming cancel observe_unlock refresh
naive_refused now e source slot h = (ground arith, ground arith, ground arith, ground arith)
