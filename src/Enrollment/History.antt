-- ===== src/Enrollment/History.antt =====
-- How a session comes to be verified.
use nimly_manager.Base.{
  ◌≡◌, ◌≢◌, ap, ◌∙◌, ◌⊎◌, some, Bool, true, false, inl, inr, arith, Bool-cases,
}
use nimly_manager.Base.Int.{ℤ, ==ℤ_iff}
use nimly_manager.Base.Result.{ok}
use nimly_manager.Text.{Text, strip, text_in, lower}
use nimly_manager.Time.{DateTime}
use nimly_manager.States.{EnrollmentState}
use nimly_manager.Enrollment.{
  FingerprintEnrollment, confirm_local_programming, observe_unlock, cancel, refresh,
  fingerprint_sources,
}
use nimly_manager.Enrollment.Invariant.{
  Step, confirm, unlock, abort, look, Reach, here, next, Reach-SameRequest,
}

is_verified : EnrollmentState → Bool
is_verified EnrollmentState.verified = true
is_verified _ = false

module _ (source : Text) (slot : ℤ) (now : DateTime) (u : FingerprintEnrollment)
    (h : is_verified u.state ≡ false)
    (k : is_verified (observe_unlock source slot now u).1.state ≡ true) where
  unlock_awaiting : u.state ≡ EnrollmentState.awaiting_verification
  unfolding is_verified observe_unlock
  unlock_awaiting = ground arith

  unlock_finger : text_in (lower (strip source)) fingerprint_sources ≡ true
  unfolding is_verified observe_unlock
  unlock_finger = ground arith

  unlock_slot : slot ≡ u.slot
  unfolding is_verified observe_unlock
  unlock_slot = ground (arith, ==ℤ_iff slot u.slot)

  unlock_taken : (observe_unlock source slot now u).0 ≡ ok true
  unfolding is_verified observe_unlock
  unlock_taken = ground arith

  unlock_stamp : (observe_unlock source slot now u).1.verified_at ≡ some now
  unfolding is_verified observe_unlock
  unlock_stamp = ground arith

-- The call is an observe_unlock that was taken: the session was awaiting verification, the source is a
-- fingerprint, the slot is the one given; it returned True, and left the session verified at its time.
abbrev pub IsFingerUnlock : ℤ → (u v : FingerprintEnrollment) → Step u v → Type 0
IsFingerUnlock own u v (confirm now s) = ⊥
IsFingerUnlock own u v (unlock source slot now s) =
    (u.state ≡ EnrollmentState.awaiting_verification)
    × (text_in (lower (strip source)) fingerprint_sources ≡ true)
    × (slot ≡ own)
    × ((observe_unlock source slot now u).0 ≡ ok true)
    × (v.state ≡ EnrollmentState.verified)
    × (v.verified_at ≡ some now)
IsFingerUnlock own u v (abort now s) = ⊥
IsFingerUnlock own u v (look now s) = ⊥

-- One of these calls is such an unlock, for the slot of the session that they began with.
abbrev pub VerifiedIn : (e e' : FingerprintEnrollment) → Reach e e' → Type 0
VerifiedIn e e' here = ⊥
VerifiedIn e e' (next {u} r st) = IsFingerUnlock e.slot u e' st ⊎ VerifiedIn e u r

Step-unlock :
    (own : ℤ) (u v : FingerprintEnrollment) (st : Step u v)
    → u.slot ≡ own
    → is_verified u.state ≡ false
    → is_verified v.state ≡ true
    → IsFingerUnlock own u v st
unfolding confirm_local_programming cancel refresh is_verified
Step-unlock own u v (confirm now s) q h k = absurd (ground arith)
Step-unlock own u v (unlock source slot now s) q h k =
    let k' : is_verified (observe_unlock source slot now u).1.state ≡ true = cc in
    (
      unlock_awaiting source slot now u h k',
      unlock_finger source slot now u h k',
      unlock_slot source slot now u h k' ∙ q,
      unlock_taken source slot now u h k',
      ground arith,
      ap (λ x. x.verified_at) s ∙ unlock_stamp source slot now u h k',
    )
Step-unlock own u v (abort now s) q h k = absurd (ground arith)
Step-unlock own u v (look now s) q h k = absurd (ground arith)

Reach-unlock :
    (e e' : FingerprintEnrollment) (r : Reach e e')
    → is_verified e.state ≡ false
    → is_verified e'.state ≡ true
    → VerifiedIn e e' r
Reach-unlock e e' here h k = cc
Reach-unlock e e' (next {u} r st) h k = elim (Bool-cases (is_verified u.state)) [
  | inl already ↦ inr (Reach-unlock e u r h already)
  | inr not_yet ↦ inl (Step-unlock e.slot u e' st (Reach-SameRequest e u r).slot not_yet k)
]

-- Of any calls that lead from a session that was not verified to one that is, one is an
-- observe_unlock, from a fingerprint source and with the session's own slot, while the session was
-- awaiting verification, that returned True and left the session verified at the time of that call.
pub verified_by_unlock :
    (e e' : FingerprintEnrollment) (r : Reach e e')
    → e.state ≢ EnrollmentState.verified
    → e'.state ≡ EnrollmentState.verified
    → VerifiedIn e e' r
unfolding is_verified
verified_by_unlock e e' r h k = Reach-unlock e e' r (ground arith) (ground arith)
