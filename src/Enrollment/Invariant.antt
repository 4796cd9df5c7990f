-- ===== src/Enrollment/Invariant.antt =====
-- What holds of a session from `start` on, whatever calls are made.
use mathlib.Core.Path.{subst, subst₂}
use nimly_manager.Base.{
  ◌<◌, ◌≡◌, ◌↔◌, refl, sym, ◌∙◌, true, none, some, arith, is_some, if◌then◌else◌,
}
use nimly_manager.Base.Int.{ℤ, within_ℤ}
use nimly_manager.Base.Result.{Result, ok, err}
use nimly_manager.Text.{Text, strip}
use nimly_manager.Time.{DateTime}
use nimly_manager.Request.{check_request}
use nimly_manager.Request.Laws.{
  IsPerson, IsExpiry, granted-IsPerson, granted_slot, granted-IsExpiry,
}
use nimly_manager.States.{EnrollmentState, Error, slot_out_of_range}
use nimly_manager.Enrollment.{
  FingerprintEnrollment, start, confirm_local_programming, observe_unlock, cancel, refresh,
}

-- One call of a method, with any arguments.
pub data Step (e e' : FingerprintEnrollment) : Type 0 where
  confirm : (now : DateTime) → e' ≡ (confirm_local_programming now e).1 → Step e e'
  unlock :
      (source : Text) (slot : ℤ) (now : DateTime)
      → e' ≡ (observe_unlock source slot now e).1
      → Step e e'
  abort : (now : DateTime) → e' ≡ (cancel now e).1 → Step e e'
  look : (now : DateTime) → e' ≡ (refresh now e).1 → Step e e'

-- Any sequence of calls.
pub data Reach (e : FingerprintEnrollment) : FingerprintEnrollment → Type 0 where
  here : Reach e e
  next : {u v : FingerprintEnrollment} → Reach e u → Step u v → Reach e v

-- What a session carries.
pub record IsSession (e : FingerprintEnrollment) : Type 0 where
  pub person : IsPerson e.person_id e.person_name
  pub slot : within_ℤ 3 199 e.slot ≡ true
  pub span : IsExpiry e.started_at e.expires_at

-- The time of verification is kept exactly while the session is verified, and is before the expiry.
pub record IsStamped (e : FingerprintEnrollment) : Type 0 where
  pub stamp : (e.state ≡ EnrollmentState.verified) ↔ (is_some e.verified_at ≡ true)
  pub before : (t : DateTime) → e.verified_at ≡ some t → t.instant < e.expires_at.instant

module _ (uuid person_id person_name : Text) (slot : ℤ) (now : DateTime) (ttl : ℤ) where
  abbrev requested : Result Error DateTime
  requested =
      check_request (strip person_id) (strip person_name)
        (if within_ℤ 3 199 slot then ok tt else err slot_out_of_range) now ttl

  abbrev opened : DateTime → FingerprintEnrollment
  opened end = record {
    session_id = uuid;
    person_id = strip person_id;
    person_name = strip person_name;
    slot = slot;
    started_at = now;
    expires_at = end;
    state = EnrollmentState.local_programming;
    verified_at = none;
  }

  -- A fresh session: what it carries, and that no call has been made.
  abbrev IsFresh : FingerprintEnrollment → Type 0
  IsFresh e = IsSession e × IsStamped e × (e.state ≡ EnrollmentState.local_programming)

  opened-IsFresh : (end : DateTime) → requested ≡ ok end → IsFresh (opened end)
  opened-IsFresh end q = (
    record {
      person =
          granted-IsPerson (strip person_id) (strip person_name)
            (if within_ℤ 3 199 slot then ok tt else err slot_out_of_range) now end ttl q;
      slot = slot_granted (
          granted_slot (strip person_id) (strip person_name)
            (if within_ℤ 3 199 slot then ok tt else err slot_out_of_range) now end ttl q);
      span =
          granted-IsExpiry (strip person_id) (strip person_name)
            (if within_ℤ 3 199 slot then ok tt else err slot_out_of_range) now end ttl q;
    },
    record { stamp = ground arith; before = λ t h. cc },
    refl,
  )
    where
      slot_granted :
          ◌≡◌ {A = Result Error (Unit {0})}
            (if within_ℤ 3 199 slot then ok tt else err slot_out_of_range)
            (ok tt)
          → within_ℤ 3 199 slot ≡ true
      slot_granted h = ground arith

  start_granted :
      (end : DateTime)
      → requested ≡ ok end
      → start uuid person_id person_name slot now ttl ≡ ok (opened end)
  unfolding start
  start_granted end q = rw (q, start)

  start_refused :
      (x : Error) → requested ≡ err x → start uuid person_id person_name slot now ttl ≡ err x
  unfolding start
  start_refused x q = rw (q, start)

  start-IsFresh_by :
      (r : Result Error DateTime) {e : FingerprintEnrollment}
      → requested ≡ r
      → start uuid person_id person_name slot now ttl ≡ ok e
      → IsFresh e
  start-IsFresh_by (err x) q h = cc (start_refused x q)
  start-IsFresh_by (ok end) {e} q h =
      let p : opened end ≡ e = cc (start_granted end q) in subst IsFresh p (opened-IsFresh end q)

  pub start-IsFresh :
      {e : FingerprintEnrollment} → start uuid person_id person_name slot now ttl ≡ ok e → IsFresh e
  start-IsFresh h = start-IsFresh_by requested refl h

-- The person, the slot and the times of a session never change.
pub record SameRequest (e e' : FingerprintEnrollment) : Type 0 where
  pub session_id : e'.session_id ≡ e.session_id
  pub person_id : e'.person_id ≡ e.person_id
  pub person_name : e'.person_name ≡ e.person_name
  pub slot : e'.slot ≡ e.slot
  pub started_at : e'.started_at ≡ e.started_at
  pub expires_at : e'.expires_at ≡ e.expires_at

Step-SameRequest : (e e' : FingerprintEnrollment) → Step e e' → SameRequest e e'
unfolding confirm_local_programming observe_unlock cancel refresh
Step-SameRequest e e' (confirm now q) = ground arith
Step-SameRequest e e' (unlock source slot now q) = ground arith
Step-SameRequest e e' (abort now q) = ground arith
Step-SameRequest e e' (look now q) = ground arith

Step-IsStamped : (e e' : FingerprintEnrollment) → Step e e' → IsStamped e → IsStamped e'
unfolding confirm_local_programming observe_unlock cancel refresh
Step-IsStamped e e' (confirm now q) s = record {
  stamp = ground (arith, s.stamp);
  before = λ t h. ground (arith, s.before t);
}
Step-IsStamped e e' (unlock source slot now q) s = record {
  stamp = ground (arith, s.stamp);
  before = λ t h. ground (arith, s.before t);
}
Step-IsStamped e e' (abort now q) s = record {
  stamp = ground (arith, s.stamp);
  before = λ t h. ground (arith, s.before t);
}
Step-IsStamped e e' (look now q) s = record {
  stamp = ground (arith, s.stamp);
  before = λ t h. ground (arith, s.before t);
}

pub Reach-SameRequest : (e e' : FingerprintEnrollment) → Reach e e' → SameRequest e e'
Reach-SameRequest e e' here = record {
  session_id = refl;
  person_id = refl;
  person_name = refl;
  slot = refl;
  started_at = refl;
  expires_at = refl;
}
Reach-SameRequest e e' (next {u} r st) =
    let a = Reach-SameRequest e u r in
    let b = Step-SameRequest u e' st in
    record {
      session_id = b.session_id ∙ a.session_id;
      person_id = b.person_id ∙ a.person_id;
      person_name = b.person_name ∙ a.person_name;
      slot = b.slot ∙ a.slot;
      started_at = b.started_at ∙ a.started_at;
      expires_at = b.expires_at ∙ a.expires_at;
    }

Reach-IsStamped : (e e' : FingerprintEnrollment) → Reach e e' → IsStamped e → IsStamped e'
Reach-IsStamped e e' here s = s
Reach-IsStamped e e' (next {u} r st) s = Step-IsStamped u e' st (Reach-IsStamped e u r s)

SameRequest-IsSession :
    (e e' : FingerprintEnrollment) → SameRequest e e' → IsSession e → IsSession e'
SameRequest-IsSession e e' q s = record {
  person = subst₂ IsPerson (sym q.person_id) (sym q.person_name) s.person;
  slot = rw q.slot s.slot;
  span = subst₂ IsExpiry (sym q.started_at) (sym q.expires_at) s.span;
}

-- Whatever calls follow a successful start, the session keeps its identifier, person, slot and
-- times; the person is named in 1 to 100 characters, the slot is from 3 to 199, the expiry is one
-- minute to one hour after the start; and it has a time of verification exactly while it is
-- verified, which is before the expiry.
pub IsSession-invariant :
    (uuid person_id person_name : Text) (slot : ℤ) (now : DateTime) (ttl : ℤ)
    (e e' : FingerprintEnrollment)
    → start uuid person_id person_name slot now ttl ≡ ok e
    → Reach e e'
    → SameRequest e e' × IsSession e' × IsStamped e'
IsSession-invariant uuid person_id person_name slot now ttl e e' h r =
    let fresh = start-IsFresh uuid person_id person_name slot now ttl h in
    let same = Reach-SameRequest e e' r in
    (same, SameRequest-IsSession e e' same fresh.0, Reach-IsStamped e e' r fresh.1)
