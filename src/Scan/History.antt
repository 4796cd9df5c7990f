-- ===== src/Scan/History.antt =====
-- From `start` to any later state of a scan.
use mathlib.Core.Path.{subst, subst₂}
use nimly_manager.Base.{◌≡◌, refl, sym, ◌∙◌, true, none, arith, if◌then◌else◌}
use nimly_manager.Base.Int.{ℤ, within_ℤ}
use nimly_manager.Base.Result.{Result, ok, err}
use nimly_manager.Text.{Text, strip}
use nimly_manager.Time.{DateTime}
use nimly_manager.Request.{check_request}
use nimly_manager.Request.Laws.{
  IsPerson, IsExpiry, granted-IsPerson, granted_slot, granted-IsExpiry,
}
use nimly_manager.States.{ScanState, Error, ble_slot_out_of_range}
use nimly_manager.Scan.{BleFingerprintScan, start}
use nimly_manager.Scan.Invariant.{
  Reach, here, next, SameRequest, IsScan, IsEvidenced, Step-SameRequest, Step-IsEvidenced,
}

abbrev slot_test : ℤ → Result Error (Unit {0})
slot_test slot = if within_ℤ 150 199 slot then ok tt else err ble_slot_out_of_range

slot_granted : (slot : ℤ) → slot_test slot ≡ ok tt → within_ℤ 150 199 slot ≡ true
slot_granted slot h = ground arith

module _ (uuid person_id person_name : Text) (slot : ℤ) (now : DateTime) (ttl : ℤ) where
  abbrev requested : Result Error DateTime
  requested = check_request (strip person_id) (strip person_name) (slot_test slot) now ttl

  abbrev opened : DateTime → BleFingerprintScan
  opened end = record {
    session_id = uuid;
    person_id = strip person_id;
    person_name = strip person_name;
    ble_slot = slot;
    started_at = now;
    expires_at = end;
    state = ScanState.connecting;
    finger_prompt_at = none;
    scanned_at = none;
    scan_status = none;
    reported_slot = none;
    response_seconds = none;
    model = none;
    firmware = none;
    zigbee_slot = none;
    verified_at = none;
    enrollment_session_id = none;
    error = none;
  }

  -- A fresh scan: what it carries, and that no call has been made.
  abbrev IsFresh : BleFingerprintScan → Type 0
  IsFresh s = IsScan s × IsEvidenced s × (s.state ≡ ScanState.connecting)

  opened-IsFresh : (end : DateTime) → requested ≡ ok end → IsFresh (opened end)
  opened-IsFresh end q = (
    record {
      person =
          granted-IsPerson (strip person_id) (strip person_name) (slot_test slot) now end ttl q;
      slot =
          slot_granted slot
            (granted_slot (strip person_id) (strip person_name) (slot_test slot) now end ttl q);
      span = granted-IsExpiry (strip person_id) (strip person_name) (slot_test slot) now end ttl q;
    },
    record {
      prompted = λ h. cc;
      answered = λ h. cc;
      paired = λ h. absurd (ground arith);
      reason = λ h. cc;
    },
    refl,
  )

  start_granted :
      (end : DateTime)
      → requested ≡ ok end
      → start uuid person_id person_name slot now ttl ≡ ok (opened end)
  unfolding start
  start_granted end q = rw (q, start)

  start_refused :
      (x : Error) → requested ≡ err x → start uuid person_id person_name slot now ttl ≡ err x
  unfolding start
  start_refused x q = rw (q, start)

  start-IsFresh_by :
      (r : Result Error DateTime) {s : BleFingerprintScan}
      → requested ≡ r
      → start uuid person_id person_name slot now ttl ≡ ok s
      → IsFresh s
  start-IsFresh_by (err x) q h = cc (start_refused x q)
  start-IsFresh_by (ok end) {s} q h =
      let p : opened end ≡ s = cc (start_granted end q) in subst IsFresh p (opened-IsFresh end q)

  pub start-IsFresh :
      {s : BleFingerprintScan} → start uuid person_id person_name slot now ttl ≡ ok s → IsFresh s
  start-IsFresh h = start-IsFresh_by requested refl h

Reach-SameRequest : (s s' : BleFingerprintScan) → Reach s s' → SameRequest s s'
Reach-SameRequest s s' here = record {
  session_id = refl;
  person_id = refl;
  person_name = refl;
  ble_slot = refl;
  started_at = refl;
  expires_at = refl;
}
Reach-SameRequest s s' (next {u} r st) =
    let a = Reach-SameRequest s u r in
    let b = Step-SameRequest u s' st in
    record {
      session_id = b.session_id ∙ a.session_id;
      person_id = b.person_id ∙ a.person_id;
      person_name = b.person_name ∙ a.person_name;
      ble_slot = b.ble_slot ∙ a.ble_slot;
      started_at = b.started_at ∙ a.started_at;
      expires_at = b.expires_at ∙ a.expires_at;
    }

Reach-IsEvidenced : (s s' : BleFingerprintScan) → Reach s s' → IsEvidenced s → IsEvidenced s'
Reach-IsEvidenced s s' here h = h
Reach-IsEvidenced s s' (next {u} r st) h = Step-IsEvidenced u s' (Reach-IsEvidenced s u r h) st

pub SameRequest-IsScan : (s s' : BleFingerprintScan) → SameRequest s s' → IsScan s → IsScan s'
SameRequest-IsScan s s' q h = record {
  person = subst₂ IsPerson (sym q.person_id) (sym q.person_name) h.person;
  slot = rw q.ble_slot h.slot;
  span = subst₂ IsExpiry (sym q.started_at) (sym q.expires_at) h.span;
}

-- Whatever calls follow a successful start, the scan keeps its identifier, person, BLE slot (150 to
-- 199) and times (expiry one minute to one hour after the start), and its state is backed: it is
-- scanning only after the prompt for the finger, awaits a verification only after the lock's
-- answer `ok`, is verified only with a Zigbee slot, a time and an enrollment session recorded, and
-- has failed only with a reason.
pub IsScan-invariant :
    (uuid person_id person_name : Text) (slot : ℤ) (now : DateTime) (ttl : ℤ)
    (s s' : BleFingerprintScan)
    → start uuid person_id person_name slot now ttl ≡ ok s
    → Reach s s'
    → SameRequest s s' × IsScan s' × IsEvidenced s'
IsScan-invariant uuid person_id person_name slot now ttl s s' h r =
    let fresh = start-IsFresh uuid person_id person_name slot now ttl h in
    let same = Reach-SameRequest s s' r in
    (same, SameRequest-IsScan s s' same fresh.0, Reach-IsEvidenced s s' r fresh.1)
