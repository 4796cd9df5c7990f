-- ===== src/Scan/Invariant.antt =====
-- What holds of a scan from `start` on, whatever calls are made.
use nimly_manager.Base.{◌≡◌, Bool, true, false, some, arith, is_some}
use nimly_manager.Base.Int.{ℤ, within_ℤ}
use nimly_manager.Text.{Text, text, text_eq_iff}
use nimly_manager.Time.{DateTime}
use nimly_manager.Request.Laws.{IsPerson, IsExpiry}
use nimly_manager.States.{ScanState}
use nimly_manager.Scan.{
  BleFingerprintScan, Answer, mark_scanning, mark_scanned, fail, cancel, observe_verified, refresh,
}

-- One call of a method, with any arguments.
pub data Step (s s' : BleFingerprintScan) : Type 0 where
  prompt : (now : DateTime) → s' ≡ (mark_scanning now s).1 → Step s s'
  answer : (now : DateTime) (a : Answer) → s' ≡ (mark_scanned now a s).1 → Step s s'
  abort : (now : DateTime) (reason : Text) → s' ≡ (fail now reason s).1 → Step s s'
  stop : (now : DateTime) → s' ≡ (cancel now s).1 → Step s s'
  verify :
      (now : DateTime) (slot : ℤ) (id : Text) → s' ≡ (observe_verified now slot id s).1 → Step s s'
  look : (now : DateTime) → s' ≡ (refresh now s).1 → Step s s'

-- Any sequence of calls.
pub data Reach (s : BleFingerprintScan) : BleFingerprintScan → Type 0 where
  here : Reach s s
  next : {u v : BleFingerprintScan} → Reach s u → Step u v → Reach s v

-- The person, the BLE slot and the times of a scan never change.
pub record SameRequest (s s' : BleFingerprintScan) : Type 0 where
  pub session_id : s'.session_id ≡ s.session_id
  pub person_id : s'.person_id ≡ s.person_id
  pub person_name : s'.person_name ≡ s.person_name
  pub ble_slot : s'.ble_slot ≡ s.ble_slot
  pub started_at : s'.started_at ≡ s.started_at
  pub expires_at : s'.expires_at ≡ s.expires_at

-- What a scan carries from its request.
pub record IsScan (s : BleFingerprintScan) : Type 0 where
  pub person : IsPerson s.person_id s.person_name
  pub slot : within_ℤ 150 199 s.ble_slot ≡ true
  pub span : IsExpiry s.started_at s.expires_at

abbrev was_prompted : ScanState → Bool
was_prompted ScanState.scanning = true
was_prompted ScanState.awaiting_verification = true
was_prompted ScanState.verified = true
was_prompted _ = false

abbrev was_answered : ScanState → Bool
was_answered ScanState.awaiting_verification = true
was_answered ScanState.verified = true
was_answered _ = false

-- What its state vouches for: the finger was asked for before the lock scanned, the lock answered
-- `ok` before a verification was awaited, a verified scan is paired with a slot, a session and a
-- time, and a failed one has a reason.
pub record IsEvidenced (s : BleFingerprintScan) : Type 0 where
  pub prompted : was_prompted s.state ≡ true → is_some s.finger_prompt_at ≡ true
  pub answered : was_answered s.state ≡ true → s.scan_status ≡ some (text "ok")
  pub paired :
      s.state ≡ ScanState.verified
      → (is_some s.zigbee_slot ≡ true)
        × (is_some s.verified_at ≡ true)
        × (is_some s.enrollment_session_id ≡ true)
  pub reason : s.state ≡ ScanState.failed → is_some s.error ≡ true

pub Step-SameRequest : (s s' : BleFingerprintScan) → Step s s' → SameRequest s s'
unfolding mark_scanning mark_scanned fail cancel observe_verified refresh
Step-SameRequest s s' (prompt now q) = ground arith
Step-SameRequest s s' (answer now a q) = ground arith
Step-SameRequest s s' (abort now r q) = ground arith
Step-SameRequest s s' (stop now q) = ground arith
Step-SameRequest s s' (verify now slot id q) = ground arith
Step-SameRequest s s' (look now q) = ground arith

module _ (s s' : BleFingerprintScan) (h : IsEvidenced s) where
  Step-prompted : Step s s' → was_prompted s'.state ≡ true → is_some s'.finger_prompt_at ≡ true
  unfolding mark_scanning mark_scanned fail cancel observe_verified refresh
  Step-prompted (prompt now q) k = ground (arith, h.prompted)
  Step-prompted (answer now a q) k = ground (arith, h.prompted)
  Step-prompted (abort now r q) k = ground (arith, h.prompted)
  Step-prompted (stop now q) k = ground (arith, h.prompted)
  Step-prompted (verify now slot id q) k = ground (arith, h.prompted)
  Step-prompted (look now q) k = ground (arith, h.prompted)

  Step-answered : Step s s' → was_answered s'.state ≡ true → s'.scan_status ≡ some (text "ok")
  unfolding mark_scanning mark_scanned fail cancel observe_verified refresh
  Step-answered (prompt now q) k = ground (arith, h.answered)
  Step-answered (answer now a q) k =
      ground (arith, h.answered, text_eq_iff a.scan_status (text "ok"))
  Step-answered (abort now r q) k = ground (arith, h.answered)
  Step-answered (stop now q) k = ground (arith, h.answered)
  Step-answered (verify now slot id q) k = ground (arith, h.answered)
  Step-answered (look now q) k = ground (arith, h.answered)

  Step-paired :
      Step s s'
      → s'.state ≡ ScanState.verified
      → (is_some s'.zigbee_slot ≡ true)
        × (is_some s'.verified_at ≡ true)
        × (is_some s'.enrollment_session_id ≡ true)
  unfolding mark_scanning mark_scanned fail cancel observe_verified refresh
  Step-paired (prompt now q) k = ground (arith, h.paired)
  Step-paired (answer now a q) k = ground (arith, h.paired)
  Step-paired (abort now r q) k = ground (arith, h.paired)
  Step-paired (stop now q) k = ground (arith, h.paired)
  Step-paired (verify now slot id q) k = ground (arith, h.paired)
  Step-paired (look now q) k = ground (arith, h.paired)

  Step-reason : Step s s' → s'.state ≡ ScanState.failed → is_some s'.error ≡ true
  unfolding mark_scanning mark_scanned fail cancel observe_verified refresh
  Step-reason (prompt now q) k = ground (arith, h.reason)
  Step-reason (answer now a q) k = ground (arith, h.reason)
  Step-reason (abort now r q) k = ground (arith, h.reason)
  Step-reason (stop now q) k = ground (arith, h.reason)
  Step-reason (verify now slot id q) k = ground (arith, h.reason)
  Step-reason (look now q) k = ground (arith, h.reason)

  pub Step-IsEvidenced : Step s s' → IsEvidenced s'
  Step-IsEvidenced st = record {
    prompted = Step-prompted st;
    answered = Step-answered st;
    paired = Step-paired st;
    reason = Step-reason st;
  }
