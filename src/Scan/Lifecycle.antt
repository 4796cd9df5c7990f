-- ===== src/Scan/Lifecycle.antt =====
-- The life of a `BleFingerprintScan`: the transitions of its methods, on every branch.
use nimly_manager.Base.{◌≤◌, ◌≡◌, true, false, not, arith}
use nimly_manager.Base.Int.{ℤ}
use nimly_manager.Base.Result.{ok, err}
use nimly_manager.Text.{Text}
use nimly_manager.Time.{DateTime, is_naive}
use nimly_manager.States.{
  ScanState, cannot_start_scan, cannot_finish_scan, cannot_cancel_scan, cannot_verify_scan,
  is_active_scan, is_terminal_scan,
}
use nimly_manager.Scan.{
  BleFingerprintScan, Answer, mark_scanning, mark_scanned, fail, cancel, observe_verified, refresh,
}

-- A state of the scan is active exactly if it is not terminal.
pub active_or_terminal : (s : ScanState) → is_active_scan s ≡ not (is_terminal_scan s)
unfolding is_active_scan is_terminal_scan
active_or_terminal s = ground arith

-- Once a scan is verified, failed, cancelled or expired, no method at an aware time changes it:
-- fail returns, refresh returns the state, and every other method raises.
pub scan_terminal_absorbing :
    (now : DateTime) (s : BleFingerprintScan) (a : Answer) (reason id : Text) (slot : ℤ)
    → is_naive now ≡ false
    → is_terminal_scan s.state ≡ true
    → (mark_scanning now s ≡ (err (cannot_start_scan s.state), s))
      × (mark_scanned now a s ≡ (err (cannot_finish_scan s.state), s))
      × (fail now reason s ≡ (ok tt, s))
      × (cancel now s ≡ (err (cannot_cancel_scan s.state), s))
      × (observe_verified now slot id s ≡ (err (cannot_verify_scan s.state), s))
      × (refresh now s ≡ (ok s.state, s))
unfolding mark_scanning mark_scanned fail cancel observe_verified refresh
scan_terminal_absorbing now s a reason id slot h k =
    (ground arith, ground arith, ground arith, ground arith, ground arith, ground arith)

-- At or after the expiry an active scan expires whatever method is called: fail returns without
-- giving its reason, refresh returns the state EXPIRED, and every other method raises.
pub scan_expiry_enforced :
    (now : DateTime) (s : BleFingerprintScan) (a : Answer) (reason id : Text) (slot : ℤ)
    → is_naive now ≡ false
    → is_active_scan s.state ≡ true
    → s.expires_at.instant ≤ now.instant
    → let gone = record s { state = ScanState.expired } in
      (mark_scanning now s ≡ (err (cannot_start_scan ScanState.expired), gone))
      × (mark_scanned now a s ≡ (err (cannot_finish_scan ScanState.expired), gone))
      × (fail now reason s ≡ (ok tt, gone))
      × (cancel now s ≡ (err (cannot_cancel_scan ScanState.expired), gone))
      × (observe_verified now slot id s ≡ (err (cannot_verify_scan ScanState.expired), gone))
      × (refresh now s ≡ (ok ScanState.expired, gone))
unfolding mark_scanning mark_scanned fail cancel observe_verified refresh
scan_expiry_enforced now s a reason id slot h k l =
    (ground arith, ground arith, ground arith, ground arith, ground arith, ground arith)
