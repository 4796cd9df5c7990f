-- ===== src/Tests/Scans.antt =====
-- Scans of custom_components/nimly_manager/fingerprint_scan.py.
use nimly_manager.Base.{◌≡◌, refl, false, some, none}
use nimly_manager.Base.Int.{pos}
use nimly_manager.Base.Result.{ok}
use nimly_manager.Text.{text, strip}
use nimly_manager.Time.{is_naive, local_time, reached, plus}
use nimly_manager.Request.{check_request, default_ttl}
use nimly_manager.States.{ScanState}
use nimly_manager.Scan.{BleFingerprintScan, Answer, start, mark_scanning, mark_scanned}
use nimly_manager.Scan.Invariant
use nimly_manager.Scan.Invariant.{Reach, IsScan, IsEvidenced, SameRequest}
use nimly_manager.Scan.History.{IsScan-invariant}
use nimly_manager.Tests.Sample.{noon, soon, late, ada, scan}

abbrev answer : Answer
answer = record {
  scan_status = text "ok";
  reported_slot = some (pos 150);
  response_seconds = none;
  model = none;
  firmware = none;
}

soon_aware : is_naive soon ≡ false
unfolding is_naive
soon_aware = refl

late_aware : is_naive late ≡ false
unfolding is_naive
late_aware = refl

abbrev expired_scan : BleFingerprintScan
expired_scan = record scan { state = ScanState.expired }

start_run : start (text "b1") (text "p1") ada (pos 150) noon default_ttl ≡ ok scan
unfolding start strip check_request is_naive plus local_time nimly_manager.Text.strip_right
    nimly_manager.Text.strip_left nimly_manager.Text.is_space
start_run = refl

abbrev prompted : BleFingerprintScan
prompted = record scan { state = ScanState.scanning; finger_prompt_at = some soon }

abbrev answered : BleFingerprintScan
answered = record prompted {
  state = ScanState.awaiting_verification;
  scanned_at = some soon;
  scan_status = some (text "ok");
  reported_slot = some (pos 150);
}

answered_Reach : Reach scan answered
unfolding mark_scanning mark_scanned is_naive reached nimly_manager.Text.text_eq
answered_Reach =
    Invariant.next {v = answered}
      (Invariant.next {v = prompted} Invariant.here (Invariant.prompt soon refl))
      (Invariant.answer soon answer refl)

scan_example : SameRequest scan answered × IsScan answered × IsEvidenced answered
scan_example =
    IsScan-invariant (text "b1") (text "p1") ada (pos 150) noon default_ttl scan answered start_run
      answered_Reach
