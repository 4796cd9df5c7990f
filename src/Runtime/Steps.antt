-- ===== src/Runtime/Steps.antt =====
-- Sequences of calls on one lock's runtime: `NimlyLockRuntime` of
-- custom_components/nimly_manager/runtime.py, with the methods of its scan that
-- custom_components/nimly_manager/ble_scan.py and scan_control.py call.
use nimly_manager.Base.{◌≡◌, true, some, arith}
use nimly_manager.Base.Int.{ℤ}
use nimly_manager.Text.{Text}
use nimly_manager.Time.{DateTime}
use nimly_manager.Value.{Fields}
use nimly_manager.Scan
use nimly_manager.Scan.{BleFingerprintScan, Answer}
use nimly_manager.Runtime
use nimly_manager.Runtime.{NimlyLockRuntime, on_scan}
use nimly_manager.Runtime.Mqtt.{observe_mqtt_state}
use nimly_manager.Runtime.Report.{refresh_all}
use nimly_manager.Runtime.Workflow.{
  OneWorkflow, Calms-OneWorkflow, start_enrollment-OneWorkflow, start_scan-OneWorkflow,
  confirm_enrollment-Calms, cancel_enrollment-Calms, cancel_scan-Calms, observe_mqtt_state-Calms,
  refresh_all-Calms, on_scan-Calms,
}

-- The calls by which the integration changes a runtime, with the runtime that each leaves,
-- whether it returns or raises. The last three are the scan's own methods, which the workflow over
-- BLE calls on the scan that the runtime holds.
pub data Step : NimlyLockRuntime → NimlyLockRuntime → Type 0 where
  start_enrollment :
      {rt : NimlyLockRuntime} (uuid id name : Text) (slot : ℤ) (now : DateTime)
      → Step rt (Runtime.start_enrollment uuid id name slot now rt).1
  start_scan :
      {rt : NimlyLockRuntime} (uuid id name : Text) (slot : ℤ) (now : DateTime)
      → Step rt (Runtime.start_fingerprint_scan uuid id name slot now rt).1
  confirm :
      {rt : NimlyLockRuntime} (session_id : Text) (now : DateTime)
      → Step rt (Runtime.confirm_enrollment session_id now rt).1
  cancel :
      {rt : NimlyLockRuntime} (session_id : Text) (now : DateTime)
      → Step rt (Runtime.cancel_enrollment session_id now rt).1
  cancel_scan :
      {rt : NimlyLockRuntime} (session_id : Text) (now : DateTime)
      → Step rt (Runtime.cancel_fingerprint_scan session_id now rt).1
  mqtt :
      {rt : NimlyLockRuntime} (uuid : Text) (payload : Fields) (now : DateTime)
      → Step rt (observe_mqtt_state uuid payload now rt).1
  refresh : {rt : NimlyLockRuntime} (now : DateTime) → Step rt (refresh_all now rt).1
  mark_scanning :
      {rt : NimlyLockRuntime} (s : BleFingerprintScan) (now : DateTime)
      → rt.scan ≡ some s
      → Step rt (on_scan s (Scan.mark_scanning now) rt).1
  mark_scanned :
      {rt : NimlyLockRuntime} (s : BleFingerprintScan) (now : DateTime) (a : Answer)
      → rt.scan ≡ some s
      → Step rt (on_scan s (Scan.mark_scanned now a) rt).1
  fail :
      {rt : NimlyLockRuntime} (s : BleFingerprintScan) (now : DateTime) (error : Text)
      → rt.scan ≡ some s
      → Step rt (on_scan s (Scan.fail now error) rt).1

-- The runtimes that calls can bring a lock's runtime to.
pub data Reach : NimlyLockRuntime → NimlyLockRuntime → Type 0 where
  start : {rt : NimlyLockRuntime} → Reach rt rt
  then_step : {a b c : NimlyLockRuntime} → Reach a b → Step b c → Reach a c

mark_scanning_active :
    (now : DateTime) (s : BleFingerprintScan)
    → Scan.is_active (Scan.mark_scanning now s).1 ≡ true
    → Scan.is_active s ≡ true
unfolding Scan.mark_scanning Scan.is_active
mark_scanning_active now s h = ground arith

mark_scanned_active :
    (now : DateTime) (a : Answer) (s : BleFingerprintScan)
    → Scan.is_active (Scan.mark_scanned now a s).1 ≡ true
    → Scan.is_active s ≡ true
unfolding Scan.mark_scanned Scan.is_active
mark_scanned_active now a s h = ground arith

pub fail_active :
    (now : DateTime) (error : Text) (s : BleFingerprintScan)
    → Scan.is_active (Scan.fail now error s).1 ≡ true
    → Scan.is_active s ≡ true
unfolding Scan.fail Scan.is_active
fail_active now error s h = ground arith

pub Step-OneWorkflow : {a b : NimlyLockRuntime} → Step a b → OneWorkflow a → OneWorkflow b
Step-OneWorkflow {a} (Step.start_enrollment uuid id name slot now) h =
    start_enrollment-OneWorkflow uuid id name slot now a h
Step-OneWorkflow {a} (Step.start_scan uuid id name slot now) h =
    start_scan-OneWorkflow uuid id name slot now a h
Step-OneWorkflow {a} {b} (Step.confirm id now) h =
    Calms-OneWorkflow a b (confirm_enrollment-Calms id now a) h
Step-OneWorkflow {a} {b} (Step.cancel id now) h =
    Calms-OneWorkflow a b (cancel_enrollment-Calms id now a) h
Step-OneWorkflow {a} {b} (Step.cancel_scan id now) h =
    Calms-OneWorkflow a b (cancel_scan-Calms id now a) h
Step-OneWorkflow {a} {b} (Step.mqtt uuid payload now) h =
    Calms-OneWorkflow a b (observe_mqtt_state-Calms uuid payload now a) h
Step-OneWorkflow {a} {b} (Step.refresh now) h = Calms-OneWorkflow a b (refresh_all-Calms now a) h
Step-OneWorkflow {a} {b} (Step.mark_scanning s now e) h =
    Calms-OneWorkflow a b
      (on_scan-Calms s (Scan.mark_scanning now) a e (mark_scanning_active now s)) h
Step-OneWorkflow {a} {b} (Step.mark_scanned s now x e) h =
    Calms-OneWorkflow a b
      (on_scan-Calms s (Scan.mark_scanned now x) a e (mark_scanned_active now x s)) h
Step-OneWorkflow {a} {b} (Step.fail s now x e) h =
    Calms-OneWorkflow a b (on_scan-Calms s (Scan.fail now x) a e (fail_active now x s)) h

-- From a runtime with at most one workflow active, such as a new one, every sequence of calls,
-- those that raise included, leads to a runtime with at most one workflow active.
pub one_workflow : {a b : NimlyLockRuntime} → OneWorkflow a → Reach a b → OneWorkflow b
one_workflow h Reach.start = h
one_workflow h (Reach.then_step r s) = Step-OneWorkflow s (one_workflow h r)
