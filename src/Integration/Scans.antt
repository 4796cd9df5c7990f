-- ===== src/Integration/Scans.antt =====
-- The scans that custom_components/nimly_manager/scan_control.py starts and cancels keep the loaded
-- locks consistent, also where the start is given up.
use mathlib.Core.Path.{subst}
use nimly_manager.Base.{◌≡◌, sym, true, not, Option, some}
use nimly_manager.Base.Result.{Result, ok, err}
use nimly_manager.Base.Exec.{modify, ◌>>◌, Keeps, >>=-split, raise_when-brings}
use nimly_manager.Text.{Text}
use nimly_manager.Time.{DateTime}
use nimly_manager.Dict.Texts.{lookup}
use nimly_manager.OwnerStore
use nimly_manager.Scan
use nimly_manager.Scan.{BleFingerprintScan}
use nimly_manager.Runtime
use nimly_manager.Runtime.{NimlyLockRuntime, start_fingerprint_scan, cancel_fingerprint_scan}
use nimly_manager.Runtime.Starts.{scan_started}
use nimly_manager.Runtime.Steps.{fail_active}
use nimly_manager.Runtime.Workflow.{
  Calms-OneWorkflow, start_scan-OneWorkflow, cancel_scan-Calms, on_scan-Calms,
}
use nimly_manager.Coordinator.{
  StartError, already_running, async_start, is_running, Desk, Beginning, suspended, ended,
  begin_task, register, publish,
}
use nimly_manager.Home.{Home, put_runtime}
use nimly_manager.ScanControl.{
  address_of, not_at_lock, no_address, no_owner, is_missing, person_or_new, on_runtime, give_up,
  give_up_on, desk_of, hold_scan, started, launch, Order, start_gated, async_start_scan, end_task,
  cancel_on, async_cancel_scan,
}
use nimly_manager.ScanControl.Begun.{lookup-inserted}
use nimly_manager.ScanControl.Gates.{
  in_workflow_ok, launching, starting, begin, with_owner, with_address,
}
use nimly_manager.Actions.{start_scan, cancel_scan}
use nimly_manager.Integration.Consistent.{
  IsConsistent, put_runtime-IsConsistent, find_runtime-Keeps, on_runtime-IsConsistent,
}

-- A runtime and the scan that it holds.
abbrev Holds : Text → NimlyLockRuntime → BleFingerprintScan → Home → Type 0
Holds entry_id rt scan h = (lookup entry_id h.runtimes ≡ some rt) × (rt.scan ≡ some scan)

give_up-IsConsistent :
    (entry_id : Text) (rt : NimlyLockRuntime) (scan : BleFingerprintScan) (now : DateTime)
    (message : Text) (h : Home)
    → Holds entry_id rt scan h
    → IsConsistent h
    → IsConsistent (give_up entry_id rt scan now message h).1
unfolding give_up
give_up-IsConsistent entry_id rt scan now message h (found, holds) c =
    put_runtime-IsConsistent entry_id rt (Runtime.on_scan scan (Scan.fail now message) rt).1 h found
      (Calms-OneWorkflow rt _
        (on_scan-Calms scan (Scan.fail now message) rt holds (fail_active now message scan))
        (c entry_id rt found).0)
      c

started-IsConsistent :
    (entry_id : Text) (rt : NimlyLockRuntime) (scan : BleFingerprintScan) (now : DateTime)
    (message : Text) (after : BleFingerprintScan) (r : Result StartError (Unit {0})) (h : Home)
    → Holds entry_id rt scan h
    → (Scan.is_active after ≡ true → Scan.is_active scan ≡ true)
    → IsConsistent h
    → IsConsistent (started entry_id now message scan after r h).1
unfolding started
started-IsConsistent entry_id rt scan now message after (ok a) h holds keeps c =
    subst (λ (found : Option NimlyLockRuntime). IsConsistent (hold_scan entry_id after found h))
      (sym holds.0)
      (put_runtime-IsConsistent entry_id rt (record rt { scan = some after }) h holds.0
        (Calms-OneWorkflow rt _ (on_scan-Calms scan (λ s. (ok tt, after)) rt holds.1 keeps)
          (c entry_id rt holds.0).0)
        c)
started-IsConsistent entry_id rt scan now message after (err e) h holds keeps c =
    subst
      (λ (found : Option NimlyLockRuntime).
        IsConsistent (give_up_on entry_id scan now message found h).1)
      (sym holds.0) (give_up-IsConsistent entry_id rt scan now message h holds c)

-- A task makes no scan active that was not, as it begins.
begin_task_active :
    (entry_id : Text) (beginning : Beginning) (now : DateTime) (d : Desk)
    → Scan.is_active (begin_task entry_id beginning now d).1.scan ≡ true
    → Scan.is_active d.scan ≡ true
unfolding begin_task
begin_task_active entry_id suspended now d h = h
begin_task_active entry_id (ended message) now d h = fail_active now message d.scan h

async_start_active :
    (entry_id : Text) (beginning : Beginning) (now : DateTime) (d : Desk)
    → Scan.is_active (async_start entry_id beginning now d).1.scan ≡ true
    → Scan.is_active d.scan ≡ true
unfolding async_start
async_start_active entry_id beginning now d =
    raise_when-brings (λ d. is_running (lookup entry_id d.coordinator.tasks)) (λ d. already_running)
      (modify (λ d. register entry_id (begin_task entry_id beginning now d))
        >> modify (publish entry_id))
      d (λ t. Scan.is_active t.scan ≡ true → Scan.is_active d.scan ≡ true) (λ h. h)
      (begin_task_active entry_id beginning now d)

module _ (o : Order) (rt : NimlyLockRuntime) where
  launch-IsConsistent :
      (scan : BleFingerprintScan) (h : Home) (held : NimlyLockRuntime)
      → Holds o.entry_id held scan h
      → IsConsistent h
      → IsConsistent (launching o rt scan h).1
  unfolding launch
  launch-IsConsistent scan h held holds c =
      let before = desk_of scan h in
      let begun = async_start o.entry_id o.beginning o.failed_at before in
      started-IsConsistent o.entry_id held scan o.failed_at o.running_text begun.1.scan begun.0
        (record h { coordinator = begun.1.coordinator }) holds
        (async_start_active o.entry_id o.beginning o.failed_at before) c

  begin-IsConsistent :
      (h : Home)
      → lookup o.entry_id h.runtimes ≡ some rt
      → IsConsistent h
      → IsConsistent (begin o rt h).1
  unfolding put_runtime
  begin-IsConsistent h found c =
      let m = starting o rt in
      let after =
        on_runtime-IsConsistent o.entry_id m rt h
          (λ x.
            start_scan-OneWorkflow o.session_uuid (person_or_new o.person_uuid o.person_id)
              o.person_name o.ble_slot o.now x)
          found c in
      >>=-split IsConsistent (on_runtime o.entry_id rt m) (launching o rt) h (λ e k. after)
        (λ scan k.
          let s =
            scan_started o.session_uuid (person_or_new o.person_uuid o.person_id) o.person_name
              o.ble_slot o.now rt scan (in_workflow_ok (m rt).0 scan k) in
          launch-IsConsistent scan (put_runtime o.entry_id (m rt).1 h) (m rt).1
            (lookup-inserted o.entry_id (m rt).1 h.runtimes, s.0) after)

  start_gated-IsConsistent :
      (h : Home)
      → lookup o.entry_id h.runtimes ≡ some rt
      → IsConsistent h
      → IsConsistent (start_gated o rt h).1
  unfolding start_gated
  start_gated-IsConsistent h found c =
      raise_when-brings (λ h. not o.at_the_lock) (λ h. not_at_lock) (with_address o rt) h
        IsConsistent c
        (raise_when-brings (λ h. is_missing (address_of (lookup o.entry_id h.entries)))
          (λ h. no_address) (with_owner o rt) h IsConsistent c
          (raise_when-brings (λ h. not (OwnerStore.has o.entry_id h.owner_store)) (λ h. no_owner)
            (begin o rt) h IsConsistent c (begin-IsConsistent h found c)))

async_start_scan-IsConsistent : (o : Order) → Keeps IsConsistent (async_start_scan o)
unfolding async_start_scan
async_start_scan-IsConsistent o =
    find_runtime-Keeps o.entry_id (start_gated o) (start_gated-IsConsistent o)

pub start_scan-Keeps : (o : Order) → Keeps IsConsistent (start_scan o)
unfolding start_scan
start_scan-Keeps o =
    find_runtime-Keeps o.entry_id (λ _. async_start_scan o)
      (λ rt h found. async_start_scan-IsConsistent o h)

cancel_on-IsConsistent :
    (entry_id session_id : Text) (now : DateTime) (rt : NimlyLockRuntime) (h : Home)
    → lookup entry_id h.runtimes ≡ some rt
    → IsConsistent h
    → IsConsistent (cancel_on entry_id session_id now rt h).1
unfolding cancel_on end_task
cancel_on-IsConsistent entry_id session_id now rt h found c =
    let m = cancel_fingerprint_scan session_id now in
    let after =
      on_runtime-IsConsistent entry_id m rt h
        (λ x. Calms-OneWorkflow x _ (cancel_scan-Calms session_id now x)) found c in
    >>=-split IsConsistent (on_runtime entry_id rt m) (λ _. end_task entry_id) h (λ e k. after)
      (λ a k. after)

async_cancel_scan-IsConsistent :
    (entry_id session_id : Text) (now : DateTime)
    → Keeps IsConsistent (async_cancel_scan entry_id session_id now)
unfolding async_cancel_scan
async_cancel_scan-IsConsistent entry_id session_id now =
    find_runtime-Keeps entry_id (cancel_on entry_id session_id now)
      (cancel_on-IsConsistent entry_id session_id now)

pub cancel_scan-Keeps :
    (entry_id session_id : Text) (now : DateTime)
    → Keeps IsConsistent (cancel_scan entry_id session_id now)
unfolding cancel_scan
cancel_scan-Keeps entry_id session_id now =
    find_runtime-Keeps entry_id (λ _. async_cancel_scan entry_id session_id now)
      (λ rt h found. async_cancel_scan-IsConsistent entry_id session_id now h)
