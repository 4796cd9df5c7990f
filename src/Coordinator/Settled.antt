-- ===== src/Coordinator/Settled.antt =====
-- How a task ends: `_run` of
-- custom_components/nimly_manager/ble_scan.py.
use nimly_manager.Base.{
  ◌≡◌, refl, Bool, true, false, ◌⊎◌, inl, inr, none, [], ◌∷◌, ◌++◌, arith, Bool-cases,
  if◌then◌else◌,
}
use nimly_manager.Base.Result.{Result, ok, err}
use nimly_manager.Text.{Text, text_eq}
use nimly_manager.Time.{DateTime, is_naive}
use nimly_manager.Dict.Texts.{lookup, lookup-remove}
use nimly_manager.States
use nimly_manager.States.{ScanState, is_terminal_scan, is_active_scan, is_scanning}
use nimly_manager.Request.{require_timezone}
use nimly_manager.Crypto.{Cbc, Curve}
use nimly_manager.Scan.{BleFingerprintScan, Answer, expire, expired_at, mark_scanned, fail}
use nimly_manager.Owner.{prompt_failed}
use nimly_manager.Owner.Scanning.{OwnerScan}
use nimly_manager.Coordinator.{
  event_data, fire_state, begin_task, ended, Failure, cancellation, time_limit, not_visible,
  unexpected, flow_error, Desk, answer_of, failure_text, after_marking, conclude_scan,
}
use nimly_manager.Coordinator.Run.{Course, unreached, Others, Job, attempt, task_end, settle, run}

-- The scan is over, or is left to Zigbee to verify.
unfoldable pub is_settled : ScanState → Bool
is_settled ScanState.awaiting_verification = true
is_settled ScanState.connecting = false
is_settled ScanState.scanning = false
is_settled _ = true

module _ (str_error type_name : Failure → Text) (now : DateTime)
    (aware : is_naive now ≡ false) where
  fail_settled :
      (reason : Text) (s : BleFingerprintScan) → is_settled (fail now reason s).1.state ≡ true
  unfolding fail expire expired_at is_settled is_terminal_scan is_active_scan require_timezone
  fail_settled reason s = ground arith

  mark_scanned-settled :
      (a : Answer) (s : BleFingerprintScan)
      → (mark_scanned now a s).0 ≡ ok tt
      → is_settled (mark_scanned now a s).1.state ≡ true
  unfolding mark_scanned expire expired_at is_settled is_scanning is_active_scan require_timezone
  mark_scanned-settled a s h = ground arith

  after_marking-settled :
      (r : Result States.Error (Unit {0})) (s : BleFingerprintScan)
      → (r ≡ ok tt → is_settled s.state ≡ true)
      → is_settled (after_marking str_error type_name now r s).1.state ≡ true
  unfolding after_marking
  after_marking-settled (ok tt) s h = h refl
  after_marking-settled (err e) s h =
      fail_settled (failure_text str_error type_name (flow_error (prompt_failed e))) s

  conclude_scan-settled :
      (r : Result Failure OwnerScan) (s : BleFingerprintScan)
      → is_settled (conclude_scan str_error type_name now r s).1.state ≡ true
  unfolding conclude_scan
  conclude_scan-settled (err f) s = fail_settled (failure_text str_error type_name f) s
  conclude_scan-settled (ok result) s =
      let marked = mark_scanned now (answer_of result) s in
      after_marking-settled marked.0 marked.1 (mark_scanned-settled (answer_of result) s)

-- A scan that others have ended while the task ran, stays as they left it: a handler that comes
-- after a cancellation, a verification or an expiry changes nothing.
pub conclude_scan-terminal :
    (str_error type_name : Failure → Text) (now : DateTime) (r : Result Failure OwnerScan)
    (s : BleFingerprintScan)
    → is_naive now ≡ false
    → is_terminal_scan s.state ≡ true
    → (conclude_scan str_error type_name now r s).1 ≡ s
unfolding conclude_scan after_marking fail mark_scanned expire expired_at is_terminal_scan
    is_active_scan is_scanning require_timezone
conclude_scan-terminal str_error type_name now (err f) s aware over = ground arith
conclude_scan-terminal str_error type_name now (ok result) s aware over = ground arith

-- A handler that reads an aware clock does not raise.
fail-returns :
    (now : DateTime) (reason : Text) (s : BleFingerprintScan)
    → is_naive now ≡ false
    → (fail now reason s).0 ≡ ok tt
unfolding fail expire require_timezone
fail-returns now reason s aware = ground arith

after_marking-returns :
    (str_error type_name : Failure → Text) (now : DateTime) (r : Result States.Error (Unit {0}))
    (s : BleFingerprintScan)
    → is_naive now ≡ false
    → (after_marking str_error type_name now r s).0 ≡ ok tt
unfolding after_marking
after_marking-returns str_error type_name now (ok a) s aware = refl
after_marking-returns str_error type_name now (err e) s aware =
    fail-returns now (failure_text str_error type_name (flow_error (prompt_failed e))) s aware

conclude_scan-returns :
    (str_error type_name : Failure → Text) (now : DateTime) (r : Result Failure OwnerScan)
    (s : BleFingerprintScan)
    → is_naive now ≡ false
    → (conclude_scan str_error type_name now r s).0 ≡ ok tt
unfolding conclude_scan
conclude_scan-returns str_error type_name now (err f) s aware =
    fail-returns now (failure_text str_error type_name f) s aware
conclude_scan-returns str_error type_name now (ok result) s aware =
    let marked = mark_scanned now (answer_of result) s in
    after_marking-returns str_error type_name now marked.0 marked.1 aware

-- A task ends by its cancellation where that ended the attempt, and else returns.
abbrev pub IsEnd : Result Failure OwnerScan → Result Failure (Unit {0}) → Type 0
IsEnd met end = ((met ≡ err cancellation) × (end ≡ err cancellation)) ⊎ (end ≡ ok tt)

task_end-IsEnd :
    (aes : Cbc) (curve : Curve) (job : Job) (others : Others) (str_error type_name : Failure → Text)
    (met : Result Failure OwnerScan) (r : Result States.Error (Unit {0}))
    → r ≡ ok tt
    → IsEnd met (task_end aes curve job others str_error type_name met r)
task_end-IsEnd aes curve job others str_error type_name met (err e) h = absurd (ground arith)
task_end-IsEnd aes curve job others str_error type_name (ok a) (ok tt) h = inr refl
task_end-IsEnd aes curve job others str_error type_name (err cancellation) (ok tt) h =
    inl (refl, refl)
task_end-IsEnd aes curve job others str_error type_name (err time_limit) (ok tt) h = inr refl
task_end-IsEnd aes curve job others str_error type_name (err not_visible) (ok tt) h = inr refl
task_end-IsEnd aes curve job others str_error type_name (err unexpected) (ok tt) h = inr refl
task_end-IsEnd aes curve job others str_error type_name (err (flow_error e)) (ok tt) h = inr refl

-- However the attempt of a task ends, with a scan, an error, a time-out or a cancellation, at
-- whatever await, and whatever others do to the scan and the coordinator meanwhile, where the clock
-- read at the end is aware: run leaves the scan over or left to Zigbee to verify, and one that others
-- had ended as they left it; it raises nothing but its cancellation; the event of the scan as it ends
-- follows the events before; and of the tasks registered when the attempt has ended, exactly the one
-- of the entry is dropped, whichever task that is.
pub run_settled :
    (aes : Cbc) (curve : Curve) (job : Job) (others : Others) (str_error type_name : Failure → Text)
    (course : Course) (d : Desk)
    → is_naive job.ended_at ≡ false
    → let tried = attempt aes curve job others course d in
      let met = others.later tried.1 in
      let end = run aes curve job others str_error type_name course d in
      (is_settled end.1.scan.state ≡ true)
      × ((is_terminal_scan met.scan.state ≡ false) ⊎ (end.1.scan ≡ met.scan))
      × IsEnd tried.0 end.0
      × (end.1.coordinator.fired ≡ met.coordinator.fired ++ event_data job.entry_id end.1.scan ∷ [])
      × ((entry_id : Text)
          → lookup entry_id end.1.coordinator.tasks ≡ (
              if text_eq job.entry_id entry_id
              then none
              else lookup entry_id met.coordinator.tasks))
unfolding run settle fire_state
run_settled aes curve job others str_error type_name course d aware =
    let tried = attempt aes curve job others course d in
    let met = others.later tried.1 in
    let concluded = conclude_scan str_error type_name job.ended_at tried.0 met.scan in
    (
      conclude_scan-settled str_error type_name job.ended_at aware tried.0 met.scan,
      elim (Bool-cases (is_terminal_scan met.scan.state)) [
        | inl over ↦
            inr
              (conclude_scan-terminal str_error type_name job.ended_at tried.0 met.scan aware over)
        | inr going ↦ inl going
      ],
      task_end-IsEnd aes curve job others str_error type_name tried.0 concluded.0
          (conclude_scan-returns str_error type_name job.ended_at tried.0 met.scan aware),
      refl,
      λ entry_id. lookup-remove job.entry_id entry_id met.coordinator.tasks,
    )

-- A task that async_start begins and that ends before its first wait, does what run does where the
-- connection has raised and nobody else could act.
begin_task-run :
    (aes : Cbc) (curve : Curve) (job : Job) (str_error type_name : Failure → Text) (f : Failure)
    (d : Desk)
    → (begin_task job.entry_id (ended (failure_text str_error type_name f)) job.ended_at d).1
      ≡ (run aes curve job
          (record { earlier = λ d. d; later = λ d. d })
          str_error
          type_name
          (unreached f)
          d).1
unfolding run attempt settle conclude_scan begin_task
begin_task-run aes curve job str_error type_name f d = refl
