-- ===== src/Coordinator/Run.antt =====
-- `FingerprintScanCoordinator._run` of custom_components/nimly_manager/ble_scan.py, from the
-- connection to the last event, whatever other callers do to the scan meanwhile.
-- A task that ends before its first wait is registered, as done, after its end: see `async_start`.
use nimly_manager.Base.{ℕ, Bool, true, false, List}
use nimly_manager.Base.Result.{Result, ok, err, Exec}
use nimly_manager.Base.Exec.{modify, ◌>>◌}
use nimly_manager.Text.{Text}
use nimly_manager.Time.{DateTime}
use nimly_manager.Value.{Float}
use nimly_manager.Dict.Texts.{remove}
use nimly_manager.States
use nimly_manager.States.{ScanState, is_terminal_scan, is_active_scan, is_scanning}
use nimly_manager.Crypto.{Cbc, Curve}
use nimly_manager.Firmware.{Parsed, not_a_version, value_error, version, parse_firmware}
use nimly_manager.KeyStore.{OwnerRecord}
use nimly_manager.Session.{Round, new_session}
use nimly_manager.Owner.{OwnerError, refused, prompt_failed, unreadable_firmware}
use nimly_manager.Owner.Scanning.{OwnerScan, scan_fingerprint}
use nimly_manager.Coordinator.{
  fire_state, Failure, cancellation, unexpected, flow_error, Desk, publish, finger_prompt,
  conclude_scan,
}

-- What an attempt meets: the connection or the reading of the revision raised; the attempt was
-- interrupted at a later await, before the prompt or after it; or it ran on this air, with the
-- revision read.
pub data Course : Type 0 where
  unreached : Failure → Course
  interrupted : Failure → Bool → Course
  connected : Text → List Round → Course

-- What the rest of the program does to the scan and the coordinator: before the prompt, and until the
-- attempt ends.
pub record Others : Type 0 where
  pub earlier : Desk → Desk
  pub later : Desk → Desk

-- The arguments of a task, the two readings of the clock, the private key of the handshake, and the
-- seconds that the answer took.
pub record Job : Type 0 where
  pub entry_id : Text
  pub owner : OwnerRecord
  pub prompted_at : DateTime
  pub ended_at : DateTime
  pub private_key : ℕ
  pub response_seconds : Float

abbrev pub flow : {A : Type 0} → Result OwnerError A → Result Failure A
flow (ok a) = ok a
flow (err e) = err (flow_error e)

abbrev pub in_flow : {A : Type 0} → Result States.Error A → Result Failure A
in_flow (ok a) = ok a
in_flow (err e) = err (flow_error (prompt_failed e))

-- The prompt of a job, after what others did before it.
abbrev pub prompt_of : Job → Others → Exec States.Error Desk (Unit {0})
prompt_of job others = do modify others.earlier; finger_prompt job.entry_id job.prompted_at

module _ (aes : Cbc) (curve : Curve) (job : Job) (others : Others) where
  -- `scan_fingerprint` on a new session, where the firmware was read.
  unfoldable pub attempt_scan : Text → List Round → Parsed → Exec Failure Desk OwnerScan
  attempt_scan revision air not_a_version d =
      (err (flow_error (refused (unreadable_firmware revision))), d)
  attempt_scan revision air value_error d = (err unexpected, d)
  attempt_scan revision air (version firmware) d =
      let (r, end) =
        scan_fingerprint aes curve (prompt_of job others) job.private_key job.owner d.scan.ble_slot
          firmware job.response_seconds (new_session firmware air, d) in
      (flow r, end.1)

  -- The `try` of `_run`, up to `mark_scanned`.
  unfoldable pub attempt : Course → Exec Failure Desk OwnerScan
  unfolding attempt_scan finger_prompt
  attempt (unreached f) d = (err f, d)
  attempt (interrupted f false) d = (err f, d)
  attempt (interrupted f true) d =
      let (r, d') = prompt_of job others d in
      (elim (in_flow r) [ ok a ↦ err f | err e ↦ err e ], d')
  attempt (connected revision air) d = attempt_scan revision air (parse_firmware revision) d

  module _ (str_error type_name : Failure → Text) where
    -- What the task ends with: a handler that raises, or the CancelledError that is raised again.
    abbrev pub task_end :
        Result Failure OwnerScan → Result States.Error (Unit {0}) → Result Failure (Unit {0})
    task_end r (err e) = err (flow_error (prompt_failed e))
    task_end (err cancellation) (ok a) = err cancellation
    task_end r (ok a) = ok tt

    -- `_run` from the end of the attempt, with the `finally`.
    unfoldable pub settle : Result Failure OwnerScan → Exec Failure Desk (Unit {0})
    unfolding conclude_scan fire_state
    settle r d =
        let met = others.later d in
        let (c, scan) = conclude_scan str_error type_name job.ended_at r met.scan in
        let popped = record met.coordinator { tasks = remove job.entry_id met.coordinator.tasks } in
        (task_end r c, publish job.entry_id (record { scan = scan; coordinator = popped }))

    unfoldable pub run : Course → Exec Failure Desk (Unit {0})
    unfolding attempt settle
    run course d = let (r, d') = attempt course d in settle r d'
