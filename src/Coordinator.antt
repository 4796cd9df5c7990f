-- ===== src/Coordinator.antt =====
-- custom_components/nimly_manager/ble_scan.py: `FingerprintScanCoordinator`, which runs one scan in a
-- background task and publishes its state.
--
-- The connection (Home Assistant's Bluetooth and `HomeAssistantTransport`) is an argument: what it
-- gave, or what it raised. `asyncio` interrupts a task only where it awaits, so an interruption by
-- the time limit or by a cancellation is an outcome of the attempt, before the prompt or after it.
-- The texts of exceptions, `str(error)` and `type(error).__name__`, are arguments.

pub mod Run
pub mod Settled
use nimly_manager.Base.{
  ℕ, Bool, true, false, not, Option, none, some, List, [], ◌∷◌, ◌++◌, Bytes, if◌then◌else◌,
}
use nimly_manager.Base.Int.{ℤ, pos}
use nimly_manager.Base.Result.{Result, ok, err, Exec}
use nimly_manager.Base.Exec.{pure, lift, modify, raise_when, ◌>>=◌, ◌>>◌}
use nimly_manager.Text.{Text, text}
use nimly_manager.Time.{DateTime}
use nimly_manager.Value.{Float, Fields, str}
use nimly_manager.Dict.Texts.{lookup, insert, remove}
use nimly_manager.States
use nimly_manager.Crypto.{Cbc, Curve}
use nimly_manager.Firmware.{FirmwareVersion, Parsed, parse_firmware}
use nimly_manager.Scan.{
  BleFingerprintScan, Answer, is_active, mark_scanning, mark_scanned, fail, as_public_dict,
}
use nimly_manager.KeyStore.{OwnerRecord}
use nimly_manager.Session.{
  SessionError, handshake_done, no_link_for_auth, no_link_for_update, command_failed, timeout,
  write_failed, protocol_error, crypto_error, Session, Round, new_session,
}
use nimly_manager.Owner.{
  OwnerError, refused, no_enrolled_record, bad_hex, prompt_failed, session_error, store_error,
  unreadable_firmware,
}
use nimly_manager.Owner.Scanning.{ScanResult, OwnerScan, scan_fingerprint}

-- A task is there until it is popped; the flag is `task.done()`.
pub record FingerprintScanCoordinator : Type 0 where
  pub tasks : List (Text × Bool)
  pub cancelled : List Text
  pub fired : List Fields

-- FingerprintScanCoordinator.async_fire_state: the data of the event
unfoldable pub event_data : Text → BleFingerprintScan → Fields
unfolding as_public_dict
event_data entry_id scan = (text "config_entry_id", str entry_id) ∷ as_public_dict scan

unfoldable pub fire_state :
    Text → BleFingerprintScan → FingerprintScanCoordinator → FingerprintScanCoordinator
unfolding event_data
fire_state entry_id scan c = record c { fired = c.fired ++ event_data entry_id scan ∷ [] }

-- The RuntimeError of `async_start`.
pub data StartError : Type 0 where
  already_running : StartError

abbrev pub is_running : Option Bool → Bool
is_running none = false
is_running (some done) = not done

-- The scan of a task, and the coordinator.
pub record Desk : Type 0 where
  pub scan : BleFingerprintScan
  pub coordinator : FingerprintScanCoordinator

abbrev pub publish : Text → Desk → Desk
publish entry_id d = record d { coordinator = fire_state entry_id d.scan d.coordinator }

-- What a new task does before `async_start` goes on, since Home Assistant starts it at once: it runs
-- to its first wait; or its attempt raises before, and it ends with this text of a handler of `_run`.
pub data Beginning : Type 0 where
  suspended : Beginning
  ended : Text → Beginning

-- Whether the task is done then, and what it has done.
unfoldable pub begin_task : Text → Beginning → DateTime → Desk → Bool × Desk
unfolding fail fire_state
begin_task entry_id suspended now d = (false, d)
begin_task entry_id (ended message) now d =
    let popped = record d.coordinator { tasks = remove entry_id d.coordinator.tasks } in
    let failed = (fail now message d.scan).1 in
    (true, publish entry_id (record { scan = failed; coordinator = popped }))

-- self._tasks[entry_id] = task
abbrev pub register : Text → Bool × Desk → Desk
register entry_id (done, d) =
    let tasks = insert entry_id done d.coordinator.tasks in
    record d { coordinator = record d.coordinator { tasks = tasks } }

-- FingerprintScanCoordinator.async_start, with the reading of the clock in the task; the whole task is
-- `run`
unfoldable pub async_start : Text → Beginning → DateTime → Exec StartError Desk (Unit {0})
unfolding begin_task fire_state
async_start entry_id beginning now = do
  raise_when (λ d. is_running (lookup entry_id d.coordinator.tasks)) (λ d. already_running)
  modify (λ d. register entry_id (begin_task entry_id beginning now d))
  modify (publish entry_id)

-- FingerprintScanCoordinator.async_cancel; `cancelled` lists the tasks that were told to stop
unfoldable pub async_cancel : Text → FingerprintScanCoordinator → FingerprintScanCoordinator
async_cancel entry_id c =
    let tasks = remove entry_id c.tasks in
    if is_running (lookup entry_id c.tasks)
    then record c { tasks = tasks; cancelled = c.cancelled ++ entry_id ∷ [] }
    else record c { tasks = tasks }

-- What ends an attempt early: CancelledError, TimeoutError, LockNotVisibleError, an error of the
-- flow, or another exception.
pub data Failure : Type 0 where
  cancellation time_limit not_visible unexpected : Failure
  flow_error : OwnerError → Failure

abbrev pub on_scan :
    {A : Type 0} → Exec States.Error BleFingerprintScan A → Exec States.Error Desk A
on_scan m d = let (r, scan) = m d.scan in (r, record d { scan = scan })

-- finger_prompt
unfoldable pub finger_prompt : Text → DateTime → Exec States.Error Desk (Unit {0})
unfolding fire_state is_active mark_scanning
finger_prompt entry_id now = do
  (λ d. if is_active d.scan then on_scan (mark_scanning now) d else (ok tt, d))
  modify (publish entry_id)

-- The arguments of `mark_scanned`.
unfoldable pub answer_of : OwnerScan → Answer
answer_of result = record {
  scan_status = result.answer.scan_status;
  reported_slot = some (pos result.answer.reported_slot);
  response_seconds = some result.answer.response_seconds;
  model = some result.model;
  firmware = some result.firmware;
}

module _ (str_error type_name : Failure → Text) where
  abbrev unexpected_text : Failure → Text
  unexpected_text f = text "uventet feil: " ++ type_name f

  abbrev session_text : SessionError → Text
  session_text (command_failed id r) =
      text "låsen avviste: " ++ str_error (flow_error (session_error (command_failed id r)))
  session_text timeout = text "tidsavbrudd mot låsen"
  session_text handshake_done =
      text "BLE-feil: " ++ str_error (flow_error (session_error handshake_done))
  session_text no_link_for_auth =
      text "BLE-feil: " ++ str_error (flow_error (session_error no_link_for_auth))
  session_text no_link_for_update =
      text "BLE-feil: " ++ str_error (flow_error (session_error no_link_for_update))
  session_text e = unexpected_text (flow_error (session_error e))

  -- The handlers of `_run`: the text that the scan fails with.
  unfoldable pub failure_text : Failure → Text
  failure_text cancellation = text "avbrutt"
  failure_text time_limit = text "tidsavbrudd mot låsen"
  failure_text not_visible = str_error not_visible
  failure_text unexpected = unexpected_text unexpected
  failure_text (flow_error (prompt_failed e)) = str_error (flow_error (prompt_failed e))
  failure_text (flow_error (refused r)) = text "nektet: " ++ str_error (flow_error (refused r))
  failure_text (flow_error (session_error e)) = session_text e
  failure_text (flow_error e) = unexpected_text (flow_error e)

  -- The handler for what `mark_scanned` raised, if it did.
  unfoldable pub after_marking :
      DateTime → Result States.Error (Unit {0}) → Exec States.Error BleFingerprintScan (Unit {0})
  unfolding failure_text fail
  after_marking now (ok a) scan = (ok tt, scan)
  after_marking now (err e) scan = fail now (failure_text (flow_error (prompt_failed e))) scan

  -- `_run` from the end of the attempt: the last statement of the `try`, or a handler.
  unfoldable pub conclude_scan :
      DateTime → Result Failure OwnerScan → Exec States.Error BleFingerprintScan (Unit {0})
  unfolding failure_text answer_of after_marking mark_scanned fail
  conclude_scan now (err f) scan = fail now (failure_text f) scan
  conclude_scan now (ok result) scan =
      let (r, scan') = mark_scanned now (answer_of result) scan in after_marking now r scan'
