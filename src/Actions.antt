-- ===== src/Actions.antt =====
-- The actions of custom_components/nimly_manager/services.py, and the commands of
-- custom_components/nimly_manager/websocket.py that reply with a session or a scan: a call of the
-- runtime of an entry, the event, and the answer. The schemas of Home Assistant, which check the
-- arguments first, and its test for an administrator are not in the model; the readings of the clock
-- and the texts of `uuid4` are arguments.
use nimly_manager.Base.{Bool, false, Option, none, some, ◌∷◌, if◌then◌else◌}
use nimly_manager.Base.Int.{ℤ}
use nimly_manager.Base.Result.{Result, ok, err, Exec}
use nimly_manager.Base.Exec.{◌>>=◌}
use nimly_manager.Text.{Text, text}
use nimly_manager.Time.{DateTime}
use nimly_manager.Value.{Fields, str}
use nimly_manager.Dict.Texts.{lookup}
use nimly_manager.States
use nimly_manager.States.{is_value_error, slot_invalid, naive_timestamp}
use nimly_manager.Enrollment
use nimly_manager.Enrollment.{FingerprintEnrollment}
use nimly_manager.Scan.{BleFingerprintScan}
use nimly_manager.Runtime
use nimly_manager.Runtime.{NimlyLockRuntime}
use nimly_manager.Home.{Home, fire}
use nimly_manager.ScanControl.{
  ControlError, not_loaded, workflow, person_or_new, loaded_or_raise, on_runtime, Order,
  async_start_scan, async_cancel_scan,
}

-- The data of an event, and a response.
unfoldable pub enrollment_event : Text → FingerprintEnrollment → Fields
enrollment_event entry_id session =
    (text "config_entry_id", str entry_id) ∷ Enrollment.as_public_dict session

unfoldable pub async_fire_enrollment_state : Text → FingerprintEnrollment → Home → Home
unfolding enrollment_event
async_fire_enrollment_state entry_id session = fire (enrollment_event entry_id session)

-- services._runtime
abbrev pub find_runtime : Text → Exec ControlError Home NimlyLockRuntime
find_runtime entry_id h = (loaded_or_raise (lookup entry_id h.runtimes), h)

abbrev enrollment_of : Option NimlyLockRuntime → Option FingerprintEnrollment
enrollment_of none = none
enrollment_of (some rt) = rt.enrollment

-- The session that `confirm_enrollment` and `cancel_enrollment` return, which the runtime holds.
abbrev pub held_session : Text → Home → Option FingerprintEnrollment
held_session entry_id h = enrollment_of (lookup entry_id h.runtimes)

abbrev pub announce_held : Text → Option FingerprintEnrollment → Home → Home
announce_held entry_id none h = h
announce_held entry_id (some session) h = async_fire_enrollment_state entry_id session h

-- The event for the session of an entry, which is returned.
unfoldable pub announce : Text → Exec ControlError Home (Option FingerprintEnrollment)
unfolding async_fire_enrollment_state
announce entry_id h =
    (ok (held_session entry_id h), announce_held entry_id (held_session entry_id h) h)

-- A method of the runtime, and the event for its session.
unfoldable pub run_enrollment :
    {A : Type 0}
    → Text
    → Exec States.Error NimlyLockRuntime A
    → NimlyLockRuntime
    → Exec ControlError Home (Option FingerprintEnrollment)
unfolding announce
run_enrollment entry_id m rt = do done ← on_runtime entry_id rt m; announce entry_id

unfoldable pub start :
    Text → Text → Text → Text → ℤ → DateTime → Exec ControlError Home (Option FingerprintEnrollment)
unfolding run_enrollment
start entry_id uuid person_id person_name slot now = do
  rt ← find_runtime entry_id
  run_enrollment entry_id (Runtime.start_enrollment uuid person_id person_name slot now) rt

unfoldable pub confirm :
    Text → Text → DateTime → Exec ControlError Home (Option FingerprintEnrollment)
unfolding run_enrollment
confirm entry_id session_id now = do
  rt ← find_runtime entry_id
  run_enrollment entry_id (Runtime.confirm_enrollment session_id now) rt

unfoldable pub cancel :
    Text → Text → DateTime → Exec ControlError Home (Option FingerprintEnrollment)
unfolding run_enrollment
cancel entry_id session_id now = do
  rt ← find_runtime entry_id
  run_enrollment entry_id (Runtime.cancel_enrollment session_id now) rt

unfoldable pub start_scan : Order → Exec ControlError Home BleFingerprintScan
unfolding async_start_scan
start_scan o = do rt ← find_runtime o.entry_id; async_start_scan o

unfoldable pub cancel_scan :
    Text → Text → DateTime → Exec ControlError Home (Option BleFingerprintScan)
unfolding async_cancel_scan
cancel_scan entry_id session_id now = do
  rt ← find_runtime entry_id
  async_cancel_scan entry_id session_id now

-- What a command sends: a result, or an error by its code; an exception that is not caught sends
-- neither.
pub data Reply (A : Type 0) : Type 0 where
  result : A → Reply A
  entry_not_loaded invalid_request uncaught : Reply A

-- isinstance(error, FingerprintEnrollmentError)
abbrev pub is_enrollment_error : States.Error → Bool
is_enrollment_error slot_invalid = false
is_enrollment_error naive_timestamp = false
is_enrollment_error e = is_value_error e

unfoldable pub reply_to : {A : Type 0} → Result ControlError A → Reply A
unfolding is_value_error
reply_to (ok a) = result a
reply_to (err not_loaded) = entry_not_loaded
reply_to (err (workflow e)) = if is_enrollment_error e then invalid_request else uncaught
reply_to (err _) = invalid_request

-- A command: what it sends, and what it leaves.
abbrev pub command : {A : Type 0} → Exec ControlError Home A → Home → Reply A × Home
command m h = let (r, h') = m h in (reply_to r, h')

unfoldable pub websocket_start :
    Text
    → Text
    → Text
    → Option Text
    → Text
    → ℤ
    → DateTime
    → Home
    → Reply (Option FingerprintEnrollment) × Home
unfolding start person_or_new reply_to
websocket_start entry_id uuid person_uuid person_id person_name slot now =
    command (start entry_id uuid (person_or_new person_uuid person_id) person_name slot now)

unfoldable pub websocket_confirm :
    Text → Text → DateTime → Home → Reply (Option FingerprintEnrollment) × Home
unfolding confirm reply_to
websocket_confirm entry_id session_id now = command (confirm entry_id session_id now)

unfoldable pub websocket_cancel :
    Text → Text → DateTime → Home → Reply (Option FingerprintEnrollment) × Home
unfolding cancel reply_to
websocket_cancel entry_id session_id now = command (cancel entry_id session_id now)

unfoldable pub websocket_scan_start : Order → Home → Reply BleFingerprintScan × Home
unfolding start_scan reply_to
websocket_scan_start o = command (start_scan o)

unfoldable pub websocket_scan_cancel :
    Text → Text → DateTime → Home → Reply (Option BleFingerprintScan) × Home
unfolding cancel_scan reply_to
websocket_scan_cancel entry_id session_id now = command (cancel_scan entry_id session_id now)
