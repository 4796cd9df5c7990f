-- ===== src/Tests/Control.antt =====
-- A scan that is ordered and runs: custom_components/nimly_manager/scan_control.py and ble_scan.py.
use nimly_manager.Base.{
  ◌⊎◌, if◌then◌else◌, ◌≡◌, refl, true, false, none, some, [], ◌∷◌, ◌++◌, replicate,
}
use nimly_manager.Base.Int.{pos}
use nimly_manager.Base.Result.{ok}
use nimly_manager.Text.{Text, text, text_eq}
use nimly_manager.States
use nimly_manager.States.{is_terminal_scan}
use nimly_manager.Time.{is_naive}
use nimly_manager.Dict.Texts.{lookup}
use nimly_manager.KeyStore.{OwnerRecord, clock}
use nimly_manager.Scan.{BleFingerprintScan}
use nimly_manager.Runtime.{NimlyLockRuntime}
use nimly_manager.Coordinator.{
  Failure, time_limit, Desk, suspended, ended, event_data, async_start, async_cancel,
}
use nimly_manager.Coordinator.Run.{Course, connected, interrupted, Others, Job, attempt, run}
use nimly_manager.Coordinator.Settled.{is_settled, IsEnd, run_settled}
use nimly_manager.Entries.{ConfigEntry, no_options}
use nimly_manager.Home.{Home}
use nimly_manager.ScanControl.{Order, async_start_scan}
use nimly_manager.ScanControl.Gates.{Granted, Launched, async_start_scan_sound}
use nimly_manager.Tests.Sample.{plain_cipher, scan, idle, noon, soon, ada}
use nimly_manager.Tests.Link.{sum_curve, answer}
use nimly_manager.Tests.Owners.{address, enrolled, one_second, peer_wire}

abbrev home_entry : Text
home_entry = text "e1"

abbrev job : Job
job = record {
  entry_id = home_entry;
  owner = enrolled;
  prompted_at = noon;
  ended_at = soon;
  private_key = 3;
  response_seconds = one_second;
}

abbrev nobody : Others
nobody = record { earlier = λ s. s; later = λ s. s }

abbrev no_text : Failure → Text
no_text f = text "error"

abbrev desk : Desk
desk = record {
  scan = scan;
  coordinator = record { tasks = (home_entry, false) ∷ []; cancelled = []; fired = [] };
}

-- The lock scans the finger into the slot 150.
abbrev good_course : Course
good_course = connected (text "4.7.90") (
    answer false 0x01 1 peer_wire
    ∷ answer true 0x62 2 (23 ∷ [])
    ∷ answer true 0x22 3 (replicate 16 0)
    ∷ answer true 0x23 4 []
    ∷ answer true 0x57 5 (150 ∷ 0 ∷ 0 ∷ [])
    ∷ [])

soon_run : is_naive soon ≡ false
unfolding is_naive
soon_run = refl

settled_example :
    let tried = attempt plain_cipher sum_curve job nobody good_course desk in
    let end = run plain_cipher sum_curve job nobody no_text no_text good_course desk in
    (is_settled end.1.scan.state ≡ true)
    × ((is_terminal_scan tried.1.scan.state ≡ false) ⊎ (end.1.scan ≡ tried.1.scan))
    × IsEnd tried.0 end.0
    × (end.1.coordinator.fired
        ≡ tried.1.coordinator.fired ++ event_data job.entry_id end.1.scan ∷ [])
    × ((entry_id : Text)
        → lookup entry_id end.1.coordinator.tasks ≡ (
            if text_eq job.entry_id entry_id
            then none
            else lookup entry_id tried.1.coordinator.tasks))
settled_example =
    run_settled plain_cipher sum_curve job nobody no_text no_text good_course desk soon_run

good_run :
    (run plain_cipher sum_curve job nobody no_text no_text good_course desk).1.scan.state
    ≡ States.ScanState.awaiting_verification
unfolding run nimly_manager.Firmware.parse_firmware nimly_manager.Text.strip
    nimly_manager.Text.strip_right nimly_manager.Text.strip_left nimly_manager.Text.is_space
    nimly_manager.Firmware.all_digits nimly_manager.Text.Number.decimal
    nimly_manager.Text.Number.natural nimly_manager.Owner.Scanning.scan_fingerprint
    nimly_manager.Text.text_eq nimly_manager.Firmware.at_least
    nimly_manager.Protocol.Payloads.fingerprint_slot_payload nimly_manager.Session.handshake
    nimly_manager.Session.new_session nimly_manager.Crypto.public_key_to_wire
    nimly_manager.Crypto.coordinate_limit nimly_manager.Session.send
    nimly_manager.Protocol.Message.to_bytes nimly_manager.Protocol.Message.next
    nimly_manager.Session.hear nimly_manager.Protocol.Message.command_code
    nimly_manager.Protocol.Frame.frame_payload nimly_manager.Protocol.Frame.all_to_bytes
    nimly_manager.Protocol.Packet.to_bytes nimly_manager.Protocol.Packet.code
    nimly_manager.Protocol.Frame.continuation nimly_manager.Protocol.Frame.chunks
    nimly_manager.Session.exchange nimly_manager.Session.on_notify
    nimly_manager.Protocol.Reassembler.feed nimly_manager.Protocol.Packet.from_bytes
    nimly_manager.Protocol.Packet.of_code nimly_manager.Session.deliver
    nimly_manager.Protocol.Message.from_bytes nimly_manager.Protocol.Message.is_event
    nimly_manager.Protocol.Message.is_ok nimly_manager.Crypto.reversed_shared_secret
    nimly_manager.Crypto.encrypt nimly_manager.Crypto.zero_pad nimly_manager.Crypto.decrypt
    nimly_manager.Protocol.Payloads.parse_model nimly_manager.KeyStore.owner_key
    nimly_manager.Text.Hex.from_hex nimly_manager.Text.Hex.hex_digit
    nimly_manager.KeyStore.device_id nimly_manager.Session.owner_authenticate
    nimly_manager.Protocol.Payloads.user_auth_begin_payload nimly_manager.Crypto.owner_auth_answer
    nimly_manager.Crypto.bit_invert nimly_manager.Protocol.Payloads.parse_fingerprint_scan
good_run = refl

limit_run :
    (run plain_cipher sum_curve job nobody no_text no_text
      (interrupted time_limit true)
      desk).1.scan.error
    ≡ some (text "tidsavbrudd mot låsen")
unfolding run
limit_run = refl

abbrev entry : ConfigEntry
entry = record {
  title = text "Front door";
  unique_id = text "zigbee2mqtt/Front door";
  base_topic = text "zigbee2mqtt";
  device_name = text "Front door";
  options = record no_options { ble_address = some address };
}

abbrev home : Home
home = record {
  runtimes = (home_entry, idle) ∷ [];
  entries = (home_entry, entry) ∷ [];
  storage = record {
    stored_entries = [];
    registries = (home_entry, idle.slots) ∷ [];
    written = none;
  };
  owner_store = record { records = (home_entry, enrolled) ∷ []; file = none };
  fired = [];
  coordinator = record { tasks = []; cancelled = []; fired = [] };
}

abbrev order : Order
order = record {
  entry_id = home_entry;
  person_id = some (text "p1");
  person_name = ada;
  ble_slot = pos 150;
  at_the_lock = true;
  person_uuid = text "u1";
  session_uuid = text "b1";
  now = noon;
  failed_at = soon;
  beginning = suspended;
  running_text = text "running";
}

start_run : (async_start_scan order home).0 ≡ ok scan
unfolding async_start_scan lookup nimly_manager.Text.text_eq nimly_manager.Runtime.refuse_if_busy
    nimly_manager.Slots.used_ble_slots nimly_manager.Scan.start nimly_manager.Text.strip
    nimly_manager.Text.strip_right nimly_manager.Text.strip_left nimly_manager.Text.is_space
    nimly_manager.Home.put_runtime
start_run = refl

failed_at_run : is_naive order.failed_at ≡ false
unfolding is_naive
failed_at_run = refl

start_example :
    ((rt : NimlyLockRuntime) × (lookup order.entry_id home.runtimes ≡ some rt)
      × Granted order rt home)
    × Launched order suspended scan (async_start_scan order home).1
start_example = async_start_scan_sound order scan home failed_at_run start_run

-- A lock that is not visible: the task has ended the scan before it is registered, as done.
abbrev unseen : Home
unseen = (async_start_scan (record order { beginning = ended (text "not visible") }) home).1

unseen_run :
    (lookup home_entry unseen.coordinator.tasks ≡ some true)
    × (lookup home_entry unseen.runtimes
        ≡ some (record idle {
          scan =
              some (record scan {
                state = States.ScanState.failed;
                error = some (text "not visible");
              });
        }))
unfolding async_start_scan lookup nimly_manager.Text.text_eq nimly_manager.Runtime.refuse_if_busy
    nimly_manager.Slots.used_ble_slots nimly_manager.Scan.start nimly_manager.Text.strip
    nimly_manager.Text.strip_right nimly_manager.Text.strip_left nimly_manager.Text.is_space
    nimly_manager.Home.put_runtime nimly_manager.Dict.Texts.insert nimly_manager.Dict.Texts.remove
unseen_run = (refl, refl)

-- A scan is cancelled, the next one is started, and then the task of the first one ends: the
-- coordinator has lost the task that runs.
abbrev restarted : Desk
restarted =
    (async_start home_entry suspended soon
      (record desk { coordinator = async_cancel home_entry desk.coordinator })).1

lost_task_run :
    (lookup home_entry restarted.coordinator.tasks ≡ some false)
    × (lookup home_entry
          (run plain_cipher sum_curve job nobody no_text no_text
            (interrupted Failure.cancellation false)
            restarted).1.coordinator.tasks
        ≡ none)
unfolding lookup async_start async_cancel nimly_manager.Text.text_eq nimly_manager.Dict.Texts.remove
    nimly_manager.Dict.Texts.insert run
lost_task_run = (refl, refl)
