-- ===== src/ScanControl.antt =====
-- custom_components/nimly_manager/scan_control.py: the gates in front of a BLE scan, and its cancel,
-- over `hass.data` and the config entries. The scan that the runtime holds and the one that the task
-- works on are one object.
pub mod Begun
pub mod Gates
use nimly_manager.Base.{
  ℕ, Bool, true, false, not, Option, none, some, is_some, List, [], ◌∷◌, ◌++◌, if◌then◌else◌,
}
use nimly_manager.Base.Int.{ℤ}
use nimly_manager.Base.Result.{Result, ok, err, Exec}
use nimly_manager.Base.Exec.{pure, lift, modify, raise_when, ◌>>=◌, ◌>>◌}
use nimly_manager.Text.{Text, text}
use nimly_manager.Time.{DateTime}
use nimly_manager.Request.{is_empty}
use nimly_manager.Dict.Texts.{lookup, insert}
use nimly_manager.States
use nimly_manager.Scan.{BleFingerprintScan, fail}
use nimly_manager.Runtime.{NimlyLockRuntime, start_fingerprint_scan, cancel_fingerprint_scan}
use nimly_manager.OwnerStore
use nimly_manager.Entries.{ConfigEntry}
use nimly_manager.Home.{Home, put_runtime}
use nimly_manager.Coordinator.{
  FingerprintScanCoordinator, StartError, Desk, Beginning, async_start, async_cancel, fire_state,
}

-- The reasons of `FingerprintEnrollmentError` here, and what the runtime and the scan raise.
pub data ControlError : Type 0 where
  not_loaded not_at_lock no_address no_owner scan_running : ControlError
  workflow : States.Error → ControlError

-- entry.options.get(CONF_BLE_ADDRESS) if entry is not None else None
abbrev pub address_of : Option ConfigEntry → Option Text
address_of none = none
address_of (some e) = e.options.ble_address

-- `not address`, for the option of an entry
abbrev pub is_missing : Option Text → Bool
is_missing none = true
is_missing (some address) = is_empty address

-- person_id or f"person-{uuid4()}"
unfoldable pub person_or_new : Text → Option Text → Text
person_or_new uuid none = text "person-" ++ uuid
person_or_new uuid (some id) = if is_empty id then text "person-" ++ uuid else id

-- _runtime
abbrev pub loaded_or_raise : Option NimlyLockRuntime → Result ControlError NimlyLockRuntime
loaded_or_raise none = err not_loaded
loaded_or_raise (some rt) = ok rt

abbrev pub in_workflow : {A : Type 0} → Result States.Error A → Result ControlError A
in_workflow (ok a) = ok a
in_workflow (err e) = err (workflow e)

-- A method of the runtime of an entry.
abbrev pub on_runtime :
    {A : Type 0}
    → Text
    → NimlyLockRuntime
    → Exec States.Error NimlyLockRuntime A
    → Exec ControlError Home A
on_runtime entry_id rt m h = let (r, rt') = m rt in (in_workflow r, put_runtime entry_id rt' h)

-- The `except RuntimeError` of `async_start_scan`: the scan, which the runtime holds, fails.
unfoldable pub give_up :
    Text
    → NimlyLockRuntime
    → BleFingerprintScan
    → DateTime
    → Text
    → Exec ControlError Home BleFingerprintScan
unfolding fail
give_up entry_id rt scan now message h =
    let (r, failed) = fail now message scan in
    (
      elim (in_workflow r) [ ok a ↦ err scan_running | err e ↦ err e ],
      put_runtime entry_id (record rt { scan = some failed }) h,
    )

abbrev pub give_up_on :
    Text
    → BleFingerprintScan
    → DateTime
    → Text
    → Option NimlyLockRuntime
    → Exec ControlError Home BleFingerprintScan
give_up_on entry_id scan now message none h = (err not_loaded, h)
give_up_on entry_id scan now message (some rt) h = give_up entry_id rt scan now message h

-- The scan of the runtime of an entry is as its task has left it.
abbrev pub hold_scan : Text → BleFingerprintScan → Option NimlyLockRuntime → Home → Home
hold_scan entry_id scan none h = h
hold_scan entry_id scan (some rt) h = put_runtime entry_id (record rt { scan = some scan }) h

-- What follows on `async_start`, with the scan before it and after it.
unfoldable pub started :
    Text
    → DateTime
    → Text
    → BleFingerprintScan
    → BleFingerprintScan
    → Result StartError (Unit {0})
    → Exec ControlError Home BleFingerprintScan
unfolding give_up
started entry_id now message scan after (ok a) h =
    (ok after, hold_scan entry_id after (lookup entry_id h.runtimes) h)
started entry_id now message scan after (err e) h =
    give_up_on entry_id scan now message (lookup entry_id h.runtimes) h

-- What the desk of a task shows, in the installation.
abbrev pub desk_of : BleFingerprintScan → Home → Desk
desk_of scan h = record { scan = scan; coordinator = h.coordinator }

-- The end of `async_start_scan`, once the runtime has the scan.
unfoldable pub launch :
    Text
    → Beginning
    → DateTime
    → Text
    → BleFingerprintScan
    → Exec ControlError Home BleFingerprintScan
unfolding async_start started
launch entry_id beginning now message scan h =
    let (r, d) = async_start entry_id beginning now (desk_of scan h) in
    started entry_id now message scan d.scan r (record h { coordinator = d.coordinator })

-- The arguments of `async_start_scan`, with the texts of `uuid4` and of the RuntimeError, the
-- readings of the clock, and what the new task does at once.
pub record Order : Type 0 where
  pub entry_id : Text
  pub person_id : Option Text
  pub person_name : Text
  pub ble_slot : ℤ
  pub at_the_lock : Bool
  pub person_uuid : Text
  pub session_uuid : Text
  pub now : DateTime
  pub failed_at : DateTime
  pub beginning : Beginning
  pub running_text : Text

-- The gates after the runtime is found.
unfoldable pub start_gated : Order → NimlyLockRuntime → Exec ControlError Home BleFingerprintScan
unfolding launch person_or_new start_fingerprint_scan OwnerStore.has
start_gated o rt = do
  raise_when (λ h. not o.at_the_lock) (λ h. not_at_lock)
  raise_when (λ h. is_missing (address_of (lookup o.entry_id h.entries))) (λ h. no_address)
  raise_when (λ h. not (OwnerStore.has o.entry_id h.owner_store)) (λ h. no_owner)
  scan ← on_runtime o.entry_id rt (
      start_fingerprint_scan o.session_uuid (person_or_new o.person_uuid o.person_id) o.person_name
        o.ble_slot o.now)
  launch o.entry_id o.beginning o.failed_at o.running_text scan

unfoldable pub async_start_scan : Order → Exec ControlError Home BleFingerprintScan
unfolding start_gated
async_start_scan o h = (lift (loaded_or_raise (lookup o.entry_id h.runtimes)) >>= start_gated o) h

abbrev announce :
    Text → Option BleFingerprintScan → FingerprintScanCoordinator → FingerprintScanCoordinator
announce entry_id none c = c
announce entry_id (some scan) c = fire_state entry_id scan c

abbrev scan_of : Option NimlyLockRuntime → Option BleFingerprintScan
scan_of none = none
scan_of (some rt) = rt.scan

-- The end of `async_cancel_scan`, with the scan that the runtime returned, which it holds.
unfoldable pub end_task : Text → Exec ControlError Home (Option BleFingerprintScan)
unfolding async_cancel fire_state
end_task entry_id h =
    let scan = scan_of (lookup entry_id h.runtimes) in
    (
      ok scan,
      record h { coordinator = announce entry_id scan (async_cancel entry_id h.coordinator) },
    )

unfoldable pub cancel_on :
    Text → Text → DateTime → NimlyLockRuntime → Exec ControlError Home (Option BleFingerprintScan)
unfolding cancel_fingerprint_scan end_task
cancel_on entry_id session_id now rt = do
  done ← on_runtime entry_id rt (cancel_fingerprint_scan session_id now)
  end_task entry_id

unfoldable pub async_cancel_scan :
    Text → Text → DateTime → Exec ControlError Home (Option BleFingerprintScan)
unfolding cancel_on
async_cancel_scan entry_id session_id now h =
    (lift (loaded_or_raise (lookup entry_id h.runtimes)) >>= cancel_on entry_id session_id now) h
