-- ===== src/OwnerCli.antt =====
-- `_find_lock`, `_run` and `main` of custom_components/nimly_manager/nimly_ble/cli.py, the command line
-- of an owner. The scan for locks, the connection and what is read from it are arguments, like the
-- numbers and clocks that a flow draws; what is printed is the payload that is emitted.
pub mod Enrolls
use nimly_manager.Base.{
  ℕ, ◌+◌, Bool, true, false, not, ◌&&◌, Option, none, some, List, [], ◌∷◌, Bytes, ltb,
  if◌then◌else◌,
}
use nimly_manager.Base.Int.{ℤ}
use nimly_manager.Base.Result.{Result, ok, err, Exec}
use nimly_manager.Base.Exec.{pure, lift, raise_when, ◌>>=◌, ◌>>◌}
use nimly_manager.Text.{Text, text, text_eq}
use nimly_manager.Value.{Float}
use nimly_manager.Crypto.{Cbc, Curve, CryptoError, coordinate_too_big, short_secret}
use nimly_manager.Firmware.{
  FirmwareVersion, Parsed, not_a_version, value_error, version, parse, at_least,
}
use nimly_manager.Advertisement.{NimlyAdvertisement, enrollment_state}
use nimly_manager.Protocol.Packet
use nimly_manager.KeyStore.{
  KeyStoreError, Disk, OwnerRecord, OwnerKeyStore, mark_preflight, overflow_error, disk_error,
}
use nimly_manager.Session.{
  SessionError, command_failed, timeout, write_failed, protocol_error, crypto_error, Session, Round,
  new_session,
}
use nimly_manager.Owner.{
  OwnerError, refused, no_enrolled_record, session_error, store_error, Report, Draws, Owner,
  on_session, on_store,
}
use nimly_manager.Owner.Flows.{preflight, enroll}
use nimly_manager.Owner.Scanning.{ScanResult, fingerprint_scan_flow}

-- args.command, with the arguments that go with it
pub data Command : Type 0 where
  preflight_command : Command
  enroll_command : Text → Bool → Command
  scan_command : ℤ → Bool → Command

-- What `discover_nimly` gives or raises: BleUnavailableError, or an error of the scan.
pub data Discovery : Type 0 where
  unavailable scan_failed : Discovery
  found : List NimlyAdvertisement → Discovery

-- The door: what is discovered, the software revision where it can be read, and the air.
pub record Door : Type 0 where
  pub discovery : Discovery
  pub firmware_text : Option Text
  pub air : List Round

-- What a run draws, besides the draws of a flow.
pub record Readings : Type 0 where
  pub draws : Draws
  pub response_seconds : Float
  pub passes : List (List Bytes)
  pub marked_at : ℕ
  pub marker_write : Disk

-- `EnrollmentRefused` here, `SessionError` here, BleUnavailableError, what Bluetooth raises, the
-- ValueError of the version, and what a flow raises.
pub data CliError : Type 0 where
  flag_missing name_too_long : CliError
  not_factory : Text → CliError
  none_found several_found : CliError
  old_firmware : Text → CliError
  ble_unavailable ble_failed bad_version : CliError
  flow : OwnerError → CliError

-- What `_emit` is given.
pub data Payload : Type 0 where
  report : Report → Text → Payload
  enrolled : OwnerRecord → Payload
  scanned : ScanResult → Payload

-- The files, and the session of the lock that was connected, if one was.
pub record Bench : Type 0 where
  pub store : OwnerKeyStore
  pub session : Option Session

-- MIN_FIRMWARE
abbrev pub min_firmware : FirmwareVersion
min_firmware = record { major = 4; minor = 6; patch = 0 }

-- len(name.encode("ascii", "ignore"))
unfoldable pub ascii_length : Text → ℕ
ascii_length [] = 0
ascii_length (c ∷ cs) = (if ltb c 128 then 1 else 0) + ascii_length cs

unfoldable pub find_lock : Discovery → Result CliError NimlyAdvertisement
find_lock unavailable = err ble_unavailable
find_lock scan_failed = err ble_failed
find_lock (found []) = err none_found
find_lock (found (a ∷ [])) = ok a
find_lock (found (a ∷ b ∷ more)) = err several_found

-- args.command in (...) and not args.at_the_lock
abbrev pub lacks_flag : Command → Bool
lacks_flag preflight_command = false
lacks_flag (enroll_command name at_the_lock) = not at_the_lock
lacks_flag (scan_command slot at_the_lock) = not at_the_lock

-- args.command == "enroll" and len(...) > 8
abbrev pub has_long_name : Command → Bool
has_long_name preflight_command = false
has_long_name (enroll_command name at_the_lock) = ltb 8 (ascii_length name)
has_long_name (scan_command slot at_the_lock) = false

-- What was read, or what Bluetooth raised.
abbrev pub read_or_raise : Option Text → Result CliError Text
read_or_raise none = err ble_failed
read_or_raise (some t) = ok t

abbrev pub accepted_version : Text → Parsed → Result CliError FirmwareVersion
accepted_version t not_a_version = err (old_firmware t)
accepted_version t value_error = err bad_version
accepted_version t (version v) = if at_least v min_firmware then ok v else err (old_firmware t)

-- The version of the lock, which must be high enough.
unfoldable pub version_or_raise : Text → Result CliError FirmwareVersion
unfolding parse at_least
version_or_raise t = accepted_version t (parse t)

abbrev pub in_flow : {A : Type 0} → Result OwnerError A → Result CliError A
in_flow (ok a) = ok a
in_flow (err e) = err (flow e)

-- A flow on a new session and the store.
abbrev pub in_session :
    {A : Type 0} → FirmwareVersion → List Round → Exec OwnerError Owner A → Exec CliError Bench A
in_session firmware air m b =
    let (r, o) = m (record { session = new_session firmware air; store = b.store }) in
    (in_flow r, record { store = o.store; session = some o.session })

module _ (aes : Cbc) (curve : Curve) (pem_of : ℕ → Text) (x : Readings) where
  -- The flow of `fingerprint_scan`, which reads the store.
  abbrev scan_flow : Text → ℤ → Exec OwnerError Owner ScanResult
  scan_flow address slot o =
      let (r, s) =
        fingerprint_scan_flow aes curve x.draws.link_key o.store address slot x.response_seconds
          x.passes o.session in
      (elim r [ ok a ↦ ok a.0 | err e ↦ err e ], record o { session = s })

  -- The branch of `preflight`.
  abbrev preflight_flow : Text → FirmwareVersion → Exec OwnerError Owner Report
  preflight_flow address firmware = do
    done ← on_session (preflight aes curve x.draws.link_key address firmware)
    on_store (mark_preflight x.marker_write address done.default_owner_auth x.marked_at)
    pure done

  -- The branches of `_run`, with the advertisement of the lock and its version.
  unfoldable pub run_command :
      NimlyAdvertisement → FirmwareVersion → List Round → Command → Exec CliError Bench Payload
  unfolding preflight enroll fingerprint_scan_flow mark_preflight enrollment_state new_session
  run_command adv firmware air preflight_command = do
    done ← in_session firmware air (preflight_flow adv.address firmware)
    pure (report done (enrollment_state adv))
  run_command adv firmware air (enroll_command name at_the_lock) = do
    raise_when (λ b. not (text_eq (enrollment_state adv) (text "factory")))
        (λ b. not_factory (enrollment_state adv))
    r ← in_session firmware air (enroll aes curve pem_of x.draws adv.address name)
    pure (enrolled r)
  run_command adv firmware air (scan_command slot at_the_lock) = do
    r ← in_session firmware air (scan_flow adv.address slot)
    pure (scanned r)

  -- _run
  unfoldable pub run : Door → Command → Exec CliError Bench Payload
  unfolding find_lock ascii_length version_or_raise run_command
  run door command = do
    raise_when (λ b. lacks_flag command) (λ b. flag_missing)
    raise_when (λ b. has_long_name command) (λ b. name_too_long)
    adv ← lift (find_lock door.discovery)
    firmware_text ← lift (read_or_raise door.firmware_text)
    firmware ← lift (version_or_raise firmware_text)
    run_command adv firmware door.air command

-- The exit code that `main` returns, or that `parser.error` exits with. What Bluetooth raises is its
-- own: whether `main` catches it is an argument. `none` where the exception is not caught.
module _ (caught : Bool) where
  abbrev bluetooth_code : Option ℕ
  bluetooth_code = if caught then some 1 else none

  abbrev crypto_code : CryptoError → Option ℕ
  crypto_code coordinate_too_big = none
  crypto_code short_secret = none
  crypto_code e = some 1

  abbrev protocol_code : Packet.Error → Option ℕ
  protocol_code Packet.int_too_big = none
  protocol_code Packet.assertion = none
  protocol_code e = some 1

  abbrev session_code : SessionError → Option ℕ
  session_code (command_failed id r) = some 4
  session_code write_failed = bluetooth_code
  session_code (protocol_error e) = protocol_code e
  session_code (crypto_error e) = crypto_code e
  session_code e = some 1

  abbrev store_code : KeyStoreError → Option ℕ
  store_code overflow_error = none
  store_code disk_error = some 1
  store_code e = some 3

  abbrev flow_code : OwnerError → Option ℕ
  flow_code (refused r) = some 3
  flow_code no_enrolled_record = some 3
  flow_code (session_error e) = session_code e
  flow_code (store_error e) = store_code e
  flow_code e = some 1

  unfoldable pub error_code : CliError → Option ℕ
  error_code flag_missing = some 3
  error_code name_too_long = some 3
  error_code (not_factory state) = some 3
  error_code ble_unavailable = some 2
  error_code ble_failed = bluetooth_code
  error_code (flow e) = flow_code e
  error_code e = some 1

  unfoldable pub exit_code : {A : Type 0} → Result CliError A → Option ℕ
  unfolding error_code
  exit_code (ok a) = some 0
  exit_code (err e) = error_code e

-- main, with the bench that it leaves
unfoldable pub main :
    Cbc → Curve → (ℕ → Text) → Readings → Bool → Door → Command → Bench → Option ℕ × Bench
unfolding run exit_code
main aes curve pem_of x caught door command b =
    let (r, b') = run aes curve pem_of x door command b in (exit_code caught r, b')
