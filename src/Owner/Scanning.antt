-- ===== src/Owner/Scanning.antt =====
-- `fingerprint_scan` and `scan_fingerprint` of
-- custom_components/nimly_manager/nimly_ble/enrollment.py. `on_finger_prompt` is an action on a state
-- of the caller's; the passes of the loop that waits for events before its deadline are given by
-- the frames that each pass hears.
use nimly_manager.Base.{
  ℕ, Bool, true, false, not, ◌||◌, Option, none, some, List, [], ◌∷◌, Bytes, if◌then◌else◌,
}
use nimly_manager.Base.Int.{ℤ}
use nimly_manager.Base.Result.{Result, ok, err, Exec}
use nimly_manager.Base.Exec.{pure, lift, raise_when, ◌>>=◌, ◌>>◌}
use nimly_manager.Text.{Text, text, text_eq}
use nimly_manager.Value.{Float}
use nimly_manager.States
use nimly_manager.Crypto.{Cbc, Curve}
use nimly_manager.Firmware.{FirmwareVersion, at_least}
use nimly_manager.Protocol.Message.{device_model_get, fingerprint_scan}
use nimly_manager.Protocol.Payloads.{fingerprint_slot_payload, parse_model, parse_fingerprint_scan}
use nimly_manager.Protocol.Events.{Event, lock_status, user_added, unknown}
use nimly_manager.KeyStore.{OwnerRecord, OwnerKeyStore, load, owner_key, device_id}
use nimly_manager.Session.{Session, proto, hear, send, handshake, owner_authenticate}
use nimly_manager.Owner.{
  not_enrolled, old_firmware, unknown_model, OwnerError, refused, no_enrolled_record, prompt_failed,
  asked, from_hex_or_raise, version_text, model_text, fingerprint_scan_firmware, scan_status_name,
  on_link,
}

-- The dictionary that the scans return; `fingerprint_scan` reads its first four entries.
pub record ScanResult : Type 0 where
  pub requested_slot : ℤ
  pub reported_slot : ℕ
  pub scan_status : Text
  pub response_seconds : Float

abbrev is_user_added : Event → Bool
is_user_added (user_added slot status) = true
is_user_added (lock_status slot state method) = false
is_user_added (unknown id) = false

-- [e for e in session.events if e.get("event") == "user_added"]
unfoldable pub added_events : List Event → List Event
added_events [] = []
added_events (e ∷ es) = if is_user_added e then e ∷ added_events es else added_events es

abbrev pub enrolled_or_raise : Option OwnerRecord → Result OwnerError OwnerRecord
enrolled_or_raise none = err no_enrolled_record
enrolled_or_raise (some r) =
    if text_eq r.stage (text "enrolled") then ok r else err no_enrolled_record

-- The result of `scan_fingerprint`.
pub record OwnerScan : Type 0 where
  pub answer : ScanResult
  pub model : Text
  pub firmware : Text

abbrev pub on_fst : {E S P A : Type 0} → Exec E S A → Exec E (S × P) A
on_fst m (s, p) = let (r, s') = m s in (r, (s', p))

abbrev pub asked_prompt : Result States.Error (Unit {0}) → Result OwnerError (Unit {0})
asked_prompt (ok a) = ok a
asked_prompt (err e) = err (prompt_failed e)

abbrev pub prompted :
    {S P : Type 0} → Exec States.Error P (Unit {0}) → Exec OwnerError (S × P) (Unit {0})
prompted prompt (s, p) = let (r, p') = prompt p in (asked_prompt r, (s, p'))

module _ (aes : Cbc) (curve : Curve) where
  -- session.owner_authenticate(record.owner_key, user_id=0, device_id=record.device_id)
  unfoldable pub authenticate_record : OwnerRecord → Exec OwnerError Session (Unit {0})
  authenticate_record r = do
    key ← lift (from_hex_or_raise (owner_key r))
    id ← lift (from_hex_or_raise (device_id r))
    on_link (owner_authenticate aes key 0 id)

  -- The command of a scan, and what its response says.
  unfoldable pub command_scan : ℤ → Float → Bytes → Exec OwnerError Session ScanResult
  unfolding scan_status_name
  command_scan slot response_seconds payload = do
    response ← on_link (send aes fingerprint_scan payload)
    answer ← lift (asked (proto (parse_fingerprint_scan response.payload)))
    let (reported_slot, status) = answer
    pure (record {
      requested_slot = slot;
      reported_slot = reported_slot;
      scan_status = scan_status_name status;
      response_seconds = response_seconds;
    })

  -- The loop of `fingerprint_scan`: the events found in its last pass.
  unfoldable pub wait_added : List (List Bytes) → Session → List Event × Session
  unfolding added_events
  wait_added [] s = ([], s)
  wait_added (heard ∷ passes) s = elim (added_events s.events) [
    | [] ↦ wait_added passes (hear aes heard s)
    | e ∷ es ↦ (e ∷ es, s)
  ]

  unfoldable pub fingerprint_scan_flow :
      ℕ
      → OwnerKeyStore
      → Text
      → ℤ
      → Float
      → List (List Bytes)
      → Exec OwnerError Session (ScanResult × List Event)
  unfolding authenticate_record command_scan
  fingerprint_scan_flow private_key store lock_address slot response_seconds passes = do
    r ← lift (enrolled_or_raise (load lock_address store))
    payload ← lift (asked (proto (fingerprint_slot_payload slot)))
    on_link (handshake aes curve private_key)
    authenticate_record r
    answer ← command_scan slot response_seconds payload
    events ← λ s. let (events, s') = wait_added passes s in (ok events, s')
    pure (answer, events)

  -- The steps of `scan_fingerprint` between its gates and the prompt: the text of the model.
  unfoldable pub open_scan : ℕ → OwnerRecord → Exec OwnerError Session Text
  unfolding authenticate_record model_text
  open_scan private_key r = do
    on_link (handshake aes curve private_key)
    model ← on_link (send aes device_model_get [])
    let (model_id, model_name, fingerprint_capable) = parse_model model.payload
    raise_when (λ s. text_eq model_name (text "Unknown") || not fingerprint_capable)
        (λ s. refused (unknown_model model_id))
    authenticate_record r
    pure (model_text model_name model_id)

  -- `scan_fingerprint` from its prompt, with the text of the model
  unfoldable pub prompt_scan :
      {P : Type 0}
      → Exec States.Error P (Unit {0})
      → ℤ
      → FirmwareVersion
      → Float
      → Bytes
      → Text
      → Exec OwnerError (Session × P) OwnerScan
  unfolding command_scan version_text
  prompt_scan prompt slot firmware response_seconds payload model = do
    prompted prompt
    answer ← on_fst (command_scan slot response_seconds payload)
    pure (record { answer = answer; model = model; firmware = version_text firmware })

  -- `scan_fingerprint` from its handshake
  unfoldable pub run_scan :
      {P : Type 0}
      → Exec States.Error P (Unit {0})
      → ℕ
      → OwnerRecord
      → ℤ
      → FirmwareVersion
      → Float
      → Bytes
      → Exec OwnerError (Session × P) OwnerScan
  unfolding open_scan prompt_scan
  run_scan prompt private_key r slot firmware response_seconds payload = do
    model ← on_fst (open_scan private_key r)
    prompt_scan prompt slot firmware response_seconds payload model

  unfoldable pub scan_fingerprint :
      {P : Type 0}
      → Exec States.Error P (Unit {0})
      → ℕ
      → OwnerRecord
      → ℤ
      → FirmwareVersion
      → Float
      → Exec OwnerError (Session × P) OwnerScan
  unfolding run_scan
  scan_fingerprint prompt private_key r slot firmware response_seconds = do
    raise_when (λ s. not (text_eq r.stage (text "enrolled"))) (λ s. refused not_enrolled)
    raise_when (λ s. not (at_least firmware fingerprint_scan_firmware))
        (λ s. refused (old_firmware firmware))
    payload ← lift (asked (proto (fingerprint_slot_payload slot)))
    run_scan prompt private_key r slot firmware response_seconds payload
