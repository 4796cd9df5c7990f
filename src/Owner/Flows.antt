-- ===== src/Owner/Flows.antt =====
-- `preflight` and `enroll` of
-- custom_components/nimly_manager/nimly_ble/enrollment.py.
use nimly_manager.Base.{ℕ, Bool, true, false, not, none, some, [], Bytes, replicate}
use nimly_manager.Base.Result.{Result, Exec}
use nimly_manager.Base.Exec.{pure, lift, raise_when, ◌>>=◌, ◌>>◌}
use nimly_manager.Text.{Text, text}
use nimly_manager.Text.Hex.{to_hex}
use nimly_manager.Crypto.{Cbc, Curve, default_owner_key}
use nimly_manager.Firmware.{FirmwareVersion, at_least}
use nimly_manager.Protocol.Message.{
  CommandId, device_model_get, device_id_set, current_time_set, server_key_update, device_name_set,
}
use nimly_manager.Protocol.Payloads.{
  device_id_payload, current_time_payload, device_name_payload, parse_model,
}
use nimly_manager.KeyStore.{clock, OwnerRecord, path_for, exists, preflight_passed_recently, save}
use nimly_manager.Session.{
  SessionError, Session, proto, send, handshake, owner_authenticate, owner_update,
}
use nimly_manager.Owner.{
  record_exists, preflight_missing, OwnerError, refused, asked, version_text, model_text,
  model_query_firmware, Report, Draws, Owner, on_session, on_store, server_wire,
}

-- DEFAULT_ADMIN_USER_ID
abbrev pub default_admin_user_id : ℕ
default_admin_user_id = 0

-- DEFAULT_DEVICE_ID
abbrev pub default_device_id : Bytes
default_device_id = replicate 6 0

-- The record of a new key, before it is saved, with the PEM text of a private key.
unfoldable pub received : (ℕ → Text) → Draws → Text → Text → Bytes → OwnerRecord
received pem_of draws lock_address name key = record {
  lock_address = lock_address;
  device_id_hex = to_hex draws.device_id;
  owner_key_hex = to_hex key;
  stage = text "owner_key_received";
  server_private_pem = pem_of draws.server_key;
  name = name;
  created = clock draws.created_at;
  updated = clock draws.updated_at;
}

module _ (aes : Cbc) (curve : Curve) where
  -- The question for the model, where the firmware is new enough.
  unfoldable pub query_model : Bool → Report → Exec SessionError Session Report
  unfolding model_text parse_model
  query_model false report = pure report
  query_model true report = do
    model ← send aes device_model_get []
    let (model_id, name, fingerprint) = parse_model model.payload
    pure (record report {
      model = some (model_text name model_id);
      fingerprint_capable = some fingerprint;
    })

  -- preflight, with the private key of its handshake
  unfoldable pub preflight : ℕ → Text → FirmwareVersion → Exec SessionError Session Report
  unfolding query_model version_text
  preflight private_key lock_address firmware = do
    handshake aes curve private_key
    report ← query_model (at_least firmware model_query_firmware) (record {
      lock_address = lock_address;
      firmware = version_text firmware;
      link_handshake = true;
      model = none;
      fingerprint_capable = none;
      default_owner_auth = false;
    })
    owner_authenticate aes default_owner_key default_admin_user_id default_device_id
    pure (record report { default_owner_auth = true })

  -- await session.send(id, payload), where the payload may raise
  unfoldable pub instruct : CommandId → Result SessionError Bytes → Exec OwnerError Owner (Unit {0})
  instruct id payload = do
    bytes ← lift (asked payload)
    response ← on_session (send aes id bytes)
    pure tt

  -- The commands of `enroll` after the first write, and the second write.
  unfoldable pub configure : Draws → Text → OwnerRecord → Exec OwnerError Owner OwnerRecord
  unfolding instruct
  configure draws name r = do
    instruct device_id_set (proto (device_id_payload draws.device_id))
    instruct current_time_set (proto (current_time_payload draws.lock_time))
    instruct server_key_update (server_wire (curve.public_of draws.server_key))
    instruct device_name_set (proto (device_name_payload name))
    on_store (save draws.last_write draws.enrolled_at (record r { stage = text "enrolled" }))

  -- `enroll` from the point of no return
  unfoldable pub take_over :
      (ℕ → Text) → Draws → Text → Text → Bytes → Exec OwnerError Owner OwnerRecord
  unfolding configure
  take_over pem_of draws lock_address name key = do
    r ←
        on_store
          (save draws.first_write draws.received_at (received pem_of draws lock_address name key))
    configure draws name r

  -- `enroll` up to the point of no return: the new owner key
  unfoldable pub negotiate : Draws → Text → Exec OwnerError Owner Bytes
  negotiate draws lock_address = do
    raise_when (λ s. exists lock_address s.store)
        (λ s. refused (record_exists (path_for lock_address)))
    raise_when (λ s. not (preflight_passed_recently lock_address draws.asked_at s.store))
        (λ s. refused preflight_missing)
    on_session (handshake aes curve draws.link_key)
    on_session (owner_authenticate aes default_owner_key default_admin_user_id default_device_id)
    on_session (owner_update aes curve draws.update_key 0 0)

  unfoldable pub enroll : (ℕ → Text) → Draws → Text → Text → Exec OwnerError Owner OwnerRecord
  unfolding negotiate take_over
  enroll pem_of draws lock_address name = do
    key ← negotiate draws lock_address
    take_over pem_of draws lock_address name key
