-- ===== src/Owner/Kept.antt =====
-- What the commands of `enroll` keep of the key store:
-- custom_components/nimly_manager/nimly_ble/enrollment.py.
use nimly_manager.Base.{Bytes}
use nimly_manager.Base.Result.{Result, Exec}
use nimly_manager.Base.Exec.{lift, pure, ◌>>=◌, ◌>>◌, Keeps, >>=-Keeps, >>-Keeps}
use nimly_manager.Text.{Text, text}
use nimly_manager.Crypto.{Cbc, Curve}
use nimly_manager.Protocol.Message.{
  CommandId, device_id_set, current_time_set, server_key_update, device_name_set,
}
use nimly_manager.Protocol.Payloads.{device_id_payload, current_time_payload, device_name_payload}
use nimly_manager.KeyStore.{OwnerRecord, OwnerKeyStore, save}
use nimly_manager.Session.{SessionError, Session, proto, send}
use nimly_manager.Owner.{OwnerError, Draws, Owner, on_session, on_store, asked, server_wire}
use nimly_manager.Owner.Flows.{instruct, configure}

module _ (aes : Cbc) (curve : Curve) where
  -- The last command and the second write of `configure`.
  abbrev pub name_and_save : Draws → Text → OwnerRecord → Exec OwnerError Owner OwnerRecord
  name_and_save draws name r =
      instruct aes curve device_name_set (proto (device_name_payload name))
      >> on_store (save draws.last_write draws.enrolled_at (record r { stage = text "enrolled" }))

module _ (Q : OwnerKeyStore → Type 0) where
  abbrev pub StoreHas : Owner → Type 0
  StoreHas s = Q s.store

  pub on_session-Keeps :
      {A : Type 0} (m : Exec SessionError Session A) → Keeps StoreHas (on_session m)
  on_session-Keeps m s h = h

  module _ (aes : Cbc) (curve : Curve) where
    pub instruct-Keeps :
        (c : CommandId) (payload : Result SessionError Bytes)
        → Keeps StoreHas (instruct aes curve c payload)
    unfolding instruct
    instruct-Keeps c payload =
        >>=-Keeps StoreHas (lift (asked payload))
          (λ bytes. on_session (send aes c bytes) >>= λ response. pure tt) (λ s h. h)
          (λ bytes.
            >>=-Keeps StoreHas (on_session (send aes c bytes)) (λ response. pure tt)
              (on_session-Keeps (send aes c bytes)) (λ response s h. h))

    pub configure-Keeps :
        (draws : Draws) (name : Text) (r : OwnerRecord)
        → Keeps StoreHas (name_and_save aes curve draws name r)
        → Keeps StoreHas (configure aes curve draws name r)
    unfolding configure
    configure-Keeps draws name r last =
        let step1 = instruct aes curve device_id_set (proto (device_id_payload draws.device_id)) in
        let step2 =
          instruct aes curve current_time_set (proto (current_time_payload draws.lock_time)) in
        let step3 =
          instruct aes curve server_key_update (server_wire (curve.public_of draws.server_key)) in
        let rest = name_and_save aes curve draws name r in
        >>-Keeps StoreHas step1 (step2 >> (step3 >> rest))
          (instruct-Keeps device_id_set (proto (device_id_payload draws.device_id)))
          (>>-Keeps StoreHas step2 (step3 >> rest)
            (instruct-Keeps current_time_set (proto (current_time_payload draws.lock_time)))
            (>>-Keeps StoreHas step3 rest
              (instruct-Keeps server_key_update (server_wire (curve.public_of draws.server_key)))
              last))

    pub name_and_save-Keeps :
        (draws : Draws) (name : Text) (r : OwnerRecord)
        → Keeps StoreHas (
            on_store
              (save draws.last_write draws.enrolled_at (record r { stage = text "enrolled" })))
        → Keeps StoreHas (name_and_save aes curve draws name r)
    name_and_save-Keeps draws name r last =
        >>-Keeps StoreHas (instruct aes curve device_name_set (proto (device_name_payload name)))
          (on_store
            (save draws.last_write draws.enrolled_at (record r { stage = text "enrolled" })))
          (instruct-Keeps device_name_set (proto (device_name_payload name))) last
