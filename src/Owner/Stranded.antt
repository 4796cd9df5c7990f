-- ===== src/Owner/Stranded.antt =====
-- An enrollment that cannot be finished: `enroll` of
-- custom_components/nimly_manager/nimly_ble/enrollment.py with a name that is not ASCII.
use mathlib.Core.Path.{subst}
use nimly_manager.Base.{ℕ, ◌≡◌, refl, ap, sym, ◌∙◌, true, false, some, Bytes}
use nimly_manager.Base.Result.{Result, ok, err}
use nimly_manager.Base.Exec.{◌>>◌, Fails, >>=-Fails, >>-Fails, >>=-brings, >>=-returned}
use nimly_manager.Text.{Text, text}
use nimly_manager.Crypto.{Cbc, Curve}
use nimly_manager.Protocol.Packet.{not_ascii}
use nimly_manager.Protocol.Message.{device_id_set, current_time_set, server_key_update}
use nimly_manager.Protocol.Payloads.{
  is_ascii, device_id_payload, current_time_payload, device_name_payload,
}
use nimly_manager.KeyStore.{clock, OwnerRecord, OwnerKeyStore, save, load}
use nimly_manager.KeyStore.Laws.{replaces, load-put}
use nimly_manager.Session.{protocol_error, proto}
use nimly_manager.Owner.{OwnerError, session_error, Draws, Owner, on_store, server_wire}
use nimly_manager.Owner.Flows.{received, instruct, configure, take_over, negotiate, enroll}
use nimly_manager.Owner.Kept.{StoreHas, name_and_save, configure-Keeps}

-- The store has a record of the lock that is not enrolled.
pub record Unfinished (address : Text) (store : OwnerKeyStore) : Type 0 where
  kept : OwnerRecord
  loaded : load address store ≡ some kept
  stage : kept.stage ≡ text "owner_key_received"

module _ (aes : Cbc) (curve : Curve) (draws : Draws) (name : Text)
    (foreign : is_ascii name ≡ false) where
  name_refused :
      (r : OwnerRecord) (s : Owner)
      → name_and_save aes curve draws name r s ≡ (err (session_error (protocol_error not_ascii)), s)
  unfolding instruct device_name_payload
  name_refused r s = rw foreign refl

  configure-Fails : (r : OwnerRecord) → Fails (configure aes curve draws name r)
  unfolding configure
  configure-Fails r =
      let step1 = instruct aes curve device_id_set (proto (device_id_payload draws.device_id)) in
      let step2 =
        instruct aes curve current_time_set (proto (current_time_payload draws.lock_time)) in
      let step3 =
        instruct aes curve server_key_update (server_wire (curve.public_of draws.server_key)) in
      let rest = name_and_save aes curve draws name r in
      >>-Fails step1 (step2 >> (step3 >> rest)) (
        >>-Fails step2 (step3 >> rest) (
          >>-Fails step3 rest
            (λ s. (session_error (protocol_error not_ascii), ap (λ x. x.0) (name_refused r s)))))

  module _ (pem_of : ℕ → Text) (address : Text) (key : Bytes) where
    take_over-Unfinished :
        (s : Owner)
        → replaces draws.first_write ≡ true
        → Unfinished address (take_over aes curve pem_of draws address name key s).1.store
    unfolding take_over received
    take_over-Unfinished s put =
        let r = received pem_of draws address name key in
        >>=-brings (StoreHas (Unfinished address))
          (on_store (save draws.first_write draws.received_at r)) (configure aes curve draws name) s
          (record {
            kept = record r { updated = clock draws.received_at };
            loaded = load-put draws.first_write draws.received_at r s.store address put refl;
            stage = refl;
          })
          (λ q e. configure-Keeps (Unfinished address) aes curve draws name q (λ t h.
            subst (λ (x : Result OwnerError OwnerRecord × Owner). Unfinished address x.1.store)
              (sym (name_refused q t)) h))

    -- With a name that is not ASCII, an enrollment that agrees on a new owner key with the lock, and
    -- whose first write puts its file in place, raises, and the store then loads a record of the lock
    -- that is at the stage "owner_key_received".
    pub enroll_stranded :
        (s : Owner)
        → (negotiate aes curve draws address s).0 ≡ ok key
        → replaces draws.first_write ≡ true
        → ((e : OwnerError) × ((enroll aes curve pem_of draws address name s).0 ≡ err e))
          × Unfinished address (enroll aes curve pem_of draws address name s).1.store
    unfolding enroll take_over
    enroll_stranded s agreed put =
        let after = (negotiate aes curve draws address s).1 in
        let rest =
          >>=-returned (negotiate aes curve draws address)
            (take_over aes curve pem_of draws address name) s key agreed in
        let (e, failed) =
          >>=-Fails
            (on_store
              (save draws.first_write draws.received_at (received pem_of draws address name key)))
            (configure aes curve draws name) configure-Fails after in
        (
          (e, ap (λ x. x.0) rest ∙ failed),
          subst (λ (x : Result OwnerError OwnerRecord × Owner). Unfinished address x.1.store)
              (sym rest) (take_over-Unfinished after put),
        )
