-- ===== src/Owner/Opened.antt =====
-- What the lock has shown where the steps before the prompt of a scan return: the handshake, the model
-- and the owner's authentication in `scan_fingerprint` of
-- custom_components/nimly_manager/nimly_ble/enrollment.py.
use nimly_manager.Base.{
  ℕ, ◌≡◌, ap, sym, ◌∙◌, Bool, true, false, not, ◌||◌, Option, none, some, [], Bytes, arith,
}
use nimly_manager.Base.Result.{Result, ok, err, Exec}
use nimly_manager.Base.Exec.{pure, lift, raise_when, raise_when_rest, ◌>>=◌, ◌>>◌, >>=-rest}
use nimly_manager.Text.{Text, text, text_eq}
use nimly_manager.Crypto.{Cbc, Curve}
use nimly_manager.Protocol.Message.{Response, device_model_get}
use nimly_manager.Protocol.Payloads.{parse_model}
use nimly_manager.KeyStore.{OwnerRecord, owner_key, device_id}
use nimly_manager.Session.{SessionError, Session, send, handshake, owner_authenticate}
use nimly_manager.Owner.{
  unknown_model, OwnerError, refused, asked, from_hex_or_raise, model_text, on_link,
}
use nimly_manager.Owner.Scanning.{authenticate_record, open_scan}

asked-ok : {A : Type 0} (x : Result SessionError A) (a : A) → asked x ≡ ok a → x ≡ ok a
asked-ok (ok b) a h = ground arith
asked-ok (err e) a h = absurd (ground arith)

hex-ok : (x : Option Bytes) (a : Bytes) → from_hex_or_raise x ≡ ok a → x ≡ some a
hex-ok none a h = absurd (ground arith)
hex-ok (some b) a h = ground arith

module _ (aes : Cbc) (curve : Curve) (private_key : ℕ) (r : OwnerRecord) where
  abbrev pub after_link : Session → Session
  after_link s = (handshake aes curve private_key s).1

  abbrev pub after_model : Session → Session
  after_model s = (send aes device_model_get [] (after_link s)).1

  -- The handshake was done; the lock then told a model that is known and reads fingerprints, which is
  -- the one named; and then it took the owner key and the device id of the record for authentication.
  pub record Opened (s end : Session) (model : Text) : Type 0 where
    pub linked : (handshake aes curve private_key s).0 ≡ ok tt
    pub reply : Response
    pub replied : (send aes device_model_get [] (after_link s)).0 ≡ ok reply
    pub known : text_eq (parse_model reply.payload).1 (text "Unknown") ≡ false
    pub capable : (parse_model reply.payload).2 ≡ true
    pub named : model ≡ model_text (parse_model reply.payload).1 (parse_model reply.payload).0
    pub key : Bytes
    pub id : Bytes
    pub key_read : owner_key r ≡ some key
    pub id_read : device_id r ≡ some id
    pub admitted : owner_authenticate aes key 0 id (after_model s) ≡ (ok tt, end)

  record Authenticated (s end : Session) : Type 0 where
    pub key : Bytes
    pub id : Bytes
    pub key_read : owner_key r ≡ some key
    pub id_read : device_id r ≡ some id
    pub admitted : owner_authenticate aes key 0 id s ≡ (ok tt, end)

  on_link-pair :
      (m : Exec SessionError Session (Unit {0})) (s : Session)
      → (on_link m s).0 ≡ ok tt
      → m s ≡ (ok tt, (on_link m s).1)
  on_link-pair m s h = ap (λ x. (x, (m s).1)) (asked-ok (m s).0 tt h)

  authenticate_record-Authenticated :
      (s : Session)
      → (authenticate_record aes curve r s).0 ≡ ok tt
      → Authenticated s (authenticate_record aes curve r s).1
  unfolding authenticate_record
  authenticate_record-Authenticated s h =
      let answer : Bytes → Bytes → Exec OwnerError Session (Unit {0}) =
        λ key id. on_link (owner_authenticate aes key 0 id) in
      let with_key : Bytes → Exec OwnerError Session (Unit {0}) =
        λ key. lift (from_hex_or_raise (device_id r)) >>= answer key in
      let (key, k, e) = >>=-rest (lift (from_hex_or_raise (owner_key r))) with_key s tt h in
      let h1 = ap (λ x. x.0) (sym e) ∙ h in
      let (id, i, e1) = >>=-rest (lift (from_hex_or_raise (device_id r))) (answer key) s tt h1 in
      let h2 = ap (λ x. x.0) (sym e1) ∙ h1 in
      record {
        key = key;
        id = id;
        key_read = hex-ok (owner_key r) key k;
        id_read = hex-ok (device_id r) id i;
        admitted =
            on_link-pair (owner_authenticate aes key 0 id) s h2
            ∙ ap (λ x. (ok tt, x.1)) (sym (e ∙ e1));
      }

  -- The steps of `open_scan`, from the last to the first.
  abbrev name_model : Response → Unit {0} → Exec OwnerError Session Text
  name_model reply a =
      let (id, name, capable) = parse_model reply.payload in pure (model_text name id)

  abbrev admit : Response → Exec OwnerError Session Text
  admit reply = authenticate_record aes curve r >>= name_model reply

  abbrev is_unfit : Response → Bool
  is_unfit reply =
      let (id, name, capable) = parse_model reply.payload in
      text_eq name (text "Unknown") || not capable

  abbrev check_model : Response → Exec OwnerError Session Text
  check_model reply =
      raise_when (λ s. is_unfit reply) (λ s. refused (unknown_model (parse_model reply.payload).0))
      >> admit reply

  -- Where the steps before the prompt return the text of a model, the lock was opened.
  pub open_scan-Opened :
      (s : Session) (model : Text)
      → (open_scan aes curve private_key r s).0 ≡ ok model
      → Opened s (open_scan aes curve private_key r s).1 model
  unfolding open_scan
  open_scan-Opened s model h =
      let ask : Exec OwnerError Session Response = on_link (send aes device_model_get []) in
      let link : Exec OwnerError Session (Unit {0}) = on_link (handshake aes curve private_key) in
      let (u, linked, e) = >>=-rest link (λ _. ask >>= check_model) s model h in
      let h1 = ap (λ x. x.0) (sym e) ∙ h in
      let (reply, replied, e1) = >>=-rest ask check_model (after_link s) model h1 in
      let h2 = ap (λ x. x.0) (sym e1) ∙ h1 in
      let (fit, e2) =
        raise_when_rest (λ s. is_unfit reply)
          (λ s. refused (unknown_model (parse_model reply.payload).0)) (admit reply) (after_model s)
          model h2 in
      let h3 = ap (λ x. x.0) (sym e2) ∙ h2 in
      let (v, authenticated, e3) =
        >>=-rest (authenticate_record aes curve r) (name_model reply) (after_model s) model h3 in
      let a = authenticate_record-Authenticated (after_model s) authenticated in
      record {
        linked = asked-ok (handshake aes curve private_key s).0 tt linked;
        reply = reply;
        replied = asked-ok (send aes device_model_get [] (after_link s)).0 reply replied;
        known = ground arith;
        capable = ground arith;
        named = ground arith;
        key = a.key;
        id = a.id;
        key_read = a.key_read;
        id_read = a.id_read;
        admitted = a.admitted ∙ ap (λ x. (ok tt, x.1)) (sym (e ∙ (e1 ∙ (e2 ∙ e3))));
      }
