-- ===== src/Owner/Gated.antt =====
-- What must hold before an owner flow touches the lock, and what its result says: `enroll` of
-- custom_components/nimly_manager/nimly_ble/enrollment.py.
use mathlib.Core.Path.{subst}
use nimly_manager.Base.{
  ℕ, ◌≡◌, refl, ap, sym, ◌∙◌, true, false, not, ◌||◌, some, Bytes, arith, if◌then◌else◌, Bool-cases,
  inl, inr,
}
use nimly_manager.Base.Result.{Result, ok, err, Exec}
use nimly_manager.Base.Exec.{
  raise_when, raise_when-raised, raise_when-passed, raise_when-returned, ◌>>◌, Ends, >>=-Ends,
  >>-Ends, >>=-rest, >>=-raised,
}
use nimly_manager.Text.{Text, text}
use nimly_manager.Crypto.{default_owner_key, Cbc, Curve}
use nimly_manager.Protocol.Message.{
  device_id_set, current_time_set, server_key_update, device_name_set,
}
use nimly_manager.Protocol.Payloads.{device_id_payload, current_time_payload, device_name_payload}
use nimly_manager.KeyStore.{
  Disk, OwnerRecord, path_for, exists, preflight_passed_recently, save, load,
}
use nimly_manager.KeyStore.Laws.{load-saved, save-returned}
use nimly_manager.Session.{handshake, owner_authenticate, owner_update, proto}
use nimly_manager.Owner.{
  record_exists, preflight_missing, OwnerError, refused, Draws, Owner, on_session, on_store,
  server_wire, stored-ok,
}
use nimly_manager.Owner.Flows.{
  default_admin_user_id, default_device_id, received, instruct, configure, take_over, negotiate,
  enroll,
}

-- An enrolled record that the store loads again.
abbrev Loaded : Text → OwnerRecord → Owner → Type 0
Loaded address r s = (r.stage ≡ text "enrolled") × (load address s.store ≡ some r)

save-Loaded :
    (address : Text) (disk : Disk) (now : ℕ) (q : OwnerRecord)
    → q.lock_address ≡ address
    → q.stage ≡ text "enrolled"
    → Ends (Loaded address) (on_store (save disk now q))
save-Loaded address disk now q a e s r h =
    let returned = stored-ok (save disk now q s.store).0 r h in
    (
      ap (λ x. x.stage) (save-returned disk now q r s.store returned) ∙ e,
      load-saved disk now q r s.store address a returned,
    )

module _ (aes : Cbc) (curve : Curve) (pem_of : ℕ → Text) (draws : Draws) (address name : Text) where
  configure-Loaded :
      (q : OwnerRecord)
      → q.lock_address ≡ address
      → Ends (Loaded address) (configure aes curve draws name q)
  unfolding configure
  configure-Loaded q a =
      let final =
        on_store (save draws.last_write draws.enrolled_at (record q { stage = text "enrolled" })) in
      let step1 = instruct aes curve device_id_set (proto (device_id_payload draws.device_id)) in
      let step2 =
        instruct aes curve current_time_set (proto (current_time_payload draws.lock_time)) in
      let step3 =
        instruct aes curve server_key_update (server_wire (curve.public_of draws.server_key)) in
      let step4 = instruct aes curve device_name_set (proto (device_name_payload name)) in
      let Q = Loaded address in
      >>-Ends Q step1 (step2 >> (step3 >> (step4 >> final))) (
        >>-Ends Q step2 (step3 >> (step4 >> final)) (
          >>-Ends Q step3 (step4 >> final) (
            >>-Ends Q step4 final (
              save-Loaded address draws.last_write draws.enrolled_at
                (record q { stage = text "enrolled" }) a refl))))

  take_over-Loaded :
      (key : Bytes) → Ends (Loaded address) (take_over aes curve pem_of draws address name key)
  unfolding take_over received
  take_over-Loaded key s r h =
      let q = received pem_of draws address name key in
      let (saved, e, rest) =
        >>=-rest (on_store (save draws.first_write draws.received_at q))
          (configure aes curve draws name) s r h in
      let same =
        save-returned draws.first_write draws.received_at q saved s.store
          (stored-ok (save draws.first_write draws.received_at q s.store).0 saved e) in
      subst (λ (x : Result OwnerError OwnerRecord × Owner). Loaded address r x.1) (sym rest)
        (configure-Loaded saved (ap (λ x. x.lock_address) same)
          (on_store (save draws.first_write draws.received_at q) s).1 r
          (ap (λ x. x.0) (sym rest) ∙ h))

  -- The rest of `negotiate` after its two tests, and after its first.
  abbrev agree : Exec OwnerError Owner Bytes
  agree = do
    on_session (handshake aes curve draws.link_key)
    on_session (owner_authenticate aes default_owner_key default_admin_user_id default_device_id)
    on_session (owner_update aes curve draws.update_key 0 0)

  abbrev gated : Exec OwnerError Owner Bytes
  gated = do
    raise_when (λ s. not (preflight_passed_recently address draws.asked_at s.store))
        (λ s. refused preflight_missing)
    agree

  negotiate_refused :
      (s : Owner)
      → (exists address s.store || not (preflight_passed_recently address draws.asked_at s.store))
        ≡ true
      → negotiate aes curve draws address s ≡ (
        err (
            refused (
              if exists address s.store
              then record_exists (path_for address)
              else preflight_missing)),
        s,
      )
  unfolding negotiate
  negotiate_refused s h = elim (Bool-cases (exists address s.store)) [
    | inl e ↦ rw e (
        raise_when-raised (λ s. exists address s.store)
          (λ s. refused (record_exists (path_for address))) gated s e)
    | inr e ↦ rw e (
        raise_when-passed (λ s. exists address s.store)
          (λ s. refused (record_exists (path_for address))) gated s e
        ∙ raise_when-raised (λ s. not (preflight_passed_recently address draws.asked_at s.store))
            (λ s. refused preflight_missing) agree s (ground arith))
  ]

  -- Where the store has a record of the lock, or no preflight of it that passed in the time allowed,
  -- enroll raises the refusal that names the first of the two, sends nothing and stores nothing.
  pub enroll_refused :
      (s : Owner)
      → (exists address s.store || not (preflight_passed_recently address draws.asked_at s.store))
        ≡ true
      → enroll aes curve pem_of draws address name s ≡ (
        err (
            refused (
              if exists address s.store
              then record_exists (path_for address)
              else preflight_missing)),
        s,
      )
  unfolding enroll
  enroll_refused s h =
      let n = negotiate_refused s h in
      let why =
        if exists address s.store then record_exists (path_for address) else preflight_missing in
      >>=-raised (negotiate aes curve draws address) (take_over aes curve pem_of draws address name)
        s (refused why) (ap (λ x. x.0) n)
      ∙ ap (λ x. (err (refused why), x.1)) n

  negotiate_gates :
      (s : Owner) (key : Bytes)
      → (negotiate aes curve draws address s).0 ≡ ok key
      → (exists address s.store ≡ false)
        × (preflight_passed_recently address draws.asked_at s.store ≡ true)
  unfolding negotiate
  negotiate_gates s key h =
      let absent =
        raise_when-returned (λ s. exists address s.store)
          (λ s. refused (record_exists (path_for address))) gated s key h in
      let h' : (gated s).0 ≡ ok key =
        ap (λ x. x.0)
          (sym (
            raise_when-passed (λ s. exists address s.store)
              (λ s. refused (record_exists (path_for address))) gated s absent))
        ∙ h in
      let passed =
        raise_when-returned (λ s. not (preflight_passed_recently address draws.asked_at s.store))
          (λ s. refused preflight_missing) agree s key h' in
      (absent, ground arith)

  -- Where enroll returns a record, the store had none of the lock and a preflight had passed within
  -- the time allowed; the record is enrolled, and the store loads it.
  pub enroll_sound :
      (s : Owner) (r : OwnerRecord)
      → (enroll aes curve pem_of draws address name s).0 ≡ ok r
      → (exists address s.store ≡ false)
        × (preflight_passed_recently address draws.asked_at s.store ≡ true)
        × (r.stage ≡ text "enrolled")
        × (load address (enroll aes curve pem_of draws address name s).1.store ≡ some r)
  unfolding enroll
  enroll_sound s r h =
      let (key, agreed, rest) =
        >>=-rest (negotiate aes curve draws address) (take_over aes curve pem_of draws address name)
          s r h in
      let (absent, passed) = negotiate_gates s key agreed in
      let (stage, loaded) =
        >>=-Ends (Loaded address) (negotiate aes curve draws address)
          (take_over aes curve pem_of draws address name) take_over-Loaded s r h in
      (absent, passed, stage, loaded)
