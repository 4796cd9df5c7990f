-- ===== src/Owner/Prompt.antt =====
-- When `scan_fingerprint` of custom_components/nimly_manager/nimly_ble/enrollment.py prompts for a
-- finger, and when it returns.
use mathlib.Core.Path.{subst}
use nimly_manager.Base.{ℕ, ◌≡◌, refl, ap, sym, ◌∙◌, true, not, ◌⊎◌, Bytes, arith, inl, inr}
use nimly_manager.Base.Int.{ℤ, pos, negsuc, within_ℤ}
use nimly_manager.Base.Result.{Result, ok, err, Exec}
use nimly_manager.Base.Exec.{
  pure, lift, raise_when, raise_when-brings, raise_when_rest, Ends, ◌>>=◌, ◌>>◌, >>=-split,
  >>=-brings, >>=-Keeps, >>=-rest,
}
use nimly_manager.Text.{Text, text, text_eq, text_eq_iff}
use nimly_manager.Value.{Float}
use nimly_manager.States
use nimly_manager.Crypto.{Cbc, Curve}
use nimly_manager.Firmware.{FirmwareVersion, at_least}
use nimly_manager.Protocol.Payloads.{fingerprint_slot_payload}
use nimly_manager.KeyStore.{OwnerRecord}
use nimly_manager.Session.{Session, proto}
use nimly_manager.Owner.{
  not_enrolled, old_firmware, OwnerError, refused, asked, version_text, fingerprint_scan_firmware,
}
use nimly_manager.Owner.Opened.{Opened, open_scan-Opened}
use nimly_manager.Owner.Scanning.{
  ScanResult, OwnerScan, on_fst, asked_prompt, prompted, open_scan, command_scan, prompt_scan,
  run_scan, scan_fingerprint,
}

slot_accepted :
    (slot : ℤ) (payload : Bytes)
    → asked (proto (fingerprint_slot_payload slot)) ≡ ok payload
    → within_ℤ 150 199 slot ≡ true
unfolding fingerprint_slot_payload
slot_accepted (pos n) payload h = ground arith
slot_accepted (negsuc n) payload h = absurd (ground arith)

prompted_ok :
    {S P : Type 0} (prompt : Exec States.Error P (Unit {0})) (s : S) (p : P)
    → (prompted prompt (s, p)).0 ≡ ok tt
    → (prompt p).0 ≡ ok tt
prompted_ok prompt s p h = going (prompt p).0 h
  where
    going : (r : Result States.Error (Unit {0})) → asked_prompt r ≡ ok tt → r ≡ ok tt
    going (ok a) k = refl
    going (err e) k = absurd (ground arith)

on_fst-ok :
    {P A : Type 0} (m : Exec OwnerError Session A) (s : Session) (p : P) (a : A)
    → (on_fst {E = OwnerError} m (s, p)).0 ≡ ok a
    → (m s).0 ≡ ok a
on_fst-ok m s p a h = h

module _ (aes : Cbc) (curve : Curve) {P : Type 0} (prompt : Exec States.Error P (Unit {0}))
    (private_key : ℕ) (r : OwnerRecord) (slot : ℤ) (firmware : FirmwareVersion)
    (seconds : Float) where
  -- The caller's state is as it was, or as one prompt leaves it.
  abbrev Once : P → Session × P → Type 0
  Once p s = (s.1 ≡ p) ⊎ (s.1 ≡ (prompt p).1)

  prompt_scan-Once :
      (payload : Bytes) (model : Text) (s : Session) (p : P)
      → (prompt_scan aes curve prompt slot firmware seconds payload model (s, p)).1.1 ≡ (prompt p).1
  unfolding prompt_scan
  prompt_scan-Once payload model s p =
      let answered : ScanResult → Exec OwnerError (Session × P) OwnerScan = λ answer.
        pure (record { answer = answer; model = model; firmware = version_text firmware }) in
      let command = on_fst (command_scan aes curve slot seconds payload) in
      >>=-brings (λ t. t.1 ≡ (prompt p).1) (prompted prompt) (λ _. command >>= answered) (s, p) refl
        (λ a h. >>=-Keeps (λ t. t.1 ≡ (prompt p).1) command answered (λ t k. k) (λ answer t k. k))

  command_scan-slot :
      (payload : Bytes)
      → Ends
          (λ answer s. answer.requested_slot ≡ slot)
          (command_scan aes curve slot seconds payload)
  unfolding command_scan
  command_scan-slot payload s answer h = ground arith

  prompt_scan_sound :
      (payload : Bytes) (model : Text) (s : Session) (p : P) (x : OwnerScan)
      → (prompt_scan aes curve prompt slot firmware seconds payload model (s, p)).0 ≡ ok x
      → (x.answer.requested_slot ≡ slot) × ((prompt p).0 ≡ ok tt) × (model ≡ x.model)
  unfolding prompt_scan
  prompt_scan_sound payload model s p x h =
      let answered : ScanResult → Exec OwnerError (Session × P) OwnerScan = λ answer.
        pure (record { answer = answer; model = model; firmware = version_text firmware }) in
      let command = on_fst (command_scan aes curve slot seconds payload) in
      let (a, e, rest) = >>=-rest (prompted prompt) (λ _. command >>= answered) (s, p) x h in
      let after : Session × P = (s, (prompt p).1) in
      let h1 = ap (λ x. x.0) (sym rest) ∙ h in
      let (answer, e1, rest1) = >>=-rest command answered after x h1 in
      let result : Result OwnerError OwnerScan =
        ok (record { answer = answer; model = model; firmware = version_text firmware }) in
      let h2 : result ≡ ok x = ap (λ x. x.0) (sym rest1) ∙ h1 in
      let slot_kept = command_scan-slot payload s answer e1 in
      (ground arith, prompted_ok prompt s p e, ground arith)

  run_scan-Once :
      (payload : Bytes) (s : Session) (p : P)
      → Once p (run_scan aes curve prompt private_key r slot firmware seconds payload (s, p)).1
  unfolding run_scan
  run_scan-Once payload s p =
      >>=-split (Once p) (on_fst (open_scan aes curve private_key r))
        (prompt_scan aes curve prompt slot firmware seconds payload) (s, p) (λ e h. inl refl)
        (λ model h. inr (prompt_scan-Once payload model (open_scan aes curve private_key r s).1 p))

  run_scan_rest :
      (payload : Bytes) (s : Session) (p : P) (x : OwnerScan)
      → (run_scan aes curve prompt private_key r slot firmware seconds payload (s, p)).0 ≡ ok x
      → (model : Text) × ((on_fst {E = OwnerError} {P = P}
            (open_scan aes curve private_key r)
            (s, p)).0
          ≡ ok model)
        × (run_scan aes curve prompt private_key r slot firmware seconds payload (s, p)
            ≡ prompt_scan aes curve prompt slot firmware seconds payload model
                ((open_scan aes curve private_key r s).1, p))
  unfolding run_scan
  run_scan_rest payload s p x h =
      >>=-rest (on_fst (open_scan aes curve private_key r))
        (prompt_scan aes curve prompt slot firmware seconds payload) (s, p) x h

  -- The tests of `scan_fingerprint`, and what its rest is where they pass.
  abbrev slot_scan : Exec OwnerError (Session × P) OwnerScan
  slot_scan =
      lift (asked (proto (fingerprint_slot_payload slot)))
      >>= run_scan aes curve prompt private_key r slot firmware seconds

  abbrev firmware_scan : Exec OwnerError (Session × P) OwnerScan
  firmware_scan =
      raise_when (λ s. not (at_least firmware fingerprint_scan_firmware))
        (λ s. refused (old_firmware firmware))
      >> slot_scan

  slot_scan-Once : (s : Session) (p : P) → Once p (slot_scan (s, p)).1
  slot_scan-Once s p =
      >>=-split (Once p) (lift (asked (proto (fingerprint_slot_payload slot))))
        (run_scan aes curve prompt private_key r slot firmware seconds) (s, p) (λ e h. inl refl)
        (λ payload h. run_scan-Once payload s p)

  -- Whatever the lock does, a scan prompts at most once: the caller's state ends as it was, or as
  -- one prompt on it leaves it.
  pub scan_fingerprint_prompts :
      (s : Session) (p : P)
      → Once p (scan_fingerprint aes curve prompt private_key r slot firmware seconds (s, p)).1
  unfolding scan_fingerprint
  scan_fingerprint_prompts s p =
      raise_when-brings (λ s. not (text_eq r.stage (text "enrolled"))) (λ s. refused not_enrolled)
        firmware_scan (s, p) (Once p) (inl refl)
        (raise_when-brings (λ s. not (at_least firmware fingerprint_scan_firmware))
          (λ s. refused (old_firmware firmware)) slot_scan (s, p) (Once p) (inl refl)
          (slot_scan-Once s p))

  -- A scan that returns had a record that is enrolled, a lock whose firmware is 4.7.90 or newer, and
  -- a slot from 150 to 199. The handshake was done; the lock then told a model that is known and
  -- reads fingerprints, and then took the owner key and the device id of the record for
  -- authentication. The result names that model and the slot; and the scan has prompted once, and
  -- the prompt has returned.
  pub scan_fingerprint_sound :
      (s : Session) (p : P) (x : OwnerScan)
      → (scan_fingerprint aes curve prompt private_key r slot firmware seconds (s, p)).0 ≡ ok x
      → (r.stage ≡ text "enrolled")
        × (at_least firmware fingerprint_scan_firmware ≡ true)
        × (within_ℤ 150 199 slot ≡ true)
        × (x.answer.requested_slot ≡ slot)
        × Opened aes curve private_key r s (open_scan aes curve private_key r s).1 x.model
        × ((prompt p).0 ≡ ok tt)
        × ((scan_fingerprint aes curve prompt private_key r slot firmware seconds (s, p)).1.1
            ≡ (prompt p).1)
  unfolding scan_fingerprint
  scan_fingerprint_sound s p x h =
      let (enrolled, firmware_rest) =
        raise_when_rest (λ s. not (text_eq r.stage (text "enrolled"))) (λ s. refused not_enrolled)
          firmware_scan (s, p) x h in
      let h1 = ap (λ x. x.0) (sym firmware_rest) ∙ h in
      let (recent, slot_rest) =
        raise_when_rest (λ s. not (at_least firmware fingerprint_scan_firmware))
          (λ s. refused (old_firmware firmware)) slot_scan (s, p) x h1 in
      let h2 = ap (λ x. x.0) (sym slot_rest) ∙ h1 in
      let (payload, accepted, run_rest) =
        >>=-rest (lift (asked (proto (fingerprint_slot_payload slot))))
          (run_scan aes curve prompt private_key r slot firmware seconds) (s, p) x h2 in
      let h3 = ap (λ x. x.0) (sym run_rest) ∙ h2 in
      let (model, opened, prompt_rest) = run_scan_rest payload s p x h3 in
      let h4 = ap (λ x. x.0) (sym prompt_rest) ∙ h3 in
      let after = (open_scan aes curve private_key r s).1 in
      let (same, prompted_once, named) = prompt_scan_sound payload model after p x h4 in
      (
        (text_eq_iff r.stage (text "enrolled")).0 (ground arith),
        ground arith,
        slot_accepted slot payload accepted,
        same,
        subst (Opened aes curve private_key r s after) named (
            open_scan-Opened aes curve private_key r s model
              (on_fst-ok (open_scan aes curve private_key r) s p model opened)),
        prompted_once,
        ap (λ x. x.1.1) (firmware_rest ∙ (slot_rest ∙ (run_rest ∙ prompt_rest)))
            ∙ prompt_scan-Once payload model after p,
      )
