-- ===== src/OwnerCli/Enrolls.antt =====
-- What a run of `enroll` on the command line has made sure of where it exits with zero:
-- custom_components/nimly_manager/nimly_ble/cli.py.
use mathlib.Core.Path.{subst}
use nimly_manager.Base.{
  ◌≡◌, refl, ap, sym, ◌∙◌, ℕ, Bool, true, false, not, Option, none, some, [], ◌∷◌, ltb, arith,
}
use nimly_manager.Base.Result.{Result, ok, err, Exec}
use nimly_manager.Base.Exec.{lift, pure, raise_when, ◌>>=◌, ◌>>◌, >>=-rest, raise_when_rest}
use nimly_manager.Text.{Text, text, text_eq, text_eq_iff}
use nimly_manager.Crypto.{Cbc, Curve}
use nimly_manager.Firmware.{
  FirmwareVersion, Parsed, not_a_version, value_error, version, parse, at_least,
}
use nimly_manager.Advertisement.{NimlyAdvertisement, enrollment_state}
use nimly_manager.KeyStore.{OwnerRecord, OwnerKeyStore, exists, preflight_passed_recently, load}
use nimly_manager.Owner.{OwnerError, Owner}
use nimly_manager.Owner.Flows.{enroll}
use nimly_manager.Owner.Gated.{enroll_sound}
use nimly_manager.Session.{new_session}
use nimly_manager.OwnerCli.{
  Command, enroll_command, Discovery, unavailable, scan_failed, found, Door, Readings, CliError,
  flag_missing, name_too_long, not_factory, Payload, enrolled, Bench, min_firmware, ascii_length,
  find_lock, lacks_flag, has_long_name, read_or_raise, accepted_version, version_or_raise, in_flow,
  in_session, run_command, run, error_code, exit_code, main,
}

error_code-zero : (caught : Bool) (e : CliError) → ¬ (error_code caught e ≡ some 0)
unfolding error_code
error_code-zero caught e h = ground arith

exit_code_zero :
    {A : Type 0} (caught : Bool) (r : Result CliError A)
    → exit_code caught r ≡ some 0
    → (a : A) × (r ≡ ok a)
unfolding exit_code
exit_code_zero caught (ok a) h = (a, refl)
exit_code_zero caught (err e) h = absurd (error_code-zero caught e h)

-- The one lock that was found.
find_lock_one :
    (d : Discovery) (adv : NimlyAdvertisement) → find_lock d ≡ ok adv → d ≡ found (adv ∷ [])
unfolding find_lock
find_lock_one unavailable adv h = absurd (ground arith)
find_lock_one scan_failed adv h = absurd (ground arith)
find_lock_one (found []) adv h = absurd (ground arith)
find_lock_one (found (a ∷ [])) adv h = ground arith
find_lock_one (found (a ∷ b ∷ more)) adv h = absurd (ground arith)

read_text : (o : Option Text) (t : Text) → read_or_raise o ≡ ok t → o ≡ some t
read_text none t h = absurd (ground arith)
read_text (some u) t h = ground arith

accepted :
    (t : Text) (p : Parsed) (v : FirmwareVersion)
    → accepted_version t p ≡ ok v
    → (p ≡ version v) × (at_least v min_firmware ≡ true)
accepted t not_a_version v h = absurd (ground arith)
accepted t value_error v h = absurd (ground arith)
accepted t (version w) v h = ground arith

in_flow_ok : {A : Type 0} (r : Result OwnerError A) (a : A) → in_flow r ≡ ok a → r ≡ ok a
in_flow_ok (ok b) a h = ground arith
in_flow_ok (err e) a h = absurd (ground arith)

-- What holds where an enrollment of a lock is run to its end, from a store to a store.
abbrev pub Enrolled : Readings → NimlyAdvertisement → OwnerKeyStore → OwnerKeyStore → Type 0
Enrolled x adv before after =
    (enrollment_state adv ≡ text "factory")
    × (exists adv.address before ≡ false)
    × (preflight_passed_recently adv.address x.draws.asked_at before ≡ true)
    × ((r : OwnerRecord) × (r.stage ≡ text "enrolled") × (load adv.address after ≡ some r))

module _ (aes : Cbc) (curve : Curve) (pem_of : ℕ → Text) (x : Readings) (name : Text)
    (flag : Bool) where
  abbrev command : Command
  command = enroll_command name flag

  run_command-Enrolled :
      (adv : NimlyAdvertisement) (v : FirmwareVersion) (door : Door) (b : Bench) (p : Payload)
      → (run_command aes curve pem_of x adv v door.air command b).0 ≡ ok p
      → Enrolled x adv b.store (run_command aes curve pem_of x adv v door.air command b).1.store
  unfolding run_command
  run_command-Enrolled adv v door b p h =
      let flow = enroll aes curve pem_of x.draws adv.address name in
      let rest : Exec CliError Bench Payload =
        in_session v door.air flow >>= λ r. pure (enrolled r) in
      let (factory, e) =
        raise_when_rest (λ b. not (text_eq (enrollment_state adv) (text "factory")))
          (λ b. not_factory (enrollment_state adv)) rest b p h in
      let (r, done, e') =
        >>=-rest (in_session v door.air flow) (λ r. pure (enrolled r)) b p
          (ap (λ y. y.0) (sym e) ∙ h) in
      let start : Owner = record { session = new_session v door.air; store = b.store } in
      let (absent, passed, stage, loaded) =
        enroll_sound aes curve pem_of x.draws adv.address name start r
          (in_flow_ok (flow start).0 r done) in
      subst (λ (y : Result CliError Payload × Bench). Enrolled x adv b.store y.1.store)
        (sym (e ∙ e'))
        (
          (text_eq_iff (enrollment_state adv) (text "factory")).0 (ground arith),
          absent,
          passed,
          (r, stage, loaded),
        )

  -- What `_run` has made sure of.
  abbrev pub Gated : Door → OwnerKeyStore → OwnerKeyStore → Type 0
  Gated door before after =
      (flag ≡ true)
      × (ltb 8 (ascii_length name) ≡ false)
      × ((adv : NimlyAdvertisement) × (door.discovery ≡ found (adv ∷ []))
          × ((t : Text) × (v : FirmwareVersion) × (door.firmware_text ≡ some t)
              × (parse t ≡ version v)
              × (at_least v min_firmware ≡ true))
          × Enrolled x adv before after)

  module _ (door : Door) where
    abbrev with_version : NimlyAdvertisement → FirmwareVersion → Exec CliError Bench Payload
    with_version adv v = run_command aes curve pem_of x adv v door.air command

    abbrev with_text : NimlyAdvertisement → Text → Exec CliError Bench Payload
    with_text adv t = lift (version_or_raise t) >>= with_version adv

    abbrev with_lock : NimlyAdvertisement → Exec CliError Bench Payload
    with_lock adv = lift (read_or_raise door.firmware_text) >>= with_text adv

    abbrev connect : Exec CliError Bench Payload
    connect = lift (find_lock door.discovery) >>= with_lock

    run-Gated :
        (b : Bench) (p : Payload)
        → (run aes curve pem_of x door command b).0 ≡ ok p
        → Gated door b.store (run aes curve pem_of x door command b).1.store
    unfolding run version_or_raise
    run-Gated b p h =
        let named = raise_when (λ b. has_long_name command) (λ b. name_too_long) >> connect in
        let (there, e1) =
          raise_when_rest (λ b. lacks_flag command) (λ b. flag_missing) named b p h in
        let k1 = ap (λ y. y.0) (sym e1) ∙ h in
        let (short, e2) =
          raise_when_rest (λ b. has_long_name command) (λ b. name_too_long) connect b p k1 in
        let k2 = ap (λ y. y.0) (sym e2) ∙ k1 in
        let (adv, one, e3) = >>=-rest (lift (find_lock door.discovery)) with_lock b p k2 in
        let k3 = ap (λ y. y.0) (sym e3) ∙ k2 in
        let (t, read, e4) =
          >>=-rest (lift (read_or_raise door.firmware_text)) (with_text adv) b p k3 in
        let k4 = ap (λ y. y.0) (sym e4) ∙ k3 in
        let (v, parsed, e5) = >>=-rest (lift (version_or_raise t)) (with_version adv) b p k4 in
        let k5 = ap (λ y. y.0) (sym e5) ∙ k4 in
        let (known, high) = accepted t (parse t) v parsed in
        subst (λ (y : Result CliError Payload × Bench). Gated door b.store y.1.store)
          (sym (e1 ∙ (e2 ∙ (e3 ∙ (e4 ∙ e5)))))
          (
            ground arith,
            short,
            (
              adv,
              find_lock_one door.discovery adv one,
              (t, v, read_text door.firmware_text t read, known, high),
              run_command-Enrolled adv v door b p k5,
            ),
          )

    -- Where `enroll` exits with zero, the flag was given and the name has at most eight ASCII
    -- characters; one lock was found, as a factory-fresh one with firmware 4.6.0 or later; the store
    -- had no record of it and a preflight of it had passed within the time allowed; and the store now
    -- loads an enrolled record of it.
    pub main_enrolls :
        (caught : Bool) (b : Bench)
        → (main aes curve pem_of x caught door command b).0 ≡ some 0
        → Gated door b.store (main aes curve pem_of x caught door command b).1.store
    unfolding main
    main_enrolls caught b h =
        let (p, k) = exit_code_zero caught (run aes curve pem_of x door command b).0 h in
        run-Gated b p k
