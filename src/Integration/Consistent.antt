-- ===== src/Integration/Consistent.antt =====
-- What the loaded locks of an installation keep to, and the actions of
-- custom_components/nimly_manager/services.py with the messages of mqtt.py, which keep it.
use mathlib.Core.Path.{subst}
use nimly_manager.Base.{
  ◌≡◌, refl, sym, ◌∙◌, Option, none, some, arith, Bool-cases, inl, inr, if◌then◌else◌,
}
use nimly_manager.Base.Int.{ℤ}
use nimly_manager.Base.Result.{Exec}
use nimly_manager.Base.Exec.{modify, ◌>>=◌, Keeps, >>=-split}
use nimly_manager.Text.{Text, text_eq}
use nimly_manager.Time.{DateTime}
use nimly_manager.Dict.Texts.{lookup, lookup-insert}
use nimly_manager.KeyStore.{Json, malformed, not_an_object, object}
use nimly_manager.States
use nimly_manager.Enrollment.{FingerprintEnrollment}
use nimly_manager.Runtime
use nimly_manager.Runtime.{NimlyLockRuntime}
use nimly_manager.Runtime.Mqtt.{FingerprintVerification, observe_mqtt_state}
use nimly_manager.Runtime.Workflow.{
  OneWorkflow, Calms-OneWorkflow, start_enrollment-OneWorkflow, confirm_enrollment-Calms,
  cancel_enrollment-Calms, observe_mqtt_state-Calms,
}
use nimly_manager.Home.{Home, put_runtime, share}
use nimly_manager.ScanControl.{ControlError, loaded_or_raise, on_runtime}
use nimly_manager.Actions.{
  find_runtime, held_session, announce_held, announce, run_enrollment, start, confirm, cancel,
}
use nimly_manager.Integration.{fire_verified, receive_message}

-- A loaded lock has at most one workflow active, and shares its slots with the storage.
abbrev pub Settled : Home → Text → NimlyLockRuntime → Type 0
Settled h entry_id rt = OneWorkflow rt × (lookup entry_id h.storage.registries ≡ some rt.slots)

-- Every loaded lock of the installation does.
abbrev pub IsConsistent : Home → Type 0
IsConsistent h =
    (entry_id : Text) (rt : NimlyLockRuntime)
    → lookup entry_id h.runtimes ≡ some rt
    → Settled h entry_id rt

-- A registry that the storage holds is the one that the runtime leaves.
lookup-share :
    (entry_id k : Text) (rt' : NimlyLockRuntime) (old : NimlyLockRuntime) (h : Home)
    → lookup entry_id h.storage.registries ≡ some old.slots
    → lookup k (put_runtime entry_id rt' h).storage.registries
      ≡ (if text_eq entry_id k then some rt'.slots else lookup k h.storage.registries)
unfolding put_runtime share
lookup-share entry_id k rt' old h e =
    ground (arith, lookup-insert entry_id k rt'.slots h.storage.registries)

lookup-put_runtime :
    (entry_id k : Text) (rt' : NimlyLockRuntime) (h : Home)
    → lookup k (put_runtime entry_id rt' h).runtimes
      ≡ (if text_eq entry_id k then some rt' else lookup k h.runtimes)
unfolding put_runtime
lookup-put_runtime entry_id k rt' h = lookup-insert entry_id k rt' h.runtimes

some_inj : (a b : NimlyLockRuntime) → some a ≡ some b → a ≡ b
some_inj a b h = ground arith

pub put_runtime-IsConsistent :
    (entry_id : Text) (rt rt' : NimlyLockRuntime) (h : Home)
    → lookup entry_id h.runtimes ≡ some rt
    → OneWorkflow rt'
    → IsConsistent h
    → IsConsistent (put_runtime entry_id rt' h)
put_runtime-IsConsistent entry_id rt rt' h found one c k r e =
    let shared = lookup-share entry_id k rt' rt h (c entry_id rt found).1 in
    let there = sym (lookup-put_runtime entry_id k rt' h) ∙ e in
    elim (Bool-cases (text_eq entry_id k)) [
      | inl same ↦
          subst (Settled (put_runtime entry_id rt' h) k) (some_inj rt' r (ground (arith, there)))
            (one, ground (arith, shared))
      | inr other ↦
          let (kept, registry) = c k r (ground (arith, there)) in
          (kept, ground (arith, shared, registry))
    ]

abbrev KeepsAll : {A : Type 0} → Exec ControlError Home A → Type 0
KeepsAll m = Keeps IsConsistent m

-- An action on the runtime of an entry, where there is one.
pub find_runtime-Keeps :
    {A : Type 0} (entry_id : Text) (f : NimlyLockRuntime → Exec ControlError Home A)
    → ((rt : NimlyLockRuntime) (h : Home)
        → lookup entry_id h.runtimes ≡ some rt
        → IsConsistent h
        → IsConsistent (f rt h).1)
    → KeepsAll (find_runtime entry_id >>= f)
find_runtime-Keeps {A} entry_id f k h c = going (lookup entry_id h.runtimes) refl
  where
    going :
        (found : Option NimlyLockRuntime)
        → lookup entry_id h.runtimes ≡ found
        → IsConsistent (((λ (x : Home). (loaded_or_raise found, x)) >>= f) h).1
    going none e = c
    going (some rt) e = k rt h e c

-- A method of the runtime that keeps to one workflow.
abbrev pub Tame : {A : Type 0} → Exec States.Error NimlyLockRuntime A → Type 0
Tame m = (rt : NimlyLockRuntime) → OneWorkflow rt → OneWorkflow (m rt).1

pub on_runtime-IsConsistent :
    {A : Type 0} (entry_id : Text) (m : Exec States.Error NimlyLockRuntime A)
    (rt : NimlyLockRuntime) (h : Home)
    → Tame m
    → lookup entry_id h.runtimes ≡ some rt
    → IsConsistent h
    → IsConsistent (on_runtime entry_id rt m h).1
on_runtime-IsConsistent entry_id m rt h tame found c =
    put_runtime-IsConsistent entry_id rt (m rt).1 h found (tame rt (c entry_id rt found).0) c

announce_held-IsConsistent :
    (entry_id : Text) (session : Option FingerprintEnrollment) (h : Home)
    → IsConsistent h
    → IsConsistent (announce_held entry_id session h)
unfolding nimly_manager.Actions.async_fire_enrollment_state
announce_held-IsConsistent entry_id none h c = c
announce_held-IsConsistent entry_id (some session) h c = c

announce-Keeps : (entry_id : Text) → KeepsAll (announce entry_id)
unfolding announce
announce-Keeps entry_id h c = announce_held-IsConsistent entry_id (held_session entry_id h) h c

run_enrollment-IsConsistent :
    {A : Type 0} (entry_id : Text) (m : Exec States.Error NimlyLockRuntime A)
    (rt : NimlyLockRuntime) (h : Home)
    → Tame m
    → lookup entry_id h.runtimes ≡ some rt
    → IsConsistent h
    → IsConsistent (run_enrollment entry_id m rt h).1
unfolding run_enrollment
run_enrollment-IsConsistent entry_id m rt h tame found c =
    let after = on_runtime-IsConsistent entry_id m rt h tame found c in
    >>=-split IsConsistent (on_runtime entry_id rt m) (λ _. announce entry_id) h (λ e k. after)
      (λ a k. announce-Keeps entry_id (on_runtime entry_id rt m h).1 after)

pub start-Keeps :
    (entry_id uuid person_id name : Text) (slot : ℤ) (now : DateTime)
    → KeepsAll (start entry_id uuid person_id name slot now)
unfolding start
start-Keeps entry_id uuid person_id name slot now =
    find_runtime-Keeps entry_id
      (run_enrollment entry_id (Runtime.start_enrollment uuid person_id name slot now))
      (λ rt h.
        run_enrollment-IsConsistent entry_id (Runtime.start_enrollment uuid person_id name slot now)
          rt h (λ x. start_enrollment-OneWorkflow uuid person_id name slot now x))

pub confirm-Keeps :
    (entry_id session_id : Text) (now : DateTime) → KeepsAll (confirm entry_id session_id now)
unfolding confirm
confirm-Keeps entry_id session_id now =
    find_runtime-Keeps entry_id
      (run_enrollment entry_id (Runtime.confirm_enrollment session_id now))
      (λ rt h.
        run_enrollment-IsConsistent entry_id (Runtime.confirm_enrollment session_id now) rt h
          (λ x. Calms-OneWorkflow x _ (confirm_enrollment-Calms session_id now x)))

pub cancel-Keeps :
    (entry_id session_id : Text) (now : DateTime) → KeepsAll (cancel entry_id session_id now)
unfolding cancel
cancel-Keeps entry_id session_id now =
    find_runtime-Keeps entry_id (run_enrollment entry_id (Runtime.cancel_enrollment session_id now))
      (λ rt h.
        run_enrollment-IsConsistent entry_id (Runtime.cancel_enrollment session_id now) rt h
          (λ x. Calms-OneWorkflow x _ (cancel_enrollment-Calms session_id now x)))

fire_verified-IsConsistent :
    (entry_id : Text) (v : Option FingerprintVerification) (h : Home)
    → IsConsistent h
    → IsConsistent (fire_verified entry_id v h)
unfolding fire_verified
fire_verified-IsConsistent entry_id none h c = c
fire_verified-IsConsistent entry_id (some v) h c = c

pub receive_message-IsConsistent :
    (entry_id uuid : Text) (rt : NimlyLockRuntime) (json : Json) (now : DateTime) (h : Home)
    → lookup entry_id h.runtimes ≡ some rt
    → IsConsistent h
    → IsConsistent (receive_message entry_id rt uuid json now h).1
unfolding receive_message
receive_message-IsConsistent entry_id uuid rt malformed now h found c = c
receive_message-IsConsistent entry_id uuid rt not_an_object now h found c = c
receive_message-IsConsistent entry_id uuid rt (object payload) now h found c =
    let m = observe_mqtt_state uuid payload now in
    let after =
      on_runtime-IsConsistent entry_id m rt h
        (λ x. Calms-OneWorkflow x _ (observe_mqtt_state-Calms uuid payload now x)) found c in
    >>=-split IsConsistent (on_runtime entry_id rt m) (λ v. modify (fire_verified entry_id v)) h
      (λ e k. after)
      (λ v k. fire_verified-IsConsistent entry_id v (on_runtime entry_id rt m h).1 after)
