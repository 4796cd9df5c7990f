-- ===== src/ScanControl/Gates.antt =====
-- What holds where `async_start_scan` of custom_components/nimly_manager/scan_control.py returns a
-- scan: the runtime, the coordinator and the gates together.
use mathlib.Core.Path.{subst}
use nimly_manager.Base.{◌≡◌, ap, sym, ◌∙◌, true, false, not, Option, none, some, arith}
use nimly_manager.Base.Int.{within_ℤ}
use nimly_manager.Base.Result.{Result, ok, err, Exec}
use nimly_manager.Base.Exec.{lift, raise_when, ◌>>=◌, ◌>>◌, >>=-rest, raise_when_rest}
use nimly_manager.Time.{is_naive}
use nimly_manager.Dict.Texts.{lookup}
use nimly_manager.States
use nimly_manager.States.{is_terminal_scan, is_active_scan}
use nimly_manager.Scan.{BleFingerprintScan}
use nimly_manager.Slots.{used_ble_slots}
use nimly_manager.Runtime.{NimlyLockRuntime, member_ℤ, start_fingerprint_scan}
use nimly_manager.Runtime.Starts.{scan_started, IsFree, scan_started-IsFree}
use nimly_manager.Coordinator.{FingerprintScanCoordinator, is_running, async_start, Beginning}
use nimly_manager.OwnerStore
use nimly_manager.Home.{Home, put_runtime}
use nimly_manager.ScanControl.{
  address_of, ControlError, not_at_lock, no_address, no_owner, is_missing, person_or_new,
  loaded_or_raise, in_workflow, on_runtime, desk_of, hold_scan, launch, Order, start_gated,
  async_start_scan,
}
use nimly_manager.ScanControl.Begun.{
  lookup-inserted, Begun, async_start-Begun, Holds, started_returned, hold_scan-Holds,
}

pub in_workflow_ok :
    {A : Type 0} (r : Result States.Error A) (a : A) → in_workflow r ≡ ok a → r ≡ ok a
in_workflow_ok (ok b) a h = ground arith
in_workflow_ok (err e) a h = absurd (ground arith)

loaded_ok :
    (found : Option NimlyLockRuntime) (rt : NimlyLockRuntime)
    → loaded_or_raise found ≡ ok rt
    → found ≡ some rt
loaded_ok none rt h = absurd (ground arith)
loaded_ok (some a) rt h = ground arith

-- What an order is granted by, with the runtime of its entry.
abbrev pub Granted : Order → NimlyLockRuntime → Home → Type 0
Granted o rt h =
    (o.at_the_lock ≡ true)
    × (is_missing (address_of (lookup o.entry_id h.entries)) ≡ false)
    × (OwnerStore.has o.entry_id h.owner_store ≡ true)
    × (is_running (lookup o.entry_id h.coordinator.tasks) ≡ false)
    × (within_ℤ 150 199 o.ble_slot ≡ true)
    × (member_ℤ o.ble_slot (used_ble_slots rt.slots) ≡ false)
    × IsFree o.now rt

-- What an order leads to: a scan for the slot, which the runtime of the entry holds; its task runs and
-- the scan is connecting, or the task is done and the scan is over.
abbrev pub Launched : Order → Beginning → BleFingerprintScan → Home → Type 0
Launched o beginning x h =
    Holds o.entry_id x h
    × ((s : BleFingerprintScan) × (s.state ≡ States.connecting)
        × (s.ble_slot ≡ o.ble_slot)
        × Begun o.entry_id beginning s (desk_of x h))

module _ (o : Order) (rt : NimlyLockRuntime) where
  -- The call of the runtime.
  abbrev pub starting : Exec States.Error NimlyLockRuntime BleFingerprintScan
  starting =
      start_fingerprint_scan o.session_uuid (person_or_new o.person_uuid o.person_id) o.person_name
        o.ble_slot o.now

  abbrev pub launching : BleFingerprintScan → Exec ControlError Home BleFingerprintScan
  launching = launch o.entry_id o.beginning o.failed_at o.running_text

  launch-Launched :
      (aware : is_naive o.failed_at ≡ false) (scan x : BleFingerprintScan) (h : Home)
      (rt' : NimlyLockRuntime)
      → lookup o.entry_id h.runtimes ≡ some rt'
      → scan.state ≡ States.connecting
      → scan.ble_slot ≡ o.ble_slot
      → (launching scan h).0 ≡ ok x
      → (is_running (lookup o.entry_id h.coordinator.tasks) ≡ false)
        × Launched o o.beginning x (launching scan h).1
  unfolding launch
  launch-Launched aware scan x h rt' found state slot k =
      let before = desk_of scan h in
      let begun = async_start o.entry_id o.beginning o.failed_at before in
      let h' = record h { coordinator = begun.1.coordinator } in
      let (registered, same, rest) =
        started_returned o.entry_id o.failed_at o.running_text scan begun.1.scan x begun.0 h' k in
      let (idle, begins) =
        async_start-Begun o.entry_id o.beginning o.failed_at before aware registered in
      let (holds, kept) =
        hold_scan-Holds o.entry_id begun.1.scan (lookup o.entry_id h.runtimes) rt' h' found in
      let there = hold_scan o.entry_id begun.1.scan (lookup o.entry_id h.runtimes) h' in
      let shown : Begun o.entry_id o.beginning scan (desk_of begun.1.scan there) =
        subst
          (λ (c : FingerprintScanCoordinator).
            Begun o.entry_id o.beginning scan (record { scan = begun.1.scan; coordinator = c }))
          (sym kept) begins in
      let launched : Launched o o.beginning begun.1.scan there =
        (holds, (scan, state, slot, shown)) in
      (
        idle,
        subst (λ (y : BleFingerprintScan). Launched o o.beginning y (launching scan h).1) (sym same)
            (subst (λ (y : Home). Launched o o.beginning begun.1.scan y) (sym rest) launched),
      )

  -- The gates of `start_gated`, from the last to the first.
  abbrev pub begin : Exec ControlError Home BleFingerprintScan
  begin = on_runtime o.entry_id rt starting >>= launching

  abbrev pub with_owner : Exec ControlError Home BleFingerprintScan
  with_owner =
      raise_when (λ h. not (OwnerStore.has o.entry_id h.owner_store)) (λ h. no_owner) >> begin

  abbrev pub with_address : Exec ControlError Home BleFingerprintScan
  with_address =
      raise_when (λ h. is_missing (address_of (lookup o.entry_id h.entries))) (λ h. no_address)
      >> with_owner

  begin-Launched :
      (aware : is_naive o.failed_at ≡ false) (x : BleFingerprintScan) (h : Home)
      → (begin h).0 ≡ ok x
      → (is_running (lookup o.entry_id h.coordinator.tasks) ≡ false)
        × (within_ℤ 150 199 o.ble_slot ≡ true)
        × (member_ℤ o.ble_slot (used_ble_slots rt.slots) ≡ false)
        × IsFree o.now rt
        × Launched o o.beginning x (begin h).1
  unfolding put_runtime
  begin-Launched aware x h k =
      let (scan, e, rest) = >>=-rest (on_runtime o.entry_id rt starting) launching h x k in
      let person = person_or_new o.person_uuid o.person_id in
      let granted = in_workflow_ok (starting rt).0 scan e in
      let (held, state, slot, range, unused, _, _) =
        scan_started o.session_uuid person o.person_name o.ble_slot o.now rt scan granted in
      let after = (starting rt).1 in
      let (idle, launched) =
        launch-Launched aware scan x (put_runtime o.entry_id after h) after
          (lookup-inserted o.entry_id after h.runtimes) state slot (ap (λ y. y.0) (sym rest) ∙ k) in
      (
        idle,
        range,
        unused,
        scan_started-IsFree o.session_uuid person o.person_name o.ble_slot o.now rt scan granted,
        subst (λ (y : Result ControlError BleFingerprintScan × Home). Launched o o.beginning x y.1)
            (sym rest) launched,
      )

  start_gated_sound :
      (aware : is_naive o.failed_at ≡ false) (x : BleFingerprintScan) (h : Home)
      → (start_gated o rt h).0 ≡ ok x
      → Granted o rt h × Launched o o.beginning x (start_gated o rt h).1
  unfolding start_gated
  start_gated_sound aware x h k =
      let (there, e1) =
        raise_when_rest (λ h. not o.at_the_lock) (λ h. not_at_lock) with_address h x k in
      let k1 = ap (λ y. y.0) (sym e1) ∙ k in
      let (address, e2) =
        raise_when_rest (λ h. is_missing (address_of (lookup o.entry_id h.entries)))
          (λ h. no_address) with_owner h x k1 in
      let k2 = ap (λ y. y.0) (sym e2) ∙ k1 in
      let (owner, e3) =
        raise_when_rest (λ h. not (OwnerStore.has o.entry_id h.owner_store)) (λ h. no_owner) begin h
          x k2 in
      let k3 = ap (λ y. y.0) (sym e3) ∙ k2 in
      let (idle, range, unused, free, launched) = begin-Launched aware x h k3 in
      (
        (ground arith, address, ground arith, idle, range, unused, free),
        subst (λ (y : Result ControlError BleFingerprintScan × Home). Launched o o.beginning x y.1)
            (sym (e1 ∙ (e2 ∙ e3))) launched,
      )

-- A scan that async_start_scan returns, where the second reading of the clock is aware, was ordered at
-- the lock, for an entry that is loaded, has a BLE address and an imported owner record, and had no
-- running task of a scan; for a slot from 150 to 199 that used_ble_slots did not list; and while
-- neither a session nor a scan of the lock was active and unexpired. The runtime of the entry holds
-- the scan, which is for that slot. Where the new task gets to its first wait, it is registered as
-- running and the scan is connecting; where it ends before, it is registered as done and the scan is
-- over.
pub async_start_scan_sound :
    (o : Order) (x : BleFingerprintScan) (h : Home)
    → is_naive o.failed_at ≡ false
    → (async_start_scan o h).0 ≡ ok x
    → ((rt : NimlyLockRuntime) × (lookup o.entry_id h.runtimes ≡ some rt) × Granted o rt h)
      × Launched o o.beginning x (async_start_scan o h).1
unfolding async_start_scan
async_start_scan_sound o x h aware k =
    let (rt, e, rest) =
      >>=-rest (lift (loaded_or_raise (lookup o.entry_id h.runtimes))) (start_gated o) h x k in
    let (granted, launched) = start_gated_sound o rt aware x h (ap (λ y. y.0) (sym rest) ∙ k) in
    (
      (rt, loaded_ok (lookup o.entry_id h.runtimes) rt e, granted),
      subst (λ (y : Result ControlError BleFingerprintScan × Home). Launched o o.beginning x y.1)
          (sym rest) launched,
    )
