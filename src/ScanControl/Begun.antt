-- ===== src/ScanControl/Begun.antt =====
-- How the task of a scan begins, and what `async_start_scan` makes of it:
-- custom_components/nimly_manager/ble_scan.py and scan_control.py.
use mathlib.Core.Path.{subst}
use nimly_manager.Base.{◌≡◌, refl, sym, true, false, Option, none, some, List, arith}
use nimly_manager.Base.Result.{Result, ok, err, Exec}
use nimly_manager.Base.Exec.{modify, ◌>>◌, raise_when_rest}
use nimly_manager.Text.{Text, text_eq_iff}
use nimly_manager.Time.{DateTime, is_naive}
use nimly_manager.Dict.Texts.{lookup, insert, remove, lookup-insert}
use nimly_manager.States
use nimly_manager.States.{is_terminal_scan, is_active_scan}
use nimly_manager.Request.{require_timezone}
use nimly_manager.Scan.{BleFingerprintScan, expire, expired_at, fail}
use nimly_manager.Runtime.{NimlyLockRuntime}
use nimly_manager.Coordinator.{
  StartError, already_running, is_running, async_start, fire_state, Desk, Beginning, suspended,
  ended, begin_task, register, publish,
}
use nimly_manager.Home.{Home, put_runtime}
use nimly_manager.ScanControl.{
  ControlError, scan_running, in_workflow, give_up, give_up_on, hold_scan, started,
}

pub lookup-inserted :
    {V : Type 0} (k : Text) (v : V) (d : List (Text × V)) → lookup k (insert k v d) ≡ some v
lookup-inserted k v d = ground (arith, lookup-insert k k v d, text_eq_iff k k)

-- A task for a scan has begun: it runs, and the scan is as it was; or it is done, and the scan is over,
-- for the slot that it was for.
abbrev pub Begun : Text → Beginning → BleFingerprintScan → Desk → Type 0
Begun entry_id suspended scan d =
    (lookup entry_id d.coordinator.tasks ≡ some false) × (d.scan ≡ scan)
Begun entry_id (ended message) scan d =
    (lookup entry_id d.coordinator.tasks ≡ some true)
    × (is_terminal_scan d.scan.state ≡ true)
    × (d.scan.ble_slot ≡ scan.ble_slot)

fail_over :
    (now : DateTime) (message : Text) (s : BleFingerprintScan)
    → is_naive now ≡ false
    → (is_terminal_scan (fail now message s).1.state ≡ true)
      × ((fail now message s).1.ble_slot ≡ s.ble_slot)
unfolding fail expire expired_at is_terminal_scan is_active_scan require_timezone
fail_over now message s aware = (ground arith, ground arith)

registered-Begun :
    (entry_id : Text) (beginning : Beginning) (now : DateTime) (d : Desk)
    → is_naive now ≡ false
    → Begun entry_id beginning d.scan
        (publish entry_id (register entry_id (begin_task entry_id beginning now d)))
unfolding begin_task fire_state
registered-Begun entry_id suspended now d aware =
    (lookup-inserted entry_id false d.coordinator.tasks, refl)
registered-Begun entry_id (ended message) now d aware =
    let (over, slot) = fail_over now message d.scan aware in
    (lookup-inserted entry_id true (remove entry_id d.coordinator.tasks), over, slot)

-- A task that async_start registers was not running; it runs, or is done and has ended the scan.
pub async_start-Begun :
    (entry_id : Text) (beginning : Beginning) (now : DateTime) (d : Desk)
    → is_naive now ≡ false
    → (async_start entry_id beginning now d).0 ≡ ok tt
    → (is_running (lookup entry_id d.coordinator.tasks) ≡ false)
      × Begun entry_id beginning d.scan (async_start entry_id beginning now d).1
unfolding async_start fire_state
async_start-Begun entry_id beginning now d aware h =
    let enter : Exec StartError Desk (Unit {0}) =
      modify (λ d. register entry_id (begin_task entry_id beginning now d))
      >> modify (publish entry_id) in
    let (idle, rest) =
      raise_when_rest (λ d. is_running (lookup entry_id d.coordinator.tasks)) (λ d. already_running)
        enter d tt h in
    (
      idle,
      subst (λ (x : Result StartError (Unit {0}) × Desk). Begun entry_id beginning d.scan x.1)
          (sym rest) (registered-Begun entry_id beginning now d aware),
    )

-- The runtime of the entry holds the scan.
abbrev pub Holds : Text → BleFingerprintScan → Home → Type 0
Holds entry_id scan h =
    (rt : NimlyLockRuntime) × (lookup entry_id h.runtimes ≡ some rt) × (rt.scan ≡ some scan)

give_up-raises :
    (entry_id : Text) (rt : NimlyLockRuntime) (scan x : BleFingerprintScan) (now : DateTime)
    (message : Text) (h : Home)
    → ¬ ((give_up entry_id rt scan now message h).0 ≡ ok x)
unfolding give_up
give_up-raises entry_id rt scan x now message h k = going (fail now message scan).0 k
  where
    going :
        (r : Result States.Error (Unit {0}))
        → ¬ (
            elim (in_workflow r) as (λ _. Result ControlError BleFingerprintScan) [
              | ok a ↦ err scan_running
              | err e ↦ err e
            ]
            ≡ ok x)
    going (ok a) e = ground arith
    going (err e) k = ground arith

give_up_on-raises :
    (entry_id : Text) (found : Option NimlyLockRuntime) (scan x : BleFingerprintScan)
    (now : DateTime) (message : Text) (h : Home)
    → ¬ ((give_up_on entry_id scan now message found h).0 ≡ ok x)
give_up_on-raises entry_id none scan x now message h k = ground arith
give_up_on-raises entry_id (some rt) scan x now message h k =
    give_up-raises entry_id rt scan x now message h k

-- Where the end of a start returns, the task was registered.
pub started_returned :
    (entry_id : Text) (now : DateTime) (message : Text) (scan after x : BleFingerprintScan)
    (r : Result StartError (Unit {0})) (h : Home)
    → (started entry_id now message scan after r h).0 ≡ ok x
    → (r ≡ ok tt)
      × (x ≡ after)
      × ((started entry_id now message scan after r h).1
          ≡ hold_scan entry_id after (lookup entry_id h.runtimes) h)
unfolding started
started_returned entry_id now message scan after x (ok tt) h k = (refl, ground arith, refl)
started_returned entry_id now message scan after x (err e) h k =
    absurd (give_up_on-raises entry_id (lookup entry_id h.runtimes) scan x now message h k)

pub hold_scan-Holds :
    (entry_id : Text) (scan : BleFingerprintScan) (found : Option NimlyLockRuntime)
    (rt : NimlyLockRuntime) (h : Home)
    → found ≡ some rt
    → Holds entry_id scan (hold_scan entry_id scan found h)
      × ((hold_scan entry_id scan found h).coordinator ≡ h.coordinator)
unfolding put_runtime
hold_scan-Holds entry_id scan none rt h e = absurd (ground arith)
hold_scan-Holds entry_id scan (some found) rt h e =
    let held = record found { scan = some scan } in
    ((held, lookup-inserted entry_id held h.runtimes, refl), refl)
