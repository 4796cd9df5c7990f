-- ===== src/Integration/Reload.antt =====
-- What a reload of a lock keeps and drops: `_async_options_updated` of
-- custom_components/nimly_manager/__init__.py unloads its entry and sets it up again.
use mathlib.Core.Path.{subst}
use nimly_manager.Base.{◌≡◌, refl, sym, ap, ◌∙◌, Bool, true, false, none, some, arith}
use nimly_manager.Base.Result.{Result, ok, err}
use nimly_manager.Text.{Text, text_eq_iff}
use nimly_manager.Dict.Texts.{lookup, lookup-insert, lookup-remove}
use nimly_manager.Entries.{ConfigEntry, state_topic}
use nimly_manager.Slots.{FingerprintSlotRegistry}
use nimly_manager.Storage.{NimlySlotStorage, registry_for, StorageError}
use nimly_manager.Runtime.{NimlyLockRuntime, new_runtime}
use nimly_manager.Coordinator.{async_cancel, FingerprintScanCoordinator}
use nimly_manager.Home.{Home}
use nimly_manager.Integration.{
  EntryError, not_subscribed, add_runtime, set_up, async_setup_entry, async_unload_entry,
}
use nimly_manager.Integration.Consistent.{IsConsistent}

registry_for-live :
    (k : Text) (s : NimlySlotStorage) (r : FingerprintSlotRegistry)
    → lookup k s.registries ≡ some r
    → registry_for k s ≡ (ok r, s)
unfolding registry_for
registry_for-live k s r h = ground arith

async_cancel-stops :
    (k : Text) (c : FingerprintScanCoordinator) → lookup k (async_cancel k c).tasks ≡ none
unfolding async_cancel
async_cancel-stops k c = ground (arith, lookup-remove k k c.tasks, text_eq_iff k k)

-- What `_async_options_updated` makes Home Assistant do: the entry is unloaded and set up again, where
-- the argument says whether the subscription returns; with what the set-up returns or raises.
abbrev pub reloaded : Text → ConfigEntry → Bool → Home → Result EntryError (Unit {0}) × Home
reloaded entry_id e subscribes h =
    async_setup_entry entry_id e subscribes (async_unload_entry entry_id h)

-- What a reload leaves of a lock that worked on these slots, by whether the subscription returned.
abbrev pub Reloaded :
    Text
    → ConfigEntry
    → FingerprintSlotRegistry
    → Bool
    → Result EntryError (Unit {0}) × Home
    → Type 0
Reloaded entry_id e slots true (r, h) =
    (r ≡ ok tt)
    × (lookup entry_id h.runtimes
        ≡ some (new_runtime (state_topic e.base_topic e.device_name) slots))
Reloaded entry_id e slots false (r, h) =
    (r ≡ err not_subscribed) × (lookup entry_id h.runtimes ≡ none)

set_up-Reloaded :
    (entry_id : Text) (e : ConfigEntry) (slots : FingerprintSlotRegistry) (subscribes : Bool)
    (h : Home)
    → Reloaded entry_id e slots subscribes (set_up entry_id e subscribes (ok slots) h)
set_up-Reloaded entry_id e slots true h =
    let fresh = new_runtime (state_topic e.base_topic e.device_name) slots in
    (
      refl,
      ground
          (arith, lookup-insert entry_id entry_id fresh h.runtimes, text_eq_iff entry_id entry_id),
    )
set_up-Reloaded entry_id e slots false h =
    let added = (add_runtime entry_id e slots h).runtimes in
    (refl, ground (arith, lookup-remove entry_id entry_id added, text_eq_iff entry_id entry_id))

set_up-rest :
    (entry_id : Text) (e : ConfigEntry) (slots : FingerprintSlotRegistry) (subscribes : Bool)
    (h : Home)
    → ((set_up entry_id e subscribes (ok slots) h).1.storage ≡ h.storage)
      × ((set_up entry_id e subscribes (ok slots) h).1.coordinator ≡ h.coordinator)
set_up-rest entry_id e slots true h = (refl, refl)
set_up-rest entry_id e slots false h = (refl, refl)

-- Where the subscription returns in the reload of a loaded lock, the set-up returns, and the lock
-- listens to the topic of its entry, works on the slots that it had, and has neither a session nor a
-- scan. Where the subscription raises, the set-up raises, and the lock is not loaded. Either way its
-- slots stay in the storage, and no task of a scan is registered for it.
pub reload_kept :
    (entry_id : Text) (e : ConfigEntry) (subscribes : Bool) (h : Home) (rt : NimlyLockRuntime)
    → IsConsistent h
    → lookup entry_id h.runtimes ≡ some rt
    → Reloaded entry_id e rt.slots subscribes (reloaded entry_id e subscribes h)
      × (lookup entry_id (reloaded entry_id e subscribes h).1.storage.registries ≡ some rt.slots)
      × (lookup entry_id (reloaded entry_id e subscribes h).1.coordinator.tasks ≡ none)
unfolding async_setup_entry async_unload_entry
reload_kept entry_id e subscribes h rt c found =
    let shared = (c entry_id rt found).1 in
    let bare = async_unload_entry entry_id h in
    let (stored, kept) = set_up-rest entry_id e rt.slots subscribes bare in
    subst
      (λ (x : Result StorageError FingerprintSlotRegistry × NimlySlotStorage).
        let end = set_up entry_id e subscribes x.0 (record bare { storage = x.1 }) in
        Reloaded entry_id e rt.slots subscribes end
        × (lookup entry_id end.1.storage.registries ≡ some rt.slots)
        × (lookup entry_id end.1.coordinator.tasks ≡ none))
      (sym (registry_for-live entry_id h.storage rt.slots shared))
      (
        set_up-Reloaded entry_id e rt.slots subscribes bare,
        ap (λ s. lookup entry_id s.registries) stored ∙ shared,
        ap (λ x. lookup entry_id x.tasks) kept ∙ async_cancel-stops entry_id h.coordinator,
      )
