-- ===== src/Tests/Installations.antt =====
-- An installation with one lock: custom_components/nimly_manager/__init__.py and services.py.
use nimly_manager.Base.{◌≡◌, refl, true, none, some, [], ◌∷◌}
use nimly_manager.Base.Int.{pos}
use nimly_manager.Text.{Text, text}
use nimly_manager.Dict.Texts.{lookup}
use nimly_manager.OwnerStore.{NimlyOwnerKeyStore}
use nimly_manager.Entries.{ConfigEntry, new_entry}
use nimly_manager.Slots.{FingerprintSlotRegistry}
use nimly_manager.Runtime.{NimlyLockRuntime, new_runtime}
use nimly_manager.Home.{Home}
use nimly_manager.Actions
use nimly_manager.Integration.{async_setup_entry}
use nimly_manager.Integration.Consistent.{IsConsistent}
use nimly_manager.Integration.Installation
use nimly_manager.Integration.Installation.{started, Reach, here, next, installation-IsConsistent}
use nimly_manager.Integration.Reload.{reloaded, Reloaded, reload_kept}
use nimly_manager.Tests.Sample.{noon, ada}

abbrev entry_id : Text
entry_id = text "e1"

abbrev front : ConfigEntry
front = new_entry (text "zigbee2mqtt/Front") (text "zigbee2mqtt") (text "Front")

abbrev no_keys : NimlyOwnerKeyStore
no_keys = record { records = []; file = none }

abbrev first : Home
first = started ((entry_id, front) ∷ []) none no_keys

known_run : lookup entry_id first.entries ≡ some front
unfolding lookup nimly_manager.Text.text_eq
known_run = refl

-- The lock is loaded, and an enrollment is started.
abbrev loaded : Home
loaded = (async_setup_entry entry_id front true first).1

abbrev enrolling : Home
enrolling = (Actions.start entry_id (text "s1") (text "p1") ada (pos 7) noon loaded).1

installation_example : IsConsistent enrolling
installation_example = installation-IsConsistent ((entry_id, front) ∷ []) none no_keys (
    next (next here (Installation.setup_entry entry_id front true known_run))
      (Installation.start entry_id (text "s1") (text "p1") ada (pos 7) noon))

loaded-IsConsistent : IsConsistent loaded
loaded-IsConsistent =
    installation-IsConsistent ((entry_id, front) ∷ []) none no_keys
      (next here (Installation.setup_entry entry_id front true known_run))

abbrev fresh : NimlyLockRuntime
fresh = new_runtime (text "zigbee2mqtt/Front") (record { records = []; changes = 0 })

fresh_run : lookup entry_id loaded.runtimes ≡ some fresh
unfolding lookup async_setup_entry nimly_manager.Storage.async_load
    nimly_manager.Slots.Store.from_storage nimly_manager.Dict.Texts.insert
    nimly_manager.Text.text_eq nimly_manager.Text.strip_right nimly_manager.Text.strip_left
    new_entry nimly_manager.Text.is_space
fresh_run = refl

reload_example :
    Reloaded entry_id front fresh.slots true (reloaded entry_id front true loaded)
    × (lookup entry_id (reloaded entry_id front true loaded).1.storage.registries
        ≡ some fresh.slots)
    × (lookup entry_id (reloaded entry_id front true loaded).1.coordinator.tasks ≡ none)
reload_example = reload_kept entry_id front true loaded fresh loaded-IsConsistent fresh_run
