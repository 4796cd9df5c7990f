-- ===== src/Home.antt =====
-- `hass.data` of the integration, with the config entries that Home Assistant keeps for it and the
-- events that it fires: what custom_components/nimly_manager/__init__.py sets up.
use nimly_manager.Base.{is_some, List, [], ◌∷◌, ◌++◌, if◌then◌else◌}
use nimly_manager.Text.{Text}
use nimly_manager.Value.{Fields}
use nimly_manager.Dict.Texts.{lookup, insert}
use nimly_manager.Slots.{FingerprintSlotRegistry}
use nimly_manager.Storage.{NimlySlotStorage}
use nimly_manager.OwnerStore.{NimlyOwnerKeyStore}
use nimly_manager.Entries.{ConfigEntry}
use nimly_manager.Runtime.{NimlyLockRuntime}
use nimly_manager.Coordinator.{FingerprintScanCoordinator}

-- DATA_RUNTIMES, the config entries by their ids, DATA_SLOT_STORAGE, DATA_OWNER_STORE,
-- DATA_SCAN_COORDINATOR, and the data of the events but those of the coordinator.
pub record Home : Type 0 where
  pub runtimes : List (Text × NimlyLockRuntime)
  pub entries : List (Text × ConfigEntry)
  pub storage : NimlySlotStorage
  pub owner_store : NimlyOwnerKeyStore
  pub coordinator : FingerprintScanCoordinator
  pub fired : List Fields

-- A registry of the storage as the runtime that shares it leaves it.
unfoldable pub share : Text → FingerprintSlotRegistry → NimlySlotStorage → NimlySlotStorage
share entry_id slots s = record s {
  registries =
      if is_some (lookup entry_id s.registries)
      then insert entry_id slots s.registries
      else s.registries;
}

-- The runtime of an entry as a method leaves it.
unfoldable pub put_runtime : Text → NimlyLockRuntime → Home → Home
unfolding share
put_runtime entry_id rt h = record h {
  runtimes = insert entry_id rt h.runtimes;
  storage = share entry_id rt.slots h.storage;
}

-- hass.bus.async_fire
abbrev pub fire : Fields → Home → Home
fire event h = record h { fired = h.fired ++ event ∷ [] }
