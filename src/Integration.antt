-- ===== src/Integration.antt =====
-- The life of a config entry: custom_components/nimly_manager/__init__.py, the messages that mqtt.py
-- receives for a loaded entry, and the set-up command of websocket.py. Home Assistant unsubscribes an
-- entry from its topic when it is unloaded, and unloads it before it is removed or loaded again.
pub mod Consistent
pub mod Scans
pub mod Life
pub mod Reload
pub mod Installation
use nimly_manager.Base.{ℕ, Bool, true, false, Option, none, some, List, [], ◌∷◌, if◌then◌else◌}
use nimly_manager.Base.Result.{Result, ok, err, Exec}
use nimly_manager.Base.Exec.{pure, lift, modify, ◌>>=◌, ◌>>◌}
use nimly_manager.Text.{Text, text}
use nimly_manager.Time.{DateTime}
use nimly_manager.Value.{Fields, str}
use nimly_manager.Dict.Texts.{lookup, insert, remove}
use nimly_manager.KeyStore.{OwnerRecord, Json, malformed, not_an_object, object}
use nimly_manager.Entries.{ConfigEntry, Options, state_topic}
use nimly_manager.Slots.{FingerprintSlotRegistry}
use nimly_manager.Storage
use nimly_manager.Storage.{StorageError, NimlySlotStorage, registry_for}
use nimly_manager.Runtime.{NimlyLockRuntime, new_runtime}
use nimly_manager.Runtime.Mqtt.{FingerprintVerification, as_event_data, observe_mqtt_state}
use nimly_manager.Coordinator.{async_cancel}
use nimly_manager.BleSetup.{SetupError, parse_owner_record, async_apply_ble_setup}
use nimly_manager.Home.{Home, fire, put_runtime}
use nimly_manager.ScanControl.{ControlError, on_runtime}

-- What `async_setup_entry` raises: the OverflowError of a stored registry, or what the subscription
-- raises.
pub data EntryError : Type 0 where
  storage_error : StorageError → EntryError
  not_subscribed : EntryError

-- The `try` around the subscription, which is an argument: whether it returns.
abbrev pub subscribe : Text → Bool → Exec EntryError Home (Unit {0})
subscribe entry_id true h = (ok tt, h)
subscribe entry_id false h =
    (err not_subscribed, record h { runtimes = remove entry_id h.runtimes })

-- runtimes[entry.entry_id] = NimlyLockRuntime(...)
abbrev pub add_runtime : Text → ConfigEntry → FingerprintSlotRegistry → Home → Home
add_runtime entry_id e slots h = record h {
  runtimes =
      insert entry_id (new_runtime (state_topic e.base_topic e.device_name) slots) h.runtimes;
}

-- The rest of `async_setup_entry`, once the storage has given a registry or has raised.
abbrev pub set_up :
    Text
    → ConfigEntry
    → Bool
    → Result StorageError FingerprintSlotRegistry
    → Exec EntryError Home (Unit {0})
set_up entry_id e subscribes (err x) h = (err (storage_error x), h)
set_up entry_id e subscribes (ok slots) h =
    subscribe entry_id subscribes (add_runtime entry_id e slots h)

unfoldable pub async_setup_entry : Text → ConfigEntry → Bool → Exec EntryError Home (Unit {0})
unfolding registry_for state_topic
async_setup_entry entry_id e subscribes h =
    let (found, storage) = registry_for entry_id h.storage in
    set_up entry_id e subscribes found (record h { storage = storage })

unfoldable pub async_unload_entry : Text → Home → Home
unfolding async_cancel
async_unload_entry entry_id h = record h {
  coordinator = async_cancel entry_id h.coordinator;
  runtimes = remove entry_id h.runtimes;
}

unfoldable pub async_remove_entry : Text → Home → Home
unfolding Storage.async_remove_entry
async_remove_entry entry_id h = record h { storage = Storage.async_remove_entry entry_id h.storage }

-- The event of a verification, if there is one.
unfoldable pub fire_verified : Text → Option FingerprintVerification → Home → Home
unfolding as_event_data
fire_verified entry_id none h = h
fire_verified entry_id (some v) h =
    fire ((text "config_entry_id", str entry_id) ∷ as_event_data v) h

-- receive_message, by what `json.loads` makes of the payload
unfoldable pub receive_message :
    Text → NimlyLockRuntime → Text → Json → DateTime → Exec ControlError Home (Unit {0})
unfolding observe_mqtt_state fire_verified
receive_message entry_id rt uuid malformed now = pure tt
receive_message entry_id rt uuid not_an_object now = pure tt
receive_message entry_id rt uuid (object payload) now = do
  verification ← on_runtime entry_id rt (observe_mqtt_state uuid payload now)
  modify (fire_verified entry_id verification)

-- What the set-up command sends.
pub data SetupReply : Type 0 where
  entry_not_loaded : SetupReply
  -- the BleSetupError, or an exception that is not caught
  raised : SetupError → SetupReply
  result : Options → SetupReply

-- hass.config_entries.async_update_entry
abbrev pub update_options : Text → ConfigEntry → Options → Home → Home
update_options entry_id e options h = record h {
  entries = insert entry_id (record e { options = options }) h.entries;
}

-- The end of `websocket_ble_setup`, by what `async_apply_ble_setup` returned or raised.
abbrev pub set_options : Text → ConfigEntry → Result SetupError Options → Home → SetupReply × Home
set_options entry_id e (err x) h = (raised x, h)
set_options entry_id e (ok options) h = (result options, update_options entry_id e options h)

-- `websocket_ble_setup` from the call of `async_apply_ble_setup` on.
unfoldable pub apply_setup :
    Text → ConfigEntry → Text → Result SetupError (Option OwnerRecord) → Home → SetupReply × Home
unfolding async_apply_ble_setup
apply_setup entry_id e address (err x) h = (raised x, h)
apply_setup entry_id e address (ok r) h =
    let (applied, store) = async_apply_ble_setup entry_id e.options address r false h.owner_store in
    set_options entry_id e applied (record h { owner_store = store })

unfoldable pub ble_setup_of :
    (Text → Json) → ℕ → Text → Option ConfigEntry → Text → Option Text → Home → SetupReply × Home
unfolding parse_owner_record apply_setup
ble_setup_of loads now entry_id none address pasted h = (entry_not_loaded, h)
ble_setup_of loads now entry_id (some e) address pasted h =
    apply_setup entry_id e address (parse_owner_record loads now pasted) h

unfoldable pub websocket_ble_setup :
    (Text → Json) → ℕ → Text → Text → Option Text → Home → SetupReply × Home
unfolding ble_setup_of
websocket_ble_setup loads now entry_id address pasted h =
    ble_setup_of loads now entry_id (lookup entry_id h.entries) address pasted h
