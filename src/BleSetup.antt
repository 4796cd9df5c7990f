-- ===== src/BleSetup.antt =====
-- custom_components/nimly_manager/ble_setup.py: the BLE address and the owner key of a lock, as the
-- options flow and the panel set them. A pasted record comes with what `json.loads` makes of it, and
-- the clock is an argument.
pub mod Settled
pub mod Refused
pub mod Seen
pub mod OptionsFlow
use nimly_manager.Base.{
  ℕ, Bool, true, false, not, ◌&&◌, ◌==◌, Option, none, some, is_some, List, [], ◌∷◌, Bytes, take,
  if◌then◌else◌,
}
use nimly_manager.Base.Int.{ℤ}
use nimly_manager.Base.Result.{Result, ok, err, Exec}
use nimly_manager.Base.Exec.{lift, pure, gets, ◌>>=◌, ◌>>◌}
use nimly_manager.Text.{Text, text, text_eq, strip}
use nimly_manager.Request.{is_empty}
use nimly_manager.Dict.Texts.{lookup}
use nimly_manager.Advertisement.{nimly_advertising_uuid}
use nimly_manager.KeyStore.{
  OwnerRecord, KeyStoreError, Json, owner_record_from_json, overflow_error,
}
use nimly_manager.Entries.{Options, ConfigEntry}
use nimly_manager.OwnerStore
use nimly_manager.OwnerStore.{NimlyOwnerKeyStore, async_save_record, async_remove}
use nimly_manager.Mac.{normalize_mac}

-- What an advertisement of `async_discovered_service_info` has.
pub record ServiceInfo : Type 0 where
  pub address : Text
  pub name : Text
  pub rssi : ℤ
  pub source : Text
  pub service_data : List (Text × Bytes)

pub record DiscoveredLock : Type 0 where
  pub address : Text
  pub name : Text
  pub rssi : ℤ
  pub source : Text
  pub enrollment_state : Text

abbrev state_of : Bytes → Text
state_of [] = text "factory"
state_of (b ∷ bs) = if text_eq (b ∷ bs) (0 ∷ 0 ∷ []) then text "factory" else text "enrolled"

-- The entry of the list for one advertisement, where the lock is told by its data.
unfoldable pub discovered : ServiceInfo → Option DiscoveredLock
discovered info = elim (lookup nimly_advertising_uuid info.service_data) [
  | none ↦ none
  | some service_data ↦ some (record {
    address = info.address;
    name = if is_empty info.name then text "Nimly" else info.name;
    rssi = info.rssi;
    source = info.source;
    enrollment_state = state_of (take 2 service_data);
  })
]

abbrev add_found : Option DiscoveredLock → List DiscoveredLock → List DiscoveredLock
add_found none found = found
add_found (some lock) found = lock ∷ found

unfoldable pub discovered_nimly_locks : List ServiceInfo → List DiscoveredLock
unfolding discovered
discovered_nimly_locks [] = []
discovered_nimly_locks (info ∷ infos) = add_found (discovered info) (discovered_nimly_locks infos)

-- BleSetupError, by its two texts, and what the key store raises besides
pub data SetupError : Type 0 where
  invalid_record : KeyStoreError → SetupError
  invalid_address : SetupError
  uncaught : KeyStoreError → SetupError

-- The `except KeyStoreError` of `parse_owner_record`; the OverflowError is none.
abbrev pub setup_error : KeyStoreError → SetupError
setup_error overflow_error = uncaught overflow_error
setup_error e = invalid_record e

abbrev pub parse_outcome : Result KeyStoreError OwnerRecord → Result SetupError (Option OwnerRecord)
parse_outcome (ok r) = ok (some r)
parse_outcome (err e) = err (setup_error e)

-- pasted or ""
abbrev pub or_empty : Option Text → Text
or_empty none = []
or_empty (some s) = s

unfoldable pub parse_owner_record :
    (Text → Json) → ℕ → Option Text → Result SetupError (Option OwnerRecord)
unfolding strip owner_record_from_json
parse_owner_record loads now pasted =
    let pasted_text = strip (or_empty pasted) in
    if is_empty pasted_text
    then ok none
    else parse_outcome (owner_record_from_json (loads pasted_text) now)

-- record.name or None
abbrev pub name_option : OwnerRecord → Option Text
name_option r = if is_empty r.name then none else some r.name

abbrev uncaught_outcome : Result KeyStoreError (Unit {0}) → Result SetupError (Unit {0})
uncaught_outcome (ok a) = ok a
uncaught_outcome (err e) = err (uncaught e)

-- store.async_save_record
unfoldable pub import_record : Text → OwnerRecord → Exec SetupError NimlyOwnerKeyStore (Unit {0})
unfolding async_save_record
import_record entry_id r s =
    let (saved, s') = async_save_record entry_id r s in (uncaught_outcome saved, s')

-- The branches on `remove_owner_key` and on the record, with what they make of the options.
unfoldable pub change_key :
    Text → Bool → Option OwnerRecord → Options → Exec SetupError NimlyOwnerKeyStore Options
unfolding import_record async_remove
change_key entry_id true r options s =
    (ok (record options { owner_name = none }), async_remove entry_id s)
change_key entry_id false none options s = (ok options, s)
change_key entry_id false (some r) options s =
    (import_record entry_id r >> pure (record options { owner_name = name_option r })) s

abbrev pub with_address : Text → Text → Options → NimlyOwnerKeyStore → Options
with_address entry_id normalized options s = record options {
  ble_address = some normalized;
  owner_key_imported = some (OwnerStore.has entry_id s);
}

-- The rest, for an address that is accepted.
unfoldable pub apply_key :
    Text → Options → Text → Option OwnerRecord → Bool → Exec SetupError NimlyOwnerKeyStore Options
unfolding change_key OwnerStore.has
apply_key entry_id options normalized r remove_owner_key = do
  changed ← change_key entry_id remove_owner_key r options
  gets (with_address entry_id normalized changed)

-- The test on the normal form of the address.
unfoldable pub apply_at :
    Text
    → Options
    → Option Text
    → Option OwnerRecord
    → Bool
    → Exec SetupError NimlyOwnerKeyStore Options
unfolding apply_key
apply_at entry_id options none r remove_owner_key s = (err invalid_address, s)
apply_at entry_id options (some normalized) r remove_owner_key s =
    apply_key entry_id options normalized r remove_owner_key s

-- async_apply_ble_setup: the options, and the store
unfoldable pub async_apply_ble_setup :
    Text → Options → Text → Option OwnerRecord → Bool → Exec SetupError NimlyOwnerKeyStore Options
unfolding normalize_mac apply_at
async_apply_ble_setup entry_id options address r remove_owner_key =
    apply_at entry_id options (normalize_mac address) r remove_owner_key
