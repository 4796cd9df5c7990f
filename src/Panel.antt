-- ===== src/Panel.antt =====
-- The state that the panel shows: `websocket_state` and `websocket_ble_candidates` of
-- custom_components/nimly_manager/websocket.py, and `ble_status` of ble_transport.py. What Home
-- Assistant last heard from an address is an argument.
use nimly_manager.Base.{Bool, true, false, Option, none, some, List, [], ◌∷◌, if◌then◌else◌}
use nimly_manager.Base.Int.{ℤ}
use nimly_manager.Base.Result.{Exec}
use nimly_manager.Base.Exec.{pure, gets, ◌>>=◌}
use nimly_manager.Text.{Text}
use nimly_manager.Time.{DateTime}
use nimly_manager.Request.{is_empty}
use nimly_manager.Dict.Texts.{lookup}
use nimly_manager.Entries.{ConfigEntry}
use nimly_manager.OwnerStore
use nimly_manager.Runtime.{NimlyLockRuntime}
use nimly_manager.Runtime.Report.{PublicState, public_state}
use nimly_manager.BleSetup.{ServiceInfo, DiscoveredLock, discovered_nimly_locks}
use nimly_manager.Home.{Home}
use nimly_manager.ScanControl.{ControlError, address_of, on_runtime}
use nimly_manager.Actions.{Reply, command, reply_to, find_runtime}

pub record BleStatus : Type 0 where
  pub address : Option Text
  pub visible : Bool
  pub rssi : Option ℤ
  pub source : Option Text

abbrev unseen : Option Text → BleStatus
unseen address = record { address = address; visible = false; rssi = none; source = none }

abbrev seen_as : Text → Option ServiceInfo → BleStatus
seen_as address none = unseen (some address)
seen_as address (some info) = record {
  address = some address;
  visible = true;
  rssi = some info.rssi;
  source = some info.source;
}

unfoldable pub ble_status : (Text → Option ServiceInfo) → Option Text → BleStatus
ble_status last_info none = unseen none
ble_status last_info (some address) =
    if is_empty address then unseen none else seen_as address (last_info address)

-- The dictionary of an entry, with the one of its runtime as a field.
pub record EntryState : Type 0 where
  pub config_entry_id : Text
  pub title : Text
  pub runtime_state : PublicState
  pub ble : BleStatus
  pub owner_key_imported : Bool
  pub owner_name : Option Text

abbrev title_or : Text → Option ConfigEntry → Text
title_or topic none = topic
title_or topic (some e) = e.title

abbrev name_of : Option ConfigEntry → Option Text
name_of none = none
name_of (some e) = e.options.owner_name

module _ (last_info : Text → Option ServiceInfo) (now : DateTime) where
  abbrev shown : Text → NimlyLockRuntime → PublicState → Home → EntryState
  shown entry_id rt state h = record {
    config_entry_id = entry_id;
    title = title_or rt.topic (lookup entry_id h.entries);
    runtime_state = state;
    ble = ble_status last_info (address_of (lookup entry_id h.entries));
    owner_key_imported = OwnerStore.has entry_id h.owner_store;
    owner_name = name_of (lookup entry_id h.entries);
  }

  -- _entry_state, which refreshes the workflows of the runtime
  unfoldable pub entry_state : Text → NimlyLockRuntime → Exec ControlError Home EntryState
  unfolding public_state ble_status OwnerStore.has
  entry_state entry_id rt = do
    state ← on_runtime entry_id rt (public_state now)
    gets (shown entry_id rt state)

  unfoldable pub entry_states :
      List (Text × NimlyLockRuntime) → Exec ControlError Home (List EntryState)
  unfolding entry_state
  entry_states [] = pure []
  entry_states ((entry_id, rt) ∷ rest) = do
    e ← entry_state entry_id rt
    es ← entry_states rest
    pure (e ∷ es)

  abbrev all_states : Exec ControlError Home (List EntryState)
  all_states h = entry_states h.runtimes h

  abbrev one_state : Text → Exec ControlError Home (List EntryState)
  one_state entry_id = do rt ← find_runtime entry_id; e ← entry_state entry_id rt; pure (e ∷ [])

  unfoldable pub websocket_state : Option Text → Home → Reply (List EntryState) × Home
  unfolding reply_to entry_states
  websocket_state none = command all_states
  websocket_state (some entry_id) = command (one_state entry_id)

unfoldable pub websocket_ble_candidates : List ServiceInfo → List DiscoveredLock
unfolding discovered_nimly_locks
websocket_ble_candidates infos = discovered_nimly_locks infos
