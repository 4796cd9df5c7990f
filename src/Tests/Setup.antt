-- ===== src/Tests/Setup.antt =====
-- Entries, addresses and owner keys that are set up:
-- custom_components/nimly_manager/config_flow.py, const.py, ble_setup.py and owner_store.py.
use nimly_manager.Base.{◌≡◌, refl, true, false, none, some, List, [], ◌∷◌}
use nimly_manager.Base.Int.{negsuc}
use nimly_manager.Base.Result.{ok}
use nimly_manager.Text.{Text, text, strip}
use nimly_manager.Dict.Texts.{lookup}
use nimly_manager.KeyStore.{OwnerRecord, Json, malformed, object}
use nimly_manager.Advertisement.{NimlyAdvertisement, enrollment_state, nimly_advertising_uuid}
use nimly_manager.Entries.{
  ConfigEntry, Options, no_options, new_entry, async_step_user, create_entry, already_configured,
}
use nimly_manager.Entries.Topics.{none_yet, step_user, IsSeparate, Made-IsSeparate, is_configured}
use nimly_manager.Mac.{normalize_mac}
use nimly_manager.Mac.Laws.{IsMac, normalize_mac-IsMac}
use nimly_manager.OwnerStore
use nimly_manager.OwnerStore.{NimlyOwnerKeyStore, async_load}
use nimly_manager.OwnerStore.Refines.{
  Call, save_record, remove_record, restart, run, replay, run_refines_map,
}
use nimly_manager.BleSetup.{
  ServiceInfo, DiscoveredLock, discovered, parse_owner_record, async_apply_ble_setup,
}
use nimly_manager.BleSetup.Settled.{IsSetUp, async_apply_ble_setup-IsSetUp}
use nimly_manager.BleSetup.Refused.{accepted_returns}
use nimly_manager.BleSetup.Seen.{discovered_agrees}
use nimly_manager.Tests.Owners.{enrolled}

abbrev base : Text
base = text " zigbee2mqtt/ "

abbrev front : ConfigEntry
front = new_entry (text "zigbee2mqtt/Front") (text "zigbee2mqtt") (text "Front")

front_run : async_step_user (λ t. false) base (text "Front") ≡ create_entry front
unfolding async_step_user nimly_manager.Text.strip_right nimly_manager.Text.strip_left
    nimly_manager.Text.is_space nimly_manager.Text.text_eq
front_run = refl

twice_run :
    async_step_user (λ t. is_configured t (front ∷ [])) base (text "zigbee2mqtt/Front/")
    ≡ already_configured
unfolding async_step_user nimly_manager.Text.strip_right nimly_manager.Text.strip_left
    nimly_manager.Text.is_space nimly_manager.Text.text_eq
twice_run = refl

abbrev back : ConfigEntry
back = new_entry (text "zigbee2mqtt/Back") (text "zigbee2mqtt") (text "Back")

back_run :
    async_step_user (λ t. is_configured t (front ∷ [])) base (text "Back") ≡ create_entry back
unfolding async_step_user nimly_manager.Text.strip_right nimly_manager.Text.strip_left
    nimly_manager.Text.is_space nimly_manager.Text.text_eq
back_run = refl

topics_example : IsSeparate (back ∷ front ∷ [])
topics_example = Made-IsSeparate (
    step_user (λ t. is_configured t (front ∷ [])) base (text "Back")
      (step_user (λ t. false) base (text "Front") none_yet (λ t h. h) front_run) (λ t h. h)
      back_run)

-- A name of slashes around a space passes the test on an empty name, and has an empty last level.
abbrev hollow : ConfigEntry
hollow = new_entry (text "zigbee2mqtt/") (text "zigbee2mqtt") (text " ")

hollow_run : async_step_user (λ t. false) base (text "/ /") ≡ create_entry hollow
unfolding async_step_user nimly_manager.Text.strip_right nimly_manager.Text.strip_left
    nimly_manager.Text.is_space nimly_manager.Text.text_eq
hollow_run = refl

abbrev mac : Text
mac = text "AA:BB:CC:DD:EE:0F"

bare_run : normalize_mac (text " aabbccddee0f ") ≡ some mac
unfolding normalize_mac strip nimly_manager.Text.strip_right nimly_manager.Text.strip_left
    nimly_manager.Text.is_space
bare_run = refl

dash_run : normalize_mac (text "aa-bb-cc-dd-ee-0f") ≡ some mac
unfolding normalize_mac strip nimly_manager.Text.strip_right nimly_manager.Text.strip_left
    nimly_manager.Text.is_space
dash_run = refl

compact_run : normalize_mac (text "aabbccddee0f") ≡ some mac
unfolding normalize_mac strip nimly_manager.Text.strip_right nimly_manager.Text.strip_left
    nimly_manager.Text.is_space
compact_run = refl

short_run : normalize_mac (text "aa:bb:cc:dd:ee") ≡ none
unfolding normalize_mac strip nimly_manager.Text.strip_right nimly_manager.Text.strip_left
    nimly_manager.Text.is_space
short_run = refl

mac_example : IsMac mac × (normalize_mac mac ≡ some mac)
mac_example = normalize_mac-IsMac (text " aabbccddee0f ") mac bare_run

abbrev entry_id : Text
entry_id = text "e1"

abbrev calls : List Call
calls =
    save_record entry_id enrolled
    ∷ restart 5
    ∷ save_record (text "e2") enrolled
    ∷ remove_record entry_id
    ∷ []

kept_run : OwnerStore.get (text "e2") (run calls (async_load 1 none)) ≡ some enrolled
unfolding run OwnerStore.get async_load lookup nimly_manager.Text.text_eq
    nimly_manager.Dict.Texts.insert nimly_manager.KeyStore.Dictionary.from_arguments
    nimly_manager.Dict.Texts.remove
kept_run = refl

refines_example :
    ((λ k. OwnerStore.get k (run calls (async_load 1 none))) ≡ replay calls (λ k. none))
    × ((λ k. OwnerStore.get k (async_load 9 (run calls (async_load 1 none)).file))
        ≡ replay calls (λ k. none))
refines_example = run_refines_map calls 1 9

abbrev empty_store : NimlyOwnerKeyStore
empty_store = record { records = []; file = none }

abbrev set_options : Options
set_options = record {
  ble_address = some mac;
  owner_key_imported = some true;
  owner_name = some (text "Home");
}

set_run :
    (async_apply_ble_setup entry_id no_options
      (text "aabbccddee0f")
      (some enrolled)
      false
      empty_store).0
    ≡ ok set_options
unfolding async_apply_ble_setup strip nimly_manager.Text.strip_right nimly_manager.Text.strip_left
    nimly_manager.Text.is_space nimly_manager.Text.text_eq lookup nimly_manager.Dict.Texts.insert
set_run = refl

set_up_example :
    IsSetUp entry_id no_options
      (some enrolled)
      false
      empty_store
      set_options
      (async_apply_ble_setup entry_id no_options
        (text "aabbccddee0f")
        (some enrolled)
        false
        empty_store).1
set_up_example =
    async_apply_ble_setup-IsSetUp entry_id (text "aabbccddee0f") no_options (some enrolled) false
      empty_store set_options set_run

abbrev loads : Text → Json
loads s = malformed

nothing_run : parse_owner_record loads 5 (some (text "  ")) ≡ ok none
unfolding parse_owner_record nimly_manager.Text.strip_right nimly_manager.Text.strip_left
    nimly_manager.Text.is_space
nothing_run = refl

returns_example :
    (options : Options) × ((async_apply_ble_setup entry_id no_options
        (text "aabbccddee0f")
        none
        true
        empty_store).0
      ≡ ok options)
returns_example =
    accepted_returns loads 5 (some (text "  ")) none entry_id (text "aabbccddee0f") mac no_options
      true empty_store nothing_run compact_run

abbrev info : ServiceInfo
info = record {
  address = mac;
  name = [];
  rssi = negsuc 59;
  source = text "proxy";
  service_data = (nimly_advertising_uuid, 1 ∷ 2 ∷ 0 ∷ 0 ∷ 0 ∷ 0 ∷ 0 ∷ 0 ∷ []) ∷ [];
}

abbrev seen : DiscoveredLock
seen = record {
  address = mac;
  name = text "Nimly";
  rssi = negsuc 59;
  source = text "proxy";
  enrollment_state = text "enrolled";
}

abbrev advertised : NimlyAdvertisement
advertised = record {
  probe_id = text "nimly-1";
  name = none;
  address = mac;
  rssi = none;
  service_data = some (1 ∷ 2 ∷ 0 ∷ 0 ∷ 0 ∷ 0 ∷ 0 ∷ 0 ∷ []);
  matched_by = [];
}

data_run :
    lookup nimly_advertising_uuid info.service_data ≡ some (1 ∷ 2 ∷ 0 ∷ 0 ∷ 0 ∷ 0 ∷ 0 ∷ 0 ∷ [])
unfolding lookup nimly_manager.Text.text_eq
data_run = refl

seen_run : discovered info ≡ some seen
unfolding discovered lookup nimly_manager.Text.text_eq
seen_run = refl

agrees_example : seen.enrollment_state ≡ enrollment_state advertised
agrees_example =
    discovered_agrees info seen advertised (1 ∷ 2 ∷ 0 ∷ 0 ∷ 0 ∷ 0 ∷ 0 ∷ 0 ∷ []) data_run refl refl
      seen_run
