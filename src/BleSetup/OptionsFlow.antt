-- ===== src/BleSetup/OptionsFlow.antt =====
-- `NimlyManagerOptionsFlow.async_step_init` of custom_components/nimly_manager/config_flow.py with an
-- input, without the fields of the form that it shows again.
use nimly_manager.Base.{ℕ, Bool, true, false, not, Option, is_some, if◌then◌else◌}
use nimly_manager.Base.Result.{Result, ok, err, Exec}
use nimly_manager.Text.{Text}
use nimly_manager.KeyStore.{OwnerRecord, Json}
use nimly_manager.Entries.{Options}
use nimly_manager.OwnerStore.{NimlyOwnerKeyStore}
use nimly_manager.Mac.{normalize_mac}
use nimly_manager.BleSetup.{
  SetupError, invalid_record, invalid_address, uncaught, parse_owner_record, async_apply_ble_setup,
}

-- The form with its errors, `invalid_owner_record` and `invalid_ble_address`, or the new options.
pub data OptionsResult : Type 0 where
  form : Bool → Bool → OptionsResult
  options_entry : Options → OptionsResult

abbrev entry_or_raise : Result SetupError Options → Result SetupError OptionsResult
entry_or_raise (ok options) = ok (options_entry options)
entry_or_raise (err e) = err e

-- From the test of the address on, for a record that is accepted.
unfoldable pub with_record :
    Text
    → Options
    → Text
    → Bool
    → Option OwnerRecord
    → Exec SetupError NimlyOwnerKeyStore OptionsResult
unfolding normalize_mac async_apply_ble_setup
with_record entry_id options address remove_owner_key r s =
    if is_some (normalize_mac address)
    then (let (applied, s') = async_apply_ble_setup entry_id options address r remove_owner_key s in
        (entry_or_raise applied, s'))
    else (ok (form false true), s)

unfoldable pub async_step_init :
    (Text → Json)
    → ℕ
    → Text
    → Options
    → Text
    → Option Text
    → Bool
    → Exec SetupError NimlyOwnerKeyStore OptionsResult
unfolding parse_owner_record with_record
async_step_init loads now entry_id options address pasted remove_owner_key s =
    elim (parse_owner_record loads now pasted) [
      | ok r ↦ with_record entry_id options address remove_owner_key r s
      | err (uncaught e) ↦ (err (uncaught e), s)
      | err invalid_address ↦ (ok (form true (not (is_some (normalize_mac address)))), s)
      | err (invalid_record e) ↦ (ok (form true (not (is_some (normalize_mac address)))), s)
    ]
