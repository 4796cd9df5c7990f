-- ===== src/Entries.antt =====
-- `state_topic` of custom_components/nimly_manager/const.py, the config entries that Home Assistant
-- keeps for the integration, and `NimlyManagerConfigFlow.async_step_user` of
-- custom_components/nimly_manager/config_flow.py, which makes them.
pub mod Topics
use nimly_manager.Base.{
  ℕ, Bool, true, false, not, ◌&&◌, ◌||◌, Option, none, some, List, [], ◌∷◌, ◌++◌, ◌==◌,
  if◌then◌else◌,
}
use nimly_manager.Text.{Text, text, text_eq, strip}
use nimly_manager.Text.Trim.{trim, has, starts_with}
use nimly_manager.Request.{is_empty}

abbrev pub is_slash : ℕ → Bool
is_slash c = c == b'/'

-- s.strip().strip("/")
unfoldable pub clean : Text → Text
unfolding strip trim
clean s = trim is_slash (strip s)

-- The choice of `state_topic`, on the cleaned texts.
unfoldable pub join_topic : Text → Text → Text
unfolding starts_with
join_topic base_topic device_name =
    if text_eq device_name base_topic || starts_with (base_topic ++ b'/' ∷ []) device_name
    then device_name
    else base_topic ++ b'/' ∷ device_name

unfoldable pub state_topic : Text → Text → Text
unfolding clean join_topic
state_topic base_topic device_name = join_topic (clean base_topic) (clean device_name)

-- entry.options, for the keys CONF_BLE_ADDRESS, OPTION_OWNER_KEY_IMPORTED and OPTION_OWNER_NAME; a
-- name that is None is kept like a missing one, since it is only read by `get`.
pub record Options : Type 0 where
  pub ble_address : Option Text
  pub owner_key_imported : Option Bool
  pub owner_name : Option Text

abbrev pub no_options : Options
no_options = record { ble_address = none; owner_key_imported = none; owner_name = none }

pub record ConfigEntry : Type 0 where
  pub title : Text
  pub unique_id : Text
  pub base_topic : Text
  pub device_name : Text
  pub options : Options

-- What a step of the flow ends with: the form with an error, `already_configured`, or an entry.
pub data FlowResult : Type 0 where
  invalid_topic wildcard_not_allowed already_configured : FlowResult
  create_entry : ConfigEntry → FlowResult

-- whether one of "#" and "+" is in the text
unfoldable pub has_wildcard : Text → Bool
unfolding has
has_wildcard s = has b'#' s || has b'+' s

-- The entry of `async_create_entry`, with the id that `async_set_unique_id` was given.
unfoldable pub new_entry : Text → Text → Text → ConfigEntry
new_entry topic base_topic device_name = record {
  title = device_name;
  unique_id = topic;
  base_topic = base_topic;
  device_name = device_name;
  options = no_options;
}

-- The `else` of `async_step_user`, on the cleaned parts of the topic. `configured` is the test of
-- `_abort_if_unique_id_configured`, which is Home Assistant's.
unfoldable pub create : (Text → Bool) → Text → Text → FlowResult
unfolding state_topic new_entry
create configured base_topic device_name =
    let topic = state_topic base_topic device_name in
    if configured topic
    then already_configured
    else create_entry (new_entry topic base_topic device_name)

-- async_step_user with an input
unfoldable pub async_step_user : (Text → Bool) → Text → Text → FlowResult
unfolding clean has_wildcard create
async_step_user configured base_input device_input =
    let base_topic = clean base_input in
    let device_name = clean device_input in
    if is_empty base_topic || is_empty device_name
    then invalid_topic
    else if has_wildcard base_topic || has_wildcard device_name
    then wildcard_not_allowed
    else create configured base_topic device_name
