-- ===== src/Advertisement.antt =====
-- src/nimly_ble_probe/advertisement.py: which BLE advertisements are a Nimly lock's, and what their
-- service data says. The digest of `stable_private_id` is a parameter of `inspect_advertisement`.
pub mod Factory
use nimly_manager.Base.{
  ℕ, ◌+◌, ◌-◌, ◌*◌, Bool, true, false, ◌||◌, Option, none, some, List, [], ◌∷◌, ◌++◌, ◌==◌, Bytes,
  length, take, drop, within, if◌then◌else◌,
}
use nimly_manager.Base.Int.{ℤ}
use nimly_manager.Text.Hex.{from_hex, to_hex}
use nimly_manager.Crypto.{backwards}
use nimly_manager.Text.{without, Text, text, text_eq, text_in, strip, lower}

abbrev pub nimly_service_uuid : Text
nimly_service_uuid = text "ba4bfd00-c447-19bf-f38d-4890b3a824c8"

abbrev pub nimly_advertising_uuid_16 : Text
nimly_advertising_uuid_16 = text "fd00"

abbrev pub nimly_advertising_uuid : Text
nimly_advertising_uuid = text "0000fd00-0000-1000-8000-00805f9b34fb"

-- s.replace("0x", "")
unfoldable pub without_0x : Text → Text
without_0x [] = []
without_0x (c ∷ []) = c ∷ []
without_0x (c ∷ d ∷ cs) = elim (text_eq (c ∷ d ∷ []) (text "0x")) [
  | true ↦ without_0x cs
  | false ↦ c ∷ without_0x (d ∷ cs)
]

unfoldable pub normalize_uuid : Text → Text
unfolding without_0x
normalize_uuid value = without_0x (lower (strip value))

unfoldable pub is_nimly_service_uuid : Text → Bool
is_nimly_service_uuid value =
    text_in (normalize_uuid value)
      (nimly_service_uuid ∷ nimly_advertising_uuid ∷ nimly_advertising_uuid_16 ∷ [])

-- `private_digest value` is the hexadecimal SHA-256 of the text, as `hexdigest` gives it.
unfoldable pub stable_private_id : (Text → Text) → Text → Text
stable_private_id private_digest value = text "nimly-" ++ take 12 (private_digest value)

pub record NimlyAdvertisement : Type 0 where
  pub probe_id : Text
  pub name : Option Text
  pub address : Text
  pub rssi : Option ℤ
  pub service_data : Option Bytes
  pub matched_by : List Text

abbrev kind_of : Option Bytes → Text
kind_of none = text "not_present"
kind_of (some data_bytes) =
    if length data_bytes == 10
    then text "connect_module_seed_id_trailer"
    else if length data_bytes == 8
    then text "seed_and_device_token"
    else text "unknown"

-- NimlyAdvertisement.service_data_kind
unfoldable pub service_data_kind : NimlyAdvertisement → Text
service_data_kind a = kind_of a.service_data

-- len(data) in (8, 10)
abbrev pub is_known_length : Bytes → Bool
is_known_length data_bytes = length data_bytes == 8 || length data_bytes == 10

abbrev seed_of : Option Bytes → Option Bytes
seed_of none = none
seed_of (some data_bytes) = if is_known_length data_bytes then some (take 2 data_bytes) else none

-- NimlyAdvertisement._seed
unfoldable pub seed : NimlyAdvertisement → Option Bytes
seed a = seed_of a.service_data

-- NimlyAdvertisement.enrollment_state
unfoldable pub enrollment_state : NimlyAdvertisement → Text
unfolding seed
enrollment_state a = elim (seed a) [
  | none ↦ text "unknown"
  | some s ↦ if text_eq s (0 ∷ 0 ∷ []) then text "factory" else text "enrolled"
]

abbrev matches_address : Text → Option Bytes → Option Bool
matches_address address none = none
matches_address address (some data_bytes) =
    if is_known_length data_bytes
    then elim (from_hex (without b'-' (without b':' address))) [
      | none ↦ none
      | some address_bytes ↦
          if length address_bytes == 6
          then some (text_eq (backwards (take 6 (drop 2 data_bytes))) address_bytes)
          else none
    ]
    else none

-- NimlyAdvertisement.identifier_matches_address
unfoldable pub identifier_matches_address : NimlyAdvertisement → Option Bool
identifier_matches_address a = matches_address a.address a.service_data

abbrev length_of : Option Bytes → Option ℕ
length_of none = none
length_of (some data_bytes) = some (length data_bytes)

abbrev hex_of : Option Bytes → Option Text
hex_of none = none
hex_of (some data_bytes) = some (to_hex data_bytes)

-- The dictionary of `as_dict`; `revealed` is what `reveal_identifiers` adds, the address and the
-- service data in hexadecimal digits.
pub record AdvertisementDict : Type 0 where
  pub probe_id : Text
  pub name : Option Text
  pub rssi : Option ℤ
  pub matched_by : List Text
  pub service_data_kind : Text
  pub enrollment_state : Text
  pub identifier_matches_address : Option Bool
  pub service_data_length : Option ℕ
  pub revealed : Option (Text × Option Text)

-- NimlyAdvertisement.as_dict
unfoldable pub as_dict : Bool → NimlyAdvertisement → AdvertisementDict
unfolding service_data_kind enrollment_state identifier_matches_address to_hex
as_dict reveal_identifiers a = record {
  probe_id = a.probe_id;
  name = a.name;
  rssi = a.rssi;
  matched_by = a.matched_by;
  service_data_kind = service_data_kind a;
  enrollment_state = enrollment_state a;
  identifier_matches_address = identifier_matches_address a;
  service_data_length = length_of a.service_data;
  revealed = if reveal_identifiers then some (a.address, hex_of a.service_data) else none;
}

-- The loop over `service_uuids`.
unfoldable pub uuid_matches : List Text → List Text
uuid_matches [] = []
uuid_matches (u ∷ us) =
    let rest = uuid_matches us in
    if is_nimly_service_uuid u then text "service_uuid" ∷ rest else rest

-- The loop over `service_data`, which ends at the first match: the data of that entry.
unfoldable pub find_service_data : List (Text × Bytes) → Option Bytes
find_service_data [] = none
find_service_data ((u, value) ∷ rest) =
    if is_nimly_service_uuid u then some value else find_service_data rest

-- tuple(dict.fromkeys(matches)): the matches of the data come last
unfoldable pub distinct : List Text → Option Bytes → List Text
distinct [] none = []
distinct [] (some d) = text "service_data" ∷ []
distinct (u ∷ us) none = text "service_uuid" ∷ []
distinct (u ∷ us) (some d) = text "service_uuid" ∷ text "service_data" ∷ []

abbrev advertised :
    (Text → Text)
    → Text
    → Option Text
    → Option ℤ
    → Option Bytes
    → List Text
    → Option NimlyAdvertisement
advertised private_digest address name rssi found [] = none
advertised private_digest address name rssi found (m ∷ ms) = some (record {
  probe_id = stable_private_id private_digest address;
  name = name;
  address = address;
  rssi = rssi;
  service_data = found;
  matched_by = m ∷ ms;
})

unfoldable pub inspect_advertisement :
    (Text → Text)
    → Text
    → Option Text
    → List Text
    → List (Text × Bytes)
    → Option ℤ
    → Option NimlyAdvertisement
unfolding distinct
inspect_advertisement private_digest address name service_uuids service_data rssi =
    let found = find_service_data service_data in
    advertised private_digest address name rssi found (distinct (uuid_matches service_uuids) found)
