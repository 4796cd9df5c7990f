-- ===== src/Firmware.antt =====
-- src/nimly_ble_probe/firmware.py: the firmware version and the capabilities it documents, and
-- `parse_firmware` of custom_components/nimly_manager/nimly_ble/constants.py.
pub mod Gates
use nimly_manager.Base.{
  ℕ, Bool, true, false, ◌||◌, ◌&&◌, Option, none, some, is_some, List, [], ◌∷◌, ◌++◌, ◌==◌, ltb,
  leb, within, if◌then◌else◌,
}
use nimly_manager.Text.{Text, text, strip}
use nimly_manager.Text.Number.{decimal, natural}

-- The digits of Unicode 14 that are not decimal digits, as ranges.
unfoldable pub other_digits : List (ℕ × ℕ)
other_digits =
    (0xb2, 0xb3)
    ∷ (0xb9, 0xb9)
    ∷ (0x1369, 0x1371)
    ∷ (0x19da, 0x19da)
    ∷ (0x2070, 0x2070)
    ∷ (0x2074, 0x2079)
    ∷ (0x2080, 0x2089)
    ∷ (0x2460, 0x2468)
    ∷ (0x2474, 0x247c)
    ∷ (0x2488, 0x2490)
    ∷ (0x24ea, 0x24ea)
    ∷ (0x24f5, 0x24fd)
    ∷ (0x24ff, 0x24ff)
    ∷ (0x2776, 0x277e)
    ∷ (0x2780, 0x2788)
    ∷ (0x278a, 0x2792)
    ∷ (0x10a40, 0x10a43)
    ∷ (0x10e60, 0x10e68)
    ∷ (0x11052, 0x1105a)
    ∷ (0x1f100, 0x1f10a)
    ∷ []

unfoldable pub in_ranges : ℕ → List (ℕ × ℕ) → Bool
in_ranges c [] = false
in_ranges c (r ∷ rs) = within r.0 r.1 c || in_ranges c rs

unfoldable pub all_digits : Text → Bool
unfolding in_ranges other_digits
all_digits [] = true
all_digits (c ∷ cs) = (is_some (decimal c) || in_ranges c other_digits) && all_digits cs

-- str.isdigit
unfoldable pub is_digit : Text → Bool
is_digit [] = false
is_digit (c ∷ cs) = all_digits (c ∷ cs)

abbrev into_first : ℕ → List Text → List Text
into_first c [] = (c ∷ []) ∷ []
into_first c (p ∷ ps) = (c ∷ p) ∷ ps

-- s.split(".")
unfoldable pub split_dots : Text → List Text
split_dots [] = [] ∷ []
split_dots (c ∷ cs) = let rest = split_dots cs in if c == b'.' then [] ∷ rest else into_first c rest

pub record FirmwareVersion : Type 0 where
  pub major : ℕ
  pub minor : ℕ
  pub patch : ℕ

-- None, a version, or the ValueError of `int` on a digit that is not a decimal digit.
pub data Parsed : Type 0 where
  not_a_version value_error : Parsed
  version : FirmwareVersion → Parsed

abbrev numbers : Option ℕ → Option ℕ → Option ℕ → Parsed
numbers (some a) (some b) (some c) = version (record { major = a; minor = b; patch = c })
numbers _ _ _ = value_error

unfoldable pub parse_parts : List Text → Parsed
unfolding is_digit
parse_parts (a ∷ b ∷ c ∷ []) =
    if is_digit a && (is_digit b && is_digit c)
    then numbers (natural a) (natural b) (natural c)
    else not_a_version
parse_parts _ = not_a_version

-- FirmwareVersion.parse
unfoldable pub parse : Text → Parsed
unfolding parse_parts split_dots
parse value = parse_parts (split_dots (strip value))

-- s.strip("\x00")
unfoldable pub strip_left_zeros : Text → Text
strip_left_zeros [] = []
strip_left_zeros (c ∷ cs) = if c == 0 then strip_left_zeros cs else c ∷ cs

abbrev drop_zero : ℕ → Text → Text
drop_zero c [] = if c == 0 then [] else c ∷ []
drop_zero c (d ∷ ds) = c ∷ d ∷ ds

unfoldable pub strip_right_zeros : Text → Text
strip_right_zeros [] = []
strip_right_zeros (c ∷ cs) = drop_zero c (strip_right_zeros cs)

-- parse_firmware
unfoldable pub parse_firmware : Text → Parsed
unfolding strip_left_zeros strip_right_zeros parse_parts split_dots
parse_firmware value = parse_parts (split_dots (strip_right_zeros (strip_left_zeros (strip value))))

-- v >= w, the order of the dataclass
unfoldable pub at_least : FirmwareVersion → FirmwareVersion → Bool
at_least v w =
    if v.major == w.major
    then (if v.minor == w.minor then leb w.patch v.patch else ltb w.minor v.minor)
    else ltb w.major v.major

-- What `compatibility_for` reports of a version: `none` is "unknown".
pub record Compatibility : Type 0 where
  pub firmware_parsed : Bool
  pub ble_connection_documented : Option Bool
  pub device_model_query_documented : Option Bool
  pub fingerprint_scan_command_documented : Option Bool

abbrev pub gates : FirmwareVersion → Compatibility
gates v =
    let admin = at_least v (record { major = 4; minor = 7; patch = 90 }) in
    record {
      firmware_parsed = true;
      ble_connection_documented = some (at_least v (record { major = 4; minor = 6; patch = 0 }));
      device_model_query_documented = some admin;
      fingerprint_scan_command_documented = some admin;
    }

abbrev unparsed : Compatibility
unparsed = record {
  firmware_parsed = false;
  ble_connection_documented = none;
  device_model_query_documented = none;
  fingerprint_scan_command_documented = none;
}

-- compatibility_for, but for the entry that is always "unverified"; `none` where it raises
unfoldable pub compatibility_for : Text → Option Compatibility
unfolding at_least
compatibility_for value = elim (parse value) [
  | not_a_version ↦ some unparsed
  | value_error ↦ none
  | version v ↦ some (gates v)
]
