-- ===== src/Slots/Store.antt =====
-- `FingerprintSlotRegistry.from_storage` of custom_components/nimly_manager/slots.py.
use nimly_manager.Base.{Option, none, some, List, [], ◌∷◌, if◌then◌else◌}
use nimly_manager.Base.Int.{ℤ, within_ℤ}
use nimly_manager.Text.{Text, text, text_eq, strip}
use nimly_manager.Value.{
  Value, Fields, str, int, get_or_null, IntResult, number, type_error, value_error, overflow_error,
  int_of, str_of,
}
use nimly_manager.Value
use nimly_manager.Request.{is_empty}
use nimly_manager.Dict.{insert}
use nimly_manager.Slots.{
  SlotStatus, observed, verified, FingerprintSlot, Records, FingerprintSlotRegistry,
}

-- An element of the stored data: a mapping, or anything else.
pub data RawRecord : Type 0 where
  mapping : Fields → RawRecord
  not_mapping : RawRecord

-- The stored data: a sequence that is no text, or anything else.
pub data RawData : Type 0 where
  sequence : List RawRecord → RawData
  not_sequence : RawData

-- _optional_text
unfoldable pub optional_text : Value → Option Text
optional_text (str s) = let t = strip s in if is_empty t then none else some t
optional_text _ = none

-- _optional_ble_slot
unfoldable pub optional_ble_slot : Value → Option ℤ
optional_ble_slot (int n) = if within_ℤ 0 999 n then some n else none
optional_ble_slot _ = none

-- SlotStatus(s); `none` where it raises ValueError
unfoldable pub status_of : Text → Option SlotStatus
status_of s =
    if text_eq s (text "observed")
    then some observed
    else if text_eq s (text "verified")
    then some verified
    else none

-- What one stored element comes to: nothing, a record, or an OverflowError, which the code does
-- not catch.
pub data Restored : Type 0 where
  skipped overflow : Restored
  restored : FingerprintSlot → Restored

-- The record for the four values that are required, and the optional rest.
unfoldable pub restore_record : ℤ → SlotStatus → Text → Text → Fields → Restored
unfolding optional_text optional_ble_slot
restore_record slot status first_seen_at last_seen_at raw =
    if within_ℤ 3 199 slot
    then restored (record {
      slot = slot;
      status = status;
      first_seen_at = first_seen_at;
      last_seen_at = last_seen_at;
      person_id = optional_text (get_or_null (text "person_id") raw);
      person_name = optional_text (get_or_null (text "person_name") raw);
      verified_at = optional_text (get_or_null (text "verified_at") raw);
      ble_slot = optional_ble_slot (get_or_null (text "ble_slot") raw);
    })
    else skipped

unfoldable pub restore_seen : ℤ → SlotStatus → Option Value → Option Value → Fields → Restored
restore_seen slot status (some first) (some last) raw =
    restore_record slot status (str_of first) (str_of last) raw
restore_seen slot status _ _ raw = skipped

unfoldable pub restore_status : ℤ → Option Value → Fields → Restored
restore_status slot none raw = skipped
restore_status slot (some v) raw = elim (status_of (str_of v)) [
  | none ↦ skipped
  | some status ↦
      restore_seen slot status (Value.get (text "first_seen_at") raw)
        (Value.get (text "last_seen_at") raw) raw
]

unfoldable pub restore_int : IntResult → Fields → Restored
restore_int (number slot) raw = restore_status slot (Value.get (text "status") raw) raw
restore_int overflow_error raw = overflow
restore_int type_error raw = skipped
restore_int value_error raw = skipped

unfoldable pub restore_slot : Option Value → Fields → Restored
restore_slot none raw = skipped
restore_slot (some v) raw = restore_int (int_of v) raw

-- The body of the loop for one element.
unfoldable pub restore : RawRecord → Restored
restore not_mapping = skipped
restore (mapping raw) = restore_slot (Value.get (text "slot") raw) raw

-- The loop; `none` where it raises.
unfoldable pub restore_all : List RawRecord → Records → Option Records
restore_all [] records = some records
restore_all (raw ∷ rest) records = elim (restore raw) [
  | skipped ↦ restore_all rest records
  | overflow ↦ none
  | restored s ↦ restore_all rest (insert s.slot s records)
]

-- FingerprintSlotRegistry.from_storage; `none` where it raises OverflowError
unfoldable pub from_storage : RawData → Option FingerprintSlotRegistry
from_storage not_sequence = some (record { records = []; changes = 0 })
from_storage (sequence data_list) = elim (restore_all data_list []) [
  | none ↦ none
  | some records ↦ some (record { records = records; changes = 0 })
]
