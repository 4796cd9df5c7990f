-- ===== src/Slots.antt =====
-- custom_components/nimly_manager/slots.py: the registry of fingerprint slots. The callback
-- `on_change` is modelled by the number of its calls.
pub mod Store
pub mod Effects
pub mod Invariant
pub mod Sorted
pub mod RoundTrip
use nimly_manager.Base.{
  ℕ, ◌+◌, Bool, true, false, not, Option, none, some, is_some, List, [], ◌∷◌, ◌++◌, map,
  if◌then◌else◌,
}
use nimly_manager.Base.Int.{ℤ, pos, within_ℤ, leb_ℤ}
use nimly_manager.Base.Result.{Result, ok, err, Exec}
use nimly_manager.Base.Exec.{pure, lift, gets, modify, ◌>>=◌, ◌>>◌}
use nimly_manager.Text.{Text, text, strip}
use nimly_manager.Text.Number.{show_three}
use nimly_manager.Time.{DateTime, is_naive}
use nimly_manager.Time.Iso.{isoformat}
use nimly_manager.Value.{Value, Fields, null, str, int}
use nimly_manager.Scan.{value_or_null}
use nimly_manager.States.{Error, slot_invalid, naive_timestamp}
use nimly_manager.Dict.{lookup, insert}

pub data SlotStatus : Type 0 where
  observed verified : SlotStatus

unfoldable pub status_name : SlotStatus → Text
status_name observed = text "observed"
status_name verified = text "verified"

pub record FingerprintSlot : Type 0 where
  pub slot : ℤ
  pub status : SlotStatus
  pub first_seen_at : Text
  pub last_seen_at : Text
  pub person_id : Option Text
  pub person_name : Option Text
  pub verified_at : Option Text
  pub ble_slot : Option ℤ

-- FingerprintSlot.as_dict
unfoldable pub as_dict : FingerprintSlot → Fields
unfolding show_three status_name
as_dict r =
    (text "slot", int r.slot)
    ∷ (text "keypad_slot", str (show_three r.slot))
    ∷ (text "status", str (status_name r.status))
    ∷ (text "first_seen_at", str r.first_seen_at)
    ∷ (text "last_seen_at", str r.last_seen_at)
    ∷ (text "person_id", value_or_null str r.person_id)
    ∷ (text "person_name", value_or_null str r.person_name)
    ∷ (text "verified_at", value_or_null str r.verified_at)
    ∷ (text "ble_slot", value_or_null int r.ble_slot)
    ∷ []

abbrev pub Records : Type 0
Records = List (ℤ × FingerprintSlot)

pub record FingerprintSlotRegistry : Type 0 where
  pub records : Records
  pub changes : ℕ

-- FingerprintSlotRegistry.get
unfoldable pub get : ℤ → FingerprintSlotRegistry → Option FingerprintSlot
get slot r = lookup slot r.records

-- FingerprintSlotRegistry.is_occupied
unfoldable pub is_occupied : ℤ → FingerprintSlotRegistry → Bool
is_occupied slot r = is_some (lookup slot r.records)

-- _validate_slot
unfoldable pub validate_slot : ℤ → Result Error (Unit {0})
validate_slot slot = if within_ℤ 3 199 slot then ok tt else err slot_invalid

-- _timestamp
unfoldable pub timestamp : DateTime → Result Error Text
unfolding is_naive
timestamp value = if is_naive value then err naive_timestamp else ok (isoformat value)

-- FingerprintSlotRegistry._changed
abbrev pub changed : FingerprintSlotRegistry → FingerprintSlotRegistry
changed r = record r { changes = r.changes + 1 }

abbrev pub store : ℤ → FingerprintSlot → FingerprintSlotRegistry → FingerprintSlotRegistry
store slot s r = record r { records = insert slot s r.records }

-- The record that `observe` leaves for a slot.
unfoldable pub observed_record : ℤ → Text → Option FingerprintSlot → FingerprintSlot
observed_record slot time none = record {
  slot = slot;
  status = observed;
  first_seen_at = time;
  last_seen_at = time;
  person_id = none;
  person_name = none;
  verified_at = none;
  ble_slot = none;
}
observed_record slot time (some r) = record r { last_seen_at = time }

-- FingerprintSlotRegistry.observe
unfoldable pub observe : ℤ → DateTime → Exec Error FingerprintSlotRegistry FingerprintSlot
unfolding validate_slot timestamp
observe slot now = do
  lift (validate_slot slot)
  time ← lift (timestamp now)
  known ← gets (λ r. lookup slot r.records)
  let s = observed_record slot time known
  modify (λ r. changed (store slot s r))
  pure s

abbrev pub keep_or : {A : Type 0} → Option A → Option A → Option A
keep_or none old = old
keep_or (some a) old = some a

-- What `verify` writes into the record.
unfoldable pub verified_record : Text → Text → Text → Option ℤ → FingerprintSlot → FingerprintSlot
verified_record person_id person_name time ble_slot s = record s {
  status = verified;
  person_id = some (strip person_id);
  person_name = some (strip person_name);
  verified_at = some time;
  last_seen_at = time;
  ble_slot = keep_or ble_slot s.ble_slot;
}

-- FingerprintSlotRegistry.verify
unfoldable pub verify :
    ℤ → Text → Text → DateTime → Option ℤ → Exec Error FingerprintSlotRegistry FingerprintSlot
unfolding observe timestamp
verify slot person_id person_name now ble_slot = do
  seen ← observe slot now
  time ← lift (timestamp now)
  let s = verified_record person_id person_name time ble_slot seen
  modify (λ r. changed (store slot s r))
  pure s

unfoldable pub insert_sorted {ℓ} : {V : Type ℓ} → ℤ × V → List (ℤ × V) → List (ℤ × V)
insert_sorted e [] = e ∷ []
insert_sorted e (f ∷ fs) = if leb_ℤ e.0 f.0 then e ∷ f ∷ fs else f ∷ insert_sorted e fs

-- sorted(...) by the first component
unfoldable pub sort {ℓ} : {V : Type ℓ} → List (ℤ × V) → List (ℤ × V)
unfolding insert_sorted
sort [] = []
sort (e ∷ es) = insert_sorted e (sort es)

abbrev pub ble_slots : Records → List ℤ
ble_slots [] = []
ble_slots ((k, s) ∷ d) = elim s.ble_slot [ none ↦ ble_slots d | some b ↦ b ∷ ble_slots d ]

-- FingerprintSlotRegistry.used_ble_slots
unfoldable pub used_ble_slots : FingerprintSlotRegistry → List ℤ
unfolding sort
used_ble_slots r = map (λ e. e.0) (sort (map (λ b. (b, b)) (ble_slots r.records)))

-- FingerprintSlotRegistry.as_list: the keys are distinct, so the sorted entries are the sorted
-- keys with their records.
unfoldable pub as_list : FingerprintSlotRegistry → List Fields
unfolding as_dict sort
as_list r = map (λ e. as_dict e.1) (sort r.records)

abbrev pub is_status : SlotStatus → SlotStatus → Bool
is_status observed observed = true
is_status verified verified = true
is_status _ _ = false

unfoldable pub count_status : SlotStatus → Records → ℕ
count_status t [] = 0
count_status t ((k, s) ∷ d) = (if is_status t s.status then 1 else 0) + count_status t d

-- FingerprintSlotRegistry.diagnostics: the numbers of observed and of verified slots
unfoldable pub diagnostics : FingerprintSlotRegistry → ℕ × ℕ
unfolding count_status
diagnostics r = (count_status observed r.records, count_status verified r.records)
