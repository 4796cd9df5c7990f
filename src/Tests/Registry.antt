-- ===== src/Tests/Registry.antt =====
-- The slot registry of custom_components/nimly_manager/slots.py.
use nimly_manager.Storage.{NimlySlotStorage, StoredEntry, registry_for, async_load, save}
use nimly_manager.Storage.Restart.{registry_for-save}
use nimly_manager.Slots.RoundTrip.{IsStorable}
use nimly_manager.Dict.Texts
use nimly_manager.Base.{◌+◌, ◌≡◌, ◌≢◌, ◌⊎◌, inl, inr, refl, true, false, some, none, List, [], ◌∷◌}
use nimly_manager.Base.Int.{ℤ, pos, within_ℤ, ◌==ℤ◌, leb_ℤ}
use nimly_manager.Base.Result.{ok}
use nimly_manager.Text.{text, text_eq, strip, strip_left, strip_right, is_space}
use nimly_manager.Dict.{insert}
use nimly_manager.Value
use nimly_manager.Slots.Store
use nimly_manager.Time.{is_naive}
use nimly_manager.Time.Iso.{isoformat}
use nimly_manager.Value.{str, int, null}
use nimly_manager.Slots.{
  SlotStatus, FingerprintSlot, FingerprintSlotRegistry, observe, verify, get, observed_record,
  keep_or,
}
use nimly_manager.Slots.Store.{RawRecord, RawData, from_storage}
use nimly_manager.Slots.Effects.{SameEvidence, observe_keeps_evidence, Proves, verify_records}
use nimly_manager.Slots.Invariant
use nimly_manager.Slots.Invariant.{IsRecords, registry_invariant}
use nimly_manager.Tests.Sample.{noon, soon, ada}

abbrev known : FingerprintSlot
known = record {
  slot = pos 7;
  status = SlotStatus.verified;
  first_seen_at = text "2023-12-01T12:00:00+00:00";
  last_seen_at = text "2023-12-01T12:00:00+00:00";
  person_id = some (text "p1");
  person_name = some ada;
  verified_at = some (text "2023-12-01T12:00:00+00:00");
  ble_slot = some (pos 150);
}

abbrev one_slot : FingerprintSlotRegistry
one_slot = record { records = (pos 7, known) ∷ []; changes = 0 }

known_found : get (pos 7) one_slot ≡ some known
unfolding get nimly_manager.Dict.lookup nimly_manager.Base.Int.◌==ℤ◌
known_found = refl

evidence_example :
    (t : FingerprintSlot) × (get (pos 7) (observe (pos 7) noon one_slot).1 ≡ some t)
    × SameEvidence known t
evidence_example = observe_keeps_evidence (pos 7) (pos 7) noon one_slot known known_found

noon_aware : is_naive noon ≡ false
unfolding is_naive
noon_aware = refl

verify_example :
    (s : FingerprintSlot) × ((verify (pos 7) (text "p2") (text "Bo") noon none one_slot).0 ≡ ok s)
    × (get (pos 7) (verify (pos 7) (text "p2") (text "Bo") noon none one_slot).1 ≡ some s)
    × Proves (text "p2") (text "Bo") noon s
    × (s.ble_slot
        ≡ keep_or none (observed_record (pos 7) (isoformat noon) (get (pos 7) one_slot)).ble_slot)
    × ((j : ℤ)
        → j ≢ pos 7
        → get j (verify (pos 7) (text "p2") (text "Bo") noon none one_slot).1 ≡ get j one_slot)
    × ((verify (pos 7) (text "p2") (text "Bo") noon none one_slot).1.changes ≡ 2)
verify_example = verify_records (pos 7) (text "p2") (text "Bo") noon none one_slot refl noon_aware

-- Stored data with a good record, one for a slot that no finger can have, and a stray text.
abbrev stored : RawData
stored = RawData.sequence (
    RawRecord.mapping (
      (text "slot", int (pos 7))
      ∷ (text "status", str (text "verified"))
      ∷ (text "first_seen_at", str (text "2023-12-01T12:00:00+00:00"))
      ∷ (text "last_seen_at", str (text "2023-12-01T12:00:00+00:00"))
      ∷ (text "person_id", str (text "p1"))
      ∷ (text "person_name", str (text " Ada "))
      ∷ (text "verified_at", str (text "2023-12-01T12:00:00+00:00"))
      ∷ (text "ble_slot", int (pos 150))
      ∷ [])
    ∷ RawRecord.mapping (
        (text "slot", int (pos 2))
        ∷ (text "status", str (text "observed"))
        ∷ (text "first_seen_at", null)
        ∷ (text "last_seen_at", null)
        ∷ [])
    ∷ RawRecord.not_mapping
    ∷ [])

stored_run : from_storage stored ≡ some one_slot
unfolding from_storage Store.restore_all Store.restore Store.restore_slot Store.restore_int
    Store.restore_status Store.restore_seen Store.restore_record Store.optional_text
    Store.optional_ble_slot Store.status_of Value.get Value.get_or_null Value.str_of Value.int_of
    text_eq strip strip_left strip_right is_space insert ◌==ℤ◌ leb_ℤ
stored_run = refl

registry_example : IsRecords (observe (pos 9) soon one_slot).1.records
registry_example =
    registry_invariant stored one_slot (observe (pos 9) soon one_slot).1 stored_run
      (Invariant.next Invariant.here (Invariant.observed (pos 9) soon refl))

abbrev storage : NimlySlotStorage
storage = record {
  stored_entries = (text "e2", StoredEntry.not_dictionary) ∷ [];
  registries = (text "e1", one_slot) ∷ [];
  written = none;
}

known-IsStorable : IsStorable known
unfolding strip strip_left strip_right is_space
known-IsStorable = record {
  person_id = (refl, refl);
  person_name = (refl, refl);
  verified_at = (refl, refl);
  ble_slot = refl;
}

restart_example :
    (r' : FingerprintSlotRegistry) × ((registry_for
        (text "e1")
        (async_load (save storage).written)).0
      ≡ ok r')
    × ((slot : ℤ) → get slot r' ≡ get slot one_slot)
unfolding Texts.lookup text_eq nimly_manager.Dict.lookup
restart_example =
    registry_for-save (text "e1") one_slot storage refl (refl, refl, refl, tt)
      (known-IsStorable, tt)
