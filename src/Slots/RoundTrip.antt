-- ===== src/Slots/RoundTrip.antt =====
-- A registry that is saved and restored: `as_list` and `from_storage` of
-- custom_components/nimly_manager/slots.py.
use nimly_manager.Base.{
  ◌≡◌, refl, ap, sym, ◌∙◌, true, false, Option, none, some, List, [], ◌∷◌, ◌++◌, map, append-nil,
  arith, Bool-cases, inl, inr,
}
use nimly_manager.Base.Int.{ℤ, ◌==ℤ◌, ==ℤ_iff, within_ℤ, leb_ℤ}
use nimly_manager.Text.{Text, text, strip}
use nimly_manager.Request.{is_empty}
use nimly_manager.Value.{Value, Fields, get, get_or_null, int_of, str_of, int, str}
use nimly_manager.Scan.{value_or_null}
use nimly_manager.Dict.{lookup, insert}
use nimly_manager.Slots.{
  SlotStatus, observed, verified, status_name, FingerprintSlot, Records, FingerprintSlotRegistry,
  as_dict, as_list, sort, insert_sorted,
}
use nimly_manager.Slots.Store.{
  RawRecord, mapping, sequence, restored, optional_text, optional_ble_slot, status_of,
  restore_record, restore_seen, restore_status, restore_int, restore_slot, restore, restore_all,
  from_storage,
}
use nimly_manager.Slots.Invariant.{IsRecords}
use nimly_manager.Slots.Sorted.{sort-IsRecords}

-- A text that is stripped and not empty, or none.
abbrev pub IsClean : Option Text → Type 0
IsClean none = Unit
IsClean (some t) = (strip t ≡ t) × (is_empty t ≡ false)

abbrev pub InByte : Option ℤ → Type 0
InByte none = Unit
InByte (some b) = within_ℤ 0 999 b ≡ true

-- What a record is made of: persons are stripped, and BLE slots have three digits.
pub record IsStorable (s : FingerprintSlot) : Type 0 where
  pub person_id : IsClean s.person_id
  pub person_name : IsClean s.person_name
  pub verified_at : IsClean s.verified_at
  pub ble_slot : InByte s.ble_slot

abbrev pub AreStorable : Records → Type 0
AreStorable [] = Unit
AreStorable ((k, s) ∷ d) = IsStorable s × AreStorable d

optional_text_clean : (o : Option Text) → IsClean o → optional_text (value_or_null str o) ≡ o
unfolding optional_text
optional_text_clean none h = refl
optional_text_clean (some t) h = rw (h.0, h.1) refl

optional_ble_slot_kept : (o : Option ℤ) → InByte o → optional_ble_slot (value_or_null int o) ≡ o
unfolding optional_ble_slot
optional_ble_slot_kept none h = refl
optional_ble_slot_kept (some b) h = rw h refl

status_of-status_name : (s : SlotStatus) → status_of (status_name s) ≡ some s
unfolding status_of status_name nimly_manager.Text.text_eq
status_of-status_name observed = refl
status_of-status_name verified = refl

restore_status-known :
    (slot : ℤ) (v : Value) (status : SlotStatus) (raw : Fields)
    → status_of (str_of v) ≡ some status
    → restore_status slot (some v) raw
      ≡ restore_seen slot status
          (get (text "first_seen_at") raw)
          (get (text "last_seen_at") raw)
          raw
unfolding restore_status
restore_status-known slot v status raw h = rw (h, restore_status) refl

restore_record-as_dict :
    (s : FingerprintSlot)
    → within_ℤ 3 199 s.slot ≡ true
    → IsStorable s
    → restore_record s.slot s.status s.first_seen_at s.last_seen_at (as_dict s) ≡ restored s
unfolding restore_record as_dict get get_or_null nimly_manager.Text.text_eq
restore_record-as_dict s h c =
    let p = optional_text_clean s.person_id c.person_id in
    let n = optional_text_clean s.person_name c.person_name in
    let v = optional_text_clean s.verified_at c.verified_at in
    let b = optional_ble_slot_kept s.ble_slot c.ble_slot in rw (h, p, n, v, b) refl

-- A record that is shown is restored.
restore-as_dict :
    (s : FingerprintSlot)
    → within_ℤ 3 199 s.slot ≡ true
    → IsStorable s
    → restore (mapping (as_dict s)) ≡ restored s
unfolding restore restore_slot restore_int restore_seen as_dict get int_of str_of
    nimly_manager.Text.text_eq
restore-as_dict s h c =
    restore_status-known s.slot (str (status_name s.status)) s.status (as_dict s)
      (status_of-status_name s.status)
    ∙ restore_record-as_dict s h c

insert_new :
    (k : ℤ) (s : FingerprintSlot) (d : Records)
    → lookup k d ≡ none
    → insert k s d ≡ d ++ (k, s) ∷ []
unfolding lookup insert
insert_new k s [] h = refl
insert_new k s ((j, t) ∷ d) h = ground (arith, insert_new k s d)

sorted-AreStorable :
    (k : ℤ) (s : FingerprintSlot) (d : Records)
    → IsStorable s
    → AreStorable d
    → AreStorable (insert_sorted (k, s) d)
unfolding insert_sorted
sorted-AreStorable k s [] c a = (c, tt)
sorted-AreStorable k s ((j, t) ∷ d) c a = elim (Bool-cases (leb_ℤ k j)) [
  | inl e ↦ rw e (c, a)
  | inr e ↦ rw e (a.0, sorted-AreStorable k s d c a.1)
]

sort-AreStorable : (d : Records) → AreStorable d → AreStorable (sort d)
unfolding sort
sort-AreStorable [] a = tt
sort-AreStorable ((k, s) ∷ d) a = sorted-AreStorable k s (sort d) a.0 (sort-AreStorable d a.1)

-- No key of the first list stands in the second.
abbrev Apart : Records → Records → Type 0
Apart [] d = Unit
Apart ((k, s) ∷ l) d = (lookup k d ≡ none) × Apart l d

lookup_new :
    (k j : ℤ) (s : FingerprintSlot) (d : Records)
    → lookup j d ≡ none
    → (k ==ℤ j) ≡ false
    → lookup j (d ++ (k, s) ∷ []) ≡ none
unfolding lookup
lookup_new k j s [] h e = ground arith
lookup_new k j s ((i, t) ∷ d) h e = ground (arith, lookup_new k j s d)

Apart-append :
    (k : ℤ) (s : FingerprintSlot) (l d : Records)
    → Apart l d
    → lookup k l ≡ none
    → Apart l (d ++ (k, s) ∷ [])
unfolding lookup
Apart-append k s [] d a h = tt
Apart-append k s ((j, t) ∷ l) d a h = (
  lookup_new k j s d a.0 (ground (arith, ==ℤ_iff j k, ==ℤ_iff k j)),
  Apart-append k s l d a.1 (ground arith),
)

append_one : (d : Records) (x : ℤ × FingerprintSlot) (l : Records) → (d ++ x ∷ []) ++ l ≡ d ++ x ∷ l
append_one [] x l = refl
append_one (y ∷ d) x l = ap (λ z. y ∷ z) (append_one d x l)

restore_all-restored :
    (raw : RawRecord) (rest : List RawRecord) (s : FingerprintSlot) (d : Records)
    → restore raw ≡ restored s
    → restore_all (raw ∷ rest) d ≡ restore_all rest (insert s.slot s d)
unfolding restore_all
restore_all-restored raw rest s d h = rw (h, restore_all) refl

-- The list that is saved.
abbrev pub saved : Records → List RawRecord
saved l = map mapping (map (λ e. as_dict e.1) l)

restore_all-saved :
    (l d : Records)
    → IsRecords l
    → AreStorable l
    → Apart l d
    → restore_all (saved l) d ≡ some (d ++ l)
unfolding restore_all
restore_all-saved [] d v a p = ap some (sym (append-nil d))
restore_all-saved ((k, s) ∷ l) d (h, e, n, v) (c, a) (absent, p) =
    let h' : within_ℤ 3 199 s.slot ≡ true = ap (within_ℤ 3 199) e ∙ h in
    let d' = d ++ (k, s) ∷ [] in
    let inserted : insert s.slot s d ≡ d' = ap (λ i. insert i s d) e ∙ insert_new k s d absent in
    restore_all-restored (mapping (as_dict s)) (saved l) s d (restore-as_dict s h' c)
    ∙ (ap (restore_all (saved l)) inserted
        ∙ (restore_all-saved l d' v a (Apart-append k s l d p n) ∙ ap some (append_one d (k, s) l)))

nil-Apart : (l : Records) → Apart l []
unfolding lookup
nil-Apart [] = tt
nil-Apart ((k, s) ∷ l) = (refl, nil-Apart l)

-- A well-formed registry whose texts are clean survives a restart: what as_list shows, from_storage
-- restores to a registry of the same records in the order of their slots, and so every slot has the
-- record that it had.
pub from_storage-as_list :
    (r : FingerprintSlotRegistry)
    → IsRecords r.records
    → AreStorable r.records
    → (r' : FingerprintSlotRegistry) × (from_storage (sequence (map mapping (as_list r))) ≡ some r')
      × (r'.records ≡ sort r.records)
      × ((slot : ℤ) → lookup slot r'.records ≡ lookup slot r.records)
unfolding from_storage as_list
from_storage-as_list r v a =
    let (sorted, same) = sort-IsRecords r.records v in
    let all =
      restore_all-saved (sort r.records) [] sorted (sort-AreStorable r.records a)
        (nil-Apart (sort r.records)) in
    (record { records = sort r.records; changes = 0 }, rw (all, from_storage) refl, refl, same)
