-- ===== src/Slots/Invariant.antt =====
-- The invariant of the registry: every key is a slot from 3 to 199, holds a record of that slot,
-- and stands once.
use mathlib.Core.Path.{subst}
use nimly_manager.Base.{
  ◌≡◌, refl, true, Option, none, some, List, [], ◌∷◌, arith, inl, inr, Option-cases,
}
use nimly_manager.Base.Int.{ℤ, within_ℤ, ==ℤ_iff}
use nimly_manager.Text.{Text, text}
use nimly_manager.Value
use nimly_manager.Value.{
  Value, Fields, str_of, int_of, number, type_error, value_error, overflow_error, IntResult,
}
use nimly_manager.Time.{DateTime}
use nimly_manager.Time.Iso.{isoformat}
use nimly_manager.Dict.{lookup, insert, lookup-insert}
use nimly_manager.Slots.Effects.{seen, proven, observe_cases, verify_cases}
use nimly_manager.Slots.{
  FingerprintSlot, Records, FingerprintSlotRegistry, observed_record, verified_record, observe,
  verify, SlotStatus,
}
use nimly_manager.Slots.Store.{
  RawRecord, RawData, sequence, not_sequence, Restored, skipped, overflow, restored, restore_record,
  restore_seen, restore_status, restore_int, restore_slot, status_of, restore, restore_all,
  from_storage, mapping, not_mapping,
}

abbrev pub IsRecords : Records → Type 0
IsRecords [] = Unit
IsRecords ((k, s) ∷ d) =
    (within_ℤ 3 199 k ≡ true) × (s.slot ≡ k) × (lookup k d ≡ none) × IsRecords d

pub insert-IsRecords :
    (k : ℤ) (s : FingerprintSlot) (d : Records)
    → within_ℤ 3 199 k ≡ true
    → s.slot ≡ k
    → IsRecords d
    → IsRecords (insert k s d)
unfolding insert lookup
insert-IsRecords k s [] h e v = (h, e, refl, tt)
insert-IsRecords k s ((j, t) ∷ d) h e v =
    ground (arith, ==ℤ_iff j k, ==ℤ_iff k j, insert-IsRecords k s d h e v.3, lookup-insert k j s d)

-- What the invariant says of a record that is found.
pub lookup-slot :
    (k : ℤ) (s : FingerprintSlot) (d : Records)
    → IsRecords d
    → lookup k d ≡ some s
    → (s.slot ≡ k) × (within_ℤ 3 199 k ≡ true)
unfolding lookup
lookup-slot k s [] v h = cc
lookup-slot k s ((j, t) ∷ d) v h = ground (arith, ==ℤ_iff j k, lookup-slot k s d v.3)

pub observed_slot :
    (k : ℤ) (time : Text) (d : Records)
    → IsRecords d
    → (observed_record k time (lookup k d)).slot ≡ k
unfolding observed_record
observed_slot k time d v = go (lookup k d) refl
  where
    go : (o : Option FingerprintSlot) → lookup k d ≡ o → (observed_record k time o).slot ≡ k
    go none e = refl
    go (some s) e = (lookup-slot k s d v e).0

pub observe-IsRecords :
    (slot : ℤ) (now : DateTime) (r : FingerprintSlotRegistry)
    → IsRecords r.records
    → IsRecords (observe slot now r).1.records
observe-IsRecords slot now r v = elim (observe_cases slot now r) [
  | inl (h, e) ↦ rw e (
      insert-IsRecords slot (seen slot now r) r.records h
        (observed_slot slot (isoformat now) r.records v) v)
  | inr (x, e) ↦ rw e v
]

pub verify-IsRecords :
    (slot : ℤ) (id name : Text) (now : DateTime) (ble : Option ℤ) (r : FingerprintSlotRegistry)
    → IsRecords r.records
    → IsRecords (verify slot id name now ble r).1.records
unfolding verified_record
verify-IsRecords slot id name now ble r v = elim (verify_cases slot id name now ble r) [
  | inl (h, e) ↦
      let q = observed_slot slot (isoformat now) r.records v in
      let once = insert-IsRecords slot (seen slot now r) r.records h q v in
      rw e (
        insert-IsRecords slot (proven slot id name now ble r) _ h
          (verified_slot slot id name now ble r q) once)
  | inr (x, e) ↦ rw e v
]
  where
    verified_slot :
        (slot : ℤ) (id name : Text) (now : DateTime) (ble : Option ℤ) (r : FingerprintSlotRegistry)
        → (seen slot now r).slot ≡ slot
        → (proven slot id name now ble r).slot ≡ slot
    verified_slot slot id name now ble r h = h

restore_record-slot :
    (n : ℤ) (status : SlotStatus) (first last : Text) (raw : Fields) (s : FingerprintSlot)
    → restore_record n status first last raw ≡ restored s
    → within_ℤ 3 199 s.slot ≡ true
unfolding restore_record
restore_record-slot n status first last raw s h = ground arith

restore_seen-slot :
    (n : ℤ) (status : SlotStatus) (first last : Option Value) (raw : Fields) (s : FingerprintSlot)
    → restore_seen n status first last raw ≡ restored s
    → within_ℤ 3 199 s.slot ≡ true
unfolding restore_seen
restore_seen-slot n status (some a) (some b) raw s h =
    restore_record-slot n status (str_of a) (str_of b) raw s h
restore_seen-slot n status none b raw s h = cc
restore_seen-slot n status (some a) none raw s h = cc

restore_status-slot :
    (n : ℤ) (v : Option Value) (raw : Fields) (s : FingerprintSlot)
    → restore_status n v raw ≡ restored s
    → within_ℤ 3 199 s.slot ≡ true
unfolding restore_status
restore_status-slot n none raw s h = cc
restore_status-slot n (some v) raw s h = elim (Option-cases (status_of (str_of v))) [
  | inl e ↦ cc (refused e)
  | inr (t, e) ↦
      restore_seen-slot n t (Value.get (text "first_seen_at") raw)
        (Value.get (text "last_seen_at") raw) raw s (rw (e, restore_status) at h)
]
  where
    refused : status_of (str_of v) ≡ none → restore_status n (some v) raw ≡ skipped
    refused e = rw (e, restore_status)

restore_int-slot :
    (v : IntResult) (raw : Fields) (s : FingerprintSlot)
    → restore_int v raw ≡ restored s
    → within_ℤ 3 199 s.slot ≡ true
unfolding restore_int
restore_int-slot (number n) raw s h = restore_status-slot n (Value.get (text "status") raw) raw s h
restore_int-slot overflow_error raw s h = cc
restore_int-slot type_error raw s h = cc
restore_int-slot value_error raw s h = cc

restore_slot-slot :
    (v : Option Value) (raw : Fields) (s : FingerprintSlot)
    → restore_slot v raw ≡ restored s
    → within_ℤ 3 199 s.slot ≡ true
unfolding restore_slot
restore_slot-slot none raw s h = cc
restore_slot-slot (some v) raw s h = restore_int-slot (int_of v) raw s h

restored-slot :
    (raw : RawRecord) (s : FingerprintSlot)
    → restore raw ≡ restored s
    → within_ℤ 3 199 s.slot ≡ true
unfolding restore
restored-slot not_mapping s h = cc
restored-slot (mapping raw) s h = restore_slot-slot (Value.get (text "slot") raw) raw s h

restore_all-step :
    (raw : RawRecord) (raws : List RawRecord) (d d' : Records) (o : Restored)
    → restore raw ≡ o
    → restore_all (raw ∷ raws) d ≡ some d'
    → IsRecords d
    → ((e : Records) → IsRecords e → restore_all raws e ≡ some d' → IsRecords d')
    → IsRecords d'
unfolding restore_all
restore_all-step raw raws d d' skipped e h v ih = ih d v (rw (e, restore_all) at h)
restore_all-step raw raws d d' overflow e h v ih = cc (stopped e)
  where
    stopped : restore raw ≡ overflow → restore_all (raw ∷ raws) d ≡ none
    stopped q = rw (q, restore_all)
restore_all-step raw raws d d' (restored s) e h v ih =
    ih (insert s.slot s d) (insert-IsRecords s.slot s d (restored-slot raw s e) refl v)
      (rw (e, restore_all) at h)

restore_all-IsRecords :
    (raws : List RawRecord) (d d' : Records)
    → IsRecords d
    → restore_all raws d ≡ some d'
    → IsRecords d'
unfolding restore_all
restore_all-IsRecords [] d d' v h = let e : d ≡ d' = cc in subst IsRecords e v
restore_all-IsRecords (raw ∷ raws) d d' v h =
    restore_all-step raw raws d d' (restore raw) refl h v
      (λ e w k. restore_all-IsRecords raws e d' w k)

-- One call of a method that changes the registry, with any arguments.
pub data Step (r r' : FingerprintSlotRegistry) : Type 0 where
  observed : (slot : ℤ) (now : DateTime) → r' ≡ (observe slot now r).1 → Step r r'
  verified :
      (slot : ℤ) (id name : Text) (now : DateTime) (ble : Option ℤ)
      → r' ≡ (verify slot id name now ble r).1
      → Step r r'

pub data Reach (r : FingerprintSlotRegistry) : FingerprintSlotRegistry → Type 0 where
  here : Reach r r
  next : {u v : FingerprintSlotRegistry} → Reach r u → Step u v → Reach r v

Reach-IsRecords :
    (r r' : FingerprintSlotRegistry) → Reach r r' → IsRecords r.records → IsRecords r'.records
Reach-IsRecords r r' here v = v
Reach-IsRecords r r' (next {u} p (observed slot now e)) v =
    rw e (observe-IsRecords slot now u (Reach-IsRecords r u p v))
Reach-IsRecords r r' (next {u} p (verified slot id name now ble e)) v =
    rw e (verify-IsRecords slot id name now ble u (Reach-IsRecords r u p v))

-- From whatever stored data the registry is restored, and whatever calls follow, each key is a slot
-- from 3 to 199, stands once, and holds a record of that slot.
pub registry_invariant :
    (stored : RawData) (r r' : FingerprintSlotRegistry)
    → from_storage stored ≡ some r
    → Reach r r'
    → IsRecords r'.records
unfolding from_storage
registry_invariant not_sequence r r' h p =
    Reach-IsRecords r r' p (let e : [] ≡ r.records = cc in subst IsRecords e tt)
registry_invariant (sequence raws) r r' h p = elim (Option-cases (restore_all raws [])) [
  | inl e ↦ cc (refused e)
  | inr (d, e) ↦ Reach-IsRecords r r' p (
      let q : d ≡ r.records = cc (accepted d e) in
      subst IsRecords q (restore_all-IsRecords raws [] d tt e))
]
  where
    refused : restore_all raws [] ≡ none → from_storage (sequence raws) ≡ none
    refused e = rw (e, from_storage)

    accepted :
        (d : Records)
        → restore_all raws [] ≡ some d
        → from_storage (sequence raws) ≡ some (record { records = d; changes = 0 })
    accepted d e = rw (e, from_storage)
