-- ===== src/Storage/Restart.antt =====
-- What a restart of Home Assistant keeps of the registries:
-- custom_components/nimly_manager/storage.py.
use nimly_manager.Base.{
  ◌≡◌, refl, ap, ◌∙◌, none, some, is_some, List, [], ◌∷◌, arith, Option-cases, inl, inr,
  if◌then◌else◌,
}
use nimly_manager.Base.Int.{ℤ}
use nimly_manager.Base.Result.{ok}
use nimly_manager.Text.{Text, text_eq_iff}
use nimly_manager.Dict.Texts.{lookup, insert, remove, lookup-insert, lookup-remove}
use nimly_manager.Slots.{FingerprintSlotRegistry, get}
use nimly_manager.Slots.Store.{from_storage}
use nimly_manager.Slots.Invariant.{IsRecords}
use nimly_manager.Slots.RoundTrip.{AreStorable, from_storage-as_list}
use nimly_manager.Storage.{
  Entries, NimlySlotStorage, async_load, raw_slots, keep_restored, registry_for, entry_of,
  live_entries, set_defaults, serialize, save, async_remove_entry,
}

lookup-live_entries :
    (k : Text) (r : FingerprintSlotRegistry) (rs : List (Text × FingerprintSlotRegistry))
    → lookup k rs ≡ some r
    → lookup k (live_entries rs) ≡ some (entry_of r)
unfolding lookup live_entries
lookup-live_entries k r [] h = absurd (ground arith)
lookup-live_entries k r ((j, x) ∷ rs) h = ground (arith, lookup-live_entries k r rs)

lookup-live_none :
    (k : Text) (rs : List (Text × FingerprintSlotRegistry))
    → lookup k rs ≡ none
    → lookup k (live_entries rs) ≡ none
unfolding lookup live_entries
lookup-live_none k [] h = refl
lookup-live_none k ((j, x) ∷ rs) h = ground (arith, lookup-live_none k rs)

-- A key that is there keeps its value, and one that is not takes the stored one.
lookup-set_defaults :
    (k : Text) (more entries : Entries)
    → lookup k (set_defaults more entries)
      ≡ (if is_some (lookup k entries) then lookup k entries else lookup k more)
unfolding set_defaults lookup
lookup-set_defaults k [] entries = elim (Option-cases (lookup k entries)) [
  | inl e ↦ ground arith
  | inr (v, e) ↦ ground arith
]
lookup-set_defaults k ((j, v) ∷ more) entries = elim (Option-cases (lookup j entries)) [
  | inl e ↦ ground (
    arith,
    text_eq_iff j k,
    lookup-insert j k v entries,
    lookup-set_defaults k more (insert j v entries),
  )
  | inr (w, e) ↦ ground (arith, text_eq_iff j k, lookup-set_defaults k more entries)
]

-- What is saved of an entry: its live registry, or else what was stored.
serialized_live :
    (k : Text) (r : FingerprintSlotRegistry) (s : NimlySlotStorage)
    → lookup k s.registries ≡ some r
    → lookup k (serialize s) ≡ some (entry_of r)
unfolding serialize
serialized_live k r s h =
    let live = lookup-live_entries k r s.registries h in
    ground (arith, lookup-set_defaults k s.stored_entries (live_entries s.registries))

-- An entry whose registry was never asked for keeps its stored value.
pub serialized_stored :
    (k : Text) (s : NimlySlotStorage)
    → lookup k s.registries ≡ none
    → lookup k (serialize s) ≡ lookup k s.stored_entries
unfolding serialize
serialized_stored k s h =
    let absent = lookup-live_none k s.registries h in
    ground (arith, lookup-set_defaults k s.stored_entries (live_entries s.registries))

-- A removed entry is neither live nor saved.
pub async_remove_entry_gone :
    (k : Text) (s : NimlySlotStorage)
    → (lookup k (async_remove_entry k s).registries ≡ none)
      × (lookup k (serialize (async_remove_entry k s)) ≡ none)
unfolding async_remove_entry save
async_remove_entry_gone k s =
    let live : lookup k (remove k s.registries) ≡ none =
      ground (arith, lookup-remove k k s.registries, text_eq_iff k k) in
    let stored : lookup k (remove k s.stored_entries) ≡ none =
      ground (arith, lookup-remove k k s.stored_entries, text_eq_iff k k) in
    (live, serialized_stored k (async_remove_entry k s) live ∙ stored)

restored_entry :
    (k : Text) (entries : Entries) (r : FingerprintSlotRegistry)
    → from_storage (raw_slots (lookup k entries)) ≡ some r
    → (registry_for k (async_load (some entries))).0 ≡ ok r
unfolding registry_for async_load keep_restored lookup
restored_entry k entries r h = rw h refl

-- A live registry that is well formed and whose texts are clean survives a restart: after a save, a
-- storage that loads what was written gives, for its entry, a registry in which every slot has the
-- record that it had.
pub registry_for-save :
    (k : Text) (r : FingerprintSlotRegistry) (s : NimlySlotStorage)
    → lookup k s.registries ≡ some r
    → IsRecords r.records
    → AreStorable r.records
    → (r' : FingerprintSlotRegistry) × ((registry_for k (async_load (save s).written)).0 ≡ ok r')
      × ((slot : ℤ) → get slot r' ≡ get slot r)
unfolding save get entry_of
registry_for-save k r s live v a =
    let (r', restored, _, same) = from_storage-as_list r v a in
    let found = ap (λ e. from_storage (raw_slots e)) (serialized_live k r s live) in
    (r', restored_entry k (serialize s) r' (found ∙ restored), same)
