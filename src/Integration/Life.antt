-- ===== src/Integration/Life.antt =====
-- Loading, unloading and removing a config entry of custom_components/nimly_manager/__init__.py, and
-- its set-up from the panel, keep the loaded locks consistent.
use mathlib.Core.Path.{subst}
use nimly_manager.Base.{
  ◌≡◌, refl, sym, ◌∙◌, ℕ, Bool, true, false, Option, none, some, arith, Bool-cases, Option-cases,
  inl, inr,
}
use nimly_manager.Base.Result.{Result, ok, err}
use nimly_manager.Base.Exec.{Keeps}
use nimly_manager.Text.{Text, text_eq, text_eq_iff}
use nimly_manager.Dict.Texts.{lookup, remove, lookup-insert, lookup-remove}
use nimly_manager.KeyStore.{Json, OwnerRecord}
use nimly_manager.Entries.{ConfigEntry, Options, state_topic}
use nimly_manager.Slots.{FingerprintSlotRegistry}
use nimly_manager.Slots.Store.{from_storage}
use nimly_manager.Storage
use nimly_manager.Storage.{
  NimlySlotStorage, StorageError, registry_for, keep_restored, raw_slots, save,
}
use nimly_manager.Runtime.{NimlyLockRuntime, new_runtime}
use nimly_manager.BleSetup.{SetupError, parse_owner_record, async_apply_ble_setup}
use nimly_manager.Home.{Home}
use nimly_manager.Integration.{
  add_runtime, subscribe, set_up, async_setup_entry, async_unload_entry, async_remove_entry,
  set_options, apply_setup, ble_setup_of, websocket_ble_setup,
}
use nimly_manager.Integration.Consistent.{IsConsistent, Settled}

-- A registry that is given is the entry's, and the registries that were there stay.
module _ (entry_id : Text) (s : NimlySlotStorage) where
  pub registry_for-given :
      (r : FingerprintSlotRegistry)
      → (registry_for entry_id s).0 ≡ ok r
      → lookup entry_id (registry_for entry_id s).1.registries ≡ some r
  unfolding registry_for keep_restored
  registry_for-given r h = elim (Option-cases (lookup entry_id s.registries)) [
    | inr (r', e) ↦ ground arith
    | inl e ↦ elim (Option-cases (from_storage (raw_slots (lookup entry_id s.stored_entries)))) [
      | inl f ↦ absurd (ground arith)
      | inr (r', f) ↦
          ground
            (arith, lookup-insert entry_id entry_id r' s.registries, text_eq_iff entry_id entry_id)
    ]
  ]

  pub registry_for-kept :
      (k : Text) (r : FingerprintSlotRegistry)
      → lookup k s.registries ≡ some r
      → lookup k (registry_for entry_id s).1.registries ≡ some r
  unfolding registry_for keep_restored
  registry_for-kept k r h = elim (Option-cases (lookup entry_id s.registries)) [
    | inr (r', e) ↦ ground arith
    | inl e ↦ elim (Option-cases (from_storage (raw_slots (lookup entry_id s.stored_entries)))) [
      | inl f ↦ ground arith
      | inr (r', f) ↦
          ground (arith, lookup-insert entry_id k r' s.registries, text_eq_iff entry_id k)
    ]
  ]

remove-IsConsistent :
    (entry_id : Text) (h : Home)
    → IsConsistent h
    → IsConsistent (record h { runtimes = remove entry_id h.runtimes })
remove-IsConsistent entry_id h c k r e = c k r (ground (arith, lookup-remove entry_id k h.runtimes))

pub async_unload_entry-IsConsistent :
    (entry_id : Text) (h : Home) → IsConsistent h → IsConsistent (async_unload_entry entry_id h)
unfolding async_unload_entry
async_unload_entry-IsConsistent entry_id h c = remove-IsConsistent entry_id h c

same_runtime : (a b : NimlyLockRuntime) → some a ≡ some b → a ≡ b
same_runtime a b h = ground arith

add_runtime-IsConsistent :
    (entry_id : Text) (e : ConfigEntry) (slots : FingerprintSlotRegistry) (h : Home)
    → lookup entry_id h.storage.registries ≡ some slots
    → IsConsistent h
    → IsConsistent (add_runtime entry_id e slots h)
add_runtime-IsConsistent entry_id e slots h shared c k r found =
    let rt = new_runtime (state_topic e.base_topic e.device_name) slots in
    let there = sym (lookup-insert entry_id k rt h.runtimes) ∙ found in
    elim (Bool-cases (text_eq entry_id k)) [
      | inl same ↦
          subst (Settled (add_runtime entry_id e slots h) k)
            (same_runtime rt r (ground (arith, there)))
            (refl, ground (arith, text_eq_iff entry_id k))
      | inr other ↦ c k r (ground (arith, there))
    ]

subscribe-Keeps :
    (entry_id : Text) (subscribes : Bool) → Keeps IsConsistent (subscribe entry_id subscribes)
subscribe-Keeps entry_id true h c = c
subscribe-Keeps entry_id false h c = remove-IsConsistent entry_id h c

set_up-IsConsistent :
    (entry_id : Text) (e : ConfigEntry) (subscribes : Bool)
    (found : Result StorageError FingerprintSlotRegistry) (h : Home)
    → ((slots : FingerprintSlotRegistry)
        → found ≡ ok slots
        → lookup entry_id h.storage.registries ≡ some slots)
    → IsConsistent h
    → IsConsistent (set_up entry_id e subscribes found h).1
set_up-IsConsistent entry_id e subscribes (err x) h given c = c
set_up-IsConsistent entry_id e subscribes (ok slots) h given c =
    subscribe-Keeps entry_id subscribes (add_runtime entry_id e slots h)
      (add_runtime-IsConsistent entry_id e slots h (given slots refl) c)

pub async_setup_entry-Keeps :
    (entry_id : Text) (e : ConfigEntry) (subscribes : Bool)
    → Keeps IsConsistent (async_setup_entry entry_id e subscribes)
unfolding async_setup_entry
async_setup_entry-Keeps entry_id e subscribes h c =
    let (found, storage) = registry_for entry_id h.storage in
    set_up-IsConsistent entry_id e subscribes found (record h { storage = storage })
      (registry_for-given entry_id h.storage)
      (λ k r there.
        let (one, registry) = c k r there in
        (one, registry_for-kept entry_id h.storage k r.slots registry))

-- An entry that is not loaded is removed.
pub async_remove_entry-IsConsistent :
    (entry_id : Text) (h : Home)
    → lookup entry_id h.runtimes ≡ none
    → IsConsistent h
    → IsConsistent (async_remove_entry entry_id h)
unfolding async_remove_entry Storage.async_remove_entry save
async_remove_entry-IsConsistent entry_id h gone c k r e =
    let (one, registry) = c k r e in
    (one, ground (arith, lookup-remove entry_id k h.storage.registries, text_eq_iff entry_id k))

set_options-IsConsistent :
    (entry_id : Text) (e : ConfigEntry) (applied : Result SetupError Options) (h : Home)
    → IsConsistent h
    → IsConsistent (set_options entry_id e applied h).1
set_options-IsConsistent entry_id e (err x) h c = c
set_options-IsConsistent entry_id e (ok options) h c = c

apply_setup-IsConsistent :
    (entry_id : Text) (e : ConfigEntry) (address : Text)
    (parsed : Result SetupError (Option OwnerRecord)) (h : Home)
    → IsConsistent h
    → IsConsistent (apply_setup entry_id e address parsed h).1
unfolding apply_setup
apply_setup-IsConsistent entry_id e address (err x) h c = c
apply_setup-IsConsistent entry_id e address (ok r) h c =
    let (applied, store) = async_apply_ble_setup entry_id e.options address r false h.owner_store in
    set_options-IsConsistent entry_id e applied (record h { owner_store = store }) c

ble_setup_of-IsConsistent :
    (loads : Text → Json) (now : ℕ) (entry_id : Text) (found : Option ConfigEntry) (address : Text)
    (pasted : Option Text) (h : Home)
    → IsConsistent h
    → IsConsistent (ble_setup_of loads now entry_id found address pasted h).1
unfolding ble_setup_of
ble_setup_of-IsConsistent loads now entry_id none address pasted h c = c
ble_setup_of-IsConsistent loads now entry_id (some e) address pasted h c =
    apply_setup-IsConsistent entry_id e address (parse_owner_record loads now pasted) h c

-- A set-up leaves the runtimes and the slots.
pub websocket_ble_setup-IsConsistent :
    (loads : Text → Json) (now : ℕ) (entry_id address : Text) (pasted : Option Text) (h : Home)
    → IsConsistent h
    → IsConsistent (websocket_ble_setup loads now entry_id address pasted h).1
unfolding websocket_ble_setup
websocket_ble_setup-IsConsistent loads now entry_id address pasted h c =
    ble_setup_of-IsConsistent loads now entry_id (lookup entry_id h.entries) address pasted h c
