-- ===== src/Storage.antt =====
-- custom_components/nimly_manager/storage.py: `NimlySlotStorage`, the registries of all locks. The
-- `Store` of Home Assistant is what it was last given; a registry is shared with the runtime of its
-- lock, and is held here as the runtime has left it.
pub mod Restart
use nimly_manager.Base.{Option, none, some, is_some, List, [], ◌∷◌, map, if◌then◌else◌}
use nimly_manager.Base.Result.{Result, ok, err, Exec}
use nimly_manager.Text.{Text}
use nimly_manager.Dict.Texts.{lookup, insert, remove}
use nimly_manager.Slots.{FingerprintSlotRegistry, as_list}
use nimly_manager.Slots.Store.{RawData, mapping, sequence, not_sequence, from_storage}

-- The stored value of an entry: a dictionary by its key "slots", where a missing one is no sequence,
-- or another value.
pub data StoredEntry : Type 0 where
  slots : RawData → StoredEntry
  not_dictionary : StoredEntry

-- The dictionary of the key "entries".
abbrev pub Entries : Type 0
Entries = List (Text × StoredEntry)

pub record NimlySlotStorage : Type 0 where
  pub stored_entries : Entries
  pub registries : List (Text × FingerprintSlotRegistry)
  pub written : Option Entries

-- The OverflowError of `from_storage`.
pub data StorageError : Type 0 where
  overflow_error : StorageError

-- NimlySlotStorage() and async_load, with the entries where what was loaded has them
unfoldable pub async_load : Option Entries → NimlySlotStorage
async_load none = record { stored_entries = []; registries = []; written = none }
async_load (some entries) = record { stored_entries = entries; registries = []; written = none }

-- raw_entry.get("slots") if isinstance(raw_entry, dict) else None
abbrev pub raw_slots : Option StoredEntry → RawData
raw_slots none = not_sequence
raw_slots (some not_dictionary) = not_sequence
raw_slots (some (slots raw)) = raw

-- The registry of an entry that is restored now.
unfoldable pub keep_restored :
    Text
    → Option FingerprintSlotRegistry
    → Exec StorageError NimlySlotStorage FingerprintSlotRegistry
keep_restored entry_id none s = (err overflow_error, s)
keep_restored entry_id (some r) s = (ok r, record s { registries = insert entry_id r s.registries })

-- NimlySlotStorage.registry_for
unfoldable pub registry_for : Text → Exec StorageError NimlySlotStorage FingerprintSlotRegistry
unfolding keep_restored
registry_for entry_id s = elim (lookup entry_id s.registries) [
  | some r ↦ (ok r, s)
  | none ↦ keep_restored entry_id (from_storage (raw_slots (lookup entry_id s.stored_entries))) s
]

-- {"slots": registry.as_list()}
unfoldable pub entry_of : FingerprintSlotRegistry → StoredEntry
entry_of r = slots (sequence (map mapping (as_list r)))

unfoldable pub live_entries : List (Text × FingerprintSlotRegistry) → Entries
unfolding entry_of
live_entries [] = []
live_entries ((k, r) ∷ rs) = (k, entry_of r) ∷ live_entries rs

-- entries.setdefault(entry_id, value), for each stored entry
unfoldable pub set_defaults : Entries → Entries → Entries
set_defaults [] entries = entries
set_defaults ((k, v) ∷ more) entries =
    set_defaults more (if is_some (lookup k entries) then entries else insert k v entries)

-- NimlySlotStorage._serialize: the value of the key "entries"
unfoldable pub serialize : NimlySlotStorage → Entries
unfolding live_entries set_defaults
serialize s = set_defaults s.stored_entries (live_entries s.registries)

-- The write that `_schedule_save` asks for, once it is done.
unfoldable pub save : NimlySlotStorage → NimlySlotStorage
unfolding serialize
save s = record s { written = some (serialize s) }

-- NimlySlotStorage.async_remove_entry
unfoldable pub async_remove_entry : Text → NimlySlotStorage → NimlySlotStorage
unfolding save
async_remove_entry entry_id s = save (record s {
  registries = remove entry_id s.registries;
  stored_entries = remove entry_id s.stored_entries;
})
