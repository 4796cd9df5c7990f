-- ===== src/OwnerStore.antt =====
-- custom_components/nimly_manager/owner_store.py: `NimlyOwnerKeyStore`, the owner records by config
-- entry. Its file, which the `Store` of Home Assistant keeps, holds what was last saved.
pub mod Refines
use nimly_manager.Base.{
  ℕ, Bool, true, false, not, Option, none, some, is_some, List, [], ◌∷◌, if◌then◌else◌,
}
use nimly_manager.Base.Result.{Exec, ok, err}
use nimly_manager.Text.{Text, text, text_eq}
use nimly_manager.Dict.Texts.{lookup, insert, remove}
use nimly_manager.KeyStore.{OwnerRecord, KeyStoreError, not_enrolled}
use nimly_manager.KeyStore.Dictionary.{Arguments, from_arguments, as_dict}

-- A value of the dictionary "locks": a dictionary with keys that are fields of a record, one with
-- another key, or another value.
pub data StoredLock : Type 0 where
  arguments : Arguments → StoredLock
  unknown_key not_dictionary : StoredLock

abbrev pub Locks : Type 0
Locks = List (Text × StoredLock)

-- The records, and the dictionary "locks" of the file, where it has one.
pub record NimlyOwnerKeyStore : Type 0 where
  pub records : List (Text × OwnerRecord)
  pub file : Option Locks

-- The record of a stored value; `none` where the loop of `async_load` continues.
abbrev pub parsed : ℕ → StoredLock → Option OwnerRecord
parsed now (arguments a) = from_arguments now a
parsed now unknown_key = none
parsed now not_dictionary = none

abbrev keep : Text → Option OwnerRecord → List (Text × OwnerRecord) → List (Text × OwnerRecord)
keep entry_id none records = records
keep entry_id (some r) records = insert entry_id r records

-- The loop of `async_load`.
unfoldable pub load_all : ℕ → Locks → List (Text × OwnerRecord) → List (Text × OwnerRecord)
load_all now [] records = records
load_all now ((entry_id, raw) ∷ locks) records =
    load_all now locks (keep entry_id (parsed now raw) records)

abbrev pub loaded : ℕ → Option Locks → List (Text × OwnerRecord)
loaded now none = []
loaded now (some locks) = load_all now locks []

-- NimlyOwnerKeyStore() and async_load, at a time
unfoldable pub async_load : ℕ → Option Locks → NimlyOwnerKeyStore
unfolding load_all
async_load now file = record { records = loaded now file; file = file }

unfoldable pub get : Text → NimlyOwnerKeyStore → Option OwnerRecord
get entry_id s = lookup entry_id s.records

unfoldable pub has : Text → NimlyOwnerKeyStore → Bool
has entry_id s = is_some (lookup entry_id s.records)

-- NimlyOwnerKeyStore._serialize: the dictionary "locks"
unfoldable pub serialize : List (Text × OwnerRecord) → Locks
unfolding as_dict
serialize [] = []
serialize ((entry_id, r) ∷ records) = (entry_id, arguments (as_dict r)) ∷ serialize records

-- self._records, and the save of it
unfoldable pub store_records : List (Text × OwnerRecord) → NimlyOwnerKeyStore
unfolding serialize
store_records records = record { records = records; file = some (serialize records) }

unfoldable pub async_save_record :
    Text → OwnerRecord → Exec KeyStoreError NimlyOwnerKeyStore (Unit {0})
unfolding store_records
async_save_record entry_id r s =
    if not (text_eq r.stage (text "enrolled"))
    then (err (not_enrolled r.stage), s)
    else (ok tt, store_records (insert entry_id r s.records))

unfoldable pub async_remove : Text → NimlyOwnerKeyStore → NimlyOwnerKeyStore
unfolding store_records
async_remove entry_id s =
    if is_some (lookup entry_id s.records) then store_records (remove entry_id s.records) else s
