-- ===== src/KeyStore/Laws.antt =====
-- What an imported owner record is sure to be, and what the store finds again:
-- custom_components/nimly_manager/nimly_ble/keystore.py.
use mathlib.Core.Path.{subst}
use nimly_manager.Base.{
  ℕ, ◌≡◌, refl, ap, ◌∙◌, Bool, true, false, ◌&&◌, some, Bytes, length, length-replicate, arith,
  replicate, Option-cases, inl, inr, if◌then◌else◌,
}
use nimly_manager.Base.Result.{ok, Result-cases}
use nimly_manager.Text.{Text, text, text_eq, text_eq_iff}
use nimly_manager.Text.Hex.{from_hex, spaceless, length-from_hex, from_hex_spaces}
use nimly_manager.Dict.Texts.{lookup-insert}
use nimly_manager.KeyStore.{
  Json, malformed, not_an_object, object, OwnerRecord, OwnerKeyStore, owner_key, device_id, is_hex,
  read_record, check_record, owner_record_from_json, path_for, save, load, clock, Disk, sound,
  before_replace, after_replace,
}

-- What the tests of an imported record make sure of.
pub record IsImportable (r : OwnerRecord) : Type 0 where
  pub stage : r.stage ≡ text "enrolled"
  pub key : (bytes : Bytes) × (owner_key r ≡ some bytes)
  pub id : (bytes : Bytes) × (device_id r ≡ some bytes)
  pub key_size : length r.owner_key_hex ≡ 32
  pub id_size : length r.device_id_hex ≡ 12

pub is_hex_bytes :
    (value : Text) (n : ℕ)
    → is_hex value n ≡ true
    → (length value ≡ n) × ((bytes : Bytes) × (from_hex value ≡ some bytes))
unfolding is_hex
is_hex_bytes value n h = elim (Option-cases (from_hex value)) [
  | inl e ↦ absurd (ground arith)
  | inr (bytes, e) ↦ (ground arith, (bytes, e))
]

-- What a record has that `check_record` lets through, which is the record it returns.
abbrev Passed : OwnerRecord → OwnerRecord → Type 0
Passed q r =
    (q ≡ r)
    × (is_hex q.owner_key_hex 32 ≡ true)
    × (is_hex q.device_id_hex 12 ≡ true)
    × (text_eq q.stage (text "enrolled") ≡ true)

check_record-Passed : (q r : OwnerRecord) → check_record q ≡ ok r → Passed q r
unfolding check_record
check_record-Passed q r h = ground arith

importable :
    (q : OwnerRecord)
    → is_hex q.owner_key_hex 32 ≡ true
    → is_hex q.device_id_hex 12 ≡ true
    → text_eq q.stage (text "enrolled") ≡ true
    → IsImportable q
unfolding owner_key device_id
importable q a b c =
    let (key_size, key) = is_hex_bytes q.owner_key_hex 32 a in
    let (id_size, id) = is_hex_bytes q.device_id_hex 12 b in
    record {
      stage = (text_eq_iff q.stage (text "enrolled")).0 c;
      key = key;
      id = id;
      key_size = key_size;
      id_size = id_size;
    }

check_record-IsImportable : (q r : OwnerRecord) → check_record q ≡ ok r → IsImportable r
check_record-IsImportable q r h =
    let (e, a, b, c) = check_record-Passed q r h in subst IsImportable e (importable q a b c)

-- Refused is every record that is not complete: whatever `owner_record_from_json` returns, has the
-- stage "enrolled", a key of 32 characters and a device id of 12 that `fromhex` both accepts.
pub owner_record_from_json-IsImportable :
    (json : Json) (now : ℕ) (r : OwnerRecord)
    → owner_record_from_json json now ≡ ok r
    → IsImportable r
unfolding owner_record_from_json
owner_record_from_json-IsImportable malformed now r h = absurd (ground arith)
owner_record_from_json-IsImportable not_an_object now r h = absurd (ground arith)
owner_record_from_json-IsImportable (object fields) now r h =
    elim (Result-cases (read_record fields now)) [
      | inl (e, k) ↦ absurd (ground arith)
      | inr (q, k) ↦ check_record-IsImportable q r (ground arith)
    ]

-- A key without spaces has 16 bytes.
pub owner_key-length :
    (r : OwnerRecord) (bytes : Bytes)
    → IsImportable r
    → spaceless r.owner_key_hex ≡ true
    → owner_key r ≡ some bytes
    → length bytes ≡ 16
unfolding owner_key
owner_key-length r bytes i h e =
    let l = length-from_hex r.owner_key_hex bytes h e in let k = i.key_size in omega arith

-- Spaces alone pass the test for hexadecimal digits.
pub is_hex_spaces : (n : ℕ) → is_hex (replicate n 32) n ≡ true
unfolding is_hex
is_hex_spaces n = ground (arith, length-replicate {A = ℕ} n 32, from_hex_spaces n)

-- Whether `atomic_write` puts the new file in place.
abbrev pub replaces : Disk → Bool
replaces before_replace = false
replaces _ = true

-- After save, the file that path_for names for the record holds the record, stamped, where it was
-- replaced; every other file, and each file of a write that failed before, is as it was.
pub load-save :
    (disk : Disk) (now : ℕ) (r : OwnerRecord) (store : OwnerKeyStore) (address : Text)
    → load address (save disk now r store).1 ≡ (
        if replaces disk && text_eq (path_for r.lock_address) (path_for address)
        then some (record r { updated = clock now })
        else load address store)
unfolding load save
load-save sound now r store address =
    lookup-insert (path_for r.lock_address) (path_for address) (record r { updated = clock now })
      store.owners
load-save before_replace now r store address = refl
load-save after_replace now r store address =
    lookup-insert (path_for r.lock_address) (path_for address) (record r { updated = clock now })
      store.owners

-- What save goes on with, where it returns.
pub save-returned :
    (disk : Disk) (now : ℕ) (r q : OwnerRecord) (store : OwnerKeyStore)
    → (save disk now r store).0 ≡ ok q
    → q ≡ record r { updated = clock now }
unfolding save
save-returned sound now r q store h = ground arith
save-returned before_replace now r q store h = absurd (ground arith)
save-returned after_replace now r q store h = absurd (ground arith)

-- Where save returns, the store loads the record that it returns.
pub load-saved :
    (disk : Disk) (now : ℕ) (q r : OwnerRecord) (store : OwnerKeyStore) (address : Text)
    → q.lock_address ≡ address
    → (save disk now q store).0 ≡ ok r
    → load address (save disk now q store).1 ≡ some r
unfolding save
load-saved before_replace now q r store address a h = absurd (ground arith)
load-saved after_replace now q r store address a h = absurd (ground arith)
load-saved sound now q r store address a h =
    let same : text_eq (path_for q.lock_address) (path_for address) ≡ true =
      (text_eq_iff (path_for q.lock_address) (path_for address)).1 (ap path_for a) in
    let l = load-save sound now q store address in
    let e = save-returned sound now q r store h in ground arith

-- A record that a write puts in place is loaded.
pub load-put :
    (disk : Disk) (now : ℕ) (r : OwnerRecord) (store : OwnerKeyStore) (address : Text)
    → replaces disk ≡ true
    → r.lock_address ≡ address
    → load address (save disk now r store).1 ≡ some (record r { updated = clock now })
load-put disk now r store address put a =
    let same : text_eq (path_for r.lock_address) (path_for address) ≡ true =
      (text_eq_iff (path_for r.lock_address) (path_for address)).1 (ap path_for a) in
    load-save disk now r store address ∙ ground arith
