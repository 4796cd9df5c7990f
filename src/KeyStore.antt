-- ===== src/KeyStore.antt =====
-- custom_components/nimly_manager/nimly_ble/keystore.py: the owner credential of a lock, the check of
-- an imported one, and the files that keep them. A JSON text is given as what `json.loads` makes of
-- it, and a file as the value that was written to it; `time.time()` is an argument, in microseconds.
-- Lock addresses are ASCII and hold no dot, so the names of the two kinds of files differ.
pub mod Laws
pub mod Dictionary
use nimly_manager.Base.{
  ℕ, ◌+◌, ◌-◌, ◌^◌, Bool, true, false, not, ◌&&◌, Option, none, some, is_some, List, [], ◌∷◌, ◌++◌,
  ◌==◌, ltb, leb, Bytes, length, if◌then◌else◌,
}
use nimly_manager.Base.Int.{ℤ, pos, negsuc}
use nimly_manager.Base.Result.{Result, ok, err, Exec, ◌>>=◌, ◌>>◌, raise_if}
use nimly_manager.Text.{Text, text, text_eq, lower, without}
use nimly_manager.Text.Hex.{from_hex}
use nimly_manager.Text.Floating.{is_float_text}
use nimly_manager.Value
use nimly_manager.Value.{Value, Fields, null, bool, int, float, str, other, str_of}
use nimly_manager.Dict.Texts.{lookup, insert}

pub data KeyStoreError : Type 0 where
  invalid_json not_object missing_field bad_owner_key bad_device_id : KeyStoreError
  not_enrolled : Text → KeyStoreError
  -- the OverflowError of `float`, which `owner_record_from_json` does not catch
  overflow_error : KeyStoreError
  -- the OSError of a system call
  disk_error : KeyStoreError

-- A time of a record: a reading of the clock, or `float(value)` of a value that is accepted.
pub data Stamp : Type 0 where
  clock : ℕ → Stamp
  float_of : Value → Stamp

pub record OwnerRecord : Type 0 where
  pub lock_address : Text
  pub device_id_hex : Text
  pub owner_key_hex : Text
  pub stage : Text
  pub server_private_pem : Text
  pub name : Text
  pub created : Stamp
  pub updated : Stamp

-- OwnerRecord.owner_key; `none` where it raises ValueError
unfoldable pub owner_key : OwnerRecord → Option Bytes
owner_key r = from_hex r.owner_key_hex

-- OwnerRecord.device_id; `none` where it raises ValueError
unfoldable pub device_id : OwnerRecord → Option Bytes
device_id r = from_hex r.device_id_hex

-- What `json.loads` gives: it raises, or the value is an object, or it is another value.
pub data Json : Type 0 where
  malformed not_an_object : Json
  object : Fields → Json

-- Whether float(value) returns, and what it raises.
pub data FloatOutcome : Type 0 where
  returns refuses overflows : FloatOutcome

-- The first integer that a float is too small for.
unfoldable pub float_limit : ℕ
float_limit = 2 ^ 1024 - 2 ^ 970

abbrev size_of : ℤ → ℕ
size_of (pos n) = n
size_of (negsuc n) = n + 1

unfoldable pub to_float : Value → FloatOutcome
unfolding float_limit is_float_text
to_float null = refuses
to_float (bool b) = returns
to_float (int n) = if ltb (size_of n) float_limit then returns else overflows
to_float (float f) = returns
to_float (str s) = if is_float_text s then returns else refuses
to_float (other s) = refuses

-- str(data[key])
unfoldable pub text_field : Text → Fields → Result KeyStoreError Text
text_field key fields = elim (Value.get key fields) [
  | none ↦ err missing_field
  | some v ↦ ok (str_of v)
]

-- str(data.get(key, ""))
unfoldable pub text_or_empty : Text → Fields → Text
text_or_empty key fields = elim (Value.get key fields) [ none ↦ [] | some v ↦ str_of v ]

-- float(data.get(key, time.time()))
unfoldable pub stamp_field : Text → Fields → ℕ → Result KeyStoreError Stamp
unfolding to_float
stamp_field key fields now = elim (Value.get key fields) [
  | none ↦ ok (clock now)
  | some v ↦ elim (to_float v) [
    | returns ↦ ok (float_of v)
    | refuses ↦ err missing_field
    | overflows ↦ err overflow_error
  ]
]

-- _is_hex
unfoldable pub is_hex : Text → ℕ → Bool
is_hex value len = if not (length value == len) then false else is_some (from_hex value)

-- The `try` of `owner_record_from_json`.
unfoldable pub read_record : Fields → ℕ → Result KeyStoreError OwnerRecord
unfolding text_field text_or_empty stamp_field
read_record fields now = do
  lock_address ← text_field (text "lock_address") fields
  device_id_hex ← text_field (text "device_id_hex") fields
  owner_key_hex ← text_field (text "owner_key_hex") fields
  stage ← text_field (text "stage") fields
  created ← stamp_field (text "created") fields now
  updated ← stamp_field (text "updated") fields now
  ok (record {
    lock_address = lock_address;
    device_id_hex = lower device_id_hex;
    owner_key_hex = lower owner_key_hex;
    stage = stage;
    server_private_pem = text_or_empty (text "server_private_pem") fields;
    name = text_or_empty (text "name") fields;
    created = created;
    updated = updated;
  })

-- The three tests of `owner_record_from_json` on the record.
unfoldable pub check_record : OwnerRecord → Result KeyStoreError OwnerRecord
unfolding is_hex
check_record r = do
  raise_if (not (is_hex r.owner_key_hex 32)) bad_owner_key
  raise_if (not (is_hex r.device_id_hex 12)) bad_device_id
  raise_if (not (text_eq r.stage (text "enrolled"))) (not_enrolled r.stage)
  ok r

unfoldable pub owner_record_from_json : Json → ℕ → Result KeyStoreError OwnerRecord
unfolding read_record check_record
owner_record_from_json malformed now = err invalid_json
owner_record_from_json not_an_object now = err not_object
owner_record_from_json (object fields) now = do r ← read_record fields now; check_record r

-- A file that `mark_preflight` writes: its time, and the entry of its report that is read again.
pub record Preflight : Type 0 where
  pub at : ℕ
  pub default_owner_auth : Bool

-- The files of the directory, by their names.
pub record OwnerKeyStore : Type 0 where
  pub owners : List (Text × OwnerRecord)
  pub preflights : List (Text × Preflight)

abbrev or_unknown : Text → Text
or_unknown [] = text "unknown"
or_unknown (c ∷ cs) = c ∷ cs

abbrev safe_name : Text → Text
safe_name lock_address = or_unknown (lower (without b'-' (without b':' lock_address)))

-- OwnerKeyStore.path_for, without the directory
unfoldable pub path_for : Text → Text
path_for lock_address = text "owner-" ++ (safe_name lock_address ++ text ".json")

-- OwnerKeyStore.preflight_path
unfoldable pub preflight_path : Text → Text
preflight_path lock_address = text "owner-" ++ (safe_name lock_address ++ text ".preflight.json")

-- Where a system call of `_atomic_write` raises, if one does: before the file is replaced, or after.
pub data Disk : Type 0 where
  sound before_replace after_replace : Disk

-- _atomic_write; the file beside it, with the suffix ".tmp", is never read
unfoldable pub atomic_write :
    {A : Type 0} → Disk → Text → A → Exec KeyStoreError (List (Text × A)) (Unit {0})
atomic_write sound path payload files = (ok tt, insert path payload files)
atomic_write before_replace path payload files = (err disk_error, files)
atomic_write after_replace path payload files = (err disk_error, insert path payload files)

-- OwnerKeyStore.save: the record as it is left, and the files
unfoldable pub save : Disk → ℕ → OwnerRecord → Exec KeyStoreError OwnerKeyStore OwnerRecord
unfolding atomic_write
save disk now r store =
    let stamped = record r { updated = clock now } in
    let (written, owners) = atomic_write disk (path_for r.lock_address) stamped store.owners in
    (do written; ok stamped, record store { owners = owners })

-- OwnerKeyStore.load
unfoldable pub load : Text → OwnerKeyStore → Option OwnerRecord
load lock_address store = lookup (path_for lock_address) store.owners

-- OwnerKeyStore.exists
unfoldable pub exists : Text → OwnerKeyStore → Bool
exists lock_address store = is_some (lookup (path_for lock_address) store.owners)

-- OwnerKeyStore.mark_preflight, for the entry of the report that is read again
unfoldable pub mark_preflight : Disk → Text → Bool → ℕ → Exec KeyStoreError OwnerKeyStore (Unit {0})
unfolding atomic_write
mark_preflight disk lock_address default_owner_auth now store =
    let (written, preflights) =
      atomic_write disk (preflight_path lock_address)
        (record { at = now; default_owner_auth = default_owner_auth }) store.preflights in
    (written, record store { preflights = preflights })

-- PREFLIGHT_VALID_SECONDS, in microseconds
abbrev pub preflight_valid : ℕ
preflight_valid = 1800000000

-- OwnerKeyStore.preflight_passed_recently; a time after `now` counts as recent, as in the source
unfoldable pub preflight_passed_recently : Text → ℕ → OwnerKeyStore → Bool
preflight_passed_recently lock_address now store =
    elim (lookup (preflight_path lock_address) store.preflights) [
      | none ↦ false
      | some p ↦ p.default_owner_auth && leb (now - p.at) preflight_valid
    ]
