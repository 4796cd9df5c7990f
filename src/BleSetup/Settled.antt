-- ===== src/BleSetup/Settled.antt =====
-- What a set-up of custom_components/nimly_manager/ble_setup.py leaves in the options of the entry and
-- in the owner key store.
use mathlib.Core.Path.{subst}
use nimly_manager.Base.{
  ◌≡◌, refl, ap, sym, Bool, true, false, Option, none, some, arith, if◌then◌else◌,
}
use nimly_manager.Base.Result.{Result, ok, err}
use nimly_manager.Base.Exec.{>>=-rest, pure, gets}
use nimly_manager.Text.{Text, text_eq, text_eq_iff}
use nimly_manager.Dict.Texts.{lookup-insert, lookup-remove}
use nimly_manager.KeyStore.{OwnerRecord}
use nimly_manager.Entries.{Options}
use nimly_manager.OwnerStore
use nimly_manager.OwnerStore.{NimlyOwnerKeyStore, async_save_record, async_remove, store_records}
use nimly_manager.Mac.{normalize_mac}
use nimly_manager.Mac.Laws.{IsMac, normalize_mac-IsMac}
use nimly_manager.BleSetup.{
  SetupError, import_record, change_key, with_address, apply_key, apply_at, async_apply_ble_setup,
  name_option,
}

-- The record of the entry after a set-up, beside the one before.
abbrev pub kept_record : Bool → Option OwnerRecord → Option OwnerRecord → Option OwnerRecord
kept_record true r old = none
kept_record false none old = old
kept_record false (some r) old = some r

-- The name in the options after a set-up.
abbrev pub kept_name : Bool → Option OwnerRecord → Option Text → Option Text
kept_name true r old = none
kept_name false none old = old
kept_name false (some r) old = name_option r

-- The outcome of a set-up of an entry with these options, over a store.
pub record IsSetUp (entry_id : Text) (old : Options) (r : Option OwnerRecord)
    (remove_owner_key : Bool) (before : NimlyOwnerKeyStore) (options : Options)
    (after : NimlyOwnerKeyStore) : Type 0 where
  pub mac : Text
  pub address : options.ble_address ≡ some mac
  pub valid : IsMac mac
  pub imported : options.owner_key_imported ≡ some (OwnerStore.has entry_id after)
  pub name : options.owner_name ≡ kept_name remove_owner_key r old.owner_name
  pub own :
      OwnerStore.get entry_id after
      ≡ kept_record remove_owner_key r (OwnerStore.get entry_id before)
  pub others :
      (other : Text)
      → text_eq entry_id other ≡ false
      → OwnerStore.get other after ≡ OwnerStore.get other before

-- What the branches on the key do, where they return.
abbrev IsChanged :
    Text
    → Options
    → Option OwnerRecord
    → Bool
    → NimlyOwnerKeyStore
    → Options
    → NimlyOwnerKeyStore
    → Type 0
IsChanged entry_id old r remove_owner_key before options after =
    (options.owner_name ≡ kept_name remove_owner_key r old.owner_name)
    × (OwnerStore.get entry_id after
        ≡ kept_record remove_owner_key r (OwnerStore.get entry_id before))
    × ((other : Text)
        → text_eq entry_id other ≡ false
        → OwnerStore.get other after ≡ OwnerStore.get other before)

get-async_remove :
    (k j : Text) (s : NimlyOwnerKeyStore)
    → OwnerStore.get j (async_remove k s) ≡ (if text_eq k j then none else OwnerStore.get j s)
unfolding OwnerStore.get async_remove store_records
get-async_remove k j s = ground (arith, lookup-remove k j s.records, text_eq_iff k j)

-- A refused record changes nothing, and one that is taken is the entry's.
get-import_record :
    (k j : Text) (r : OwnerRecord) (s : NimlyOwnerKeyStore)
    → (import_record k r s).0 ≡ ok tt
    → OwnerStore.get j (import_record k r s).1
      ≡ (if text_eq k j then some r else OwnerStore.get j s)
unfolding OwnerStore.get import_record async_save_record store_records
get-import_record k j r s h = ground (arith, lookup-insert k j r s.records, text_eq_iff k j)

pub import_record_refused :
    (k : Text) (r : OwnerRecord) (s : NimlyOwnerKeyStore) (e : _)
    → (import_record k r s).0 ≡ err e
    → (import_record k r s).1 ≡ s
unfolding import_record async_save_record
import_record_refused k r s e h = ground arith

abbrev Outcome : Type 0
Outcome = Result SetupError Options × NimlyOwnerKeyStore

named_by :
    (r : OwnerRecord) (old options : Options) (x : Result SetupError Options)
    → x ≡ ok (record old { owner_name = name_option r })
    → x ≡ ok options
    → options.owner_name ≡ name_option r
named_by r old options x h k = ground arith

change_key-IsChanged :
    (k : Text) (old : Options) (r : Option OwnerRecord) (remove_owner_key : Bool)
    (s : NimlyOwnerKeyStore) (options : Options)
    → (change_key k remove_owner_key r old s).0 ≡ ok options
    → IsChanged k old r remove_owner_key s options (change_key k remove_owner_key r old s).1
unfolding change_key
change_key-IsChanged k old r true s options h = (
  ground arith,
  ground (arith, get-async_remove k k s, text_eq_iff k k),
  λ j e. ground (arith, get-async_remove k j s),
)
change_key-IsChanged k old none false s options h = (ground arith, refl, λ j e. refl)
change_key-IsChanged k old (some r) false s options h =
    let (a, taken, rest) =
      >>=-rest (import_record k r) (λ _. pure (record old { owner_name = name_option r })) s options
        h in
    subst (λ (x : Outcome). IsChanged k old (some r) false s options x.1) (sym rest)
      (
        named_by r old options (change_key k false (some r) old s).0
            (ap (λ (x : Outcome). x.0) rest) h,
        ground (arith, get-import_record k k r s taken, text_eq_iff k k),
        λ j e. ground (arith, get-import_record k j r s taken),
      )

ok_inj : (x y : Options) → ◌≡◌ {A = Result SetupError Options} (ok x) (ok y) → x ≡ y
ok_inj x y h = ground arith

-- The address and the flag that are set last.
settled :
    (k mac : Text) (old : Options) (r : Option OwnerRecord) (remove_owner_key : Bool)
    (s : NimlyOwnerKeyStore) (changed : Options) (after : NimlyOwnerKeyStore)
    → IsMac mac
    → IsChanged k old r remove_owner_key s changed after
    → IsSetUp k old r remove_owner_key s (with_address k mac changed after) after
settled k mac old r remove_owner_key s changed after valid (name, own, others) = record {
  mac = mac;
  address = refl;
  valid = valid;
  imported = refl;
  name = name;
  own = own;
  others = others;
}

apply_key-IsSetUp :
    (k mac : Text) (old : Options) (r : Option OwnerRecord) (remove_owner_key : Bool)
    (s : NimlyOwnerKeyStore) (options : Options)
    → IsMac mac
    → (apply_key k old mac r remove_owner_key s).0 ≡ ok options
    → IsSetUp k old r remove_owner_key s options (apply_key k old mac r remove_owner_key s).1
unfolding apply_key
apply_key-IsSetUp k mac old r remove_owner_key s options valid h =
    let m = change_key k remove_owner_key r old in
    let (changed, e, rest) = >>=-rest m (λ c. gets (with_address k mac c)) s options h in
    subst (λ (x : Outcome). x.0 ≡ ok options → IsSetUp k old r remove_owner_key s options x.1)
      (sym rest)
      (λ same.
        subst (λ o. IsSetUp k old r remove_owner_key s o (m s).1) (ok_inj _ options same)
          (settled k mac old r remove_owner_key s changed (m s).1 valid
            (change_key-IsChanged k old r remove_owner_key s changed e)))
      h

apply_at-IsSetUp :
    (k : Text) (old : Options) (normalized : Option Text) (r : Option OwnerRecord)
    (remove_owner_key : Bool) (s : NimlyOwnerKeyStore) (options : Options)
    → ((mac : Text) → normalized ≡ some mac → IsMac mac)
    → (apply_at k old normalized r remove_owner_key s).0 ≡ ok options
    → IsSetUp k old r remove_owner_key s options (apply_at k old normalized r remove_owner_key s).1
unfolding apply_at
apply_at-IsSetUp k old none r remove_owner_key s options valid h = absurd (ground arith)
apply_at-IsSetUp k old (some mac) r remove_owner_key s options valid h =
    apply_key-IsSetUp k mac old r remove_owner_key s options (valid mac refl) h

-- A set-up that returns leaves the options with an address in its normal form, with whether the entry
-- has a record, and with the name of the record that was given, if any; the entry then has that record,
-- none where the key was to be removed, and else the one it had. No other entry's record changes.
pub async_apply_ble_setup-IsSetUp :
    (entry_id address : Text) (old : Options) (r : Option OwnerRecord) (remove_owner_key : Bool)
    (s : NimlyOwnerKeyStore) (options : Options)
    → (async_apply_ble_setup entry_id old address r remove_owner_key s).0 ≡ ok options
    → IsSetUp entry_id old r remove_owner_key s options
        (async_apply_ble_setup entry_id old address r remove_owner_key s).1
unfolding async_apply_ble_setup
async_apply_ble_setup-IsSetUp k address old r remove_owner_key s options h =
    apply_at-IsSetUp k old (normalize_mac address) r remove_owner_key s options
      (λ mac e. (normalize_mac-IsMac address mac e).0) h
