-- ===== src/BleSetup/Refused.antt =====
-- Which set-ups of custom_components/nimly_manager/ble_setup.py return, and what one that raises leaves.
use mathlib.Core.Path.{subst}
use nimly_manager.Base.{
  ◌≡◌, refl, ap, ℕ, Bool, true, false, Option, none, some, arith, inl, inr, Bool-cases,
}
use nimly_manager.Base.Result.{Result, ok, err}
use nimly_manager.Base.Exec.{>>=-returned, gets}
use nimly_manager.Text.{Text, text, text_eq, text_eq_iff, strip}
use nimly_manager.Request.{is_empty}
use nimly_manager.KeyStore.{OwnerRecord, KeyStoreError, Json, owner_record_from_json}
use nimly_manager.KeyStore.Laws.{IsImportable, owner_record_from_json-IsImportable}
use nimly_manager.Entries.{Options}
use nimly_manager.OwnerStore.{NimlyOwnerKeyStore, async_save_record}
use nimly_manager.Mac.{normalize_mac}
use nimly_manager.BleSetup.{
  SetupError, import_record, change_key, with_address, apply_key, apply_at, async_apply_ble_setup,
  parse_outcome, parse_owner_record, or_empty, name_option,
}

change_key_refused :
    (k : Text) (old : Options) (r : Option OwnerRecord) (remove_owner_key : Bool)
    (s : NimlyOwnerKeyStore) (e : SetupError)
    → (change_key k remove_owner_key r old s).0 ≡ err e
    → (change_key k remove_owner_key r old s).1 ≡ s
unfolding change_key import_record async_save_record
change_key_refused k old r true s e h = absurd (ground arith)
change_key_refused k old none false s e h = refl
change_key_refused k old (some r) false s e h = ground arith

apply_key_refused :
    (k mac : Text) (old : Options) (r : Option OwnerRecord) (remove_owner_key : Bool)
    (s : NimlyOwnerKeyStore) (e : SetupError)
    → (apply_key k old mac r remove_owner_key s).0 ≡ err e
    → (apply_key k old mac r remove_owner_key s).1 ≡ s
unfolding apply_key
apply_key_refused k mac old r remove_owner_key s e h =
    ground (arith, change_key_refused k old r remove_owner_key s e)

apply_at_refused :
    (k : Text) (old : Options) (normalized : Option Text) (r : Option OwnerRecord)
    (remove_owner_key : Bool) (s : NimlyOwnerKeyStore) (e : SetupError)
    → (apply_at k old normalized r remove_owner_key s).0 ≡ err e
    → (apply_at k old normalized r remove_owner_key s).1 ≡ s
unfolding apply_at
apply_at_refused k old none r remove_owner_key s e h = refl
apply_at_refused k old (some mac) r remove_owner_key s e h =
    apply_key_refused k mac old r remove_owner_key s e h

-- The record that is set up, where one is, is enrolled.
abbrev IsReady : Option OwnerRecord → Type 0
IsReady none = Unit
IsReady (some r) = text_eq r.stage (text "enrolled") ≡ true

same_option :
    (o r : Option OwnerRecord)
    → ◌≡◌ {A = Result SetupError (Option OwnerRecord)} (ok o) (ok r)
    → o ≡ r
same_option o r h = ground arith

same_IsReady :
    (o r : Option OwnerRecord)
    → ◌≡◌ {A = Result SetupError (Option OwnerRecord)} (ok o) (ok r)
    → IsReady o
    → IsReady r
same_IsReady o r h p = subst IsReady (same_option o r h) p

parse_outcome-IsReady :
    (json : Json) (now : ℕ) (r : Option OwnerRecord)
    → parse_outcome (owner_record_from_json json now) ≡ ok r
    → IsReady r
parse_outcome-IsReady json now r h = going (owner_record_from_json json now) refl h
  where
    going :
        (parsed : Result KeyStoreError OwnerRecord)
        → owner_record_from_json json now ≡ parsed
        → parse_outcome parsed ≡ ok r
        → IsReady r
    going (ok q) e k = same_IsReady (some q) r k (
        (text_eq_iff q.stage (text "enrolled")).1
          (IsImportable.stage (owner_record_from_json-IsImportable json now q e)))
    going (err e') e k = absurd (ground arith)

parse_owner_record-IsReady :
    (loads : Text → Json) (now : ℕ) (pasted : Option Text) (r : Option OwnerRecord)
    → parse_owner_record loads now pasted ≡ ok r
    → IsReady r
unfolding parse_owner_record
parse_owner_record-IsReady loads now pasted r h =
    let t = strip (or_empty pasted) in
    elim (Bool-cases (is_empty t)) [
      | inl e ↦ same_IsReady none r (ground arith) tt
      | inr e ↦ parse_outcome-IsReady (loads t) now r (ground arith)
    ]

change_key_returns :
    (k : Text) (old : Options) (r : Option OwnerRecord) (remove_owner_key : Bool)
    (s : NimlyOwnerKeyStore)
    → IsReady r
    → (options : Options) × ((change_key k remove_owner_key r old s).0 ≡ ok options)
unfolding change_key import_record async_save_record
change_key_returns k old r true s h = (_, refl)
change_key_returns k old none false s h = (old, refl)
change_key_returns k old (some r) false s h =
    (record old { owner_name = name_option r }, ground arith)

apply_at_returns :
    (k : Text) (old : Options) (normalized : Option Text) (mac : Text) (r : Option OwnerRecord)
    (remove_owner_key : Bool) (s : NimlyOwnerKeyStore)
    → IsReady r
    → normalized ≡ some mac
    → (options : Options) × ((apply_at k old normalized r remove_owner_key s).0 ≡ ok options)
unfolding apply_at apply_key
apply_at_returns k old none mac r remove_owner_key s ready h = absurd (ground arith)
apply_at_returns k old (some m) mac r remove_owner_key s ready h =
    let (options, e) = change_key_returns k old r remove_owner_key s ready in
    (
      with_address k m options (change_key k remove_owner_key r old s).1,
      ap (λ (x : Result SetupError Options × NimlyOwnerKeyStore). x.0)
          (>>=-returned (change_key k remove_owner_key r old) (λ c. gets (with_address k m c)) s
            options e),
    )

-- A set-up with a pasted text that is accepted, or with none, and with an address that is accepted,
-- returns: the two checks leave the key store nothing to refuse.
pub accepted_returns :
    (loads : Text → Json) (now : ℕ) (pasted : Option Text) (r : Option OwnerRecord)
    (entry_id address mac : Text) (old : Options) (remove_owner_key : Bool) (s : NimlyOwnerKeyStore)
    → parse_owner_record loads now pasted ≡ ok r
    → normalize_mac address ≡ some mac
    → (options : Options) × ((async_apply_ble_setup entry_id old address r remove_owner_key s).0
        ≡ ok options)
unfolding async_apply_ble_setup
accepted_returns loads now pasted r k address mac old remove_owner_key s h e =
    apply_at_returns k old (normalize_mac address) mac r remove_owner_key s
      (parse_owner_record-IsReady loads now pasted r h) e

-- A set-up that raises leaves the key store as it was.
pub async_apply_ble_setup_refused :
    (entry_id address : Text) (old : Options) (r : Option OwnerRecord) (remove_owner_key : Bool)
    (s : NimlyOwnerKeyStore) (e : SetupError)
    → (async_apply_ble_setup entry_id old address r remove_owner_key s).0 ≡ err e
    → (async_apply_ble_setup entry_id old address r remove_owner_key s).1 ≡ s
unfolding async_apply_ble_setup
async_apply_ble_setup_refused k address old r remove_owner_key s e h =
    apply_at_refused k old (normalize_mac address) r remove_owner_key s e h
