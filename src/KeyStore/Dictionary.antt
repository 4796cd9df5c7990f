-- ===== src/KeyStore/Dictionary.antt =====
-- The dictionaries of an owner record, and the call of its constructor on one:
-- custom_components/nimly_manager/nimly_ble/keystore.py. The values of a dictionary are of the types
-- that `as_dict` gives them.
use nimly_manager.Base.{◌≡◌, refl, ℕ, Option, none, some, []}
use nimly_manager.Text.{Text, text}
use nimly_manager.KeyStore.{OwnerRecord, Stamp, clock}

-- The keyword arguments of the constructor, where each is given.
pub record Arguments : Type 0 where
  pub lock_address : Option Text
  pub device_id_hex : Option Text
  pub owner_key_hex : Option Text
  pub stage : Option Text
  pub server_private_pem : Option Text
  pub name : Option Text
  pub created : Option Stamp
  pub updated : Option Stamp

abbrev or_default : {A : Type 0} → A → Option A → A
or_default a none = a
or_default a (some b) = b

abbrev all_three : Option Text → Option Text → Option Text → Option (Text × Text × Text)
all_three (some a) (some b) (some c) = some (a, b, c)
all_three (some a) (some b) none = none
all_three (some a) none c = none
all_three none b c = none

-- OwnerRecord(**raw), for known keys; `none` where it raises TypeError, since one of the first three
-- is missing
unfoldable pub from_arguments : ℕ → Arguments → Option OwnerRecord
from_arguments now a = elim (all_three a.lock_address a.device_id_hex a.owner_key_hex) [
  | none ↦ none
  | some (lock_address, device_id_hex, owner_key_hex) ↦ some (record {
    lock_address = lock_address;
    device_id_hex = device_id_hex;
    owner_key_hex = owner_key_hex;
    stage = or_default (text "owner_key_received") a.stage;
    server_private_pem = or_default [] a.server_private_pem;
    name = or_default [] a.name;
    created = or_default (clock now) a.created;
    updated = or_default (clock now) a.updated;
  })
]

-- OwnerRecord.as_dict
unfoldable pub as_dict : OwnerRecord → Arguments
as_dict r = record {
  lock_address = some r.lock_address;
  device_id_hex = some r.device_id_hex;
  owner_key_hex = some r.owner_key_hex;
  stage = some r.stage;
  server_private_pem = some r.server_private_pem;
  name = some r.name;
  created = some r.created;
  updated = some r.updated;
}

pub from_arguments-as_dict : (now : ℕ) (r : OwnerRecord) → from_arguments now (as_dict r) ≡ some r
unfolding from_arguments as_dict
from_arguments-as_dict now r = refl
