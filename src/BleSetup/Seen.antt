-- ===== src/BleSetup/Seen.antt =====
-- Two readings of one advertisement: the address picker of
-- custom_components/nimly_manager/ble_setup.py, and src/nimly_ble_probe/advertisement.py.
use nimly_manager.Base.{◌≡◌, true, some, [], ◌∷◌, arith, Bytes}
use nimly_manager.Dict.Texts.{lookup}
use nimly_manager.Advertisement.{
  NimlyAdvertisement, enrollment_state, seed, is_known_length, nimly_advertising_uuid,
}
use nimly_manager.BleSetup.{ServiceInfo, DiscoveredLock, discovered}

-- For service data of a length that is documented, the picker names the same enrollment state as the
-- probe does.
pub discovered_agrees :
    (info : ServiceInfo) (lock : DiscoveredLock) (a : NimlyAdvertisement) (d : Bytes)
    → lookup nimly_advertising_uuid info.service_data ≡ some d
    → a.service_data ≡ some d
    → is_known_length d ≡ true
    → discovered info ≡ some lock
    → lock.enrollment_state ≡ enrollment_state a
unfolding discovered enrollment_state seed
discovered_agrees info lock a [] h k l m = absurd (ground arith)
discovered_agrees info lock a (b ∷ []) h k l m = absurd (ground arith)
discovered_agrees info lock a (b ∷ c ∷ d) h k l m = ground arith
