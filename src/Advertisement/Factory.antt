-- ===== src/Advertisement/Factory.antt =====
-- When src/nimly_ble_probe/advertisement.py calls a lock factory-fresh.
use nimly_manager.Base.{
  zero, suc, ◌≡◌, ◌↔◌, ◌⊎◌, refl, sym, Option, none, some, [], ◌∷◌, arith, Bytes, length,
}
use nimly_manager.Text.{Text, text, text_eq}
use nimly_manager.Advertisement
use nimly_manager.Advertisement.{NimlyAdvertisement, enrollment_state}

-- Service data of a factory lock: the seed 0 0, then six bytes or eight.
pub record IsFactoryData (bytes : Bytes) : Type 0 where
  pub rest : Bytes
  pub layout : bytes ≡ 0 ∷ 0 ∷ rest
  pub size : (length rest ≡ 6) ⊎ (length rest ≡ 8)

state_of : Option Bytes → Text
unfolding Advertisement.seed enrollment_state
state_of o = enrollment_state (record {
  probe_id = [];
  name = none;
  address = [];
  rssi = none;
  service_data = o;
  matched_by = [];
})

factory_data : (bytes : Bytes) → state_of (some bytes) ≡ text "factory" → IsFactoryData bytes
unfolding state_of enrollment_state text_eq
factory_data [] h = ground arith
factory_data (b ∷ []) h = ground arith
factory_data (zero ∷ zero ∷ rest) h = record { rest = rest; layout = refl; size = ground arith }
factory_data (zero ∷ suc c ∷ rest) h = ground arith
factory_data (suc b ∷ c ∷ rest) h = ground arith

data_factory :
    (rest : Bytes)
    → (length rest ≡ 6) ⊎ (length rest ≡ 8)
    → state_of (some (0 ∷ 0 ∷ rest)) ≡ text "factory"
unfolding state_of enrollment_state text_eq
data_factory rest h = ground arith

-- An advertisement with service data is called factory exactly if the data is the seed 0 0 followed
-- by six bytes (an identifier) or by eight (an identifier and a trailer).
pub enrollment_state-IsFactoryData :
    (a : NimlyAdvertisement) (bytes : Bytes)
    → a.service_data ≡ some bytes
    → (enrollment_state a ≡ text "factory") ↔ IsFactoryData bytes
unfolding state_of enrollment_state
enrollment_state-IsFactoryData a bytes h = (
  λ k. factory_data bytes (let e : state_of a.service_data ≡ text "factory" = k in rw (sym h) e),
  λ d.
      let e : state_of (some bytes) ≡ text "factory" = rw d.layout (data_factory d.rest d.size) in
      let e' : state_of a.service_data ≡ text "factory" = rw h e in e',
)
