-- ===== src/Protocol/Payloads/Laws.antt =====
-- The payload builders: lengths, ranges and what a reader gets back.
use nimly_manager.Base.{
  ℕ, ◌+◌, ◌-◌, ◌*◌, ◌/◌, ◌≤◌, ◌<◌, ◌≡◌, refl, ◌∷◌, ◌++◌, arith, length, take, Bytes, from_little,
  to_little, length-append, length-take, length-replicate, replicate,
}
use nimly_manager.Base.Int.{ℤ, pos}
use nimly_manager.Base.Result.{Result, ok, err}
use nimly_manager.Text.{Text}
use nimly_manager.Protocol.Packet.{Error}
use nimly_manager.Protocol.Payloads.{
  time_epoch_unix, user_auth_begin_payload, user_auth_update_payload, device_id_payload,
  device_name_payload, current_time_payload, server_key_payload, fingerprint_slot_payload,
  parse_fingerprint_scan,
}

-- A slot from 150 to 199 is sent as two bytes which, with a status byte and anything else behind
-- them, parse_fingerprint_scan reads as that slot and status.
pub slot_roundtrip :
    (slot status : ℕ) (rest : Bytes)
    → 150 ≤ slot
    → slot ≤ 199
    → (payload : Bytes) × (fingerprint_slot_payload (pos slot) ≡ ok payload)
      × (parse_fingerprint_scan (payload ++ status ∷ rest) ≡ ok (slot, status))
unfolding fingerprint_slot_payload parse_fingerprint_scan
slot_roundtrip slot status rest lo hi = (to_little 2 slot, ground arith, ground arith)

-- A time of the lock's calendar, from 2023-01-01 to the last minute that four bytes count, is sent
-- as four bytes that hold the minutes since the epoch, rounded down.
pub time_roundtrip :
    (s : ℕ)
    → time_epoch_unix ≤ s
    → s < time_epoch_unix + 60 * 4294967296
    → (payload : Bytes) × (current_time_payload (pos s) ≡ ok payload)
      × (length payload ≡ 4)
      × (time_epoch_unix + 60 * from_little payload ≤ s)
      × (s < time_epoch_unix + 60 * from_little payload + 60)
unfolding current_time_payload
time_roundtrip s lo hi =
    (to_little 4 ((s - time_epoch_unix) / 60), ground arith, refl, omega arith, omega arith)

-- The result is an error, or a payload of `n` bytes.
abbrev pub HasLength : ℕ → Result Error Bytes → Type 0
HasLength n (ok payload) = length payload ≡ n
HasLength n (err e) = Unit

device_name_length : (name : Text) → HasLength 9 (device_name_payload name)
unfolding device_name_payload
device_name_length name = ground (
  arith,
  length-append (take 8 name) (replicate (9 - length (take 8 name)) 0),
  length-replicate {A = ℕ} (9 - length (take 8 name)) 0,
  length-take 8 name,
)

-- Whatever the arguments, each payload of the owner commands that is built at all has its fixed
-- length: 7 bytes for UserAuthBegin, 66 for UserAuthUpdate, 6 for a device id, 9 for a name (cut to
-- eight characters and filled with zeros), 4 for a time and 64 for a server key.
pub payload_lengths :
    (user credentials : ℕ) (device_id wire_public : Bytes) (name : Text) (seconds : ℤ)
    → HasLength 7 (user_auth_begin_payload user device_id)
      × HasLength 66 (user_auth_update_payload user credentials wire_public)
      × HasLength 6 (device_id_payload device_id)
      × HasLength 9 (device_name_payload name)
      × HasLength 4 (current_time_payload seconds)
      × HasLength 64 (server_key_payload wire_public)
unfolding user_auth_begin_payload user_auth_update_payload device_id_payload current_time_payload
    server_key_payload
payload_lengths user credentials device_id wire_public name seconds =
    (ground arith, ground arith, ground arith, device_name_length name, ground arith, ground arith)
