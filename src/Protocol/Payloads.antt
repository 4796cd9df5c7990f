-- ===== src/Protocol/Payloads.antt =====
-- The payloads of commands and responses in
-- custom_components/nimly_manager/nimly_ble/protocol.py. A time in seconds is given as its whole
-- seconds: the code divides by 60 and rounds down, so a fraction changes nothing.
pub mod Laws
use nimly_manager.Base.{
  ℕ, zero, suc, ◌+◌, ◌-◌, ◌/◌, Bool, true, false, not, List, [], ◌∷◌, ◌++◌, ◌==◌, ltb, within,
  length, take, drop, Bytes, to_little, from_little, replicate, if◌then◌else◌,
}
use nimly_manager.Base.Int.{ℤ, pos, negsuc}
use nimly_manager.Base.Result.{Result, ok, err, ◌>>=◌, ◌>>◌, raise_if}
use nimly_manager.Text.{Text, text}
use nimly_manager.Protocol.Packet.{
  Error, before_epoch, time_overflow, bad_device_id, bad_public_key, bad_slot, short_battery,
  short_scan, not_ascii, to_bytes_or_raise,
}

abbrev pub time_epoch_unix : ℕ
time_epoch_unix = 1672531200

unfoldable pub minutes_since_epoch : ℤ → Result Error ℕ
minutes_since_epoch (negsuc s) = err before_epoch
minutes_since_epoch (pos s) = if ltb s time_epoch_unix then err before_epoch else do
  let minutes = (s - time_epoch_unix) / 60
  raise_if (ltb 0xffffffff minutes) time_overflow
  ok minutes

unfoldable pub user_auth_begin_payload : ℕ → Bytes → Result Error Bytes
user_auth_begin_payload user_id device_id = do
  raise_if (not (length device_id == 6)) bad_device_id
  user ← to_bytes_or_raise (user_id ∷ [])
  ok (user ++ device_id)

unfoldable pub user_auth_update_payload : ℕ → ℕ → Bytes → Result Error Bytes
user_auth_update_payload user_id credentials wire_public = do
  raise_if (not (length wire_public == 64)) bad_public_key
  user ← to_bytes_or_raise (user_id ∷ credentials ∷ [])
  ok (user ++ wire_public)

unfoldable pub device_id_payload : Bytes → Result Error Bytes
device_id_payload device_id = do raise_if (not (length device_id == 6)) bad_device_id; ok device_id

-- whether name.encode("ascii") is accepted; its bytes are then the code points
abbrev pub is_ascii : Text → Bool
is_ascii [] = true
is_ascii (c ∷ cs) = if ltb c 128 then is_ascii cs else false

unfoldable pub device_name_payload : Text → Result Error Bytes
device_name_payload name = do
  raise_if (not (is_ascii name)) not_ascii
  let short = take 8 name
  ok (short ++ replicate (9 - length short) 0)

unfoldable pub current_time_payload : ℤ → Result Error Bytes
unfolding minutes_since_epoch
current_time_payload unix_seconds = do
  minutes ← minutes_since_epoch unix_seconds
  ok (to_little 4 minutes)

unfoldable pub server_key_payload : Bytes → Result Error Bytes
server_key_payload wire_public = do
  raise_if (not (length wire_public == 64)) bad_public_key
  ok wire_public

abbrev pub fingerprint_slot_min : ℕ
fingerprint_slot_min = 150

abbrev pub fingerprint_slot_max : ℕ
fingerprint_slot_max = 199

unfoldable pub fingerprint_slot_payload : ℤ → Result Error Bytes
fingerprint_slot_payload (negsuc n) = err bad_slot
fingerprint_slot_payload (pos slot) = do
  raise_if (not (within fingerprint_slot_min fingerprint_slot_max slot)) bad_slot
  ok (to_little 2 slot)

-- LOCK_MODELS.get(model, ("Unknown", False))
unfoldable pub lock_model : ℕ → Text × Bool
lock_model model =
    if model == 8
    then (text "EasyFingerTouch", true)
    else if model == 9
    then (text "EasyCodeTouch", false)
    else if model == 21
    then (text "NimlyCode", false)
    else if model == 22
    then (text "NimlyTouch", false)
    else if model == 23
    then (text "NimlyPro", true)
    else if model == 24
    then (text "NimlyIndoor", false)
    else if model == 26
    then (text "NimlyKeybox", false)
    else if model == 27
    then (text "NimlyTwist", false)
    else if model == 31
    then (text "NimlyCode2", false)
    else if model == 32
    then (text "NimlyTouch2", false)
    else if model == 33
    then (text "NimlyPro24", true)
    else if model == 34
    then (text "NimlyIndoor2", false)
    else if model == 36
    then (text "NimlyKeybox2", false)
    else if model == 37
    then (text "NimlyTwist2", false)
    else (text "Unknown", false)

abbrev pub first_or_zero : Bytes → ℕ
first_or_zero [] = 0
first_or_zero (b ∷ bs) = b

unfoldable pub parse_model : Bytes → ℕ × Text × Bool
unfolding lock_model
parse_model payload =
    let model = first_or_zero payload in
    let (name, fingerprint) = lock_model model in (model, name, fingerprint)

pub record Battery : Type 0 where
  pub level : ℕ
  pub low : Bool
  pub percent : ℕ

unfoldable pub parse_battery : Bytes → Result Error Battery
parse_battery (l ∷ h ∷ low ∷ percent ∷ rest) =
    ok (record { level = from_little (l ∷ h ∷ []); low = low == 1; percent = percent })
parse_battery _ = err short_battery

-- the slot and the status byte
unfoldable pub parse_fingerprint_scan : Bytes → Result Error (ℕ × ℕ)
parse_fingerprint_scan (l ∷ h ∷ status ∷ rest) = ok (from_little (l ∷ h ∷ []), status)
parse_fingerprint_scan _ = err short_scan
