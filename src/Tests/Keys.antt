-- ===== src/Tests/Keys.antt =====
-- The link cryptography of custom_components/nimly_manager/nimly_ble/crypto.py, and the
-- advertisements and firmware versions of src/nimly_ble_probe.
use nimly_manager.Base.{◌≡◌, refl, true, [], ◌∷◌, none, some, Bytes, replicate}
use nimly_manager.Base.Result.{ok}
use nimly_manager.Text.{text}
use nimly_manager.Crypto.{
  decrypt, bit_invert, owner_auth_answer, make_owner_challenge, default_owner_key,
}
use nimly_manager.Crypto.Laws.{owner_auth_answer-make_owner_challenge}
use nimly_manager.Firmware.{FirmwareVersion, at_least, gates, parse, version, value_error}
use nimly_manager.Tests.Sample.{plain_cipher, plain_cipher-IsCbc}
use nimly_manager.Advertisement.{NimlyAdvertisement}

challenge_example :
    (challenge answer : Bytes) × (make_owner_challenge plain_cipher default_owner_key
        (replicate 16 0)
        (replicate 16 3)
      ≡ ok challenge)
    × (owner_auth_answer plain_cipher default_owner_key (replicate 16 0) challenge ≡ ok answer)
    × (decrypt plain_cipher default_owner_key (replicate 16 0) answer
        ≡ ok (bit_invert (replicate 16 3)))
challenge_example =
    owner_auth_answer-make_owner_challenge plain_cipher default_owner_key (replicate 16 0)
      (replicate 16 3) plain_cipher-IsCbc refl

-- Service data of ten bytes with the seed 0 0.
abbrev captured : NimlyAdvertisement
captured = record {
  probe_id = text "nimly-0123456789ab";
  name = none;
  address = text "AA:BB:CC:DD:EE:FF";
  rssi = none;
  service_data = some (0 ∷ 0 ∷ 0xff ∷ 0xee ∷ 0xdd ∷ 0xcc ∷ 0xbb ∷ 0xaa ∷ 0 ∷ 0 ∷ []);
  matched_by = text "service_data" ∷ [];
}

abbrev older : FirmwareVersion
older = record { major = 4; minor = 7; patch = 90 }

abbrev newer : FirmwareVersion
newer = record { major = 4; minor = 8; patch = 1 }

newer_run : at_least newer older ≡ true
unfolding at_least
newer_run = refl

parse_run : parse (text " 4.8.1 ") ≡ version newer
unfolding parse nimly_manager.Text.strip nimly_manager.Text.strip_right
    nimly_manager.Text.strip_left nimly_manager.Text.is_space nimly_manager.Firmware.all_digits
    nimly_manager.Text.Number.decimal nimly_manager.Text.Number.natural
parse_run = refl

-- A superscript two is a digit that `int` refuses.
superscript_run : parse (text "4.8.²") ≡ value_error
unfolding parse nimly_manager.Text.strip nimly_manager.Text.strip_right
    nimly_manager.Text.strip_left nimly_manager.Text.is_space nimly_manager.Firmware.all_digits
    nimly_manager.Text.Number.decimal nimly_manager.Text.Number.natural
superscript_run = refl
