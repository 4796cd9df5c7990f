-- ===== src/Tests/Owners.antt =====
-- An enrollment and a scan over the whole stack, and an imported owner record:
-- custom_components/nimly_manager/nimly_ble/enrollment.py and keystore.py.
use nimly_manager.Base.{
  ℕ, suc, ◌≡◌, refl, true, false, some, [], ◌∷◌, ◌++◌, ◌||◌, not, Bytes, replicate, to_little,
  arith, if◌then◌else◌,
}
use nimly_manager.Base.Int.{pos, within_ℤ}
use nimly_manager.Base.Result.{ok, err, Exec}
use nimly_manager.Text.{Text, text, text_eq}
use nimly_manager.Text.Hex.{to_hex}
use nimly_manager.Value
use nimly_manager.Value.{Float, Value, Fields, str, int}
use nimly_manager.States
use nimly_manager.Firmware.{at_least}
use nimly_manager.KeyStore.{
  OwnerRecord, OwnerKeyStore, clock, sound, after_replace, object, owner_record_from_json, exists,
  load, preflight_passed_recently, preflight_path, path_for, float_of, is_hex,
}
use nimly_manager.KeyStore.Laws.{IsImportable, owner_record_from_json-IsImportable, is_hex_spaces}
use nimly_manager.Session.{Session, quiet, new_session, timeout}
use nimly_manager.Owner.{
  Owner, Draws, OwnerError, refused, record_exists, preflight_missing, fingerprint_scan_firmware,
}
use nimly_manager.Owner.Flows.{negotiate, enroll}
use nimly_manager.Owner.Durable.{Held, enroll_persists}
use nimly_manager.Owner.Stranded.{Unfinished, enroll_stranded}
use nimly_manager.Protocol.Payloads.{is_ascii}
use nimly_manager.Owner.Gated.{enroll_refused, enroll_sound}
use nimly_manager.Owner.Scanning.{open_scan, OwnerScan, scan_fingerprint}
use nimly_manager.Owner.Opened.{Opened}
use nimly_manager.Owner.Prompt.{scan_fingerprint_sound}
use nimly_manager.Tests.Sample.{plain_cipher}
use nimly_manager.Tests.Link.{sum_curve, answer, recent}

abbrev pub address : Text
address = text "AA:BB"

abbrev pub six : Bytes
six = 1 ∷ 2 ∷ 3 ∷ 4 ∷ 5 ∷ 6 ∷ []

-- The secret of the private keys 3 and 9, from its last byte on.
abbrev new_key : Bytes
new_key = replicate 16 0

abbrev pub draws : Draws
draws = record {
  link_key = 3;
  update_key = 3;
  server_key = 4;
  device_id = six;
  asked_at = 1000;
  created_at = 1001;
  updated_at = 1002;
  received_at = 1003;
  lock_time = pos 1700000000;
  enrolled_at = 1004;
  first_write = sound;
  last_write = sound;
}

abbrev pub peer_wire : Bytes
peer_wire = to_little 32 9 ++ replicate 32 0

-- A store in which a preflight of the lock passed, and one without.
abbrev pub ready_store : OwnerKeyStore
ready_store = record {
  owners = [];
  preflights =
      (text "owner-aabb.preflight.json", record { at = 900; default_owner_auth = true }) ∷ [];
}

abbrev bare_store : OwnerKeyStore
bare_store = record { owners = []; preflights = [] }

-- The lock agrees on a key and then answers no more.
abbrev pub silent : Owner
silent = record {
  session = new_session recent (
      answer false 0x01 1 peer_wire
      ∷ answer true 0x22 2 (replicate 16 0)
      ∷ answer true 0x23 3 []
      ∷ answer true 0x24 4 peer_wire
      ∷ []);
  store = ready_store;
}

-- The lock answers everything.
abbrev pub willing : Owner
willing = record {
  session = new_session recent (
      answer false 0x01 1 peer_wire
      ∷ answer true 0x22 2 (replicate 16 0)
      ∷ answer true 0x23 3 []
      ∷ answer true 0x24 4 peer_wire
      ∷ answer true 0x30 5 []
      ∷ answer true 0x41 6 []
      ∷ answer true 0x42 7 []
      ∷ answer true 0x32 8 []
      ∷ []);
  store = ready_store;
}

abbrev pub no_pem : ℕ → Text
no_pem n = text "pem"

silent_run : (negotiate plain_cipher sum_curve draws address silent).0 ≡ ok new_key
unfolding negotiate exists nimly_manager.Dict.Texts.lookup preflight_passed_recently text_eq
    preflight_path nimly_manager.Text.lower nimly_manager.Text.without
    nimly_manager.Session.handshake new_session nimly_manager.Crypto.public_key_to_wire
    nimly_manager.Crypto.coordinate_limit nimly_manager.Session.send
    nimly_manager.Protocol.Message.to_bytes nimly_manager.Protocol.Message.next
    nimly_manager.Session.hear nimly_manager.Protocol.Message.command_code
    nimly_manager.Crypto.backwards nimly_manager.Crypto.bit_invert nimly_manager.Crypto.decrypt
    nimly_manager.Crypto.encrypt nimly_manager.Crypto.from_reversed_secret
    nimly_manager.Crypto.owner_auth_answer nimly_manager.Crypto.owner_key_from_reversed_secret
    nimly_manager.Crypto.public_key_from_wire nimly_manager.Crypto.reversed_shared_secret
    nimly_manager.Crypto.zero_pad at_least path_for nimly_manager.Protocol.Events.added_status_name
    nimly_manager.Protocol.Events.lock_state_name nimly_manager.Protocol.Events.method_name
    nimly_manager.Protocol.Events.parse_event nimly_manager.Protocol.Frame.all_to_bytes
    nimly_manager.Protocol.Frame.chunks nimly_manager.Protocol.Frame.chunks_from
    nimly_manager.Protocol.Frame.continuation nimly_manager.Protocol.Frame.frame_payload
    nimly_manager.Protocol.Message.from_bytes nimly_manager.Protocol.Message.is_event
    nimly_manager.Protocol.Message.is_ok nimly_manager.Protocol.Message.new_counter
    nimly_manager.Protocol.Packet.code nimly_manager.Protocol.Packet.from_bytes
    nimly_manager.Protocol.Packet.of_code nimly_manager.Protocol.Packet.to_bytes
    nimly_manager.Protocol.Payloads.user_auth_begin_payload
    nimly_manager.Protocol.Payloads.user_auth_update_payload
    nimly_manager.Protocol.Reassembler.continue_blob nimly_manager.Protocol.Reassembler.feed
    nimly_manager.Protocol.Reassembler.feed_packet nimly_manager.Protocol.Reassembler.finish_buffer
    nimly_manager.Protocol.Reassembler.finish_if_done nimly_manager.Protocol.Reassembler.start_blob
    nimly_manager.Session.accept nimly_manager.Session.deliver nimly_manager.Session.exchange
    nimly_manager.Session.on_notify nimly_manager.Session.open_payload
    nimly_manager.Session.owner_authenticate nimly_manager.Session.owner_update
    nimly_manager.Session.resolve nimly_manager.Session.seal nimly_manager.Session.send_command
    nimly_manager.Session.send_raw nimly_manager.Session.send_wire nimly_manager.Session.transmit
    nimly_manager.Text.lower_point
silent_run = refl

persists_example :
    Held address new_key six
      (enroll plain_cipher sum_curve no_pem draws address (text "Home") silent).1.store
persists_example =
    enroll_persists plain_cipher sum_curve no_pem draws address (text "Home") new_key silent
      silent_run (omega arith) (omega arith)

-- "Låsen"
abbrev swedish : Text
swedish = 76 ∷ 229 ∷ 115 ∷ 101 ∷ 110 ∷ []

swedish_run : is_ascii swedish ≡ false
unfolding is_ascii
swedish_run = refl

stranded_example :
    ((e : OwnerError) × ((enroll plain_cipher sum_curve no_pem draws address swedish silent).0
        ≡ err e))
    × Unfinished address (enroll plain_cipher sum_curve no_pem draws address swedish silent).1.store
stranded_example =
    enroll_stranded plain_cipher sum_curve draws swedish swedish_run no_pem address new_key silent
      silent_run refl

abbrev pub enrolled : OwnerRecord
enrolled = record {
  lock_address = address;
  device_id_hex = text "010203040506";
  owner_key_hex = replicate 32 48;
  stage = text "enrolled";
  server_private_pem = text "pem";
  name = text "Home";
  created = clock 1001;
  updated = clock 1004;
}

willing_run :
    (enroll plain_cipher sum_curve no_pem draws address (text "Home") willing).0 ≡ ok enrolled
unfolding enroll exists nimly_manager.Dict.Texts.lookup preflight_passed_recently text_eq
    preflight_path nimly_manager.Text.lower nimly_manager.Text.without
    nimly_manager.Session.handshake new_session nimly_manager.Crypto.public_key_to_wire
    nimly_manager.Crypto.coordinate_limit nimly_manager.Session.send
    nimly_manager.Protocol.Message.to_bytes nimly_manager.Protocol.Message.next
    nimly_manager.Session.hear nimly_manager.Protocol.Message.command_code
    nimly_manager.Protocol.Frame.frame_payload nimly_manager.Protocol.Frame.all_to_bytes
    nimly_manager.Protocol.Packet.to_bytes nimly_manager.Protocol.Packet.code
    nimly_manager.Protocol.Frame.continuation nimly_manager.Protocol.Frame.chunks
    nimly_manager.Session.exchange nimly_manager.Session.on_notify
    nimly_manager.Protocol.Reassembler.feed nimly_manager.Protocol.Packet.from_bytes
    nimly_manager.Protocol.Packet.of_code nimly_manager.Session.deliver
    nimly_manager.Protocol.Message.from_bytes nimly_manager.Protocol.Message.is_event
    nimly_manager.Protocol.Message.is_ok nimly_manager.Crypto.reversed_shared_secret
    nimly_manager.Crypto.backwards nimly_manager.Crypto.bit_invert nimly_manager.Crypto.decrypt
    nimly_manager.Crypto.encrypt nimly_manager.Crypto.from_reversed_secret
    nimly_manager.Crypto.owner_auth_answer nimly_manager.Crypto.owner_key_from_reversed_secret
    nimly_manager.Crypto.public_key_from_wire nimly_manager.Crypto.zero_pad
    nimly_manager.Dict.Texts.insert at_least nimly_manager.KeyStore.atomic_write path_for
    nimly_manager.KeyStore.save nimly_manager.Owner.Flows.configure
    nimly_manager.Owner.Flows.instruct negotiate nimly_manager.Owner.Flows.received
    nimly_manager.Owner.Flows.take_over nimly_manager.Owner.server_wire
    nimly_manager.Protocol.Events.added_status_name nimly_manager.Protocol.Events.lock_state_name
    nimly_manager.Protocol.Events.method_name nimly_manager.Protocol.Events.parse_event
    nimly_manager.Protocol.Frame.chunks_from nimly_manager.Protocol.Message.new_counter
    nimly_manager.Protocol.Payloads.current_time_payload
    nimly_manager.Protocol.Payloads.device_id_payload
    nimly_manager.Protocol.Payloads.device_name_payload
    nimly_manager.Protocol.Payloads.minutes_since_epoch
    nimly_manager.Protocol.Payloads.server_key_payload
    nimly_manager.Protocol.Payloads.user_auth_begin_payload
    nimly_manager.Protocol.Payloads.user_auth_update_payload
    nimly_manager.Protocol.Reassembler.continue_blob nimly_manager.Protocol.Reassembler.feed_packet
    nimly_manager.Protocol.Reassembler.finish_buffer
    nimly_manager.Protocol.Reassembler.finish_if_done nimly_manager.Protocol.Reassembler.start_blob
    nimly_manager.Session.accept nimly_manager.Session.open_payload
    nimly_manager.Session.owner_authenticate nimly_manager.Session.owner_update
    nimly_manager.Session.resolve nimly_manager.Session.seal nimly_manager.Session.send_command
    nimly_manager.Session.send_raw nimly_manager.Session.send_wire nimly_manager.Session.transmit
    to_hex nimly_manager.Text.lower_point
willing_run = refl

enroll_example :
    (exists address willing.store ≡ false)
    × (preflight_passed_recently address draws.asked_at willing.store ≡ true)
    × (enrolled.stage ≡ text "enrolled")
    × (load address
          (enroll plain_cipher sum_curve no_pem draws address (text "Home") willing).1.store
        ≡ some enrolled)
enroll_example =
    enroll_sound plain_cipher sum_curve no_pem draws address (text "Home") willing enrolled
      willing_run

abbrev hasty : Owner
hasty = record willing { store = bare_store }

hasty_run :
    (exists address hasty.store
      || not (preflight_passed_recently address draws.asked_at hasty.store))
    ≡ true
unfolding exists nimly_manager.Dict.Texts.lookup preflight_passed_recently
hasty_run = refl

refused_example : enroll plain_cipher sum_curve no_pem draws address (text "Home") hasty ≡ (
  err (
      refused (
        if exists address hasty.store
        then record_exists (path_for address)
        else preflight_missing)),
  hasty,
)
refused_example =
    enroll_refused plain_cipher sum_curve no_pem draws address (text "Home") hasty hasty_run

abbrev pub one_second : Float
one_second = Float.finite (pos 1) (text "1.0")

-- A scan of the slot 150, with a prompt that counts.
abbrev prompt : Exec States.Error ℕ (Unit {0})
prompt n = (ok tt, suc n)

abbrev scanned : OwnerScan
scanned = record {
  answer = record {
    requested_slot = pos 150;
    reported_slot = 150;
    scan_status = text "ok";
    response_seconds = one_second;
  };
  model = text "NimlyPro (23)";
  firmware = text "4.7.90";
}

abbrev scan_session : Session
scan_session = new_session recent (
    answer false 0x01 1 peer_wire
    ∷ answer true 0x62 2 (23 ∷ [])
    ∷ answer true 0x22 3 (replicate 16 0)
    ∷ answer true 0x23 4 []
    ∷ answer true 0x57 5 (150 ∷ 0 ∷ 0 ∷ [])
    ∷ [])

scan_run :
    (scan_fingerprint plain_cipher sum_curve prompt 3 enrolled
      (pos 150)
      recent
      one_second
      (scan_session, 0)).0
    ≡ ok scanned
unfolding scan_fingerprint text_eq at_least nimly_manager.Protocol.Payloads.fingerprint_slot_payload
    nimly_manager.Session.handshake new_session nimly_manager.Crypto.public_key_to_wire
    nimly_manager.Crypto.coordinate_limit nimly_manager.Session.send
    nimly_manager.Protocol.Message.to_bytes nimly_manager.Protocol.Message.next
    nimly_manager.Session.hear nimly_manager.Protocol.Message.command_code
    nimly_manager.Protocol.Frame.frame_payload nimly_manager.Protocol.Frame.all_to_bytes
    nimly_manager.Protocol.Packet.to_bytes nimly_manager.Protocol.Packet.code
    nimly_manager.Crypto.backwards nimly_manager.Crypto.bit_invert nimly_manager.Crypto.decrypt
    nimly_manager.Crypto.encrypt nimly_manager.Crypto.from_reversed_secret
    nimly_manager.Crypto.owner_auth_answer nimly_manager.Crypto.public_key_from_wire
    nimly_manager.Crypto.reversed_shared_secret nimly_manager.Crypto.zero_pad
    nimly_manager.KeyStore.device_id nimly_manager.KeyStore.owner_key
    nimly_manager.Owner.Scanning.authenticate_record nimly_manager.Owner.Scanning.command_scan
    nimly_manager.Owner.Scanning.open_scan nimly_manager.Owner.Scanning.prompt_scan
    nimly_manager.Owner.Scanning.run_scan nimly_manager.Owner.model_text
    nimly_manager.Owner.scan_status_name nimly_manager.Owner.version_text
    nimly_manager.Protocol.Events.added_status_name nimly_manager.Protocol.Events.lock_state_name
    nimly_manager.Protocol.Events.method_name nimly_manager.Protocol.Events.parse_event
    nimly_manager.Protocol.Frame.chunks nimly_manager.Protocol.Frame.chunks_from
    nimly_manager.Protocol.Frame.continuation nimly_manager.Protocol.Message.from_bytes
    nimly_manager.Protocol.Message.is_event nimly_manager.Protocol.Message.is_ok
    nimly_manager.Protocol.Message.new_counter nimly_manager.Protocol.Packet.from_bytes
    nimly_manager.Protocol.Packet.of_code nimly_manager.Protocol.Payloads.lock_model
    nimly_manager.Protocol.Payloads.parse_fingerprint_scan
    nimly_manager.Protocol.Payloads.parse_model
    nimly_manager.Protocol.Payloads.user_auth_begin_payload
    nimly_manager.Protocol.Reassembler.continue_blob nimly_manager.Protocol.Reassembler.feed
    nimly_manager.Protocol.Reassembler.feed_packet nimly_manager.Protocol.Reassembler.finish_buffer
    nimly_manager.Protocol.Reassembler.finish_if_done nimly_manager.Protocol.Reassembler.start_blob
    nimly_manager.Session.accept nimly_manager.Session.deliver nimly_manager.Session.exchange
    nimly_manager.Session.on_notify nimly_manager.Session.open_payload
    nimly_manager.Session.owner_authenticate nimly_manager.Session.resolve
    nimly_manager.Session.seal nimly_manager.Session.send_command nimly_manager.Session.send_raw
    nimly_manager.Session.send_wire nimly_manager.Session.transmit nimly_manager.Text.Hex.from_hex
    nimly_manager.Text.Hex.hex_digit nimly_manager.Text.Number.show_ℕ
scan_run = refl

prompt_example :
    (enrolled.stage ≡ text "enrolled")
    × (at_least recent fingerprint_scan_firmware ≡ true)
    × (within_ℤ 150 199 (pos 150) ≡ true)
    × (scanned.answer.requested_slot ≡ pos 150)
    × Opened plain_cipher sum_curve 3 enrolled scan_session
        (open_scan plain_cipher sum_curve 3 enrolled scan_session).1
        scanned.model
    × ((prompt 0).0 ≡ ok tt)
    × ((scan_fingerprint plain_cipher sum_curve prompt 3 enrolled
          (pos 150)
          recent
          one_second
          (scan_session, 0)).1.1
        ≡ (prompt 0).1)
prompt_example =
    scan_fingerprint_sound plain_cipher sum_curve prompt 3 enrolled (pos 150) recent one_second
      scan_session 0 scanned scan_run

abbrev imported_fields : Fields
imported_fields =
    (text "lock_address", str address)
    ∷ (text "device_id_hex", str (text "010203040506"))
    ∷ (text "owner_key_hex", str (replicate 32 48))
    ∷ (text "stage", str (text "enrolled"))
    ∷ (text "created", int (pos 5))
    ∷ []

abbrev imported : OwnerRecord
imported = record {
  lock_address = address;
  device_id_hex = text "010203040506";
  owner_key_hex = replicate 32 48;
  stage = text "enrolled";
  server_private_pem = [];
  name = [];
  created = float_of (int (pos 5));
  updated = clock 77;
}

import_run : owner_record_from_json (object imported_fields) 77 ≡ ok imported
unfolding owner_record_from_json Value.get text_eq nimly_manager.Text.lower Value.str_of
    nimly_manager.Text.Hex.from_hex nimly_manager.Text.Hex.hex_digit
import_run = refl

import_example : IsImportable imported
import_example = owner_record_from_json-IsImportable (object imported_fields) 77 imported import_run

-- A key of 32 spaces is taken for hexadecimal digits.
spaces_run : is_hex (replicate 32 32) 32 ≡ true
spaces_run = is_hex_spaces 32
