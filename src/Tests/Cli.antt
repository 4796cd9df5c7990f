-- ===== src/Tests/Cli.antt =====
-- A run of `enroll`: custom_components/nimly_manager/nimly_ble/cli.py.
use nimly_manager.Base.{◌≡◌, refl, true, false, none, some, [], ◌∷◌, replicate}
use nimly_manager.Text.{text}
use nimly_manager.Firmware.{FirmwareVersion}
use nimly_manager.Advertisement.{NimlyAdvertisement}
use nimly_manager.KeyStore.{sound}
use nimly_manager.OwnerCli.{enroll_command, found, Door, Readings, Bench, main}
use nimly_manager.OwnerCli.Enrolls.{Gated, main_enrolls}
use nimly_manager.Tests.Sample.{plain_cipher}
use nimly_manager.Tests.Link.{sum_curve}
use nimly_manager.Tests.Owners.{address, draws, ready_store, willing, no_pem, one_second}

abbrev factory_lock : NimlyAdvertisement
factory_lock = record {
  probe_id = text "nimly-1";
  name = none;
  address = address;
  rssi = none;
  service_data = some (replicate 8 0);
  matched_by = [];
}

abbrev door : Door
door = record {
  discovery = found (factory_lock ∷ []);
  firmware_text = some (text "4.7.90");
  air = willing.session.air;
}

abbrev readings : Readings
readings = record {
  draws = draws;
  response_seconds = one_second;
  passes = [];
  marked_at = 900;
  marker_write = sound;
}

abbrev bench : Bench
bench = record { store = ready_store; session = none }

main_run :
    (main plain_cipher sum_curve no_pem readings true door
      (enroll_command (text "Home") true)
      bench).0
    ≡ some 0
unfolding main nimly_manager.Text.strip nimly_manager.Text.strip_right nimly_manager.Text.strip_left
    nimly_manager.Text.is_space nimly_manager.Firmware.all_digits nimly_manager.Text.Number.decimal
    nimly_manager.Text.Number.natural nimly_manager.Text.text_eq nimly_manager.KeyStore.exists
    nimly_manager.Dict.Texts.lookup nimly_manager.KeyStore.preflight_passed_recently
    nimly_manager.KeyStore.preflight_path nimly_manager.Text.lower nimly_manager.Text.without
    nimly_manager.Session.handshake nimly_manager.Crypto.public_key_to_wire
    nimly_manager.Crypto.coordinate_limit nimly_manager.Session.send
    nimly_manager.Protocol.Message.to_bytes nimly_manager.Protocol.Message.next
    nimly_manager.Session.hear nimly_manager.Protocol.Message.command_code
    nimly_manager.Protocol.Frame.frame_payload nimly_manager.Protocol.Frame.all_to_bytes
    nimly_manager.Protocol.Packet.to_bytes nimly_manager.Protocol.Packet.code
    nimly_manager.Protocol.Frame.continuation nimly_manager.Protocol.Frame.chunks
    nimly_manager.Session.exchange nimly_manager.Session.on_notify
    nimly_manager.Protocol.Reassembler.feed nimly_manager.Protocol.Packet.from_bytes
    nimly_manager.Protocol.Packet.of_code nimly_manager.Session.deliver
    nimly_manager.Protocol.Message.from_bytes nimly_manager.Protocol.Message.is_event
    nimly_manager.Protocol.Message.is_ok nimly_manager.Crypto.reversed_shared_secret
    nimly_manager.Session.owner_authenticate nimly_manager.Protocol.Payloads.user_auth_begin_payload
    nimly_manager.Crypto.encrypt nimly_manager.Crypto.zero_pad nimly_manager.Crypto.decrypt
    nimly_manager.Crypto.owner_auth_answer nimly_manager.Crypto.bit_invert
    nimly_manager.Session.owner_update nimly_manager.Protocol.Payloads.user_auth_update_payload
    nimly_manager.KeyStore.save nimly_manager.Protocol.Payloads.device_id_payload
    nimly_manager.Protocol.Payloads.current_time_payload nimly_manager.Owner.server_wire
    nimly_manager.Protocol.Payloads.server_key_payload
    nimly_manager.Protocol.Payloads.device_name_payload
main_run = refl

-- Without the flag the command is refused.
refused_run :
    main plain_cipher sum_curve no_pem readings true door (enroll_command (text "Home") false) bench
    ≡ (some 3, bench)
unfolding main
refused_run = refl

main_example :
    Gated plain_cipher sum_curve no_pem readings
      (text "Home")
      true
      door
      ready_store
      (main plain_cipher sum_curve no_pem readings true door
        (enroll_command (text "Home") true)
        bench).1.store
main_example =
    main_enrolls plain_cipher sum_curve no_pem readings (text "Home") true door true bench main_run
