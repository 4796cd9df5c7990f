-- ===== src/Tests/Commands.antt =====
-- Commands, references and payloads of custom_components/nimly_manager/nimly_ble/protocol.py.
use nimly_manager.Base.{◌≡◌, refl, [], ◌∷◌, ◌++◌, arith, Bytes, length}
use nimly_manager.Base.Int.{pos}
use nimly_manager.Base.Result.{ok, err}
use nimly_manager.Text.{text}
use nimly_manager.Protocol.Packet.{not_ascii, before_epoch}
use nimly_manager.Protocol.Message
use nimly_manager.Protocol.Message.{Command, CommandId, command_code, new_counter, next, event_ref}
use nimly_manager.Protocol.Message.Laws.{command_roundtrip}
use nimly_manager.Protocol.Payloads.{device_name_payload, current_time_payload}

-- The scan of slot 150 with the reference 16.
abbrev scan_command : Command
scan_command = record { id = CommandId.fingerprint_scan; ref = 16; payload = 150 ∷ 0 ∷ [] }

command_example :
    (wire : Bytes) × (Message.to_bytes scan_command ≡ ok wire)
    × (Message.from_bytes (wire ++ 0 ∷ 0 ∷ [])
        ≡ ok (record {
          id = command_code CommandId.fingerprint_scan;
          ref = 16;
          status = 0;
          payload = 150 ∷ 0 ∷ [];
        }))
    × (length wire ≡ 6)
command_example =
    command_roundtrip scan_command (0 ∷ 0 ∷ []) (omega arith) (omega arith) (omega arith)

command_run : Message.to_bytes scan_command ≡ ok (0x57 ∷ 2 ∷ 16 ∷ 0 ∷ 150 ∷ 0 ∷ [])
unfolding Message.to_bytes command_code
command_run = refl

time_run : current_time_payload (pos 0) ≡ err before_epoch
unfolding current_time_payload
time_run = refl

name_run : device_name_payload (text "Låsen") ≡ err not_ascii
unfolding device_name_payload
name_run = refl
