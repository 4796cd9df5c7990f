-- ===== src/Tests/Link.antt =====
-- Conversations with a lock that a test plays: custom_components/nimly_manager/nimly_ble/session.py.
use nimly_manager.Base.{
  ℕ, ◌%◌, ◌+◌, ◌≡◌, refl, ap, true, false, Bool, none, some, List, [], ◌∷◌, Bytes, to_little,
  length-to_little, arith, if◌then◌else◌,
}
use nimly_manager.Base.Result.{Result, ok, err}
use nimly_manager.Crypto.{
  Cbc, Curve, coordinate_limit, public_key_to_wire, reversed_shared_secret, zero_pad,
}
use nimly_manager.Crypto.Exchange.{IsCurve, reversed_shared_secret_agree}
use nimly_manager.Firmware.{FirmwareVersion}
use nimly_manager.Protocol.Packet
use nimly_manager.Protocol.Frame.{frame_payload}
use nimly_manager.Protocol.Message.{Response, device_model_get, is_event, is_ok, next}
use nimly_manager.Session.{Round, Session, quiet, new_session, send}
use nimly_manager.Session.Receive.{send_sound}
use nimly_manager.Session.Answered.{response_bytes, send_answered}
use nimly_manager.Tests.Sample.{plain_cipher, plain_cipher-IsCbc}

-- A curve whose secret is the sum of the private keys.
abbrev pub sum_curve : Curve
sum_curve = record {
  public_of = λ a. (a % 256, 0);
  shared = λ a p. some (to_little 32 (a % 256 + p.0));
}

sum_curve-IsCurve : IsCurve sum_curve
unfolding coordinate_limit
sum_curve-IsCurve = record {
  fits_x = λ a. omega arith;
  fits_y = λ a. omega arith;
  agree = λ a b. (
    to_little 32 (a % 256 + b % 256),
    refl,
    ap (λ n. some (to_little 32 n)) (omega arith),
    length-to_little 32 (a % 256 + b % 256),
  );
}

agree_example :
    (wire_a wire_b secret : Bytes) × (public_key_to_wire (sum_curve.public_of 3) ≡ ok wire_a)
    × (public_key_to_wire (sum_curve.public_of 9) ≡ ok wire_b)
    × (reversed_shared_secret sum_curve 3 wire_b ≡ ok secret)
    × (reversed_shared_secret sum_curve 9 wire_a ≡ ok secret)
agree_example = reversed_shared_secret_agree sum_curve 3 9 sum_curve-IsCurve

abbrev frames_of : Result Packet.Error (List Bytes) → List Bytes
frames_of (ok frames) = frames
frames_of (err e) = []

-- The frames of a response with success, on a link or before there is one.
abbrev pub answer : Bool → ℕ → ℕ → Bytes → Round
answer linked id ref payload =
    let wire = response_bytes (record { id = id; ref = ref; status = 0; payload = payload }) in
    record quiet {
      during = frames_of (frame_payload (if linked then zero_pad wire else wire) linked);
    }

abbrev pub recent : FirmwareVersion
recent = record { major = 4; minor = 7; patch = 90 }

abbrev model_answer : Response
model_answer = record { id = 0x62; ref = 1; status = 0; payload = 23 ∷ [] }

-- An event comes before the answer.
abbrev talk : Session
talk = new_session recent (
    record (answer false 0x62 1 (23 ∷ [])) {
      before = frames_of (frame_payload (0x14 ∷ 3 ∷ 0x80 ∷ 0 ∷ 150 ∷ 0 ∷ 3 ∷ []) false);
    }
    ∷ [])

talk_run : (send plain_cipher device_model_get [] talk).0 ≡ ok model_answer
unfolding send nimly_manager.Protocol.Message.to_bytes next nimly_manager.Session.hear new_session
    frame_payload Packet.to_bytes Packet.code nimly_manager.Session.on_notify
    nimly_manager.Protocol.Reassembler.feed Packet.from_bytes Packet.of_code
    nimly_manager.Session.deliver nimly_manager.Protocol.Message.from_bytes is_event
    nimly_manager.Protocol.Message.command_code nimly_manager.Session.exchange
    nimly_manager.Crypto.decrypt nimly_manager.Crypto.encrypt zero_pad
    nimly_manager.Firmware.at_least nimly_manager.Protocol.Events.added_status_name
    nimly_manager.Protocol.Events.lock_state_name nimly_manager.Protocol.Events.method_name
    nimly_manager.Protocol.Events.parse_event nimly_manager.Protocol.Frame.all_to_bytes
    nimly_manager.Protocol.Frame.chunks nimly_manager.Protocol.Frame.chunks_from
    nimly_manager.Protocol.Frame.continuation is_ok nimly_manager.Protocol.Message.new_counter
    nimly_manager.Protocol.Reassembler.continue_blob nimly_manager.Protocol.Reassembler.feed_packet
    nimly_manager.Protocol.Reassembler.finish_buffer
    nimly_manager.Protocol.Reassembler.finish_if_done nimly_manager.Protocol.Reassembler.start_blob
    nimly_manager.Session.accept nimly_manager.Session.open_payload nimly_manager.Session.resolve
    nimly_manager.Session.seal nimly_manager.Session.send_command nimly_manager.Session.send_raw
    nimly_manager.Session.send_wire nimly_manager.Session.transmit
talk_run = refl

send_example :
    (model_answer.ref ≡ (next talk.refs).0)
    × (is_event model_answer ≡ false)
    × (is_ok model_answer ≡ true)
    × ((send plain_cipher device_model_get [] talk).1.pending ≡ none)
unfolding new_session
send_example = send_sound plain_cipher device_model_get [] talk model_answer refl talk_run

answered_example : (send plain_cipher device_model_get [] talk).0 ≡ ok model_answer
unfolding is_ok next new_session frame_payload nimly_manager.Session.seal Packet.to_bytes
    Packet.code
answered_example =
    send_answered plain_cipher device_model_get [] model_answer talk plain_cipher-IsCbc
      (omega arith) (omega arith) refl (omega arith) (omega arith) refl (refl, refl)
