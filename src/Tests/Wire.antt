-- ===== src/Tests/Wire.antt =====
-- Packets, framing and reassembly of custom_components/nimly_manager/nimly_ble/protocol.py.
use nimly_manager.Base.{
  inr, ◌≡◌, refl, true, false, none, some, List, [], ◌∷◌, arith, Bytes, length, All, map, replicate,
}
use nimly_manager.Base.Result.{ok, err}
use nimly_manager.Protocol.Packet
use nimly_manager.Protocol.Packet.{
  Packet, PacketType, int_too_big, byte_range, raw, from_bytes-to_bytes,
}
use nimly_manager.Protocol.Frame.{frame_payload, continuation}
use nimly_manager.Protocol.Frame.Limits.{frame_payload_too_long, frame_payload_mtu}
use nimly_manager.Protocol.Frame.Cut.{IsFrame}
use nimly_manager.Protocol.Reassembler.{Reassembler, feed}
use nimly_manager.Protocol.RoundTrip.{frame_roundtrip, feed_all, answers}
use mathlib.Core.List.{tail}
use nimly_manager.Protocol.Safety.{feed_sound, missed_frame, Completes, Refused}

abbrev ack_packet : Packet
ack_packet = record { type = PacketType.ack; seq = 7; payload = 1 ∷ 2 ∷ [] }

packet_run : Packet.to_bytes ack_packet ≡ ok (0x06 ∷ 2 ∷ 0 ∷ 7 ∷ 1 ∷ 2 ∷ [])
unfolding Packet.to_bytes Packet.code
packet_run = refl

-- Thirty bytes travel as BlobStart, BlobStream and BlobComplete.
abbrev thirty : Bytes
thirty = replicate 30 0x5a

-- A receiver in the middle of another blob.
abbrev busy : Reassembler
busy = record { buffer = some (1 ∷ []); expected_total = 9; next_seq = 3 }

framing_example :
    (frames : List Bytes) × (frame_payload thirty true ≡ ok frames)
    × ((feed_all frames busy).0 ≡ answers (length (tail frames)) thirty)
    × ((feed_all frames busy).1.buffer ≡ none)
framing_example = frame_roundtrip thirty true busy (omega arith)

abbrev short_frames : List Bytes
short_frames = (0x01 ∷ 3 ∷ 0 ∷ 1 ∷ 7 ∷ 8 ∷ 9 ∷ []) ∷ []

short_run : frame_payload (7 ∷ 8 ∷ 9 ∷ []) false ≡ ok short_frames
unfolding frame_payload Packet.to_bytes Packet.code
short_run = refl

mtu_example : All IsFrame short_frames
mtu_example = frame_payload_mtu (7 ∷ 8 ∷ 9 ∷ []) false short_frames short_run

single_answer : (feed (0x01 ∷ 2 ∷ 0 ∷ 1 ∷ 7 ∷ 8 ∷ []) busy).0 ≡ ok (some (7 ∷ 8 ∷ []))
unfolding feed Packet.from_bytes Packet.of_code
single_answer = refl

feed_example :
    (p : Packet) × (Packet.from_bytes (0x01 ∷ 2 ∷ 0 ∷ 1 ∷ 7 ∷ 8 ∷ []) ≡ ok p)
    × Completes busy p (7 ∷ 8 ∷ [])
feed_example = feed_sound (0x01 ∷ 2 ∷ 0 ∷ 1 ∷ 7 ∷ 8 ∷ []) (7 ∷ 8 ∷ []) busy single_answer

missed_example :
    All Refused (feed_all (map raw (continuation 4 ((5 ∷ []) ∷ (6 ∷ []) ∷ []))) busy).0
    × ((feed_all (map raw (continuation 4 ((5 ∷ []) ∷ (6 ∷ []) ∷ []))) busy).1 ≡ busy)
missed_example = missed_frame ((5 ∷ []) ∷ (6 ∷ []) ∷ []) 4 busy (inr (omega arith))

too_long_example : frame_payload (replicate 4100 0) false ≡ err byte_range
too_long_example = frame_payload_too_long (replicate 4100 0) false (omega arith)
