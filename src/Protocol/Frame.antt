-- ===== src/Protocol/Frame.antt =====
-- `frame_payload` of custom_components/nimly_manager/nimly_ble/protocol.py: a payload is cut into
-- the packets that carry it.
pub mod Cut
pub mod Limits
use nimly_manager.Base.{
  ℕ, zero, suc, ◌+◌, ◌-◌, ◌*◌, ◌/◌, ◌≤◌, ◌<◌, ◌≡◌, refl, ap, Bool, true, false, List, [], ◌∷◌, ◌++◌,
  map, arith, ltb, leb, Bytes, length, take, drop, to_little, length-take, length-drop,
  length-append, take-append-drop, take_all, All, if◌then◌else◌,
}
use nimly_manager.Base.Result.{Result, ok, err, ◌>>=◌, ◌>>◌, raise_if}
use nimly_manager.Protocol.Packet.{
  Error, int_too_big, byte_range, PacketType, single, single_encrypted, blob_start, blob_stream,
  blob_complete, Packet, to_bytes, raw, to_bytes_fits,
}

abbrev pub single_max_payload : ℕ
single_max_payload = 12

abbrev pub blob_first_chunk : ℕ
blob_first_chunk = 12

abbrev pub blob_chunk : ℕ
blob_chunk = 16

-- [rest[i : i + 16] for i in range(0, len(rest), 16)]. Each round takes a byte at least, so a fuel
-- of `length rest` is enough (`join-chunks`).
unfoldable pub chunks_from : ℕ → Bytes → List Bytes
chunks_from zero rest = []
chunks_from (suc fuel) [] = []
chunks_from (suc fuel) (b ∷ rest) =
    take blob_chunk (b ∷ rest) ∷ chunks_from fuel (drop blob_chunk (b ∷ rest))

unfoldable pub chunks : Bytes → List Bytes
unfolding chunks_from
chunks rest = chunks_from (length rest) rest

-- The packets behind BlobStart: every chunk but the last streams, the last one rides in
-- BlobComplete, which is empty where there is no chunk.
unfoldable pub continuation : ℕ → List Bytes → List Packet
continuation seq [] = record { type = blob_complete; seq = seq; payload = [] } ∷ []
continuation seq (chunk ∷ []) = record { type = blob_complete; seq = seq; payload = chunk } ∷ []
continuation seq (chunk ∷ next ∷ rest) =
    record { type = blob_stream; seq = seq; payload = chunk } ∷ continuation (seq + 1) (next ∷ rest)

-- [p.to_bytes() for p in packets]
unfoldable pub all_to_bytes : List Packet → Result Error (List Bytes)
all_to_bytes [] = ok []
all_to_bytes (p ∷ ps) = do frame ← to_bytes p; frames ← all_to_bytes ps; ok (frame ∷ frames)

-- n.to_bytes(2, "little")
abbrev pub to_two_bytes : ℕ → Result Error Bytes
to_two_bytes n = if ltb n 65536 then ok (to_little 2 n) else err int_too_big

unfoldable pub frame_payload : Bytes → Bool → Result Error (List Bytes)
frame_payload payload encrypted =
    if leb (length payload) single_max_payload
    then (do
      frame ← to_bytes (record {
        type = if encrypted then single_encrypted else single;
        seq = 1;
        payload = payload;
      })
      ok (frame ∷ []))
    else (do
      declared ← to_two_bytes (length payload)
      let head = (if encrypted then 0x01 else 0x00) ∷ declared ++ 0 ∷ []
      let first = take blob_first_chunk payload
      let rest = drop blob_first_chunk payload
      all_to_bytes (
          record { type = blob_start; seq = 1; payload = head ++ first }
          ∷ continuation 2 (chunks rest)))
