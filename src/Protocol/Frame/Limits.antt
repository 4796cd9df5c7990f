-- ===== src/Protocol/Frame/Limits.antt =====
-- The limits of frame_payload: every frame fits an MTU-23 write, and a payload over 4076 bytes is
-- refused, since its packets would need a sequence number over 255.
use nimly_manager.Base.{
  ℕ, zero, suc, ◌+◌, ◌*◌, ◌≤◌, ◌<◌, ◌≡◌, Bool, List, [], ◌∷◌, map, arith, Bytes, length, drop,
  length-take, length-drop, All, ltb, if◌then◌else◌, ◌⊎◌, inl, inr,
}
use nimly_manager.Base.Result.{ok, err}
use nimly_manager.Protocol.Packet.{
  byte_range, int_too_big, Packet, to_bytes, raw, to_bytes_fits, code-lt, blob_stream,
  blob_complete,
}
use nimly_manager.Protocol.Frame.{chunks_from, chunks, continuation, all_to_bytes, frame_payload}
use nimly_manager.Protocol.Frame.Cut.{
  IsChunk, chunks_from-IsChunk, IsFrame, blob_packets, blob_packets-IsFrame, frame_payload_single,
  frame_payload_blob, single_packet, start_packet,
}

chunks_from_cover :
    (fuel : ℕ) (bs : Bytes) → length bs ≤ fuel → length bs ≤ 16 * length (chunks_from fuel bs)
unfolding chunks_from
chunks_from_cover zero bs h = omega arith
chunks_from_cover (suc fuel) [] h = omega arith
chunks_from_cover (suc fuel) (b ∷ bs) h = omega (
  arith,
  chunks_from_cover fuel (drop 16 (b ∷ bs)) (omega (arith, length-drop 16 (b ∷ bs))),
  length-drop 16 (b ∷ bs),
)

to_bytes_seq : (p : Packet) → length p.payload ≤ 255 → 256 ≤ p.seq → to_bytes p ≡ err byte_range
unfolding to_bytes
to_bytes_seq p h k = ground (arith, code-lt p.type)

-- The packets run out of sequence numbers.
continuation_overflow :
    (seq : ℕ) (c : Bytes) (cs : List Bytes)
    → IsChunk c
    → All IsChunk cs
    → seq ≤ 256
    → 256 ≤ seq + length cs
    → all_to_bytes (continuation seq (c ∷ cs)) ≡ err byte_range
unfolding all_to_bytes continuation
continuation_overflow seq c [] k h l m =
    ground (arith, to_bytes_seq (record { type = blob_complete; seq = seq; payload = c }))
continuation_overflow seq c (d ∷ cs) k h l m = elim le_cases [
  | inl low ↦ ground (
    arith,
    to_bytes_fits (record { type = blob_stream; seq = seq; payload = c }),
    continuation_overflow (seq + 1) d cs h.0 h.1 (omega arith) (omega arith),
  )
  | inr top ↦ ground (arith, to_bytes_seq (record { type = blob_stream; seq = seq; payload = c }))
]
  where
    le_cases : (seq < 256) ⊎ (256 ≤ seq)
    le_cases = omega arith

overflow_chunks :
    (cs : List Bytes)
    → All IsChunk cs
    → 254 < length cs
    → all_to_bytes (continuation 2 cs) ≡ err byte_range
overflow_chunks [] h l = absurd (omega arith)
overflow_chunks (c ∷ cs) h l = continuation_overflow 2 c cs h.0 h.1 (omega arith) (omega arith)

blob_overflow :
    (bs : Bytes) → 4064 < length bs → all_to_bytes (continuation 2 (chunks bs)) ≡ err byte_range
unfolding chunks
blob_overflow bs h =
    overflow_chunks (chunks bs) (chunks_from-IsChunk (length bs) bs)
      (omega (arith, chunks_from_cover (length bs) bs (omega arith)))

-- A payload of more than 4076 bytes is never framed: below 65536 bytes `bytes([...])` refuses the
-- sequence number 256, from there on `to_bytes(2, "little")` refuses the length.
pub frame_payload_too_long :
    (payload : Bytes) (encrypted : Bool)
    → 4076 < length payload
    → frame_payload payload encrypted
      ≡ err (if ltb (length payload) 65536 then byte_range else int_too_big)
unfolding frame_payload all_to_bytes
frame_payload_too_long payload encrypted h = ground (
  arith,
  to_bytes_fits (start_packet payload encrypted),
  length-take 12 payload,
  length-drop 12 payload,
  blob_overflow (drop 12 payload),
)

-- Whatever the payload, each frame that frame_payload returns has at most 20 bytes, what one
-- write holds at the MTU of 23.
pub frame_payload_mtu :
    (payload : Bytes) (encrypted : Bool) (frames : List Bytes)
    → frame_payload payload encrypted ≡ ok frames
    → All IsFrame frames
frame_payload_mtu payload encrypted frames h = elim sizes [
  | inl small ↦
      let e : frames ≡ raw (single_packet payload encrypted) ∷ [] =
        cc (frame_payload_single payload encrypted small) in
      rw e (omega arith, tt)
  | inr (inl (large, fits)) ↦
      let e : frames ≡ map raw (blob_packets payload encrypted) =
        cc (frame_payload_blob payload encrypted large fits) in
      rw e (blob_packets-IsFrame payload encrypted)
  | inr (inr huge) ↦ cc (frame_payload_too_long payload encrypted huge)
]
  where
    sizes :
        (length payload ≤ 12)
        ⊎ (((12 < length payload) × (length payload ≤ 4076)) ⊎ (4076 < length payload))
    sizes = ground arith
