-- ===== src/Protocol/Frame/Cut.antt =====
-- How frame_payload cuts a payload: the chunks, the packets and the bounds on them.
use nimly_manager.Base.{
  ℕ, zero, suc, ◌+◌, ◌*◌, ◌≤◌, ◌<◌, ◌≡◌, refl, Bool, List, [], ◌∷◌, ◌++◌, map, arith, Bytes, length,
  take, drop, to_little, length-take, length-drop, take-append-drop, All, if◌then◌else◌,
}
use nimly_manager.Base.Result.{ok}
use nimly_manager.Protocol.Packet.{single, single_encrypted, blob_start, Packet, raw, to_bytes_fits}
use nimly_manager.Protocol.Frame.{chunks_from, chunks, continuation, all_to_bytes, frame_payload}

unfoldable pub join : List Bytes → Bytes
join [] = []
join (c ∷ cs) = c ++ join cs

pub join-chunks_from : (fuel : ℕ) (bs : Bytes) → length bs ≤ fuel → join (chunks_from fuel bs) ≡ bs
unfolding join chunks_from
join-chunks_from zero [] h = refl
join-chunks_from zero (b ∷ bs) h = absurd (omega arith)
join-chunks_from (suc fuel) [] h = refl
join-chunks_from (suc fuel) (b ∷ bs) h =
    rw (join-chunks_from fuel (drop 16 (b ∷ bs)) (omega (arith, length-drop 16 (b ∷ bs))))
      (take-append-drop 16 (b ∷ bs))

pub length-chunks_from :
    (fuel : ℕ) (bs : Bytes) → length bs ≤ fuel → 16 * length (chunks_from fuel bs) ≤ length bs + 15
unfolding chunks_from
length-chunks_from zero bs h = omega arith
length-chunks_from (suc fuel) [] h = omega arith
length-chunks_from (suc fuel) (b ∷ bs) h = omega (
  arith,
  length-chunks_from fuel (drop 16 (b ∷ bs)) (omega (arith, length-drop 16 (b ∷ bs))),
  length-drop 16 (b ∷ bs),
)

abbrev pub IsChunk : Bytes → Type 0
IsChunk c = length c ≤ 16

pub chunks_from-IsChunk : (fuel : ℕ) (bs : Bytes) → All IsChunk (chunks_from fuel bs)
unfolding chunks_from
chunks_from-IsChunk zero bs = tt
chunks_from-IsChunk (suc fuel) [] = tt
chunks_from-IsChunk (suc fuel) (b ∷ bs) =
    (omega (arith, length-take 16 (b ∷ bs)), chunks_from-IsChunk fuel (drop 16 (b ∷ bs)))

-- A packet that `to_bytes` accepts.
abbrev Fits : Packet → Type 0
Fits p = (length p.payload ≤ 255) × (p.seq < 256)

pub all_to_bytes-Fits : (ps : List Packet) → All Fits ps → all_to_bytes ps ≡ ok (map raw ps)
unfolding all_to_bytes
all_to_bytes-Fits [] h = refl
all_to_bytes-Fits (p ∷ ps) h = rw (to_bytes_fits p h.0.0 h.0.1, all_to_bytes-Fits ps h.1)

pub continuation-Fits :
    (seq : ℕ) (cs : List Bytes)
    → All IsChunk cs
    → seq < 256
    → seq + length cs ≤ 256
    → All Fits (continuation seq cs)
unfolding continuation
continuation-Fits seq [] h k l = ((omega arith, k), tt)
continuation-Fits seq (c ∷ []) h k l = ((omega arith, k), tt)
continuation-Fits seq (c ∷ d ∷ cs) h k l =
    ((omega arith, k), continuation-Fits (seq + 1) (d ∷ cs) h.1 (omega arith) (omega arith))

-- The packets that carry a payload.
abbrev pub start_packet : Bytes → Bool → Packet
start_packet payload encrypted = record {
  type = blob_start;
  seq = 1;
  payload =
      ((if encrypted then 0x01 else 0x00) ∷ to_little 2 (length payload) ++ 0 ∷ [])
      ++ take 12 payload;
}

abbrev pub single_packet : Bytes → Bool → Packet
single_packet payload encrypted = record {
  type = if encrypted then single_encrypted else single;
  seq = 1;
  payload = payload;
}

unfoldable pub blob_packets : Bytes → Bool → List Packet
blob_packets payload encrypted =
    start_packet payload encrypted ∷ continuation 2 (chunks (drop 12 payload))

length-chunks : (bs : Bytes) → 16 * length (chunks bs) ≤ length bs + 15
unfolding chunks
length-chunks bs = length-chunks_from (length bs) bs (omega arith)

blob_packets-Fits :
    (payload : Bytes) (encrypted : Bool)
    → length payload ≤ 4076
    → All Fits (blob_packets payload encrypted)
unfolding blob_packets chunks
blob_packets-Fits payload encrypted h = (
  (omega (arith, length-take 12 payload), omega arith),
  continuation-Fits 2 (chunks (drop 12 payload))
      (chunks_from-IsChunk (length (drop 12 payload)) (drop 12 payload)) (omega arith)
      (omega (arith, length-chunks (drop 12 payload), length-drop 12 payload)),
)

pub frame_payload_single :
    (payload : Bytes) (encrypted : Bool)
    → length payload ≤ 12
    → frame_payload payload encrypted ≡ ok (raw (single_packet payload encrypted) ∷ [])
unfolding frame_payload
frame_payload_single payload encrypted h =
    ground (arith, to_bytes_fits (single_packet payload encrypted))

pub frame_payload_blob :
    (payload : Bytes) (encrypted : Bool)
    → 12 < length payload
    → length payload ≤ 4076
    → frame_payload payload encrypted ≡ ok (map raw (blob_packets payload encrypted))
unfolding frame_payload blob_packets
frame_payload_blob payload encrypted l h = ground (
  arith,
  all_to_bytes-Fits (blob_packets payload encrypted) (blob_packets-Fits payload encrypted h),
)

-- What the framing promises of each frame: it fits the 20 bytes of an MTU-23 write.
abbrev pub IsFrame : Bytes → Type 0
IsFrame f = length f ≤ 20

raw-continuation-IsFrame :
    (seq : ℕ) (cs : List Bytes) → All IsChunk cs → All IsFrame (map raw (continuation seq cs))
unfolding continuation
raw-continuation-IsFrame seq [] h = (omega arith, tt)
raw-continuation-IsFrame seq (c ∷ []) h = (omega arith, tt)
raw-continuation-IsFrame seq (c ∷ d ∷ cs) h =
    (omega arith, raw-continuation-IsFrame (seq + 1) (d ∷ cs) h.1)

pub blob_packets-IsFrame :
    (payload : Bytes) (encrypted : Bool) → All IsFrame (map raw (blob_packets payload encrypted))
unfolding blob_packets chunks
blob_packets-IsFrame payload encrypted = (
  omega (arith, length-take 12 payload),
  raw-continuation-IsFrame 2 (chunks (drop 12 payload))
      (chunks_from-IsChunk (length (drop 12 payload)) (drop 12 payload)),
)
