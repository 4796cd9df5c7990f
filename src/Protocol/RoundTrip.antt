-- ===== src/Protocol/RoundTrip.antt =====
-- What frame_payload sends, Reassembler.feed puts together again.
use mathlib.Core.List.{tail}
use nimly_manager.Base.{
  ℕ, zero, suc, ◌+◌, ◌%◌, ◌≤◌, ◌<◌, ◌≡◌, refl, ap, sym, ◌∙◌, Bool, true, false, Option, none, some,
  List, [], ◌∷◌, ◌++◌, map, arith, Bytes, length, take, drop, length-drop, take-append-drop, inl,
  inr, ◌⊎◌, append_assoc, append-nil,
}
use nimly_manager.Base.Result.{Result, ok}
use nimly_manager.Protocol.Packet.{
  Error, blob_stream, blob_complete, Packet, raw, from_bytes-raw, from_bytes,
}
use nimly_manager.Protocol.Frame.{chunks_from, chunks, continuation, frame_payload}
use nimly_manager.Protocol.Frame.Cut.{
  join, join-chunks_from, length-chunks_from, blob_packets, start_packet, single_packet,
  frame_payload_single, frame_payload_blob,
}
use nimly_manager.Protocol.Reassembler.{Reassembler, feed, feed_packet}

-- The caller's loop: every frame is fed, and the answers are collected.
unfoldable pub feed_all :
    List Bytes → Reassembler → List (Result Error (Option Bytes)) × Reassembler
feed_all [] r = ([], r)
feed_all (f ∷ fs) r = let (a, r') = feed f r in let (as', r'') = feed_all fs r' in (a ∷ as', r'')

-- The answers to a payload in n + 1 frames: nothing, until the last frame gives it.
abbrev pub answers : ℕ → Bytes → List (Result Error (Option Bytes))
answers zero payload = ok (some payload) ∷ []
answers (suc n) payload = ok none ∷ answers n payload

from_bytes-raw_nil : (p : Packet) → from_bytes (raw p) ≡ ok p
from_bytes-raw_nil p = cc (from_bytes-raw p [], append-nil p.payload)

pub feed-raw : (p : Packet) (r : Reassembler) → feed (raw p) r ≡ feed_packet p.type p r
unfolding feed
feed-raw p r = rw (from_bytes-raw_nil p, feed)

module _ (total : ℕ) where
  -- A reassembler in the middle of a blob.
  abbrev collecting : Bytes → ℕ → Reassembler
  collecting buffer seq = record { buffer = some buffer; expected_total = total; next_seq = seq }

  -- A streamed chunk is appended, and the next sequence number is expected.
  feed_stream :
      (b c : Bytes) (seq : ℕ)
      → seq < 255
      → feed (raw (record { type = blob_stream; seq = seq; payload = c })) (collecting b seq)
        ≡ (ok none, collecting (b ++ c) (seq + 1))
  unfolding feed_packet
  feed_stream b c seq h =
      feed-raw (record { type = blob_stream; seq = seq; payload = c }) (collecting b seq)
      ∙ ground arith

  -- The last chunk completes the payload.
  feed_complete :
      (b c : Bytes) (seq : ℕ)
      → seq < 256
      → length (b ++ c) ≡ total
      → feed (raw (record { type = blob_complete; seq = seq; payload = c })) (collecting b seq) ≡ (
        ok (some (b ++ c)),
        record { buffer = none; expected_total = total; next_seq = (seq + 1) % 256 },
      )
  unfolding feed_packet
  feed_complete b c seq h e =
      feed-raw (record { type = blob_complete; seq = seq; payload = c }) (collecting b seq)
      ∙ ground arith

  feed_all-continuation :
      (cs : List Bytes) (b : Bytes) (seq : ℕ)
      → seq + length cs ≤ 256
      → seq < 256
      → length (b ++ join cs) ≡ total
      → let (given, r) = feed_all (map raw (continuation seq cs)) (collecting b seq) in
        (given ≡ answers (length (tail cs)) (b ++ join cs)) × (r.buffer ≡ none)
  unfolding feed_all continuation join
  feed_all-continuation [] b seq h k e = ground (arith, feed_complete b [] seq k e)
  feed_all-continuation (c ∷ []) b seq h k e =
      let l : length (b ++ c) ≡ total = ap (λ t. length (b ++ t)) (sym (append-nil c)) ∙ e in
      rw append-nil (ground (arith, feed_complete b c seq k l))
  feed_all-continuation (c ∷ d ∷ cs) b seq h k e =
      let l : length ((b ++ c) ++ join (d ∷ cs)) ≡ total =
        ap length (append_assoc b c (join (d ∷ cs))) ∙ e in
      let ih = feed_all-continuation (d ∷ cs) (b ++ c) (seq + 1) (omega arith) (omega arith) l in
      ground (arith, feed_stream b c seq (omega arith), ih, append_assoc b c (d ++ join cs))

length-continuation :
    (seq : ℕ) (cs : List Bytes) → length (map raw (continuation seq cs)) ≡ suc (length (tail cs))
unfolding continuation
length-continuation seq [] = refl
length-continuation seq (c ∷ []) = refl
length-continuation seq (c ∷ d ∷ cs) = ap suc (length-continuation (seq + 1) (d ∷ cs))

feed_start :
    (payload : Bytes) (encrypted : Bool) (r : Reassembler)
    → length payload ≤ 4076
    → feed (raw (start_packet payload encrypted)) r
      ≡ (ok none, collecting (length payload) (take 12 payload) 2)
unfolding feed_packet
feed_start payload encrypted r h = feed-raw (start_packet payload encrypted) r ∙ ground arith

-- The blob's frames, from any state of the receiver.
blob_roundtrip :
    (payload : Bytes) (encrypted : Bool) (r : Reassembler)
    → length payload ≤ 4076
    → let frames = map raw (blob_packets payload encrypted) in
      let (given, r') = feed_all frames r in
      (given ≡ answers (length (tail frames)) payload) × (r'.buffer ≡ none)
unfolding blob_packets chunks feed_all
blob_roundtrip payload encrypted r h =
    let rest = drop 12 payload in
    let cs = chunks_from (length rest) rest in
    let whole : take 12 payload ++ join cs ≡ payload =
      ap (λ t. take 12 payload ++ t) (join-chunks_from (length rest) rest (omega arith))
      ∙ take-append-drop 12 payload in
    let tail_given =
      feed_all-continuation (length payload) cs (take 12 payload) 2
        (omega (arith, length-chunks_from (length rest) rest (omega arith), length-drop 12 payload))
        (omega arith) (ap length whole) in
    ground (arith, feed_start payload encrypted r h, tail_given, whole, length-continuation 2 cs)

single_roundtrip :
    (payload : Bytes) (encrypted : Bool) (r : Reassembler)
    → let (given, r') = feed_all (raw (single_packet payload encrypted) ∷ []) r in
      (given ≡ answers 0 payload) × (r'.buffer ≡ none)
unfolding feed_all feed_packet
single_roundtrip payload true r = ground (arith, feed-raw (single_packet payload true) r)
single_roundtrip payload false r = ground (arith, feed-raw (single_packet payload false) r)

-- A payload of at most 4076 bytes is framed, and a receiver in any state at all, fed with these
-- frames in order, answers nothing until the last one, answers the payload to the last one, and is
-- left with no blob in progress.
pub frame_roundtrip :
    (payload : Bytes) (encrypted : Bool) (r : Reassembler)
    → length payload ≤ 4076
    → (frames : List Bytes) × (frame_payload payload encrypted ≡ ok frames)
      × ((feed_all frames r).0 ≡ answers (length (tail frames)) payload)
      × ((feed_all frames r).1.buffer ≡ none)
frame_roundtrip payload encrypted r h = elim sizes [
  | inl small ↦
      let single_given = single_roundtrip payload encrypted r in
      (
        raw (single_packet payload encrypted) ∷ [],
        frame_payload_single payload encrypted small,
        single_given.0,
        single_given.1,
      )
  | inr large ↦
      let back = blob_roundtrip payload encrypted r h in
      (
        map raw (blob_packets payload encrypted),
        frame_payload_blob payload encrypted large h,
        back.0,
        back.1,
      )
]
  where
    sizes : (length payload ≤ 12) ⊎ (12 < length payload)
    sizes = omega arith
