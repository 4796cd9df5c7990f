-- ===== src/Protocol/Safety.antt =====
-- What a payload handed out by Reassembler.feed vouches for, and which frames are refused.
use nimly_manager.Base.{
  ℕ, ◌+◌, ◌<◌, ◌≡◌, refl, ◌⊎◌, inl, inr, Option, none, some, List, [], ◌∷◌, ◌++◌, map, arith, Bytes,
  length, All, true, false, ◌∙◌,
}
use nimly_manager.Base.Result.{Result, ok, err}
use nimly_manager.Protocol.Packet.{
  Error, blob_sequence, blob_without_start, PacketType, single, single_encrypted, blob_start,
  blob_stream, blob_complete, ack, nac, error, Packet, from_bytes, raw,
}
use nimly_manager.Protocol.Frame.{continuation}
use nimly_manager.Protocol.Reassembler.{Reassembler, feed, feed_packet, continue_blob}
use nimly_manager.Protocol.RoundTrip.{feed_all, feed-raw}

-- Why a packet may complete a payload: it carries it whole, or it is the BlobComplete that was
-- expected and brings the buffer to the declared total.
pub data Completes (r : Reassembler) (p : Packet) (payload : Bytes) : Type 0 where
  whole :
      (p.type ≡ single) ⊎ (p.type ≡ single_encrypted) → payload ≡ p.payload → Completes r p payload
  last :
      (b : Bytes)
      → p.type ≡ blob_complete
      → r.buffer ≡ some b
      → p.seq ≡ r.next_seq
      → payload ≡ b ++ p.payload
      → length payload ≡ r.expected_total
      → Completes r p payload

continue_sound :
    (p : Packet) (r : Reassembler) (buffer : Option Bytes) (payload : Bytes)
    → r.buffer ≡ buffer
    → p.type ≡ blob_complete
    → (continue_blob true p buffer r).0 ≡ ok (some payload)
    → Completes r p payload
unfolding continue_blob
continue_sound p r none payload e t h = cc
continue_sound p r (some b) payload e t h = last b t e (ground arith) (ground arith) (ground arith)

stream_silent :
    (p : Packet) (r : Reassembler) (buffer : Option Bytes) (payload : Bytes)
    → (continue_blob false p buffer r).0 ≡ ok (some payload)
    → ⊥
unfolding continue_blob
stream_silent p r none payload h = cc
stream_silent p r (some b) payload h = ground arith

feed_packet_sound :
    (t : PacketType) (p : Packet) (r : Reassembler) (payload : Bytes)
    → p.type ≡ t
    → (feed_packet t p r).0 ≡ ok (some payload)
    → Completes r p payload
unfolding feed_packet
feed_packet_sound single p r payload e h = whole (inl e) (ground arith)
feed_packet_sound single_encrypted p r payload e h = whole (inr e) (ground arith)
feed_packet_sound blob_start p r payload e h = ground arith
feed_packet_sound blob_stream p r payload e h = absurd (stream_silent p r r.buffer payload h)
feed_packet_sound blob_complete p r payload e h = continue_sound p r r.buffer payload refl e h
feed_packet_sound ack p r payload e h = cc
feed_packet_sound nac p r payload e h = cc
feed_packet_sound error p r payload e h = cc

feed-parsed :
    (frame : Bytes) (p : Packet) (r : Reassembler)
    → from_bytes frame ≡ ok p
    → feed frame r ≡ feed_packet p.type p r
unfolding feed
feed-parsed frame p r e = rw (e, feed)

feed-malformed :
    (frame : Bytes) (e : Error) (r : Reassembler)
    → from_bytes frame ≡ err e
    → feed frame r ≡ (err e, r)
unfolding feed
feed-malformed frame e r q = rw (q, feed)

feed_sound_by :
    (d : Result Error Packet) (frame payload : Bytes) (r : Reassembler)
    → from_bytes frame ≡ d
    → (feed frame r).0 ≡ ok (some payload)
    → (p : Packet) × (from_bytes frame ≡ ok p) × Completes r p payload
feed_sound_by (err e) frame payload r q h = cc (feed-malformed frame e r q)
feed_sound_by (ok p) frame payload r q h =
    (p, q, feed_packet_sound p.type p r payload refl (cc (feed-parsed frame p r q)))

-- A payload that feed hands out was carried whole by a Single packet, or is the buffer with the
-- payload of a BlobComplete that had the expected sequence number, of the declared total length.
pub feed_sound :
    (frame payload : Bytes) (r : Reassembler)
    → (feed frame r).0 ≡ ok (some payload)
    → (p : Packet) × (from_bytes frame ≡ ok p) × Completes r p payload
feed_sound frame payload r h = feed_sound_by (from_bytes frame) frame payload r refl h

-- An answer that refuses a frame.
abbrev pub Refused : Result Error (Option Bytes) → Type 0
Refused a = (e : Error) × (a ≡ err e)

-- No blob is in progress, or the receiver expects an earlier number.
abbrev pub IsBehind : ℕ → Reassembler → Type 0
IsBehind seq r = (r.buffer ≡ none) ⊎ (r.next_seq < seq)

refuse_stream :
    (c : Bytes) (seq : ℕ) (r : Reassembler) (buffer : Option Bytes)
    → r.buffer ≡ buffer
    → (buffer ≡ none) ⊎ (r.next_seq < seq)
    → (e : Error) × (feed (raw (record { type = blob_stream; seq = seq; payload = c })) r
        ≡ (err e, r))
unfolding feed_packet continue_blob
refuse_stream c seq r none h k = (
  blob_without_start,
  feed-raw (record { type = blob_stream; seq = seq; payload = c }) r ∙ ground arith,
)
refuse_stream c seq r (some b) h (inl k) = absurd (ground arith)
refuse_stream c seq r (some b) h (inr k) = (
  blob_sequence seq r.next_seq,
  feed-raw (record { type = blob_stream; seq = seq; payload = c }) r ∙ ground arith,
)

refuse_complete :
    (c : Bytes) (seq : ℕ) (r : Reassembler) (buffer : Option Bytes)
    → r.buffer ≡ buffer
    → (buffer ≡ none) ⊎ (r.next_seq < seq)
    → (e : Error) × (feed (raw (record { type = blob_complete; seq = seq; payload = c })) r
        ≡ (err e, r))
unfolding feed_packet continue_blob
refuse_complete c seq r none h k = (
  blob_without_start,
  feed-raw (record { type = blob_complete; seq = seq; payload = c }) r ∙ ground arith,
)
refuse_complete c seq r (some b) h (inl k) = absurd (ground arith)
refuse_complete c seq r (some b) h (inr k) = (
  blob_sequence seq r.next_seq,
  feed-raw (record { type = blob_complete; seq = seq; payload = c }) r ∙ ground arith,
)

later-IsBehind : (seq : ℕ) (r : Reassembler) → IsBehind seq r → IsBehind (seq + 1) r
later-IsBehind seq r (inl k) = inl k
later-IsBehind seq r (inr k) = inr (omega arith)

-- A receiver that has no blob in progress, or that expects an earlier sequence number than the first
-- of the frames that continue a blob, refuses all those frames, hands out no payload and stays as it
-- was.
pub missed_frame :
    (cs : List Bytes) (seq : ℕ) (r : Reassembler)
    → IsBehind seq r
    → All Refused (feed_all (map raw (continuation seq cs)) r).0
      × ((feed_all (map raw (continuation seq cs)) r).1 ≡ r)
unfolding feed_all continuation
missed_frame [] seq r k =
    let (e, q) = refuse_complete [] seq r r.buffer refl k in rw q (((e, refl), tt), refl)
missed_frame (c ∷ []) seq r k =
    let (e, q) = refuse_complete c seq r r.buffer refl k in rw q (((e, refl), tt), refl)
missed_frame (c ∷ d ∷ cs) seq r k =
    let (e, q) = refuse_stream c seq r r.buffer refl k in
    let rest = missed_frame (d ∷ cs) (seq + 1) r (later-IsBehind seq r k) in
    (rw q ((e, refl), rest.0), rw (q, feed_all) rest.1)
