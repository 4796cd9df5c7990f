-- ===== src/Session/Answered.antt =====
-- A lock that answers is heard: the way of a command and its answer through the layers of
-- custom_components/nimly_manager/nimly_ble/session.py, crypto.py and protocol.py.
use mathlib.Core.Path.{subst}
use mathlib.Core.List.{tail}
use nimly_manager.Base.{
  ℕ, zero, suc, ◌-◌, ◌%◌, ◌≤◌, ◌≡◌, refl, ap, sym, ◌∙◌, is_some, true, false, Option, none, some,
  List, [], ◌∷◌, ◌++◌, ◌==◌, ==_refl, Bytes, arith, length, take-append, length-append, append-nil,
  replicate, Bool-cases, inl, inr,
}
use nimly_manager.Base.Result.{ok}
use nimly_manager.Crypto.{Cbc, LinkKeys, zero_pad, encrypt}
use nimly_manager.Crypto.Laws.{IsCbc, decrypt-encrypt, zero_pad_whole, length-zero_pad}
use nimly_manager.Protocol.Frame.{frame_payload}
use nimly_manager.Protocol.Message
use nimly_manager.Protocol.Message.{CommandId, Command, Response, is_ok, is_event, next}
use nimly_manager.Protocol.Reassembler.{feed}
use nimly_manager.Protocol.RoundTrip.{feed_all, answers, frame_roundtrip}
use nimly_manager.Protocol.Message.Laws.{command_roundtrip}
use nimly_manager.Session.Receive.{hear-Kept}
use nimly_manager.Session.{
  Round, Session, accepted, is_broken, or_timeout, front_round, later_rounds, accept, on_notify,
  hear, deliver, deliver_plain, open_payload, seal, exchange, transmit, send_wire, send_raw,
  send_command, send,
}

-- A response as the lock writes it.
abbrev pub response_bytes : Response → Bytes
response_bytes r = r.id ∷ length r.payload ∷ r.ref ∷ r.status ∷ r.payload

zero_pad-append : (plain : Bytes) → (zeros : Bytes) × (zero_pad plain ≡ plain ++ zeros)
unfolding zero_pad
zero_pad-append plain = elim (Bool-cases (length plain % 16 == 0)) [
  | inl whole ↦ ([], rw whole (sym (append-nil plain)))
  | inr partial ↦ (replicate (16 - length plain % 16) 0, rw partial refl)
]

from_bytes-response_bytes :
    (r : Response) (zeros : Bytes) → Message.from_bytes (response_bytes r ++ zeros) ≡ ok r
unfolding Message.from_bytes
from_bytes-response_bytes r zeros =
    ground (arith, take-append r.payload zeros, length-append r.payload zeros)

module _ (aes : Cbc) (laws : IsCbc aes) where
  -- What a link seals, its other end opens and reads.
  open_payload-seal :
      (link : Option LinkKeys) (r : Response)
      → (plain : Bytes) × (open_payload aes link (seal aes link (response_bytes r)) ≡ ok plain)
        × (Message.from_bytes plain ≡ ok r)
  unfolding open_payload seal
  open_payload-seal none r = (
    response_bytes r,
    refl,
    ap Message.from_bytes (sym (append-nil (response_bytes r))) ∙ from_bytes-response_bytes r [],
  )
  open_payload-seal (some link) r =
      let wire = response_bytes r in
      let (zeros, padded) = zero_pad-append wire in
      (
        zero_pad wire,
        (decrypt-encrypt aes link.key link.iv wire laws).0,
        ap Message.from_bytes padded ∙ from_bytes-response_bytes r zeros,
      )

-- Frames that give one payload, at the end, are one payload accepted.
hear-answers :
    (aes : Cbc) (n : ℕ) (fs : List Bytes) (payload : Bytes) (s : Session)
    → (feed_all fs s.reassembler).0 ≡ answers n payload
    → hear aes fs s
      ≡ accept aes (ok (some payload)) (record s { reassembler = (feed_all fs s.reassembler).1 })
unfolding hear feed_all on_notify
hear-answers aes zero [] payload s h = cc
hear-answers aes (suc n) [] payload s h = cc
hear-answers aes zero (f ∷ g ∷ fs) payload s h = cc
hear-answers aes zero (f ∷ []) payload s h =
    let fed = record s { reassembler = (feed f s.reassembler).1 } in
    let e : (feed f s.reassembler).0 ≡ ok (some payload) = cc in ap (λ r. accept aes r fed) e
hear-answers aes (suc n) (f ∷ fs) payload s h =
    let fed = record s { reassembler = (feed f s.reassembler).1 } in
    let e : (feed f s.reassembler).0 ≡ ok none = cc in
    let k : (feed_all fs fed.reassembler).0 ≡ answers n payload = cc in
    ap (λ r. hear aes fs (accept aes r fed)) e ∙ hear-answers aes n fs payload fed k

-- A session in which `ref` is awaited takes the answer to it.
deliver_awaited :
    (r : Response) (s : Session)
    → is_event r ≡ false
    → s.pending ≡ some r.ref
    → (deliver (ok r) s).answer ≡ some r
unfolding deliver
deliver_awaited r s h k = ground (arith, ==_refl r.ref)

-- What the lock does on this link: it writes the frames of the answer while it is awaited, and the
-- program's writes succeed.
abbrev pub Answers : Cbc → Response → Option LinkKeys → Round → Type 0
Answers aes r link round =
    (frame_payload (seal aes link (response_bytes r)) (is_some link) ≡ ok round.during)
    × (round.broken ≡ none)

module _ (aes : Cbc) (laws : IsCbc aes) (r : Response) (plain_ref : is_event r ≡ false) where
  accept_awaited :
      (s : Session)
      → s.pending ≡ some r.ref
      → (accept aes (ok (some (seal aes s.link (response_bytes r)))) s).answer ≡ some r
  unfolding accept
  accept_awaited s awaited =
      let (plain, opened, parsed) = open_payload-seal aes laws s.link r in
      ap (λ p. (deliver_plain p s).answer) opened
      ∙ (ap (λ p. (deliver p s).answer) parsed ∙ deliver_awaited r s plain_ref awaited)

  -- The frames of the answer, heard while it is awaited.
  hear_awaited :
      (frames : List Bytes) (s : Session)
      → length (seal aes s.link (response_bytes r)) ≤ 4076
      → frame_payload (seal aes s.link (response_bytes r)) (is_some s.link) ≡ ok frames
      → s.pending ≡ some r.ref
      → (hear aes frames s).answer ≡ some r
  hear_awaited frames s short framed awaited =
      let sealed = seal aes s.link (response_bytes r) in
      let (sent, framed', given, _) = frame_roundtrip sealed (is_some s.link) s.reassembler short in
      let same : sent ≡ frames = cc in
      let given' : (feed_all frames s.reassembler).0 ≡ answers (length (tail frames)) sealed =
        rw (sym same) given in
      ap (λ t. t.answer) (hear-answers aes (length (tail frames)) frames sealed s given')
      ∙ accept_awaited (record s { reassembler = (feed_all frames s.reassembler).1 }) awaited

  exchange_answered :
      (round : Round) (frames : List Bytes) (s : Session)
      → length (seal aes s.link (response_bytes r)) ≤ 4076
      → Answers aes r s.link round
      → s.pending ≡ some r.ref
      → (exchange aes round frames s).0 ≡ ok r
  unfolding exchange
  exchange_answered round frames s short answered awaited =
      let writing : Session = record s { written = s.written ++ accepted round.broken frames } in
      let whole : is_broken round.broken frames ≡ false = ap (λ b. is_broken b frames) answered.1 in
      rw whole (ap or_timeout (hear_awaited round.during writing short answered.0 awaited))

  transmit_answered :
      (round : Round) (wire : Bytes) (s : Session)
      → length (seal aes s.link wire) ≤ 4076
      → length (seal aes s.link (response_bytes r)) ≤ 4076
      → Answers aes r s.link round
      → s.pending ≡ some r.ref
      → (transmit aes round (seal aes s.link wire) (is_some s.link) s).0 ≡ ok r
  unfolding transmit
  transmit_answered round wire s fits short answered awaited =
      let (frames, framed, _, _) =
        frame_roundtrip (seal aes s.link wire) (is_some s.link) s.reassembler fits in
      rw framed (exchange_answered round frames s short answered awaited)

seal_short :
    (aes : Cbc) (laws : IsCbc aes) (link : Option LinkKeys) (wire : Bytes)
    → length wire ≤ 259
    → length (seal aes link wire) ≤ 4076
unfolding seal encrypt
seal_short aes laws none wire h = omega arith
seal_short aes laws (some link) [] h = omega arith
seal_short aes laws (some link) (b ∷ bs) h = omega (
  arith,
  laws.length_kept link.key link.iv (zero_pad (b ∷ bs)) (zero_pad_whole (b ∷ bs)),
  length-zero_pad (b ∷ bs),
)

-- A command that its class accepts has at most 259 bytes.
command_wire :
    (command : Command)
    → 1 ≤ command.ref
    → command.ref ≤ 254
    → length command.payload ≤ 255
    → (wire : Bytes) × (Message.to_bytes command ≡ ok wire) × (length wire ≤ 259)
command_wire command lo hi short =
    let (wire, encoded, _, len) = command_roundtrip command [] lo hi short in
    (wire, encoded, omega arith)

response_short :
    (aes : Cbc) (laws : IsCbc aes) (link : Option LinkKeys) (r : Response)
    → length r.payload ≤ 255
    → length (seal aes link (response_bytes r)) ≤ 4076
response_short aes laws link r h = seal_short aes laws link (response_bytes r) (omega arith)

module _ (aes : Cbc) (laws : IsCbc aes) (r : Response) (round : Round)
    (plain_ref : is_event r ≡ false) (short_in : length r.payload ≤ 255) where
  send_wire_answered :
      (wire : Bytes) (s : Session)
      → length wire ≤ 259
      → Answers aes r s.link round
      → (send_wire aes round r.ref wire s).0 ≡ ok r
  unfolding send_wire
  send_wire_answered wire s fits answered =
      transmit_answered aes laws r plain_ref round wire
        (record s { pending = some r.ref; answer = none }) (seal_short aes laws s.link wire fits)
        (response_short aes laws s.link r short_in) answered refl

  send_raw_answered :
      (command : Command) (s : Session)
      → 1 ≤ command.ref
      → command.ref ≤ 254
      → length command.payload ≤ 255
      → command.ref ≡ r.ref
      → Answers aes r s.link round
      → (send_raw aes round command s).0 ≡ ok r
  unfolding send_raw
  send_raw_answered command s lo hi short same answered =
      let (wire, encoded, fits) = command_wire command lo hi short in
      rw (encoded, same) (send_wire_answered wire s fits answered)

  send_command_answered :
      (command : Command) (s : Session)
      → 1 ≤ command.ref
      → command.ref ≤ 254
      → length command.payload ≤ 255
      → command.ref ≡ r.ref
      → is_ok r ≡ true
      → Answers aes r s.link round
      → (send_command aes round command s).0 ≡ ok r
  unfolding send_command
  send_command_answered command s lo hi short same success answered =
      let e = send_raw_answered command s lo hi short same answered in ground arith

-- A lock on the other end of the link that answers a command while it is awaited, with the
-- command's reference and success, is heard: send returns its response, whatever came before and
-- comes after, and in whatever state the receiver was left.
pub send_answered :
    (aes : Cbc) (id : CommandId) (payload : Bytes) (r : Response) (s : Session)
    → IsCbc aes
    → 1 ≤ r.ref
    → r.ref ≤ 127
    → is_ok r ≡ true
    → length payload ≤ 255
    → length r.payload ≤ 255
    → (next s.refs).0 ≡ r.ref
    → Answers aes r s.link (front_round s.air)
    → (send aes id payload s).0 ≡ ok r
unfolding send is_event
send_answered aes id payload r s laws lo hi success short_out short_in ref answered =
    let round = front_round s.air in
    let begun = record s { air = later_rounds s.air } in
    let heard = hear aes round.before begun in
    let kept = hear-Kept aes round.before begun in
    let same : (next heard.refs).0 ≡ r.ref = ap (λ c. (next c).0) kept.refs ∙ ref in
    let command : Command = record { id = id; ref = (next heard.refs).0; payload = payload } in
    send_command_answered aes laws r round (ground arith) short_in command
      (record heard { refs = (next heard.refs).1 }) (rw same lo) (omega arith) short_out same
      success (subst (λ l. Answers aes r l round) (sym kept.link) answered)
