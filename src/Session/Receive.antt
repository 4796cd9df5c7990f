-- ===== src/Session/Receive.antt =====
-- What an answer is, whatever a lock or anybody else puts on the air:
-- custom_components/nimly_manager/nimly_ble/session.py.
use nimly_manager.Base.{
  ℕ, ◌≡◌, refl, ap, ◌∙◌, is_some, Bool, true, false, not, ◌&&◌, Option, none, some, List, [], ◌∷◌,
  ◌++◌, ◌==◌, ==_iff, ==_refl, Bytes, arith,
}
use nimly_manager.Base.Result.{Result, ok, err}
use nimly_manager.Base.Exec.{lift, >>=-Passes}
use nimly_manager.Protocol.Frame.{frame_payload}
use nimly_manager.Crypto.{Cbc, CryptoError}
use nimly_manager.Protocol.Packet
use nimly_manager.Protocol.Message
use nimly_manager.Protocol.Message.{CommandId, Command, Response, is_ok, is_event, next}
use nimly_manager.Protocol.Reassembler.{feed}
use nimly_manager.Session.{
  Round, Session, accepted, proto, front_round, later_rounds, deliver, deliver_plain, open_payload,
  accept, on_notify, hear, exchange, transmit, seal, send_wire, send_raw, send_command, send,
}

abbrev awaits : ℕ → Option ℕ → Bool
awaits ref none = true
awaits ref (some r) = r == ref

abbrev answers_to : ℕ → Option Response → Bool
answers_to ref none = true
answers_to ref (some x) = x.ref == ref && not (is_event x)

-- Only `ref` is awaited, and an answer that is there carries it.
record Matched (ref : ℕ) (s : Session) : Type 0 where
  pending : awaits ref s.pending ≡ true
  answer : answers_to ref s.answer ≡ true

deliver-Matched :
    (ref : ℕ) (r : Result Packet.Error Response) (s : Session)
    → Matched ref s
    → Matched ref (deliver r s)
unfolding deliver
deliver-Matched ref (err e) s m = m
deliver-Matched ref (ok x) s m = ground arith

deliver_plain-Matched :
    (ref : ℕ) (r : Result CryptoError Bytes) (s : Session)
    → Matched ref s
    → Matched ref (deliver_plain r s)
deliver_plain-Matched ref (err e) s m = m
deliver_plain-Matched ref (ok plain) s m = deliver-Matched ref (Message.from_bytes plain) s m

module _ (aes : Cbc) (ref : ℕ) where
  accept-Matched :
      (r : Result Packet.Error (Option Bytes)) (s : Session)
      → Matched ref s
      → Matched ref (accept aes r s)
  unfolding accept
  accept-Matched (err e) s m = m
  accept-Matched (ok none) s m = m
  accept-Matched (ok (some payload)) s m =
      deliver_plain-Matched ref (open_payload aes s.link payload) s m

  on_notify-Matched : (f : Bytes) (s : Session) → Matched ref s → Matched ref (on_notify aes f s)
  unfolding on_notify
  on_notify-Matched f s m =
      accept-Matched (feed f s.reassembler).0 (record s { reassembler = (feed f s.reassembler).1 })
        (record { pending = m.pending; answer = m.answer })

  hear-Matched : (fs : List Bytes) (s : Session) → Matched ref s → Matched ref (hear aes fs s)
  unfolding hear
  hear-Matched [] s m = m
  hear-Matched (f ∷ fs) s m = hear-Matched fs (on_notify aes f s) (on_notify-Matched f s m)

  exchange_sound :
      (round : Round) (frames : List Bytes) (s : Session) (x : Response)
      → Matched ref s
      → (exchange aes round frames s).0 ≡ ok x
      → (x.ref ≡ ref) × (is_event x ≡ false)
  unfolding exchange
  exchange_sound round frames s x m h =
      let heard =
        hear-Matched round.during (record s { written = s.written ++ accepted round.broken frames })
          (record { pending = m.pending; answer = m.answer }) in
      ground (arith, heard, ==_iff x.ref ref)

  transmit_sound :
      (round : Round) (sealed : Bytes) (encrypted : Bool) (s : Session) (x : Response)
      → Matched ref s
      → (transmit aes round sealed encrypted s).0 ≡ ok x
      → (x.ref ≡ ref) × (is_event x ≡ false)
  unfolding transmit
  transmit_sound round sealed encrypted s x m h =
      let (frames, framed, k) =
        >>=-Passes (lift (proto (frame_payload sealed encrypted))) (exchange aes round) s x h in
      exchange_sound round frames s x m k

-- What notifications leave alone; and where nothing is awaited, they make nothing awaited.
pub record Kept (s s' : Session) : Type 0 where
  pub refs : s'.refs ≡ s.refs
  pub link : s'.link ≡ s.link
  pub air : s'.air ≡ s.air
  pub written : s'.written ≡ s.written
  pub idle : s.pending ≡ none → s'.pending ≡ none

Kept-trans : (a b c : Session) → Kept a b → Kept b c → Kept a c
Kept-trans a b c p q = record {
  refs = q.refs ∙ p.refs;
  link = q.link ∙ p.link;
  air = q.air ∙ p.air;
  written = q.written ∙ p.written;
  idle = λ h. q.idle (p.idle h);
}

deliver-Kept : (r : Result Packet.Error Response) (s : Session) → Kept s (deliver r s)
unfolding deliver
deliver-Kept (err e) s = ground arith
deliver-Kept (ok x) s = ground arith

deliver_plain-Kept : (r : Result CryptoError Bytes) (s : Session) → Kept s (deliver_plain r s)
deliver_plain-Kept (err e) s = ground arith
deliver_plain-Kept (ok plain) s = deliver-Kept (Message.from_bytes plain) s

module _ (aes : Cbc) where
  accept-Kept : (r : Result Packet.Error (Option Bytes)) (s : Session) → Kept s (accept aes r s)
  unfolding accept
  accept-Kept (err e) s = ground arith
  accept-Kept (ok none) s = ground arith
  accept-Kept (ok (some payload)) s = deliver_plain-Kept (open_payload aes s.link payload) s

  on_notify-Kept : (f : Bytes) (s : Session) → Kept s (on_notify aes f s)
  unfolding on_notify
  on_notify-Kept f s =
      let fed = record s { reassembler = (feed f s.reassembler).1 } in
      let k = accept-Kept (feed f s.reassembler).0 fed in
      record { refs = k.refs; link = k.link; air = k.air; written = k.written; idle = k.idle }

  pub hear-Kept : (fs : List Bytes) (s : Session) → Kept s (hear aes fs s)
  unfolding hear
  hear-Kept [] s = ground arith
  hear-Kept (f ∷ fs) s =
      Kept-trans s (on_notify aes f s) (hear aes fs (on_notify aes f s)) (on_notify-Kept f s)
        (hear-Kept fs (on_notify aes f s))

  send_wire_sound :
      (round : Round) (ref : ℕ) (wire : Bytes) (s : Session) (x : Response)
      → (send_wire aes round ref wire s).0 ≡ ok x
      → (x.ref ≡ ref) × (is_event x ≡ false)
  unfolding send_wire
  send_wire_sound round ref wire s x h =
      let open_future : Session = record s { pending = some ref; answer = none } in
      transmit_sound aes ref round (seal aes s.link wire) (is_some s.link) open_future x
        (record { pending = ==_refl ref; answer = refl }) h

  send_raw_sound :
      (round : Round) (command : Command) (s : Session) (x : Response)
      → (send_raw aes round command s).0 ≡ ok x
      → (x.ref ≡ command.ref) × (is_event x ≡ false)
  unfolding send_raw
  send_raw_sound round command s x h =
      let (wire, encoded, k) =
        >>=-Passes (lift (proto (Message.to_bytes command))) (send_wire aes round command.ref) s x
          h in
      send_wire_sound round command.ref wire s x k

  send_raw-pending :
      (round : Round) (command : Command) (s : Session)
      → s.pending ≡ none
      → (send_raw aes round command s).1.pending ≡ none
  unfolding send_raw
  send_raw-pending round command s h = ground arith

  send_command_sound :
      (round : Round) (command : Command) (s : Session) (x : Response)
      → (send_command aes round command s).0 ≡ ok x
      → (x.ref ≡ command.ref) × (is_event x ≡ false) × (is_ok x ≡ true)
  unfolding send_command
  send_command_sound round command s x h = ground (arith, send_raw_sound round command s x)

  send_command-pending :
      (round : Round) (command : Command) (s : Session)
      → s.pending ≡ none
      → (send_command aes round command s).1.pending ≡ none
  unfolding send_command
  send_command-pending round command s h =
      let sent = (send_raw aes round command s).1 in
      ground (
        arith,
        send_raw-pending round command s h,
        (hear-Kept round.late sent).idle (send_raw-pending round command s h),
      )

  -- Whether send returns or raises, it leaves no future behind.
  send-pending :
      (id : CommandId) (payload : Bytes) (s : Session)
      → s.pending ≡ none
      → (send aes id payload s).1.pending ≡ none
  unfolding send
  send-pending id payload s h =
      let round = front_round s.air in
      let begun = record s { air = later_rounds s.air } in
      let heard = hear aes round.before begun in
      let kept = hear-Kept round.before begun in
      send_command-pending round (record { id = id; ref = (next heard.refs).0; payload = payload })
        (record heard { refs = (next heard.refs).1 }) (kept.idle h)

  -- Whatever comes over the air, a response that send returns has the reference that was taken for
  -- the command, is no event, and reports success; and no future is left behind.
  pub send_sound :
      (id : CommandId) (payload : Bytes) (s : Session) (x : Response)
      → s.pending ≡ none
      → (send aes id payload s).0 ≡ ok x
      → (x.ref ≡ (next s.refs).0)
        × (is_event x ≡ false)
        × (is_ok x ≡ true)
        × ((send aes id payload s).1.pending ≡ none)
  unfolding send
  send_sound id payload s x h k =
      let round = front_round s.air in
      let begun = record s { air = later_rounds s.air } in
      let heard = hear aes round.before begun in
      let kept = hear-Kept round.before begun in
      let command : Command = record { id = id; ref = (next heard.refs).0; payload = payload } in
      let ready = record heard { refs = (next heard.refs).1 } in
      let same : (next heard.refs).0 ≡ (next s.refs).0 = ap (λ c. (next c).0) kept.refs in
      let (r, e, o) = send_command_sound round command ready x k in
      (r ∙ same, e, o, send-pending id payload s h)
