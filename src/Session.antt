-- ===== src/Session.antt =====
-- custom_components/nimly_manager/nimly_ble/session.py: `Session`, one conversation with a lock.
--
-- What the air does is part of the state: a `Round` for each command that will be sent, with the
-- frames that the transport's notifications hand over while the program waits. `asyncio` runs the
-- handler of a notification whole, between two awaits of `send`; so a conversation is a run on some
-- list of rounds. A time-out is a round whose frames hold no answer. `send` holds a lock, so the
-- dictionary of futures has at most one entry: `pending` is its key and `answer` is its future.
pub mod Receive
pub mod Answered
use nimly_manager.Base.{
  ℕ, zero, suc, Bool, true, false, not, Option, none, some, is_some, List, [], ◌∷◌, ◌++◌, ◌==◌,
  Bytes, if◌then◌else◌, take, length, ltb, leb,
}
use nimly_manager.Base.Result.{Result, ok, err, Exec}
use nimly_manager.Base.Exec.{pure, lift, gets, modify, raise_when, ◌>>=◌, ◌>>◌}
use nimly_manager.Crypto
use nimly_manager.Crypto.{
  Cbc, Curve, CryptoError, LinkKeys, from_reversed_secret, owner_key_from_reversed_secret,
  public_key_to_wire, reversed_shared_secret, owner_auth_answer,
}
use nimly_manager.Protocol.Packet
use nimly_manager.Protocol.Frame.{frame_payload}
use nimly_manager.Protocol.Reassembler.{Reassembler, feed, fresh}
use nimly_manager.Protocol.Message
use nimly_manager.Protocol.Message.{
  CommandId, exchange_key_pub_m, user_auth_begin, user_auth_finalize, user_auth_update, Command,
  Response, is_ok, is_event, CommandRefCounter, new_counter, next,
}
use nimly_manager.Protocol.Payloads.{user_auth_begin_payload, user_auth_update_payload}
use nimly_manager.Protocol.Events.{Event, parse_event}
use nimly_manager.Firmware.{FirmwareVersion, at_least}

-- `SessionError` by its message, `CommandFailed`, `TimeoutError`, what the transport's `write`
-- raises, and what the functions of protocol.py and crypto.py raise.
pub data SessionError : Type 0 where
  handshake_done no_link_for_auth no_link_for_update : SessionError
  command_failed : CommandId → Response → SessionError
  timeout write_failed : SessionError
  protocol_error : Packet.Error → SessionError
  crypto_error : CryptoError → SessionError

-- What happens on the air around one command: the frames that come before it is registered, while
-- its answer is awaited, and in the pause after it; and after how many packets a write raises, if
-- one does.
pub record Round : Type 0 where
  pub before : List Bytes
  pub during : List Bytes
  pub late : List Bytes
  pub broken : Option ℕ

abbrev pub quiet : Round
quiet = record { before = []; during = []; late = []; broken = none }

pub record Session : Type 0 where
  pub refs : CommandRefCounter
  pub reassembler : Reassembler
  pub link : Option LinkKeys
  pub pending : Option ℕ
  pub answer : Option Response
  pub events : List Event
  pub written : List Bytes
  pub air : List Round

-- REF_COUNTER_FIRMWARE
abbrev pub ref_counter_firmware : FirmwareVersion
ref_counter_firmware = record { major = 4; minor = 7; patch = 90 }

-- Session(transport, firmware=firmware), on the air that it will have
unfoldable pub new_session : FirmwareVersion → List Round → Session
unfolding new_counter at_least
new_session firmware air = record {
  refs = new_counter (at_least firmware ref_counter_firmware);
  reassembler = fresh;
  link = none;
  pending = none;
  answer = none;
  events = [];
  written = [];
  air = air;
}

-- future = self._pending.pop(response.ref, None); future.set_result(response)
unfoldable pub resolve : Option ℕ → Response → Session → Session
resolve none response s = s
resolve (some ref) response s =
    if ref == response.ref then record s { pending = none; answer = some response } else s

-- The end of `_on_notify`, once a response is parsed.
unfoldable pub deliver : Result Packet.Error Response → Session → Session
unfolding resolve
deliver (err e) s = s
deliver (ok response) s =
    if is_event response
    then record s { events = s.events ++ parse_event response ∷ [] }
    else resolve s.pending response s

abbrev deliver_plain : Result CryptoError Bytes → Session → Session
deliver_plain (err e) s = s
deliver_plain (ok plain) s = deliver (Message.from_bytes plain) s

module _ (aes : Cbc) where
  -- if self._link is not None: payload = crypto.decrypt(...)
  unfoldable pub open_payload : Option LinkKeys → Bytes → Result CryptoError Bytes
  open_payload none payload = ok payload
  open_payload (some link) payload = Crypto.decrypt aes link.key link.iv payload

  -- if self._link is not None: wire = crypto.encrypt(...)
  unfoldable pub seal : Option LinkKeys → Bytes → Bytes
  seal none wire = wire
  seal (some link) wire = Crypto.encrypt aes link.key link.iv wire

  -- What `_on_notify` does with what `feed` returned. The `AssertionError` of `feed` is taken like
  -- a `ProtocolError`: `feed` never raises it, since it asks for the buffer where there is one.
  unfoldable pub accept : Result Packet.Error (Option Bytes) → Session → Session
  unfolding open_payload
  accept (err e) s = s
  accept (ok none) s = s
  accept (ok (some payload)) s = deliver_plain (open_payload s.link payload) s

  -- Session._on_notify
  unfoldable pub on_notify : Bytes → Session → Session
  unfolding accept
  on_notify frame s =
      let (fed, reassembler) = feed frame s.reassembler in
      accept fed (record s { reassembler = reassembler })

  -- The notifications of one wait, in their order.
  unfoldable pub hear : List Bytes → Session → Session
  hear [] s = s
  hear (f ∷ fs) s = hear fs (on_notify f s)

abbrev pub proto : {A : Type 0} → Result Packet.Error A → Result SessionError A
proto (err e) = err (protocol_error e)
proto (ok a) = ok a

abbrev pub crypt : {A : Type 0} → Result CryptoError A → Result SessionError A
crypt (err e) = err (crypto_error e)
crypt (ok a) = ok a

abbrev pub or_timeout : Option Response → Result SessionError Response
or_timeout none = err timeout
or_timeout (some response) = ok response

-- `try: m finally: cleanup`
abbrev finally : {S A : Type 0} → Exec SessionError S A → (S → S) → Exec SessionError S A
finally m cleanup s = let (r, s') = m s in (r, cleanup s')

-- The packets that are written before a write raises, and whether one does.
abbrev pub accepted : Option ℕ → List Bytes → List Bytes
accepted none frames = frames
accepted (some n) frames = take n frames

abbrev pub is_broken : Option ℕ → List Bytes → Bool
is_broken none frames = false
is_broken (some n) frames = ltb n (length frames)

abbrev pub front_round : List Round → Round
front_round [] = quiet
front_round (r ∷ rs) = r

abbrev pub later_rounds : List Round → List Round
later_rounds [] = []
later_rounds (r ∷ rs) = rs

abbrev next_ref : Exec SessionError Session ℕ
next_ref s = let (ref, refs) = next s.refs in (ok ref, record s { refs = refs })

module _ (aes : Cbc) where
  -- The packets are written, and the future is awaited.
  unfoldable pub exchange : Round → List Bytes → Exec SessionError Session Response
  exchange round frames = do
    modify (λ s. record s { written = s.written ++ accepted round.broken frames })
    modify (hear aes round.during)
    raise_when (λ s. is_broken round.broken frames) (λ s. write_failed)
    s ← gets (λ s. s)
    lift (or_timeout s.answer)

  -- The body of the `try` of `_send_raw`.
  unfoldable pub transmit : Round → Bytes → Bool → Exec SessionError Session Response
  transmit round sealed encrypted = do
    frames ← lift (proto (frame_payload sealed encrypted))
    exchange round frames

  -- The rest of `_send_raw`, for an encoded command with this reference.
  unfoldable pub send_wire : Round → ℕ → Bytes → Exec SessionError Session Response
  unfolding transmit seal
  send_wire round ref wire = do
    s ← gets (λ s. s)
    modify (λ s. record s { pending = some ref; answer = none })
    finally (transmit round (seal aes s.link wire) (is_some s.link))
        (λ s. record s { pending = none })

  -- Session._send_raw
  unfoldable pub send_raw : Round → Command → Exec SessionError Session Response
  unfolding send_wire
  send_raw round command = do
    wire ← lift (proto (Message.to_bytes command))
    send_wire round command.ref wire

  -- The rest of `send`, once the reference is taken.
  unfoldable pub send_command : Round → Command → Exec SessionError Session Response
  unfolding send_raw
  send_command round command = do
    response ← send_raw round command
    modify (hear aes round.late)
    raise_when (λ s. not (is_ok response)) (λ s. command_failed command.id response)
    pure response

  -- Session.send, on the next round of the air
  unfoldable pub send : CommandId → Bytes → Exec SessionError Session Response
  unfolding send_command
  send id payload = do
    s ← gets (λ s. s)
    let round = front_round s.air
    modify (λ s. hear aes round.before (record s { air = later_rounds s.air }))
    ref ← next_ref
    send_command round (record { id = id; ref = ref; payload = payload })

  -- Session.handshake, with the fresh private key
  unfoldable pub handshake : Curve → ℕ → Exec SessionError Session (Unit {0})
  handshake curve private_key = do
    raise_when (λ s. is_some s.link) (λ s. handshake_done)
    wire ← lift (crypt (public_key_to_wire (curve.public_of private_key)))
    response ← send exchange_key_pub_m wire
    secret ← lift (crypt (reversed_shared_secret curve private_key response.payload))
    modify (λ s. record s { link = some (from_reversed_secret secret) })

  abbrev linked : SessionError → Exec SessionError Session LinkKeys
  linked error s = elim s.link [ none ↦ (err error, s) | some link ↦ (ok link, s) ]

  -- Session.owner_authenticate
  unfoldable pub owner_authenticate : Bytes → ℕ → Bytes → Exec SessionError Session (Unit {0})
  owner_authenticate owner_key user_id device_id = do
    link ← linked no_link_for_auth
    payload ← lift (proto (user_auth_begin_payload user_id device_id))
    begin ← send user_auth_begin payload
    -- the link of a session is never replaced, so it is the one read above
    answer ← lift (crypt (owner_auth_answer aes owner_key link.iv begin.payload))
    finalized ← send user_auth_finalize answer
    pure tt

  -- Session.owner_update, with the fresh private key: the new owner key
  unfoldable pub owner_update : Curve → ℕ → ℕ → ℕ → Exec SessionError Session Bytes
  owner_update curve private_key user_id credentials = do
    link ← linked no_link_for_update
    wire ← lift (crypt (public_key_to_wire (curve.public_of private_key)))
    payload ← lift (proto (user_auth_update_payload user_id credentials wire))
    response ← send user_auth_update payload
    secret ← lift (crypt (reversed_shared_secret curve private_key response.payload))
    pure (owner_key_from_reversed_secret secret)
