-- ===== src/Protocol/Packet.antt =====
-- Layer 1 of custom_components/nimly_manager/nimly_ble/protocol.py: `PacketType` and `Packet`.
use nimly_manager.Base.{
  ℕ, ◌≤◌, ◌<◌, ◌≡◌, refl, Option, none, some, [], ◌∷◌, ◌++◌, arith, ltb, Bytes, ◌==◌, fits_bytes,
  length, take, take-append, length-append, if◌then◌else◌,
}
use nimly_manager.Base.Result.{Result, ok, err, ◌>>=◌, ◌>>◌, raise_if}

-- What the functions of this file raise: `ProtocolError` by its message, `ValueError` of
-- `bytes([...])` (`byte_range`), `OverflowError` of `int.to_bytes` (`int_too_big`),
-- `AssertionError` and `UnicodeEncodeError`.
pub data Error : Type 0 where
  packet_too_long packet_without_header packet_too_short : Error
  unknown_packet_type : ℕ → Error
  blob_without_header blob_without_start : Error
  blob_sequence blob_total : ℕ → ℕ → Error
  bad_ref command_too_long response_without_header response_too_short : Error
  before_epoch time_overflow bad_device_id bad_public_key bad_slot : Error
  short_battery short_scan : Error
  byte_range int_too_big assertion not_ascii : Error

pub data PacketType : Type 0 where
  single single_encrypted blob_start blob_stream blob_complete ack nac error : PacketType

unfoldable pub code : PacketType → ℕ
code single = 0x01
code single_encrypted = 0x02
code blob_start = 0x03
code blob_stream = 0x04
code blob_complete = 0x05
code ack = 0x06
code nac = 0x07
code error = 0xf0

-- PacketType(n); `none` where it raises ValueError
unfoldable pub of_code : ℕ → Option PacketType
of_code n =
    if n == 0x01
    then some single
    else if n == 0x02
    then some single_encrypted
    else if n == 0x03
    then some blob_start
    else if n == 0x04
    then some blob_stream
    else if n == 0x05
    then some blob_complete
    else if n == 0x06
    then some ack
    else if n == 0x07
    then some nac
    else if n == 0xf0
    then some error
    else none

pub record Packet : Type 0 where
  pub type : PacketType
  pub seq : ℕ
  pub payload : Bytes

-- bytes([...])
abbrev pub to_bytes_or_raise : Bytes → Result Error Bytes
to_bytes_or_raise bs = if fits_bytes bs then ok bs else err byte_range

-- Packet.to_bytes
unfoldable pub to_bytes : Packet → Result Error Bytes
to_bytes p = do
  raise_if (ltb 255 (length p.payload)) packet_too_long
  header ← to_bytes_or_raise (code p.type ∷ length p.payload ∷ 0 ∷ p.seq ∷ [])
  ok (header ++ p.payload)

-- Packet.from_bytes
unfoldable pub from_bytes : Bytes → Result Error Packet
from_bytes (kind ∷ len ∷ rfu ∷ seq ∷ rest) = elim (of_code kind) [
  | none ↦ err (unknown_packet_type kind)
  | some type ↦
      if ltb (length rest) len
      then err packet_too_short
      else ok (record { type = type; seq = seq; payload = take len rest })
]
from_bytes _ = err packet_without_header

pub of_code-code : (t : PacketType) → of_code (code t) ≡ some t
unfolding of_code code
of_code-code single = refl
of_code-code single_encrypted = refl
of_code-code blob_start = refl
of_code-code blob_stream = refl
of_code-code blob_complete = refl
of_code-code ack = refl
of_code-code nac = refl
of_code-code error = refl

pub code-lt : (t : PacketType) → code t < 256
unfolding code
code-lt t = ground arith

-- The frame of a packet that fits its two one-byte fields.
abbrev pub raw : Packet → Bytes
raw p = code p.type ∷ length p.payload ∷ 0 ∷ p.seq ∷ p.payload

pub to_bytes_fits : (p : Packet) → length p.payload ≤ 255 → p.seq < 256 → to_bytes p ≡ ok (raw p)
unfolding to_bytes
to_bytes_fits p h k = ground (arith, code-lt p.type)

pub from_bytes-raw : (p : Packet) (rest : Bytes) → from_bytes (raw p ++ rest) ≡ ok p
unfolding from_bytes
from_bytes-raw p rest =
    ground (arith, of_code-code p.type, take-append p.payload rest, length-append p.payload rest)

-- Every packet with at most 255 payload bytes and a one-byte sequence number is encoded, and
-- decoding the encoding, with any bytes behind it, gives the packet back.
pub from_bytes-to_bytes :
    (p : Packet) (rest : Bytes)
    → length p.payload ≤ 255
    → p.seq < 256
    → (frame : Bytes) × (to_bytes p ≡ ok frame) × (from_bytes (frame ++ rest) ≡ ok p)
from_bytes-to_bytes p rest h k = (raw p, to_bytes_fits p h k, from_bytes-raw p rest)
