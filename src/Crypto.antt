-- ===== src/Crypto.antt =====
-- custom_components/nimly_manager/nimly_ble/crypto.py: padding, one CBC run, the owner's answer to a
-- challenge, and the key exchange. Of the cryptography package, AES-CBC is the parameter `Cbc` and
-- the curve P-256 is the parameter `Curve`. A fresh private key is an argument.
pub mod Laws
pub mod Exchange
use nimly_manager.Base.{
  ℕ, zero, suc, ◌+◌, ◌-◌, ◌%◌, Bool, true, false, not, ◌&&◌, Option, none, some, List, [], ◌∷◌,
  ◌++◌, ◌==◌, ltb, Bytes, length, take, drop, map, replicate, to_little, from_little, if◌then◌else◌,
}
use nimly_manager.Base.Result.{Result, ok, err, ◌>>=◌, ◌>>◌, raise_if}

-- Cipher(algorithms.AES(key), modes.CBC(iv)) on whole blocks: key, iv and data. It is total: the
-- ValueError of AES for a key that has not 16, 24 or 32 bytes, and of CBC for an IV that has not 16,
-- is left out.
pub record Cbc : Type 0 where
  pub forth : Bytes → Bytes → Bytes → Bytes
  pub back : Bytes → Bytes → Bytes → Bytes

-- What the functions of this file raise: `ValueError`s, the `OverflowError` of `to_bytes`
-- (`coordinate_too_big`) and the `AssertionError` on the secret (`short_secret`).
pub data CryptoError : Type 0 where
  bad_ciphertext bad_challenge bad_nonce bad_wire_key coordinate_too_big : CryptoError
  not_on_curve short_secret : CryptoError

abbrev pub block : ℕ
block = 16

-- DEFAULT_OWNER_KEY
abbrev pub default_owner_key : Bytes
default_owner_key = replicate 16 0x11

pub record LinkKeys : Type 0 where
  pub key : Bytes
  pub iv : Bytes

unfoldable pub from_reversed_secret : Bytes → LinkKeys
from_reversed_secret secret = record { key = take 16 secret; iv = take 16 (drop 16 secret) }

unfoldable pub owner_key_from_reversed_secret : Bytes → Bytes
owner_key_from_reversed_secret secret = take 16 secret

unfoldable pub zero_pad : Bytes → Bytes
zero_pad plain =
    let remainder = length plain % block in
    if remainder == 0 then plain else plain ++ replicate (block - remainder) 0

unfoldable pub encrypt : Cbc → Bytes → Bytes → Bytes → Bytes
encrypt c key iv [] = []
encrypt c key iv (b ∷ bs) = c.forth key iv (zero_pad (b ∷ bs))

unfoldable pub decrypt : Cbc → Bytes → Bytes → Bytes → Result CryptoError Bytes
decrypt c key iv [] = ok []
decrypt c key iv (b ∷ bs) =
    if not (length (b ∷ bs) % block == 0) then err bad_ciphertext else ok (c.back key iv (b ∷ bs))

-- bytes(b ^ 0xFF for b in data), for bytes
unfoldable pub bit_invert : Bytes → Bytes
bit_invert bytes = map (λ b. 255 - b) bytes

unfoldable pub owner_auth_answer : Cbc → Bytes → Bytes → Bytes → Result CryptoError Bytes
owner_auth_answer c owner_key link_iv challenge = do
  raise_if (not (length challenge == block)) bad_challenge
  plain ← decrypt c owner_key link_iv challenge
  ok (encrypt c owner_key link_iv (bit_invert plain))

unfoldable pub make_owner_challenge : Cbc → Bytes → Bytes → Bytes → Result CryptoError Bytes
make_owner_challenge c owner_key link_iv nonce = do
  raise_if (not (length nonce == block)) bad_nonce
  ok (encrypt c owner_key link_iv nonce)

-- The elliptic curve of the cryptography package. A private key is a number; a public key is the
-- pair of its coordinates, and `shared` is `none` where `EllipticCurvePublicNumbers.public_key`
-- refuses the point.
pub record Curve : Type 0 where
  pub public_of : ℕ → ℕ × ℕ
  pub shared : ℕ → ℕ × ℕ → Option Bytes

-- 2 ** 256, what 32 bytes can count
unfoldable pub coordinate_limit : ℕ
coordinate_limit = 0x10000000000000000000000000000000000000000000000000000000000000000

unfoldable pub public_key_to_wire : ℕ × ℕ → Result CryptoError Bytes
public_key_to_wire (x, y) = do
  raise_if (not (ltb x coordinate_limit && ltb y coordinate_limit)) coordinate_too_big
  ok (to_little 32 x ++ to_little 32 y)

-- The coordinates that `public_key_from_wire` reads; the curve's own test is in `shared`.
unfoldable pub public_key_from_wire : Bytes → Result CryptoError (ℕ × ℕ)
public_key_from_wire wire = do
  raise_if (not (length wire == 64)) bad_wire_key
  ok (from_little (take 32 wire), from_little (drop 32 wire))

-- bs[::-1]
unfoldable pub backwards : Bytes → Bytes
backwards [] = []
backwards (b ∷ bs) = backwards bs ++ b ∷ []

abbrev pub or_refuse : Option Bytes → Result CryptoError Bytes
or_refuse none = err not_on_curve
or_refuse (some secret) = ok secret

unfoldable pub reversed_shared_secret : Curve → ℕ → Bytes → Result CryptoError Bytes
unfolding public_key_from_wire backwards
reversed_shared_secret curve private_key peer_wire = do
  point ← public_key_from_wire peer_wire
  secret ← or_refuse (curve.shared private_key point)
  raise_if (not (length secret == 32)) short_secret
  ok (backwards secret)
