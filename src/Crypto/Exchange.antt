-- ===== src/Crypto/Exchange.antt =====
-- The key exchange of custom_components/nimly_manager/nimly_ble/crypto.py: the wire form of public
-- keys, and the keys that the two sides of a link come to.
use nimly_manager.Base.{
  ℕ, zero, suc, ◌*◌, ◌/◌, ◌<◌, ◌≡◌, refl, ap, sym, ◌∙◌, some, ◌++◌, arith, Bytes, length, take,
  drop, take-append, drop-append, to_little, from_little, length-append, length-to_little,
}
use nimly_manager.Base.Result.{ok}
use nimly_manager.Crypto.{
  Curve, coordinate_limit, public_key_to_wire, public_key_from_wire, reversed_shared_secret,
  backwards,
}

-- How many numbers w bytes count.
byte_range : ℕ → ℕ
byte_range zero = 1
byte_range (suc w) = 256 * byte_range w

from_little-to_little : (w n : ℕ) → n < byte_range w → from_little (to_little w n) ≡ n
unfolding byte_range
from_little-to_little zero n h = omega arith
from_little-to_little (suc w) n h = omega (arith, from_little-to_little w (n / 256) (omega arith))

coordinate_limit_lem : coordinate_limit ≡ byte_range 32
unfolding coordinate_limit byte_range
coordinate_limit_lem = refl

take_front : (a b : Bytes) → length a ≡ 32 → take 32 (a ++ b) ≡ a
take_front a b h = cc (take-append a b)

drop_front : (a b : Bytes) → length a ≡ 32 → drop 32 (a ++ b) ≡ b
drop_front a b h = cc (drop-append a b)

read_wire :
    (wire : Bytes) (x y : ℕ)
    → length wire ≡ 64
    → from_little (take 32 wire) ≡ x
    → from_little (drop 32 wire) ≡ y
    → public_key_from_wire wire ≡ ok (x, y)
unfolding public_key_from_wire
read_wire wire x y h k l = rw (h, k, l) refl

-- A public key whose coordinates fit in 32 bytes each is sent as 64 bytes, from which the receiver
-- reads the same coordinates.
pub public_key_from_wire-public_key_to_wire :
    (x y : ℕ)
    → x < coordinate_limit
    → y < coordinate_limit
    → (wire : Bytes) × (public_key_to_wire (x, y) ≡ ok wire)
      × (length wire ≡ 64)
      × (public_key_from_wire wire ≡ ok (x, y))
unfolding public_key_to_wire
public_key_from_wire-public_key_to_wire x y hx hy =
    let lx = to_little 32 x in
    let ly = to_little 32 y in
    let len : length (lx ++ ly) ≡ 64 =
      omega (arith, length-append lx ly, length-to_little 32 x, length-to_little 32 y) in
    let fst : from_little (take 32 (lx ++ ly)) ≡ x =
      ap from_little (take_front lx ly (length-to_little 32 x))
      ∙ from_little-to_little 32 x (rw (sym coordinate_limit_lem) hx) in
    let snd : from_little (drop 32 (lx ++ ly)) ≡ y =
      ap from_little (drop_front lx ly (length-to_little 32 x))
      ∙ from_little-to_little 32 y (rw (sym coordinate_limit_lem) hy) in
    (lx ++ ly, ground arith, len, read_wire (lx ++ ly) x y len fst snd)

-- What the curve of the cryptography package does: coordinates fit in 32 bytes, each side accepts
-- the other's public key, both come to one secret, and it has 32 bytes.
pub record IsCurve (c : Curve) : Type 0 where
  pub fits_x : (a : ℕ) → (c.public_of a).0 < coordinate_limit
  pub fits_y : (a : ℕ) → (c.public_of a).1 < coordinate_limit
  pub agree :
      (a b : ℕ)
      → (secret : Bytes) × (c.shared a (c.public_of b) ≡ some secret)
        × (c.shared b (c.public_of a) ≡ some secret)
        × (length secret ≡ 32)

secret_of :
    (c : Curve) (private_key x y : ℕ) (wire secret : Bytes)
    → public_key_from_wire wire ≡ ok (x, y)
    → c.shared private_key (x, y) ≡ some secret
    → length secret ≡ 32
    → reversed_shared_secret c private_key wire ≡ ok (backwards secret)
unfolding reversed_shared_secret
secret_of c private_key x y wire secret h k l = rw (h, k, l) refl

-- With such a curve, two sides that send each other their public keys both derive the same reversed
-- secret, and so the same link keys, from what they receive.
pub reversed_shared_secret_agree :
    (c : Curve) (a b : ℕ)
    → IsCurve c
    → (wire_a wire_b secret : Bytes) × (public_key_to_wire (c.public_of a) ≡ ok wire_a)
      × (public_key_to_wire (c.public_of b) ≡ ok wire_b)
      × (reversed_shared_secret c a wire_b ≡ ok secret)
      × (reversed_shared_secret c b wire_a ≡ ok secret)
reversed_shared_secret_agree c a b laws =
    let pa = c.public_of a in
    let pb = c.public_of b in
    let (wire_a, sent_a, _, read_a) =
      public_key_from_wire-public_key_to_wire pa.0 pa.1 (laws.fits_x a) (laws.fits_y a) in
    let (wire_b, sent_b, _, read_b) =
      public_key_from_wire-public_key_to_wire pb.0 pb.1 (laws.fits_x b) (laws.fits_y b) in
    let (secret, one, other, len) = laws.agree a b in
    (
      wire_a,
      wire_b,
      backwards secret,
      sent_a,
      sent_b,
      secret_of c a pb.0 pb.1 wire_b secret read_b one len,
      secret_of c b pa.0 pa.1 wire_a secret read_a other len,
    )
