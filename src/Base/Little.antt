-- ===== src/Base/Little.antt =====
-- Python's `bytes` as lists of numbers, and the little-endian conversions of `int`.
use Prim.Native.Nat.{ℕ, zero, suc, ◌+◌, ◌*◌, ◌/◌, ◌%◌, ◌<◌}
use mathlib.Core.Path.{◌≡◌, refl, ap}
use mathlib.Core.Bool.{Bool, true, ◌&&◌}
use mathlib.Core.List.{List, [], ◌∷◌}
use native.Mathlib.Omega.{arith}
use nimly_manager.Base.Tests.{ltb}
use nimly_manager.Base.Lists.{length, All}

abbrev pub Bytes : Type 0
Bytes = List ℕ

-- A value that `bytes` can hold.
abbrev pub IsByte : ℕ → Type 0
IsByte b = b < 256

abbrev pub IsBytes : Bytes → Type 0
IsBytes = All IsByte

-- whether bytes([...]) is accepted; otherwise it raises ValueError
abbrev pub fits_bytes : Bytes → Bool
fits_bytes [] = true
fits_bytes (b ∷ bs) = ltb b 256 && fits_bytes bs

-- n.to_bytes(w, "little") for a number that fits
abbrev pub to_little : ℕ → ℕ → Bytes
to_little zero n = []
to_little (suc w) n = (n % 256) ∷ to_little w (n / 256)

-- int.from_bytes(bs, "little")
abbrev pub from_little : Bytes → ℕ
from_little [] = 0
from_little (b ∷ bs) = b + 256 * from_little bs

pub length-to_little : (w n : ℕ) → length (to_little w n) ≡ w
length-to_little zero n = refl
length-to_little (suc w) n = ap suc (length-to_little w (n / 256))

pub to_little-IsBytes : (w n : ℕ) → IsBytes (to_little w n)
to_little-IsBytes zero n = tt
to_little-IsBytes (suc w) n = (omega arith, to_little-IsBytes w (n / 256))

-- The round trip at the two widths in use.
pub from_little-to_little_two : (n : ℕ) → n < 65536 → from_little (to_little 2 n) ≡ n
from_little-to_little_two n h = omega arith

pub from_little-to_little_four : (n : ℕ) → n < 4294967296 → from_little (to_little 4 n) ≡ n
from_little-to_little_four n h = omega arith
