-- ===== src/Text/Hex.antt =====
-- Python's `bytes.fromhex` and `bytes.hex`.
use nimly_manager.Base.{
  ℕ, zero, suc, ◌+◌, ◌-◌, ◌*◌, ◌/◌, ◌%◌, ◌<◌, ◌≡◌, refl, Bool, true, false, ◌&&◌, ◌||◌, not, Option,
  none, some, [], ◌∷◌, ◌==◌, Bytes, IsBytes, length, ltb, within, replicate, if◌then◌else◌, arith,
  Option-cases, inl, inr,
}
use nimly_manager.Text.{Text}

-- the value of a hexadecimal digit
unfoldable pub hex_digit : ℕ → Option ℕ
hex_digit c =
    if within b'0' b'9' c
    then some (c - b'0')
    else if within b'a' b'f' c
    then some (c - b'a' + 10)
    else if within b'A' b'F' c
    then some (c - b'A' + 10)
    else none

abbrev pub is_ascii_space : ℕ → Bool
is_ascii_space c = c == 32 || within 9 13 c

abbrev pub hex_pair : ℕ → ℕ → Option Bytes → Option Bytes
hex_pair c d none = none
hex_pair c d (some rest) = elim (hex_digit c) [
  | none ↦ none
  | some high ↦ elim (hex_digit d) [ none ↦ none | some low ↦ some ((16 * high + low) ∷ rest) ]
]

-- bytes.fromhex(s), which skips ASCII spaces between bytes; `none` where it raises ValueError
unfoldable pub from_hex : Text → Option Bytes
from_hex [] = some []
from_hex (c ∷ []) = if is_ascii_space c then some [] else none
from_hex (c ∷ d ∷ cs) = elim (is_ascii_space c) [
  | true ↦ from_hex (d ∷ cs)
  | false ↦ hex_pair c d (from_hex cs)
]

-- the hexadecimal digit of a number below 16
abbrev pub hex_char : ℕ → ℕ
hex_char n = if ltb n 10 then b'0' + n else b'a' + (n - 10)

-- bs.hex()
unfoldable pub to_hex : Bytes → Text
to_hex [] = []
to_hex (b ∷ bs) = hex_char (b / 16) ∷ hex_char (b % 16) ∷ to_hex bs

hex_digit-hex_char : (n : ℕ) → n < 16 → hex_digit (hex_char n) ≡ some n
unfolding hex_digit
hex_digit-hex_char n h = ground arith

hex_char_space : (n : ℕ) → n < 16 → is_ascii_space (hex_char n) ≡ false
hex_char_space n h = ground arith

pub from_hex-to_hex : (bs : Bytes) → IsBytes bs → from_hex (to_hex bs) ≡ some bs
unfolding from_hex to_hex
from_hex-to_hex [] h = refl
from_hex-to_hex (b ∷ bs) h = ground (
  arith,
  hex_digit-hex_char (b / 16),
  hex_digit-hex_char (b % 16),
  hex_char_space (b / 16),
  from_hex-to_hex bs h.1,
)

pub length-to_hex : (bs : Bytes) → length (to_hex bs) ≡ 2 * length bs
unfolding to_hex
length-to_hex [] = refl
length-to_hex (b ∷ bs) = omega (arith, length-to_hex bs)

-- No character of the text is a space that `fromhex` skips.
abbrev pub spaceless : Text → Bool
spaceless [] = true
spaceless (c ∷ cs) = not (is_ascii_space c) && spaceless cs

-- A text that is accepted and holds no space has two digits for each byte.
pub length-from_hex :
    (s : Text) (bs : Bytes) → spaceless s ≡ true → from_hex s ≡ some bs → length s ≡ 2 * length bs
unfolding from_hex
length-from_hex [] bs h k = ground arith
length-from_hex (c ∷ []) bs h k = ground arith
length-from_hex (c ∷ d ∷ cs) bs h k = elim (Option-cases (from_hex cs)) [
  | inl e ↦ ground arith
  | inr (rest, e) ↦ let ih = length-from_hex cs rest (ground arith) e in ground arith
]

-- Spaces alone are accepted, and give no byte.
pub from_hex_spaces : (n : ℕ) → from_hex (replicate n 32) ≡ some []
unfolding from_hex
from_hex_spaces zero = refl
from_hex_spaces (suc zero) = refl
from_hex_spaces (suc (suc n)) = from_hex_spaces (suc n)
