-- ===== src/Text/Number.antt =====
-- Decimal numbers: `int(str)`, `str.isdigit`, and the printing of numbers.
use nimly_manager.Base.{
  ℕ, zero, suc, ◌+◌, ◌-◌, ◌*◌, ◌/◌, ◌%◌, Bool, true, false, Option, none, some, List, [], ◌∷◌, ◌++◌,
  ◌==◌, ltb, within, length, if◌then◌else◌, replicate,
}
use nimly_manager.Base.Int.{ℤ, pos, negsuc}
use nimly_manager.Text.{Text, strip}

-- The zeros of the Unicode blocks of ten decimal digits (category Nd, Unicode 14).
unfoldable pub decimal_zeros : List ℕ
decimal_zeros =
    0x30 ∷ 0x660 ∷ 0x6f0 ∷ 0x7c0 ∷ 0x966 ∷ 0x9e6 ∷ 0xa66 ∷ 0xae6 ∷ 0xb66 ∷ 0xbe6 ∷ 0xc66 ∷ 0xce6
    ∷ 0xd66 ∷ 0xde6 ∷ 0xe50 ∷ 0xed0 ∷ 0xf20 ∷ 0x1040 ∷ 0x1090 ∷ 0x17e0 ∷ 0x1810 ∷ 0x1946 ∷ 0x19d0
    ∷ 0x1a80 ∷ 0x1a90 ∷ 0x1b50 ∷ 0x1bb0 ∷ 0x1c40 ∷ 0x1c50 ∷ 0xa620 ∷ 0xa8d0 ∷ 0xa900 ∷ 0xa9d0
    ∷ 0xa9f0 ∷ 0xaa50 ∷ 0xabf0 ∷ 0xff10 ∷ 0x104a0 ∷ 0x10d30 ∷ 0x11066 ∷ 0x110f0 ∷ 0x11136 ∷ 0x111d0
    ∷ 0x112f0 ∷ 0x11450 ∷ 0x114d0 ∷ 0x11650 ∷ 0x116c0 ∷ 0x11730 ∷ 0x118e0 ∷ 0x11950 ∷ 0x11c50
    ∷ 0x11d50 ∷ 0x11da0 ∷ 0x16a60 ∷ 0x16ac0 ∷ 0x16b50 ∷ 0x1d7ce ∷ 0x1d7d8 ∷ 0x1d7e2 ∷ 0x1d7ec
    ∷ 0x1d7f6 ∷ 0x1e140 ∷ 0x1e2f0 ∷ 0x1e950 ∷ 0x1fbf0 ∷ []

find_decimal : ℕ → List ℕ → Option ℕ
find_decimal c [] = none
find_decimal c (z ∷ zs) = if within z (z + 9) c then some (c - z) else find_decimal c zs

-- unicodedata.decimal
unfoldable pub decimal : ℕ → Option ℕ
unfolding find_decimal decimal_zeros
decimal c = find_decimal c decimal_zeros

-- The digits of int(str): single underscores may stand between digits.
digit_run : ℕ → Bool → Text → Option ℕ
digit_run acc after_digit [] = if after_digit then some acc else none
digit_run acc after_digit (c ∷ cs) = elim (c == b'_') [
  | true ↦ elim after_digit [ true ↦ digit_run acc false cs | false ↦ none ]
  | false ↦ elim (decimal c) [ none ↦ none | some d ↦ digit_run (acc * 10 + d) true cs ]
]

digit_count : Text → ℕ
digit_count [] = 0
digit_count (c ∷ cs) = (if c == b'_' then 0 else 1) + digit_count cs

-- Python refuses more than 4300 digits.
unfoldable pub natural : Text → Option ℕ
unfolding digit_run digit_count decimal
natural s = if ltb 4300 (digit_count s) then none else digit_run 0 false s

unfoldable pub negate : ℕ → ℤ
negate zero = pos 0
negate (suc n) = negsuc n

signed : Text → Option ℤ
signed [] = none
signed (c ∷ cs) =
    if c == b'-'
    then elim (natural cs) [ none ↦ none | some n ↦ some (negate n) ]
    else elim (natural (if c == b'+' then cs else c ∷ cs)) [ none ↦ none | some n ↦ some (pos n) ]

-- int(s) for a str; `none` where it raises ValueError
unfoldable pub int_of_text : Text → Option ℤ
unfolding signed natural negate
int_of_text s = signed (strip s)

-- The decimal digits of a number; the fuel `n + 1` is enough, since each round divides by ten.
digits_from : ℕ → ℕ → Text
digits_from zero n = []
digits_from (suc fuel) n =
    let rest = digits_from fuel (n / 10) in
    if ltb n 10 then (b'0' + n) ∷ [] else rest ++ (b'0' + n % 10) ∷ []

-- str(n)
unfoldable pub show_ℕ : ℕ → Text
unfolding digits_from
show_ℕ n = digits_from (suc n) n

unfoldable pub show_ℤ : ℤ → Text
unfolding show_ℕ
show_ℤ (pos n) = show_ℕ n
show_ℤ (negsuc n) = b'-' ∷ show_ℕ (n + 1)

-- zeros in front, up to a width
unfoldable pub zero_fill : ℕ → Text → Text
zero_fill width s = replicate (width - length s) b'0' ++ s

-- f"{n:03d}"
unfoldable pub show_three : ℤ → Text
unfolding show_ℕ zero_fill
show_three (pos n) = zero_fill 3 (show_ℕ n)
show_three (negsuc n) = b'-' ∷ zero_fill 2 (show_ℕ (n + 1))
