-- ===== src/Text/Floating.antt =====
-- Which texts Python's `float` accepts.
use nimly_manager.Base.{
  ℕ, Bool, true, false, not, ◌&&◌, ◌||◌, is_some, [], ◌∷◌, ◌==◌, if◌then◌else◌,
}
use nimly_manager.Text.{Text, text, text_in, strip, lower, without}
use nimly_manager.Text.Number.{decimal}

abbrev is_decimal : ℕ → Bool
is_decimal c = is_some (decimal c)

-- Every underscore stands between two digits.
tidy_underscores : Bool → Text → Bool
tidy_underscores after_digit [] = true
tidy_underscores after_digit (c ∷ []) = not (c == b'_')
tidy_underscores after_digit (c ∷ d ∷ cs) =
    (if c == b'_' then after_digit && is_decimal d else true)
    && tidy_underscores (is_decimal c) (d ∷ cs)

abbrev starts_digit : Text → Bool
starts_digit [] = false
starts_digit (c ∷ cs) = is_decimal c

skip_digits : Text → Text
skip_digits [] = []
skip_digits (c ∷ cs) = if is_decimal c then skip_digits cs else c ∷ cs

abbrev only_digits : Text → Bool
only_digits [] = false
only_digits (c ∷ cs) = elim (skip_digits (c ∷ cs)) [ [] ↦ true | d ∷ ds ↦ false ]

abbrev drop_sign : Text → Text
drop_sign [] = []
drop_sign (c ∷ cs) = if c == b'-' || c == b'+' then cs else c ∷ cs

-- Nothing, or an exponent.
abbrev is_exponent : Text → Bool
is_exponent [] = true
is_exponent (c ∷ cs) = (c == b'e' || c == b'E') && only_digits (drop_sign cs)

-- What follows the whole part: a fraction, which may be empty, and an exponent.
abbrev is_fraction : Text → Bool
is_fraction [] = true
is_fraction (c ∷ cs) = if c == b'.' then is_exponent (skip_digits cs) else is_exponent (c ∷ cs)

abbrev is_bare_fraction : Text → Bool
is_bare_fraction [] = false
is_bare_fraction (c ∷ cs) = c == b'.' && (starts_digit cs && is_exponent (skip_digits cs))

unfoldable pub is_float_text : Text → Bool
unfolding tidy_underscores skip_digits
is_float_text s =
    let whole = strip s in
    let body = drop_sign (without b'_' whole) in
    tidy_underscores false whole
    && (text_in (lower body) (text "inf" ∷ text "infinity" ∷ text "nan" ∷ [])
        || (if starts_digit body then is_fraction (skip_digits body) else is_bare_fraction body))
