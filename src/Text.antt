-- ===== src/Text.antt =====
-- Python's `str` as the list of its code points, and the methods of `str` that the program calls.
-- `lower` maps the letters A to Z and the two other code points whose lower case holds an ASCII
-- letter (U+0130, U+212A); every other code point stays, and none of these becomes ASCII under
-- `str.lower`. The program only compares a lowered text with ASCII words, which this decides.
pub mod Strip
pub mod Number
pub mod Hex
pub mod Floating
pub mod Trim
use Prim.Native.Char.{code}
use Prim.Native.String
use Prim.Native.String.{String}
use nimly_manager.Base.{
  ℕ, ◌+◌, ◌-◌, Bool, true, false, ◌&&◌, ◌||◌, List, [], ◌∷◌, ◌++◌, ◌==◌, ltb, within, length,
  if◌then◌else◌, ◌≡◌, ◌↔◌, refl, arith, ==_iff,
}

abbrev pub Text : Type 0
Text = List ℕ

-- A literal.
abbrev pub text : String → Text
text String.[] = []
text (String.◌∷◌ c s) = code c ∷ text s

-- `==` on str
unfoldable pub text_eq : Text → Text → Bool
text_eq [] [] = true
text_eq [] (d ∷ ds) = false
text_eq (c ∷ cs) [] = false
text_eq (c ∷ cs) (d ∷ ds) = c == d && text_eq cs ds

pub text_eq_iff : (s t : Text) → (text_eq s t ≡ true) ↔ (s ≡ t)
unfolding text_eq
text_eq_iff [] [] = (λ _. refl, λ _. refl)
text_eq_iff [] (d ∷ ds) = (λ h. cc, λ h. cc)
text_eq_iff (c ∷ cs) [] = (λ h. cc, λ h. cc)
text_eq_iff (c ∷ cs) (d ∷ ds) =
    (λ h. ground (arith, text_eq_iff cs ds), λ h. ground (arith, text_eq_iff cs ds))

-- `s in {...}`
abbrev pub text_in : Text → List Text → Bool
text_in s [] = false
text_in s (t ∷ ts) = text_eq s t || text_in s ts

abbrev member : ℕ → List ℕ → Bool
member c [] = false
member c (d ∷ ds) = c == d || member c ds

-- str.isspace on one code point
unfoldable pub is_space : ℕ → Bool
is_space c =
    within 9 13 c
    || (within 28 32 c
        || (within 8192 8202 c
            || member c (133 ∷ 160 ∷ 5760 ∷ 8232 ∷ 8233 ∷ 8239 ∷ 8287 ∷ 12288 ∷ [])))

unfoldable pub strip_left : Text → Text
strip_left [] = []
strip_left (c ∷ cs) = if is_space c then strip_left cs else c ∷ cs

abbrev drop_space : ℕ → Text → Text
drop_space c [] = if is_space c then [] else c ∷ []
drop_space c (d ∷ ds) = c ∷ d ∷ ds

unfoldable pub strip_right : Text → Text
strip_right [] = []
strip_right (c ∷ cs) = drop_space c (strip_right cs)

-- str.strip()
unfoldable pub strip : Text → Text
strip s = strip_right (strip_left s)

unfoldable pub lower_point : ℕ → Text
lower_point c =
    if within b'A' b'Z' c
    then (c + 32) ∷ []
    else if c == 0x212a
    then b'k' ∷ []
    else if c == 0x130
    then b'i' ∷ 0x307 ∷ []
    else c ∷ []

-- str.lower()
unfoldable pub lower : Text → Text
unfolding lower_point
lower [] = []
lower (c ∷ cs) = lower_point c ++ lower cs

-- s.replace(c, "") for one character
unfoldable pub without : ℕ → Text → Text
without c [] = []
without c (d ∷ ds) = if d == c then without c ds else d ∷ without c ds
