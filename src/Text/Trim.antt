-- ===== src/Text/Trim.antt =====
-- Python's `s.strip(chars)`, for the characters that a test accepts, and the tests on characters and
-- prefixes that the program makes.
use nimly_manager.Base.{
  ℕ, Bool, true, false, ◌&&◌, ◌||◌, [], ◌∷◌, ◌++◌, ◌==◌, if◌then◌else◌, ◌≡◌, refl, ap, ◌∙◌, arith,
}
use nimly_manager.Text.{Text, is_space, strip_left, strip_right, strip, drop_space}

unfoldable pub trim_left : (ℕ → Bool) → Text → Text
trim_left test [] = []
trim_left test (c ∷ cs) = if test c then trim_left test cs else c ∷ cs

abbrev pub drop_last : (ℕ → Bool) → ℕ → Text → Text
drop_last test c [] = if test c then [] else c ∷ []
drop_last test c (d ∷ ds) = c ∷ d ∷ ds

unfoldable pub trim_right : (ℕ → Bool) → Text → Text
trim_right test [] = []
trim_right test (c ∷ cs) = drop_last test c (trim_right test cs)

-- s.strip(chars)
unfoldable pub trim : (ℕ → Bool) → Text → Text
unfolding trim_left trim_right
trim test s = trim_right test (trim_left test s)

-- char in s
unfoldable pub has : ℕ → Text → Bool
has c [] = false
has c (d ∷ ds) = d == c || has c ds

-- s.startswith(prefix)
unfoldable pub starts_with : Text → Text → Bool
starts_with [] s = true
starts_with (p ∷ ps) [] = false
starts_with (p ∷ ps) (c ∷ cs) = p == c && starts_with ps cs

has-trim_left :
    (test : ℕ → Bool) (c : ℕ) (s : Text) → has c s ≡ false → has c (trim_left test s) ≡ false
unfolding has trim_left
has-trim_left test c [] h = refl
has-trim_left test c (d ∷ ds) h = ground (arith, has-trim_left test c ds)

has-drop_last :
    (test : ℕ → Bool) (c d : ℕ) (s : Text)
    → (d == c || has c s) ≡ false
    → has c (drop_last test d s) ≡ false
unfolding has
has-drop_last test c d [] h = ground arith
has-drop_last test c d (x ∷ s) h = h

has-trim_right :
    (test : ℕ → Bool) (c : ℕ) (s : Text) → has c s ≡ false → has c (trim_right test s) ≡ false
unfolding has trim_right
has-trim_right test c [] h = refl
has-trim_right test c (d ∷ ds) h =
    has-drop_last test c d (trim_right test ds)
      (ground (arith, has-trim_right test c ds (ground arith)))

strip_left_trim : (s : Text) → strip_left s ≡ trim_left is_space s
unfolding strip_left trim_left
strip_left_trim [] = refl
strip_left_trim (c ∷ cs) = rw (strip_left_trim cs)

drop_space_last : (c : ℕ) (s : Text) → drop_space c s ≡ drop_last is_space c s
drop_space_last c [] = refl
drop_space_last c (d ∷ ds) = refl

strip_right_trim : (s : Text) → strip_right s ≡ trim_right is_space s
unfolding strip_right trim_right
strip_right_trim [] = refl
strip_right_trim (c ∷ cs) =
    drop_space_last c (strip_right cs) ∙ ap (drop_last is_space c) (strip_right_trim cs)

strip-trim : (s : Text) → strip s ≡ trim is_space s
unfolding strip trim
strip-trim s = ap strip_right (strip_left_trim s) ∙ strip_right_trim (trim_left is_space s)

-- Trimming brings in no character.
pub has-trim : (test : ℕ → Bool) (c : ℕ) (s : Text) → has c s ≡ false → has c (trim test s) ≡ false
unfolding trim
has-trim test c s h = has-trim_right test c (trim_left test s) (has-trim_left test c s h)

pub has-strip : (c : ℕ) (s : Text) → has c s ≡ false → has c (strip s) ≡ false
has-strip c s h = ap (has c) (strip-trim s) ∙ has-trim is_space c s h

pub has-append : (c : ℕ) (s t : Text) → has c (s ++ t) ≡ (has c s || has c t)
unfolding has
has-append c [] t = refl
has-append c (d ∷ ds) t = ground (arith, has-append c ds t)
