-- ===== src/Text/Strip.antt =====
-- Laws of str.strip: a stripped text is not changed by stripping it again.
use nimly_manager.Base.{
  ◌≡◌, refl, ap, ◌∙◌, Bool, true, false, not, ◌&&◌, [], ◌∷◌, ◌==◌, Bool-cases, inl, inr, ℕ, arith,
}
use nimly_manager.Text.{Text, is_space, strip_left, strip_right, strip, drop_space}

-- The text does not begin with a space.
abbrev StartsFull : Text → Type 0
StartsFull [] = Unit {0}
StartsFull (c ∷ cs) = is_space c ≡ false

strip_left-StartsFull : (s : Text) → StartsFull (strip_left s)
unfolding strip_left
strip_left-StartsFull [] = tt
strip_left-StartsFull (c ∷ cs) = elim (Bool-cases (is_space c)) [
  | inl space ↦ rw space (strip_left-StartsFull cs)
  | inr full ↦ rw full full
]

strip_left_full : (s : Text) → StartsFull s → strip_left s ≡ s
unfolding strip_left
strip_left_full [] h = refl
strip_left_full (c ∷ cs) h = rw h

drop_space-StartsFull : (c : ℕ) (s : Text) → is_space c ≡ false → StartsFull (drop_space c s)
drop_space-StartsFull c [] h = rw h h
drop_space-StartsFull c (d ∷ ds) h = h

strip_right-StartsFull : (s : Text) → StartsFull s → StartsFull (strip_right s)
unfolding strip_right
strip_right-StartsFull [] h = tt
strip_right-StartsFull (c ∷ cs) h = drop_space-StartsFull c (strip_right cs) h

strip_right_idem : (s : Text) → strip_right (strip_right s) ≡ strip_right s
unfolding strip_right
strip_right_idem [] = refl
strip_right_idem (c ∷ cs) = go (strip_right cs) (strip_right_idem cs)
  where
    go : (t : Text) → strip_right t ≡ t → strip_right (drop_space c t) ≡ drop_space c t
    go [] h = elim (Bool-cases (is_space c)) [ inl space ↦ rw space | inr full ↦ rw (full, full) ]
    go (d ∷ ds) h = ap (drop_space c) h

pub strip-strip : (s : Text) → strip (strip s) ≡ strip s
unfolding strip
strip-strip s =
    ap strip_right (
      strip_left_full (strip_right (strip_left s))
        (strip_right-StartsFull (strip_left s) (strip_left-StartsFull s)))
    ∙ strip_right_idem (strip_left s)

-- The last character, or `e` where there is none.
unfoldable pub last : ℕ → Text → ℕ
last e [] = e
last e (c ∷ cs) = last c cs

-- A newline as the last character, unless there is none and `e` is one.
drop_space-last :
    (e c : ℕ) (s : Text)
    → (e == 10) ≡ false
    → (last e s == 10) ≡ false
    → (last e (drop_space c s) == 10) ≡ false
unfolding last is_space
drop_space-last e c [] h k = ground arith
drop_space-last e c (d ∷ s) h k = k

strip_right-last : (e : ℕ) (s : Text) → (e == 10) ≡ false → (last e (strip_right s) == 10) ≡ false
unfolding strip_right last
strip_right-last e [] h = h
strip_right-last e (c ∷ cs) h = drop_space-last e c (strip_right cs) h (strip_right-last e cs h)

-- A stripped text does not end in a newline.
pub strip-last : (s : Text) → (last 0 (strip s) == 10) ≡ false
unfolding strip
strip-last s = strip_right-last 0 (strip_left s) refl

-- No character is a space.
abbrev pub full : Text → Bool
full [] = true
full (c ∷ cs) = not (is_space c) && full cs

strip_right-full : (s : Text) → full s ≡ true → strip_right s ≡ s
unfolding strip_right
strip_right-full [] h = refl
strip_right-full (c ∷ []) h = ground arith
strip_right-full (c ∷ d ∷ ds) h = rw (strip_right-full (d ∷ ds) (ground arith))

pub strip-full : (s : Text) → full s ≡ true → strip s ≡ s
unfolding strip strip_left strip_right
strip-full [] h = refl
strip-full (c ∷ cs) h =
    ap strip_right (strip_left_full (c ∷ cs) (ground arith)) ∙ strip_right-full (c ∷ cs) h
