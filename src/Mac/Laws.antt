-- ===== src/Mac/Laws.antt =====
-- What `normalize_mac` of custom_components/nimly_manager/ble_setup.py returns.
use mathlib.Core.Path.{subst}
use nimly_manager.Base.{
  ℕ, zero, suc, ◌+◌, ◌*◌, ◌≤◌, ◌≡◌, refl, ap, ◌∙◌, Bool, true, false, ◌&&◌, ◌||◌, some, [], ◌∷◌,
  ◌==◌, length, arith, Bool-cases, inl, inr,
}
use nimly_manager.Text.{Text, without, strip, is_space}
use nimly_manager.Text.Strip.{last, full, strip-full}
use nimly_manager.Text.Trim.{has}
use nimly_manager.Mac.Endings.{cleaned-last, pairs-length}
use nimly_manager.Mac.{
  upper_point, upper, colons, join_pairs, is_digit, pairs, mac_re, with_colons, normalize_mac,
}

-- A character that `strip`, `upper` and `replace` leave alone.
abbrev is_plain : ℕ → Bool
is_plain c = is_digit c || c == b':'

abbrev plain : Text → Bool
plain [] = true
plain (c ∷ cs) = is_plain c && plain cs

-- An address, or the rest of one after so many pairs.
data Shape : ℕ → Text → Type 0 where
  pair : {a b : ℕ} → is_digit a ≡ true → is_digit b ≡ true → Shape 0 (a ∷ b ∷ [])
  and_more :
      {n a b : ℕ} {s : Text}
      → is_digit a ≡ true
      → is_digit b ≡ true
      → Shape n s
      → Shape (suc n) (a ∷ b ∷ b':' ∷ s)

pairs-Shape : (n : ℕ) (s : Text) → pairs n s ≡ true → length s ≡ 3 * n + 2 → Shape n s
unfolding pairs
pairs-Shape zero (a ∷ b ∷ []) h k = pair (ground arith) (ground arith)
pairs-Shape zero (a ∷ b ∷ c ∷ s) h k = absurd (ground arith)
pairs-Shape (suc n) (a ∷ b ∷ c ∷ s) h k =
    subst (λ x. Shape (suc n) (a ∷ b ∷ x ∷ s)) (ground arith)
      (and_more (ground arith) (ground arith) (pairs-Shape n s (ground arith) (ground arith)))
pairs-Shape zero (a ∷ []) h k = absurd (ground arith)
pairs-Shape zero [] h k = absurd (ground arith)
pairs-Shape (suc n) (a ∷ b ∷ []) h k = absurd (ground arith)
pairs-Shape (suc n) (a ∷ []) h k = absurd (ground arith)
pairs-Shape (suc n) [] h k = absurd (ground arith)

Shape-plain : {n : ℕ} {s : Text} → Shape n s → plain s ≡ true
Shape-plain (pair h k) = ground arith
Shape-plain (and_more h k m) = ground (arith, Shape-plain m)

upper-plain : (s : Text) → plain s ≡ true → upper s ≡ s
unfolding upper upper_point
upper-plain [] h = refl
upper-plain (c ∷ cs) h = ground (arith, upper-plain cs)

colons-plain : (s : Text) → plain s ≡ true → colons s ≡ s
unfolding colons
colons-plain [] h = refl
colons-plain (c ∷ cs) h = ground (arith, colons-plain cs)

plain-full : (s : Text) → plain s ≡ true → full s ≡ true
unfolding is_space
plain-full [] h = refl
plain-full (c ∷ cs) h = ground (arith, plain-full cs)

cleaned_plain : (s : Text) → plain s ≡ true → colons (upper (strip s)) ≡ s
cleaned_plain s h =
    ap (λ t. colons (upper t)) (strip-full s (plain-full s h))
    ∙ ap colons (upper-plain s h)
    ∙ colons-plain s h

-- An address in its normal form: six pairs with colons between them, and no more.
pub record IsMac (m : Text) : Type 0 where
  pub matches : mac_re m ≡ true
  pub size : length m ≡ 17

matched-IsMac : (m : Text) → mac_re m ≡ true → (last 0 m == 10) ≡ false → IsMac m
unfolding mac_re
matched-IsMac m h k = record { matches = h; size = pairs-length 5 0 m h k }

IsMac-plain : (m : Text) → IsMac m → plain m ≡ true
unfolding mac_re
IsMac-plain m h = Shape-plain (pairs-Shape 5 m h.matches h.size)

normalize_mac_same : (m : Text) → IsMac m → normalize_mac m ≡ some m
unfolding normalize_mac with_colons
normalize_mac_same m h = ground (arith, cleaned_plain m (IsMac-plain m h), h.matches, h.size)

cleaned_IsMac : (value m : Text) → normalize_mac value ≡ some m → IsMac m
unfolding normalize_mac
cleaned_IsMac value m h =
    let cleaned = with_colons (colons (upper (strip value))) in
    elim (Bool-cases (mac_re cleaned)) [
      | inl e ↦ subst IsMac (ground arith) (matched-IsMac cleaned e (cleaned-last value))
      | inr e ↦ absurd (ground arith)
    ]

-- What is accepted as an address comes back in the one normal form: six pairs of the digits 0 to 9 and
-- A to F with colons between them and nothing after them, which is accepted again as it is.
pub normalize_mac-IsMac :
    (value m : Text) → normalize_mac value ≡ some m → IsMac m × (normalize_mac m ≡ some m)
normalize_mac-IsMac value m h = let k = cleaned_IsMac value m h in (k, normalize_mac_same m k)

Shape-without : {n : ℕ} {m : Text} → Shape n m → length (without b':' m) ≡ 2 * n + 2
unfolding without
Shape-without (pair h k) = ground arith
Shape-without (and_more h k m) = ground (arith, Shape-without m)

join_pairs_cons :
    (a b : ℕ) (s : Text) → 1 ≤ length s → join_pairs (a ∷ b ∷ s) ≡ a ∷ b ∷ b':' ∷ join_pairs s
unfolding join_pairs
join_pairs_cons a b [] h = absurd (omega arith)
join_pairs_cons a b (c ∷ s) h = refl

-- The pairs without their colons.
without_pair :
    (a b : ℕ) (s : Text)
    → is_digit a ≡ true
    → is_digit b ≡ true
    → without b':' (a ∷ b ∷ b':' ∷ s) ≡ a ∷ b ∷ without b':' s
unfolding without
without_pair a b s h k = ground arith

join_pairs-without : {n : ℕ} {m : Text} → Shape n m → join_pairs (without b':' m) ≡ m
unfolding without join_pairs
join_pairs-without (pair h k) = ground arith
join_pairs-without (and_more {n} {a} {b} {s} h k m) =
    ap join_pairs (without_pair a b s h k)
    ∙ join_pairs_cons a b (without b':' s) (omega (arith, Shape-without m))
    ∙ ap (λ t. a ∷ b ∷ b':' ∷ t) (join_pairs-without m)

has-without : (c : ℕ) (s : Text) → has c (without c s) ≡ false
unfolding has without
has-without c [] = refl
has-without c (d ∷ ds) = ground (arith, has-without c ds)

plain-without : (s : Text) → plain s ≡ true → plain (without b':' s) ≡ true
unfolding without
plain-without [] h = refl
plain-without (c ∷ cs) h = ground (arith, plain-without cs)

-- A normal address without its colons is twelve digits, and is accepted as the same address.
pub normalize_mac-without :
    (m : Text)
    → IsMac m
    → (length (without b':' m) ≡ 12) × (normalize_mac (without b':' m) ≡ some m)
unfolding normalize_mac with_colons mac_re
normalize_mac-without m h =
    let shape = pairs-Shape 5 m h.matches h.size in
    let size = Shape-without shape in
    (
      size,
      ground (
        arith,
        cleaned_plain (without b':' m) (plain-without m (IsMac-plain m h)),
        has-without b':' m,
        join_pairs-without shape,
        h.matches,
        size,
      ),
    )
