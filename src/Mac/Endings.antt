-- ===== src/Mac/Endings.antt =====
-- How the texts of `normalize_mac` of custom_components/nimly_manager/ble_setup.py end: `$` also
-- stands before a newline, and none is left there.
use nimly_manager.Base.{
  ℕ, zero, suc, ◌+◌, ◌-◌, ◌*◌, ◌≡◌, refl, ap, ◌∙◌, true, false, [], ◌∷◌, ◌==◌, within, length,
  if◌then◌else◌, arith, Bool-cases, inl, inr,
}
use nimly_manager.Text.{Text, strip}
use nimly_manager.Text.Strip.{last, strip-last}
use nimly_manager.Mac.{upper_point, upper, colons, join_pairs, pairs, with_colons}

upper-last :
    (d e : ℕ) (s : Text)
    → (last d s == 10) ≡ false
    → ((e == 10) ≡ true → (d == 10) ≡ true)
    → (last e (upper s) == 10) ≡ false
unfolding upper upper_point last
upper-last d e [] h k = ground arith
upper-last d e (c ∷ cs) h k = elim (Bool-cases (within b'a' b'z' c)) [
  | inl small ↦ rw small (upper-last c (c - 32) cs h (ground arith))
  | inr large ↦ elim (Bool-cases (c == 0xfb00)) [
    | inl two ↦ rw (large, two) (upper-last c b'F' cs h (ground arith))
    | inr one ↦ rw (large, one) (upper-last c c cs h (λ x. x))
  ]
]

colons-last :
    (d e : ℕ) (s : Text)
    → (last d s == 10) ≡ false
    → ((e == 10) ≡ true → (d == 10) ≡ true)
    → (last e (colons s) == 10) ≡ false
unfolding colons last
colons-last d e [] h k = ground arith
colons-last d e (c ∷ cs) h k = colons-last c (if c == b'-' then b':' else c) cs h (ground arith)

join_pairs-last : (e : ℕ) (s : Text) → last e (join_pairs s) ≡ last e s
unfolding join_pairs last
join_pairs-last e (a ∷ b ∷ c ∷ cs) = join_pairs-last b':' (c ∷ cs)
join_pairs-last e (a ∷ b ∷ []) = refl
join_pairs-last e (a ∷ []) = refl
join_pairs-last e [] = refl

with_colons-last : (e : ℕ) (s : Text) → last e (with_colons s) ≡ last e s
unfolding with_colons
with_colons-last e s = ground (arith, join_pairs-last e s)

-- The text that is matched with the expression does not end in a newline.
pub cleaned-last :
    (value : Text) → (last 0 (with_colons (colons (upper (strip value)))) == 10) ≡ false
cleaned-last value =
    ap (λ n. n == 10) (with_colons-last 0 (colons (upper (strip value))))
    ∙ colons-last 0 0 (upper (strip value))
        (upper-last 0 0 (strip value) (strip-last value) (λ h. h)) (λ h. h)

pub pairs-length :
    (n e : ℕ) (s : Text) → pairs n s ≡ true → (last e s == 10) ≡ false → length s ≡ 3 * n + 2
unfolding pairs last
pairs-length zero e (a ∷ b ∷ []) h k = refl
pairs-length zero e (a ∷ b ∷ c ∷ []) h k = absurd (ground arith)
pairs-length zero e (a ∷ b ∷ c ∷ d ∷ s) h k = absurd (ground arith)
pairs-length (suc n) e (a ∷ b ∷ c ∷ s) h k = ground (arith, pairs-length n c s (ground arith) k)
pairs-length zero e (a ∷ []) h k = absurd (ground arith)
pairs-length zero e [] h k = absurd (ground arith)
pairs-length (suc n) e (a ∷ b ∷ []) h k = absurd (ground arith)
pairs-length (suc n) e (a ∷ []) h k = absurd (ground arith)
pairs-length (suc n) e [] h k = absurd (ground arith)
