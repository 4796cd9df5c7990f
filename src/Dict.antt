-- ===== src/Dict.antt =====
-- A Python dict with integer keys, in insertion order.
pub mod Texts
use nimly_manager.Base.{◌≡◌, refl, Option, none, some, List, [], ◌∷◌, arith, if◌then◌else◌}
use nimly_manager.Base.Int.{ℤ, ◌==ℤ◌, ==ℤ_iff}

module _ {ℓ} {V : Type ℓ} where
  -- d.get(k)
  unfoldable pub lookup : ℤ → List (ℤ × V) → Option V
  lookup k [] = none
  lookup k ((j, v) ∷ d) = if j ==ℤ k then some v else lookup k d

  -- d[k] = v
  unfoldable pub insert : ℤ → V → List (ℤ × V) → List (ℤ × V)
  insert k v [] = (k, v) ∷ []
  insert k v ((j, w) ∷ d) = if j ==ℤ k then (j, v) ∷ d else (j, w) ∷ insert k v d

  pub lookup-insert :
      (k j : ℤ) (v : V) (d : List (ℤ × V))
      → lookup j (insert k v d) ≡ (if k ==ℤ j then some v else lookup j d)
  unfolding lookup insert
  lookup-insert k j v [] = refl
  lookup-insert k j v ((i, w) ∷ d) =
      ground (arith, ==ℤ_iff k j, ==ℤ_iff i k, ==ℤ_iff i j, lookup-insert k j v d)
