-- ===== src/Base/Exec.antt =====
-- Methods that may raise, as actions on an object: a `do` block runs them in turn, and what was
-- written before a raise stays written.
use mathlib.Core.Path.{◌≡◌, refl, sym, ap, ◌∙◌, subst}
use mathlib.Core.Bool.{Bool, true, false}
use mathlib.Core.Logic.{inl, inr}
use native.Mathlib.Omega.{arith}
use nimly_manager.Base.Tests.{Bool-cases, if◌then◌else◌}
use nimly_manager.Base.Result.{Result, ok, err, Exec}

module _ {E S : Type 0} where
  abbrev pub pure : {A : Type 0} → A → Exec E S A
  pure a s = (ok a, s)

  abbrev pub lift : {A : Type 0} → Result E A → Exec E S A
  lift r s = (r, s)

  abbrev pub gets : {A : Type 0} → (S → A) → Exec E S A
  gets f s = (ok (f s), s)

  abbrev pub modify : (S → S) → Exec E S (Unit {0})
  modify f s = (ok tt, f s)

  -- `if test(self): raise error(self)`
  abbrev pub raise_when : (S → Bool) → (S → E) → Exec E S (Unit {0})
  raise_when test error s = if test s then (err (error s), s) else (ok tt, s)

  infixl 5 ◌>>=◌ ◌>>◌
  abbrev pub ◌>>=◌ : {A B : Type 0} → Exec E S A → (A → Exec E S B) → Exec E S B
  ◌>>=◌ m f s = let (r, s') = m s in elim r [ ok a ↦ f a s' | err e ↦ (err e, s') ]

  abbrev pub ◌>>◌ : {B : Type 0} → Exec E S (Unit {0}) → Exec E S B → Exec E S B
  m >> k = m >>= λ _. k

-- The value that a block went on with, where the block returned.
module _ {E S A B : Type 0} (m : Exec E S A) (f : A → Exec E S B) (s : S) where
  abbrev pub Passes : B → Type 0
  Passes b = (a : A) × ((m s).0 ≡ ok a) × ((f a (m s).1).0 ≡ ok b)

  pub >>=-Passes : (b : B) → ((m >>= f) s).0 ≡ ok b → Passes b
  >>=-Passes b h = going (m s).0 (m s).1 h
    where
      going :
          (r : Result E A) (t : S)
          → (((λ (_ : S). (r, t)) >>= f) s).0 ≡ ok b
          → (a : A) × (r ≡ ok a) × ((f a t).0 ≡ ok b)
      going (ok a) t k = (a, refl, k)
      going (err e) t k = cc

module _ {E S A B : Type 0} (m : Exec E S A) (f : A → Exec E S B) (s : S) where
  -- A block goes on with what its first action returned.
  pub >>=-returned : (a : A) → (m s).0 ≡ ok a → (m >>= f) s ≡ f a (m s).1
  >>=-returned a h = going (m s).0 (m s).1 h
    where
      going : (r : Result E A) (t : S) → r ≡ ok a → ((λ (_ : S). (r, t)) >>= f) s ≡ f a t
      going (ok b) t k = ground arith
      going (err e) t k = absurd (ground arith)

  pub >>=-raised : (e : E) → (m s).0 ≡ err e → (m >>= f) s ≡ (err e, (m s).1)
  >>=-raised e h = going (m s).0 (m s).1 h
    where
      going : (r : Result E A) (t : S) → r ≡ err e → ((λ (_ : S). (r, t)) >>= f) s ≡ (err e, t)
      going (ok b) t k = absurd (ground arith)
      going (err e') t k = ground arith

  -- Where the block returned, so did its first action, and the block is its rest.
  pub >>=-rest :
      (b : B) → ((m >>= f) s).0 ≡ ok b → (a : A) × ((m s).0 ≡ ok a) × ((m >>= f) s ≡ f a (m s).1)
  >>=-rest b h = let (a, e, k) = >>=-Passes m f s b h in (a, e, >>=-returned a e)

clash : {E B : Type 0} (e : E) (b : B) → err e ≡ ok b → ⊥
clash e b h = ground arith

-- A test in front of a block.
module _ {E S B : Type 0} (test : S → Bool) (error : S → E) (k : Exec E S B) (s : S) where
  pub raise_when-raised : test s ≡ true → (raise_when test error >> k) s ≡ (err (error s), s)
  raise_when-raised h = going (test s) h
    where
      going :
          (b : Bool)
          → b ≡ true
          → ((λ (_ : S). if b then (err (error s), s) else (ok tt, s)) >> k) s ≡ (err (error s), s)
      going true e = refl
      going false e = absurd (ground arith)

  pub raise_when-passed : test s ≡ false → (raise_when test error >> k) s ≡ k s
  raise_when-passed h = going (test s) h
    where
      going :
          (b : Bool)
          → b ≡ false
          → ((λ (_ : S). if b then (err (error s), s) else (ok tt, s)) >> k) s ≡ k s
      going false e = refl
      going true e = absurd (ground arith)

  pub raise_when-brings : (P : S → Type 0) → P s → P (k s).1 → P ((raise_when test error >> k) s).1
  raise_when-brings P p q = elim (Bool-cases (test s)) [
    | inl e ↦ subst (λ (x : Result E B × S). P x.1) (sym (raise_when-raised e)) p
    | inr e ↦ subst (λ (x : Result E B × S). P x.1) (sym (raise_when-passed e)) q
  ]

  pub raise_when-returned : (b : B) → ((raise_when test error >> k) s).0 ≡ ok b → test s ≡ false
  raise_when-returned b h = elim (Bool-cases (test s)) [
    | inl e ↦ let r = raise_when-raised e in absurd (clash (error s) b (ap (λ x. x.0) (sym r) ∙ h))
    | inr e ↦ e
  ]

  pub raise_when_rest :
      (b : B)
      → ((raise_when test error >> k) s).0 ≡ ok b
      → (test s ≡ false) × ((raise_when test error >> k) s ≡ k s)
  raise_when_rest b h = let e = raise_when-returned b h in (e, raise_when-passed e)

-- Actions that keep a property of the object, whether they return or raise.
module _ {E S : Type 0} (P : S → Type 0) where
  abbrev pub Keeps : {A : Type 0} → Exec E S A → Type 0
  Keeps m = (s : S) → P s → P (m s).1

  pub >>=-Keeps :
      {A B : Type 0} (m : Exec E S A) (f : A → Exec E S B)
      → Keeps m
      → ((a : A) → Keeps (f a))
      → Keeps (m >>= f)
  >>=-Keeps {A} m f k l s p = going (m s).0 (m s).1 (k s p)
    where
      going : (r : Result E A) (t : S) → P t → P (((λ (_ : S). (r, t)) >>= f) s).1
      going (ok a) t q = l a t q
      going (err e) t q = q

  pub >>-Keeps :
      {B : Type 0} (m : Exec E S (Unit {0})) (k : Exec E S B) → Keeps m → Keeps k → Keeps (m >> k)
  >>-Keeps m k hm hk = >>=-Keeps m (λ _. k) hm (λ _. hk)

  -- A property that the first action brings about, and that the rest keeps.
  pub >>=-brings :
      {A B : Type 0} (m : Exec E S A) (f : A → Exec E S B) (s : S)
      → P (m s).1
      → ((a : A) → (m s).0 ≡ ok a → Keeps (f a))
      → P ((m >>= f) s).1
  >>=-brings {A} m f s p l = going (m s).0 (m s).1 p l
    where
      going :
          (r : Result E A) (t : S)
          → P t
          → ((a : A) → r ≡ ok a → Keeps (f a))
          → P (((λ (_ : S). (r, t)) >>= f) s).1
      going (ok a) t q k = k a refl t q
      going (err e) t q k = q

-- A property of the outcome, by what the first action did.
pub >>=-split :
    {E S A B : Type 0} (P : S → Type 0) (m : Exec E S A) (f : A → Exec E S B) (s : S)
    → ((e : E) → (m s).0 ≡ err e → P (m s).1)
    → ((a : A) → (m s).0 ≡ ok a → P (f a (m s).1).1)
    → P ((m >>= f) s).1
>>=-split {E} {S} {A} P m f s hr hk = going (m s).0 (m s).1 hr hk
  where
    going :
        (r : Result E A) (t : S)
        → ((e : E) → r ≡ err e → P t)
        → ((a : A) → r ≡ ok a → P (f a t).1)
        → P (((λ (_ : S). (r, t)) >>= f) s).1
    going (ok a) t i j = j a refl
    going (err e) t i j = i e refl

-- What is so wherever a block returns.
module _ {E S B : Type 0} (Q : B → S → Type 0) where
  abbrev pub Ends : Exec E S B → Type 0
  Ends k = (s : S) (b : B) → (k s).0 ≡ ok b → Q b (k s).1

  pub >>=-Ends :
      {A : Type 0} (m : Exec E S A) (f : A → Exec E S B) → ((a : A) → Ends (f a)) → Ends (m >>= f)
  >>=-Ends m f l s b h =
      let (a, e, k) = >>=-rest m f s b h in
      subst (λ (x : Result E B × S). Q b x.1) (sym k) (l a (m s).1 b (ap (λ x. x.0) (sym k) ∙ h))

  pub >>-Ends : (m : Exec E S (Unit {0})) (k : Exec E S B) → Ends k → Ends (m >> k)
  >>-Ends m k l = >>=-Ends m (λ _. k) (λ _. l)

-- A block that never returns.
module _ {E S : Type 0} where
  abbrev pub Fails : {A : Type 0} → Exec E S A → Type 0
  Fails m = (s : S) → (e : E) × ((m s).0 ≡ err e)

  pub >>=-Fails :
      {A B : Type 0} (m : Exec E S A) (f : A → Exec E S B)
      → ((a : A) → Fails (f a))
      → Fails (m >>= f)
  >>=-Fails {A} m f l s = going (m s).0 (m s).1
    where
      going : (r : Result E A) (t : S) → (e : E) × ((((λ (_ : S). (r, t)) >>= f) s).0 ≡ err e)
      going (ok a) t = l a t
      going (err e) t = (e, refl)

  pub >>-Fails : {B : Type 0} (m : Exec E S (Unit {0})) (k : Exec E S B) → Fails k → Fails (m >> k)
  >>-Fails m k l = >>=-Fails m (λ _. k) (λ _. l)
